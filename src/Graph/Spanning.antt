-- ===== src/Graph/Spanning.antt =====
-- Graph.h: `computeMST` returns a forest of light edges that joins all that the graph joins.
use mathlib.Core.Logic.{∥∥₁_map, ∥∥₁_map₂}
use mathlib.Core.List.{Mem, Memᴰ, Perm}
use mathlib.Core.List.Memᴰ.{head, tail}
use mathlib.Core.List.Perm
use apgitproj.Base.{
  ℕ, zero, suc, ◌+◌, ◌-◌, ◌≤◌, ◌<◌, sym, ◌∙◌, subst, inl, inr, List, [], length, Bool-cases, ◌==◌,
  ==_iff, arith,
}
use apgitproj.Graph.{Edge, JoinGraph, new_union_find, sort_edges, compute_mst, counting}
use apgitproj.Graph.Sort.{sort_edges-IsSorted}
use apgitproj.Graph.Joined.{
  Joined, same, forth, back, Joined-trans, Joined-sym, Joined-map, Root-unique,
}
use apgitproj.Graph.Kruskal.{Joins}
use apgitproj.Graph.Start.{new_union_find-IsValid, length-counting, length-new_union_find}
use apgitproj.Graph.Chosen.{IsAcyclic, IsLight, IsChosen, choose_edges-IsChosen}

Memᴰ-counting : (i n x : ℕ) → i ≤ x → x < i + n → Memᴰ x (counting i n)
unfolding counting
Memᴰ-counting i zero x l h = absurd (omega arith)
Memᴰ-counting i (suc n) x l h = elim (Bool-cases (x == i)) [
  | inl e ↦ head ((==_iff x i).0 e)
  | inr e ↦ tail (Memᴰ-counting (suc i) n x (ground arith) (omega arith))
]

-- At the start no edge is chosen, and each node is its own root.
new_union_find-Joins : (n : ℕ) → 0 < n → Joins n [] (counting 0 n) 1 (n - 1) (new_union_find n)
new_union_find-Joins n some_node =
    let (valid, own) = new_union_find-IsValid n in
    record {
      size = length-new_union_find n;
      valid = valid;
      rooted = λ x h. (x, own x h, Memᴰ-counting 0 n x (omega arith) (omega arith));
      few = omega (arith, length-counting 0 n);
      full = omega arith;
      linked = λ e m. elim m [ ];
      joined = λ x y hx hy (r, p, q).
          let one = Root-unique (new_union_find n).parents x x r (own x hx) p in
          let two = Root-unique (new_union_find n).parents y y r (own y hy) q in
          subst (Joined (λ e. Memᴰ e []) x) (one ∙ sym two) (same x);
    }

-- Edges of `chosen` are of `es` and join, with no ring, what the edges of `es` join, by edges that
-- are no heavier.
pub record IsLeastForest (es chosen : List Edge) : Type 0 where
  pub taken : (f : Edge) → Mem f chosen → Mem f es
  pub acyclic : IsAcyclic [] chosen
  pub spans :
      (w x y : ℕ)
      → Joined (λ f. Mem f es × (f.weight ≤ w)) x y
      → ∥ Joined (λ f. Mem f chosen × (f.weight ≤ w)) x y ∥₁

module _ (es sorted chosen : List Edge) (same_edges : Perm sorted es)
    (c : IsChosen [] sorted chosen) where
  light : (w v : ℕ) → v ≤ w → (f : Edge) → IsLight [] chosen v f → Mem f chosen × (f.weight ≤ w)
  light w v le f (inl m, h) = elim m [ ]
  light w v le f (inr m, h) = (∣ m ∣₁, omega arith)

  edge_spanned :
      (w : ℕ) (f : Edge)
      → Mem f es
      → f.weight ≤ w
      → ∥ Joined (λ g. Mem g chosen × (g.weight ≤ w)) f.u f.v ∥₁
  edge_spanned w f m le =
      ∥∥₁_map ((Perm.mem_iff same_edges).1 m)
        (λ k. Joined-map (light w f.weight le) f.u f.v (c.spans f k))

  spanned :
      (w x y : ℕ)
      → Joined (λ f. Mem f es × (f.weight ≤ w)) x y
      → ∥ Joined (λ f. Mem f chosen × (f.weight ≤ w)) x y ∥₁
  spanned w x y (same _) = ∣ same x ∣₁
  spanned w x y (forth _ _ e (m, le) q s) =
      ∥∥₁_map₂ (edge_spanned w e m le) (spanned w e.v y s)
        (λ j k. rw q (Joined-trans e.u e.v y j k))
  spanned w x y (back _ _ e (m, le) q s) =
      ∥∥₁_map₂ (edge_spanned w e m le) (spanned w e.u y s)
        (λ j k. rw q (Joined-trans e.v e.u y (Joined-sym e.u e.v j) k))

-- On a graph with a table, whose edges have their ends among the tables, `computeMST` chooses a
-- least forest.
pub compute_mst-IsLeastForest :
    (g : JoinGraph)
    → 0 < length g.names
    → ((f : Edge) → Mem f g.edges → (f.u < length g.names) × (f.v < length g.names))
    → IsLeastForest g.edges (compute_mst g)
unfolding compute_mst
compute_mst-IsLeastForest g some_table inside =
    let n = length g.names in
    let (perm, sorted) = sort_edges-IsSorted g.edges in
    let c =
      choose_edges-IsChosen n [] (sort_edges g.edges) (counting 0 n) 1 (n - 1) (new_union_find n)
        (new_union_find-Joins n some_table)
        (record {
          inside = λ f m. inside f ((Perm.mem_iff perm).0 ∣ m ∣₁);
          heavy = λ f h m k. elim m [ ];
        })
        sorted in
    record {
      taken = λ f m. (Perm.mem_iff perm).0 (∥∥₁_map m (c.taken f));
      acyclic = c.acyclic;
      spans = spanned g.edges (sort_edges g.edges) (compute_mst g) perm c;
    }
