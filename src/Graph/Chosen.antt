-- ===== src/Graph/Chosen.antt =====
-- Graph.h: what the loop of `computeMST` over the sorted edges chooses.
use mathlib.Core.List.{Memᴰ}
use mathlib.Core.List.Memᴰ.{head, tail}
use apgitproj.Base.{
  ℕ, zero, suc, ◌+◌, ◌≤◌, ◌<◌, refl, sym, ap, subst, ◌⊎◌, inl, inr, List, [], ◌∷◌, Bool-cases,
  arith,
}
use apgitproj.Graph.{Edge, UnionFind, unite, choose_edges}
use apgitproj.Graph.Sort.{IsSorted, first}
use apgitproj.Graph.Joined.{Joined, Joined-edge, Joined-map, only_one}
use apgitproj.Graph.Kruskal.{Joins, kept_apart, kept_joined, was_joined, was_apart}

-- Each edge joins nodes that the edges before it, and those of `before`, do not join.
pub data IsAcyclic : List Edge → List Edge → Type 0 where
  no_more : (before : List Edge) → IsAcyclic before []
  grown :
      (before : List Edge) (e : Edge) (es : List Edge)
      → ¬ Joined (λ f. Memᴰ f before) e.u e.v
      → IsAcyclic (e ∷ before) es
      → IsAcyclic before (e ∷ es)

-- An edge of `before` or `chosen` that weighs at most `w`.
abbrev pub IsLight : List Edge → List Edge → ℕ → Edge → Type 0
IsLight before chosen w f = (Memᴰ f before ⊎ Memᴰ f chosen) × (f.weight ≤ w)

-- What the loop makes of the edges to come, after those of `before`.
pub record IsChosen (before es chosen : List Edge) : Type 0 where
  pub taken : (f : Edge) → Memᴰ f chosen → Memᴰ f es
  pub acyclic : IsAcyclic before chosen
  pub spans : (f : Edge) → Memᴰ f es → Joined (IsLight before chosen f.weight) f.u f.v

-- The edges to come have their ends among the nodes, and weigh no less than those of `before`.
pub record IsReady (n : ℕ) (before es : List Edge) : Type 0 where
  pub inside : (f : Edge) → Memᴰ f es → (f.u < n) × (f.v < n)
  pub heavy : (f g : Edge) → Memᴰ f before → Memᴰ g es → f.weight ≤ g.weight

IsReady-skip :
    (n : ℕ) (before es : List Edge) (e : Edge) → IsReady n before (e ∷ es) → IsReady n before es
IsReady-skip n before es e r = record {
  inside = λ f m. r.inside f (tail m);
  heavy = λ f g m k. r.heavy f g m (tail k);
}

IsReady-take :
    (n : ℕ) (before es : List Edge) (e : Edge)
    → ((f : Edge) → Memᴰ f es → e.weight ≤ f.weight)
    → IsReady n before (e ∷ es)
    → IsReady n (e ∷ before) es
IsReady-take n before es e light r = record { inside = λ f m. r.inside f (tail m); heavy = heavy }
  where
    heavy : (f g : Edge) → Memᴰ f (e ∷ before) → Memᴰ g es → f.weight ≤ g.weight
    heavy f g (head q) k = omega (arith, light g k, ap (λ (x : Edge). x.weight) q)
    heavy f g (tail m) k = r.heavy f g m (tail k)

-- With one root left, all ends are joined.
all_joined :
    (n : ℕ) (before es : List Edge) (roots : List ℕ) (bound : ℕ) (uf : UnionFind)
    → Joins n before roots bound 0 uf
    → IsReady n before es
    → IsChosen before es []
all_joined n before es roots bound uf inv ready = record {
  taken = λ f m. elim m [ ];
  acyclic = no_more before;
  spans = λ f m.
      let (hu, hv) = ready.inside f m in
      let a = inv.rooted f.u hu in
      let b = inv.rooted f.v hv in
      let one = only_one roots a.0 b.0 inv.few a.2 b.2 in
      Joined-map (λ g k. (inl k, ready.heavy g f k m)) f.u f.v
        (inv.joined f.u f.v hu hv (a.0, a.1, rw one b.1));
}

-- The loop goes on after an edge that was taken, or passed over.
after_taken :
    (before es chosen : List Edge) (e : Edge)
    → ¬ Joined (λ f. Memᴰ f before) e.u e.v
    → IsChosen (e ∷ before) es chosen
    → IsChosen before (e ∷ es) (e ∷ chosen)
after_taken before es chosen e apart c = record {
  taken = taken;
  acyclic = grown before e chosen apart c.acyclic;
  spans = spans;
}
  where
    taken : (f : Edge) → Memᴰ f (e ∷ chosen) → Memᴰ f (e ∷ es)
    taken f (head q) = head q
    taken f (tail m) = tail (c.taken f m)

    light : (w : ℕ) (f : Edge) → IsLight (e ∷ before) chosen w f → IsLight before (e ∷ chosen) w f
    light w f (inl (head q), h) = (inr (head q), h)
    light w f (inl (tail m), h) = (inl m, h)
    light w f (inr m, h) = (inr (tail m), h)

    spans : (f : Edge) → Memᴰ f (e ∷ es) → Joined (IsLight before (e ∷ chosen) f.weight) f.u f.v
    spans f (head q) = Joined-edge f (inr (head q), omega arith)
    spans f (tail m) = Joined-map (light f.weight) f.u f.v (c.spans f m)

after_passed :
    (n : ℕ) (before es chosen : List Edge) (e : Edge)
    → IsReady n before (e ∷ es)
    → Joined (λ f. Memᴰ f before) e.u e.v
    → IsChosen before es chosen
    → IsChosen before (e ∷ es) chosen
after_passed n before es chosen e ready joined c = record {
  taken = λ f m. tail (c.taken f m);
  acyclic = c.acyclic;
  spans = spans;
}
  where
    spans : (f : Edge) → Memᴰ f (e ∷ es) → Joined (IsLight before chosen f.weight) f.u f.v
    spans f (head q) =
        subst (λ g. Joined (IsLight before chosen g.weight) g.u g.v) (sym q)
          (Joined-map (λ g k. (inl k, ready.heavy g e k (head refl))) e.u e.v joined)
    spans f (tail m) = c.spans f m

pub choose_edges-IsChosen :
    (n : ℕ) (before es : List Edge) (roots : List ℕ) (bound room : ℕ) (uf : UnionFind)
    → Joins n before roots bound room uf
    → IsReady n before es
    → IsSorted es
    → IsChosen before es (choose_edges es room uf)
unfolding choose_edges
choose_edges-IsChosen n before [] roots bound room uf inv ready sorted = record {
  taken = λ f m. m;
  acyclic = no_more before;
  spans = λ f m. elim m [ ];
}
choose_edges-IsChosen n before (e ∷ es) roots bound zero uf inv ready sorted =
    all_joined n before (e ∷ es) roots bound uf inv ready
choose_edges-IsChosen n before (e ∷ es) roots bound (suc room) uf inv ready
      (first _ _ light sorted) =
    let (hu, hv) = ready.inside e (head refl) in
    elim (Bool-cases (unite uf e.u e.v).0) [
      | inl done ↦
          let (rest, inv') = kept_joined n before roots bound room uf e inv hu hv done in
          let c =
            choose_edges-IsChosen n (e ∷ before) es rest (bound + 1) room (unite uf e.u e.v).1 inv'
              (IsReady-take n before es e light ready) sorted in
          rw done (
            after_taken before es (choose_edges es room (unite uf e.u e.v).1) e
              (was_apart n before roots bound room uf e inv hu hv done) c)
      | inr failed ↦
          let c =
            choose_edges-IsChosen n before es roots bound (suc room) (unite uf e.u e.v).1
              (kept_apart n before roots bound room uf e inv hu hv failed)
              (IsReady-skip n before es e ready) sorted in
          rw failed (
            after_passed n before es (choose_edges es (suc room) (unite uf e.u e.v).1) e ready
              (was_joined n before roots bound room uf e inv hu hv failed) c)
    ]
