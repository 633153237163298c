-- ===== src/Graph/Kruskal.antt =====
-- Graph.h: the union-find of `computeMST` has as its sets the nodes that the chosen edges join.
use mathlib.Core.List.{Memᴰ}
use mathlib.Core.List.Memᴰ.{head, tail}
use apgitproj.Base.{
  ℕ, suc, ◌+◌, ◌≤◌, ◌<◌, ◌≡◌, ◌≢◌, refl, sym, ◌∙◌, subst, ◌⊎◌, inl, inr, List, ◌∷◌, length, true,
  false, ◌||◌, ◌==◌, Bool-cases, if◌then◌else◌, arith,
}
use apgitproj.Graph.{Edge, UnionFind, unite}
use apgitproj.Graph.Find.{Root}
use apgitproj.Graph.Link.{IsValid}
use apgitproj.Graph.Unite.{United, unite-United}
use apgitproj.Graph.Joined.{
  Joined, Joined-trans, Joined-sym, Joined-edge_back, Joined-map, Root-unique, Root-Joined,
  HaveOneRoot, others,
}

-- The sets of a union-find of `n` nodes are what the edges of `chosen` join; every root is in
-- `roots`, of which there is one more than edges still to be chosen.
pub record Joins (n : ℕ) (chosen : List Edge) (roots : List ℕ) (bound room : ℕ) (uf : UnionFind)
    : Type 0 where
  pub size : length uf.parents ≡ n
  pub valid : IsValid uf bound
  pub rooted : (x : ℕ) → x < n → (r : ℕ) × Root uf.parents x r × Memᴰ r roots
  pub few : length roots ≤ suc room
  pub full : bound + room ≤ n
  pub linked : (e : Edge) → Memᴰ e chosen → HaveOneRoot uf.parents e.u e.v
  pub joined :
      (x y : ℕ) → x < n → y < n → HaveOneRoot uf.parents x y → Joined (λ e. Memᴰ e chosen) x y

-- The root after `unite`.
abbrev moved : ℕ → ℕ → ℕ → ℕ → ℕ
moved rx ry top r = if (r == rx) || (r == ry) then top else r

moved-still : (rx ry top r : ℕ) → rx ≡ ry → (top ≡ rx) ⊎ (top ≡ ry) → moved rx ry top r ≡ r
moved-still rx ry top r same one = ground arith

moved-first : (rx ry top : ℕ) → moved rx ry top rx ≡ top
moved-first rx ry top = ground arith

moved-second : (rx ry top : ℕ) → moved rx ry top ry ≡ top
moved-second rx ry top = ground arith

-- Roots that become one were one, or are the two that `unite` was given.
moved-one :
    (rx ry top r s : ℕ)
    → (top ≡ rx) ⊎ (top ≡ ry)
    → moved rx ry top r ≡ moved rx ry top s
    → (r ≡ s) ⊎ (((r ≡ rx) ⊎ (r ≡ ry)) × ((s ≡ rx) ⊎ (s ≡ ry)))
moved-one rx ry top r s one e = ground arith

module _ (n : ℕ) (chosen : List Edge) (roots : List ℕ) (bound room : ℕ) (uf : UnionFind) (e : Edge)
    (inv : Joins n chosen roots bound (suc room) uf) (in_u : e.u < n) (in_v : e.v < n) where
  united : United uf e.u e.v bound (unite uf e.u e.v)
  united =
      let size = inv.size in
      unite-United uf e.u e.v bound inv.valid (omega (arith, size, inv.full))
        (omega (arith, size, in_u)) (omega (arith, size, in_v))

  abbrev after : UnionFind
  after = (unite uf e.u e.v).1

  -- When the ends had one root, every root stays.
  pub kept_apart : (unite uf e.u e.v).0 ≡ false → Joins n chosen roots bound (suc room) after
  kept_apart failed =
      let u = united in
      let one : u.rx ≡ u.ry = ground (arith, u.answer, failed) in
      let stays : (z r : ℕ) → Root uf.parents z r → Root after.parents z r = λ z r t.
        subst (Root after.parents z) (moved-still u.rx u.ry u.top r one u.one) (u.merged z r t) in
      record {
        size = u.size ∙ inv.size;
        valid = rw failed at u.valid;
        rooted = λ x h. let r = inv.rooted x h in (r.0, stays x r.0 r.1, r.2);
        few = inv.few;
        full = inv.full;
        linked = λ f m. let l = inv.linked f m in (l.0, stays f.u l.0 l.1, stays f.v l.0 l.2);
        joined = λ x y hx hy h.
            let a = inv.rooted x hx in
            let b = inv.rooted y hy in
            let p = Root-unique after.parents x a.0 h.0 (stays x a.0 a.1) h.1 in
            let q = Root-unique after.parents y b.0 h.0 (stays y b.0 b.1) h.2 in
            inv.joined x y hx hy (a.0, a.1, subst (Root uf.parents y) (q ∙ sym p) b.1);
      }

  -- A node whose root is one of the two is joined to the first end of the edge.
  to_end :
      (z r : ℕ)
      → z < n
      → Root uf.parents z r
      → (r ≡ united.rx) ⊎ (r ≡ united.ry)
      → Joined (λ f. Memᴰ f (e ∷ chosen)) z e.u
  to_end z r h t (inl q) =
      Joined-map (λ f m. tail m) z e.u
        (inv.joined z e.u h in_u (united.rx, subst (Root uf.parents z) q t, united.root_x))
  to_end z r h t (inr q) =
      Joined-trans z e.v e.u
        (Joined-map (λ f m. tail m) z e.v
          (inv.joined z e.v h in_v (united.ry, subst (Root uf.parents z) q t, united.root_y)))
        (Joined-edge_back e (head refl))

  -- The root of a node is listed.
  listed : (z r : ℕ) → z < n → Root uf.parents z r → Memᴰ r roots
  listed z r h t =
      let a = inv.rooted z h in subst (λ s. Memᴰ s roots) (Root-unique uf.parents z a.0 r a.1 t) a.2

  linked_after : (f : Edge) → Memᴰ f (e ∷ chosen) → HaveOneRoot after.parents f.u f.v
  linked_after f (head q) =
      let u = united in
      let at_u =
        subst (Root after.parents e.u) (moved-first u.rx u.ry u.top) (u.merged e.u u.rx u.root_x) in
      let at_v =
        subst (Root after.parents e.v) (moved-second u.rx u.ry u.top)
          (u.merged e.v u.ry u.root_y) in
      subst (λ g. HaveOneRoot after.parents g.u g.v) (sym q) (u.top, at_u, at_v)
  linked_after f (tail k) =
      let l = inv.linked f k in
      (
        moved united.rx united.ry united.top l.0,
        united.merged f.u l.0 l.1,
        united.merged f.v l.0 l.2,
      )

  joined_after :
      (x y : ℕ)
      → x < n
      → y < n
      → HaveOneRoot after.parents x y
      → Joined (λ f. Memᴰ f (e ∷ chosen)) x y
  joined_after x y hx hy h =
      let u = united in
      let a = inv.rooted x hx in
      let b = inv.rooted y hy in
      let p =
        Root-unique after.parents x (moved u.rx u.ry u.top a.0) h.0 (u.merged x a.0 a.1) h.1 in
      let q =
        Root-unique after.parents y (moved u.rx u.ry u.top b.0) h.0 (u.merged y b.0 b.1) h.2 in
      elim (moved-one u.rx u.ry u.top a.0 b.0 u.one (p ∙ sym q)) [
        | inl one ↦
            Joined-map (λ f m. tail m) x y
              (inv.joined x y hx hy (a.0, a.1, subst (Root uf.parents y) (sym one) b.1))
        | inr (c, d) ↦
            Joined-trans x e.u y (to_end x a.0 hx a.1 c) (Joined-sym y e.u (to_end y b.0 hy b.1 d))
      ]

  -- When the ends had two roots, the edge joins their sets.
  merged_apart :
      (lost : ℕ)
      → (lost ≡ united.rx) ⊎ (lost ≡ united.ry)
      → (united.top ≢ lost)
      → (unite uf e.u e.v).0 ≡ true
      → (rest : List ℕ) × Joins n (e ∷ chosen) rest (bound + 1) room after
  merged_apart lost which other done =
      let u = united in
      let apart : u.rx ≢ u.ry = ground (arith, u.answer, done) in
      let m = moved u.rx u.ry u.top in
      let top_listed : Memᴰ u.top roots = elim u.one [
        | inl q ↦ subst (λ s. Memᴰ s roots) (sym q) (listed e.u u.rx in_u u.root_x)
        | inr q ↦ subst (λ s. Memᴰ s roots) (sym q) (listed e.v u.ry in_v u.root_y)
      ] in
      let lost_listed : Memᴰ lost roots = elim which [
        | inl q ↦ subst (λ s. Memᴰ s roots) (sym q) (listed e.u u.rx in_u u.root_x)
        | inr q ↦ subst (λ s. Memᴰ s roots) (sym q) (listed e.v u.ry in_v u.root_y)
      ] in
      let o = others lost roots lost_listed in
      let move : (z r : ℕ) → Root uf.parents z r → Memᴰ r roots → Memᴰ (m r) o.0 = λ z r t k.
        elim (Bool-cases ((r == u.rx) || (r == u.ry))) [
          | inl q ↦ rw q (o.2 u.top top_listed other)
          | inr q ↦ rw q (o.2 r k (λ same. ground arith))
        ] in
      (
        o.0,
        record {
          size = u.size ∙ inv.size;
          valid = rw done at u.valid;
          rooted = λ x h. let r = inv.rooted x h in (m r.0, u.merged x r.0 r.1, move x r.0 r.1 r.2);
          few = omega (arith, inv.few, o.1);
          full = omega (arith, inv.full);
          linked = linked_after;
          joined = joined_after;
        },
      )

  pub kept_joined :
      (unite uf e.u e.v).0 ≡ true
      → (rest : List ℕ) × Joins n (e ∷ chosen) rest (bound + 1) room after
  kept_joined done =
      let u = united in
      let apart : u.rx ≢ u.ry = ground (arith, u.answer, done) in
      elim u.one [
        | inl q ↦ merged_apart u.ry (inr refl) (λ s. apart (sym q ∙ s)) done
        | inr q ↦ merged_apart u.rx (inl refl) (λ s. apart (sym s ∙ q)) done
      ]

  -- Ends whose edge was not taken are joined already; ends whose edge was taken were not.
  pub was_joined : (unite uf e.u e.v).0 ≡ false → Joined (λ f. Memᴰ f chosen) e.u e.v
  was_joined failed =
      let u = united in
      let one : u.rx ≡ u.ry = ground (arith, u.answer, failed) in
      inv.joined e.u e.v in_u in_v (u.rx, u.root_x, subst (Root uf.parents e.v) (sym one) u.root_y)

  pub was_apart : (unite uf e.u e.v).0 ≡ true → ¬ Joined (λ f. Memᴰ f chosen) e.u e.v
  was_apart done j =
      let u = united in
      let apart : u.rx ≢ u.ry = ground (arith, u.answer, done) in
      let at_u = Root-Joined uf.parents (λ f. Memᴰ f chosen) inv.linked e.u e.v u.ry j u.root_y in
      apart (Root-unique uf.parents e.u u.rx u.ry u.root_x at_u)
