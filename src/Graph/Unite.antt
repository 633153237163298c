-- ===== src/Graph/Unite.antt =====
-- Graph.h: `unite` joins two trees, and tells whether they were apart.
use apgitproj.Base.{
  ℕ, ◌+◌, ◌≤◌, ◌<◌, ◌≡◌, ◌≢◌, refl, ap, ◌∙◌, sym, subst, Bool, not, ◌||◌, Bool-cases, inl, inr, ◌⊎◌,
  List, length, ltb, ◌==◌, ==_iff, if◌then◌else◌, arith,
}
use apgitproj.Graph.{UnionFind, parent_of, find_root, link, unite}
use apgitproj.Graph.Find.{Root, here, above, find_root-Found}
use apgitproj.Graph.Link.{rank_of, IsValid, size-link, link-IsValid, Root-link}

-- A root `r` that is one of two is replaced by the root of both.
if_same_root : (r p q : ℕ) → p ≡ q → r ≡ (if (r == p) || (r == q) then p else r)
if_same_root r p q e = ground arith

if_first : (r p q : ℕ) → (if r == q then p else r) ≡ (if (r == p) || (r == q) then p else r)
if_first r p q = ground arith

if_second : (r p q : ℕ) → (if r == p then q else r) ≡ (if (r == p) || (r == q) then q else r)
if_second r p q = ground arith

Root-top : (ps : List ℕ) (y r : ℕ) → Root ps y r → parent_of ps r ≡ r
Root-top ps y r (here _ e) = e
Root-top ps y r (above _ _ n t) = Root-top ps (parent_of ps y) r t

-- What `unite` does: the two nodes get one root, and nodes of other trees keep theirs.
pub record United (uf : UnionFind) (x y bound : ℕ) (result : Bool × UnionFind) : Type 0 where
  pub rx : ℕ
  pub ry : ℕ
  pub top : ℕ
  pub root_x : Root uf.parents x rx
  pub root_y : Root uf.parents y ry
  pub answer : result.0 ≡ not (rx == ry)
  pub size : length result.1.parents ≡ length uf.parents
  pub one : (top ≡ rx) ⊎ (top ≡ ry)
  pub valid : IsValid result.1 (if result.0 then bound + 1 else bound)
  pub merged :
      (z r : ℕ)
      → Root uf.parents z r
      → Root result.1.parents z (if (r == rx) || (r == ry) then top else r)

-- On a valid union-find, with ranks below a bound that is at most the number of nodes, `unite`
-- reports whether the two nodes had different roots; afterwards they have one root, nodes of the
-- other trees keep theirs, and the union-find is valid, with a bound greater by one where it changed the sets.
pub unite-United :
    (uf : UnionFind) (x y bound : ℕ)
    → IsValid uf bound
    → bound ≤ length uf.parents
    → x < length uf.parents
    → y < length uf.parents
    → United uf x y bound (unite uf x y)
unfolding unite
unite-United uf x y bound v small hx hy =
    let n = length uf.parents in
    let a = find_root n uf.parents x in
    let b = find_root n a.1 y in
    let uf' : UnionFind = record uf { parents = b.1 } in
    let fa = find_root-Found n uf.parents (rank_of uf) x bound v.forest hx v.low (omega arith) in
    let fb =
      find_root-Found n a.1 (rank_of uf) y bound fa.forest (omega (arith, fa.size))
        (λ z h. v.low z (omega (arith, fa.size, h))) (omega arith) in
    let size : length b.1 ≡ n = fb.size ∙ fa.size in
    let valid' : IsValid uf' bound = record {
      forest = fb.forest;
      ranked = v.ranked ∙ sym size;
      low = λ z h. v.low z (omega (arith, size, h));
    } in
    let kept : (z r : ℕ) → Root uf.parents z r → Root b.1 z r =
      λ z r t. (fb.same_roots z r).0 ((fa.same_roots z r).0 t) in
    let root_y = (fa.same_roots y b.0).1 fb.root in
    let top_a = Root-top b.1 x a.0 (kept x a.0 fa.root) in
    let in_a : a.0 < length b.1 = omega (arith, fa.inside, size) in
    let in_b : b.0 < length b.1 = omega (arith, fb.inside, fb.size) in
    elim (Bool-cases (a.0 == b.0)) [
      | inl e ↦
          let same = (==_iff a.0 b.0).0 e in
          rw e (record {
            rx = a.0;
            ry = b.0;
            top = a.0;
            root_x = fa.root;
            root_y = root_y;
            answer = sym (ap not e);
            size = size;
            one = inl refl;
            valid = valid';
            merged = λ z r t. subst (Root b.1 z) (if_same_root r a.0 b.0 same) (kept z r t);
          })
      | inr e ↦
          let apart : a.0 ≢ b.0 = ground arith in
          elim (Bool-cases (ltb (rank_of uf a.0) (rank_of uf b.0))) [
            | inl l ↦
                let le : rank_of uf a.0 ≤ rank_of uf b.0 = ground arith in
                rw (e, l)
                  (record {
                    rx = a.0;
                    ry = b.0;
                    top = b.0;
                    root_x = fa.root;
                    root_y = root_y;
                    answer = sym (ap not e);
                    size =
                        size-link uf' b.0 a.0 bound valid' in_b in_a fb.top top_a
                          (λ q. apart (sym q)) le
                        ∙ size;
                    one = inr refl;
                    valid =
                        link-IsValid uf' b.0 a.0 bound valid' in_b in_a fb.top top_a
                          (λ q. apart (sym q)) le;
                    merged = λ z r t.
                        subst (Root (link uf' b.0 a.0).parents z) (if_second r a.0 b.0) (
                          Root-link uf' b.0 a.0 bound valid' in_b in_a fb.top top_a
                            (λ q. apart (sym q)) le z r (kept z r t));
                  })
            | inr l ↦
                let le : rank_of uf b.0 ≤ rank_of uf a.0 = ground arith in
                rw (e, l)
                  (record {
                    rx = a.0;
                    ry = b.0;
                    top = a.0;
                    root_x = fa.root;
                    root_y = root_y;
                    answer = sym (ap not e);
                    size =
                        size-link uf' a.0 b.0 bound valid' in_a in_b top_a fb.top apart le ∙ size;
                    one = inl refl;
                    valid = link-IsValid uf' a.0 b.0 bound valid' in_a in_b top_a fb.top apart le;
                    merged = λ z r t.
                        subst (Root (link uf' a.0 b.0).parents z) (if_first r a.0 b.0) (
                          Root-link uf' a.0 b.0 bound valid' in_a in_b top_a fb.top apart le z r
                            (kept z r t));
                  })
          ]
    ]
