-- ===== src/Graph/Find.antt =====
-- Graph.h: `find` returns the root of a tree, and path halving leaves every root.
use apgitproj.Base.{
  ℕ, zero, suc, ◌+◌, ◌≤◌, ◌<◌, ◌≡◌, ◌≢◌, ◌↔◌, refl, ap, ◌∙◌, sym, subst, true, false, Bool-cases,
  inl, inr, List, length, length-set, set, get_or-set, ◌==◌, ==_iff, if◌then◌else◌, arith,
}
use apgitproj.Graph.{parent_of, find_root}

-- The root above a node.
pub data Root (ps : List ℕ) : ℕ → ℕ → Type 0 where
  here : (x : ℕ) → parent_of ps x ≡ x → Root ps x x
  above : (x r : ℕ) → parent_of ps x ≢ x → Root ps (parent_of ps x) r → Root ps x r

-- Parents are nodes, and of greater rank than their children.
pub record IsForest (ps : List ℕ) (rank : ℕ → ℕ) : Type 0 where
  pub closed : (x : ℕ) → x < length ps → parent_of ps x < length ps
  pub rising : (x : ℕ) → x < length ps → parent_of ps x ≢ x → rank x < rank (parent_of ps x)

true_not_false : true ≢ false
true_not_false e = ground arith

not_less : (a b : ℕ) → a < b → b ≢ a
not_less a b h e = omega arith

-- A node and its parent have the same root.
Root-parent : (ps : List ℕ) (y r : ℕ) → Root ps y r → Root ps (parent_of ps y) r
Root-parent ps y r (here _ e) = subst (λ z. Root ps z r) (sym e) (here y e)
Root-parent ps y r (above _ _ n t) = t

Root-child : (ps : List ℕ) (y r : ℕ) → Root ps (parent_of ps y) r → Root ps y r
Root-child ps y r t = elim (Bool-cases (parent_of ps y == y)) [
  | inl e ↦ subst (λ z. Root ps z r) ((==_iff (parent_of ps y) y).0 e) t
  | inr e ↦ above y r (λ q. true_not_false (sym ((==_iff (parent_of ps y) y).1 q) ∙ e)) t
]

module _ (ps : List ℕ) (x : ℕ) (inside : x < length ps) (not_root : parent_of ps x ≢ x) where
  abbrev grand : ℕ
  grand = parent_of ps (parent_of ps x)

  abbrev halved : List ℕ
  halved = set ps x grand

  parent-halved : (y : ℕ) → parent_of halved y ≡ (if x == y then grand else parent_of ps y)
  parent-halved y = get_or-set ps x y grand 0 inside

  -- The parent is kept, or is the node whose path is halved.
  parent-halved_at : (y : ℕ) → x ≡ y → parent_of halved y ≡ grand
  parent-halved_at y e =
      let test : (x == y) ≡ true = (==_iff x y).1 e in parent-halved y ∙ rw test refl

  parent-halved_off : (y : ℕ) → (x == y) ≡ false → parent_of halved y ≡ parent_of ps y
  parent-halved_off y e = parent-halved y ∙ rw e refl

  grand_higher : (rank : ℕ → ℕ) → IsForest ps rank → rank x < rank grand
  grand_higher rank f =
      let p = parent_of ps x in
      let low = f.rising x inside not_root in
      elim (Bool-cases (grand == p)) [
        | inl e ↦ let same = ap rank ((==_iff grand p).0 e) in omega (arith, low, same)
        | inr e ↦
            let other : grand ≢ p = λ q. true_not_false (sym ((==_iff grand p).1 q) ∙ e) in
            omega (arith, low, f.rising p (f.closed x inside) other)
      ]

  halved-IsForest : (rank : ℕ → ℕ) → IsForest ps rank → IsForest halved rank
  halved-IsForest rank f =
      let size : length halved ≡ length ps = length-set ps x grand in
      record {
        closed = λ y h. ground (
          arith,
          size,
          parent-halved y,
          f.closed y,
          f.closed (parent_of ps x) (f.closed x inside),
        );
        rising = λ y h n. elim (Bool-cases (x == y)) [
          | inl e ↦
              let same = (==_iff x y).0 e in
              omega (arith, grand_higher rank f, ap rank same, ap rank (parent-halved_at y same))
          | inr e ↦
              let kept = parent-halved_off y e in
              omega (arith, f.rising y (omega (arith, size, h)) (λ q. n (kept ∙ q)), ap rank kept)
        ];
      }

  -- A root stays the root of what is below it.
  Root-above :
      (y r : ℕ) → parent_of halved y ≡ grand → grand ≢ y → Root halved grand r → Root halved y r
  Root-above y r e n t = above y r (λ q. n (sym e ∙ q)) (subst (λ z. Root halved z r) (sym e) t)

  -- The root above the parent of `x` is the root above its grandparent.
  Root-grand : (r : ℕ) → Root halved (parent_of ps x) r → Root halved grand r
  Root-grand r t =
      let p = parent_of ps x in
      let off : (x == p) ≡ false = ground arith in
      subst (λ z. Root halved z r) (parent-halved_off p off) (Root-parent halved p r t)

  Root-halved : (rank : ℕ → ℕ) → IsForest ps rank → (y r : ℕ) → Root ps y r → Root halved y r
  Root-halved rank f y r (here _ e) = elim (Bool-cases (x == y)) [
    | inl s ↦ absurd (not_root (subst (λ z. parent_of ps z ≡ z) (sym ((==_iff x y).0 s)) e))
    | inr s ↦ here y (parent-halved_off y s ∙ e)
  ]
  Root-halved rank f y r (above _ _ n t) =
      let up = Root-halved rank f (parent_of ps y) r t in
      elim (Bool-cases (x == y)) [
        | inl e ↦
            let same = (==_iff x y).0 e in
            Root-above y r (parent-halved_at y same)
              (λ q. not_less (rank x) (rank grand) (grand_higher rank f) (ap rank (q ∙ sym same)))
              (Root-grand r (subst (λ z. Root halved (parent_of ps z) r) (sym same) up))
        | inr e ↦
            let kept = parent-halved_off y e in
            above y r (λ q. n (sym kept ∙ q)) (subst (λ z. Root halved z r) (sym kept) up)
      ]

  Root-unhalved : (rank : ℕ → ℕ) → IsForest ps rank → (y r : ℕ) → Root halved y r → Root ps y r
  Root-unhalved rank f y r (here _ e) = elim (Bool-cases (x == y)) [
    | inl s ↦
        let same = (==_iff x y).0 s in
        absurd (
          not_less (rank x) (rank grand) (grand_higher rank f)
            (ap rank (sym (parent-halved_at y same) ∙ e ∙ sym same)))
    | inr s ↦ here y (sym (parent-halved_off y s) ∙ e)
  ]
  Root-unhalved rank f y r (above _ _ n t) =
      let up = Root-unhalved rank f (parent_of halved y) r t in
      elim (Bool-cases (x == y)) [
        | inl e ↦
            let same = (==_iff x y).0 e in
            let at_grand = subst (λ z. Root ps z r) (parent-halved_at y same) up in
            subst (λ z. Root ps z r) same
              (Root-child ps x r (Root-child ps (parent_of ps x) r at_grand))
        | inr e ↦ Root-child ps y r (subst (λ z. Root ps z r) (parent-halved_off y e) up)
      ]

-- What `find` returns: a root above the node, in a forest of the same roots.
pub record Found (ps : List ℕ) (rank : ℕ → ℕ) (x : ℕ) (result : ℕ × List ℕ) : Type 0 where
  pub inside : result.0 < length ps
  pub root : Root ps x result.0
  pub top : parent_of result.1 result.0 ≡ result.0
  pub size : length result.1 ≡ length ps
  pub forest : IsForest result.1 rank
  pub same_roots : (y r : ℕ) → Root ps y r ↔ Root result.1 y r

-- In a forest whose ranks are below `bound`, with fuel for the ranks above that of the node, `find`
-- comes to the root of the node, and path halving leaves the root of every node.
pub find_root-Found :
    (fuel : ℕ) (ps : List ℕ) (rank : ℕ → ℕ) (x bound : ℕ)
    → IsForest ps rank
    → x < length ps
    → ((y : ℕ) → y < length ps → rank y < bound)
    → bound ≤ rank x + fuel
    → Found ps rank x (find_root fuel ps x)
unfolding find_root
find_root-Found zero ps rank x bound f h b k = absurd (omega (arith, b x h))
find_root-Found (suc fuel) ps rank x bound f h b k = elim (Bool-cases (parent_of ps x == x)) [
  | inl e ↦
      let top = (==_iff (parent_of ps x) x).0 e in
      rw e (record {
        inside = h;
        root = here x top;
        top = top;
        size = refl;
        forest = f;
        same_roots = λ y r. (λ t. t, λ t. t);
      })
  | inr e ↦
      let n : parent_of ps x ≢ x =
        λ q. true_not_false (sym ((==_iff (parent_of ps x) x).1 q) ∙ e) in
      let p = grand ps x h n in
      let ps' = halved ps x h n in
      let size : length ps' ≡ length ps = length-set ps x p in
      let inside : p < length ps = f.closed (parent_of ps x) (f.closed x h) in
      let higher = grand_higher ps x h n rank f in
      let rest =
        find_root-Found fuel ps' rank p bound (halved-IsForest ps x h n rank f)
          (omega (arith, size, inside)) (λ y g. b y (omega (arith, size, g)))
          (omega (arith, higher, k)) in
      let back = Root-unhalved ps x h n rank f p (find_root fuel ps' p).0 rest.root in
      rw e (record {
        inside = omega (arith, rest.inside, size);
        root =
            Root-child ps x (find_root fuel ps' p).0
              (Root-child ps (parent_of ps x) (find_root fuel ps' p).0 back);
        top = rest.top;
        size = rest.size ∙ size;
        forest = rest.forest;
        same_roots = λ y r. (
          λ t. (rest.same_roots y r).0 (Root-halved ps x h n rank f y r t),
          λ t. Root-unhalved ps x h n rank f y r ((rest.same_roots y r).1 t),
        );
      })
]
