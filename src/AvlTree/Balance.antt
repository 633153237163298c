-- ===== src/AvlTree/Balance.antt =====
-- AVLTree.h: the stored heights are right and no node is out of balance after an operation.
use apgitproj.Base.{
  ℕ, ◌+◌, ◌≤◌, ◌<◌, ◌≡◌, ◌⊎◌, inl, inr, Bool-cases, ltb→lt, ltb→le, arith, ltb, ltb_ℤ, negsuc, ℤ,
  pos, pos_part, neg_part, sub_ℕ, if◌then◌else◌,
}
use apgitproj.AvlTree.{
  Tree, nil, node, height, balance_factor, update_height, rotate_left, rotate_right, balance_left,
  balance_right, rebalance, balance,
}

-- `h` is one more than the larger of two heights.
abbrev pub Tops : ℕ → ℕ → ℕ → Type 0
Tops h a b = (a < h) × (b < h) × ((h ≡ a + 1) ⊎ (h ≡ b + 1))

leans_right : (a b : ℕ) → ltb_ℤ (sub_ℕ a b) (pos 0) ≡ ltb a b
unfolding pos_part neg_part
leans_right a b = ground arith

leans_left : (a b : ℕ) → ltb_ℤ (pos 0) (sub_ℕ a b) ≡ ltb b a
unfolding pos_part neg_part
leans_left a b = ground arith

tall_left : (a b : ℕ) → ltb_ℤ (pos 1) (sub_ℕ a b) ≡ ltb (b + 1) a
unfolding pos_part neg_part
tall_left a b = ground arith

tall_right : (a b : ℕ) → ltb_ℤ (sub_ℕ a b) (negsuc 0) ≡ ltb (a + 1) b
unfolding pos_part neg_part
tall_right a b = ground arith

module _ {V : Type 0} where
  -- Each stored height is one more than the larger of the subtrees', and these differ by at most 1.
  abbrev pub IsBalanced : Tree V → Type 0
  IsBalanced nil = Unit
  IsBalanced (node l k v h r) =
      (height l < h)
      × (height r < h)
      × ((h ≡ height l + 1) ⊎ (h ≡ height r + 1))
      × (height l ≤ height r + 1)
      × (height r ≤ height l + 1)
      × IsBalanced l
      × IsBalanced r

  module _ (l : Tree V) (k : ℤ) (v : V) (h : ℕ) (r : Tree V) where
    height-update_height : Tops (height (update_height (node l k v h r))) (height l) (height r)
    unfolding update_height
    height-update_height = ground arith

    update_height-IsBalanced :
        IsBalanced l
        → IsBalanced r
        → height l ≤ height r + 1
        → height r ≤ height l + 1
        → IsBalanced (update_height (node l k v h r))
    unfolding update_height
    update_height-IsBalanced bl br p q =
        let t = height-update_height in (t.0, t.1, t.2, p, q, bl, br)

  -- A rotated tree over subtrees of which the tall one has height `n`.
  abbrev Rotated : ℕ → Tree V → Type 0
  Rotated n t = IsBalanced t × (n ≤ height t) × (height t ≤ n + 1)

  single_right :
      (a : Tree V) (xk : ℤ) (xv : V) (xh : ℕ) (b : Tree V) (k : ℤ) (v : V) (h : ℕ) (r : Tree V)
      → IsBalanced (node a xk xv xh b)
      → IsBalanced r
      → xh ≡ height r + 2
      → height b ≤ height a
      → Rotated xh (rotate_right (node (node a xk xv xh b) k v h r))
  unfolding rotate_right
  single_right a xk xv xh b k v h r bx br e c =
      let low = height-update_height b k v h r in
      let top = height-update_height a xk xv xh (update_height (node b k v h r)) in
      (
        update_height-IsBalanced a xk xv xh (update_height (node b k v h r)) bx.5
            (update_height-IsBalanced b k v h r bx.6 br (omega arith) (omega arith)) (omega arith)
            (omega arith),
        omega arith,
        omega arith,
      )

  single_left :
      (l : Tree V) (k : ℤ) (v : V) (h : ℕ) (b : Tree V) (yk : ℤ) (yv : V) (yh : ℕ) (c : Tree V)
      → IsBalanced l
      → IsBalanced (node b yk yv yh c)
      → yh ≡ height l + 2
      → height b ≤ height c
      → Rotated yh (rotate_left (node l k v h (node b yk yv yh c)))
  unfolding rotate_left
  single_left l k v h b yk yv yh c bl by e d =
      let low = height-update_height l k v h b in
      let top = height-update_height (update_height (node l k v h b)) yk yv yh c in
      (
        update_height-IsBalanced (update_height (node l k v h b)) yk yv yh c
            (update_height-IsBalanced l k v h b bl by.5 (omega arith) (omega arith)) by.6
            (omega arith) (omega arith),
        omega arith,
        omega arith,
      )

  -- The three nodes of a double rotation, rebuilt over four subtrees.
  rebuilt_pair :
      (n : ℕ) (a : Tree V) (xk : ℤ) (xv : V) (xh : ℕ) (p : Tree V) (bk : ℤ) (bv : V) (bh : ℕ)
      (q : Tree V) (k : ℤ) (v : V) (h : ℕ) (r : Tree V)
      → IsBalanced a
      → IsBalanced p
      → IsBalanced q
      → IsBalanced r
      → (height a ≡ n) × (height r ≡ n)
      → (height p ≤ n) × (n ≤ height p + 1)
      → (height q ≤ n) × (n ≤ height q + 1)
      → Rotated (n + 2) (
          update_height
            (node (update_height (node a xk xv xh p)) bk bv bh (update_height (node q k v h r))))
  rebuilt_pair n a xk xv xh p bk bv bh q k v h r ba bp bq br same_n near_p near_q =
      let left = height-update_height a xk xv xh p in
      let right = height-update_height q k v h r in
      let top =
        height-update_height (update_height (node a xk xv xh p)) bk bv bh
          (update_height (node q k v h r)) in
      (
        update_height-IsBalanced (update_height (node a xk xv xh p)) bk bv bh
            (update_height (node q k v h r))
            (update_height-IsBalanced a xk xv xh p ba bp (omega arith) (omega arith))
            (update_height-IsBalanced q k v h r bq br (omega arith) (omega arith)) (omega arith)
            (omega arith),
        omega arith,
        omega arith,
      )

  double_right :
      (a : Tree V) (xk : ℤ) (xv : V) (xh : ℕ) (b : Tree V) (k : ℤ) (v : V) (h : ℕ) (r : Tree V)
      → IsBalanced (node a xk xv xh b)
      → IsBalanced r
      → xh ≡ height r + 2
      → height a < height b
      → Rotated xh (rotate_right (node (rotate_left (node a xk xv xh b)) k v h r))
  unfolding rotate_right rotate_left update_height
  double_right a xk xv xh nil k v h r bx br e c = absurd (omega arith)
  double_right a xk xv xh (node p bk bv bh q) k v h r bx br e c =
      let t =
        rebuilt_pair (height r) a xk xv xh p bk bv 0 q k v h r bx.5 bx.6.5 bx.6.6 br (omega arith)
          (omega arith) (omega arith) in
      (t.0, omega arith, omega arith)

  double_left :
      (l : Tree V) (k : ℤ) (v : V) (h : ℕ) (b : Tree V) (yk : ℤ) (yv : V) (yh : ℕ) (c : Tree V)
      → IsBalanced l
      → IsBalanced (node b yk yv yh c)
      → yh ≡ height l + 2
      → height c < height b
      → Rotated yh (rotate_left (node l k v h (rotate_right (node b yk yv yh c))))
  unfolding rotate_right rotate_left update_height
  double_left l k v h nil yk yv yh c bl by e d = absurd (omega arith)
  double_left l k v h (node p bk bv bh q) yk yv yh c bl by e d =
      let t =
        rebuilt_pair (height l) l k v h p bk bv 0 q yk yv yh c bl by.5.5 by.5.6 by.6 (omega arith)
          (omega arith) (omega arith) in
      (t.0, omega arith, omega arith)

  balance_left-Rotated :
      (l : Tree V) (k : ℤ) (v : V) (h : ℕ) (r : Tree V)
      → IsBalanced l
      → IsBalanced r
      → height l ≡ height r + 2
      → Rotated (height l) (balance_left l k v h r)
  unfolding balance_left balance_factor
  balance_left-Rotated nil k v h r bl br e = absurd (omega arith)
  balance_left-Rotated (node a xk xv xh b) k v h r bl br e =
      rw (leans_right (height a) (height b)) (elim (Bool-cases (ltb (height a) (height b))) [
        | inl p ↦ rw p (double_right a xk xv xh b k v h r bl br e (ltb→lt _ _ p))
        | inr p ↦ rw p (single_right a xk xv xh b k v h r bl br e (ltb→le _ _ p))
      ])

  balance_right-Rotated :
      (l : Tree V) (k : ℤ) (v : V) (h : ℕ) (r : Tree V)
      → IsBalanced l
      → IsBalanced r
      → height r ≡ height l + 2
      → Rotated (height r) (balance_right l k v h r)
  unfolding balance_right balance_factor
  balance_right-Rotated l k v h nil bl br e = absurd (omega arith)
  balance_right-Rotated l k v h (node b yk yv yh c) bl br e =
      rw (leans_left (height b) (height c)) (elim (Bool-cases (ltb (height c) (height b))) [
        | inl p ↦ rw p (double_left l k v h b yk yv yh c bl br e (ltb→lt _ _ p))
        | inr p ↦ rw p (single_left l k v h b yk yv yh c bl br e (ltb→le _ _ p))
      ])

  -- What `balance` returns over subtrees of heights `a` and `b`.
  pub record Rebuilt (a b : ℕ) (t : Tree V) : Type 0 where
    pub balanced : IsBalanced t
    pub above_left : a ≤ height t
    pub above_right : b ≤ height t
    pub near : (height t ≤ a + 1) ⊎ (height t ≤ b + 1)
    pub shape : Tops (height t) a b ⊎ ((a + 2 ≤ b) ⊎ (b + 2 ≤ a))

  Rebuilt-left : (a b : ℕ) {t : Tree V} → Rotated a t → b + 2 ≤ a → Rebuilt a b t
  Rebuilt-left a b (bt, lo, hi) h = record {
    balanced = bt;
    above_left = lo;
    above_right = omega arith;
    near = inl hi;
    shape = inr (inr h);
  }

  Rebuilt-right : (a b : ℕ) {t : Tree V} → Rotated b t → a + 2 ≤ b → Rebuilt a b t
  Rebuilt-right a b (bt, lo, hi) h = record {
    balanced = bt;
    above_left = omega arith;
    above_right = lo;
    near = inr hi;
    shape = inr (inl h);
  }

  level :
      (l : Tree V) (k : ℤ) (v : V) (r : Tree V)
      → IsBalanced l
      → IsBalanced r
      → height l ≤ height r + 1
      → height r ≤ height l + 1
      → Rebuilt
          (height l)
          (height r)
          (node l k v (1 + (if ltb (height r) (height l) then height l else height r)) r)
  unfolding update_height
  level l k v r bl br p q =
      let t = height-update_height l k v 0 r in
      record {
        balanced = update_height-IsBalanced l k v 0 r bl br p q;
        above_left = omega arith;
        above_right = omega arith;
        near = omega arith;
        shape = inl t;
      }

  pub balance-Rebuilt :
      (l : Tree V) (k : ℤ) (v : V) (h : ℕ) (r : Tree V)
      → IsBalanced l
      → IsBalanced r
      → height l ≤ height r + 2
      → height r ≤ height l + 2
      → Rebuilt (height l) (height r) (balance (node l k v h r))
  unfolding balance rebalance balance_factor update_height
  balance-Rebuilt l k v h r bl br p q =
      let top = 1 + (if ltb (height r) (height l) then height l else height r) in
      rw (tall_left (height l) (height r), tall_right (height l) (height r))
        (elim (Bool-cases (ltb (height r + 1) (height l))) [
          | inl e ↦
              let tall = ltb→lt _ _ e in
              let t = balance_left-Rotated l k v top r bl br (omega arith) in
              rw e (Rebuilt-left (height l) (height r) t (omega arith))
          | inr e ↦
              let low = ltb→le _ _ e in
              rw e (elim (Bool-cases (ltb (height l + 1) (height r))) [
                | inl f ↦
                    let tall = ltb→lt _ _ f in
                    let t = balance_right-Rotated l k v top r bl br (omega arith) in
                    rw f (Rebuilt-right (height l) (height r) t (omega arith))
                | inr f ↦ rw f (level l k v r bl br (omega arith) (ltb→le _ _ f))
              ])
        ])
