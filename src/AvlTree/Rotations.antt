-- ===== src/AvlTree/Rotations.antt =====
-- AVLTree.h: the rotations keep the in-order sequence.
use apgitproj.Base.{
  ℕ, ℤ, ◌∙◌, ◌≡◌, refl, append_assoc, Bool-cases, inl, inr, pos, ltb_ℤ, arith, if◌then◌else◌,
}
use apgitproj.AvlTree.{
  Tree, nil, node, update_height, rotate_left, rotate_right, balance_left, balance_right, rebalance,
  balance, in_order, balance_factor,
}

module _ {V : Type 0} where
  pub in_order-rotate_right : (t : Tree V) → in_order (rotate_right t) ≡ in_order t
  unfolding rotate_right update_height in_order
  in_order-rotate_right nil = refl
  in_order-rotate_right (node nil k v h r) = refl
  in_order-rotate_right (node (node a xk xv xh t2) k v h r) = simp append_assoc

  pub in_order-rotate_left : (t : Tree V) → in_order (rotate_left t) ≡ in_order t
  unfolding rotate_left update_height in_order
  in_order-rotate_left nil = refl
  in_order-rotate_left (node l k v h nil) = refl
  in_order-rotate_left (node l k v h (node a xk xv xh t2)) = simp append_assoc

  module _ (l : Tree V) (k : ℤ) (v : V) (h : ℕ) (r : Tree V) where
    in_order-balance_left : in_order (balance_left l k v h r) ≡ in_order (node l k v h r)
    unfolding balance_left
    in_order-balance_left =
        in_order-rotate_right
          (node (if ltb_ℤ (balance_factor l) (pos 0) then rotate_left l else l) k v h r)
        ∙ elim (Bool-cases (ltb_ℤ (balance_factor l) (pos 0))) [
          | inl e ↦ rw e (unfold in_order in rw (in_order-rotate_left l))
          | inr e ↦ rw e
        ]

    in_order-balance_right : in_order (balance_right l k v h r) ≡ in_order (node l k v h r)
    unfolding balance_right
    in_order-balance_right =
        in_order-rotate_left
          (node l k v h (if ltb_ℤ (pos 0) (balance_factor r) then rotate_right r else r))
        ∙ elim (Bool-cases (ltb_ℤ (pos 0) (balance_factor r))) [
          | inl e ↦ rw e (unfold in_order in rw (in_order-rotate_right r))
          | inr e ↦ rw e
        ]

  in_order-rebalance : (t : Tree V) → in_order (rebalance t) ≡ in_order t
  unfolding rebalance
  in_order-rebalance nil = refl
  in_order-rebalance (node l k v h r) =
      ground (arith, in_order-balance_left l k v h r, in_order-balance_right l k v h r)

  pub in_order-balance : (t : Tree V) → in_order (balance t) ≡ in_order t
  unfolding balance update_height
  in_order-balance t = in_order-rebalance (update_height t) ∙ updated t
    where
      updated : (t : Tree V) → in_order (update_height t) ≡ in_order t
      updated nil = refl
      updated (node l k v h r) = unfold in_order in refl
