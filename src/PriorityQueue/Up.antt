-- ===== src/PriorityQueue/Up.antt =====
-- PriorityQueue.h: `siftUp` restores the heap order above one entry.
use mathlib.Core.List.Perm
use apgitproj.Base.{
  ℕ, zero, suc, ◌<◌, ◌≤◌, ◌≢◌, List, length, arith, ltb, leb_ℤ, ◌≤ℤ◌, ◌<ℤ◌, Bool-cases, inl, inr,
  ltb→lt, ltb→le,
}
use apgitproj.PriorityQueue.{Entry, parent, key, swap, sift_up}
use apgitproj.PriorityQueue.Array.{length-swap}
use apgitproj.PriorityQueue.Order.{IsBridged, Sifted, key-swap, Sifted-swap}

module _ {T : Type 0} (blank : Entry T) where
  -- Only the pair of `i` and its parent may be out of order.
  pub record UpInv (a : List (Entry T)) (i : ℕ) : Type 0 where
    pub in_array : i < length a
    pub settled :
        (child : ℕ)
        → 0 < child
        → child < length a
        → child ≢ i
        → key blank a (parent child) ≤ℤ key blank a child
    pub bridged : IsBridged blank a i

  UpInv-swap :
      (a : List (Entry T)) (i : ℕ)
      → UpInv a i
      → 0 < i
      → key blank a i <ℤ key blank a (parent i)
      → UpInv (swap blank a (parent i) i) (parent i)
  UpInv-swap a i v pos below =
      let above : parent i < length a = omega (arith, v.in_array) in
      let at = key-swap blank a (parent i) i above v.in_array in
      let size = length-swap blank a (parent i) i in
      record {
        in_array = omega (arith, size, above);
        settled = λ child p r n. ground (
          arith,
          size,
          at child,
          at (parent child),
          v.settled child,
          v.bridged child,
          v.in_array,
        );
        bridged = λ child p r e z. ground (
          arith,
          size,
          at child,
          at (parent (parent i)),
          v.settled child,
          v.settled (parent i),
          v.in_array,
        );
      }

  -- `siftUp` turns an array with one entry too low in the tree into a heap of the same entries.
  pub sift_up-Sifted :
      (fuel : ℕ) (a : List (Entry T)) (i : ℕ)
      → i ≤ fuel
      → UpInv a i
      → Sifted blank a (sift_up blank fuel a i)
  unfolding sift_up
  sift_up-Sifted zero a i f v = (λ child p q. v.settled child p q (omega arith), Perm.refl a)
  sift_up-Sifted (suc fuel) a i f v = elim (Bool-cases (ltb 0 i)) [
    | inr root ↦
        let z = ltb→le 0 i root in
        rw root (λ child p q. v.settled child p q (omega arith), Perm.refl a)
    | inl pos ↦ rw pos (elim (Bool-cases (leb_ℤ (key blank a (parent i)) (key blank a i))) [
      | inl settled ↦ rw settled (λ child p q. ground (arith, v.settled child), Perm.refl a)
      | inr below ↦
          let p = ltb→lt 0 i pos in
          let b : key blank a i <ℤ key blank a (parent i) = ground arith in
          rw below (
            Sifted-swap blank a (sift_up blank fuel (swap blank a (parent i) i) (parent i))
              (parent i) i (omega (arith, v.in_array)) v.in_array
              (sift_up-Sifted fuel (swap blank a (parent i) i) (parent i) (omega arith)
                (UpInv-swap a i v p b)))
    ])
  ]
