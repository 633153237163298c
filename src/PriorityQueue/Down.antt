-- ===== src/PriorityQueue/Down.antt =====
-- PriorityQueue.h: `siftDown` restores the heap order below one entry.
use mathlib.Core.List.Perm
use apgitproj.Base.{
  ℕ, zero, suc, ◌+◌, ◌*◌, ◌<◌, ◌≤◌, ◌≡◌, ◌≢◌, ◌⊎◌, List, length, arith, ◌==◌, ==_iff, ◌≤ℤ◌, ◌<ℤ◌,
  Bool-cases, inl, inr,
}
use apgitproj.PriorityQueue.{Entry, parent, key, swap, smallest, sift_down}
use apgitproj.PriorityQueue.Array.{length-swap}
use apgitproj.PriorityQueue.Order.{IsBridged, Sifted, key-swap, Sifted-swap}

children : (c i : ℕ) → 0 < c → parent c ≡ i → (c ≡ 2 * i + 1) ⊎ (c ≡ 2 * i + 2)
children c i p e = omega arith

module _ {T : Type 0} (blank : Entry T) where
  -- Only the pairs of `i` and its children may be out of order.
  pub record DownInv (a : List (Entry T)) (i : ℕ) : Type 0 where
    pub edges :
        (c : ℕ) → 0 < c → c < length a → parent c ≢ i → key blank a (parent c) ≤ℤ key blank a c
    pub bridged : IsBridged blank a i

  -- `s` is the least of `i` and its children.
  record IsLeast (a : List (Entry T)) (i s : ℕ) : Type 0 where
    inside : s < length a
    child : (s ≡ i) ⊎ ((s ≡ 2 * i + 1) ⊎ (s ≡ 2 * i + 2))
    least : (c : ℕ) → 0 < c → c < length a → parent c ≡ i → key blank a s ≤ℤ key blank a c
    less : s ≢ i → key blank a s <ℤ key blank a i

  smallest-IsLeast : (a : List (Entry T)) (i : ℕ) → i < length a → IsLeast a i (smallest blank a i)
  unfolding smallest
  smallest-IsLeast a i h = record {
    inside = ground arith;
    child = ground arith;
    least = λ c p q r. ground (arith, children c i p r);
    less = ground arith;
  }

  DownInv-swap :
      (a : List (Entry T)) (i s : ℕ)
      → DownInv a i
      → i < length a
      → IsLeast a i s
      → s ≢ i
      → DownInv (swap blank a i s) s
  DownInv-swap a i s v hi m n =
      let at = key-swap blank a i s hi m.inside in
      let size = length-swap blank a i s in
      let below = m.less n in
      record {
        edges = λ c p r q.
            ground (arith, size, at c, at (parent c), v.edges c, v.bridged s, m.least c, m.child);
        bridged = λ c p r e z. ground (arith, size, at c, at (parent s), v.edges c, m.child);
      }

  -- `siftDown` turns an array with one entry too high in the tree into a heap of the same entries.
  pub sift_down-Sifted :
      (fuel : ℕ) (a : List (Entry T)) (i : ℕ)
      → length a ≤ i + fuel
      → i < length a
      → DownInv a i
      → Sifted blank a (sift_down blank fuel a i)
  unfolding sift_down
  sift_down-Sifted zero a i f h v = absurd (omega arith)
  sift_down-Sifted (suc fuel) a i f h v =
      let m = smallest-IsLeast a i h in
      let s = smallest blank a i in
      elim (Bool-cases (s == i)) [
        | inl e ↦
            let same : s ≡ i = (==_iff s i).0 e in
            rw e (λ c p q. ground (arith, v.edges c, m.least c, same), Perm.refl a)
        | inr e ↦
            let n : s ≢ i = λ z. ground arith in
            let grows : i < s = omega (arith, m.child, n) in
            let size = length-swap blank a i s in
            rw e (
              Sifted-swap blank a (sift_down blank fuel (swap blank a i s) s) i s h m.inside (
                sift_down-Sifted fuel (swap blank a i s) s (omega (arith, size))
                  (omega (arith, size, m.inside)) (DownInv-swap a i s v h m n)))
      ]
