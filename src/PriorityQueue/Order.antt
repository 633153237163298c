-- ===== src/PriorityQueue/Order.antt =====
-- PriorityQueue.h: the heap order.
use mathlib.Core.List.{Perm}
use mathlib.Core.List.Perm
use apgitproj.Base.{
  ℕ, zero, suc, ◌<◌, ◌≡◌, List, length, arith, ◌==◌, if◌then◌else◌, ◌≤ℤ◌, Bool-cases, inl, inr, ap,
  ◌∙◌,
}
use apgitproj.PriorityQueue.{Entry, parent, key, swap}
use apgitproj.PriorityQueue.Array.{get_or-swap, swap-perm}

module _ {T : Type 0} (blank : Entry T) where
  -- No entry is less than its parent.
  abbrev pub IsHeap : List (Entry T) → Type 0
  IsHeap a = (c : ℕ) → 0 < c → c < length a → key blank a (parent c) ≤ℤ key blank a c

  -- The entries past `i`: its parent is not greater than its children.
  abbrev pub IsBridged : List (Entry T) → ℕ → Type 0
  IsBridged a i =
      (c : ℕ)
      → 0 < c
      → c < length a
      → parent c ≡ i
      → 0 < i
      → key blank a (parent i) ≤ℤ key blank a c

  -- `b` is a heap of the entries of `a`.
  abbrev pub Sifted : List (Entry T) → List (Entry T) → Type 0
  Sifted a b = IsHeap b × Perm b a

  pub key-swap :
      (a : List (Entry T)) (i j : ℕ)
      → i < length a
      → j < length a
      → (c : ℕ)
      → key blank (swap blank a i j) c
        ≡ (if j == c then key blank a i else if i == c then key blank a j else key blank a c)
  key-swap a i j hi hj c =
      ap (λ e. e.priority) (get_or-swap blank a i j hi hj c) ∙ elim (Bool-cases (j == c)) [
        | inl p ↦ rw p
        | inr p ↦ rw p (elim (Bool-cases (i == c)) [ inl q ↦ rw q | inr q ↦ rw q ])
      ]

  pub Sifted-swap :
      (a b : List (Entry T)) (i j : ℕ)
      → i < length a
      → j < length a
      → Sifted (swap blank a i j) b
      → Sifted a b
  Sifted-swap a b i j hi hj s = (s.0, Perm.trans s.1 (swap-perm blank a i j hi hj))

  least_below :
      (k : ℕ) (a : List (Entry T)) (i : ℕ)
      → IsHeap a
      → i < k
      → i < length a
      → key blank a 0 ≤ℤ key blank a i
  least_below zero a i h f p = absurd (omega arith)
  least_below (suc k) a zero h f p = omega arith
  least_below (suc k) a (suc i) h f p =
      let up = h (suc i) (omega arith) p in
      let rest = least_below k a (parent (suc i)) h (omega arith) (omega arith) in omega arith

  -- The root of a heap is a least entry.
  pub root_least :
      (a : List (Entry T)) (i : ℕ) → IsHeap a → i < length a → key blank a 0 ≤ℤ key blank a i
  root_least a i h p = least_below (suc i) a i h (omega arith) p
