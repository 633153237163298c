-- ===== src/PriorityQueue.antt =====
-- src/common/PriorityQueue.h: the min-heap of queries. `items` are the slots of `heap_` below
-- `size_`, so `size_` is their number; the slots above are never read. `blank` is the value that a
-- slot holds before it is written: an index out of range would read it.
pub mod Array
pub mod Order
pub mod Up
pub mod Down
pub mod Methods
use apgitproj.Base.{
  ℕ, zero, suc, ◌+◌, ◌-◌, ◌*◌, ◌/◌, ◌≡◌, Bool, ◌&&◌, Option, none, some, List, [], ◌∷◌, ◌++◌,
  length, set, get_or, take, ltb, leb, ◌==◌, if◌then◌else◌, ℤ, ltb_ℤ, leb_ℤ,
}

pub record Entry (T : Type 0) : Type 0 where
  pub priority : ℤ
  pub value : T

pub record PriorityQueue (T : Type 0) : Type 0 where
  pub items : List (Entry T)
  pub capacity : ℕ

abbrev pub parent : ℕ → ℕ
parent i = (i - 1) / 2

module _ {T : Type 0} (blank : Entry T) where
  abbrev pub key : List (Entry T) → ℕ → ℤ
  key a i = (get_or a i blank).priority

  unfoldable pub swap : List (Entry T) → ℕ → ℕ → List (Entry T)
  swap a i j = set (set a i (get_or a j blank)) j (get_or a i blank)

  -- `siftUp(i)`; the fuel `i` is enough, since the index falls.
  unfoldable pub sift_up : ℕ → List (Entry T) → ℕ → List (Entry T)
  sift_up zero a i = a
  sift_up (suc fuel) a i =
      let rise = sift_up fuel (swap a (parent i) i) (parent i) in
      if ltb 0 i then (if leb_ℤ (key a (parent i)) (key a i) then a else rise) else a

  -- The index of the least among `i` and its children below `size_`.
  unfoldable pub smallest : List (Entry T) → ℕ → ℕ
  smallest a i =
      let left = 2 * i + 1 in
      let right = 2 * i + 2 in
      let s = if ltb left (length a) && ltb_ℤ (key a left) (key a i) then left else i in
      if ltb right (length a) && ltb_ℤ (key a right) (key a s) then right else s

  -- `siftDown(i)`; the fuel `size_ - i` is enough, since the index grows.
  unfoldable pub sift_down : ℕ → List (Entry T) → ℕ → List (Entry T)
  sift_down zero a i = a
  sift_down (suc fuel) a i =
      let s = smallest a i in let sink = sift_down fuel (swap a i s) s in if s == i then a else sink

  -- `resize` doubles the capacity and copies the slots in use.
  unfoldable pub resize : PriorityQueue T → PriorityQueue T
  resize q = record q { capacity = q.capacity * 2 }

  unfoldable pub enqueue : PriorityQueue T → T → ℤ → PriorityQueue T
  unfolding resize
  enqueue q val priority =
      let q' = if leb q.capacity (length q.items) then resize q else q in
      let n = length q.items in
      let slots = q'.items ++ record { priority = priority; value = val } ∷ [] in
      record q' { items = sift_up n slots n }

  -- `none` is the exception `std::underflow_error`.
  unfoldable pub dequeue : PriorityQueue T → Option (T × PriorityQueue T)
  dequeue q =
      let n = length q.items - 1 in
      let val = (get_or q.items 0 blank).value in
      let moved = take n (set q.items 0 (get_or q.items n blank)) in
      if length q.items == 0
      then none
      else some (val, record q { items = if ltb 0 n then sift_down n moved 0 else moved })

  unfoldable pub peek : PriorityQueue T → Option T
  peek q = if length q.items == 0 then none else some (get_or q.items 0 blank).value

  unfoldable pub peek_priority : PriorityQueue T → Option ℤ
  peek_priority q = if length q.items == 0 then none else some (key q.items 0)
