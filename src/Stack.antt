-- ===== src/Stack.antt =====
-- src/common/Stack.h: the growing stack. `items` are the slots of `data_` up to `top_`, the top
-- first, so `top_` is one less than their number.
use apgitproj.Base.{
  ℕ, ◌*◌, ◌≤◌, ◌<◌, ◌≡◌, Bool, true, false, Option, none, some, List, [], ◌∷◌, length, leb,
  Bool-cases, inl, inr, if◌then◌else◌, arith,
}

pub record Stack (T : Type 0) : Type 0 where
  pub items : List T
  pub capacity : ℕ

module _ {T : Type 0} where
  unfoldable pub new_stack : ℕ → Stack T
  new_stack capacity = record { items = []; capacity = capacity }

  unfoldable pub resize : Stack T → Stack T
  resize s = record s { capacity = s.capacity * 2 }

  unfoldable pub push : Stack T → T → Stack T
  unfolding resize
  push s val =
      let s' = if leb s.capacity (length s.items) then resize s else s in
      record s' { items = val ∷ s'.items }

  -- `none` is the exception `std::underflow_error`.
  unfoldable pub pop : Stack T → Option (T × Stack T)
  pop s = elim s.items [ [] ↦ none | x ∷ rest ↦ some (x, record s { items = rest }) ]

  unfoldable pub peek : Stack T → Option T
  peek s = elim s.items [ [] ↦ none | x ∷ rest ↦ some x ]

  unfoldable pub is_empty : Stack T → Bool
  is_empty s = elim s.items [ [] ↦ true | x ∷ rest ↦ false ]

  abbrev pub size : Stack T → ℕ
  size s = length s.items

  unfoldable pub clear : Stack T → Stack T
  clear s = record s { items = [] }

  -- The slots in use fit into the array, which can double.
  pub record IsValid (s : Stack T) : Type 0 where
    pub fits : length s.items ≤ s.capacity
    pub grows : 0 < s.capacity

  items-push : (s : Stack T) (val : T) → (push s val).items ≡ val ∷ s.items
  unfolding push
  items-push s val = elim (Bool-cases (leb s.capacity (length s.items))) [
    | inl full ↦ rw full
    | inr room ↦ rw room
  ]

  -- A push, which resizes a full array first, keeps the contents inside an array that can grow.
  pub push-IsValid : (s : Stack T) (val : T) → IsValid s → IsValid (push s val)
  unfolding push
  push-IsValid s val v = elim (Bool-cases (leb s.capacity (length s.items))) [
    | inl full ↦
        rw full (record { fits = omega (arith, v.fits, v.grows); grows = omega (arith, v.grows) })
    | inr room ↦
        let c : length s.items < s.capacity = ground arith in
        rw room (record { fits = c; grows = v.grows })
  ]

  -- A push, also one that resizes, is undone by the next pop: it returns the value, and the old
  -- contents are left.
  pub pop-push :
      (s : Stack T) (val : T)
      → pop (push s val) ≡ some (val, record (push s val) { items = s.items })
  unfolding pop
  pop-push s val = rw (items-push s val)
