-- ===== src/AvlTree.antt =====
-- src/common/AVLTree.h: the generic AVL tree keyed on `int`.
-- A null pointer is `nil`. A function of the class that rewrites nodes in place and returns the new
-- root returns the new tree, together with the new `size_` where it counts. A height is a natural
-- number: it stays below the number of nodes.
pub mod Steps
pub mod Rotations
pub mod Entries
pub mod Order
pub mod Balance
pub mod Rebalance
pub mod Count
pub mod Methods
pub mod Depth
use apgitproj.Base.{
  ℕ, ◌+◌, ◌≡◌, refl, Bool, true, false, ◌||◌, Option, none, some, List, [], ◌∷◌, ◌++◌, ltb,
  if◌then◌else◌, lt, eq, gt, ℤ, pos, negsuc, sub_ℕ, ◌+ℤ◌, ◌-ℤ◌, compare_ℤ, ltb_ℤ, leb_ℤ, pos_part,
  neg_part,
}

-- `AVLNode*`: left, key, value, height, right.
pub data Tree (V : Type 0) : Type 0 where
  nil : Tree V
  node : Tree V → ℤ → V → ℕ → Tree V → Tree V

pub record AvlTree (V : Type 0) : Type 0 where
  pub root : Tree V
  pub size : ℤ

module _ {V : Type 0} where
  abbrev pub height : Tree V → ℕ
  height nil = 0
  height (node l k v h r) = h

  unfoldable pub balance_factor : Tree V → ℤ
  balance_factor nil = pos 0
  balance_factor (node l k v h r) = sub_ℕ (height l) (height r)

  unfoldable pub update_height : Tree V → Tree V
  update_height nil = nil
  update_height (node l k v h r) =
      let lh = height l in let rh = height r in node l k v (1 + (if ltb rh lh then lh else rh)) r

  -- The last clause is a call that would dereference a null pointer: `balance` makes none.
  unfoldable pub rotate_right : Tree V → Tree V
  rotate_right (node (node a xk xv xh t2) yk yv yh c) =
      update_height (node a xk xv xh (update_height (node t2 yk yv yh c)))
  rotate_right t = t

  unfoldable pub rotate_left : Tree V → Tree V
  rotate_left (node a xk xv xh (node t2 yk yv yh c)) =
      update_height (node (update_height (node a xk xv xh t2)) yk yv yh c)
  rotate_left t = t

  -- The two rotating branches of `balance`, at a node whose height is up to date.
  unfoldable pub balance_left : Tree V → ℤ → V → ℕ → Tree V → Tree V
  balance_left l k v h r =
      rotate_right (node (if ltb_ℤ (balance_factor l) (pos 0) then rotate_left l else l) k v h r)

  unfoldable pub balance_right : Tree V → ℤ → V → ℕ → Tree V → Tree V
  balance_right l k v h r =
      rotate_left (node l k v h (if ltb_ℤ (pos 0) (balance_factor r) then rotate_right r else r))

  unfoldable pub rebalance : Tree V → Tree V
  rebalance nil = nil
  rebalance (node l k v h r) =
      let bf = balance_factor (node l k v h r) in
      if ltb_ℤ (pos 1) bf
      then balance_left l k v h r
      else if ltb_ℤ bf (negsuc 0)
      then balance_right l k v h r
      else node l k v h r

  unfoldable pub balance : Tree V → Tree V
  balance n = rebalance (update_height n)

  -- `insert(n, key, val)` with the new `size_`.
  unfoldable pub insert : Tree V → ℤ → V → ℤ → Tree V × ℤ
  insert nil key val size = (node nil key val 1 nil, size +ℤ pos 1)
  insert (node l k v h r) key val size = elim (compare_ℤ key k) [
    | lt ↦ let (l', s) = insert l key val size in (balance (node l' k v h r), s)
    | gt ↦ let (r', s) = insert r key val size in (balance (node l k v h r'), s)
    | eq ↦ (node l k val h r, size)
  ]

  unfoldable pub min_node : Tree V → Tree V
  min_node nil = nil
  min_node (node nil k v h r) = node nil k v h r
  min_node (node (node ll lk lv lh lr) k v h r) = min_node (node ll lk lv lh lr)

  abbrev pub is_nil : Tree V → Bool
  is_nil nil = true
  is_nil (node l k v h r) = false

  -- `remove(n, key)` with the new `size_`. The inner `nil` is a null successor: there is none.
  unfoldable pub remove : Tree V → ℤ → ℤ → Tree V × ℤ
  remove nil key size = (nil, size)
  remove (node l k v h r) key size = elim (compare_ℤ key k) [
    | lt ↦ let (l', s) = remove l key size in (balance (node l' k v h r), s)
    | gt ↦ let (r', s) = remove r key size in (balance (node l k v h r'), s)
    | eq ↦
        let both : Tree V × ℤ = elim (min_node r) [
          | nil ↦ (nil, size -ℤ pos 1)
          | node _ sk sv _ _ ↦
              let (r', s) = remove r sk (size -ℤ pos 1 +ℤ pos 1) in (balance (node l sk sv h r'), s)
        ] in
        if is_nil l || is_nil r then (if is_nil l then r else l, size -ℤ pos 1) else both
  ]

  -- The node with the key, or null.
  unfoldable pub find : Tree V → ℤ → Tree V
  find nil key = nil
  find (node l k v h r) key = elim (compare_ℤ key k) [
    | eq ↦ node l k v h r
    | lt ↦ find l key
    | gt ↦ find r key
  ]

  -- The calls that the callback receives, in order.
  unfoldable pub in_order : Tree V → List (ℤ × V)
  in_order nil = []
  in_order (node l k v h r) = in_order l ++ (k, v) ∷ in_order r

  unfoldable pub range_query : Tree V → ℤ → ℤ → List (ℤ × V)
  range_query nil lo hi = []
  range_query (node l k v h r) lo hi =
      (if ltb_ℤ lo k then range_query l lo hi else [])
      ++ ((if leb_ℤ lo k then (if leb_ℤ k hi then (k, v) ∷ [] else []) else [])
          ++ (if ltb_ℤ k hi then range_query r lo hi else []))

  -- The public methods.
  unfoldable pub new_tree : AvlTree V
  new_tree = record { root = nil; size = pos 0 }

  unfoldable pub put : AvlTree V → ℤ → V → AvlTree V
  put t key val = let (n, s) = insert t.root key val t.size in record { root = n; size = s }

  unfoldable pub search : AvlTree V → ℤ → Option V
  search t key = elim (find t.root key) [ nil ↦ none | node _ _ v _ _ ↦ some v ]

  unfoldable pub contains : AvlTree V → ℤ → Bool
  contains t key = elim (find t.root key) [ nil ↦ false | node _ _ _ _ _ ↦ true ]

  unfoldable pub delete : AvlTree V → ℤ → AvlTree V
  delete t key = let (n, s) = remove t.root key t.size in record { root = n; size = s }

  unfoldable pub range : AvlTree V → ℤ → ℤ → List (ℤ × V)
  range t lo hi = range_query t.root lo hi
