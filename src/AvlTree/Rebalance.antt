-- ===== src/AvlTree/Rebalance.antt =====
-- AVLTree.h: `insert` and `remove` keep every node in balance.
use apgitproj.Base.{
  ℕ, ◌+◌, ◌≤◌, ◌≡◌, refl, arith, eq, ℤ, pos, ◌+ℤ◌, ◌-ℤ◌, compare_ℤ, comparison, less, same, more,
}
use apgitproj.AvlTree.{Tree, nil, node, height, balance, insert, remove}
use apgitproj.AvlTree.Steps.{
  insert_less, insert_same, insert_more, remove_less, remove_more, remove_only_left,
  remove_only_right, remove_both,
}
use apgitproj.AvlTree.Order.{min_node_first}
use apgitproj.AvlTree.Balance.{IsBalanced, balance-Rebuilt}

module _ {V : Type 0} where
  -- A subtree has grown by a level at most, and the node is balanced again.
  grown_left :
      (l : Tree V) (k : ℤ) (v : V) (h : ℕ) (r l' : Tree V)
      → IsBalanced (node l k v h r)
      → IsBalanced l' × (height l ≤ height l') × (height l' ≤ height l + 1)
      → let t' = balance (node l' k v h r) in IsBalanced t' × (h ≤ height t') × (height t' ≤ h + 1)
  grown_left l k v h r l' b i =
      let t = balance-Rebuilt l' k v h r i.0 b.6 (omega arith) (omega arith) in
      (t.balanced, omega arith, omega arith)

  grown_right :
      (l : Tree V) (k : ℤ) (v : V) (h : ℕ) (r r' : Tree V)
      → IsBalanced (node l k v h r)
      → IsBalanced r' × (height r ≤ height r') × (height r' ≤ height r + 1)
      → let t' = balance (node l k v h r') in IsBalanced t' × (h ≤ height t') × (height t' ≤ h + 1)
  grown_right l k v h r r' b i =
      let t = balance-Rebuilt l k v h r' b.5 i.0 (omega arith) (omega arith) in
      (t.balanced, omega arith, omega arith)

  -- `insert` keeps the tree balanced, and grows it by one level at most.
  pub insert-IsBalanced :
      (t : Tree V) (key : ℤ) (val : V) (size : ℤ)
      → IsBalanced t
      → let t' = (insert t key val size).0 in
        IsBalanced t' × (height t ≤ height t') × (height t' ≤ height t + 1)
  insert-IsBalanced nil key val size b = unfold insert in omega arith
  insert-IsBalanced (node l k v h r) key val size b = elim (comparison key k) [
    | less e c ↦
        let i = insert-IsBalanced l key val size b.5 in
        rw (insert_less l k v h r key val size e)
          (grown_left l k v h r (insert l key val size).0 b i)
    | same e c ↦ rw (insert_same l k v h r key val size e) (b, omega arith, omega arith)
    | more e c ↦
        let i = insert-IsBalanced r key val size b.6 in
        rw (insert_more l k v h r key val size e)
          (grown_right l k v h r (insert r key val size).0 b i)
  ]

  -- A subtree has shrunk by a level at most, and the node is balanced again.
  shrunk_left :
      (l : Tree V) (k : ℤ) (v : V) (h : ℕ) (r l' : Tree V)
      → IsBalanced (node l k v h r)
      → IsBalanced l' × (height l ≤ height l' + 1) × (height l' ≤ height l)
      → let t' = balance (node l' k v h r) in IsBalanced t' × (h ≤ height t' + 1) × (height t' ≤ h)
  shrunk_left l k v h r l' b i =
      let t = balance-Rebuilt l' k v h r i.0 b.6 (omega arith) (omega arith) in
      (t.balanced, omega arith, omega arith)

  -- The key and the value of the node may change.
  shrunk_right :
      (l : Tree V) (k q : ℤ) (v w : V) (h : ℕ) (r r' : Tree V)
      → IsBalanced (node l k v h r)
      → IsBalanced r' × (height r ≤ height r' + 1) × (height r' ≤ height r)
      → let t' = balance (node l q w h r') in IsBalanced t' × (h ≤ height t' + 1) × (height t' ≤ h)
  shrunk_right l k q v w h r r' b i =
      let t = balance-Rebuilt l q w h r' b.5 i.0 (omega arith) (omega arith) in
      (t.balanced, omega arith, omega arith)

  remove_same-IsBalanced :
      (l : Tree V) (k : ℤ) (v : V) (h : ℕ) (r : Tree V) (size : ℤ)
      → compare_ℤ k k ≡ eq
      → IsBalanced (node l k v h r)
      → ((q size' : ℤ)
          → let r' = (remove r q size').0 in
            IsBalanced r' × (height r ≤ height r' + 1) × (height r' ≤ height r))
      → let t' = (remove (node l k v h r) k size).0 in
        IsBalanced t' × (h ≤ height t' + 1) × (height t' ≤ h)
  remove_same-IsBalanced nil k v h r size e b ih =
      rw (remove_only_right nil k v h r k size e refl) (b.6, omega arith, omega arith)
  remove_same-IsBalanced (node ll lk lv lh lr) k v h nil size e b ih =
      rw (remove_only_left (node ll lk lv lh lr) k v h nil k size e refl refl)
        (b.5, omega arith, omega arith)
  remove_same-IsBalanced (node ll lk lv lh lr) k v h (node rl rk rv rh rr) size e b ih =
      let l = node ll lk lv lh lr in
      let r = node rl rk rv rh rr in
      let (sl, sk, sv, sh, sr, rest, m, first) = min_node_first rl rk rv rh rr in
      let s = size -ℤ pos 1 +ℤ pos 1 in
      rw (remove_both l k v h r k size e refl refl sl sk sv sh sr m)
        (shrunk_right l k sk v sv h r (remove r sk s).0 b (ih sk s))

  -- `remove` keeps the tree balanced, and shrinks it by one level at most.
  pub remove-IsBalanced :
      (t : Tree V) (key : ℤ) (size : ℤ)
      → IsBalanced t
      → let t' = (remove t key size).0 in
        IsBalanced t' × (height t ≤ height t' + 1) × (height t' ≤ height t)
  remove-IsBalanced nil key size b = unfold remove in omega arith
  remove-IsBalanced (node l k v h r) key size b = elim (comparison key k) [
    | less e c ↦
        rw (remove_less l k v h r key size e)
          (shrunk_left l k v h r (remove l key size).0 b (remove-IsBalanced l key size b.5))
    | same e c ↦
        rw c
          (remove_same-IsBalanced l k v h r size (rw c at e) b (λ q s. remove-IsBalanced r q s b.6))
    | more e c ↦
        rw (remove_more l k v h r key size e)
          (shrunk_right l k k v v h r (remove r key size).0 b (remove-IsBalanced r key size b.6))
  ]
