-- ===== src/AvlTree/Steps.antt =====
-- AVLTree.h: one step of each recursive descent, by the outcome of the comparison at the node.
use apgitproj.Base.{ℕ, ◌≡◌, lt, eq, gt, ℤ, pos, ◌+ℤ◌, ◌-ℤ◌, compare_ℤ, true, false}
use apgitproj.AvlTree.{Tree, node, is_nil, balance, insert, min_node, remove, find}

module _ {V : Type 0} (l : Tree V) (k : ℤ) (v : V) (h : ℕ) (r : Tree V) (key : ℤ) where
  module _ (val : V) (size : ℤ) where
    pub insert_less :
        compare_ℤ key k ≡ lt
        → insert (node l k v h r) key val size
          ≡ (balance (node (insert l key val size).0 k v h r), (insert l key val size).1)
    unfolding insert
    insert_less e = rw (e, insert)

    pub insert_same :
        compare_ℤ key k ≡ eq → insert (node l k v h r) key val size ≡ (node l k val h r, size)
    unfolding insert
    insert_same e = rw (e, insert)

    pub insert_more :
        compare_ℤ key k ≡ gt
        → insert (node l k v h r) key val size
          ≡ (balance (node l k v h (insert r key val size).0), (insert r key val size).1)
    unfolding insert
    insert_more e = rw (e, insert)

  module _ (size : ℤ) where
    pub remove_less :
        compare_ℤ key k ≡ lt
        → remove (node l k v h r) key size
          ≡ (balance (node (remove l key size).0 k v h r), (remove l key size).1)
    unfolding remove
    remove_less e = rw (e, remove)

    pub remove_more :
        compare_ℤ key k ≡ gt
        → remove (node l k v h r) key size
          ≡ (balance (node l k v h (remove r key size).0), (remove r key size).1)
    unfolding remove
    remove_more e = rw (e, remove)

  pub find_less : compare_ℤ key k ≡ lt → find (node l k v h r) key ≡ find l key
  unfolding find
  find_less e = rw (e, find)

  pub find_same : compare_ℤ key k ≡ eq → find (node l k v h r) key ≡ node l k v h r
  unfolding find
  find_same e = rw (e, find)

  pub find_more : compare_ℤ key k ≡ gt → find (node l k v h r) key ≡ find r key
  unfolding find
  find_more e = rw (e, find)

  module _ (size : ℤ) (e : compare_ℤ key k ≡ eq) where
    pub remove_only_right : is_nil l ≡ true → remove (node l k v h r) key size ≡ (r, size -ℤ pos 1)
    unfolding remove
    remove_only_right p = rw (e, p, remove)

    pub remove_only_left :
        is_nil l ≡ false → is_nil r ≡ true → remove (node l k v h r) key size ≡ (l, size -ℤ pos 1)
    unfolding remove
    remove_only_left p q = rw (e, p, q, remove)

    pub remove_both :
        is_nil l ≡ false
        → is_nil r ≡ false
        → (sl : Tree V) (sk : ℤ) (sv : V) (sh : ℕ) (sr : Tree V) → min_node r ≡ node sl sk sv sh sr
        → let (r', s) = remove r sk (size -ℤ pos 1 +ℤ pos 1) in
          remove (node l k v h r) key size ≡ (balance (node l sk sv h r'), s)
    unfolding remove
    remove_both p q sl sk sv sh sr m = rw (e, m, p, q, remove)
