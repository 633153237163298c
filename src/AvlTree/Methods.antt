-- ===== src/AvlTree/Methods.antt =====
-- AVLTree.h: the public methods keep the invariant of the class and act as a map from keys.
use apgitproj.Base.{◌≡◌, refl, ap, sym, ◌∙◌, none, some, eq, ℤ, compare_ℤ, filter_by}
use apgitproj.AvlTree.{
  Tree, AvlTree, nil, node, find, in_order, new_tree, put, search, delete, range,
}
use apgitproj.AvlTree.Entries.{
  in_range, lookup_entry, insert_entry, delete_entry, insert_entry-IsSorted, delete_entry-IsSorted,
  lookup-insert_entry, lookup-delete_entry,
}
use apgitproj.AvlTree.Order.{
  IsOrdered, found_value, find-lookup_entry, in_order-insert, in_order-remove, range_query-filter,
}
use apgitproj.AvlTree.Balance.{IsBalanced}
use apgitproj.AvlTree.Rebalance.{insert-IsBalanced, remove-IsBalanced}
use apgitproj.AvlTree.Count.{Counts, insert-Counts, remove-Counts}

module _ {V : Type 0} where
  -- The invariant: a search tree, in balance, with `size_` the number of its entries.
  pub record IsValid (t : AvlTree V) : Type 0 where
    pub ordered : IsOrdered t.root
    pub balanced : IsBalanced t.root
    pub counted : Counts t.root t.size

  pub new_tree-IsValid : IsValid (new_tree {V = V})
  unfolding new_tree in_order
  new_tree-IsValid = record { ordered = tt; balanced = tt; counted = refl }

  -- `insert` keeps the invariant.
  pub put-IsValid : (t : AvlTree V) (key : ℤ) (val : V) → IsValid t → IsValid (put t key val)
  unfolding put
  put-IsValid t key val v = record {
    ordered =
        rw (in_order-insert t.root key val t.size v.ordered)
          (insert_entry-IsSorted key val (in_order t.root) v.ordered);
    balanced = (insert-IsBalanced t.root key val t.size v.balanced).0;
    counted = insert-Counts t.root key val t.size v.ordered v.counted;
  }

  -- `remove` keeps the invariant.
  pub delete-IsValid : (t : AvlTree V) (key : ℤ) → IsValid t → IsValid (delete t key)
  unfolding delete
  delete-IsValid t key v = record {
    ordered =
        rw (in_order-remove t.root key t.size v.ordered)
          (delete_entry-IsSorted key (in_order t.root) v.ordered);
    balanced = (remove-IsBalanced t.root key t.size v.balanced).0;
    counted = remove-Counts t.root key t.size v.ordered v.counted;
  }

  search-found : (t : AvlTree V) (key : ℤ) → search t key ≡ found_value (find t.root key)
  unfolding search
  search-found t key = by_cases (find t.root key)
    where
      by_cases : (n : Tree V) → elim n [ nil ↦ none | node _ _ v _ _ ↦ some v ] ≡ found_value n
      by_cases nil = refl
      by_cases (node l k v h r) = refl

  search-lookup_entry :
      (t : AvlTree V) (key : ℤ)
      → IsOrdered t.root
      → search t key ≡ lookup_entry key (in_order t.root)
  search-lookup_entry t key s = search-found t key ∙ find-lookup_entry t.root key s

  in_order-put :
      (t : AvlTree V) (key : ℤ) (val : V)
      → IsValid t
      → in_order (put t key val).root ≡ insert_entry key val (in_order t.root)
  unfolding put
  in_order-put t key val v = in_order-insert t.root key val t.size v.ordered

  in_order-delete :
      (t : AvlTree V) (key : ℤ)
      → IsValid t
      → in_order (delete t key).root ≡ delete_entry key (in_order t.root)
  unfolding delete
  in_order-delete t key v = in_order-remove t.root key t.size v.ordered

  -- `search` after `insert`: the new value at the key, and every other key as it was.
  pub search-put :
      (t : AvlTree V) (key q : ℤ) (val : V)
      → IsValid t
      → search (put t key val) q ≡ elim (compare_ℤ q key) [ eq ↦ some val | _ ↦ search t q ]
  search-put t key q val v =
      let w = put-IsValid t key val v in
      search-lookup_entry (put t key val) q w.ordered
      ∙ ap (lookup_entry q) (in_order-put t key val v)
      ∙ lookup-insert_entry q key val (in_order t.root)
      ∙ ap (λ o. elim (compare_ℤ q key) [ eq ↦ some val | _ ↦ o ])
          (sym (search-lookup_entry t q v.ordered))

  -- `search` after `remove`: nothing at the key, and every other key as it was.
  pub search-delete :
      (t : AvlTree V) (key q : ℤ)
      → IsValid t
      → search (delete t key) q ≡ elim (compare_ℤ q key) [ eq ↦ none | _ ↦ search t q ]
  search-delete t key q v =
      let w = delete-IsValid t key v in
      search-lookup_entry (delete t key) q w.ordered
      ∙ ap (lookup_entry q) (in_order-delete t key v)
      ∙ lookup-delete_entry q key (in_order t.root) v.ordered
      ∙ ap (λ o. elim (compare_ℤ q key) [ eq ↦ none | _ ↦ o ])
          (sym (search-lookup_entry t q v.ordered))

  -- `rangeQuery` calls back for exactly the entries with a key in [lo, hi], in order of key.
  pub range-filter :
      (t : AvlTree V) (lo hi : ℤ)
      → IsValid t
      → range t lo hi ≡ filter_by (in_range lo hi) (in_order t.root)
  unfolding range
  range-filter t lo hi v = range_query-filter t.root lo hi v.ordered
