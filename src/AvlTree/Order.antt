-- ===== src/AvlTree/Order.antt =====
-- AVLTree.h: on a search tree, each operation is the operation on the list of its entries.
use apgitproj.Base.{
  ℕ, ◌≡◌, refl, ap, ap₂, sym, ◌∙◌, inl, inr, Bool-cases, true, Option, none, some, List, [], ◌∷◌,
  ◌++◌, append-nil, eq, arith, ℤ, pos, ◌+ℤ◌, ◌-ℤ◌, compare_ℤ, ltb_ℤ, leb_ℤ, ◌<ℤ◌, comparison, less,
  same, more, filter_by, filter_by-append, if◌then◌else◌,
}
use apgitproj.AvlTree.{
  Tree, nil, node, is_nil, insert, min_node, remove, find, in_order, range_query,
}
use apgitproj.AvlTree.Steps.{
  insert_less, insert_same, insert_more, remove_less, remove_more, remove_only_left,
  remove_only_right, remove_both, find_less, find_same, find_more,
}
use apgitproj.AvlTree.Rotations.{in_order-balance}
use apgitproj.AvlTree.Entries.{
  All, IsSorted, insert_entry, delete_entry, lookup_entry, in_range, IsSorted-middle,
  in_range_none_below, in_range_none_above, insert_entry-before, delete_entry-before,
  lookup_entry-before, insert_entry_here, insert_entry_after, lookup_entry_here, lookup_entry_after,
  delete_entry_here, delete_entry_after,
}

module _ {V : Type 0} where
  -- A search tree: its in-order keys ascend strictly.
  abbrev pub IsOrdered : Tree V → Type 0
  IsOrdered t = IsSorted (in_order t)

  module _ (l : Tree V) (k : ℤ) (v : V) (h : ℕ) (r : Tree V) (s : IsOrdered (node l k v h r)) where
    pub parts :
        IsOrdered l × All (λ q. q <ℤ k) (in_order l) × All (λ q. k <ℤ q) (in_order r) × IsOrdered r
    unfolding in_order
    parts = IsSorted-middle (in_order l) k v (in_order r) s

  -- `insert` is insertion into the sorted list of entries.
  pub in_order-insert :
      (t : Tree V) (key : ℤ) (val : V) (size : ℤ)
      → IsOrdered t
      → in_order (insert t key val size).0 ≡ insert_entry key val (in_order t)
  unfolding in_order
  in_order-insert nil key val size s = unfold insert insert_entry in refl
  in_order-insert (node l k v h r) key val size s =
      let (sl, bl, ar, sr) = parts l k v h r s in
      elim (comparison key k) [
        | less e c ↦
            rw (insert_less l k v h r key val size e, in_order-balance)
              (rw (in_order-insert l key val size sl)
                (sym (insert_entry-before key val (in_order l) k v (in_order r) c)))
        | same e c ↦
            rw (insert_same l k v h r key val size e, c)
              (sym (insert_entry_here k (in_order l) v (in_order r) bl val))
        | more e c ↦
            rw (insert_more l k v h r key val size e, in_order-balance)
              (rw (in_order-insert r key val size sr)
                (sym (insert_entry_after k (in_order l) v (in_order r) bl key c val)))
      ]

  abbrev pub found_value : Tree V → Option V
  found_value nil = none
  found_value (node l k v h r) = some v

  -- `find` reads the list of entries.
  pub find-lookup_entry :
      (t : Tree V) (key : ℤ)
      → IsOrdered t
      → found_value (find t key) ≡ lookup_entry key (in_order t)
  unfolding in_order
  find-lookup_entry nil key s = unfold find lookup_entry in refl
  find-lookup_entry (node l k v h r) key s =
      let (sl, bl, ar, sr) = parts l k v h r s in
      elim (comparison key k) [
        | less e c ↦ rw (find_less l k v h r key e) (
            find-lookup_entry l key sl
            ∙ sym (lookup_entry-before key (in_order l) k v (in_order r) c ar))
        | same e c ↦
            rw (find_same l k v h r key e, c)
              (sym (lookup_entry_here k (in_order l) v (in_order r) bl))
        | more e c ↦ rw (find_more l k v h r key e) (
            find-lookup_entry r key sr
            ∙ sym (lookup_entry_after k (in_order l) v (in_order r) bl key c))
      ]

  -- The leftmost node holds the first entry.
  pub min_node_first :
      (l : Tree V) (k : ℤ) (v : V) (h : ℕ) (r : Tree V)
      → (l' : Tree V) × (k' : ℤ) × (v' : V) × (h' : ℕ) × (r' : Tree V) × (rest : List (ℤ × V))
        × (min_node (node l k v h r) ≡ node l' k' v' h' r')
        × (in_order (node l k v h r) ≡ (k', v') ∷ rest)
  unfolding min_node in_order
  min_node_first nil k v h r = (nil, k, v, h, r, in_order r, refl, refl)
  min_node_first (node ll lk lv lh lr) k v h r =
      let (l', k', v', h', r', rest, e, f) = min_node_first ll lk lv lh lr in
      (l', k', v', h', r', rest ++ (k, v) ∷ in_order r, e, rw f)

  delete_first : (k : ℤ) (v : V) (es : List (ℤ × V)) → delete_entry k ((k, v) ∷ es) ≡ es
  unfolding delete_entry
  delete_first k v es = ground arith

  nil_entries : (t : Tree V) → is_nil t ≡ true → in_order t ≡ []
  unfolding in_order
  nil_entries nil e = refl
  nil_entries (node l k v h r) e = cc

  -- `remove` at the node with the key: its entry goes, by whichever branch. The recursive call on
  -- the right subtree is handed in.
  in_order-remove_same :
      (l : Tree V) (k : ℤ) (v : V) (h : ℕ) (r : Tree V) (size : ℤ)
      → compare_ℤ k k ≡ eq
      → ((q size' : ℤ) → in_order (remove r q size').0 ≡ delete_entry q (in_order r))
      → in_order (remove (node l k v h r) k size).0 ≡ in_order l ++ in_order r
  in_order-remove_same nil k v h r size e ih =
      rw (remove_only_right nil k v h r k size e refl) (unfold in_order in refl)
  in_order-remove_same (node ll lk lv lh lr) k v h nil size e ih =
      let l = node ll lk lv lh lr in
      rw (remove_only_left l k v h nil k size e refl refl)
        (unfold in_order in sym (append-nil (in_order l)))
  in_order-remove_same (node ll lk lv lh lr) k v h (node rl rk rv rh rr) size e ih =
      let l = node ll lk lv lh lr in
      let r = node rl rk rv rh rr in
      let (sl, sk, sv, sh, sr, rest, m, first) = min_node_first rl rk rv rh rr in
      rw (remove_both l k v h r k size e refl refl sl sk sv sh sr m, in_order-balance)
        (unfold in_order in
          ap (λ es. in_order l ++ (sk, sv) ∷ es)
            (ih sk (size -ℤ pos 1 +ℤ pos 1) ∙ ap (delete_entry sk) first ∙ delete_first sk sv rest)
          ∙ ap (◌++◌ (in_order l)) (sym first))

  -- `remove` is deletion from the sorted list of entries.
  pub in_order-remove :
      (t : Tree V) (key : ℤ) (size : ℤ)
      → IsOrdered t
      → in_order (remove t key size).0 ≡ delete_entry key (in_order t)
  unfolding in_order
  in_order-remove nil key size s = unfold remove delete_entry in refl
  in_order-remove (node l k v h r) key size s =
      let (sl, bl, ar, sr) = parts l k v h r s in
      let right : (q size' : ℤ) → in_order (remove r q size').0 ≡ delete_entry q (in_order r) =
        λ q size'. in_order-remove r q size' sr in
      elim (comparison key k) [
        | less e c ↦
            rw (remove_less l k v h r key size e, in_order-balance)
              (rw (in_order-remove l key size sl)
                (sym (delete_entry-before key (in_order l) k v (in_order r) c)))
        | same e c ↦ rw c (
            in_order-remove_same l k v h r size (rw c at e) right
            ∙ sym (delete_entry_here k (in_order l) v (in_order r) bl))
        | more e c ↦
            rw (remove_more l k v h r key size e, in_order-balance)
              (rw (right key size)
                (sym (delete_entry_after k (in_order l) v (in_order r) bl key c)))
      ]

  range_left :
      (l : Tree V) (k lo hi : ℤ)
      → All (λ q. q <ℤ k) (in_order l)
      → range_query l lo hi ≡ filter_by (in_range lo hi) (in_order l)
      → (if ltb_ℤ lo k then range_query l lo hi else []) ≡ filter_by (in_range lo hi) (in_order l)
  range_left l k lo hi bl ih = ground (arith, in_range_none_below lo hi k (in_order l) bl)

  range_right :
      (k : ℤ) (v : V) (r : Tree V) (lo hi : ℤ)
      → All (λ q. k <ℤ q) (in_order r)
      → range_query r lo hi ≡ filter_by (in_range lo hi) (in_order r)
      → (if leb_ℤ lo k then (if leb_ℤ k hi then (k, v) ∷ [] else []) else [])
          ++ (if ltb_ℤ k hi then range_query r lo hi else [])
        ≡ filter_by (in_range lo hi) ((k, v) ∷ in_order r)
  unfolding filter_by
  range_right k v r lo hi ar ih = elim (Bool-cases (ltb_ℤ k hi)) [
    | inl p ↦ rw (p, ih) (ground arith)
    | inr p ↦
        let none_right : filter_by (in_range lo hi) (in_order r) ≡ [] =
          in_range_none_above lo hi k (in_order r) ar (ground arith) in
        rw (p, none_right) (ground arith)
  ]

  -- `range_query` calls back for exactly the entries in [lo, hi], in order.
  pub range_query-filter :
      (t : Tree V) (lo hi : ℤ)
      → IsOrdered t
      → range_query t lo hi ≡ filter_by (in_range lo hi) (in_order t)
  unfolding in_order range_query
  range_query-filter nil lo hi s = unfold filter_by in refl
  range_query-filter (node l k v h r) lo hi s =
      let (sl, bl, ar, sr) = parts l k v h r s in
      rw (filter_by-append (in_range lo hi) (in_order l) ((k, v) ∷ in_order r)) (
        ap₂ ◌++◌ (range_left l k lo hi bl (range_query-filter l lo hi sl))
          (range_right k v r lo hi ar (range_query-filter r lo hi sr)))
