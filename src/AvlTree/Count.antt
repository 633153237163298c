-- ===== src/AvlTree/Count.antt =====
-- AVLTree.h: how `size_` moves with the entries.
use apgitproj.Base.{
  ℕ, suc, ◌+◌, ◌≡◌, refl, ap, ap₂, sym, ◌∙◌, Option, none, some, List, [], ◌∷◌, length, arith, eq,
  ℤ, pos, ◌+ℤ◌, ◌-ℤ◌, compare_ℤ, comparison, less, same, more, ◌<ℤ◌, pos_add_one, pos_sub_one,
  sub_add_one,
}
use apgitproj.AvlTree.{Tree, nil, node, insert, remove, find, in_order}
use apgitproj.AvlTree.Steps.{
  insert_less, insert_same, insert_more, remove_less, remove_more, remove_only_left,
  remove_only_right, remove_both, find_less, find_same, find_more,
}
use apgitproj.AvlTree.Entries.{
  All, IsSorted, insert_entry, delete_entry, lookup_entry, lookup_entry_above, All-imp,
}
use apgitproj.AvlTree.Order.{
  IsOrdered, parts, found_value, find-lookup_entry, min_node_first, in_order-insert,
  in_order-remove,
}

module _ {V : Type 0} where
  abbrev grown : Option V → ℤ → ℤ
  grown none s = s +ℤ pos 1
  grown (some _) s = s

  abbrev shrunk : Option V → ℤ → ℤ
  shrunk none s = s
  shrunk (some _) s = s -ℤ pos 1

  -- 1 for a hit and 0 for a miss.
  abbrev present : Option V → ℕ
  present none = 0
  present (some _) = 1

  size-insert :
      (t : Tree V) (key : ℤ) (val : V) (size : ℤ)
      → (insert t key val size).1 ≡ grown (found_value (find t key)) size
  size-insert nil key val size = unfold insert find in refl
  size-insert (node l k v h r) key val size = elim (comparison key k) [
    | less e c ↦
        rw (insert_less l k v h r key val size e, find_less l k v h r key e)
          (size-insert l key val size)
    | same e c ↦ rw (insert_same l k v h r key val size e, find_same l k v h r key e)
    | more e c ↦
        rw (insert_more l k v h r key val size e, find_more l k v h r key e)
          (size-insert r key val size)
  ]

  lookup_first : (k : ℤ) (v : V) (es : List (ℤ × V)) → lookup_entry k ((k, v) ∷ es) ≡ some v
  unfolding lookup_entry
  lookup_first k v es = ground arith

  -- The least key of a search tree is found in it.
  find_least :
      (r : Tree V) (k : ℤ) (v : V) (es : List (ℤ × V))
      → IsOrdered r
      → in_order r ≡ (k, v) ∷ es
      → found_value (find r k) ≡ some v
  find_least r k v es s e = find-lookup_entry r k s ∙ ap (lookup_entry k) e ∙ lookup_first k v es

  size-remove_same :
      (l : Tree V) (k : ℤ) (v : V) (h : ℕ) (r : Tree V) (size : ℤ)
      → compare_ℤ k k ≡ eq
      → IsOrdered r
      → ((q s : ℤ) → (remove r q s).1 ≡ shrunk (found_value (find r q)) s)
      → (remove (node l k v h r) k size).1 ≡ size -ℤ pos 1
  size-remove_same nil k v h r size e s ih = rw (remove_only_right nil k v h r k size e refl)
  size-remove_same (node ll lk lv lh lr) k v h nil size e s ih =
      rw (remove_only_left (node ll lk lv lh lr) k v h nil k size e refl refl)
  size-remove_same (node ll lk lv lh lr) k v h (node rl rk rv rh rr) size e s ih =
      let l = node ll lk lv lh lr in
      let r = node rl rk rv rh rr in
      let (sl, sk, sv, sh, sr, rest, m, first) = min_node_first rl rk rv rh rr in
      rw (remove_both l k v h r k size e refl refl sl sk sv sh sr m) (
        ih sk (size -ℤ pos 1 +ℤ pos 1)
        ∙ ap (λ o. shrunk o (size -ℤ pos 1 +ℤ pos 1)) (find_least r sk sv rest s first)
        ∙ ap (λ z. z -ℤ pos 1) (sub_add_one size))

  size-remove :
      (t : Tree V) (key : ℤ) (size : ℤ)
      → IsOrdered t
      → (remove t key size).1 ≡ shrunk (found_value (find t key)) size
  size-remove nil key size s = unfold remove find in refl
  size-remove (node l k v h r) key size s =
      let (sl, bl, ar, sr) = parts l k v h r s in
      elim (comparison key k) [
        | less e c ↦
            rw (remove_less l k v h r key size e, find_less l k v h r key e)
              (size-remove l key size sl)
        | same e c ↦
            rw (find_same l k v h r key e, c)
              (size-remove_same l k v h r size (rw c at e) sr λ q z. size-remove r q z sr)
        | more e c ↦
            rw (remove_more l k v h r key size e, find_more l k v h r key e)
              (size-remove r key size sr)
      ]

  above :
      (k key : ℤ) (es : List (ℤ × V)) → All (λ q. k <ℤ q) es → key <ℤ k → lookup_entry key es ≡ none
  above k key es a h =
      lookup_entry_above key es (All-imp (λ q. k <ℤ q) (λ q. key <ℤ q) (λ q d. omega arith) es a)

  length-insert_entry :
      (key : ℤ) (val : V) (es : List (ℤ × V))
      → IsSorted es
      → length (insert_entry key val es) + present (lookup_entry key es) ≡ length es + 1
  unfolding insert_entry lookup_entry
  length-insert_entry key val [] s = refl
  length-insert_entry key val (e ∷ es) s =
      ground (arith, length-insert_entry key val es s.1, above e.0 key es s.0)

  length-delete_entry :
      (key : ℤ) (es : List (ℤ × V))
      → IsSorted es
      → length (delete_entry key es) + present (lookup_entry key es) ≡ length es
  unfolding delete_entry lookup_entry
  length-delete_entry key [] s = refl
  length-delete_entry key (e ∷ es) s =
      ground (arith, length-delete_entry key es s.1, above e.0 key es s.0)

  grown_count : (o : Option V) (n m : ℕ) → m + present o ≡ n + 1 → grown o (pos n) ≡ pos m
  grown_count none n m h = pos_add_one n ∙ ap pos (omega arith)
  grown_count (some v) n m h = ap pos (omega arith)

  shrunk_count : (o : Option V) (n m : ℕ) → m + present o ≡ n → shrunk o (pos n) ≡ pos m
  shrunk_count none n m h = ap pos (omega arith)
  shrunk_count (some v) n m h = let e : n ≡ suc m = omega arith in rw e (pos_sub_one m)

  -- `size_` counts the entries.
  abbrev pub Counts : Tree V → ℤ → Type 0
  Counts t size = size ≡ pos (length (in_order t))

  pub insert-Counts :
      (t : Tree V) (key : ℤ) (val : V) (size : ℤ)
      → IsOrdered t
      → Counts t size
      → Counts (insert t key val size).0 (insert t key val size).1
  insert-Counts t key val size s c =
      let es = in_order t in
      size-insert t key val size
      ∙ ap₂ grown (find-lookup_entry t key s) c
      ∙ grown_count (lookup_entry key es) (length es) (length (insert_entry key val es))
          (length-insert_entry key val es s)
      ∙ sym (ap (λ z. pos (length z)) (in_order-insert t key val size s))

  pub remove-Counts :
      (t : Tree V) (key : ℤ) (size : ℤ)
      → IsOrdered t
      → Counts t size
      → Counts (remove t key size).0 (remove t key size).1
  remove-Counts t key size s c =
      let es = in_order t in
      size-remove t key size s
      ∙ ap₂ shrunk (find-lookup_entry t key s) c
      ∙ shrunk_count (lookup_entry key es) (length es) (length (delete_entry key es))
          (length-delete_entry key es s)
      ∙ sym (ap (λ z. pos (length z)) (in_order-remove t key size s))
