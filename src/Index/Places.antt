-- ===== src/Index/Places.antt =====
-- AVLIndex: the places found for a key are those inserted under it, in order.
use apgitproj.Base.{
  ℕ, zero, suc, ◌≤◌, ◌≡◌, refl, ap, ◌∙◌, sym, subst, Bool, true, false, Bool-cases, List, [], ◌∷◌,
  ◌++◌, ℤ, pos, pos_part, compare_ℤ, comparison, less, same, more, eq, length, length-append, take,
  take-all, take-append, append_assoc, append-nil, ltb, if◌then◌else◌, Text, Option, none, some,
  inl, inr, arith,
}
use apgitproj.AvlTree.{AvlTree, new_tree, put, search, find}
use apgitproj.AvlTree.Methods.{IsValid, new_tree-IsValid, put-IsValid, search-put}
use apgitproj.Schema.{TableSchema}
use apgitproj.Page.{Page, blank_page, get_record_count, get_row}
use apgitproj.Disk.{Disk, page_count, read_page}
use apgitproj.Index.{
  Place, Places, max_locs, add, new_index, index_record, insert_place, index_search, key_of,
  scan_records, scan_pages, build,
}

-- What is found for a key, and no places if there is no entry.
abbrev pub places_at : AvlTree Places → ℤ → Places
places_at tree key = elim (search tree key) [ some locs ↦ locs | none ↦ [] ]

insert_place-put :
    (tree : AvlTree Places) (key : ℤ) (p : Place)
    → insert_place tree key p ≡ put tree key (add (places_at tree key) p)
unfolding insert_place
insert_place-put tree key p = by_cases (search tree key)
  where
    by_cases :
        (o : Option Places)
        → elim o [ some existing ↦ put tree key (add existing p) | none ↦ put tree key (add [] p) ]
          ≡ put tree key (add (elim o [ some locs ↦ locs | none ↦ [] ]) p)
    by_cases none = refl
    by_cases (some locs) = refl

pub insert_place-IsValid :
    (tree : AvlTree Places) (key : ℤ) (p : Place) → IsValid tree → IsValid (insert_place tree key p)
insert_place-IsValid tree key p v =
    subst IsValid (sym (insert_place-put tree key p))
      (put-IsValid tree key (add (places_at tree key) p) v)

-- Under the key one place more, if there is room for it; under the other keys as before.
pub search-insert_place :
    (tree : AvlTree Places) (key q : ℤ) (p : Place)
    → IsValid tree
    → search (insert_place tree key p) q
      ≡ elim (compare_ℤ q key) [ eq ↦ some (add (places_at tree key) p) | _ ↦ search tree q ]
search-insert_place tree key q p v =
    ap (λ t. search t q) (insert_place-put tree key p)
    ∙ search-put tree key q (add (places_at tree key) p) v

search-new_tree : (q : ℤ) → search (new_tree {V = Places}) q ≡ none
unfolding search new_tree find
search-new_tree q = refl

-- The places of one key in a list of keys with places.
unfoldable pub places_of : ℤ → List (ℤ × Place) → Places
places_of q [] = []
places_of q ((key, p) ∷ ks) = elim (compare_ℤ q key) [
  | eq ↦ p ∷ places_of q ks
  | _ ↦ places_of q ks
]

-- Places added to an entry one by one.
unfoldable pub add_all : Option Places → Places → Option Places
add_all o [] = o
add_all o (p ∷ ps) = add_all (some (add (elim o [ some locs ↦ locs | none ↦ [] ]) p)) ps

-- The entry of a key with some places; a key without places has none.
unfoldable pub entry_of : Places → Option Places
entry_of [] = none
entry_of (p ∷ ps) = some (p ∷ ps)

unfoldable pub insert_all : AvlTree Places → List (ℤ × Place) → AvlTree Places
insert_all tree [] = tree
insert_all tree ((key, p) ∷ ks) = insert_all (insert_place tree key p) ks

-- A place more for the key goes to the entry of that key.
add_all_next :
    (tree : AvlTree Places) (key q : ℤ) (p : Place) (ps : Places)
    → add_all
        (elim (compare_ℤ q key) [ eq ↦ some (add (places_at tree key) p) | _ ↦ search tree q ])
        ps
      ≡ add_all (search tree q) (elim (compare_ℤ q key) [ eq ↦ p ∷ ps | _ ↦ ps ])
unfolding add_all
add_all_next tree key q p ps = elim (comparison q key) [
  | less c h ↦ rw c refl
  | more c h ↦ rw c refl
  | same c h ↦ rw c (ap (λ k. add_all (some (add (places_at tree k) p)) ps) (sym h))
]

search-insert_all :
    (tree : AvlTree Places) (ks : List (ℤ × Place)) (q : ℤ)
    → IsValid tree
    → search (insert_all tree ks) q ≡ add_all (search tree q) (places_of q ks)
unfolding insert_all places_of add_all
search-insert_all tree [] q v = refl
search-insert_all tree ((key, p) ∷ ks) q v =
    search-insert_all (insert_place tree key p) ks q (insert_place-IsValid tree key p v)
    ∙ ap (λ o. add_all o (places_of q ks)) (search-insert_place tree key q p v)
    ∙ add_all_next tree key q p (places_of q ks)

add_all-some :
    (locs ps : Places)
    → length locs ≤ max_locs
    → add_all (some locs) ps ≡ some (take max_locs (locs ++ ps))
unfolding add_all add
add_all-some locs [] h =
    ap some (sym (ap (take max_locs) (append-nil locs) ∙ take-all max_locs locs h))
add_all-some locs (p ∷ ps) h = elim (Bool-cases (ltb (length locs) max_locs)) [
  | inl room ↦ rw room (
      add_all-some (locs ++ p ∷ []) ps (ground (arith, length-append locs (p ∷ [])))
      ∙ ap (λ ls. some (take max_locs ls)) (append_assoc locs (p ∷ []) ps))
  | inr full ↦
      let size : max_locs ≡ length locs = ground arith in
      rw full (
        add_all-some locs ps h
        ∙ ap (λ n. some (take n (locs ++ ps))) size
        ∙ ap some (take-append locs ps ∙ sym (take-append locs (p ∷ ps)))
        ∙ sym (ap (λ n. some (take n (locs ++ p ∷ ps))) size))
]

add_all-none : (ps : Places) → add_all none ps ≡ entry_of (take max_locs ps)
unfolding add_all entry_of add
add_all-none [] = refl
add_all-none (p ∷ ps) = add_all-some (p ∷ []) ps (omega arith)

module _ {D : Type 0} (to_bytes : D → List ℕ) (of_bytes : List ℕ → D) (schema : TableSchema)
    (col_index : ℤ) where
  -- The keys of a row, one or none, with its place.
  abbrev keyed : Option ℤ → Place → List (ℤ × Place)
  keyed none p = []
  keyed (some key) p = (key, p) ∷ []

  -- The keys of the records of a page, and of the pages of a file, in order.
  unfoldable pub page_keys : Page → ℕ → ℕ → ℕ → List (ℤ × Place)
  page_keys pg pid ri zero = []
  page_keys pg pid ri (suc n) =
      keyed
        (key_of to_bytes of_bytes schema col_index (get_row to_bytes of_bytes schema pg (pos ri)))
        (record { page_id = pid; rec_idx = ri })
      ++ page_keys pg pid (suc ri) n

  unfoldable pub file_keys : Disk → Text → ℕ → ℕ → List (ℤ × Place)
  file_keys d path pid zero = []
  file_keys d path pid (suc n) =
      let r = read_page d path pid blank_page in
      (if r.0 then page_keys r.1 pid 0 (pos_part (get_record_count r.1)) else [])
      ++ file_keys d path (suc pid) n

  insert_all-append :
      (tree : AvlTree Places) (ks ls : List (ℤ × Place))
      → insert_all tree (ks ++ ls) ≡ insert_all (insert_all tree ks) ls
  unfolding insert_all
  insert_all-append tree [] ls = refl
  insert_all-append tree ((key, p) ∷ ks) ls = insert_all-append (insert_place tree key p) ks ls

  index_record-keyed :
      (o : Option ℤ) (p : Place) (tree : AvlTree Places)
      → index_record o p tree ≡ insert_all tree (keyed o p)
  unfolding index_record insert_all
  index_record-keyed none p tree = refl
  index_record-keyed (some key) p tree = refl

  scan_records-insert_all :
      (pg : Page) (pid ri n : ℕ) (tree : AvlTree Places)
      → scan_records to_bytes of_bytes schema col_index pg pid ri n tree
        ≡ insert_all tree (page_keys pg pid ri n)
  unfolding scan_records page_keys insert_all
  scan_records-insert_all pg pid ri zero tree = refl
  scan_records-insert_all pg pid ri (suc n) tree =
      let key =
        key_of to_bytes of_bytes schema col_index (get_row to_bytes of_bytes schema pg (pos ri)) in
      let p : Place = record { page_id = pid; rec_idx = ri } in
      scan_records-insert_all pg pid (suc ri) n (index_record key p tree)
      ∙ ap (λ t. insert_all t (page_keys pg pid (suc ri) n)) (index_record-keyed key p tree)
      ∙ sym (insert_all-append tree (keyed key p) (page_keys pg pid (suc ri) n))

  scan_pages-insert_all :
      (d : Disk) (path : Text) (pid n : ℕ) (tree : AvlTree Places)
      → scan_pages to_bytes of_bytes schema col_index d path pid n tree
        ≡ insert_all tree (file_keys d path pid n)
  unfolding scan_pages file_keys insert_all
  scan_pages-insert_all d path pid zero tree = refl
  scan_pages-insert_all d path pid (suc n) tree =
      let r = read_page d path pid blank_page in
      let count = pos_part (get_record_count r.1) in
      scan_pages-insert_all d path (suc pid) n
        (if r.0 then scan_records to_bytes of_bytes schema col_index r.1 pid 0 count tree else tree)
      ∙ ap (λ t. insert_all t (file_keys d path (suc pid) n)) (page r.0 r.1 pid count tree)
      ∙ sym (
          insert_all-append tree (if r.0 then page_keys r.1 pid 0 count else [])
            (file_keys d path (suc pid) n))
    where
      page :
          (b : Bool) (pg : Page) (pid count : ℕ) (tree : AvlTree Places)
          → (if b
              then scan_records to_bytes of_bytes schema col_index pg pid 0 count tree
              else tree)
            ≡ insert_all tree (if b then page_keys pg pid 0 count else [])
      page true pg pid count tree = scan_records-insert_all pg pid 0 count tree
      page false pg pid count tree = refl

  -- An index built from a file finds for each key the places of its rows, in the order of the file
  -- and at most 32; a key that no row has is not found.
  pub index_search-build :
      (d : Disk) (path : Text) (q : ℤ)
      → index_search (build to_bytes of_bytes schema col_index d path new_index) q
        ≡ entry_of (take max_locs (places_of q (file_keys d path 0 (page_count d path))))
  unfolding index_search build new_index
  index_search-build d path q =
      ap (λ t. search t q) (scan_pages-insert_all d path 0 (page_count d path) new_tree)
      ∙ search-insert_all new_tree (file_keys d path 0 (page_count d path)) q new_tree-IsValid
      ∙ ap (λ o. add_all o (places_of q (file_keys d path 0 (page_count d path))))
          (search-new_tree q)
      ∙ add_all-none (places_of q (file_keys d path 0 (page_count d path)))
