-- ===== src/Index.antt =====
-- src/index/AVLIndex.h and AVLIndex.cpp: from the keys of an int column to the places of their rows.
pub mod Places
use apgitproj.Base.{
  ℕ, zero, suc, ◌+◌, Bool, true, false, List, [], ◌∷◌, ◌++◌, ℤ, pos, pos_part, length, ltb,
  if◌then◌else◌, Text, Option, none, some,
}
use apgitproj.AvlTree.{AvlTree, new_tree, put, search, delete, range}
use apgitproj.Schema.{TableSchema}
use apgitproj.Row.{Field, int_field, float_field, string_field, Row, get_field}
use apgitproj.Page.{Page, blank_page, get_record_count, get_row}
use apgitproj.Disk.{Disk, page_count, read_page}

-- `Loc`.
pub record Place : Type 0 where
  pub page_id : ℕ
  pub rec_idx : ℕ

abbrev pub max_locs : ℕ
max_locs = 32

-- `IndexEntry`: `locs[0 .. count)`.
abbrev pub Places : Type 0
Places = List Place

unfoldable pub add : Places → Place → Places
add locs p = if ltb (length locs) max_locs then locs ++ p ∷ [] else locs

pub record Index : Type 0 where
  pub tree : AvlTree Places
  pub is_built : Bool

unfoldable pub new_index : Index
new_index = record { tree = new_tree; is_built = false }

-- The entry found, or a new one, with the place added.
unfoldable pub insert_place : AvlTree Places → ℤ → Place → AvlTree Places
insert_place tree key p = elim (search tree key) [
  | some existing ↦ put tree key (add existing p)
  | none ↦ put tree key (add [] p)
]

-- A row without a key is passed over.
unfoldable pub index_record : Option ℤ → Place → AvlTree Places → AvlTree Places
index_record none p tree = tree
index_record (some key) p tree = insert_place tree key p

unfoldable pub index_insert : Index → ℤ → Place → Index
index_insert x key p = record x { tree = insert_place x.tree key p }

unfoldable pub index_search : Index → ℤ → Option Places
index_search x key = search x.tree key

unfoldable pub index_remove : Index → ℤ → Index
index_remove x key = record x { tree = delete x.tree key }

unfoldable pub index_range : Index → ℤ → ℤ → List (ℤ × Places)
index_range x lo hi = range x.tree lo hi

module _ {D : Type 0} (to_bytes : D → List ℕ) (of_bytes : List ℕ → D) (schema : TableSchema)
    (col_index : ℤ) where
  -- The key of a row, if its column holds an int.
  unfoldable pub key_of : Option (Row D) → Option ℤ
  key_of none = none
  key_of (some row) = elim (get_field row col_index) [
    | none ↦ none
    | some f ↦ elim f [ int_field v ↦ some v | float_field _ ↦ none | string_field _ ↦ none ]
  ]

  -- The records `ri` to `ri + n` of a page.
  unfoldable pub scan_records : Page → ℕ → ℕ → ℕ → AvlTree Places → AvlTree Places
  scan_records pg pid ri zero tree = tree
  scan_records pg pid ri (suc n) tree =
      let p : Place = record { page_id = pid; rec_idx = ri } in
      scan_records pg pid (suc ri) n
        (index_record (key_of (get_row to_bytes of_bytes schema pg (pos ri))) p tree)

  -- The pages `pid` to `pid + n` of the file. A page that is not read whole is passed over.
  unfoldable pub scan_pages : Disk → Text → ℕ → ℕ → AvlTree Places → AvlTree Places
  scan_pages d path pid zero tree = tree
  scan_pages d path pid (suc n) tree =
      let r = read_page d path pid blank_page in
      let count = pos_part (get_record_count r.1) in
      scan_pages d path (suc pid) n (if r.0 then scan_records r.1 pid 0 count tree else tree)

  unfoldable pub build : Disk → Text → Index → Index
  build d path x = record { tree = scan_pages d path 0 (page_count d path) x.tree; is_built = true }
