-- ===== src/Executor/Change.antt =====
-- Executor.cpp: executeInsert, executeUpdate and executeDelete. The value of a column that a
-- statement does not give is what the array of the values happens to hold; here it is empty.
pub mod Put
pub mod Insert
pub mod Delete
use apgitproj.Base.{
  ℕ, zero, suc, ◌+◌, ◌*◌, Bool, true, false, ◌&&◌, not, List, [], ◌∷◌, ℤ, pos, negsuc, length,
  get_or, replicate, ltb, if◌then◌else◌, Text, Option, none, some,
}
use apgitproj.Doubles.{Doubles}
use apgitproj.Memory.{read_bytes, write_bytes}
use apgitproj.Schema.{
  FieldType, ColumnDef, TableSchema, page_size, page_header, record_size, column_index,
}
use apgitproj.Row.{Row, new_row, set_field, serialize}
use apgitproj.Page.{Page, init, write_int, is_full, append_row, get_row}
use apgitproj.Disk.{page_count}
use apgitproj.Catalog.{Catalog, get_schema}
use apgitproj.Parser.{ParsedQuery}
use apgitproj.Eval.{eval_where}
use apgitproj.BufferPool.{Store, page_of}
use apgitproj.Executor.{fetch, record_count, write_frame, mark, new_field, matches}

abbrev pub blank_column : ColumnDef
blank_column = record { name = []; type = FieldType.int_type; ser_size = 0 }

module _ (F : Doubles) (to_bytes : F.Double → List ℕ) (of_bytes : List ℕ → F.Double) where
  -- The fields `i` and on of the new row.
  unfoldable pub fill_row : List ColumnDef → List Text → ℕ → Row F.Double → Row F.Double
  fill_row [] vals i row = row
  fill_row (col ∷ cols) vals i row =
      fill_row cols vals (suc i) (set_field row i (new_field F col (get_or vals i [])))

  unfoldable pub insert_row : TableSchema → ParsedQuery F.Double → Row F.Double
  insert_row schema q = fill_row schema.columns q.insert_vals 0 (new_row (length schema.columns))

  -- The pages below `n`, the last first: whether the row was put into one.
  unfoldable pub insert_into : TableSchema → Row F.Double → ℕ → Store → Bool × Store
  insert_into schema row zero s = (false, s)
  insert_into schema row (suc pid) s =
      let fetched = fetch schema pid s in
      let frame = fetched.0 in
      let pg = page_of fetched.1.pool frame in
      let added = append_row to_bytes of_bytes schema row pg in
      let rest = insert_into schema row pid fetched.1 in
      if not (is_full pg schema)
      then (true, mark schema pid (write_frame frame added.1 fetched.1))
      else rest

  -- A new page with the row.
  unfoldable pub insert_new : TableSchema → Row F.Double → ℕ → Store → Store
  insert_new schema row pid s =
      let fetched = fetch schema pid s in
      let frame = fetched.0 in
      let pg = init (page_of fetched.1.pool frame) (pos pid) in
      let added = append_row to_bytes of_bytes schema row pg in
      mark schema pid (write_frame frame added.1 fetched.1)

  unfoldable pub insert_table : TableSchema → Row F.Double → Store → Store
  insert_table schema row s =
      let count = page_count s.disk schema.file_path in
      let r = insert_into schema row count s in if r.0 then r.1 else insert_new schema row count r.1

  unfoldable pub execute_insert : Catalog → ParsedQuery F.Double → Store → Bool × Store
  execute_insert c q s = elim (get_schema c q.table_name) [
    | none ↦ (false, s)
    | some schema ↦ (true, insert_table schema (insert_row schema q) s)
  ]

  module _ (schema : TableSchema) (q : ParsedQuery F.Double) where
    -- The page with a row written in place `ri`.
    abbrev pub rewritten : ℕ → Row F.Double → Page → Page
    rewritten ri row pg = record pg {
      bytes =
          serialize to_bytes of_bytes schema.columns row pg.bytes
            (page_header + ri * record_size schema);
    }

    -- One record of a page, and the number of rows updated.
    unfoldable pub update_record : ℕ → ℕ → ℕ → ℕ → Store × ℕ → Store × ℕ
    update_record col_idx pid frame ri (s, updated) =
        let pg = page_of s.pool frame in
        let field = new_field F (get_or schema.columns col_idx blank_column) q.update_val in
        elim (get_row to_bytes of_bytes schema pg (pos ri)) [
          | none ↦ (s, updated)
          | some row ↦
              if matches F q schema row
              then (
                mark schema pid
                    (write_frame frame (rewritten ri (set_field row col_idx field) pg) s),
                suc updated,
              )
              else (s, updated)
        ]

    unfoldable pub update_rows : ℕ → ℕ → ℕ → ℕ → ℕ → Store × ℕ → Store × ℕ
    update_rows col_idx pid frame ri zero st = st
    update_rows col_idx pid frame ri (suc n) st =
        update_rows col_idx pid frame (suc ri) n (update_record col_idx pid frame ri st)

    unfoldable pub update_pages : ℕ → ℕ → ℕ → Store × ℕ → Store × ℕ
    update_pages col_idx pid zero st = st
    update_pages col_idx pid (suc n) (s, updated) =
        let fetched = fetch schema pid s in
        let pg = page_of fetched.1.pool fetched.0 in
        update_pages col_idx (suc pid) n
          (update_rows col_idx pid fetched.0 0 (record_count pg) (fetched.1, updated))

    -- A row is counted as deleted, or written after those that are kept: the buffer, their number,
    -- and the number of the rows deleted. The buffer is read only where it was written, so it starts
    -- with zeros here.
    unfoldable pub keep_row : Option (Row F.Double) → List ℕ × ℕ × ℕ → List ℕ × ℕ × ℕ
    keep_row none st = st
    keep_row (some row) (tmp, kept, deleted) =
        if q.has_where && eval_where F q.has_where q.postfix row schema
        then (tmp, kept, suc deleted)
        else (
          serialize to_bytes of_bytes schema.columns row tmp
              (page_header + kept * record_size schema),
          suc kept,
          deleted,
        )

    -- The records `ri` to `ri + n` of a page.
    unfoldable pub keep_rows : Page → ℕ → ℕ → List ℕ × ℕ × ℕ → List ℕ × ℕ × ℕ
    keep_rows pg ri zero st = st
    keep_rows pg ri (suc n) st =
        keep_rows pg (suc ri) n (keep_row (get_row to_bytes of_bytes schema pg (pos ri)) st)

    -- The kept records written back, with their number.
    unfoldable pub compact : List ℕ → ℕ → Page → Page
    compact tmp kept pg = record pg {
      bytes =
          write_int
            (write_bytes pg.bytes page_header
              (read_bytes tmp page_header (kept * record_size schema)))
            4 (pos kept);
    }

    unfoldable pub delete_pages : ℕ → ℕ → Store × ℕ → Store × ℕ
    delete_pages pid zero st = st
    delete_pages pid (suc n) (s, deleted) =
        let fetched = fetch schema pid s in
        let pg = page_of fetched.1.pool fetched.0 in
        let r = keep_rows pg 0 (record_count pg) (replicate page_size 0, 0, deleted) in
        delete_pages (suc pid) n (
          if ltb 0 r.2
              then mark schema pid (write_frame fetched.0 (compact r.0 r.1 pg) fetched.1)
              else fetched.1,
          r.2,
        )

  unfoldable pub update_table : TableSchema → ParsedQuery F.Double → ℤ → Store → Bool × Store
  update_table schema q (negsuc n) s = (false, s)
  update_table schema q (pos col_idx) s =
      (true, (update_pages schema q col_idx 0 (page_count s.disk schema.file_path) (s, 0)).0)

  unfoldable pub execute_update : Catalog → ParsedQuery F.Double → Store → Bool × Store
  execute_update c q s = elim (get_schema c q.table_name) [
    | none ↦ (false, s)
    | some schema ↦ update_table schema q (column_index schema q.update_col) s
  ]

  unfoldable pub execute_delete : Catalog → ParsedQuery F.Double → Store → Bool × Store
  execute_delete c q s = elim (get_schema c q.table_name) [
    | none ↦ (false, s)
    | some schema ↦ (true, (delete_pages schema q 0 (page_count s.disk schema.file_path) (s, 0)).0)
  ]
