-- ===== src/Executor/Change/Insert.antt =====
-- Executor.cpp: executeInsert puts the row into the last page that has room, or into a new one.
use apgitproj.Base.{
  ℕ, zero, suc, ◌≤◌, ◌<◌, ◌≡◌, refl, ap, ◌∙◌, subst, Bool, true, false, List, ◌∷◌, pos, pos_part,
  neg_part, length, arith, some,
}
use apgitproj.Doubles.{Doubles}
use apgitproj.HashMap.Hashing.{int_key}
use apgitproj.Schema.{TableSchema, records_per_page}
use apgitproj.Row.{Row}
use apgitproj.Row.RoundTrip.{RowFits}
use apgitproj.Page.{get_record_count, is_full, append_row, get_row, init}
use apgitproj.Page.Header.{SchemaIsValid, Holds, init-Holds}
use apgitproj.Disk.{page_count}
use apgitproj.Disk.Files.{loaded}
use apgitproj.Catalog.{table_hash}
use apgitproj.DoublyLinkedList.Segments.{Cells}
use apgitproj.BufferPool.{Store, page_of}
use apgitproj.BufferPool.View.{Naming, view, Sees}
use apgitproj.BufferPool.Transparent.{IsSound}
use apgitproj.BufferPool.Update.{found-IsPage}
use apgitproj.Executor.{fetch, write_frame, mark}
use apgitproj.Executor.Fetch.{fetch-IsServed, served-capacity}
use apgitproj.Executor.Change.{insert_into, insert_table, insert_new}
use apgitproj.BufferPool.Load.{init-IsPage}
use apgitproj.Executor.Change.Put.{IsInserted, added-IsInserted, Holds-bytes}

module _ (naming : Naming) (F : Doubles) (to_bytes : F.Double → List ℕ)
    (of_bytes : List ℕ → F.Double) (length-to_bytes : (d : F.Double) → length (to_bytes d) ≡ 8)
    (of_bytes-to_bytes : (d : F.Double) → of_bytes (to_bytes d) ≡ d) (schema : TableSchema)
    (same_hash : naming.hash_of schema.file_path ≡ table_hash schema.table_name)
    (valid : SchemaIsValid schema) (row : Row F.Double) (fits : RowFits schema.columns row) where
  -- When the last page of the table has room, `executeInsert` puts the row there: the page holds
  -- it after its other rows, which stay, and every other page is as it was.
  pub insert_table-IsInserted :
      (s : Store) (cells : Cells ℕ) (pid n : ℕ) (before : List ℕ)
      → IsSound naming s cells
      → 1 ≤ s.pool.capacity
      → page_count s.disk schema.file_path ≡ suc pid
      → naming.Known schema.file_path pid
      → view naming s schema.file_path pid ≡ some before
      → Holds schema (loaded pid before) n
      → n < records_per_page schema
      → IsInserted naming F to_bytes of_bytes schema s pid n before row
          (insert_table F to_bytes of_bytes schema row s)
  unfolding insert_table insert_into is_full pos_part neg_part
  insert_table-IsInserted s cells pid n before v h last known there holds room =
      let fetched = fetch schema pid s in
      let pg = page_of fetched.1.pool fetched.0 in
      let served = fetch-IsServed naming schema same_hash s cells pid before v h known there in
      let mine = Holds-bytes schema (loaded pid before) pg n served.holds holds in
      let is_page =
        found-IsPage naming fetched.1 ((served.node, fetched.0) ∷ served.rest) served.sound
          schema.file_path pid fetched.0 known served.mapped in
      let not_full : is_full pg schema ≡ false = rw (mine.count) (ground arith) in
      let done =
        added-IsInserted naming F to_bytes of_bytes schema length-to_bytes of_bytes-to_bytes
          same_hash valid s pid n before row known served pg is_page mine room fits in
      let after =
        mark schema pid
          (write_frame fetched.0 (append_row to_bytes of_bytes schema row pg).1 fetched.1) in
      rw (last, not_full)
        (subst (λ b. IsInserted naming F to_bytes of_bytes schema s pid n b row after) served.holds
          done)

  -- What the loop over pages that are full leaves.
  record IsPassed (s : Store) (r : Bool × Store) : Type 0 where
    cells : Cells ℕ
    none_found : r.0 ≡ false
    sound : IsSound naming r.1 cells
    room : 1 ≤ r.1.pool.capacity
    sees : Sees naming s r.1

  insert_into-full :
      (content : ℕ → List ℕ) (n : ℕ) (s : Store) (cells : Cells ℕ)
      → IsSound naming s cells
      → 1 ≤ s.pool.capacity
      → ((i : ℕ)
          → i < n
          → naming.Known schema.file_path i
            × (view naming s schema.file_path i ≡ some (content i))
            × (is_full (loaded i (content i)) schema ≡ true))
      → IsPassed s (insert_into F to_bytes of_bytes schema row n s)
  unfolding insert_into is_full get_record_count
  insert_into-full content zero s cells v h t = record {
    cells = cells;
    none_found = refl;
    sound = v;
    room = h;
    sees = λ path i b k e. e;
  }
  insert_into-full content (suc pid) s cells v h t =
      let here = t pid (omega arith) in
      let fetched = fetch schema pid s in
      let pg = page_of fetched.1.pool fetched.0 in
      let served =
        fetch-IsServed naming schema same_hash s cells pid (content pid) v h here.0 here.1 in
      let full : is_full pg schema ≡ true =
        ap (λ b. is_full (loaded pid b) schema) served.holds ∙ here.2 in
      let rest =
        insert_into-full content pid fetched.1 ((served.node, fetched.0) ∷ served.rest) served.sound
          (served-capacity naming schema same_hash s pid (content pid) fetched served)
          (λ i k.
            let w = t i (omega arith) in
            (w.0, served.sees schema.file_path i (content i) w.0 w.1, w.2)) in
      rw full (record {
        cells = rest.cells;
        none_found = rest.none_found;
        sound = rest.sound;
        room = rest.room;
        sees = λ path i b k e. rest.sees path i b k (served.sees path i b k e);
      })

  -- When every page that the file counts is full, `executeInsert` initialises the page after them.
  -- If that page is in the pool already, from an earlier insertion that is not flushed, its rows
  -- are gone: the page holds the new row alone.
  pub insert_table-overwrites :
      (content : ℕ → List ℕ) (s : Store) (cells : Cells ℕ) (before : List ℕ)
      → IsSound naming s cells
      → 1 ≤ s.pool.capacity
      → ((i : ℕ)
          → i < page_count s.disk schema.file_path
          → naming.Known schema.file_path i
            × (view naming s schema.file_path i ≡ some (content i))
            × (is_full (loaded i (content i)) schema ≡ true))
      → naming.Known schema.file_path (page_count s.disk schema.file_path)
      → view naming s schema.file_path (page_count s.disk schema.file_path) ≡ some before
      → 0 < records_per_page schema
      → (bytes : List ℕ) × (view naming
            (insert_table F to_bytes of_bytes schema row s)
            schema.file_path
            (page_count s.disk schema.file_path)
          ≡ some bytes)
        × Holds schema (loaded 0 bytes) 1
        × (get_row to_bytes of_bytes schema (loaded 0 bytes) (pos 0) ≡ some row)
  unfolding insert_table insert_new get_row get_record_count
  insert_table-overwrites content s cells before v h t known there room =
      let pid = page_count s.disk schema.file_path in
      let passed = insert_into-full content pid s cells v h t in
      let u = (insert_into F to_bytes of_bytes schema row pid s).1 in
      let served =
        fetch-IsServed naming schema same_hash u passed.cells pid before passed.sound passed.room
          known (passed.sees schema.file_path pid before known there) in
      let fetched = fetch schema pid u in
      let base = init (page_of fetched.1.pool fetched.0) (pos pid) in
      let done =
        added-IsInserted naming F to_bytes of_bytes schema length-to_bytes of_bytes-to_bytes
          same_hash valid u pid 0 before row known served base
          (init-IsPage (page_of fetched.1.pool fetched.0) pid)
          (init-Holds schema (page_of fetched.1.pool fetched.0) (pos pid)) room fits in
      rw (passed.none_found) (
        done.bytes,
        done.there,
        Holds-bytes schema (loaded pid done.bytes) (loaded 0 done.bytes) 1 refl done.holds,
        done.new_row,
      )
