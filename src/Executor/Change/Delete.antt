-- ===== src/Executor/Change/Delete.antt =====
-- Executor.cpp: executeDelete of a statement without a WHERE clause, and statements on tables that
-- the catalog does not have.
use apgitproj.Base.{
  ℕ, zero, suc, ◌+◌, ◌≤◌, ◌<◌, ◌≡◌, refl, ◌∙◌, true, false, List, ◌∷◌, pos, replicate, arith,
  Option, none, some,
}
use apgitproj.Doubles.{Doubles}
use apgitproj.Schema.{TableSchema, page_size}
use apgitproj.Row.{Row}
use apgitproj.Page.{Page, get_row}
use apgitproj.Disk.{page_count}
use apgitproj.Catalog.{Catalog, get_schema, table_hash}
use apgitproj.DoublyLinkedList.Segments.{Cells}
use apgitproj.Parser.{ParsedQuery}
use apgitproj.BufferPool.{Store, page_of}
use apgitproj.BufferPool.View.{Naming, view, Sees}
use apgitproj.BufferPool.Transparent.{IsSound}
use apgitproj.Executor.{fetch, record_count}
use apgitproj.Executor.Fetch.{fetch-IsServed, served-capacity}
use apgitproj.Executor.Change.{keep_row, keep_rows, delete_pages, execute_delete}

module _ (F : Doubles) (to_bytes : F.Double → List ℕ) (of_bytes : List ℕ → F.Double)
    (q : ParsedQuery F.Double) where
  module _ (schema : TableSchema) (all : q.has_where ≡ false) where
    -- No row is counted as deleted.
    keep_row-none :
        (row : Option (Row F.Double)) (st : List ℕ × ℕ × ℕ)
        → (keep_row F to_bytes of_bytes schema q row st).2 ≡ st.2
    unfolding keep_row
    keep_row-none none st = refl
    keep_row-none (some row) (tmp, kept, deleted) = rw all refl

    keep_rows-none :
        (pg : Page) (ri n : ℕ) (st : List ℕ × ℕ × ℕ)
        → (keep_rows F to_bytes of_bytes schema q pg ri n st).2 ≡ st.2
    unfolding keep_rows
    keep_rows-none pg ri zero st = refl
    keep_rows-none pg ri (suc n) st =
        let row = get_row to_bytes of_bytes schema pg (pos ri) in
        keep_rows-none pg (suc ri) n (keep_row F to_bytes of_bytes schema q row st)
        ∙ keep_row-none row st

    module _ (naming : Naming)
        (same_hash : naming.hash_of schema.file_path ≡ table_hash schema.table_name)
        (content : ℕ → List ℕ) where
      -- What is left: a sound pool, with every page as it was.
      pub record IsKept (s t : Store) : Type 0 where
        pub cells : Cells ℕ
        pub sound : IsSound naming t cells
        pub sees : Sees naming s t

      delete_pages-IsKept :
          (pid n : ℕ) (s : Store) (cells : Cells ℕ)
          → IsSound naming s cells
          → 1 ≤ s.pool.capacity
          → ((i : ℕ)
              → pid ≤ i
              → i < pid + n
              → naming.Known schema.file_path i
                × (view naming s schema.file_path i ≡ some (content i)))
          → IsKept s (delete_pages F to_bytes of_bytes schema q pid n (s, 0)).0
      unfolding delete_pages
      delete_pages-IsKept pid zero s cells v h t = record {
        cells = cells;
        sound = v;
        sees = λ path i b k e. e;
      }
      delete_pages-IsKept pid (suc n) s cells v h t =
          let here = t pid (omega arith) (omega arith) in
          let fetched = fetch schema pid s in
          let pg = page_of fetched.1.pool fetched.0 in
          let d =
            fetch-IsServed naming schema same_hash s cells pid (content pid) v h here.0 here.1 in
          let kept = keep_rows-none pg 0 (record_count pg) (replicate page_size 0, 0, 0) in
          let rest =
            delete_pages-IsKept (suc pid) n fetched.1 ((d.node, fetched.0) ∷ d.rest) d.sound
              (served-capacity naming schema same_hash s pid (content pid) fetched d)
              (λ i a b.
                let w = t i (omega arith) (omega arith) in
                (w.0, d.sees schema.file_path i (content i) w.0 w.1)) in
          rw (kept, delete_pages)
            (record {
              cells = rest.cells;
              sound = rest.sound;
              sees = λ path i b k e. rest.sees path i b k (d.sees path i b k e);
            })

      -- `executeDelete` without a WHERE clause reports success and deletes nothing.
      pub execute_delete-IsKept :
          (c : Catalog) (s : Store) (cells : Cells ℕ)
          → get_schema c q.table_name ≡ some schema
          → IsSound naming s cells
          → 1 ≤ s.pool.capacity
          → ((i : ℕ)
              → i < page_count s.disk schema.file_path
              → naming.Known schema.file_path i
                × (view naming s schema.file_path i ≡ some (content i)))
          → ((execute_delete F to_bytes of_bytes c q s).0 ≡ true)
            × IsKept s (execute_delete F to_bytes of_bytes c q s).1
      unfolding execute_delete
      execute_delete-IsKept c s cells e v h t =
          rw (e, execute_delete)
            (
              refl,
              delete_pages-IsKept 0 (page_count s.disk schema.file_path) s cells v h
                  (λ i a b. t i (omega arith)),
            )
