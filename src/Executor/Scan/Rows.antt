-- ===== src/Executor/Scan/Rows.antt =====
-- Executor.cpp: seqScan through the buffer pool counts the rows that the pages of the table hold.
use apgitproj.Base.{ℕ, zero, suc, ◌+◌, ◌≤◌, ◌<◌, ◌≡◌, List, pos, Option, none, some, if◌then◌else◌}
use apgitproj.Doubles.{Doubles}
use apgitproj.Schema.{TableSchema}
use apgitproj.Row.{Row}
use apgitproj.Page.{Page, get_row}
use apgitproj.Disk.Files.{loaded}
use apgitproj.Catalog.{table_hash}
use apgitproj.DoublyLinkedList.Segments.{Cells}
use apgitproj.Parser.{ParsedQuery}
use apgitproj.BufferPool.{Store}
use apgitproj.BufferPool.View.{Naming, view, Sees}
use apgitproj.BufferPool.Transparent.{IsSound}
use apgitproj.Executor.{record_count, matches}
use apgitproj.Executor.Scan.{Progress}

module _ (F : Doubles) (to_bytes : F.Double → List ℕ) (of_bytes : List ℕ → F.Double)
    (schema : TableSchema) (q : ParsedQuery F.Double) where
  -- How many of the records `ri` to `ri + n` of a page the statement chooses.
  unfoldable pub chosen_row : Option (Row F.Double) → ℕ
  chosen_row none = 0
  chosen_row (some row) = if matches F q schema row then 1 else 0

  unfoldable pub chosen_rows : Page → ℕ → ℕ → ℕ
  chosen_rows pg ri zero = 0
  chosen_rows pg ri (suc n) =
      chosen_row (get_row to_bytes of_bytes schema pg (pos ri)) + chosen_rows pg (suc ri) n

  -- The same of a page with these bytes, and of the pages `pid` to `pid + n`.
  abbrev pub chosen_in : List ℕ → ℕ
  chosen_in bytes = let pg = loaded 0 bytes in chosen_rows pg 0 (record_count pg)

  unfoldable pub chosen_of : (ℕ → List ℕ) → ℕ → ℕ → ℕ
  chosen_of content pid zero = 0
  chosen_of content pid (suc n) = chosen_in (content pid) + chosen_of content (suc pid) n

  module _ (naming : Naming)
      (same_hash : naming.hash_of schema.file_path ≡ table_hash schema.table_name) where
    -- The pages `pid` to `pid + n` of the table are there, with their bytes.
    abbrev pub Table : Store → (ℕ → List ℕ) → ℕ → ℕ → Type 0
    Table s content pid n =
        (i : ℕ)
        → pid ≤ i
        → i < pid + n
        → naming.Known schema.file_path i × (view naming s schema.file_path i ≡ some (content i))

    -- What a scan leaves: the number of the rows chosen, and every page as it was.
    pub record IsScanned (s : Store) (count : ℕ) (r : Store × Progress F.Double) : Type 0 where
      pub cells : Cells ℕ
      pub sound : IsSound naming r.0 cells
      pub sees : Sees naming s r.0
      pub total : r.1.matched ≡ count
