-- ===== src/Executor.antt =====
-- src/executor/Executor.cpp: the statements, on the store that the buffer pool and the disk make.
-- `to_bytes` and `of_bytes` are the eight bytes of a double and the double of eight bytes. What is
-- printed is the list of the rows printed; the log is left out.
pub mod Fetch
pub mod Scan
pub mod Change
pub mod Join
pub mod Command
use apgitproj.Base.{ℕ, Bool, ◌||◌, not, List, ℤ, pos, pos_part, Text, Option, none, some}
use apgitproj.Doubles.{Doubles}
use apgitproj.Lexer.{atoi}
use apgitproj.Schema.{FieldType, ColumnDef, TableSchema}
use apgitproj.Row.{Field, int_field, float_field, new_string, Row}
use apgitproj.Page.{Page, get_record_count}
use apgitproj.Catalog.{table_hash}
use apgitproj.Parser.{ParsedQuery}
use apgitproj.Eval.{eval_where}
use apgitproj.BufferPool.{Store, page_of, fetch_page, mark_dirty}
use apgitproj.BufferPool.Change.{with_page}

-- `pool_.fetchPage` of a page of a table.
abbrev pub fetch : TableSchema → ℕ → Store → ℕ × Store
fetch schema page_id s = fetch_page schema.file_path (table_hash schema.table_name) page_id s

-- The number of records of a page, for the loops that count up to it.
abbrev pub record_count : Page → ℕ
record_count page = pos_part (get_record_count page)

-- A write through the pointer to a page of the pool.
abbrev pub write_frame : ℕ → Page → Store → Store
write_frame frame page s = record s { pool = with_page s.pool frame page }

-- `pool_.markDirty` of a page of a table.
abbrev pub mark : TableSchema → ℕ → Store → Store
mark schema page_id s = record s { pool = mark_dirty (table_hash schema.table_name) page_id s.pool }

module _ (F : Doubles) where
  -- The field of a column for a value of a statement.
  unfoldable pub new_field : ColumnDef → Text → Field F.Double
  new_field col val = elim col.type [
    | FieldType.int_type ↦ int_field (atoi val)
    | FieldType.float_type ↦ float_field (F.atof val)
    | FieldType.string_type ↦ new_string val
  ]

  -- Whether a statement chooses a row.
  unfoldable pub matches : ParsedQuery F.Double → TableSchema → Row F.Double → Bool
  matches q schema row = not q.has_where || eval_where F q.has_where q.postfix row schema
