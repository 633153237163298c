-- ===== src/Executor/Command.antt =====
-- Executor.h and Executor.cpp: the executor's state, its index cache, and the commands.
pub mod Queue
pub mod Cache
use apgitproj.Base.{
  ℕ, zero, suc, ◌+◌, ◌≡◌, refl, Bool, true, false, ◌&&◌, List, [], ◌∷◌, ◌++◌, ℤ, pos, negsuc,
  length, take, leb, str_eq, if◌then◌else◌, Text, truncate, Option, none, some,
}
use apgitproj.Doubles.{Doubles}
use apgitproj.Schema.{TableSchema}
use apgitproj.HashMap.Hashing.{int_equal}
use apgitproj.PriorityQueue.{Entry, PriorityQueue, enqueue, dequeue}
use apgitproj.Catalog.{Catalog, get_schema}
use apgitproj.Index.{Index, new_index, build}
use apgitproj.Parser.{ParsedQuery, QueryType, new_query, parse}
use apgitproj.BufferPool.{Store}
use apgitproj.Executor.Scan.{Progress, seq_scan}
use apgitproj.Executor.Join.{execute_join}
use apgitproj.Executor.Change.{execute_insert, execute_update, execute_delete}

-- `QueryTask`.
pub record QueryTask : Type 0 where
  pub sql : Text
  pub priority : ℤ

abbrev pub blank_task : Entry QueryTask
blank_task = record { priority = pos 0; value = record { sql = []; priority = pos 0 } }

-- `indexedTable_[i]`, `indexedCol_[i]` and `indices_[i]`.
pub record CachedIndex : Type 0 where
  pub table : Text
  pub col : ℤ
  pub index : Index

abbrev pub max_tables : ℕ
max_tables = 8

-- The cache holds `indices_[0 .. indexCount_)`.
pub record Executor : Type 0 where
  pub store : Store
  pub catalog : Catalog
  pub indices : List CachedIndex
  pub query_queue : PriorityQueue QueryTask

unfoldable pub new_executor : Store → Catalog → Executor
new_executor s c = record {
  store = s;
  catalog = c;
  indices = [];
  query_queue = record { items = []; capacity = 512 };
}

unfoldable pub enqueue_query : Text → ℤ → Executor → Executor
enqueue_query sql priority e =
    let task : QueryTask = record { sql = truncate 1024 sql; priority = priority } in
    record e { query_queue = enqueue blank_task e.query_queue task priority }

-- The first index in the cache for a table and a column.
unfoldable pub cached : List CachedIndex → Text → ℤ → Option Index
cached [] table col = none
cached (c ∷ cs) table col =
    if str_eq c.table table && int_equal c.col col then some c.index else cached cs table col

module _ (F : Doubles) (to_bytes : F.Double → List ℕ) (of_bytes : List ℕ → F.Double) where
  -- `none` is the null pointer.
  unfoldable pub get_or_build_index : Text → ℤ → Executor → Option Index × Executor
  get_or_build_index table col e = elim (cached e.indices table col) [
    | some idx ↦ (some idx, e)
    | none ↦
        if leb max_tables (length e.indices) then (none, e) else elim (get_schema e.catalog table) [
          | none ↦ (none, e)
          | some schema ↦
              let idx =
                build to_bytes of_bytes schema col e.store.disk schema.file_path new_index in
              let entry : CachedIndex = record {
                table = truncate 64 table;
                col = col;
                index = idx;
              } in
              (some idx, record e { indices = e.indices ++ entry ∷ [] })
        ]
  ]

  -- The number of rows chosen, and the rows printed.
  unfoldable pub execute_select :
      ParsedQuery F.Double → Bool → ℕ → Executor → Progress F.Double × Executor
  execute_select q print limit e = elim (get_schema e.catalog q.table_name) [
    | none ↦ (record { matched = 0; scanned = 0; printed = [] }, e)
    | some schema ↦
        let r = seq_scan F to_bytes of_bytes schema q print limit (negsuc 0) e.store in
        (r.1, record e { store = r.0 })
  ]

  -- The eviction count after a scan without a condition.
  unfoldable pub stress_test_buffer_pool : Text → ℤ → Executor → ℕ × Executor
  stress_test_buffer_pool table max_records e = elim (get_schema e.catalog table) [
    | none ↦ (0, e)
    | some schema ↦
        let r = seq_scan F to_bytes of_bytes schema (new_query F) false 0 max_records e.store in
        (r.0.pool.eviction_count, record e { store = r.0 })
  ]

  unfoldable pub run_query : ParsedQuery F.Double → Executor → Executor
  run_query q e = elim q.type [
    | QueryType.select_q ↦ elim q.join_tables [
      | [] ↦ (execute_select q true 50 e).1
      | j ∷ js ↦ record e {
        store =
            (execute_join to_bytes of_bytes 20 e.catalog q.table_name (take 2 (j ∷ js)) e.store).0;
      }
    ]
    | QueryType.insert_q ↦ record e {
      store = (execute_insert F to_bytes of_bytes e.catalog q e.store).1;
    }
    | QueryType.update_q ↦ record e {
      store = (execute_update F to_bytes of_bytes e.catalog q e.store).1;
    }
    | QueryType.delete_q ↦ record e {
      store = (execute_delete F to_bytes of_bytes e.catalog q e.store).1;
    }
    | QueryType.unknown_q ↦ e
  ]

  unfoldable pub execute_sql : Text → Executor → Executor
  execute_sql sql e = let parsed = parse F sql in if parsed.0 then run_query parsed.1 e else e

  -- The statements that are run, with the executor afterwards. A statement queues none, so the
  -- number of the tasks waiting is enough fuel.
  unfoldable pub run_tasks : ℕ → Executor → List QueryTask × Executor
  run_tasks zero e = ([], e)
  run_tasks (suc fuel) e = elim (dequeue blank_task e.query_queue) [
    | none ↦ ([], e)
    | some r ↦
        let rest = run_tasks fuel (execute_sql r.0.sql (record e { query_queue = r.1 })) in
        (r.0 ∷ rest.0, rest.1)
  ]

  unfoldable pub run_queue : Executor → List QueryTask × Executor
  run_queue e = run_tasks (length e.query_queue.items) e
