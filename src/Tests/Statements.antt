-- ===== src/Tests/Statements.antt =====
-- Statements on the pool of Tests.Pool.
use apgitproj.Base.{
  ℕ, ◌≤◌, ◌≡◌, refl, subst, true, false, List, [], pos, codes, truncate, some, arith, Bool, ◌<◌,
  str_eq,
}
use apgitproj.HashMap.{new_map}
use apgitproj.HashMap.Hashing.{text_key}
use apgitproj.HashMap.Invariant.{new_map-IsHashed}
use apgitproj.Page.{blank_page, get_row}
use apgitproj.Page.Header.{Holds, init-Holds}
use apgitproj.Disk.{page_count}
use apgitproj.Disk.Files.{loaded}
use apgitproj.PriorityQueue.Methods
use apgitproj.Catalog.{Catalog, get_schema, register_table, get_schema-register_table}
use apgitproj.Parser.{ParsedQuery, new_query}
use apgitproj.BufferPool.{new_pool}
use apgitproj.BufferPool.View.{view}
use apgitproj.Executor.Change.{insert_table, execute_delete}
use apgitproj.Executor.Change.Put.{IsInserted, Holds-bytes}
use apgitproj.Executor.Change.Insert.{insert_table-IsInserted, insert_table-overwrites}
use apgitproj.Executor.Change.Delete.{IsKept, execute_delete-IsKept}
use apgitproj.Executor.Command.{Executor, new_executor, enqueue_query, get_or_build_index}
use apgitproj.Executor.Command.Cache.{IsCached, get_or_build_index-IsCached}
use apgitproj.Tests.{flags}
use apgitproj.Tests.Storage.{
  to_bytes, of_bytes, length-to_bytes, of_bytes-to_bytes, people, people-SchemaIsValid, people_room,
  ann, ann_fits,
}
use apgitproj.Tests.Pool.{
  path, first_page, disk, no_files, one_page, naming, store, store-IsSound, has_frames,
  first_page-known, first_page-view, busy, busy_cells, busy-IsSound, busy-view,
}

first_page-Holds : Holds people (loaded 0 first_page.bytes) 0
first_page-Holds =
    Holds-bytes people first_page (loaded 0 first_page.bytes) 0 refl
      (init-Holds people blank_page (pos 0))

insert_table-IsInserted_example :
    IsInserted naming flags to_bytes of_bytes people store 0 0 first_page.bytes ann
      (insert_table flags to_bytes of_bytes people ann store)
insert_table-IsInserted_example =
    insert_table-IsInserted naming flags to_bytes of_bytes length-to_bytes of_bytes-to_bytes people
      refl people-SchemaIsValid ann ann_fits store [] 0 0 first_page.bytes store-IsSound has_frames
      one_page first_page-known first_page-view first_page-Holds people_room

abbrev all : ParsedQuery Bool
all = record (new_query flags) { table_name = codes "people" }

abbrev content : ℕ → List ℕ
content i = first_page.bytes

the_page :
    (i : ℕ)
    → i < page_count disk path
    → naming.Known path i × (view naming store path i ≡ some (content i))
the_page i h =
    let e : 0 ≡ i = omega (arith, one_page) in
    subst (λ j. naming.Known path j × (view naming store path j ≡ some first_page.bytes)) e
      (first_page-known, first_page-view)

busy_room : 1 ≤ busy.pool.capacity
unfolding new_pool
busy_room = omega arith

no_page : page_count no_files path ≡ 0
unfolding page_count
no_page = refl

no_page-known : naming.Known path (page_count no_files path)
unfolding page_count
no_page-known = (refl, omega arith)

no_page-view : view naming busy path (page_count no_files path) ≡ some first_page.bytes
unfolding page_count
no_page-view = busy-view

-- The page of the busy pool is lost: the file has no page yet.
insert_table-overwrites_example :
    (bytes : List ℕ) × (view naming
        (insert_table flags to_bytes of_bytes people ann busy)
        path
        (page_count no_files path)
      ≡ some bytes)
    × Holds people (loaded 0 bytes) 1
    × (get_row to_bytes of_bytes people (loaded 0 bytes) (pos 0) ≡ some ann)
insert_table-overwrites_example =
    insert_table-overwrites naming flags to_bytes of_bytes length-to_bytes of_bytes-to_bytes people
      refl people-SchemaIsValid ann ann_fits content busy busy_cells first_page.bytes busy-IsSound
      busy_room (λ i h. absurd (omega (arith, no_page))) no_page-known no_page-view people_room

abbrev catalog : Catalog
catalog = register_table (new_map 4) people

people_there : get_schema catalog (codes "people") ≡ some people
unfolding str_eq
people_there =
    get_schema-register_table (new_map 4) people (codes "people") (new_map-IsHashed 4 (omega arith))

all_rows : all.has_where ≡ false
unfolding new_query
all_rows = refl

execute_delete-IsKept_example :
    ((execute_delete flags to_bytes of_bytes catalog all store).0 ≡ true)
    × IsKept flags to_bytes of_bytes all people all_rows naming refl content store
        (execute_delete flags to_bytes of_bytes catalog all store).1
execute_delete-IsKept_example =
    execute_delete-IsKept flags to_bytes of_bytes all people all_rows naming refl content catalog
      store [] people_there store-IsSound has_frames the_page

abbrev idle : Executor
idle = new_executor store catalog

abbrev waiting : Executor
waiting = enqueue_query (codes "SELECT * FROM people") (pos 1) idle

get_or_build_index-IsCached_example :
    IsCached flags to_bytes of_bytes
      (codes "people")
      (pos 0)
      idle
      (get_or_build_index flags to_bytes of_bytes (codes "people") (pos 0) idle)
unfolding truncate new_executor
get_or_build_index-IsCached_example =
    get_or_build_index-IsCached flags to_bytes of_bytes (codes "people") (pos 0) idle refl
      (omega arith)
