-- ===== src/Executor/Join.antt =====
-- Executor.cpp: executeJoin, a nested loop over the pages of two tables. The pointer to the page of
-- the first table is the number of a frame, which is read again in each round: a page of the second
-- table may have taken the frame.
use apgitproj.Base.{
  ℕ, zero, suc, ◌||◌, List, [], ◌∷◌, ◌++◌, ℤ, pos, negsuc, length, take, drop, leb, if◌then◌else◌,
  Text, Option, none, some,
}
use apgitproj.Schema.{TableSchema}
use apgitproj.HashMap.Hashing.{int_equal}
use apgitproj.Row.{Field, int_field, float_field, string_field, Row, get_field}
use apgitproj.Page.{Page, get_row}
use apgitproj.Disk.{page_count}
use apgitproj.Catalog.{Catalog, get_schema}
use apgitproj.Graph.{optimize}
use apgitproj.BufferPool.{Store, page_of}
use apgitproj.Executor.{fetch, record_count}

-- The value of an int field; another value for a null pointer or another kind.
unfoldable pub int_or : {D : Type 0} → ℤ → Option (Field D) → ℤ
int_or default none = default
int_or default (some (int_field v)) = v
int_or default (some (float_field _)) = default
int_or default (some (string_field _)) = default

-- The rows printed, each with its row of the second table.
abbrev pub Printed : Type 0 → Type 0
Printed D = List (Row D × Option (Row D))

-- More than any number of records: the count of a page is an `int`.
abbrev pub max_count : ℕ
max_count = 2147483648

module _ {D : Type 0} (to_bytes : D → List ℕ) (of_bytes : List ℕ → D) (limit : ℕ) where
  -- A row of the second table, `none` being the null pointer.
  unfoldable pub join_row : Row D → Option (Row D) → Printed D → Printed D
  join_row r0 none printed = printed
  join_row r0 (some r1) printed =
      if int_equal (int_or (negsuc 1) (get_field r1 (pos 1)))
        (int_or (negsuc 0) (get_field r0 (pos 0)))
      then printed ++ (r0, some r1) ∷ []
      else printed

  -- The records `ri` to `ri + n` of a page of the second table.
  unfoldable pub join_rows : TableSchema → Row D → Page → ℕ → ℕ → Printed D → Printed D
  join_rows s1 r0 pg ri zero printed = printed
  join_rows s1 r0 pg ri (suc n) printed =
      let row = get_row to_bytes of_bytes s1 pg (pos ri) in
      let rest = join_rows s1 r0 pg (suc ri) n (join_row r0 row printed) in
      if leb limit (length printed) then printed else rest

  unfoldable pub join_pages : TableSchema → Row D → ℕ → ℕ → Store × Printed D → Store × Printed D
  join_pages s1 r0 pid zero st = st
  join_pages s1 r0 pid (suc n) (s, printed) =
      let fetched = fetch s1 pid s in
      let pg = page_of fetched.1.pool fetched.0 in
      let rest =
        join_pages s1 r0 (suc pid) n (fetched.1, join_rows s1 r0 pg 0 (record_count pg) printed) in
      if leb limit (length printed) then (s, printed) else rest

  -- What is done with a row of the first table; `none` is a second table that is not there.
  unfoldable pub join_one :
      Option TableSchema → Option (Row D) → Store × Printed D → Store × Printed D
  join_one second none st = st
  join_one none (some r0) (s, printed) = (s, printed ++ (r0, none) ∷ [])
  join_one (some s1) (some r0) (s, printed) =
      join_pages s1 r0 0 (page_count s.disk s1.file_path) (s, printed)

  -- The records of the page in a frame, from `ri` on.
  unfoldable pub outer_rows :
      TableSchema → Option TableSchema → ℕ → ℕ → ℕ → Store × Printed D → Store × Printed D
  outer_rows s0 second zero frame ri st = st
  outer_rows s0 second (suc fuel) frame ri (s, printed) =
      let pg = page_of s.pool frame in
      let row = get_row to_bytes of_bytes s0 pg (pos ri) in
      let rest = outer_rows s0 second fuel frame (suc ri) (join_one second row (s, printed)) in
      if leb (record_count pg) ri || leb limit (length printed) then (s, printed) else rest

  unfoldable pub outer_pages :
      TableSchema → Option TableSchema → ℕ → ℕ → Store × Printed D → Store × Printed D
  outer_pages s0 second pid zero st = st
  outer_pages s0 second pid (suc n) (s, printed) =
      let fetched = fetch s0 pid s in
      let rest =
        outer_pages s0 second (suc pid) n
          (outer_rows s0 second max_count fetched.0 0 (fetched.1, printed)) in
      if leb limit (length printed) then (s, printed) else rest

  -- The schema of a table of the plan, if the plan has one.
  unfoldable pub schema_at : Catalog → List Text → ℕ → Option TableSchema
  schema_at c tables i = elim (take 1 (drop i tables)) [ [] ↦ none | t ∷ _ ↦ get_schema c t ]

  unfoldable pub execute_join : Catalog → Text → List Text → Store → Store × Printed D
  execute_join c t1 joins s =
      let plan = optimize c s.disk t1 joins in
      elim (schema_at c plan.ordered_tables 0) [
        | none ↦ (s, [])
        | some s0 ↦
            outer_pages s0 (schema_at c plan.ordered_tables 1) 0 (page_count s.disk s0.file_path)
              (s, [])
      ]
