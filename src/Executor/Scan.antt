-- ===== src/Executor/Scan.antt =====
-- Executor.cpp: seqScan and indexScan.
pub mod Rows
use apgitproj.Base.{
  ℕ, zero, suc, Bool, true, false, ◌&&◌, List, [], ◌∷◌, ◌++◌, ℤ, pos, leb, ltb_ℤ, leb_ℤ,
  if◌then◌else◌, Option, none, some,
}
use apgitproj.Doubles.{Doubles}
use apgitproj.Schema.{TableSchema}
use apgitproj.Row.{Row}
use apgitproj.Page.{Page, get_row}
use apgitproj.Disk.{page_count}
use apgitproj.Index.{Index, Place, Places, index_search}
use apgitproj.Parser.{ParsedQuery}
use apgitproj.BufferPool.{Store, page_of}
use apgitproj.Executor.{fetch, record_count, matches}

-- `matched`, `scanned`, and the rows printed so far.
pub record Progress (D : Type 0) : Type 0 where
  pub matched : ℕ
  pub scanned : ℕ
  pub printed : List (Row D)

abbrev pub start : {D : Type 0} → Progress D
start = record { matched = 0; scanned = 0; printed = [] }

module _ (F : Doubles) (to_bytes : F.Double → List ℕ) (of_bytes : List ℕ → F.Double)
    (schema : TableSchema) (q : ParsedQuery F.Double) (print : Bool) where
  -- `limit` is the number of rows printed at most.
  unfoldable pub count_row : ℕ → Option (Row F.Double) → Progress F.Double → Progress F.Double
  count_row limit none st = record st { scanned = suc st.scanned }
  count_row limit (some row) st =
      if matches F q schema row
      then record {
        matched = suc st.matched;
        scanned = suc st.scanned;
        printed =
            if print && leb (suc st.matched) limit then st.printed ++ row ∷ [] else st.printed;
      }
      else record st { scanned = suc st.scanned }

  -- The records `ri` to `ri + n` of a page, and whether the scan is done.
  unfoldable pub scan_rows : ℕ → ℤ → Page → ℕ → ℕ → Progress F.Double → Bool × Progress F.Double
  scan_rows limit max_recs pg ri zero st = (false, st)
  scan_rows limit max_recs pg ri (suc n) st =
      let row = get_row to_bytes of_bytes schema pg (pos ri) in
      let rest = scan_rows limit max_recs pg (suc ri) n (count_row limit row st) in
      if ltb_ℤ (pos 0) max_recs && leb_ℤ max_recs (pos st.scanned) then (true, st) else rest

  -- The pages `pid` to `pid + n` of the table.
  unfoldable pub scan_pages : ℕ → ℤ → ℕ → ℕ → Store → Progress F.Double → Store × Progress F.Double
  scan_pages limit max_recs pid zero s st = (s, st)
  scan_pages limit max_recs pid (suc n) s st =
      let fetched = fetch schema pid s in
      let pg = page_of fetched.1.pool fetched.0 in
      let r = scan_rows limit max_recs pg 0 (record_count pg) st in
      let rest = scan_pages limit max_recs (suc pid) n fetched.1 r.1 in
      if r.0 then (fetched.1, r.1) else rest

  unfoldable pub seq_scan : ℕ → ℤ → Store → Store × Progress F.Double
  seq_scan limit max_recs s =
      scan_pages limit max_recs 0 (page_count s.disk schema.file_path) s start

  -- The rows at the places of an index entry: how many match, and those printed.
  unfoldable pub scan_places :
      Places → Store → ℕ × List (Row F.Double) → Store × ℕ × List (Row F.Double)
  scan_places [] s st = (s, st.0, st.1)
  scan_places (loc ∷ locs) s st =
      let fetched = fetch schema loc.page_id s in
      let pg = page_of fetched.1.pool fetched.0 in
      scan_places locs fetched.1 (elim (get_row to_bytes of_bytes schema pg (pos loc.rec_idx)) [
        | none ↦ st
        | some row ↦
            if matches F q schema row
            then (suc st.0, if print then st.1 ++ row ∷ [] else st.1)
            else st
      ])

  unfoldable pub index_scan : Index → ℤ → Store → Store × ℕ × List (Row F.Double)
  index_scan idx search_key s = elim (index_search idx search_key) [
    | none ↦ (s, 0, [])
    | some entry ↦ scan_places entry s (0, [])
  ]
