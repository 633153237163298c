-- ===== src/Executor/Change/Put.antt =====
-- Executor.cpp: a row is added to a page of the pool.
use apgitproj.Base.{
  ℕ, zero, suc, ◌+◌, ◌<◌, ◌≡◌, ◌≢◌, inl, inr, refl, ap, ◌∙◌, sym, true, List, [], ◌∷◌, pos, leb_ℤ,
  ltb, length, set, some, Bool-cases, Text,
}
use apgitproj.Doubles.{Doubles}
use apgitproj.HashMap.{get}
use apgitproj.HashMap.Hashing.{int_key}
use apgitproj.Schema.{TableSchema, page_size, record_size, records_per_page}
use apgitproj.Row.{Row}
use apgitproj.Row.RoundTrip.{RowFits}
use apgitproj.Page.{Page, get_record_count, append_row, get_row, offset_of}
use apgitproj.Page.Header.{SchemaIsValid, Holds}
use apgitproj.Page.Rows
use apgitproj.Page.Rows.{append_row-Appended}
use apgitproj.Disk.Files.{loaded}
use apgitproj.Catalog.{table_hash}
use apgitproj.DoublyLinkedList.Segments.{Cells}
use apgitproj.BufferPool.{Store, make_page_key}
use apgitproj.BufferPool.Load.{IsPage}
use apgitproj.BufferPool.Change.{with_page, page_of-with_page}
use apgitproj.BufferPool.View.{Naming, view, key_at}
use apgitproj.BufferPool.Transparent.{IsSound, IsServed}
use apgitproj.BufferPool.Update.{dirtied, IsUpdated, dirtied-IsUpdated, mark_dirty-hit}
use apgitproj.Executor.{fetch, write_frame, mark}

set_twice : {A : Type 0} (xs : List A) (i : ℕ) (a b : A) → set (set xs i a) i b ≡ set xs i b
set_twice [] i a b = refl
set_twice (x ∷ xs) zero a b = refl
set_twice (x ∷ xs) (suc i) a b = ap (λ ys. x ∷ ys) (set_twice xs i a b)

-- The rows of a page depend on its bytes.
pub Holds-bytes :
    (schema : TableSchema) (p q : Page) (n : ℕ)
    → q.bytes ≡ p.bytes
    → Holds schema p n
    → Holds schema q n
unfolding get_record_count
Holds-bytes schema p q n e v = record {
  size = ap length e ∙ v.size;
  count = ap (λ b. get_record_count (loaded 0 b)) e ∙ v.count;
  room = v.room;
}

module _ (naming : Naming) (schema : TableSchema)
    (same_hash : naming.hash_of schema.file_path ≡ table_hash schema.table_name) where
  -- A write to a frame in use and its mark are one update of the pool.
  pub mark-write_frame :
      (s : Store) (cells : Cells ℕ) (v : IsSound naming s cells) (pid frame : ℕ) (page : Page)
      → get s.pool.frame_map (key_at naming schema.file_path pid) ≡ some frame
      → mark schema pid (write_frame frame page s) ≡ dirtied s frame page
  mark-write_frame s cells v pid frame page hit =
      let used = (v.keeps.found (key_at naming schema.file_path pid) frame hit).1 in
      let p = with_page s.pool frame page in
      let k = ap (λ h. get s.pool.frame_map (make_page_key h pid)) (sym same_hash) ∙ hit in
      let there = page_of-with_page s.pool cells v.keeps frame used page in
      ap (λ q. record s { pool = q })
        (mark_dirty-hit p (table_hash schema.table_name) pid frame k
          ∙ ap (λ (g : Page). with_page p frame (record g { is_dirty = true })) there
          ∙ ap (λ xs. record s.pool { pages = xs })
              (set_twice s.pool.pages frame page (record page { is_dirty = true })))

  module _ {D : Type 0} (to_bytes : D → List ℕ) (of_bytes : List ℕ → D) where
    append_row-IsPage :
        (row : Row D) (p : Page) (pid : ℕ)
        → IsPage p pid
        → length (append_row to_bytes of_bytes schema row p).1.bytes ≡ page_size
        → IsPage (append_row to_bytes of_bytes schema row p).1 pid
    unfolding append_row
    append_row-IsPage row p pid v size =
        let cnt = get_record_count p in
        let full = leb_ℤ (pos (records_per_page schema)) cnt in
        let past = ltb page_size (offset_of schema cnt + record_size schema) in
        elim (Bool-cases full) [
          | inl a ↦ rw a (record { valid = v.valid; number = v.number; size = v.size })
          | inr a ↦ elim (Bool-cases past) [
            | inl b ↦ rw (a, b) (record { valid = v.valid; number = v.number; size = v.size })
            | inr b ↦
                rw (a, b) (record { valid = v.valid; number = v.number; size = rw (a, b) at size })
          ]
        ]

-- What an insertion into page `pid`, which held `n` rows, leaves.
module _ (naming : Naming) (F : Doubles) (to_bytes : F.Double → List ℕ)
    (of_bytes : List ℕ → F.Double) (schema : TableSchema) where
  pub record IsInserted (s : Store) (pid n : ℕ) (before : List ℕ) (row : Row F.Double) (t : Store)
      : Type 0 where
    pub cells : Cells ℕ
    pub sound : IsSound naming t cells
    pub bytes : List ℕ
    pub there : view naming t schema.file_path pid ≡ some bytes
    pub holds : Holds schema (loaded pid bytes) (n + 1)
    pub new_row : get_row to_bytes of_bytes schema (loaded pid bytes) (pos n) ≡ some row
    pub old_rows :
        (i : ℕ)
        → i < n
        → get_row to_bytes of_bytes schema (loaded pid bytes) (pos i)
          ≡ get_row to_bytes of_bytes schema (loaded pid before) (pos i)
    pub others :
        (path : Text) (i : ℕ) (b : List ℕ)
        → naming.Known path i
        → (schema.file_path ≡ path → pid ≢ i)
        → view naming s path i ≡ some b
        → view naming t path i ≡ some b

  module _ (length-to_bytes : (d : F.Double) → length (to_bytes d) ≡ 8)
      (of_bytes-to_bytes : (d : F.Double) → of_bytes (to_bytes d) ≡ d)
      (same_hash : naming.hash_of schema.file_path ≡ table_hash schema.table_name)
      (valid : SchemaIsValid schema) (s : Store) (pid n : ℕ) (content : List ℕ) (row : Row F.Double)
      (known : naming.Known schema.file_path pid)
      (served : IsServed naming s schema.file_path pid content (fetch schema pid s)) (base : Page)
      (is_page : IsPage base pid) (holds : Holds schema base n) (room : n < records_per_page schema)
      (fits : RowFits schema.columns row) where
    abbrev fetched : ℕ × Store
    fetched = fetch schema pid s

    abbrev added_page : Page
    added_page = (append_row to_bytes of_bytes schema row base).1

    appended :
        Rows.Appended to_bytes of_bytes length-to_bytes of_bytes-to_bytes schema valid base n row
          (append_row to_bytes of_bytes schema row base)
    appended =
        append_row-Appended to_bytes of_bytes length-to_bytes of_bytes-to_bytes schema valid base n
          row holds room fits

    added-IsPage : IsPage added_page pid
    added-IsPage =
        append_row-IsPage naming schema same_hash to_bytes of_bytes row base pid is_page
          appended.holds.size

    updated :
        IsUpdated naming fetched.1
          ((served.node, fetched.0) ∷ served.rest)
          served.sound
          schema.file_path
          pid
          fetched.0
          known
          served.mapped
          added_page
          added-IsPage
    updated =
        dirtied-IsUpdated naming fetched.1 ((served.node, fetched.0) ∷ served.rest) served.sound
          schema.file_path pid fetched.0 known served.mapped added_page added-IsPage

    -- The page in the frame is replaced by a page with one row more.
    pub added-IsInserted :
        IsInserted s pid n base.bytes row
          (mark schema pid (write_frame fetched.0 added_page fetched.1))
    unfolding get_row get_record_count
    added-IsInserted =
        rw
          (mark-write_frame naming schema same_hash fetched.1
            ((served.node, fetched.0) ∷ served.rest) served.sound pid fetched.0 added_page
            served.mapped)
          (record {
            cells = (served.node, fetched.0) ∷ served.rest;
            sound = updated.sound;
            bytes = added_page.bytes;
            there = updated.now;
            holds =
                Holds-bytes schema added_page (loaded pid added_page.bytes) (n + 1) refl
                  appended.holds;
            new_row = appended.new_row;
            old_rows = appended.old_rows;
            others = λ path i b k apart e. updated.others path i k apart ∙ served.sees path i b k e;
          })
