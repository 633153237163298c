-- ===== src/Page/Rows.antt =====
-- Page: rows are found again at their place, and appending leaves the others.
use apgitproj.Base.{
  ℕ, ◌+◌, ◌*◌, ◌≤◌, ◌<◌, ◌≡◌, inl, inr, refl, ap, ◌∙◌, sym, subst, Bool, true, false, List, pos,
  pos_part, neg_part, pos_add_one, ltb_ℤ, leb_ℤ, length, ltb, some, arith,
}
use apgitproj.Memory.{read_bytes, encode_int, read_bytes-write_bytes_apart}
use apgitproj.Schema.{TableSchema, page_size, page_header, record_size, records_per_page, size_of}
use apgitproj.Row.{Row, serialize, deserialize}
use apgitproj.Row.RoundTrip.{
  RowFits, deserialize-serialize, deserialize_cong, length-serialize, read_bytes-serialize_apart,
}
use apgitproj.Page.{Page, write_int, get_record_count, offset_of, append_row, get_row}
use apgitproj.Page.Header.{
  SchemaIsValid, Holds, length-write_int, read_int-write_int, IsInt-pos, row_end, row_order,
  count_bound,
}

module _ {D : Type 0} (to_bytes : D → List ℕ) (of_bytes : List ℕ → D)
    (length-to_bytes : (d : D) → length (to_bytes d) ≡ 8)
    (of_bytes-to_bytes : (d : D) → of_bytes (to_bytes d) ≡ d) (schema : TableSchema)
    (valid : SchemaIsValid schema) where
  -- The page with a row written at place `n`.
  abbrev written : Page → ℕ → Row D → Page
  written p n row = record p {
    is_dirty = true;
    bytes =
        write_int
          (serialize to_bytes of_bytes schema.columns row p.bytes
            (page_header + n * record_size schema))
          4 (pos (n + 1));
  }

  -- With room left the row goes to the place of the count.
  append_row-room :
      (p : Page) (n : ℕ) (row : Row D)
      → Holds schema p n
      → n < records_per_page schema
      → append_row to_bytes of_bytes schema row p ≡ (true, written p n row)
  unfolding append_row offset_of pos_part neg_part
  append_row-room p n row v h =
      let not_full : leb_ℤ (pos (records_per_page schema)) (pos n) ≡ false = ground arith in
      let in_page : ltb page_size (page_header + n * record_size schema + record_size schema)
          ≡ false =
        ground (arith, row_end schema n valid.size_pos h) in
      rw (v.count, not_full, in_page, pos_add_one n)

  -- A page with as many rows as fit refuses another: the call reports it and changes nothing.
  pub append_row-full :
      (p : Page) (row : Row D)
      → Holds schema p (records_per_page schema)
      → append_row to_bytes of_bytes schema row p ≡ (false, p)
  unfolding append_row pos_part neg_part
  append_row-full p row v =
      let r = records_per_page schema in
      let full : leb_ℤ (pos r) (pos r) ≡ true = ground arith in rw (v.count, full)

  get_row-pos :
      (p : Page) (n i : ℕ)
      → Holds schema p n
      → i < n
      → get_row to_bytes of_bytes schema p (pos i)
        ≡ some (
            deserialize to_bytes of_bytes schema.columns p.bytes
              (page_header + i * record_size schema))
  unfolding get_row offset_of pos_part neg_part
  get_row-pos p n i v h =
      let natural : ltb_ℤ (pos i) (pos 0) ≡ false = ground arith in
      let present : leb_ℤ (pos n) (pos i) ≡ false = ground arith in rw (natural, v.count, present)

  written-Holds :
      (p : Page) (n : ℕ) (row : Row D)
      → Holds schema p n
      → n < records_per_page schema
      → Holds schema (written p n row) (n + 1)
  unfolding get_record_count
  written-Holds p n row v h =
      let off = page_header + n * record_size schema in
      let mem = serialize to_bytes of_bytes schema.columns row p.bytes off in
      let kept : length mem ≡ page_size =
        length-serialize to_bytes of_bytes length-to_bytes of_bytes-to_bytes schema.columns row
          p.bytes off
        ∙ v.size in
      record {
        size = length-write_int mem 4 (pos (n + 1)) ∙ kept;
        count =
            read_int-write_int mem 4 (pos (n + 1)) (IsInt-pos (n + 1) (count_bound schema n h))
              (omega arith);
        room = omega arith;
      }

  -- Bytes of the rows are those that the row's bytes and the count did not replace.
  read_bytes-written :
      (p : Page) (n : ℕ) (row : Row D) (start k : ℕ)
      → Holds schema p n
      → page_header ≤ start
      → read_bytes (written p n row).bytes start k
        ≡ read_bytes
            (serialize to_bytes of_bytes schema.columns row p.bytes
              (page_header + n * record_size schema))
            start
            k
  unfolding write_int encode_int
  read_bytes-written p n row start k v h =
      let off = page_header + n * record_size schema in
      let mem = serialize to_bytes of_bytes schema.columns row p.bytes off in
      let kept : length mem ≡ page_size =
        length-serialize to_bytes of_bytes length-to_bytes of_bytes-to_bytes schema.columns row
          p.bytes off
        ∙ v.size in
      read_bytes-write_bytes_apart mem 4 (encode_int (pos (n + 1))) start k (omega arith)
        (inr (omega arith))

  get_row-written_new :
      (p : Page) (n : ℕ) (row : Row D)
      → Holds schema p n
      → n < records_per_page schema
      → RowFits schema.columns row
      → get_row to_bytes of_bytes schema (written p n row) (pos n) ≡ some row
  unfolding record_size
  get_row-written_new p n row v h fits =
      let off = page_header + n * record_size schema in
      let mem = serialize to_bytes of_bytes schema.columns row p.bytes off in
      get_row-pos (written p n row) (n + 1) n (written-Holds p n row v h) (omega arith)
      ∙ ap some (
          deserialize_cong to_bytes of_bytes length-to_bytes of_bytes-to_bytes schema.columns mem
            (written p n row).bytes off (off + size_of schema.columns) valid.sized (omega arith)
            (λ start k a b. read_bytes-written p n row start k v (omega arith))
          ∙ deserialize-serialize to_bytes of_bytes length-to_bytes of_bytes-to_bytes schema.columns
              row p.bytes off valid.sized fits
              (omega (arith, row_end schema n valid.size_pos h, v.size)))

  get_row-written_old :
      (p : Page) (n i : ℕ) (row : Row D)
      → Holds schema p n
      → n < records_per_page schema
      → RowFits schema.columns row
      → i < n
      → get_row to_bytes of_bytes schema (written p n row) (pos i)
        ≡ get_row to_bytes of_bytes schema p (pos i)
  unfolding record_size
  get_row-written_old p n i row v h fits k =
      let off = page_header + n * record_size schema in
      let place = page_header + i * record_size schema in
      let before : i * record_size schema + record_size schema ≤ n * record_size schema =
        row_order (record_size schema) i n k in
      let inside = row_end schema n valid.size_pos h in
      get_row-pos (written p n row) (n + 1) i (written-Holds p n row v h) (omega arith)
      ∙ ap some (
          deserialize_cong to_bytes of_bytes length-to_bytes of_bytes-to_bytes schema.columns
            p.bytes (written p n row).bytes place (place + size_of schema.columns) valid.sized
            (omega arith)
            (λ start m a b.
              read_bytes-written p n row start m v (omega arith)
              ∙ read_bytes-serialize_apart to_bytes of_bytes length-to_bytes of_bytes-to_bytes
                  schema.columns row p.bytes off start m valid.sized fits
                  (omega (arith, inside, v.size)) (inl (omega arith))))
      ∙ sym (get_row-pos p n i v k)

  -- A page after a row was added to its `n` rows.
  pub record Appended (p : Page) (n : ℕ) (row : Row D) (result : Bool × Page) : Type 0 where
    pub added : result.0 ≡ true
    pub holds : Holds schema result.1 (n + 1)
    pub new_row : get_row to_bytes of_bytes schema result.1 (pos n) ≡ some row
    pub old_rows :
        (i : ℕ)
        → i < n
        → get_row to_bytes of_bytes schema result.1 (pos i)
          ≡ get_row to_bytes of_bytes schema p (pos i)

  -- A row that fits the columns of a valid schema is added to a page with room: the count grows by
  -- one, the row is found at the next place, and the other rows are read as before.
  pub append_row-Appended :
      (p : Page) (n : ℕ) (row : Row D)
      → Holds schema p n
      → n < records_per_page schema
      → RowFits schema.columns row
      → Appended p n row (append_row to_bytes of_bytes schema row p)
  append_row-Appended p n row v h fits =
      subst (Appended p n row) (sym (append_row-room p n row v h)) (record {
        added = refl;
        holds = written-Holds p n row v h;
        new_row = get_row-written_new p n row v h fits;
        old_rows = λ i k. get_row-written_old p n i row v h fits k;
      })
