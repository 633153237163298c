-- ===== src/Page.antt =====
-- src/storage/Page.h: a page of 4096 bytes, with its header and its rows.
pub mod Header
pub mod Rows
use apgitproj.Base.{
  ℕ, ◌+◌, ◌*◌, ◌≤◌, Bool, true, false, ◌||◌, List, ℤ, pos, negsuc, pos_part, ◌+ℤ◌, Option, none,
  some, ltb, ltb_ℤ, leb_ℤ, replicate, if◌then◌else◌,
}
use apgitproj.Memory.{write_bytes, read_bytes, encode_int, decode_int}
use apgitproj.Schema.{TableSchema, page_size, page_header, record_size, records_per_page}
use apgitproj.Row.{Row, serialize, deserialize}

pub record Page : Type 0 where
  pub page_id : ℤ
  pub is_dirty : Bool
  pub is_valid : Bool
  pub bytes : List ℕ

unfoldable pub read_int : List ℕ → ℕ → ℤ
read_int bytes off = decode_int (read_bytes bytes off 4)

unfoldable pub write_int : List ℕ → ℕ → ℤ → List ℕ
write_int bytes off val = write_bytes bytes off (encode_int val)

-- `Page()`.
unfoldable pub blank_page : Page
blank_page = record {
  page_id = negsuc 0;
  is_dirty = false;
  is_valid = false;
  bytes = replicate page_size 0;
}

unfoldable pub init : Page → ℤ → Page
init p pid =
    let cleared = replicate page_size 0 in
    record {
      page_id = pid;
      is_dirty = false;
      is_valid = true;
      bytes = write_int (write_int (write_int cleared 0 pid) 4 (pos 0)) 8 (negsuc 0);
    }

unfoldable pub get_page_id : Page → ℤ
get_page_id p = read_int p.bytes 0

unfoldable pub get_record_count : Page → ℤ
get_record_count p = read_int p.bytes 4

unfoldable pub get_next_page_id : Page → ℤ
get_next_page_id p = read_int p.bytes 8

unfoldable pub set_next_page_id : Page → ℤ → Page
set_next_page_id p id = record p { bytes = write_int p.bytes 8 id }

unfoldable pub is_full : Page → TableSchema → Bool
is_full p schema = leb_ℤ (pos (records_per_page schema)) (get_record_count p)

-- The first byte of a row. The number of a row is not negative in the code either, unless the
-- header is damaged.
unfoldable pub offset_of : TableSchema → ℤ → ℕ
offset_of schema index = page_header + pos_part index * record_size schema

module _ {D : Type 0} (to_bytes : D → List ℕ) (of_bytes : List ℕ → D) where
  -- The page afterwards, with whether the row was added.
  unfoldable pub append_row : TableSchema → Row D → Page → Bool × Page
  append_row schema row p =
      let cnt = get_record_count p in
      let offset = offset_of schema cnt in
      if leb_ℤ (pos (records_per_page schema)) cnt
      then (false, p)
      else if ltb page_size (offset + record_size schema)
      then (false, p)
      else (
        true,
        record p {
          is_dirty = true;
          bytes =
              write_int (serialize to_bytes of_bytes schema.columns row p.bytes offset) 4
                (cnt +ℤ pos 1);
        },
      )

  -- `none` is the null pointer.
  unfoldable pub get_row : TableSchema → Page → ℤ → Option (Row D)
  get_row schema p index =
      if ltb_ℤ index (pos 0) || leb_ℤ (get_record_count p) index
      then none
      else some (deserialize to_bytes of_bytes schema.columns p.bytes (offset_of schema index))
