-- ===== src/Page/Header.antt =====
-- Page.h: the header of a page, and the room for rows.
use native.Mathlib.Nat.{suc-mul, mul-le-mul_right, le-div_iff_mul-le, div-le_self}
use apgitproj.Base.{
  ℕ, suc, ◌+◌, ◌*◌, ◌≤◌, ◌<◌, ◌≡◌, ◌⊎◌, inl, ap, ◌∙◌, List, ℤ, pos, negsuc, pos_part, neg_part,
  length, length-replicate, replicate, arith,
}
use apgitproj.Memory.{
  encode_int, decode_int, IsInt, decode_int-encode_int, length-write_bytes, read_bytes-write_bytes,
  read_bytes-write_bytes_apart,
}
use apgitproj.Schema.{TableSchema, page_size, page_header, record_size, records_per_page, AllSized}
use apgitproj.Page.{Page, read_int, write_int, init, get_record_count}

-- Records of a positive size that is the sum of fitting columns.
pub record SchemaIsValid (schema : TableSchema) : Type 0 where
  pub sized : AllSized schema.columns
  pub size_pos : 0 < record_size schema

-- A page in use holds `n` rows, in an array of the page size.
pub record Holds (schema : TableSchema) (p : Page) (n : ℕ) : Type 0 where
  pub size : length p.bytes ≡ page_size
  pub count : get_record_count p ≡ pos n
  pub room : n ≤ records_per_page schema

pub length-write_int :
    (bytes : List ℕ) (off : ℕ) (v : ℤ) → length (write_int bytes off v) ≡ length bytes
unfolding write_int
length-write_int bytes off v = length-write_bytes bytes off (encode_int v)

pub read_int-write_int :
    (bytes : List ℕ) (off : ℕ) (v : ℤ)
    → IsInt v
    → off + 4 ≤ length bytes
    → read_int (write_int bytes off v) off ≡ v
unfolding read_int write_int encode_int
read_int-write_int bytes off v i h =
    ap decode_int (read_bytes-write_bytes bytes off (encode_int v) h) ∙ decode_int-encode_int v i

pub read_int-write_int_apart :
    (bytes : List ℕ) (off other : ℕ) (v : ℤ)
    → off + 4 ≤ length bytes
    → (other + 4 ≤ off) ⊎ (off + 4 ≤ other)
    → read_int (write_int bytes off v) other ≡ read_int bytes other
unfolding read_int write_int encode_int
read_int-write_int_apart bytes off other v h a =
    ap decode_int (read_bytes-write_bytes_apart bytes off (encode_int v) other 4 h a)

pub IsInt-pos : (n : ℕ) → n < 2147483648 → IsInt (pos n)
unfolding pos_part neg_part
IsInt-pos n h = (h, omega arith)

-- The rows that fit end within the page.
pub row_end :
    (schema : TableSchema) (n : ℕ)
    → 0 < record_size schema
    → n < records_per_page schema
    → page_header + n * record_size schema + record_size schema ≤ page_size
unfolding records_per_page
row_end schema n h k =
    let whole : suc n * record_size schema ≤ 4080 = (le-div_iff_mul-le h).0 k in
    omega (arith, whole)

-- An earlier row ends before a later one starts.
pub row_order : (r i n : ℕ) → i < n → i * r + r ≤ n * r
row_order r i n h = omega (arith, suc-mul i r, mul-le-mul_right r h)

pub count_bound : (schema : TableSchema) (n : ℕ) → n < records_per_page schema → n + 1 < 2147483648
unfolding records_per_page
count_bound schema n h = omega (arith, div-le_self 4080 (record_size schema))

pub init-Holds : (schema : TableSchema) (p : Page) (pid : ℤ) → Holds schema (init p pid) 0
unfolding init get_record_count
init-Holds schema p pid =
    let zeros : List ℕ = replicate page_size 0 in
    let w0 = write_int zeros 0 pid in
    let w4 = write_int w0 4 (pos 0) in
    let l0 : length w0 ≡ page_size =
      length-write_int zeros 0 pid ∙ length-replicate {A = ℕ} page_size 0 in
    let l4 : length w4 ≡ page_size = length-write_int w0 4 (pos 0) ∙ l0 in
    record {
      size = length-write_int w4 8 (negsuc 0) ∙ l4;
      count =
          read_int-write_int_apart w4 8 4 (negsuc 0) (omega arith) (inl (omega arith))
          ∙ read_int-write_int w0 4 (pos 0) (IsInt-pos 0 (omega arith)) (omega arith);
      room = omega arith;
    }
