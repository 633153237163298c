-- ===== src/Row.antt =====
-- src/storage/Field.h and src/storage/Row.h: fields, rows and their bytes.
pub mod RoundTrip
use apgitproj.Base.{
  ℕ, zero, suc, ◌+◌, ◌-◌, ◌≤◌, ◌<◌, ◌≡◌, Bool, true, false, List, [], ◌∷◌, ◌++◌, ℤ, pos, negsuc,
  length, get_or, set, take, ltb, leb, ◌==◌, if◌then◌else◌, Text, truncate, Option, none, some,
  ltb_ℤ, replicate,
}
use apgitproj.Memory.{write_bytes, read_bytes, encode_int, decode_int}
use apgitproj.Schema.{FieldType, ColumnDef, TableSchema, size_of}

-- The three kinds of field; `D` is `double`.
pub data Field (D : Type 0) : Type 0 where
  int_field : ℤ → Field D
  float_field : D → Field D
  string_field : Text → Field D

-- `StringField(v)`: the buffer holds 128 characters and the terminator.
unfoldable pub new_string : {D : Type 0} → Text → Field D
new_string v = string_field (truncate 129 v)

unfoldable pub type_of : {D : Type 0} → Field D → FieldType
type_of (int_field v) = FieldType.int_type
type_of (float_field v) = FieldType.float_type
type_of (string_field v) = FieldType.string_type

-- The characters of a C string in a buffer: up to the first zero, or all that were copied, which
-- the caller terminates.
unfoldable pub c_string : List ℕ → Text
c_string [] = []
c_string (zero ∷ bs) = []
c_string (suc b ∷ bs) = suc b ∷ c_string bs

-- `len` characters of the string, then zeros up to the width.
unfoldable pub padded : ℕ → Text → List ℕ
padded zero str = []
padded (suc n) [] = 0 ∷ padded n []
padded (suc n) (c ∷ str) = c ∷ padded n str

-- What `static_cast<StringField*>(f)->value()` reads. On a field of another kind the cast is
-- undefined; the results ask for fields of their column's type.
unfoldable pub string_value : {D : Type 0} → Field D → Text
string_value (string_field s) = s
string_value _ = []

-- A row: `fields_[0 .. count_)`, where `none` is the null pointer.
abbrev pub Row : Type 0 → Type 0
Row D = List (Option (Field D))

module _ {D : Type 0} where
  unfoldable pub new_row : ℕ → Row D
  new_row count = replicate count none

  -- An index out of range changes nothing.
  unfoldable pub set_field : Row D → ℕ → Field D → Row D
  set_field row i f = set row i (some f)

  unfoldable pub get_field : Row D → ℤ → Option (Field D)
  get_field row (pos i) = get_or row i none
  get_field row (negsuc i) = none

-- `to_bytes` and `of_bytes` are the eight bytes of a double and the double of eight bytes.
module _ {D : Type 0} (to_bytes : D → List ℕ) (of_bytes : List ℕ → D) where
  -- Field::serialize, of the three kinds.
  unfoldable pub field_bytes : Field D → List ℕ
  field_bytes (int_field v) = encode_int v
  field_bytes (float_field d) = to_bytes d
  field_bytes (string_field s) = padded 128 s

  -- What Row::serialize writes for a column: a string is cut to `serSize - 1` characters.
  unfoldable pub column_bytes : ColumnDef → Option (Field D) → List ℕ
  column_bytes col f = elim col.type [
    | FieldType.int_type ↦ elim f [ none ↦ replicate 4 0 | some x ↦ field_bytes x ]
    | FieldType.float_type ↦ elim f [ none ↦ replicate 8 0 | some x ↦ field_bytes x ]
    | FieldType.string_type ↦
        padded col.ser_size
          (take (col.ser_size - 1) (elim f [ none ↦ [] | some x ↦ string_value x ]))
  ]

  -- `fields_[i]`, or null past the end, with the fields that follow.
  unfoldable pub next_field : Row D → Option (Field D) × Row D
  next_field [] = (none, [])
  next_field (f ∷ row) = (f, row)

  -- The loop of Row::serialize, from the column at `off`.
  unfoldable pub serialize : List ColumnDef → Row D → List ℕ → ℕ → List ℕ
  serialize [] row buf off = buf
  serialize (col ∷ cols) row buf off =
      let f = next_field row in
      serialize cols f.1 (write_bytes buf off (column_bytes col f.0)) (off + col.ser_size)

  -- The field of a column, read from the buffer at `off`.
  unfoldable pub read_field : ColumnDef → List ℕ → ℕ → Field D
  read_field col buf off = elim col.type [
    | FieldType.int_type ↦ int_field (decode_int (read_bytes buf off 4))
    | FieldType.float_type ↦ float_field (of_bytes (read_bytes buf off 8))
    | FieldType.string_type ↦
        let n = if ltb col.ser_size 255 then col.ser_size else 255 in
        new_string (c_string (read_bytes buf off n))
  ]

  -- The loop of Row::deserialize.
  unfoldable pub deserialize : List ColumnDef → List ℕ → ℕ → Row D
  deserialize [] buf off = []
  deserialize (col ∷ cols) buf off =
      some (read_field col buf off) ∷ deserialize cols buf (off + col.ser_size)
