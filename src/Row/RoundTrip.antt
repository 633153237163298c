-- ===== src/Row/RoundTrip.antt =====
-- Row::serialize and Row::deserialize: a row comes back as it was written.
use apgitproj.Base.{
  take-all, ℕ, zero, suc, ◌+◌, ◌-◌, ◌≤◌, ◌<◌, ◌≡◌, ◌⊎◌, inl, refl, ap, ap₂, ◌∙◌, sym, List, [], ◌∷◌,
  length, take, ltb, if◌then◌else◌, Text, truncate, some, arith,
}
use apgitproj.Memory.{
  write_bytes, read_bytes, encode_int, decode_int, IsInt, decode_int-encode_int, length-write_bytes,
  read_bytes-write_bytes, read_bytes-write_bytes_apart,
}
use apgitproj.Schema.{FieldType, ColumnDef, size_of, WidthIsFit, AllSized}
use apgitproj.Row.{
  Field, int_field, float_field, string_field, new_string, c_string, padded, string_value, Row,
  field_bytes, column_bytes, next_field, serialize, read_field, deserialize,
}

-- The characters of a C string are not zero.
abbrev pub IsText : Text → Type 0
IsText [] = Unit
IsText (c ∷ s) = (0 < c) × IsText s

-- A field that a column can hold without loss: an `int`, or a string with room for a terminator.
abbrev pub FieldFits : {D : Type 0} → FieldType → ℕ → Field D → Type 0
FieldFits FieldType.int_type n (int_field v) = IsInt v
FieldFits FieldType.float_type n (float_field d) = Unit
FieldFits FieldType.string_type n (string_field s) = (length s < n) × IsText s
FieldFits _ n f = ⊥

abbrev pub RowFits : {D : Type 0} → List ColumnDef → Row D → Type 0
RowFits [] [] = Unit
RowFits (col ∷ cols) (some f ∷ row) = FieldFits col.type col.ser_size f × RowFits cols row
RowFits _ row = ⊥

length-padded : (n : ℕ) (s : Text) → length (padded n s) ≡ n
unfolding padded
length-padded zero s = refl
length-padded (suc n) [] = ap suc (length-padded n [])
length-padded (suc n) (c ∷ s) = ap suc (length-padded n s)

c_string-padded : (n : ℕ) (s : Text) → length s < n → IsText s → c_string (padded n s) ≡ s
unfolding padded c_string
c_string-padded zero s h t = absurd (omega arith)
c_string-padded (suc n) [] h t = refl
c_string-padded (suc n) (zero ∷ s) h t = absurd (omega arith)
c_string-padded (suc n) (suc c ∷ s) h t =
    ap (λ z. suc c ∷ z) (c_string-padded n s (omega arith) t.1)

module _ {D : Type 0} (to_bytes : D → List ℕ) (of_bytes : List ℕ → D)
    (length-to_bytes : (d : D) → length (to_bytes d) ≡ 8)
    (of_bytes-to_bytes : (d : D) → of_bytes (to_bytes d) ≡ d) where
  -- Each column writes its width.
  length-column_bytes :
      (t : FieldType) (nm : Text) (n : ℕ) (f : Field D)
      → WidthIsFit t n
      → FieldFits t n f
      → length
          (column_bytes to_bytes of_bytes (record { name = nm; type = t; ser_size = n }) (some f))
        ≡ n
  unfolding column_bytes field_bytes encode_int string_value
  length-column_bytes FieldType.int_type nm n (int_field v) w h = sym w
  length-column_bytes FieldType.float_type nm n (float_field d) w h = length-to_bytes d ∙ sym w
  length-column_bytes FieldType.string_type nm n (string_field s) w h =
      length-padded n (take (n - 1) s)
  length-column_bytes _ nm n f w h = absurd h

  -- A field is read back from the bytes of its column.
  read_field-written :
      (t : FieldType) (nm : Text) (n : ℕ) (f : Field D) (mem : List ℕ) (off : ℕ)
      → WidthIsFit t n
      → FieldFits t n f
      → read_bytes mem off n
        ≡ column_bytes to_bytes of_bytes (record { name = nm; type = t; ser_size = n }) (some f)
      → read_field to_bytes of_bytes (record { name = nm; type = t; ser_size = n }) mem off ≡ f
  unfolding read_field column_bytes field_bytes string_value new_string truncate
  read_field-written FieldType.int_type nm n (int_field v) mem off w h e =
      ap int_field (ap decode_int (ap (read_bytes mem off) (sym w) ∙ e) ∙ decode_int-encode_int v h)
  read_field-written FieldType.float_type nm n (float_field d) mem off w h e =
      ap float_field (ap of_bytes (ap (read_bytes mem off) (sym w) ∙ e) ∙ of_bytes-to_bytes d)
  read_field-written FieldType.string_type nm n (string_field s) mem off w h e =
      let short : (if ltb n 255 then n else 255) ≡ n = ground arith in
      ap (λ z. string_field (take 128 z))
        (ap c_string
            (ap (read_bytes mem off) short ∙ e ∙ ap (padded n) (take-all (n - 1) s (omega arith)))
          ∙ c_string-padded n s h.0 h.1)
      ∙ ap string_field (take-all 128 s (omega arith))
  read_field-written _ nm n f mem off w h e = absurd h

  pub length-serialize :
      (cols : List ColumnDef) (row : Row D) (mem : List ℕ) (off : ℕ)
      → length (serialize to_bytes of_bytes cols row mem off) ≡ length mem
  unfolding serialize
  length-serialize [] row mem off = refl
  length-serialize (col ∷ cols) row mem off =
      length-serialize cols (next_field to_bytes of_bytes row).1
        (write_bytes mem off
          (column_bytes to_bytes of_bytes col (next_field to_bytes of_bytes row).0))
        (off + col.ser_size)
      ∙ length-write_bytes mem off
          (column_bytes to_bytes of_bytes col (next_field to_bytes of_bytes row).0)

  -- A row is written into its own bytes only.
  pub read_bytes-serialize_apart :
      (cols : List ColumnDef) (row : Row D) (mem : List ℕ) (off start n : ℕ)
      → AllSized cols
      → RowFits cols row
      → off + size_of cols ≤ length mem
      → (start + n ≤ off) ⊎ (off + size_of cols ≤ start)
      → read_bytes (serialize to_bytes of_bytes cols row mem off) start n ≡ read_bytes mem start n
  unfolding serialize size_of next_field
  read_bytes-serialize_apart [] [] mem off start n z r h a = refl
  read_bytes-serialize_apart (col ∷ cols) (some f ∷ row) mem off start n z r h a =
      let bs = column_bytes to_bytes of_bytes col (some f) in
      let width : length bs ≡ col.ser_size =
        length-column_bytes col.type col.name col.ser_size f z.0 r.0 in
      let kept : length (write_bytes mem off bs) ≡ length mem = length-write_bytes mem off bs in
      read_bytes-serialize_apart cols row (write_bytes mem off bs) (off + col.ser_size) start n z.1
        r.1 (omega arith) (ground arith)
      ∙ read_bytes-write_bytes_apart mem off bs start n (omega arith) (ground arith)
  read_bytes-serialize_apart _ row mem off start n z r h a = absurd r

  -- A row whose fields fit the columns, written at an offset with room for it, is read back as it
  -- was. The bytes of a double are assumed to be eight and to give the double back.
  pub deserialize-serialize :
      (cols : List ColumnDef) (row : Row D) (mem : List ℕ) (off : ℕ)
      → AllSized cols
      → RowFits cols row
      → off + size_of cols ≤ length mem
      → deserialize to_bytes of_bytes cols (serialize to_bytes of_bytes cols row mem off) off ≡ row
  unfolding serialize deserialize size_of next_field
  deserialize-serialize [] [] mem off z r h = refl
  deserialize-serialize (col ∷ cols) (some f ∷ row) mem off z r h =
      let bs = column_bytes to_bytes of_bytes col (some f) in
      let width : length bs ≡ col.ser_size =
        length-column_bytes col.type col.name col.ser_size f z.0 r.0 in
      let kept : length (write_bytes mem off bs) ≡ length mem = length-write_bytes mem off bs in
      let mem' =
        serialize to_bytes of_bytes cols row (write_bytes mem off bs) (off + col.ser_size) in
      let here : read_bytes mem' off col.ser_size ≡ bs =
        read_bytes-serialize_apart cols row (write_bytes mem off bs) (off + col.ser_size) off
          col.ser_size z.1 r.1 (omega arith) (inl (omega arith))
        ∙ ap (read_bytes (write_bytes mem off bs) off) (sym width)
        ∙ read_bytes-write_bytes mem off bs (omega arith) in
      ap₂ (λ x xs. some x ∷ xs)
        (read_field-written col.type col.name col.ser_size f mem' off z.0 r.0 here)
        (deserialize-serialize cols row (write_bytes mem off bs) (off + col.ser_size) z.1 r.1
          (omega arith))
  deserialize-serialize _ row mem off z r h = absurd r

  read_field_cong :
      (t : FieldType) (nm : Text) (n : ℕ) (mem mem' : List ℕ) (off stop : ℕ)
      → WidthIsFit t n
      → off + n ≤ stop
      → ((start k : ℕ)
          → off ≤ start
          → start + k ≤ stop
          → read_bytes mem' start k ≡ read_bytes mem start k)
      → read_field to_bytes of_bytes (record { name = nm; type = t; ser_size = n }) mem' off
        ≡ read_field to_bytes of_bytes (record { name = nm; type = t; ser_size = n }) mem off
  unfolding read_field
  read_field_cong FieldType.int_type nm n mem mem' off stop w h same =
      ap (λ x. int_field (decode_int x)) (same off 4 (omega arith) (omega arith))
  read_field_cong FieldType.float_type nm n mem mem' off stop w h same =
      ap (λ x. float_field (of_bytes x)) (same off 8 (omega arith) (omega arith))
  read_field_cong FieldType.string_type nm n mem mem' off stop w h same =
      let width = if ltb n 255 then n else 255 in
      let short : width ≤ n = ground arith in
      ap (λ x. new_string (c_string x)) (same off width (omega arith) (omega arith))

  -- What is read of a row depends on its own bytes only.
  pub deserialize_cong :
      (cols : List ColumnDef) (mem mem' : List ℕ) (off stop : ℕ)
      → AllSized cols
      → off + size_of cols ≤ stop
      → ((start k : ℕ)
          → off ≤ start
          → start + k ≤ stop
          → read_bytes mem' start k ≡ read_bytes mem start k)
      → deserialize to_bytes of_bytes cols mem' off ≡ deserialize to_bytes of_bytes cols mem off
  unfolding deserialize size_of
  deserialize_cong [] mem mem' off stop z h same = refl
  deserialize_cong (col ∷ cols) mem mem' off stop z h same =
      ap₂ (λ x xs. some x ∷ xs)
        (read_field_cong col.type col.name col.ser_size mem mem' off stop z.0 (omega arith) same)
        (deserialize_cong cols mem mem' (off + col.ser_size) stop z.1 (omega arith)
          (λ start k a. same start k (omega arith)))
