-- ===== src/Tests/Storage.antt =====
-- Rows and pages, with two values in place of doubles.
use apgitproj.Base.{
  ℕ, ◌+◌, ◌<◌, ◌≤◌, ◌≡◌, refl, Bool, true, false, ◌==◌, pos, negsuc, pos_part, neg_part, List, [],
  ◌∷◌, length, get_or, replicate, length-replicate, codes, some, arith,
}
use apgitproj.Schema.{
  FieldType, ColumnDef, TableSchema, AllSized, size_of, record_size, records_per_page,
}
use apgitproj.Row.{Row, int_field, float_field, string_field, serialize, deserialize}
use apgitproj.Row.RoundTrip.{RowFits, deserialize-serialize}
use apgitproj.Page.{Page, init, blank_page, append_row}
use apgitproj.Page.Header.{SchemaIsValid, init-Holds}
use apgitproj.Page.Rows.{Appended, append_row-Appended}

abbrev pub to_bytes : Bool → List ℕ
to_bytes true = replicate 8 1
to_bytes false = replicate 8 0

abbrev pub of_bytes : List ℕ → Bool
of_bytes bs = get_or bs 0 0 == 1

pub length-to_bytes : (d : Bool) → length (to_bytes d) ≡ 8
length-to_bytes true = refl
length-to_bytes false = refl

pub of_bytes-to_bytes : (d : Bool) → of_bytes (to_bytes d) ≡ d
of_bytes-to_bytes true = refl
of_bytes-to_bytes false = refl

abbrev pub columns : List ColumnDef
columns =
    record { name = codes "id"; type = FieldType.int_type; ser_size = 4 }
    ∷ record { name = codes "name"; type = FieldType.string_type; ser_size = 10 }
    ∷ record { name = codes "paid"; type = FieldType.float_type; ser_size = 8 }
    ∷ []

abbrev pub people : TableSchema
people = record {
  table_name = codes "people";
  file_path = codes "people.db";
  columns = columns;
  pk_index = 0;
}

columns_sized : AllSized columns
columns_sized = (refl, ((omega arith, omega arith), (refl, tt)))

abbrev pub ann : Row Bool
ann = some (int_field (negsuc 6)) ∷ some (string_field (codes "ann")) ∷ some (float_field true) ∷ []

pub ann_fits : RowFits columns ann
unfolding pos_part neg_part
ann_fits = (
  (omega arith, omega arith),
  ((omega arith, (omega arith, (omega arith, (omega arith, tt)))), (tt, tt)),
)

buffer_room : 3 + size_of columns ≤ length {A = ℕ} (replicate 64 0)
unfolding size_of
buffer_room = omega (arith, length-replicate {A = ℕ} 64 0)

deserialize-serialize_example :
    deserialize to_bytes of_bytes columns
      (serialize to_bytes of_bytes columns ann (replicate 64 0) 3)
      3
    ≡ ann
deserialize-serialize_example =
    deserialize-serialize to_bytes of_bytes length-to_bytes of_bytes-to_bytes columns ann
      (replicate 64 0) 3 columns_sized ann_fits buffer_room

pub people-SchemaIsValid : SchemaIsValid people
unfolding record_size size_of
people-SchemaIsValid = record { sized = columns_sized; size_pos = omega arith }

pub people_room : 0 < records_per_page people
unfolding records_per_page record_size size_of
people_room = omega arith

append_row-Appended_example :
    Appended to_bytes of_bytes length-to_bytes of_bytes-to_bytes people people-SchemaIsValid
      (init blank_page (pos 1))
      0
      ann
      (append_row to_bytes of_bytes people ann (init blank_page (pos 1)))
append_row-Appended_example =
    append_row-Appended to_bytes of_bytes length-to_bytes of_bytes-to_bytes people
      people-SchemaIsValid (init blank_page (pos 1)) 0 ann (init-Holds people blank_page (pos 1))
      people_room ann_fits

-- A record of 2064 bytes: a page holds one.
abbrev note : ColumnDef
note = record { name = codes "note"; type = FieldType.string_type; ser_size = 129 }

abbrev notes : TableSchema
notes = record {
  table_name = codes "notes";
  file_path = codes "notes.db";
  columns = replicate 16 note;
  pk_index = 0;
}

notes_sized : AllSized (replicate 16 note)
notes_sized =
    let w : (0 < 129) × (129 ≤ 129) = (omega arith, omega arith) in
    (w, (w, (w, (w, (w, (w, (w, (w, (w, (w, (w, (w, (w, (w, (w, (w, tt))))))))))))))))

notes-SchemaIsValid : SchemaIsValid notes
unfolding record_size size_of
notes-SchemaIsValid = record { sized = notes_sized; size_pos = omega arith }

abbrev blank_notes : Row Bool
blank_notes = replicate 16 (some (string_field []))

blank_notes_fit : RowFits (replicate 16 note) blank_notes
blank_notes_fit =
    let w : (0 < 129) × Unit = (omega arith, tt) in
    (w, (w, (w, (w, (w, (w, (w, (w, (w, (w, (w, (w, (w, (w, (w, (w, tt))))))))))))))))

notes_room : 0 < records_per_page notes
unfolding records_per_page record_size size_of
notes_room = omega arith

abbrev full_page : Page
full_page = (append_row to_bytes of_bytes notes blank_notes (init blank_page (pos 1))).1
