-- ===== src/Schema.antt =====
-- src/catalog/Schema.h: columns and table schemas, the three of TPC-H among them.
use apgitproj.Base.{
  ℕ, suc, ◌+◌, ◌-◌, ◌/◌, ◌≤◌, ◌<◌, ◌≡◌, List, [], ◌∷◌, ◌++◌, ℤ, pos, negsuc, length, leb,
  if◌then◌else◌, Text, codes, str_eq, truncate,
}

-- `FieldType` of src/storage/Field.h.
pub data FieldType : Type 0 where
  int_type float_type string_type : FieldType

pub record ColumnDef : Type 0 where
  pub name : Text
  pub type : FieldType
  pub ser_size : ℕ

-- `columns[0 .. colCount)`.
pub record TableSchema : Type 0 where
  pub table_name : Text
  pub file_path : Text
  pub columns : List ColumnDef
  pub pk_index : ℕ

abbrev pub max_columns : ℕ
max_columns = 32

abbrev pub page_size : ℕ
page_size = 4096

abbrev pub page_header : ℕ
page_header = 16

unfoldable pub size_of : List ColumnDef → ℕ
size_of [] = 0
size_of (c ∷ cs) = c.ser_size + size_of cs

unfoldable pub record_size : TableSchema → ℕ
record_size s = size_of s.columns

unfoldable pub records_per_page : TableSchema → ℕ
records_per_page s = (page_size - page_header) / record_size s

-- The index of the first column of that name, from `i` on.
unfoldable pub index_from : ℕ → List ColumnDef → Text → ℤ
index_from i [] name = negsuc 0
index_from i (c ∷ cs) name = if str_eq c.name name then pos i else index_from (suc i) cs name

unfoldable pub column_index : TableSchema → Text → ℤ
column_index s name = index_from 0 s.columns name

unfoldable pub add_column : TableSchema → Text → FieldType → ℕ → TableSchema
add_column s nm t sz = if leb max_columns (length s.columns) then s else record s {
  columns = s.columns ++ record { name = truncate 64 nm; type = t; ser_size = sz } ∷ [];
}

unfoldable pub empty_schema : Text → Text → TableSchema
empty_schema name path = record {
  table_name = truncate 64 name;
  file_path = truncate 256 path;
  columns = [];
  pk_index = 0;
}

-- The calls of `addColumn` in a row.
unfoldable pub add_columns : TableSchema → List (Text × FieldType × ℕ) → TableSchema
add_columns s [] = s
add_columns s ((nm, t, sz) ∷ cs) = add_columns (add_column s nm t sz) cs

unfoldable pub make_customer_schema : TableSchema
make_customer_schema =
    add_columns (empty_schema (codes "customer") (codes "db_files/customer.db")) (
      (codes "c_custkey", FieldType.int_type, 4)
      ∷ (codes "c_name", FieldType.string_type, 25)
      ∷ (codes "c_address", FieldType.string_type, 40)
      ∷ (codes "c_nationkey", FieldType.int_type, 4)
      ∷ (codes "c_phone", FieldType.string_type, 15)
      ∷ (codes "c_acctbal", FieldType.float_type, 8)
      ∷ (codes "c_mktsegment", FieldType.string_type, 10)
      ∷ (codes "c_comment", FieldType.string_type, 79)
      ∷ [])

unfoldable pub make_orders_schema : TableSchema
make_orders_schema = add_columns (empty_schema (codes "orders") (codes "db_files/orders.db")) (
    (codes "o_orderkey", FieldType.int_type, 4)
    ∷ (codes "o_custkey", FieldType.int_type, 4)
    ∷ (codes "o_orderstatus", FieldType.string_type, 1)
    ∷ (codes "o_totalprice", FieldType.float_type, 8)
    ∷ (codes "o_orderdate", FieldType.string_type, 10)
    ∷ (codes "o_orderpriority", FieldType.string_type, 15)
    ∷ (codes "o_clerk", FieldType.string_type, 15)
    ∷ (codes "o_shippriority", FieldType.int_type, 4)
    ∷ (codes "o_comment", FieldType.string_type, 79)
    ∷ [])

unfoldable pub make_lineitem_schema : TableSchema
make_lineitem_schema =
    add_columns (empty_schema (codes "lineitem") (codes "db_files/lineitem.db")) (
      (codes "l_orderkey", FieldType.int_type, 4)
      ∷ (codes "l_partkey", FieldType.int_type, 4)
      ∷ (codes "l_suppkey", FieldType.int_type, 4)
      ∷ (codes "l_linenumber", FieldType.int_type, 4)
      ∷ (codes "l_quantity", FieldType.float_type, 8)
      ∷ (codes "l_extendedprice", FieldType.float_type, 8)
      ∷ (codes "l_discount", FieldType.float_type, 8)
      ∷ (codes "l_tax", FieldType.float_type, 8)
      ∷ (codes "l_returnflag", FieldType.string_type, 1)
      ∷ (codes "l_linestatus", FieldType.string_type, 1)
      ∷ (codes "l_shipdate", FieldType.string_type, 10)
      ∷ (codes "l_commitdate", FieldType.string_type, 10)
      ∷ (codes "l_receiptdate", FieldType.string_type, 10)
      ∷ (codes "l_shipinstruct", FieldType.string_type, 25)
      ∷ (codes "l_shipmode", FieldType.string_type, 10)
      ∷ (codes "l_comment", FieldType.string_type, 44)
      ∷ [])

-- The schemas the rest of the code relies on: a column takes the bytes its type writes, a string
-- at least its terminator, and fits into the buffers of Row::deserialize and StringField.
abbrev pub WidthIsFit : FieldType → ℕ → Type 0
WidthIsFit FieldType.int_type n = n ≡ 4
WidthIsFit FieldType.float_type n = n ≡ 8
WidthIsFit FieldType.string_type n = (0 < n) × (n ≤ 129)

abbrev pub AllSized : List ColumnDef → Type 0
AllSized [] = Unit
AllSized (c ∷ cs) = WidthIsFit c.type c.ser_size × AllSized cs
