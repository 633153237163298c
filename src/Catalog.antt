-- ===== src/Catalog.antt =====
-- src/catalog/SystemCatalog.h: the schemas by the names of their tables.
use apgitproj.Base.{ℕ, ◌%◌, ◌≡◌, Bool, Option, some, Text, str_eq, if◌then◌else◌}
use apgitproj.Schema.{TableSchema}
use apgitproj.HashMap.{HashMap, put, get, contains}
use apgitproj.HashMap.Hashing.{text_key, djb2}
use apgitproj.HashMap.Invariant.{IsHashed}
use apgitproj.HashMap.Methods.{get-put}

abbrev pub Catalog : Type 0
Catalog = HashMap Text TableSchema

unfoldable pub register_table : Catalog → TableSchema → Catalog
register_table c schema = put c schema.table_name schema

unfoldable pub get_schema : Catalog → Text → Option TableSchema
get_schema c name = get c name

unfoldable pub has_table : Catalog → Text → Bool
has_table c name = contains c name

unfoldable pub table_hash : Text → ℕ
table_hash name = djb2 5381 name % 99991

-- In a valid catalog, a schema that was registered is found under its table's name, in place of an
-- earlier one; the other tables are as before.
pub get_schema-register_table :
    (c : Catalog) (schema : TableSchema) (name : Text)
    → IsHashed c
    → get_schema (register_table c schema) name
      ≡ (if str_eq schema.table_name name then some schema else get_schema c name)
unfolding get_schema register_table
get_schema-register_table c schema name v = get-put c v schema.table_name schema name
