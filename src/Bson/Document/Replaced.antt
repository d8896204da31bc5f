-- ===== src/Bson/Document/Replaced.antt =====
-- Source/BsonSerializer.cpp: what the callback makes of a document.
use wisent.Prelude.{◌≤◌, ◌≡◌, refl, Bool, true, not, ◌&&◌, ◌++◌, Bytes, codes, ok}
use wisent.Json.{Json, Fields, end, field}
use wisent.Csv.{Document, Environment, is_csv_name}
use wisent.Serializer.Tree.{Forest, expression}
use wisent.Serializer.Translate.{table_columns, string_tree}
use wisent.Bson.Objects.{Objects, Documented, Sorted}
use wisent.Bson.Columns.Members.{HasColumns, columns_to_json-HasColumns}
use wisent.Bson.Document.{replace_value, table_to_json}

module _ (objects : Objects) (documented : Documented objects) (env : Environment)
    (csv_prefix : Bytes) (disable_csv_handling : Bool) where
  -- For the name of a CSV file with a row, whose columns convert: one serializer makes the expression
  -- `Table` of the columns, the other an object whose member `Table` has, in ascending order of the
  -- keys, the same values under the names of the columns.
  pub replace_value-string_tree :
      (v : Bytes) (doc : Document) (ts : Forest)
      → (not disable_csv_handling && is_csv_name v) ≡ true
      → env.open_csv_file (csv_prefix ++ v) ≡ ok doc
      → 1 ≤ doc.row_count
      → table_columns env doc doc.column_names ≡ ok ts
      → (columns : Fields) × (string_tree env csv_prefix disable_csv_handling v
          ≡ ok (expression (codes "Table") ts))
        × (replace_value objects env csv_prefix disable_csv_handling (Json.string v)
            ≡ ok (Json.object (field (codes "Table") (Json.object columns) end)))
        × Sorted columns
        × HasColumns doc.column_names ts columns
  unfolding string_tree replace_value table_to_json
  replace_value-string_tree v doc ts csv opens some_row h =
      let (columns, e, sorted, has) =
        columns_to_json-HasColumns objects documented env doc ts some_row h in
      (columns, rw (csv, opens, h) refl, rw (csv, opens, e) refl, sorted, has)
