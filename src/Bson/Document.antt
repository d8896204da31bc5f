-- ===== src/Bson/Document.antt =====
-- Source/BsonSerializer.cpp: the function `load`, which replaces the names of CSV files in a document
-- by their tables in a callback that the parser of nlohmann::json calls on each value.
use wisent.Prelude.{
  Bool, not, ◌&&◌, Option, List, ◌++◌, Bytes, codes, Result, ok, runtime_error, ◌>>=◌, or_fail,
  if◌then◌else◌,
}
use wisent.Json.{Json, Items, Fields, end, field}
use wisent.Csv.{Environment, is_csv_name}
use wisent.Bson.Objects.{Objects}
use wisent.Bson.Columns.{columns_to_json}
pub mod Replaced

module _ (objects : Objects) (env : Environment) (csv_prefix : Bytes)
    (disable_csv_handling : Bool) where
  unfoldable pub table_to_json : (filename : Bytes) → Result Json
  table_to_json filename = do
    doc ← env.open_csv_file (csv_prefix ++ filename)
    columns ← columns_to_json objects env doc end doc.column_names
    ok (Json.object (field (codes "Table") (Json.object columns) end))

  -- The callback, on a value.
  unfoldable pub replace_value : Json → Result Json
  unfolding table_to_json
  replace_value (Json.string filename) =
      if not disable_csv_handling && is_csv_name filename
      then table_to_json filename
      else ok (Json.string filename)
  replace_value j = ok j

  -- `load`, given the opening of files with what the parser makes of the text with a callback on values.
  unfoldable pub load :
      (open_file : Bytes → Option ((Json → Result Json) → Result Json))
      → (path : Bytes) → Result Json
  load open_file path = do parse ← or_fail (open_file path) runtime_error; parse replace_value
