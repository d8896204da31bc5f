-- ===== src/Bson/Columns.antt =====
-- Source/CsvLoading.hpp: `loadCsvDataToJson`, and the table of a CSV file as a JSON object in
-- Source/BsonSerializer.cpp.
use wisent.Prelude.{
  ℕ, zero, suc, ◌+◌, Bool, true, false, List, [], ◌∷◌, Bytes, Result, ok, err, invalid_argument,
  ◌>>=◌, ◌>>◌, guard, if◌then◌else◌, ◌==◌, length,
}
use wisent.Prelude.Int.{of_word}
use wisent.Json.{Json, Items, Fields}
use wisent.Csv.{Document, Environment, is_empty, stol}
use wisent.Bson.Objects.{Objects}
pub mod Tables
pub mod Members

-- The conversion of a cell. An empty number is null.
unfoldable pub number_to_json : (ℕ → Json) → (Bytes → Result (ℕ × ℕ)) → Bytes → Result Json
unfolding is_empty
number_to_json make parse str =
    if is_empty str
    then ok Json.null
    else do (val, pos) ← parse str; guard (pos == length str) invalid_argument; ok (make val)

abbrev pub integer_value : ℕ → Json
integer_value word = Json.number_integer (of_word word)

unfoldable pub string_to_json : Bytes → Result Json
string_to_json str = ok (Json.string str)

-- The loop over the `n` rows from `row` on, which appends to an array.
unfoldable pub load_rows_to_json :
    Document → (Bytes → Result Json) → (column row n : ℕ) → Result Items
load_rows_to_json doc convert column row zero = ok Items.nil
load_rows_to_json doc convert column row (suc n) = do
  str ← doc.cell column row
  val ← convert str
  rest ← load_rows_to_json doc convert column (suc row) n
  ok (Items.cons val rest)

-- `catch (std::invalid_argument const&) { return json{}; }`.
unfoldable pub catch_to_null : Result Items → Result Json
catch_to_null (ok column) = ok (Json.array column)
catch_to_null (err invalid_argument) = ok Json.null
catch_to_null (err e) = err e

unfoldable pub load_csv_data_to_json : Document → (Bytes → Result Json) → Bytes → Result Json
unfolding load_rows_to_json catch_to_null
load_csv_data_to_json doc convert column_name =
    catch_to_null (load_rows_to_json doc convert (doc.column_index column_name) 0 doc.row_count)

unfoldable pub is_null : Json → Bool
is_null Json.null = true
is_null j = false

-- `if(column.is_null()) { column = …; }`.
unfoldable pub unless_null : Result Json → Result Json → Result Json
unfolding is_null
unless_null m next = do column ← m; if is_null column then next else ok column

module _ (env : Environment) (doc : Document) where
  -- A column of integers, else of doubles, else of strings.
  unfoldable pub column_to_json : Bytes → Result Json
  unfolding load_csv_data_to_json
  column_to_json name =
      unless_null (load_csv_data_to_json doc (number_to_json integer_value stol) name) (
        unless_null (load_csv_data_to_json doc (number_to_json Json.number_float env.stod) name)
          (load_csv_data_to_json doc string_to_json name))

module _ (objects : Objects) (env : Environment) (doc : Document) where
  -- `columns[columnName] = std::move(column)`, for each name.
  unfoldable pub columns_to_json : Fields → List Bytes → Result Fields
  columns_to_json columns [] = ok columns
  columns_to_json columns (name ∷ names) = do
    column ← column_to_json env doc name
    columns_to_json (objects.set_field name column columns) names
