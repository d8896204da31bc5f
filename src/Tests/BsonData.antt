-- ===== src/Tests/BsonData.antt =====
-- The theorems on the BSON serializer, applied to a CSV file, a document and a segment.
use wisent.Prelude.{
  Result, ◌≡◌, ◌≢◌, ℕ, refl, true, false, none, some, [], Bool, codes, ok, ◌>>=◌, bytes_eq, arith,
}
use wisent.Json.{Json, Fields, end, field}
use wisent.Csv.{stol, convert_number, load_csv_data, convert_string, is_csv_name, find_last_of}
use wisent.Segment.{
  Segment, Process, find_name, find_entry, dereference, loaded, base_address, size, exists,
  has_bytes, is_mapped, open_segment,
}
use wisent.Segment.Mapped.{Mapped}
use wisent.Serializer.Tree.{expression}
use wisent.Serializer.Translate.{string_tree}
use wisent.Bson.Objects.{Sorted}
use wisent.Tests.MapObjects.{map_objects, map_objects-Documented}
use wisent.Bson.Columns.{
  string_to_json, number_to_json, integer_value, load_csv_data_to_json, load_rows_to_json,
  catch_to_null, columns_to_json,
}
use wisent.Bson.Columns.Tables.{column_json, load_csv_data_to_json-load_csv_data}
use wisent.Bson.Columns.Members.{HasColumns, columns_to_json-HasColumns}
use wisent.Bson.Document.{load, replace_value}
use wisent.Bson.Document.Replaced.{replace_value-string_tree}
use wisent.Bson.Allocator.{Allocator, allocate}
use wisent.Bson.Allocator.Owned.{Owned, Allocates, allocate-Allocates}
use wisent.Bson.Serializer.{Library, Options, present, stored, load_as_bson}
use wisent.Bson.Serializer.Outcomes.{load_as_bson-forced_never_returns}
use wisent.Bson.Serializer.Caching.{load_as_bson-stored_then_present}
use wisent.Tests.{table_env, table_document, table_forest, table_forest-columns}
use wisent.Tests.Segments.{one_object, one_object-Documented, map_object, process, entry, region}

-- Column `b` holds no numbers.
load_csv_data_to_json-load_csv_data_example :
    (load_csv_data_to_json table_document (number_to_json integer_value stol) (codes "b") ≡ (
      load_csv_data table_document (convert_number stol) (codes "b") >>= λ values.
      ok (column_json integer_value values)))
    × (load_csv_data_to_json table_document
          (number_to_json Json.number_float table_env.stod)
          (codes "b")
        ≡ (load_csv_data table_document (convert_number table_env.stod) (codes "b") >>= λ values.
            ok (column_json Json.number_float values)))
    × (load_csv_data_to_json table_document string_to_json (codes "b") ≡ (
        load_csv_data table_document convert_string (codes "b") >>= λ values.
        ok (column_json (λ s. Json.string s) values)))
load_csv_data_to_json-load_csv_data_example =
    load_csv_data_to_json-load_csv_data table_env table_document (omega arith) (codes "b")

column_b-null :
    load_csv_data_to_json table_document (number_to_json integer_value stol) (codes "b")
    ≡ ok Json.null
unfolding load_csv_data_to_json load_rows_to_json catch_to_null number_to_json stol bytes_eq
column_b-null = refl

columns_to_json-HasColumns_example :
    (fields : Fields) × (columns_to_json map_objects table_env table_document end
        table_document.column_names
      ≡ ok fields)
    × Sorted fields
    × HasColumns table_document.column_names table_forest fields
columns_to_json-HasColumns_example =
    columns_to_json-HasColumns map_objects map_objects-Documented table_env table_document
      table_forest (omega arith) table_forest-columns

replace_value-string_tree_example :
    (columns : Fields) × (string_tree table_env [] false (codes "d.csv")
      ≡ ok (expression (codes "Table") table_forest))
    × (replace_value map_objects table_env [] false (Json.string (codes "d.csv"))
        ≡ ok (Json.object (field (codes "Table") (Json.object columns) end)))
    × Sorted columns
    × HasColumns table_document.column_names table_forest columns
unfolding is_csv_name find_last_of
replace_value-string_tree_example =
    replace_value-string_tree map_objects map_objects-Documented table_env [] false (codes "d.csv")
      table_document table_forest refl refl (omega arith) table_forest-columns

-- {"u": "x"}, whose string the parser hands to the callback.
abbrev text_document : Json
text_document = Json.object (field (codes "u") (Json.string (codes "x")) end)

abbrev parse : (Json → Result Json) → Result Json
parse callback = do
  v ← callback (Json.string (codes "x"))
  ok (Json.object (field (codes "u") v end))

-- A process whose current segment has 64 bytes, and their allocator.
abbrev current_process : Process ℕ
current_process = record process { current = some 3 }

abbrev allocator : Allocator
allocator = record { pointer = 4096; allocated = 64 }

allocator-Owned : Owned one_object allocator current_process
unfolding dereference find_entry loaded base_address exists has_bytes is_mapped size
allocator-Owned = record {
  identity = 3;
  segment = entry.segment;
  current = refl;
  there = refl;
  mapped = λ some_pointer. record {
    is_loaded = refl;
    at_address = refl;
    with_size = refl;
    object_size = refl;
  };
}

-- 32 bytes are there already.
allocate-Allocates_example :
    Allocates one_object one_object-Documented 1 32 (allocator, current_process, 4096)
unfolding allocate
allocate-Allocates_example =
    allocate-Allocates one_object one_object-Documented 1 32 allocator current_process
      (allocator, current_process, 4096) (omega arith) allocator-Owned refl

abbrev library : Library
library = record {
  objects = map_objects;
  open_file = λ path. some parse;
  to_bson = λ j. ok (codes "bson");
  to_text = λ j. ok (codes "text");
}

abbrev options : Bool → Options
options force_reload = record {
  csv_prefix = [];
  disable_csv_handling = false;
  force_reload = force_reload;
}

load_as_bson-forced_never_returns_example :
    load_as_bson one_object library table_env
      (options true)
      (codes "d.json")
      (codes "wisent")
      process
    ≢ ok (present process 4096)
unfolding find_name find_entry loaded exists has_bytes is_mapped bytes_eq
load_as_bson-forced_never_returns_example =
    load_as_bson-forced_never_returns one_object library table_env (options true) (codes "d.json")
      (codes "wisent") process entry (present process 4096) refl refl refl (λ e. refl, tt) refl

-- A process without segments, in a system whose object is empty.
abbrev started : Process ℕ
started = record { os = 0; segments = []; next_identity = 0; current = none }

load_as_bson-stored_then_present_example :
    (p' : Process ℕ) × (s : Segment) × (load_as_bson one_object library table_env
        (options false)
        (codes "d.json")
        (codes "wisent")
        started
      ≡ ok (stored p' 4096 (codes "bson")))
    × Mapped one_object p'.os s 4096 4
    × (load_as_bson one_object library table_env
          (options false)
          (codes "e.json")
          (codes "wisent")
          p'
        ≡ ok (present p' 4096))
unfolding find_name exists has_bytes map_object open_segment load replace_value is_csv_name
    find_last_of
load_as_bson-stored_then_present_example =
    load_as_bson-stored_then_present one_object library table_env (options false)
      one_object-Documented (codes "d.json") (codes "e.json") (codes "wisent") started text_document
      (codes "bson") 0 4 0 (region 4) refl refl refl refl refl refl (omega arith) refl refl
      (λ e. omega (arith, e))
