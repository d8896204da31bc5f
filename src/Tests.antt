-- ===== src/Tests.antt =====
-- Runs of the model, and the theorems at concrete inputs.
mod Segments
mod Registry
mod Traversals
mod Loading
mod MapObjects
mod BsonData
mod Serving
mod Reading
use wisent.Prelude.{
  ℕ, zero, suc, true, false, ◌≡◌, refl, List, [], ◌∷◌, Bytes, codes, Result, ok, err, runtime_error,
  invalid_argument, bytes_eq, replicate, if◌then◌else◌, ap, ◌>>=◌, arith,
}
use wisent.Json.{Json, Items, Fields, events}
use wisent.Csv.{
  Document, Environment, load_csv_data, convert_number, convert_string, stol, is_csv_name,
}
use wisent.Helpers.{Root}
use wisent.Serializer.{Encoder, json_to_wisent, sax_parse, partial_sum}
use wisent.Serializer.Tree.{Forest, nil, cons, long, string, symbol, expression}
use wisent.Serializer.Translate.{tree_of, string_tree}
use wisent.Serializer.Stored.{StoredTree}
use wisent.Serializer.Encode.{Planned, sax_parse-StoredTree, initial, initial-Open}
use wisent.Helpers.{
  allocate_expression_tree, ArgumentType, make_argument, store_string, view_string,
  set_rle_argument_flag_or_propagate_types, c_str,
}
use wisent.Helpers.Access.{IsSized}
use wisent.Helpers.Cells.{CellsAt}
use wisent.Helpers.Frame.{Frame, Nothing, Frame-refl}
use wisent.Helpers.Runs.{run_cells, Between, set_rle-run_cells}
use wisent.Serializer.{
  store_argument, add_value, start_expression, end_expression, handle, handle_key_value_end,
  add_columns, last,
}
use wisent.Serializer.Open.{Open, Added, nothing, add_value-Added}
use wisent.Serializer.Start.{Started, inner, start_expression-Started}
use wisent.Serializer.End.{Ended, end_expression-Ended}
use wisent.Serializer.Build.{build, build_forest, Built, Room}
use wisent.Serializer.Build.Stores.{build-Built}
use wisent.Serializer.Table.{add_columns-build}
use wisent.Serializer.Strings.{string-build}
use wisent.Serializer.Translate.{
  table_columns, table_column, converted_column, column_tree, column_values, or_else,
}
use wisent.Serializer.Arguments.{Written, store_argument-Written, view_string-store_string}
use wisent.Json.{string_event}

abbrev pub no_csv : Environment
no_csv = record { open_csv_file = λ _. err runtime_error; stod = λ _. err runtime_error }

-- {"k": [1, 2, 3, 4, 5], "t": "x"}
abbrev pub document : Json
document = Json.object (
    Fields.field (codes "k")
      (Json.array (
        Items.cons (Json.number_unsigned 1) (
          Items.cons (Json.number_unsigned 2) (
            Items.cons (Json.number_unsigned 3) (
              Items.cons (Json.number_unsigned 4)
                (Items.cons (Json.number_unsigned 5) Items.nil))))))
      (Fields.field (codes "t") (Json.string (codes "x")) Fields.end))

abbrev counts : List ℕ
counts = 1 ∷ 2 ∷ 2 ∷ 5 ∷ []

document-Planned : Planned 4 10 counts (tree_of string document)
unfolding partial_sum last
document-Planned = record {
  total = refl;
  layered = (
    omega arith,
    omega arith,
    (omega arith, omega arith, (omega arith, omega arith, (omega arith, omega arith, omega arith))),
  );
  layers = omega arith;
  expressions = omega arith;
  some_expression = omega arith;
  few = omega arith;
  small = omega arith;
  fits = omega arith;
}

plain : (text : Bytes) → string_tree no_csv [] true text ≡ ok (string text)
unfolding string_tree
plain text = refl

sax_parse-StoredTree_example :
    (s s' : Encoder) × (json_to_wisent 4 counts 0 (λ _. 0) [] false true ≡ ok s)
    × (sax_parse no_csv s (events document) ≡ ok s')
    × StoredTree false s'.root 0 0 (partial_sum 0 counts) (tree_of string document)
sax_parse-StoredTree_example =
    sax_parse-StoredTree no_csv string [] false true 4 10 counts 0 (λ _. 0) document tt
      ((tt, (tt, (tt, (tt, (tt, tt))))), (plain (codes "x"), tt)) document-Planned refl

-- The encoder of the document, with nothing stored.
abbrev first : Encoder
first = initial no_csv string [] false true 4 10 counts 0 (λ _. 0)

first-Open : Open first nothing 0 0 0 0 0 0 (1 ∷ 3 ∷ 5 ∷ 10 ∷ [])
unfolding partial_sum
first-Open =
    initial-Open no_csv string [] false true 4 10 counts 0 (λ _. 0) (tree_of string document)
      document-Planned refl

add_value-Added_example :
    (s' : Encoder) × (add_value (make_argument ArgumentType.long_type) first 7 ≡ ok s')
    × Added first s' nothing 0 0 0 0 0 0 (1 ∷ 3 ∷ 5 ∷ 10 ∷ []) ArgumentType.long_type 7
unfolding initial allocate_expression_tree
add_value-Added_example = add_value-Added ArgumentType.long_type 7 first-Open (omega arith)

start_expression-Started_example :
    (s' : Encoder) × (start_expression first (codes "Object") ≡ ok s')
    × Started first s' nothing 0 0 0 0 0 0 1 (3 ∷ 5 ∷ 10 ∷ []) (codes "Object")
unfolding initial allocate_expression_tree
start_expression-Started_example =
    start_expression-Started (codes "Object") first-Open (omega arith) (omega arith)

started :
    (s' : Encoder) × (start_expression first (codes "Object") ≡ ok s')
    × Started first s' nothing 0 0 0 0 0 0 1 (3 ∷ 5 ∷ 10 ∷ []) (codes "Object")
unfolding initial allocate_expression_tree
started = start_expression-Started (codes "Object") first-Open (omega arith) (omega arith)

end_expression-Ended_example :
    (s' : Encoder) × (end_expression started.0 ≡ ok s')
    × Ended started.0 s' nothing 0 0 1 0 0 1 0 0 (3 ∷ 5 ∷ 10 ∷ [])
unfolding initial allocate_expression_tree
end_expression-Ended_example =
    end_expression-Ended nothing 0 0 started.2.opened (omega (arith, started.2.frame.arguments))

started-Room : Room started.0 3 (3 ∷ 5 ∷ 10 ∷ []) (4 ∷ 5 ∷ 10 ∷ []) 1 1
unfolding initial allocate_expression_tree
started-Room = record {
  layered = (
    omega arith,
    omega arith,
    (
      omega arith,
      omega arith,
      (omega arith, omega arith, omega (arith, started.2.frame.arguments)),
    ),
  );
  layers = omega arith;
  expressions = omega (arith, started.2.next, started.2.frame.expressions);
}

build-Built_example :
    (s' : Encoder) × (build started.0 (expression (codes "k") (cons (long 5) nil)) ≡ ok s')
    × Built started.0 s'
        (inner nothing 0 0 1)
        0
        1
        0
        1
        0
        0
        (3 ∷ 5 ∷ 10 ∷ [])
        (expression (codes "k") (cons (long 5) nil))
unfolding initial allocate_expression_tree
build-Built_example =
    build-Built (expression (codes "k") (cons (long 5) nil)) started.0 (inner nothing 0 0 1) 0 1 0 1
      0 0 3 (3 ∷ 5 ∷ 10 ∷ []) started.2.opened started-Room (omega arith)
      (omega (arith, started.2.next))

-- A file with the columns `a` (5 and an empty cell) and `b` (text).
abbrev table_cell : (column row : ℕ) → Result Bytes
table_cell zero zero = ok (codes "5")
table_cell zero (suc row) = ok []
table_cell (suc column) row = ok (codes "x")

abbrev pub table_document : Document
table_document = record {
  column_names = codes "a" ∷ codes "b" ∷ [];
  row_count = 2;
  column_count = 2;
  column_index = λ name. if bytes_eq name (codes "a") then 0 else 1;
  cell = table_cell;
}

abbrev pub table_env : Environment
table_env = record { open_csv_file = λ name. ok table_document; stod = λ str. err invalid_argument }

abbrev pub table_forest : Forest
table_forest =
    cons (expression (codes "a") (cons (long 5) (cons (symbol (codes "Missing")) nil))) (
      cons (expression (codes "b") (cons (string (codes "x")) (cons (string (codes "x")) nil))) nil)

pub table_forest-columns :
    table_columns table_env table_document table_document.column_names ≡ ok table_forest
unfolding table_columns table_column converted_column column_tree column_values or_else
    load_csv_data convert_number convert_string stol bytes_eq
table_forest-columns = refl

add_columns-build_example :
    add_columns table_env table_document first (codes "a" ∷ codes "b" ∷ [])
    ≡ build_forest first table_forest
add_columns-build_example =
    add_columns-build table_env table_document (codes "a" ∷ codes "b" ∷ []) first table_forest
      table_forest-columns

string-build_example :
    handle table_env (record first { disable_csv_handling = false }) (string_event (codes "d.csv"))
    ≡ (build
          (record first { disable_csv_handling = false })
          (expression (codes "Table") table_forest)
        >>= handle_key_value_end)
unfolding string_tree is_csv_name
string-build_example =
    string-build table_env (record first { disable_csv_handling = false }) (codes "d.csv")
      (expression (codes "Table") table_forest)
      (ap (λ r. r >>= λ ts. ok (expression (codes "Table") ts)) table_forest-columns)

store_argument-Written_example :
    (root' : Root) × (store_argument (make_argument ArgumentType.double_type) first.root 3 7
      ≡ ok root')
    × Written first.root root' ArgumentType.double_type 3 7
unfolding initial allocate_expression_tree
store_argument-Written_example =
    store_argument-Written first.root ArgumentType.double_type 3 7 first-Open.sized (omega arith)

view_string-store_string_example :
    view_string
      (store_string first.root (codes "Data")).0
      (store_string first.root (codes "Data")).1
    ≡ c_str (codes "Data")
view_string-store_string_example =
    view_string-store_string first.root (store_string first.root (codes "Data")).0 Nothing Nothing 0
      0 (codes "Data") first-Open.filled
      (Frame-refl (store_string first.root (codes "Data")).0 Nothing Nothing 0 0)

-- Six arguments of the same type.
abbrev six : Root
six = record {
  argument_count = 6;
  expression_count = 0;
  original_address = 0;
  string_arguments_fill_index = 0;
  words = replicate 12 1;
  string_buffer = [];
}

six-IsSized : IsSized six
six-IsSized = record { sized = refl; fits = omega arith }

set_rle-run_cells_example :
    (root' : Root) × (set_rle_argument_flag_or_propagate_types six 1 5 ≡ ok root')
    × CellsAt root' 1 (run_cells 1 5)
    × ((lo hi : ℕ) → Frame six root' Nothing (Between 1 5) lo hi)
set_rle-run_cells_example =
    set_rle-run_cells 1 1 5 six-IsSized (omega arith) (omega arith) (omega arith)
      (refl, (refl, (refl, (refl, (refl, tt)))))
