-- ===== src/Serializer/JsonToWisent.antt =====
-- Source/WisentSerializer.cpp: the class `JsonToWisent`. Each method takes the object's state and
-- returns the new one. The last element of a `std::vector` that serves as a stack is the head of its
-- list. Counters stay plain numbers: each step of one comes with a word written to memory.
use wisent.Prelude.{
  ℕ, suc, ◌+◌, ◌-◌, ◌%◌, Bool, true, false, not, Option, none, some, List, [], ◌∷◌, ◌++◌, Bytes,
  codes, Result, ok, err, out_of_bounds, runtime_error, ◌>>=◌, or_fail, back, pop_back,
  if◌then◌else◌, ◌==◌, leb, ltb, length, get_elem?, set, replicate,
}
use wisent.Prelude.Int.{to_word}
use wisent.Helpers.{
  Root, size_mod, rle_minimum_size, allocate_expression_tree, type_at, load_word, store_word,
  make_long_argument, make_double_argument, make_string_argument, make_symbol_argument,
  make_expression_argument, set_rle_argument_flag_or_propagate_types, load_member, store_member,
  start_child_member, end_child_member, store_expression, store_string,
}
use wisent.Csv.{
  Document, Environment, load_csv_data, convert_number, convert_string, stol, is_csv_name,
}
use wisent.Json.{
  Event, null_event, boolean_event, integer_event, unsigned_event, float_event, string_event,
  start_object, end_object, start_array, end_array, key_event, binary_event, parse_error,
}
mod State
unfoldable pub use State.*

unfoldable pub start_expression : Encoder → Bytes → Result Encoder
start_expression s head = do
  let expression_index = s.next_expression_index
  s' ← add_expression (record s { next_expression_index = suc expression_index }) expression_index
  let (root, stored) = store_string s'.root head
  start ← or_fail (get_elem? s'.cumul_arg_count_per_layer s'.layer_index) out_of_bounds
  root' ←
      store_expression root expression_index
        (record { symbol_name_offset = stored; start_child_offset = start; end_child_offset = 0 })
  ok (record s' {
    root = root';
    layer_index = suc s'.layer_index;
    argument_iterator_stack = 0 ∷ s'.argument_iterator_stack;
    expression_index_stack = expression_index ∷ s'.expression_index_stack;
  })

-- A write to an element of a vector.
unfoldable pub set_elem {ℓ} : {A : Type ℓ} → List A → ℕ → A → Result (List A)
set_elem xs i v = if ltb i (length xs) then ok (set xs i v) else err out_of_bounds

unfoldable pub end_expression : Encoder → Result Encoder
end_expression s = do
  expression ← back s.expression_index_stack
  start ← load_member s.root expression start_child_member
  iterator ← back s.argument_iterator_stack
  root ← store_member s.root expression end_child_member (start + iterator)
  s' ← reset_type_rle (record s { root = root }) (start + iterator)
  iterators ← pop_back s'.argument_iterator_stack
  expressions ← pop_back s'.expression_index_stack
  end_offset ← load_member s'.root expression end_child_member
  let layer = sub64 s'.layer_index 1
  cumul ← set_elem s'.cumul_arg_count_per_layer layer end_offset
  ok (record s' {
    argument_iterator_stack = iterators;
    expression_index_stack = expressions;
    layer_index = layer;
    cumul_arg_count_per_layer = cumul;
  })

unfoldable pub handle_key_value_end : Encoder → Result Encoder
handle_key_value_end s = do
  was_key ← or_fail (get_elem? s.was_key_value s.layer_index) out_of_bounds
  if was_key
      then (do
        was_key_value ← set_elem s.was_key_value s.layer_index false
        end_expression (record s { was_key_value = was_key_value }))
      else ok s

module _ {V : Type 0} where
  -- The loop over the values of a column.
  unfoldable pub add_values :
      (Encoder → V → Result Encoder) → Encoder → List (Option V) → Result Encoder
  add_values add_value_func s [] = ok s
  add_values add_value_func s (some val ∷ column) = do
    s' ← add_value_func s val
    add_values add_value_func s' column
  add_values add_value_func s (none ∷ column) = do
    s' ← add_symbol s (codes "Missing")
    add_values add_value_func s' column

  -- The column of a conversion is stored, unless it is empty.
  unfoldable pub store_column :
      (Encoder → V → Result Encoder) → Encoder → Bytes → List (Option V) → Result (Encoder × Bool)
  store_column add_value_func s column_name [] = ok (s, false)
  store_column add_value_func s column_name (val ∷ column) = do
    s' ← start_expression s column_name
    s'' ← add_values add_value_func s' (val ∷ column)
    s''' ← end_expression s''
    ok (s''', true)

  unfoldable pub handle_csv_column :
      Document
      → (Bytes → Result (Option V))
      → (Encoder → V → Result Encoder)
      → Encoder
      → Bytes
      → Result (Encoder × Bool)
  handle_csv_column doc convert add_value_func s column_name = do
    column ← load_csv_data doc convert column_name
    store_column add_value_func s column_name column

module _ (env : Environment) where
  -- Integers, else doubles, else strings.
  unfoldable pub add_column : Document → Encoder → Bytes → Result Encoder
  add_column doc s column_name = do
    (s1, long) ← handle_csv_column doc (convert_number stol) add_long s column_name
    if long then ok s1 else (do
      (s2, double) ← handle_csv_column doc (convert_number env.stod) add_double s1 column_name
      if double then ok s2 else (do
        (s3, string) ← handle_csv_column doc convert_string add_string s2 column_name
        if string then ok s3 else err runtime_error))

  unfoldable pub add_columns : Document → Encoder → List Bytes → Result Encoder
  add_columns doc s [] = ok s
  add_columns doc s (column_name ∷ names) = do
    s' ← add_column doc s column_name
    add_columns doc s' names

  unfoldable pub handle_csv_file : Encoder → Bytes → Result (Encoder × Bool)
  handle_csv_file s filename =
      if s.disable_csv_handling
      then ok (s, false)
      else if not (is_csv_name filename)
      then ok (s, false)
      else (do
        s' ← start_expression s (codes "Table")
        doc ← env.open_csv_file (s'.csv_prefix ++ filename)
        s'' ← add_columns doc s' doc.column_names
        s''' ← end_expression s''
        ok (s''', true))

  -- The handlers of the SAX interface.
  unfoldable pub handle : Encoder → Event → Result Encoder
  handle s null_event = do s' ← add_symbol s (codes "Null"); handle_key_value_end s'
  handle s (boolean_event val) = do
    s' ← add_symbol s (if val then codes "True" else codes "False")
    handle_key_value_end s'
  handle s (integer_event val) = do s' ← add_long s (to_word val); handle_key_value_end s'
  handle s (unsigned_event val) = do s' ← add_long s val; handle_key_value_end s'
  handle s (float_event val) = do s' ← add_double s val; handle_key_value_end s'
  handle s (string_event val) = do
    (s', handled) ← handle_csv_file s val
    s'' ← if handled then ok s' else add_string s' val
    handle_key_value_end s''
  handle s start_object = start_expression s (codes "Object")
  handle s end_object = do s' ← end_expression s; handle_key_value_end s'
  handle s start_array = start_expression s (codes "List")
  handle s end_array = do s' ← end_expression s; handle_key_value_end s'
  handle s (key_event val) = do
    s' ← start_expression s val
    was_key_value ← set_elem s'.was_key_value s'.layer_index true
    ok (record s' { was_key_value = was_key_value })
  handle s binary_event = err runtime_error
  handle s parse_error = err runtime_error

  -- `json::sax_parse`: the handlers in the order of the events.
  unfoldable pub sax_parse : Encoder → List Event → Result Encoder
  sax_parse s [] = ok s
  sax_parse s (e ∷ es) = do s' ← handle s e; sax_parse s' es
