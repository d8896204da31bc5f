-- ===== src/Serializer/JsonToWisent/State.antt =====
-- Source/WisentSerializer.cpp: the state of the class `JsonToWisent`, its runs of types, and the methods
-- that add a value.
use wisent.Prelude.{
  ℕ, suc, ◌+◌, ◌-◌, ◌%◌, Bool, false, List, [], ◌∷◌, Bytes, Result, ok, err, out_of_bounds, ◌>>=◌,
  back, pop_back, if◌then◌else◌, ◌==◌, leb, length, replicate,
}
use wisent.Helpers.{
  Root, size_mod, rle_minimum_size, allocate_expression_tree, type_at, load_word, store_word,
  make_long_argument, make_double_argument, make_string_argument, make_symbol_argument,
  make_expression_argument, set_rle_argument_flag_or_propagate_types, load_member,
  start_child_member, store_string,
}

-- The members of the class, but for the reference to the shared memory.
pub record Encoder : Type 0 where
  pub root : Root
  pub cumul_arg_count_per_layer : List ℕ
  pub was_key_value : List Bool
  pub argument_iterator_stack : List ℕ
  pub expression_index_stack : List ℕ
  pub next_expression_index : ℕ
  pub layer_index : ℕ
  pub csv_prefix : Bytes
  pub disable_rle : Bool
  pub disable_csv_handling : Bool
  pub num_repeated_argument_types : ℕ

-- `a - b` on `uint64_t`.
unfoldable pub sub64 : ℕ → ℕ → ℕ
sub64 a b = (a + size_mod - b) % size_mod

-- `std::partial_sum` in place.
unfoldable pub partial_sum : (total : ℕ) → List ℕ → List ℕ
partial_sum total [] = []
partial_sum total (x ∷ xs) = (total + x) ∷ partial_sum (total + x) xs

-- `std::vector::back` of a vector in its own order.
unfoldable pub last : List ℕ → Result ℕ
last [] = err out_of_bounds
last (x ∷ []) = ok x
last (x ∷ y ∷ ys) = last (y ∷ ys)

-- The constructor. `address` and `memory` are what `sharedMemoryMalloc` returns.
unfoldable pub json_to_wisent :
    (expression_count : ℕ) (argument_count_per_layer : List ℕ) (address : ℕ) (memory : ℕ → ℕ)
    (csv_prefix : Bytes) (disable_rle disable_csv_handling : Bool)
    → Result Encoder
json_to_wisent expression_count argument_count_per_layer address memory csv_prefix disable_rle
      disable_csv_handling =
    do
      let cumul = partial_sum 0 argument_count_per_layer
      argument_count ← last cumul
      ok (record {
        root = allocate_expression_tree argument_count expression_count address memory;
        cumul_arg_count_per_layer = cumul;
        was_key_value = replicate (length cumul) false;
        argument_iterator_stack = 0 ∷ [];
        expression_index_stack = 0 ∷ [];
        next_expression_index = 0;
        layer_index = 0;
        csv_prefix = csv_prefix;
        disable_rle = disable_rle;
        disable_csv_handling = disable_csv_handling;
        num_repeated_argument_types = 0;
      })

-- The next argument of the innermost expression; its iterator moves on.
unfoldable pub get_next_argument_index : Encoder → Result (Encoder × ℕ)
get_next_argument_index s = do
  expression ← back s.expression_index_stack
  start ← load_member s.root expression start_child_member
  iterator ← back s.argument_iterator_stack
  outer ← pop_back s.argument_iterator_stack
  ok (record s { argument_iterator_stack = suc iterator ∷ outer }, start + iterator)

unfoldable pub reset_type_rle : Encoder → ℕ → Result Encoder
reset_type_rle s end_index =
    if leb rle_minimum_size s.num_repeated_argument_types
    then (do
      root ←
          set_rle_argument_flag_or_propagate_types s.root
            (sub64 end_index s.num_repeated_argument_types) s.num_repeated_argument_types
      ok (record s { root = root; num_repeated_argument_types = 0 }))
    else ok (record s { num_repeated_argument_types = 0 })

unfoldable pub apply_type_rle : Encoder → ℕ → Result Encoder
apply_type_rle s arg_index =
    if s.disable_rle
    then ok s
    else if s.num_repeated_argument_types == 0
    then ok (record s { num_repeated_argument_types = 1 })
    else (do
      previous ← load_word s.root (type_at s.root (sub64 arg_index 1))
      current ← load_word s.root (type_at s.root arg_index)
      if previous == current
          then ok (record s { num_repeated_argument_types = suc s.num_repeated_argument_types })
          else (do
            s' ← reset_type_rle s arg_index
            ok (record s' { num_repeated_argument_types = 1 })))

-- `*make…Argument(root, argIndex) = value`.
unfoldable pub store_argument :
    (Root → ℕ → Result (Root × ℕ)) → Root → (arg_index value : ℕ) → Result Root
store_argument make root arg_index value = do
  (root', place) ← make root arg_index
  store_word root' place value

-- The common part of the methods that add a value with its type.
unfoldable pub add_value : (Root → ℕ → Result (Root × ℕ)) → Encoder → ℕ → Result Encoder
add_value make s value = do
  (s', arg_index) ← get_next_argument_index s
  root ← store_argument make s'.root arg_index value
  apply_type_rle (record s' { root = root }) arg_index

unfoldable pub add_long : Encoder → ℕ → Result Encoder
add_long = add_value make_long_argument

unfoldable pub add_double : Encoder → ℕ → Result Encoder
add_double = add_value make_double_argument

unfoldable pub add_string : Encoder → Bytes → Result Encoder
add_string s input =
    let (root, stored) = store_string s.root input in
    add_value make_string_argument (record s { root = root }) stored

unfoldable pub add_symbol : Encoder → Bytes → Result Encoder
add_symbol s symbol =
    let (root, stored) = store_string s.root symbol in
    add_value make_symbol_argument (record s { root = root }) stored

unfoldable pub add_expression : Encoder → ℕ → Result Encoder
add_expression s expression_index = do
  (s', arg_index) ← get_next_argument_index s
  root ← store_argument make_expression_argument s'.root arg_index expression_index
  reset_type_rle (record s' { root = root }) arg_index
