-- ===== src/Helpers/Defs.antt =====
-- Source/WisentHelpers.h: data structures, part extraction and memory management.
use wisent.Prelude.{
  ℕ, zero, suc, ◌+◌, ◌-◌, ◌*◌, ◌/◌, ◌%◌, ◌^◌, bit_or, List, [], ◌∷◌, ◌++◌, Bytes, get_elem?, set,
  take, drop, length, Result, ok, err, out_of_bounds, ◌>>=◌, or_fail, ltb, if◌then◌else◌, ◌==◌,
}

abbrev pub size_mod : ℕ
size_mod = 2 ^ 64

-- `enum WisentArgumentType : size_t`.
pub data ArgumentType : Type 0 where
  bool_type long_type double_type string_type symbol_type expression_type : ArgumentType

abbrev pub type_code : ArgumentType → ℕ
type_code ArgumentType.bool_type = 0
type_code ArgumentType.long_type = 1
type_code ArgumentType.double_type = 2
type_code ArgumentType.string_type = 3
type_code ArgumentType.symbol_type = 4
type_code ArgumentType.expression_type = 5

abbrev pub rle_minimum_size : ℕ
rle_minimum_size = 5

abbrev pub rle_bit : ℕ
rle_bit = 0x80

-- `struct WisentExpression`.
pub record Expression : Type 0 where
  pub symbol_name_offset : ℕ
  pub start_child_offset : ℕ
  pub end_child_offset : ℕ

-- `struct WisentRootExpression`: `words` is `arguments[]` up to the string buffer, and
-- `string_buffer` the bytes behind it, as far as the memory reaches.
pub record Root : Type 0 where
  pub argument_count : ℕ
  pub expression_count : ℕ
  pub original_address : ℕ
  pub string_arguments_fill_index : ℕ
  pub words : List ℕ
  pub string_buffer : Bytes

abbrev pub sizeof_value : ℕ
sizeof_value = 8

abbrev pub sizeof_type : ℕ
sizeof_type = 8

abbrev pub sizeof_expression : ℕ
sizeof_expression = 24

abbrev pub sizeof_root : ℕ
sizeof_root = 32

unfoldable pub get_expression_arguments : Root → ℕ
get_expression_arguments root = 0

unfoldable pub get_argument_types : Root → ℕ
get_argument_types root = root.argument_count * sizeof_value % size_mod

unfoldable pub get_expression_subexpressions : Root → ℕ
get_expression_subexpressions root = root.argument_count * (sizeof_value + sizeof_type) % size_mod

unfoldable pub get_string_buffer : Root → ℕ
get_string_buffer root =
    (root.argument_count * (sizeof_value + sizeof_type) + root.expression_count * sizeof_expression)
    % size_mod

-- The address of element `i` of an array of elements of `size` bytes.
unfoldable pub element : (base size i : ℕ) → ℕ
element base size i = (base + i * size) % size_mod

-- Reading and writing the word at a byte offset.
unfoldable pub load_word : Root → ℕ → Result ℕ
load_word root offset = or_fail (get_elem? root.words (offset / 8)) out_of_bounds

unfoldable pub store_word : Root → ℕ → ℕ → Result Root
store_word root offset value =
    if ltb (offset / 8) (length root.words)
    then ok (record root { words = set root.words (offset / 8) value })
    else err out_of_bounds

-- The words that a block of memory holds from word `i` on.
unfoldable pub words_of : (ℕ → ℕ) → (i n : ℕ) → List ℕ
words_of memory i zero = []
words_of memory i (suc n) = memory i ∷ words_of memory (suc i) n

-- The number of bytes that `allocateExpressionTree` asks for.
unfoldable pub tree_size : (argument_count expression_count : ℕ) → ℕ
tree_size argument_count expression_count =
    (sizeof_root
      + sizeof_value * argument_count
      + sizeof_type * argument_count
      + sizeof_expression * expression_count)
    % size_mod

-- `address` and `memory` are what the allocation function returns: where the block lies, and the
-- words that it holds behind the header.
unfoldable pub allocate_expression_tree :
    (argument_count expression_count address : ℕ) (memory : ℕ → ℕ) → Root
allocate_expression_tree argument_count expression_count address memory = record {
  argument_count = argument_count;
  expression_count = expression_count;
  original_address = address;
  string_arguments_fill_index = 0;
  words = words_of memory 0 (2 * argument_count + 3 * expression_count);
  string_buffer = [];
}

-- `getArgumentTypes(root)[i]` and `getExpressionArguments(root)[i]`.
unfoldable pub type_at : Root → ℕ → ℕ
unfolding get_argument_types element
type_at root i = element (get_argument_types root) sizeof_type i

unfoldable pub value_at : Root → ℕ → ℕ
unfolding get_expression_arguments element
value_at root i = element (get_expression_arguments root) sizeof_value i

-- `makeLongArgument` and its siblings set the type, and return where the value is to be stored.
unfoldable pub make_argument : ArgumentType → Root → ℕ → Result (Root × ℕ)
make_argument type root i = do
  root' ← store_word root (type_at root i) (type_code type)
  ok (root', value_at root' i)

unfoldable pub make_long_argument : Root → ℕ → Result (Root × ℕ)
unfolding make_argument
make_long_argument = make_argument ArgumentType.long_type

unfoldable pub make_symbol_argument : Root → ℕ → Result (Root × ℕ)
unfolding make_argument
make_symbol_argument = make_argument ArgumentType.symbol_type

unfoldable pub make_expression_argument : Root → ℕ → Result (Root × ℕ)
unfolding make_argument
make_expression_argument = make_argument ArgumentType.expression_type

unfoldable pub make_string_argument : Root → ℕ → Result (Root × ℕ)
unfolding make_argument
make_string_argument = make_argument ArgumentType.string_type

unfoldable pub make_double_argument : Root → ℕ → Result (Root × ℕ)
unfolding make_argument
make_double_argument = make_argument ArgumentType.double_type

-- The loop of the fallback, over the `n` cells from `i` on.
unfoldable pub propagate_types : Root → (type i n : ℕ) → Result Root
propagate_types root type i zero = ok root
propagate_types root type i (suc n) = do
  root' ← store_word root (type_at root i) type
  propagate_types root' type (suc i) n

unfoldable pub set_rle_argument_flag : Root → (i size : ℕ) → Result Root
set_rle_argument_flag root i size = do
  type ← load_word root (type_at root i)
  root' ← store_word root (type_at root i) (bit_or type rle_bit)
  store_word root' (type_at root' (i + 1)) size

-- The parameter `size` is a `uint32_t`.
unfoldable pub set_rle_argument_flag_or_propagate_types : Root → (i size : ℕ) → Result Root
set_rle_argument_flag_or_propagate_types root i size =
    let n : ℕ = size % 2 ^ 32 in
    if ltb n rle_minimum_size
    then (do type ← load_word root (type_at root i); propagate_types root type (i + 1) (n - 1))
    else set_rle_argument_flag root i n

-- `makeLongArgumentsRun` and its siblings.
unfoldable pub make_arguments_run : ArgumentType → Root → (i size : ℕ) → Result (Root × ℕ)
make_arguments_run type root i size = do
  (root', value) ← make_argument type root i
  root'' ← set_rle_argument_flag_or_propagate_types root' i size
  ok (root'', value)

-- The three members of an expression.
unfoldable pub make_expression : Root → ℕ → ℕ
unfolding get_expression_subexpressions element
make_expression root i = element (get_expression_subexpressions root) sizeof_expression i

-- A member stands `member` words behind the start of its expression.
abbrev pub symbol_name_member : ℕ
symbol_name_member = 0

abbrev pub start_child_member : ℕ
start_child_member = 1

abbrev pub end_child_member : ℕ
end_child_member = 2

unfoldable pub member_at : Root → (i member : ℕ) → ℕ
unfolding make_expression element
member_at root i member = element (make_expression root i) 8 member

unfoldable pub load_member : Root → (i member : ℕ) → Result ℕ
load_member root i member = load_word root (member_at root i member)

unfoldable pub store_member : Root → (i member value : ℕ) → Result Root
store_member root i member value = store_word root (member_at root i member) value

-- `*makeExpression(root, i) = expression`.
unfoldable pub store_expression : Root → ℕ → Expression → Result Root
store_expression root i e = do
  root' ← store_member root i symbol_name_member e.symbol_name_offset
  root'' ← store_member root' i start_child_member e.start_child_offset
  store_member root'' i end_child_member e.end_child_offset

-- The bytes of a C string, up to its terminator.
unfoldable pub c_str : Bytes → Bytes
c_str [] = []
c_str (x ∷ xs) = let rest = c_str xs in if x == 0 then [] else x ∷ rest

-- `storeString`: the memory is reallocated so that the string buffer reaches just behind the new
-- string, keeps what it held, and takes the string with its terminator at the fill index.
unfoldable pub store_string : Root → Bytes → Root × ℕ
store_string root input = (
  record root {
    string_buffer =
        take root.string_arguments_fill_index root.string_buffer ++ (c_str input ++ 0 ∷ []);
    string_arguments_fill_index = root.string_arguments_fill_index + (length (c_str input) + 1);
  },
  root.string_arguments_fill_index,
)

-- The number of bytes to which `storeString` has the memory reallocated.
unfoldable pub reallocation_size : Root → Bytes → ℕ
unfolding get_string_buffer
reallocation_size root input =
    (sizeof_root
      + get_string_buffer root
      + root.string_arguments_fill_index
      + length (c_str input)
      + 1)
    % size_mod

-- `viewString`, read as a C string.
unfoldable pub view_string : Root → ℕ → Bytes
view_string root offset = c_str (drop offset root.string_buffer)
