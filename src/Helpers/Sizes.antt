-- ===== src/Helpers/Sizes.antt =====
-- Source/WisentHelpers.h: the memory that the block is given, and what it takes.
use wisent.Prelude.{
  ℕ, zero, suc, ◌+◌, ◌*◌, ◌^◌, ◌<◌, ◌≡◌, refl, ◌∙◌, sym, ap, List, [], ◌∷◌, ◌++◌, Bytes, arith,
  lengths, length, take,
}
use wisent.Helpers.Defs.{
  Root, c_str, words_of, tree_size, allocate_expression_tree, get_string_buffer, store_string,
  reallocation_size,
}
use wisent.Helpers.Text.{IsFilled, take-length}

-- The strings are stored one after another; with the number of bytes that the memory has after the
-- last of the reallocations.
unfoldable pub store_strings : Root → (bytes : ℕ) → List Bytes → Root × ℕ
store_strings root bytes [] = (root, bytes)
store_strings root bytes (s ∷ ss) =
    store_strings (store_string root s).0 (reallocation_size root s) ss

-- The header, the words and the strings.
abbrev pub block_size : Root → ℕ
block_size root = 32 + 8 * length root.words + length root.string_buffer

-- As many words as the counts ask for, and no bytes behind the last string.
record IsExact (root : Root) : Type 0 where
  counted : length root.words ≡ 2 * root.argument_count + 3 * root.expression_count
  filled : IsFilled root

pub length-words_of : (memory : ℕ → ℕ) (i n : ℕ) → length (words_of memory i n) ≡ n
unfolding words_of
length-words_of memory i zero = refl
length-words_of memory i (suc n) = ap suc (length-words_of memory (suc i) n)

-- The size of the string buffer grows by the string and its terminator.
stored_size :
    (root : Root) (input : Bytes)
    → IsExact root
    → length (store_string root input).0.string_buffer
      ≡ root.string_arguments_fill_index + (length (c_str input) + 1)
unfolding store_string
stored_size root input exact =
    ap (λ n. length (take n root.string_buffer ++ (c_str input ++ 0 ∷ []))) exact.filled
    ∙ (ap (λ l. length (l ++ (c_str input ++ 0 ∷ []))) (take-length root.string_buffer)
        ∙ grind (lengths, exact.filled))

stored-IsExact : (root : Root) (input : Bytes) → IsExact root → IsExact (store_string root input).0
unfolding store_string
stored-IsExact root input exact = record {
  counted = exact.counted;
  filled = sym (stored_size root input exact);
}

reallocated :
    (root : Root) (input : Bytes)
    → IsExact root
    → block_size (store_string root input).0 < 2 ^ 64
    → reallocation_size root input ≡ block_size (store_string root input).0
unfolding store_string reallocation_size get_string_buffer
reallocated root input exact fits = omega (arith, stored_size root input exact, exact.counted)

-- What the strings take, each with its terminator.
abbrev pub text_size : List Bytes → ℕ
text_size [] = 0
text_size (s ∷ ss) = length (c_str s) + 1 + text_size ss

grows :
    (ss : List Bytes) (root : Root) (bytes : ℕ)
    → IsExact root
    → block_size (store_strings root bytes ss).0 ≡ block_size root + text_size ss
unfolding store_strings store_string
grows [] root bytes exact = omega arith
grows (s ∷ ss) root bytes exact = omega (
  arith,
  grows ss (store_string root s).0 (reallocation_size root s) (stored-IsExact root s exact),
  stored_size root s exact,
  exact.filled,
)

holds :
    (ss : List Bytes) (root : Root) (bytes : ℕ)
    → IsExact root
    → bytes ≡ block_size root
    → block_size root + text_size ss < 2 ^ 64
    → (store_strings root bytes ss).1 ≡ block_size root + text_size ss
unfolding store_strings
holds [] root bytes exact same fits = omega (arith, same)
holds (s ∷ ss) root bytes exact same fits =
    let next = stored_size root s exact in
    let more : block_size (store_string root s).0 + text_size ss
        ≡ block_size root + text_size (s ∷ ss) =
      unfold store_string in omega (arith, next, exact.filled) in
    holds ss (store_string root s).0 (reallocation_size root s) (stored-IsExact root s exact)
      (reallocated root s exact (omega (arith, more, fits))) (omega (arith, more, fits))
    ∙ more

-- A block that is allocated, and then takes the strings.
abbrev pub filled_block :
    (argument_count expression_count address : ℕ) (memory : ℕ → ℕ) → List Bytes → Root × ℕ
filled_block argument_count expression_count address memory =
    store_strings (allocate_expression_tree argument_count expression_count address memory)
      (tree_size argument_count expression_count)

-- A block that is allocated, and then takes strings one after another, whose parts are together less
-- than 2^64 bytes: the memory that was asked for last has the size of the header, the arguments with
-- their types, the expressions and the strings with their terminators, and that is what the block
-- takes.
pub allocate-store_strings :
    (argument_count expression_count address : ℕ) (memory : ℕ → ℕ) (ss : List Bytes)
    → 32 + 16 * argument_count + 24 * expression_count + text_size ss < 2 ^ 64
    → ((filled_block argument_count expression_count address memory ss).1
        ≡ 32 + 16 * argument_count + 24 * expression_count + text_size ss)
      × (block_size (filled_block argument_count expression_count address memory ss).0
          ≡ (filled_block argument_count expression_count address memory ss).1)
unfolding allocate_expression_tree tree_size
allocate-store_strings a e address memory ss fits =
    let root = allocate_expression_tree a e address memory in
    let words = length-words_of memory 0 (2 * a + 3 * e) in
    let exact : IsExact root = record { counted = words; filled = refl } in
    let size : block_size root ≡ 32 + 16 * a + 24 * e = omega (arith, words) in
    let last =
      holds ss root (tree_size a e) exact (omega (arith, size, fits)) (omega (arith, size, fits)) in
    (last ∙ omega (arith, size), grows ss root (tree_size a e) exact ∙ sym last)
