-- ===== src/Reader.antt =====
-- Benchmarks/WisentBenchmarks.cpp: the iterator over the arguments of one type, in `LazyExpression`.
use wisent.Prelude.{
  ℕ, zero, suc, ◌+◌, ◌-◌, ◌%◌, ◌^◌, bit_and, Bool, List, [], ◌∷◌, Result, ok, ◌>>=◌, if◌then◌else◌,
  ◌==◌, ltb,
}
use wisent.Helpers.{Root, rle_bit, type_at, load_word}
pub mod Cells
pub mod Types
pub mod Columns
pub mod Lookup

pub record Iterator : Type 0 where
  pub index : ℕ
  pub valid_index_end : ℕ

-- `~WisentArgumentType_RLE_BIT`.
abbrev pub type_mask : ℕ
type_mask = 2 ^ 64 - 1 - rle_bit

module _ (root : Root) (expected : ℕ) where
  -- `expected` is `expectedArgumentType()`.
  unfoldable pub update_valid_index_end : Iterator → Result Iterator
  update_valid_index_end it = if ltb it.index it.valid_index_end then ok it else (do
    type ← load_word root (type_at root it.index)
    if bit_and type rle_bit == 0
        then ok (if type == expected then record it { valid_index_end = suc it.index } else it)
        else if bit_and type type_mask == expected
        then (do
          n ← load_word root (type_at root (it.index + 1))
          ok (record it { valid_index_end = it.index + n % 2 ^ 32 }))
        else ok it)

  -- The constructor, as `begin` calls it.
  unfoldable pub make_iterator : (index : ℕ) → Result Iterator
  unfolding update_valid_index_end
  make_iterator index = update_valid_index_end (record { index = index; valid_index_end = index })

  -- `operator++`.
  unfoldable pub increment : Iterator → Result Iterator
  unfolding update_valid_index_end
  increment it = update_valid_index_end (record it { index = suc it.index })

  abbrev pub is_valid : Iterator → Bool
  is_valid it = ltb it.index it.valid_index_end

  -- What `isValid` returns at `n` positions, one after the other.
  unfoldable pub valid_from : Iterator → (n : ℕ) → Result (List Bool)
  unfolding increment
  valid_from it zero = ok []
  valid_from it (suc zero) = ok (is_valid it ∷ [])
  valid_from it (suc (suc n)) = do
    it' ← increment it
    rest ← valid_from it' (suc n)
    ok (is_valid it ∷ rest)
