-- ===== src/Csv/Defs.antt =====
-- Source/CsvLoading.hpp: `openCsvFile` (a parameter) and `loadCsvData`.
use wisent.Prelude.{
  ℕ, zero, suc, ◌+◌, ◌-◌, ◌*◌, ◌^◌, Bool, true, false, ◌&&◌, ◌||◌, Option, none, some, List, [],
  ◌∷◌, Bytes, codes, Result, ok, err, invalid_argument, out_of_range, ◌>>=◌, ◌>>◌, guard,
  if◌then◌else◌, ◌==◌, ltb, leb, length, drop, bytes_eq,
}

-- `rapidcsv::Document`: `GetColumnNames`, `GetRowCount`, `GetColumnCount`, `GetColumnIdx`, and the
-- text of a cell, which `GetCell` hands to the conversion (it throws for a row that is too short).
pub record Document : Type 0 where
  pub column_names : List Bytes
  pub row_count : ℕ
  pub column_count : ℕ
  pub column_index : Bytes → ℕ
  pub cell : (column row : ℕ) → Result Bytes

-- The third-party and floating-point functions that the loader calls.
pub record Environment : Type 0 where
  pub open_csv_file : Bytes → Result Document
  pub stod : Bytes → Result (ℕ × ℕ)

unfoldable pub is_space : ℕ → Bool
is_space c = c == 32 || (leb 9 c && leb c 13)

unfoldable pub is_digit : ℕ → Bool
is_digit c = leb 48 c && leb c 57

-- The number of leading blanks.
unfoldable pub blanks : Bytes → ℕ
unfolding is_space
blanks [] = 0
blanks (c ∷ cs) = let rest = suc (blanks cs) in if is_space c then rest else 0

-- The value and the number of the leading digits.
unfoldable pub digits : (value count : ℕ) → Bytes → ℕ × ℕ
unfolding is_digit
digits value count [] = (value, count)
digits value count (c ∷ cs) =
    let rest = digits (value * 10 + (c - 48)) (suc count) cs in
    if is_digit c then rest else (value, count)

-- The magnitude as a two's complement word; a `long` reaches from -2^63 to 2^63 - 1.
unfoldable pub signed_word : (negative : Bool) → ℕ → Result ℕ
signed_word false n = if ltb n (2 ^ 63) then ok n else err out_of_range
signed_word true n =
    if n == 0 then ok 0 else if leb n (2 ^ 63) then ok (2 ^ 64 - n) else err out_of_range

-- `std::stol` behind the blanks and the sign, of `skipped` characters.
unfoldable pub stol_digits : (negative : Bool) (skipped : ℕ) → Bytes → Result (ℕ × ℕ)
unfolding digits signed_word
stol_digits negative skipped cs = do
  let (value, count) = digits 0 0 cs
  guard (ltb 0 count) invalid_argument
  word ← signed_word negative value
  ok (word, skipped + count)

unfoldable pub stol_sign : (skipped : ℕ) → Bytes → Result (ℕ × ℕ)
unfolding stol_digits
stol_sign skipped [] = stol_digits false skipped []
stol_sign skipped (c ∷ cs) =
    if c == b'-'
    then stol_digits true (suc skipped) cs
    else if c == b'+'
    then stol_digits false (suc skipped) cs
    else stol_digits false skipped (c ∷ cs)

-- `std::stol(str, &pos)`, in base ten: the word and `pos`.
unfoldable pub stol : Bytes → Result (ℕ × ℕ)
unfolding blanks stol_sign
stol str = stol_sign (blanks str) (drop (blanks str) str)

unfoldable pub is_empty : Bytes → Bool
is_empty [] = true
is_empty (c ∷ cs) = false

-- The conversion of a numeric cell: an empty cell is missing, and the whole text must be consumed.
unfoldable pub convert_number : (Bytes → Result (ℕ × ℕ)) → Bytes → Result (Option ℕ)
unfolding is_empty
convert_number parse str =
    if is_empty str
    then ok none
    else do (val, pos) ← parse str; guard (pos == length str) invalid_argument; ok (some val)

unfoldable pub convert_string : Bytes → Result (Option Bytes)
convert_string str = ok (some str)

module _ {V : Type 0} where
  -- The loop over the `n` rows from `row` on.
  unfoldable pub load_rows :
      Document → (Bytes → Result (Option V)) → (column row n : ℕ) → Result (List (Option V))
  load_rows doc convert column row zero = ok []
  load_rows doc convert column row (suc n) = do
    str ← doc.cell column row
    val ← convert str
    rest ← load_rows doc convert column (suc row) n
    ok (val ∷ rest)

  -- `catch (std::invalid_argument const&) { return {}; }`.
  unfoldable pub catch_invalid_argument : Result (List (Option V)) → Result (List (Option V))
  catch_invalid_argument (ok column) = ok column
  catch_invalid_argument (err invalid_argument) = ok []
  catch_invalid_argument (err e) = err e

  unfoldable pub load_csv_data :
      Document → (Bytes → Result (Option V)) → Bytes → Result (List (Option V))
  unfolding load_rows catch_invalid_argument
  load_csv_data doc convert column_name =
      catch_invalid_argument (load_rows doc convert (doc.column_index column_name) 0 doc.row_count)

-- `find_last_of`: the position of the last byte that is one of `chars`, if any.
unfoldable pub contains : Bytes → ℕ → Bool
contains [] c = false
contains (x ∷ xs) c = (x == c) || contains xs c

unfoldable pub find_last_of : (chars : Bytes) → Bytes → Option ℕ
unfolding contains
find_last_of chars [] = none
find_last_of chars (x ∷ xs) = elim (find_last_of chars xs) [
  | some i ↦ some (suc i)
  | none ↦ if contains chars x then some 0 else none
]

-- `extPos != npos && filename.substr(extPos) == ".csv"`.
unfoldable pub is_csv_name : Bytes → Bool
unfolding find_last_of bytes_eq
is_csv_name filename = elim (find_last_of (codes ".") filename) [
  | none ↦ false
  | some i ↦ bytes_eq (drop i filename) (codes ".csv")
]
