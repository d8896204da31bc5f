-- ===== src/Reader/Cells.antt =====
-- The iterator of Benchmarks/WisentBenchmarks.cpp, over a list of type cells.
use wisent.Prelude.{
  ℕ, zero, suc, ◌-◌, ◌%◌, ◌^◌, ◌≤◌, ◌<◌, ◌≡◌, refl, ◌∙◌, ap, bit_and, bit_or, Bool, true, false,
  not, ◌&&◌, ◌||◌, List, [], ◌∷◌, ◌++◌, Result, ok, err, out_of_bounds, ◌>>=◌, if◌then◌else◌, ◌==◌,
  ==_iff, lt→ltb, ltb, length, replicate, length-replicate, arith, Bool-cases, inl, inr,
}
use wisent.Helpers.{rle_bit}
use wisent.Helpers.Runs.{run_cells}
use wisent.Reader.{type_mask}

-- The cell behind the current one.
abbrev pub next_cell : List ℕ → Result ℕ
next_cell [] = err out_of_bounds
next_cell (x ∷ xs) = ok x

module _ (expected : ℕ) where
  -- How many positions are valid from a cell on, `k` of them known from before.
  unfoldable pub refresh : (k x : ℕ) → List ℕ → Result ℕ
  refresh (suc k) x xs = ok (suc k)
  refresh zero x xs =
      if bit_and x rle_bit == 0
      then ok (if x == expected then 1 else 0)
      else if bit_and x type_mask == expected
      then (do n ← next_cell xs; ok (n % 2 ^ 32))
      else ok 0

  -- Which positions are valid.
  unfoldable pub valid_cells : (k : ℕ) → List ℕ → Result (List Bool)
  unfolding refresh
  valid_cells k [] = ok []
  valid_cells k (x ∷ xs) = do
    k' ← refresh k x xs
    rest ← valid_cells (k' - 1) xs
    ok (ltb 0 k' ∷ rest)

-- A test of all numbers below a bound.
all_below : (ℕ → Bool) → ℕ → Bool
all_below f zero = true
all_below f (suc n) = f n && all_below f n

both_first : (a b : Bool) → (a && b) ≡ true → a ≡ true
both_first true b h = refl
both_first false b h = cc

both_second : (a b : Bool) → (a && b) ≡ true → b ≡ true
both_second true b h = h
both_second false b h = cc

below_all : (f : ℕ → Bool) (n k : ℕ) → all_below f n ≡ true → k < n → f k ≡ true
unfolding all_below
below_all f zero k h l = absurd (omega arith)
below_all f (suc n) k h l = elim (Bool-cases (k == n)) [
  | inl same ↦ let e = (==_iff k n).0 same in ap f e ∙ both_first (f n) (all_below f n) h
  | inr other ↦ below_all f n k (both_second (f n) (all_below f n) h) (ground (arith, other))
]

-- What the bits of a type code are, flagged or not.
abbrev code_bits : ℕ → Bool
code_bits c =
    (bit_and c rle_bit == 0)
    && (not (bit_and (bit_or c rle_bit) rle_bit == 0)
        && (bit_and (bit_or c rle_bit) type_mask == c))

code_bits-true : (c : ℕ) → c < 6 → code_bits c ≡ true
unfolding all_below
code_bits-true c h = below_all code_bits 6 c refl h

abbrev size_bits : ℕ → Bool
size_bits n = (bit_and n rle_bit == 0) || (bit_and n type_mask == 0)

-- The length of a run of up to 128 arguments is not taken for a flagged type.
size_bits-true : (n : ℕ) → n < 129 → size_bits n ≡ true
unfolding all_below
size_bits-true n h = below_all size_bits 129 n refl h

module _ (expected : ℕ) where
  -- A cell with a type that is not flagged.
  pub plain_cell :
      (x : ℕ) (xs : List ℕ) (flags : List Bool)
      → x < 6
      → valid_cells expected 0 xs ≡ ok flags
      → valid_cells expected 0 (x ∷ xs) ≡ ok ((x == expected) ∷ flags)
  unfolding valid_cells refresh
  plain_cell x xs flags small rest =
      let bits : (bit_and x rle_bit == 0) ≡ true =
        both_first (bit_and x rle_bit == 0) _ (code_bits-true x small) in
      rw bits (matched (x == expected))
    where
      matched :
          (b : Bool)
          → (valid_cells expected ((if b then 1 else 0) - 1) xs >>= λ rest.
              ok (ltb 0 (if b then 1 else 0) ∷ rest))
            ≡ ok (b ∷ flags)
      matched true = rw rest refl
      matched false = rw rest refl

  plain_cells :
      (n c : ℕ) (xs : List ℕ) (flags : List Bool)
      → c < 6
      → valid_cells expected 0 xs ≡ ok flags
      → valid_cells expected 0 (replicate n c ++ xs) ≡ ok (replicate n (c == expected) ++ flags)
  plain_cells zero c xs flags small rest = rest
  plain_cells (suc n) c xs flags small rest =
      plain_cell c (replicate n c ++ xs) (replicate n (c == expected) ++ flags) small
        (plain_cells n c xs flags small rest)

  -- Positions that are known to be valid.
  known_cells :
      (ys xs : List ℕ) (flags : List Bool)
      → valid_cells expected 0 xs ≡ ok flags
      → valid_cells expected (length ys) (ys ++ xs) ≡ ok (replicate (length ys) true ++ flags)
  unfolding valid_cells refresh
  known_cells [] xs flags rest = rest
  known_cells (y ∷ ys) xs flags rest =
      let one : suc (length ys) - 1 ≡ length ys = omega arith in
      rw (one, known_cells ys xs flags rest, lt→ltb 0 (suc (length ys)) (omega arith)) refl

  -- The cell with the length of a run of another type.
  size_cell :
      (n : ℕ) (xs : List ℕ) (flags : List Bool)
      → 5 ≤ n
      → n < 129
      → 1 ≤ expected
      → expected < 5
      → valid_cells expected 0 xs ≡ ok flags
      → valid_cells expected 0 (n ∷ xs) ≡ ok (false ∷ flags)
  unfolding valid_cells refresh
  size_cell n xs flags long few some_type type rest = elim (Bool-cases (bit_and n rle_bit == 0)) [
    | inl clear ↦ let other : (n == expected) ≡ false = ground arith in rw (clear, other, rest) refl
    | inr flag ↦
        let masked : (bit_and n type_mask == 0) ≡ true =
          either_second (bit_and n rle_bit == 0) _ flag (size_bits-true n few) in
        let other : (bit_and n type_mask == expected) ≡ false = ground (arith, masked) in
        rw (flag, other, rest) refl
  ]
    where
      either_second : (a b : Bool) → a ≡ false → (a || b) ≡ true → b ≡ true
      either_second true b e h = cc
      either_second false b e h = h

  flagged_valid :
      (c m : ℕ) (xs : List ℕ) (flags : List Bool)
      → c < 6
      → suc (suc m) < 129
      → (c == expected) ≡ true
      → valid_cells expected 0 xs ≡ ok flags
      → valid_cells expected 0 (bit_or c rle_bit ∷ suc (suc m) ∷ (replicate m c ++ xs))
        ≡ ok (true ∷ true ∷ (replicate m true ++ flags))
  unfolding valid_cells refresh
  flagged_valid c m xs flags small few is rest =
      let bits = both_second (bit_and c rle_bit == 0) _ (code_bits-true c small) in
      let flag : (bit_and (bit_or c rle_bit) rle_bit == 0) ≡ false =
        not_true (bit_and (bit_or c rle_bit) rle_bit == 0) (both_first _ _ bits) in
      let masked : bit_and (bit_or c rle_bit) type_mask ≡ c =
        (==_iff (bit_and (bit_or c rle_bit) type_mask) c).0 (both_second _ _ bits) in
      let whole : suc (suc m) % 2 ^ 32 ≡ suc (suc m) = omega arith in
      let less : suc (suc m) - 1 ≡ length (suc (suc m) ∷ replicate m c) =
        omega (arith, length-replicate m c) in
      let known = known_cells (suc (suc m) ∷ replicate m c) xs flags rest in
      let size : length (replicate m c) ≡ m = length-replicate m c in
      rw (flag, masked, is, whole, less, known, lt→ltb 0 (suc (suc m)) (omega arith))
        (ap (λ k. ok (true ∷ true ∷ (replicate k true ++ flags))) size)
    where
      not_true : (b : Bool) → not b ≡ true → b ≡ false
      not_true true h = cc
      not_true false h = refl

  flagged_other :
      (c m : ℕ) (xs : List ℕ) (flags : List Bool)
      → c < 6
      → 5 ≤ suc (suc m)
      → suc (suc m) < 129
      → 1 ≤ expected
      → expected < 5
      → (c == expected) ≡ false
      → valid_cells expected 0 xs ≡ ok flags
      → valid_cells expected 0 (bit_or c rle_bit ∷ suc (suc m) ∷ (replicate m c ++ xs))
        ≡ ok (false ∷ false ∷ (replicate m false ++ flags))
  unfolding valid_cells refresh
  flagged_other c m xs flags small long few some_type type is rest =
      let bits = both_second (bit_and c rle_bit == 0) _ (code_bits-true c small) in
      let flag : (bit_and (bit_or c rle_bit) rle_bit == 0) ≡ false =
        not_true (bit_and (bit_or c rle_bit) rle_bit == 0) (both_first _ _ bits) in
      let masked : bit_and (bit_or c rle_bit) type_mask ≡ c =
        (==_iff (bit_and (bit_or c rle_bit) type_mask) c).0 (both_second _ _ bits) in
      let others =
        size_cell (suc (suc m)) (replicate m c ++ xs) (replicate m (c == expected) ++ flags) long
          few some_type type (plain_cells m c xs flags small rest) in
      rw (flag, masked, is) (rw others (ap (λ b. ok (false ∷ false ∷ (replicate m b ++ flags))) is))
    where
      not_true : (b : Bool) → not b ≡ true → b ≡ false
      not_true true h = cc
      not_true false h = refl

  -- A run of up to 128 arguments is valid throughout, or nowhere.
  pub run_cells-valid :
      (c n : ℕ) (xs : List ℕ) (flags : List Bool)
      → c < 6
      → n < 129
      → 1 ≤ expected
      → expected < 5
      → valid_cells expected 0 xs ≡ ok flags
      → valid_cells expected 0 (run_cells c n ++ xs) ≡ ok (replicate n (c == expected) ++ flags)
  unfolding run_cells
  run_cells-valid c n xs flags small few some_type type rest = elim (Bool-cases (ltb n 5)) [
    | inl short ↦ rw short (plain_cells n c xs flags small rest)
    | inr long ↦ rw long (runs n (ground (arith, long)) few)
  ]
    where
      runs :
          (n : ℕ)
          → 5 ≤ n
          → n < 129
          → valid_cells expected 0 ((bit_or c rle_bit ∷ n ∷ replicate (n - 2) c) ++ xs)
            ≡ ok (replicate n (c == expected) ++ flags)
      runs zero l f = absurd (omega arith)
      runs (suc zero) l f = absurd (omega arith)
      runs (suc (suc m)) l f =
          let e : suc (suc m) - 2 ≡ m = omega arith in
          rw e (elim (Bool-cases (c == expected)) [
            | inl is ↦ rw is (flagged_valid c m xs flags small f is rest)
            | inr other ↦ rw other (flagged_other c m xs flags small l f some_type type other rest)
          ])
