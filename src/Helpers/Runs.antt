-- ===== src/Helpers/Runs.antt =====
-- Source/WisentHelpers.h: `setRLEArgumentFlagOrPropagateTypes`, the cells of a run of arguments.
use wisent.Prelude.{
  ℕ, zero, suc, ◌+◌, ◌-◌, ◌%◌, ◌^◌, ◌≤◌, ◌<◌, ◌≡◌, ◌∙◌, ap, ◌==◌, some, List, ◌∷◌, arith, bit_or,
  ok, length, replicate, length-replicate, ltb, lt→ltb, le→ltb, if◌then◌else◌,
}
use wisent.Helpers.Defs.{
  Root, rle_bit, rle_minimum_size, set_rle_argument_flag, set_rle_argument_flag_or_propagate_types,
}
use wisent.Helpers.Access.{
  IsSized, put, put-IsSized, type_index, type_of, type_of-put, store-type, load-type,
}
use wisent.Helpers.Cells.{CellsAt, CellsAt-frame}
use wisent.Helpers.Frame.{Frame, Nothing, Frame-trans, put_type-Frame}

-- The cells of a finished run of `n` arguments with type code `c`.
unfoldable pub run_cells : (c n : ℕ) → List ℕ
run_cells c n =
    if ltb n rle_minimum_size then replicate n c else bit_or c rle_bit ∷ n ∷ replicate (n - 2) c

pub length-run_cells : (c n : ℕ) → length (run_cells c n) ≡ n
unfolding run_cells
length-run_cells c n = ground (arith, length-replicate n c, length-replicate (n - 2) c)

pub run_cells-short : (c n : ℕ) → n < 5 → run_cells c n ≡ replicate n c
unfolding run_cells
run_cells-short c n h = rw (lt→ltb n 5 h)

replicate_two : (n c : ℕ) → 2 ≤ n → replicate n c ≡ c ∷ c ∷ replicate (n - 2) c
replicate_two zero c h = absurd (omega arith)
replicate_two (suc zero) c h = absurd (omega arith)
replicate_two (suc (suc n)) c h =
    ap (λ (k : ℕ). c ∷ c ∷ replicate k c) (let e : n ≡ suc (suc n) - 2 = omega arith in e)

-- The positions from `i` on, `n` of them.
abbrev pub Between : (i n : ℕ) → ℕ → Type 0
Between i n j = (i ≤ j) × (j < i + n)

abbrev pub flagged : Root → (i c n : ℕ) → Root
flagged root i c n =
    put (put root (type_index root i) (bit_or c rle_bit)) (type_index root (i + 1)) n

module _ {root : Root} (is : IsSized root) (i c n : ℕ) (inside : i + n ≤ root.argument_count)
    (long : 5 ≤ n) where
  set_rle_argument_flag-flagged :
      type_of root i ≡ some c → set_rle_argument_flag root i n ≡ ok (flagged root i c n)
  unfolding set_rle_argument_flag
  set_rle_argument_flag-flagged e =
      rw (load-type is i (omega arith), e, store-type is i (bit_or c rle_bit) (omega arith))
        (store-type (put-IsSized is (type_index root i) (bit_or c rle_bit)) (i + 1) n (omega arith))

  flagged-Frame : (lo hi : ℕ) → Frame root (flagged root i c n) Nothing (Between i n) lo hi
  flagged-Frame lo hi =
      Frame-trans {lo1 = lo} {hi1 = hi} {lo2 = lo} {hi2 = hi}
        (put_type-Frame is i (bit_or c rle_bit) lo hi (omega arith))
        (put_type-Frame (put-IsSized is (type_index root i) (bit_or c rle_bit)) (i + 1) n lo hi
          (omega arith))
        (λ j v. v, λ j v. v) (λ j e. omega arith, λ j e. omega arith) (omega arith)

  type_of-flagged :
      (j : ℕ)
      → j < root.argument_count
      → type_of (flagged root i c n) j ≡ (
          if (i + 1) == j
          then some n
          else if i == j
          then some (bit_or c rle_bit)
          else type_of root j)
  type_of-flagged j h =
      type_of-put (put-IsSized is (type_index root i) (bit_or c rle_bit)) (i + 1) j n (omega arith)
        h
      ∙ ap (λ t. if (i + 1) == j then some n else t)
          (type_of-put is i j (bit_or c rle_bit) (omega arith) h)

  flagged-rest :
      (k m : ℕ)
      → i + 2 ≤ k
      → k + m ≤ i + n
      → CellsAt root k (replicate m c)
      → CellsAt (flagged root i c n) k (replicate m c)
  flagged-rest k m lo hi =
      CellsAt-frame root (flagged root i c n) k (replicate m c)
        λ j h h'. ground (arith, type_of-flagged j, length-replicate m c)

  flagged-run_cells :
      CellsAt root i (replicate n c) → CellsAt (flagged root i c n) i (run_cells c n)
  unfolding run_cells
  flagged-run_cells cells =
      let (at, (next, rest)) = rw (replicate_two n c (omega arith)) at cells in
      rw (le→ltb n 5 long) (
        ground (arith, type_of-flagged i),
        (
          ground (arith, type_of-flagged (suc i)),
          flagged-rest (suc (suc i)) (n - 2) (omega arith) (omega arith) rest,
        ),
      )

-- A run of at least five and less than 2^32 arguments of one type, inside the buffer, is flagged: its
-- first cell gets the flag, its second the length, and no cell outside the run is written.
pub set_rle-run_cells :
    {root : Root} (i c n : ℕ)
    → IsSized root
    → i + n ≤ root.argument_count
    → 5 ≤ n
    → n < 2 ^ 32
    → CellsAt root i (replicate n c)
    → (root' : Root) × (set_rle_argument_flag_or_propagate_types root i n ≡ ok root')
      × CellsAt root' i (run_cells c n)
      × ((lo hi : ℕ) → Frame root root' Nothing (Between i n) lo hi)
unfolding set_rle_argument_flag_or_propagate_types
set_rle-run_cells {root} i c n is inside long small cells = (
  flagged root i c n,
  rw (n_mod, le→ltb n 5 long) (set_rle_argument_flag-flagged is i c n inside long first),
  flagged-run_cells is i c n inside long cells,
  flagged-Frame is i c n inside long,
)
  where
    n_mod : n % 2 ^ 32 ≡ n
    n_mod = omega arith

    first : type_of root i ≡ some c
    first = (rw (replicate_two n c (omega arith)) at cells).0
