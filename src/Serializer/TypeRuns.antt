-- ===== src/Serializer/TypeRuns.antt =====
-- Source/WisentSerializer.cpp: `applyTypeRLE` and `resetTypeRLE` keep the type cells of the
-- innermost expression as the format describes them, with the current run pending.
use wisent.Prelude.{
  ℕ, zero, suc, ◌+◌, ◌-◌, ◌≤◌, ◌<◌, ◌^◌, ◌≡◌, refl, ◌∙◌, ap, inl, inr, Bool, true, false, some,
  List, [], ◌∷◌, ◌++◌, arith, ok, or_fail, out_of_bounds, replicate, length-replicate, leb, ◌==◌,
  Bool-cases, ==_iff,
}
use wisent.Helpers.{Root, set_rle_argument_flag_or_propagate_types, type_at, load_word}
use wisent.Helpers.Access.{IsSized, type_of, load-type}
use wisent.Helpers.Cells.{CellsAt, CellsAt-append, CellsAt-last, replicate-snoc}
use wisent.Helpers.Frame.{Frame, Nothing, Frame-refl}
use wisent.Helpers.Runs.{Between, run_cells, length-run_cells, run_cells-short, set_rle-run_cells}
use wisent.Serializer.JsonToWisent.{Encoder, sub64, reset_type_rle, apply_type_rle}
use wisent.Serializer.Tree.{leaf_cells, leaf_count}

pub sub64-sub : (a b : ℕ) → b ≤ a → a < 2 ^ 64 → sub64 a b ≡ a - b
unfolding sub64
sub64-sub a b h k = omega arith

-- The root with the cells `cells` from `i` on, changed from `root` in the types of `n` arguments only.
abbrev pub Retyped : (root root' : Root) (i n : ℕ) (cells : List ℕ) → Type 0
Retyped root root' i n cells =
    CellsAt root' i cells × ((lo hi : ℕ) → Frame root root' Nothing (Between i n) lo hi)

reset_long :
    (s : Encoder) (i e n : ℕ) (root' : Root)
    → s.num_repeated_argument_types ≡ n
    → leb 5 n ≡ true
    → sub64 e n ≡ i
    → set_rle_argument_flag_or_propagate_types s.root i n ≡ ok root'
    → reset_type_rle s e ≡ ok (record s { root = root'; num_repeated_argument_types = 0 })
unfolding reset_type_rle
reset_long s i e n root' count long start flag = ground arith

reset_short :
    (s : Encoder) (e n : ℕ)
    → s.num_repeated_argument_types ≡ n
    → leb 5 n ≡ false
    → reset_type_rle s e ≡ ok (record s { num_repeated_argument_types = 0 })
unfolding reset_type_rle
reset_short s e n count short = ground arith

apply_off : (s : Encoder) (p : ℕ) → s.disable_rle ≡ true → apply_type_rle s p ≡ ok s
unfolding apply_type_rle
apply_off s p off = ground arith

apply_first :
    (s : Encoder) (p : ℕ)
    → s.disable_rle ≡ false
    → s.num_repeated_argument_types ≡ 0
    → apply_type_rle s p ≡ ok (record s { num_repeated_argument_types = 1 })
unfolding apply_type_rle
apply_first s p on count = ground arith

module _ (s : Encoder) (p q c k m : ℕ) (on : s.disable_rle ≡ false)
    (count : s.num_repeated_argument_types ≡ suc m) (before : sub64 p 1 ≡ q)
    (load : load_word s.root (type_at s.root q) ≡ ok c)
    (load' : load_word s.root (type_at s.root p) ≡ ok k) where
  apply_same :
      (c == k) ≡ true
      → apply_type_rle s p ≡ ok (record s { num_repeated_argument_types = suc (suc m) })
  unfolding apply_type_rle
  apply_same same = ground arith

  apply_other :
      (root' : Root)
      → (c == k) ≡ false
      → reset_type_rle s p ≡ ok (record s { root = root'; num_repeated_argument_types = 0 })
      → apply_type_rle s p ≡ ok (record s { root = root'; num_repeated_argument_types = 1 })
  unfolding apply_type_rle
  apply_other root' other reset = ground arith

module _ (s : Encoder) (is : IsSized s.root) (small : s.root.argument_count < 2 ^ 32) where
  -- A pending run is finished where it ends, and none is pending any more.
  pub reset_type_rle-run_cells :
      (i e c n : ℕ)
      → s.num_repeated_argument_types ≡ n
      → i + n ≡ e
      → e ≤ s.root.argument_count
      → CellsAt s.root i (replicate n c)
      → (root' : Root) × (reset_type_rle s e
          ≡ ok (record s { root = root'; num_repeated_argument_types = 0 }))
        × Retyped s.root root' i n (run_cells c n)
  reset_type_rle-run_cells i e c n count ends inside cells = elim (Bool-cases (leb 5 n)) [
    | inl long ↦
        let start =
          sub64-sub e n (omega arith) (omega arith) ∙ (let h : e - n ≡ i = omega arith in h) in
        let (root', flag, run, frame) =
          set_rle-run_cells i c n is (omega arith) (ground arith) (omega arith) cells in
        (root', reset_long s i e n root' count long start flag, (run, frame))
    | inr short ↦ (
      s.root,
      reset_short s e n count short,
      (
        rw (run_cells-short c n (ground arith)) cells,
        λ lo hi. Frame-refl s.root Nothing (Between i n) lo hi,
      ),
    )
  ]

  -- The step of `applyTypeRLE` that finds a run pending.
  continue_or_reset :
      (i p c k m : ℕ)
      → s.disable_rle ≡ false
      → s.num_repeated_argument_types ≡ suc m
      → i + suc m ≡ p
      → p < s.root.argument_count
      → CellsAt s.root i (replicate (suc m) c)
      → type_of s.root p ≡ some k
      → (root' : Root) × (apply_type_rle s p
          ≡ ok (record s {
            root = root';
            num_repeated_argument_types = leaf_count false c (suc m) k;
          }))
        × Retyped s.root root' i
            (suc m)
            (leaf_cells false c (suc m) k ++ replicate (leaf_count false c (suc m) k) k)
  unfolding leaf_cells leaf_count
  continue_or_reset i p c k m on count ends inside cells at =
      let before =
        sub64-sub p 1 (omega arith) (omega arith) ∙ (let h : p - 1 ≡ i + m = omega arith in h) in
      let last = CellsAt-last s.root i m c cells in
      let load = load-type is (i + m) (omega arith) ∙ ap (λ t. or_fail t out_of_bounds) last in
      let load' = load-type is p inside ∙ ap (λ t. or_fail t out_of_bounds) at in
      elim (Bool-cases (c == k)) [
        | inl same ↦
            let e : c ≡ k = (==_iff c k).0 same in
            rw same (
              s.root,
              apply_same s p (i + m) c k m on count before load load' same,
              (
                ground (
                  arith,
                  CellsAt-append s.root i p (replicate (suc m) c) (c ∷ []) cells,
                  replicate-snoc (suc m) c,
                  length-replicate (suc m) c,
                ),
                λ lo hi. Frame-refl s.root Nothing (Between i (suc m)) lo hi,
              ),
            )
        | inr other ↦
            let (root', reset, (run, frame)) =
              reset_type_rle-run_cells i p c (suc m) count ends (omega arith) cells in
            rw other (
              root',
              apply_other s p (i + m) c k m on count before load load' root' other reset,
              (
                CellsAt-append root' i p (run_cells c (suc m)) (k ∷ []) run
                    (omega (arith, length-run_cells c (suc m)))
                    ((frame 0 0).types p inside (λ b. omega arith) ∙ at, tt),
                frame,
              ),
            )
      ]

  module _ (i p c n k : ℕ) (count : s.num_repeated_argument_types ≡ n) (ends : i + n ≡ p)
      (inside : p < s.root.argument_count) (cells : CellsAt s.root i (replicate n c))
      (at : type_of s.root p ≡ some k) where
    abbrev Applied : Bool → Type 0
    Applied d =
        (root' : Root) × (apply_type_rle s p
          ≡ ok (record s { root = root'; num_repeated_argument_types = leaf_count d c n k }))
        × Retyped s.root root' i n (leaf_cells d c n k ++ replicate (leaf_count d c n k) k)

    unchanged :
        (n' : ℕ) (cells' : List ℕ)
        → apply_type_rle s p ≡ ok (record s { num_repeated_argument_types = n' })
        → CellsAt s.root i cells'
        → (root' : Root) × (apply_type_rle s p
            ≡ ok (record s { root = root'; num_repeated_argument_types = n' }))
          × Retyped s.root root' i n cells'
    unchanged n' cells' e at' =
        (s.root, e, (at', λ lo hi. Frame-refl s.root Nothing (Between i n) lo hi))

  apply_cases :
      (d : Bool) (i p c n k : ℕ)
      → s.disable_rle ≡ d
      → (count : s.num_repeated_argument_types ≡ n) → (d ≡ true → n ≡ 0)
      → (ends : i + n ≡ p) → (inside : p < s.root.argument_count)
      → (cells : CellsAt s.root i (replicate n c)) → (at : type_of s.root p ≡ some k)
      → Applied i p c n k count ends inside cells at d
  unfolding leaf_cells leaf_count
  apply_cases true i p c n k d count off ends inside cells at =
      let e : i ≡ p = omega (arith, off refl) in
      unchanged i p c n k count ends inside cells at 0 (k ∷ [])
        (apply_off s p d ∙ ground (arith, off refl)) (rw e (at, tt))
  apply_cases false i p c zero k d count off ends inside cells at =
      let e : i ≡ p = omega arith in
      unchanged i p c zero k count ends inside cells at 1 (k ∷ []) (apply_first s p d count)
        (rw e (at, tt))
  apply_cases false i p c (suc m) k d count off ends inside cells at =
      continue_or_reset i p c k m d count ends inside cells at

  -- With a new argument at `p`, of type `k`, behind a run of `n` arguments of type `c`.
  pub apply_type_rle-leaf_cells :
      (i p c n k : ℕ)
      → s.num_repeated_argument_types ≡ n
      → (s.disable_rle ≡ true → n ≡ 0)
      → i + n ≡ p
      → p < s.root.argument_count
      → CellsAt s.root i (replicate n c)
      → type_of s.root p ≡ some k
      → (root' : Root) × (apply_type_rle s p
          ≡ ok (record s {
            root = root';
            num_repeated_argument_types = leaf_count s.disable_rle c n k;
          }))
        × Retyped s.root root' i n
            (leaf_cells s.disable_rle c n k ++ replicate (leaf_count s.disable_rle c n k) k)
  apply_type_rle-leaf_cells i p c n k count off ends inside cells at =
      apply_cases s.disable_rle i p c n k refl count off ends inside cells at
