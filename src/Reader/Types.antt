-- ===== src/Reader/Types.antt =====
-- The iterator of Benchmarks/WisentBenchmarks.cpp, over a list of the cells that the encoder writes.
use wisent.Prelude.{
  ℕ, zero, suc, ◌+◌, ◌≤◌, ◌<◌, ◌≡◌, refl, ◌∙◌, sym, ap, Bool, true, false, List, [], ◌∷◌, ◌++◌, ok,
  if◌then◌else◌, ◌==◌, ==_iff, replicate, append_assoc, append-nil, arith,
}
use wisent.Helpers.Runs.{run_cells}
use wisent.Serializer.Tree.{
  Tree, Forest, nil, cons, long, double, string, symbol, expression, size, type_of_tree, leaf_cells,
  leaf_count, step_cells, step_count, rle_cells,
}
use wisent.Serializer.Stored.{length-step_cells, step_count-off}
use wisent.Reader.Cells.{valid_cells, plain_cell, run_cells-valid}

-- Which arguments have the type.
abbrev pub types_are : (expected : ℕ) → Forest → List Bool
types_are expected nil = []
types_are expected (cons t ts) = (type_of_tree t == expected) ∷ types_are expected ts

type_of_tree-small : (t : Tree) → type_of_tree t < 6
unfolding type_of_tree
type_of_tree-small (long w) = omega arith
type_of_tree-small (double w) = omega arith
type_of_tree-small (string s) = omega arith
type_of_tree-small (symbol s) = omega arith
type_of_tree-small (expression h ts) = omega arith

replicate-last :
    (n : ℕ) (b : Bool) (bs : List Bool) → replicate (suc n) b ++ bs ≡ replicate n b ++ (b ∷ bs)
replicate-last zero b bs = refl
replicate-last (suc n) b bs = ap (◌∷◌ b) (replicate-last n b bs)

module _ (expected : ℕ) (some_type : 1 ≤ expected) (type : expected < 5) where
  abbrev Valid : List ℕ → List Bool → Type 0
  Valid cells flags = valid_cells expected 0 cells ≡ ok flags

  leaf-Valid :
      (d : Bool) (c n k : ℕ) (xs : List ℕ) (flags : List Bool)
      → c < 6
      → k < 6
      → n < 129
      → (d ≡ true → n ≡ 0)
      → Valid xs (replicate (leaf_count d c n k) (k == expected) ++ flags)
      → Valid (leaf_cells d c n k ++ xs) (replicate n (c == expected) ++ ((k == expected) ∷ flags))
  unfolding leaf_cells leaf_count
  leaf-Valid true c n k xs flags small small' few off rest =
      let none = off refl in rw none (plain_cell expected k xs flags small' rest)
  leaf-Valid false c zero k xs flags small small' few off rest = rest
  leaf-Valid false c (suc n) k xs flags small small' few off rest = choose (c == k) refl rest
    where
      choose :
          (b : Bool)
          → (c == k) ≡ b
          → Valid xs (replicate (if b then suc (suc n) else 1) (k == expected) ++ flags)
          → Valid
              ((if b then [] else run_cells c (suc n)) ++ xs)
              (replicate (suc n) (c == expected) ++ ((k == expected) ∷ flags))
      choose true e rest =
          let same : c ≡ k = (==_iff c k).0 e in
          rw same (rest ∙ ap ok (replicate-last (suc n) (k == expected) flags))
      choose false e rest =
          run_cells-valid expected c (suc n) xs ((k == expected) ∷ flags) small few some_type type
            rest

  step-Valid :
      (d : Bool) (c n : ℕ) (t : Tree) (xs : List ℕ) (flags : List Bool)
      → c < 6
      → n < 129
      → (d ≡ true → n ≡ 0)
      → Valid xs (replicate (step_count d c n t) (type_of_tree t == expected) ++ flags)
      → Valid
          (step_cells d c n t ++ xs)
          (replicate n (c == expected) ++ ((type_of_tree t == expected) ∷ flags))
  unfolding step_cells step_count type_of_tree
  step-Valid d c n (expression h ts) xs flags small few off rest =
      ap (valid_cells expected 0) (append_assoc (run_cells c n) (5 ∷ []) xs)
      ∙ run_cells-valid expected c n (5 ∷ xs) ((5 == expected) ∷ flags) small few some_type type
          (plain_cell expected 5 xs flags (omega arith) rest)
  step-Valid d c n t xs flags small few off rest =
      leaf-Valid d c n (type_of_tree t) xs flags small (type_of_tree-small t) few off rest

  pub rle_cells-Valid :
      (d : Bool) (c n : ℕ) (ts : Forest)
      → c < 6
      → n + size ts < 129
      → (d ≡ true → n ≡ 0)
      → Valid (rle_cells d c n ts) (replicate n (c == expected) ++ types_are expected ts)
  unfolding rle_cells valid_cells
  rle_cells-Valid d c n nil small few off =
      ap (valid_cells expected 0) (sym (append-nil (run_cells c n)))
      ∙ run_cells-valid expected c n [] [] small (omega (arith, few)) some_type type refl
  rle_cells-Valid d c n (cons t ts) small few off =
      step-Valid d c n t (rle_cells d (type_of_tree t) (step_count d c n t) ts)
        (types_are expected ts) small (omega (arith, few)) off
        (rle_cells-Valid d (type_of_tree t) (step_count d c n t) ts (type_of_tree-small t)
          (omega (arith, few, length-step_cells d c n t off)) (step_count-off d c n t))
