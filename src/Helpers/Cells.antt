-- ===== src/Helpers/Cells.antt =====
-- Runs of cells in the type array of a root expression.
use wisent.Prelude.{
  ℕ, zero, suc, ◌+◌, ◌≤◌, ◌<◌, ◌≡◌, refl, some, List, [], ◌∷◌, ◌++◌, arith, length, replicate, ◌∙◌,
}
use wisent.Helpers.Defs.{Root}
use wisent.Helpers.Access.{type_of}

-- The type cells from `i` on are `cells`.
abbrev pub CellsAt : Root → ℕ → List ℕ → Type 0
CellsAt root i [] = Unit {0}
CellsAt root i (c ∷ cells) = (type_of root i ≡ some c) × CellsAt root (suc i) cells

pub CellsAt-frame :
    (root root' : Root) (i : ℕ) (cells : List ℕ)
    → ((j : ℕ) → i ≤ j → j < i + length cells → type_of root' j ≡ type_of root j)
    → CellsAt root i cells
    → CellsAt root' i cells
CellsAt-frame root root' i [] same at = tt
CellsAt-frame root root' i (c ∷ cells) same (at, rest) = (
  same i (omega arith) (omega arith) ∙ at,
  CellsAt-frame root root' (suc i) cells (λ j h k. same j (omega arith) (omega arith)) rest,
)

pub CellsAt-append :
    (root : Root) (i j : ℕ) (xs ys : List ℕ)
    → CellsAt root i xs
    → j ≡ i + length xs
    → CellsAt root j ys
    → CellsAt root i (xs ++ ys)
CellsAt-append root i j [] ys at e rest = ground arith
CellsAt-append root i j (x ∷ xs) ys (at, more) e rest =
    (at, CellsAt-append root (suc i) j xs ys more (omega arith) rest)

pub CellsAt-left :
    (root : Root) (i : ℕ) (xs ys : List ℕ) → CellsAt root i (xs ++ ys) → CellsAt root i xs
CellsAt-left root i [] ys at = tt
CellsAt-left root i (x ∷ xs) ys (at, rest) = (at, CellsAt-left root (suc i) xs ys rest)

pub CellsAt-right :
    (root : Root) (i j : ℕ) (xs ys : List ℕ)
    → j ≡ i + length xs
    → CellsAt root i (xs ++ ys)
    → CellsAt root j ys
CellsAt-right root i j [] ys e at = ground arith
CellsAt-right root i j (x ∷ xs) ys e (at, rest) =
    CellsAt-right root (suc i) j xs ys (omega arith) rest

-- One more cell of the same kind.
pub replicate-snoc : (n c : ℕ) → replicate n c ++ c ∷ [] ≡ replicate (suc n) c
replicate-snoc zero c = refl
replicate-snoc (suc n) c = rw (replicate-snoc n c)

-- The last of the cells of an unfinished run.
pub CellsAt-last :
    (root : Root) (i n c : ℕ) → CellsAt root i (replicate (suc n) c) → type_of root (i + n) ≡ some c
CellsAt-last root i zero c (at, _) = ground arith
CellsAt-last root i (suc n) c (at, rest) = ground (arith, CellsAt-last root (suc i) n c rest)
