-- ===== src/Serializer/Tree.antt =====
-- The trees that Source/WisentSerializer.cpp stores, and where an independent description of the
-- format puts their parts: the children of an expression lie in one block of the next layer, layer by
-- layer in document order, and expressions are numbered in document order.
use wisent.Prelude.{
  ℕ, zero, suc, ◌+◌, ◌≡◌, refl, Bool, true, false, List, [], ◌∷◌, ◌++◌, Bytes, ◌==◌, if◌then◌else◌,
  sym, append_assoc,
}
use Prim.Native.Nat.{max}
use wisent.Helpers.{ArgumentType, type_code}
use wisent.Helpers.Runs.{run_cells}

-- An argument: a value with its type, or an expression with its head and arguments.
mutual
  pub data Tree : Type 0 where
    long : ℕ → Tree
    double : ℕ → Tree
    string : Bytes → Tree
    symbol : Bytes → Tree
    expression : Bytes → Forest → Tree

  pub data Forest : Type 0 where
    nil : Forest
    cons : Tree → Forest → Forest

unfoldable pub type_of_tree : Tree → ℕ
type_of_tree (long w) = type_code ArgumentType.long_type
type_of_tree (double w) = type_code ArgumentType.double_type
type_of_tree (string s) = type_code ArgumentType.string_type
type_of_tree (symbol s) = type_code ArgumentType.symbol_type
type_of_tree (expression h ts) = type_code ArgumentType.expression_type

abbrev pub size : Forest → ℕ
size nil = 0
size (cons t ts) = suc (size ts)

-- The number of expressions.
abbrev mutual
  pub expressions : Tree → ℕ
  expressions (long w) = 0
  expressions (double w) = 0
  expressions (string s) = 0
  expressions (symbol s) = 0
  expressions (expression h ts) = suc (expressions_forest ts)

  pub expressions_forest : Forest → ℕ
  expressions_forest nil = 0
  expressions_forest (cons t ts) = expressions t + expressions_forest ts

-- The number of layers below.
abbrev mutual
  pub depth : Tree → ℕ
  depth (long w) = 0
  depth (double w) = 0
  depth (string s) = 0
  depth (symbol s) = 0
  depth (expression h ts) = suc (depth_forest ts)

  pub depth_forest : Forest → ℕ
  depth_forest nil = 0
  depth_forest (cons t ts) = max (depth t) (depth_forest ts)

-- The next free argument of each layer below, after a tree has taken its place.
abbrev mutual
  pub advance : Tree → List ℕ → List ℕ
  advance (long w) cs = cs
  advance (double w) cs = cs
  advance (string s) cs = cs
  advance (symbol s) cs = cs
  advance (expression h ts) [] = []
  advance (expression h ts) (c ∷ cs) = (c + size ts) ∷ advance_forest ts cs

  pub advance_forest : Forest → List ℕ → List ℕ
  advance_forest nil cs = cs
  advance_forest (cons t ts) cs = advance_forest ts (advance t cs)

-- The type cells of a block of arguments, with a run of `n` arguments of type `c` pending. A leaf
-- goes on with the run, or finishes it and starts its own; an expression finishes it.
unfoldable pub leaf_cells : (disable_rle : Bool) (c n type : ℕ) → List ℕ
leaf_cells true c n type = type ∷ []
leaf_cells false c zero type = []
leaf_cells false c (suc n) type = if c == type then [] else run_cells c (suc n)

unfoldable pub leaf_count : (disable_rle : Bool) (c n type : ℕ) → ℕ
leaf_count true c n type = 0
leaf_count false c zero type = 1
leaf_count false c (suc n) type = if c == type then suc (suc n) else 1

unfoldable pub step_cells : (disable_rle : Bool) (c n : ℕ) → Tree → List ℕ
step_cells disable_rle c n (expression h ts) =
    run_cells c n ++ type_code ArgumentType.expression_type ∷ []
step_cells disable_rle c n t = leaf_cells disable_rle c n (type_of_tree t)

unfoldable pub step_count : (disable_rle : Bool) (c n : ℕ) → Tree → ℕ
step_count disable_rle c n (expression h ts) = 0
step_count disable_rle c n t = leaf_count disable_rle c n (type_of_tree t)

unfoldable pub rle_cells : (disable_rle : Bool) (c n : ℕ) → Forest → List ℕ
rle_cells disable_rle c n nil = run_cells c n
rle_cells disable_rle c n (cons t ts) =
    step_cells disable_rle c n t
    ++ rle_cells disable_rle (type_of_tree t) (step_count disable_rle c n t) ts

-- The cells that are finished when the arguments are in place, and the run that is then pending.
unfoldable pub forest_cells : (disable_rle : Bool) (c n : ℕ) → Forest → List ℕ
forest_cells disable_rle c n nil = []
forest_cells disable_rle c n (cons t ts) =
    step_cells disable_rle c n t
    ++ forest_cells disable_rle (type_of_tree t) (step_count disable_rle c n t) ts

unfoldable pub forest_code : (disable_rle : Bool) (c n : ℕ) → Forest → ℕ
forest_code disable_rle c n nil = c
forest_code disable_rle c n (cons t ts) =
    forest_code disable_rle (type_of_tree t) (step_count disable_rle c n t) ts

unfoldable pub forest_count : (disable_rle : Bool) (c n : ℕ) → Forest → ℕ
forest_count disable_rle c n nil = n
forest_count disable_rle c n (cons t ts) =
    forest_count disable_rle (type_of_tree t) (step_count disable_rle c n t) ts

pub rle_cells-forest_cells :
    (d : Bool) (c n : ℕ) (ts : Forest)
    → rle_cells d c n ts
      ≡ forest_cells d c n ts ++ run_cells (forest_code d c n ts) (forest_count d c n ts)
unfolding rle_cells forest_cells forest_code forest_count
rle_cells-forest_cells d c n nil = refl
rle_cells-forest_cells d c n (cons t ts) =
    rw (rle_cells-forest_cells d (type_of_tree t) (step_count d c n t) ts)
      (sym (append_assoc (step_cells d c n t) _ _))

-- All cells of the arguments of an expression.
unfoldable pub child_cells : (disable_rle : Bool) → Forest → List ℕ
child_cells disable_rle ts = rle_cells disable_rle 0 0 ts
