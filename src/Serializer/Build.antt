-- ===== src/Serializer/Build.antt =====
-- Source/WisentSerializer.cpp: the calls of the encoder's methods that store a tree, and the theorem
-- that they store it.
mod Leaf
pub mod Node
pub mod Sequence
pub mod Stores
use wisent.Prelude.{
  ℕ, zero, suc, ◌+◌, ◌-◌, ◌≤◌, ◌<◌, ◌^◌, ◌≡◌, refl, ◌∙◌, sym, ap, ◌⊎◌, inl, inr, Bool, true, some,
  List, [], ◌∷◌, ◌++◌, arith, Result, ok, ◌>>=◌, length, length-append, append_assoc, Bytes,
}
use wisent.Helpers.{Root, ArgumentType, type_code, store_string}
use wisent.Helpers.Access.{IsSized, value_of, member_of}
use wisent.Helpers.Cells.{CellsAt, CellsAt-append, CellsAt-frame}
use wisent.Helpers.Frame.{Frame, Nothing, Frame-trans, Frame-IsSized, Frame-refl}
use wisent.Helpers.Runs.{Between, run_cells, length-run_cells}
use wisent.Helpers.Text.{
  TextAt, TextAt-Frame, IsFilled, IsFilled-Frame, store_string-Frame, store_string-TextAt,
}
use wisent.Serializer.JsonToWisent.{
  Encoder, add_long, add_double, add_string, add_symbol, start_expression, end_expression,
}
use wisent.Serializer.Tree.{
  Tree, Forest, nil, cons, long, double, string, symbol, expression, type_of_tree, size,
  expressions, expressions_forest, depth, depth_forest, advance, advance_forest, step_cells,
  step_count, rle_cells, child_cells, forest_cells, forest_code, forest_count,
  rle_cells-forest_cells, leaf_cells, leaf_count,
}
use wisent.Serializer.Layers.{
  InZone, Grown, Layered, advance-Grown, advance_forest-Grown, Grown-length, InZone-first,
  InZone-second, InZone-bounds, InZone-apart, Layered-le, Layered-first, Layered-second,
}
use wisent.Serializer.Stored.{
  StoredTree, StoredForest, StoredHead, StoredTree-Frame, StoredForest-Frame, length-step_cells,
}
use wisent.Serializer.Open.{Outer, Open, Kept, Added, add_value-Added}
use wisent.Serializer.Start.{inner, Started, start_expression-Started}
use wisent.Serializer.End.{Ended, end_expression-Ended}

unfoldable mutual
  pub build : Encoder → Tree → Result Encoder
  build s (long w) = add_long s w
  build s (double w) = add_double s w
  build s (string text) = add_string s text
  build s (symbol text) = add_symbol s text
  build s (expression head ts) =
      start_expression s head >>= λ s'. build_forest s' ts >>= end_expression

  pub build_forest : Encoder → Forest → Result Encoder
  build_forest s nil = ok s
  build_forest s (cons t ts) = build s t >>= λ s'. build_forest s' ts

-- The arguments that a tree at `p` and the layers below it take.
abbrev pub Taken : (p n : ℕ) → (cs cs' : List ℕ) → ℕ → Type 0
Taken p n cs cs' j = Between p n j ⊎ InZone j cs cs'

-- There is room for a tree: its layers stay apart, and there are expressions enough.
pub record Room (s : Encoder) (low : ℕ) (cs cs' : List ℕ) (deep count : ℕ) : Type 0 where
  pub layered : Layered low s.root.argument_count cs cs'
  pub layers : deep ≤ length cs
  pub expressions : s.next_expression_index + count ≤ s.root.expression_count

-- The tree `t` has been added to the open expression.
pub record Built (s s' : Encoder) (o : Outer) (x b n i c m : ℕ) (cs : List ℕ) (t : Tree)
    : Type 0 where
  pub opened :
      Open s' o x b
        (suc n)
        (i + length (step_cells s.disable_rle c m t))
        (type_of_tree t)
        (step_count s.disable_rle c m t)
        (advance t cs)
  pub frame :
      Frame s.root s'.root
        (Taken (b + n) 1 cs (advance t cs))
        (Taken i (suc m) cs (advance t cs))
        s.next_expression_index
        (s.next_expression_index + expressions t)
  pub stored : StoredTree s.disable_rle s'.root (b + n) s.next_expression_index cs t
  pub cells : CellsAt s'.root i (step_cells s.disable_rle c m t)
  pub next : s'.next_expression_index ≡ s.next_expression_index + expressions t
  pub kept : Kept s s'

-- The same for a forest.
pub record BuiltForest (s s' : Encoder) (o : Outer) (x b n i c m : ℕ) (cs : List ℕ) (ts : Forest)
    : Type 0 where
  pub opened :
      Open s' o x b
        (n + size ts)
        (i + length (forest_cells s.disable_rle c m ts))
        (forest_code s.disable_rle c m ts)
        (forest_count s.disable_rle c m ts)
        (advance_forest ts cs)
  pub frame :
      Frame s.root s'.root
        (Taken (b + n) (size ts) cs (advance_forest ts cs))
        (Taken i (m + size ts) cs (advance_forest ts cs))
        s.next_expression_index
        (s.next_expression_index + expressions_forest ts)
  pub stored : StoredForest s.disable_rle s'.root (b + n) s.next_expression_index cs ts
  pub cells : CellsAt s'.root i (forest_cells s.disable_rle c m ts)
  pub next : s'.next_expression_index ≡ s.next_expression_index + expressions_forest ts
  pub kept : Kept s s'
