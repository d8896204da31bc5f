-- ===== src/Serializer/Build/Leaf.antt =====
-- Source/WisentSerializer.cpp: `addLong`, `addDouble`, `addString` and `addSymbol` store a leaf.
use wisent.Prelude.{ℕ, ◌+◌, ◌<◌, ◌≡◌, refl, ◌∙◌, inl, inr, List, arith, ok, length-replicate, Bytes}
use wisent.Helpers.{
  Root, ArgumentType, type_code, store_string, make_string_argument, make_symbol_argument,
  make_long_argument, make_argument, make_double_argument,
}
use wisent.Helpers.Cells.{CellsAt-frame}
use wisent.Helpers.Frame.{Frame, Nothing, Frame-trans, Frame-IsSized, Frame-refl}
use wisent.Helpers.Text.{TextAt-Frame, IsFilled-Frame, store_string-Frame, store_string-TextAt}
use wisent.Serializer.JsonToWisent.{
  Encoder, add_long, add_double, add_string, add_symbol, add_value,
}
use wisent.Serializer.Tree.{
  Tree, long, double, string, symbol, type_of_tree, expressions, advance, step_cells, step_count,
  leaf_cells, leaf_count,
}
use wisent.Serializer.Stored.{StoredTree}
use wisent.Serializer.Open.{Outer, Open, Added, add_value-Added}
use wisent.Serializer.Build.{build, Built}

module _ {s : Encoder} {o : Outer} {x b n i c m : ℕ} {cs : List ℕ} where
  Open-root :
      (root : Root)
      → ((lo hi : ℕ) → Frame s.root root Nothing Nothing lo hi)
      → b + n < s.root.argument_count
      → Open s o x b n i c m cs
      → Open (record s { root = root }) o x b n i c m cs
  Open-root root f inside at = record {
    sized = Frame-IsSized (f 0 0) at.sized;
    small = omega (arith, (f 0 0).arguments, at.small);
    filled = IsFilled-Frame (f 0 0) at.filled;
    indices = at.indices;
    iterators = at.iterators;
    layers = at.layers;
    layer = at.layer;
    few = at.few;
    known = omega (arith, (f 0 0).expressions, at.known);
    start = (f 0 0).members x 1 at.known (omega arith) (inr (omega arith)) ∙ at.start;
    count = at.count;
    off = at.off;
    ends = at.ends;
    within = at.within;
    pending =
        CellsAt-frame s.root root i _
          (λ j h h'. (f 0 0).types j (omega (arith, length-replicate m c, at.ends)) (λ q. q))
          at.pending;
  }

  module _ {s' : Encoder} (root : Root) (f : (lo hi : ℕ) → Frame s.root root Nothing Nothing lo hi)
      (t : Tree) (type : ArgumentType) (v : ℕ)
      (added : Added (record s { root = root }) s' o x b n i c m cs type v) where
    leaf-Built :
        type_of_tree t ≡ type_code type
        → step_cells s.disable_rle c m t ≡ leaf_cells s.disable_rle c m (type_code type)
        → step_count s.disable_rle c m t ≡ leaf_count s.disable_rle c m (type_code type)
        → expressions t ≡ 0
        → advance t cs ≡ cs
        → StoredTree s.disable_rle s'.root (b + n) s.next_expression_index cs t
        → Built s s' o x b n i c m cs t
    leaf-Built types cells counts none same stored = record {
      opened = rw (types, cells, counts, same) added.opened;
      frame =
          Frame-trans {lo1 = s.next_expression_index} {hi1 = s.next_expression_index} (f _ _)
            (added.frame s.next_expression_index s.next_expression_index)
            (λ j q. absurd q, λ j q. inl (omega arith)) (λ j q. absurd q, λ j q. inl q)
            (omega arith);
      stored = stored;
      cells = rw cells added.cells;
      next = omega (arith, added.next, none);
      kept = record {
        rle = added.kept.rle;
        csv = added.kept.csv;
        prefix = added.kept.prefix;
        keys = added.kept.keys;
        layer = added.kept.layer;
      };
    }

  module _ (at : Open s o x b n i c m cs) (inside : b + n < s.root.argument_count) where
    abbrev BuildsTree : Tree → Type 0
    BuildsTree t = (s' : Encoder) × (build s t ≡ ok s') × Built s s' o x b n i c m cs t

    still : (lo hi : ℕ) → Frame s.root s.root Nothing Nothing lo hi
    still = Frame-refl s.root Nothing Nothing

    pub long-Built : (w : ℕ) → BuildsTree (long w)
    unfolding build add_long make_long_argument type_of_tree step_cells step_count
    long-Built w =
        let (s', e, added) = add_value-Added ArgumentType.long_type w at inside in
        (
          s',
          e,
          leaf-Built s.root still (long w) ArgumentType.long_type w added refl refl refl refl refl
              added.value,
        )

    pub double-Built : (w : ℕ) → BuildsTree (double w)
    unfolding build add_double make_double_argument type_of_tree step_cells step_count
    double-Built w =
        let (s', e, added) = add_value-Added ArgumentType.double_type w at inside in
        (
          s',
          e,
          leaf-Built s.root still (double w) ArgumentType.double_type w added refl refl refl refl
              refl added.value,
        )

    module _ (text : Bytes) where
      abbrev stored : Root × ℕ
      stored = store_string s.root text

      grown : (lo hi : ℕ) → Frame s.root stored.0 Nothing Nothing lo hi
      grown = store_string-Frame s.root text at.filled

      text-Added :
          (type : ArgumentType)
          → (s' : Encoder) × (add_value (make_argument type) (record s { root = stored.0 }) stored.1
              ≡ ok s')
            × Added (record s { root = stored.0 }) s' o x b n i c m cs type stored.1
      text-Added type =
          add_value-Added type stored.1 (Open-root stored.0 grown inside at)
            (omega (arith, (grown 0 0).arguments, inside))

      pub string-Built : BuildsTree (string text)
      unfolding build add_string make_string_argument type_of_tree step_cells step_count
      string-Built =
          let (s', e, added) = text-Added ArgumentType.string_type in
          (
            s',
            e,
            leaf-Built stored.0 grown (string text) ArgumentType.string_type stored.1 added refl
                refl refl refl refl
                (
                  stored.1,
                  added.value,
                  TextAt-Frame stored.1 text (added.frame 0 0)
                      (store_string-TextAt s.root text at.filled),
                ),
          )

      pub symbol-Built : BuildsTree (symbol text)
      unfolding build add_symbol make_symbol_argument type_of_tree step_cells step_count
      symbol-Built =
          let (s', e, added) = text-Added ArgumentType.symbol_type in
          (
            s',
            e,
            leaf-Built stored.0 grown (symbol text) ArgumentType.symbol_type stored.1 added refl
                refl refl refl refl
                (
                  stored.1,
                  added.value,
                  TextAt-Frame stored.1 text (added.frame 0 0)
                      (store_string-TextAt s.root text at.filled),
                ),
          )
