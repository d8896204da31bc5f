-- ===== src/Serializer/Start.antt =====
-- Source/WisentSerializer.cpp: `startExpression` opens the next expression as an argument of the
-- innermost one.
use wisent.Prelude.{
  lengths, ℕ, suc, ◌+◌, ◌<◌, ◌≡◌, refl, ◌∙◌, sym, ap, some, List, [], ◌∷◌, ◌++◌, Bytes, arith, ok,
  length-append, get_elem?, get_elem?-append, append_assoc,
}
use wisent.Helpers.{Root, ArgumentType, make_expression_argument, store_string, store_expression}
use wisent.Helpers.Access.{IsSized, value_of, member_of, type_of}
use wisent.Helpers.Cells.{CellsAt, CellsAt-append, CellsAt-frame}
use wisent.Helpers.Frame.{Frame, Nothing, Frame-trans, Frame-IsSized}
use wisent.Helpers.Members.{
  expressed, store_expression-expressed, expressed-Frame, member_of-expressed,
}
use wisent.Helpers.Runs.{Between, run_cells, length-run_cells}
use wisent.Helpers.Text.{
  TextAt, TextAt-Frame, IsFilled, IsFilled-Frame, store_string-Frame, store_string-TextAt,
}
use wisent.Serializer.JsonToWisent.{
  Encoder, get_next_argument_index, store_argument, reset_type_rle, add_expression,
  start_expression,
}
use wisent.Serializer.TypeRuns.{reset_type_rle-run_cells}
use wisent.Serializer.Open.{
  Outer, Open, argued_root, argued-pending, argued-Frame, type_of-argued, value_of-argued,
  next_argument, get_next-next_argument, store_argument-put,
}
mod Opened
pub use Opened.*

module _ {s : Encoder} {o : Outer} {x b n i c m c0 : ℕ} {cs : List ℕ} (head : Bytes)
    (at : Open s o x b n i c m (c0 ∷ cs)) (inside : b + n < s.root.argument_count)
    (known : s.next_expression_index < s.root.expression_count) where
  abbrev e : ℕ
  e = s.next_expression_index

  numbered : Open (record s { next_expression_index = suc e }) o x b n i c m (c0 ∷ cs)
  numbered = Open-next (suc e) at

  abbrev root1 : Root
  root1 = argued_root ArgumentType.expression_type e numbered inside

  frame1 : (lo hi : ℕ) → Frame s.root root1 (λ j. j ≡ b + n) (λ j. j ≡ b + n) lo hi
  unfolding argued_root
  frame1 lo hi = argued-Frame at.sized ArgumentType.expression_type (b + n) e inside lo hi

  module _ (root2 : Root) (run : CellsAt root2 i (run_cells c m))
      (frame2 : (lo hi : ℕ) → Frame root1 root2 Nothing (Between i m) lo hi) where
    abbrev root3 : Root
    root3 = (store_string root2 head).0

    abbrev stored : ℕ
    stored = (store_string root2 head).1

    frame12 : (lo hi : ℕ) → Frame s.root root2 (λ j. j ≡ b + n) (Between i (suc m)) lo hi
    frame12 lo hi =
        Frame-trans {lo1 = lo} {hi1 = hi} {lo2 = lo} {hi2 = hi} (frame1 lo hi) (frame2 lo hi)
          (λ j p. p, λ j p. absurd p) (λ j p. omega (arith, at.ends), λ j p. omega arith)
          (omega arith)

    filled2 : IsFilled root2
    filled2 = IsFilled-Frame (frame12 0 0) at.filled

    frame3 : (lo hi : ℕ) → Frame root2 root3 Nothing Nothing lo hi
    frame3 lo hi = store_string-Frame root2 head filled2 lo hi

    known2 : e < root2.expression_count
    known2 = omega (arith, (frame12 0 0).expressions, known)

    sized3 : IsSized root3
    sized3 = Frame-IsSized (frame3 0 0) (Frame-IsSized (frame12 0 0) at.sized)

    known3 : e < root3.expression_count
    known3 = omega (arith, (frame3 0 0).expressions, known2)

    abbrev root4 : Root
    root4 = expressed sized3 e stored c0 0 known3

    frame34 : Frame root2 root4 Nothing Nothing e (suc e)
    frame34 =
        Frame-trans {lo1 = e} {hi1 = suc e} (frame3 e (suc e))
          (expressed-Frame sized3 e stored c0 0 known3) (λ j p. p, λ j p. p) (λ j p. p, λ j p. p)
          (omega arith)

    frame4 : Frame s.root root4 (λ j. j ≡ b + n) (Between i (suc m)) e (suc e)
    frame4 =
        Frame-trans (frame12 e (suc e)) frame34 (λ j p. p, λ j p. absurd p)
          (λ j p. p, λ j p. absurd p) (omega arith)

    inside1 : b + n < root1.argument_count
    inside1 = omega (arith, (frame1 0 0).arguments, inside)

    inside2 : b + n < root2.argument_count
    inside2 = omega (arith, (frame12 0 0).arguments, inside)

    index4 : value_of root4 (b + n) ≡ some e
    unfolding argued_root
    index4 =
        frame34.values (b + n) inside2 (λ q. q)
        ∙ ((frame2 0 0).values (b + n) inside1 (λ q. q)
            ∙ value_of-argued at.sized ArgumentType.expression_type (b + n) e inside)

    type4 : type_of root4 (b + n) ≡ some 5
    unfolding argued_root
    type4 =
        frame34.types (b + n) inside2 (λ q. q)
        ∙ ((frame2 0 0).types (b + n) inside1 (λ q. omega (arith, at.ends))
            ∙ type_of-argued at.sized ArgumentType.expression_type (b + n) e inside)

    cells4 : CellsAt root4 i (run_cells c m ++ 5 ∷ [])
    cells4 =
        CellsAt-append root4 i (b + n) (run_cells c m) (5 ∷ [])
          (CellsAt-frame root2 root4 i (run_cells c m)
            (λ j h h'.
              frame34.types j (omega (arith, length-run_cells c m, at.ends, inside2)) (λ q. q))
            run)
          (omega (arith, length-run_cells c m, at.ends)) (type4, tt)

    abbrev started : Encoder
    started = record s {
      root = root4;
      next_expression_index = suc e;
      num_repeated_argument_types = 0;
      layer_index = suc s.layer_index;
      argument_iterator_stack = 0 ∷ suc n ∷ o.iterators;
      expression_index_stack = e ∷ s.expression_index_stack;
    }

    start_expression-started :
        reset_type_rle
            (record (next_argument ArgumentType.expression_type e numbered inside) { root = root1 })
            (b + n)
          ≡ ok (record s {
            next_expression_index = suc e;
            argument_iterator_stack = suc n ∷ o.iterators;
            root = root2;
            num_repeated_argument_types = 0;
          })
        → start_expression s head ≡ ok started
    unfolding make_expression_argument argued_root
    start_expression-started reset =
        start_expression-eq s _ head c0 root4
          (add_expression-eq _ (next_argument ArgumentType.expression_type e numbered inside) _
            (b + n) e root1 (get_next-next_argument ArgumentType.expression_type e numbered inside)
            (store_argument-put ArgumentType.expression_type (b + n) e at.sized inside) reset)
          (rw (at.layers, at.layer) (get_elem?-append o.layers c0 cs))
          (store_expression-expressed sized3 e stored c0 0 known3)

    started-Started : Started s started o x b n i c m c0 cs head
    started-Started = record {
      opened = record {
        sized = Frame-IsSized frame4 at.sized;
        small = omega (arith, frame4.arguments, at.small);
        filled = IsFilled-Frame frame4 at.filled;
        indices = ap (◌∷◌ e) at.indices;
        iterators = refl;
        layers = at.layers ∙ sym (append_assoc o.layers (c0 ∷ []) cs);
        layer = grind (lengths, at.layer);
        few = grind (lengths, at.few);
        known = omega (arith, frame4.expressions, known);
        start = (member_of-expressed sized3 e stored c0 0 known3).1;
        count = refl;
        off = λ q. refl;
        ends = refl;
        within = omega arith;
        pending = tt;
      };
      frame = frame4;
      index = index4;
      name = stored;
      named = (member_of-expressed sized3 e stored c0 0 known3).0;
      text =
          TextAt-Frame stored head (expressed-Frame sized3 e stored c0 0 known3)
            (store_string-TextAt root2 head filled2);
      cells = cells4;
      next = refl;
      rle = refl;
      csv = refl;
      prefix = refl;
      keys = refl;
    }

  -- With an argument and an expression to spare, `startExpression` succeeds: the next argument is the
  -- next expression, with the head as its name, its arguments begin at the next free argument of the
  -- layer, the pending run is finished, and nothing else has changed.
  pub start_expression-Started :
      (s' : Encoder) × (start_expression s head ≡ ok s') × Started s s' o x b n i c m c0 cs head
  unfolding argued_root
  start_expression-Started =
      let (root2, reset, (run, frame2)) =
        reset_type_rle-run_cells
          (record (next_argument ArgumentType.expression_type e numbered inside) { root = root1 })
          (Frame-IsSized (frame1 0 0) at.sized) at.small i (b + n) c m at.count at.ends
          (omega arith) (argued-pending ArgumentType.expression_type e numbered inside) in
      (
        started root2 run frame2,
        start_expression-started root2 run frame2 reset,
        started-Started root2 run frame2,
      )
