-- ===== src/Serializer/Build/Node.antt =====
-- Source/WisentSerializer.cpp: an expression is stored when its arguments are, between
-- `startExpression` and `endExpression`.
use wisent.Prelude.{
  lengths, ℕ, suc, ◌+◌, ◌≤◌, ◌<◌, ◌≡◌, refl, ◌∙◌, sym, ap, inl, inr, some, List, [], ◌∷◌, ◌++◌,
  arith, length, Bytes,
}
use mathlib.Core.Path.{subst, subst₂}
use wisent.Helpers.Access.{value_of, member_of}
use wisent.Helpers.Cells.{CellsAt, CellsAt-append, CellsAt-frame}
use wisent.Helpers.Frame.{Frame, Frame-trans, Frame-IsSized}
use wisent.Helpers.Runs.{run_cells, length-run_cells}
use wisent.Helpers.Text.{TextAt-Frame, IsFilled-Frame}
use wisent.Serializer.JsonToWisent.{Encoder}
use wisent.Serializer.Tree.{
  Forest, expression, type_of_tree, size, expressions_forest, depth, expressions, advance,
  advance_forest, step_cells, step_count, child_cells, rle_cells, forest_cells, forest_code,
  forest_count, rle_cells-forest_cells,
}
use wisent.Serializer.Layers.{
  InZone, Layered, advance_forest-Grown, Grown-length, InZone-bounds, Layered-le,
}
use wisent.Serializer.Stored.{StoredHead, StoredTree, StoredForest, StoredForest-Frame}
use wisent.Serializer.Open.{Outer, Open}
use wisent.Serializer.Start.{inner, Started}
use wisent.Serializer.End.{Ended}
use wisent.Serializer.Build.{Built, BuiltForest, Room, Taken}

module _ {s s1 s2 s3 : Encoder} {o : Outer} {x b n i c m c0 low : ℕ} {cs : List ℕ} {head : Bytes}
    {ts : Forest} (at : Open s o x b n i c m (c0 ∷ cs))
    (room : Room s low
      (c0 ∷ cs)
      (advance (expression head ts) (c0 ∷ cs))
      (depth (expression head ts))
      (expressions (expression head ts)))
    (before : suc (b + n) ≤ low) (st : Started s s1 o x b n i c m c0 cs head)
    (ft : BuiltForest s1 s2 (inner o x n c0) s.next_expression_index c0 0 c0 0 0 cs ts)
    (en : Ended s2 s3 o x n c0 s.next_expression_index
      (0 + size ts)
      (c0 + length (forest_cells s1.disable_rle 0 0 ts))
      (forest_code s1.disable_rle 0 0 ts)
      (forest_count s1.disable_rle 0 0 ts)
      (advance_forest ts cs)) where
  abbrev e : ℕ
  e = s.next_expression_index

  abbrev below : List ℕ
  below = advance_forest ts cs

  abbrev i2 : ℕ
  i2 = c0 + length (forest_cells s1.disable_rle 0 0 ts)

  layers_apart : Layered (c0 + size ts) s.root.argument_count cs below
  layers_apart = room.layered.2

  block_fits : c0 + size ts ≤ s.root.argument_count
  block_fits = Layered-le (c0 + size ts) s.root.argument_count cs below layers_apart

  behind : (j : ℕ) → InZone j cs below → (c0 + size ts ≤ j) × (j < s.root.argument_count)
  behind j z = InZone-bounds j (c0 + size ts) s.root.argument_count cs below layers_apart z

  next1 : s1.next_expression_index ≡ suc e
  next1 = st.next

  front :
      Frame s.root s2.root
        (Taken (b + n) 1 (c0 ∷ cs) ((c0 + size ts) ∷ below))
        (Taken i (suc m) (c0 ∷ cs) ((c0 + size ts) ∷ below))
        e
        (e + suc (expressions_forest ts))
  front =
      Frame-trans st.frame ft.frame
        (
          λ j q. inl (omega arith),
          λ j q. elim q [ inl (l, u) ↦ inr (inl (omega arith)) | inr z ↦ inr (inr z) ],
        )
        (λ j q. inl q, λ j q. elim q [ inl (l, u) ↦ inr (inl (omega arith)) | inr z ↦ inr (inr z) ])
        (omega (arith, next1))

  whole :
      Frame s.root s3.root
        (Taken (b + n) 1 (c0 ∷ cs) ((c0 + size ts) ∷ below))
        (Taken i (suc m) (c0 ∷ cs) ((c0 + size ts) ∷ below))
        e
        (e + suc (expressions_forest ts))
  whole =
      Frame-trans front en.frame (λ j q. q, λ j q. absurd q)
        (λ j q. q, λ j q. inr (inl (omega (arith, ft.opened.ends)))) (omega arith)

  inside1 : b + n < s1.root.argument_count
  inside1 = omega (arith, st.frame.arguments, block_fits, room.layered.0, at.ends)

  index : value_of s3.root (b + n) ≡ some e
  index =
      en.frame.values (b + n) (omega (arith, front.arguments, st.frame.arguments, inside1)) (λ q. q)
      ∙ (ft.frame.values (b + n) inside1 (λ q. elim q [
        | inl (l, u) ↦ omega (arith, room.layered.0)
        | inr z ↦ omega (arith, (behind (b + n) z).0, room.layered.0)
      ])
          ∙ st.index)

  known1 : e < s1.root.expression_count
  known1 = omega (arith, st.frame.expressions, room.expressions)

  member_kept : (k : ℕ) → k < 3 → member_of s2.root e k ≡ member_of s1.root e k
  member_kept k h = ft.frame.members e k known1 h (inl (omega (arith, next1)))

  stored_head : StoredHead s3.root (b + n) e c0 (size ts) head
  stored_head = record {
    index = index;
    name = st.name;
    named = en.name ∙ (member_kept 0 (omega arith) ∙ st.named);
    text = TextAt-Frame st.name head en.frame (TextAt-Frame st.name head ft.frame st.text);
    start = en.start ∙ (member_kept 1 (omega arith) ∙ st.opened.start);
    end = en.end ∙ ap some (omega arith);
  }

  cells_kept : CellsAt s3.root i (run_cells c m ++ 5 ∷ [])
  cells_kept =
      CellsAt-frame s1.root s3.root i (run_cells c m ++ 5 ∷ [])
        (λ j h h'.
          let u : j < suc (b + n) = grind (lengths, length-run_cells c m, at.ends) in
          en.frame.types j (omega (arith, front.arguments, block_fits, room.layered.0))
            (λ q. omega (arith, room.layered.0))
          ∙ ft.frame.types j (omega (arith, st.frame.arguments, block_fits, room.layered.0)) (λ q.
            elim q [
              | inl (l, u') ↦ omega (arith, room.layered.0)
              | inr z ↦ omega (arith, (behind j z).0, room.layered.0)
            ]))
        st.cells

  child_cells_stored : CellsAt s3.root c0 (child_cells s.disable_rle ts)
  unfolding child_cells
  child_cells_stored =
      subst (λ d. CellsAt s3.root c0 (rle_cells d 0 0 ts)) st.rle
        (subst (CellsAt s3.root c0) (sym (rle_cells-forest_cells s1.disable_rle 0 0 ts)) (
          CellsAt-append s3.root c0 i2 (forest_cells s1.disable_rle 0 0 ts)
            (run_cells (forest_code s1.disable_rle 0 0 ts) (forest_count s1.disable_rle 0 0 ts))
            (CellsAt-frame s2.root s3.root c0 (forest_cells s1.disable_rle 0 0 ts)
              (λ j h h'.
                en.frame.types j (omega (arith, ft.opened.ends, front.arguments, block_fits))
                  (λ q. omega arith))
              ft.cells)
            refl en.cells))

  forest_stored : StoredForest s.disable_rle s3.root c0 (suc e) cs ts
  forest_stored =
      subst (λ d. StoredForest d s3.root c0 (suc e) cs ts) st.rle
        (StoredForest-Frame en.frame s1.disable_rle c0 (suc e) cs ts
          (λ j q. (omega (arith, front.arguments, block_fits), λ z. z))
          (λ j z. (
            omega (arith, front.arguments, (behind j z).1),
            λ q. q,
            λ q. omega (arith, (behind j z).0, ft.opened.ends),
          ))
          (omega (arith, front.expressions, room.expressions), inr (omega arith))
          (subst₂ (λ k l. StoredForest s1.disable_rle s2.root k l cs ts)
            (let z : c0 + 0 ≡ c0 = omega arith in z) next1 ft.stored))

  pub node-Frame :
      Frame s.root s3.root
        (Taken (b + n) 1 (c0 ∷ cs) ((c0 + size ts) ∷ below))
        (Taken i (suc m) (c0 ∷ cs) ((c0 + size ts) ∷ below))
        e
        (e + suc (expressions_forest ts))
  node-Frame = whole

  pub node-Stored : StoredTree s.disable_rle s3.root (b + n) e (c0 ∷ cs) (expression head ts)
  node-Stored = (stored_head, child_cells_stored, forest_stored)

  pub node-Built :
      x < s.next_expression_index → Built s s3 o x b n i c m (c0 ∷ cs) (expression head ts)
  unfolding type_of_tree step_cells step_count
  node-Built earlier = record {
    opened = record {
      sized = Frame-IsSized whole at.sized;
      small = omega (arith, whole.arguments, at.small);
      filled = IsFilled-Frame whole at.filled;
      indices = en.indices;
      iterators = en.iterators;
      layers = en.layers ∙ ap (λ (k : ℕ). o.layers ++ k ∷ below) (omega arith);
      layer = en.layer;
      few = omega (arith, at.few, Grown-length cs below (advance_forest-Grown ts cs));
      known = omega (arith, whole.expressions, at.known);
      start = whole.members x 1 at.known (omega arith) (inl earlier) ∙ at.start;
      count = en.count;
      off = λ q. refl;
      ends = grind (lengths, at.ends, length-run_cells c m);
      within = omega (arith, at.within);
      pending = tt;
    };
    frame = whole;
    stored = node-Stored;
    cells = cells_kept;
    next = omega (arith, en.next, ft.next, next1);
    kept = record {
      rle = en.rle ∙ (ft.kept.rle ∙ st.rle);
      csv = en.csv ∙ (ft.kept.csv ∙ st.csv);
      prefix = en.prefix ∙ (ft.kept.prefix ∙ st.prefix);
      keys = en.keys ∙ (ft.kept.keys ∙ st.keys);
      layer = en.layer ∙ sym at.layer;
    };
  }
