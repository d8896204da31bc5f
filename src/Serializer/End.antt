-- ===== src/Serializer/End.antt =====
-- Source/WisentSerializer.cpp: `endExpression` closes the innermost expression.
use wisent.Prelude.{
  lengths, ℕ, suc, ◌+◌, ◌≤◌, ◌<◌, ◌≡◌, refl, ◌∙◌, ap, inr, some, List, [], ◌∷◌, ◌++◌, arith, ok,
  or_fail, out_of_bounds, length, replicate, length-replicate, append_assoc, set-append, lt→ltb,
}
use wisent.Helpers.{Root, load_member, store_member}
use wisent.Helpers.Access.{put, member_index, member_of, load-member, store-member, member_of-put}
use wisent.Helpers.Cells.{CellsAt, CellsAt-frame}
use wisent.Helpers.Frame.{Frame, Nothing, Frame-trans, Frame-IsSized, put_member-Frame}
use wisent.Helpers.Runs.{Between, run_cells}
use wisent.Serializer.JsonToWisent.{Encoder, reset_type_rle, end_expression, set_elem, sub64}
use wisent.Serializer.TypeRuns.{reset_type_rle-run_cells, sub64-sub}
use wisent.Serializer.Open.{Outer, Open}
use wisent.Serializer.Start.{inner}

end_expression-eq :
    (s s' : Encoder) (e start n : ℕ) (xs ns cumul : List ℕ) (layer : ℕ) (root : Root)
    → s.expression_index_stack ≡ e ∷ xs
    → s.argument_iterator_stack ≡ n ∷ ns
    → s'.expression_index_stack ≡ e ∷ xs
    → s'.argument_iterator_stack ≡ n ∷ ns
    → load_member s.root e 1 ≡ ok start
    → store_member s.root e 2 (start + n) ≡ ok root
    → reset_type_rle (record s { root = root }) (start + n) ≡ ok s'
    → load_member s'.root e 2 ≡ ok (start + n)
    → sub64 s'.layer_index 1 ≡ layer
    → set_elem s'.cumul_arg_count_per_layer layer (start + n) ≡ ok cumul
    → end_expression s
      ≡ ok (record s' {
        argument_iterator_stack = ns;
        expression_index_stack = xs;
        layer_index = layer;
        cumul_arg_count_per_layer = cumul;
      })
unfolding end_expression
end_expression-eq s s' e start n xs ns cumul layer root a b a' b' f g h k l m = ground arith

pub set_elem-append :
    (xs : List ℕ) (y v : ℕ) (ys : List ℕ)
    → set_elem (xs ++ y ∷ ys) (length xs) v ≡ ok (xs ++ v ∷ ys)
unfolding set_elem
set_elem-append xs y v ys =
    rw (lt→ltb (length xs) (length (xs ++ y ∷ ys)) (grind lengths)) (ap ok (set-append xs y v ys))

-- What `endExpression` has done: the state of the stacks and the layers is that of the expression
-- around it.
pub record Ended (s s' : Encoder) (o : Outer) (x n c0 : ℕ) (e n' i c m : ℕ) (cs : List ℕ)
    : Type 0 where
  pub frame : Frame s.root s'.root Nothing (Between i m) e (suc e)
  pub cells : CellsAt s'.root i (run_cells c m)
  pub end : member_of s'.root e 2 ≡ some (c0 + n')
  pub name : member_of s'.root e 0 ≡ member_of s.root e 0
  pub start : member_of s'.root e 1 ≡ member_of s.root e 1
  pub indices : s'.expression_index_stack ≡ x ∷ o.expressions
  pub iterators : s'.argument_iterator_stack ≡ suc n ∷ o.iterators
  pub layers : s'.cumul_arg_count_per_layer ≡ o.layers ++ (c0 + n') ∷ cs
  pub layer : s'.layer_index ≡ length o.layers
  pub count : s'.num_repeated_argument_types ≡ 0
  pub next : s'.next_expression_index ≡ s.next_expression_index
  pub rle : s'.disable_rle ≡ s.disable_rle
  pub csv : s'.disable_csv_handling ≡ s.disable_csv_handling
  pub prefix : s'.csv_prefix ≡ s.csv_prefix
  pub keys : s'.was_key_value ≡ s.was_key_value

module _ {s : Encoder} (o : Outer) (x n : ℕ) {c0 e n' i c m : ℕ} {cs : List ℕ}
    (at : Open s (inner o x n c0) e c0 n' i c m cs) (inside : c0 + n' ≤ s.root.argument_count) where
  root1 : Root
  root1 = put s.root (member_index s.root e 2) (c0 + n')

  frame1 : Frame s.root root1 Nothing Nothing e (suc e)
  unfolding root1
  frame1 = put_member-Frame at.sized e 2 (c0 + n') at.known (omega arith)

  pending1 : CellsAt root1 i (replicate m c)
  pending1 =
      CellsAt-frame s.root root1 i (replicate m c)
        (λ j h h'. frame1.types j (omega (arith, length-replicate m c, at.ends)) (λ q. q))
        at.pending

  end1 : member_of root1 e 2 ≡ some (c0 + n')
  unfolding root1
  end1 = ground (arith, member_of-put at.sized e 2 e 2 (c0 + n'), at.known)

  layer_before : sub64 s.layer_index 1 ≡ length o.layers
  layer_before =
      sub64-sub s.layer_index 1 (grind (lengths, at.layer)) (omega (arith, at.layer, at.few))
      ∙ grind (lengths, at.layer)

  layers_after :
      set_elem s.cumul_arg_count_per_layer (length o.layers) (c0 + n')
      ≡ ok (o.layers ++ (c0 + n') ∷ cs)
  layers_after =
      ap (λ (l : List ℕ). set_elem l (length o.layers) (c0 + n'))
        (at.layers ∙ append_assoc o.layers (c0 ∷ []) cs)
      ∙ set_elem-append o.layers c0 (c0 + n') cs

  module _ (root2 : Root) (run : CellsAt root2 i (run_cells c m))
      (frame2 : (lo hi : ℕ) → Frame root1 root2 Nothing (Between i m) lo hi) where
    frame12 : Frame s.root root2 Nothing (Between i m) e (suc e)
    frame12 =
        Frame-trans {lo2 = e} {hi2 = suc e} frame1 (frame2 e (suc e)) (λ j q. q, λ j q. q)
          (λ j q. absurd q, λ j q. q) (omega arith)

    known1 : e < root1.expression_count
    known1 = omega (arith, frame1.expressions, at.known)

    known2 : e < root2.expression_count
    known2 = omega (arith, frame12.expressions, at.known)

    end2 : member_of root2 e 2 ≡ some (c0 + n')
    end2 = (frame2 0 0).members e 2 known1 (omega arith) (inr (omega arith)) ∙ end1

    keep_member : (k : ℕ) → k < 2 → member_of root2 e k ≡ member_of s.root e k
    unfolding root1
    keep_member k h =
        (frame2 0 0).members e k known1 (omega arith) (inr (omega arith))
        ∙ ground (arith, member_of-put at.sized e 2 e k (c0 + n'), at.known)

    abbrev ended : Encoder
    ended = record s {
      root = root2;
      num_repeated_argument_types = 0;
      argument_iterator_stack = suc n ∷ o.iterators;
      expression_index_stack = x ∷ o.expressions;
      layer_index = length o.layers;
      cumul_arg_count_per_layer = o.layers ++ (c0 + n') ∷ cs;
    }

    end_expression-ended :
        reset_type_rle (record s { root = root1 }) (c0 + n')
          ≡ ok (record s { root = root2; num_repeated_argument_types = 0 })
        → end_expression s ≡ ok ended
    unfolding root1
    end_expression-ended reset =
        end_expression-eq s _ e c0 n' (x ∷ o.expressions) (suc n ∷ o.iterators) _ _ root1 at.indices
          at.iterators at.indices at.iterators
          (load-member at.sized e 1 at.known (omega arith)
            ∙ ap (λ t. or_fail t out_of_bounds) at.start)
          (store-member at.sized e 2 (c0 + n') at.known (omega arith)) reset
          (load-member (Frame-IsSized frame12 at.sized) e 2 known2 (omega arith)
            ∙ ap (λ t. or_fail t out_of_bounds) end2)
          layer_before layers_after

    ended-Ended : Ended s ended o x n c0 e n' i c m cs
    ended-Ended = record {
      frame = frame12;
      cells = run;
      end = end2;
      name = keep_member 0 (omega arith);
      start = keep_member 1 (omega arith);
      indices = refl;
      iterators = refl;
      layers = refl;
      layer = refl;
      count = refl;
      next = refl;
      rle = refl;
      csv = refl;
      prefix = refl;
      keys = refl;
    }

  -- With an expression open inside another one, `endExpression` succeeds: it stores where the
  -- arguments end, finishes the cells of the run that is pending, and leaves the stacks and the layers
  -- as the expression around needs them, with nothing else written.
  pub end_expression-Ended :
      (s' : Encoder) × (end_expression s ≡ ok s') × Ended s s' o x n c0 e n' i c m cs
  end_expression-Ended =
      let (root2, reset, (run, frame2)) =
        reset_type_rle-run_cells (record s { root = root1 }) (Frame-IsSized frame1 at.sized)
          (omega (arith, frame1.arguments, at.small)) i (c0 + n') c m at.count at.ends
          (omega (arith, frame1.arguments)) pending1 in
      (
        ended root2 run frame2,
        end_expression-ended root2 run frame2 reset,
        ended-Ended root2 run frame2,
      )
