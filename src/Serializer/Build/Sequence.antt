-- ===== src/Serializer/Build/Sequence.antt =====
-- Source/WisentSerializer.cpp: arguments added one after the other leave each other alone.
use wisent.Prelude.{
  lengths, ℕ, suc, ◌+◌, ◌≤◌, ◌<◌, ◌≡◌, refl, ◌∙◌, ap, inl, inr, Bool, List, arith, length,
}
use mathlib.Core.Path.{subst, subst₂}
use wisent.Helpers.Cells.{CellsAt, CellsAt-append, CellsAt-frame}
use wisent.Helpers.Frame.{Frame, Frame-trans}
use wisent.Serializer.JsonToWisent.{Encoder}
use wisent.Serializer.Tree.{
  Tree, Forest, cons, type_of_tree, size, expressions, expressions_forest, depth_forest, advance,
  advance_forest, step_cells, step_count, forest_cells, forest_code, forest_count,
}
use wisent.Serializer.Layers.{
  InZone, Grown, advance-Grown, advance_forest-Grown, InZone-first, InZone-second, InZone-bounds,
  InZone-apart, Layered-le, Layered-first, Layered-second,
}
use wisent.Serializer.Stored.{StoredTree, StoredForest, StoredTree-Frame, length-step_cells}
use wisent.Serializer.Open.{Outer, Open, Kept}
use wisent.Serializer.Build.{Built, BuiltForest, Room, Taken}

pub Open-cast :
    {s : Encoder} {o : Outer} {x b : ℕ} (n n' i i' c c' m m' : ℕ) {cs : List ℕ}
    → n ≡ n'
    → i ≡ i'
    → c ≡ c'
    → m ≡ m'
    → Open s o x b n i c m cs
    → Open s o x b n' i' c' m' cs
Open-cast n n' i i' c c' m m' p q r t at = rw (← p, ← q, ← r, ← t) at

Kept-trans : {s s1 s2 : Encoder} → Kept s s1 → Kept s1 s2 → Kept s s2
Kept-trans f g = record {
  rle = g.rle ∙ f.rle;
  csv = g.csv ∙ f.csv;
  prefix = g.prefix ∙ f.prefix;
  keys = g.keys ∙ f.keys;
  layer = g.layer ∙ f.layer;
}

module _ {s s1 s2 : Encoder} {o : Outer} {x b n i c m low : ℕ} {cs : List ℕ} {t : Tree}
    {ts : Forest} (at : Open s o x b n i c m cs)
    (room : Room s low cs
      (advance_forest (cons t ts) cs)
      (depth_forest (cons t ts))
      (expressions_forest (cons t ts)))
    (before : b + n + size (cons t ts) ≤ low) (first : Built s s1 o x b n i c m cs t)
    (rest : BuiltForest s1 s2 o x b
      (suc n)
      (i + length (step_cells s.disable_rle c m t))
      (type_of_tree t)
      (step_count s.disable_rle c m t)
      (advance t cs)
      ts) where
  abbrev d : Bool
  d = s.disable_rle

  abbrev d1 : Bool
  d1 = s1.disable_rle

  abbrev e : ℕ
  e = s.next_expression_index

  abbrev mid : List ℕ
  mid = advance t cs

  abbrev end : List ℕ
  end = advance_forest ts mid

  abbrev k : ℕ
  k = type_of_tree t

  abbrev m1 : ℕ
  m1 = step_count d c m t

  abbrev i1 : ℕ
  i1 = i + length (step_cells d c m t)

  g1 : Grown cs mid
  g1 = advance-Grown t cs

  g2 : Grown mid end
  g2 = advance_forest-Grown ts mid

  ends1 : i1 + m1 ≡ b + suc n
  ends1 = omega (arith, at.ends, length-step_cells d c m t at.off)

  whole :
      Frame s.root s2.root
        (Taken (b + n) (suc (size ts)) cs end)
        (Taken i (m + suc (size ts)) cs end)
        e
        (e + (expressions t + expressions_forest ts))
  whole =
      Frame-trans first.frame rest.frame
        (
          λ j q. elim q [
            | inl (l, u) ↦ inl (omega arith)
            | inr z ↦ inr (InZone-first j cs mid end g1 g2 z)
          ],
          λ j q. elim q [
            | inl (l, u) ↦ inl (omega arith)
            | inr z ↦ inr (InZone-second j cs mid end g1 g2 z)
          ],
        )
        (
          λ j q. elim q [
            | inl (l, u) ↦ inl (omega arith)
            | inr z ↦ inr (InZone-first j cs mid end g1 g2 z)
          ],
          λ j q. elim q [
            | inl (l, u) ↦ inl (omega (arith, at.ends, ends1))
            | inr z ↦ inr (InZone-second j cs mid end g1 g2 z)
          ],
        )
        (omega (arith, first.next))

  bounds : (j : ℕ) → InZone j cs mid → (low ≤ j) × (j < s.root.argument_count)
  bounds j z =
      InZone-bounds j low s.root.argument_count cs mid
        (Layered-first low s.root.argument_count cs mid end room.layered g1 g2) z

  bounds' : (j : ℕ) → InZone j mid end → (low ≤ j) × (j < s.root.argument_count)
  bounds' j z =
      InZone-bounds j low s.root.argument_count mid end
        (Layered-second low s.root.argument_count cs mid end room.layered g1 g2) z

  apart : (j : ℕ) → InZone j cs mid → ¬ InZone j mid end
  apart j z = InZone-apart j low s.root.argument_count cs mid end room.layered g1 g2 z

  low_fits : low ≤ s.root.argument_count
  low_fits = Layered-le low s.root.argument_count cs end room.layered

  first_stored : StoredTree d s2.root (b + n) e cs t
  first_stored =
      StoredTree-Frame rest.frame d (b + n) e cs t (omega (arith, first.frame.arguments, low_fits))
        (λ q. elim q [ inl (l, u) ↦ omega arith | inr z ↦ omega (arith, (bounds' (b + n) z).0) ])
        (λ j z. (
          omega (arith, first.frame.arguments, (bounds j z).1),
          λ q. elim q [ inl (l, u) ↦ omega (arith, (bounds j z).0) | inr w ↦ apart j z w ],
          λ q. elim q [ inl (l, u) ↦ omega (arith, (bounds j z).0, ends1) | inr w ↦ apart j z w ],
        ))
        (omega (arith, first.frame.expressions, room.expressions), inl (omega (arith, first.next)))
        first.stored

  rest_stored : StoredForest d s2.root (suc (b + n)) (e + expressions t) mid ts
  rest_stored =
      subst (λ d'. StoredForest d' s2.root (suc (b + n)) (e + expressions t) mid ts) first.kept.rle
        (subst₂ (λ p q. StoredForest d1 s2.root p q mid ts)
          (let z : b + suc n ≡ suc (b + n) = omega arith in z) first.next rest.stored)

  first_cells : CellsAt s2.root i (step_cells d c m t)
  first_cells =
      CellsAt-frame s1.root s2.root i (step_cells d c m t)
        (λ j h h'. rest.frame.types j (omega (arith, first.frame.arguments, low_fits, ends1)) (λ q.
          elim q [ inl (l, u) ↦ omega arith | inr z ↦ omega (arith, (bounds' j z).0, ends1) ]))
        first.cells

  -- A tree and then the rest of the forest are the forest.
  pub sequence-Built : BuiltForest s s2 o x b n i c m cs (cons t ts)
  unfolding forest_cells forest_code forest_count
  sequence-Built = record {
    opened =
        Open-cast _ _ _ _ _ _ _ _ (omega arith)
          (ap (λ d'. i1 + length (forest_cells d' k m1 ts)) first.kept.rle ∙ grind lengths)
          (ap (λ d'. forest_code d' k m1 ts) first.kept.rle)
          (ap (λ d'. forest_count d' k m1 ts) first.kept.rle) rest.opened;
    frame = whole;
    stored = (first_stored, rest_stored);
    cells =
        CellsAt-append s2.root i i1 (step_cells d c m t) (forest_cells d k m1 ts) first_cells refl
          (subst (λ d'. CellsAt s2.root i1 (forest_cells d' k m1 ts)) first.kept.rle rest.cells);
    next = omega (arith, rest.next, first.next);
    kept = Kept-trans first.kept rest.kept;
  }
