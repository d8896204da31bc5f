-- ===== src/Serializer/Build/Stores.antt =====
-- Source/WisentSerializer.cpp: the calls of the encoder that make up a tree succeed, and store it.
use wisent.Prelude.{ℕ, suc, ◌+◌, ◌≤◌, ◌<◌, ◌≡◌, refl, sym, List, [], ◌∷◌, arith, ok, Bytes}
use mathlib.Core.Path.{subst}
use wisent.Helpers.Frame.{Frame-refl}
use wisent.Serializer.JsonToWisent.{Encoder, start_expression, end_expression}
use wisent.Serializer.Tree.{
  Tree, Forest, nil, cons, long, double, string, symbol, expression, size, expressions,
  expressions_forest, depth, depth_forest, advance, advance_forest, forest_cells, forest_code,
  forest_count,
}
use wisent.Serializer.Layers.{
  Layered, advance-Grown, advance_forest-Grown, Grown-length, Layered-le, Layered-first,
  Layered-second,
}
use wisent.Serializer.Open.{Outer, Open}
use wisent.Serializer.Start.{inner, Started, start_expression-Started}
use wisent.Serializer.End.{end_expression-Ended}
use wisent.Serializer.Build.{build, build_forest, Built, BuiltForest, Room}
use wisent.Serializer.Build.Leaf.{long-Built, double-Built, string-Built, symbol-Built}
use wisent.Serializer.Build.Node.{node-Built}
use wisent.Serializer.Build.Sequence.{Open-cast, sequence-Built}

pub first-Room :
    {s : Encoder} {low : ℕ} {cs : List ℕ} (t : Tree) (ts : Forest)
    → Room s low cs
        (advance_forest (cons t ts) cs)
        (depth_forest (cons t ts))
        (expressions_forest (cons t ts))
    → Room s low cs (advance t cs) (depth t) (expressions t)
first-Room {s} {low} {cs} t ts room = record {
  layered =
      Layered-first low s.root.argument_count cs (advance t cs) (advance_forest ts (advance t cs))
        room.layered (advance-Grown t cs) (advance_forest-Grown ts (advance t cs));
  layers = omega (arith, room.layers);
  expressions = omega (arith, room.expressions);
}

pub rest-Room :
    {s s1 : Encoder} {o : Outer} {x b n i c m low : ℕ} {cs : List ℕ} (t : Tree) (ts : Forest)
    → Room s low cs
        (advance_forest (cons t ts) cs)
        (depth_forest (cons t ts))
        (expressions_forest (cons t ts))
    → Built s s1 o x b n i c m cs t
    → Room s1 low
        (advance t cs)
        (advance_forest ts (advance t cs))
        (depth_forest ts)
        (expressions_forest ts)
rest-Room {s} {low} {cs} t ts room first = record {
  layered =
      subst (λ a. Layered low a (advance t cs) (advance_forest ts (advance t cs)))
        (sym first.frame.arguments)
        (Layered-second low s.root.argument_count cs (advance t cs)
          (advance_forest ts (advance t cs)) room.layered (advance-Grown t cs)
          (advance_forest-Grown ts (advance t cs)));
  layers = omega (arith, room.layers, Grown-length cs (advance t cs) (advance-Grown t cs));
  expressions = omega (arith, room.expressions, first.next, first.frame.expressions);
}

-- There is room in the new expression for its arguments.
pub inner-Room :
    {s s1 : Encoder} {o : Outer} {x b n i c m c0 low : ℕ} {cs : List ℕ} (head : Bytes) (ts : Forest)
    → Room s low
        (c0 ∷ cs)
        (advance (expression head ts) (c0 ∷ cs))
        (depth (expression head ts))
        (expressions (expression head ts))
    → Started s s1 o x b n i c m c0 cs head
    → Room s1 (c0 + size ts) cs (advance_forest ts cs) (depth_forest ts) (expressions_forest ts)
inner-Room {s} {c0} {cs} head ts room started = record {
  layered =
      subst (λ a. Layered (c0 + size ts) a cs (advance_forest ts cs)) (sym started.frame.arguments)
        room.layered.2;
  layers = omega (arith, room.layers);
  expressions = omega (arith, room.expressions, started.next, started.frame.expressions);
}

pub nil-Built :
    {s : Encoder} {o : Outer} {x b n i c m : ℕ} {cs : List ℕ}
    → Open s o x b n i c m cs
    → BuiltForest s s o x b n i c m cs nil
unfolding forest_cells forest_code forest_count
nil-Built {s} at = record {
  opened = Open-cast _ _ _ _ _ _ _ _ (omega arith) (omega arith) refl refl at;
  frame = Frame-refl s.root _ _ _ _;
  stored = tt;
  cells = tt;
  next = omega arith;
  kept = record { rle = refl; csv = refl; prefix = refl; keys = refl; layer = refl };
}

pub build-expression :
    (s s1 s2 s3 : Encoder) (head : Bytes) (ts : Forest)
    → start_expression s head ≡ ok s1
    → build_forest s1 ts ≡ ok s2
    → end_expression s2 ≡ ok s3
    → build s (expression head ts) ≡ ok s3
unfolding build
build-expression s s1 s2 s3 head ts e f g = rw (e, f) g

build_forest-cons :
    (s s1 s2 : Encoder) (t : Tree) (ts : Forest)
    → build s t ≡ ok s1
    → build_forest s1 ts ≡ ok s2
    → build_forest s (cons t ts) ≡ ok s2
unfolding build_forest
build_forest-cons s s1 s2 t ts e f = rw e f

build_forest-nil : (s : Encoder) → build_forest s nil ≡ ok s
unfolding build_forest
build_forest-nil s = refl

mutual
  tree_stores :
      (t : Tree) (s : Encoder) (o : Outer) (x b n i c m low : ℕ) (cs : List ℕ)
      → Open s o x b n i c m cs
      → Room s low cs (advance t cs) (depth t) (expressions t)
      → suc (b + n) ≤ low
      → x < s.next_expression_index
      → (s' : Encoder) × (build s t ≡ ok s') × Built s s' o x b n i c m cs t
  tree_stores (long w) s o x b n i c m low cs at room before earlier =
      long-Built at (omega (arith, Layered-le low _ cs cs room.layered)) w
  tree_stores (double w) s o x b n i c m low cs at room before earlier =
      double-Built at (omega (arith, Layered-le low _ cs cs room.layered)) w
  tree_stores (string text) s o x b n i c m low cs at room before earlier =
      string-Built at (omega (arith, Layered-le low _ cs cs room.layered)) text
  tree_stores (symbol text) s o x b n i c m low cs at room before earlier =
      symbol-Built at (omega (arith, Layered-le low _ cs cs room.layered)) text
  tree_stores (expression head ts) s o x b n i c m low [] at room before earlier =
      absurd (omega (arith, room.layers))
  tree_stores (expression head ts) s o x b n i c m low (c0 ∷ cs) at room before earlier =
      let fits =
        Layered-le (c0 + size ts) s.root.argument_count cs (advance_forest ts cs) room.layered.2 in
      let (s1, e1, started) =
        start_expression-Started head at (omega (arith, fits, room.layered.0))
          (omega (arith, room.expressions)) in
      let (s2, e2, forest) =
        forest_stores ts s1 (inner o x n c0) s.next_expression_index c0 0 c0 0 0 (c0 + size ts) cs
          started.opened (inner-Room head ts room started) (omega arith)
          (omega (arith, started.next)) in
      let (s3, e3, ended) =
        end_expression-Ended o x n forest.opened
          (omega (arith, fits, started.frame.arguments, forest.frame.arguments)) in
      (
        s3,
        build-expression s s1 s2 s3 head ts e1 e2 e3,
        node-Built at room before started forest ended earlier,
      )

  forest_stores :
      (ts : Forest) (s : Encoder) (o : Outer) (x b n i c m low : ℕ) (cs : List ℕ)
      → Open s o x b n i c m cs
      → Room s low cs (advance_forest ts cs) (depth_forest ts) (expressions_forest ts)
      → b + n + size ts ≤ low
      → x < s.next_expression_index
      → (s' : Encoder) × (build_forest s ts ≡ ok s') × BuiltForest s s' o x b n i c m cs ts
  forest_stores nil s o x b n i c m low cs at room before earlier =
      (s, build_forest-nil s, nil-Built at)
  forest_stores (cons t ts) s o x b n i c m low cs at room before earlier =
      let (s1, e1, first) =
        tree_stores t s o x b n i c m low cs at (first-Room t ts room) (omega arith) earlier in
      let (s2, e2, rest) =
        forest_stores ts s1 o x b (suc n) _ _ _ low (advance t cs) first.opened
          (rest-Room t ts room first) (omega arith) (omega (arith, first.next)) in
      (s2, build_forest-cons s s1 s2 t ts e1 e2, sequence-Built at room before first rest)

-- With an expression open that is not the outermost one, and room for the arguments and expressions of
-- a tree, the calls that make up the tree succeed: it is stored at the next argument, its parts in the
-- places that the format gives them, and what lies outside these places is as it was.
pub build-Built :
    (t : Tree) (s : Encoder) (o : Outer) (x b n i c m low : ℕ) (cs : List ℕ)
    → Open s o x b n i c m cs
    → Room s low cs (advance t cs) (depth t) (expressions t)
    → suc (b + n) ≤ low
    → x < s.next_expression_index
    → (s' : Encoder) × (build s t ≡ ok s') × Built s s' o x b n i c m cs t
build-Built = tree_stores

pub build_forest-Built :
    (ts : Forest) (s : Encoder) (o : Outer) (x b n i c m low : ℕ) (cs : List ℕ)
    → Open s o x b n i c m cs
    → Room s low cs (advance_forest ts cs) (depth_forest ts) (expressions_forest ts)
    → b + n + size ts ≤ low
    → x < s.next_expression_index
    → (s' : Encoder) × (build_forest s ts ≡ ok s') × BuiltForest s s' o x b n i c m cs ts
build_forest-Built = forest_stores
