-- ===== src/Serializer/Open.antt =====
-- Source/WisentSerializer.cpp: the encoder with an expression open, and the step that adds a value.
use wisent.Prelude.{
  ℕ, suc, ◌+◌, ◌≤◌, ◌<◌, ◌^◌, ◌≡◌, refl, ◌∙◌, ap, inr, true, some, List, [], ◌∷◌, ◌++◌, arith,
  Result, ok, or_fail, out_of_bounds, length, replicate, length-replicate,
}
use wisent.Helpers.{Root, ArgumentType, type_code, make_argument, load_member}
use wisent.Helpers.Access.{
  IsSized, put, put-IsSized, type_index, value_of, type_of, member_of, store-type, store-value,
  load-member, type_of-put, value_of-put,
}
use wisent.Helpers.Cells.{CellsAt, CellsAt-left, CellsAt-right, CellsAt-frame}
use wisent.Helpers.Frame.{
  Frame, Nothing, Frame-trans, Frame-IsSized, put_value-Frame, put_type-Frame,
}
use wisent.Helpers.Runs.{Between}
use wisent.Helpers.Text.{IsFilled, IsFilled-Frame}
use wisent.Serializer.JsonToWisent.{
  Encoder, get_next_argument_index, store_argument, apply_type_rle, add_value,
}
use wisent.Serializer.Tree.{leaf_cells, leaf_count}
use wisent.Serializer.Stored.{length-leaf_cells, leaf_count-off}
use wisent.Serializer.TypeRuns.{apply_type_rle-leaf_cells}

-- What lies below the innermost expression on the stacks, and the layers up to its own.
pub record Outer : Type 0 where
  pub expressions : List ℕ
  pub iterators : List ℕ
  pub layers : List ℕ

-- Below the outermost expression.
abbrev pub nothing : Outer
nothing = record { expressions = []; iterators = []; layers = [] }

-- Expression `x` is open: its arguments begin at `b`, `n` of them are in place, the last `m` of type
-- `c` are a run that is pending from argument `i` on, and the layers below go on at `cs`.
pub record Open (s : Encoder) (o : Outer) (x b n i c m : ℕ) (cs : List ℕ) : Type 0 where
  pub sized : IsSized s.root
  pub small : s.root.argument_count < 2 ^ 32
  pub filled : IsFilled s.root
  pub indices : s.expression_index_stack ≡ x ∷ o.expressions
  pub iterators : s.argument_iterator_stack ≡ n ∷ o.iterators
  pub layers : s.cumul_arg_count_per_layer ≡ o.layers ++ cs
  pub layer : s.layer_index ≡ length o.layers
  pub few : length o.layers + length cs < 2 ^ 64
  pub known : x < s.root.expression_count
  pub start : member_of s.root x 1 ≡ some b
  pub count : s.num_repeated_argument_types ≡ m
  pub off : s.disable_rle ≡ true → m ≡ 0
  pub ends : i + m ≡ b + n
  pub within : b ≤ i
  pub pending : CellsAt s.root i (replicate m c)

-- The settings and the flags of the keys, which building an argument leaves alone.
pub record Kept (s s' : Encoder) : Type 0 where
  pub rle : s'.disable_rle ≡ s.disable_rle
  pub csv : s'.disable_csv_handling ≡ s.disable_csv_handling
  pub prefix : s'.csv_prefix ≡ s.csv_prefix
  pub keys : s'.was_key_value ≡ s.was_key_value
  pub layer : s'.layer_index ≡ s.layer_index

pub store_argument-put :
    {root : Root} (type : ArgumentType) (p v : ℕ)
    → IsSized root
    → p < root.argument_count
    → store_argument (make_argument type) root p v
      ≡ ok (put (put root (type_index root p) (type_code type)) p v)
unfolding store_argument make_argument
store_argument-put {root} type p v is inside =
    rw (store-type is p (type_code type) inside)
      (store-value (put-IsSized is (type_index root p) (type_code type)) p v inside)

pub get_next-eq :
    (s : Encoder) (x b n : ℕ) (xs ns : List ℕ)
    → s.expression_index_stack ≡ x ∷ xs
    → s.argument_iterator_stack ≡ n ∷ ns
    → load_member s.root x 1 ≡ ok b
    → get_next_argument_index s ≡ ok (record s { argument_iterator_stack = suc n ∷ ns }, b + n)
unfolding get_next_argument_index
get_next-eq s x b n xs ns e e' load = ground arith

add_value-eq :
    (make : Root → ℕ → Result (Root × ℕ)) (s s1 s' : Encoder) (p v : ℕ) (root : Root)
    → get_next_argument_index s ≡ ok (s1, p)
    → store_argument make s1.root p v ≡ ok root
    → apply_type_rle (record s1 { root = root }) p ≡ ok s'
    → add_value make s v ≡ ok s'
unfolding add_value
add_value-eq make s s1 s' p v root e f g = rw (e, f) g

-- The root with argument `p` written.
abbrev pub argued : Root → ArgumentType → (p v : ℕ) → Root
argued root type p v = put (put root (type_index root p) (type_code type)) p v

module _ {root : Root} (is : IsSized root) (type : ArgumentType) (p v : ℕ)
    (inside : p < root.argument_count) where
  pub argued-Frame : (lo hi : ℕ) → Frame root (argued root type p v) (λ j. j ≡ p) (λ j. j ≡ p) lo hi
  argued-Frame lo hi =
      Frame-trans {lo1 = lo} {hi1 = hi} {lo2 = lo} {hi2 = hi}
        (put_type-Frame is p (type_code type) lo hi inside)
        (put_value-Frame (put-IsSized is (type_index root p) (type_code type)) p v lo hi inside)
        (λ j e. absurd e, λ j e. e) (λ j e. e, λ j e. absurd e) (omega arith)

  pub type_of-argued : type_of (argued root type p v) p ≡ some (type_code type)
  type_of-argued =
      (put_value-Frame (put-IsSized is (type_index root p) (type_code type)) p v 0 0 inside).types p
        inside (λ e. e)
      ∙ ground (arith, type_of-put is p p (type_code type))

  pub value_of-argued : value_of (argued root type p v) p ≡ some v
  value_of-argued =
      ground (arith, value_of-put (put-IsSized is (type_index root p) (type_code type)) p p v)

-- What `add_value` has done.
pub record Added (s s' : Encoder) (o : Outer) (x b n i c m : ℕ) (cs : List ℕ) (type : ArgumentType)
    (v : ℕ) : Type 0 where
  pub opened :
      Open s' o x b
        (suc n)
        (i + length (leaf_cells s.disable_rle c m (type_code type)))
        (type_code type)
        (leaf_count s.disable_rle c m (type_code type))
        cs
  pub frame : (lo hi : ℕ) → Frame s.root s'.root (λ j. j ≡ b + n) (Between i (suc m)) lo hi
  pub value : value_of s'.root (b + n) ≡ some v
  pub cells : CellsAt s'.root i (leaf_cells s.disable_rle c m (type_code type))
  pub next : s'.next_expression_index ≡ s.next_expression_index
  pub kept : Kept s s'

module _ {s : Encoder} {o : Outer} {x b n i c m : ℕ} {cs : List ℕ} (type : ArgumentType) (v : ℕ)
    (at : Open s o x b n i c m cs) (inside : b + n < s.root.argument_count) where
  unfoldable pub argued_root : Root
  argued_root = argued s.root type (b + n) v

  pub argued-pending : CellsAt argued_root i (replicate m c)
  unfolding argued_root
  argued-pending =
      CellsAt-frame s.root argued_root i (replicate m c)
        (λ j h h'.
          (argued-Frame at.sized type (b + n) v inside 0 0).types j
            (omega (arith, length-replicate m c, at.ends))
            (λ e. omega (arith, length-replicate m c, at.ends)))
        at.pending

  abbrev pub next_argument : Encoder
  next_argument = record s { argument_iterator_stack = suc n ∷ o.iterators }

  pub get_next-next_argument : get_next_argument_index s ≡ ok (next_argument, b + n)
  get_next-next_argument =
      get_next-eq s x b n o.expressions o.iterators at.indices at.iterators (
        load-member at.sized x 1 at.known (omega arith)
        ∙ ap (λ t. or_fail t out_of_bounds) at.start)

  module _ (root' : Root)
      (cells : CellsAt root' i (
        leaf_cells s.disable_rle c m (type_code type)
        ++ replicate (leaf_count s.disable_rle c m (type_code type)) (type_code type)))
      (g : (lo hi : ℕ) → Frame argued_root root' Nothing (Between i m) lo hi) where
    whole : (lo hi : ℕ) → Frame s.root root' (λ j. j ≡ b + n) (Between i (suc m)) lo hi
    unfolding argued_root
    whole lo hi =
        Frame-trans {lo1 = lo} {hi1 = hi} {lo2 = lo} {hi2 = hi}
          (argued-Frame at.sized type (b + n) v inside lo hi) (g lo hi) (λ j e. e, λ j e. absurd e)
          (λ j e. omega (arith, at.ends), λ j e. omega arith) (omega arith)

    abbrev finished : Encoder
    finished = record s {
      argument_iterator_stack = suc n ∷ o.iterators;
      root = root';
      num_repeated_argument_types = leaf_count s.disable_rle c m (type_code type);
    }

    finished-Added : Added s finished o x b n i c m cs type v
    unfolding argued_root
    finished-Added = record {
      opened = record {
        sized = Frame-IsSized (whole 0 0) at.sized;
        small = omega (arith, (whole 0 0).arguments, at.small);
        filled = IsFilled-Frame (whole 0 0) at.filled;
        indices = at.indices;
        iterators = refl;
        layers = at.layers;
        layer = at.layer;
        few = at.few;
        known = omega (arith, (whole 0 0).expressions, at.known);
        start = (whole 0 0).members x 1 at.known (omega arith) (inr (omega arith)) ∙ at.start;
        count = refl;
        off = leaf_count-off s.disable_rle c m (type_code type);
        ends = omega (arith, at.ends, length-leaf_cells s.disable_rle c m (type_code type) at.off);
        within = omega (arith, at.within);
        pending =
            CellsAt-right root' i _ (leaf_cells s.disable_rle c m (type_code type))
              (replicate (leaf_count s.disable_rle c m (type_code type)) (type_code type)) refl
              cells;
      };
      frame = whole;
      value =
          (g 0 0).values (b + n) inside (λ e. e) ∙ value_of-argued at.sized type (b + n) v inside;
      cells =
          CellsAt-left root' i (leaf_cells s.disable_rle c m (type_code type))
            (replicate (leaf_count s.disable_rle c m (type_code type)) (type_code type)) cells;
      next = refl;
      kept = record { rle = refl; csv = refl; prefix = refl; keys = refl; layer = refl };
    }

  -- With an argument to spare, adding a value succeeds: the value is the next argument of the open
  -- expression, its type continues the pending run or finishes it, and nothing else has changed.
  pub add_value-Added :
      (s' : Encoder) × (add_value (make_argument type) s v ≡ ok s')
      × Added s s' o x b n i c m cs type v
  unfolding argued_root
  add_value-Added =
      let (root', e, (cells, g)) =
        apply_type_rle-leaf_cells (record next_argument { root = argued_root })
          (Frame-IsSized (argued-Frame at.sized type (b + n) v inside 0 0) at.sized) at.small i
          (b + n) c m (type_code type) at.count at.off at.ends inside argued-pending
          (type_of-argued at.sized type (b + n) v inside) in
      (
        finished root' cells g,
        add_value-eq (make_argument type) s next_argument (finished root' cells g) (b + n) v
            argued_root get_next-next_argument (store_argument-put type (b + n) v at.sized inside)
            e,
        finished-Added root' cells g,
      )
