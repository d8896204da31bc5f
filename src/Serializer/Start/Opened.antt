-- ===== src/Serializer/Start/Opened.antt =====
-- Source/WisentSerializer.cpp: what `startExpression` opens.
use wisent.Prelude.{ℕ, suc, ◌+◌, ◌≡◌, some, List, [], ◌∷◌, ◌++◌, Bytes, ok, get_elem?}
use wisent.Helpers.{Root, make_expression_argument, store_string, store_expression}
use wisent.Helpers.Access.{value_of, member_of}
use wisent.Helpers.Cells.{CellsAt}
use wisent.Helpers.Frame.{Frame}
use wisent.Helpers.Runs.{Between, run_cells}
use wisent.Helpers.Text.{TextAt}
use wisent.Serializer.JsonToWisent.{
  Encoder, get_next_argument_index, store_argument, reset_type_rle, add_expression,
  start_expression,
}
use wisent.Serializer.Open.{Outer, Open}

pub add_expression-eq :
    (s s1 s' : Encoder) (p e : ℕ) (root : Root)
    → get_next_argument_index s ≡ ok (s1, p)
    → store_argument make_expression_argument s1.root p e ≡ ok root
    → reset_type_rle (record s1 { root = root }) p ≡ ok s'
    → add_expression s e ≡ ok s'
unfolding add_expression
add_expression-eq s s1 s' p e root f g h = rw (f, g) h

pub start_expression-eq :
    (s s' : Encoder) (head : Bytes) (c : ℕ) (root : Root)
    → add_expression
        (record s { next_expression_index = suc s.next_expression_index })
        s.next_expression_index
      ≡ ok s'
    → get_elem? s'.cumul_arg_count_per_layer s'.layer_index ≡ some c
    → store_expression (store_string s'.root head).0 s.next_expression_index (record {
      symbol_name_offset = (store_string s'.root head).1;
      start_child_offset = c;
      end_child_offset = 0;
    })
      ≡ ok root
    → start_expression s head
      ≡ ok (record s' {
        root = root;
        layer_index = suc s'.layer_index;
        argument_iterator_stack = 0 ∷ s'.argument_iterator_stack;
        expression_index_stack = s.next_expression_index ∷ s'.expression_index_stack;
      })
unfolding start_expression
start_expression-eq s s' head c root f g h = rw (f, g, h)

pub Open-next :
    {s : Encoder} {o : Outer} {x b n i c m : ℕ} {cs : List ℕ} (e : ℕ)
    → Open s o x b n i c m cs
    → Open (record s { next_expression_index = e }) o x b n i c m cs
Open-next e at = record {
  sized = at.sized;
  small = at.small;
  filled = at.filled;
  indices = at.indices;
  iterators = at.iterators;
  layers = at.layers;
  layer = at.layer;
  few = at.few;
  known = at.known;
  start = at.start;
  count = at.count;
  off = at.off;
  ends = at.ends;
  within = at.within;
  pending = at.pending;
}

-- The stacks below the new expression.
abbrev pub inner : Outer → (x n c0 : ℕ) → Outer
inner o x n c0 = record {
  expressions = x ∷ o.expressions;
  iterators = suc n ∷ o.iterators;
  layers = o.layers ++ c0 ∷ [];
}

-- What `startExpression` has done: expression `e` is open, with its arguments from `c0` on.
pub record Started (s s' : Encoder) (o : Outer) (x b n i c m c0 : ℕ) (cs : List ℕ) (head : Bytes)
    : Type 0 where
  pub opened : Open s' (inner o x n c0) s.next_expression_index c0 0 c0 0 0 cs
  pub frame :
      Frame s.root s'.root
        (λ j. j ≡ b + n)
        (Between i (suc m))
        s.next_expression_index
        (suc s.next_expression_index)
  pub index : value_of s'.root (b + n) ≡ some s.next_expression_index
  pub name : ℕ
  pub named : member_of s'.root s.next_expression_index 0 ≡ some name
  pub text : TextAt s'.root name head
  pub cells : CellsAt s'.root i (run_cells c m ++ 5 ∷ [])
  pub next : s'.next_expression_index ≡ suc s.next_expression_index
  pub rle : s'.disable_rle ≡ s.disable_rle
  pub csv : s'.disable_csv_handling ≡ s.disable_csv_handling
  pub prefix : s'.csv_prefix ≡ s.csv_prefix
  pub keys : s'.was_key_value ≡ s.was_key_value
