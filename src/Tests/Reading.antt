-- ===== src/Tests/Reading.antt =====
-- The iterator over a block with one expression of seven arguments, six integers and a symbol.
use wisent.Prelude.{◌≡◌, refl, false, [], ◌∷◌, ◌++◌, codes, ok, ◌>>=◌, bytes_eq, arith}
use wisent.Helpers.{Root, c_str}
use wisent.Helpers.Runs.{run_cells}
use wisent.Serializer.Tree.{
  Forest, nil, cons, long, expression, symbol, child_cells, rle_cells, step_cells, step_count,
  leaf_cells, leaf_count, type_of_tree,
}
use wisent.Serializer.Stored.{StoredHead}
use wisent.Reader.{make_iterator, valid_from}
use wisent.Reader.Types.{types_are}
use wisent.Reader.Lookup.{child_with_key, child_with_key-position_of}
use wisent.Reader.Columns.{valid_from-types_are}

abbrev arguments : Forest
arguments = cons (long 1) (
    cons (long 2) (
      cons (long 3)
        (cons (long 4) (cons (long 5) (cons (long 6) (cons (symbol (codes "Missing")) nil))))))

abbrev block : Root
block = record {
  argument_count = 7;
  expression_count = 1;
  original_address = 0;
  string_arguments_fill_index = 0;
  words = 1 ∷ 2 ∷ 3 ∷ 4 ∷ 5 ∷ 6 ∷ 0 ∷ 0x81 ∷ 6 ∷ 1 ∷ 1 ∷ 1 ∷ 1 ∷ 4 ∷ 0 ∷ 0 ∷ 7 ∷ [];
  string_buffer = [];
}

valid_from-types_are_example :
    (make_iterator block 1 0 >>= λ it. valid_from block 1 it 7) ≡ ok (types_are 1 arguments)
unfolding child_cells rle_cells step_cells step_count leaf_cells leaf_count type_of_tree run_cells
valid_from-types_are_example =
    valid_from-types_are false 0 1 arguments (record { sized = refl; fits = omega arith })
      (refl, (refl, (refl, (refl, (refl, (refl, (refl, tt))))))) (omega arith) (omega arith)
      (omega arith) (omega arith) (omega arith)

-- {"a": 1, "b": 2}, behind the root argument.
abbrev members : Forest
members =
    cons (expression (codes "a") (cons (long 1) nil))
      (cons (expression (codes "b") (cons (long 2) nil)) nil)

-- The arguments: the object, its two members, and their values.
abbrev object : Root
object = record {
  argument_count = 5;
  expression_count = 3;
  original_address = 0;
  string_arguments_fill_index = 11;
  words =
      (0 ∷ 1 ∷ 2 ∷ 1 ∷ 2 ∷ [])
      ++ ((5 ∷ 5 ∷ 5 ∷ 1 ∷ 1 ∷ []) ++ (0 ∷ 1 ∷ 3 ∷ 7 ∷ 3 ∷ 4 ∷ 9 ∷ 4 ∷ 5 ∷ []));
  string_buffer = codes "Object" ++ (0 ∷ b'a' ∷ 0 ∷ b'b' ∷ 0 ∷ []);
}

object_head : StoredHead object 0 0 1 2 (codes "Object")
unfolding c_str
object_head = record {
  index = refl;
  name = 0;
  named = refl;
  text = (b'a' ∷ 0 ∷ b'b' ∷ 0 ∷ [], refl, omega arith);
  start = refl;
  end = refl;
}

first_head : StoredHead object 1 1 3 1 (codes "a")
unfolding c_str
first_head = record {
  index = refl;
  name = 7;
  named = refl;
  text = (b'b' ∷ 0 ∷ [], refl, omega arith);
  start = refl;
  end = refl;
}

second_head : StoredHead object 2 2 4 1 (codes "b")
unfolding c_str
second_head = record {
  index = refl;
  name = 9;
  named = refl;
  text = ([], refl, omega arith);
  start = refl;
  end = refl;
}

child_with_key-position_of_example : child_with_key object (codes "b") 0 ≡ ok 2
unfolding child_cells rle_cells step_cells step_count leaf_cells leaf_count type_of_tree run_cells
    c_str bytes_eq
child_with_key-position_of_example =
    child_with_key-position_of false (codes "b") (codes "Object") members 0 0 1 1 (3 ∷ [])
      (record { sized = refl; fits = omega arith }) refl
      (
        object_head,
        (refl, (refl, tt)),
        ((first_head, (refl, tt), (refl, tt)), ((second_head, (refl, tt), (refl, tt)), tt)),
      )
      tt (omega arith) (omega arith) (omega arith) refl
