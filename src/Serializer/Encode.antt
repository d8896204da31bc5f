-- ===== src/Serializer/Encode.antt =====
-- Source/WisentSerializer.cpp: the second traversal of `load`, with the memory that the first has
-- counted.
use wisent.Prelude.{
  ℕ, zero, suc, ◌+◌, ◌*◌, ◌^◌, ◌≤◌, ◌<◌, ◌≡◌, refl, ◌∙◌, ap, Bool, false, some, List, [], ◌∷◌,
  Bytes, arith, codes, ok, length, get_elem?, replicate,
}
use wisent.Helpers.{allocate_expression_tree, words_of}
use wisent.Helpers.Sizes.{length-words_of}
use wisent.Json.{
  Json, Event, start_object, end_object, start_array, end_array, events, events_items,
  events_fields,
}
use wisent.Csv.{Environment}
use wisent.Serializer.JsonToWisent.{Encoder, handle, sax_parse, partial_sum, last, json_to_wisent}
use wisent.Serializer.Tree.{Tree, Forest, expression, expressions, depth, advance}
use wisent.Serializer.Layers.{Layered}
use wisent.Serializer.Stored.{StoredTree}
use wisent.Serializer.Open.{Open, nothing}
use wisent.Serializer.Build.{Room}
use wisent.Serializer.Translate.{tree_of, items_of, fields_of, AllStrings}
use wisent.Serializer.Keys.{Clear}
use wisent.Serializer.Events.{Resolved, Ready}
use wisent.Serializer.Events.Documents.{root_stores, items_store, fields_store}

-- The root of a document is an object or an array.
abbrev pub IsContainer : Json → Type 0
IsContainer (Json.array xs) = Unit {0}
IsContainer (Json.object fs) = Unit {0}
IsContainer j = ⊥

-- The counts of the first traversal leave room for the tree, and the sizes do not wrap.
pub record Planned (expression_count argument_count : ℕ) (counts : List ℕ) (t : Tree) : Type 0 where
  pub total : last (partial_sum 0 counts) ≡ ok argument_count
  pub layered : Layered 1 argument_count (partial_sum 0 counts) (advance t (partial_sum 0 counts))
  pub layers : depth t < length (partial_sum 0 counts)
  pub expressions : expressions t ≤ expression_count
  pub some_expression : 0 < expression_count
  pub few : length (partial_sum 0 counts) < 2 ^ 64
  pub small : argument_count < 2 ^ 32
  pub fits : 16 * argument_count + 24 * expression_count < 2 ^ 64

get_elem?-words_of :
    (memory : ℕ → ℕ) (i n k : ℕ) → k < n → get_elem? (words_of memory i n) k ≡ some (memory (i + k))
unfolding words_of
get_elem?-words_of memory i zero k h = absurd (omega arith)
get_elem?-words_of memory i (suc n) zero h = ap some (ap memory (omega arith))
get_elem?-words_of memory i (suc n) (suc k) h =
    get_elem?-words_of memory (suc i) n k (omega arith) ∙ ap some (ap memory (omega arith))

Clear-replicate : (n k : ℕ) → k < n → get_elem? (replicate n false) k ≡ some false
Clear-replicate zero k h = absurd (omega arith)
Clear-replicate (suc n) zero h = refl
Clear-replicate (suc n) (suc k) h = Clear-replicate n k (omega arith)

module _ (env : Environment) (resolve : Bytes → Tree) (csv_prefix : Bytes)
    (disable_rle disable_csv_handling : Bool) (expression_count argument_count : ℕ)
    (counts : List ℕ) (address : ℕ) (memory : ℕ → ℕ) where
  unfoldable pub initial : Encoder
  initial = record {
    root = allocate_expression_tree argument_count expression_count address memory;
    cumul_arg_count_per_layer = partial_sum 0 counts;
    was_key_value = replicate (length (partial_sum 0 counts)) false;
    argument_iterator_stack = 0 ∷ [];
    expression_index_stack = 0 ∷ [];
    next_expression_index = 0;
    layer_index = 0;
    csv_prefix = csv_prefix;
    disable_rle = disable_rle;
    disable_csv_handling = disable_csv_handling;
    num_repeated_argument_types = 0;
  }

  constructed :
      last (partial_sum 0 counts) ≡ ok argument_count
      → json_to_wisent expression_count counts address memory csv_prefix disable_rle
          disable_csv_handling
        ≡ ok initial
  unfolding json_to_wisent initial
  constructed h = rw h refl

  module _ (t : Tree) (plan : Planned expression_count argument_count counts t)
      (fresh : memory (2 * argument_count + 1) ≡ 0) where
    pub initial-Open : Open initial nothing 0 0 0 0 0 0 (partial_sum 0 counts)
    unfolding initial allocate_expression_tree
    initial-Open = record {
      sized = record { sized = length-words_of memory 0 _; fits = plan.fits };
      small = plan.small;
      filled = refl;
      indices = refl;
      iterators = refl;
      layers = refl;
      layer = refl;
      few = omega (arith, plan.few);
      known = plan.some_expression;
      start =
          get_elem?-words_of memory 0 _ _ (omega (arith, plan.some_expression))
          ∙ ap some (ap memory (omega arith) ∙ fresh);
      count = refl;
      off = λ e. refl;
      ends = refl;
      within = omega arith;
      pending = tt;
    }

    pub initial-Room :
        Room initial 1
          (partial_sum 0 counts)
          (advance t (partial_sum 0 counts))
          (depth t)
          (expressions t)
    unfolding initial allocate_expression_tree
    initial-Room = record {
      layered = plan.layered;
      layers = omega (arith, plan.layers);
      expressions = omega (arith, plan.expressions);
    }

    initial-Clear : Clear initial.was_key_value 0 (suc (depth t))
    unfolding initial
    initial-Clear k l u =
        Clear-replicate (length (partial_sum 0 counts)) k (omega (arith, plan.layers))

  finished :
      (head : Bytes) (ts : Forest)
      → Planned expression_count argument_count counts (expression head ts)
      → memory (2 * argument_count + 1) ≡ 0
      → (evs : List Event)
      → ((s : Encoder) (cs : List ℕ)
          → Open s nothing 0 0 0 0 0 0 cs
          → Room s 1 cs
              (advance (expression head ts) cs)
              (depth (expression head ts))
              (expressions (expression head ts))
          → s.next_expression_index ≡ 0
          → Ready env resolve csv_prefix disable_csv_handling s 0 (suc (depth (expression head ts)))
          → (s' : Encoder) × (sax_parse env s evs ≡ ok s')
            × StoredTree s.disable_rle s'.root 0 0 cs (expression head ts))
      → (s s' : Encoder) × (json_to_wisent expression_count counts address memory csv_prefix
            disable_rle disable_csv_handling
          ≡ ok s)
        × (sax_parse env s evs ≡ ok s')
        × StoredTree disable_rle s'.root 0 0 (partial_sum 0 counts) (expression head ts)
  unfolding initial
  finished head ts plan fresh evs store =
      let (s', e, stored) =
        store initial (partial_sum 0 counts) (initial-Open (expression head ts) plan fresh)
          (initial-Room (expression head ts) plan fresh) refl
          (refl, refl, initial-Clear (expression head ts) plan fresh) in
      (initial, s', constructed plan.total, e, stored)

  -- For a document whose root is an object or an array, whose strings resolve (to themselves, or to the
  -- tables of CSV files), counted as the plan says, in memory whose start offset for expression 0 is 0:
  -- the encoder is constructed, takes all events without a fault, and the memory then holds the
  -- document's tree, every part of it at the place that the format gives it.
  pub sax_parse-StoredTree :
      (j : Json)
      → IsContainer j
      → AllStrings (Resolved env resolve csv_prefix disable_csv_handling) j
      → Planned expression_count argument_count counts (tree_of resolve j)
      → memory (2 * argument_count + 1) ≡ 0
      → (s s' : Encoder) × (json_to_wisent expression_count counts address memory csv_prefix
            disable_rle disable_csv_handling
          ≡ ok s)
        × (sax_parse env s (events j) ≡ ok s')
        × StoredTree disable_rle s'.root 0 0 (partial_sum 0 counts) (tree_of resolve j)
  unfolding events handle
  sax_parse-StoredTree Json.null c all plan fresh = absurd c
  sax_parse-StoredTree (Json.boolean v) c all plan fresh = absurd c
  sax_parse-StoredTree (Json.number_integer v) c all plan fresh = absurd c
  sax_parse-StoredTree (Json.number_unsigned v) c all plan fresh = absurd c
  sax_parse-StoredTree (Json.number_float v) c all plan fresh = absurd c
  sax_parse-StoredTree (Json.string v) c all plan fresh = absurd c
  sax_parse-StoredTree (Json.array xs) c all plan fresh =
      finished (codes "List") (items_of resolve xs) plan fresh _ (
        root_stores env resolve csv_prefix disable_csv_handling (codes "List") start_array end_array
          (λ s. refl) (λ s. refl) (events_items xs) (items_of resolve xs)
          (items_store env resolve csv_prefix disable_csv_handling xs all))
  sax_parse-StoredTree (Json.object fs) c all plan fresh =
      finished (codes "Object") (fields_of resolve fs) plan fresh _ (
        root_stores env resolve csv_prefix disable_csv_handling (codes "Object") start_object
          end_object (λ s. refl) (λ s. refl) (events_fields fs) (fields_of resolve fs)
          (fields_store env resolve csv_prefix disable_csv_handling fs all))
