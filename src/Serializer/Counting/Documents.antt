-- ===== src/Serializer/Counting/Documents.antt =====
-- Source/WisentSerializer.cpp: the first traversal of `load` counts the parts of a document
-- and of the tables of its CSV files.
use wisent.Prelude.{
  ℕ, suc, ◌+◌, ◌^◌, ◌<◌, ◌≡◌, refl, ◌∙◌, sym, ap, Bool, false, some, none, List, [], ◌∷◌, Bytes,
  arith, Result, ok, append-nil, codes, replicate,
}
use wisent.Json.{
  Json, Items, Fields, ParseEvent, object_start, object_end, array_start, array_end, key,
  parse_events, parse_events_items, parse_events_fields,
}
use wisent.Csv.{Environment}
use wisent.Serializer.FirstPass.{Counter, initial_counter, count_value, callback, parse}
use wisent.Serializer.Tree.{Tree, nil, cons, expression, expressions, depth}
use wisent.Serializer.Translate.{
  tree_of, items_of, fields_of, AllStrings, AllStringsItems, AllStringsFields,
}
use wisent.Serializer.Counting.{counted}
use wisent.Serializer.Counting.Steps.{flag_of-false}
use wisent.Serializer.Counting.Traversal.{done}
use wisent.Serializer.Events.{Resolved}
use wisent.Serializer.Counting.Tables.{Tabular, count_value-counted}
use wisent.Serializer.Counting.Parts.{
  Counts, CountsAll, nil-CountsAll, value-Counts, leaf-Counts, container-Counts, append-CountsAll,
  item-Counts, member-Counts,
}

module _ (env : Environment) (resolve : Bytes → Tree) (csv_prefix : Bytes)
    (disable_csv_handling : Bool) where
  -- A string of the document that becomes the given tree; the file that it names, if any, is a table.
  abbrev pub Countable : Bytes → Type 0
  Countable v =
      Resolved env resolve csv_prefix disable_csv_handling v
      × Tabular env csv_prefix disable_csv_handling v

  mutual
    unfolding parse_events parse_events_items parse_events_fields callback count_value

    json-Counts :
        (j : Json)
        → AllStrings Countable j
        → Counts env csv_prefix disable_csv_handling (λ d. parse_events d j) (tree_of resolve j)
    json-Counts Json.null all =
        leaf-Counts env csv_prefix disable_csv_handling none (tree_of resolve Json.null) (λ c. refl)
          refl (λ rs. refl)
    json-Counts (Json.boolean v) all =
        leaf-Counts env csv_prefix disable_csv_handling none (tree_of resolve (Json.boolean v))
          (λ c. refl) refl (λ rs. refl)
    json-Counts (Json.number_integer v) all =
        leaf-Counts env csv_prefix disable_csv_handling none
          (tree_of resolve (Json.number_integer v)) (λ c. refl) refl (λ rs. refl)
    json-Counts (Json.number_unsigned v) all =
        leaf-Counts env csv_prefix disable_csv_handling none
          (tree_of resolve (Json.number_unsigned v)) (λ c. refl) refl (λ rs. refl)
    json-Counts (Json.number_float v) all =
        leaf-Counts env csv_prefix disable_csv_handling none (tree_of resolve (Json.number_float v))
          (λ c. refl) refl (λ rs. refl)
    json-Counts (Json.string v) all =
        value-Counts env csv_prefix disable_csv_handling (some v) (resolve v)
          (count_value-counted env csv_prefix disable_csv_handling v (resolve v) all.0 all.1)
    json-Counts (Json.array xs) all =
        container-Counts env csv_prefix disable_csv_handling array_start array_end (codes "List")
          (λ d. parse_events_items d xs) (items_of resolve xs) (λ c d. refl) (λ c d. refl)
          (items_count xs all)
    json-Counts (Json.object fs) all =
        container-Counts env csv_prefix disable_csv_handling object_start object_end
          (codes "Object") (λ d. parse_events_fields d fs) (fields_of resolve fs) (λ c d. refl)
          (λ c d. refl) (fields_count fs all)

    items_count :
        (xs : Items)
        → AllStringsItems Countable xs
        → CountsAll env csv_prefix disable_csv_handling
            (λ d. parse_events_items d xs)
            (items_of resolve xs)
    items_count Items.nil all = nil-CountsAll env csv_prefix disable_csv_handling
    items_count (Items.cons j xs) (first, others) =
        append-CountsAll env csv_prefix disable_csv_handling (λ d. parse_events d j)
          (λ d. parse_events_items d xs) (tree_of resolve j) (items_of resolve xs)
          (item-Counts env csv_prefix disable_csv_handling (λ d. parse_events d j)
            (tree_of resolve j) (json-Counts j first))
          (items_count xs others)

    fields_count :
        (fs : Fields)
        → AllStringsFields Countable fs
        → CountsAll env csv_prefix disable_csv_handling
            (λ d. parse_events_fields d fs)
            (fields_of resolve fs)
    fields_count Fields.end all = nil-CountsAll env csv_prefix disable_csv_handling
    fields_count (Fields.field k j fs) (first, others) =
        append-CountsAll env csv_prefix disable_csv_handling (λ d. (d, key) ∷ parse_events d j)
          (λ d. parse_events_fields d fs) (expression k (cons (tree_of resolve j) nil))
          (fields_of resolve fs)
          (member-Counts env csv_prefix disable_csv_handling k (λ d. parse_events d j)
            (tree_of resolve j) (json-Counts j first))
          (fields_count fs others)

  -- For a document whose strings become the given trees, a string that names a CSV file (unless that is
  -- disabled) the table of a file with at least one column and a name for each, and whose tree's depth
  -- fits a counter: the first traversal ends without a fault; it has counted the expressions of the
  -- tree, and the arguments of the tree in each layer.
  pub parse-counted :
      (j : Json)
      → AllStrings Countable j
      → suc (depth (tree_of resolve j)) < 2 ^ 64
      → (c : Counter) × (parse env csv_prefix disable_csv_handling initial_counter
            (parse_events 0 j)
          ≡ ok c)
        × (c.expression_count ≡ expressions (tree_of resolve j))
        × (c.argument_count_per_layer ≡ counted (tree_of resolve j) [])
  unfolding parse
  parse-counted j all few =
      let (keys, counts, closed) =
        json-Counts j all 0 0 [] [] (replicate 16 false) (omega arith) (omega arith)
          (λ k h. flag_of-false [] 16 k) (omega arith) (λ e. absurd (cc)) in
      (
        done (0 + expressions (tree_of resolve j)) [] (counted (tree_of resolve j) []) false keys,
        ap Run_at_once (sym (append-nil (parse_events 0 j))) ∙ counts [],
        omega arith,
        refl,
      )
    where
      Run_at_once : List (ℕ × ParseEvent) → Result Counter
      Run_at_once = parse env csv_prefix disable_csv_handling initial_counter
