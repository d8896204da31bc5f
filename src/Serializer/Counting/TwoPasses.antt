-- ===== src/Serializer/Counting/TwoPasses.antt =====
-- Source/WisentSerializer.cpp: the two traversals of `load`, one after the other.
use wisent.Prelude.{ℕ, suc, ◌+◌, ◌*◌, ◌^◌, ◌<◌, ◌≡◌, ◌∙◌, ap, Bool, [], Bytes, codes, ok, arith}
use wisent.Json.{Json, Items, Fields, events, parse_events}
use wisent.Csv.{Environment}
use wisent.Serializer.JsonToWisent.{Encoder, json_to_wisent, sax_parse, partial_sum, last}
use wisent.Serializer.FirstPass.{Counter, initial_counter, parse}
use wisent.Serializer.Tree.{Tree, expressions, depth}
use wisent.Serializer.Stored.{StoredTree}
use wisent.Serializer.Translate.{
  tree_of, items_of, fields_of, AllStrings, AllStringsItems, AllStringsFields,
}
use wisent.Serializer.Events.{Resolved}
use wisent.Serializer.Encode.{IsContainer, Planned, sax_parse-StoredTree}
use wisent.Serializer.Counting.{counted}
use wisent.Serializer.Counting.Plan.{counted-Planned}
use wisent.Serializer.Counting.Documents.{Countable, parse-counted}

module _ (P Q : Bytes → Type 0) (implies : (v : Bytes) → P v → Q v) where
  mutual
    pub AllStrings-map : (j : Json) → AllStrings P j → AllStrings Q j
    AllStrings-map Json.null all = tt
    AllStrings-map (Json.boolean v) all = tt
    AllStrings-map (Json.number_integer v) all = tt
    AllStrings-map (Json.number_unsigned v) all = tt
    AllStrings-map (Json.number_float v) all = tt
    AllStrings-map (Json.string v) all = implies v all
    AllStrings-map (Json.array xs) all = AllStringsItems-map xs all
    AllStrings-map (Json.object fs) all = AllStringsFields-map fs all

    AllStringsItems-map : (xs : Items) → AllStringsItems P xs → AllStringsItems Q xs
    AllStringsItems-map Items.nil all = tt
    AllStringsItems-map (Items.cons j xs) (first, others) =
        (AllStrings-map j first, AllStringsItems-map xs others)

    AllStringsFields-map : (fs : Fields) → AllStringsFields P fs → AllStringsFields Q fs
    AllStringsFields-map Fields.end all = tt
    AllStringsFields-map (Fields.field k j fs) (first, others) =
        (AllStrings-map j first, AllStringsFields-map fs others)

module _ (env : Environment) (resolve : Bytes → Tree) (csv_prefix : Bytes)
    (disable_rle disable_csv_handling : Bool) (address : ℕ) (memory : ℕ → ℕ) where
  pub planned :
      (j : Json) (argument_count : ℕ)
      → IsContainer j
      → last (partial_sum 0 (counted (tree_of resolve j) [])) ≡ ok argument_count
      → suc (depth (tree_of resolve j)) < 2 ^ 64
      → argument_count < 2 ^ 32
      → 16 * argument_count + 24 * expressions (tree_of resolve j) < 2 ^ 64
      → Planned
          (expressions (tree_of resolve j))
          argument_count
          (counted (tree_of resolve j) [])
          (tree_of resolve j)
  planned Json.null a c l few small fits = absurd c
  planned (Json.boolean v) a c l few small fits = absurd c
  planned (Json.number_integer v) a c l few small fits = absurd c
  planned (Json.number_unsigned v) a c l few small fits = absurd c
  planned (Json.number_float v) a c l few small fits = absurd c
  planned (Json.string v) a c l few small fits = absurd c
  planned (Json.array xs) a c l few small fits =
      counted-Planned (codes "List") (items_of resolve xs) a l (omega (arith, few)) small fits
  planned (Json.object fs) a c l few small fits =
      counted-Planned (codes "Object") (fields_of resolve fs) a l (omega (arith, few)) small fits

  -- What the two traversals yield.
  abbrev pub Encoded : Json → Type 0
  Encoded j =
      (c : Counter) × (s s' : Encoder) × (parse env csv_prefix disable_csv_handling initial_counter
          (parse_events 0 j)
        ≡ ok c)
      × (json_to_wisent c.expression_count c.argument_count_per_layer address memory csv_prefix
            disable_rle disable_csv_handling
          ≡ ok s)
      × (sax_parse env s (events j) ≡ ok s')
      × StoredTree disable_rle s'.root 0 0 (partial_sum 0 (counted (tree_of resolve j) []))
          (tree_of resolve j)

  -- For a document whose root is an object or an array and whose strings become the given trees, a
  -- string that names a CSV file (unless that is disabled) the table of a file with at least one column
  -- and a name for each, with fewer than 2^32 arguments in a block of less than 2^64 bytes whose start
  -- offset for expression 0 is 0: the first traversal ends without a fault; with what it has counted,
  -- the second does so too, and the block then holds the document's tree.
  pub parse-sax_parse-StoredTree :
      (j : Json) (argument_count : ℕ)
      → IsContainer j
      → AllStrings (Countable env resolve csv_prefix disable_csv_handling) j
      → last (partial_sum 0 (counted (tree_of resolve j) [])) ≡ ok argument_count
      → suc (depth (tree_of resolve j)) < 2 ^ 64
      → argument_count < 2 ^ 32
      → 16 * argument_count + 24 * expressions (tree_of resolve j) < 2 ^ 64
      → memory (2 * argument_count + 1) ≡ 0
      → Encoded j
  parse-sax_parse-StoredTree j a container all l few small fits fresh =
      let (c, e, ec, counts) =
        parse-counted env resolve csv_prefix disable_csv_handling j all few in
      let (s, s', e1, e2, stored) =
        sax_parse-StoredTree env resolve csv_prefix disable_rle disable_csv_handling
          (expressions (tree_of resolve j)) a (counted (tree_of resolve j) []) address memory j
          container
          (AllStrings-map (Countable env resolve csv_prefix disable_csv_handling)
            (Resolved env resolve csv_prefix disable_csv_handling) (λ v h. h.0) j all)
          (planned j a container l few small fits) fresh in
      (
        c,
        s,
        s',
        e,
        ap
              (λ n.
                json_to_wisent n c.argument_count_per_layer address memory csv_prefix disable_rle
                  disable_csv_handling)
              ec
            ∙ (ap
                  (λ l.
                    json_to_wisent (expressions (tree_of resolve j)) l address memory csv_prefix
                      disable_rle disable_csv_handling)
                  counts
                ∙ e1),
        e2,
        stored,
      )
