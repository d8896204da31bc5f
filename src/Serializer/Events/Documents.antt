-- ===== src/Serializer/Events/Documents.antt =====
-- Source/WisentSerializer.cpp: the encoder's constructor and the second traversal of `load`.
use wisent.Prelude.{
  ℕ, suc, ◌+◌, ◌≤◌, ◌<◌, ◌≡◌, refl, ◌∙◌, sym, ap, Bool, List, [], ◌∷◌, ◌++◌, Bytes, arith, codes,
  ok, ◌>>=◌, get_elem?, append-nil,
}
use mathlib.Core.Path.{subst}
use wisent.Json.{
  Json, Items, Fields, Event, null_event, boolean_event, integer_event, unsigned_event, float_event,
  string_event, start_object, end_object, start_array, end_array, events, events_items,
  events_fields,
}
use wisent.Csv.{Environment}
use wisent.Serializer.JsonToWisent.{
  Encoder, start_expression, end_expression, handle_key_value_end, handle, sax_parse,
}
use wisent.Serializer.Tree.{
  Tree, Forest, expression, size, expressions, depth, advance, advance_forest,
}
use wisent.Serializer.Layers.{Layered-le}
use wisent.Serializer.Stored.{StoredTree}
use wisent.Serializer.Open.{Outer, Open, nothing}
use wisent.Serializer.Start.{inner, start_expression-Started}
use wisent.Serializer.End.{end_expression-Ended}
use wisent.Serializer.Build.{build, Room, Built}
use wisent.Serializer.Build.Node.{node-Stored}
use wisent.Serializer.Build.Stores.{inner-Room}
use wisent.Serializer.Translate.{
  tree_of, items_of, fields_of, string_tree, AllStrings, AllStringsItems, AllStringsFields,
}
use wisent.Serializer.Strings.{string-build}
use wisent.Serializer.Keys.{no_key_end}
use wisent.Serializer.Events.{
  Parses, container-Parses, leaf_stores, Ready, Ready-keys, inner_layer, fits, JsonStores,
  ForestStores, Resolved,
}
use wisent.Serializer.Events.Steps.{nil_stores, container_stores, items_step, fields_step}

module _ (env : Environment) (resolve : Bytes → Tree) (csv_prefix : Bytes)
    (disable_csv_handling : Bool) where
  abbrev Stores : Json → Type 0
  Stores = JsonStores env resolve csv_prefix disable_csv_handling

  abbrev StoresAll : List Event → Forest → Type 0
  StoresAll = ForestStores env resolve csv_prefix disable_csv_handling

  abbrev Strings : Bytes → Type 0
  Strings = Resolved env resolve csv_prefix disable_csv_handling

  string-Stores : (v : Bytes) → Strings v → Stores (Json.string v)
  unfolding events
  string-Stores v h s o x b n i c m low cs at room before earlier ready =
      leaf_stores env resolve csv_prefix disable_csv_handling (string_event v) (resolve v) s o x b n
        i c m low cs at room before earlier
        (string-build env s v (resolve v) (
          ap (λ p. string_tree env p s.disable_csv_handling v) ready.0
          ∙ (ap (λ d. string_tree env csv_prefix d v) ready.1 ∙ h)))

  value_stores :
      (ev : Event) (t : Tree)
      → ((s : Encoder) → handle env s ev ≡ (build s t >>= handle_key_value_end))
      → (s : Encoder) (o : Outer) (x b n i c m low : ℕ) (cs : List ℕ) → Open s o x b n i c m cs
      → Room s low cs (advance t cs) (depth t) (expressions t)
      → suc (b + n) ≤ low
      → x < s.next_expression_index
      → Ready env resolve csv_prefix disable_csv_handling s (suc s.layer_index) (depth t)
      → (s' : Encoder) × Parses env s (ev ∷ []) s' × Built s s' o x b n i c m cs t
  value_stores ev t h s o x b n i c m low cs at room before earlier ready =
      leaf_stores env resolve csv_prefix disable_csv_handling ev t s o x b n i c m low cs at room
        before earlier (h s)

  mutual
    unfolding events events_items events_fields build handle

    json-Stores : (j : Json) → AllStrings Strings j → Stores j
    json-Stores Json.null all = value_stores null_event (tree_of resolve Json.null) (λ s. refl)
    json-Stores (Json.boolean v) all =
        value_stores (boolean_event v) (tree_of resolve (Json.boolean v)) (λ s. refl)
    json-Stores (Json.number_integer v) all =
        value_stores (integer_event v) (tree_of resolve (Json.number_integer v)) (λ s. refl)
    json-Stores (Json.number_unsigned v) all =
        value_stores (unsigned_event v) (tree_of resolve (Json.number_unsigned v)) (λ s. refl)
    json-Stores (Json.number_float v) all =
        value_stores (float_event v) (tree_of resolve (Json.number_float v)) (λ s. refl)
    json-Stores (Json.string v) all = string-Stores v all
    json-Stores (Json.array xs) all =
        container_stores env resolve csv_prefix disable_csv_handling (codes "List") start_array
          end_array (λ s. refl) (λ s. refl) (events_items xs) (items_of resolve xs)
          (items_store xs all)
    json-Stores (Json.object fs) all =
        container_stores env resolve csv_prefix disable_csv_handling (codes "Object") start_object
          end_object (λ s. refl) (λ s. refl) (events_fields fs) (fields_of resolve fs)
          (fields_store fs all)

    pub items_store :
        (xs : Items)
        → AllStringsItems Strings xs
        → StoresAll (events_items xs) (items_of resolve xs)
    items_store Items.nil all = nil_stores env resolve csv_prefix disable_csv_handling
    items_store (Items.cons j xs) (first, others) =
        items_step env resolve csv_prefix disable_csv_handling j (events_items xs)
          (items_of resolve xs) (json-Stores j first) (items_store xs others)

    pub fields_store :
        (fs : Fields)
        → AllStringsFields Strings fs
        → StoresAll (events_fields fs) (fields_of resolve fs)
    fields_store Fields.end all = nil_stores env resolve csv_prefix disable_csv_handling
    fields_store (Fields.field k j fs) (first, others) =
        fields_step env resolve csv_prefix disable_csv_handling k j (events_fields fs)
          (fields_of resolve fs) (json-Stores j first) (fields_store fs others)

  root-Parses :
      (s s' : Encoder) (evs : List Event)
      → Parses env s evs s'
      → handle_key_value_end s' ≡ ok s'
      → sax_parse env s evs ≡ ok s'
  unfolding sax_parse
  root-Parses s s' evs parses e =
      ap (sax_parse env s) (sym (append-nil evs)) ∙ (parses [] ∙ rw e refl)

  module _ (head : Bytes) (start stop : Event)
      (starts : (s : Encoder) → handle env s start ≡ start_expression s head)
      (stops : (s : Encoder)
        → handle env s stop ≡ (end_expression s >>= handle_key_value_end)) where
    -- The document itself, whose arguments lie behind argument 0.
    pub root_stores :
        (evs : List Event) (ts : Forest)
        → StoresAll evs ts
        → (s : Encoder) (cs : List ℕ) → Open s nothing 0 0 0 0 0 0 cs
        → Room s 1 cs
            (advance (expression head ts) cs)
            (depth (expression head ts))
            (expressions (expression head ts))
        → s.next_expression_index ≡ 0
        → Ready env resolve csv_prefix disable_csv_handling s 0 (suc (depth (expression head ts)))
        → (s' : Encoder) × (sax_parse env s (start ∷ (evs ++ stop ∷ [])) ≡ ok s')
          × StoredTree s.disable_rle s'.root 0 0 cs (expression head ts)
    root_stores evs ts store s [] at room first ready = absurd (omega (arith, room.layers))
    root_stores evs ts store s (c0 ∷ cs) at room first ready =
        let (s1, e1, st) =
          start_expression-Started head at
            (fits env resolve csv_prefix disable_csv_handling head ts at room (omega arith))
            (omega (arith, room.expressions)) in
        let (s2, inside, forest) =
          store s1 (inner nothing 0 0 c0) s.next_expression_index c0 0 c0 0 0 (c0 + size ts) cs
            st.opened (inner-Room head ts room st) (omega arith) (omega (arith, st.next))
            (Ready-keys env resolve csv_prefix disable_csv_handling s s1 _ _ _ _ ready st.prefix
              st.csv st.keys (omega arith)
              (omega (
                arith,
                inner_layer env resolve csv_prefix disable_csv_handling at st,
                at.layer,
              ))) in
        let (s3, e3, en) = end_expression-Ended nothing 0 0 forest.opened (
          omega (
            arith,
            Layered-le (c0 + size ts) s.root.argument_count cs (advance_forest ts cs)
                room.layered.2,
            st.frame.arguments,
            forest.frame.arguments,
          )) in
        let clear = ready.2 0 (omega arith) (omega arith) in
        (
          s3,
          root-Parses s s3 (start ∷ (evs ++ stop ∷ []))
              (container-Parses env s s1 s2 s3 head start stop evs (starts s) (stops s2) e1 inside
                e3)
              (no_key_end s3 (
                ap (get_elem? s3.was_key_value) en.layer
                ∙ (ap (λ ks. get_elem? ks 0) (en.keys ∙ (forest.kept.keys ∙ st.keys)) ∙ clear))),
          subst (λ e. StoredTree s.disable_rle s3.root 0 e (c0 ∷ cs) (expression head ts)) first
              (node-Stored at room (omega arith) st forest en),
        )
