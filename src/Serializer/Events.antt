-- ===== src/Serializer/Events.antt =====
-- Source/WisentSerializer.cpp: the handlers, called in the order of a document's events, store its
-- tree.
mod Steps
pub mod Documents
use wisent.Prelude.{
  lengths, ℕ, zero, suc, ◌+◌, ◌≤◌, ◌<◌, ◌≡◌, refl, ◌∙◌, sym, ap, ◌⊎◌, inl, inr, Bool, true, false,
  some, List, [], ◌∷◌, ◌++◌, Bytes, arith, codes, Result, ok, ◌>>=◌, length, get_elem?, set,
  append_assoc, if◌then◌else◌, get_elem?-set_ne, length-append,
}
use mathlib.Core.Path.{subst}
use Prim.Native.Nat.{max}
use wisent.Json.{
  Json, Items, Fields, Event, null_event, boolean_event, integer_event, unsigned_event, float_event,
  string_event, start_object, end_object, start_array, end_array, key_event, events, events_items,
  events_fields,
}
use wisent.Csv.{Environment}
use wisent.Serializer.JsonToWisent.{
  Encoder, start_expression, end_expression, set_elem, handle_key_value_end, handle, sax_parse,
}
use wisent.Serializer.Tree.{
  Tree, Forest, nil, cons, expression, size, expressions, expressions_forest, depth, depth_forest,
  advance, advance_forest,
}
use wisent.Serializer.Layers.{Layered-le}
use wisent.Serializer.Open.{Outer, Open, Kept}
use wisent.Serializer.Start.{inner, Started, start_expression-Started}
use wisent.Serializer.End.{end_expression-Ended}
use wisent.Serializer.Build.{build, Built, BuiltForest, Room}
use wisent.Serializer.Build.Node.{node-Built}
use wisent.Serializer.Build.Sequence.{sequence-Built}
use wisent.Serializer.Build.Stores.{build-Built, first-Room, rest-Room, inner-Room, nil-Built}
use wisent.Serializer.Translate.{
  string_tree, tree_of, items_of, fields_of, AllStrings, AllStringsItems, AllStringsFields,
}
use wisent.Serializer.Strings.{string-build}
use wisent.Serializer.Keys.{
  Clear, keyed, Open-keyed, BuiltForest-keyed, no_key_end, key_end, set_elem-Clear,
}

pub Room-keyed :
    {s : Encoder} {low deep count : ℕ} {cs cs' : List ℕ} (keys : List Bool)
    → Room s low cs cs' deep count
    → Room (keyed s keys) low cs cs' deep count
Room-keyed keys room = record {
  layered = room.layered;
  layers = room.layers;
  expressions = room.expressions;
}

module _ (env : Environment) where
  -- The events of a value leave the encoder at the end of the value, with `rest` to come.
  abbrev pub Parses : Encoder → List Event → Encoder → Type 0
  Parses s evs s' =
      (rest : List Event)
      → sax_parse env s (evs ++ rest) ≡ (handle_key_value_end s' >>= λ s''. sax_parse env s'' rest)

  abbrev pub ParsesAll : Encoder → List Event → Encoder → Type 0
  ParsesAll s evs s' = (rest : List Event) → sax_parse env s (evs ++ rest) ≡ sax_parse env s' rest

  leaf-Parses :
      (s s' : Encoder) (t : Tree) (ev : Event)
      → handle env s ev ≡ (build s t >>= handle_key_value_end)
      → build s t ≡ ok s'
      → Parses s (ev ∷ []) s'
  unfolding sax_parse
  leaf-Parses s s' t ev h e rest = rw (h, e) refl

  pub container-Parses :
      (s s1 s2 s3 : Encoder) (head : Bytes) (start stop : Event) (evs : List Event)
      → handle env s start ≡ start_expression s head
      → handle env s2 stop ≡ (end_expression s2 >>= handle_key_value_end)
      → start_expression s head ≡ ok s1
      → ParsesAll s1 evs s2
      → end_expression s2 ≡ ok s3
      → Parses s (start ∷ (evs ++ stop ∷ [])) s3
  unfolding sax_parse
  container-Parses s s1 s2 s3 head start stop evs h1 h2 e1 inside e3 rest =
      rw (h1, e1, append_assoc evs (stop ∷ []) rest, inside (stop ∷ rest), h2, e3) refl

  pub field-Parses :
      (s s1 s2 s3 s4 : Encoder) (k : Bytes) (evs fields : List Event)
      → start_expression s k ≡ ok s1
      → get_elem? s1.was_key_value s1.layer_index ≡ some false
      → Parses (keyed s1 (set s1.was_key_value s1.layer_index true)) evs s2
      → handle_key_value_end s2 ≡ ok s3
      → ParsesAll s3 fields s4
      → ParsesAll s (key_event k ∷ (evs ++ fields)) s4
  unfolding sax_parse handle
  field-Parses s s1 s2 s3 s4 k evs fields e1 clear value e2 others rest =
      rw
        (
          e1,
          set_elem-Clear s1.was_key_value s1.layer_index true clear,
          append_assoc evs fields rest,
          value (fields ++ rest),
          e2,
          others rest,
        )
        refl

  pub item-Parses :
      (s s1 s2 : Encoder) (evs items : List Event)
      → Parses s evs s1
      → handle_key_value_end s1 ≡ ok s1
      → ParsesAll s1 items s2
      → ParsesAll s (evs ++ items) s2
  item-Parses s s1 s2 evs items value e others rest =
      rw (append_assoc evs items rest, value (items ++ rest), e, others rest) refl

  module _ (resolve : Bytes → Tree) (csv_prefix : Bytes) (disable_csv_handling : Bool) where
    abbrev pub Resolved : Bytes → Type 0
    Resolved v = string_tree env csv_prefix disable_csv_handling v ≡ ok (resolve v)

    -- The settings are those that the strings are resolved with, and the flags of the layers that
    -- are to be used are clear.
    abbrev pub Ready : Encoder → (first n : ℕ) → Type 0
    Ready s first n =
        (s.csv_prefix ≡ csv_prefix)
        × (s.disable_csv_handling ≡ disable_csv_handling)
        × Clear s.was_key_value first n

    pub Ready-keys :
        (s s' : Encoder) (first n first' n' : ℕ)
        → Ready s first n
        → s'.csv_prefix ≡ s.csv_prefix
        → s'.disable_csv_handling ≡ s.disable_csv_handling
        → s'.was_key_value ≡ s.was_key_value
        → first ≤ first'
        → first' + n' ≤ first + n
        → Ready s' first' n'
    Ready-keys s s' first n first' n' (p, d, clear) e f g h h' =
        (e ∙ p, f ∙ d, λ k l u. ap (λ ks. get_elem? ks k) g ∙ clear k (omega arith) (omega arith))

    module _ (ev : Event) (t : Tree) where
      pub leaf_stores :
          (s : Encoder) (o : Outer) (x b n i c m low : ℕ) (cs : List ℕ)
          → Open s o x b n i c m cs
          → Room s low cs (advance t cs) (depth t) (expressions t)
          → suc (b + n) ≤ low
          → x < s.next_expression_index
          → handle env s ev ≡ (build s t >>= handle_key_value_end)
          → (s' : Encoder) × Parses s (ev ∷ []) s' × Built s s' o x b n i c m cs t
      leaf_stores s o x b n i c m low cs at room before earlier h =
          let (s', e, built) = build-Built t s o x b n i c m low cs at room before earlier in
          (s', leaf-Parses s s' t ev h e, built)

    pub inner_layer :
        {s s1 : Encoder} {o : Outer} {x b n i c m c0 : ℕ} {cs : List ℕ} {head : Bytes}
        → Open s o x b n i c m (c0 ∷ cs)
        → Started s s1 o x b n i c m c0 cs head
        → s1.layer_index ≡ suc s.layer_index
    inner_layer {o} {c0} at st = grind (lengths, st.opened.layer, at.layer)

    pub fits :
        {s : Encoder} {o : Outer} {x b n i c m c0 low : ℕ} {cs : List ℕ} (head : Bytes)
        (ts : Forest)
        → Open s o x b n i c m (c0 ∷ cs)
        → Room s low
            (c0 ∷ cs)
            (advance (expression head ts) (c0 ∷ cs))
            (depth (expression head ts))
            (expressions (expression head ts))
        → suc (b + n) ≤ low
        → b + n < s.root.argument_count
    fits {s} {c0} {cs} head ts at room before = omega (
      arith,
      room.layered.0,
      Layered-le (c0 + size ts) s.root.argument_count cs (advance_forest ts cs) room.layered.2,
    )

    pub Ready-keyed :
        (s : Encoder) (n : ℕ)
        → Ready s s.layer_index (suc n)
        → Ready (keyed s (set s.was_key_value s.layer_index true)) (suc s.layer_index) n
    Ready-keyed s n (p, d, clear) = (
      p,
      d,
      λ k l u.
          get_elem?-set_ne s.was_key_value s.layer_index k true (λ e. omega arith)
          ∙ clear k (omega arith) (omega arith),
    )

    pub member_end :
        (s1 s2 : Encoder)
        → get_elem? s1.was_key_value s1.layer_index ≡ some false
        → Kept (keyed s1 (set s1.was_key_value s1.layer_index true)) s2
        → handle_key_value_end s2 ≡ end_expression (keyed s2 s1.was_key_value)
    member_end s1 s2 clear kept =
        key_end s2 s1.was_key_value (ap (get_elem? s1.was_key_value) kept.layer ∙ clear)
          (kept.keys ∙ ap (λ l. set s1.was_key_value l true) (sym kept.layer))

    module _ {s s1 : Encoder} {o : Outer} {x b n i c m c0 low : ℕ} {cs : List ℕ} {head : Bytes}
        {ts : Forest} (at : Open s o x b n i c m (c0 ∷ cs))
        (room : Room s low
          (c0 ∷ cs)
          (advance (expression head ts) (c0 ∷ cs))
          (depth (expression head ts))
          (expressions (expression head ts)))
        (before : suc (b + n) ≤ low) (st : Started s s1 o x b n i c m c0 cs head) where
      -- The expression can be ended once its arguments are in place.
      pub finish :
          (s2 : Encoder)
          → BuiltForest s1 s2 (inner o x n c0) s.next_expression_index c0 0 c0 0 0 cs ts
          → x < s.next_expression_index
          → (s3 : Encoder) × (end_expression s2 ≡ ok s3)
            × Built s s3 o x b n i c m (c0 ∷ cs) (expression head ts)
      finish s2 forest earlier =
          let (s3, e3, ended) = end_expression-Ended o x n forest.opened (
            omega (
              arith,
              Layered-le (c0 + size ts) s.root.argument_count cs (advance_forest ts cs)
                  room.layered.2,
              st.frame.arguments,
              forest.frame.arguments,
            )) in
          (s3, e3, node-Built at room before st forest ended earlier)

    abbrev pub JsonStores : Json → Type 0
    JsonStores j =
        (s : Encoder) (o : Outer) (x b n i c m low : ℕ) (cs : List ℕ)
        → Open s o x b n i c m cs
        → Room s low cs (advance (tree_of resolve j) cs) (depth (tree_of resolve j))
            (expressions (tree_of resolve j))
        → suc (b + n) ≤ low
        → x < s.next_expression_index
        → Ready s (suc s.layer_index) (depth (tree_of resolve j))
        → (s' : Encoder) × Parses s (events j) s' × Built s s' o x b n i c m cs (tree_of resolve j)

    abbrev pub ForestStores : List Event → Forest → Type 0
    ForestStores evs ts =
        (s : Encoder) (o : Outer) (x b n i c m low : ℕ) (cs : List ℕ)
        → Open s o x b n i c m cs
        → Room s low cs (advance_forest ts cs) (depth_forest ts) (expressions_forest ts)
        → b + n + size ts ≤ low
        → x < s.next_expression_index
        → Ready s s.layer_index (suc (depth_forest ts))
        → (s' : Encoder) × ParsesAll s evs s' × BuiltForest s s' o x b n i c m cs ts
