-- ===== src/Serializer/Events/Steps.antt =====
-- Source/WisentSerializer.cpp: the handlers on the parts of a document, given that they store the parts
-- of these.
use wisent.Prelude.{
  ℕ, suc, ◌+◌, ◌≤◌, ◌<◌, ◌≡◌, refl, ◌∙◌, Bool, true, false, some, List, [], ◌∷◌, ◌++◌, Bytes, arith,
  ok, ◌>>=◌, get_elem?, set,
}
use Prim.Native.Nat.{max}
use wisent.Json.{Json, Event, key_event, events}
use wisent.Csv.{Environment}
use wisent.Serializer.JsonToWisent.{
  Encoder, start_expression, end_expression, handle_key_value_end, handle,
}
use wisent.Serializer.Tree.{
  Tree, Forest, nil, cons, expression, size, expressions, expressions_forest, depth, depth_forest,
  advance, advance_forest,
}
use wisent.Serializer.Open.{Outer, Open}
use wisent.Serializer.Start.{inner, Started, start_expression-Started}
use wisent.Serializer.Build.{Built, BuiltForest, Room}
use wisent.Serializer.Build.Sequence.{sequence-Built}
use wisent.Serializer.Build.Stores.{first-Room, rest-Room, inner-Room, nil-Built}
use wisent.Serializer.Translate.{tree_of}
use wisent.Serializer.Keys.{keyed, Open-keyed, BuiltForest-keyed, no_key_end}
use wisent.Serializer.Events.{
  Room-keyed, Parses, ParsesAll, container-Parses, field-Parses, item-Parses, Ready, Ready-keys,
  Ready-keyed, member_end, inner_layer, fits, finish, JsonStores, ForestStores,
}

module _ (env : Environment) (resolve : Bytes → Tree) (csv_prefix : Bytes)
    (disable_csv_handling : Bool) where
  pub nil_stores : ForestStores env resolve csv_prefix disable_csv_handling [] nil
  nil_stores s o x b n i c m low cs at room before earlier ready = (s, λ rest. refl, nil-Built at)

  module _ (head : Bytes) (start stop : Event)
      (starts : (s : Encoder) → handle env s start ≡ start_expression s head)
      (stops : (s : Encoder)
        → handle env s stop ≡ (end_expression s >>= handle_key_value_end)) where
    pub container_stores :
        (evs : List Event) (ts : Forest)
        → ForestStores env resolve csv_prefix disable_csv_handling evs ts
        → (s : Encoder) (o : Outer) (x b n i c m low : ℕ) (cs : List ℕ) → Open s o x b n i c m cs
        → Room s low cs
            (advance (expression head ts) cs)
            (depth (expression head ts))
            (expressions (expression head ts))
        → suc (b + n) ≤ low
        → x < s.next_expression_index
        → Ready env resolve csv_prefix disable_csv_handling s
            (suc s.layer_index)
            (depth (expression head ts))
        → (s' : Encoder) × Parses env s (start ∷ (evs ++ stop ∷ [])) s'
          × Built s s' o x b n i c m cs (expression head ts)
    container_stores evs ts store s o x b n i c m low [] at room before earlier ready =
        absurd (omega (arith, room.layers))
    container_stores evs ts store s o x b n i c m low (c0 ∷ cs) at room before earlier ready =
        let (s1, e1, st) =
          start_expression-Started head at
            (fits env resolve csv_prefix disable_csv_handling head ts at room before)
            (omega (arith, room.expressions)) in
        let (s2, inside, forest) =
          store s1 (inner o x n c0) s.next_expression_index c0 0 c0 0 0 (c0 + size ts) cs st.opened
            (inner-Room head ts room st) (omega arith) (omega (arith, st.next))
            (Ready-keys env resolve csv_prefix disable_csv_handling s s1 _ _ _ _ ready st.prefix
              st.csv st.keys
              (omega (arith, inner_layer env resolve csv_prefix disable_csv_handling at st))
              (omega (arith, inner_layer env resolve csv_prefix disable_csv_handling at st))) in
        let (s3, e3, built) =
          finish env resolve csv_prefix disable_csv_handling at room before st s2 forest earlier in
        (
          s3,
          container-Parses env s s1 s2 s3 head start stop evs (starts s) (stops s2) e1 inside e3,
          built,
        )

  module _ {s s1 : Encoder} {o : Outer} {x b n i c m low : ℕ} {cs : List ℕ} (t : Tree) (ts : Forest)
      (at : Open s o x b n i c m cs)
      (room : Room s low cs
        (advance_forest (cons t ts) cs)
        (depth_forest (cons t ts))
        (expressions_forest (cons t ts)))
      (before : b + n + size (cons t ts) ≤ low) (earlier : x < s.next_expression_index)
      (ready : Ready env resolve csv_prefix disable_csv_handling s s.layer_index
        (suc (depth_forest (cons t ts))))
      (one : Built s s1 o x b n i c m cs t) where
    -- Behind a tree, the encoder is ready for the rest of the forest.
    Ready-rest :
        Ready env resolve csv_prefix disable_csv_handling s1 s1.layer_index (suc (depth_forest ts))
    Ready-rest =
        Ready-keys env resolve csv_prefix disable_csv_handling s s1 _ _ _ _ ready one.kept.prefix
          one.kept.csv one.kept.keys (omega (arith, one.kept.layer)) (omega (arith, one.kept.layer))

    rest_stores :
        (evs : List Event)
        → ForestStores env resolve csv_prefix disable_csv_handling evs ts
        → (s' : Encoder) × ParsesAll env s1 evs s' × BuiltForest s s' o x b n i c m cs (cons t ts)
    rest_stores evs store =
        let (s2, rest, more) =
          store s1 o x b (suc n) _ _ _ low (advance t cs) one.opened (rest-Room t ts room one)
            (omega arith) (omega (arith, one.next)) Ready-rest in
        (s2, rest, sequence-Built at room before one more)

  pub items_step :
      (j : Json) (evs : List Event) (ts : Forest)
      → JsonStores env resolve csv_prefix disable_csv_handling j
      → ForestStores env resolve csv_prefix disable_csv_handling evs ts
      → ForestStores env resolve csv_prefix disable_csv_handling
          (events j ++ evs)
          (cons (tree_of resolve j) ts)
  items_step j evs ts first others s o x b n i c m low cs at room before earlier ready =
      let t = tree_of resolve j in
      let (s1, value, one) =
        first s o x b n i c m low cs at (first-Room t ts room) (omega arith) earlier (
          Ready-keys env resolve csv_prefix disable_csv_handling s s _ _ _ _ ready refl refl refl
            (omega arith) (omega arith)) in
      let (s2, rest, all) = rest_stores t ts at room before earlier ready one evs others in
      (
        s2,
        item-Parses env s s1 s2 (events j) evs value
            (no_key_end s1 (
              (Ready-rest t ts at room before earlier ready one).2 s1.layer_index (omega arith)
                (omega arith)))
            rest,
        all,
      )

  -- A member of an object: its key opens an expression that its value closes.
  module _ {s s1 : Encoder} {o : Outer} {x b n i c m c0 low : ℕ} {cs : List ℕ} (k : Bytes)
      (tv : Tree) (at : Open s o x b n i c m (c0 ∷ cs))
      (room : Room s low
        (c0 ∷ cs)
        (advance (expression k (cons tv nil)) (c0 ∷ cs))
        (depth (expression k (cons tv nil)))
        (expressions (expression k (cons tv nil))))
      (before : suc (b + n) ≤ low) (earlier : x < s.next_expression_index)
      (st : Started s s1 o x b n i c m c0 cs k)
      (clear : get_elem? s1.was_key_value s1.layer_index ≡ some false) where
    abbrev flagged : Encoder
    flagged = keyed s1 (set s1.was_key_value s1.layer_index true)

    value-Room : Room flagged (c0 + 1) cs (advance tv cs) (max (depth tv) 0) (expressions tv + 0)
    value-Room = Room-keyed _ (inner-Room k (cons tv nil) room st)

    member_finish :
        (s2 : Encoder)
        → Built flagged s2 (inner o x n c0) s.next_expression_index c0 0 c0 0 0 cs tv
        → (s3 : Encoder) × (handle_key_value_end s2 ≡ ok s3)
          × Built s s3 o x b n i c m (c0 ∷ cs) (expression k (cons tv nil))
    member_finish s2 one =
        let forest =
          BuiltForest-keyed {s = s1} (set s1.was_key_value s1.layer_index true) (cons tv nil) (
            sequence-Built (Open-keyed _ st.opened) value-Room (omega arith) one
              (nil-Built one.opened)) in
        let (s3, e3, built) =
          finish env resolve csv_prefix disable_csv_handling at room before st
            (keyed s2 s1.was_key_value) forest earlier in
        (
          s3,
          member_end env resolve csv_prefix disable_csv_handling s1 s2 clear one.kept ∙ e3,
          built,
        )

  pub fields_step :
      (k : Bytes) (j : Json) (evs : List Event) (ts : Forest)
      → JsonStores env resolve csv_prefix disable_csv_handling j
      → ForestStores env resolve csv_prefix disable_csv_handling evs ts
      → ForestStores env resolve csv_prefix disable_csv_handling
          (key_event k ∷ (events j ++ evs))
          (cons (expression k (cons (tree_of resolve j) nil)) ts)
  fields_step k j evs ts first others s o x b n i c m low [] at room before earlier ready =
      absurd (omega (arith, room.layers))
  fields_step k j evs ts first others s o x b n i c m low (c0 ∷ cs) at room before earlier ready =
      let tv = tree_of resolve j in
      let vs = cons tv nil in
      let t = expression k vs in
      let room1 = first-Room t ts room in
      let (s1, e1, st) =
        start_expression-Started k at
          (fits env resolve csv_prefix disable_csv_handling k vs at room1 (omega arith))
          (omega (arith, room.expressions)) in
      let ready1 : Ready env resolve csv_prefix disable_csv_handling s1 s1.layer_index
          (suc (depth tv)) =
        Ready-keys env resolve csv_prefix disable_csv_handling s s1 _ _ _ _ ready st.prefix st.csv
          st.keys (omega (arith, inner_layer env resolve csv_prefix disable_csv_handling at st))
          (omega (arith, inner_layer env resolve csv_prefix disable_csv_handling at st)) in
      let clear = ready1.2 s1.layer_index (omega arith) (omega arith) in
      let inside = value-Room k tv at room1 (omega arith) earlier st clear in
      let (s2, value, one) =
        first (keyed s1 (set s1.was_key_value s1.layer_index true)) (inner o x n c0)
          s.next_expression_index c0 0 c0 0 0 (c0 + 1) cs (Open-keyed _ st.opened)
          (first-Room tv nil inside) (omega arith) (omega (arith, st.next))
          (Ready-keyed env resolve csv_prefix disable_csv_handling s1 (depth tv) ready1) in
      let (s3, e3, built) = member_finish k tv at room1 (omega arith) earlier st clear s2 one in
      let (s4, rest, all) = rest_stores t ts at room before earlier ready built evs others in
      (s4, field-Parses env s s1 s2 s3 s4 k (events j) evs e1 clear value e3 rest, all)
