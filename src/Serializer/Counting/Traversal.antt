-- ===== src/Serializer/Counting/Traversal.antt =====
-- Source/WisentSerializer.cpp: the first traversal of `load` counts what it should: one event.
use wisent.Prelude.{
  lengths, ℕ, suc, ◌+◌, ◌-◌, ◌*◌, ◌^◌, ◌≤◌, ◌<◌, ◌≡◌, ◌≢◌, refl, ◌∙◌, sym, ap, Bool, true, false,
  Option, List, [], ◌∷◌, ◌++◌, Bytes, arith, length, Result, ok, ◌>>=◌, set, if◌then◌else◌,
  append_assoc, length-set,
}
use wisent.Json.{ParseEvent, value}
use wisent.Csv.{Environment}
use wisent.Serializer.JsonToWisent.{sub64}
use wisent.Serializer.FirstPass.{
  Counter, grow, prepare, open_layer, close_key, close_layer, count_value, callback, parse, add_at,
}
use wisent.Serializer.TypeRuns.{sub64-sub}
use wisent.Serializer.Tree.{Forest, expression}
use wisent.Serializer.Counting.{counted, counted_forest, present, raise, entry}
use wisent.Serializer.Counting.Steps.{
  state, flag_of, Grows, grow_counts, grow_keys, flag_of-set_self, flag_of-set_ne, add_at-last,
  close_key-state,
}

abbrev pub below : List ℕ → List ℕ
below [] = []
below (r ∷ rs) = rs

present-below : (rs : List ℕ) → present rs ≡ entry rs 0 ∷ below rs
present-below [] = refl
present-below (r ∷ rs) = refl

pub raise-below : (rs : List ℕ) → raise rs ≡ suc (entry rs 0) ∷ below rs
raise-below [] = refl
raise-below (r ∷ rs) = refl

pub counted-below :
    (head : Bytes) (ts : Forest) (rs : List ℕ)
    → counted (expression head ts) rs ≡ suc (entry rs 0) ∷ present (counted_forest ts (below rs))
counted-below head ts [] = refl
counted-below head ts (r ∷ rs) = refl

-- The counter behind a value, in the layer of the object if the value was a member's.
abbrev pub done : (count : ℕ) (front rs : List ℕ) (member : Bool) (keys : List Bool) → Counter
done count front rs member keys = record {
  expression_count = count;
  argument_count_per_layer = front ++ rs;
  layer_index = (if member then length front - 1 else length front);
  was_key_value = keys;
}

abbrev pub grown : List Bool → ℕ → List Bool
grown keys d = grow keys d (length keys * 2) false

abbrev pub counter : ℕ → List ℕ → ℕ → List Bool → Counter
counter count counts layer keys = record {
  expression_count = count;
  argument_count_per_layer = counts;
  layer_index = layer;
  was_key_value = keys;
}

pub counter-eq :
    (count : ℕ) (keys : List Bool) {cs cs' : List ℕ} {l l' : ℕ}
    → cs ≡ cs'
    → l ≡ l'
    → counter count cs l keys ≡ counter count cs' l' keys
counter-eq count keys {cs'} {l} p q =
    ap (λ cs. counter count cs l keys) p ∙ ap (λ l. counter count cs' l keys) q

prepared :
    (count : ℕ) (front rs : List ℕ) (keys : List Bool) (d : ℕ)
    → prepare (state count front rs keys) d
      ≡ state count front (entry rs 0 ∷ below rs) (grown keys d)
unfolding prepare
prepared count front rs keys d =
    counter-eq count (grown keys d) (grow_counts front rs ∙ ap (λ t. front ++ t) (present-below rs))
      refl

pub opened :
    (count : ℕ) (front rs : List ℕ) (keys : List Bool) (d : ℕ)
    → open_layer (prepare (state count front rs keys) d)
      ≡ ok (state (suc count) (front ++ suc (entry rs 0) ∷ []) (below rs) (grown keys d))
unfolding open_layer
opened count front rs keys d =
    ap open_layer (prepared count front rs keys d)
    ∙ rw (add_at-last front (entry rs 0) 1 (below rs)) (
        ap ok (
          counter-eq (suc count) (grown keys d)
            (ap (λ (n : ℕ). front ++ n ∷ below rs)
                (let e : entry rs 0 + 1 ≡ suc (entry rs 0) = omega arith in e)
              ∙ sym (append_assoc front (suc (entry rs 0) ∷ []) (below rs)))
            (grind lengths)))

-- A depth's flag is clear, and no other has changed.
pub record Closed (keys keys' : List Bool) (d : ℕ) : Type 0 where
  pub inside : d < length keys'
  pub longer : length keys ≤ length keys'
  pub clear : flag_of keys' d ≡ false
  pub same : (k : ℕ) → k ≢ d → flag_of keys' k ≡ flag_of keys k

pub set-Closed :
    (keys keys1 : List Bool) (d : ℕ) → Grows keys keys1 d → Closed keys (set keys1 d false) d
set-Closed keys keys1 d g = record {
  inside = omega (arith, g.inside, length-set keys1 d false);
  longer = omega (arith, g.longer, length-set keys1 d false);
  clear = flag_of-set_self keys1 d;
  same = λ k h. flag_of-set_ne keys1 d k false (λ e. h (sym e)) ∙ g.same k;
}

-- Where a value has been counted, the flag of its depth is read and cleared.
close_counted :
    (count : ℕ) (front rs : List ℕ) (keys keys1 : List Bool) (d : ℕ)
    → Grows keys keys1 d
    → length front < 2 ^ 64
    → (flag_of keys d ≡ true → 1 ≤ length front)
    → close_key (state count front rs keys1) d
      ≡ ok (done count front rs (flag_of keys d) (set keys1 d false))
close_counted count front rs keys keys1 d g few member =
    close_key-state (state count front rs keys1) d g.inside few (λ e. member (sym (g.same d) ∙ e))
    ∙ ap (λ b. ok (done count front rs b (set keys1 d false))) (g.same d)

module _ (env : Environment) (csv_prefix : Bytes) (disable_csv_handling : Bool) where
  abbrev pub run : Counter → List (ℕ × ParseEvent) → Result Counter
  run = parse env csv_prefix disable_csv_handling

  abbrev pub step : Counter → ℕ → ParseEvent → Result Counter
  step = callback env csv_prefix disable_csv_handling

  pub value_step :
      (text : Option Bytes) (count count' : ℕ) (front rs rs' : List ℕ) (keys : List Bool) (d : ℕ)
      → count_value env csv_prefix disable_csv_handling
          (state count front (raise rs) (grown keys d))
          text
        ≡ ok (state count' front rs' (grown keys d))
      → d ≤ length keys
      → 1 ≤ length keys
      → length front < 2 ^ 64
      → (flag_of keys d ≡ true → 1 ≤ length front)
      → step (state count front rs keys) d (value text)
        ≡ ok (done count' front rs' (flag_of keys d) (set (grown keys d) d false))
  unfolding callback
  value_step text count count' front rs rs' keys d counts inside one few member =
      ap
        (λ c. add_at c.argument_count_per_layer c.layer_index 1 >>= λ cs.
          closes (record c { argument_count_per_layer = cs }))
        (prepared count front rs keys d)
      ∙ rw (add_at-last front (entry rs 0) 1 (below rs)) (
          ap (λ t. closes (state count front t (grown keys d)))
            (ap (λ (n : ℕ). n ∷ below rs)
                (let e : entry rs 0 + 1 ≡ suc (entry rs 0) = omega arith in e)
              ∙ sym (raise-below rs))
          ∙ rw counts (
              close_counted count' front rs' keys (grown keys d) d (grow_keys keys d inside one) few
                member))
    where
      closes : Counter → Result Counter
      closes c = count_value env csv_prefix disable_csv_handling c text >>= λ c'. close_key c' d

  pub container_end :
      (count n : ℕ) (front rs : List ℕ) (keys0 keys : List Bool) (d : ℕ)
      → flag_of keys d ≡ flag_of keys0 d
      → d ≤ length keys
      → 1 ≤ length keys
      → suc (length front) < 2 ^ 64
      → (flag_of keys0 d ≡ true → 1 ≤ length front)
      → close_layer (prepare (state count (front ++ n ∷ []) rs keys) d) d
        ≡ ok (done count front (n ∷ present rs) (flag_of keys0 d) (set (grown keys d) d false))
  unfolding close_layer
  container_end count n front rs keys0 keys d same inside one few member =
      ap end (prepared count (front ++ n ∷ []) rs keys d)
      ∙ (ap (λ c. close_key c d)
            (counter-eq count (grown keys d)
              (append_assoc front (n ∷ []) (entry rs 0 ∷ below rs)
                ∙ ap (λ t. front ++ n ∷ t) (sym (present-below rs)))
              layer)
          ∙ (close_counted count front (n ∷ present rs) keys (grown keys d) d
                (grow_keys keys d inside one) (omega arith) (λ e. member (sym same ∙ e))
              ∙ ap (λ b. ok (done count front (n ∷ present rs) b (set (grown keys d) d false)))
                  same))
    where
      end : Counter → Result Counter
      end c = close_key (record c { layer_index = sub64 c.layer_index 1 }) d

      layer : sub64 (length (front ++ n ∷ [])) 1 ≡ length front
      layer = sub64-sub _ 1 (grind lengths) (grind lengths) ∙ grind lengths
