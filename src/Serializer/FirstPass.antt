-- ===== src/Serializer/FirstPass.antt =====
-- Source/WisentSerializer.cpp: the callback of the first traversal in `load`.
use wisent.Prelude.{
  ℕ, suc, ◌+◌, ◌-◌, ◌*◌, Bool, true, false, not, ◌&&◌, Option, none, some, List, [], ◌∷◌, ◌++◌,
  Bytes, Result, ok, out_of_bounds, ◌>>=◌, or_fail, if◌then◌else◌, leb, length, get_elem?,
  replicate, take,
}
use wisent.Csv.{Environment, is_csv_name}
use wisent.Json.{ParseEvent, object_start, object_end, array_start, array_end, key, value}
use wisent.Serializer.JsonToWisent.{sub64, set_elem}

-- The variables that the callback captures.
pub record Counter : Type 0 where
  pub expression_count : ℕ
  pub argument_count_per_layer : List ℕ
  pub layer_index : ℕ
  pub was_key_value : List Bool

-- What they hold before the traversal.
abbrev pub initial_counter : Counter
initial_counter = record {
  expression_count = 0;
  argument_count_per_layer = [];
  layer_index = 0;
  was_key_value = replicate 16 false;
}

module _ {ℓ} {A : Type ℓ} where
  -- `std::vector::resize(n, v)`.
  unfoldable pub resize : List A → ℕ → A → List A
  resize xs n v = if leb n (length xs) then take n xs else xs ++ replicate (n - length xs) v

  -- `if(xs.size() <= index) xs.resize(n, v)`.
  unfoldable pub grow : List A → (index n : ℕ) → A → List A
  grow xs index n v = if leb (length xs) index then resize xs n v else xs

-- `counts[layer] += n`.
unfoldable pub add_at : List ℕ → (layer n : ℕ) → Result (List ℕ)
add_at counts layer n = do
  count ← or_fail (get_elem? counts layer) out_of_bounds
  set_elem counts layer (count + n)

-- The two resizes at the head of the callback.
unfoldable pub prepare : Counter → (depth : ℕ) → Counter
prepare c depth = record c {
  was_key_value = grow c.was_key_value depth (length c.was_key_value * 2) false;
  argument_count_per_layer = grow c.argument_count_per_layer c.layer_index (suc c.layer_index) 0;
}

-- `argumentCountPerLayer[layerIndex]++; expressionCount++; layerIndex++`.
unfoldable pub open_layer : Counter → Result Counter
open_layer c = do
  counts ← add_at c.argument_count_per_layer c.layer_index 1
  ok (record c {
    argument_count_per_layer = counts;
    expression_count = suc c.expression_count;
    layer_index = suc c.layer_index;
  })

-- `if(wasKeyValue[depth]) { wasKeyValue[depth] = false; layerIndex--; }`.
unfoldable pub close_key : Counter → (depth : ℕ) → Result Counter
close_key c depth = do
  was_key ← or_fail (get_elem? c.was_key_value depth) out_of_bounds
  if was_key
      then (do
        was_key_value ← set_elem c.was_key_value depth false
        ok (record c { was_key_value = was_key_value; layer_index = sub64 c.layer_index 1 }))
      else ok c

-- `layerIndex--`, then the same.
unfoldable pub close_layer : Counter → (depth : ℕ) → Result Counter
close_layer c depth = close_key (record c { layer_index = sub64 c.layer_index 1 }) depth

module _ (env : Environment) (csv_prefix : Bytes) (disable_csv_handling : Bool) where
  -- The expressions and arguments that the table of a CSV file needs.
  unfoldable pub count_table : Counter → Bytes → Result Counter
  count_table c filename = do
    doc ← env.open_csv_file (csv_prefix ++ filename)
    let rows = doc.row_count
    let cols = doc.column_count
    let counts = grow c.argument_count_per_layer (c.layer_index + 2) (c.layer_index + 2 + 1) 0
    counts' ← add_at counts (c.layer_index + 1) cols
    counts'' ← add_at counts' (c.layer_index + 2) (cols * rows)
    ok (record c {
      argument_count_per_layer = counts'';
      expression_count = suc c.expression_count + cols;
    })

  unfoldable pub count_value : Counter → Option Bytes → Result Counter
  count_value c none = ok c
  count_value c (some filename) =
      if not disable_csv_handling && is_csv_name filename then count_table c filename else ok c

  unfoldable pub callback : Counter → (depth : ℕ) → ParseEvent → Result Counter
  callback c depth key = do
    c' ← open_layer (prepare c depth)
    was_key_value ← set_elem c'.was_key_value depth true
    ok (record c' { was_key_value = was_key_value })
  callback c depth object_start = open_layer (prepare c depth)
  callback c depth array_start = open_layer (prepare c depth)
  callback c depth object_end = close_layer (prepare c depth) depth
  callback c depth array_end = close_layer (prepare c depth) depth
  callback c depth (value text) = do
    let c' = prepare c depth
    counts ← add_at c'.argument_count_per_layer c'.layer_index 1
    c'' ← count_value (record c' { argument_count_per_layer = counts }) text
    close_key c'' depth

  -- `json::parse` with the callback.
  unfoldable pub parse : Counter → List (ℕ × ParseEvent) → Result Counter
  parse c [] = ok c
  parse c ((depth, event) ∷ es) = do c' ← callback c depth event; parse c' es
