-- ===== src/Serializer/Keys.antt =====
-- Source/WisentSerializer.cpp: `wasKeyValue`, which tells the end of a member of an object.
use wisent.Prelude.{
  ℕ, zero, suc, ◌+◌, ◌≤◌, ◌<◌, ◌≡◌, refl, ◌∙◌, ap, Bool, true, false, some, List, [], ◌∷◌, arith,
  Result, ok, ◌>>=◌, length, get_elem?, set, or_fail, out_of_bounds, if◌then◌else◌, lt→ltb,
  get_elem?-set_self, length-set,
}
use wisent.Serializer.JsonToWisent.{Encoder, set_elem, end_expression, handle_key_value_end}
use wisent.Serializer.Tree.{Forest}
use wisent.Serializer.Open.{Outer, Open}
use wisent.Serializer.Build.{BuiltForest}

-- The flags of the `n` layers from `first` on are clear.
abbrev pub Clear : List Bool → (first n : ℕ) → Type 0
Clear keys first n = (k : ℕ) → first ≤ k → k < first + n → get_elem? keys k ≡ some false

abbrev pub keyed : Encoder → List Bool → Encoder
keyed s keys = record s { was_key_value = keys }

-- The flags have no part in what is open and what is stored.
pub Open-keyed :
    {s : Encoder} {o : Outer} {x b n i c m : ℕ} {cs : List ℕ} (keys : List Bool)
    → Open s o x b n i c m cs
    → Open (keyed s keys) o x b n i c m cs
Open-keyed keys at = record {
  sized = at.sized;
  small = at.small;
  filled = at.filled;
  indices = at.indices;
  iterators = at.iterators;
  layers = at.layers;
  layer = at.layer;
  few = at.few;
  known = at.known;
  start = at.start;
  count = at.count;
  off = at.off;
  ends = at.ends;
  within = at.within;
  pending = at.pending;
}

pub BuiltForest-keyed :
    {s s' : Encoder} {o : Outer} {x b n i c m : ℕ} {cs : List ℕ} (keys : List Bool) (ts : Forest)
    → BuiltForest (keyed s keys) s' o x b n i c m cs ts
    → BuiltForest s (keyed s' s.was_key_value) o x b n i c m cs ts
BuiltForest-keyed {s} keys ts built = record {
  opened = Open-keyed s.was_key_value built.opened;
  frame = built.frame;
  stored = built.stored;
  cells = built.cells;
  next = built.next;
  kept = record {
    rle = built.kept.rle;
    csv = built.kept.csv;
    prefix = built.kept.prefix;
    keys = refl;
    layer = built.kept.layer;
  };
}

pub length-get_elem? :
    (keys : List Bool) (k : ℕ) (v : Bool) → get_elem? keys k ≡ some v → k < length keys
length-get_elem? [] k v h = cc
length-get_elem? (x ∷ keys) zero v h = omega arith
length-get_elem? (x ∷ keys) (suc k) v h = omega (arith, length-get_elem? keys k v h)

set-set : (keys : List Bool) (k : ℕ) (v w : Bool) → set (set keys k v) k w ≡ set keys k w
set-set [] k v w = refl
set-set (x ∷ keys) zero v w = refl
set-set (x ∷ keys) (suc k) v w = ap (◌∷◌ x) (set-set keys k v w)

set-get_elem? :
    (keys : List Bool) (k : ℕ) (v : Bool) → get_elem? keys k ≡ some v → set keys k v ≡ keys
set-get_elem? [] k v h = refl
set-get_elem? (x ∷ keys) zero v h = cc
set-get_elem? (x ∷ keys) (suc k) v h = ap (◌∷◌ x) (set-get_elem? keys k v h)

pub set_elem-Clear :
    (keys : List Bool) (k : ℕ) (v : Bool)
    → get_elem? keys k ≡ some false
    → set_elem keys k v ≡ ok (set keys k v)
unfolding set_elem
set_elem-Clear keys k v h = rw (lt→ltb k (length keys) (length-get_elem? keys k false h)) refl

-- Where no member ends, nothing happens.
pub no_key_end :
    (s : Encoder)
    → get_elem? s.was_key_value s.layer_index ≡ some false
    → handle_key_value_end s ≡ ok s
unfolding handle_key_value_end
no_key_end s h = rw h refl

-- Where one ends, its flag is cleared, and its expression is closed.
pub key_end :
    (s : Encoder) (keys : List Bool)
    → get_elem? keys s.layer_index ≡ some false
    → s.was_key_value ≡ set keys s.layer_index true
    → handle_key_value_end s ≡ end_expression (keyed s keys)
unfolding handle_key_value_end set_elem
key_end s keys clear e =
    ap ended e
    ∙ rw
        (
          get_elem?-set_self keys s.layer_index true inside,
          lt→ltb s.layer_index (length (set keys s.layer_index true))
              (omega (arith, inside, length-set keys s.layer_index true)),
          set-set keys s.layer_index true false,
          set-get_elem? keys s.layer_index false clear,
        )
        refl
  where
    inside : s.layer_index < length keys
    inside = length-get_elem? keys s.layer_index false clear

    ended : List Bool → Result Encoder
    ended keys' = do
      was_key ← or_fail (get_elem? keys' s.layer_index) out_of_bounds
      if was_key
          then (do keys'' ← set_elem keys' s.layer_index false; end_expression (keyed s keys''))
          else ok s
