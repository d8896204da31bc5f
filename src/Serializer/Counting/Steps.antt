-- ===== src/Serializer/Counting/Steps.antt =====
-- Source/WisentSerializer.cpp: the parts of the callback of the first traversal.
use wisent.Prelude.{
  lengths, ℕ, zero, suc, ◌+◌, ◌-◌, ◌*◌, ◌^◌, ◌≤◌, ◌<◌, ◌≡◌, ◌≢◌, refl, sym, ap, Bool, true, false,
  some, List, [], ◌∷◌, ◌++◌, arith, length, ok, ◌>>=◌, get_elem?, set, replicate, leb, lt→ltb,
  if◌then◌else◌, append-nil, length-append, length-replicate, get_elem?-append, Bool-cases, inl,
  inr,
}
use mathlib.Core.Path.{subst}
use wisent.Serializer.JsonToWisent.{set_elem, sub64}
use wisent.Serializer.FirstPass.{Counter, resize, grow, add_at, close_key}
use wisent.Serializer.TypeRuns.{sub64-sub}
use wisent.Serializer.End.{set_elem-append}
use wisent.Serializer.Counting.{present}

-- The state of the traversal in the layer behind `front`.
abbrev pub state : (count : ℕ) (front rs : List ℕ) (keys : List Bool) → Counter
state count front rs keys = record {
  expression_count = count;
  argument_count_per_layer = front ++ rs;
  layer_index = length front;
  was_key_value = keys;
}

-- The flag of a depth; behind the end of the vector there is none.
abbrev pub flag_of : List Bool → ℕ → Bool
flag_of [] k = false
flag_of (b ∷ bs) zero = b
flag_of (b ∷ bs) (suc k) = flag_of bs k

grow_full : (xs : List ℕ) (n : ℕ) → length xs ≡ n → grow xs n (suc n) 0 ≡ xs ++ 0 ∷ []
unfolding grow resize
grow_full xs n h = let one : suc n - length xs ≡ 1 = omega arith in rw one (ground arith)

grow_inside : (xs : List ℕ) (n m : ℕ) → n < length xs → grow xs n m 0 ≡ xs
unfolding grow
grow_inside xs n m h = ground arith

pub grow_counts :
    (front rs : List ℕ)
    → grow (front ++ rs) (length front) (suc (length front)) 0 ≡ front ++ present rs
grow_counts front [] = rw append-nil (grow_full front (length front) refl)
grow_counts front (r ∷ rs) = grow_inside (front ++ r ∷ rs) (length front) _ (grind lengths)

pub flag_of-false :
    (keys : List Bool) (n k : ℕ) → flag_of (keys ++ replicate n false) k ≡ flag_of keys k
flag_of-false [] zero k = refl
flag_of-false [] (suc n) zero = refl
flag_of-false [] (suc n) (suc k) = flag_of-false [] n k
flag_of-false (b ∷ bs) n zero = refl
flag_of-false (b ∷ bs) n (suc k) = flag_of-false bs n k

-- The vector of the flags is long enough for a depth, and has the same flags.
pub record Grows (keys keys' : List Bool) (depth : ℕ) : Type 0 where
  pub inside : depth < length keys'
  pub longer : length keys ≤ length keys'
  pub same : (k : ℕ) → flag_of keys' k ≡ flag_of keys k

pub grow_keys :
    (keys : List Bool) (depth : ℕ)
    → depth ≤ length keys
    → 1 ≤ length keys
    → Grows keys (grow keys depth (length keys * 2) false) depth
unfolding grow resize
grow_keys keys depth h one = elim (Bool-cases (leb (length keys) depth)) [
  | inl full ↦
      subst (λ ks. Grows keys ks depth) (sym (grown (ground (arith, full))))
        (record {
          inside = omega (
            arith,
            h,
            one,
            length-append {0} keys (replicate (length keys * 2 - length keys) false),
            length-replicate (length keys * 2 - length keys) false,
          );
          longer = grind lengths;
          same = flag_of-false keys (length keys * 2 - length keys);
        })
  | inr room ↦
      subst (λ ks. Grows keys ks depth) (sym (kept room))
        (record { inside = ground (arith, room); longer = omega arith; same = λ k. refl })
]
  where
    grown :
        length keys ≤ depth
        → grow keys depth (length keys * 2) false
          ≡ keys ++ replicate (length keys * 2 - length keys) false
    grown full = ground arith

    kept : leb (length keys) depth ≡ false → grow keys depth (length keys * 2) false ≡ keys
    kept room = rw room refl

pub get_elem?-flag_of :
    (keys : List Bool) (k : ℕ) → k < length keys → get_elem? keys k ≡ some (flag_of keys k)
get_elem?-flag_of [] k h = absurd (omega arith)
get_elem?-flag_of (b ∷ bs) zero h = refl
get_elem?-flag_of (b ∷ bs) (suc k) h = get_elem?-flag_of bs k (omega arith)

pub flag_of-set_self : (keys : List Bool) (k : ℕ) → flag_of (set keys k false) k ≡ false
flag_of-set_self [] k = refl
flag_of-set_self (b ∷ bs) zero = refl
flag_of-set_self (b ∷ bs) (suc k) = flag_of-set_self bs k

pub flag_of-set_ne :
    (keys : List Bool) (k j : ℕ) (v : Bool) → k ≢ j → flag_of (set keys k v) j ≡ flag_of keys j
flag_of-set_ne [] k j v h = refl
flag_of-set_ne (b ∷ bs) zero zero v h = absurd (h refl)
flag_of-set_ne (b ∷ bs) zero (suc j) v h = refl
flag_of-set_ne (b ∷ bs) (suc k) zero v h = refl
flag_of-set_ne (b ∷ bs) (suc k) (suc j) v h = flag_of-set_ne bs k j v (λ e. h (ap suc e))

set-clear : (keys : List Bool) (k : ℕ) → flag_of keys k ≡ false → set keys k false ≡ keys
set-clear [] k h = refl
set-clear (b ∷ bs) zero h = cc
set-clear (b ∷ bs) (suc k) h = ap (◌∷◌ b) (set-clear bs k h)

pub add_at-last :
    (front : List ℕ) (r n : ℕ) (rs : List ℕ)
    → add_at (front ++ r ∷ rs) (length front) n ≡ ok (front ++ (r + n) ∷ rs)
unfolding add_at
add_at-last front r n rs = rw (get_elem?-append front r rs) (set_elem-append front r (r + n) rs)

module _ (c : Counter) (depth : ℕ) (inside : depth < length c.was_key_value) where
  closed_if :
      (b : Bool)
      → c.layer_index < 2 ^ 64
      → (b ≡ true → 1 ≤ c.layer_index)
      → (b ≡ false → set c.was_key_value depth false ≡ c.was_key_value)
      → (if b
          then (do
            was_key_value ← set_elem c.was_key_value depth false
            ok (record c { was_key_value = was_key_value; layer_index = sub64 c.layer_index 1 }))
          else ok c)
        ≡ ok (record c {
          layer_index = (if b then c.layer_index - 1 else c.layer_index);
          was_key_value = set c.was_key_value depth false;
        })
  unfolding set_elem
  closed_if true few below clear =
      rw (lt→ltb depth (length c.was_key_value) inside, sub64-sub c.layer_index 1 (below refl) few)
        refl
  closed_if false few below clear =
      ap (λ ks. ok (record c { was_key_value = ks })) (sym (clear refl))

  -- The end of a member goes back to the layer of the object.
  pub close_key-state :
      c.layer_index < 2 ^ 64
      → (flag_of c.was_key_value depth ≡ true → 1 ≤ c.layer_index)
      → close_key c depth
        ≡ ok (record c {
          layer_index =
              (if flag_of c.was_key_value depth then c.layer_index - 1 else c.layer_index);
          was_key_value = set c.was_key_value depth false;
        })
  unfolding close_key
  close_key-state few below =
      rw (get_elem?-flag_of c.was_key_value depth inside)
        (closed_if (flag_of c.was_key_value depth) few below (set-clear c.was_key_value depth))
