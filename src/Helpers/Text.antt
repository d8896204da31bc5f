-- ===== src/Helpers/Text.antt =====
-- Source/WisentHelpers.h: strings in the string buffer, `storeString` and `viewString`.
use wisent.Prelude.{
  lengths, ℕ, zero, suc, ◌+◌, ◌≤◌, ◌≡◌, refl, ◌∙◌, ap, inl, inr, [], ◌∷◌, ◌++◌, Bytes, arith,
  append_assoc, length, take, drop, ◌==◌, Bool-cases, drop-append,
}
use wisent.Helpers.Defs.{Root, c_str, store_string, view_string}
use wisent.Helpers.Frame.{Frame, Nothing}

-- At offset `o` the string buffer holds the text of `s`, its terminator, and whatever follows.
abbrev pub TextAt : Root → ℕ → Bytes → Type 0
TextAt root o s =
    (more : Bytes) × (drop o root.string_buffer ≡ c_str s ++ 0 ∷ more)
    × (o ≤ length root.string_buffer)

-- The memory ends where the last string ends.
abbrev pub IsFilled : Root → Type 0
IsFilled root = root.string_arguments_fill_index ≡ length root.string_buffer

pub take-length : (xs : Bytes) → take (length xs) xs ≡ xs
take-length [] = refl
take-length (x ∷ xs) = rw (take-length xs)

drop_within : (n : ℕ) (xs ys : Bytes) → n ≤ length xs → drop n (xs ++ ys) ≡ drop n xs ++ ys
drop_within zero xs ys h = refl
drop_within (suc n) [] ys h = absurd (omega arith)
drop_within (suc n) (x ∷ xs) ys h = drop_within n xs ys (omega arith)

c_str-terminated : (s more : Bytes) → c_str (c_str s ++ 0 ∷ more) ≡ c_str s
unfolding c_str
c_str-terminated [] more = refl
c_str-terminated (x ∷ s) more = elim (Bool-cases (x == 0)) [
  | inl stop ↦ rw stop
  | inr on ↦ rw on (rw on (ap (◌∷◌ x) (c_str-terminated s more)))
]

pub view_string-TextAt :
    (root : Root) (o : ℕ) (s : Bytes) → TextAt root o s → view_string root o ≡ c_str s
unfolding view_string
view_string-TextAt root o s (more, at, within) = rw at (c_str-terminated s more)

pub TextAt-Frame :
    {root root' : Root} {V T : ℕ → Type 0} {lo hi : ℕ} (o : ℕ) (s : Bytes)
    → Frame root root' V T lo hi
    → TextAt root o s
    → TextAt root' o s
TextAt-Frame {root} {root'} o s f (more, at, within) = go f.strings
  where
    go :
        ((add : Bytes) × (root'.string_buffer ≡ root.string_buffer ++ add)
          × (root'.string_arguments_fill_index ≡ root.string_arguments_fill_index + length add))
        → TextAt root' o s
    go (add, e, _) = (
      more ++ add,
      ap (drop o) e
          ∙ (drop_within o root.string_buffer add within
              ∙ (ap (λ (t : Bytes). t ++ add) at ∙ append_assoc (c_str s) (0 ∷ more) add)),
      grind (lengths, ap (length {0}) e),
    )

pub IsFilled-Frame :
    {root root' : Root} {V T : ℕ → Type 0} {lo hi : ℕ}
    → Frame root root' V T lo hi
    → IsFilled root
    → IsFilled root'
IsFilled-Frame {root} {root'} f filled = go f.strings
  where
    go :
        ((add : Bytes) × (root'.string_buffer ≡ root.string_buffer ++ add)
          × (root'.string_arguments_fill_index ≡ root.string_arguments_fill_index + length add))
        → IsFilled root'
    go (add, e, e') = grind (lengths, ap (length {0}) e)

module _ (root : Root) (s : Bytes) (filled : IsFilled root) where
  appended : (store_string root s).0.string_buffer ≡ root.string_buffer ++ (c_str s ++ 0 ∷ [])
  unfolding store_string
  appended =
      ap (λ (t : Bytes). t ++ (c_str s ++ 0 ∷ []))
        (ap (λ (n : ℕ). take n root.string_buffer) filled ∙ take-length root.string_buffer)

  -- `storeString` adds to the string buffer and touches nothing else.
  pub store_string-Frame : (lo hi : ℕ) → Frame root (store_string root s).0 Nothing Nothing lo hi
  unfolding store_string
  store_string-Frame lo hi = record {
    arguments = refl;
    expressions = refl;
    words = refl;
    values = λ j h k. refl;
    types = λ j h k. refl;
    members = λ k m h l o. refl;
    strings = (c_str s ++ 0 ∷ [], appended, grind lengths);
  }

  -- The string stands at the offset that it returns.
  pub store_string-TextAt : TextAt (store_string root s).0 (store_string root s).1 s
  unfolding store_string
  store_string-TextAt = (
    [],
    ap (drop root.string_arguments_fill_index) appended
        ∙ (ap (λ (n : ℕ). drop n (root.string_buffer ++ (c_str s ++ 0 ∷ []))) filled
            ∙ drop-append root.string_buffer (c_str s ++ 0 ∷ [])),
    grind (lengths, ap (length {0}) appended),
  )
