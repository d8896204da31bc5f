-- ===== src/Serializer/Arguments.antt =====
-- Source/WisentHelpers.h and Source/WisentSerializer.cpp: what the accessors read after an argument
-- has been written, and after a string has been stored.
use wisent.Prelude.{ℕ, ◌<◌, ◌≡◌, ◌∙◌, sym, ap, ◌≢◌, Bytes, arith, ok, or_fail, out_of_bounds, inr}
use wisent.Helpers.{
  Root, ArgumentType, type_code, make_argument, load_word, load_member, type_at, value_at,
  store_string, view_string, c_str,
}
use wisent.Helpers.Access.{IsSized, load-type, load-value, load-member}
use wisent.Helpers.Frame.{Frame, Frame-IsSized}
use wisent.Helpers.Text.{IsFilled, TextAt-Frame, store_string-TextAt, view_string-TextAt}
use wisent.Serializer.JsonToWisent.{store_argument}
use wisent.Serializer.Open.{
  argued, argued-Frame, type_of-argued, value_of-argued, store_argument-put,
}

-- What the accessors read in `root'` and `root`, where argument `i` has been written.
pub record Written (root root' : Root) (type : ArgumentType) (i v : ℕ) : Type 0 where
  pub code : load_word root' (type_at root' i) ≡ ok (type_code type)
  pub stored : load_word root' (value_at root' i) ≡ ok v
  pub types :
      (j : ℕ)
      → j < root.argument_count
      → j ≢ i
      → load_word root' (type_at root' j) ≡ load_word root (type_at root j)
  pub values :
      (j : ℕ)
      → j < root.argument_count
      → j ≢ i
      → load_word root' (value_at root' j) ≡ load_word root (value_at root j)
  pub members :
      (k m : ℕ) → k < root.expression_count → m < 3 → load_member root' k m ≡ load_member root k m

module _ {root : Root} (is : IsSized root) (type : ArgumentType) (i v : ℕ)
    (inside : i < root.argument_count) where
  abbrev root' : Root
  root' = argued root type i v

  f : (lo hi : ℕ) → Frame root root' (λ j. j ≡ i) (λ j. j ≡ i) lo hi
  f = argued-Frame is type i v inside

  is' : IsSized root'
  is' = Frame-IsSized (f 0 0) is

  argued-Written : Written root root' type i v
  argued-Written = record {
    code =
        load-type is' i inside
        ∙ ap (λ t. or_fail t out_of_bounds) (type_of-argued is type i v inside);
    stored =
        load-value is' i inside
        ∙ ap (λ t. or_fail t out_of_bounds) (value_of-argued is type i v inside);
    types = λ j h other.
        load-type is' j h
        ∙ (ap (λ t. or_fail t out_of_bounds) ((f 0 0).types j h other) ∙ sym (load-type is j h));
    values = λ j h other.
        load-value is' j h
        ∙ (ap (λ t. or_fail t out_of_bounds) ((f 0 0).values j h other) ∙ sym (load-value is j h));
    members = λ k m h l.
        load-member is' k m h l
        ∙ (ap (λ t. or_fail t out_of_bounds) ((f 0 0).members k m h l (inr (omega arith)))
            ∙ sym (load-member is k m h l));
  }

-- In a buffer of the size that the counts ask for, writing an argument with its type succeeds; both
-- are read back, and every other argument, type and member of an expression reads as before.
pub store_argument-Written :
    (root : Root) (type : ArgumentType) (i v : ℕ)
    → IsSized root
    → i < root.argument_count
    → (root' : Root) × (store_argument (make_argument type) root i v ≡ ok root')
      × Written root root' type i v
store_argument-Written root type i v is inside =
    (argued root type i v, store_argument-put type i v is inside, argued-Written is type i v inside)

-- Once a string is stored, its offset leads to its text, up to a NUL in it, and goes on to do so
-- through every later change that only adds to the string buffer.
pub view_string-store_string :
    (root root' : Root) (V T : ℕ → Type 0) (lo hi : ℕ) (s : Bytes)
    → IsFilled root
    → Frame (store_string root s).0 root' V T lo hi
    → view_string root' (store_string root s).1 ≡ c_str s
view_string-store_string root root' V T lo hi s filled f =
    view_string-TextAt root' _ s (TextAt-Frame _ s f (store_string-TextAt root s filled))
