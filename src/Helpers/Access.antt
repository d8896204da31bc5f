-- ===== src/Helpers/Access.antt =====
-- Source/WisentHelpers.h: the three word arrays of a root expression do not overlap, so that each
-- accessor reads what was last written through the same one.
use wisent.Prelude.{
  ℕ, ◌+◌, ◌*◌, ◌/◌, ◌^◌, ◌<◌, ◌≡◌, arith, List, Option, some, Bool-cases, inl, inr,
  get_elem?-set_self, get_elem?-set_ne, ◌==◌, if◌then◌else◌, ◌&&◌, get_elem?, set, length,
  length-set, ok, out_of_bounds, or_fail, lt→ltb,
}
use wisent.Helpers.Defs.{
  Root, type_at, value_at, member_at, load_word, store_word, load_member, store_member,
}

-- The buffer has the size that the counts ask for, and offsets in it do not wrap.
pub record IsSized (root : Root) : Type 0 where
  pub sized : length root.words ≡ 2 * root.argument_count + 3 * root.expression_count
  pub fits : 16 * root.argument_count + 24 * root.expression_count < 2 ^ 64

-- Where the words of the arrays lie, and what they hold.
abbrev pub type_index : Root → ℕ → ℕ
type_index root i = root.argument_count + i

abbrev pub member_index : Root → (i member : ℕ) → ℕ
member_index root i member = 2 * root.argument_count + 3 * i + member

abbrev pub value_of : Root → ℕ → Option ℕ
value_of root i = get_elem? root.words i

abbrev pub type_of : Root → ℕ → Option ℕ
type_of root i = get_elem? root.words (type_index root i)

abbrev pub member_of : Root → (i member : ℕ) → Option ℕ
member_of root i member = get_elem? root.words (member_index root i member)

-- The root with word `k` set.
abbrev pub put : Root → (k value : ℕ) → Root
put root k value = record root { words = set root.words k value }

pub get_elem?-set :
    (words : List ℕ) (k j value : ℕ)
    → k < length words
    → get_elem? (set words k value) j ≡ (if k == j then some value else get_elem? words j)
get_elem?-set words k j value h = elim (Bool-cases (k == j)) [
  | inl same ↦ ground (arith, get_elem?-set_self words k value)
  | inr other ↦ ground (arith, get_elem?-set_ne words k j value)
]

module _ {root : Root} (is : IsSized root) where
  value_at-index : (i : ℕ) → i < root.argument_count → value_at root i / 8 ≡ i
  unfolding value_at
  value_at-index i h = omega (arith, is.fits)

  type_at-index : (i : ℕ) → i < root.argument_count → type_at root i / 8 ≡ type_index root i
  unfolding type_at
  type_at-index i h = omega (arith, is.fits)

  member_at-index :
      (i member : ℕ)
      → i < root.expression_count
      → member < 3
      → member_at root i member / 8 ≡ member_index root i member
  unfolding member_at
  member_at-index i member h k = omega (arith, is.fits)

  pub put-IsSized : (k value : ℕ) → IsSized (put root k value)
  put-IsSized k value = record {
    sized = omega (arith, length-set root.words k value, is.sized);
    fits = is.fits;
  }

  store_word-put :
      (offset k value : ℕ)
      → offset / 8 ≡ k
      → k < length root.words
      → store_word root offset value ≡ ok (put root k value)
  unfolding store_word
  store_word-put offset k value e h = rw (e, lt→ltb _ _ h)

  load_word-get :
      (offset k : ℕ)
      → offset / 8 ≡ k
      → load_word root offset ≡ or_fail (get_elem? root.words k) out_of_bounds
  unfolding load_word
  load_word-get offset k e = rw e

  pub store-type :
      (i value : ℕ)
      → i < root.argument_count
      → store_word root (type_at root i) value ≡ ok (put root (type_index root i) value)
  store-type i value h =
      store_word-put (type_at root i) _ value (type_at-index i h) (omega (arith, is.sized))

  pub store-value :
      (i value : ℕ)
      → i < root.argument_count
      → store_word root (value_at root i) value ≡ ok (put root i value)
  store-value i value h =
      store_word-put (value_at root i) _ value (value_at-index i h) (omega (arith, is.sized))

  pub store-member :
      (i member value : ℕ)
      → i < root.expression_count
      → member < 3
      → store_member root i member value ≡ ok (put root (member_index root i member) value)
  unfolding store_member
  store-member i member value h k =
      store_word-put (member_at root i member) _ value (member_at-index i member h k)
        (omega (arith, is.sized))

  pub load-type :
      (i : ℕ)
      → i < root.argument_count
      → load_word root (type_at root i)
        ≡ or_fail (get_elem? root.words (type_index root i)) out_of_bounds
  load-type i h = load_word-get (type_at root i) _ (type_at-index i h)

  pub load-value :
      (i : ℕ)
      → i < root.argument_count
      → load_word root (value_at root i) ≡ or_fail (get_elem? root.words i) out_of_bounds
  load-value i h = load_word-get (value_at root i) _ (value_at-index i h)

  pub load-member :
      (i member : ℕ)
      → i < root.expression_count
      → member < 3
      → load_member root i member
        ≡ or_fail (get_elem? root.words (member_index root i member)) out_of_bounds
  unfolding load_member
  load-member i member h k =
      load_word-get (member_at root i member) _ (member_at-index i member h k)

  pub type_of-put :
      (i j value : ℕ)
      → i < root.argument_count
      → j < root.argument_count
      → type_of (put root (type_index root i) value) j
        ≡ (if i == j then some value else type_of root j)
  type_of-put i j value h k =
      ground
        (arith, is.sized, get_elem?-set root.words (type_index root i) (type_index root j) value)

  pub value_of-put :
      (i j value : ℕ)
      → i < root.argument_count
      → value_of (put root i value) j ≡ (if i == j then some value else value_of root j)
  value_of-put i j value h = ground (arith, is.sized, get_elem?-set root.words i j value)

  pub member_of-put :
      (i m j n value : ℕ)
      → i < root.expression_count
      → m < 3
      → n < 3
      → member_of (put root (member_index root i m) value) j n
        ≡ (if (i == j) && (m == n) then some value else member_of root j n)
  member_of-put i m j n value h k l = ground (
    arith,
    is.sized,
    get_elem?-set root.words (member_index root i m) (member_index root j n) value,
  )
