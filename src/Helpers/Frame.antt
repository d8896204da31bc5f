-- ===== src/Helpers/Frame.antt =====
-- What a change of a root expression leaves alone.
use wisent.Prelude.{
  lengths, ℕ, suc, ◌+◌, ◌≤◌, ◌<◌, ◌≡◌, refl, ◌⊎◌, ◌∙◌, ap, [], ◌++◌, Bytes, arith, append_assoc,
  append-nil, length, length-set,
}
use wisent.Helpers.Defs.{Root}
use wisent.Helpers.Access.{
  IsSized, value_of, type_of, member_of, put, get_elem?-set, type_index, member_index,
}

-- Values outside `V`, types outside `T` and members of the expressions outside `lo ≤ k < hi` stay,
-- and the string buffer is only added to.
pub record Frame (root root' : Root) (V T : ℕ → Type 0) (lo hi : ℕ) : Type 0 where
  pub arguments : root'.argument_count ≡ root.argument_count
  pub expressions : root'.expression_count ≡ root.expression_count
  pub words : length root'.words ≡ length root.words
  pub values : (j : ℕ) → j < root.argument_count → ¬ V j → value_of root' j ≡ value_of root j
  pub types : (j : ℕ) → j < root.argument_count → ¬ T j → type_of root' j ≡ type_of root j
  pub members :
      (k m : ℕ)
      → k < root.expression_count
      → m < 3
      → (k < lo) ⊎ (hi ≤ k)
      → member_of root' k m ≡ member_of root k m
  pub strings :
      (more : Bytes) × (root'.string_buffer ≡ root.string_buffer ++ more)
      × (root'.string_arguments_fill_index ≡ root.string_arguments_fill_index + length more)

abbrev pub Nothing : ℕ → Type 0
Nothing j = ⊥

pub Frame-refl : (root : Root) (V T : ℕ → Type 0) (lo hi : ℕ) → Frame root root V T lo hi
Frame-refl root V T lo hi = record {
  arguments = refl;
  expressions = refl;
  words = refl;
  values = λ j h k. refl;
  types = λ j h k. refl;
  members = λ k m h l o. refl;
  strings = ([], rw append-nil, omega arith);
}

pub Frame-IsSized :
    {root root' : Root} {V T : ℕ → Type 0} {lo hi : ℕ}
    → Frame root root' V T lo hi
    → IsSized root
    → IsSized root'
Frame-IsSized f is = record {
  sized = omega (arith, f.words, f.arguments, f.expressions, is.sized);
  fits = omega (arith, f.arguments, f.expressions, is.fits);
}

-- One change after another; what both may touch is given by what the whole may touch.
pub Frame-trans :
    {r r' r'' : Root} {V V1 V2 T T1 T2 : ℕ → Type 0} {lo hi lo1 hi1 lo2 hi2 : ℕ}
    → Frame r r' V1 T1 lo1 hi1
    → Frame r' r'' V2 T2 lo2 hi2
    → ((j : ℕ) → V1 j → V j) × ((j : ℕ) → V2 j → V j)
    → ((j : ℕ) → T1 j → T j) × ((j : ℕ) → T2 j → T j)
    → (lo ≤ lo1) × (hi1 ≤ hi) × (lo ≤ lo2) × (hi2 ≤ hi)
    → Frame r r'' V T lo hi
Frame-trans {r} {r'} {r''} f g (v1, v2) (t1, t2) (l1, h1, l2, h2) = record {
  arguments = g.arguments ∙ f.arguments;
  expressions = g.expressions ∙ f.expressions;
  words = g.words ∙ f.words;
  values = λ j h out.
      g.values j (omega (arith, f.arguments)) (λ v. out (v2 j v))
      ∙ f.values j h (λ v. out (v1 j v));
  types = λ j h out.
      g.types j (omega (arith, f.arguments)) (λ v. out (t2 j v)) ∙ f.types j h (λ v. out (t1 j v));
  members = λ k m h l out.
      g.members k m (omega (arith, f.expressions)) l (omega arith)
      ∙ f.members k m h l (omega arith);
  strings = both f.strings g.strings;
}
  where
    both :
        ((more : Bytes) × (r'.string_buffer ≡ r.string_buffer ++ more)
          × (r'.string_arguments_fill_index ≡ r.string_arguments_fill_index + length more))
        → ((more : Bytes) × (r''.string_buffer ≡ r'.string_buffer ++ more)
            × (r''.string_arguments_fill_index ≡ r'.string_arguments_fill_index + length more))
        → (more : Bytes) × (r''.string_buffer ≡ r.string_buffer ++ more)
          × (r''.string_arguments_fill_index ≡ r.string_arguments_fill_index + length more)
    both (a, p, e) (b, q, e') = (
      a ++ b,
      q ∙ (ap (λ (t : Bytes). t ++ b) p ∙ append_assoc r.string_buffer a b),
      grind lengths,
    )

-- A change may be said to touch more than it does.
pub Frame-weaken :
    {r r' : Root} {V V1 T T1 : ℕ → Type 0} {lo hi lo1 hi1 : ℕ}
    → Frame r r' V1 T1 lo1 hi1
    → ((j : ℕ) → V1 j → V j)
    → ((j : ℕ) → T1 j → T j)
    → (lo ≤ lo1) × (hi1 ≤ hi)
    → Frame r r' V T lo hi
Frame-weaken f v t (l, h) = record {
  arguments = f.arguments;
  expressions = f.expressions;
  words = f.words;
  values = λ j k out. f.values j k (λ q. out (v j q));
  types = λ j k out. f.types j k (λ q. out (t j q));
  members = λ k m a b out. f.members k m a b (omega arith);
  strings = f.strings;
}

module _ {root : Root} (is : IsSized root) where
  -- A word written to one of the arrays leaves the two others alone.
  pub put_value-Frame :
      (i v lo hi : ℕ)
      → i < root.argument_count
      → Frame root (put root i v) (λ j. j ≡ i) Nothing lo hi
  put_value-Frame i v lo hi h = record {
    arguments = refl;
    expressions = refl;
    words = length-set root.words i v;
    values = λ j k out. ground (arith, is.sized, get_elem?-set root.words i j v);
    types = λ j k out. ground (arith, is.sized, get_elem?-set root.words i (type_index root j) v);
    members = λ k m l o out.
        ground (arith, is.sized, get_elem?-set root.words i (member_index root k m) v);
    strings = ([], rw append-nil, omega arith);
  }

  pub put_type-Frame :
      (i v lo hi : ℕ)
      → i < root.argument_count
      → Frame root (put root (type_index root i) v) Nothing (λ j. j ≡ i) lo hi
  put_type-Frame i v lo hi h = record {
    arguments = refl;
    expressions = refl;
    words = length-set root.words _ v;
    values = λ j k out. ground (arith, is.sized, get_elem?-set root.words (type_index root i) j v);
    types = λ j k out.
        ground
          (arith, is.sized, get_elem?-set root.words (type_index root i) (type_index root j) v);
    members = λ k m l o out.
        ground
          (arith, is.sized, get_elem?-set root.words (type_index root i) (member_index root k m) v);
    strings = ([], rw append-nil, omega arith);
  }

  pub put_member-Frame :
      (i n v : ℕ)
      → i < root.expression_count
      → n < 3
      → Frame root (put root (member_index root i n) v) Nothing Nothing i (suc i)
  put_member-Frame i n v h l = record {
    arguments = refl;
    expressions = refl;
    words = length-set root.words _ v;
    values =
        λ j k out. ground (arith, is.sized, get_elem?-set root.words (member_index root i n) j v);
    types = λ j k out.
        ground
          (arith, is.sized, get_elem?-set root.words (member_index root i n) (type_index root j) v);
    members = λ k m h' l' out. ground (
      arith,
      is.sized,
      get_elem?-set root.words (member_index root i n) (member_index root k m) v,
    );
    strings = ([], rw append-nil, omega arith);
  }
