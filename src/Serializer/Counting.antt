-- ===== src/Serializer/Counting.antt =====
-- Source/WisentSerializer.cpp: what the first traversal of `load` is to count, described on the tree.
pub mod Plan
pub mod Steps
pub mod Traversal
pub mod Parts
pub mod Tables
pub mod Documents
pub mod TwoPasses
use wisent.Prelude.{ℕ, zero, suc, ◌+◌, ◌≤◌, ◌<◌, ◌≡◌, refl, ◌∙◌, List, [], ◌∷◌, arith, length}
use Prim.Native.Nat.{max}
use wisent.Serializer.Layers.{advance-Grown, Grown-length}
use wisent.Serializer.Tree.{
  Tree, Forest, nil, cons, long, double, string, symbol, expression, size, depth, depth_forest,
  advance, advance_forest,
}

-- The counts from a layer on: one more argument in it, with the layer there.
abbrev pub present : List ℕ → List ℕ
present [] = 0 ∷ []
present (r ∷ rs) = r ∷ rs

abbrev pub raise : List ℕ → List ℕ
raise [] = 1 ∷ []
raise (r ∷ rs) = suc r ∷ rs

-- The counts after a tree; an expression brings the layer below with it, even if it is empty.
abbrev mutual
  pub counted : Tree → List ℕ → List ℕ
  counted (long w) rs = raise rs
  counted (double w) rs = raise rs
  counted (string s) rs = raise rs
  counted (symbol s) rs = raise rs
  counted (expression h ts) [] = 1 ∷ present (counted_forest ts [])
  counted (expression h ts) (r ∷ rs) = suc r ∷ present (counted_forest ts rs)

  pub counted_forest : Forest → List ℕ → List ℕ
  counted_forest nil rs = rs
  counted_forest (cons t ts) rs = counted_forest ts (counted t rs)

-- The number of arguments of a tree in each layer, its own being layer 0.
abbrev mutual
  pub width : Tree → ℕ → ℕ
  width (long w) zero = 1
  width (long w) (suc k) = 0
  width (double w) zero = 1
  width (double w) (suc k) = 0
  width (string s) zero = 1
  width (string s) (suc k) = 0
  width (symbol s) zero = 1
  width (symbol s) (suc k) = 0
  width (expression h ts) zero = 1
  width (expression h ts) (suc k) = width_forest ts k

  pub width_forest : Forest → ℕ → ℕ
  width_forest nil k = 0
  width_forest (cons t ts) k = width t k + width_forest ts k

-- The entry of a list, or 0.
abbrev pub entry : List ℕ → ℕ → ℕ
entry [] k = 0
entry (x ∷ xs) zero = x
entry (x ∷ xs) (suc k) = entry xs k

entry-raise : (rs : List ℕ) (k : ℕ) → entry (raise rs) (suc k) ≡ entry rs (suc k)
entry-raise [] k = refl
entry-raise (r ∷ rs) k = refl

entry-raise_first : (rs : List ℕ) → entry (raise rs) 0 ≡ entry rs 0 + 1
entry-raise_first [] = refl
entry-raise_first (r ∷ rs) = omega arith

entry-present : (rs : List ℕ) (k : ℕ) → entry (present rs) k ≡ entry rs k
entry-present [] zero = refl
entry-present [] (suc k) = refl
entry-present (r ∷ rs) k = refl

width-first : (t : Tree) → width t 0 ≡ 1
width-first (long w) = refl
width-first (double w) = refl
width-first (string s) = refl
width-first (symbol s) = refl
width-first (expression h ts) = refl

width_forest-size : (ts : Forest) → width_forest ts 0 ≡ size ts
width_forest-size nil = refl
width_forest-size (cons t ts) = omega (arith, width-first t, width_forest-size ts)

leaf_entry : (rs : List ℕ) (k : ℕ) → entry (raise rs) k ≡ entry rs k + width (long 0) k
leaf_entry rs zero = entry-raise_first rs
leaf_entry rs (suc k) = omega (arith, entry-raise rs k)

mutual
  entry-counted' :
      (t : Tree) (rs : List ℕ) (k : ℕ) → entry (counted t rs) k ≡ entry rs k + width t k
  entry-counted' (long w) rs zero = entry-raise_first rs
  entry-counted' (long w) rs (suc k) = leaf_entry rs (suc k)
  entry-counted' (double w) rs zero = entry-raise_first rs
  entry-counted' (double w) rs (suc k) = leaf_entry rs (suc k)
  entry-counted' (string w) rs zero = entry-raise_first rs
  entry-counted' (string w) rs (suc k) = leaf_entry rs (suc k)
  entry-counted' (symbol w) rs zero = entry-raise_first rs
  entry-counted' (symbol w) rs (suc k) = leaf_entry rs (suc k)
  entry-counted' (expression h ts) [] zero = refl
  entry-counted' (expression h ts) [] (suc k) =
      entry-present (counted_forest ts []) k ∙ entry-counted_forest ts [] k
  entry-counted' (expression h ts) (r ∷ rs) zero = omega arith
  entry-counted' (expression h ts) (r ∷ rs) (suc k) =
      entry-present (counted_forest ts rs) k ∙ entry-counted_forest ts rs k

  entry-counted_forest :
      (ts : Forest) (rs : List ℕ) (k : ℕ)
      → entry (counted_forest ts rs) k ≡ entry rs k + width_forest ts k
  entry-counted_forest nil rs k = omega arith
  entry-counted_forest (cons t ts) rs k =
      omega (arith, entry-counted_forest ts (counted t rs) k, entry-counted' t rs k)

pub entry-counted :
    (t : Tree) (rs : List ℕ) (k : ℕ) → entry (counted t rs) k ≡ entry rs k + width t k
entry-counted = entry-counted'

mutual
  entry-advance' :
      (t : Tree) (cs : List ℕ) (k : ℕ)
      → k < length cs
      → entry (advance t cs) k ≡ entry cs k + width t (suc k)
  entry-advance' (long w) cs k h = omega arith
  entry-advance' (double w) cs k h = omega arith
  entry-advance' (string w) cs k h = omega arith
  entry-advance' (symbol w) cs k h = omega arith
  entry-advance' (expression h ts) [] k l = absurd (omega arith)
  entry-advance' (expression h ts) (c ∷ cs) zero l = omega (arith, width_forest-size ts)
  entry-advance' (expression h ts) (c ∷ cs) (suc k) l = entry-advance_forest ts cs k (omega arith)

  entry-advance_forest :
      (ts : Forest) (cs : List ℕ) (k : ℕ)
      → k < length cs
      → entry (advance_forest ts cs) k ≡ entry cs k + width_forest ts (suc k)
  entry-advance_forest nil cs k h = omega arith
  entry-advance_forest (cons t ts) cs k h = omega (
    arith,
    entry-advance_forest ts (advance t cs) k
        (omega (arith, Grown-length cs (advance t cs) (advance-Grown t cs))),
    entry-advance' t cs k h,
  )

pub entry-advance :
    (t : Tree) (cs : List ℕ) (k : ℕ)
    → k < length cs
    → entry (advance t cs) k ≡ entry cs k + width t (suc k)
entry-advance = entry-advance'

length-raise : (rs : List ℕ) → length (raise rs) ≡ max (length rs) 1
length-raise [] = refl
length-raise (r ∷ rs) = omega arith

length-present : (rs : List ℕ) → length (present rs) ≡ max (length rs) 1
length-present [] = refl
length-present (r ∷ rs) = omega arith

mutual
  length-counted' :
      (t : Tree) (rs : List ℕ) → length (counted t rs) ≡ max (length rs) (suc (depth t))
  length-counted' (long w) rs = length-raise rs
  length-counted' (double w) rs = length-raise rs
  length-counted' (string w) rs = length-raise rs
  length-counted' (symbol w) rs = length-raise rs
  length-counted' (expression h ts) [] =
      omega (arith, length-present (counted_forest ts []), counted_forest-length ts [])
  length-counted' (expression h ts) (r ∷ rs) =
      omega (arith, length-present (counted_forest ts rs), counted_forest-length ts rs)

  counted_forest-length :
      (ts : Forest) (rs : List ℕ)
      → max (length (counted_forest ts rs)) 1 ≡ max (length rs) (suc (depth_forest ts))
  counted_forest-length nil rs = refl
  counted_forest-length (cons t ts) rs =
      omega (arith, counted_forest-length ts (counted t rs), length-counted' t rs)

pub length-counted :
    (t : Tree) (rs : List ℕ) → length (counted t rs) ≡ max (length rs) (suc (depth t))
length-counted = length-counted'

pub present-counted : (t : Tree) (rs : List ℕ) → present (counted t rs) ≡ counted t rs
present-counted (long w) [] = refl
present-counted (long w) (r ∷ rs) = refl
present-counted (double w) [] = refl
present-counted (double w) (r ∷ rs) = refl
present-counted (string w) [] = refl
present-counted (string w) (r ∷ rs) = refl
present-counted (symbol w) [] = refl
present-counted (symbol w) (r ∷ rs) = refl
present-counted (expression h ts) [] = refl
present-counted (expression h ts) (r ∷ rs) = refl
