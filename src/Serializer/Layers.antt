-- ===== src/Serializer/Layers.antt =====
-- The layers of the argument vector: blocks that a tree takes in them do not overlap.
use wisent.Prelude.{ℕ, ◌≤◌, ◌<◌, ◌≡◌, refl, ◌⊎◌, inl, inr, List, [], ◌∷◌, arith, length}
use wisent.Serializer.Tree.{
  Tree, Forest, nil, cons, long, double, string, symbol, expression, advance, advance_forest,
}

-- Argument `j` is one that some layer has taken between two states of the layers.
abbrev pub InZone : ℕ → List ℕ → List ℕ → Type 0
InZone j [] _ = ⊥
InZone j (c ∷ cs) [] = ⊥
InZone j (c ∷ cs) (c' ∷ cs') = ((c ≤ j) × (j < c')) ⊎ InZone j cs cs'

-- The layers only grow.
abbrev pub Grown : List ℕ → List ℕ → Type 0
Grown [] [] = Unit {0}
Grown [] (c' ∷ cs') = ⊥
Grown (c ∷ cs) [] = ⊥
Grown (c ∷ cs) (c' ∷ cs') = (c ≤ c') × Grown cs cs'

-- Each layer ends, once it has grown, before the next begins, the last before `limit`; the first
-- begins behind `low`.
abbrev pub Layered : (low limit : ℕ) → List ℕ → List ℕ → Type 0
Layered low limit [] _ = low ≤ limit
Layered low limit (c ∷ cs) [] = ⊥
Layered low limit (c ∷ cs) (c' ∷ cs') = (low ≤ c) × (c ≤ c') × Layered c' limit cs cs'

pub Grown-refl : (cs : List ℕ) → Grown cs cs
Grown-refl [] = tt
Grown-refl (c ∷ cs) = (omega arith, Grown-refl cs)

pub Grown-trans : (xs ys zs : List ℕ) → Grown xs ys → Grown ys zs → Grown xs zs
Grown-trans [] [] [] g h = tt
Grown-trans [] [] (z ∷ zs) g h = h
Grown-trans [] (y ∷ ys) zs g h = absurd g
Grown-trans (x ∷ xs) [] zs g h = absurd g
Grown-trans (x ∷ xs) (y ∷ ys) [] g h = h
Grown-trans (x ∷ xs) (y ∷ ys) (z ∷ zs) (a, g) (b, h) = (omega arith, Grown-trans xs ys zs g h)

mutual
  advance-Grown' : (t : Tree) (cs : List ℕ) → Grown cs (advance t cs)
  advance-Grown' (long w) cs = Grown-refl cs
  advance-Grown' (double w) cs = Grown-refl cs
  advance-Grown' (string s) cs = Grown-refl cs
  advance-Grown' (symbol s) cs = Grown-refl cs
  advance-Grown' (expression h ts) [] = tt
  advance-Grown' (expression h ts) (c ∷ cs) = (omega arith, advance_forest-Grown' ts cs)

  advance_forest-Grown' : (ts : Forest) (cs : List ℕ) → Grown cs (advance_forest ts cs)
  advance_forest-Grown' nil cs = Grown-refl cs
  advance_forest-Grown' (cons t ts) cs =
      Grown-trans cs (advance t cs) (advance_forest ts (advance t cs)) (advance-Grown' t cs)
        (advance_forest-Grown' ts (advance t cs))

pub advance-Grown : (t : Tree) (cs : List ℕ) → Grown cs (advance t cs)
advance-Grown = advance-Grown'

pub advance_forest-Grown : (ts : Forest) (cs : List ℕ) → Grown cs (advance_forest ts cs)
advance_forest-Grown = advance_forest-Grown'

pub Grown-length : (cs cs' : List ℕ) → Grown cs cs' → length cs' ≡ length cs
Grown-length [] [] g = refl
Grown-length [] (c' ∷ cs') g = absurd g
Grown-length (c ∷ cs) [] g = absurd g
Grown-length (c ∷ cs) (c' ∷ cs') (a, g) = omega (arith, Grown-length cs cs' g)

-- What a part of the growth takes, the whole takes.
pub InZone-first :
    (j : ℕ) (xs ys zs : List ℕ) → Grown xs ys → Grown ys zs → InZone j xs ys → InZone j xs zs
InZone-first j [] ys zs g h z = z
InZone-first j (x ∷ xs) [] zs g h z = absurd z
InZone-first j (x ∷ xs) (y ∷ ys) [] g h z = absurd h
InZone-first j (x ∷ xs) (y ∷ ys) (z ∷ zs) (a, g) (b, h) (inl (l, r)) = inl (l, omega arith)
InZone-first j (x ∷ xs) (y ∷ ys) (z ∷ zs) (a, g) (b, h) (inr i) =
    inr (InZone-first j xs ys zs g h i)

pub InZone-second :
    (j : ℕ) (xs ys zs : List ℕ) → Grown xs ys → Grown ys zs → InZone j ys zs → InZone j xs zs
InZone-second j [] [] zs g h z = z
InZone-second j [] (y ∷ ys) zs g h z = absurd g
InZone-second j (x ∷ xs) [] zs g h z = absurd z
InZone-second j (x ∷ xs) (y ∷ ys) [] g h z = absurd h
InZone-second j (x ∷ xs) (y ∷ ys) (z ∷ zs) (a, g) (b, h) (inl (l, r)) = inl (omega arith, r)
InZone-second j (x ∷ xs) (y ∷ ys) (z ∷ zs) (a, g) (b, h) (inr i) =
    inr (InZone-second j xs ys zs g h i)

pub Layered-le : (low limit : ℕ) (xs ys : List ℕ) → Layered low limit xs ys → low ≤ limit
Layered-le low limit [] ys l = l
Layered-le low limit (x ∷ xs) [] l = absurd l
Layered-le low limit (x ∷ xs) (y ∷ ys) (a, b, l) = omega (arith, Layered-le y limit xs ys l)

pub InZone-bounds :
    (j low limit : ℕ) (xs ys : List ℕ)
    → Layered low limit xs ys
    → InZone j xs ys
    → (low ≤ j) × (j < limit)
InZone-bounds j low limit [] ys l z = absurd z
InZone-bounds j low limit (x ∷ xs) [] l z = absurd z
InZone-bounds j low limit (x ∷ xs) (y ∷ ys) (a, b, l) (inl (p, q)) =
    (omega arith, omega (arith, Layered-le y limit xs ys l))
InZone-bounds j low limit (x ∷ xs) (y ∷ ys) (a, b, l) (inr i) =
    let (p, q) = InZone-bounds j y limit xs ys l i in (omega arith, q)

-- An early part of the growth and a later one take different arguments.
pub InZone-apart :
    (j low limit : ℕ) (xs ys zs : List ℕ)
    → Layered low limit xs zs
    → Grown xs ys
    → Grown ys zs
    → InZone j xs ys
    → ¬ InZone j ys zs
InZone-apart j low limit [] ys zs l g h z w = z
InZone-apart j low limit (x ∷ xs) [] zs l g h z w = z
InZone-apart j low limit (x ∷ xs) (y ∷ ys) [] l g h z w = w
InZone-apart j low limit (x ∷ xs) (y ∷ ys) (z ∷ zs) (a, b, l) (c, g) (d, h) (inl (p, q))
      (inl (r, s)) =
    absurd (omega arith)
InZone-apart j low limit (x ∷ xs) (y ∷ ys) (z ∷ zs) (a, b, l) (c, g) (d, h) (inl (p, q)) (inr k) =
    let (r, s) = InZone-bounds j z limit xs zs l (InZone-second j xs ys zs g h k) in
    absurd (omega arith)
InZone-apart j low limit (x ∷ xs) (y ∷ ys) (z ∷ zs) (a, b, l) (c, g) (d, h) (inr i) (inl (r, s)) =
    let (p, q) = InZone-bounds j z limit xs zs l (InZone-first j xs ys zs g h i) in
    absurd (omega arith)
InZone-apart j low limit (x ∷ xs) (y ∷ ys) (z ∷ zs) (a, b, l) (c, g) (d, h) (inr i) (inr k) =
    InZone-apart j z limit xs ys zs l g h i k

-- The layers stay in order for a part of the growth.
pub Layered-first :
    (low limit : ℕ) (xs ys zs : List ℕ)
    → Layered low limit xs zs
    → Grown xs ys
    → Grown ys zs
    → Layered low limit xs ys
Layered-first low limit [] ys zs l g h = l
Layered-first low limit (x ∷ xs) [] zs l g h = absurd g
Layered-first low limit (x ∷ xs) (y ∷ ys) [] l g h = absurd h
Layered-first low limit (x ∷ xs) (y ∷ ys) (z ∷ zs) (a, b, l) (c, g) (d, h) =
    (a, c, Layered-low z y limit xs ys d (Layered-first z limit xs ys zs l g h))
  where
    Layered-low :
        (low low' limit : ℕ) (xs ys : List ℕ)
        → low' ≤ low
        → Layered low limit xs ys
        → Layered low' limit xs ys
    Layered-low low low' limit [] ys h l = omega arith
    Layered-low low low' limit (x ∷ xs) [] h l = l
    Layered-low low low' limit (x ∷ xs) (y ∷ ys) h (a, b, l) = (omega arith, b, l)

pub Layered-second :
    (low limit : ℕ) (xs ys zs : List ℕ)
    → Layered low limit xs zs
    → Grown xs ys
    → Grown ys zs
    → Layered low limit ys zs
Layered-second low limit [] [] zs l g h = l
Layered-second low limit [] (y ∷ ys) zs l g h = absurd g
Layered-second low limit (x ∷ xs) [] zs l g h = absurd g
Layered-second low limit (x ∷ xs) (y ∷ ys) [] l g h = absurd h
Layered-second low limit (x ∷ xs) (y ∷ ys) (z ∷ zs) (a, b, l) (c, g) (d, h) =
    (omega arith, d, Layered-second z limit xs ys zs l g h)
