-- ===== src/Serializer/Stored.antt =====
-- What it means that a root expression holds a tree, with every part at the place that the format
-- gives it, and that later writes elsewhere leave it there.
use wisent.Prelude.{
  lengths, ℕ, zero, suc, ◌+◌, ◌≤◌, ◌<◌, ◌≡◌, refl, ◌∙◌, ◌⊎◌, inl, inr, Bool, true, false, some,
  List, [], ◌∷◌, Bytes, arith, length, length-append,
}
use wisent.Helpers.{Root}
use wisent.Helpers.Access.{value_of, member_of}
use wisent.Helpers.Cells.{CellsAt, CellsAt-frame}
use wisent.Helpers.Frame.{Frame}
use wisent.Helpers.Runs.{Between, length-run_cells}
use wisent.Helpers.Text.{TextAt, TextAt-Frame}
use wisent.Serializer.Tree.{
  Tree, Forest, nil, cons, long, double, string, symbol, expression, size, expressions,
  expressions_forest, advance, advance_forest, leaf_cells, leaf_count, step_cells, step_count,
  rle_cells, child_cells, type_of_tree,
}
use wisent.Serializer.Layers.{
  InZone, advance-Grown, advance_forest-Grown, InZone-first, InZone-second,
}

-- Argument `i` is the offset of a text.
abbrev pub StoredText : Root → ℕ → Bytes → Type 0
StoredText root i s = (o : ℕ) × (value_of root i ≡ some o) × TextAt root o s

-- Argument `i` is expression `e`, with head `h` and `n` arguments from `c` on.
pub record StoredHead (root : Root) (i e c n : ℕ) (h : Bytes) : Type 0 where
  pub index : value_of root i ≡ some e
  pub name : ℕ
  pub named : member_of root e 0 ≡ some name
  pub text : TextAt root name h
  pub start : member_of root e 1 ≡ some c
  pub end : member_of root e 2 ≡ some (c + n)

-- The tree is argument `i`; its expressions are numbered from `e` on, and the arguments below it
-- stand in the layers from `cs` on.
abbrev mutual
  pub StoredTree : Bool → Root → (i e : ℕ) → List ℕ → Tree → Type 0
  StoredTree d root i e cs (long w) = value_of root i ≡ some w
  StoredTree d root i e cs (double w) = value_of root i ≡ some w
  StoredTree d root i e cs (string s) = StoredText root i s
  StoredTree d root i e cs (symbol s) = StoredText root i s
  StoredTree d root i e [] (expression h ts) = ⊥
  StoredTree d root i e (c ∷ cs) (expression h ts) =
      StoredHead root i e c (size ts) h
      × CellsAt root c (child_cells d ts)
      × StoredForest d root c (suc e) cs ts

  pub StoredForest : Bool → Root → (i e : ℕ) → List ℕ → Forest → Type 0
  StoredForest d root i e cs nil = Unit {0}
  StoredForest d root i e cs (cons t ts) =
      StoredTree d root i e cs t × StoredForest d root (suc i) (e + expressions t) (advance t cs) ts

pub length-leaf_cells :
    (d : Bool) (c n k : ℕ)
    → (d ≡ true → n ≡ 0)
    → length (leaf_cells d c n k) + leaf_count d c n k ≡ suc n
unfolding leaf_cells leaf_count
length-leaf_cells true c n k off = omega (arith, off refl)
length-leaf_cells false c zero k off = refl
length-leaf_cells false c (suc n) k off = ground (arith, length-run_cells c (suc n))

pub length-step_cells :
    (d : Bool) (c n : ℕ) (t : Tree)
    → (d ≡ true → n ≡ 0)
    → length (step_cells d c n t) + step_count d c n t ≡ suc n
unfolding step_cells step_count
length-step_cells d c n (expression h ts) off = grind (lengths, length-run_cells c n)
length-step_cells d c n t off = length-leaf_cells d c n (type_of_tree t) off

pub leaf_count-off : (d : Bool) (c n k : ℕ) → d ≡ true → leaf_count d c n k ≡ 0
unfolding leaf_count
leaf_count-off true c n k e = refl
leaf_count-off false c n k e = cc

pub step_count-off : (d : Bool) (c n : ℕ) (t : Tree) → d ≡ true → step_count d c n t ≡ 0
unfolding step_count
step_count-off d c n (expression h ts) e = refl
step_count-off d c n t e = leaf_count-off d c n (type_of_tree t) e

pub length-rle_cells :
    (d : Bool) (c n : ℕ) (ts : Forest)
    → (d ≡ true → n ≡ 0)
    → length (rle_cells d c n ts) ≡ n + size ts
unfolding rle_cells
length-rle_cells d c n nil off = omega (arith, length-run_cells c n)
length-rle_cells d c n (cons t ts) off = omega (
  arith,
  length-append {0} (step_cells d c n t) (rle_cells d (type_of_tree t) (step_count d c n t) ts),
  length-step_cells d c n t off,
  length-rle_cells d (type_of_tree t) (step_count d c n t) ts (step_count-off d c n t),
)

pub length-child_cells : (d : Bool) (ts : Forest) → length (child_cells d ts) ≡ size ts
unfolding child_cells
length-child_cells d ts = omega (arith, length-rle_cells d 0 0 ts (λ e. refl))

module _ {root root' : Root} {V T : ℕ → Type 0} {lo hi : ℕ} (f : Frame root root' V T lo hi) where
  StoredText-Frame :
      (i : ℕ) (s : Bytes)
      → i < root.argument_count
      → ¬ V i
      → StoredText root i s
      → StoredText root' i s
  StoredText-Frame i s h out (o, at, text) = (o, f.values i h out ∙ at, TextAt-Frame o s f text)

  StoredHead-Frame :
      (i e c n : ℕ) (h : Bytes)
      → i < root.argument_count
      → ¬ V i
      → e < root.expression_count
      → (e < lo) ⊎ (hi ≤ e)
      → StoredHead root i e c n h
      → StoredHead root' i e c n h
  StoredHead-Frame i e c n h inside out known apart head = record {
    index = f.values i inside out ∙ head.index;
    name = head.name;
    named = f.members e 0 known (omega arith) apart ∙ head.named;
    text = TextAt-Frame head.name h f head.text;
    start = f.members e 1 known (omega arith) apart ∙ head.start;
    end = f.members e 2 known (omega arith) apart ∙ head.end;
  }

  -- The arguments and the expressions of a tree or a forest are none that the change may touch.
  abbrev Spared : List ℕ → List ℕ → Type 0
  Spared cs cs' = (j : ℕ) → InZone j cs cs' → (j < root.argument_count) × (¬ V j) × (¬ T j)

  abbrev SparedExpressions : (e n : ℕ) → Type 0
  SparedExpressions e n = (e + n ≤ root.expression_count) × ((e + n ≤ lo) ⊎ (hi ≤ e))

  mutual
    keep_tree :
        (d : Bool) (i e : ℕ) (cs : List ℕ) (t : Tree)
        → i < root.argument_count
        → ¬ V i
        → Spared cs (advance t cs)
        → SparedExpressions e (expressions t)
        → StoredTree d root i e cs t
        → StoredTree d root' i e cs t
    keep_tree d i e cs (long w) h out spared known at = f.values i h out ∙ at
    keep_tree d i e cs (double w) h out spared known at = f.values i h out ∙ at
    keep_tree d i e cs (string s) h out spared known at = StoredText-Frame i s h out at
    keep_tree d i e cs (symbol s) h out spared known at = StoredText-Frame i s h out at
    keep_tree d i e [] (expression s ts) h out spared known at = absurd at
    keep_tree d i e (c ∷ cs) (expression s ts) h out spared (known, apart) (head, cells, forest) = (
      StoredHead-Frame i e c (size ts) s h out (omega arith) (omega arith) head,
      CellsAt-frame root root' c (child_cells d ts)
          (λ j l u.
            let (inside, _, free) = spared j (inl (l, omega (arith, length-child_cells d ts))) in
            f.types j inside free)
          cells,
      keep_forest d c (suc e) cs ts
          (λ j (l, u). let (inside, free, _) = spared j (inl (l, u)) in (inside, free))
          (λ j z. spared j (inr z)) (omega arith, omega arith) forest,
    )

    keep_forest :
        (d : Bool) (i e : ℕ) (cs : List ℕ) (ts : Forest)
        → ((j : ℕ) → Between i (size ts) j → (j < root.argument_count) × (¬ V j))
        → Spared cs (advance_forest ts cs)
        → SparedExpressions e (expressions_forest ts)
        → StoredForest d root i e cs ts
        → StoredForest d root' i e cs ts
    keep_forest d i e cs nil own spared known at = tt
    keep_forest d i e cs (cons t ts) own spared (known, apart) (tree, forest) =
        let mid = advance t cs in
        let end = advance_forest ts mid in
        let g = advance-Grown t cs in
        let g' = advance_forest-Grown ts mid in
        let (h, out) = own i (omega arith) in
        (
          keep_tree d i e cs t h out (λ j z. spared j (InZone-first j cs mid end g g' z))
              (omega arith, omega arith) tree,
          keep_forest d (suc i) (e + expressions t) mid ts (λ j b. own j (omega arith))
              (λ j z. spared j (InZone-second j cs mid end g g' z)) (omega arith, omega arith)
              forest,
        )

  pub StoredTree-Frame :
      (d : Bool) (i e : ℕ) (cs : List ℕ) (t : Tree)
      → i < root.argument_count
      → ¬ V i
      → Spared cs (advance t cs)
      → SparedExpressions e (expressions t)
      → StoredTree d root i e cs t
      → StoredTree d root' i e cs t
  StoredTree-Frame = keep_tree

  pub StoredForest-Frame :
      (d : Bool) (i e : ℕ) (cs : List ℕ) (ts : Forest)
      → ((j : ℕ) → Between i (size ts) j → (j < root.argument_count) × (¬ V j))
      → Spared cs (advance_forest ts cs)
      → SparedExpressions e (expressions_forest ts)
      → StoredForest d root i e cs ts
      → StoredForest d root' i e cs ts
  StoredForest-Frame = keep_forest
