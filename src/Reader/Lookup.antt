-- ===== src/Reader/Lookup.antt =====
-- Benchmarks/WisentBenchmarks.cpp: `expression` and the lookup by key in `LazyExpression`.
use wisent.Prelude.{
  some_inj, ℕ, zero, suc, ◌+◌, ◌-◌, ◌≤◌, ◌<◌, ◌≡◌, refl, ◌∙◌, ap, Bool, true, false, Option, none,
  some, List, [], ◌∷◌, Bytes, Result, ok, runtime_error, assertion_failed, out_of_bounds, err,
  ◌>>=◌, ◌>>◌, guard, or_fail, if◌then◌else◌, ◌==◌, bytes_eq, replicate, arith,
}
use mathlib.Core.Path.{subst}
use wisent.Helpers.{
  Root, Expression, ArgumentType, type_code, type_at, value_at, load_word, load_member,
  symbol_name_member, start_child_member, end_child_member, c_str, view_string,
}
use wisent.Helpers.Access.{IsSized, type_of, load-type, load-value, load-member}
use wisent.Helpers.Cells.{CellsAt}
use wisent.Helpers.Runs.{run_cells}
use wisent.Helpers.Text.{view_string-TextAt}
use wisent.Serializer.Tree.{
  Forest, nil, cons, long, double, string, symbol, expression, size, expressions,
  expressions_forest, step_cells, step_count, rle_cells, child_cells, type_of_tree,
}
use wisent.Serializer.Stored.{StoredTree, StoredForest, StoredHead}

module _ (root : Root) where
  -- `expressions[arguments[index].asExpression]`.
  unfoldable pub expression_at : (index : ℕ) → Result Expression
  expression_at index = do
    e ← load_word root (value_at root index)
    name ← load_member root e symbol_name_member
    start ← load_member root e start_child_member
    end ← load_member root e end_child_member
    ok (record { symbol_name_offset = name; start_child_offset = start; end_child_offset = end })

  -- `expression()`.
  unfoldable pub checked_expression : (index : ℕ) → Result Expression
  unfolding expression_at
  checked_expression index = do
    type ← load_word root (type_at root index)
    guard (type == type_code ArgumentType.expression_type) assertion_failed
    expression_at index

  -- The loop over the `n` arguments from `i` on.
  unfoldable pub find_key : (key : Bytes) (i n : ℕ) → Result ℕ
  unfolding expression_at
  find_key key i zero = err runtime_error
  find_key key i (suc n) = do
    let rest = find_key key (suc i) n
    type ← load_word root (type_at root i)
    if type == type_code ArgumentType.expression_type
        then (do
          child ← expression_at i
          if bytes_eq (view_string root child.symbol_name_offset) key then ok i else rest)
        else rest

  -- `operator[](keyName)`: the index of the argument.
  unfoldable pub child_with_key : (key : Bytes) (index : ℕ) → Result ℕ
  unfolding checked_expression find_key
  child_with_key key index = do
    expr ← checked_expression index
    find_key key expr.start_child_offset (expr.end_child_offset - expr.start_child_offset)

-- All arguments are expressions, as the members of an object are.
abbrev pub AllExpressions : Forest → Type 0
AllExpressions nil = Unit {0}
AllExpressions (cons (expression h us) ts) = AllExpressions ts
AllExpressions (cons t ts) = ⊥

-- One argument further on.
abbrev later : Option ℕ → Option ℕ
later none = none
later (some k) = some (suc k)

-- The first argument whose head, up to a NUL, is the key.
abbrev pub position_of : (key : Bytes) → Forest → Option ℕ
position_of key nil = none
position_of key (cons (expression h us) ts) =
    if bytes_eq (c_str h) key then some 0 else later (position_of key ts)
position_of key (cons t ts) = later (position_of key ts)

module _ {root : Root} (is : IsSized root) where
  expression_at-StoredHead :
      (i e c n : ℕ) (h : Bytes)
      → i < root.argument_count
      → e < root.expression_count
      → (s : StoredHead root i e c n h)
      → expression_at root i
        ≡ ok (record {
          symbol_name_offset = s.name;
          start_child_offset = c;
          end_child_offset = c + n;
        })
  unfolding expression_at
  expression_at-StoredHead i e c n h inside known s =
      let member0 : load_member root e 0 ≡ ok s.name =
        load-member is e 0 known (omega arith) ∙ ap (λ w. or_fail w out_of_bounds) s.named in
      let member1 : load_member root e 1 ≡ ok c =
        load-member is e 1 known (omega arith) ∙ ap (λ w. or_fail w out_of_bounds) s.start in
      let member2 : load_member root e 2 ≡ ok (c + n) =
        load-member is e 2 known (omega arith) ∙ ap (λ w. or_fail w out_of_bounds) s.end in
      let value : load_word root (value_at root i) ≡ ok e =
        load-value is i inside ∙ ap (λ w. or_fail w out_of_bounds) s.index in
      rw (value, member0, member1, member2) refl

  abbrev code : ℕ
  code = type_code ArgumentType.expression_type

  -- At an expression, given the arguments behind it.
  step :
      (i e c n : ℕ) (h key : Bytes) (k m : ℕ) (further : Option ℕ)
      → i < root.argument_count
      → e < root.expression_count
      → type_of root i ≡ some code
      → StoredHead root i e c n h
      → (if bytes_eq (c_str h) key then some 0 else later further) ≡ some k
      → ((k' : ℕ) → further ≡ some k' → find_key root key (suc i) m ≡ ok (suc i + k'))
      → find_key root key i (suc m) ≡ ok (i + k)
  unfolding find_key
  step i e c n h key k m further inside known cell stored found rest =
      let loaded : load_word root (type_at root i) ≡ ok code =
        load-type is i inside ∙ ap (λ w. or_fail w out_of_bounds) cell in
      let text : view_string root stored.name ≡ c_str h =
        view_string-TextAt root stored.name h stored.text in
      rw (loaded, expression_at-StoredHead i e c n h inside known stored, text)
        (choose (bytes_eq (c_str h) key) found)
    where
      behind :
          (further : Option ℕ)
          → later further ≡ some k
          → ((k' : ℕ) → further ≡ some k' → find_key root key (suc i) m ≡ ok (suc i + k'))
          → find_key root key (suc i) m ≡ ok (i + k)
      behind none found rest = cc
      behind (some k') found rest =
          rest k' refl ∙ ap ok (let e = some_inj found in omega (arith, e))

      choose :
          (b : Bool)
          → (if b then some 0 else later further) ≡ some k
          → (if b then ok i else find_key root key (suc i) m) ≡ ok (i + k)
      choose true found = ap ok (let e = some_inj found in omega (arith, e))
      choose false found = behind further found rest

  find_key-position_of :
      (d : Bool) (key : Bytes) (ts : Forest) (i e k : ℕ) (cs : List ℕ)
      → AllExpressions ts
      → StoredForest d root i e cs ts
      → CellsAt root i (replicate (size ts) code)
      → i + size ts ≤ root.argument_count
      → e + expressions_forest ts ≤ root.expression_count
      → position_of key ts ≡ some k
      → find_key root key i (size ts) ≡ ok (i + k)
  find_key-position_of d key nil i e k cs all stored cells inside known h = cc
  find_key-position_of d key (cons (long w) ts) i e k cs all stored cells inside known h =
      absurd all
  find_key-position_of d key (cons (double w) ts) i e k cs all stored cells inside known h =
      absurd all
  find_key-position_of d key (cons (string w) ts) i e k cs all stored cells inside known h =
      absurd all
  find_key-position_of d key (cons (symbol w) ts) i e k cs all stored cells inside known h =
      absurd all
  find_key-position_of d key (cons (expression h us) ts) i e k [] all (stored, rest) cells inside
        known found =
      absurd stored
  find_key-position_of d key (cons (expression h us) ts) i e k (c ∷ cs) all (stored, rest)
        (cell, cells) inside known found =
      step i e c (size us) h key k (size ts) (position_of key ts) (omega (arith, inside))
        (omega (arith, known)) cell stored.0 found
        (λ k' e'.
          find_key-position_of d key ts (suc i) (e + suc (expressions_forest us)) k' _ all rest
            cells (omega (arith, inside)) (omega (arith, known)) e')

rle_cells-expressions :
    (d : Bool) (c : ℕ) (ts : Forest)
    → AllExpressions ts
    → rle_cells d c 0 ts ≡ replicate (size ts) (type_code ArgumentType.expression_type)
unfolding rle_cells step_cells step_count run_cells type_of_tree
rle_cells-expressions d c nil all = refl
rle_cells-expressions d c (cons (long w) ts) all = absurd all
rle_cells-expressions d c (cons (double w) ts) all = absurd all
rle_cells-expressions d c (cons (string w) ts) all = absurd all
rle_cells-expressions d c (cons (symbol w) ts) all = absurd all
rle_cells-expressions d c (cons (expression h us) ts) all =
    ap (◌∷◌ (type_code ArgumentType.expression_type)) (rle_cells-expressions d 5 ts all)

-- In a block that holds an expression whose arguments are expressions, as those of an object are: the
-- lookup of a key returns the first of the arguments whose head, up to a NUL in it, is the key.
pub child_with_key-position_of :
    {root : Root} (d : Bool) (key head : Bytes) (ts : Forest) (i e c k : ℕ) (cs : List ℕ)
    → IsSized root
    → type_of root i ≡ some (type_code ArgumentType.expression_type)
    → StoredTree d root i e (c ∷ cs) (expression head ts)
    → AllExpressions ts
    → i < root.argument_count
    → c + size ts ≤ root.argument_count
    → e + expressions (expression head ts) ≤ root.expression_count
    → position_of key ts ≡ some k
    → child_with_key root key i ≡ ok (c + k)
unfolding child_with_key checked_expression child_cells
child_with_key-position_of {root} d key head ts i e c k cs is cell (stored, cells, forest) all
      inside below known found =
    let loaded : load_word root (type_at root i) ≡ ok (type_code ArgumentType.expression_type) =
      load-type is i inside ∙ ap (λ w. or_fail w out_of_bounds) cell in
    let arguments : c + size ts - c ≡ size ts = omega arith in
    rw
      (
        loaded,
        expression_at-StoredHead is i e c (size ts) head inside (omega (arith, known)) stored,
        arguments,
      )
      (find_key-position_of is d key ts c (suc e) k cs all forest
        (subst (CellsAt root c) (rle_cells-expressions d 0 ts all) cells) below
        (omega (arith, known)) found)
