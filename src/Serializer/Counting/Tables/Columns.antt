-- ===== src/Serializer/Counting/Tables/Columns.antt =====
-- Source/WisentSerializer.cpp: how the first traversal of `load` counts the columns of a CSV file.
use wisent.Prelude.{
  ok_inj, ℕ, zero, suc, ◌+◌, ◌-◌, ◌*◌, ◌≤◌, ◌≡◌, refl, ◌∙◌, sym, ap, inl, inr, true, false, Option,
  none, some, List, [], ◌∷◌, ◌++◌, Bytes, arith, length, Result, ok, err, invalid_argument, ◌>>=◌,
  >>=-eq-ok, leb, append_assoc, length-append,
}
use mathlib.Core.Path.{subst}
use wisent.Serializer.Table.{or_else-cases}
use wisent.Csv.{
  Document, Environment, load_csv_data, load_rows, catch_invalid_argument, convert_number,
  convert_string, stol,
}
use wisent.Serializer.FirstPass.{resize, grow, add_at}
use wisent.Serializer.Tree.{
  Tree, Forest, nil, cons, long, double, string, expression, expressions, expressions_forest,
}
use wisent.Serializer.Translate.{
  column_values, column_tree, converted_column, table_column, table_columns,
}
use wisent.Serializer.Counting.{counted, counted_forest, present, raise, entry}
use wisent.Serializer.Counting.Steps.{add_at-last}
use wisent.Serializer.Counting.Traversal.{below, counted-below}

-- A column with this many values.
pub record IsColumn (rows : ℕ) (t : Tree) : Type 0 where
  pub counts :
      (rs : List ℕ)
      → counted t rs ≡ suc (entry rs 0) ∷ (entry (below rs) 0 + rows) ∷ below (below rs)
  pub one_expression : expressions t ≡ 1

module _ {V : Type 0} where
  pub load_rows-length :
      (doc : Document) (convert : Bytes → Result (Option V)) (column row n : ℕ)
      (values : List (Option V))
      → load_rows doc convert column row n ≡ ok values
      → length values ≡ n
  unfolding load_rows
  load_rows-length doc convert column row zero [] h = refl
  load_rows-length doc convert column row zero (v ∷ values) h = cc
  load_rows-length doc convert column row (suc n) values h =
      let (str, e1, h1) = >>=-eq-ok (doc.cell column row) _ h in
      let (val, e2, h2) = >>=-eq-ok (convert str) _ h1 in
      let (rest, e3, h3) = >>=-eq-ok (load_rows doc convert column (suc row) n) _ h2 in
      let ih = load_rows-length doc convert column (suc row) n rest e3 in same values rest h3 ih
    where
      same :
          {val : Option V} (values rest : List (Option V))
          → ok (val ∷ rest) ≡ ok values
          → length rest ≡ n
          → length values ≡ suc n
      same [] rest e ih = cc
      same (v ∷ values) rest e ih = cc

  caught :
      (m : Result (List (Option V))) (v : Option V) (values : List (Option V))
      → catch_invalid_argument m ≡ ok (v ∷ values)
      → m ≡ ok (v ∷ values)
  unfolding catch_invalid_argument
  caught (ok column) v values h = h
  caught (err invalid_argument) v values h = cc
  caught (err e) v values h = cc

module _ {V : Type 0} (leaf : V → Tree)
    (raises : (v : V) (rs : List ℕ) → counted (leaf v) rs ≡ raise rs)
    (none_below : (v : V) → expressions (leaf v) ≡ 0) where
  column_values-counted :
      (column : List (Option V)) (a : ℕ) (rs : List ℕ)
      → counted_forest (column_values leaf column) (a ∷ rs) ≡ (a + length column) ∷ rs
  unfolding column_values
  column_values-counted [] a rs = ap (λ (n : ℕ). n ∷ rs) (let e : a ≡ a + 0 = omega arith in e)
  column_values-counted (some v ∷ column) a rs =
      rw (raises v (a ∷ rs), column_values-counted column (suc a) rs)
        (ap (λ (n : ℕ). n ∷ rs)
          (let e : suc a + length column ≡ a + suc (length column) = omega arith in e))
  column_values-counted (none ∷ column) a rs = rw (column_values-counted column (suc a) rs) (
      ap (λ (n : ℕ). n ∷ rs)
        (let e : suc a + length column ≡ a + suc (length column) = omega arith in e))

  column_values-expressions :
      (column : List (Option V)) → expressions_forest (column_values leaf column) ≡ 0
  unfolding column_values
  column_values-expressions [] = refl
  column_values-expressions (some v ∷ column) =
      omega (arith, none_below v, column_values-expressions column)
  column_values-expressions (none ∷ column) = omega (arith, column_values-expressions column)

  values-IsColumn :
      (name : Bytes) (v : Option V) (column : List (Option V))
      → IsColumn (length (v ∷ column)) (expression name (column_values leaf (v ∷ column)))
  unfolding column_values
  values-IsColumn name v column = record {
    counts = λ rs.
        counted-below name (column_values leaf (v ∷ column)) rs
        ∙ ap (λ l. suc (entry rs 0) ∷ l) (values (below rs));
    one_expression = ap suc (column_values-expressions (v ∷ column));
  }
    where
      values :
          (rs : List ℕ)
          → present (counted_forest (column_values leaf (v ∷ column)) rs)
            ≡ (entry rs 0 + length (v ∷ column)) ∷ below rs
      values [] = rw (first v []) (
          rw (column_values-counted column 1 []) (
            ap (λ (n : ℕ). n ∷ [])
              (let e : 1 + length column ≡ 0 + suc (length column) = omega arith in e)))
        where
          first :
              (v : Option V) (rs : List ℕ)
              → counted_forest (column_values leaf (v ∷ column)) rs
                ≡ counted_forest (column_values leaf column) (raise rs)
          first none rs = refl
          first (some w) rs = rw (raises w rs) refl
      values (a ∷ rs) = ap present (column_values-counted (v ∷ column) a rs)

  converted-IsColumn :
      (doc : Document) (convert : Bytes → Result (Option V)) (name : Bytes) (t : Tree)
      → converted_column leaf doc convert name ≡ ok (some t)
      → IsColumn doc.row_count t
  unfolding converted_column load_csv_data column_tree
  converted-IsColumn doc convert name t h =
      let (column, e, f) =
        >>=-eq-ok (load_csv_data doc convert name) (λ c. ok (column_tree leaf name c)) h in
      go column e f
    where
      go :
          (column : List (Option V))
          → load_csv_data doc convert name ≡ ok column
          → ok (column_tree leaf name column) ≡ ok (some t)
          → IsColumn doc.row_count t
      go [] e f = cc
      go (v ∷ column) e f =
          let n =
            load_rows-length doc convert (doc.column_index name) 0 doc.row_count (v ∷ column)
              (caught _ v column e) in
          let t' : expression name (column_values leaf (v ∷ column)) ≡ t = cc in
          subst (λ t. IsColumn doc.row_count t) t'
            (subst (λ n. IsColumn n (expression name (column_values leaf (v ∷ column)))) n
              (values-IsColumn name v column))

module _ (env : Environment) (doc : Document) where
  table_column-IsColumn :
      (name : Bytes) (t : Tree) → table_column env doc name ≡ ok t → IsColumn doc.row_count t
  unfolding table_column
  table_column-IsColumn name t h =
      elim (or_else-cases (converted_column long doc (convert_number stol) name) _ t h) [
        | inr found ↦ converted-IsColumn long (λ v rs. refl) (λ v. refl) doc _ name t found
        | inl (none1, h1) ↦
            elim (or_else-cases (converted_column double doc (convert_number env.stod) name) _ t
              h1) [
                | inr found ↦
                    converted-IsColumn double (λ v rs. refl) (λ v. refl) doc _ name t found
                | inl (none2, h2) ↦
                    elim (or_else-cases (converted_column string doc convert_string name) _ t h2) [
                      | inr found ↦
                          converted-IsColumn string (λ v rs. refl) (λ v. refl) doc _ name t found
                      | inl (none3, h3) ↦ absurd (cc)
                    ]
              ]
      ]

  -- The columns count in two layers.
  abbrev CountsTwo : ℕ → Forest → List ℕ → Type 0
  CountsTwo n ts rs =
      counted_forest ts rs
      ≡ (entry rs 0 + n) ∷ (entry (below rs) 0 + n * doc.row_count) ∷ below (below rs)

  cons-CountsTwo :
      (n : ℕ) (t : Tree) (ts : Forest)
      → IsColumn doc.row_count t
      → ((a b : ℕ) (rs : List ℕ) → CountsTwo n ts (a ∷ b ∷ rs))
      → (rs : List ℕ) → CountsTwo (suc n) (cons t ts) rs
  cons-CountsTwo n t ts column all rs =
      ap (counted_forest ts) (column.counts rs)
      ∙ (all (suc (entry rs 0)) (entry (below rs) 0 + doc.row_count) (below (below rs))
          ∙ (ap
                (λ (a : ℕ).
                  a ∷ (entry (below rs) 0 + doc.row_count + n * doc.row_count) ∷ below (below rs))
                (let e : suc (entry rs 0) + n ≡ entry rs 0 + suc n = omega arith in e)
              ∙ ap (λ (b : ℕ). (entry rs 0 + suc n) ∷ b ∷ below (below rs))
                  (let e : entry (below rs) 0 + doc.row_count + n * doc.row_count
                        ≡ entry (below rs) 0 + suc n * doc.row_count =
                      omega arith in
                    e)))

  pub columns-counted :
      (names : List Bytes) (ts : Forest)
      → table_columns env doc names ≡ ok ts
      → (expressions_forest ts ≡ length names)
        × ((a b : ℕ) (rs : List ℕ) → CountsTwo (length names) ts (a ∷ b ∷ rs))
        × (1 ≤ length names → (rs : List ℕ) → CountsTwo (length names) ts rs)
  unfolding table_columns
  columns-counted [] nil h = (
    refl,
    λ a b rs.
        ap (λ (n : ℕ). n ∷ b ∷ rs) (let e : a ≡ a + 0 = omega arith in e)
        ∙ ap (λ (n : ℕ). (a + 0) ∷ n ∷ rs) (let e : b ≡ b + 0 * doc.row_count = omega arith in e),
    λ few. absurd (omega arith),
  )
  columns-counted [] (cons t ts) h = cc
  columns-counted (name ∷ names) ts h =
      let (t, e, h1) =
        >>=-eq-ok (table_column env doc name)
          (λ t. table_columns env doc names >>= λ ts. ok (cons t ts)) h in
      let (ts', e', h2) = >>=-eq-ok (table_columns env doc names) (λ ts. ok (cons t ts)) h1 in
      let (n, counts, others) = columns-counted names ts' e' in
      let column = table_column-IsColumn name t e in
      let same : cons t ts' ≡ ts = ok_inj h2 in
      (
        sym (ap expressions_forest same) ∙ omega (arith, column.one_expression, n),
        λ a b rs.
            ap (λ f. counted_forest f (a ∷ b ∷ rs)) (sym same)
            ∙ cons-CountsTwo (length names) t ts' column counts (a ∷ b ∷ rs),
        λ some rs.
            ap (λ f. counted_forest f rs) (sym same)
            ∙ cons-CountsTwo (length names) t ts' column counts rs,
      )

-- The vector of the counts, long enough for the two layers of a table.
pub grow_two :
    (front rs : List ℕ) (x : ℕ)
    → grow (front ++ x ∷ rs) (length front + 2) (length front + 2 + 1) 0
      ≡ front ++ x ∷ entry rs 0 ∷ entry (below rs) 0 ∷ below (below rs)
unfolding grow resize
grow_two front [] x =
    let n = length-append {0} front (x ∷ []) in
    let short : leb (length (front ++ x ∷ [])) (length front + 2) ≡ true = ground (arith, n) in
    let more : leb (length front + 2 + 1) (length (front ++ x ∷ [])) ≡ false = ground (arith, n) in
    let two : length front + 2 + 1 - length (front ++ x ∷ []) ≡ 2 = omega (arith, n) in
    rw (short, more, two) (append_assoc front (x ∷ []) (0 ∷ 0 ∷ []))
grow_two front (a ∷ []) x =
    let n = length-append {0} front (x ∷ a ∷ []) in
    let short : leb (length (front ++ x ∷ a ∷ [])) (length front + 2) ≡ true = ground (arith, n) in
    let more : leb (length front + 2 + 1) (length (front ++ x ∷ a ∷ [])) ≡ false =
      ground (arith, n) in
    let one : length front + 2 + 1 - length (front ++ x ∷ a ∷ []) ≡ 1 = omega (arith, n) in
    rw (short, more, one) (append_assoc front (x ∷ a ∷ []) (0 ∷ []))
grow_two front (a ∷ b ∷ rs) x =
    let n = length-append {0} front (x ∷ a ∷ b ∷ rs) in
    let long : leb (length (front ++ x ∷ a ∷ b ∷ rs)) (length front + 2) ≡ false =
      ground (arith, n) in
    rw long refl

pub add_at-behind :
    (front xs : List ℕ) (a n : ℕ) (rs : List ℕ)
    → add_at (front ++ (xs ++ a ∷ rs)) (length front + length xs) n
      ≡ ok (front ++ (xs ++ (a + n) ∷ rs))
add_at-behind front xs a n rs =
    ap (λ l. add_at l (length front + length xs) n) (sym (append_assoc front xs (a ∷ rs)))
    ∙ (ap (λ m. add_at ((front ++ xs) ++ a ∷ rs) m n) (sym (length-append {0} front xs))
        ∙ (add_at-last (front ++ xs) a n rs ∙ ap ok (append_assoc front xs ((a + n) ∷ rs))))
