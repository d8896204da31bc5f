-- ===== src/Serializer/Counting/Tables.antt =====
-- Source/WisentSerializer.cpp: the first traversal of `load` on the name of a CSV file.
use wisent.Prelude.{
  ok_inj, ℕ, zero, suc, ◌+◌, ◌-◌, ◌*◌, ◌≤◌, ◌≡◌, refl, ◌∙◌, sym, ap, inl, inr, Bool, true, false,
  not, ◌&&◌, Option, none, some, List, [], ◌∷◌, ◌++◌, Bytes, codes, arith, length, Result, ok, err,
  invalid_argument, ◌>>=◌, >>=-eq-ok, leb, append_assoc, length-append, Bool-cases,
}
use mathlib.Core.Path.{subst}
use wisent.Serializer.Table.{or_else-cases}
use wisent.Csv.{
  Document, Environment, is_csv_name, load_csv_data, load_rows, catch_invalid_argument,
  convert_number, convert_string, stol,
}
use wisent.Serializer.FirstPass.{Counter, resize, grow, add_at, count_table, count_value}
use wisent.Serializer.Tree.{
  Tree, Forest, nil, cons, long, double, string, expression, expressions, expressions_forest,
}
use wisent.Serializer.Translate.{
  column_values, column_tree, converted_column, table_column, table_columns, string_tree,
}
use wisent.Serializer.Counting.{counted, counted_forest, present, raise, entry}
use wisent.Serializer.Counting.Steps.{state, add_at-last}
use wisent.Serializer.Counting.Traversal.{below, raise-below, counted-below}
pub mod Columns
use wisent.Serializer.Counting.Tables.Columns.{columns-counted, grow_two, add_at-behind, IsColumn}

-- What the code relies on in a CSV document (`rapidcsv` documents it so): it has as many columns as
-- names of columns. There must be a column: the table of no columns has no second layer.
pub record Shaped (doc : Document) : Type 0 where
  pub named_columns : length doc.column_names ≡ doc.column_count
  pub some_column : 1 ≤ doc.column_count

module _ (env : Environment) (csv_prefix : Bytes) (disable_csv_handling : Bool) where
  -- The file that a string names, if it names one, is a table.
  abbrev pub Tabular : Bytes → Type 0
  Tabular v =
      (not disable_csv_handling && is_csv_name v) ≡ true
      → (doc : Document) → env.open_csv_file (csv_prefix ++ v) ≡ ok doc
      → Shaped doc

  count_table-state :
      (name : Bytes) (doc : Document) (count : ℕ) (front rs : List ℕ) (keys : List Bool) (x : ℕ)
      → env.open_csv_file (csv_prefix ++ name) ≡ ok doc
      → count_table env csv_prefix disable_csv_handling (state count front (x ∷ rs) keys) name
        ≡ ok (
            state
              (suc count + doc.column_count)
              front
              (x
                ∷ (entry rs 0 + doc.column_count)
                ∷ (entry (below rs) 0 + doc.column_count * doc.row_count)
                ∷ below (below rs))
              keys)
  unfolding count_table
  count_table-state name doc count front rs keys x opens =
      rw
        (
          opens,
          grow_two front rs x,
          add_at-behind front (x ∷ []) (entry rs 0) doc.column_count
              (entry (below rs) 0 ∷ below (below rs)),
          add_at-behind front (x ∷ (entry rs 0 + doc.column_count) ∷ []) (entry (below rs) 0)
              (doc.column_count * doc.row_count) (below (below rs)),
        )
        refl

  table_counted :
      (doc : Document) (ts : Forest) (rs : List ℕ)
      → table_columns env doc doc.column_names ≡ ok ts
      → Shaped doc
      → (expressions_forest ts ≡ doc.column_count)
        × (counted_forest ts rs
            ≡ (entry rs 0 + doc.column_count)
              ∷ (entry (below rs) 0 + doc.column_count * doc.row_count)
              ∷ below (below rs))
  table_counted doc ts rs columns shaped =
      let (n, counts, others) = columns-counted env doc doc.column_names ts columns in
      (
        n ∙ shaped.named_columns,
        subst
            (λ m.
              counted_forest ts rs
              ≡ (entry rs 0 + m) ∷ (entry (below rs) 0 + m * doc.row_count) ∷ below (below rs))
            shaped.named_columns
            (others (omega (arith, shaped.named_columns, shaped.some_column)) rs),
      )

  -- On a string, the traversal counts the tree that the string becomes.
  pub count_value-counted :
      (v : Bytes) (t : Tree)
      → string_tree env csv_prefix disable_csv_handling v ≡ ok t
      → Tabular v
      → (count : ℕ) (front rs : List ℕ) (keys : List Bool)
      → count_value env csv_prefix disable_csv_handling (state count front (raise rs) keys) (some v)
        ≡ ok (state (count + expressions t) front (counted t rs) keys)
  unfolding count_value string_tree
  count_value-counted v t becomes tabular count front rs keys =
      elim (Bool-cases (not disable_csv_handling && is_csv_name v)) [
        | inr other ↦ rw other (
            subst (λ t. ok (state count front (raise rs) keys) ≡ Counted t)
              (ok_inj (sym (plain other) ∙ becomes))
              (ap (λ n. ok (state n front (raise rs) keys))
                (let e : count ≡ count + 0 = omega arith in e)))
        | inl csv ↦
            let (doc, opens, h1) =
              >>=-eq-ok (env.open_csv_file (csv_prefix ++ v)) table (sym (tabled csv) ∙ becomes) in
            let (ts, columns, h2) =
              >>=-eq-ok (table_columns env doc doc.column_names) as_table h1 in
            let (n, counts) = table_counted doc ts (below rs) columns (tabular csv doc opens) in
            rw csv (
              ap (λ l. count_table env csv_prefix disable_csv_handling (state count front l keys) v)
                (raise-below rs)
              ∙ (count_table-state v doc count front (below rs) keys (suc (entry rs 0)) opens
                  ∙ (counted_as (expression (codes "Table") ts)
                        (let e : suc count + doc.column_count
                              ≡ count + suc (expressions_forest ts) =
                            omega (arith, n) in
                          e)
                        (sym (
                          counted-below (codes "Table") ts rs
                          ∙ ap (λ l. suc (entry rs 0) ∷ present l) counts))
                      ∙ ap Counted (ok_inj h2))))
      ]
    where
      Counted : Tree → Result Counter
      Counted t = ok (state (count + expressions t) front (counted t rs) keys)

      as_table : Forest → Result Tree
      as_table ts = ok (expression (codes "Table") ts)

      table : Document → Result Tree
      table doc = table_columns env doc doc.column_names >>= as_table

      plain :
          (not disable_csv_handling && is_csv_name v) ≡ false
          → string_tree env csv_prefix disable_csv_handling v ≡ ok (string v)
      plain other = rw other refl

      tabled :
          (not disable_csv_handling && is_csv_name v) ≡ true
          → string_tree env csv_prefix disable_csv_handling v
            ≡ (env.open_csv_file (csv_prefix ++ v) >>= table)
      tabled csv = rw csv refl

      counted_as :
          (t : Tree) {n : ℕ} {l : List ℕ}
          → n ≡ count + expressions t
          → l ≡ counted t rs
          → ok (state n front l keys) ≡ Counted t
      counted_as t {l} p q =
          ap (λ n. ok (state n front l keys)) p
          ∙ ap (λ l. ok (state (count + expressions t) front l keys)) q
