-- ===== src/Bson/Columns/Tables.antt =====
-- Source/CsvLoading.hpp: the two loaders of a column agree, and so do the two tables.
use wisent.Prelude.{
  ok_inj, ℕ, zero, suc, ◌≤◌, ◌≡◌, refl, ◌∙◌, sym, ap, inl, inr, Bool, true, false, Option, none,
  some, List, [], ◌∷◌, Bytes, Result, ok, err, ◌>>=◌, ◌>>◌, guard, >>=-eq-ok, if◌then◌else◌, length,
  ◌==◌, invalid_argument, arith,
}
use wisent.Json.{Json, Items}
use wisent.Csv.{
  Document, Environment, is_empty, stol, convert_number, convert_string, load_rows,
  catch_invalid_argument, load_csv_data,
}
use wisent.Serializer.Counting.Tables.Columns.{load_rows-length}
use mathlib.Core.Path.{subst}
use wisent.Serializer.Table.{or_else-cases}
use wisent.Serializer.Translate.{column_values, column_tree, converted_column, table_column}
use wisent.Serializer.Tree.{Tree, Forest, nil, cons, long, double, string, symbol, expression}
use wisent.Bson.Columns.{
  number_to_json, integer_value, string_to_json, load_rows_to_json, catch_to_null,
  load_csv_data_to_json, is_null, unless_null, column_to_json,
}

-- The values of a column as an array; a missing one is null.
unfoldable pub column_items : {V : Type 0} → (V → Json) → List (Option V) → Items
column_items value [] = Items.nil
column_items value (none ∷ column) = Items.cons Json.null (column_items value column)
column_items value (some v ∷ column) = Items.cons (value v) (column_items value column)

-- The column that `loadCsvData` has converted: none is null.
unfoldable pub column_json : {V : Type 0} → (V → Json) → List (Option V) → Json
unfolding column_items
column_json value [] = Json.null
column_json value (v ∷ column) = Json.array (column_items value (v ∷ column))

abbrev cell_json : {V : Type 0} → (V → Json) → Option V → Json
cell_json value none = Json.null
cell_json value (some v) = value v

number-cell :
    (make : ℕ → Json) (parse : Bytes → Result (ℕ × ℕ)) (str : Bytes)
    → number_to_json make parse str ≡ (convert_number parse str >>= λ v. ok (cell_json make v))
unfolding number_to_json convert_number
number-cell make parse str = go (is_empty str)
  where
    go :
        (b : Bool)
        → (if b then ok Json.null else (do
          (val, pos) ← parse str
          guard (pos == length str) invalid_argument
          ok (make val)))
          ≡ ((if b then ok none else (do
            (val, pos) ← parse str
            guard (pos == length str) invalid_argument
            ok (some val)))
              >>= λ v. ok (cell_json make v))
    go true = refl
    go false = parsed (parse str)
      where
        checked :
            (b : Bool) (val : ℕ)
            → (◌>>◌ {B = Json} (guard b invalid_argument) (ok (make val)))
              ≡ ((guard b invalid_argument >> ok (some val)) >>= λ v. ok (cell_json make v))
        checked true val = refl
        checked false val = refl

        parsed :
            (m : Result (ℕ × ℕ))
            → (do (val, pos) ← m; guard (pos == length str) invalid_argument; ok (make val)) ≡ (
                (do (val, pos) ← m; guard (pos == length str) invalid_argument; ok (some val))
                >>= λ v. ok (cell_json make v))
        parsed (err e) = refl
        parsed (ok (val, pos)) = checked (pos == length str) val

module _ {V : Type 0} (value : V → Json) (doc : Document) (convert : Bytes → Result (Option V))
    (to_json : Bytes → Result Json)
    (same : (str : Bytes) → to_json str ≡ (convert str >>= λ v. ok (cell_json value v))) where
  rows-items :
      (column row n : ℕ)
      → load_rows_to_json doc to_json column row n
        ≡ (load_rows doc convert column row n >>= λ values. ok (column_items value values))
  unfolding load_rows load_rows_to_json column_items
  rows-items column row zero = refl
  rows-items column row (suc n) =
      read (doc.cell column row) (load_rows_to_json doc to_json column (suc row) n)
        (load_rows doc convert column (suc row) n) (rows-items column (suc row) n)
    where
      joined :
          (v : Result (Option V)) (values : Result (List (Option V)))
          → ((v >>= λ v. ok (cell_json value v)) >>= λ v.
              (values >>= λ values. ok (column_items value values)) >>= λ rest.
              ok (Items.cons v rest))
            ≡ ((v >>= λ v. values >>= λ rest. ok (v ∷ rest)) >>= λ values.
                ok (column_items value values))
      joined (err e) values = refl
      joined (ok v) (err e) = refl
      joined (ok none) (ok values) = refl
      joined (ok (some v)) (ok values) = refl

      read :
          (m : Result Bytes) (items : Result Items) (values : Result (List (Option V)))
          → items ≡ (values >>= λ values. ok (column_items value values))
          → (m >>= λ str. to_json str >>= λ v. items >>= λ rest. ok (Items.cons v rest)) ≡ (
              (m >>= λ str. convert str >>= λ v. values >>= λ rest. ok (v ∷ rest)) >>= λ values.
              ok (column_items value values))
      read (err e) items values h = refl
      read (ok str) items values h = rw (same str, h) (joined (convert str) values)

  -- Caught, the two loaders have the same outcome, if there is a row.
  caught :
      (rows : Result (List (Option V)))
      → ((values : List (Option V)) → rows ≡ ok values → 1 ≤ length values)
      → catch_to_null (rows >>= λ values. ok (column_items value values))
        ≡ (catch_invalid_argument rows >>= λ values. ok (column_json value values))
  unfolding catch_to_null catch_invalid_argument column_items column_json
  caught (ok []) some_row = absurd (let e = some_row [] refl in omega (arith, e))
  caught (ok (v ∷ values)) some_row = refl
  caught (err invalid_argument) some_row = refl
  caught (err e) some_row = refl

  -- Where the conversions of a cell agree, so do the columns.
  column_same :
      (name : Bytes)
      → 1 ≤ doc.row_count
      → load_csv_data_to_json doc to_json name
        ≡ (load_csv_data doc convert name >>= λ values. ok (column_json value values))
  unfolding load_csv_data load_csv_data_to_json
  column_same name some_row = rw (rows-items (doc.column_index name) 0 doc.row_count) (
      caught _ (λ values h.
        omega
          (arith, load_rows-length doc convert (doc.column_index name) 0 doc.row_count values h)))

-- An argument as a JSON value; a symbol stands for a missing value.
abbrev mutual
  pub tree_json : Tree → Json
  tree_json (long w) = integer_value w
  tree_json (double f) = Json.number_float f
  tree_json (string s) = Json.string s
  tree_json (symbol s) = Json.null
  tree_json (expression h ts) = Json.array (forest_items ts)

  pub forest_items : Forest → Items
  forest_items nil = Items.nil
  forest_items (cons t ts) = Items.cons (tree_json t) (forest_items ts)

module _ {V : Type 0} (leaf : V → Tree) where
  items-values :
      (column : List (Option V))
      → column_items (λ v. tree_json (leaf v)) column ≡ forest_items (column_values leaf column)
  unfolding column_items column_values
  items-values [] = refl
  items-values (none ∷ column) = ap (Items.cons Json.null) (items-values column)
  items-values (some v ∷ column) = ap (Items.cons (tree_json (leaf v))) (items-values column)

  -- What the JSON loader returns, for what the conversion to a tree finds.
  abbrev Agrees : Result Json → Option Tree → Type 0
  Agrees m none = m ≡ ok Json.null
  Agrees m (some t) = (m ≡ ok (tree_json t)) × (is_null (tree_json t) ≡ false)

  values-Agrees :
      (name : Bytes) (column : List (Option V))
      → Agrees (ok (column_json (λ v. tree_json (leaf v)) column)) (column_tree leaf name column)
  unfolding column_json column_tree is_null
  values-Agrees name [] = refl
  values-Agrees name (v ∷ column) =
      (ap (λ items. ok (Json.array items)) (items-values (v ∷ column)), refl)

  module _ (doc : Document) (some_row : 1 ≤ doc.row_count) (convert : Bytes → Result (Option V))
      (to_json : Bytes → Result Json)
      (same : (str : Bytes)
        → to_json str ≡ (convert str >>= λ v. ok (cell_json (λ v. tree_json (leaf v)) v))) where
    converted-Agrees :
        (name : Bytes) (found : Option Tree)
        → converted_column leaf doc convert name ≡ ok found
        → Agrees (load_csv_data_to_json doc to_json name) found
    unfolding converted_column
    converted-Agrees name found h =
        let (column, e, f) =
          >>=-eq-ok (load_csv_data doc convert name) (λ c. ok (column_tree leaf name c)) h in
        let loads =
          column_same (λ v. tree_json (leaf v)) doc convert to_json same name some_row
          ∙ ap (λ m. m >>= λ values. ok (column_json (λ v. tree_json (leaf v)) values)) e in
        subst (Agrees (load_csv_data_to_json doc to_json name)) (ok_inj f) (
          subst (λ m. Agrees m (column_tree leaf name column)) (sym loads)
            (values-Agrees name column))

text-cell :
    (str : Bytes)
    → string_to_json str ≡ (convert_string str >>= λ v. ok (cell_json (λ s. Json.string s) v))
unfolding string_to_json convert_string
text-cell str = refl

chosen_null :
    (m next : Result Json) {r : Result Json} → m ≡ ok Json.null → next ≡ r → unless_null m next ≡ r
unfolding unless_null is_null
chosen_null m next e h = rw e h

chosen_value :
    (m next : Result Json) (j : Json) → m ≡ ok j → is_null j ≡ false → unless_null m next ≡ ok j
unfolding unless_null
chosen_value m next j e h = rw e (rw h refl)

module _ (env : Environment) (doc : Document) (some_row : 1 ≤ doc.row_count) where
  -- For a document with a row, a column as JSON is the column of `loadCsvData` with the same type: its
  -- array, or null, if a cell did not convert (or what else stops the one stops the other); for
  -- integers, for doubles and for strings.
  pub load_csv_data_to_json-load_csv_data :
      (name : Bytes)
      → (load_csv_data_to_json doc (number_to_json integer_value stol) name ≡ (
          load_csv_data doc (convert_number stol) name >>= λ values.
          ok (column_json integer_value values)))
        × (load_csv_data_to_json doc (number_to_json Json.number_float env.stod) name ≡ (
            load_csv_data doc (convert_number env.stod) name >>= λ values.
            ok (column_json Json.number_float values)))
        × (load_csv_data_to_json doc string_to_json name ≡ (
            load_csv_data doc convert_string name >>= λ values.
            ok (column_json (λ s. Json.string s) values)))
  load_csv_data_to_json-load_csv_data name = (
    column_same integer_value doc (convert_number stol) (number_to_json integer_value stol)
        (number-cell integer_value stol) name some_row,
    column_same Json.number_float doc (convert_number env.stod)
        (number_to_json Json.number_float env.stod) (number-cell Json.number_float env.stod) name
        some_row,
    column_same (λ s. Json.string s) doc convert_string string_to_json text-cell name some_row,
  )

  -- In a document with a row, a column that is stored as an expression is, as JSON, the array of its
  -- arguments: both serializers choose the same type, and convert each cell to the same value.
  pub column_to_json-table_column :
      (name : Bytes) (t : Tree)
      → table_column env doc name ≡ ok t
      → column_to_json env doc name ≡ ok (tree_json t)
  unfolding column_to_json table_column
  column_to_json-table_column name t h =
      elim (or_else-cases (converted_column long doc (convert_number stol) name) _ t h) [
        | inr found ↦ let (e, n) = integers (some t) found in chosen_value _ _ (tree_json t) e n
        | inl (none1, h1) ↦
            chosen_null _ _ (integers none none1)
              (elim (or_else-cases (converted_column double doc (convert_number env.stod) name) _ t
                h1) [
                  | inr found ↦
                      let (e, n) = doubles (some t) found in chosen_value _ _ (tree_json t) e n
                  | inl (none2, h2) ↦
                      chosen_null _ _ (doubles none none2)
                        (elim (or_else-cases (converted_column string doc convert_string name) _ t
                          h2) [
                            | inr found ↦ (strings (some t) found).0
                            | inl (none3, h3) ↦ absurd (cc)
                          ])
                ])
      ]
    where
      integers :
          (found : Option Tree)
          → converted_column long doc (convert_number stol) name ≡ ok found
          → Agrees long (load_csv_data_to_json doc (number_to_json integer_value stol) name) found
      integers =
          converted-Agrees long doc some_row (convert_number stol)
            (number_to_json integer_value stol) (number-cell integer_value stol) name

      doubles :
          (found : Option Tree)
          → converted_column double doc (convert_number env.stod) name ≡ ok found
          → Agrees double
              (load_csv_data_to_json doc (number_to_json Json.number_float env.stod) name)
              found
      doubles =
          converted-Agrees double doc some_row (convert_number env.stod)
            (number_to_json Json.number_float env.stod) (number-cell Json.number_float env.stod)
            name

      strings :
          (found : Option Tree)
          → converted_column string doc convert_string name ≡ ok found
          → Agrees string (load_csv_data_to_json doc string_to_json name) found
      strings = converted-Agrees string doc some_row convert_string string_to_json text-cell name
