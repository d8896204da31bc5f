-- ===== src/Bson/Columns/Members.antt =====
-- Source/BsonSerializer.cpp: the object of the columns of a CSV file.
use wisent.Prelude.{
  ok_inj, ◌≤◌, ◌≡◌, refl, ◌∙◌, sym, ap, some, List, [], ◌∷◌, Bytes, ok, ◌>>=◌, >>=-eq-ok, bytes_eq,
  eq_of_bytes_eq, Bool-cases, inl, inr,
}
use mathlib.Core.Path.{subst}
use wisent.Json.{Json, Fields, end}
use wisent.Csv.{Document, Environment}
use wisent.Serializer.Tree.{Forest, nil, cons}
use wisent.Serializer.Translate.{table_column, table_columns}
use wisent.Bson.Objects.{Objects, Documented, field_of, Sorted}
use wisent.Bson.Columns.{column_to_json, columns_to_json}
use wisent.Bson.Columns.Tables.{tree_json, column_to_json-table_column}

-- Under each name there is the array of the column of that name.
abbrev pub HasColumns : List Bytes → Forest → Fields → Type 0
HasColumns [] ts fields = Unit {0}
HasColumns (name ∷ names) nil fields = ⊥
HasColumns (name ∷ names) (cons t ts) fields =
    (field_of name fields ≡ some (tree_json t)) × HasColumns names ts fields

module _ (objects : Objects) (documented : Documented objects) (env : Environment)
    (doc : Document) where
  set-keeps :
      (k : Bytes) (v : Json) (name : Bytes) (column : Json) (columns : Fields)
      → column_to_json env doc k ≡ ok v
      → column_to_json env doc name ≡ ok column
      → field_of k columns ≡ some v
      → field_of k (objects.set_field name column columns) ≡ some v
  set-keeps k v name column columns e e' h = elim (Bool-cases (bytes_eq k name)) [
    | inl same ↦
        let n = eq_of_bytes_eq k name same in
        let c : column ≡ v = ok_inj (sym e' ∙ (ap (column_to_json env doc) (sym n) ∙ e)) in
        ap (λ k. field_of k (objects.set_field name column columns)) n
        ∙ (documented.set_self name column columns ∙ ap some c)
    | inr other ↦ documented.set_other name k column columns other ∙ h
  ]

  -- A column that is there is not lost: only one of the same name takes its place.
  columns-keep :
      (k : Bytes) (v : Json) (names : List Bytes) (columns fields : Fields)
      → column_to_json env doc k ≡ ok v
      → field_of k columns ≡ some v
      → columns_to_json objects env doc columns names ≡ ok fields
      → field_of k fields ≡ some v
  unfolding columns_to_json
  columns-keep k v [] columns fields e h r = ap (field_of k) (sym (ok_inj r)) ∙ h
  columns-keep k v (name ∷ names) columns fields e h r =
      let (column, e', r') = >>=-eq-ok (column_to_json env doc name) _ r in
      columns-keep k v names (objects.set_field name column columns) fields e
        (set-keeps k v name column columns e e' h) r'

  columns-added :
      (names : List Bytes) (ts : Forest) (columns : Fields)
      → 1 ≤ doc.row_count
      → table_columns env doc names ≡ ok ts
      → Sorted columns
      → (fields : Fields) × (columns_to_json objects env doc columns names ≡ ok fields)
        × Sorted fields
        × HasColumns names ts fields
  unfolding columns_to_json table_columns
  columns-added [] ts columns some_row h sorted = (columns, refl, sorted, tt)
  columns-added (name ∷ names) ts columns some_row h sorted =
      let (t, e, h1) =
        >>=-eq-ok (table_column env doc name)
          (λ t. table_columns env doc names >>= λ ts. ok (cons t ts)) h in
      let (ts', e', h2) = >>=-eq-ok (table_columns env doc names) (λ ts. ok (cons t ts)) h1 in
      let column = column_to_json-table_column env doc some_row name t e in
      let columns' = objects.set_field name (tree_json t) columns in
      let (fields, r, sorted', has) =
        columns-added names ts' columns' some_row e'
          (documented.sorted name (tree_json t) columns sorted) in
      (
        fields,
        rw column r,
        sorted',
        subst (λ ts. HasColumns (name ∷ names) ts fields) (ok_inj h2)
            (
              columns-keep name (tree_json t) names columns' fields column
                  (documented.set_self name (tree_json t) columns) r,
              has,
            ),
      )

  -- Where the columns of a document with a row convert to trees, the object of the columns is built; its
  -- keys ascend, and under the name of each column it has the array of that column's values.
  pub columns_to_json-HasColumns :
      (ts : Forest)
      → 1 ≤ doc.row_count
      → table_columns env doc doc.column_names ≡ ok ts
      → (fields : Fields) × (columns_to_json objects env doc end doc.column_names ≡ ok fields)
        × Sorted fields
        × HasColumns doc.column_names ts fields
  columns_to_json-HasColumns ts some_row h = columns-added doc.column_names ts end some_row h tt
