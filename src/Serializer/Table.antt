-- ===== src/Serializer/Table.antt =====
-- Source/WisentSerializer.cpp: `handleCsvFile` and `handleCsvColumn` make the calls that store the
-- table of a CSV file.
use wisent.Prelude.{
  ok_inj, ◌≡◌, refl, ◌∙◌, sym, ap, ◌⊎◌, inl, inr, Bool, true, false, Option, none, some, List, [],
  ◌∷◌, Bytes, codes, Result, ok, err, ◌>>=◌, >>=-eq-ok, bind_assoc, if◌then◌else◌,
}
use mathlib.Core.Path.{fun_ext}
use wisent.Csv.{Document, Environment, load_csv_data, convert_number, convert_string, stol}
use wisent.Serializer.JsonToWisent.{
  Encoder, add_long, add_double, add_string, add_symbol, start_expression, end_expression,
  add_values, store_column, handle_csv_column, add_column, add_columns,
}
use wisent.Serializer.Tree.{Tree, Forest, cons, long, double, string}
use wisent.Serializer.Build.{build, build_forest}
use wisent.Serializer.Translate.{
  column_values, column_tree, converted_column, or_else, table_column, table_columns,
}

-- Store the tree, if there is one, and say whether there was.
store_found : Encoder → Option Tree → Result (Encoder × Bool)
store_found s none = ok (s, false)
store_found s (some t) = do s' ← build s t; ok (s', true)

module _ {V : Type 0} (leaf : V → Tree) (add : Encoder → V → Result Encoder)
    (adds : (s : Encoder) (v : V) → add s v ≡ build s (leaf v)) where
  add_values-build :
      (s : Encoder) (column : List (Option V))
      → add_values add s column ≡ build_forest s (column_values leaf column)
  unfolding add_values build_forest column_values
  add_values-build s [] = refl
  add_values-build s (some val ∷ column) =
      rw (adds s val)
        (ap (λ k. build s (leaf val) >>= k) (fun_ext (λ s'. add_values-build s' column)))
  add_values-build s (none ∷ column) =
      ap (λ k. add_symbol s (codes "Missing") >>= k) (fun_ext (λ s'. add_values-build s' column))

  store_column-build :
      (s : Encoder) (name : Bytes) (column : List (Option V))
      → store_column add s name column ≡ store_found s (column_tree leaf name column)
  unfolding store_column store_found column_tree build
  store_column-build s name [] = refl
  store_column-build s name (val ∷ column) =
      ap (λ k. start_expression s name >>= k)
        (fun_ext λ s'. rw (add_values-build s' (val ∷ column)) (
          sym (
            bind_assoc (build_forest s' (column_values leaf (val ∷ column))) end_expression
              (λ s''. ok (s'', true)))))
      ∙ sym (
          bind_assoc (start_expression s name)
            (λ s'. build_forest s' (column_values leaf (val ∷ column)) >>= end_expression)
            (λ s'. ok (s', true)))

  handle_csv_column-found :
      (s : Encoder) (doc : Document) (convert : Bytes → Result (Option V)) (name : Bytes)
      (found : Option Tree)
      → converted_column leaf doc convert name ≡ ok found
      → handle_csv_column doc convert add s name ≡ store_found s found
  unfolding handle_csv_column converted_column
  handle_csv_column-found s doc convert name found h =
      let (column, e, f) =
        >>=-eq-ok (load_csv_data doc convert name) (λ c. ok (column_tree leaf name c)) h in
      rw e (store_column-build s name column ∙ ap (store_found s) (some_ok f))
    where
      some_ok : {a b : Option Tree} → ok a ≡ ok b → a ≡ b
      some_ok p = cc

pub or_else-cases :
    (m : Result (Option Tree)) (k : Result Tree) (t : Tree)
    → or_else m k ≡ ok t
    → ((m ≡ ok none) × (k ≡ ok t)) ⊎ (m ≡ ok (some t))
unfolding or_else
or_else-cases (ok none) k t h = inl (refl, h)
or_else-cases (ok (some t')) k t h = inr (cc)
or_else-cases (err e) k t h = cc

-- `if`, over a result that says whether there was a tree.
choose_none :
    (s : Encoder) (k : Encoder → Result Encoder)
    → ◌>>=◌ {A = Encoder × Bool} (store_found s none) (λ p. if p.1 then ok p.0 else k p.0) ≡ k s
unfolding store_found
choose_none s k = refl

choose_some :
    (s : Encoder) (t : Tree) (k : Encoder → Result Encoder)
    → ◌>>=◌ {A = Encoder × Bool} (store_found s (some t)) (λ p. if p.1 then ok p.0 else k p.0)
      ≡ build s t
unfolding store_found
choose_some s t k = go (build s t)
  where
    go :
        (m : Result Encoder)
        → ◌>>=◌ {A = Encoder × Bool}
            (m >>= λ s'. ok (s', true))
            (λ p. if p.1 then ok p.0 else k p.0)
          ≡ m
    go (ok a) = refl
    go (err e) = refl

module _ (env : Environment) (doc : Document) where
  long_found :
      (s : Encoder) (name : Bytes) (found : Option Tree)
      → converted_column long doc (convert_number stol) name ≡ ok found
      → handle_csv_column doc (convert_number stol) add_long s name ≡ store_found s found
  unfolding build
  long_found s name found h =
      handle_csv_column-found long add_long (λ s v. refl) s doc (convert_number stol) name found h

  double_found :
      (s : Encoder) (name : Bytes) (found : Option Tree)
      → converted_column double doc (convert_number env.stod) name ≡ ok found
      → handle_csv_column doc (convert_number env.stod) add_double s name ≡ store_found s found
  unfolding build
  double_found s name found h =
      handle_csv_column-found double add_double (λ s v. refl) s doc (convert_number env.stod) name
        found h

  string_found :
      (s : Encoder) (name : Bytes) (found : Option Tree)
      → converted_column string doc convert_string name ≡ ok found
      → handle_csv_column doc convert_string add_string s name ≡ store_found s found
  unfolding build
  string_found s name found h =
      handle_csv_column-found string add_string (λ s v. refl) s doc convert_string name found h

  add_column-build :
      (s : Encoder) (name : Bytes) (t : Tree)
      → table_column env doc name ≡ ok t
      → add_column env doc s name ≡ build s t
  unfolding add_column table_column
  add_column-build s name t h =
      elim (or_else-cases (converted_column long doc (convert_number stol) name) _ t h) [
        | inr found ↦ rw (long_found s name (some t) found) (choose_some s t _)
        | inl (none1, h1) ↦ rw (long_found s name none none1) (
            choose_none s _
            ∙ elim (or_else-cases (converted_column double doc (convert_number env.stod) name) _ t
                h1) [
                  | inr found ↦ rw (double_found s name (some t) found) (choose_some s t _)
                  | inl (none2, h2) ↦ rw (double_found s name none none2) (
                      choose_none s _
                      ∙ elim (or_else-cases (converted_column string doc convert_string name) _ t
                          h2) [
                            | inr found ↦
                                rw (string_found s name (some t) found) (choose_some s t _)
                            | inl (none3, h3) ↦ absurd (cc)
                          ])
                ])
      ]

  -- Where every column converts to a tree (of integers, else of doubles, an empty cell standing for
  -- `Missing`; else of strings, an empty cell being the empty string), adding the columns does what
  -- storing the trees one after another does.
  pub add_columns-build :
      (names : List Bytes) (s : Encoder) (ts : Forest)
      → table_columns env doc names ≡ ok ts
      → add_columns env doc s names ≡ build_forest s ts
  unfolding add_columns table_columns build_forest
  add_columns-build [] s ts h = rw (sym (ok_inj h)) refl
  add_columns-build (name ∷ names) s ts h =
      let (t, e, h1) =
        >>=-eq-ok (table_column env doc name)
          (λ t. table_columns env doc names >>= λ ts. ok (cons t ts)) h in
      let (ts', e', h2) = >>=-eq-ok (table_columns env doc names) (λ ts. ok (cons t ts)) h1 in
      rw (add_column-build s name t e) (
        ap (λ k. build s t >>= k) (fun_ext (λ s'. add_columns-build names s' ts' e'))
        ∙ ap (build_forest s) (ok_inj h2))
