-- ===== src/Serializer/Strings.antt =====
-- Source/WisentSerializer.cpp: the handler `string`, which stores a string or the table it names.
use wisent.Prelude.{
  ok_inj, ℕ, ◌≡◌, refl, ◌∙◌, sym, ap, Bool, true, false, not, ◌&&◌, ◌++◌, Bytes, codes, arith,
  Result, ok, err, ◌>>=◌, >>=-eq-ok, bind_assoc, bind_congr, if◌then◌else◌, Bool-cases, inl, inr,
  suc,
}
use mathlib.Core.Path.{fun_ext}
use wisent.Csv.{Environment, is_csv_name}
use wisent.Json.{string_event}
use wisent.Serializer.JsonToWisent.{
  Encoder, get_next_argument_index, reset_type_rle, add_expression, start_expression,
  end_expression, add_string, add_columns, handle_csv_file, handle_key_value_end, handle,
}
use wisent.Serializer.Tree.{Tree, Forest, string, expression}
use wisent.Serializer.Build.{build, build_forest}
use wisent.Serializer.Translate.{table_columns, string_tree}
use wisent.Serializer.Table.{add_columns-build}

next-prefix :
    (s s' : Encoder) (p : ℕ) → get_next_argument_index s ≡ ok (s', p) → s'.csv_prefix ≡ s.csv_prefix
unfolding get_next_argument_index
next-prefix s s' p h = ground arith

reset-prefix : (s s' : Encoder) (p : ℕ) → reset_type_rle s p ≡ ok s' → s'.csv_prefix ≡ s.csv_prefix
unfolding reset_type_rle
reset-prefix s s' p h = ground arith

add_expression-prefix :
    (s s' : Encoder) (e : ℕ) → add_expression s e ≡ ok s' → s'.csv_prefix ≡ s.csv_prefix
unfolding add_expression
add_expression-prefix s s' e h =
    let ((s1, p), f, h1) = >>=-eq-ok (get_next_argument_index s) _ h in
    let (root, g, h2) = >>=-eq-ok _ (λ root. reset_type_rle (record s1 { root = root }) p) h1 in
    reset-prefix _ s' p h2 ∙ next-prefix s s1 p f

start_expression-prefix :
    (s s' : Encoder) (head : Bytes) → start_expression s head ≡ ok s' → s'.csv_prefix ≡ s.csv_prefix
unfolding start_expression
start_expression-prefix s s' head h =
    let (s1, f, h1) =
      >>=-eq-ok
        (add_expression (record s { next_expression_index = suc s.next_expression_index })
          s.next_expression_index)
        _ h in
    let kept = add_expression-prefix _ s1 s.next_expression_index f in ground (arith, h1)

module _ (env : Environment) where
  abbrev table : Bytes → Bytes → Result Tree
  table csv_prefix text = do
    doc ← env.open_csv_file (csv_prefix ++ text)
    ts ← table_columns env doc doc.column_names
    ok (expression (codes "Table") ts)

  abbrev calls : (csv_prefix text : Bytes) → Encoder → Result Encoder
  calls csv_prefix text s = do
    doc ← env.open_csv_file (csv_prefix ++ text)
    s' ← add_columns env doc s doc.column_names
    end_expression s'

  -- Once the table is open, what the handler reads are the columns of its tree.
  calls-build :
      (s s1 : Encoder) (text : Bytes) (ts : Forest)
      → s1.csv_prefix ≡ s.csv_prefix
      → table s.csv_prefix text ≡ ok (expression (codes "Table") ts)
      → calls s1.csv_prefix text s1 ≡ (build_forest s1 ts >>= end_expression)
  calls-build s s1 text ts e h =
      let (doc, f, h1) = >>=-eq-ok (env.open_csv_file (s.csv_prefix ++ text)) _ h in
      let (ts', g, h2) = >>=-eq-ok (table_columns env doc doc.column_names) _ h1 in
      ap (λ p. calls p text s1) e
      ∙ rw (f, add_columns-build env doc doc.column_names s1 ts' g)
          (ap (λ ts. build_forest s1 ts >>= end_expression) (forest_eq h2))
    where
      forest_eq :
          {a b : Forest}
          → ok (expression (codes "Table") a) ≡ ok (expression (codes "Table") b)
          → a ≡ b
      forest_eq p = cc

  table-build :
      (s : Encoder) (text : Bytes) (ts : Forest)
      → table s.csv_prefix text ≡ ok (expression (codes "Table") ts)
      → (start_expression s (codes "Table") >>= λ s1. calls s1.csv_prefix text s1)
        ≡ build s (expression (codes "Table") ts)
  unfolding build
  table-build s text ts h =
      bind_congr (start_expression s (codes "Table")) _ _
        (λ s1 e. calls-build s s1 text ts (start_expression-prefix s s1 (codes "Table") e) h)

  plain_string :
      (s : Encoder) (text : Bytes)
      → (not s.disable_csv_handling && is_csv_name text) ≡ false
      → handle env s (string_event text) ≡ (add_string s text >>= handle_key_value_end)
  unfolding handle handle_csv_file
  plain_string s text h = ground arith

  and_true : (a b : Bool) → (not a && b) ≡ true → (a ≡ false) × (b ≡ true)
  and_true true b h = cc
  and_true false b h = (refl, h)

  abbrev with_true : Encoder → Result (Encoder × Bool)
  with_true s = ok (s, true)

  reassoc :
      (m : Result Encoder) (f : Encoder → Result Encoder) (g : Encoder × Bool → Result Encoder)
      → ((m >>= λ s1. f s1 >>= with_true) >>= g) ≡ ((m >>= f) >>= λ s2. g (s2, true))
  reassoc (err e) f g = refl
  reassoc (ok s1) f g = bind_assoc (f s1) with_true g

  calls_then :
      (csv_prefix text : Bytes) (s : Encoder)
      → (calls csv_prefix text s >>= with_true) ≡ (
          env.open_csv_file (csv_prefix ++ text) >>= λ doc.
          add_columns env doc s doc.column_names >>= λ s1. end_expression s1 >>= with_true)
  calls_then csv_prefix text s =
      bind_assoc (env.open_csv_file (csv_prefix ++ text))
        (λ doc. add_columns env doc s doc.column_names >>= end_expression) with_true
      ∙ ap (λ f. env.open_csv_file (csv_prefix ++ text) >>= f)
          (fun_ext
            (λ doc. bind_assoc (add_columns env doc s doc.column_names) end_expression with_true))

  open_string :
      (s : Encoder) (text : Bytes)
      → s.disable_csv_handling ≡ false
      → is_csv_name text ≡ true
      → handle env s (string_event text) ≡ (
          (start_expression s (codes "Table") >>= λ s1. calls s1.csv_prefix text s1)
          >>= handle_key_value_end)
  unfolding handle handle_csv_file
  open_string s text off csv =
      ap
        (λ d.
          (if d then ok (s, false) else if not (is_csv_name text) then ok (s, false) else opened)
          >>= finish)
        off
      ∙ (ap (λ c. (if not c then ok (s, false) else opened) >>= finish) csv
          ∙ (ap (λ f. (start_expression s (codes "Table") >>= f) >>= finish)
                (fun_ext (λ s1. sym (calls_then s1.csv_prefix text s1)))
              ∙ reassoc (start_expression s (codes "Table")) (λ s1. calls s1.csv_prefix text s1)
                  finish))
    where
      opened : Result (Encoder × Bool)
      opened = start_expression s (codes "Table") >>= λ s1.
          env.open_csv_file (s1.csv_prefix ++ text) >>= λ doc.
          add_columns env doc s1 doc.column_names >>= λ s2. end_expression s2 >>= with_true

      finish : Encoder × Bool → Result Encoder
      finish (s', handled) =
          (if handled then ok s' else add_string s' text) >>= handle_key_value_end

  csv_string :
      (s : Encoder) (text : Bytes)
      → (not s.disable_csv_handling && is_csv_name text) ≡ true
      → handle env s (string_event text) ≡ (
          (start_expression s (codes "Table") >>= λ s1. calls s1.csv_prefix text s1)
          >>= handle_key_value_end)
  unfolding handle handle_csv_file
  csv_string s text h =
      let (off, csv) = and_true s.disable_csv_handling (is_csv_name text) h in
      open_string s text off csv

  -- The handler of a string does what storing its tree and ending a member do: the tree is the string
  -- itself, unless CSV handling is on and the string ends in `.csv`; then it is the table of that file,
  -- if it can be read and its columns convert.
  pub string-build :
      (s : Encoder) (text : Bytes) (t : Tree)
      → string_tree env s.csv_prefix s.disable_csv_handling text ≡ ok t
      → handle env s (string_event text) ≡ (build s t >>= handle_key_value_end)
  unfolding string_tree build
  string-build s text t h = elim (Bool-cases (not s.disable_csv_handling && is_csv_name text)) [
    | inl e ↦
        let h' : table s.csv_prefix text ≡ ok t =
          sym (ap (λ q. if q then table s.csv_prefix text else ok (string text)) e) ∙ h in
        let (doc, f, h1) = >>=-eq-ok (env.open_csv_file (s.csv_prefix ++ text)) _ h' in
        let (ts, g, h2) = >>=-eq-ok (table_columns env doc doc.column_names) _ h1 in
        csv_string s text e
        ∙ (ap (λ m. m >>= handle_key_value_end)
            (table-build s text ts (h' ∙ sym h2) ∙ ap (build s) (ok_inj h2)))
    | inr e ↦
        plain_string s text e
        ∙ ap (λ t. build s t >>= handle_key_value_end)
            (ok_inj (sym (ap (λ q. if q then table s.csv_prefix text else ok (string text)) e) ∙ h))
  ]
