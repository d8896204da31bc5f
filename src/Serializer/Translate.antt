-- ===== src/Serializer/Translate.antt =====
-- The tree that Source/WisentSerializer.cpp is to store for a document: `null` and the Booleans are
-- symbols, an object is an expression `Object` with an expression for each member, an array an
-- expression `List`, and the name of a CSV file, unless that is disabled, stands for its table.
use wisent.Prelude.{
  Bool, not, ◌&&◌, Option, none, some, List, [], ◌∷◌, ◌++◌, Bytes, codes, Result, ok, err,
  runtime_error, ◌>>=◌, if◌then◌else◌,
}
use wisent.Prelude.Int.{to_word}
use wisent.Json.{Json, Items, Fields}
use wisent.Csv.{
  Document, Environment, load_csv_data, convert_number, convert_string, stol, is_csv_name,
}
use wisent.Serializer.Tree.{Tree, Forest, nil, cons, long, double, string, symbol, expression}

module _ {V : Type 0} (leaf : V → Tree) where
  -- The values of a column; an empty cell is missing.
  unfoldable pub column_values : List (Option V) → Forest
  column_values [] = nil
  column_values (some val ∷ column) = cons (leaf val) (column_values column)
  column_values (none ∷ column) = cons (symbol (codes "Missing")) (column_values column)

  -- The column, if it has values.
  unfoldable pub column_tree : Bytes → List (Option V) → Option Tree
  column_tree name [] = none
  column_tree name (val ∷ column) = some (expression name (column_values (val ∷ column)))

  unfoldable pub converted_column :
      Document → (Bytes → Result (Option V)) → Bytes → Result (Option Tree)
  converted_column doc convert name = do
    column ← load_csv_data doc convert name
    ok (column_tree name column)

-- The first of the results that there is.
unfoldable pub or_else : Result (Option Tree) → Result Tree → Result Tree
or_else m k = do found ← m; elim found [ none ↦ k | some t ↦ ok t ]

module _ (env : Environment) where
  -- A column of integers, else of doubles, else of strings.
  unfoldable pub table_column : Document → Bytes → Result Tree
  table_column doc name = or_else (converted_column long doc (convert_number stol) name) (
      or_else (converted_column double doc (convert_number env.stod) name)
        (or_else (converted_column string doc convert_string name) (err runtime_error)))

  unfoldable pub table_columns : Document → List Bytes → Result Forest
  table_columns doc [] = ok nil
  table_columns doc (name ∷ names) = do
    t ← table_column doc name
    ts ← table_columns doc names
    ok (cons t ts)

  -- What a string of the document becomes.
  unfoldable pub string_tree :
      (csv_prefix : Bytes) (disable_csv_handling : Bool) → Bytes → Result Tree
  string_tree csv_prefix disable_csv_handling s =
      if not disable_csv_handling && is_csv_name s
      then (do
        doc ← env.open_csv_file (csv_prefix ++ s)
        ts ← table_columns doc doc.column_names
        ok (expression (codes "Table") ts))
      else ok (string s)

-- The tree of a document, given what its strings become.
module _ (resolve : Bytes → Tree) where
  abbrev mutual
    pub tree_of : Json → Tree
    tree_of Json.null = symbol (codes "Null")
    tree_of (Json.boolean b) = symbol (if b then codes "True" else codes "False")
    tree_of (Json.number_integer z) = long (to_word z)
    tree_of (Json.number_unsigned n) = long n
    tree_of (Json.number_float f) = double f
    tree_of (Json.string s) = resolve s
    tree_of (Json.array xs) = expression (codes "List") (items_of xs)
    tree_of (Json.object fs) = expression (codes "Object") (fields_of fs)

    pub items_of : Items → Forest
    items_of Items.nil = nil
    items_of (Items.cons x xs) = cons (tree_of x) (items_of xs)

    pub fields_of : Fields → Forest
    fields_of Fields.end = nil
    fields_of (Fields.field k v fs) = cons (expression k (cons (tree_of v) nil)) (fields_of fs)

-- A predicate holds of every string of a document that is a value.
module _ (P : Bytes → Type 0) where
  abbrev mutual
    pub AllStrings : Json → Type 0
    AllStrings Json.null = Unit {0}
    AllStrings (Json.boolean b) = Unit {0}
    AllStrings (Json.number_integer z) = Unit {0}
    AllStrings (Json.number_unsigned n) = Unit {0}
    AllStrings (Json.number_float f) = Unit {0}
    AllStrings (Json.string s) = P s
    AllStrings (Json.array xs) = AllStringsItems xs
    AllStrings (Json.object fs) = AllStringsFields fs

    pub AllStringsItems : Items → Type 0
    AllStringsItems Items.nil = Unit {0}
    AllStringsItems (Items.cons x xs) = AllStrings x × AllStringsItems xs

    pub AllStringsFields : Fields → Type 0
    AllStringsFields Fields.end = Unit {0}
    AllStringsFields (Fields.field k v fs) = AllStrings v × AllStringsFields fs
