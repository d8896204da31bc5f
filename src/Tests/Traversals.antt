-- ===== src/Tests/Traversals.antt =====
-- The first traversal, and both traversals, of a document with a CSV file.
use wisent.Prelude.{◌≡◌, refl, ap, false, [], ◌∷◌, Bytes, codes, ok, ◌>>=◌, if◌then◌else◌, arith}
use mathlib.Core.Path.{subst}
use wisent.Serializer.Counting.Tables.{Shaped}
use wisent.Json.{Json, Fields, parse_events}
use wisent.Csv.{Document, is_csv_name, find_last_of}
use wisent.Serializer.{Counter, initial_counter, parse, partial_sum, last}
use wisent.Serializer.Tree.{Tree, string, expression}
use wisent.Serializer.Translate.{string_tree}
use wisent.Serializer.Counting.Documents.{Countable, parse-counted}
use wisent.Serializer.Counting.TwoPasses.{Encoded, parse-sax_parse-StoredTree}
use wisent.Tests.{table_env, table_document, table_forest, table_forest-columns}

-- {"t": "d.csv", "u": "x"}
abbrev pub csv_document : Json
csv_document = Json.object (
    Fields.field (codes "t") (Json.string (codes "d.csv"))
      (Fields.field (codes "u") (Json.string (codes "x")) Fields.end))

-- A name stands for the table, another string for itself.
unfoldable pub resolve : Bytes → Tree
unfolding is_csv_name
resolve v = if is_csv_name v then expression (codes "Table") table_forest else string v

pub csv_name-Countable : Countable table_env resolve [] false (codes "d.csv")
unfolding string_tree is_csv_name resolve find_last_of
csv_name-Countable = (
  ap (λ r. r >>= λ ts. ok (expression (codes "Table") ts)) table_forest-columns,
  λ csv doc opens.
      subst Shaped (opened doc opens) (record { named_columns = refl; some_column = omega arith }),
)
  where
    opened : (doc : Document) → ok table_document ≡ ok doc → table_document ≡ doc
    opened doc h = cc

pub text-Countable : Countable table_env resolve [] false (codes "x")
unfolding string_tree is_csv_name resolve find_last_of
text-Countable = (refl, λ csv. cc)

parse-counted_example :
    (c : Counter) × (parse table_env [] false initial_counter (parse_events 0 csv_document) ≡ ok c)
    × (c.expression_count ≡ 6)
    × (c.argument_count_per_layer ≡ 1 ∷ 2 ∷ 2 ∷ 2 ∷ 4 ∷ [])
unfolding resolve is_csv_name find_last_of
parse-counted_example =
    parse-counted table_env resolve [] false csv_document (csv_name-Countable, (text-Countable, tt))
      (omega arith)

parse-sax_parse-StoredTree_example :
    Encoded table_env resolve [] false false 0 (λ _. 0) csv_document
unfolding resolve is_csv_name find_last_of partial_sum last
parse-sax_parse-StoredTree_example =
    parse-sax_parse-StoredTree table_env resolve [] false false 0 (λ _. 0) csv_document 11 tt
      (csv_name-Countable, (text-Countable, tt)) refl (omega arith) (omega arith) (omega arith) refl
