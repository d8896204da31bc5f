-- ===== src/Tests/Loading.antt =====
-- `load` on a document with a CSV file.
use wisent.Prelude.{
  zero, suc, ap, Result, err, ◌≤◌, ◌∷◌, ◌≡◌, ◌≢◌, ℕ, refl, true, false, none, some, [], Bool, codes,
  ok, bytes_eq, arith,
}
use wisent.Helpers.Sizes.{allocate-store_strings, filled_block, block_size}
use wisent.Helpers.{
  load_word, store_word, words_of, type_at, value_at, make_long_argument, make_symbol_argument,
  make_expression_argument, make_string_argument, member_at, load_member, store_member,
  store_expression, store_string, reallocation_size, c_str, Root, tree_size,
  allocate_expression_tree,
}
use wisent.Json.{events}
use wisent.Csv.{stol, convert_number, convert_string, load_csv_data, find_last_of, is_csv_name}
use wisent.Segment.{
  Process, find_name, find_entry, loaded, base_address, exists, has_bytes, is_mapped,
}
use wisent.Serializer.{
  sub64, partial_sum, last, json_to_wisent, get_next_argument_index, reset_type_rle, apply_type_rle,
  store_argument, add_value, add_long, add_string, add_symbol, add_expression, start_expression,
  set_elem, end_expression, handle_key_value_end, add_values, store_column, handle_csv_column,
  add_column, add_columns, handle_csv_file, handle, sax_parse,
}
use wisent.Serializer.Counting.{counted}
use wisent.Serializer.Stored.{StoredTree}
use wisent.Serializer.Translate.{tree_of}
use wisent.Serializer.Load.{Files, Options, present, encoded, load, write_block}
use wisent.Serializer.Load.Reallocations.{reallocations, last_size, memory_size}
use wisent.Segment.Current.{Held, Grants}
use wisent.Serializer.Tree.{expressions}
use mathlib.Core.Path.{subst}
use wisent.Serializer.Load.Outcomes.{load-present, load-forced_never_returns, load-StoredTree}
use wisent.Tests.{table_env}
use wisent.Tests.Segments.{one_object, one_object-Documented, map_object, process, entry, region}
use wisent.Tests.Traversals.{csv_document, resolve, csv_name-Countable, text-Countable}

abbrev files : Files ℕ
files = record { open_file = λ path. some (ok csv_document); contents = λ os address i. 0 }

abbrev options : Bool → Options
options force_reload = record {
  csv_prefix = [];
  disable_rle = false;
  disable_csv_handling = false;
  force_reload = force_reload;
}

-- A process without segments, in a system whose object is empty.
abbrev started : Process ℕ
started = record { os = 0; segments = []; next_identity = 0; current = none }

load-present_example :
    load one_object files table_env (options false) (codes "d.json") (codes "wisent") process
    ≡ ok (present process 4096)
unfolding find_name find_entry loaded base_address exists has_bytes is_mapped bytes_eq
load-present_example =
    load-present one_object files table_env (options false) (codes "d.json") (codes "wisent")
      process entry 4096 refl refl refl refl refl

load-forced_never_returns_example :
    load one_object files table_env (options true) (codes "d.json") (codes "wisent") process
    ≢ ok (present process 4096)
unfolding find_name find_entry loaded exists has_bytes is_mapped bytes_eq
load-forced_never_returns_example =
    load-forced_never_returns one_object files table_env (options true) (codes "d.json")
      (codes "wisent") process entry (present process 4096) refl refl refl (λ e. refl, tt) refl

-- The system grants any size; the block takes 387 bytes.
granted : (limit : ℕ) → Grants one_object 0 limit
unfolding map_object
granted limit zero os some_bytes within = absurd (omega arith)
granted limit (suc n) os some_bytes within = (suc n, region (suc n), refl, refl)

abbrev block_of : Result Root → Root
block_of (ok root) = root
block_of (err fault) = allocate_expression_tree 0 0 0 (λ i. 0)

abbrev written : Result Root
written =
    write_block one_object files table_env (options false) csv_document
      (expressions (tree_of resolve csv_document)) (counted (tree_of resolve csv_document) []) 4096
      (λ i. 0)

written-size : memory_size (block_of written) ≡ 387
unfolding write_block load_word store_word words_of allocate_expression_tree type_at value_at
    make_long_argument make_symbol_argument make_expression_argument make_string_argument member_at
    load_member store_member store_expression c_str store_string reallocation_size sub64 partial_sum
    last json_to_wisent get_next_argument_index reset_type_rle apply_type_rle store_argument
    add_value add_long add_string add_symbol add_expression start_expression set_elem end_expression
    handle_key_value_end add_values store_column handle_csv_column add_column add_columns
    handle_csv_file handle sax_parse stol convert_number convert_string load_csv_data resolve events
written-size = refl

within : (root : Root) → written ≡ ok root → memory_size root ≤ 387
within root h =
    subst (λ (r : Root). memory_size r ≤ 387) (ap block_of h) (omega (arith, written-size))

load-StoredTree_example :
    (root : Root) × (out : Process ℕ × ℕ) × (load one_object files table_env
        (options false)
        (codes "d.json")
        (codes "wisent")
        started
      ≡ ok (encoded out.0 out.1 root))
    × StoredTree false root 0 0
        (partial_sum 0 (counted (tree_of resolve csv_document) []))
        (tree_of resolve csv_document)
    × Held one_object 0 out.0 out.1
        (last_size (tree_size 11 (expressions (tree_of resolve csv_document))) (reallocations root))
unfolding resolve is_csv_name find_last_of partial_sum last find_name exists has_bytes map_object
    tree_size
load-StoredTree_example =
    load-StoredTree one_object files table_env (options false) one_object-Documented resolve
      (codes "d.json") (codes "wisent") started csv_document 11 0 352 0 387 (region 352) refl refl
      refl refl tt (csv_name-Countable, (text-Countable, tt)) refl (omega arith) (omega arith)
      (omega arith) refl refl refl (omega arith) (granted 387) within

-- Two keys in a block of three arguments and one expression.
allocate-store_strings_example :
    ((filled_block 3 1 4096 (λ i. 0) (codes "id" ∷ codes "name" ∷ [])).1 ≡ 112)
    × (block_size (filled_block 3 1 4096 (λ i. 0) (codes "id" ∷ codes "name" ∷ [])).0
        ≡ (filled_block 3 1 4096 (λ i. 0) (codes "id" ∷ codes "name" ∷ [])).1)
unfolding c_str
allocate-store_strings_example =
    allocate-store_strings 3 1 4096 (λ i. 0) (codes "id" ∷ codes "name" ∷ []) (omega arith)
