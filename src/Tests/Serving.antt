-- ===== src/Tests/Serving.antt =====
-- The theorems on the server, applied to a command line, requests and a process.
use wisent.Prelude.{
  Fault, Bool, true, false, out_of_bounds, assertion_failed, runtime_error, ℕ, ◌≡◌, refl, none,
  some, List, [], ◌∷◌, ◌++◌, Bytes, codes, ok, ◌>>=◌, bytes_eq,
}
use wisent.Csv.{find_last_of}
use wisent.Segment.WellFormed.{WellFormed}
use wisent.Server.Options.{initial_settings, parse_arguments}
use wisent.Server.Options.Described.{described, parse_arguments-described}
use wisent.Server.Paths.{behind, json_file, kind_of}
use wisent.Server.Paths.Kinds.{kind_of-json_file}
use wisent.Server.Timings.Averages.{Averages}
use wisent.Server.Serializers.{Serializers}
use wisent.Server.Requests.{Request, load_request, erase_request, stop_request}
use wisent.Server.Files.{json_names}
use wisent.Server.Exit.{free_all}
use wisent.Server.Main.{freeing, serve, run, run-json_names}
use wisent.Tests.{table_env}

abbrev args : List Bytes
args = codes "--disable-rle" ∷ codes "d/x.json" ∷ codes "--load-as-json" ∷ []

parse_arguments-described_example :
    parse_arguments initial_settings args ≡ ok (described initial_settings args)
unfolding bytes_eq
parse_arguments-described_example =
    parse_arguments-described initial_settings args (refl, (refl, (refl, tt)))

kind_of-json_file_example :
    kind_of (codes "d/" ++ (codes "x.y" ++ codes ".json"))
    ≡ ok (json_file (codes "x.y") (codes "d/"))
unfolding find_last_of behind
kind_of-json_file_example = kind_of-json_file (codes "d/") (codes "x.y") refl refl

-- Two requests for `a` and one for `b`.
abbrev times : List (Bytes × ℕ)
times = (codes "a", 3) ∷ (codes "b", 100) ∷ (codes "a", 6) ∷ []

-- Serializers that keep the names of what is loaded; storing BSON throws.
abbrev keeping : Serializers (List Bytes)
keeping = record {
  load_as_bson = λ call s. (call.shared_memory_name ∷ s, some runtime_error);
  load_as_json = λ call s. (call.shared_memory_name ∷ s, none);
  load = λ disable_rle call s. (call.shared_memory_name ∷ s, none);
  unload = λ name s. (s, none);
  free = λ name s. (s, none);
}

abbrev requests : List Request
requests =
    load_request
      (record {
        name = codes "y";
        filepath = codes "y.json";
        load_csv = none;
        to_bson = some (codes "1");
        to_json = none;
      })
      5
    ∷ erase_request (codes "y")
    ∷ stop_request
    ∷ []

-- Exceptions are caught.
abbrev caught : Fault → Bool
caught out_of_bounds = false
caught assertion_failed = false
caught _ = true

run-json_names_example : run keeping table_env (λ i. 1) caught args requests [] ≡ (
    parse_arguments initial_settings args >>= λ settings.
    serve keeping table_env (λ i. 1) caught settings requests [] >>= λ server.
    free_all
      (freeing keeping table_env (λ i. 1) caught)
      (json_names settings.filepaths)
      server.state)
run-json_names_example = run-json_names keeping table_env (λ i. 1) caught args requests []
