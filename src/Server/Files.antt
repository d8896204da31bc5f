-- ===== src/Server/Files.antt =====
-- Source/WisentServer.cpp: the files of the command line.
use wisent.Prelude.{
  ℕ, suc, Bool, false, not, List, [], ◌∷◌, ◌++◌, Bytes, Result, ok, err, assertion_failed, ◌>>=◌,
  ◌>>◌, guard, if◌then◌else◌, ◌≡◌, ◌∙◌, sym, ap, >>=-eq-ok, append_assoc, append-nil,
}
use wisent.Csv.{Document, Environment}
use wisent.Bson.Columns.{column_to_json, is_null}
use wisent.Server.Options.{Settings}
use wisent.Server.Paths.{Kind, json_file, csv_file, unsupported_file, kind_of}
use wisent.Server.Timings.{record_time}
use wisent.Server.Serializers.{LoadCall, Outcome, uncaught, Serializers, Server}

-- The names of the JSON files among the paths.
unfoldable pub json_name : Result Kind → List Bytes
json_name (ok (json_file name csv_prefix)) = name ∷ []
json_name (ok csv_file) = []
json_name (ok unsupported_file) = []
json_name (err e) = []

unfoldable pub json_names : List Bytes → List Bytes
unfolding json_name
json_names [] = []
json_names (filepath ∷ filepaths) = json_name (kind_of filepath) ++ json_names filepaths

module _ (env : Environment) (doc : Document) where
  -- `assert(!column.is_null())`, for each column.
  unfoldable pub convert_columns : List Bytes → Result (Unit {0})
  convert_columns [] = ok tt
  convert_columns (name ∷ names) = do
    column ← column_to_json env doc name
    guard (not (is_null column)) assertion_failed
    convert_columns names

module _ {State : Type 0} (serializers : Serializers State) (env : Environment)
    (settings : Settings) where
  -- BSON and JSON take the defaults of their options.
  unfoldable pub load_json_file : (filepath name csv_prefix : Bytes) → State → Outcome State
  load_json_file filepath name csv_prefix s =
      if settings.load_arg_as_bson
      then serializers.load_as_bson (call false false) s
      else if settings.load_arg_as_json
      then serializers.load_as_json (call false false) s
      else serializers.load settings.disable_rle
          (call settings.disable_csv_handling settings.force_reload) s
    where
      call : (disable_csv_handling force_reload : Bool) → LoadCall
      call disable_csv_handling force_reload = record {
        path = filepath;
        shared_memory_name = name;
        csv_prefix = csv_prefix;
        disable_csv_handling = disable_csv_handling;
        force_reload = force_reload;
      }

  unfoldable pub load_file :
      (filepath : Bytes) (time_diff : ℕ) → Server State → Kind → Result (Server State)
  unfolding load_json_file convert_columns
  load_file filepath time_diff server (json_file name csv_prefix) = do
    s ← uncaught (load_json_file filepath name csv_prefix server.state)
    ok (record server { state = s; names = server.names ++ name ∷ [] })
  load_file filepath time_diff server csv_file = do
    doc ← env.open_csv_file filepath
    converted ← convert_columns env doc doc.column_names
    ok (record server { timings = record_time filepath time_diff server.timings })
  load_file filepath time_diff server unsupported_file = ok server

  -- The loop; `time_diff i` is how long the `i`th file took.
  unfoldable pub load_files :
      (time_diff : ℕ → ℕ) (i : ℕ) → List Bytes → Server State → Result (Server State)
  unfolding load_file
  load_files time_diff i [] server = ok server
  load_files time_diff i (filepath ∷ filepaths) server = do
    kind ← kind_of filepath
    server' ← load_file filepath (time_diff i) server kind
    load_files time_diff (suc i) filepaths server'

  named : {a b : Server State} → ok a ≡ ok b → a.names ≡ b.names
  named h = ap (λ (s : Server State). s.names) (inj h)
    where
      inj : {a b : Server State} → ok a ≡ ok b → a ≡ b
      inj h = cc

  load_file-names :
      (filepath : Bytes) (time_diff : ℕ) (server server' : Server State) (kind : Kind)
      → load_file filepath time_diff server kind ≡ ok server'
      → server'.names ≡ server.names ++ json_name (ok kind)
  unfolding load_file json_name
  load_file-names filepath time_diff server server' (json_file name csv_prefix) h =
      let (s, e, h1) =
        >>=-eq-ok (uncaught (load_json_file filepath name csv_prefix server.state)) _ h in
      sym (named h1)
  load_file-names filepath time_diff server server' csv_file h =
      let (doc, e, h1) = >>=-eq-ok (env.open_csv_file filepath) _ h in
      let (converted, e1, h2) = >>=-eq-ok (convert_columns env doc doc.column_names) _ h1 in
      sym (named h2) ∙ sym (append-nil server.names)
  load_file-names filepath time_diff server server' unsupported_file h =
      sym (named h) ∙ sym (append-nil server.names)

  -- The names of the JSON files are kept, in the order of the command line.
  pub load_files-names :
      (time_diff : ℕ → ℕ) (i : ℕ) (filepaths : List Bytes) (server server' : Server State)
      → load_files time_diff i filepaths server ≡ ok server'
      → server'.names ≡ server.names ++ json_names filepaths
  unfolding load_files json_names
  load_files-names time_diff i [] server server' h = sym (named h) ∙ sym (append-nil server.names)
  load_files-names time_diff i (filepath ∷ filepaths) server server' h =
      let (kind, e, h1) = >>=-eq-ok (kind_of filepath) _ h in
      let (s1, e1, h2) = >>=-eq-ok (load_file filepath (time_diff i) server kind) _ h1 in
      load_files-names time_diff (suc i) filepaths s1 server' h2
      ∙ (ap (λ ns. ns ++ json_names filepaths)
            (load_file-names filepath (time_diff i) server s1 kind e1
              ∙ ap (λ k. server.names ++ json_name k) (sym e))
          ∙ append_assoc server.names (json_name (kind_of filepath)) (json_names filepaths))
