-- ===== src/Server/Requests.antt =====
-- Source/WisentServer.cpp: the handlers of the requests.
use wisent.Prelude.{
  ok_inj, refl, Fault, err, Bool-cases, inl, inr, ℕ, Bool, true, false, not, ◌||◌, Option, none,
  some, List, [], ◌∷◌, ◌++◌, Bytes, Result, ok, ◌>>=◌, if◌then◌else◌, ◌≡◌, ◌∙◌, sym, ap,
}
use wisent.Server.Options.{Settings, is_true}
use wisent.Server.Paths.{csv_prefix_of}
use wisent.Server.Timings.{record_time}
use wisent.Server.Serializers.{LoadCall, Outcome, Serializers, Server}

-- The parameters of `/load`; one that is missing is none.
pub record LoadRequest : Type 0 where
  pub name : Bytes
  pub filepath : Bytes
  pub load_csv : Option Bytes
  pub to_bson : Option Bytes
  pub to_json : Option Bytes

-- A request; `time_diff` is how long the loading took.
pub data Request : Type 0 where
  load_request : LoadRequest → (time_diff : ℕ) → Request
  unload_request : (name : Bytes) → Request
  erase_request : (name : Bytes) → Request
  stop_request : Request

-- `if(req.has_param(…)) { … }`.
unfoldable pub parameter : (default : Bool) → Option Bytes → Result Bool
parameter default none = ok default
parameter default (some str) = is_true str

unfoldable pub load_call : Settings → LoadRequest → (load_csv : Bool) → LoadCall
load_call settings r load_csv = record {
  path = r.filepath;
  shared_memory_name = r.name;
  csv_prefix = csv_prefix_of r.filepath;
  disable_csv_handling = settings.disable_csv_handling || not load_csv;
  force_reload = false;
}

module _ {State : Type 0} (serializers : Serializers State) (settings : Settings) where
  -- The choice of a serializer.
  unfoldable pub load_with : (to_bson to_json : Bool) → LoadCall → State → Outcome State
  load_with to_bson to_json call s =
      if to_bson
      then serializers.load_as_bson call s
      else if to_json
      then serializers.load_as_json call s
      else serializers.load settings.disable_rle call s

  -- The rest of a handler that has called a serializer: nothing, if that has thrown.
  unfoldable pub after_call :
      (Server State → Server State) → Server State → Outcome State → Outcome (Server State)
  after_call rest server (s, none) = (rest (record server { state = s }), none)
  after_call rest server (s, some fault) = (record server { state = s }, some fault)

  unfoldable pub load_choice : LoadRequest → Result (Bool × Bool × Bool)
  unfolding parameter
  load_choice r = do
    load_csv ← parameter true r.load_csv
    to_bson ← parameter false r.to_bson
    to_json ← parameter false r.to_json
    ok (load_csv, to_bson, to_json)

  unfoldable pub recorded : LoadRequest → (time_diff : ℕ) → Server State → Server State
  recorded r time_diff server = record server {
    timings = record_time (r.name ++ r.filepath) time_diff server.timings;
  }

  unfoldable pub load_chosen :
      LoadRequest
      → (time_diff : ℕ) → Server State
      → Result (Bool × Bool × Bool)
      → Outcome (Server State)
  unfolding load_call load_with after_call recorded
  load_chosen r time_diff server (ok (load_csv, to_bson, to_json)) =
      after_call (recorded r time_diff) server
        (load_with to_bson to_json (load_call settings r load_csv) server.state)
  load_chosen r time_diff server (err fault) = (server, some fault)

  unfoldable pub handle_load : LoadRequest → (time_diff : ℕ) → Server State → Outcome (Server State)
  unfolding load_choice load_chosen
  handle_load r time_diff server = load_chosen r time_diff server (load_choice r)

  unfoldable pub handle_unload : Bytes → Server State → Outcome (Server State)
  unfolding after_call
  handle_unload name server = after_call (λ s. s) server (serializers.unload name server.state)

  unfoldable pub handle_erase : Bytes → Server State → Outcome (Server State)
  unfolding after_call
  handle_erase name server = after_call (λ s. s) server (serializers.free name server.state)

  -- Which of a handler's exceptions httplib catches: it answers 500 then, and goes on (version 0.12.6
  -- catches them all). What it does not catch ends the process, as a failed assertion does.
  module _ (catches : Fault → Bool) where
    unfoldable pub go_on :
        (Server State → Result (Server State)) → Outcome (Server State) → Result (Server State)
    go_on next (server, none) = next server
    go_on next (server, some fault) =
        let rest = next server in if catches fault then rest else err fault

    -- `svr.listen`, which ends with `/stop`.
    unfoldable pub listen : List Request → Server State → Result (Server State)
    unfolding handle_load handle_unload handle_erase go_on
    listen [] server = ok server
    listen (load_request r time_diff ∷ requests) server =
        go_on (listen requests) (handle_load r time_diff server)
    listen (unload_request name ∷ requests) server =
        go_on (listen requests) (handle_unload name server)
    listen (erase_request name ∷ requests) server =
        go_on (listen requests) (handle_erase name server)
    listen (stop_request ∷ requests) server = ok server

    after_call-names :
        (rest : Server State → Server State) (server : Server State) (out : Outcome State)
        → ((s : Server State) → (rest s).names ≡ s.names)
        → (after_call rest server out).0.names ≡ server.names
    unfolding after_call
    after_call-names rest server (s, none) keeps = keeps (record server { state = s })
    after_call-names rest server (s, some fault) keeps = refl

    load_chosen-names :
        (r : LoadRequest) (time_diff : ℕ) (server : Server State) (m : Result (Bool × Bool × Bool))
        → (load_chosen r time_diff server m).0.names ≡ server.names
    unfolding load_chosen recorded
    load_chosen-names r time_diff server (ok (load_csv, to_bson, to_json)) =
        after_call-names (recorded r time_diff) server
          (load_with to_bson to_json (load_call settings r load_csv) server.state) (λ s. refl)
    load_chosen-names r time_diff server (err fault) = refl

    go_on-names :
        (next : Server State → Result (Server State)) (server server' : Server State)
        (out : Outcome (Server State))
        → ((s : Server State) → next s ≡ ok server' → server'.names ≡ s.names)
        → out.0.names ≡ server.names
        → go_on next out ≡ ok server'
        → server'.names ≡ server.names
    unfolding go_on
    go_on-names next server server' (s, none) keeps same h = keeps s h ∙ same
    go_on-names next server server' (s, some fault) keeps same h =
        elim (Bool-cases (catches fault)) [
          | inl caught ↦ keeps s (rw caught at h) ∙ same
          | inr fatal ↦ absurd (let h' = rw fatal at h in cc)
        ]

    -- No request changes which data sets the command line has loaded.
    pub listen-names :
        (requests : List Request) (server server' : Server State)
        → listen requests server ≡ ok server'
        → server'.names ≡ server.names
    unfolding listen handle_load handle_unload handle_erase
    listen-names [] server server' h = ap (λ (s : Server State). s.names) (sym (ok_inj h))
    listen-names (load_request r time_diff ∷ requests) server server' h =
        go_on-names (listen requests) server server' (handle_load r time_diff server)
          (λ s e. listen-names requests s server' e)
          (load_chosen-names r time_diff server (load_choice r)) h
    listen-names (unload_request name ∷ requests) server server' h =
        go_on-names (listen requests) server server' (handle_unload name server)
          (λ s e. listen-names requests s server' e)
          (after_call-names (λ s. s) server (serializers.unload name server.state) (λ s. refl)) h
    listen-names (erase_request name ∷ requests) server server' h =
        go_on-names (listen requests) server server' (handle_erase name server)
          (λ s e. listen-names requests s server' e)
          (after_call-names (λ s. s) server (serializers.free name server.state) (λ s. refl)) h
    listen-names (stop_request ∷ requests) server server' h =
        ap (λ (s : Server State). s.names) (sym (ok_inj h))
