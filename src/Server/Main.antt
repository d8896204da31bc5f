-- ===== src/Server/Main.antt =====
-- Source/WisentServer.cpp: `main`.
use wisent.Prelude.{
  Fault, Bool, ℕ, ◌≡◌, ◌∙◌, ap, List, [], Bytes, Result, ok, ◌>>=◌, >>=-eq-ok, bind_congr,
}
use wisent.Csv.{Environment}
use wisent.Server.Options.{Settings, initial_settings, parse_arguments}
use wisent.Server.Serializers.{Serializers, Server, uncaught}
use wisent.Server.Files.{json_names, load_files, load_files-names}
use wisent.Server.Requests.{Request, listen, listen-names}
use wisent.Server.Exit.{free_all}

module _ {State : Type 0} (serializers : Serializers State) (env : Environment) (time_diff : ℕ → ℕ)
    (catches : Fault → Bool) where
  -- The server as it starts, over the state of the serializers.
  abbrev pub started : State → Server State
  started s = record { state = s; names = []; timings = [] }

  -- `wisent::serializer::free` in the loop at the end.
  abbrev pub freeing : Bytes → State → Result State
  freeing name s = uncaught (serializers.free name s)

  -- From the files of the command line to the requests.
  unfoldable pub serve : Settings → List Request → State → Result (Server State)
  serve settings requests s = do
    server ← load_files serializers env settings time_diff 0 settings.filepaths (started s)
    listen serializers settings catches requests server

  -- `main`, behind `argv[0]`.
  unfoldable pub run : (args : List Bytes) → List Request → State → Result State
  unfolding serve
  run args requests s = do
    settings ← parse_arguments initial_settings args
    server ← serve settings requests s
    free_all freeing server.names server.state

  serve-names :
      (settings : Settings) (requests : List Request) (s : State) (server : Server State)
      → serve settings requests s ≡ ok server
      → server.names ≡ json_names settings.filepaths
  unfolding serve
  serve-names settings requests s server h =
      let (server1, e, h1) =
        >>=-eq-ok (load_files serializers env settings time_diff 0 settings.filepaths (started s))
          (listen serializers settings catches requests) h in
      listen-names serializers settings catches requests server1 server h1
      ∙ load_files-names serializers env settings time_diff 0 settings.filepaths (started s) server1
          e

  -- Whatever is requested, and whichever handlers throw: where the requests come to an end, the data
  -- sets that the server then deletes are those of the JSON files of the command line, in their order.
  -- A handler that stops with what is not caught ends the run before that.
  pub run-json_names :
      (args : List Bytes) (requests : List Request) (s : State)
      → run args requests s ≡ (
          parse_arguments initial_settings args >>= λ settings.
          serve settings requests s >>= λ server.
          free_all freeing (json_names settings.filepaths) server.state)
  unfolding run
  run-json_names args requests s =
      bind_congr (parse_arguments initial_settings args) _ _ (λ settings e.
        bind_congr (serve settings requests s) _ _ (λ server e'.
          ap (λ names. free_all freeing names server.state)
            (serve-names settings requests s server e')))
