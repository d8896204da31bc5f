-- ===== src/Server/Serializers.antt =====
-- Source/WisentServer.cpp: what the server asks of the serializers, over a state of theirs.
use wisent.Prelude.{Bool, Option, none, some, List, Bytes, Result, Fault, ok, err}
use wisent.Server.Timings.{Timings}

-- The arguments that the three ways to load have in common.
pub record LoadCall : Type 0 where
  pub path : Bytes
  pub shared_memory_name : Bytes
  pub csv_prefix : Bytes
  pub disable_csv_handling : Bool
  pub force_reload : Bool

-- The state that a call leaves, and what it stops with if it does not return.
abbrev pub Outcome : Type 0 → Type 0
Outcome State = State × Option Fault

-- Where nothing catches an exception.
abbrev pub uncaught : {State : Type 0} → Outcome State → Result State
uncaught (s, none) = ok s
uncaught (s, some fault) = err fault

-- `bson::serializer::loadAsBson` and `loadAsJson`, and `wisent::serializer::load`, `unload` and `free`.
pub record Serializers (State : Type 0) : Type 0 where
  pub load_as_bson : LoadCall → State → Outcome State
  pub load_as_json : LoadCall → State → Outcome State
  pub load : (disable_rle : Bool) → LoadCall → State → Outcome State
  pub unload : Bytes → State → Outcome State
  pub free : Bytes → State → Outcome State

-- The state of the server.
pub record Server (State : Type 0) : Type 0 where
  pub state : State
  pub names : List Bytes
  pub timings : Timings
