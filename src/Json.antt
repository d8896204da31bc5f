-- ===== src/Json.antt =====
-- What nlohmann::json reports about a document to Source/WisentSerializer.cpp: the calls of the SAX
-- interface `json_sax_t`, and the events with their depth that `json::parse` hands its callback.
-- The parser itself is third-party code; the order of its reports is what its documentation says.
use wisent.Prelude.{ℕ, suc, Bool, List, [], ◌∷◌, ◌++◌, Bytes, Option, none, some}
use wisent.Prelude.Int.{ℤ}

-- A document. A float is the bit pattern of its `double`.
mutual
  pub data Json : Type 0 where
    null : Json
    boolean : Bool → Json
    number_integer : ℤ → Json
    number_unsigned : ℕ → Json
    number_float : ℕ → Json
    string : Bytes → Json
    array : Items → Json
    object : Fields → Json

  pub data Items : Type 0 where
    nil : Items
    cons : Json → Items → Items

  pub data Fields : Type 0 where
    end : Fields
    field : Bytes → Json → Fields → Fields

-- A call of the SAX interface.
pub data Event : Type 0 where
  null_event start_object end_object start_array end_array binary_event parse_error : Event
  boolean_event : Bool → Event
  integer_event : ℤ → Event
  unsigned_event : ℕ → Event
  float_event : ℕ → Event
  string_event : Bytes → Event
  key_event : Bytes → Event

-- `json::sax_parse`: containers are bracketed by their start and end, a member's key comes first.
unfoldable mutual
  pub events : Json → List Event
  events null = null_event ∷ []
  events (boolean b) = boolean_event b ∷ []
  events (number_integer z) = integer_event z ∷ []
  events (number_unsigned n) = unsigned_event n ∷ []
  events (number_float f) = float_event f ∷ []
  events (string s) = string_event s ∷ []
  events (array xs) = start_array ∷ (events_items xs ++ end_array ∷ [])
  events (object fs) = start_object ∷ (events_fields fs ++ end_object ∷ [])

  pub events_items : Items → List Event
  events_items nil = []
  events_items (cons x xs) = events x ++ events_items xs

  pub events_fields : Fields → List Event
  events_fields end = []
  events_fields (field k v fs) = key_event k ∷ (events v ++ events_fields fs)

-- `json::parse_event_t`; a value comes with its text, if it is a string.
pub data ParseEvent : Type 0 where
  object_start object_end array_start array_end key : ParseEvent
  value : Option Bytes → ParseEvent

-- `json::parse` with a callback: a container's start and end have the depth of the container, its
-- keys and values the next.
unfoldable mutual
  pub parse_events : ℕ → Json → List (ℕ × ParseEvent)
  parse_events d null = (d, value none) ∷ []
  parse_events d (boolean b) = (d, value none) ∷ []
  parse_events d (number_integer z) = (d, value none) ∷ []
  parse_events d (number_unsigned n) = (d, value none) ∷ []
  parse_events d (number_float f) = (d, value none) ∷ []
  parse_events d (string s) = (d, value (some s)) ∷ []
  parse_events d (array xs) =
      (d, array_start) ∷ (parse_events_items (suc d) xs ++ (d, array_end) ∷ [])
  parse_events d (object fs) =
      (d, object_start) ∷ (parse_events_fields (suc d) fs ++ (d, object_end) ∷ [])

  pub parse_events_items : ℕ → Items → List (ℕ × ParseEvent)
  parse_events_items d nil = []
  parse_events_items d (cons x xs) = parse_events d x ++ parse_events_items d xs

  pub parse_events_fields : ℕ → Fields → List (ℕ × ParseEvent)
  parse_events_fields d end = []
  parse_events_fields d (field k v fs) = (d, key) ∷ (parse_events d v ++ parse_events_fields d fs)
