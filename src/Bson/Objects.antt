-- ===== src/Bson/Objects.antt =====
-- The objects of nlohmann::json, as Source/BsonSerializer.cpp uses them.
use wisent.Prelude.{◌≡◌, true, false, Option, none, some, Bytes, bytes_eq, bytes_lt, if◌then◌else◌}
use wisent.Json.{Json, Fields, end, field}

-- `object[key] = value`, which is third-party code.
pub record Objects : Type 0 where
  pub set_field : Bytes → Json → Fields → Fields

-- The member with a key.
unfoldable pub field_of : Bytes → Fields → Option Json
field_of k end = none
field_of k (field k' v fs) = let rest = field_of k fs in if bytes_eq k k' then some v else rest

-- The keys ascend.
abbrev pub Below : Bytes → Fields → Type 0
Below k end = Unit {0}
Below k (field k' v fs) = bytes_lt k k' ≡ true

abbrev pub Sorted : Fields → Type 0
Sorted end = Unit {0}
Sorted (field k v fs) = Below k fs × Sorted fs

-- What the documentation says of objects: they are a `std::map`.
pub record Documented (objects : Objects) : Type 0 where
  pub set_self :
      (k : Bytes) (v : Json) (fs : Fields) → field_of k (objects.set_field k v fs) ≡ some v
  pub set_other :
      (k j : Bytes) (v : Json) (fs : Fields)
      → bytes_eq j k ≡ false
      → field_of j (objects.set_field k v fs) ≡ field_of j fs
  pub sorted : (k : Bytes) (v : Json) (fs : Fields) → Sorted fs → Sorted (objects.set_field k v fs)
