-- ===== src/Tests/MapObjects.antt =====
-- Objects that are sorted lists of members.
use wisent.Prelude.{
  ◌≡◌, refl, sym, true, false, some, Bytes, inl, inr, Bool-cases, bytes_eq, bytes_lt, bytes_eq_self,
  eq_of_bytes_eq, bytes_lt_total, if◌then◌else◌,
}
use wisent.Json.{Json, Fields, end, field}
use wisent.Bson.Objects.{Objects, Documented, field_of, Below, Sorted}

unfoldable pub set_field : Bytes → Json → Fields → Fields
set_field k v end = field k v end
set_field k v (field k' v' fs) =
    let rest = set_field k v fs in
    if bytes_eq k k'
    then field k v fs
    else if bytes_lt k k'
    then field k v (field k' v' fs)
    else field k' v' rest

field_of-set_self : (k : Bytes) (v : Json) (fs : Fields) → field_of k (set_field k v fs) ≡ some v
unfolding set_field field_of
field_of-set_self k v end = rw (bytes_eq_self k) refl
field_of-set_self k v (field k' v' fs) = elim (Bool-cases (bytes_eq k k')) [
  | inl same ↦ rw (same, bytes_eq_self k) refl
  | inr other ↦ elim (Bool-cases (bytes_lt k k')) [
    | inl before ↦ rw (other, before, bytes_eq_self k) refl
    | inr behind ↦ rw (other, behind) (rw other (field_of-set_self k v fs))
  ]
]

field_of-set_ne :
    (k j : Bytes) (v : Json) (fs : Fields)
    → bytes_eq j k ≡ false
    → field_of j (set_field k v fs) ≡ field_of j fs
unfolding set_field field_of
field_of-set_ne k j v end h = rw h refl
field_of-set_ne k j v (field k' v' fs) h = elim (Bool-cases (bytes_eq k k')) [
  | inl same ↦ let e = eq_of_bytes_eq k k' same in rw (same, h) (rw (sym e) (rw h refl))
  | inr other ↦ elim (Bool-cases (bytes_lt k k')) [
    | inl before ↦ rw (other, before, h) refl
    | inr behind ↦ rw (other, behind, field_of-set_ne k j v fs h) refl
  ]
]

Below-set :
    (low k : Bytes) (v : Json) (fs : Fields)
    → bytes_lt low k ≡ true
    → Below low fs
    → Below low (set_field k v fs)
unfolding set_field
Below-set low k v end h b = h
Below-set low k v (field k' v' fs) h b = elim (Bool-cases (bytes_eq k k')) [
  | inl same ↦ rw same h
  | inr other ↦ elim (Bool-cases (bytes_lt k k')) [
    | inl before ↦ rw (other, before) h
    | inr behind ↦ rw (other, behind) b
  ]
]

set_field-Sorted : (k : Bytes) (v : Json) (fs : Fields) → Sorted fs → Sorted (set_field k v fs)
unfolding set_field
set_field-Sorted k v end s = (tt, tt)
set_field-Sorted k v (field k' v' fs) (b, s) = elim (Bool-cases (bytes_eq k k')) [
  | inl same ↦ let e = eq_of_bytes_eq k k' same in rw same (rw e (b, s))
  | inr other ↦ elim (Bool-cases (bytes_lt k k')) [
    | inl before ↦ rw (other, before) (before, (b, s))
    | inr behind ↦
        rw (other, behind)
          (Below-set k' k v fs (bytes_lt_total k k' other behind) b, set_field-Sorted k v fs s)
  ]
]

abbrev pub map_objects : Objects
map_objects = record { set_field = set_field }

pub map_objects-Documented : Documented map_objects
map_objects-Documented = record {
  set_self = field_of-set_self;
  set_other = field_of-set_ne;
  sorted = set_field-Sorted;
}
