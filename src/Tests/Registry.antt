-- ===== src/Tests/Registry.antt =====
-- The operations on the map of the segments, one after another, in a system with one object.
use wisent.Prelude.{ok, ℕ, ◌≡◌, refl, none, some, [], ◌∷◌, Bytes, codes, bytes_eq}
use wisent.Segment.{
  Process, Entry, create_or_get_memory_segment, emplace, find_name, find_entry, erase_name,
  set_segment, dereference, assign, open_segment, set_current_shared_memory, shared_memory_malloc,
  free_name, erase, unload, malloc, remap, load, base_address, loaded, exists, has_bytes, is_mapped,
}
use wisent.Segment.Reachable.{Reach, here, later, requests, sets_current, allocates, frees}
use wisent.Segment.WellFormed.Freed.{Freed}
use wisent.Segment.Reachable.Kept.{reach-free_name, reach-same_reference}
use wisent.Tests.Segments.{one_object, region, map_object}

abbrev IsOther : Bytes → Type 0
IsOther name = name ≡ codes "other"

abbrev nothing : Process ℕ
nothing = record { os = 0; segments = []; next_identity = 0; current = none }

abbrev empty_segment : Entry
empty_segment = record {
  identity = 0;
  entry_name = codes "wisent";
  segment = record { object = 0; object_name = codes "wisent"; region = none };
}

abbrev requested : Process ℕ
requested = record { os = 0; segments = empty_segment ∷ []; next_identity = 1; current = none }

abbrev current : Process ℕ
current = record requested { current = some 0 }

abbrev full_segment : Entry
full_segment = record empty_segment {
  segment = record { object = 0; object_name = codes "wisent"; region = some (region 64) };
}

abbrev allocated : Process ℕ
allocated = record current { os = 64; segments = full_segment ∷ [] }

abbrev freed : Process ℕ
freed = record allocated { next_identity = 2 }

-- Space is allocated in a new segment, and another name is freed, which requests a segment for it.
allocated_and_freed :
    {p : Process ℕ} → Reach one_object IsOther p requested → Reach one_object IsOther p freed
unfolding find_name find_entry set_segment erase_name set_current_shared_memory shared_memory_malloc
    free_name create_or_get_memory_segment emplace dereference assign open_segment erase unload
    malloc remap load base_address loaded exists has_bytes is_mapped map_object bytes_eq
allocated_and_freed r =
    later (later (later r (sets_current 0 requested)) (allocates 64 current (allocated, 4096) refl))
      (frees (codes "other") allocated freed refl refl)

from_nothing : Reach one_object IsOther nothing requested
unfolding create_or_get_memory_segment emplace find_name open_segment
from_nothing = later here (requests (codes "wisent") nothing (requested, 0) refl)

reach-free_name_example :
    (p' : Process ℕ) × (free_name one_object (codes "wisent") freed ≡ ok p')
    × Freed one_object (codes "wisent") freed p'
unfolding find_name bytes_eq
reach-free_name_example =
    reach-free_name one_object IsOther (codes "wisent") refl (allocated_and_freed from_nothing)
      (λ absent. ((64, 0), refl))

reach-same_reference_example :
    (e' : Entry) × (find_name (codes "wisent") (full_segment ∷ []) ≡ some e') × (e'.identity ≡ 0)
unfolding bytes_eq find_name
reach-same_reference_example =
    reach-same_reference one_object IsOther {p = requested} (codes "wisent") empty_segment
      (allocated_and_freed here) (λ name same. rw same refl) refl
