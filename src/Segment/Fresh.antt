-- ===== src/Segment/Fresh.antt =====
-- Source/WisentSerializer.cpp and Source/SharedMemorySegment.cpp: a name that is new to the process,
-- and whose object is empty.
use wisent.Prelude.{
  ℕ, suc, ◌≡◌, refl, Bool, true, false, Option, none, some, ◌∷◌, Bytes, ok, ==_self,
}
use wisent.Segment.Defs.{SharedMemory, Documented, Region, Segment, open_segment, exists, loaded}
use wisent.Segment.Registry.{
  Process, find_name, find_entry, dereference, assign, emplace, create_or_get_memory_segment,
  set_current_shared_memory, shared_memory_malloc, load_existing, select_segment,
}
use wisent.Segment.Mapped.{Mapped, malloc-Mapped}
use wisent.Segment.Current.{malloc-object}

-- The segment of an object that is opened under a name.
abbrev pub opened_segment : Bytes → (object : ℕ) → Segment
opened_segment name object = record { object = object; object_name = name; region = none }

-- `opened_os` is the system's state with the object open.
module _ {Os : Type 0} (memory : SharedMemory Os) (name : Bytes) (p : Process Os) (opened_os : Os)
    (object : ℕ) where
  -- The process with an entry for the name, which is the current segment.
  abbrev pub opened : Process Os
  opened = record p {
    os = opened_os;
    segments =
        (record {
          identity = p.next_identity;
          entry_name = name;
          segment = opened_segment name object;
        })
        ∷ p.segments;
    next_identity = suc p.next_identity;
    current = some p.next_identity;
  }

  module _ (absent : find_name name p.segments ≡ none)
      (opens : memory.open_or_create name p.os ≡ ok (opened_os, object))
      (empty : exists memory opened_os (opened_segment name object) ≡ false) where
    pub got :
        create_or_get_memory_segment memory name p
        ≡ ok (record opened { current = p.current }, p.next_identity)
    unfolding create_or_get_memory_segment emplace open_segment
    got = rw absent (rw opens refl)

    pub dereferenced :
        (current : Option ℕ)
        → dereference memory p.next_identity (record opened { current = current })
          ≡ ok (opened_segment name object)
    unfolding dereference find_entry
    dereferenced current = rw (==_self p.next_identity) refl

    pub not_loaded : loaded memory opened_os (opened_segment name object) ≡ false
    unfolding loaded
    not_loaded = rw empty refl

    not_loaded_first :
        (force_reload : Bool)
        → load_existing memory force_reload p.next_identity (record opened { current = p.current })
          ≡ ok (record opened { current = p.current })
    unfolding load_existing
    not_loaded_first true = rw (dereferenced p.current) refl
    not_loaded_first false = rw (dereferenced p.current, empty) refl

    -- A name that the process has no segment for, and whose object is empty: `load` opens a segment
    -- under the name and makes it the current one, whether or not it is to reload.
    pub select_segment-fresh :
        (force_reload : Bool) → select_segment memory name force_reload p ≡ ok (opened, none)
    unfolding select_segment set_current_shared_memory
    select_segment-fresh force_reload =
        rw (got, not_loaded_first force_reload, dereferenced p.current, not_loaded) refl

    -- The allocation in that segment.
    pub malloc-fresh :
        (doc : Documented memory) (n : ℕ) (os : Os) (region : Region)
        → memory.truncate object n opened_os ≡ ok os
        → memory.map_region object os ≡ ok region
        → (s' : Segment) × (shared_memory_malloc memory n opened
            ≡ ok (assign memory p.next_identity os s' opened, region.address))
          × Mapped memory os s' region.address n
          × (s'.object ≡ object)
    unfolding shared_memory_malloc
    malloc-fresh doc n os region t e =
        let (s', allocates, mapped) =
          malloc-Mapped memory doc n opened_os os (opened_segment name object) region not_loaded t
            e in
        (
          s',
          rw (dereferenced (some p.next_identity), allocates) refl,
          mapped,
          malloc-object memory n opened_os (opened_segment name object) (os, s', region.address)
              allocates,
        )
