-- ===== src/Bson/Serializer/Caching.antt =====
-- Source/BsonSerializer.cpp: `loadAsBson` of a new name, and once more.
use wisent.Prelude.{
  ℕ, ◌<◌, ◌≡◌, ◌≢◌, refl, false, none, some, Bytes, ok, length, ◌==◌, ==_self, bytes_eq_self, arith,
}
use wisent.Json.{Json}
use wisent.Csv.{Environment}
use wisent.Helpers.{size_mod}
use wisent.Segment.{
  SharedMemory, Documented, Region, Segment, Entry, Process, find_name, find_entry, set_segment,
  exists, assign, shared_memory_malloc,
}
use wisent.Segment.Mapped.{Mapped}
use wisent.Segment.Fresh.{opened, opened_segment, malloc-fresh}
use wisent.Bson.Document.{load}
use wisent.Bson.Allocator.{new_allocator, obtain, grow}
use wisent.Bson.Serializer.{Library, Options, present, stored, store, load_selected, load_as_bson}
use wisent.Bson.Serializer.Outcomes.{allocate-new, select-fresh, select-loaded}

module _ {Os : Type 0} (memory : SharedMemory Os) (library : Library) (env : Environment)
    (options : Options) where
  -- The process once the segment of a new name has its memory.
  abbrev mapped_process :
      Bytes → Process Os → (opened_os : Os) (object : ℕ) → Os → Segment → Process Os
  mapped_process name p opened_os object os s =
      assign memory p.next_identity os s (opened memory name p opened_os object)

  abbrev mapped_entry : Bytes → Process Os → Segment → Entry
  mapped_entry name p s = record { identity = p.next_identity; entry_name = name; segment = s }

  named :
      (name : Bytes) (p : Process Os) (opened_os : Os) (object : ℕ) (os : Os) (s : Segment)
      → find_name name (mapped_process name p opened_os object os s).segments
        ≡ some (mapped_entry name p s)
  unfolding assign find_name set_segment
  named name p opened_os object os s = rw (==_self p.next_identity) (rw (bytes_eq_self name) refl)

  found :
      (name : Bytes) (p : Process Os) (opened_os : Os) (object : ℕ) (os : Os) (s : Segment)
      → find_entry p.next_identity (mapped_process name p opened_os object os s).segments
        ≡ some (mapped_entry name p s)
  unfolding assign find_entry set_segment
  found name p opened_os object os s =
      rw (==_self p.next_identity) (rw (==_self p.next_identity) refl)

  grown :
      (n address : ℕ) (p p' : Process Os)
      → shared_memory_malloc memory n p ≡ ok (p', address)
      → address ≢ 0
      → grow memory n new_allocator p
        ≡ ok (record { pointer = address; allocated = n }, p', address)
  unfolding grow obtain
  grown n address p p' h some_address =
      let given : (address == 0) ≡ false = ground (arith, some_address) in rw h (rw given refl)

  stores :
      (path : Bytes) (j : Json) (bytes : Bytes) (address : ℕ) (p p' : Process Os)
      → load library.objects env options.csv_prefix options.disable_csv_handling library.open_file
          path
        ≡ ok j
      → library.to_bson j ≡ ok bytes
      → length bytes < size_mod
      → shared_memory_malloc memory (length bytes) p ≡ ok (p', address)
      → address ≢ 0
      → load_selected memory library env options (store memory library env options) path p none
        ≡ ok (stored p' address bytes)
  unfolding load_selected store
  stores path j bytes address p p' reads prints small h some_address =
      rw
        (
          reads,
          prints,
          allocate-new memory (length bytes) p small,
          grown (length bytes) address p p' h some_address,
        )
        refl

  -- Without a forced reload, a name that is new to the process and whose object can be opened and is
  -- empty, a file that is read and printed as BSON (in less than 2^64 bytes), and a system that can
  -- truncate the object and map it, not at the null pointer: `loadAsBson` stores the bytes where the
  -- object is mapped, in as many bytes as they are; a second call under the name, for whatever file and
  -- not forced either, returns the same address and changes nothing.
  pub load_as_bson-stored_then_present :
      (doc : Documented memory) (path other_path name : Bytes) (p : Process Os) (j : Json)
      (bytes : Bytes) (opened_os os : Os) (object : ℕ) (region : Region)
      → options.force_reload ≡ false
      → find_name name p.segments ≡ none
      → memory.open_or_create name p.os ≡ ok (opened_os, object)
      → exists memory opened_os (opened_segment name object) ≡ false
      → load library.objects env options.csv_prefix options.disable_csv_handling library.open_file
          path
        ≡ ok j
      → library.to_bson j ≡ ok bytes
      → length bytes < size_mod
      → memory.truncate object (length bytes) opened_os ≡ ok os
      → memory.map_region object os ≡ ok region
      → region.address ≢ 0
      → (p' : Process Os) × (s : Segment) × (load_as_bson memory library env options path name p
          ≡ ok (stored p' region.address bytes))
        × Mapped memory p'.os s region.address (length bytes)
        × (load_as_bson memory library env options other_path name p'
            ≡ ok (present p' region.address))
  unfolding load_as_bson load_selected assign
  load_as_bson-stored_then_present doc path other_path name p j bytes opened_os os object region
        kept absent opens empty reads prints small truncates maps some_address =
      let (s, allocates, mapped, same_object) =
        malloc-fresh memory name p opened_os object absent opens empty doc (length bytes) os region
          truncates maps in
      let p' = mapped_process name p opened_os object os s in
      (
        p',
        s,
        rw
            (select-fresh memory library env options name p opened_os object options.force_reload
              absent opens empty)
            (stores path j bytes region.address (opened memory name p opened_os object) p' reads
              prints small allocates some_address),
        mapped,
        rw
            (
              kept,
              select-loaded memory library env options name p' (mapped_entry name p s)
                  region.address (named name p opened_os object os s)
                  (found name p opened_os object os s) mapped.is_loaded mapped.at_address,
            )
            refl,
      )
