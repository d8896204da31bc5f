-- ===== src/Tests/Segments.antt =====
-- A system with one shared memory object, and the theorems on segments applied to it.
use wisent.Prelude.{
  ◌>>=◌, some_inj, ℕ, zero, suc, ◌≡◌, ◌<◌, refl, true, none, some, [], ◌∷◌, codes, arith, Result,
  ok, err, runtime_error, out_of_bounds, bytes_eq,
}
use wisent.Segment.{
  Region, SharedMemory, Documented, Segment, Entry, Process, loaded, malloc, realloc, base_address,
  create_or_get_memory_segment, remap, load, unload, has_bytes, exists, is_mapped, find_name,
  find_entry, select_segment, shared_memory_malloc,
}
use wisent.Segment.Mapped.{
  malloc_call, realloc_call, unload_call, load_call, Mapped, IsCovered, call, calls, malloc-Mapped,
  realloc-Mapped, calls-IsCovered,
}
use wisent.Segment.Lookup.{select_segment-dangling, create_or_get_memory_segment-again}

-- The state is the size of the object.
unfoldable pub map_object : ℕ → ℕ → Result Region
map_object object zero = err runtime_error
map_object object (suc n) = ok (record { address = 4096; region_size = suc n })

abbrev pub one_object : SharedMemory ℕ
one_object = record {
  open_or_create = λ name os. ok (os, 0);
  truncate = λ object size os. ok size;
  get_size = λ object os. some os;
  remove = λ name os. os;
  map_region = map_object;
}

whole :
    (object os : ℕ) (region : Region)
    → map_object object os ≡ ok region
    → some os ≡ some region.region_size
unfolding map_object
whole object zero region h = cc
whole object (suc n) region h = cc

not_empty :
    (object os : ℕ) (region : Region) → map_object object os ≡ ok region → 0 < region.region_size
unfolding map_object
not_empty object zero region h = cc
not_empty object (suc n) region h = omega (arith, some_inj (whole object (suc n) region h))

pub one_object-Documented : Documented one_object
one_object-Documented = record {
  truncated = λ object size os os' h. cc;
  whole = whole;
  not_empty = not_empty;
  removed = λ object name os. refl;
}

abbrev pub region : ℕ → Region
region n = record { address = 4096; region_size = n }

abbrev unmapped : Segment
unmapped = record { object = 0; object_name = codes "wisent"; region = none }

abbrev mapped_segment : Segment
mapped_segment = record { object = 0; object_name = codes "wisent"; region = some (region 64) }

malloc-Mapped_example :
    (s' : Segment) × (malloc one_object 64 0 unmapped ≡ ok (64, s', 4096))
    × Mapped one_object 64 s' 4096 64
unfolding loaded exists has_bytes map_object
malloc-Mapped_example =
    malloc-Mapped one_object one_object-Documented 64 0 64 unmapped (region 64) refl refl refl

realloc-Mapped_example :
    (s' : Segment) × (realloc one_object 4096 80 64 mapped_segment ≡ ok (80, s', 4096))
    × Mapped one_object 80 s' 4096 80
unfolding base_address loaded exists has_bytes is_mapped map_object
realloc-Mapped_example =
    realloc-Mapped one_object one_object-Documented 4096 80 64 80 mapped_segment (region 80) refl
      refl refl

nothing_mapped : IsCovered one_object 0 unmapped
nothing_mapped region e = cc

calls-IsCovered_example :
    IsCovered one_object 80 (record mapped_segment { region = some (region 80) })
unfolding calls call malloc realloc base_address loaded exists has_bytes is_mapped map_object remap
    load unload
calls-IsCovered_example =
    calls-IsCovered one_object one_object-Documented
      (malloc_call 64 ∷ realloc_call 4096 80 ∷ unload_call ∷ load_call ∷ []) (0, unmapped)
      (80, record mapped_segment { region = some (region 80) }) nothing_mapped refl

abbrev pub entry : Entry
entry = record { identity = 3; entry_name = codes "wisent"; segment = mapped_segment }

abbrev pub process : Process ℕ
process = record { os = 64; segments = entry ∷ []; next_identity = 4; current = none }

select_segment-dangling_example :
    (p' : Process ℕ) × (select_segment one_object (codes "wisent") true process ≡ ok (p', none))
    × (shared_memory_malloc one_object 64 p' ≡ err out_of_bounds)
unfolding find_name find_entry loaded exists has_bytes is_mapped bytes_eq
select_segment-dangling_example =
    select_segment-dangling one_object (codes "wisent") process entry 64 refl refl (λ e. refl, tt)
      refl

create_or_get_memory_segment-again_example :
    (create_or_get_memory_segment one_object (codes "other") process >>= λ (p', identity).
    create_or_get_memory_segment one_object (codes "other") p')
    ≡ create_or_get_memory_segment one_object (codes "other") process
create_or_get_memory_segment-again_example =
    create_or_get_memory_segment-again one_object (codes "other") process
