-- ===== src/Bson/Serializer/Outcomes.antt =====
-- Source/BsonSerializer.cpp: the outcomes of `loadAsBson`.
use wisent.Prelude.{
  bind_congr, ℕ, ◌-◌, ◌*◌, ◌/◌, ◌%◌, ◌<◌, ◌≡◌, ◌≢◌, refl, ◌∙◌, sym, ap, Bool, true, false, Option,
  none, some, Bytes, Result, Fault, ok, err, out_of_bounds, bad_array_new_length, guard-then, ◌>>=◌,
  >>=-eq-ok, length, leb, if◌then◌else◌, arith,
}
use wisent.Csv.{Environment}
use wisent.Helpers.{size_mod}
use wisent.Segment.{
  SharedMemory, Segment, Entry, Process, create_or_get_memory_segment, find_name, find_entry,
  loaded, exists, base_address, select_segment, load_existing, free_name, dereference,
  shared_memory_malloc, set_current_shared_memory,
}
use wisent.Segment.Lookup.{Named, got, dereferenced, dangles}
use wisent.Segment.Fresh.{
  opened, opened_segment, got as fresh_got, dereferenced as fresh_dereferenced,
  not_loaded as fresh_not_loaded,
}
use wisent.Bson.Document.{load}
use wisent.Bson.Allocator.{Allocator, new_allocator, obtain, grow, allocate}
use wisent.Bson.Serializer.{
  Library, Options, Loaded, free_data, select, store, load_selected, load_as_bson,
}

err≢ok : {A : Type 0} {a : A} {fault : Fault} → err fault ≢ ok a
err≢ok h = cc

module _ {Os : Type 0} (memory : SharedMemory Os) where
  -- A forced reload selects the segment as `wisent::serializer::load` does.
  select-select_segment :
      (name : Bytes) (p : Process Os)
      → select memory name true p ≡ select_segment memory name true p
  unfolding select select_segment load_existing free_data free_name
  select-select_segment name p =
      bind_congr (create_or_get_memory_segment memory name p) _ _
        (λ at e. read at (dereference memory at.1 at.0) refl)
    where
      chosen : Process Os × ℕ → Process Os → Segment → Result (Process Os × Option ℕ)
      chosen at q s =
          if loaded memory q.os s
          then (do
            p3 ← free_name memory name q
            ok (set_current_shared_memory memory at.1 p3, none))
          else ok (set_current_shared_memory memory at.1 q, none)

      read :
          (at : Process Os × ℕ) (m : Result Segment)
          → dereference memory at.1 at.0 ≡ m
          → (m >>= chosen at at.0)
            ≡ ((m >>= λ s. ok at.0) >>= λ q. dereference memory at.1 q >>= chosen at q)
      read at (ok s) h = ap (λ m. m >>= chosen at at.0) (sym h)
      read at (err e) h = refl

  -- The first allocation takes new memory.
  pub allocate-new :
      (n : ℕ) (p : Process Os)
      → n < size_mod
      → allocate memory 1 n new_allocator p ≡ grow memory n new_allocator p
  unfolding allocate
  allocate-new n p small =
      let bound : leb n ((size_mod - 1) / 1) ≡ true = ground (arith, small) in
      let same : n * 1 % size_mod ≡ n = omega (arith, small) in rw (bound, same) refl

  no_memory :
      (n : ℕ) (p : Process Os) (after : Allocator × Process Os × ℕ)
      → ((size : ℕ) → shared_memory_malloc memory size p ≡ err out_of_bounds)
      → allocate memory 1 n new_allocator p ≢ ok after
  unfolding allocate grow obtain
  no_memory n p after faults h =
      let (bound, h1) = guard-then (leb n ((size_mod - 1) / 1)) bad_array_new_length _ h in
      let (at, e, h2) = >>=-eq-ok (shared_memory_malloc memory (n * 1 % size_mod) p) _ h1 in
      err≢ok (sym (faults (n * 1 % size_mod)) ∙ e)

  module _ (library : Library) (env : Environment) (options : Options) where
    never_stored :
        (path : Bytes) (p : Process Os) (r : Loaded Os)
        → ((size : ℕ) → shared_memory_malloc memory size p ≡ err out_of_bounds)
        → load_selected memory library env options (store memory library env options) path p none
          ≢ ok r
    unfolding load_selected store
    never_stored path p r faults h =
        let (j, e1, h1) =
          >>=-eq-ok
            (load library.objects env options.csv_prefix options.disable_csv_handling
              library.open_file path)
            _ h in
        let (bytes, e2, h2) = >>=-eq-ok (library.to_bson j) _ h1 in
        let (after, e3, h3) = >>=-eq-ok (allocate memory 1 (length bytes) new_allocator p) _ h2 in
        no_memory (length bytes) p after faults e3

    -- A forced reload of data that is loaded never returns, whatever the file holds: its entry is erased,
    -- and the vector's allocation is an access through a dangling reference.
    pub load_as_bson-forced_never_returns :
        (path name : Bytes) (p : Process Os) (e : Entry) (r : Loaded Os)
        → options.force_reload ≡ true
        → find_name name p.segments ≡ some e
        → find_entry e.identity p.segments ≡ some e
        → Named e.identity name p.segments
        → loaded memory p.os e.segment ≡ true
        → load_as_bson memory library env options path name p ≢ ok r
    unfolding load_as_bson
    load_as_bson-forced_never_returns path name p e r forced named found own is_loaded h =
        let (p', selects, faults) = dangles memory name p e named found own is_loaded in
        never_stored path p' r faults
          (sym (selected p' (select-select_segment name p ∙ selects)) ∙ h)
      where
        selected :
            (p' : Process Os)
            → select memory name true p ≡ ok (p', none)
            → load_as_bson memory library env options path name p
              ≡ load_selected memory library env options
                  (store memory library env options)
                  path
                  p'
                  none
        selected p' selects = rw (forced, selects) refl

    pub select-fresh :
        (name : Bytes) (p : Process Os) (opened_os : Os) (object : ℕ) (force_reload : Bool)
        → find_name name p.segments ≡ none
        → memory.open_or_create name p.os ≡ ok (opened_os, object)
        → exists memory opened_os (opened_segment name object) ≡ false
        → select memory name force_reload p ≡ ok (opened memory name p opened_os object, none)
    unfolding select set_current_shared_memory
    select-fresh name p opened_os object force_reload absent opens empty =
        rw
          (
            fresh_got memory name p opened_os object absent opens empty,
            fresh_dereferenced memory name p opened_os object absent opens empty p.current,
            fresh_not_loaded memory name p opened_os object absent opens empty,
          )
          refl

    pub select-loaded :
        (name : Bytes) (p : Process Os) (e : Entry) (address : ℕ)
        → find_name name p.segments ≡ some e
        → find_entry e.identity p.segments ≡ some e
        → loaded memory p.os e.segment ≡ true
        → base_address memory p.os e.segment ≡ ok address
        → select memory name false p ≡ ok (p, some address)
    unfolding select
    select-loaded name p e address named found is_loaded at =
        rw (got memory name p e named, dereferenced memory name p e found, is_loaded, at) refl
