-- ===== src/Segment/Mapped.antt =====
-- Source/SharedMemorySegment.hpp: what holds of a segment after each of its operations.
use wisent.Prelude.{
  ok_inj, some_inj, guard-then, bind_assoc, ==_self, ℕ, ◌≡◌, refl, ◌∙◌, sym, ap, Bool, true, false,
  not, some, List, [], ◌∷◌, Result, ok, assertion_failed, ◌>>=◌, ◌>>◌, >>=-eq-ok, guard, lt→ltb,
  ◌==◌, ◌<◌, arith,
}
use mathlib.Core.Path.{subst}
use wisent.Segment.Defs.{
  SharedMemory, Documented, Region, Segment, exists, has_bytes, is_mapped, loaded, load, unload,
  base_address, size, remap, malloc, realloc, erase, free,
}

-- A call on a segment by its owner.
pub data Call : Type 0 where
  load_call unload_call erase_call : Call
  malloc_call free_call : ℕ → Call
  realloc_call : (pointer new_size : ℕ) → Call

module _ {Os : Type 0} (memory : SharedMemory Os) where
  -- A region that is mapped covers the object, which is not empty.
  abbrev pub IsCovered : Os → Segment → Type 0
  IsCovered os s =
      (region : Region)
      → s.region ≡ some region
      → (memory.get_size s.object os ≡ some region.region_size) × (0 < region.region_size)

  -- The object has `n` bytes, all of them mapped at `address`.
  pub record Mapped (os : Os) (s : Segment) (address n : ℕ) : Type 0 where
    pub is_loaded : loaded memory os s ≡ true
    pub at_address : base_address memory os s ≡ ok address
    pub with_size : size memory os s ≡ ok n
    pub object_size : memory.get_size s.object os ≡ some n

  unfoldable pub call : Call → Os × Segment → Result (Os × Segment)
  call load_call (os, s) = do s' ← load memory os s; ok (os, s')
  call unload_call (os, s) = ok (os, unload memory s)
  call erase_call (os, s) = ok (erase memory os s)
  call (malloc_call n) (os, s) = do (os', s', address) ← malloc memory n os s; ok (os', s')
  call (free_call pointer) (os, s) = free memory pointer os s
  call (realloc_call pointer n) (os, s) = do
    (os', s', address) ← realloc memory pointer n os s
    ok (os', s')

  unfoldable pub calls : List Call → Os × Segment → Result (Os × Segment)
  calls [] at = ok at
  calls (c ∷ cs) at = do at' ← call c at; calls cs at'

  module _ (doc : Documented memory) where
    unfoldable mapped : Segment → Region → Segment
    mapped s region = record s { region = some region }

    load-mapped :
        (os : Os) (s s' : Segment)
        → load memory os s ≡ ok s'
        → (region : Region) × (memory.map_region s.object os ≡ ok region) × (mapped s region ≡ s')
    unfolding load mapped
    load-mapped os s s' h =
        let (region, e, h') =
          >>=-eq-ok (memory.map_region s.object os) (λ r. ok (record s { region = some r })) h in
        (region, e, ok_inj h')

    mapped-IsCovered :
        (os : Os) (s : Segment) (region : Region)
        → memory.map_region s.object os ≡ ok region
        → IsCovered os (mapped s region)
    unfolding mapped
    mapped-IsCovered os s region h region' e =
        subst (λ r. (memory.get_size s.object os ≡ some r.region_size) × (0 < r.region_size))
          (some_inj e) (doc.whole s.object os region h, doc.not_empty s.object os region h)

    load-IsCovered : (os : Os) (s s' : Segment) → load memory os s ≡ ok s' → IsCovered os s'
    load-IsCovered os s s' h =
        let (region, e, same) = load-mapped os s s' h in
        subst (IsCovered os) same (mapped-IsCovered os s region e)

    mapped-Mapped :
        (n : ℕ) (os : Os) (s : Segment) (region : Region)
        → memory.map_region s.object os ≡ ok region
        → memory.get_size s.object os ≡ some n
        → Mapped os (mapped s region) region.address n
    unfolding mapped loaded exists has_bytes is_mapped base_address size
    mapped-Mapped n os s region h sized =
        let same = some_inj (sym (doc.whole s.object os region h) ∙ sized) in
        let full = lt→ltb 0 n (omega (arith, same, doc.not_empty s.object os region h)) in
        record {
          is_loaded = rw (sized, full) refl;
          at_address = rw (sized, full) refl;
          with_size = rw (sized, full) (ap ok same);
          object_size = sized;
        }

    abbrev pub Remapped : Segment → ℕ → Os × Segment × ℕ → Type 0
    Remapped s n (os', s', address) =
        Mapped os' s' address n × IsCovered os' s' × (s'.object ≡ s.object)

    base_address-mapped :
        (n : ℕ) (os : Os) (s : Segment) (region : Region) (address : ℕ)
        → Mapped os (mapped s region) region.address n
        → base_address memory os (mapped s region) ≡ ok address
        → Mapped os (mapped s region) address n
    base_address-mapped n os s region address m h =
        subst (λ a. Mapped os (mapped s region) a n) (ok_inj (sym m.at_address ∙ h)) m

    pub remap-Mapped :
        (n : ℕ) (os : Os) (s : Segment) (after : Os × Segment × ℕ)
        → remap memory n os s ≡ ok after
        → Remapped s n after
    unfolding remap mapped
    remap-Mapped n os s after h =
        let (os1, t, h1) = >>=-eq-ok (memory.truncate s.object n os) _ h in
        let (s1, l, h2) = >>=-eq-ok (load memory os1 s) _ h1 in
        let (address, b, h3) = >>=-eq-ok (base_address memory os1 s1) (λ a. ok (os1, s1, a)) h2 in
        let (region, e, same) = load-mapped os1 s s1 l in
        subst (Remapped s n) (ok_inj h3) (
          subst
            (λ (s' : Segment).
              (base_address memory os1 s' ≡ ok address) → Remapped s n (os1, s', address))
            same
            (λ b'. (
              base_address-mapped n os1 s region address
                  (mapped-Mapped n os1 s region e (doc.truncated s.object n os os1 t)) b',
              mapped-IsCovered os1 s region e,
              refl,
            ))
            b)

    remap-mapped :
        (n : ℕ) (os os' : Os) (s : Segment) (region : Region)
        → memory.truncate s.object n os ≡ ok os'
        → memory.map_region s.object os' ≡ ok region
        → remap memory n os s ≡ ok (os', mapped s region, region.address)
    unfolding remap load mapped
    remap-mapped n os os' s region t e =
        rw (t, e, (mapped-Mapped n os' s region e (doc.truncated s.object n os os' t)).at_address)
          refl

    base_address-loaded :
        (os : Os) (s : Segment) (address : ℕ)
        → base_address memory os s ≡ ok address
        → loaded memory os s ≡ true
    unfolding base_address
    base_address-loaded os s address at = (guard-then (loaded memory os s) assertion_failed _ at).0

    guarded :
        (b : Bool) (m : Result (Os × Segment × ℕ)) (f : Os × Segment × ℕ → Result (Os × Segment))
        (at : Os × Segment)
        → ((guard b assertion_failed >> m) >>= f) ≡ ok at
        → (m >>= f) ≡ ok at
    guarded true m f at h = h
    guarded false m f at h = cc

    -- In a segment that is not loaded, an allocation for which the system can truncate and map the
    -- object returns where the region begins, and leaves it mapped with the size asked for.
    pub malloc-Mapped :
        (n : ℕ) (os os' : Os) (s : Segment) (region : Region)
        → loaded memory os s ≡ false
        → memory.truncate s.object n os ≡ ok os'
        → memory.map_region s.object os' ≡ ok region
        → (s' : Segment) × (malloc memory n os s ≡ ok (os', s', region.address))
          × Mapped os' s' region.address n
    unfolding malloc
    malloc-Mapped n os os' s region unloaded t e = (
      mapped s region,
      rw unloaded (remap-mapped n os os' s region t e),
      mapped-Mapped n os' s region e (doc.truncated s.object n os os' t),
    )

    -- In a loaded segment, a reallocation at its address for which the system can truncate and map the
    -- object returns where the new region begins, and leaves it mapped with the size asked for.
    pub realloc-Mapped :
        (pointer n : ℕ) (os os' : Os) (s : Segment) (region : Region)
        → base_address memory os s ≡ ok pointer
        → memory.truncate s.object n os ≡ ok os'
        → memory.map_region s.object os' ≡ ok region
        → (s' : Segment) × (realloc memory pointer n os s ≡ ok (os', s', region.address))
          × Mapped os' s' region.address n
    unfolding realloc unload
    realloc-Mapped pointer n os os' s region at t e = (
      mapped (unload memory s) region,
      rw (base_address-loaded os s pointer at, at, ==_self pointer)
          (remap-mapped n os os' (unload memory s) region t e),
      mapped-Mapped n os' (unload memory s) region e (doc.truncated s.object n os os' t),
    )

    abbrev CoveredAt : Os × Segment → Type 0
    CoveredAt at = IsCovered at.0 at.1

    unmapped-IsCovered : (os : Os) (s : Segment) → IsCovered os (unload memory s)
    unfolding unload
    unmapped-IsCovered os s region e = cc

    remap-IsCovered :
        (n : ℕ) (os : Os) (s : Segment) (at' : Os × Segment)
        → (remap memory n os s >>= λ (os', s', address). ok (os', s')) ≡ ok at'
        → CoveredAt at'
    remap-IsCovered n os s at' h =
        let (after, e, h1) =
          >>=-eq-ok (remap memory n os s) (λ (os', s', address). ok (os', s')) h in
        subst CoveredAt (ok_inj h1) (remap-Mapped n os s after e).1

    -- What a call leaves mapped is the whole object, and not empty.
    call-IsCovered :
        (c : Call) (at at' : Os × Segment)
        → IsCovered at.0 at.1
        → call c at ≡ ok at'
        → IsCovered at'.0 at'.1
    unfolding call malloc realloc free erase
    call-IsCovered load_call (os, s) at' covered h =
        let (s1, e, h1) = >>=-eq-ok (load memory os s) (λ s'. ok (os, s')) h in
        subst CoveredAt (ok_inj h1) (load-IsCovered os s s1 e)
    call-IsCovered unload_call (os, s) at' covered h =
        subst CoveredAt (ok_inj h) (unmapped-IsCovered os s)
    call-IsCovered erase_call (os, s) at' covered h =
        subst CoveredAt (ok_inj h) (unmapped-IsCovered _ s)
    call-IsCovered (malloc_call n) (os, s) at' covered h =
        remap-IsCovered n os s at'
          (guarded (not (loaded memory os s)) (remap memory n os s) _ at' h)
    call-IsCovered (free_call pointer) (os, s) at' covered h =
        let (address, e, h1) = >>=-eq-ok (base_address memory os s) _ h in
        let (same, h2) =
          guard-then (pointer == address) assertion_failed (ok (erase memory os (unload memory s)))
            h1 in
        subst CoveredAt (ok_inj h2) (unmapped-IsCovered _ (unload memory s))
    call-IsCovered (realloc_call pointer n) (os, s) at' covered h =
        let h1 =
          guarded (loaded memory os s)
            (base_address memory os s >>= λ a.
              guard (pointer == a) assertion_failed >> remap memory n os (unload memory s))
            (λ (os', s', address). ok (os', s')) at' h in
        let (a, e, h2) = >>=-eq-ok (base_address memory os s) _ (
          sym (
            bind_assoc (base_address memory os s)
              (λ a. guard (pointer == a) assertion_failed >> remap memory n os (unload memory s))
              (λ (os', s', address). ok (os', s')))
          ∙ h1) in
        remap-IsCovered n os (unload memory s) at'
          (guarded (pointer == a) (remap memory n os (unload memory s)) _ at' h2)

    -- After any calls of the owner that succeed, in any order, a region that is mapped covers the whole
    -- object, which is not empty, if it did so before.
    pub calls-IsCovered :
        (cs : List Call) (at at' : Os × Segment)
        → IsCovered at.0 at.1
        → calls cs at ≡ ok at'
        → IsCovered at'.0 at'.1
    unfolding calls
    calls-IsCovered [] at at' covered h = subst (λ t. IsCovered t.0 t.1) (ok_inj h) covered
    calls-IsCovered (c ∷ cs) at at' covered h =
        let (at1, e, h1) = >>=-eq-ok (call c at) (calls cs) h in
        calls-IsCovered cs at1 at' (call-IsCovered c at at1 covered e) h1
