-- ===== src/Bson/Allocator/Owned.antt =====
-- Source/BsonSerializer.cpp: what an allocator owns.
use wisent.Prelude.{
  ok_inj, ℕ, ◌-◌, ◌*◌, ◌/◌, ◌%◌, ◌≤◌, ◌<◌, ◌≡◌, ◌≢◌, refl, ◌∙◌, sym, Bool, true, false, not, ◌&&◌,
  some, Result, ok, bad_array_new_length, bad_alloc, assertion_failed, ◌>>=◌, >>=-eq-ok, guard-then,
  if◌then◌else◌, ◌==◌, ltb, leb, arith,
}
use mathlib.Core.Path.{subst}
use native.Mathlib.Nat.{le-div_iff_mul-le, mod-eq_of_lt}
use wisent.Helpers.{size_mod}
use wisent.Segment.{
  SharedMemory, Documented, Segment, Process, loaded, base_address, malloc, realloc, remap, unload,
  dereference, assign, shared_memory_malloc, shared_memory_realloc,
}
use wisent.Segment.Mapped.{Mapped, remap-Mapped}
use wisent.Segment.Current.{dereference-assign, malloc-eq, realloc-eq}
use wisent.Bson.Allocator.{Allocator, obtain, grow, allocate}

module _ {Os : Type 0} (memory : SharedMemory Os) where
  -- There is a current segment, and what the allocator points to is the whole of its mapped memory.
  pub record Owned (a : Allocator) (p : Process Os) : Type 0 where
    pub identity : ℕ
    pub segment : Segment
    pub current : p.current ≡ some identity
    pub there : dereference memory identity p ≡ ok segment
    pub mapped : a.pointer ≢ 0 → Mapped memory p.os segment a.pointer a.allocated

  module _ (doc : Documented memory) where
    -- The segment after an allocation or a reallocation that has succeeded.
    owned :
        (identity n : ℕ) (s : Segment) (p : Process Os) (after : Os × Segment × ℕ)
        → p.current ≡ some identity
        → dereference memory identity p ≡ ok s
        → Mapped memory after.0 after.1 after.2 n
        → Owned
            (record { pointer = after.2; allocated = n })
            (assign memory identity after.0 after.1 p)
    unfolding assign
    owned identity n s p after current there m = record {
      identity = identity;
      segment = after.1;
      current = current;
      there = dereference-assign memory identity after.0 s after.1 p there;
      mapped = λ some_pointer. m;
    }

    malloc-mapped :
        (n : ℕ) (os : Os) (s : Segment) (after : Os × Segment × ℕ)
        → malloc memory n os s ≡ ok after
        → Mapped memory after.0 after.1 after.2 n
    unfolding malloc
    malloc-mapped n os s after h =
        (remap-Mapped memory doc n os s after
          (guard-then (not (loaded memory os s)) assertion_failed (remap memory n os s) h).1).0

    realloc-mapped :
        (pointer n : ℕ) (os : Os) (s : Segment) (after : Os × Segment × ℕ)
        → realloc memory pointer n os s ≡ ok after
        → Mapped memory after.0 after.1 after.2 n
    unfolding realloc
    realloc-mapped pointer n os s after h =
        let (on, h1) = guard-then (loaded memory os s) assertion_failed _ h in
        let (address, at, h2) = >>=-eq-ok (base_address memory os s) _ h1 in
        let (same, h3) =
          guard-then (pointer == address) assertion_failed (remap memory n os (unload memory s))
            h2 in
        (remap-Mapped memory doc n os (unload memory s) after h3).0

    assigned :
        (identity n : ℕ) (s : Segment) (p : Process Os) (run : Result (Os × Segment × ℕ))
        (after : Process Os × ℕ)
        → p.current ≡ some identity
        → dereference memory identity p ≡ ok s
        → ((at : Os × Segment × ℕ) → run ≡ ok at → Mapped memory at.0 at.1 at.2 n)
        → (run >>= λ (os, s', address). ok (assign memory identity os s' p, address)) ≡ ok after
        → Owned (record { pointer = after.1; allocated = n }) after.0
    assigned identity n s p run after current there maps h =
        let (at, e, h1) =
          >>=-eq-ok run (λ (os, s', address). ok (assign memory identity os s' p, address)) h in
        subst (λ (q : Process Os × ℕ). Owned (record { pointer = q.1; allocated = n }) q.0)
          (ok_inj h1) (owned identity n s p at current there (maps at e))

    obtain-Owned :
        (n : ℕ) (a : Allocator) (p : Process Os) (after : Process Os × ℕ)
        → Owned a p
        → obtain memory n a p ≡ ok after
        → Owned (record { pointer = after.1; allocated = n }) after.0
    unfolding obtain
    obtain-Owned n a p after o = choose (a.pointer == 0)
      where
        choose :
            (null : Bool)
            → (if null
                then shared_memory_malloc memory n p
                else shared_memory_realloc memory a.pointer n p)
              ≡ ok after
            → Owned (record { pointer = after.1; allocated = n }) after.0
        choose true h =
            assigned o.identity n o.segment p _ after o.current o.there
              (malloc-mapped n p.os o.segment)
              (sym (malloc-eq memory o.identity n o.segment p o.current o.there) ∙ h)
        choose false h =
            assigned o.identity n o.segment p _ after o.current o.there
              (realloc-mapped a.pointer n p.os o.segment)
              (sym (realloc-eq memory o.identity a.pointer n o.segment p o.current o.there) ∙ h)

    -- What an allocation for `n` values of `w` bytes that has returned leaves behind.
    abbrev pub Allocates : (w n : ℕ) → Allocator × Process Os × ℕ → Type 0
    Allocates w n after =
        Owned after.0 after.1
        × (after.2 ≡ after.0.pointer)
        × (after.2 ≢ 0)
        × (n * w ≤ after.0.allocated)
        × (n * w < size_mod)

    grow-Allocates :
        (w n : ℕ) (a : Allocator) (p : Process Os) (after : Allocator × Process Os × ℕ)
        → Owned a p
        → n * w < size_mod
        → grow memory (n * w) a p ≡ ok after
        → Allocates w n after
    unfolding grow
    grow-Allocates w n a p after o small h =
        let (at, e, h1) = >>=-eq-ok (obtain memory (n * w) a p) _ h in
        let (some_pointer, h2) =
          guard-then (not (at.1 == 0)) bad_alloc
            (ok (record { pointer = at.1; allocated = n * w }, at.0, at.1)) h1 in
        subst (Allocates w n) (ok_inj h2)
          (obtain-Owned (n * w) a p at o e, refl, ground (arith, some_pointer), omega arith, small)

    -- For an allocator whose memory is the whole of the current segment's, an allocation that returns
    -- leaves it so: the address that it returns is not null, the number of bytes asked for has not
    -- wrapped, and at least so many are mapped there.
    pub allocate-Allocates :
        (w n : ℕ) (a : Allocator) (p : Process Os) (after : Allocator × Process Os × ℕ)
        → 0 < w
        → Owned a p
        → allocate memory w n a p ≡ ok after
        → Allocates w n after
    unfolding allocate
    allocate-Allocates w n a p after some_bytes o h =
        let (bound, h1) = guard-then (leb n ((size_mod - 1) / w)) bad_array_new_length _ h in
        let fits : n * w ≤ size_mod - 1 =
          (le-div_iff_mul-le some_bytes).0 (ground (arith, bound)) in
        let same : n * w % size_mod ≡ n * w = mod-eq_of_lt (omega (arith, fits)) in
        choose (not (a.pointer == 0) && ltb (n * w) a.allocated) refl (omega (arith, fits)) (
          subst
            (λ m.
              (if not (a.pointer == 0) && ltb m a.allocated
                then ok (a, p, a.pointer)
                else grow memory m a p)
              ≡ ok after)
            same h1)
      where
        choose :
            (enough : Bool)
            → (not (a.pointer == 0) && ltb (n * w) a.allocated) ≡ enough
            → n * w < size_mod
            → (if enough then ok (a, p, a.pointer) else grow memory (n * w) a p) ≡ ok after
            → Allocates w n after
        choose true e small h =
            subst (Allocates w n) (ok_inj h) (o, refl, ground (arith, e), ground (arith, e), small)
        choose false e small h = grow-Allocates w n a p after o small h
