-- ===== src/Segment/Current.antt =====
-- Source/SharedMemorySegment.cpp: the current segment, and its memory through reallocations.
use wisent.Prelude.{
  ok_inj, some_inj, ℕ, ◌≤◌, ◌<◌, ◌≡◌, refl, ◌∙◌, sym, ap, true, false, not, Option, none, some,
  List, [], ◌∷◌, Result, ok, out_of_bounds, assertion_failed, ◌>>=◌, >>=-eq-ok, guard-then, or_fail,
  ◌==◌, Bool-cases, inl, inr,
}
use mathlib.Core.Path.{subst}
use wisent.Segment.Defs.{
  SharedMemory, Documented, Region, Segment, loaded, load, unload, base_address, remap, malloc,
  realloc,
}
use wisent.Segment.Registry.{
  Entry, Process, find_entry, set_segment, dereference, assign, shared_memory_malloc,
  shared_memory_realloc,
}
use wisent.Segment.Mapped.{Mapped, realloc-Mapped}

module _ {Os : Type 0} (memory : SharedMemory Os) where
  found-set :
      (identity : ℕ) (s : Segment) (es : List Entry) (e : Entry)
      → find_entry identity es ≡ some e
      → find_entry identity (set_segment identity s es) ≡ some (record e { segment = s })
  unfolding find_entry set_segment
  found-set identity s [] e h = cc
  found-set identity s (e' ∷ es) e h = elim (Bool-cases (e'.identity == identity)) [
    | inl same ↦ rw (same, same) (ap (λ (e : Entry). some (record e { segment = s })) (head same))
    | inr other ↦ rw (other, other) (found-set identity s es e (tail other))
  ]
    where
      head : (e'.identity == identity) ≡ true → e' ≡ e
      head same = some_inj (sym (rw same refl) ∙ h)

      tail : (e'.identity == identity) ≡ false → find_entry identity es ≡ some e
      tail other = sym (rw other refl) ∙ h

  pub dereference-assign :
      (identity : ℕ) (os : Os) (s s' : Segment) (p : Process Os)
      → dereference memory identity p ≡ ok s
      → dereference memory identity (assign memory identity os s' p) ≡ ok s'
  unfolding dereference assign
  dereference-assign identity os s s' p h = go (find_entry identity p.segments) refl h
    where
      go :
          (found : Option Entry)
          → find_entry identity p.segments ≡ found
          → (or_fail found out_of_bounds >>= λ e. ok e.segment) ≡ ok s
          → (or_fail (find_entry identity (set_segment identity s' p.segments)) out_of_bounds
              >>= λ e. ok e.segment)
            ≡ ok s'
      go none e h = cc
      go (some e') e h = rw (found-set identity s' p.segments e' e) refl

  pub malloc-eq :
      (identity n : ℕ) (s : Segment) (p : Process Os)
      → p.current ≡ some identity
      → dereference memory identity p ≡ ok s
      → shared_memory_malloc memory n p ≡ (
          malloc memory n p.os s >>= λ (os, s', address).
          ok (assign memory identity os s' p, address))
  unfolding shared_memory_malloc
  malloc-eq identity n s p current there =
      ap (λ c. or_fail c out_of_bounds >>= λ i. dereference memory i p >>= run i) current
      ∙ ap (λ m. m >>= run identity) there
    where
      run : ℕ → Segment → Result (Process Os × ℕ)
      run i s =
          malloc memory n p.os s >>= λ (os, s', address). ok (assign memory i os s' p, address)

  pub realloc-eq :
      (identity pointer n : ℕ) (s : Segment) (p : Process Os)
      → p.current ≡ some identity
      → dereference memory identity p ≡ ok s
      → shared_memory_realloc memory pointer n p ≡ (
          realloc memory pointer n p.os s >>= λ (os, s', address).
          ok (assign memory identity os s' p, address))
  unfolding shared_memory_realloc
  realloc-eq identity pointer n s p current there =
      ap (λ c. or_fail c out_of_bounds >>= λ i. dereference memory i p >>= run i) current
      ∙ ap (λ m. m >>= run identity) there
    where
      run : ℕ → Segment → Result (Process Os × ℕ)
      run i s = realloc memory pointer n p.os s >>= λ (os, s', address).
          ok (assign memory i os s' p, address)

  -- A segment keeps its object.
  pub remap-object :
      (n : ℕ) (os : Os) (s : Segment) (after : Os × Segment × ℕ)
      → remap memory n os s ≡ ok after
      → after.1.object ≡ s.object
  unfolding remap load
  remap-object n os s after h =
      let (os', t, h1) = >>=-eq-ok (memory.truncate s.object n os) _ h in
      let (s', l, h2) = >>=-eq-ok (load memory os' s) _ h1 in
      let (region, m, h3) = >>=-eq-ok (memory.map_region s.object os') _ l in
      let (a, b, h4) = >>=-eq-ok (base_address memory os' s') _ h2 in
      sym (ap (λ (after : Os × Segment × ℕ). after.1.object) (ok_inj h4))
      ∙ sym (ap (λ (s : Segment). s.object) (ok_inj h3))

  pub malloc-object :
      (n : ℕ) (os : Os) (s : Segment) (after : Os × Segment × ℕ)
      → malloc memory n os s ≡ ok after
      → after.1.object ≡ s.object
  unfolding malloc
  malloc-object n os s after h =
      remap-object n os s after
        (guard-then (not (loaded memory os s)) assertion_failed (remap memory n os s) h).1

  pub realloc-object :
      (pointer n : ℕ) (os : Os) (s : Segment) (after : Os × Segment × ℕ)
      → realloc memory pointer n os s ≡ ok after
      → after.1.object ≡ s.object
  unfolding realloc unload
  realloc-object pointer n os s after h =
      let (on, h1) = guard-then (loaded memory os s) assertion_failed _ h in
      let (address, at, h2) = >>=-eq-ok (base_address memory os s) _ h1 in
      let (same, h3) =
        guard-then (pointer == address) assertion_failed (remap memory n os (unload memory s)) h2 in
      remap-object n os (unload memory s) after h3

  -- The current segment has the object, all of whose `n` bytes are mapped at the address.
  pub record Held (object : ℕ) (p : Process Os) (address n : ℕ) : Type 0 where
    pub identity : ℕ
    pub segment : Segment
    pub current : p.current ≡ some identity
    pub there : dereference memory identity p ≡ ok segment
    pub mapped : Mapped memory p.os segment address n
    pub same : segment.object ≡ object

  -- The system can truncate the object to any size up to the limit and map it then.
  abbrev pub Grants : (object limit : ℕ) → Type 0
  Grants object limit =
      (n : ℕ) (os : Os)
      → 0 < n
      → n ≤ limit
      → (os' : Os) × (region : Region) × (memory.truncate object n os ≡ ok os')
        × (memory.map_region object os' ≡ ok region)

  pub realloc-Held :
      (doc : Documented memory) (object limit address n n' : ℕ) (p : Process Os)
      → Grants object limit
      → 0 < n'
      → n' ≤ limit
      → Held object p address n
      → (out : Process Os × ℕ) × (shared_memory_realloc memory address n' p ≡ ok out)
        × Held object out.0 out.1 n'
  unfolding assign
  realloc-Held doc object limit address n n' p grants some_bytes within held =
      let (os, region, truncates, maps) = grants n' p.os some_bytes within in
      let (s, run, mapped) =
        realloc-Mapped memory doc address n' p.os os held.segment region held.mapped.at_address
          (subst (λ o. memory.truncate o n' p.os ≡ ok os) (sym held.same) truncates)
          (subst (λ o. memory.map_region o os ≡ ok region) (sym held.same) maps) in
      (
        (assign memory held.identity os s p, region.address),
        realloc-eq held.identity address n' held.segment p held.current held.there
            ∙ ap (λ m. m >>= λ (os, s, address). ok (assign memory held.identity os s p, address))
                run,
        record {
          identity = held.identity;
          segment = s;
          current = held.current;
          there = dereference-assign held.identity os held.segment s p held.there;
          mapped = mapped;
          same =
              realloc-object address n' p.os held.segment (os, s, region.address) run ∙ held.same;
        },
      )
