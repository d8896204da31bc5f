-- ===== src/Segment/Reachable/Advances.antt =====
-- Source/SharedMemorySegment.cpp and Source/WisentSerializer.cpp: what each operation on the map of the
-- segments guarantees.
use wisent.Prelude.{
  ok_inj, ℕ, ◌≡◌, refl, sym, Bool, true, false, Option, none, some, Bytes, Result, ok,
  out_of_bounds, assertion_failed, ◌>>=◌, >>=-eq-ok, guard-then, or_fail, if◌then◌else◌,
}
use mathlib.Core.Path.{subst}
use wisent.Segment.Defs.{
  SharedMemory, Segment, open_segment, loaded, load, unload, base_address, malloc, realloc, free,
  erase,
}
use wisent.Segment.Registry.{
  Entry, Process, find_name, erase_name, dereference, assign, emplace, create_or_get_memory_segment,
  set_current_shared_memory, shared_memory_malloc, shared_memory_realloc, shared_memory_free,
  unload_name, free_name, load_existing, select_segment,
}
use wisent.Segment.Reachable.Entries.{
  Consistent, SameReference, same_trans, set-Consistent, set-same, erase-Consistent, erase-same,
  add-Consistent, add-same,
}
use wisent.Segment.Reachable.{
  Step, Stays, system_changes, requests, sets_current, allocates, reallocates, deallocates, unloads,
  frees, selects,
}

module _ {Os : Type 0} (memory : SharedMemory Os) (MayGo : Bytes → Type 0) where
  -- What every operation guarantees.
  pub record Advances (p p' : Process Os) : Type 0 where
    pub consistent : Consistent p.next_identity p.segments → Consistent p'.next_identity p'.segments
    pub same : (k : Bytes) → Stays memory MayGo k → SameReference k p.segments p'.segments

  pub advances_refl : (p : Process Os) → Advances p p
  advances_refl p = record { consistent = λ c. c; same = λ k stays e h. (e, h, refl) }

  pub advances_trans : {p1 p2 p3 : Process Os} → Advances p1 p2 → Advances p2 p3 → Advances p1 p3
  advances_trans {p1} {p2} {p3} a b = record {
    consistent = λ c. b.consistent (a.consistent c);
    same = λ k stays.
        same_trans k p1.segments p2.segments p3.segments (a.same k stays) (b.same k stays);
  }

  assigned :
      (identity : ℕ) (os : Os) (s : Segment) (p : Process Os)
      → Advances p (assign memory identity os s p)
  unfolding assign
  assigned identity os s p = record {
    consistent = set-Consistent identity s p.next_identity p.segments;
    same = λ k stays. set-same identity s k p.segments;
  }

  erased :
      (name : Bytes) (p : Process Os)
      → MayGo name
      → Advances p (record p { segments = erase_name name p.segments })
  erased name p goes = record {
    consistent = erase-Consistent name p.next_identity p.segments;
    same = λ k stays. erase-same name k p.segments (stays name goes);
  }

  emplaced :
      (name : Bytes) (p : Process Os) (found : Option Entry) (out : Process Os × ℕ)
      → find_name name p.segments ≡ found
      → emplace memory name p found ≡ ok out
      → Advances p out.0
  unfolding emplace
  emplaced name p (some e) out h run =
      subst (λ (out : Process Os × ℕ). Advances p out.0) (ok_inj run) (advances_refl p)
  emplaced name p none out h run =
      let (opened, e, run1) = >>=-eq-ok (open_segment memory name p.os) _ run in
      let added : Entry = record {
        identity = p.next_identity;
        entry_name = name;
        segment = opened.1;
      } in
      subst (λ (out : Process Os × ℕ). Advances p out.0) (ok_inj run1)
        (record {
          consistent = add-Consistent added p.segments;
          same = λ k stays. add-same added k p.segments h;
        })

  requested :
      (name : Bytes) (p : Process Os) (out : Process Os × ℕ)
      → create_or_get_memory_segment memory name p ≡ ok out
      → Advances p out.0
  unfolding create_or_get_memory_segment
  requested name p out run = emplaced name p (find_name name p.segments) out refl run

  -- A call on the segment behind the current reference.
  called :
      {A : Type 0} (p : Process Os) (run : Os → Segment → Result A) (os : A → Os)
      → (new : A → Segment) → {B : Type 0} (result : Process Os → A → B) (project : B → Process Os)
      → ((p' : Process Os) (a : A) → project (result p' a) ≡ p')
      → (out : B)
      → ((do
        identity ← or_fail p.current out_of_bounds
        s ← dereference memory identity p
        a ← run p.os s
        ok (result (assign memory identity (os a) (new a) p) a))
          ≡ ok out)
      → Advances p (project out)
  called p run os new result project returns out h =
      let (identity, h0, h1) = >>=-eq-ok (or_fail p.current out_of_bounds) _ h in
      let (s, h2, h3) = >>=-eq-ok (dereference memory identity p) _ h1 in
      let (a, h4, h5) = >>=-eq-ok (run p.os s) _ h3 in
      let p' = assign memory identity (os a) (new a) p in
      subst (λ out. Advances p (project out)) (ok_inj h5)
        (subst (Advances p) (sym (returns p' a)) (assigned identity (os a) (new a) p))

  -- The rest of `select_segment`, whose outcome is the process after the document was looked for, or
  -- that with the name freed.
  chosen :
      (name : Bytes) (identity : ℕ) (p : Process Os) (address : Result ℕ) (is_loaded force : Bool)
      → (force ≡ true → MayGo name)
      → (out : Process Os × Option ℕ)
      → ((p' : Process Os) → MayGo name → free_name memory name p ≡ ok p' → Advances p p')
      → (if is_loaded
          then (if force
              then (do
                p' ← free_name memory name p
                ok (set_current_shared_memory memory identity p', none))
              else (do a ← address; ok (p, some a)))
          else ok (set_current_shared_memory memory identity p, none))
        ≡ ok out
      → Advances p out.0
  unfolding set_current_shared_memory
  chosen name identity p address false force may out freeing h =
      subst (λ (out : Process Os × Option ℕ). Advances p out.0) (ok_inj h)
        (record { consistent = λ c. c; same = λ k stays e h. (e, h, refl) })
  chosen name identity p address true true may out freeing h =
      let (p', e, h1) = >>=-eq-ok (free_name memory name p) _ h in
      let step = freeing p' (may refl) e in
      subst (λ (out : Process Os × Option ℕ). Advances p out.0) (ok_inj h1)
        (record { consistent = step.consistent; same = step.same })
  chosen name identity p address true false may out freeing h =
      let (a, e, h1) = >>=-eq-ok address _ h in
      subst (λ (out : Process Os × Option ℕ). Advances p out.0) (ok_inj h1) (advances_refl p)

  loaded_existing :
      (identity : ℕ) (p p' : Process Os) (s : Segment) (wanted : Bool)
      → (if wanted
          then (do s' ← load memory p.os s; ok (assign memory identity p.os s' p))
          else ok p)
        ≡ ok p'
      → Advances p p'
  loaded_existing identity p p' s true h =
      let (s', e, h1) = >>=-eq-ok (load memory p.os s) _ h in
      subst (Advances p) (ok_inj h1) (assigned identity p.os s' p)
  loaded_existing identity p p' s false h = subst (Advances p) (ok_inj h) (advances_refl p)

  unloaded : (name : Bytes) (p p' : Process Os) → unload_name memory name p ≡ ok p' → Advances p p'
  unfolding unload_name
  unloaded name p p' h =
      let (at, got, h0) = >>=-eq-ok (create_or_get_memory_segment memory name p) _ h in
      let p1 = at.0 in
      let identity = at.1 in
      let (s, e, h1) = >>=-eq-ok (dereference memory identity p1) _ h0 in
      let (is_loaded, h2) = guard-then (loaded memory p1.os s) assertion_failed _ h1 in
      advances_trans (requested name p at got)
        (subst (Advances p1) (ok_inj h2) (assigned identity p1.os (unload memory s) p1))

  freed :
      (name : Bytes) (p p' : Process Os)
      → MayGo name
      → free_name memory name p ≡ ok p'
      → Advances p p'
  unfolding free_name
  freed name p p' goes h =
      let (at, got, h0) = >>=-eq-ok (create_or_get_memory_segment memory name p) _ h in
      let p1 = at.0 in
      let identity = at.1 in
      let (s, e, h1) = >>=-eq-ok (dereference memory identity p1) _ h0 in
      let p2 = assign memory identity (erase memory p1.os s).0 (erase memory p1.os s).1 p1 in
      advances_trans (requested name p at got) (
        advances_trans (assigned identity (erase memory p1.os s).0 (erase memory p1.os s).1 p1)
          (subst (Advances p2) (ok_inj h1) (erased name p2 goes)))

  selected :
      (name : Bytes) (force_reload : Bool) (p : Process Os) (out : Process Os × Option ℕ)
      → (force_reload ≡ true → MayGo name)
      → select_segment memory name force_reload p ≡ ok out
      → Advances p out.0
  unfolding select_segment load_existing
  selected name force_reload p out may h =
      let (at, got, h0) = >>=-eq-ok (create_or_get_memory_segment memory name p) _ h in
      let p1 = at.0 in
      let identity = at.1 in
      let (p2, e, h1) = >>=-eq-ok (load_existing memory force_reload identity p1) _ h0 in
      let (s, e2, h2) = >>=-eq-ok (dereference memory identity p2) _ h1 in
      let (s1, e3, h3) = >>=-eq-ok (dereference memory identity p1) _ e in
      advances_trans (requested name p at got) (
        advances_trans (loaded_existing identity p1 p2 s1 _ h3) (
          chosen name identity p2 (base_address memory p2.os s) (loaded memory p2.os s) force_reload
            may out (freed name p2) h2))

  pub step-Advances : {p p' : Process Os} → Step memory MayGo p p' → Advances p p'
  unfolding shared_memory_malloc shared_memory_realloc shared_memory_free set_current_shared_memory
  step-Advances (system_changes p os) = record {
    consistent = λ c. c;
    same = λ k stays e h. (e, h, refl);
  }
  step-Advances (requests name p out run) = requested name p out run
  step-Advances (sets_current identity p) = record {
    consistent = λ c. c;
    same = λ k stays e h. (e, h, refl);
  }
  step-Advances (allocates new_size p out h) =
      called p (malloc memory new_size) (λ a. a.0) (λ a. a.1) (λ p' a. (p', a.2)) (λ b. b.0)
        (λ p' a. refl) out h
  step-Advances (reallocates pointer new_size p out h) =
      called p (realloc memory pointer new_size) (λ a. a.0) (λ a. a.1) (λ p' a. (p', a.2))
        (λ b. b.0) (λ p' a. refl) out h
  step-Advances (deallocates pointer p p' h) =
      called p (free memory pointer) (λ a. a.0) (λ a. a.1) (λ p' a. p') (λ b. b) (λ p' a. refl) p' h
  step-Advances (unloads name p p' h) = unloaded name p p' h
  step-Advances (frees name p p' goes h) = freed name p p' goes h
  step-Advances (selects name force_reload p out may h) = selected name force_reload p out may h
