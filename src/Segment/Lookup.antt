-- ===== src/Segment/Lookup.antt =====
-- Source/WisentSerializer.cpp: which segment `load` uses.
use wisent.Prelude.{
  suc, Result, bytes_eq_self, Option, ℕ, ◌≡◌, refl, Bool, true, false, ◌&&◌, none, some, List, [],
  ◌∷◌, Bytes, ok, err, out_of_bounds, ◌>>=◌, ◌==◌, ==_iff, bytes_eq, Bool-cases, inl, inr,
  if◌then◌else◌,
}
use wisent.Segment.Defs.{
  open_segment, SharedMemory, Segment, exists, loaded, load, unload, base_address, erase,
}
use wisent.Segment.Registry.{
  Entry, Process, find_name, find_entry, set_segment, erase_name, dereference, assign, emplace,
  create_or_get_memory_segment, set_current_shared_memory, shared_memory_malloc, free_name,
  load_existing, select_segment,
}

-- Entries with this identity have this name.
abbrev pub Named : (identity : ℕ) → Bytes → List Entry → Type 0
Named identity name [] = Unit {0}
Named identity name (e ∷ es) =
    (e.identity ≡ identity → bytes_eq e.entry_name name ≡ true) × Named identity name es

erased :
    (identity : ℕ) (name : Bytes) (s : Segment) (es : List Entry)
    → Named identity name es
    → find_entry identity (erase_name name (set_segment identity s es)) ≡ none
unfolding find_entry erase_name set_segment
erased identity name s [] named = refl
erased identity name s (e ∷ es) (own, named) =
    let rest = erased identity name s es named in
    elim (Bool-cases (e.identity == identity)) [
      | inl same ↦ rw (same, own ((==_iff e.identity identity).0 same)) rest
      | inr other ↦ elim (Bool-cases (bytes_eq e.entry_name name)) [
        | inl gone ↦ rw (other, gone) rest
        | inr kept ↦ rw (other, kept) (rw other rest)
      ]
    ]

module _ {Os : Type 0} (memory : SharedMemory Os) where
  module _ (name : Bytes) (p : Process Os) (e : Entry) where
    pub got :
        find_name name p.segments ≡ some e
        → create_or_get_memory_segment memory name p ≡ ok (p, e.identity)
    unfolding create_or_get_memory_segment emplace
    got named = rw named refl

    pub dereferenced :
        find_entry e.identity p.segments ≡ some e → dereference memory e.identity p ≡ ok e.segment
    unfolding dereference
    dereferenced found = rw found refl

    not_loaded_again :
        (force_reload : Bool)
        → find_entry e.identity p.segments ≡ some e
        → loaded memory p.os e.segment ≡ true
        → load_existing memory force_reload e.identity p ≡ ok p
    unfolding load_existing
    not_loaded_again true found is_loaded = rw (dereferenced found) refl
    not_loaded_again false found is_loaded =
        rw (dereferenced found, is_loaded) (both_cases (exists memory p.os e.segment))
      where
        both_cases :
            (b : Bool)
            → (if b && false
                then (do s' ← load memory p.os e.segment; ok (assign memory e.identity p.os s' p))
                else ok p)
              ≡ ok p
        both_cases true = refl
        both_cases false = refl

    unfoldable freed : Process Os
    freed = record p {
      os = memory.remove e.segment.object_name p.os;
      segments = erase_name name (set_segment e.identity (unload memory e.segment) p.segments);
    }

    freed-eq :
        find_name name p.segments ≡ some e
        → find_entry e.identity p.segments ≡ some e
        → free_name memory name p ≡ ok freed
    unfolding free_name assign erase freed
    freed-eq named found = rw (got named, dereferenced found) refl

    dangling :
        (size : ℕ)
        → Named e.identity name p.segments
        → shared_memory_malloc memory size (set_current_shared_memory memory e.identity freed)
          ≡ err out_of_bounds
    unfolding shared_memory_malloc set_current_shared_memory dereference freed
    dangling size own = rw (erased e.identity name (unload memory e.segment) p.segments own) refl

  -- The address of a document that is loaded, where no reload is forced.
  pub select_segment-loaded :
      (name : Bytes) (p : Process Os) (e : Entry) (address : ℕ)
      → find_name name p.segments ≡ some e
      → find_entry e.identity p.segments ≡ some e
      → loaded memory p.os e.segment ≡ true
      → base_address memory p.os e.segment ≡ ok address
      → select_segment memory name false p ≡ ok (p, some address)
  unfolding select_segment
  select_segment-loaded name p e address named found is_loaded at =
      rw
        (
          got name p e named,
          not_loaded_again name p e false found is_loaded,
          dereferenced name p e found,
          is_loaded,
          at,
        )
        refl

  -- Where the document is to be reloaded, whatever the size of the allocation that follows.
  pub dangles :
      (name : Bytes) (p : Process Os) (e : Entry)
      → find_name name p.segments ≡ some e
      → find_entry e.identity p.segments ≡ some e
      → Named e.identity name p.segments
      → loaded memory p.os e.segment ≡ true
      → (p' : Process Os) × (select_segment memory name true p ≡ ok (p', none))
        × ((size : ℕ) → shared_memory_malloc memory size p' ≡ err out_of_bounds)
  unfolding select_segment
  dangles name p e named found own is_loaded = (
    set_current_shared_memory memory e.identity (freed name p e),
    rw
        (
          got name p e named,
          not_loaded_again name p e true found is_loaded,
          dereferenced name p e found,
          is_loaded,
          freed-eq name p e named found,
        )
        refl,
    λ size. dangling name p e size own,
  )

  -- A document that is loaded under the name and is to be reloaded: its entry is erased, and the
  -- reference to it becomes the current segment, so that the allocation of the new document is an access
  -- through a dangling reference.
  pub select_segment-dangling :
      (name : Bytes) (p : Process Os) (e : Entry) (size : ℕ)
      → find_name name p.segments ≡ some e
      → find_entry e.identity p.segments ≡ some e
      → Named e.identity name p.segments
      → loaded memory p.os e.segment ≡ true
      → (p' : Process Os) × (select_segment memory name true p ≡ ok (p', none))
        × (shared_memory_malloc memory size p' ≡ err out_of_bounds)
  select_segment-dangling name p e size named found own is_loaded =
      let (p', selects, faults) = dangles name p e named found own is_loaded in
      (p', selects, faults size)

  again :
      (name : Bytes) (p : Process Os) (found : Option Entry)
      → find_name name p.segments ≡ found
      → (emplace memory name p found >>= λ (p', identity).
          create_or_get_memory_segment memory name p')
        ≡ emplace memory name p found
  unfolding create_or_get_memory_segment emplace find_name
  again name p (some e) h = rw h refl
  again name p none h = created (open_segment memory name p.os)
    where
      entered : Os × Segment → Process Os
      entered at = record p {
        os = at.0;
        segments =
            (record { identity = p.next_identity; entry_name = name; segment = at.1 }) ∷ p.segments;
        next_identity = suc p.next_identity;
      }

      here :
          (at : Os × Segment)
          → find_name name (entered at).segments
            ≡ some (record { identity = p.next_identity; entry_name = name; segment = at.1 })
      here at = rw (bytes_eq_self name) refl

      enter : Os × Segment → Result (Process Os × ℕ)
      enter at = ok (entered at, p.next_identity)

      once_more : Process Os × ℕ → Result (Process Os × ℕ)
      once_more at = create_or_get_memory_segment memory name at.0

      created : (m : Result (Os × Segment)) → ((m >>= enter) >>= once_more) ≡ (m >>= enter)
      created (ok at) = rw (here at) refl
      created (err fault) = refl

  -- Asking for a name's segment once more, where the first request returns, gives the same reference
  -- and changes nothing; and a request that throws, throws.
  pub create_or_get_memory_segment-again :
      (name : Bytes) (p : Process Os)
      → (create_or_get_memory_segment memory name p >>= λ (p', identity).
          create_or_get_memory_segment memory name p')
        ≡ create_or_get_memory_segment memory name p
  unfolding create_or_get_memory_segment
  create_or_get_memory_segment-again name p = again name p (find_name name p.segments) refl
