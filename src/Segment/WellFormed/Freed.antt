-- ===== src/Segment/WellFormed/Freed.antt =====
-- `wisent::serializer::free` in Source/WisentSerializer.cpp: what it leaves behind.
use wisent.Prelude.{
  ok_inj, sym, suc, ◌∷◌, >>=-eq-ok, ap, ℕ, ◌≡◌, refl, ◌∙◌, false, Option, none, some, Bytes, Result,
  ok, ◌>>=◌, bytes_eq, bytes_eq_self, arith,
}
use mathlib.Core.Path.{subst}
use wisent.Segment.Defs.{SharedMemory, Segment, open_segment, erase}
use wisent.Segment.Registry.{
  Entry, Process, find_name, find_entry, set_segment, erase_name, dereference, assign, emplace,
  create_or_get_memory_segment, free_name,
}
use wisent.Segment.WellFormed.{
  WellFormed, Unused-next, Bounded-suc, after-Distinct, after-Bounded, after-absent, after-other,
  found-name,
}

module _ {Os : Type 0} (memory : SharedMemory Os) where
  -- What the freeing of a name leaves behind.
  pub record Freed (name : Bytes) (p p' : Process Os) : Type 0 where
    pub well_formed : WellFormed p'
    pub absent : find_name name p'.segments ≡ none
    pub others :
        (k : Bytes) → bytes_eq name k ≡ false → find_name k p'.segments ≡ find_name k p.segments

  erase_name-Freed :
      (name : Bytes) (p : Process Os) (os : Os) (e : Entry) (s : Segment)
      → WellFormed p
      → find_name name p.segments ≡ some e
      → Freed name p
          (record p { os = os; segments = erase_name name (set_segment e.identity s p.segments) })
  erase_name-Freed name p os e s wf named = record {
    well_formed = record {
      distinct = after-Distinct e.identity s name p.segments wf.distinct;
      bounded = after-Bounded e.identity s name p.next_identity p.segments wf.bounded;
    };
    absent = after-absent e.identity s name p.segments;
    others = λ k ne.
        after-other e.identity s name k p.segments ne
          (found-name name p.segments e wf.distinct named).1;
  }

  -- What a request for a name's segment that returns has made of the process.
  record Requested (name : Bytes) (p : Process Os) (at : Process Os × ℕ) : Type 0 where
    entry : Entry
    well_formed : WellFormed at.0
    named : find_name name at.0.segments ≡ some entry
    identity : at.1 ≡ entry.identity
    others :
        (k : Bytes) → bytes_eq name k ≡ false → find_name k at.0.segments ≡ find_name k p.segments

  emplaced :
      (name : Bytes) (p : Process Os) (found : Option Entry) (at : Process Os × ℕ)
      → find_name name p.segments ≡ found
      → WellFormed p
      → emplace memory name p found ≡ ok at
      → Requested name p at
  unfolding emplace find_name
  emplaced name p (some e) at h wf run =
      subst (Requested name p) (ok_inj run)
        (record { entry = e; well_formed = wf; named = h; identity = refl; others = λ k ne. refl })
  emplaced name p none at h wf run =
      let (opened, e, run1) = >>=-eq-ok (open_segment memory name p.os) _ run in
      subst (Requested name p) (ok_inj run1) (record {
        entry = record { identity = p.next_identity; entry_name = name; segment = opened.1 };
        well_formed = record {
          distinct = (Unused-next p.next_identity p.segments wf.bounded, wf.distinct);
          bounded = (omega arith, Bounded-suc p.next_identity p.segments wf.bounded);
        };
        named = rw (bytes_eq_self name) refl;
        identity = refl;
        others = λ k ne. rw ne refl;
      })

  -- The name has a segment, or its object can be opened.
  abbrev pub IsAvailable : Bytes → Process Os → Type 0
  IsAvailable name p =
      find_name name p.segments ≡ none → (at : Os × ℕ) × (memory.open_or_create name p.os ≡ ok at)

  pub known-IsAvailable :
      (name : Bytes) (p : Process Os) (e : Entry)
      → find_name name p.segments ≡ some e
      → IsAvailable name p
  known-IsAvailable name p e has absent = absurd (let h = sym has ∙ absent in cc)

  requested :
      (name : Bytes) (p : Process Os) (found : Option Entry)
      → find_name name p.segments ≡ found
      → IsAvailable name p
      → (at : Process Os × ℕ) × (emplace memory name p found ≡ ok at)
  unfolding emplace open_segment
  requested name p (some e) h available = ((p, e.identity), refl)
  requested name p none h available =
      let (at, opens) = available h in
      (
        (
          record p {
            os = at.0;
            segments =
                (record {
                  identity = p.next_identity;
                  entry_name = name;
                  segment = record { object = at.1; object_name = name; region = none };
                })
                ∷ p.segments;
            next_identity = suc p.next_identity;
          },
          p.next_identity,
        ),
        rw opens refl,
      )

  -- The body of `free`, at the entry of the name.
  erase_entry : Bytes → Process Os → (identity : ℕ) → Result (Process Os)
  erase_entry name p identity = do
    s ← dereference memory identity p
    let (os, s') = erase memory p.os s
    let p' = assign memory identity os s' p
    ok (record p' { segments = erase_name name p'.segments })

  entry_freed :
      (name : Bytes) (p : Process Os) (identity : ℕ) (e : Entry)
      → identity ≡ e.identity
      → find_entry e.identity p.segments ≡ some e
      → erase_entry name p identity
        ≡ ok (record p {
          os = (erase memory p.os e.segment).0;
          segments =
              erase_name name (set_segment e.identity (erase memory p.os e.segment).1 p.segments);
        })
  unfolding dereference assign erase_entry
  entry_freed name p identity e same found = rw same (rw found refl)

  -- In a process whose references are given once, for a name that has a segment or whose object can be
  -- opened: `free` succeeds, the name is gone, every other name has the entry that it had, and
  -- references are still given once.
  pub free_name-Freed :
      (name : Bytes) (p : Process Os)
      → WellFormed p
      → IsAvailable name p
      → (p' : Process Os) × (free_name memory name p ≡ ok p') × Freed name p p'
  unfolding free_name create_or_get_memory_segment erase_entry
  free_name-Freed name p wf available =
      let (at, run) = requested name p (find_name name p.segments) refl available in
      let r = emplaced name p (find_name name p.segments) at refl wf run in
      let (found, own) = found-name name at.0.segments r.entry r.well_formed.distinct r.named in
      let (os, s) = erase memory at.0.os r.entry.segment in
      let freed = erase_name-Freed name at.0 os r.entry s r.well_formed r.named in
      (
        record at.0 {
          os = os;
          segments = erase_name name (set_segment r.entry.identity s at.0.segments);
        },
        ap (λ m. m >>= λ at. erase_entry name at.0 at.1) run
            ∙ entry_freed name at.0 at.1 r.entry r.identity found,
        record {
          well_formed = freed.well_formed;
          absent = freed.absent;
          others = λ k ne. freed.others k ne ∙ r.others k ne;
        },
      )
