-- ===== src/Segment/Reachable/Kept.antt =====
-- Source/SharedMemorySegment.cpp: what holds of the map of the segments, whatever the operations.
use wisent.Prelude.{ok, ◌≡◌, some, Bytes, []}
use wisent.Segment.Defs.{SharedMemory}
use wisent.Segment.Registry.{Entry, Process, find_name, free_name}
use wisent.Segment.WellFormed.{WellFormed}
use wisent.Segment.WellFormed.Freed.{Freed, IsAvailable, free_name-Freed}
use wisent.Segment.Reachable.Entries.{Consistent}
use wisent.Segment.Reachable.{Stays, Reach, here, later}
use wisent.Segment.Reachable.Advances.{Advances, advances_refl, advances_trans, step-Advances}

module _ {Os : Type 0} (memory : SharedMemory Os) (MayGo : Bytes → Type 0) where
  reach-Advances :
      (p : Process Os) {p' : Process Os} → Reach memory MayGo p p' → Advances memory MayGo p p'
  reach-Advances p here = advances_refl memory MayGo p
  reach-Advances p (later r st) =
      advances_trans memory MayGo (reach-Advances p r) (step-Advances memory MayGo st)

  -- What the theorems on freeing suppose holds of the processes that operations lead to.
  reach-WellFormed : {p p' : Process Os} → p.segments ≡ [] → Reach memory MayGo p p' → WellFormed p'
  reach-WellFormed {p} empty r =
      let before : Consistent p.next_identity p.segments =
        rw empty (record { distinct = tt; bounded = tt }) in
      let after = (reach-Advances p r).consistent before in
      record { distinct = after.distinct; bounded = after.bounded }

  -- In a process that any operations, from one without segments, have led to, and for a name that has a
  -- segment or whose object can be opened: `free` succeeds, the name is gone, every other name has the
  -- entry that it had, and references are given once.
  pub reach-free_name :
      {p p' : Process Os} (name : Bytes)
      → p.segments ≡ []
      → Reach memory MayGo p p'
      → IsAvailable memory name p'
      → (p'' : Process Os) × (free_name memory name p' ≡ ok p'') × Freed memory name p' p''
  reach-free_name {p} {p'} name empty r available =
      free_name-Freed memory name p' (reach-WellFormed empty r) available

  -- After any operations that succeed, whatever other processes do in between: a name that had an
  -- entry leads to the same reference, unless it was freed or is one that was to be reloaded.
  pub reach-same_reference :
      {p p' : Process Os} (k : Bytes) (e : Entry)
      → Reach memory MayGo p p'
      → Stays memory MayGo k
      → find_name k p.segments ≡ some e
      → (e' : Entry) × (find_name k p'.segments ≡ some e') × (e'.identity ≡ e.identity)
  reach-same_reference {p} k e r stays = (reach-Advances p r).same k stays e
