-- ===== src/Segment/Registry.antt =====
-- Source/SharedMemorySegment.cpp: the map of the segments and the current one, and the functions of
-- Source/WisentSerializer.cpp that choose, unmap and remove a segment. A reference to a segment stays
-- valid until its entry is erased: entries have identities, and an identity that is gone dangles.
use wisent.Prelude.{
  ℕ, suc, Bool, not, ◌&&◌, Option, none, some, List, [], ◌∷◌, Bytes, Result, ok, out_of_bounds,
  assertion_failed, ◌>>=◌, ◌>>◌, guard, or_fail, ◌==◌, bytes_eq, if◌then◌else◌,
}
use wisent.Segment.Defs.{
  SharedMemory, Segment, open_segment, exists, loaded, load, unload, base_address, malloc, realloc,
  free, erase,
}

pub record Entry : Type 0 where
  pub identity : ℕ
  pub entry_name : Bytes
  pub segment : Segment

-- The static variables, with the system's shared memory.
pub record Process (Os : Type 0) : Type 0 where
  pub os : Os
  pub segments : List Entry
  pub next_identity : ℕ
  pub current : Option ℕ

unfoldable pub find_name : Bytes → List Entry → Option Entry
find_name name [] = none
find_name name (e ∷ es) =
    let rest = find_name name es in if bytes_eq e.entry_name name then some e else rest

unfoldable pub find_entry : (identity : ℕ) → List Entry → Option Entry
find_entry identity [] = none
find_entry identity (e ∷ es) =
    let rest = find_entry identity es in if e.identity == identity then some e else rest

unfoldable pub set_segment : (identity : ℕ) → Segment → List Entry → List Entry
set_segment identity s [] = []
set_segment identity s (e ∷ es) =
    (if e.identity == identity then record e { segment = s } else e) ∷ set_segment identity s es

unfoldable pub erase_name : Bytes → List Entry → List Entry
erase_name name [] = []
erase_name name (e ∷ es) =
    let rest = erase_name name es in if bytes_eq e.entry_name name then rest else e ∷ rest

module _ {Os : Type 0} (memory : SharedMemory Os) where
  -- The segment behind a reference.
  unfoldable pub dereference : ℕ → Process Os → Result Segment
  dereference identity p = do
    e ← or_fail (find_entry identity p.segments) out_of_bounds
    ok e.segment

  -- The segment behind a reference, changed along with the system's state.
  unfoldable pub assign : ℕ → Os → Segment → Process Os → Process Os
  assign identity os s p = record p { os = os; segments = set_segment identity s p.segments }

  -- `try_emplace`, which leaves an entry that is there alone.
  unfoldable pub emplace : Bytes → Process Os → Option Entry → Result (Process Os × ℕ)
  emplace name p (some e) = ok (p, e.identity)
  emplace name p none = do
    (os, s) ← open_segment memory name p.os
    ok (
      record p {
        os = os;
        segments =
            (record { identity = p.next_identity; entry_name = name; segment = s }) ∷ p.segments;
        next_identity = suc p.next_identity;
      },
      p.next_identity,
    )

  unfoldable pub create_or_get_memory_segment : Bytes → Process Os → Result (Process Os × ℕ)
  create_or_get_memory_segment name p = emplace name p (find_name name p.segments)

  unfoldable pub set_current_shared_memory : ℕ → Process Os → Process Os
  set_current_shared_memory identity p = record p { current = some identity }

  unfoldable pub shared_memory_malloc : ℕ → Process Os → Result (Process Os × ℕ)
  shared_memory_malloc new_size p = do
    identity ← or_fail p.current out_of_bounds
    s ← dereference identity p
    (os, s', address) ← malloc memory new_size p.os s
    ok (assign identity os s' p, address)

  unfoldable pub shared_memory_realloc :
      (pointer new_size : ℕ) → Process Os → Result (Process Os × ℕ)
  shared_memory_realloc pointer new_size p = do
    identity ← or_fail p.current out_of_bounds
    s ← dereference identity p
    (os, s', address) ← realloc memory pointer new_size p.os s
    ok (assign identity os s' p, address)

  unfoldable pub shared_memory_free : (pointer : ℕ) → Process Os → Result (Process Os)
  shared_memory_free pointer p = do
    identity ← or_fail p.current out_of_bounds
    s ← dereference identity p
    (os, s') ← free memory pointer p.os s
    ok (assign identity os s' p)

  -- `wisent::serializer::unload`.
  unfoldable pub unload_name : Bytes → Process Os → Result (Process Os)
  unload_name name p = do
    (p', identity) ← create_or_get_memory_segment name p
    s ← dereference identity p'
    guard (loaded memory p'.os s) assertion_failed
    ok (assign identity p'.os (unload memory s) p')

  -- `wisent::serializer::free`.
  unfoldable pub free_name : Bytes → Process Os → Result (Process Os)
  free_name name p = do
    (p', identity) ← create_or_get_memory_segment name p
    s ← dereference identity p'
    let (os, s') = erase memory p'.os s
    let p'' = assign identity os s' p'
    ok (record p'' { segments = erase_name name p''.segments })

  -- `if(!forceReload && sharedMemory.exists() && !sharedMemory.loaded()) { sharedMemory.load(); }`.
  unfoldable pub load_existing :
      (force_reload : Bool) (identity : ℕ) → Process Os → Result (Process Os)
  load_existing force_reload identity p = do
    s ← dereference identity p
    if not force_reload && (exists memory p.os s && not (loaded memory p.os s))
        then (do s' ← load memory p.os s; ok (assign identity p.os s' p))
        else ok p

  -- `wisent::serializer::load` up to the current segment: the address of a document that is there, or
  -- none, if it is to be read.
  unfoldable pub select_segment :
      Bytes → (force_reload : Bool) → Process Os → Result (Process Os × Option ℕ)
  select_segment name force_reload p = do
    (p1, identity) ← create_or_get_memory_segment name p
    p2 ← load_existing force_reload identity p1
    s ← dereference identity p2
    if loaded memory p2.os s
        then (if force_reload
            then (do p3 ← free_name name p2; ok (set_current_shared_memory identity p3, none))
            else (do address ← base_address memory p2.os s; ok (p2, some address)))
        else ok (set_current_shared_memory identity p2, none)
