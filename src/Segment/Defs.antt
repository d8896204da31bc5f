-- ===== src/Segment/Defs.antt =====
-- Source/SharedMemorySegment.hpp: the class `SharedMemorySegment`. boost::interprocess is third-party
-- code: `Os` is the state of the system's shared memory objects, and `SharedMemory` what is called.
use wisent.Prelude.{
  ℕ, ◌≡◌, Bool, true, false, not, ◌&&◌, Option, none, some, Bytes, Result, ok, assertion_failed,
  ◌>>=◌, ◌>>◌, guard, or_fail, ltb, ◌==◌, ◌<◌,
}

-- A `mapped_region`: `get_address` and `get_size`.
pub record Region : Type 0 where
  pub address : ℕ
  pub region_size : ℕ

-- Objects are named by the handles that `shared_memory_object(open_or_create, …)` returns, unless it throws.
pub record SharedMemory (Os : Type 0) : Type 0 where
  pub open_or_create : Bytes → Os → Result (Os × ℕ)
  pub truncate : (object size : ℕ) → Os → Result Os
  pub get_size : (object : ℕ) → Os → Option ℕ
  pub remove : Bytes → Os → Os
  pub map_region : (object : ℕ) → Os → Result Region

-- What the documentation says of these functions: an object has the size that it was truncated to,
-- a region maps the whole object and is not empty, and removing a name leaves open objects alone.
pub record Documented {Os : Type 0} (memory : SharedMemory Os) : Type 0 where
  pub truncated :
      (object size : ℕ) (os os' : Os)
      → memory.truncate object size os ≡ ok os'
      → memory.get_size object os' ≡ some size
  pub whole :
      (object : ℕ) (os : Os) (region : Region)
      → memory.map_region object os ≡ ok region
      → memory.get_size object os ≡ some region.region_size
  pub not_empty :
      (object : ℕ) (os : Os) (region : Region)
      → memory.map_region object os ≡ ok region
      → 0 < region.region_size
  pub removed :
      (object : ℕ) (name : Bytes) (os : Os)
      → memory.get_size object (memory.remove name os) ≡ memory.get_size object os

pub record Segment : Type 0 where
  pub object : ℕ
  pub object_name : Bytes
  pub region : Option Region

module _ {Os : Type 0} (memory : SharedMemory Os) where
  -- The constructor.
  unfoldable pub open_segment : Bytes → Os → Result (Os × Segment)
  open_segment name os = do
    (os', object) ← memory.open_or_create name os
    ok (os', record { object = object; object_name = name; region = none })

  unfoldable pub has_bytes : Option ℕ → Bool
  has_bytes none = false
  has_bytes (some n) = ltb 0 n

  unfoldable pub exists : Os → Segment → Bool
  exists os s = has_bytes (memory.get_size s.object os)

  unfoldable pub is_mapped : Option Region → Bool
  is_mapped none = false
  is_mapped (some region) = true

  unfoldable pub loaded : Os → Segment → Bool
  loaded os s = exists os s && is_mapped s.region

  unfoldable pub load : Os → Segment → Result Segment
  load os s = do region ← memory.map_region s.object os; ok (record s { region = some region })

  unfoldable pub unload : Segment → Segment
  unload s = record s { region = none }

  unfoldable pub base_address : Os → Segment → Result ℕ
  base_address os s = do
    guard (loaded os s) assertion_failed
    region ← or_fail s.region assertion_failed
    ok region.address

  unfoldable pub size : Os → Segment → Result ℕ
  size os s = do
    guard (loaded os s) assertion_failed
    region ← or_fail s.region assertion_failed
    ok region.region_size

  -- Truncating the object and mapping it anew, the common end of the next two.
  unfoldable pub remap : ℕ → Os → Segment → Result (Os × Segment × ℕ)
  remap new_size os s = do
    os' ← memory.truncate s.object new_size os
    s' ← load os' s
    address ← base_address os' s'
    ok (os', s', address)

  unfoldable pub malloc : ℕ → Os → Segment → Result (Os × Segment × ℕ)
  malloc new_size os s = do guard (not (loaded os s)) assertion_failed; remap new_size os s

  unfoldable pub realloc : (pointer new_size : ℕ) → Os → Segment → Result (Os × Segment × ℕ)
  realloc pointer new_size os s = do
    guard (loaded os s) assertion_failed
    address ← base_address os s
    guard (pointer == address) assertion_failed
    remap new_size os (unload s)

  unfoldable pub erase : Os → Segment → Os × Segment
  erase os s = (memory.remove s.object_name os, unload s)

  unfoldable pub free : (pointer : ℕ) → Os → Segment → Result (Os × Segment)
  free pointer os s = do
    address ← base_address os s
    guard (pointer == address) assertion_failed
    ok (erase os (unload s))
