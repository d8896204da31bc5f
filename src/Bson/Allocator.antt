-- ===== src/Bson/Allocator.antt =====
-- Source/BsonSerializer.cpp: `SharedMemoryAllocator`.
use wisent.Prelude.{
  ℕ, suc, ◌-◌, ◌*◌, ◌/◌, ◌%◌, ◌^◌, Bool, not, ◌&&◌, Result, ok, bad_array_new_length, bad_alloc,
  ◌>>=◌, ◌>>◌, guard, if◌then◌else◌, ◌==◌, ltb, leb,
}
use wisent.Helpers.{size_mod}
use wisent.Segment.{SharedMemory, Process, shared_memory_malloc, shared_memory_realloc}
pub mod Owned

-- A null pointer is 0.
pub record Allocator : Type 0 where
  pub pointer : ℕ
  pub allocated : ℕ

abbrev pub new_allocator : Allocator
new_allocator = record { pointer = 0; allocated = 0 }

module _ {Os : Type 0} (memory : SharedMemory Os) where
  -- Where the memory of `new_size` bytes is: in place, if there is more than that already.
  unfoldable pub obtain : (new_size : ℕ) → Allocator → Process Os → Result (Process Os × ℕ)
  obtain new_size a p =
      if a.pointer == 0
      then shared_memory_malloc memory new_size p
      else shared_memory_realloc memory a.pointer new_size p

  unfoldable pub grow :
      (new_size : ℕ) → Allocator → Process Os → Result (Allocator × Process Os × ℕ)
  unfolding obtain
  grow new_size a p = do
    (p', pointer) ← obtain new_size a p
    guard (not (pointer == 0)) bad_alloc
    ok (record { pointer = pointer; allocated = new_size }, p', pointer)

  -- `allocate(n)`, for values of `value_size` bytes.
  unfoldable pub allocate :
      (value_size n : ℕ) → Allocator → Process Os → Result (Allocator × Process Os × ℕ)
  unfolding grow
  allocate value_size n a p = do
    guard (leb n ((size_mod - 1) / value_size)) bad_array_new_length
    let new_size : ℕ = n * value_size % size_mod
    if not (a.pointer == 0) && ltb new_size a.allocated
        then ok (a, p, a.pointer)
        else grow new_size a p
