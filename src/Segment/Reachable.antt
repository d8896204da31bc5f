-- ===== src/Segment/Reachable.antt =====
-- The processes that the operations of Source/SharedMemorySegment.cpp lead to, with those of
-- Source/WisentSerializer.cpp on the map of the segments.
use wisent.Prelude.{
  ℕ, suc, ◌≡◌, refl, ◌∙◌, sym, Bool, true, false, not, ◌&&◌, Option, none, some, List, Bytes,
  Result, ok, out_of_bounds, assertion_failed, ◌>>=◌, ◌>>◌, >>=-eq-ok, guard, guard-then, or_fail,
  bytes_eq, if◌then◌else◌,
}
use mathlib.Core.Path.{subst}
use wisent.Segment.Defs.{
  SharedMemory, Segment, open_segment, exists, loaded, load, unload, base_address, malloc, realloc,
  free, erase,
}
use wisent.Segment.Registry.{
  Entry, Process, find_name, set_segment, erase_name, dereference, assign, emplace,
  create_or_get_memory_segment, set_current_shared_memory, shared_memory_malloc,
  shared_memory_realloc, shared_memory_free, unload_name, free_name, load_existing, select_segment,
}
pub mod Entries
pub mod Advances
pub mod Kept

module _ {Os : Type 0} (memory : SharedMemory Os) (MayGo : Bytes → Type 0) where
  -- An operation that succeeds; `MayGo` are the names that are freed or reloaded. Other processes
  -- change the system's state in between.
  pub data Step : Process Os → Process Os → Type 0 where
    system_changes : (p : Process Os) (os : Os) → Step p (record p { os = os })
    requests :
        (name : Bytes) (p : Process Os) (out : Process Os × ℕ)
        → create_or_get_memory_segment memory name p ≡ ok out
        → Step p out.0
    sets_current :
        (identity : ℕ) (p : Process Os) → Step p (set_current_shared_memory memory identity p)
    allocates :
        (new_size : ℕ) (p : Process Os) (out : Process Os × ℕ)
        → shared_memory_malloc memory new_size p ≡ ok out
        → Step p out.0
    reallocates :
        (pointer new_size : ℕ) (p : Process Os) (out : Process Os × ℕ)
        → shared_memory_realloc memory pointer new_size p ≡ ok out
        → Step p out.0
    deallocates :
        (pointer : ℕ) (p p' : Process Os) → shared_memory_free memory pointer p ≡ ok p' → Step p p'
    unloads : (name : Bytes) (p p' : Process Os) → unload_name memory name p ≡ ok p' → Step p p'
    frees :
        (name : Bytes) (p p' : Process Os)
        → MayGo name
        → free_name memory name p ≡ ok p'
        → Step p p'
    selects :
        (name : Bytes) (force_reload : Bool) (p : Process Os) (out : Process Os × Option ℕ)
        → (force_reload ≡ true → MayGo name)
        → select_segment memory name force_reload p ≡ ok out
        → Step p out.0

  pub data Reach (p : Process Os) : Process Os → Type 0 where
    here : Reach p p
    later : {p' p'' : Process Os} → Reach p p' → Step p' p'' → Reach p p''

  -- None of the names is this one.
  abbrev pub Stays : Bytes → Type 0
  Stays k = (name : Bytes) → MayGo name → bytes_eq name k ≡ false
