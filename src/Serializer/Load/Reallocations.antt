-- ===== src/Serializer/Load/Reallocations.antt =====
-- Source/WisentHelpers.h and Source/WisentSerializer.cpp: the reallocations of `storeString`, in the
-- state of the segment.
use wisent.Prelude.{
  ℕ, suc, ◌+◌, ◌%◌, ◌^◌, ◌≤◌, ◌<◌, ◌≡◌, refl, List, [], ◌∷◌, Bytes, Result, ok, ◌>>=◌, ◌==◌,
  if◌then◌else◌, length, arith, Bool-cases, inl, inr,
}
use wisent.Helpers.{Root, size_mod, sizeof_root, get_string_buffer}
use wisent.Segment.{SharedMemory, Documented, Process, shared_memory_realloc}
use wisent.Segment.Current.{Held, Grants, realloc-Held}

-- The size asked for behind each string in the bytes, of which the first stands at the fill index.
unfoldable pub sizes_of : (base fill : ℕ) → Bytes → List ℕ
sizes_of base fill [] = []
sizes_of base fill (c ∷ cs) =
    let rest = sizes_of base (suc fill) cs in
    if c == 0 then (base + suc fill) % size_mod ∷ rest else rest

-- The sizes for which a block has had the memory reallocated. The string buffer holds each string that
-- was stored, with its terminator, in order.
unfoldable pub reallocations : Root → List ℕ
unfolding sizes_of get_string_buffer
reallocations root = sizes_of (sizeof_root + get_string_buffer root) 0 root.string_buffer

-- The size of the last reallocation, or of the allocation before.
abbrev pub last_size : ℕ → List ℕ → ℕ
last_size n [] = n
last_size n (n' ∷ ns) = last_size n' ns

abbrev pub AllWithin : (limit : ℕ) → List ℕ → Type 0
AllWithin limit [] = Unit {0}
AllWithin limit (n ∷ ns) = ((0 < n) × (n ≤ limit)) × AllWithin limit ns

-- What the header, the words and the strings take.
abbrev pub memory_size : Root → ℕ
memory_size root = sizeof_root + get_string_buffer root + length root.string_buffer

sizes_of-AllWithin :
    (limit base fill : ℕ) (bs : Bytes)
    → limit < 2 ^ 64
    → base + fill + length bs ≤ limit
    → AllWithin limit (sizes_of base fill bs)
unfolding sizes_of
sizes_of-AllWithin limit base fill [] small within = tt
sizes_of-AllWithin limit base fill (c ∷ cs) small within =
    let rest = sizes_of-AllWithin limit base (suc fill) cs small (omega arith) in
    elim (Bool-cases (c == 0)) [
      | inl ends ↦ rw ends ((omega arith, omega arith), rest)
      | inr goes_on ↦ rw goes_on rest
    ]

pub reallocations-AllWithin :
    (limit : ℕ) (root : Root)
    → limit < 2 ^ 64
    → memory_size root ≤ limit
    → AllWithin limit (reallocations root)
unfolding reallocations
reallocations-AllWithin limit root small within =
    sizes_of-AllWithin limit (sizeof_root + get_string_buffer root) 0 root.string_buffer small
      (omega (arith, within))

module _ {Os : Type 0} (memory : SharedMemory Os) where
  -- `*root = reallocateFunction(*root, …)`, once after another.
  unfoldable pub reallocate_all : List ℕ → Process Os → (address : ℕ) → Result (Process Os × ℕ)
  reallocate_all [] p address = ok (p, address)
  reallocate_all (n ∷ ns) p address = do
    (p', address') ← shared_memory_realloc memory address n p
    reallocate_all ns p' address'

  pub reallocate_all-Held :
      (doc : Documented memory) (object limit : ℕ) (ns : List ℕ) (p : Process Os) (address n : ℕ)
      → Grants memory object limit
      → AllWithin limit ns
      → Held memory object p address n
      → (out : Process Os × ℕ) × (reallocate_all ns p address ≡ ok out)
        × Held memory object out.0 out.1 (last_size n ns)
  unfolding reallocate_all
  reallocate_all-Held doc object limit [] p address n grants within held =
      ((p, address), refl, held)
  reallocate_all-Held doc object limit (n' ∷ ns) p address n grants ((some_bytes, fits), within)
        held =
      let (at, run, held1) =
        realloc-Held memory doc object limit address n n' p grants some_bytes fits held in
      let (out, rest, held2) =
        reallocate_all-Held doc object limit ns at.0 at.1 n' grants within held1 in
      (out, rw run rest, held2)
