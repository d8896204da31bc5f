-- ===== src/Server/Exit.antt =====
-- Source/WisentServer.cpp: the data sets that the end of the server deletes.
use wisent.Prelude.{
  some, ◌≡◌, false, Option, none, List, [], ◌∷◌, Bytes, Result, ok, ◌>>=◌, bytes_eq,
}
use wisent.Segment.{SharedMemory, Process, Entry, find_name, free_name}
use wisent.Segment.WellFormed.{WellFormed}
use wisent.Segment.WellFormed.Freed.{known-IsAvailable, free_name-Freed}

-- A registry of data under names, in which a name that has data can be freed: that takes the name's data
-- away and leaves that of other names.
pub record Registry (State Data : Type 0) : Type 1 where
  pub free : Bytes → State → Result State
  pub lookup : Bytes → State → Option Data
  pub IsValid : State → Type 0
  pub freed :
      (name : Bytes) (s : State) (d : Data)
      → IsValid s
      → lookup name s ≡ some d
      → (s' : State) × (free name s ≡ ok s')
        × IsValid s'
        × (lookup name s' ≡ none)
        × ((k : Bytes) → bytes_eq name k ≡ false → lookup k s' ≡ lookup k s)

-- `for(auto const& name : names) { wisent::serializer::free(name); }`.
unfoldable pub free_all :
    {State : Type 0} → (Bytes → State → Result State) → List Bytes → State → Result State
free_all free [] s = ok s
free_all free (name ∷ names) s = do s' ← free name s; free_all free names s'

module _ {State Data : Type 0} (registry : Registry State Data) where
  abbrev pub AllGone : List Bytes → State → Type 0
  AllGone [] s = Unit {0}
  AllGone (name ∷ names) s = (registry.lookup name s ≡ none) × AllGone names s

  -- The name is none of the names.
  abbrev pub Foreign : Bytes → List Bytes → Type 0
  Foreign k [] = Unit {0}
  Foreign k (name ∷ names) = (bytes_eq name k ≡ false) × Foreign k names

  -- Each of the names has data.
  abbrev pub AllThere : List Bytes → State → Type 0
  AllThere [] s = Unit {0}
  AllThere (name ∷ names) s = ((d : Data) × (registry.lookup name s ≡ some d)) × AllThere names s

  -- The names differ.
  abbrev pub Apart : List Bytes → Type 0
  Apart [] = Unit {0}
  Apart (name ∷ names) = Foreign name names × Apart names

-- The segments of a process, over the system's shared memory.
abbrev pub segment_registry : {Os : Type 0} → SharedMemory Os → Registry (Process Os) Entry
segment_registry memory = record {
  free = free_name memory;
  lookup = λ name p. find_name name p.segments;
  IsValid = WellFormed;
  freed = λ name p d valid has.
      let (p', e, freed) =
        free_name-Freed memory name p valid (known-IsAvailable memory name p d has) in
      (p', e, freed.well_formed, freed.absent, freed.others);
}
