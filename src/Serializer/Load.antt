-- ===== src/Serializer/Load.antt =====
-- Source/WisentSerializer.cpp: `wisent::serializer::load`. The segment is chosen first; unless a
-- document is loaded in it, the file is read twice, and its tree is written to the segment's memory.
use wisent.Prelude.{
  ℕ, Bool, Option, none, some, List, Bytes, Result, ok, runtime_error, ◌>>=◌, or_fail,
}
use wisent.Helpers.{Root, tree_size}
use wisent.Json.{Json, events, parse_events}
use wisent.Csv.{Environment}
use wisent.Segment.{SharedMemory, Process, select_segment, shared_memory_malloc}
use wisent.Serializer.JsonToWisent.{json_to_wisent, sax_parse, partial_sum, last}
use wisent.Serializer.FirstPass.{initial_counter, parse}
pub mod Reallocations
pub mod Outcomes
use wisent.Serializer.Load.Reallocations.{reallocations, reallocate_all}

-- Opening a file (`ifs.good()`), with what the third-party parser makes of its text, and the words
-- behind the header of the block at an address of the mapped memory.
pub record Files (Os : Type 0) : Type 0 where
  pub open_file : Bytes → Option (Result Json)
  pub contents : Os → (address : ℕ) → ℕ → ℕ

-- The options of `load`.
pub record Options : Type 0 where
  pub csv_prefix : Bytes
  pub disable_rle : Bool
  pub disable_csv_handling : Bool
  pub force_reload : Bool

-- What `load` returns: the address of the document that was there, or that of the block that it has
-- written, and the block.
pub data Loaded (Os : Type 0) : Type 0 where
  present : Process Os → (address : ℕ) → Loaded Os
  encoded : Process Os → (address : ℕ) → Root → Loaded Os

module _ {Os : Type 0} (memory : SharedMemory Os) (files : Files Os) (env : Environment)
    (options : Options) where
  -- The second traversal, for the counts of the first, in memory at an address that holds words.
  unfoldable pub write_block :
      Json
      → (expression_count : ℕ) (argument_count_per_layer : List ℕ) (address : ℕ) (words : ℕ → ℕ)
      → Result Root
  write_block j expression_count argument_count_per_layer address words = do
    s ←
        json_to_wisent expression_count argument_count_per_layer address words options.csv_prefix
          options.disable_rle options.disable_csv_handling
    s' ← sax_parse env s (events j)
    ok s'.root

  -- The two traversals, the allocation between them (the constructor of `JsonToWisent`), and the
  -- reallocations. These keep the contents, so that the block and the state of the segment are
  -- computed one after the other: it is the same whether a reallocation throws at once or when the rest
  -- is written, but for which of two faults is met first.
  unfoldable pub encode : Json → Process Os → Result (Process Os × ℕ × Root)
  unfolding write_block
  encode j p = do
    c ← parse env options.csv_prefix options.disable_csv_handling initial_counter (parse_events 0 j)
    argument_count ← last (partial_sum 0 c.argument_count_per_layer)
    (p', address) ← shared_memory_malloc memory (tree_size argument_count c.expression_count) p
    root ←
        write_block j c.expression_count c.argument_count_per_layer address
          (files.contents p'.os address)
    (p'', address') ← reallocate_all memory (reallocations root) p' address
    ok (p'', address', root)

  unfoldable pub read_and_encode : (path : Bytes) → Process Os → Result (Process Os × ℕ × Root)
  unfolding encode
  read_and_encode path p = do
    content ← or_fail (files.open_file path) runtime_error
    j ← content
    encode j p

  -- `if(sharedMemory.loaded()) { if(!forceReload) return …; … }`, and the rest.
  unfoldable pub load_selected : (path : Bytes) → Process Os → Option ℕ → Result (Loaded Os)
  unfolding read_and_encode
  load_selected path p (some address) = ok (present p address)
  load_selected path p none = do
    (p', address, root) ← read_and_encode path p
    ok (encoded p' address root)

  unfoldable pub load : (path name : Bytes) → Process Os → Result (Loaded Os)
  unfolding load_selected
  load path name p = do
    (p', found) ← select_segment memory name options.force_reload p
    load_selected path p' found
