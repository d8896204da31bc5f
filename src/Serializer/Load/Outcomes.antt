-- ===== src/Serializer/Load/Outcomes.antt =====
-- Source/WisentSerializer.cpp: the outcomes of `load`.
use wisent.Prelude.{
  ==_self, ◌≤◌, ℕ, suc, ◌+◌, ◌*◌, ◌^◌, ◌<◌, ◌≡◌, ◌≢◌, refl, ◌∙◌, sym, ap, true, false, none, some,
  List, Bytes, Result, ok, err, Fault, [], out_of_bounds, runtime_error, ◌>>=◌, >>=-eq-ok, or_fail,
}
use wisent.Helpers.{Root, tree_size}
use wisent.Json.{Json, events, parse_events}
use wisent.Csv.{Environment}
use wisent.Segment.{
  SharedMemory, Documented, Region, Entry, Process, find_name, find_entry, loaded, exists,
  base_address, select_segment, shared_memory_malloc, assign, dereference, Segment, set_segment,
}
use wisent.Segment.Lookup.{Named, select_segment-loaded, dangles}
use wisent.Segment.Fresh.{opened, opened_segment, select_segment-fresh, malloc-fresh}
use wisent.Serializer.JsonToWisent.{Encoder, json_to_wisent, sax_parse, partial_sum, last}
use wisent.Serializer.FirstPass.{Counter, initial_counter, parse}
use wisent.Serializer.Tree.{Tree, expressions, depth}
use wisent.Serializer.Stored.{StoredTree}
use wisent.Serializer.Translate.{tree_of, AllStrings}
use wisent.Serializer.Events.{Resolved}
use wisent.Serializer.Encode.{IsContainer, sax_parse-StoredTree}
use wisent.Serializer.Counting.{counted}
use wisent.Serializer.Counting.Documents.{Countable, parse-counted}
use wisent.Serializer.Counting.TwoPasses.{AllStrings-map, planned}
use wisent.Serializer.Load.{
  Files, Options, Loaded, present, encoded, encode, read_and_encode, load_selected, load,
  write_block,
}
use wisent.Segment.Current.{Held, Grants}
use wisent.Segment.Mapped.{Mapped}
use wisent.Serializer.Load.Reallocations.{
  reallocations, reallocate_all, last_size, memory_size, reallocations-AllWithin,
  reallocate_all-Held,
}

err≢ok : {A : Type 0} {a : A} {fault : Fault} → err fault ≢ ok a
err≢ok h = cc

module _ {Os : Type 0} (memory : SharedMemory Os) (files : Files Os) (env : Environment)
    (options : Options) where
  -- Without a forced reload, a document that is loaded under the name is returned where it lies: no file
  -- is read, and nothing changes.
  pub load-present :
      (path name : Bytes) (p : Process Os) (e : Entry) (address : ℕ)
      → options.force_reload ≡ false
      → find_name name p.segments ≡ some e
      → find_entry e.identity p.segments ≡ some e
      → loaded memory p.os e.segment ≡ true
      → base_address memory p.os e.segment ≡ ok address
      → load memory files env options path name p ≡ ok (present p address)
  unfolding load
  load-present path name p e address kept named found is_loaded at =
      rw (kept, select_segment-loaded memory name p e address named found is_loaded at) refl

  never_allocated :
      (path : Bytes) (p : Process Os) (r : Loaded Os)
      → ((size : ℕ) → shared_memory_malloc memory size p ≡ err out_of_bounds)
      → load_selected memory files env options path p none ≢ ok r
  unfolding load_selected read_and_encode encode
  never_allocated path p r faults h =
      let (root, h1, e1) = >>=-eq-ok (read_and_encode memory files env options path p) _ h in
      let (content, e2, h2) = >>=-eq-ok (or_fail (files.open_file path) runtime_error) _ h1 in
      let (j, e3, h3) = >>=-eq-ok content _ h2 in
      let (c, e4, h4) =
        >>=-eq-ok
          (parse env options.csv_prefix options.disable_csv_handling initial_counter
            (parse_events 0 j))
          _ h3 in
      let (n, e5, h5) = >>=-eq-ok (last (partial_sum 0 c.argument_count_per_layer)) _ h4 in
      let (at, e6, h6) =
        >>=-eq-ok (shared_memory_malloc memory (tree_size n c.expression_count) p) _ h5 in
      err≢ok (sym (faults (tree_size n c.expression_count)) ∙ e6)

  -- A forced reload of a document that is loaded never returns, whatever the file holds: its entry is
  -- erased, so that the new allocation is an access through a dangling reference.
  pub load-forced_never_returns :
      (path name : Bytes) (p : Process Os) (e : Entry) (r : Loaded Os)
      → options.force_reload ≡ true
      → find_name name p.segments ≡ some e
      → find_entry e.identity p.segments ≡ some e
      → Named e.identity name p.segments
      → loaded memory p.os e.segment ≡ true
      → load memory files env options path name p ≢ ok r
  unfolding load
  load-forced_never_returns path name p e r forced named found own is_loaded h =
      let (p', selects, faults) = dangles memory name p e named found own is_loaded in
      never_allocated path p' r faults (sym (selected p' selects) ∙ h)
    where
      selected :
          (p' : Process Os)
          → select_segment memory name true p ≡ ok (p', none)
          → load memory files env options path name p
            ≡ load_selected memory files env options path p' none
      selected p' selects = rw (forced, selects) refl

  reads :
      {path : Bytes} (p : Process Os) {j : Json} {r : Result (Process Os × ℕ × Root)}
      → files.open_file path ≡ some (ok j)
      → encode memory files env options j p ≡ r
      → read_and_encode memory files env options path p ≡ r
  unfolding read_and_encode
  reads p opens e = rw opens e

  -- The steps of the two traversals, put together.
  encodes :
      (j : Json) (p : Process Os) {p' : Process Os} {c : Counter} {a address : ℕ} {root : Root}
      {out : Process Os × ℕ}
      → parse env options.csv_prefix options.disable_csv_handling initial_counter (parse_events 0 j)
        ≡ ok c
      → (n : ℕ) {counts : List ℕ} → c.expression_count ≡ n
      → c.argument_count_per_layer ≡ counts
      → last (partial_sum 0 counts) ≡ ok a
      → shared_memory_malloc memory (tree_size a n) p ≡ ok (p', address)
      → write_block memory files env options j n counts address (files.contents p'.os address)
        ≡ ok root
      → reallocate_all memory (reallocations root) p' address ≡ ok out
      → encode memory files env options j p ≡ ok (out.0, out.1, root)
  unfolding encode
  encodes j p e n ec cs l allocates writes grows = rw (e, ec, cs, l, allocates, writes, grows) refl

  writes_block :
      (j : Json) (n : ℕ) (counts : List ℕ) (address : ℕ) (words : ℕ → ℕ) {s s' : Encoder}
      → json_to_wisent n counts address words options.csv_prefix options.disable_rle
          options.disable_csv_handling
        ≡ ok s
      → sax_parse env s (events j) ≡ ok s'
      → write_block memory files env options j n counts address words ≡ ok s'.root
  unfolding write_block
  writes_block j n counts address words e1 e2 = rw (e1, e2) refl

  -- The segment after the allocation.
  allocated-Held :
      (name : Bytes) (p : Process Os) (opened_os os : Os) (object address n : ℕ) (s : Segment)
      → Mapped memory os s address n
      → s.object ≡ object
      → Held memory object
          (assign memory p.next_identity os s (opened memory name p opened_os object))
          address
          n
  unfolding assign dereference set_segment find_entry
  allocated-Held name p opened_os os object address n s mapped same = record {
    identity = p.next_identity;
    segment = s;
    current = refl;
    there = rw (==_self p.next_identity) (rw (==_self p.next_identity) refl);
    mapped = mapped;
    same = same;
  }

  -- A name that is new to the process and whose object can be opened and is empty; a file with a
  -- document, and memory, as the theorem on the two traversals takes them; a system that can truncate the object to the
  -- size of the block without strings and map it, and then grants any size up to a limit that the
  -- block does not exceed: `load` returns a block that holds the document's tree, whether or not it is
  -- to reload, and the address where the object is mapped then, in the size of the last reallocation.
  pub load-StoredTree :
      (doc : Documented memory) (resolve : Bytes → Tree) (path name : Bytes) (p : Process Os)
      (j : Json) (argument_count : ℕ) (opened_os os : Os) (object limit : ℕ) (region : Region)
      → find_name name p.segments ≡ none
      → memory.open_or_create name p.os ≡ ok (opened_os, object)
      → exists memory opened_os (opened_segment name object) ≡ false
      → files.open_file path ≡ some (ok j)
      → IsContainer j
      → AllStrings (Countable env resolve options.csv_prefix options.disable_csv_handling) j
      → last (partial_sum 0 (counted (tree_of resolve j) [])) ≡ ok argument_count
      → suc (depth (tree_of resolve j)) < 2 ^ 64
      → argument_count < 2 ^ 32
      → 16 * argument_count + 24 * expressions (tree_of resolve j) < 2 ^ 64
      → memory.truncate object
          (tree_size argument_count (expressions (tree_of resolve j)))
          opened_os
        ≡ ok os
      → memory.map_region object os ≡ ok region
      → files.contents os region.address (2 * argument_count + 1) ≡ 0
      → limit < 2 ^ 64
      → Grants memory object limit
      → ((root : Root)
          → write_block memory files env options j
              (expressions (tree_of resolve j))
              (counted (tree_of resolve j) [])
              region.address
              (files.contents os region.address)
            ≡ ok root
          → memory_size root ≤ limit)
      → (root : Root) × (out : Process Os × ℕ) × (load memory files env options path name p
          ≡ ok (encoded out.0 out.1 root))
        × StoredTree options.disable_rle root 0 0
            (partial_sum 0 (counted (tree_of resolve j) []))
            (tree_of resolve j)
        × Held memory object out.0 out.1 (
            last_size
              (tree_size argument_count (expressions (tree_of resolve j)))
              (reallocations root))
  unfolding load load_selected assign
  load-StoredTree doc resolve path name p j a opened_os os object limit region absent opens_object
        empty opens container all l few small fits truncates maps fresh small_limit grants within =
      let n = expressions (tree_of resolve j) in
      let counts = counted (tree_of resolve j) [] in
      let (c, e, ec, cs) =
        parse-counted env resolve options.csv_prefix options.disable_csv_handling j all few in
      let (s0, allocates, mapped, same) =
        malloc-fresh memory name p opened_os object absent opens_object empty doc (tree_size a n) os
          region truncates maps in
      let (s, s', e1, e2, stored) =
        sax_parse-StoredTree env resolve options.csv_prefix options.disable_rle
          options.disable_csv_handling n a counts region.address (files.contents os region.address)
          j container
          (AllStrings-map (Countable env resolve options.csv_prefix options.disable_csv_handling)
            (Resolved env resolve options.csv_prefix options.disable_csv_handling) (λ v h. h.0) j
            all)
          (planned env resolve options.csv_prefix options.disable_rle options.disable_csv_handling
            region.address (files.contents os region.address) j a container l few small fits)
          fresh in
      let writes =
        writes_block j n counts region.address (files.contents os region.address) e1 e2 in
      let p0 = opened memory name p opened_os object in
      let (out, grows, held) =
        reallocate_all-Held memory doc object limit (reallocations s'.root)
          (assign memory p.next_identity os s0 p0) region.address (tree_size a n) grants
          (reallocations-AllWithin limit s'.root small_limit (within s'.root writes))
          (allocated-Held name p opened_os os object region.address (tree_size a n) s0 mapped
            same) in
      (
        s'.root,
        out,
        rw
            (select_segment-fresh memory name p opened_os object absent opens_object empty
              options.force_reload)
            (ap (λ r. r >>= λ (p', address, root). ok (encoded p' address root))
              (reads p0 opens (encodes j p0 e n ec cs l allocates writes grows))),
        stored,
        held,
      )
