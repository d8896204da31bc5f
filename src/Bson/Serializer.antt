-- ===== src/Bson/Serializer.antt =====
-- Source/BsonSerializer.cpp: `loadAsBson`, `loadAsJson`, `unload` and `free`.
use wisent.Prelude.{
  ℕ, Bool, Option, none, some, Bytes, Result, ok, assertion_failed, ◌>>=◌, ◌>>◌, guard, length,
  if◌then◌else◌,
}
use wisent.Json.{Json}
use wisent.Csv.{Environment}
use wisent.Segment.{
  SharedMemory, Process, create_or_get_memory_segment, dereference, assign, loaded, unload,
  base_address, erase, erase_name, set_current_shared_memory,
}
use wisent.Bson.Objects.{Objects}
use wisent.Bson.Document.{load}
use wisent.Bson.Allocator.{new_allocator, allocate}
pub mod Outcomes
pub mod Caching

-- nlohmann::json: its objects; what the parser makes of a file's text, given a callback on values, if the
-- file opens; `json::to_bson` and `operator<<`.
pub record Library : Type 0 where
  pub objects : Objects
  pub open_file : Bytes → Option ((Json → Result Json) → Result Json)
  pub to_bson : Json → Result Bytes
  pub to_text : Json → Result Bytes

pub record Options : Type 0 where
  pub csv_prefix : Bytes
  pub disable_csv_handling : Bool
  pub force_reload : Bool

-- What a call returns: the address of the data that was there; that of the bytes that it has stored; or
-- the text, which a string of the standard library then takes.
pub data Loaded (Os : Type 0) : Type 0 where
  present : Process Os → (address : ℕ) → Loaded Os
  stored : Process Os → (address : ℕ) → (data_stored : Bytes) → Loaded Os
  text_read : Process Os → Bytes → Loaded Os

module _ {Os : Type 0} (memory : SharedMemory Os) where
  -- `bson::serializer::unload`.
  unfoldable pub unload_data : Bytes → Process Os → Result (Process Os)
  unload_data name p = do
    (p', identity) ← create_or_get_memory_segment memory name p
    s ← dereference memory identity p'
    guard (loaded memory p'.os s) assertion_failed
    ok (assign memory identity p'.os (unload memory s) p')

  -- `bson::serializer::free`.
  unfoldable pub free_data : Bytes → Process Os → Result (Process Os)
  free_data name p = do
    (p', identity) ← create_or_get_memory_segment memory name p
    s ← dereference memory identity p'
    let (os, s') = erase memory p'.os s
    let p'' = assign memory identity os s' p'
    ok (record p'' { segments = erase_name name p''.segments })

  -- Up to the current segment: the address of data that is there, or none, if it is to be read.
  unfoldable pub select :
      Bytes → (force_reload : Bool) → Process Os → Result (Process Os × Option ℕ)
  unfolding free_data
  select name force_reload p = do
    (p1, identity) ← create_or_get_memory_segment memory name p
    s ← dereference memory identity p1
    if loaded memory p1.os s
        then (if force_reload
            then (do
              p2 ← free_data name p1
              ok (set_current_shared_memory memory identity p2, none))
            else (do address ← base_address memory p1.os s; ok (p1, some address)))
        else ok (set_current_shared_memory memory identity p1, none)

  module _ (library : Library) (env : Environment) (options : Options) where
    -- The vector takes the bytes through its allocator, in one allocation.
    unfoldable pub store : Json → Process Os → Result (Loaded Os)
    store j p = do
      bytes ← library.to_bson j
      (a, p', address) ← allocate memory 1 (length bytes) new_allocator p
      ok (stored p' address bytes)

    unfoldable pub write : Json → Process Os → Result (Loaded Os)
    write j p = do text ← library.to_text j; ok (text_read p text)

    unfoldable pub load_selected :
        (Json → Process Os → Result (Loaded Os))
        → (path : Bytes) → Process Os
        → Option ℕ
        → Result (Loaded Os)
    load_selected put path p (some address) = ok (present p address)
    load_selected put path p none = do
      j ←
          load library.objects env options.csv_prefix options.disable_csv_handling library.open_file
            path
      put j p

    unfoldable pub load_as_bson : (path name : Bytes) → Process Os → Result (Loaded Os)
    unfolding select load_selected store
    load_as_bson path name p = do
      (p', found) ← select name options.force_reload p
      load_selected store path p' found

    unfoldable pub load_as_json : (path name : Bytes) → Process Os → Result (Loaded Os)
    unfolding select load_selected write
    load_as_json path name p = do
      (p', found) ← select name options.force_reload p
      load_selected write path p' found
