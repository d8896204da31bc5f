-- ===== src/Server/Paths.antt =====
-- Source/WisentServer.cpp: what the path of a file says: the directory, the name and the kind.
use wisent.Prelude.{
  ℕ, suc, ◌+◌, ◌≡◌, refl, ◌∙◌, sym, ap, Bool, true, false, ◌||◌, Option, none, some, List, [], ◌∷◌,
  ◌++◌, Bytes, codes, Result, ok, out_of_range, ◌>>=◌, or_fail, if◌then◌else◌, take, drop, length,
  bytes_eq, append_assoc, drop-append, length-append, arith,
}
use wisent.Csv.{find_last_of}
pub mod Kinds

-- Where `filename` begins, `filenamePos + 1`: behind `npos` it is 0.
unfoldable pub behind : Option ℕ → ℕ
behind none = 0
behind (some i) = suc i

-- `filepath.find_last_of("/\\")`.
abbrev pub separators : Bytes
separators = b'/' ∷ b'\\' ∷ []

unfoldable pub filename_of : Bytes → Bytes
unfolding behind find_last_of
filename_of filepath = drop (behind (find_last_of separators filepath)) filepath

-- `filepath.substr(0, filenamePos + 1)`.
unfoldable pub csv_prefix_of : Bytes → Bytes
unfolding behind find_last_of
csv_prefix_of filepath = take (behind (find_last_of separators filepath)) filepath

-- What is done with a file of the command line.
pub data Kind : Type 0 where
  json_file : (name csv_prefix : Bytes) → Kind
  csv_file unsupported_file : Kind

-- `substr(extPos)` throws where there is no dot.
unfoldable pub kind_of : Bytes → Result Kind
unfolding filename_of csv_prefix_of find_last_of
kind_of filepath = do
  let filename = filename_of filepath
  position ← or_fail (find_last_of (codes ".") filename) out_of_range
  let extension : Bytes = drop position filename
  ok (
      if bytes_eq extension (codes ".json")
      then json_file (take position filename) (csv_prefix_of filepath)
      else if bytes_eq extension (codes ".csv")
      then csv_file
      else unsupported_file)
