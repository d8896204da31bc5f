-- ===== src/Server/Paths/Kinds.antt =====
-- Source/WisentServer.cpp: the parts of a path.
use wisent.Prelude.{
  ℕ, ◌≡◌, refl, ◌∙◌, ap, true, none, some, [], ◌∷◌, ◌++◌, Bytes, codes, ok, take, length,
  drop-append, bytes_eq,
}
use wisent.Csv.{find_last_of, contains}
use wisent.Server.Paths.{behind, separators, filename_of, csv_prefix_of, json_file, kind_of}

take-append : (xs ys : Bytes) → take (length xs) (xs ++ ys) ≡ xs
take-append [] ys = refl
take-append (x ∷ xs) ys = ap (◌∷◌ x) (take-append xs ys)

-- A text without any of the characters changes nothing.
find_last_of-append :
    (chars xs ys : Bytes)
    → find_last_of chars ys ≡ none
    → find_last_of chars (xs ++ ys) ≡ find_last_of chars xs
unfolding find_last_of
find_last_of-append chars [] ys clear = clear
find_last_of-append chars (x ∷ xs) ys clear = rw (find_last_of-append chars xs ys clear) refl

-- The last of the characters, in front of such a text.
find_last_of-here :
    (chars xs : Bytes) (c : ℕ) (ys : Bytes)
    → contains chars c ≡ true
    → find_last_of chars ys ≡ none
    → find_last_of chars (xs ++ c ∷ ys) ≡ some (length xs)
unfolding find_last_of
find_last_of-here chars [] c ys is_one clear = rw (clear, is_one) refl
find_last_of-here chars (x ∷ xs) c ys is_one clear =
    rw (find_last_of-here chars xs c ys is_one clear) refl

-- A directory is empty, or ends in a separator.
abbrev pub IsDirectory : Bytes → Type 0
IsDirectory directory = behind (find_last_of separators directory) ≡ length directory

module _ (directory filename : Bytes) (is : IsDirectory directory)
    (clear : find_last_of separators filename ≡ none) where
  filename_of-append : filename_of (directory ++ filename) ≡ filename
  unfolding filename_of
  filename_of-append =
      rw (find_last_of-append separators directory filename clear, is)
        (drop-append directory filename)

  csv_prefix_of-append : csv_prefix_of (directory ++ filename) ≡ directory
  unfolding csv_prefix_of
  csv_prefix_of-append =
      rw (find_last_of-append separators directory filename clear, is)
        (take-append directory filename)

-- The path of a JSON file is taken apart as it was put together: a directory (none, or one that ends
-- in a separator), a name without separators, dots allowed, and `.json`.
pub kind_of-json_file :
    (directory name : Bytes)
    → IsDirectory directory
    → find_last_of separators name ≡ none
    → kind_of (directory ++ (name ++ codes ".json")) ≡ ok (json_file name directory)
unfolding kind_of find_last_of contains bytes_eq
kind_of-json_file directory name is clear =
    let no_separator : find_last_of separators (name ++ codes ".json") ≡ none =
      find_last_of-append separators name (codes ".json") refl ∙ clear in
    rw
      (
        filename_of-append directory (name ++ codes ".json") is no_separator,
        csv_prefix_of-append directory (name ++ codes ".json") is no_separator,
        find_last_of-here (codes ".") name b'.' (codes "json") refl refl,
        drop-append name (codes ".json"),
        take-append name (codes ".json"),
      )
      refl
