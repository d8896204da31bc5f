-- ===== src/Server/Options.antt =====
-- Source/WisentServer.cpp: the loop over the command line, and the values of options.
use wisent.Prelude.{
  ℕ, zero, suc, ◌+◌, ◌-◌, ◌^◌, Bool, true, false, ◌||◌, List, [], ◌∷◌, ◌++◌, Bytes, codes, Result,
  ok, err, out_of_bounds, ◌>>=◌, if◌then◌else◌, ◌==◌, ltb, leb, drop, bytes_eq,
}
use wisent.Prelude.Int.{ℤ, pos, negsuc}
use wisent.Csv.{blanks, digits, is_empty}
pub mod Described

-- The variables that the loop sets.
pub record Settings : Type 0 where
  pub http_port : ℤ
  pub force_reload : Bool
  pub disable_rle : Bool
  pub disable_csv_handling : Bool
  pub load_arg_as_json : Bool
  pub load_arg_as_bson : Bool
  pub filepaths : List Bytes

unfoldable pub initial_settings : Settings
initial_settings = record {
  http_port = pos 3000;
  force_reload = false;
  disable_rle = false;
  disable_csv_handling = false;
  load_arg_as_json = false;
  load_arg_as_bson = false;
  filepaths = [];
}

-- An `int`; `atoi` of a number that is none is undefined.
unfoldable pub signed_int : (negative : Bool) → ℕ → Result ℤ
signed_int false n = if ltb n (2 ^ 31) then ok (pos n) else err out_of_bounds
signed_int true zero = ok (pos 0)
signed_int true (suc n) = if ltb n (2 ^ 31) then ok (negsuc n) else err out_of_bounds

unfoldable pub atoi_sign : Bytes → Result ℤ
unfolding digits signed_int
atoi_sign [] = ok (pos 0)
atoi_sign (c ∷ cs) =
    if c == b'-'
    then signed_int true (digits 0 0 cs).0
    else if c == b'+'
    then signed_int false (digits 0 0 cs).0
    else signed_int false (digits 0 0 (c ∷ cs)).0

-- `atoi`: the number behind the blanks, or 0.
unfoldable pub atoi : Bytes → Result ℤ
unfolding blanks atoi_sign
atoi str = atoi_sign (drop (blanks str) str)

unfoldable pub is_positive : ℤ → Bool
is_positive (pos n) = ltb 0 n
is_positive (negsuc n) = false

-- `str.empty() || str == "True" || str == "true" || atoi(str.c_str()) > 0`.
unfoldable pub is_true : Bytes → Result Bool
unfolding atoi is_positive is_empty
is_true str =
    if is_empty str || (bytes_eq str (codes "True") || bytes_eq str (codes "true"))
    then ok true
    else (do number ← atoi str; ok (is_positive number))

-- An argument that takes no value.
unfoldable pub set_option : Settings → Bytes → Settings
set_option s arg =
    if bytes_eq arg (codes "--force-reload")
    then record s { force_reload = true }
    else if bytes_eq arg (codes "--disable-rle")
    then record s { disable_rle = true }
    else if bytes_eq arg (codes "--disable-csv-handling")
    then record s { disable_csv_handling = true }
    else if bytes_eq arg (codes "--load-as-json")
    then record s { load_arg_as_json = true }
    else if bytes_eq arg (codes "--load-as-bson")
    then record s { load_arg_as_bson = true }
    else record s { filepaths = s.filepaths ++ arg ∷ [] }

abbrev pub is_http_port : Bytes → Bool
is_http_port arg = bytes_eq arg (codes "--http-port")

-- The loop. Behind the last argument there is a null pointer, of which `atoi` is undefined.
unfoldable pub parse_arguments : Settings → List Bytes → Result Settings
unfolding set_option atoi
parse_arguments s [] = ok s
parse_arguments s (arg ∷ []) = if is_http_port arg then err out_of_bounds else ok (set_option s arg)
parse_arguments s (arg ∷ value ∷ args) =
    let with_value = atoi value >>= λ port. parse_arguments (record s { http_port = port }) args in
    let without = parse_arguments (set_option s arg) (value ∷ args) in
    if is_http_port arg then with_value else without
