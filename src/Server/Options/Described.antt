-- ===== src/Server/Options/Described.antt =====
-- Source/WisentServer.cpp: what the loop over the command line sets.
use wisent.Prelude.{
  ◌≡◌, refl, ◌∙◌, ap, sym, Bool, true, false, ◌||◌, List, [], ◌∷◌, ◌++◌, Bytes, codes, ok, bytes_eq,
  eq_of_bytes_eq, append_assoc, append-nil, if◌then◌else◌, Bool-cases, inl, inr,
}
use wisent.Server.Options.{Settings, set_option, is_http_port, parse_arguments}

-- Whether an option is given.
unfoldable pub has : (option : Bytes) → List Bytes → Bool
has option [] = false
has option (arg ∷ args) = bytes_eq arg option || has option args

-- The arguments that are no options, in their order.
abbrev is_option : Bytes → Bool
is_option arg =
    bytes_eq arg (codes "--force-reload")
    || (bytes_eq arg (codes "--disable-rle")
        || (bytes_eq arg (codes "--disable-csv-handling")
            || (bytes_eq arg (codes "--load-as-json") || bytes_eq arg (codes "--load-as-bson"))))

unfoldable pub paths : List Bytes → List Bytes
paths [] = []
paths (arg ∷ args) = let rest = paths args in if is_option arg then rest else arg ∷ rest

abbrev settings :
    Settings → (force_reload disable_rle disable_csv json bson : Bool) → List Bytes → Settings
settings s force_reload disable_rle disable_csv json bson filepaths = record s {
  force_reload = force_reload;
  disable_rle = disable_rle;
  disable_csv_handling = disable_csv;
  load_arg_as_json = json;
  load_arg_as_bson = bson;
  filepaths = filepaths;
}

abbrev pub described : Settings → List Bytes → Settings
described s args =
    settings s (s.force_reload || has (codes "--force-reload") args)
      (s.disable_rle || has (codes "--disable-rle") args)
      (s.disable_csv_handling || has (codes "--disable-csv-handling") args)
      (s.load_arg_as_json || has (codes "--load-as-json") args)
      (s.load_arg_as_bson || has (codes "--load-as-bson") args) (s.filepaths ++ paths args)

abbrev pub NoPort : List Bytes → Type 0
NoPort [] = Unit {0}
NoPort (arg ∷ args) = (is_http_port arg ≡ false) × NoPort args

given : (b c : Bool) → (true || c) ≡ (b || (true || c))
given true c = refl
given false c = refl

not_given : (b : Bool) → b ≡ (b || false)
not_given true = refl
not_given false = refl

module _ (s : Settings) {a a' b b' c c' d d' e e' : Bool} {fs fs' : List Bytes} where
  settings-eq :
      a ≡ a'
      → b ≡ b'
      → c ≡ c'
      → d ≡ d'
      → e ≡ e'
      → fs ≡ fs'
      → settings s a b c d e fs ≡ settings s a' b' c' d' e' fs'
  settings-eq pa pb pc pd pe pf =
      ap (λ x. settings s x b c d e fs) pa
      ∙ (ap (λ x. settings s a' x c d e fs) pb
          ∙ (ap (λ x. settings s a' b' x d e fs) pc
              ∙ (ap (λ x. settings s a' b' c' x e fs) pd
                  ∙ (ap (λ x. settings s a' b' c' d' x fs) pe
                      ∙ ap (λ x. settings s a' b' c' d' e' x) pf))))

described-nil : (s : Settings) → s ≡ described s []
unfolding has paths
described-nil s =
    settings-eq s (not_given s.force_reload) (not_given s.disable_rle)
      (not_given s.disable_csv_handling) (not_given s.load_arg_as_json)
      (not_given s.load_arg_as_bson) (sym (append-nil s.filepaths))

set_option-described :
    (s : Settings) (arg : Bytes) (args : List Bytes)
    → described (set_option s arg) args ≡ described s (arg ∷ args)
unfolding set_option has paths bytes_eq
set_option-described s arg args = elim (Bool-cases (bytes_eq arg (codes "--force-reload"))) [
  | inl e ↦ rw (eq_of_bytes_eq arg (codes "--force-reload") e) (
      settings-eq s (given s.force_reload (has (codes "--force-reload") args)) refl refl refl refl
        refl)
  | inr ne1 ↦ elim (Bool-cases (bytes_eq arg (codes "--disable-rle"))) [
    | inl e ↦ rw (eq_of_bytes_eq arg (codes "--disable-rle") e) (
        settings-eq s refl (given s.disable_rle (has (codes "--disable-rle") args)) refl refl refl
          refl)
    | inr ne2 ↦ elim (Bool-cases (bytes_eq arg (codes "--disable-csv-handling"))) [
      | inl e ↦ rw (eq_of_bytes_eq arg (codes "--disable-csv-handling") e) (
          settings-eq s refl refl
            (given s.disable_csv_handling (has (codes "--disable-csv-handling") args)) refl refl
            refl)
      | inr ne3 ↦ elim (Bool-cases (bytes_eq arg (codes "--load-as-json"))) [
        | inl e ↦ rw (eq_of_bytes_eq arg (codes "--load-as-json") e) (
            settings-eq s refl refl refl
              (given s.load_arg_as_json (has (codes "--load-as-json") args)) refl refl)
        | inr ne4 ↦ elim (Bool-cases (bytes_eq arg (codes "--load-as-bson"))) [
          | inl e ↦ rw (eq_of_bytes_eq arg (codes "--load-as-bson") e) (
              settings-eq s refl refl refl refl
                (given s.load_arg_as_bson (has (codes "--load-as-bson") args)) refl)
          | inr ne5 ↦
              rw (ne1, ne2, ne3, ne4, ne5)
                (settings-eq s refl refl refl refl refl
                  (append_assoc s.filepaths (arg ∷ []) (paths args)))
        ]
      ]
    ]
  ]
]

-- Without `--http-port`, the loop sets each option if it is given anywhere, whatever else is given, and
-- collects the other arguments in their order.
pub parse_arguments-described :
    (s : Settings) (args : List Bytes)
    → NoPort args
    → parse_arguments s args ≡ ok (described s args)
unfolding parse_arguments
parse_arguments-described s [] no_port = ap ok (described-nil s)
parse_arguments-described s (arg ∷ []) (other, no_port) =
    rw other (ap ok (described-nil (set_option s arg) ∙ set_option-described s arg []))
parse_arguments-described s (arg ∷ value ∷ args) (other, no_port) = rw other (
    parse_arguments-described (set_option s arg) (value ∷ args) no_port
    ∙ ap ok (set_option-described s arg (value ∷ args)))
