-- ===== src/Config/Texts.antt =====
-- Texts of src/config.rs: switches, mirrors and paths. A path is its text, joined as on Unix.
use starfield_datastore.Prelude.{
  String, Bool, true, false, not, ◌||◌, Option, none, some, [], ◌∷◌, ◌++◌, map, ◌==◌, if◌then◌else◌,
  is_empty, any, Bytes, codes, eq_bytes, starts_with,
}
use starfield_datastore.Error.{Result, ok, err, config}
use starfield_datastore.Check.Html.{to_ascii_lowercase}
use starfield_datastore.CredentialConfig.{trim}

abbrev pub invalid {ℓ} : {A : Type ℓ} → String → Result A
invalid message = err (config message)

-- `Option::or`
abbrev pub or_option {ℓ} : {A : Type ℓ} → Option A → Option A → Option A
or_option none o = o
or_option (some a) o = some a

abbrev pub is_some {ℓ} : {A : Type ℓ} → Option A → Bool
is_some none = false
is_some (some a) = true

-- `parse_bool`
unfoldable pub parse_bool : Bytes → Result Bool
parse_bool raw =
    let word = map to_ascii_lowercase (trim raw) in
    if any (eq_bytes word) (codes "1" ∷ codes "true" ∷ codes "yes" ∷ codes "on" ∷ [])
    then ok true
    else if any (eq_bytes word) (codes "0" ∷ codes "false" ∷ codes "no" ∷ codes "off" ∷ [])
    then ok false
    else invalid "must be 1/0, true/false, yes/no or on/off"

-- `str::split_once('/')`, with the whole text and nothing where there is none
unfoldable pub split_once_slash : Bytes → Bytes × Bytes
split_once_slash [] = ([], [])
split_once_slash (c ∷ s) =
    let (before, after) = split_once_slash s in if c == b'/' then ([], s) else (c ∷ before, after)

unfoldable pub ends_with_slash : Bytes → Bool
ends_with_slash [] = false
ends_with_slash (c ∷ s) = if is_empty s then c == b'/' else ends_with_slash s

abbrev pub is_relative : Bytes → Bool
is_relative path = not (starts_with path (codes "/"))

-- `Path::join`
unfoldable pub join : Bytes → Bytes → Bytes
join base path =
    if not (is_relative path)
    then path
    else if is_empty base || ends_with_slash base
    then base ++ path
    else base ++ (b'/' ∷ path)
