-- ===== src/CredentialConfig/Source.antt =====
-- src/credential_config.rs: where a credential comes from, read from and written to the fields of an
-- entry. A field's value is what the serde crates make of it; a map lists its keys once each.
use starfield_datastore.Prelude.{
  String, Bool, true, false, not, ◌&&◌, ◌||◌, Option, none, some, List, [], ◌∷◌, if◌then◌else◌, any,
  Bytes, codes, eq_bytes, starts_with,
}
use starfield_datastore.Error.{Result, ok, err, ◌>>=◌, config}

mutual
  -- `serde_json::Value`; a number is its text.
  pub data Json : Type 0 where
    text : Bytes → Json
    array : Items → Json
    object : Fields → Json
    number : Bytes → Json
    boolean : Bool → Json
    null : Json

  pub data Items : Type 0 where
    no_items : Items
    item : Json → Items → Items

  pub data Fields : Type 0 where
    end : Fields
    field : Bytes → Json → Fields → Fields

pub data CredentialSource : Type 0 where
  env : Bytes → CredentialSource
  basic_auth : Bytes → Bytes → CredentialSource
  netrc : CredentialSource
  one_password : Bytes → CredentialSource
  unrecognized : Json → CredentialSource

pub record CredentialConfig : Type 0 where
  pub name : Bytes
  pub hosts : List Bytes
  pub source : CredentialSource

unfoldable pub find_field : Bytes → Fields → Option Json
find_field k end = none
find_field k (field j v fs) = if eq_bytes j k then some v else find_field k fs

unfoldable pub has_field : Bytes → Fields → Bool
has_field k end = false
has_field k (field j v fs) = eq_bytes j k || has_field k fs

unfoldable pub remove_field : Bytes → Fields → Fields
remove_field k end = end
remove_field k (field j v fs) =
    let rest = remove_field k fs in if eq_bytes j k then rest else field j v rest

abbrev kind_text : Option Json → Bytes
kind_text (some (text kind)) = kind
kind_text _ = codes "<missing>"

-- `kind_of` and `CredentialSource::kind`
unfoldable pub kind_of : CredentialSource → Bytes
kind_of (env variable) = codes "env"
kind_of (basic_auth username password_env) = codes "basic"
kind_of netrc = codes "netrc"
kind_of (one_password reference) = codes "onepassword"
kind_of (unrecognized (object fs)) = kind_text (find_field (codes "type") fs)
kind_of (unrecognized raw) = codes "<missing>"

abbrev invalid {ℓ} : {A : Type ℓ} → String → Result A
invalid message = err (config message)

unfoldable mutual
  -- `contains_toml_datetime`
  pub contains_datetime : Json → Bool
  contains_datetime (object fs) = datetime_fields fs
  contains_datetime (array vs) = datetime_items vs
  contains_datetime (text s) = false
  contains_datetime (number n) = false
  contains_datetime (boolean b) = false
  contains_datetime null = false

  pub datetime_fields : Fields → Bool
  datetime_fields end = false
  datetime_fields (field k v fs) =
      starts_with k (codes "$__toml_private_") || (contains_datetime v || datetime_fields fs)

  pub datetime_items : Items → Bool
  datetime_items no_items = false
  datetime_items (item v vs) = contains_datetime v || datetime_items vs

abbrev pub is_known_kind : Bytes → Bool
is_known_kind kind =
    eq_bytes kind (codes "env")
    || (eq_bytes kind (codes "basic")
        || (eq_bytes kind (codes "netrc") || eq_bytes kind (codes "onepassword")))

-- `LITERAL_SECRET_KEYS`
abbrev pub has_literal_secret : Fields → Bool
has_literal_secret fs =
    has_field (codes "password") fs
    || (has_field (codes "token") fs
        || (has_field (codes "secret") fs || has_field (codes "api_key") fs))

-- `deny_unknown_fields`: every key is one of these.
unfoldable pub only_fields : List Bytes → Fields → Bool
only_fields ks end = true
only_fields ks (field j v fs) = any (eq_bytes j) ks && only_fields ks fs

abbrev pub text_of : Option Json → Result Bytes
text_of (some (text s)) = ok s
text_of _ = invalid "missing field or not a string"

-- The fields of a known kind, without its type.
unfoldable pub decode_known : Bytes → Fields → Result CredentialSource
decode_known kind fs =
    if eq_bytes kind (codes "env")
    then (if only_fields (codes "variable" ∷ []) fs
        then (text_of (find_field (codes "variable") fs) >>= λ v. ok (env v))
        else invalid "unknown field")
    else if eq_bytes kind (codes "basic")
    then (if only_fields (codes "username" ∷ codes "password_env" ∷ []) fs
        then (text_of (find_field (codes "username") fs) >>= λ u.
            text_of (find_field (codes "password_env") fs) >>= λ p. ok (basic_auth u p))
        else invalid "unknown field")
    else if eq_bytes kind (codes "netrc")
    then (if only_fields [] fs then ok netrc else invalid "unknown field")
    else if only_fields (codes "reference" ∷ []) fs
    then (text_of (find_field (codes "reference") fs) >>= λ r. ok (one_password r))
    else invalid "unknown field"

unfoldable pub decode_kind : Bytes → Fields → Result CredentialSource
decode_kind kind raw =
    if not (is_known_kind kind)
    then (if datetime_fields raw
        then invalid "datetime values are not supported in credential entries"
        else ok (unrecognized (object raw)))
    else if has_literal_secret raw
    then invalid "carries a literal secret"
    else decode_known kind (remove_field (codes "type") raw)

abbrev pub decode_type : Option Json → Fields → Result CredentialSource
decode_type none raw = invalid "has no `type`"
decode_type (some (text kind)) raw = decode_kind kind raw
decode_type (some v) raw = invalid "`type` must be a string"

-- `decode_source`
unfoldable pub decode_source : Fields → Result CredentialSource
decode_source raw = decode_type (find_field (codes "type") raw) raw

unfoldable pub texts_of : Items → Result (List Bytes)
texts_of no_items = ok []
texts_of (item (text s) vs) = texts_of vs >>= λ rest. ok (s ∷ rest)
texts_of (item v vs) = invalid "not a string"

abbrev pub hosts_of : Option Json → Result (List Bytes)
hosts_of none = ok []
hosts_of (some (array vs)) = texts_of vs
hosts_of (some v) = invalid "hosts must be a list"

abbrev pub rest_of : Fields → Fields
rest_of fs = remove_field (codes "hosts") (remove_field (codes "name") fs)

-- `CredentialConfig::deserialize`, through the `Envelope`
unfoldable pub deserialize : Fields → Result CredentialConfig
deserialize fs = do
  name ← text_of (find_field (codes "name") fs)
  hosts ← hosts_of (find_field (codes "hosts") fs)
  source ← decode_source (rest_of fs)
  ok (record { name = name; hosts = hosts; source = source })

unfoldable pub items_of : List Bytes → Items
items_of [] = no_items
items_of (s ∷ rest) = item (text s) (items_of rest)

abbrev type_field : String → Fields → Fields
type_field kind fs = field (codes "type") (text (codes kind)) fs

-- What the source adds to the map.
unfoldable pub source_fields : CredentialSource → Result Fields
source_fields (env v) = ok (type_field "env" (field (codes "variable") (text v) end))
source_fields (basic_auth u p) = ok (
    type_field "basic"
      (field (codes "username") (text u) (field (codes "password_env") (text p) end)))
source_fields netrc = ok (type_field "netrc" end)
source_fields (one_password r) =
    ok (type_field "onepassword" (field (codes "reference") (text r) end))
source_fields (unrecognized (object fs)) =
    if has_field (codes "name") fs || has_field (codes "hosts") fs
    then invalid "unrecognised source must not carry a name or hosts key"
    else ok fs
source_fields (unrecognized raw) = invalid "unrecognised source is not a table"

-- `CredentialConfig::serialize`, into the serializer that takes the map
unfoldable pub serialize : {A : Type 0} → (Fields → Result A) → CredentialConfig → Result A
serialize serializer e = source_fields e.source >>= λ fs.
    serializer
      (field (codes "name") (text e.name) (field (codes "hosts") (array (items_of e.hosts)) fs))
