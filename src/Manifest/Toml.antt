-- ===== src/Manifest/Toml.antt =====
-- src/manifest.rs `parse_check` and `encode_check`: checks as TOML values. A value is what the toml
-- crate has read; a string is its bytes, and a table lists its keys once each.
use starfield_datastore.Prelude.{
  ℕ, suc, ◌^◌, String, Bool, true, false, not, ◌&&◌, ◌||◌, Option, none, some, List, [], ◌∷◌, ltb,
  if◌then◌else◌, is_empty, any, Bytes, codes, eq_bytes,
}
use starfield_datastore.Error.{Result, ok, err, ◌>>=◌, ◌>>◌, manifest}
use starfield_datastore.Check.{
  ContentCheck, sha256_is, magic, min_bytes, not_html, custom, all_of, no_check, Checks, nil, cons,
}
use starfield_datastore.Manifest.{validate_digest}
use starfield_datastore.Manifest.Utf8.{is_utf8}

mutual
  -- `toml::Value`: an integer is not negative, or negative. Floats and dates are `other`.
  pub data Value : Type 0 where
    text : Bytes → Value
    integer : ℕ → Value
    negative : ℕ → Value
    boolean : Bool → Value
    array : Values → Value
    table : Fields → Value
    other : Value

  pub data Values : Type 0 where
    empty : Values
    item : Value → Values → Values

  pub data Fields : Type 0 where
    end : Fields
    field : Bytes → Value → Fields → Fields

abbrev pub invalid {ℓ} : {A : Type ℓ} → String → Result A
invalid message = err (manifest message)

abbrev has_key : Bytes → Fields → Bool
has_key k end = false
has_key k (field j v fs) = eq_bytes j k || has_key k fs

abbrev find_key : Bytes → Fields → Option Value
find_key k end = none
find_key k (field j v fs) = if eq_bytes j k then some v else find_key k fs

-- A named check.
abbrev pub named_check : Bytes → Result ContentCheck
named_check s =
    if eq_bytes s (codes "none")
    then ok no_check
    else if eq_bytes s (codes "not-html")
    then ok not_html
    else invalid "unknown check"

-- `u8::try_from` of each integer of an array.
unfoldable pub parse_bytes : Values → Result Bytes
parse_bytes empty = ok []
parse_bytes (item (integer n) vs) =
    let rest = parse_bytes vs in
    if ltb n 256 then (rest >>= λ bs. ok (n ∷ bs)) else invalid "magic byte out of range"
parse_bytes (item v vs) = invalid "magic byte out of range"

unfoldable pub parse_prefix : Value → Result Bytes
parse_prefix (text s) = ok s
parse_prefix (array vs) = parse_bytes vs
parse_prefix v = invalid "magic prefix must be text or a byte array"

unfoldable pub parse_prefixes : Values → Result (List Bytes)
parse_prefixes empty = ok []
parse_prefixes (item v vs) = parse_prefix v >>= λ p. parse_prefixes vs >>= λ ps. ok (p ∷ ps)

abbrev array_of : Option Value → Result Values
array_of (some (array vs)) = ok vs
array_of v = invalid "magic must be an array"

-- The field `trim_leading_whitespace`, false where it is missing.
abbrev trim_of : Option Value → Result Bool
trim_of none = ok false
trim_of (some (boolean b)) = ok b
trim_of (some v) = invalid "trim_leading_whitespace must be boolean"

abbrev is_magic_field : Bytes → Bool
is_magic_field k = eq_bytes k (codes "magic") || eq_bytes k (codes "trim_leading_whitespace")

abbrev all_magic_fields : Fields → Bool
all_magic_fields end = true
all_magic_fields (field k v fs) = is_magic_field k && all_magic_fields fs

-- A table with the key `magic`.
unfoldable pub parse_magic : Fields → Result ContentCheck
parse_magic fs = if not (all_magic_fields fs) then invalid "unknown magic-check field" else (do
  vs ← array_of (find_key (codes "magic") fs)
  prefixes ← parse_prefixes vs
  (if is_empty prefixes || any is_empty prefixes
      then invalid "magic requires nonempty prefixes"
      else (do
        trim ← trim_of (find_key (codes "trim_leading_whitespace") fs)
        ok (magic prefixes trim))))

abbrev unknown_variant : Result ContentCheck
unknown_variant = invalid "unknown or invalid declarative check"

abbrev flag_variant : ContentCheck → Value → Result ContentCheck
flag_variant c (boolean true) = ok c
flag_variant c v = unknown_variant

abbrev sha256_variant : Value → Result ContentCheck
sha256_variant (text digest) = validate_digest digest >> ok (sha256_is digest)
sha256_variant v = invalid "sha256 must be text"

abbrev min_bytes_variant : Value → Result ContentCheck
min_bytes_variant (integer n) = ok (min_bytes n)
min_bytes_variant v = invalid "min_bytes must be nonnegative"

-- The variants of a table with one key that hold no further check.
unfoldable pub simple_variant : Bytes → Value → Result ContentCheck
simple_variant name v =
    if eq_bytes name (codes "none")
    then flag_variant no_check v
    else if eq_bytes name (codes "not_html")
    then flag_variant not_html v
    else if eq_bytes name (codes "sha256")
    then sha256_variant v
    else if eq_bytes name (codes "min_bytes")
    then min_bytes_variant v
    else unknown_variant

abbrev collect_all : Result Checks → Result ContentCheck
collect_all r = r >>= λ cs. ok (all_of cs)

unfoldable mutual
  -- `parse_check`, at a depth of nesting
  pub parse_check : Value → ℕ → Result ContentCheck
  parse_check (text s) depth =
      if ltb 32 depth then invalid "checks are nested too deeply" else named_check s
  parse_check (table fs) depth =
      let body = parse_table fs depth in
      if ltb 32 depth then invalid "checks are nested too deeply" else body
  parse_check v depth =
      if ltb 32 depth
      then invalid "checks are nested too deeply"
      else invalid "check must be a table or named check"

  pub parse_table : Fields → ℕ → Result ContentCheck
  parse_table end depth = invalid "a check must contain exactly one variant"
  parse_table (field name v end) depth =
      let one = parse_variant v depth name in
      if eq_bytes name (codes "magic") then parse_magic (field name v end) else one
  parse_table (field name v (field name' v' fs)) depth =
      if has_key (codes "magic") (field name v (field name' v' fs))
      then parse_magic (field name v (field name' v' fs))
      else invalid "a check must contain exactly one variant"

  pub parse_variant : Value → ℕ → Bytes → Result ContentCheck
  parse_variant (array vs) depth name =
      let inner = parse_all vs (suc depth) in
      if eq_bytes name (codes "all") then collect_all inner else simple_variant name (array vs)
  parse_variant v depth name =
      if eq_bytes name (codes "all") then invalid "all must be an array" else simple_variant name v

  pub parse_all : Values → ℕ → Result Checks
  parse_all empty depth = ok nil
  parse_all (item v vs) depth =
      parse_check v depth >>= λ c. parse_all vs depth >>= λ cs. ok (cons c cs)

-- The integers of a byte string.
unfoldable pub encode_bytes : Bytes → Values
encode_bytes [] = empty
encode_bytes (b ∷ bs) = item (integer b) (encode_bytes bs)

unfoldable pub encode_prefix : Bytes → Value
encode_prefix p = if is_utf8 p then text p else array (encode_bytes p)

unfoldable pub encode_prefixes : List Bytes → Values
encode_prefixes [] = empty
encode_prefixes (p ∷ ps) = item (encode_prefix p) (encode_prefixes ps)

abbrev single : String → Value → Value
single name v = table (field (codes name) v end)

unfoldable mutual
  -- `encode_check`
  pub encode_check : ContentCheck → Result Value
  encode_check no_check = ok (single "none" (boolean true))
  encode_check not_html = ok (single "not_html" (boolean true))
  encode_check (min_bytes n) =
      if ltb n (2 ^ 63)
      then ok (single "min_bytes" (integer n))
      else invalid "min_bytes exceeds TOML integer range"
  encode_check (sha256_is digest) = validate_digest digest >> ok (single "sha256" (text digest))
  encode_check (all_of checks) = encode_all checks >>= λ vs. ok (single "all" (array vs))
  encode_check (magic prefixes trim) =
      if is_empty prefixes || any is_empty prefixes
      then invalid "magic requires nonempty prefixes"
      else ok (
          table (
            field (codes "magic") (array (encode_prefixes prefixes))
              (field (codes "trim_leading_whitespace") (boolean trim) end)))
  encode_check (custom f) = invalid "custom predicates cannot appear in manifests"

  pub encode_all : Checks → Result Values
  encode_all nil = ok empty
  encode_all (cons c cs) = encode_check c >>= λ v. encode_all cs >>= λ vs. ok (item v vs)
