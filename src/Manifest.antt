-- ===== src/Manifest.antt =====
-- src/manifest.rs: the list of artifacts, their lookup, merging and pinning, and what
-- `from_toml_str` makes of a document that the toml crate has read. `validate_url` reads a URL that
-- the url crate has parsed.
pub mod Merge
pub mod Pin
pub mod Utf8
pub mod Toml
pub mod Document
pub mod RoundTrip
pub mod Reload
use starfield_datastore.Prelude.{
  Bool, false, not, Option, none, some, List, [], ◌∷◌, if◌then◌else◌, Bytes, eq_bytes,
}
use starfield_datastore.Error.{Result, ok, err, ◌>>=◌, manifest}
use starfield_datastore.Key.{ArtifactKey}
use starfield_datastore.Key
use starfield_datastore.Check.{
  ContentCheck, sha256_is, magic, min_bytes, not_html, custom, all_of, no_check, Checks, nil, cons,
}
use starfield_datastore.Artifact.{Artifact}
use starfield_datastore.Store.Layout.{is_digest}

-- `Manifest`: its artifacts in order.
abbrev pub Manifest : Type 0
Manifest = List Artifact

-- `Manifest::get`
unfoldable pub get : ArtifactKey → Manifest → Option Artifact
get key [] = none
get key (a ∷ rest) = if eq_bytes a.key key then some a else get key rest

-- The first entry with the artifact's key is replaced in place; without one, it goes to the end.
unfoldable pub merge_one : Artifact → Manifest → Manifest
merge_one a [] = a ∷ []
merge_one a (b ∷ rest) = if eq_bytes b.key a.key then a ∷ rest else b ∷ merge_one a rest

-- `Manifest::merge`
unfoldable pub merge : Manifest → Manifest → Manifest
merge m [] = m
merge m (a ∷ other) = merge (merge_one a m) other

-- `validate_digest`
unfoldable pub validate_digest : Bytes → Result (Unit {0})
validate_digest digest =
    if is_digest digest
    then ok tt
    else err (manifest "sha256 must be 64 lowercase hexadecimal characters")

unfoldable mutual
  -- `ensure_compatible_pin`
  pub ensure_compatible_pin : ContentCheck → Bytes → Result (Unit {0})
  ensure_compatible_pin (sha256_is existing) digest =
      if not (eq_bytes existing digest)
      then err (manifest "refusing to replace an existing digest pin")
      else ok tt
  ensure_compatible_pin (all_of checks) digest = ensure_compatible_pins checks digest
  ensure_compatible_pin (magic prefixes trim) digest = ok tt
  ensure_compatible_pin (min_bytes n) digest = ok tt
  ensure_compatible_pin not_html digest = ok tt
  ensure_compatible_pin (custom f) digest = ok tt
  ensure_compatible_pin no_check digest = ok tt

  pub ensure_compatible_pins : Checks → Bytes → Result (Unit {0})
  ensure_compatible_pins nil digest = ok tt
  ensure_compatible_pins (cons c cs) digest =
      ensure_compatible_pin c digest >>= λ u. ensure_compatible_pins cs digest

-- What is left of an `All` without its first check.
abbrev pub unwrap_all : Checks → ContentCheck
unwrap_all (cons c nil) = c
unwrap_all nil = all_of nil
unwrap_all (cons c (cons d cs)) = all_of (cons c (cons d cs))

-- `split_pin`
unfoldable pub split_pin : ContentCheck → Option Bytes × ContentCheck
split_pin (sha256_is digest) = (some digest, no_check)
split_pin (all_of (cons (sha256_is digest) rest)) = (some digest, unwrap_all rest)
split_pin check = (none, check)

abbrev pub is_pin : Option Bytes → Bytes → Bool
is_pin none digest = false
is_pin (some pin) digest = eq_bytes pin digest

-- The check that `pin_sha256` leaves an artifact with.
unfoldable pub pin_check : ContentCheck → Bytes → Result ContentCheck
pin_check check digest = do
  u ← ensure_compatible_pin check digest
  ok (
      let (pin, rest) = split_pin check in
      if is_pin pin digest then check else all_of (cons (sha256_is digest) (cons rest nil)))

abbrev pub with_check : Artifact → Result ContentCheck → Manifest → Result Manifest
with_check a (ok c) rest = ok (record a { check = c } ∷ rest)
with_check a (err e) rest = err e

abbrev pub keep_first : Artifact → Result Manifest → Result Manifest
keep_first a (ok rest) = ok (a ∷ rest)
keep_first a (err e) = err e

-- The first artifact with the key, pinned.
unfoldable pub pin_entry : ArtifactKey → Bytes → Manifest → Result Manifest
pin_entry key digest [] = err (manifest "cannot pin unknown key")
pin_entry key digest (a ∷ rest) =
    if eq_bytes a.key key
    then with_check a (pin_check a.check digest) rest
    else keep_first a (pin_entry key digest rest)

-- `Manifest::pin_sha256`: on an error the manifest stays as it was.
unfoldable pub pin_sha256 : ArtifactKey → Bytes → Manifest → Result Manifest
pin_sha256 key digest m = validate_digest digest >>= λ u. pin_entry key digest m
