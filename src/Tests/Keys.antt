-- ===== src/Tests/Keys.antt =====
-- Keys, checks and manifests at concrete inputs. The hash of a body stands for SHA-256.
use starfield_datastore.Prelude.{
  ◌+◌, ◌≡◌, refl, ◌≢◌, ◌↔◌, true, some, [], ◌∷◌, length, take, replicate, Bytes, codes, eq_bytes,
  starts_with, contains,
}
use starfield_datastore.Error.{ok, err, invalid_key}
use starfield_datastore.Key.{
  ArtifactKey, prepend, split_slash, is_ascii_alphanumeric, is_key_mark, bad_part, bad_key,
  trim_end_slash, trim_start_slash, trim_slashes, mirror_path,
}
use starfield_datastore.Key
use starfield_datastore.Key.Shape.{descend, new-descend}
use starfield_datastore.Check.{
  ContentCheck, sha256_is, magic, min_bytes, all_of, nil, cons, pass, is_ascii_whitespace,
  scan_first, longest, magic_head, check_magic, check_prefix, check_body, pinned_sha256s,
  without_sha256,
}
use starfield_datastore.Check.Html.{
  to_ascii_lowercase, trim_bom, is_space, is_space2, is_space3, trim_start, looks_html, is_html,
}
use starfield_datastore.Check.Prefix.{check_prefix-take}
use starfield_datastore.Check.Pins.{all_pins, check_body-split}
use starfield_datastore.Artifact.{Artifact, new_artifact}
use starfield_datastore.Store.Layout.{is_digest}
use starfield_datastore.Manifest.{
  get, merge, validate_digest, ensure_compatible_pin, split_pin, pin_check, pin_entry, pin_sha256,
}
use starfield_datastore.Manifest.Merge.{or_else, get_last, get-merge}
use starfield_datastore.Manifest.Pin.{Pinned, pin_sha256-Pinned}

abbrev toy_hash : Bytes → Bytes
toy_hash body = replicate 64 b'a'

abbrev eop : ArtifactKey
eop = codes "eop/finals.txt"

eop-accepted : Key.new eop ≡ ok eop
unfolding Key.new bad_key bad_part split_slash prepend is_ascii_alphanumeric is_key_mark eq_bytes
eop-accepted = refl

climb-refused : Key.new (codes "eop/../../x") ≡ err invalid_key
unfolding Key.new bad_key bad_part split_slash prepend is_ascii_alphanumeric is_key_mark eq_bytes
climb-refused = refl

new-descend_example : descend (split_slash eop) 3 ≡ some (3 + length (split_slash eop))
new-descend_example = new-descend eop eop 3 eop-accepted

page-IsHtml : is_html (codes " <HTML>") ≡ true
unfolding is_html looks_html trim_start trim_bom to_ascii_lowercase is_space is_space2 is_space3
    starts_with contains
page-IsHtml = refl

abbrev sized : ContentCheck
sized = all_of (cons (magic (codes "abc" ∷ []) true) (cons (min_bytes 4) nil))

sized-passes : check_body toy_hash sized (codes "  abcd") ≡ pass
unfolding check_body check_magic magic_head longest scan_first is_ascii_whitespace starts_with
sized-passes = refl

check_prefix-take_example : check_prefix sized (take 3 (codes "  abcd")) ≡ pass
check_prefix-take_example = check_prefix-take toy_hash sized 3 (codes "  abcd") sized-passes

abbrev pinned : ContentCheck
pinned = all_of (cons (sha256_is (replicate 64 b'a')) (cons (min_bytes 4) nil))

check_body-split_example : (check_body toy_hash pinned (codes "abcd") ≡ pass) ↔ (
    (all_pins (replicate 64 b'a') (pinned_sha256s pinned) ≡ true)
    × (check_body toy_hash (without_sha256 pinned) (codes "abcd") ≡ pass))
check_body-split_example = check_body-split toy_hash pinned (codes "abcd")

abbrev finals : Artifact
finals = record (new_artifact eop []) { check = min_bytes 4 }

abbrev finals_pinned : Artifact
finals_pinned = record finals {
  check = all_of (cons (sha256_is (replicate 64 b'a')) (cons (min_bytes 4) nil));
}

finals-pin : pin_sha256 eop (replicate 64 b'a') (finals ∷ []) ≡ ok (finals_pinned ∷ [])
unfolding pin_sha256 validate_digest is_digest pin_entry pin_check ensure_compatible_pin split_pin
    eq_bytes
finals-pin = refl

pin_sha256-Pinned_example :
    (a : Artifact) × (c : ContentCheck) × (get eop (finals ∷ []) ≡ some a)
    × (get eop (finals_pinned ∷ []) ≡ some (record a { check = c }))
    × Pinned toy_hash (replicate 64 b'a') a.check c
    × ((j : ArtifactKey) → j ≢ eop → get j (finals_pinned ∷ []) ≡ get j (finals ∷ []))
pin_sha256-Pinned_example =
    pin_sha256-Pinned toy_hash eop (replicate 64 b'a') (finals ∷ []) (finals_pinned ∷ []) finals-pin

get-merge_example :
    get eop (merge (finals ∷ []) (finals_pinned ∷ []))
    ≡ or_else (get_last eop (finals_pinned ∷ [])) (get eop (finals ∷ []))
get-merge_example = get-merge eop (finals ∷ []) (finals_pinned ∷ [])
