-- ===== src/Tests/Manifests.antt =====
-- A manifest that is saved and loaded again. The hash of a body stands for SHA-256.
use starfield_datastore.Prelude.{
  ◌≡◌, refl, true, Option, none, some, List, [], ◌∷◌, map, replicate, all, Bytes, codes, eq_bytes,
}
use starfield_datastore.Error.{ok, err}
use starfield_datastore.Key.{
  prepend, split_slash, is_ascii_alphanumeric, is_key_mark, bad_part, bad_key,
}
use starfield_datastore.Check.{
  ContentCheck, sha256_is, magic, min_bytes, all_of, nil, cons, check_body,
}
use starfield_datastore.Artifact.{Artifact, immutable}
use starfield_datastore.Fetch.{Url}
use starfield_datastore.Store.Layout.{is_digest}
use starfield_datastore.Manifest.{split_pin, validate_digest}
use starfield_datastore.Manifest.Utf8.{is_utf8}
use starfield_datastore.Manifest.Toml.{encode_check, encode_prefix, encode_prefixes, encode_bytes}
use starfield_datastore.Manifest.RoundTrip.{fits}
use starfield_datastore.Manifest.Document.{
  Entry, entry_of, check_pin, validate_url, load_document, save_sources, save_entry, save_entries,
  save_document,
}
use starfield_datastore.Manifest.Reload.{rejoin, reloaded, is_storable, load_document-save_document}

abbrev toy_hash : Bytes → Bytes
toy_hash body = replicate 64 b'a'

abbrev pin : Bytes
pin = replicate 64 b'a'

abbrev parse : Bytes → Option Url
parse raw = some (record {
  scheme = codes "https";
  username = [];
  password = none;
  host = some (codes "a.test");
  rest = raw;
})

-- A pin, a check on a prefix that is no text, and a size.
abbrev finals : Artifact
finals = record {
  key = codes "f";
  sources = record { url = codes "https://a.test/f"; trust_redirects = true } ∷ [];
  check =
      all_of
        (cons (sha256_is pin) (cons (magic ((0xff ∷ 1 ∷ []) ∷ []) true) (cons (min_bytes 2) nil)));
  freshness = immutable;
  provenance = record { description = []; license = codes "CC0"; citation = none };
  expected_bytes = some 4;
}

saved : List Entry
saved = elim (save_document parse (finals ∷ [])) [ ok es ↦ es | err e ↦ [] ]

saves : save_document parse (finals ∷ []) ≡ ok saved
unfolding saved save_entries save_entry save_sources entry_of check_pin validate_url validate_digest
    is_digest split_pin encode_check encode_prefix encode_prefixes encode_bytes is_utf8 eq_bytes
saves = refl

finals_storable : all is_storable (finals ∷ []) ≡ true
unfolding fits split_pin bad_key bad_part split_slash prepend is_ascii_alphanumeric is_key_mark
    eq_bytes
finals_storable = refl

load_document-save_document_example :
    (load_document parse saved ≡ ok (map reloaded (finals ∷ [])))
    × ((c : ContentCheck) (body : Bytes)
        → check_body toy_hash (rejoin (split_pin c).0 (split_pin c).1) body
          ≡ check_body toy_hash c body)
load_document-save_document_example =
    load_document-save_document toy_hash parse (finals ∷ []) saved saves finals_storable
