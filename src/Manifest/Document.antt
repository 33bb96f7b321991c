-- ===== src/Manifest/Document.antt =====
-- src/manifest.rs `from_toml_str` and `to_toml_string`, apart from the toml crate: what the entries
-- of a document mean, and the entries that a manifest is written as.
use starfield_datastore.Prelude.{
  ℕ, Bool, true, false, not, ◌&&◌, ◌||◌, Option, none, some, List, [], ◌∷◌, if◌then◌else◌, is_empty,
  any, Bytes, codes, eq_bytes,
}
use starfield_datastore.Error.{Result, ok, err, ◌>>=◌, ◌>>◌}
use starfield_datastore.Key.{ArtifactKey}
use starfield_datastore.Key
use starfield_datastore.Check.{ContentCheck, sha256_is, all_of, nil, cons, default_binary}
use starfield_datastore.Artifact.{Artifact, Source, new_source, immutable}
use starfield_datastore.Fetch.{Url}
use starfield_datastore.Manifest.{Manifest, validate_digest, split_pin}
use starfield_datastore.Manifest.Toml.{Value, parse_check, encode_check, invalid}

-- `SourceEntry`, whose `Detailed` holds the `SourceFields`.
pub data SourceEntry : Type 0 where
  url_entry : Bytes → SourceEntry
  detailed : Bytes → Bool → SourceEntry

pub record Entry : Type 0 where
  pub key : Bytes
  pub sources : List SourceEntry
  pub sha256 : Option Bytes
  pub bytes : Option ℕ
  pub freshness : Bytes
  pub check : Option Value
  pub description : Bytes
  pub license : Bytes
  pub citation : Option Bytes

unfoldable pub source_of : SourceEntry → Source
source_of (url_entry url) = new_source url
source_of (detailed url trust) = record { url = url; trust_redirects = trust }

unfoldable pub entry_of : Source → SourceEntry
entry_of source = if source.trust_redirects then detailed source.url true else url_entry source.url

-- An error inside the entry of an artifact, whose key the message then shows.
abbrev pub in_artifact {ℓ} : {A : Type ℓ} → Result A → Result A
in_artifact (ok a) = ok a
in_artifact (err e) = invalid "artifact"

-- `HashSet::contains`
abbrev pub seen_before : ArtifactKey → List ArtifactKey → Bool
seen_before key = any (eq_bytes key)

unfoldable pub parse_entry_check : Option Value → Result ContentCheck
parse_entry_check none = ok default_binary
parse_entry_check (some v) = in_artifact (parse_check v 0)

unfoldable pub add_pin : Option Bytes → ContentCheck → Result ContentCheck
add_pin none check = ok check
add_pin (some digest) check =
    validate_digest digest >> ok (all_of (cons (sha256_is digest) (cons check nil)))

abbrev pub artifact_of : Entry → ArtifactKey → List Source → ContentCheck → Artifact
artifact_of e key sources check = record {
  key = key;
  sources = sources;
  check = check;
  freshness = immutable;
  provenance = record { description = e.description; license = e.license; citation = e.citation };
  expected_bytes = e.bytes;
}

unfoldable pub check_pin : Option Bytes → Result (Unit {0})
check_pin none = ok tt
check_pin (some digest) = validate_digest digest

abbrev pub entry_with : Artifact → List SourceEntry → Option Bytes → Value → Entry
entry_with a sources pin check = record {
  key = a.key;
  sources = sources;
  sha256 = pin;
  bytes = a.expected_bytes;
  freshness = codes "immutable";
  check = some check;
  description = a.provenance.description;
  license = a.provenance.license;
  citation = a.provenance.citation;
}

module _ (parse : Bytes → Option Url) where
  -- `validate_url`, on what the url crate makes of the text
  abbrev pub is_source_url : Url → Bool
  is_source_url url =
      (eq_bytes url.scheme (codes "http") || eq_bytes url.scheme (codes "https"))
      && (not (elim url.host [ none ↦ true | some h ↦ false ])
          && (is_empty url.username && elim url.password [ none ↦ true | some p ↦ false ]))

  abbrev validate_parsed : Option Url → Result (Unit {0})
  validate_parsed none = invalid "invalid source URL"
  validate_parsed (some url) =
      if is_source_url url
      then ok tt
      else invalid "source must be HTTP(S) without embedded credentials"

  unfoldable pub validate_url : Bytes → Result (Unit {0})
  validate_url raw = validate_parsed (parse raw)

  unfoldable pub load_sources : List SourceEntry → Result (List Source)
  load_sources [] = ok []
  load_sources (s ∷ rest) = do
    u ← in_artifact (validate_url (source_of s).url)
    more ← load_sources rest
    ok (source_of s ∷ more)

  unfoldable pub load_entry : Entry → ArtifactKey → Result Artifact
  load_entry e key =
      if not (eq_bytes e.freshness (codes "immutable"))
      then invalid "only immutable freshness is supported"
      else (do
        sources ← load_sources e.sources
        check ← parse_entry_check e.check
        pinned ← add_pin e.sha256 check
        ok (artifact_of e key sources pinned))

  -- The loop of `from_toml_str`, with the keys seen so far.
  unfoldable pub load_entries : List Entry → List ArtifactKey → Result Manifest
  load_entries [] seen = ok []
  load_entries (e ∷ rest) seen = do
    key ← Key.new e.key
    (if seen_before key seen
        then invalid "duplicate artifact key"
        else (do a ← load_entry e key; more ← load_entries rest (key ∷ seen); ok (a ∷ more)))

  -- `from_toml_str`, after the toml crate
  abbrev pub load_document : List Entry → Result Manifest
  load_document entries = load_entries entries []

  unfoldable pub save_sources : List Source → Result (List SourceEntry)
  save_sources [] = ok []
  save_sources (s ∷ rest) = do
    u ← validate_url s.url
    more ← save_sources rest
    ok (entry_of s ∷ more)

  unfoldable pub save_entry : Artifact → Result Entry
  save_entry a =
      let (pin, check) = split_pin a.check in
      (do
        u ← check_pin pin
        sources ← save_sources a.sources
        value ← encode_check check
        ok (entry_with a sources pin value))

  -- The loop of `to_toml_string`, with the keys seen so far.
  unfoldable pub save_entries : Manifest → List ArtifactKey → Result (List Entry)
  save_entries [] seen = ok []
  save_entries (a ∷ rest) seen =
      if seen_before a.key seen
      then invalid "duplicate artifact key"
      else (do e ← save_entry a; more ← save_entries rest (a.key ∷ seen); ok (e ∷ more))

  -- `to_toml_string`, before the toml crate
  abbrev pub save_document : Manifest → Result (List Entry)
  save_document m = save_entries m []
