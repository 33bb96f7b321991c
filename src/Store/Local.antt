-- ===== src/Store/Local.antt =====
-- src/store/mod.rs: validation of a body, the local layer and publication.
use starfield_datastore.Prelude.{
  ℕ, String, Bool, true, not, Option, none, some, ◌==◌, if◌then◌else◌, length, all, Bytes, eq_bytes,
}
use starfield_datastore.Error.{Result, ok, err, ◌>>=◌, ◌>>◌, content_rejected}
use starfield_datastore.Check.{Verdict, pass, fail, check_body, pinned_sha256s, without_sha256}
use starfield_datastore.Artifact.{Artifact}
use starfield_datastore.Store.Files.{read}
use starfield_datastore.Store.Layout.{IndexEntry, Cache, read_entry, write_entry, publish_blob}

abbrev pub rejected {ℓ} : {A : Type ℓ} → Artifact → String → Result A
rejected artifact name = err (content_rejected artifact.key (record { check = name }))

abbrev pub size_matches : Option ℕ → ℕ → Bool
size_matches none n = true
size_matches (some expected) n = expected == n

abbrev pub from_verdict : Artifact → Verdict → Result (Unit {0})
from_verdict artifact pass = ok tt
from_verdict artifact (fail f) = err (content_rejected artifact.key f)

module _ (sha256 : Bytes → Bytes) where
  -- `validate`: the size pin, the digest pins, then the artifact's own check.
  unfoldable pub validate : Artifact → Bytes → ℕ → Bytes → Result (Unit {0})
  validate artifact body bytes digest =
      if not (size_matches artifact.expected_bytes bytes)
      then rejected artifact "expected_bytes"
      else if not (all (eq_bytes digest) (pinned_sha256s artifact.check))
      then rejected artifact "Sha256"
      else from_verdict artifact (check_body sha256 (without_sha256 artifact.check) body)

  -- `Datastore::local_hit`
  unfoldable pub local_hit : Artifact → IndexEntry → Cache → Result (Option Bytes)
  local_hit artifact e c = elim (read e.digest c.blobs) [
    | none ↦ ok none
    | some body ↦
        if not (all (eq_bytes e.digest) (pinned_sha256s artifact.check))
        then ok none
        else if not (length body == e.bytes)
        then rejected artifact "cached blob size"
        else if not (eq_bytes (sha256 body) e.digest)
        then rejected artifact "cached blob digest"
        else (do validate artifact body e.bytes (sha256 body); ok (some e.digest))
  ]

  -- `Datastore::publish`: validate, put the blob in place, write the sidecar.
  unfoldable pub publish : Artifact → Bytes → IndexEntry → Cache → Result Bytes × Cache
  publish artifact tmp e c = elim (validate artifact tmp e.bytes e.digest) [
    | err f ↦ (err f, c)
    | ok u ↦
        let (placed, c') = publish_blob sha256 tmp e.digest c in
        elim placed [
          | none ↦ (rejected artifact "cached blob digest", c')
          | some digest ↦
              let (written, c'') = write_entry artifact.key e c' in ((do written; ok digest), c'')
        ]
  ]

  -- The local layer: the entry and its blob, if they stand and are sound.
  unfoldable pub look_local : Artifact → Cache → Result (Option (IndexEntry × Bytes))
  look_local artifact c = do
    found ← read_entry artifact.key c
    elim found [
      | none ↦ ok none
      | some e ↦ (do
        hit ← local_hit artifact e c
        elim hit [ none ↦ ok none | some d ↦ ok (some (e, d)) ])
    ]
