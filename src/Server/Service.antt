-- ===== src/Server/Service.antt =====
-- src/server.rs: what a request does at the mirror and in the store. The mirror is the `ObjectStore`
-- interface of that file; since another fill may upload between two calls, each phase of a request
-- has its own answers. The calls of `put` are kept in a list.
use starfield_datastore.Prelude.{
  ℕ, Bool, true, not, ◌&&◌, ◌||◌, Option, none, some, List, ◌∷◌, leb, if◌then◌else◌, is_empty,
  Bytes, eq_bytes,
}
use starfield_datastore.Error.{Result, ok, err, ◌>>=◌, ◌>>◌, manifest, mirror}
use starfield_datastore.Key.{ArtifactKey}
use starfield_datastore.Check.{
  ContentCheck, sha256_is, magic, min_bytes, not_html, custom, all_of, no_check, Checks, nil, cons,
}
use starfield_datastore.Check.Html.{trim_start}
use starfield_datastore.Artifact.{Artifact}
use starfield_datastore.Store.Layout.{IndexEntry, Cache}
use starfield_datastore.Store.Local.{size_matches, rejected}
use starfield_datastore.Store.Resolve.{Datastore, ResolveOutcome, get, get_limited}
use starfield_datastore.Store.Maintain.{entry_of}

-- `MirrorObject` of src/s3.rs
pub record MirrorObject : Type 0 where
  pub sha256 : Bytes
  pub bytes : ℕ
  pub etag : Option Bytes
  pub source : Option Bytes
  pub provider_identity : Option Bytes
  pub fetched_at : ℕ

-- The `ObjectStore` of the service, as it answers in one phase of a request.
pub record ObjectStore : Type 0 where
  pub head : ArtifactKey → Result (Option MirrorObject)
  pub put : ArtifactKey → Bytes → MirrorObject → Result (Unit {0})
  pub presign : ArtifactKey → Result Bytes

-- A call of `put`: the key, the blob that it reads, and the metadata.
pub record Upload : Type 0 where
  pub key : ArtifactKey
  pub digest : Bytes
  pub meta : MirrorObject

pub record World : Type 0 where
  pub cache : Cache
  pub uploads : List Upload

-- `license.trim().is_empty()`
unfoldable pub is_blank : Bytes → Bool
is_blank text = is_empty (trim_start text)

-- `Service::head`
unfoldable pub head : ObjectStore → Artifact → Result (Option MirrorObject)
head objects artifact =
    if is_blank artifact.provenance.license
    then err (manifest "needs a license before redistribution")
    else objects.head artifact.key

unfoldable mutual
  -- `check_pins` in `check_metadata`
  pub check_pins : ContentCheck → MirrorObject → Bool
  check_pins (sha256_is pin) meta = eq_bytes pin meta.sha256
  check_pins (all_of checks) meta = check_pins_all checks meta
  check_pins (min_bytes n) meta = leb n meta.bytes
  check_pins (magic prefixes trim) meta = true
  check_pins not_html meta = true
  check_pins (custom f) meta = true
  check_pins no_check meta = true

  pub check_pins_all : Checks → MirrorObject → Bool
  check_pins_all nil meta = true
  check_pins_all (cons c cs) meta = check_pins c meta && check_pins_all cs meta

-- `check_metadata`
unfoldable pub check_metadata : Artifact → MirrorObject → Result (Unit {0})
check_metadata artifact meta =
    if not (size_matches artifact.expected_bytes meta.bytes) || not (check_pins artifact.check meta)
    then rejected artifact "mirror metadata pin"
    else ok tt

-- `Service::redirect`
unfoldable pub redirect : ObjectStore → Artifact → MirrorObject → Result (Bytes × MirrorObject)
redirect objects artifact meta = do
  checked ← check_metadata artifact meta
  url ← objects.presign artifact.key
  ok (url, meta)

-- The metadata of a local entry.
abbrev pub object_of : IndexEntry → MirrorObject
object_of e = record {
  sha256 = e.digest;
  bytes = e.bytes;
  etag = none;
  source = e.source;
  provider_identity = e.provider_identity;
  fetched_at = e.fetched_at;
}

-- Upload a blob of the store with the key's entry.
unfoldable pub upload :
    ObjectStore → Artifact → Bytes → Option IndexEntry → World → Result MirrorObject × World
upload objects artifact digest none w = (err (mirror "local entry disappeared before upload"), w)
upload objects artifact digest (some e) w =
    let call : Upload = record { key = artifact.key; digest = digest; meta = object_of e } in
    (
      objects.put artifact.key digest (object_of e) >> ok (object_of e),
      record w { uploads = call ∷ w.uploads },
    )

-- `resolve_miss` once the store has answered.
unfoldable pub after_get :
    ObjectStore
    → Artifact
    → List Upload
    → Result (Bytes × ResolveOutcome) × Cache
    → Result MirrorObject × World
after_get objects artifact uploads (err e, c) = (err e, record { cache = c; uploads = uploads })
after_get objects artifact uploads (ok (digest, o), c) =
    upload objects artifact digest (entry_of artifact.key c)
      (record { cache = c; uploads = uploads })

module _ (sha256 : Bytes → Bytes) (sanitize : Bytes → Bytes) (now : ℕ) where
  -- The store's part in `resolve_miss`.
  unfoldable pub fill :
      Datastore → Artifact → Option ℕ → Cache → Result (Bytes × ResolveOutcome) × Cache
  fill ds artifact none c = get sha256 sanitize now ds artifact c
  fill ds artifact (some bytes) c = get_limited sha256 sanitize now ds artifact bytes c

  -- `Service::resolve_miss`
  unfoldable pub resolve_miss :
      ObjectStore → Datastore → Artifact → Option ℕ → World → Result MirrorObject × World
  resolve_miss objects ds artifact limit w = elim (objects.head artifact.key) [
    | err e ↦ (err e, w)
    | ok (some meta) ↦ (ok meta, w)
    | ok none ↦ after_get objects artifact w.uploads (fill ds artifact limit w.cache)
  ]
