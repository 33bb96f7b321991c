-- ===== src/Tests/Service.antt =====
-- Requests to the service: an artifact with a license and one without.
use starfield_datastore.Prelude.{
  ◌≡◌, refl, Bool, true, false, none, some, [], ◌∷◌, replicate, Bytes, codes, eq_bytes,
}
use starfield_datastore.Error.{ok, io}
use starfield_datastore.Key.{
  ArtifactKey, bad_key, bad_part, split_slash, prepend, is_ascii_alphanumeric, is_key_mark,
}
use starfield_datastore.Key
use starfield_datastore.Check.{min_bytes}
use starfield_datastore.Check.Html.{trim_start, is_space, is_space2, is_space3}
use starfield_datastore.Artifact.{Artifact, new_artifact}
use starfield_datastore.Manifest
use starfield_datastore.Store.Resolve.{Datastore}
use starfield_datastore.Server.Coordinator.{initial}
use starfield_datastore.Server.Service.{
  MirrorObject, ObjectStore, World, is_blank, head, check_pins, check_metadata, redirect,
  resolve_miss,
}
use starfield_datastore.Server.Handler.{
  Circumstances, Service, respond, first_lookup, serve_artifact, artifact,
}
use starfield_datastore.Server.Redirects.{IsFair, artifact-IsFair}
use starfield_datastore.Server.Uploads.{
  UploadsOne, resolve_miss-UploadsOne, serve_artifact_unlicensed,
}

abbrev toy_hash : Bytes → Bytes
toy_hash body = replicate 64 b'a'

abbrev keep : Bytes → Bytes
keep url = url

abbrev any_header : Bytes → Bool
any_header text = true

abbrev private_file : Artifact
private_file = record (new_artifact (codes "f") []) { check = min_bytes 4 }

abbrev finals : Artifact
finals = record private_file {
  provenance = record { description = []; license = codes "CC0"; citation = none };
}

abbrev held : MirrorObject
held = record {
  sha256 = replicate 64 b'a';
  bytes = 4;
  etag = none;
  source = none;
  provider_identity = none;
  fetched_at = 0;
}

abbrev full_mirror : ObjectStore
full_mirror = record {
  head = λ key. ok (some held);
  put = λ key digest meta. ok tt;
  presign = λ key. ok (codes "https://m/f");
}

abbrev empty_mirror : ObjectStore
empty_mirror = record full_mirror { head = λ key. ok none }

abbrev source_store : Datastore
source_store = record {
  mirror = some (record {
    object = λ key. record { chunks = codes "abcd" ∷ []; ending = ok true; on_write_error = io };
    location = λ key. key;
  });
  request = λ source. record { chunks = []; ending = ok none; on_write_error = io };
  allow_upstream = true;
  offline = false;
}

abbrev service : Service
service = record { manifest = finals ∷ []; store = source_store; policy = none }

abbrev calm : Circumstances
calm = record {
  first = full_mirror;
  later = full_mirror;
  work_open = true;
  fills_open = true;
  head_panics = false;
  fill_panics = false;
  environment = record { lock_free = true; available_space = ok 100 };
}

abbrev fresh : World
fresh = record {
  cache = record { index = []; blobs = []; made = []; refuses = λ key. false };
  uploads = [];
}

finals-redirects :
    (artifact toy_hash keep 0 any_header service calm (codes "f") initial fresh).0.status ≡ 302
unfolding artifact Key.new bad_key bad_part split_slash prepend is_ascii_alphanumeric is_key_mark
    eq_bytes Manifest.get serve_artifact first_lookup head is_blank trim_start is_space is_space2
    is_space3 redirect check_metadata check_pins respond
finals-redirects = refl

artifact-IsFair_example :
    (key : ArtifactKey) × (a : Artifact) × (Key.new (codes "f") ≡ ok key)
    × (Manifest.get key service.manifest ≡ some a)
    × IsFair calm a (artifact toy_hash keep 0 any_header service calm (codes "f") initial fresh).0
artifact-IsFair_example =
    artifact-IsFair toy_hash keep 0 any_header service calm (codes "f") initial fresh
      finals-redirects

resolve_miss-UploadsOne_example :
    UploadsOne toy_hash keep 0 finals []
      (resolve_miss toy_hash keep 0 empty_mirror source_store finals none fresh).1
resolve_miss-UploadsOne_example =
    resolve_miss-UploadsOne toy_hash keep 0 empty_mirror source_store finals none fresh

unlicensed : is_blank private_file.provenance.license ≡ true
unfolding is_blank trim_start
unlicensed = refl

serve_artifact_unlicensed_example :
    ((serve_artifact toy_hash keep 0 any_header service calm private_file initial fresh).1
      ≡ initial)
    × ((serve_artifact toy_hash keep 0 any_header service calm private_file initial fresh).2
        ≡ fresh)
serve_artifact_unlicensed_example =
    serve_artifact_unlicensed toy_hash keep 0 any_header service calm private_file initial fresh
      unlicensed
