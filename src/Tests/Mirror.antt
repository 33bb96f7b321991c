-- ===== src/Tests/Mirror.antt =====
-- The S3 mirror and the mirror behind the service at concrete inputs. The hash of a body stands for
-- SHA-256.
use starfield_datastore.Prelude.{
  String, List, ◌≤◌, ◌≡◌, refl, ◌≢◌, true, Option, none, some, [], ◌∷◌, arith, length, replicate,
  Bytes, codes, eq_bytes,
}
use starfield_datastore.Error.{ok, err, no_credential, mirror}
use starfield_datastore.Key.{ArtifactKey, trim_slashes, mirror_path}
use starfield_datastore.Store.Layout.{is_digest}
use starfield_datastore.Server.Service.{MirrorObject}
use starfield_datastore.Fetch.{request, Network, Url}
use starfield_datastore.Fetch.Confine.{AllSent}
use starfield_datastore.Artifact.{new_source}
use starfield_datastore.Mirror.{HttpMirror, location, fetch, fetch_no_credential}
use starfield_datastore.S3.{
  Client, S3Mirror, HeadOutput, History, Reply, reply, failure, already_present, CompletedPart,
  Metadata, object_key, decode_head, lookup, head_async, head_answer, matching_existing,
  validate_digest, if_none_match,
}
use starfield_datastore.S3.Metadata.{UrlCrate, upload_metadata, source_metadata, identity_metadata}
use starfield_datastore.S3.Decimal.{emit, scan, parse_u64}
use starfield_datastore.S3.Upload.{
  and_then, part_size, completed_part, send_part, send_parts, existing_after_race, put_answer,
  put_loop, upload_new, write_checks, write,
}
use starfield_datastore.S3.Guarded.{AllGuarded, write-AllGuarded}
use starfield_datastore.S3.Parts.{
  uploaded, sent_numbers, numbers_of, numbered_after, send_parts_whole,
}
use starfield_datastore.S3.Accepted.{Accepts, send_parts_accepted}
use starfield_datastore.S3.Outcome.{decode_head-upload_metadata}
use starfield_datastore.S3.Existing.{Seen, write_ok}

abbrev toy_hash : Bytes → Bytes
toy_hash body = replicate 64 b'a'

abbrev body : Bytes
body = codes "abc"

abbrev meta : MirrorObject
meta = record {
  sha256 = replicate 64 b'a';
  bytes = 3;
  etag = none;
  source = none;
  provider_identity = some (codes "env:archive.test");
  fetched_at = 1700;
}

abbrev crate : UrlCrate
crate = record { parse = λ raw. none; without_query = λ url. [] }

abbrev stored_metadata : Metadata
stored_metadata =
    (codes "sha256", replicate 64 b'a')
    ∷ ((codes "bytes", codes "3")
        ∷ ((codes "fetched-at", codes "1700")
            ∷ ((codes "provider-identity", codes "env:archive.test") ∷ [])))

abbrev head_of : History → Reply HeadOutput
head_of (r ∷ []) = failure (some 404)
head_of h = reply (record { metadata = stored_metadata; content_length = some 3; etag = none })

-- A server where another writer is faster: the key is free at first, the PUT meets an object.
abbrev busy : Client
busy = record {
  on_head = head_of;
  on_get = λ h. failure (some 404);
  on_put = λ h. failure (some 412);
  on_create = λ h. reply (some (codes "id"));
  on_part = λ h. reply (record { etag = some (codes "e"); checksum = some (codes "c") });
  on_complete = λ h. failure (some 412);
}

abbrev bucket : S3Mirror
bucket = record { client = busy; bucket = codes "b"; prefix = codes "p" }

abbrev key : ArtifactKey
key = codes "f"

write-AllGuarded_example :
    AllGuarded if_none_match
      (object_key bucket key)
      body
      (write bucket key body meta toy_hash crate none []).1
write-AllGuarded_example = write-AllGuarded bucket key body meta toy_hash crate none

-- What the upload sends: HEAD, PUT, and HEAD again.
sent : History
sent = (write bucket key body meta toy_hash crate none []).1

lost_race : write bucket key body meta toy_hash crate none [] ≡ (ok already_present, sent)
unfolding sent write write_checks and_then validate_digest is_digest upload_metadata source_metadata
    identity_metadata emit head_async head_answer upload_new put_loop put_answer existing_after_race
    decode_head lookup eq_bytes parse_u64 scan matching_existing mirror_path trim_slashes
lost_race = refl

write_ok_example :
    (is_digest meta.sha256 ≡ true)
    × (length body ≡ meta.bytes)
    × (toy_hash body ≡ meta.sha256)
    × (already_present ≡ already_present → Seen bucket key meta)
write_ok_example =
    write_ok bucket key body meta toy_hash crate none [] sent already_present lost_race

parts_sent : History
parts_sent = (send_parts bucket key body meta 3 (codes "id") (part_size 3) 0 0 []).1

abbrev part : CompletedPart
part = record { number = 1; etag = codes "e"; checksum = codes "c" }

one_part :
    send_parts bucket key body meta 3 (codes "id") (part_size 3) 0 0 []
    ≡ (ok (part ∷ []), parts_sent)
unfolding parts_sent send_parts send_part and_then completed_part
one_part = refl

send_parts_whole_example :
    (uploaded parts_sent ≡ body)
    × (sent_numbers parts_sent ≡ numbers_of (part ∷ []))
    × (numbered_after 0 (part ∷ []) ≡ true)
    × (length (part ∷ []) ≤ 10000)
send_parts_whole_example =
    send_parts_whole bucket key body meta (codes "id") parts_sent (part ∷ []) refl one_part

busy-Accepts : Accepts bucket
unfolding completed_part
busy-Accepts number h = (record part { number = number }, refl)

send_parts_accepted_example :
    (ps : List CompletedPart) × (last : History) × (send_parts bucket key body meta 3
        (codes "id")
        (part_size 3)
        0
        0
        []
      ≡ (ok ps, last))
    × (uploaded last ≡ body)
    × (sent_numbers last ≡ numbers_of ps)
    × (numbered_after 0 ps ≡ true)
    × (length ps ≤ 10000)
send_parts_accepted_example =
    send_parts_accepted bucket key body meta (codes "id") busy-Accepts refl

made_metadata : upload_metadata crate meta ≡ ok stored_metadata
unfolding upload_metadata source_metadata identity_metadata emit
made_metadata = refl

toy_digest : is_digest meta.sha256 ≡ true
unfolding is_digest
toy_digest = refl

decode_head-upload_metadata_example :
    (s : Option Bytes) × (decode_head
        (record { metadata = stored_metadata; content_length = some 3; etag = some (codes "e") })
      ≡ ok (record meta { etag = some (codes "e"); source = s }))
decode_head-upload_metadata_example =
    decode_head-upload_metadata crate meta stored_metadata (some (codes "e")) made_metadata
      toy_digest (omega arith) (omega arith)

abbrev service_url : Url
service_url = record {
  scheme = codes "https";
  username = [];
  password = none;
  host = some (codes "ephem.test");
  rest = codes "/artifact/f";
}

-- A service that refuses the request.
abbrev refusing : Network
refusing = record {
  parse = λ raw. some service_url;
  as_str = λ url. codes "https://ephem.test/artifact/f";
  join = λ url to. none;
  send = λ left s.
      ok (record { status = 401; location = none; etag = none; body = []; ending = ok tt });
}

abbrev http : HttpMirror
http = record { base = codes "https://ephem.test" }

fetch_no_credential_example :
    AllSent (λ s. s.credential ≡ none) (fetch refusing 0 http key).0
    × ((host : Bytes) → (fetch refusing 0 http key).1.ending ≢ err (no_credential host))
    × ((host : Bytes)
        → (request refusing none 0 (new_source (location http key))).answer.ending
          ≡ err (no_credential host)
        → (why : String) × ((fetch refusing 0 http key).1.ending ≡ err (mirror why)))
fetch_no_credential_example = fetch_no_credential refusing 0 http key
