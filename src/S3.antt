-- ===== src/S3.antt =====
-- src/s3.rs: the mirror in an S3 bucket. The AWS SDK is a parameter: it answers each request from
-- the requests that were sent before, newest first, so that a server that other writers use is one
-- of its instances. What `format!` interpolates into an error is left out.
pub mod Decimal
pub mod Metadata
pub mod Upload
pub mod Guarded
pub mod Parts
pub mod Accepted
pub mod Existing
pub mod Outcome
use starfield_datastore.Prelude.{
  ltb, suc, ℕ, String, Bool, true, false, not, ◌&&◌, ◌||◌, Option, none, some, List, [], ◌∷◌, ◌++◌,
  leb, ◌==◌, if◌then◌else◌, length, is_empty, any, Bytes, codes, eq_bytes, contains,
}
use starfield_datastore.Error.{Result, ok, err, ◌>>=◌, mirror, config, io}
use starfield_datastore.Key.{ArtifactKey, mirror_path, trim_slashes}
use starfield_datastore.Key
use starfield_datastore.Check.Html.{trim_start}
use starfield_datastore.Store.Layout.{is_digest}
use starfield_datastore.Store.Receiver.{Producer}
use starfield_datastore.Server.Service.{MirrorObject}
use starfield_datastore.Store.Resolve
use Decimal.{parse_u64}

pub data PutOutcome : Type 0 where
  stored : PutOutcome
  already_present : PutOutcome

-- The user metadata of an object, and what the code reads of the reply to HEAD. A length that is
-- missing or negative is `none`.
abbrev pub Metadata : Type 0
Metadata = List (Bytes × Bytes)

pub record HeadOutput : Type 0 where
  pub metadata : Metadata
  pub content_length : Option ℕ
  pub etag : Option Bytes

pub record PartOutput : Type 0 where
  pub etag : Option Bytes
  pub checksum : Option Bytes

pub record CompletedPart : Type 0 where
  pub number : ℕ
  pub etag : Bytes
  pub checksum : Bytes

-- The precondition of a write: `If-Match` or `If-None-Match: *`.
pub data Condition : Type 0 where
  if_match : Bytes → Condition
  if_none_match : Condition

pub data Request : Type 0 where
  head_object : Bytes → Request
  get_object : Bytes → Request
  put_object : Bytes → Bytes → Metadata → Condition → Request
  create_upload : Bytes → Metadata → Request
  upload_part : Bytes → Bytes → ℕ → Bytes → Request
  complete_upload : Bytes → Bytes → List CompletedPart → Condition → Request
  abort_upload : Bytes → Bytes → Request

abbrev pub History : Type 0
History = List Request

-- A reply, or a failure with the status of the raw response, if there was one.
pub data Reply (A : Type 0) : Type 0 where
  reply : A → Reply A
  failure : Option ℕ → Reply A

-- The answers of the SDK to the newest request of a history.
pub record Client : Type 0 where
  pub on_head : History → Reply HeadOutput
  pub on_get : History → Reply (Producer (Unit {0}))
  pub on_put : History → Reply (Unit {0})
  pub on_create : History → Reply (Option Bytes)
  pub on_part : History → Reply PartOutput
  pub on_complete : History → Reply (Unit {0})

pub record S3Mirror : Type 0 where
  pub client : Client
  pub bucket : Bytes
  pub prefix : Bytes

-- `any(char::is_whitespace)`: some character starts what `trim_start` takes away.
unfoldable pub has_whitespace : Bytes → Bool
has_whitespace [] = false
has_whitespace (c ∷ s) = ltb (length (trim_start (c ∷ s))) (suc (length s)) || has_whitespace s

abbrev valid_bucket : Bytes → Bool
valid_bucket bucket =
    not (is_empty bucket || (any (λ b. b == b'/') bucket || has_whitespace bucket))

-- `S3Mirror::with_client`
unfoldable pub with_client : Client → Bytes → Bytes → Result S3Mirror
with_client client bucket prefix =
    if not (valid_bucket bucket)
    then err (config "invalid S3 bucket name")
    else if is_empty (trim_slashes prefix)
    then ok (record { client = client; bucket = bucket; prefix = [] })
    else (Key.new (trim_slashes prefix) >>= λ key.
        ok (record { client = client; bucket = bucket; prefix = trim_slashes prefix }))

abbrev pub object_key : S3Mirror → ArtifactKey → Bytes
object_key m key = mirror_path key m.prefix

-- `service_error`
abbrev pub service_error {ℓ} : {A : Type ℓ} → String → Result A
service_error operation = err (mirror operation)

abbrev pub has_status : ℕ → Option ℕ → Bool
has_status code none = false
has_status code (some status) = status == code

unfoldable pub lookup : Bytes → Metadata → Option Bytes
lookup k [] = none
lookup k ((j, v) ∷ rest) = if eq_bytes j k then some v else lookup k rest

-- `Option::ok_or_else` with a mirror error
abbrev pub required {ℓ} : {A : Type ℓ} → String → Option A → Result A
required message none = err (mirror message)
required message (some a) = ok a

-- `validate_digest`
unfoldable pub validate_digest : Bytes → Result (Unit {0})
validate_digest digest = if is_digest digest then ok tt else err (mirror "invalid SHA-256 metadata")

abbrev pub number_of : Option Bytes → Option ℕ
number_of none = none
number_of (some text) = parse_u64 text

abbrev pub is_number : Option ℕ → ℕ → Bool
is_number none n = false
is_number (some m) n = m == n

abbrev pub or_zero : Option ℕ → ℕ
or_zero none = 0
or_zero (some n) = n

-- What the reply to HEAD says of the object.
unfoldable pub decode_head : HeadOutput → Result MirrorObject
decode_head out = do
  bytes ← required "S3 object has no valid content length" out.content_length
  sha256 ← required "S3 object has no SHA-256 metadata" (lookup (codes "sha256") out.metadata)
  u ← validate_digest sha256
  (if not (is_number (number_of (lookup (codes "bytes") out.metadata)) bytes)
      then err (mirror "S3 object size metadata disagrees with content length")
      else ok (record {
        sha256 = sha256;
        bytes = bytes;
        etag = out.etag;
        source = lookup (codes "source") out.metadata;
        provider_identity = lookup (codes "provider-identity") out.metadata;
        fetched_at = or_zero (number_of (lookup (codes "fetched-at") out.metadata));
      }))

unfoldable pub head_answer : Reply HeadOutput → Result (Option MirrorObject)
head_answer (reply out) = decode_head out >>= λ o. ok (some o)
head_answer (failure status) = if has_status 404 status then ok none else service_error "HEAD"

-- `head_async`
unfoldable pub head_async :
    S3Mirror → ArtifactKey → History → Result (Option MirrorObject) × History
head_async m key h =
    let sent = head_object (object_key m key) ∷ h in (head_answer (m.client.on_head sent), sent)

abbrev etag_answer : Reply HeadOutput → Result (Option Bytes)
etag_answer (reply out) =
    required "existing S3 object has no ETag for conditional repair" out.etag >>= λ e. ok (some e)
etag_answer (failure status) =
    if has_status 404 status then ok none else service_error "HEAD repair precondition"

-- `observed_etag`
unfoldable pub observed_etag : S3Mirror → ArtifactKey → History → Result (Option Bytes) × History
observed_etag m key h =
    let sent = head_object (object_key m key) ∷ h in (etag_answer (m.client.on_head sent), sent)

abbrev body_end : Result (Unit {0}) → Result Bool
body_end (ok u) = ok true
body_end (err e) = err (mirror "S3 body stream failed")

abbrev body_of : Reply (Producer (Unit {0})) → Producer Bool
body_of (reply p) = record { chunks = p.chunks; ending = body_end p.ending; on_write_error = io }
body_of (failure status) = record {
  chunks = [];
  ending = if has_status 404 status then ok false else service_error "GET";
  on_write_error = io;
}

-- `fetch`: the chunks of the body go into the sink.
unfoldable pub fetch : S3Mirror → ArtifactKey → History → Producer Bool × History
fetch m key h =
    let sent = get_object (object_key m key) ∷ h in (body_of (m.client.on_get sent), sent)

-- `S3Mirror::location`
unfoldable pub location : S3Mirror → ArtifactKey → Bytes
location m key = codes "s3://" ++ m.bucket ++ codes "/" ++ object_key m key

-- The mirror as the store reads it.
unfoldable pub mirror_read_s3 : S3Mirror → Resolve.Mirror
mirror_read_s3 m = record { object = λ key. (fetch m key []).0; location = location m }

-- `presign_get` for a number of seconds, whose URL the SDK makes for the object's key.
unfoldable pub presign_get : (Bytes → ℕ → Option Bytes) → S3Mirror → ArtifactKey → ℕ → Result Bytes
presign_get presigned m key expiry =
    if leb 300 expiry && leb expiry 900
    then required "S3 presigning failed" (presigned (object_key m key) expiry)
    else err (config "presigned expiry must be between 5 and 15 minutes")

-- `matching_existing`
unfoldable pub matching_existing : MirrorObject → MirrorObject → Result PutOutcome
matching_existing existing proposed =
    if eq_bytes existing.sha256 proposed.sha256 && existing.bytes == proposed.bytes
    then ok already_present
    else err (mirror "immutable S3 key already contains different content")
