-- ===== src/S3/Upload.antt =====
-- src/s3.rs `put`, `replace` and `multipart`: conditional uploads of a local file. A run is the result
-- with the requests that were sent, newest first. The file stays as it is during the call.
use starfield_datastore.Prelude.{
  ℕ, zero, suc, ◌+◌, ◌-◌, ◌*◌, ◌^◌, Bool, true, false, not, ◌&&◌, ◌||◌, Option, none, some, List,
  [], ◌∷◌, ltb, leb, ◌==◌, if◌then◌else◌, length, take, drop, is_empty, Bytes, eq_bytes,
}
use Prim.Native.Nat.{◌/◌}
use starfield_datastore.Error.{Result, ok, err, ◌>>=◌, mirror}
use starfield_datastore.Key.{ArtifactKey}
use starfield_datastore.Server.Service.{MirrorObject}
use starfield_datastore.S3.{
  PutOutcome, stored, already_present, Metadata, PartOutput, CompletedPart, Condition, if_match,
  if_none_match, put_object, create_upload, upload_part, complete_upload, abort_upload, History,
  Reply, reply, failure, S3Mirror, object_key, service_error, has_status, required, validate_digest,
  head_async, matching_existing,
}
use starfield_datastore.S3.Metadata.{UrlCrate, upload_metadata}

abbrev pub Run : Type 0 → Type 0
Run A = Result A × History

-- `?` between two calls
unfoldable pub and_then : {A B : Type 0} → Run A → (A → History → Run B) → Run B
and_then (ok a, h) next = next a h
and_then (err e, h) next = (err e, h)

-- `PART_BYTES`
abbrev pub part_bytes : ℕ
part_bytes = 64 * 1024 * 1024

abbrev max : ℕ → ℕ → ℕ
max a b = if ltb a b then b else a

abbrev pub min : ℕ → ℕ → ℕ
min a b = if ltb b a then b else a

-- The size of a part: `PART_BYTES.max(bytes.div_ceil(10000))`
abbrev pub part_size : ℕ → ℕ
part_size bytes = max part_bytes ((bytes + 9999) / 10000)

abbrev pub condition_of : Option Bytes → Condition
condition_of none = if_none_match
condition_of (some etag) = if_match etag

abbrev pub is_unconditional : Option Bytes → Bool
is_unconditional none = true
is_unconditional (some etag) = false

unfoldable pub completed_part : ℕ → PartOutput → Result CompletedPart
completed_part number out = do
  etag ← required "upload part has no ETag" out.etag
  checksum ← required "upload part has no CRC32 checksum" out.checksum
  ok (record { number = number; etag = etag; checksum = checksum })

abbrev pub part_answer : ℕ → Reply PartOutput → Result CompletedPart
part_answer number (reply out) = completed_part number out
part_answer number (failure status) = service_error "UploadPart"

abbrev pub is_stored : Result PutOutcome → Bool
is_stored (ok stored) = true
is_stored (ok already_present) = false
is_stored (err e) = false

module _ (m : S3Mirror) (key : ArtifactKey) (body : Bytes) (meta : MirrorObject) where
  -- `existing_after_race`
  unfoldable pub existing_after_race : History → Run PutOutcome
  existing_after_race h = and_then (head_async m key h) λ existing sent. (
    required "conditional write raced with deletion; retry the operation" existing >>= λ o.
        matching_existing o meta,
    sent,
  )

  -- One PUT, and what a 409 goes on with.
  unfoldable pub put_answer :
      Option Bytes → (History → Run PutOutcome) → Reply (Unit {0}) → History → Run PutOutcome
  put_answer etag retry (reply u) h = (ok stored, h)
  put_answer etag retry (failure status) h =
      if has_status 412 status && is_unconditional etag
      then existing_after_race h
      else if has_status 409 status
      then retry h
      else (service_error "PUT", h)

  -- The loop over the attempts, of which `left` come after this one.
  unfoldable pub put_loop : Metadata → Option Bytes → ℕ → History → Run PutOutcome
  put_loop metadata etag zero h =
      let sent = put_object (object_key m key) body metadata (condition_of etag) ∷ h in
      put_answer etag (λ last. (service_error "PUT", last)) (m.client.on_put sent) sent
  put_loop metadata etag (suc left) h =
      let sent = put_object (object_key m key) body metadata (condition_of etag) ∷ h in
      put_answer etag (put_loop metadata etag left) (m.client.on_put sent) sent

  -- One round of the loop of `multipart`: `done` parts are uploaded.
  unfoldable pub send_part : Bytes → ℕ → ℕ → ℕ → History → Run CompletedPart
  send_part id offset length' done h =
      if ltb (length (drop offset body)) length'
      then (err (mirror "cannot read multipart body"), h)
      else if leb (2 ^ 31) (suc done)
      then (err (mirror "too many upload parts"), h)
      else (let sent =
            upload_part (object_key m key) id (suc done) (take length' (drop offset body)) ∷ h in
          (part_answer (suc done) (m.client.on_part sent), sent))

  -- The loop of `multipart` from an offset, with fuel for the bytes left.
  unfoldable pub send_parts : ℕ → Bytes → ℕ → ℕ → ℕ → History → Run (List CompletedPart)
  send_parts zero id size offset done h = (ok [], h)
  send_parts (suc fuel) id size offset done h =
      if ltb offset meta.bytes
      then (let length' = min size (meta.bytes - offset) in
          and_then (send_part id offset length' done h) λ part sent.
            and_then (send_parts fuel id size (offset + length') (suc done) sent)
              λ parts last. (ok (part ∷ parts), last))
      else (ok [], h)

  unfoldable pub complete_answer : Option Bytes → Reply (Unit {0}) → History → Run PutOutcome
  complete_answer etag (reply u) h = (ok stored, h)
  complete_answer etag (failure status) h =
      if has_status 412 status && is_unconditional etag
      then existing_after_race h
      else (service_error "CompleteMultipartUpload", h)

  unfoldable pub complete : Bytes → Option Bytes → List CompletedPart → History → Run PutOutcome
  complete id etag parts h =
      let sent = complete_upload (object_key m key) id parts (condition_of etag) ∷ h in
      complete_answer etag (m.client.on_complete sent) sent

  unfoldable pub abort_unless_stored : Bytes → Run PutOutcome → Run PutOutcome
  abort_unless_stored id (r, h) =
      if is_stored r then (r, h) else (r, abort_upload (object_key m key) id ∷ h)

  unfoldable pub upload_parts : Bytes → Option Bytes → History → Run PutOutcome
  upload_parts id etag h =
      abort_unless_stored id
        (and_then (send_parts meta.bytes id (part_size meta.bytes) 0 0 h) (complete id etag))

  abbrev pub create_answer : Option Bytes → Reply (Option Bytes) → History → Run PutOutcome
  create_answer etag (reply none) h = (err (mirror "S3 returned no upload id"), h)
  create_answer etag (reply (some id)) h = upload_parts id etag h
  create_answer etag (failure status) h = (service_error "CreateMultipartUpload", h)

  -- `multipart`
  unfoldable pub multipart : Metadata → Option Bytes → History → Run PutOutcome
  multipart metadata etag h =
      let sent = create_upload (object_key m key) metadata ∷ h in
      create_answer etag (m.client.on_create sent) sent

  unfoldable pub upload_new : Metadata → Option Bytes → History → Run PutOutcome
  upload_new metadata etag h =
      if ltb part_bytes meta.bytes then multipart metadata etag h else put_loop metadata etag 2 h

  -- Unless the call replaces an object, one that is there already settles it.
  abbrev pub unless_existing : Metadata → Option MirrorObject → History → Run PutOutcome
  unless_existing metadata none h = upload_new metadata none h
  unless_existing metadata (some existing) h = (matching_existing existing meta, h)

  abbrev pub upload_checked : Option Bytes → Metadata → History → Run PutOutcome
  upload_checked none metadata h = and_then (head_async m key h) (unless_existing metadata)
  upload_checked (some etag) metadata h = upload_new metadata (some etag) h

  module _ (sha256 : Bytes → Bytes) (crate : UrlCrate) where
    -- What `write` does before it sends anything.
    unfoldable pub write_checks : Result Metadata
    write_checks = do
      u ← validate_digest meta.sha256
      (if not (length body == meta.bytes) || not (eq_bytes (sha256 body) meta.sha256)
          then err (mirror "local blob does not match upload digest and size")
          else upload_metadata crate meta)

    unfoldable pub write : Option Bytes → History → Run PutOutcome
    write etag h = and_then (write_checks, h) (upload_checked etag)

    -- `S3Mirror::put` and `S3Mirror::replace`
    unfoldable pub put : History → Run PutOutcome
    put h = write none h

    unfoldable pub replace : Bytes → History → Run PutOutcome
    replace etag h =
        if is_empty etag
        then (err (mirror "repair requires an observed ETag"), h)
        else write (some etag) h
