-- ===== src/S3/Guarded.antt =====
-- What the uploads of src/s3.rs send: no write goes without its precondition, and none to another key.
use starfield_datastore.Prelude.{
  ℕ, zero, suc, ◌+◌, ◌-◌, ◌^◌, ◌≡◌, refl, Bool, true, false, Option, none, some, [], ◌∷◌, ltb, leb,
  if◌then◌else◌, length, drop, all, Bytes,
}
use starfield_datastore.Error.{ok, err}
use starfield_datastore.Key.{ArtifactKey}
use starfield_datastore.Server.Service.{MirrorObject}
use starfield_datastore.S3.{
  PutOutcome, Metadata, Condition, if_none_match, Request, put_object, create_upload, upload_part,
  complete_upload, abort_upload, head_object, get_object, History, Reply, reply, failure, S3Mirror,
  object_key, has_status, head_async,
}
use starfield_datastore.S3.Metadata.{UrlCrate}
use starfield_datastore.S3.Upload.{
  Run, and_then, min, create_answer, unless_existing, upload_checked, part_bytes, part_size,
  condition_of, is_stored, existing_after_race, put_answer, put_loop, send_part, send_parts,
  complete_answer, complete, abort_unless_stored, upload_parts, multipart, upload_new, write_checks,
  write,
}

-- A request for the key: a PUT has the file as its body, and whatever makes an object has the
-- condition.
abbrev pub Guarded : Condition → Bytes → Bytes → Request → Type 0
Guarded c k file (head_object j) = j ≡ k
Guarded c k file (get_object j) = j ≡ k
Guarded c k file (put_object j b metadata d) = (j ≡ k) × (b ≡ file) × (d ≡ c)
Guarded c k file (create_upload j metadata) = j ≡ k
Guarded c k file (upload_part j id number b) = j ≡ k
Guarded c k file (complete_upload j id parts d) = (j ≡ k) × (d ≡ c)
Guarded c k file (abort_upload j id) = j ≡ k

abbrev pub AllGuarded : Condition → Bytes → Bytes → History → Type 0
AllGuarded c k file [] = Unit {0}
AllGuarded c k file (r ∷ h) = Guarded c k file r × AllGuarded c k file h

and_then-AllGuarded :
    {A B : Type 0} (c : Condition) (k file : Bytes) (run : Run A) (next : A → History → Run B)
    → ((a : A) (h : History) → AllGuarded c k file h → AllGuarded c k file (next a h).1)
    → AllGuarded c k file run.1
    → AllGuarded c k file (and_then run next).1
unfolding and_then
and_then-AllGuarded c k file (ok a, h) next step all = step a h all
and_then-AllGuarded c k file (err e, h) next step all = all

if-AllGuarded :
    {A : Type 0} (c : Condition) (k file : Bytes) (b : Bool) (x y : Run A)
    → AllGuarded c k file x.1
    → AllGuarded c k file y.1
    → AllGuarded c k file (if b then x else y).1
if-AllGuarded c k file true x y hx hy = hx
if-AllGuarded c k file false x y hx hy = hy

module _ (m : S3Mirror) (key : ArtifactKey) (body : Bytes) (meta : MirrorObject)
    (etag : Option Bytes) where
  abbrev Good : History → Type 0
  Good = AllGuarded (condition_of etag) (object_key m key) body

  existing_after_race-Good : (h : History) → Good h → Good (existing_after_race m key body meta h).1
  unfolding existing_after_race head_async and_then
  existing_after_race-Good h g =
      and_then-AllGuarded _ _ _ (head_async m key h) _ (λ a sent good. good) (refl, g)

  put_answer-Good :
      (retry : History → Run PutOutcome) (r : Reply (Unit {0})) (h : History)
      → ((t : History) → Good t → Good (retry t).1)
      → Good h
      → Good (put_answer m key body meta etag retry r h).1
  unfolding put_answer
  put_answer-Good retry (reply u) h step g = g
  put_answer-Good retry (failure status) h step g =
      if-AllGuarded _ _ _ _ (existing_after_race m key body meta h) _ (existing_after_race-Good h g)
        (if-AllGuarded _ _ _ (has_status 409 status) (retry h) _ (step h g) g)

  put_loop-Good :
      (metadata : Metadata) (left : ℕ) (h : History)
      → Good h
      → Good (put_loop m key body meta metadata etag left h).1
  unfolding put_loop
  put_loop-Good metadata zero h g =
      put_answer-Good _ (m.client.on_put _) _ (λ t good. good) ((refl, refl, refl), g)
  put_loop-Good metadata (suc left) h g =
      put_answer-Good _ (m.client.on_put _) _ (put_loop-Good metadata left) ((refl, refl, refl), g)

  send_part-Good :
      (id : Bytes) (offset length' done : ℕ) (h : History)
      → Good h
      → Good (send_part m key body meta id offset length' done h).1
  unfolding send_part
  send_part-Good id offset length' done h g =
      if-AllGuarded _ _ _ (ltb (length (drop offset body)) length') (err _, h) _ g
        (if-AllGuarded _ _ _ (leb (2 ^ 31) (suc done)) (err _, h) _ g (refl, g))

  send_parts-Good :
      (fuel : ℕ) (id : Bytes) (size offset done : ℕ) (h : History)
      → Good h
      → Good (send_parts m key body meta fuel id size offset done h).1
  unfolding send_parts
  send_parts-Good zero id size offset done h g = g
  send_parts-Good (suc fuel) id size offset done h g =
      let length' = min size (meta.bytes - offset) in
      if-AllGuarded _ _ _ (ltb offset meta.bytes) _ (ok [], h)
        (and_then-AllGuarded _ _ _ (send_part m key body meta id offset length' done h) _
          (λ part sent good.
            and_then-AllGuarded _ _ _
              (send_parts m key body meta fuel id size (offset + length') (suc done) sent) _
              (λ parts last kept. kept)
              (send_parts-Good fuel id size (offset + length') (suc done) sent good))
          (send_part-Good id offset length' done h g))
        g

  complete_answer-Good :
      (r : Reply (Unit {0})) (h : History)
      → Good h
      → Good (complete_answer m key body meta etag r h).1
  unfolding complete_answer
  complete_answer-Good (reply u) h g = g
  complete_answer-Good (failure status) h g =
      if-AllGuarded _ _ _ _ (existing_after_race m key body meta h) _ (existing_after_race-Good h g)
        g

  abort_unless_stored-Good :
      (id : Bytes) (run : Run PutOutcome)
      → Good run.1
      → Good (abort_unless_stored m key body meta id run).1
  unfolding abort_unless_stored
  abort_unless_stored-Good id (r, h) g = if-AllGuarded _ _ _ (is_stored r) (r, h) _ g (refl, g)

  upload_parts-Good :
      (id : Bytes) (h : History) → Good h → Good (upload_parts m key body meta id etag h).1
  unfolding upload_parts complete
  upload_parts-Good id h g = abort_unless_stored-Good id _ (
      and_then-AllGuarded _ _ _
        (send_parts m key body meta meta.bytes id (part_size meta.bytes) 0 0 h) _
        (λ parts sent good. complete_answer-Good (m.client.on_complete _) _ ((refl, refl), good))
        (send_parts-Good meta.bytes id (part_size meta.bytes) 0 0 h g))

  create_answer-Good :
      (r : Reply (Option Bytes)) (h : History)
      → Good h
      → Good (create_answer m key body meta etag r h).1
  create_answer-Good (reply none) h g = g
  create_answer-Good (reply (some id)) h g = upload_parts-Good id h g
  create_answer-Good (failure status) h g = g

  upload_new-Good :
      (metadata : Metadata) (h : History)
      → Good h
      → Good (upload_new m key body meta metadata etag h).1
  unfolding upload_new multipart
  upload_new-Good metadata h g =
      if-AllGuarded _ _ _ (ltb part_bytes meta.bytes) (multipart m key body meta metadata etag h) _
        (create_answer-Good (m.client.on_create _) _ (refl, g)) (put_loop-Good metadata 2 h g)

upload_checked-Good :
    (m : S3Mirror) (key : ArtifactKey) (body : Bytes) (meta : MirrorObject) (etag : Option Bytes)
    (metadata : Metadata) (h : History)
    → AllGuarded (condition_of etag) (object_key m key) body h
    → AllGuarded
        (condition_of etag)
        (object_key m key)
        body
        (upload_checked m key body meta etag metadata h).1
unfolding head_async
upload_checked-Good m key body meta (some etag) metadata h g =
    upload_new-Good m key body meta (some etag) metadata h g
upload_checked-Good m key body meta none metadata h g =
    and_then-AllGuarded _ _ _ (head_async m key h) _ unless (refl, g)
  where
    unless :
        (existing : Option MirrorObject) (sent : History)
        → AllGuarded if_none_match (object_key m key) body sent
        → AllGuarded if_none_match
            (object_key m key)
            body
            (unless_existing m key body meta metadata existing sent).1
    unless none sent good = upload_new-Good m key body meta none metadata sent good
    unless (some o) sent good = good

-- Whatever the server answers, a write sends requests for its own key only, a PUT has the local file
-- as its body, and every request that makes an object, a PUT or the completion of a multipart upload,
-- carries the precondition: `If-None-Match: *` for `put`, `If-Match` with the observed ETag for
-- `replace`.
pub write-AllGuarded :
    (m : S3Mirror) (key : ArtifactKey) (body : Bytes) (meta : MirrorObject) (sha256 : Bytes → Bytes)
    (crate : UrlCrate) (etag : Option Bytes)
    → AllGuarded
        (condition_of etag)
        (object_key m key)
        body
        (write m key body meta sha256 crate etag []).1
unfolding write
write-AllGuarded m key body meta sha256 crate etag =
    and_then-AllGuarded _ _ _ (write_checks m key body meta sha256 crate, []) _
      (upload_checked-Good m key body meta etag) tt
