-- ===== src/S3/Existing.antt =====
-- When an upload (src/s3.rs `write`) reports that the object is there already.
use starfield_datastore.Prelude.{
  ℕ, zero, suc, ◌≡◌, refl, ap, ◌∙◌, inl, inr, Bool, true, false, ◌&&◌, Option, none, some, ◌∷◌,
  arith, ltb, ◌==◌, if◌then◌else◌, Bool-cases, length, Bytes, eq_bytes, eq_bytes_iff,
}
use mathlib.Core.Path.{subst}
use starfield_datastore.Error.{Result, ok, err}
use starfield_datastore.Key.{ArtifactKey}
use starfield_datastore.Server.Service.{MirrorObject}
use starfield_datastore.S3.{
  PutOutcome, stored, already_present, Metadata, head_object, History, Reply, reply, failure,
  S3Mirror, object_key, head_answer, has_status, service_error, head_async, matching_existing,
}
use starfield_datastore.S3.Metadata.{UrlCrate}
use starfield_datastore.Store.Layout.{is_digest}
use starfield_datastore.S3.Outcome.{write-IsChecked}
use starfield_datastore.S3.Upload.{
  Run, and_then, create_answer, upload_checked, part_bytes, part_size, is_unconditional, is_stored,
  existing_after_race, put_answer, put_loop, send_parts, complete_answer, complete,
  abort_unless_stored, upload_parts, multipart, upload_new, write_checks, write,
}

-- The server answered a HEAD of the key with an object of the same digest and size.
abbrev pub Seen : S3Mirror → ArtifactKey → MirrorObject → Type 0
Seen m key meta =
    (h : History) × (o : MirrorObject) × (head_answer
        (m.client.on_head (head_object (object_key m key) ∷ h))
      ≡ ok (some o))
    × (o.sha256 ≡ meta.sha256)
    × (o.bytes ≡ meta.bytes)

module _ (m : S3Mirror) (key : ArtifactKey) (body : Bytes) (meta : MirrorObject) where
  abbrev pub Settled : Result PutOutcome → Type 0
  Settled (ok already_present) = Seen m key meta
  Settled (ok stored) = Unit {0}
  Settled (err e) = Unit {0}

  and_then-Settled :
      {A : Type 0} (run : Run A) (next : A → History → Run PutOutcome)
      → ((a : A) (h : History) → Settled (next a h).0)
      → Settled (and_then run next).0
  unfolding and_then
  and_then-Settled (ok a, h) next step = step a h
  and_then-Settled (err e, h) next step = tt

  if-Settled :
      (b : Bool) (x y : Run PutOutcome) → Settled x.0 → Settled y.0 → Settled (if b then x else y).0
  if-Settled true x y hx hy = hx
  if-Settled false x y hx hy = hy

  matching_existing-Settled :
      (h : History) (o : MirrorObject)
      → head_answer (m.client.on_head (head_object (object_key m key) ∷ h)) ≡ ok (some o)
      → Settled (matching_existing o meta)
  unfolding matching_existing
  matching_existing-Settled h o e =
      elim (Bool-cases (eq_bytes o.sha256 meta.sha256 && o.bytes == meta.bytes)) [
        | inr y ↦ rw y tt
        | inl y ↦ rw y (h, o, e, (eq_bytes_iff o.sha256 meta.sha256).0 (ground arith), ground arith)
      ]

  -- What a HEAD was answered with, and what follows.
  head_async-Settled :
      (h : History) (next : Option MirrorObject → History → Run PutOutcome)
      → ((g : History) → Settled (next none g).0)
      → ((o : MirrorObject) (g : History)
          → head_answer (m.client.on_head (head_object (object_key m key) ∷ h)) ≡ ok (some o)
          → Settled (next (some o) g).0)
      → Settled (and_then (head_async m key h) next).0
  unfolding head_async and_then
  head_async-Settled h next absent there =
      answered (head_answer (m.client.on_head (head_object (object_key m key) ∷ h))) refl
    where
      answered :
          (r : Result (Option MirrorObject))
          → head_answer (m.client.on_head (head_object (object_key m key) ∷ h)) ≡ r
          → Settled (and_then (r, head_object (object_key m key) ∷ h) next).0
      answered (err e) p = tt
      answered (ok none) p = absent _
      answered (ok (some o)) p = there o _ p

  existing_after_race-Settled : (h : History) → Settled (existing_after_race m key body meta h).0
  unfolding existing_after_race
  existing_after_race-Settled h =
      head_async-Settled h _ (λ g. tt) (λ o g p. matching_existing-Settled h o p)

  put_answer-Settled :
      (etag : Option Bytes) (retry : History → Run PutOutcome) (r : Reply (Unit {0})) (h : History)
      → ((t : History) → Settled (retry t).0)
      → Settled (put_answer m key body meta etag retry r h).0
  unfolding put_answer
  put_answer-Settled etag retry (reply u) h step = tt
  put_answer-Settled etag retry (failure status) h step =
      if-Settled _ (existing_after_race m key body meta h) _ (existing_after_race-Settled h)
        (if-Settled (has_status 409 status) (retry h) _ (step h) tt)

  put_loop-Settled :
      (metadata : Metadata) (etag : Option Bytes) (left : ℕ) (h : History)
      → Settled (put_loop m key body meta metadata etag left h).0
  unfolding put_loop
  put_loop-Settled metadata etag zero h = put_answer-Settled etag _ (m.client.on_put _) _ (λ t. tt)
  put_loop-Settled metadata etag (suc left) h =
      put_answer-Settled etag _ (m.client.on_put _) _ (put_loop-Settled metadata etag left)

  complete_answer-Settled :
      (etag : Option Bytes) (r : Reply (Unit {0})) (h : History)
      → Settled (complete_answer m key body meta etag r h).0
  unfolding complete_answer
  complete_answer-Settled etag (reply u) h = tt
  complete_answer-Settled etag (failure status) h =
      if-Settled (has_status 412 status && is_unconditional etag)
        (existing_after_race m key body meta h) (service_error "CompleteMultipartUpload", h)
        (existing_after_race-Settled h) tt

  abort_unless_stored-Settled :
      (id : Bytes) (run : Run PutOutcome)
      → Settled run.0
      → Settled (abort_unless_stored m key body meta id run).0
  unfolding abort_unless_stored
  abort_unless_stored-Settled id (r, h) s = if-Settled (is_stored r) (r, h) _ s s

  create_answer-Settled :
      (etag : Option Bytes) (r : Reply (Option Bytes)) (h : History)
      → Settled (create_answer m key body meta etag r h).0
  unfolding upload_parts complete
  create_answer-Settled etag (reply none) h = tt
  create_answer-Settled etag (reply (some id)) h = abort_unless_stored-Settled id _ (
      and_then-Settled (send_parts m key body meta meta.bytes id (part_size meta.bytes) 0 0 h) _
        (λ parts sent. complete_answer-Settled etag (m.client.on_complete _) _))
  create_answer-Settled etag (failure status) h = tt

  upload_new-Settled :
      (metadata : Metadata) (etag : Option Bytes) (h : History)
      → Settled (upload_new m key body meta metadata etag h).0
  unfolding upload_new multipart
  upload_new-Settled metadata etag h =
      if-Settled (ltb part_bytes meta.bytes) (multipart m key body meta metadata etag h) _
        (create_answer-Settled etag (m.client.on_create _) _) (put_loop-Settled metadata etag 2 h)

  upload_checked-Settled :
      (etag : Option Bytes) (metadata : Metadata) (h : History)
      → Settled (upload_checked m key body meta etag metadata h).0
  upload_checked-Settled (some etag) metadata h = upload_new-Settled metadata (some etag) h
  upload_checked-Settled none metadata h =
      head_async-Settled h _ (upload_new-Settled metadata none)
        (λ o g p. matching_existing-Settled h o p)

write-Settled :
    (m : S3Mirror) (key : ArtifactKey) (body : Bytes) (meta : MirrorObject) (sha256 : Bytes → Bytes)
    (crate : UrlCrate) (etag : Option Bytes) (h : History)
    → Settled m key body meta (write m key body meta sha256 crate etag h).0
unfolding write
write-Settled m key body meta sha256 crate etag h =
    and_then-Settled m key body meta (write_checks m key body meta sha256 crate, h) _
      (upload_checked-Settled m key body meta etag)

-- An upload that returns anything but an error has found the local file to be what the metadata says:
-- its digest is one, and it has the file's SHA-256 and size. It reports `AlreadyPresent` only after the
-- server has answered a HEAD of this key with an object of the same SHA-256 and size.
pub write_ok :
    (m : S3Mirror) (key : ArtifactKey) (body : Bytes) (meta : MirrorObject) (sha256 : Bytes → Bytes)
    (crate : UrlCrate) (etag : Option Bytes) (h last : History) (o : PutOutcome)
    → write m key body meta sha256 crate etag h ≡ (ok o, last)
    → (is_digest meta.sha256 ≡ true)
      × (length body ≡ meta.bytes)
      × (sha256 body ≡ meta.sha256)
      × (o ≡ already_present → Seen m key meta)
write_ok m key body meta sha256 crate etag h last o e =
    let (hd, hl, hs) = write-IsChecked m key body meta sha256 crate etag h last o e in
    (
      hd,
      hl,
      hs,
      λ there.
          subst (λ p. Settled m key body meta p.0) (e ∙ ap (λ x. (ok x, last)) there)
            (write-Settled m key body meta sha256 crate etag h),
    )
