-- ===== src/Server/Uploads.antt =====
-- What the service uploads to the mirror.
use starfield_datastore.Prelude.{
  ℕ, ◌≡◌, refl, ap, ◌⊎◌, inl, inr, Bool, true, Option, none, some, List, ◌∷◌, arith, Bytes,
}
use starfield_datastore.Error.{manifest, Error, Result, ok, err, Result-cases}
use starfield_datastore.Artifact.{Artifact}
use starfield_datastore.Store.Layout.{IndexEntry, Cache}
use starfield_datastore.Store.Resolve.{Datastore, ResolveOutcome}
use starfield_datastore.Store.Resolve.Holds.{Holds}
use starfield_datastore.Store.Resolve.Sound.{get-Holds, get_limited-Holds}
use starfield_datastore.Store.Maintain.{entry_of}
use starfield_datastore.Server.Coordinator.{State}
use starfield_datastore.Server.Service.{
  ObjectStore, Upload, World, is_blank, head, upload, after_get, fill, resolve_miss,
}
use starfield_datastore.Server.Handler.{Circumstances, Service, first_lookup, serve_artifact}

module _ (sha256 : Bytes → Bytes) (sanitize : Bytes → Bytes) (now : ℕ) where
  -- The upload of one valid blob of the cache, for the artifact's key.
  pub record IsValidUpload (a : Artifact) (w : World) (u : Upload) : Type 0 where
    pub key : u.key ≡ a.key
    pub blob : Holds sha256 a u.digest w.cache

  abbrev pub UploadsOne : Artifact → List Upload → World → Type 0
  UploadsOne a before w =
      (w.uploads ≡ before) ⊎ ((u : Upload) × (w.uploads ≡ u ∷ before) × IsValidUpload a w u)

  upload-UploadsOne :
      (objects : ObjectStore) (a : Artifact) (d : Bytes) (e : Option IndexEntry) (w : World)
      → Holds sha256 a d w.cache
      → UploadsOne a w.uploads (upload objects a d e w).1
  unfolding upload
  upload-UploadsOne objects a d none w h = inl refl
  upload-UploadsOne objects a d (some e) w h = inr (_, refl, record { key = refl; blob = h })

  fill-Holds :
      (ds : Datastore) (a : Artifact) (limit : Option ℕ) (c c' : Cache) (d : Bytes)
      (o : ResolveOutcome)
      → fill sha256 sanitize now ds a limit c ≡ (ok (d, o), c')
      → Holds sha256 a d c'
  unfolding fill
  fill-Holds ds a none c c' d o h = get-Holds sha256 sanitize now ds a c c' d o h
  fill-Holds ds a (some n) c c' d o h = get_limited-Holds sha256 sanitize now ds a n c c' d o h

  after_get-UploadsOne :
      (objects : ObjectStore) (a : Artifact) (before : List Upload)
      (x : Result (Bytes × ResolveOutcome) × Cache)
      → ((d : Bytes) (o : ResolveOutcome) → x.0 ≡ ok (d, o) → Holds sha256 a d x.1)
      → UploadsOne a before (after_get objects a before x).1
  unfolding after_get
  after_get-UploadsOne objects a before (err e, c) h = inl refl
  after_get-UploadsOne objects a before (ok (d, o), c) h =
      upload-UploadsOne objects a d (entry_of a.key c) (record { cache = c; uploads = before })
        (h d o refl)

  -- Resolving a miss uploads at most one blob: for the artifact's own key, one that the cache holds
  -- under its digest and that stands for a body valid for the artifact.
  pub resolve_miss-UploadsOne :
      (objects : ObjectStore) (ds : Datastore) (a : Artifact) (limit : Option ℕ) (w : World)
      → UploadsOne a w.uploads (resolve_miss sha256 sanitize now objects ds a limit w).1
  unfolding resolve_miss
  resolve_miss-UploadsOne objects ds a limit w = elim (Result-cases (objects.head a.key)) [
    | inl (e, h) ↦ rw (h, resolve_miss) (inl refl)
    | inr (some meta, h) ↦ rw (h, resolve_miss) (inl refl)
    | inr (none, h) ↦
        rw (h, resolve_miss)
          (after_get-UploadsOne objects a w.uploads (fill sha256 sanitize now ds a limit w.cache)
            (λ d o k.
              let after = (fill sha256 sanitize now ds a limit w.cache).1 in
              fill-Holds ds a limit w.cache after d o (ap (λ r. (r, after)) k)))
  ]

  first_lookup_unlicensed :
      (objects : ObjectStore) (a : Artifact)
      → is_blank a.provenance.license ≡ true
      → (e : Error) × (first_lookup objects a ≡ err e)
  unfolding first_lookup head
  first_lookup_unlicensed objects a h =
      (manifest "needs a license before redistribution", rw h refl)

  -- An artifact without a license is neither fetched nor uploaded: the request leaves the cache, the
  -- uploads and the coordinator as they were.
  pub serve_artifact_unlicensed :
      (is_header : Bytes → Bool) (service : Service) (x : Circumstances) (a : Artifact) (s : State)
      (w : World)
      → is_blank a.provenance.license ≡ true
      → ((serve_artifact sha256 sanitize now is_header service x a s w).1 ≡ s)
        × ((serve_artifact sha256 sanitize now is_header service x a s w).2 ≡ w)
  unfolding serve_artifact
  serve_artifact_unlicensed is_header service x a s w h =
      let (e, l) = first_lookup_unlicensed x.first a h in ground (arith, l)
