-- ===== src/Server/Redirects.antt =====
-- What the service redirects to.
use starfield_datastore.Prelude.{
  ℕ, ◌≡◌, refl, ◌∙◌, ◌≢◌, ◌⊎◌, inl, inr, Bool, true, false, not, Option, none, some, arith,
  Bool-cases, Option-cases, if_true, if_false, Bytes,
}
use starfield_datastore.Error.{◌>>=◌, Error, Result, ok, err, >>=-eq-ok, Result-cases}
use starfield_datastore.Key.{ArtifactKey}
use starfield_datastore.Key
use starfield_datastore.Artifact.{Artifact}
use starfield_datastore.Policy.{ServiceCachePolicy}
use starfield_datastore.Manifest.{Manifest}
use starfield_datastore.Manifest
use starfield_datastore.Store.Resolve.{Datastore}
use starfield_datastore.Server.Coordinator.{State}
use starfield_datastore.Server.Service.{MirrorObject, ObjectStore, World, is_blank, head, redirect}
use starfield_datastore.Server.Objects.{Stands, IsAt, redirect-IsAt, resolve_miss-Stands}
use starfield_datastore.Server.Handler.{
  Response, status_only, Joined, joined, panicked, Circumstances, Service, found, failure, respond,
  first_lookup, join, fill_worker, guarded_fill, on_miss, serve_artifact, artifact,
}

-- A redirect goes where the mirror signed for the artifact's key, and its object stands there and
-- agrees with the artifact.
pub record IsFair (x : Circumstances) (a : Artifact) (r : Response) : Type 0 where
  pub licensed : is_blank a.provenance.license ≡ false
  pub url : Bytes
  pub meta : MirrorObject
  pub goes : r.location ≡ some url
  pub told : r.bytes ≡ some meta.bytes
  pub stands : IsAt x.first a (url, meta) ⊎ IsAt x.later a (url, meta)

abbrev Fair : Circumstances → Artifact → Response → Type 0
Fair x a r = r.status ≡ 302 → IsFair x a r

-- A hit of the first lookup or of the fill.
abbrev Good : Circumstances → Artifact → Bytes × MirrorObject → Type 0
Good x a hit = IsAt x.first a hit ⊎ IsAt x.later a hit

module _ (is_header : Bytes → Bool) (x : Circumstances) (a : Artifact)
    (licensed : is_blank a.provenance.license ≡ false) where
  found-Fair : (hit : Bytes × MirrorObject) → Good x a hit → Fair x a (found is_header hit)
  found-Fair (url, meta) good = elim (Bool-cases (is_header url)) [
    | inl y ↦ if_true (Fair x a) (is_header url) _ (status_only 502) y (λ h. record {
      licensed = licensed;
      url = url;
      meta = meta;
      goes = refl;
      told = refl;
      stands = good;
    })
    | inr y ↦ if_false (Fair x a) (is_header url) _ (status_only 502) y (λ h. absurd (omega arith))
  ]

  failure-status : (e : Error) → (failure is_header e).status ≢ 302
  failure-status e h = ground arith

  respond-Fair :
      (j : Joined)
      → ((hit : Bytes × MirrorObject) → j ≡ joined (ok hit) → Good x a hit)
      → Fair x a (respond is_header j)
  unfolding respond
  respond-Fair panicked h = λ s. absurd (omega arith)
  respond-Fair (joined (ok hit)) h = found-Fair hit (h hit refl)
  respond-Fair (joined (err e)) h = λ s. absurd (failure-status e s)

joined-IsAt :
    (objects : ObjectStore) (a : Artifact) (panics : Bool) (m : Result MirrorObject)
    (hit : Bytes × MirrorObject)
    → ((meta : MirrorObject) → m ≡ ok meta → Stands objects a meta)
    → join panics (m >>= λ meta. redirect objects a meta) ≡ joined (ok hit)
    → IsAt objects a hit
joined-IsAt objects a true m hit there h = absurd (ground arith)
joined-IsAt objects a false m hit there h =
    let (meta, hm, hr) = >>=-eq-ok m (λ meta. redirect objects a meta) (ground arith) in
    redirect-IsAt objects a meta hit (there meta hm) hr

head-ok :
    (objects : ObjectStore) (a : Artifact) (found : Option MirrorObject)
    → head objects a ≡ ok found
    → objects.head a.key ≡ ok found
unfolding head
head-ok objects a found h = ground arith

first_lookup-IsAt :
    (objects : ObjectStore) (a : Artifact) (hit : Bytes × MirrorObject)
    → first_lookup objects a ≡ ok (some hit)
    → IsAt objects a hit
unfolding first_lookup
first_lookup-IsAt objects a hit h =
    let (found, hf, hr) = >>=-eq-ok (head objects a) _ h in
    answered found (head-ok objects a found hf) hr
  where
    answered :
        (found : Option MirrorObject)
        → objects.head a.key ≡ ok found
        → elim found [ none ↦ ok none | some meta ↦ redirect objects a meta >>= λ x. ok (some x) ]
          ≡ ok (some hit)
        → IsAt objects a hit
    answered none there p = absurd (ground arith)
    answered (some meta) there p =
        let (x, hx, hk) = >>=-eq-ok (redirect objects a meta) _ p in
        redirect-IsAt objects a meta hit (inl there) (hx ∙ ground arith)

refused-Fair : (x : Circumstances) (a : Artifact) → Fair x a (status_only 503)
refused-Fair x a q = absurd (omega arith)

panicked-Fair :
    (is_header : Bytes → Bool) (x : Circumstances) (a : Artifact)
    → Fair x a (respond is_header panicked)
unfolding respond
panicked-Fair is_header x a q = absurd (omega arith)

-- Without a license, the first lookup fails.
first_lookup_licensed :
    (objects : ObjectStore) (a : Artifact) (r : Option (Bytes × MirrorObject))
    → first_lookup objects a ≡ ok r
    → is_blank a.provenance.license ≡ false
unfolding first_lookup head
first_lookup_licensed objects a r h = elim (Bool-cases (is_blank a.provenance.license)) [
  | inl y ↦ absurd (ground arith)
  | inr y ↦ y
]

module _ (sha256 : Bytes → Bytes) (sanitize : Bytes → Bytes) (now : ℕ)
    (is_header : Bytes → Bool) where
  guarded_fill-Fair :
      (p : ServiceCachePolicy) (x : Circumstances) (ds : Datastore) (a : Artifact)
      (admission : Result ℕ × State) (w : World)
      → is_blank a.provenance.license ≡ false
      → Fair x a (guarded_fill sha256 sanitize now is_header p x ds a admission w).0
  unfolding guarded_fill fill_worker
  guarded_fill-Fair p x ds a (err e, s) w l =
      respond-Fair is_header x a l (joined (err e)) (λ hit h. absurd (ground arith))
  guarded_fill-Fair p x ds a (ok limit, s) w l = respond-Fair is_header x a l _ λ hit h. inr (
      joined-IsAt x.later a x.fill_panics _ hit
        (resolve_miss-Stands sha256 sanitize now x.later ds a (some limit) w) h)

  on_miss-Fair :
      (service : Service) (x : Circumstances) (a : Artifact) (s : State) (w : World)
      → is_blank a.provenance.license ≡ false
      → Fair x a (on_miss sha256 sanitize now is_header service x a s w).0
  unfolding on_miss fill_worker
  on_miss-Fair service x a s w l = elim (Option-cases service.policy) [
    | inr (p, h) ↦ rw (h, on_miss) (guarded_fill-Fair p x service.store a _ w l)
    | inl h ↦
        rw (h, on_miss)
          (elim (Bool-cases (not x.fills_open)) [
            | inl y ↦ rw y (λ q. absurd (omega arith))
            | inr y ↦ rw y (
                respond-Fair is_header x a l _ (λ hit k. inr (
                  joined-IsAt x.later a x.fill_panics _ hit
                    (resolve_miss-Stands sha256 sanitize now x.later service.store a none w) k)))
          ])
  ]

  serve_artifact-Fair :
      (service : Service) (x : Circumstances) (a : Artifact) (s : State) (w : World)
      → Fair x a (serve_artifact sha256 sanitize now is_header service x a s w).0
  unfolding serve_artifact
  serve_artifact-Fair service x a s w = elim (Bool-cases (not x.work_open)) [
    | inl y ↦
        if_true (λ (r : Response × State × World). Fair x a r.0) (not x.work_open)
          (status_only 503, s, w) _ y (refused-Fair x a)
    | inr y ↦
        if_false (λ (r : Response × State × World). Fair x a r.0) (not x.work_open) _ _ y
          (elim (Bool-cases x.head_panics) [
            | inl z ↦
                if_true (λ (r : Response × State × World). Fair x a r.0) x.head_panics
                  (respond is_header panicked, s, w) _ z (panicked-Fair is_header x a)
            | inr z ↦
                if_false (λ (r : Response × State × World). Fair x a r.0) x.head_panics _ _ z
                  (elim (Result-cases (first_lookup x.first a)) [
                    | inl (e, h) ↦ rw h (unfold respond in λ q. absurd (failure_no e q))
                    | inr (none, h) ↦
                        rw h (on_miss-Fair service x a s w (first_lookup_licensed x.first a none h))
                    | inr (some hit, h) ↦ rw h (
                        respond-Fair is_header x a (first_lookup_licensed x.first a (some hit) h)
                          (joined (ok hit))
                          (λ hit' k. inl (first_lookup-IsAt x.first a hit' (h ∙ ground arith))))
                  ])
          ])
  ]
    where
      failure_no : (e : Error) → (failure is_header e).status ≢ 302
      failure_no e h = ground arith

  -- When the handler redirects, the path is a key of the manifest, the artifact has a license, and the
  -- redirect goes to the URL that the mirror signed for the artifact's key, in the first lookup or in
  -- the fill. The mirror told of an object of that key, or accepted it for that key, with metadata
  -- that have the artifact's expected size and every digest pin of its check.
  pub artifact-IsFair :
      (service : Service) (x : Circumstances) (path : Bytes) (s : State) (w : World)
      → (artifact sha256 sanitize now is_header service x path s w).0.status ≡ 302
      → (key : ArtifactKey) × (a : Artifact) × (Key.new path ≡ ok key)
        × (Manifest.get key service.manifest ≡ some a)
        × IsFair x a (artifact sha256 sanitize now is_header service x path s w).0
  unfolding artifact
  artifact-IsFair service x path s w h = elim (Result-cases (Key.new path)) [
    | inl (e, k) ↦ absurd (let z = rw (k, artifact) at h in omega arith)
    | inr (key, k) ↦ elim (Option-cases (Manifest.get key service.manifest)) [
      | inl n ↦ absurd (let z = rw (k, artifact, n) at h in omega arith)
      | inr (a, n) ↦
          let z = rw (k, artifact, n) at h in
          (key, a, k, n, rw (k, artifact, n) (serve_artifact-Fair service x a s w z))
    ]
  ]
