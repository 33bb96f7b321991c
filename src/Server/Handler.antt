-- ===== src/Server/Handler.antt =====
-- src/server.rs `artifact`: the handler of one request, with the guard of the coordinator where the
-- cache is managed. A worker may panic, which is modelled at its end, and a semaphore may be closed;
-- both are inputs. Texts of responses are left out.
use starfield_datastore.Prelude.{
  ℕ, Bool, true, false, not, ◌&&◌, ◌||◌, Option, none, some, ltb, leb, ◌==◌, if◌then◌else◌, Bytes,
}
use starfield_datastore.Error.{Error, Result, ok, err, ◌>>=◌, fill_unavailable, content_rejected}
use starfield_datastore.Key.{ArtifactKey}
use starfield_datastore.Key
use starfield_datastore.Artifact.{Artifact}
use starfield_datastore.Policy.{ServiceCachePolicy}
use starfield_datastore.Store.Resolve.{Datastore}
use starfield_datastore.Manifest.{Manifest}
use starfield_datastore.Manifest
use starfield_datastore.Server.Coordinator.{
  State, Environment, admit, maintain, Maintained, clean, broken, finish,
}
use starfield_datastore.Server.Service.{
  MirrorObject, ObjectStore, World, head, redirect, resolve_miss,
}

pub record Response : Type 0 where
  pub status : ℕ
  pub location : Option Bytes
  pub no_store : Bool
  pub sha256 : Option Bytes
  pub bytes : Option ℕ
  pub retry_after : Bool

abbrev pub status_only : ℕ → Response
status_only status = record {
  status = status;
  location = none;
  no_store = false;
  sha256 = none;
  bytes = none;
  retry_after = false;
}

-- What a joined worker gives: its result, unless it panicked.
pub data Joined : Type 0 where
  joined : Result (Bytes × MirrorObject) → Joined
  panicked : Joined

-- What happens around one request.
pub record Circumstances : Type 0 where
  -- the mirror at the first lookup and at the fill
  pub first : ObjectStore
  pub later : ObjectStore
  pub work_open : Bool
  pub fills_open : Bool
  pub head_panics : Bool
  pub fill_panics : Bool
  pub environment : Environment

pub record Service : Type 0 where
  pub manifest : Manifest
  pub store : Datastore
  pub policy : Option ServiceCachePolicy

-- `HeaderValue::from_str` of a digest and of a URL.
module _ (is_header : Bytes → Bool) where
  abbrev pub found : Bytes × MirrorObject → Response
  found (url, meta) =
      if is_header url
      then record {
        status = 302;
        location = some url;
        no_store = true;
        sha256 = (if is_header meta.sha256 then some meta.sha256 else none);
        bytes = some meta.bytes;
        retry_after = false;
      }
      else status_only 502

  abbrev pub failure : Error → Response
  failure (fill_unavailable reason) = record (status_only 503) { retry_after = true }
  failure (content_rejected key f) = status_only 422
  failure e = status_only 502

  -- The last `match` of the handler.
  unfoldable pub respond : Joined → Response
  respond panicked = status_only 500
  respond (joined (ok hit)) = found hit
  respond (joined (err e)) = failure e

-- The work of the first lookup.
unfoldable pub first_lookup : ObjectStore → Artifact → Result (Option (Bytes × MirrorObject))
first_lookup objects artifact = do
  found ← head objects artifact
  elim found [
    | none ↦ ok none
    | some meta ↦ redirect objects artifact meta >>= λ hit. ok (some hit)
  ]

-- How maintenance ends, as the coordinator sees it.
abbrev ending : Result (Unit {0}) → Maintained
ending (ok u) = clean
ending (err e) = broken e

-- The drop of a fill's guard: maintenance runs if it is the last one.
unfoldable pub drop_guard : ServiceCachePolicy → State → World → State × World
drop_guard p s w =
    if s.active == 1
    then (let (r, c) = maintain p w.cache in (finish (ending r) s, record w { cache = c }))
    else (finish clean s, w)

abbrev pub join : Bool → Result (Bytes × MirrorObject) → Joined
join true r = panicked
join false r = joined r

module _ (sha256 : Bytes → Bytes) (sanitize : Bytes → Bytes) (now : ℕ)
    (is_header : Bytes → Bool) where
  -- A worker that fills: `resolve_miss` and `redirect`.
  unfoldable pub fill_worker :
      Circumstances → Datastore → Artifact → Option ℕ → World → Joined × World
  fill_worker x ds artifact limit w =
      let (meta, w') = resolve_miss sha256 sanitize now x.later ds artifact limit w in
      (join x.fill_panics (meta >>= λ m. redirect x.later artifact m), w')

  -- A fill under the coordinator, after admission.
  unfoldable pub guarded_fill :
      ServiceCachePolicy
      → Circumstances
      → Datastore
      → Artifact
      → Result ℕ × State
      → World
      → Response × State × World
  guarded_fill p x ds artifact (err e, s) w = (respond is_header (joined (err e)), s, w)
  guarded_fill p x ds artifact (ok limit, s) w =
      let (r, w') = fill_worker x ds artifact (some limit) w in
      let (s', w'') = drop_guard p s w' in (respond is_header r, s', w'')

  -- The handler on a miss.
  unfoldable pub on_miss :
      Service → Circumstances → Artifact → State → World → Response × State × World
  on_miss service x artifact s w = elim service.policy [
    | some p ↦
        guarded_fill p x service.store artifact (admit p artifact.expected_bytes x.environment s) w
    | none ↦
        if not x.fills_open
        then (status_only 503, s, w)
        else (let (r, w') = fill_worker x service.store artifact none w in
            (respond is_header r, s, w'))
  ]

  -- The handler for an artifact of the manifest.
  unfoldable pub serve_artifact :
      Service → Circumstances → Artifact → State → World → Response × State × World
  serve_artifact service x artifact s w =
      if not x.work_open
      then (status_only 503, s, w)
      else if x.head_panics
      then (respond is_header panicked, s, w)
      else elim (first_lookup x.first artifact) [
        | err e ↦ (respond is_header (joined (err e)), s, w)
        | ok (some hit) ↦ (respond is_header (joined (ok hit)), s, w)
        | ok none ↦ on_miss service x artifact s w
      ]

  -- `artifact`, for the key of the request's path.
  unfoldable pub artifact :
      Service → Circumstances → Bytes → State → World → Response × State × World
  artifact service x path s w = elim (Key.new path) [
    | err e ↦ (status_only 404, s, w)
    | ok key ↦ elim (Manifest.get key service.manifest) [
      | none ↦ (status_only 404, s, w)
      | some a ↦ serve_artifact service x a s w
    ]
  ]

-- An address as `private_bind` reads it: the octets, or the first three segments.
pub data Address : Type 0 where
  v4 : ℕ → ℕ → ℕ → ℕ → Address
  v6 : ℕ → ℕ → ℕ → Address

-- `private_bind`; `is_loopback` is the standard library's.
unfoldable pub private_bind : (Address → Bool) → Address → Bool
private_bind is_loopback (v4 a b c d) =
    is_loopback (v4 a b c d) || a == 100 && (leb 64 b && ltb b 128)
private_bind is_loopback (v6 a b c) =
    is_loopback (v6 a b c) || a == 0xfd7a && (b == 0x115c && c == 0xa1e0)
