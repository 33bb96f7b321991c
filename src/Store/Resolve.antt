-- ===== src/Store/Resolve.antt =====
-- src/store/mod.rs: the resolution chain `local disk → mirror →
-- upstream`. The mirror and the archives enter as what they would send.
pub mod Effect
pub mod Holds
pub mod Sound
pub mod Integrity
pub mod Layers
pub mod Import
pub mod Collide
use starfield_datastore.Prelude.{
  ℕ, suc, Bool, true, false, not, ◌&&◌, ◌||◌, Option, none, some, List, [], ◌∷◌, ltb, ◌==◌,
  if◌then◌else◌, length, is_empty, Bytes, codes,
}
use starfield_datastore.Error.{
  Error, Reason, no_mirror, no_entry, failed, Attempts, attempt, nil, Result, ok, err,
  content_rejected, transfer_limit, offline_miss, mirror_unreachable, manual_required,
  all_sources_failed, no_credential, credential_rejected, mirror,
}
use starfield_datastore.Key.{ArtifactKey}
use starfield_datastore.Check.{pass}
use starfield_datastore.Artifact.{Artifact, Source}
use starfield_datastore.Store.Layout.{Layer, local_disk, upstream, IndexEntry, new_entry, Cache}
use starfield_datastore.Store.Local.{publish, look_local}
use starfield_datastore.Store.Receiver.{Producer, Received, receive, is_some}

-- `MirrorRead`: what a fetch of the key sends, and where the object lies.
pub record Mirror : Type 0 where
  pub object : ArtifactKey → Producer Bool
  pub location : ArtifactKey → Bytes

-- `Download` of fetch.rs
pub record Download : Type 0 where
  pub etag : Option Bytes
  pub provider_identity : Option Bytes

-- A `Datastore` beside its directory: its mirror, what its fetcher receives from a source
-- (`none` is a 404), and its two switches.
pub record Datastore : Type 0 where
  pub mirror : Option Mirror
  pub request : Source → Producer (Option Download)
  pub allow_upstream : Bool
  pub offline : Bool

pub record ResolveOutcome : Type 0 where
  pub layer : Layer
  pub bytes : ℕ
  pub source_index : Option ℕ

-- The cache directory and the budget cell of a call.
pub record Session : Type 0 where
  pub cache : Cache
  pub budget : Option ℕ

abbrev pub with_bytes : ℕ → Result Bytes × Cache → Option ℕ → Result (Option (Bytes × ℕ)) × Session
with_bytes bytes (err e, c) budget = (err e, record { cache = c; budget = budget })
with_bytes bytes (ok d, c) budget = (ok (some (d, bytes)), record { cache = c; budget = budget })

abbrev pub or_not_found : Result (Option (Bytes × ℕ)) × Session → Result (Bytes × ℕ) × Session
or_not_found (err e, s) = (err e, s)
or_not_found (ok none, s) = (err (Error.mirror "HTTP 404 Not Found"), s)
or_not_found (ok (some hit), s) = (ok hit, s)

abbrev pub found_at : Layer → Option ℕ → Bytes × ℕ → Result (Bytes × ResolveOutcome)
found_at layer index (d, bytes) =
    ok (d, record { layer = layer; bytes = bytes; source_index = index })

-- The errors that a sole source passes on as they are.
abbrev pub is_final : Error → Bool
is_final (content_rejected k f) = true
is_final (no_credential h) = true
is_final (credential_rejected h st x) = true
is_final e = false

abbrev pub is_transfer_limit : Error → Bool
is_transfer_limit transfer_limit = true
is_transfer_limit e = false

abbrev pub is_rejection : Error → Bool
is_rejection (content_rejected k f) = true
is_rejection transfer_limit = true
is_rejection e = false

abbrev pub over_budget : ℕ → Option ℕ → Bool
over_budget bytes none = false
over_budget bytes (some b) = ltb b bytes

abbrev pub local_file : List Bytes → Producer Bool
local_file reads = record { chunks = reads; ending = ok true; on_write_error = Error.io }

-- The `match` in the loop over the sources: return, or log the attempt and go on.
unfoldable pub after_source :
    Artifact
    → ℕ
    → Bytes
    → (Attempts → Attempts)
    → Result (Bytes × ℕ) × Session
    → ((Attempts → Attempts) → Session → Result (Bytes × ResolveOutcome) × Session)
    → Result (Bytes × ResolveOutcome) × Session
after_source artifact i place log (ok hit, s) next = (found_at upstream (some i) hit, s)
after_source artifact i place log (err e, s) next =
    if is_transfer_limit e || is_final e && length artifact.sources == 1
    then (err e, s)
    else next (λ later. log (attempt place e later)) s

module _ (sha256 : Bytes → Bytes) (sanitize : Bytes → Bytes) (now : ℕ) where
  -- Publish what was received, or pass on that nothing was.
  unfoldable pub store_received :
      Artifact
      → (Received → IndexEntry)
      → Result (Option Received)
      → Option ℕ
      → Cache
      → Result (Option (Bytes × ℕ)) × Session
  store_received artifact entry_of (err e) budget c = (err e, record { cache = c; budget = budget })
  store_received artifact entry_of (ok none) budget c =
      (ok none, record { cache = c; budget = budget })
  store_received artifact entry_of (ok (some r)) budget c =
      with_bytes r.bytes (publish sha256 artifact r.body (entry_of r) c) budget

  -- The sidecar of an object that the mirror served.
  abbrev mirror_entry : Bytes → Received → IndexEntry
  mirror_entry location r = record (new_entry now r.digest r.bytes Layer.mirror) {
    source = some location;
  }

  -- `Datastore::fetch_from_mirror`
  unfoldable pub fetch_from_mirror :
      Artifact → Mirror → Session → Result (Option (Bytes × ℕ)) × Session
  fetch_from_mirror artifact m s =
      let (received, budget) =
        receive sha256 (λ found. found) artifact s.budget (m.object artifact.key) in
      store_received artifact (mirror_entry (m.location artifact.key)) received budget s.cache

  abbrev upstream_entry : Source → Result (Option Download) → Received → IndexEntry
  upstream_entry source (ok (some d)) r = record (new_entry now r.digest r.bytes upstream) {
    source = some (sanitize source.url);
    etag = d.etag;
    provider_identity = d.provider_identity;
  }
  upstream_entry source _ r = new_entry now r.digest r.bytes upstream

  -- `Datastore::fetch_from_upstream`, from one source
  unfoldable pub fetch_from_upstream :
      Artifact → Source → Producer (Option Download) → Session → Result (Bytes × ℕ) × Session
  fetch_from_upstream artifact source producer s =
      let (received, budget) = receive sha256 is_some artifact s.budget producer in
      or_not_found
        (store_received artifact (upstream_entry source producer.ending) received budget s.cache)

  -- The loop over the sources from index `i`, with the attempts that failed so far.
  unfoldable pub try_sources :
      Datastore
      → Artifact
      → ℕ
      → List Source
      → (Attempts → Attempts)
      → Session
      → Result (Bytes × ResolveOutcome) × Session
  try_sources ds artifact i [] log s = (err (all_sources_failed artifact.key (log nil)), s)
  try_sources ds artifact i (source ∷ rest) log s =
      after_source artifact i (sanitize source.url) log
        (fetch_from_upstream artifact source (ds.request source) s)
        (try_sources ds artifact (suc i) rest)

  -- `get_with_budget` below the mirror.
  unfoldable pub resolve_upstream :
      Datastore → Artifact → Reason → Session → Result (Bytes × ResolveOutcome) × Session
  resolve_upstream ds artifact reason s =
      if is_empty artifact.sources
      then (err (manual_required artifact.key artifact.provenance.description), s)
      else if not ds.allow_upstream
      then (err (mirror_unreachable artifact.key reason), s)
      else try_sources ds artifact 0 artifact.sources (λ log. log) s

  -- What `get_with_budget` makes of the mirror's answer.
  unfoldable pub after_mirror :
      Datastore
      → Artifact
      → Mirror
      → Result (Option (Bytes × ℕ))
      → Session
      → Result (Bytes × ResolveOutcome) × Session
  after_mirror ds artifact m (ok (some hit)) s = (found_at Layer.mirror none hit, s)
  after_mirror ds artifact m (ok none) s =
      resolve_upstream ds artifact (no_entry (m.location artifact.key)) s
  after_mirror ds artifact m (err e) s =
      if is_rejection e then (err e, s) else resolve_upstream ds artifact (failed e) s

  -- `get_with_budget` below the local layer.
  unfoldable pub resolve_remote :
      Datastore → Artifact → Session → Result (Bytes × ResolveOutcome) × Session
  resolve_remote ds artifact s =
      if ds.offline then (err (offline_miss artifact.key), s) else elim ds.mirror [
        | none ↦ resolve_upstream ds artifact no_mirror s
        | some m ↦
            let (got, s') = fetch_from_mirror artifact m s in after_mirror ds artifact m got s'
      ]

  -- `get_with_budget` after the local layer.
  unfoldable pub after_local :
      Datastore
      → Artifact
      → Session
      → Result (Option (IndexEntry × Bytes))
      → Result (Bytes × ResolveOutcome) × Session
  after_local ds artifact s (err e) = (err e, s)
  after_local ds artifact s (ok none) = resolve_remote ds artifact s
  after_local ds artifact s (ok (some (e, d))) =
      if over_budget e.bytes s.budget
      then (err transfer_limit, s)
      else (found_at local_disk none (d, e.bytes), s)

  -- `Datastore::get_with_budget`
  unfoldable pub get_with_budget :
      Datastore → Artifact → Session → Result (Bytes × ResolveOutcome) × Session
  get_with_budget ds artifact s = after_local ds artifact s (look_local sha256 artifact s.cache)

  -- `Datastore::get_with_outcome`: with no budget.
  unfoldable pub get : Datastore → Artifact → Cache → Result (Bytes × ResolveOutcome) × Cache
  get ds artifact c =
      let (r, s) = get_with_budget ds artifact (record { cache = c; budget = none }) in (r, s.cache)

  -- `Datastore::get_limited`: at most `bytes` are written.
  unfoldable pub get_limited :
      Datastore → Artifact → ℕ → Cache → Result (Bytes × ResolveOutcome) × Cache
  get_limited ds artifact bytes c =
      let (r, s) = get_with_budget ds artifact (record { cache = c; budget = some bytes }) in
      (r, s.cache)

  -- `Datastore::import` of a file, as the reads in which `io::copy` takes it.
  unfoldable pub import_file : Artifact → List Bytes → Cache → Result Bytes × Cache
  import_file artifact reads c =
      elim (receive sha256 (λ found. found) artifact none (local_file reads)).0 [
        | err e ↦ (err e, c)
        | ok none ↦ (err Error.io, c)
        | ok (some r) ↦
            publish sha256 artifact r.body
              (record (new_entry now r.digest r.bytes local_disk) {
                source = some (codes "local:import");
              })
              c
      ]
