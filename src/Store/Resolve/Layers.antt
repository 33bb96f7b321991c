-- ===== src/Store/Resolve/Layers.antt =====
-- Which layers of src/store/mod.rs `get_with_budget` a resolution asks.
use starfield_datastore.Prelude.{
  ℕ, ◌≡◌, refl, ap, Bool, true, false, Option, none, some, if◌then◌else◌, Bytes,
}
use starfield_datastore.Error.{Result, ok, err, Reason, no_entry, failed, no_mirror, offline_miss}
use starfield_datastore.Artifact.{Artifact, Source}
use starfield_datastore.Store.Layout.{IndexEntry, Cache}
use starfield_datastore.Store.Local.{look_local}
use starfield_datastore.Store.Receiver.{Producer}
use starfield_datastore.Store.Resolve.{
  Datastore, Mirror, over_budget, Download, ResolveOutcome, Session, is_rejection, resolve_upstream,
  after_mirror, resolve_remote, fetch_from_mirror, after_local, get_with_budget, get,
}

module _ (sha256 : Bytes → Bytes) (sanitize : Bytes → Bytes) (now : ℕ) where
  abbrev asking : Datastore → (Source → Producer (Option Download)) → Datastore
  asking ds request = record ds { request = request }

  resolve_upstream-closed :
      (ds : Datastore) (request : Source → Producer (Option Download)) (a : Artifact) (r : Reason)
      (s : Session)
      → ds.allow_upstream ≡ false
      → resolve_upstream sha256 sanitize now ds a r s
        ≡ resolve_upstream sha256 sanitize now (asking ds request) a r s
  unfolding resolve_upstream
  resolve_upstream-closed ds request a r s h = rw h refl

  after_mirror-closed :
      (ds : Datastore) (request : Source → Producer (Option Download)) (a : Artifact) (m : Mirror)
      (got : Result (Option (Bytes × ℕ))) (s : Session)
      → ds.allow_upstream ≡ false
      → after_mirror sha256 sanitize now ds a m got s
        ≡ after_mirror sha256 sanitize now (asking ds request) a m got s
  unfolding after_mirror
  after_mirror-closed ds request a m (ok (some hit)) s h = refl
  after_mirror-closed ds request a m (ok none) s h =
      resolve_upstream-closed ds request a (no_entry (m.location a.key)) s h
  after_mirror-closed ds request a m (err e) s h =
      ap (λ x. if is_rejection e then (err e, s) else x)
        (resolve_upstream-closed ds request a (failed e) s h)

  resolve_remote-closed :
      (ds : Datastore) (request : Source → Producer (Option Download)) (a : Artifact) (s : Session)
      → ds.allow_upstream ≡ false
      → resolve_remote sha256 sanitize now ds a s
        ≡ resolve_remote sha256 sanitize now (asking ds request) a s
  unfolding resolve_remote
  resolve_remote-closed ds request a s h =
      ap (λ x. if ds.offline then (err (offline_miss a.key), s) else x) (below ds.mirror)
    where
      below :
          (m : Option Mirror)
          → elim m [
            | none ↦ resolve_upstream sha256 sanitize now ds a no_mirror s
            | some m ↦
                let (got, s') = fetch_from_mirror sha256 sanitize now a m s in
                after_mirror sha256 sanitize now ds a m got s'
          ]
            ≡ elim m [
              | none ↦ resolve_upstream sha256 sanitize now (asking ds request) a no_mirror s
              | some m ↦
                  let (got, s') = fetch_from_mirror sha256 sanitize now a m s in
                  after_mirror sha256 sanitize now (asking ds request) a m got s'
            ]
      below none = resolve_upstream-closed ds request a no_mirror s h
      below (some m) =
          after_mirror-closed ds request a m (fetch_from_mirror sha256 sanitize now a m s).0
            (fetch_from_mirror sha256 sanitize now a m s).1 h

  after_local-closed :
      (ds : Datastore) (request : Source → Producer (Option Download)) (a : Artifact) (s : Session)
      (hit : Result (Option (IndexEntry × Bytes)))
      → ds.allow_upstream ≡ false
      → after_local sha256 sanitize now ds a s hit
        ≡ after_local sha256 sanitize now (asking ds request) a s hit
  unfolding after_local
  after_local-closed ds request a s (err e) h = refl
  after_local-closed ds request a s (ok none) h = resolve_remote-closed ds request a s h
  after_local-closed ds request a s (ok (some hit)) h = refl

  -- Without the permission to go upstream, what the sources of an artifact would send makes no
  -- difference to a resolution, neither to its result nor to the cache.
  pub get-closed :
      (ds : Datastore) (request : Source → Producer (Option Download)) (a : Artifact) (c : Cache)
      → ds.allow_upstream ≡ false
      → get sha256 sanitize now ds a c ≡ get sha256 sanitize now (asking ds request) a c
  unfolding get get_with_budget
  get-closed ds request a c h =
      let s : Session = record { cache = c; budget = none } in
      ap (λ r. (r.0, r.1.cache)) (after_local-closed ds request a s (look_local sha256 a c) h)

  same_session :
      (b : Bool) (x y : Result (Bytes × ResolveOutcome)) (s : Session)
      → (if◌then◌else◌ {A = Result (Bytes × ResolveOutcome) × Session} b (x, s) (y, s)).1 ≡ s
  same_session true x y s = refl
  same_session false x y s = refl

  after_local-offline :
      (ds ds' : Datastore) (a : Artifact) (s : Session) (hit : Result (Option (IndexEntry × Bytes)))
      → ds.offline ≡ true
      → ds'.offline ≡ true
      → (after_local sha256 sanitize now ds a s hit ≡ after_local sha256 sanitize now ds' a s hit)
        × ((after_local sha256 sanitize now ds a s hit).1 ≡ s)
  unfolding after_local resolve_remote
  after_local-offline ds ds' a s (err e) h h' = (refl, refl)
  after_local-offline ds ds' a s (ok none) h h' = (rw (h, h') refl, rw h refl)
  after_local-offline ds ds' a s (ok (some (e, d))) h h' =
      (refl, same_session (over_budget e.bytes s.budget) _ _ s)

  -- An offline datastore resolves from its own directory alone: whatever its mirror and its sources
  -- are, the result is the same, and the cache stays as it was.
  pub get_offline :
      (ds ds' : Datastore) (a : Artifact) (c : Cache)
      → ds.offline ≡ true
      → ds'.offline ≡ true
      → (get sha256 sanitize now ds a c ≡ get sha256 sanitize now ds' a c)
        × ((get sha256 sanitize now ds a c).1 ≡ c)
  unfolding get get_with_budget
  get_offline ds ds' a c h h' =
      let s : Session = record { cache = c; budget = none } in
      let (same, kept) = after_local-offline ds ds' a s (look_local sha256 a c) h h' in
      (ap (λ r. (r.0, r.1.cache)) same, ap (λ s. s.cache) kept)
