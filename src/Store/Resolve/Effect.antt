-- ===== src/Store/Resolve/Effect.antt =====
-- What each layer of the chain does to the cache: at most one publication that succeeds.
use starfield_datastore.Prelude.{
  ℕ, suc, ◌≡◌, refl, ◌∙◌, inl, inr, not, ◌&&◌, ◌||◌, Option, none, some, List, [], ◌∷◌, ◌==◌,
  Bool-cases, Option-cases, length, is_empty, Bytes,
}
use starfield_datastore.Error.{Reason, Attempts, Result, ok, err}
use starfield_datastore.Artifact.{Artifact, Source}
use starfield_datastore.Store.Layout.{IndexEntry, Cache}
use starfield_datastore.Store.Receiver.{Producer, Received}
use starfield_datastore.Store.Receiver.Transfer.{receive-digest}
use starfield_datastore.Store.Local.{publish}
use starfield_datastore.Store.Resolve.Holds.{Grows, Grows-same, Grows-trans, publish-err}
use starfield_datastore.Store.Resolve.{
  Mirror, Download, Datastore, ResolveOutcome, Session, store_received, fetch_from_mirror,
  fetch_from_upstream, after_source, try_sources, resolve_upstream, after_mirror, resolve_remote,
  upstream_entry, with_bytes, or_not_found, is_final, is_transfer_limit, is_rejection,
}

module _ (sha256 : Bytes → Bytes) (sanitize : Bytes → Bytes) (now : ℕ) where
  -- `c'` is `c` after the publication of a body under its own digest, perhaps behind others that
  -- placed their blobs and no sidecar.
  abbrev pub Stored : Artifact → Cache → Bytes → Cache → Type 0
  Stored a c d c' =
      (body : Bytes) × (e : IndexEntry) × (c1 : Cache) × Grows sha256 c c1
      × (e.digest ≡ sha256 body)
      × (e.bytes ≡ length body)
      × (publish sha256 a body e c1 ≡ (ok d, c'))

  Stored-after :
      (a : Artifact) (c c1 c2 : Cache) (d : Bytes)
      → Grows sha256 c c1
      → Stored a c1 d c2
      → Stored a c d c2
  Stored-after a c c1 c2 d g (body, e, c3, g3, hd, hb, stored) =
      (body, e, c3, Grows-trans sha256 c c1 c3 g g3, hd, hb, stored)

  abbrev Fills : Artifact → Cache → Result (Option (Bytes × ℕ)) × Session → Type 0
  Fills a c (err e, s) = Grows sha256 c s.cache
  Fills a c (ok none, s) = Grows sha256 c s.cache
  Fills a c (ok (some (d, n)), s) = Stored a c d s.cache

  with_bytes-Fills :
      (a : Artifact) (c : Cache) (body : Bytes) (e : IndexEntry) (n : ℕ) (b : Option ℕ)
      (r : Result Bytes) (c' : Cache)
      → e.digest ≡ sha256 body
      → e.bytes ≡ length body
      → publish sha256 a body e c ≡ (r, c')
      → Fills a c (with_bytes n (r, c') b)
  with_bytes-Fills a c body e n b (err f) c' hd hb h = publish-err sha256 a body e c c' f hd h
  with_bytes-Fills a c body e n b (ok d) c' hd hb h =
      (body, e, c, Grows-same sha256 c c refl, hd, hb, h)

  store_received-Fills :
      (a : Artifact) (f : Received → IndexEntry) (r : Result (Option Received)) (b : Option ℕ)
      (c : Cache)
      → ((x : Received)
          → r ≡ ok (some x)
          → ((f x).digest ≡ sha256 x.body) × ((f x).bytes ≡ length x.body))
      → Fills a c (store_received sha256 sanitize now a f r b c)
  unfolding store_received
  store_received-Fills a f (err e) b c h = Grows-same sha256 c c refl
  store_received-Fills a f (ok none) b c h = Grows-same sha256 c c refl
  store_received-Fills a f (ok (some x)) b c h =
      with_bytes-Fills a c x.body (f x) x.bytes b _ _ (h x refl).0 (h x refl).1 refl

  fetch_from_mirror-Fills :
      (a : Artifact) (m : Mirror) (s : Session)
      → Fills a s.cache (fetch_from_mirror sha256 sanitize now a m s)
  unfolding fetch_from_mirror
  fetch_from_mirror-Fills a m s =
      store_received-Fills a _ _ _ s.cache (receive-digest sha256 _ a s.budget (m.object a.key))

  abbrev pub Gets : Artifact → Cache → Result (Bytes × ResolveOutcome) × Session → Type 0
  Gets a c (err e, s) = Grows sha256 c s.cache
  Gets a c (ok (d, o), s) = Stored a c d s.cache

  abbrev Fetches : Artifact → Cache → Result (Bytes × ℕ) × Session → Type 0
  Fetches a c (err e, s) = Grows sha256 c s.cache
  Fetches a c (ok (d, n), s) = Stored a c d s.cache

  Fetches-after :
      (a : Artifact) (c c1 : Cache) (x : Result (Bytes × ℕ) × Session)
      → Grows sha256 c c1
      → Fetches a c1 x
      → Fetches a c x
  Fetches-after a c c1 (err e, s) g h = Grows-trans sha256 c c1 s.cache g h
  Fetches-after a c c1 (ok (d, n), s) g h = Stored-after a c c1 s.cache d g h

  or_not_found-Fetches :
      (a : Artifact) (c : Cache) (x : Result (Option (Bytes × ℕ)) × Session)
      → Fills a c x
      → Fetches a c (or_not_found x)
  or_not_found-Fetches a c (err e, s) h = h
  or_not_found-Fetches a c (ok none, s) h = h
  or_not_found-Fetches a c (ok (some (d, n)), s) h = h

  upstream_entry-digest :
      (source : Source) (d : Result (Option Download)) (x : Received)
      → ((upstream_entry sha256 sanitize now source d x).digest ≡ x.digest)
        × ((upstream_entry sha256 sanitize now source d x).bytes ≡ x.bytes)
  upstream_entry-digest source (ok (some d)) x = (refl, refl)
  upstream_entry-digest source (ok none) x = (refl, refl)
  upstream_entry-digest source (err e) x = (refl, refl)

  fetch_from_upstream-Fetches :
      (a : Artifact) (source : Source) (p : Producer (Option Download)) (s : Session)
      → Fetches a s.cache (fetch_from_upstream sha256 sanitize now a source p s)
  unfolding fetch_from_upstream
  fetch_from_upstream-Fetches a source p s = or_not_found-Fetches a s.cache _ (
      store_received-Fills a _ _ _ s.cache λ x e.
        let (hd, hb) = receive-digest sha256 _ a s.budget p x e in
        let (ed, eb) = upstream_entry-digest source p.ending x in (ed ∙ hd, eb ∙ hb))

  after_source-Gets :
      (a : Artifact) (i : ℕ) (place : Bytes) (log : Attempts → Attempts) (c : Cache)
      (x : Result (Bytes × ℕ) × Session)
      (next : (Attempts → Attempts) → Session → Result (Bytes × ResolveOutcome) × Session)
      → Fetches a c x
      → ((l : Attempts → Attempts) (s : Session) → Grows sha256 c s.cache → Gets a c (next l s))
      → Gets a c (after_source a i place log x next)
  unfolding after_source
  after_source-Gets a i place log c (ok hit, s) next h k = h
  after_source-Gets a i place log c (err e, s) next h k =
      elim (Bool-cases (is_transfer_limit e || is_final e && length a.sources == 1)) [
        | inl y ↦ rw y h
        | inr y ↦ rw y (k _ s h)
      ]

  try_sources-Gets :
      (ds : Datastore) (a : Artifact) (i : ℕ) (sources : List Source) (log : Attempts → Attempts)
      (c : Cache) (s : Session)
      → Grows sha256 c s.cache
      → Gets a c (try_sources sha256 sanitize now ds a i sources log s)
  unfolding try_sources
  try_sources-Gets ds a i [] log c s h = h
  try_sources-Gets ds a i (source ∷ rest) log c s h =
      after_source-Gets a i (sanitize source.url) log c _ _
        (Fetches-after a c s.cache _ h (fetch_from_upstream-Fetches a source (ds.request source) s))
        λ l s' e. try_sources-Gets ds a (suc i) rest l c s' e

  resolve_upstream-Gets :
      (ds : Datastore) (a : Artifact) (reason : Reason) (c : Cache) (s : Session)
      → Grows sha256 c s.cache
      → Gets a c (resolve_upstream sha256 sanitize now ds a reason s)
  unfolding resolve_upstream
  resolve_upstream-Gets ds a reason c s h = elim (Bool-cases (is_empty a.sources)) [
    | inl e ↦ rw e h
    | inr e ↦ rw e (elim (Bool-cases (not ds.allow_upstream)) [
      | inl f ↦ rw f h
      | inr f ↦ rw f (try_sources-Gets ds a 0 a.sources _ c s h)
    ])
  ]

  after_mirror-Gets :
      (ds : Datastore) (a : Artifact) (m : Mirror) (c : Cache) (r : Result (Option (Bytes × ℕ)))
      (s : Session)
      → Fills a c (r, s)
      → Gets a c (after_mirror sha256 sanitize now ds a m r s)
  unfolding after_mirror
  after_mirror-Gets ds a m c (ok (some hit)) s h = h
  after_mirror-Gets ds a m c (ok none) s h = resolve_upstream-Gets ds a _ c s h
  after_mirror-Gets ds a m c (err e) s h = elim (Bool-cases (is_rejection e)) [
    | inl y ↦ rw y h
    | inr y ↦ rw y (resolve_upstream-Gets ds a _ c s h)
  ]

  pub resolve_remote-Gets :
      (ds : Datastore) (a : Artifact) (s : Session)
      → Gets a s.cache (resolve_remote sha256 sanitize now ds a s)
  unfolding resolve_remote
  resolve_remote-Gets ds a s = elim (Bool-cases ds.offline) [
    | inl e ↦ rw e (Grows-same sha256 s.cache s.cache refl)
    | inr e ↦ rw e (elim (Option-cases ds.mirror) [
      | inl n ↦
          rw n (resolve_upstream-Gets ds a _ s.cache s (Grows-same sha256 s.cache s.cache refl))
      | inr (m, n) ↦ rw n (after_mirror-Gets ds a m s.cache _ _ (fetch_from_mirror-Fills a m s))
    ])
  ]
