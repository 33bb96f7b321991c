-- ===== src/Store/Spec.antt =====
-- What the store of src/store/mod.rs promises: a map from keys to digests, which resolutions and imports
-- extend and which `remove` and `gc` take keys from.
use starfield_datastore.Prelude.{
  ℕ, ◌≡◌, refl, sym, ap, ◌∙◌, ◌⊎◌, true, inl, inr, none, some, List, [], ◌∷◌, arith, Bool-cases,
  Bytes, eq_bytes, eq_bytes_iff,
}
use mathlib.Core.Path.{subst}
use starfield_datastore.Error.{Error, Result, ok, err, Result-cases}
use starfield_datastore.Key.{ArtifactKey}
use starfield_datastore.Artifact.{Artifact}
use starfield_datastore.Store.Files.{read, read-write}
use starfield_datastore.Store.Layout.{IndexEntry, entry, Cache, read_entry}
use starfield_datastore.Store.Local.{publish}
use starfield_datastore.Store.Receiver.{receive}
use starfield_datastore.Store.Receiver.Transfer.{receive-digest}
use starfield_datastore.Store.Resolve.{
  Datastore, ResolveOutcome, Session, get, import_file, local_file,
}
use starfield_datastore.Store.Resolve.Holds.{
  Grows, Grows-same, publish-err, publish-ok, look_local-ok, local_hit-ok,
}
use starfield_datastore.Store.Resolve.Sound.{Resolves, get_with_budget-Resolves, get-err}
use starfield_datastore.Store.Resolve.Integrity.{
  IsWellFormed, Grows-IsWellFormed, publish-IsWellFormed,
}
use starfield_datastore.Store.Maintain.{remove, gc}
use starfield_datastore.Store.Maintain.Evict.{gc-Thins, remove-Thins, remove-Without, gc-Without}
use starfield_datastore.Store.Maintain.Integrity.{remove-IsWellFormed, gc-IsWellFormed}
use starfield_datastore.Store.View.{
  missing, view-missing, loses, sidecar_digest, view, Event, after, after_all, digest_if,
  parse_sidecar-some, read_entry-none, absent_view, failed_run, Without-view, holds, forgets,
}

module _ (sha256 : Bytes → Bytes) (sanitize : Bytes → Bytes) where
  -- Calls in a row, each with its datastore, artifact and time, and the events that their results show.
  pub data Runs : Cache → List Event → Cache → Type 0 where
    idle : {c : Cache} → Runs c [] c
    resolves :
        {c c1 c2 : Cache} {es : List Event} (now : ℕ) (ds : Datastore) (a : Artifact) (d : Bytes)
        (o : ResolveOutcome)
        → get sha256 sanitize now ds a c ≡ (ok (d, o), c1)
        → Runs c1 es c2
        → Runs c (holds a.key d ∷ es) c2
    fails :
        {c c1 c2 : Cache} {es : List Event} (now : ℕ) (ds : Datastore) (a : Artifact) (e : Error)
        → get sha256 sanitize now ds a c ≡ (err e, c1)
        → Runs c1 es c2
        → Runs c es c2
    imports :
        {c c1 c2 : Cache} {es : List Event} (now : ℕ) (a : Artifact) (reads : List Bytes)
        (d : Bytes)
        → import_file sha256 sanitize now a reads c ≡ (ok d, c1)
        → Runs c1 es c2
        → Runs c (holds a.key d ∷ es) c2
    imports_fail :
        {c c1 c2 : Cache} {es : List Event} (now : ℕ) (a : Artifact) (reads : List Bytes)
        (e : Error)
        → import_file sha256 sanitize now a reads c ≡ (err e, c1)
        → Runs c1 es c2
        → Runs c es c2
    remove_fails :
        {c c1 c2 : Cache} {es : List Event} (k : ArtifactKey) (e : Error)
        → remove k c ≡ (err e, c1)
        → Runs c1 es c2
        → Runs c (loses (missing (eq_bytes k) c1) ∷ es) c2
    gc_fails :
        {c c1 c2 : Cache} {es : List Event} (limit : ℕ) (e : Error)
        → gc limit c ≡ (err e, c1)
        → Runs c1 es c2
        → Runs c (loses (missing (λ k. true) c1) ∷ es) c2
    removes :
        {c c1 c2 : Cache} {es : List Event} (k : ArtifactKey)
        → remove k c ≡ (ok tt, c1)
        → Runs c1 es c2
        → Runs c (forgets (k ∷ []) ∷ es) c2
    collects :
        {c c1 c2 : Cache} {es : List Event} (limit : ℕ) (gone : List ArtifactKey)
        → gc limit c ≡ (ok gone, c1)
        → Runs c1 es c2
        → Runs c (forgets gone ∷ es) c2

  -- One call keeps the cache well-formed and changes the view by its event.
  abbrev Does : Event → Cache → Cache → Type 0
  Does e c c' = IsWellFormed sha256 c' × ((k : ArtifactKey) → view c' k ≡ after e (view c) k)

  Grows-view : (c c' : Cache) → Grows sha256 c c' → view c' ≡ view c
  Grows-view c c' g = ap (λ i k. sidecar_digest (read k i)) g.sidecars

  Does-after : (e : Event) (c c1 c2 : Cache) → Grows sha256 c c1 → Does e c1 c2 → Does e c c2
  Does-after e c c1 c2 g (wf, h) = (wf, λ k. h k ∙ ap (λ v. after e v k) (Grows-view c c1 g))

  stored_view :
      (a : Artifact) (body : Bytes) (e : IndexEntry) (c c' : Cache) (d : Bytes)
      → e.digest ≡ sha256 body
      → publish sha256 a body e c ≡ (ok d, c')
      → IsWellFormed sha256 c
      → Does (holds a.key d) c c'
  stored_view a body e c c' d hd h wf =
      let (v, same, ix, placed) = publish-ok sha256 a body e c c' d h in
      (
        publish-IsWellFormed sha256 a body e c c' d hd h wf,
        λ k.
            ap (λ i. sidecar_digest (read k i)) ix
            ∙ ap sidecar_digest (read-write a.key k (entry e) c.index)
            ∙ digest_if (eq_bytes a.key k) e d (read k c.index) same,
      )

  hit_view :
      (c : Cache) (e : IndexEntry) (key : ArtifactKey) (d : Bytes)
      → read_entry key c ≡ ok (some e)
      → d ≡ e.digest
      → (k : ArtifactKey) → view c k ≡ after (holds key d) (view c) k
  unfolding read_entry
  hit_view c e key d h same k =
      let found =
        ap sidecar_digest (parse_sidecar-some (read key c.index) e (ground arith))
        ∙ ap some (sym same) in
      elim (Bool-cases (eq_bytes key k)) [
        | inr y ↦ rw y refl
        | inl y ↦ rw y (ap (view c) (sym ((eq_bytes_iff key k).0 y)) ∙ found)
      ]

  Resolves-Does :
      (now : ℕ) (a : Artifact) (c : Cache) (r : Result (Bytes × ResolveOutcome)) (s : Session)
      (d : Bytes) (o : ResolveOutcome)
      → Resolves sha256 sanitize now a c (r, s)
      → r ≡ ok (d, o)
      → IsWellFormed sha256 c
      → Does (holds a.key d) c s.cache
  Resolves-Does now a c (err e) s d o h p wf = absurd (ground arith)
  Resolves-Does now a c (ok (d', o')) s d o h p wf =
      subst (λ x. Does (holds a.key x) c s.cache) (ground arith)
        (elim h [
          | inl (body, e, c1, g, hd, hb, published) ↦ Does-after (holds a.key d') c c1 s.cache g (
              stored_view a body e c1 s.cache d' hd published (Grows-IsWellFormed sha256 c c1 g wf))
          | inr (same, (e, found)) ↦
              let (he, hit) = look_local-ok sha256 a c e d' found in
              let hd = (local_hit-ok sha256 a e c d' hit).1 in
              subst (λ x. Does (holds a.key d') c x) (sym same) (wf, hit_view c e a.key d' he hd)
        ])

  get-Does :
      (now : ℕ) (ds : Datastore) (a : Artifact) (c c' : Cache) (d : Bytes) (o : ResolveOutcome)
      → get sha256 sanitize now ds a c ≡ (ok (d, o), c')
      → IsWellFormed sha256 c
      → Does (holds a.key d) c c'
  unfolding get
  get-Does now ds a c c' d o h wf =
      let s : Session = record { cache = c; budget = none } in
      subst (Does (holds a.key d) c) (ap (λ p. p.1) h) (
        Resolves-Does now a c _ _ d o (get_with_budget-Resolves sha256 sanitize now ds a s)
          (ap (λ p. p.0) h) wf)

  import_file-Does :
      (now : ℕ) (a : Artifact) (reads : List Bytes) (c c' : Cache) (d : Bytes)
      → import_file sha256 sanitize now a reads c ≡ (ok d, c')
      → IsWellFormed sha256 c
      → Does (holds a.key d) c c'
  unfolding import_file
  import_file-Does now a reads c c' d h wf =
      elim (Result-cases (receive sha256 (λ found. found) a none (local_file reads)).0) [
        | inl (e, r) ↦ absurd (failed_run (rw (r, import_file) at h))
        | inr (none, r) ↦ absurd (failed_run (rw (r, import_file) at h))
        | inr (some x, r) ↦
            let (hd, hb) = receive-digest sha256 (λ found. found) a none (local_file reads) x r in
            stored_view a x.body _ c c' d hd (rw (r, import_file) at h) wf
      ]

  import_file-Grows :
      (now : ℕ) (a : Artifact) (reads : List Bytes) (c c' : Cache) (e : Error)
      → import_file sha256 sanitize now a reads c ≡ (err e, c')
      → Grows sha256 c c'
  unfolding import_file
  import_file-Grows now a reads c c' e h =
      elim (Result-cases (receive sha256 (λ found. found) a none (local_file reads)).0) [
        | inl (f, r) ↦ Grows-same sha256 c c' (let z = rw (r, import_file) at h in ground arith)
        | inr (none, r) ↦ Grows-same sha256 c c' (let z = rw (r, import_file) at h in ground arith)
        | inr (some x, r) ↦
            let (hd, hb) = receive-digest sha256 (λ found. found) a none (local_file reads) x r in
            publish-err sha256 a x.body _ c c' e hd (rw (r, import_file) at h)
      ]

  remove-Does :
      (k : ArtifactKey) (c c' : Cache)
      → remove k c ≡ (ok tt, c')
      → IsWellFormed sha256 c
      → Does (forgets (k ∷ [])) c c'
  unfolding remove
  remove-Does k c c' h wf = subst (Does (forgets (k ∷ [])) c) (ap (λ p. p.1) h) (
    remove-IsWellFormed sha256 k c wf,
    elim (Result-cases (read_entry k c)) [
      | inl (e, r) ↦ absurd (failed_run (rw (r, remove) at h))
      | inr (none, r) ↦ rw (r, remove) (absent_view c k (read_entry-none c k r))
      | inr (some e, r) ↦ Without-view c (remove k c).1 (k ∷ []) (remove-Without k e c r)
    ],
  )

  -- One call, and then those that follow.
  and_after :
      (e : Event) (es : List Event) (c c1 c2 : Cache)
      → Does e c c1
      → (IsWellFormed sha256 c1
          → IsWellFormed sha256 c2 × ((k : ArtifactKey) → view c2 k ≡ after_all es (view c1) k))
      → IsWellFormed sha256 c2 × ((k : ArtifactKey) → view c2 k ≡ after_all (e ∷ es) (view c) k)
  and_after e es c c1 c2 (wf1, h1) later =
      let (wf2, h2) = later wf1 in
      let seen : view c1 ≡ after e (view c) = λ i k. h1 k i in
      (wf2, λ k. h2 k ∙ ap (λ v. after_all es v k) seen)

  -- A call that leaves the sidecars, and then those that follow.
  and_after_failure :
      (es : List Event) (c c1 c2 : Cache)
      → Grows sha256 c c1
      → IsWellFormed sha256 c
      → (IsWellFormed sha256 c1
          → IsWellFormed sha256 c2 × ((k : ArtifactKey) → view c2 k ≡ after_all es (view c1) k))
      → IsWellFormed sha256 c2 × ((k : ArtifactKey) → view c2 k ≡ after_all es (view c) k)
  and_after_failure es c c1 c2 g wf later =
      let (wf2, h2) = later (Grows-IsWellFormed sha256 c c1 g wf) in
      (wf2, λ k. h2 k ∙ ap (λ v. after_all es v k) (Grows-view c c1 g))

  -- The store implements a map from keys to digests. From a well-formed cache, whatever calls of `get`,
  -- `import`, `remove` and `gc` follow each other: a `get` or an `import` that returns a digest sets
  -- its artifact's key to it, and one that fails changes nothing. A `remove` that succeeds forgets its
  -- key, and one that fails forgets that key or nothing. A `gc` that succeeds forgets the keys it
  -- reports, and one that fails forgets some keys. No other key ever changes. The
  -- cache stays well-formed: every digest of the map has its blob, which hashes to it.
  pub Runs-view :
      (c c' : Cache) (es : List Event)
      → Runs c es c'
      → IsWellFormed sha256 c
      → IsWellFormed sha256 c' × ((k : ArtifactKey) → view c' k ≡ after_all es (view c) k)
  Runs-view c c' es idle wf = (wf, λ k. refl)
  Runs-view c c' es (resolves {c1 = c1} {es = rest} now ds a d o h more) wf =
      and_after (holds a.key d) rest c c1 c' (get-Does now ds a c c1 d o h wf)
        (Runs-view c1 c' rest more)
  Runs-view c c' es (fails {c1 = c1} now ds a e h more) wf =
      and_after_failure es c c1 c' (get-err sha256 sanitize now ds a c c1 e h) wf
        (Runs-view c1 c' es more)
  Runs-view c c' es (imports_fail {c1 = c1} now a reads e h more) wf =
      and_after_failure es c c1 c' (import_file-Grows now a reads c c1 e h) wf
        (Runs-view c1 c' es more)
  Runs-view c c' es (remove_fails {c1 = c1} {es = rest} k e h more) wf =
      and_after (loses (missing (eq_bytes k) c1)) rest c c1 c'
        (
          subst (λ p. IsWellFormed sha256 p.1) h (remove-IsWellFormed sha256 k c wf),
          view-missing (eq_bytes k) c c1 λ j.
              subst
                (λ p.
                  (read j p.1.index ≡ read j c.index)
                  ⊎ ((eq_bytes k j ≡ true) × (read j p.1.index ≡ none)))
                h (remove-Thins k c j),
        )
        (Runs-view c1 c' rest more)
  Runs-view c c' es (gc_fails {c1 = c1} {es = rest} limit e h more) wf =
      and_after (loses (missing (λ k. true) c1)) rest c c1 c'
        (
          subst (λ p. IsWellFormed sha256 p.1) h (gc-IsWellFormed sha256 limit c wf),
          view-missing (λ k. true) c c1
              λ j. elim (gc-Thins limit c c1 e h j) [ inl same ↦ inl same | inr n ↦ inr (refl, n) ],
        )
        (Runs-view c1 c' rest more)
  Runs-view c c' es (imports {c1 = c1} {es = rest} now a reads d h more) wf =
      and_after (holds a.key d) rest c c1 c' (import_file-Does now a reads c c1 d h wf)
        (Runs-view c1 c' rest more)
  Runs-view c c' es (removes {c1 = c1} {es = rest} k h more) wf =
      and_after (forgets (k ∷ [])) rest c c1 c' (remove-Does k c c1 h wf)
        (Runs-view c1 c' rest more)
  Runs-view c c' es (collects {c1 = c1} {es = rest} limit gone h more) wf =
      and_after (forgets gone) rest c c1 c'
        (
          subst (λ p. IsWellFormed sha256 p.1) h (gc-IsWellFormed sha256 limit c wf),
          Without-view c c1 gone (gc-Without limit c c1 gone h),
        )
        (Runs-view c1 c' rest more)
