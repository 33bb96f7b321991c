-- ===== src/Store/Resolve/Sound.antt =====
-- Whatever `get`, `get_limited` or `import` hands out has passed the artifact's check.
use starfield_datastore.Prelude.{
  ℕ, ◌≡◌, refl, sym, ap, ◌⊎◌, inl, inr, Option, none, some, arith, Bool-cases, Bytes,
}
use mathlib.Core.Path.{subst}
use starfield_datastore.Error.{Error, Result, ok, err}
use starfield_datastore.Artifact.{Artifact}
use starfield_datastore.Store.Layout.{IndexEntry, Cache}
use starfield_datastore.Store.Local.{look_local}
use starfield_datastore.Store.Resolve.{
  Datastore, ResolveOutcome, Session, after_local, get_with_budget, get, get_limited, over_budget,
}
use starfield_datastore.Store.Resolve.Effect.{Stored, Gets, resolve_remote-Gets}
use starfield_datastore.Store.Resolve.Holds.{
  Holds, Grows, Grows-same, publish-Holds, local_hit-Holds, look_local-ok,
}

module _ (sha256 : Bytes → Bytes) (sanitize : Bytes → Bytes) (now : ℕ) where
  -- A call either returns the entry's blob and changes nothing, or publishes one body under its
  -- digest; a call that fails leaves the sidecars, and what blobs it adds hash to their addresses.
  abbrev pub Resolves : Artifact → Cache → Result (Bytes × ResolveOutcome) × Session → Type 0
  Resolves a c (err e, s) = Grows sha256 c s.cache
  Resolves a c (ok (d, o), s) =
      Stored sha256 sanitize now a c d s.cache
      ⊎ ((s.cache ≡ c) × ((e : IndexEntry) × (look_local sha256 a c ≡ ok (some (e, d)))))

  remote-Resolves :
      (a : Artifact) (c : Cache) (x : Result (Bytes × ResolveOutcome) × Session)
      → Gets sha256 sanitize now a c x
      → Resolves a c x
  remote-Resolves a c (err e, s) h = h
  remote-Resolves a c (ok (d, o), s) h = inl h

  after_local-Resolves :
      (ds : Datastore) (a : Artifact) (s : Session) (r : Result (Option (IndexEntry × Bytes)))
      → look_local sha256 a s.cache ≡ r
      → Resolves a s.cache (after_local sha256 sanitize now ds a s r)
  unfolding after_local
  after_local-Resolves ds a s (err e) h = Grows-same sha256 s.cache s.cache refl
  after_local-Resolves ds a s (ok none) h =
      remote-Resolves a s.cache _ (resolve_remote-Gets sha256 sanitize now ds a s)
  after_local-Resolves ds a s (ok (some (e, d))) h =
      elim (Bool-cases (over_budget e.bytes s.budget)) [
        | inl o ↦ rw o (Grows-same sha256 s.cache s.cache refl)
        | inr o ↦ rw o (inr (refl, (e, h)))
      ]

  pub get_with_budget-Resolves :
      (ds : Datastore) (a : Artifact) (s : Session)
      → Resolves a s.cache (get_with_budget sha256 sanitize now ds a s)
  unfolding get_with_budget
  get_with_budget-Resolves ds a s = after_local-Resolves ds a s _ refl

  Resolves-Holds :
      (a : Artifact) (c : Cache) (r : Result (Bytes × ResolveOutcome)) (s : Session) (d : Bytes)
      (o : ResolveOutcome)
      → Resolves a c (r, s)
      → r ≡ ok (d, o)
      → Holds sha256 a d s.cache
  Resolves-Holds a c (err e) s d o h p = absurd (ground arith)
  Resolves-Holds a c (ok (d', o')) s d o h p =
      subst (λ x. Holds sha256 a x s.cache) (ground arith)
        (elim h [
          | inl (body, e, c1, g, hd, hb, stored) ↦
              publish-Holds sha256 a body e c1 s.cache d' hd hb stored
          | inr (same, (e, found)) ↦
              subst (λ x. Holds sha256 a d' x) (sym same)
                (local_hit-Holds sha256 a e c d' (look_local-ok sha256 a c e d' found).1)
        ])

  -- When `get_with_outcome` succeeds, it returns the address of a blob of the cache that hashes to
  -- it, and some body with that digest meets the artifact's size pin and its whole check.
  pub get-Holds :
      (ds : Datastore) (a : Artifact) (c c' : Cache) (d : Bytes) (o : ResolveOutcome)
      → get sha256 sanitize now ds a c ≡ (ok (d, o), c')
      → Holds sha256 a d c'
  unfolding get
  get-Holds ds a c c' d o h =
      let s : Session = record { cache = c; budget = none } in
      subst (λ x. Holds sha256 a d x) (ap (λ p. p.1) h)
        (Resolves-Holds a c _ _ d o (get_with_budget-Resolves ds a s) (ap (λ p. p.0) h))

  -- When `get_limited` succeeds, whatever the limit, it returns the address of a blob of the cache
  -- that hashes to it, and some body with that digest meets the artifact's size pin and its whole
  -- check.
  pub get_limited-Holds :
      (ds : Datastore) (a : Artifact) (limit : ℕ) (c c' : Cache) (d : Bytes) (o : ResolveOutcome)
      → get_limited sha256 sanitize now ds a limit c ≡ (ok (d, o), c')
      → Holds sha256 a d c'
  unfolding get_limited
  get_limited-Holds ds a limit c c' d o h =
      let s : Session = record { cache = c; budget = some limit } in
      subst (λ x. Holds sha256 a d x) (ap (λ p. p.1) h)
        (Resolves-Holds a c _ _ d o (get_with_budget-Resolves ds a s) (ap (λ p. p.0) h))

  Resolves-err :
      (a : Artifact) (c : Cache) (r : Result (Bytes × ResolveOutcome)) (s : Session) (e : Error)
      → Resolves a c (r, s)
      → r ≡ err e
      → Grows sha256 c s.cache
  Resolves-err a c (err e') s e h p = h
  Resolves-err a c (ok (d, o)) s e h p = absurd (ground arith)

  -- A `get_with_outcome` that fails leaves every sidecar and every blob as it was. It may add blobs,
  -- where their sidecar could not be written: each of them hashes to its address.
  pub get-err :
      (ds : Datastore) (a : Artifact) (c c' : Cache) (e : Error)
      → get sha256 sanitize now ds a c ≡ (err e, c')
      → Grows sha256 c c'
  unfolding get
  get-err ds a c c' e h =
      let s : Session = record { cache = c; budget = none } in
      subst (Grows sha256 c) (ap (λ p. p.1) h)
        (Resolves-err a c _ _ e (get_with_budget-Resolves ds a s) (ap (λ p. p.0) h))
