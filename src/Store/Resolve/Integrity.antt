-- ===== src/Store/Resolve/Integrity.antt =====
-- Well-formed caches: every blob hashes to its address, and every sidecar can be read and has its
-- blob. Publication keeps this, and keeps all that was there.
use starfield_datastore.Prelude.{
  ℕ, ◌≡◌, refl, sym, ap, ◌∙◌, ◌≢◌, ◌⊎◌, inl, inr, none, some, arith, Bool-cases, Bytes, eq_bytes,
  eq_bytes_iff, eq_bytes_refl,
}
use mathlib.Core.Path.{subst}
use starfield_datastore.Error.{Result, ok, err}
use starfield_datastore.Key.{ArtifactKey}
use starfield_datastore.Artifact.{Artifact}
use starfield_datastore.Store.Files.{read, write, read-write}
use starfield_datastore.Store.Layout.{IndexEntry, entry, malformed, Cache}
use starfield_datastore.Store.Local.{publish}
use starfield_datastore.Store.Resolve.{Datastore, ResolveOutcome, Session, get}
use starfield_datastore.Store.Resolve.Holds.{Placed, Grows, publish-ok}
use starfield_datastore.Store.Resolve.Sound.{Resolves, get_with_budget-Resolves}

-- Every blob of `c` is still there, and every sidecar but that of `key`.
pub record Extends (key : ArtifactKey) (c c' : Cache) : Type 0 where
  pub blobs : (d b : Bytes) → read d c.blobs ≡ some b → read d c'.blobs ≡ some b
  pub index : (k : ArtifactKey) → k ≢ key → read k c'.index ≡ read k c.index

Extends-same : (key : ArtifactKey) (c c' : Cache) → c' ≡ c → Extends key c c'
Extends-same key c c' h = record { blobs = λ d b r. rw h r; index = λ k ne. rw h refl }

Extends-trans :
    (key : ArtifactKey) (c c1 c2 : Cache) → Extends key c c1 → Extends key c1 c2 → Extends key c c2
Extends-trans key c c1 c2 g h = record {
  blobs = λ d b r. h.blobs d b (g.blobs d b r);
  index = λ k ne. h.index k ne ∙ g.index k ne;
}

module _ (sha256 : Bytes → Bytes) where
  Grows-Extends : (key : ArtifactKey) (c c' : Cache) → Grows sha256 c c' → Extends key c c'
  Grows-Extends key c c' g = record { blobs = g.kept; index = λ k ne. ap (read k) g.sidecars }

  pub record IsWellFormed (c : Cache) : Type 0 where
    pub addressed : (d b : Bytes) → read d c.blobs ≡ some b → sha256 b ≡ d
    pub readable : (k : ArtifactKey) → read k c.index ≢ some malformed
    pub resolved :
        (k : ArtifactKey) (e : IndexEntry)
        → read k c.index ≡ some (entry e)
        → (b : Bytes) × (read e.digest c.blobs ≡ some b)

  pub Grows-IsWellFormed : (c c' : Cache) → Grows sha256 c c' → IsWellFormed c → IsWellFormed c'
  Grows-IsWellFormed c c' g wf = record {
    addressed =
        λ d b r. elim (g.addressed d b r) [ inl old ↦ wf.addressed d b old | inr new ↦ new ];
    readable = λ k m. wf.readable k (sym (ap (read k) g.sidecars) ∙ m);
    resolved = λ k e m.
        let (b, hb) = wf.resolved k e (sym (ap (read k) g.sidecars) ∙ m) in
        (b, g.kept e.digest b hb);
  }

  Placed-keeps :
      (digest body : Bytes) (c c' : Cache)
      → Placed sha256 digest body c c'
      → (d b : Bytes) → read d c.blobs ≡ some b
      → read d c'.blobs ≡ some b
  Placed-keeps digest body c c' (inl (n, w)) d b h =
      rw w (ground (arith, read-write digest d body c.blobs, eq_bytes_iff digest d))
  Placed-keeps digest body c c' (inr (b', n, hb, w)) d b h = rw w h

  Placed-has :
      (digest body : Bytes) (c c' : Cache)
      → Placed sha256 digest body c c'
      → (b : Bytes) × (read digest c'.blobs ≡ some b)
  Placed-has digest body c c' (inl (n, w)) =
      (body, rw w (ground (arith, read-write digest digest body c.blobs, eq_bytes_refl digest)))
  Placed-has digest body c c' (inr (b', n, hb, w)) = (b', rw w n)

  Placed-addressed :
      (digest body : Bytes) (c c' : Cache)
      → Placed sha256 digest body c c'
      → digest ≡ sha256 body
      → ((d b : Bytes) → read d c.blobs ≡ some b → sha256 b ≡ d)
      → (d b : Bytes) → read d c'.blobs ≡ some b
      → sha256 b ≡ d
  Placed-addressed digest body c c' (inl (n, w)) hd old d b h =
      let h' = rw w at h in
      ground (arith, read-write digest d body c.blobs, eq_bytes_iff digest d, old d b)
  Placed-addressed digest body c c' (inr (b', n, hb, w)) hd old d b h = old d b (rw w at h)

  publish-Extends :
      (a : Artifact) (body : Bytes) (e : IndexEntry) (c c' : Cache) (d : Bytes)
      → publish sha256 a body e c ≡ (ok d, c')
      → Extends a.key c c'
  publish-Extends a body e c c' d h =
      let (v, hd, ix, placed) = publish-ok sha256 a body e c c' d h in
      record {
        blobs = Placed-keeps e.digest body c c' placed;
        index = λ k ne.
            rw ix (ground (arith, read-write a.key k (entry e) c.index, eq_bytes_iff a.key k));
      }

  written_entry :
      (a : Artifact) (e x : IndexEntry) (c c' : Cache) (k : ArtifactKey)
      → c'.index ≡ write a.key (entry e) c.index
      → read k c'.index ≡ some (entry x)
      → (x ≡ e) ⊎ (read k c.index ≡ some (entry x))
  written_entry a e x c c' k ix h =
      let h' = rw ix at h in
      let h'' = rw (read-write a.key k (entry e) c.index) at h' in
      elim (Bool-cases (eq_bytes a.key k)) [
        | inl y ↦ let z = rw y at h'' in inl (ground arith)
        | inr y ↦ inr (rw y at h'')
      ]

  pub publish-IsWellFormed :
      (a : Artifact) (body : Bytes) (e : IndexEntry) (c c' : Cache) (d : Bytes)
      → e.digest ≡ sha256 body
      → publish sha256 a body e c ≡ (ok d, c')
      → IsWellFormed c
      → IsWellFormed c'
  publish-IsWellFormed a body e c c' d hd h wf =
      let (v, _, ix, placed) = publish-ok sha256 a body e c c' d h in
      record {
        addressed = Placed-addressed e.digest body c c' placed hd wf.addressed;
        readable = λ k m.
            let m' = rw ix at m in
            ground (arith, read-write a.key k (entry e) c.index, wf.readable k);
        resolved = λ k x hx. elim (written_entry a e x c c' k ix hx) [
          | inl same ↦
              let (b, hb) = Placed-has e.digest body c c' placed in
              (b, ap (λ (y : IndexEntry). read y.digest c'.blobs) same ∙ hb)
          | inr old ↦
              let (b, hb) = wf.resolved k x old in
              (b, Placed-keeps e.digest body c c' placed x.digest b hb)
        ];
      }

module _ (sha256 : Bytes → Bytes) (sanitize : Bytes → Bytes) (now : ℕ) where
  Resolves-Extends :
      (a : Artifact) (c : Cache) (r : Result (Bytes × ResolveOutcome)) (s : Session)
      → Resolves sha256 sanitize now a c (r, s)
      → Extends a.key c s.cache
  Resolves-Extends a c (err e) s h = Grows-Extends sha256 a.key c s.cache h
  Resolves-Extends a c (ok (d, o)) s (inr (same, found)) = Extends-same a.key c s.cache same
  Resolves-Extends a c (ok (d, o)) s (inl (body, e, c1, g, hd, hb, stored)) =
      Extends-trans a.key c c1 s.cache (Grows-Extends sha256 a.key c c1 g)
        (publish-Extends sha256 a body e c1 s.cache d stored)

  Resolves-IsWellFormed :
      (a : Artifact) (c : Cache) (r : Result (Bytes × ResolveOutcome)) (s : Session)
      → Resolves sha256 sanitize now a c (r, s)
      → IsWellFormed sha256 c
      → IsWellFormed sha256 s.cache
  Resolves-IsWellFormed a c (err e) s h wf = Grows-IsWellFormed sha256 c s.cache h wf
  Resolves-IsWellFormed a c (ok (d, o)) s (inr (same, found)) wf =
      subst (IsWellFormed sha256) (sym same) wf
  Resolves-IsWellFormed a c (ok (d, o)) s (inl (body, e, c1, g, hd, hb, stored)) wf =
      publish-IsWellFormed sha256 a body e c1 s.cache d hd stored
        (Grows-IsWellFormed sha256 c c1 g wf)

  -- Whatever `get_with_outcome` returns, every blob that was there is there unchanged, and so is
  -- the sidecar of every other key.
  pub get-Extends :
      (ds : Datastore) (a : Artifact) (c : Cache)
      → Extends a.key c (get sha256 sanitize now ds a c).1
  unfolding get
  get-Extends ds a c =
      let s : Session = record { cache = c; budget = none } in
      Resolves-Extends a c _ _ (get_with_budget-Resolves sha256 sanitize now ds a s)

  -- `get_with_outcome` keeps the cache well-formed: each blob hashes to its address, each sidecar
  -- can be read and its blob is there.
  pub get-IsWellFormed :
      (ds : Datastore) (a : Artifact) (c : Cache)
      → IsWellFormed sha256 c
      → IsWellFormed sha256 (get sha256 sanitize now ds a c).1
  unfolding get
  get-IsWellFormed ds a c wf =
      let s : Session = record { cache = c; budget = none } in
      Resolves-IsWellFormed a c _ _ (get_with_budget-Resolves sha256 sanitize now ds a s) wf
