-- ===== src/Store/Resolve/Holds.antt =====
-- What a blob of the cache is good for: publication and local hits give valid bodies.
use starfield_datastore.Prelude.{
  ℕ, ◌≡◌, refl, sym, ap, ◌∙◌, ◌⊎◌, inl, inr, true, none, some, arith, Option-cases, length, Bytes,
  eq_bytes, eq_bytes_iff,
}
use starfield_datastore.Error.{Error, ok, err, Result-cases}
use starfield_datastore.Check.{Verdict, pass, fail, check_body}
use starfield_datastore.Check.Pins.{check_body-split}
use starfield_datastore.Artifact.{Artifact}
use starfield_datastore.Store.Files.{read, write, read-write}
use starfield_datastore.Store.Layout.{
  IndexEntry, entry, Cache, publish_blob, write_entry, read_entry,
}
use starfield_datastore.Store.Local.{
  size_matches, validate, local_hit, publish, look_local, from_verdict,
}

module _ (sha256 : Bytes → Bytes) where
  -- A body that meets the size pin and the whole check of an artifact, its digest pins included.
  pub record IsValid (a : Artifact) (body : Bytes) : Type 0 where
    pub sized : size_matches a.expected_bytes (length body) ≡ true
    pub checked : check_body sha256 a.check body ≡ pass

  from_verdict-ok : (a : Artifact) (v : Verdict) → from_verdict a v ≡ ok tt → v ≡ pass
  from_verdict-ok a pass h = refl
  from_verdict-ok a (fail f) h = ground arith

  validate-IsValid :
      (a : Artifact) (body : Bytes) (n : ℕ) (digest : Bytes)
      → digest ≡ sha256 body
      → n ≡ length body
      → validate sha256 a body n digest ≡ ok tt
      → IsValid a body
  unfolding validate
  validate-IsValid a body n digest hd hn h = record {
    sized = ground arith;
    checked =
        (check_body-split sha256 a.check body).1
          (rw (← hd) (ground arith), from_verdict-ok a _ (ground arith));
  }

  -- At `d` stands a blob that hashes to `d`, and a body with that digest is valid for the artifact.
  abbrev pub Holds : Artifact → Bytes → Cache → Type 0
  Holds a d c =
      (body : Bytes) × (v : Bytes) × (read d c.blobs ≡ some body)
      × (sha256 body ≡ d)
      × (sha256 v ≡ d)
      × IsValid a v

  -- The sidecars are the same, every blob is still there, and those that are new hash to their
  -- addresses.
  pub record Grows (c c' : Cache) : Type 0 where
    pub sidecars : c'.index ≡ c.index
    pub kept : (d b : Bytes) → read d c.blobs ≡ some b → read d c'.blobs ≡ some b
    pub addressed :
        (d b : Bytes) → read d c'.blobs ≡ some b → (read d c.blobs ≡ some b) ⊎ (sha256 b ≡ d)

  Grows-files : (c c' : Cache) → c'.index ≡ c.index → c'.blobs ≡ c.blobs → Grows c c'
  Grows-files c c' hi hb = record {
    sidecars = hi;
    kept = λ d b r. rw hb r;
    addressed = λ d b r. inl (rw hb at r);
  }

  pub Grows-same : (c c' : Cache) → c' ≡ c → Grows c c'
  Grows-same c c' h = Grows-files c c' (ap (λ x. x.index) h) (ap (λ x. x.blobs) h)

  pub Grows-trans : (c c1 c2 : Cache) → Grows c c1 → Grows c1 c2 → Grows c c2
  Grows-trans c c1 c2 g h = record {
    sidecars = h.sidecars ∙ g.sidecars;
    kept = λ d b r. h.kept d b (g.kept d b r);
    addressed =
        λ d b r. elim (h.addressed d b r) [ inl old ↦ g.addressed d b old | inr new ↦ inr new ];
  }

  -- What a successful publication does to the two directories.
  abbrev pub Placed : Bytes → Bytes → Cache → Cache → Type 0
  Placed digest body c c' =
      ((read digest c.blobs ≡ none) × (c'.blobs ≡ write digest body c.blobs))
      ⊎ ((b : Bytes) × (read digest c.blobs ≡ some b) × (sha256 b ≡ digest) × (c'.blobs ≡ c.blobs))

  pub publish-ok :
      (a : Artifact) (body : Bytes) (e : IndexEntry) (c c' : Cache) (d : Bytes)
      → publish sha256 a body e c ≡ (ok d, c')
      → (validate sha256 a body e.bytes e.digest ≡ ok tt)
        × (d ≡ e.digest)
        × (c'.index ≡ write a.key (entry e) c.index)
        × Placed e.digest body c c'
  unfolding publish publish_blob write_entry
  publish-ok a body e c c' d h = elim (Option-cases (read e.digest c.blobs)) [
    | inl n ↦ (ground arith, ground arith, ground arith, inl (n, ground arith))
    | inr (b, n) ↦
        let same : eq_bytes (sha256 b) e.digest ≡ true = ground arith in
        (
          ground arith,
          ground arith,
          ground arith,
          inr (b, n, (eq_bytes_iff (sha256 b) e.digest).0 same, ground arith),
        )
  ]

  -- A publication that fails leaves the sidecars as they were, and adds at most the body's blob.
  pub publish-err :
      (a : Artifact) (body : Bytes) (e : IndexEntry) (c c' : Cache) (f : Error)
      → e.digest ≡ sha256 body
      → publish sha256 a body e c ≡ (err f, c')
      → Grows c c'
  unfolding publish publish_blob write_entry
  publish-err a body e c c' f hd h = elim (Option-cases (read e.digest c.blobs)) [
    | inl n ↦
        let ix : c'.index ≡ c.index = ground arith in
        let bl : (c'.blobs ≡ c.blobs) ⊎ (c'.blobs ≡ write e.digest body c.blobs) = ground arith in
        elim bl [
          | inl same ↦ Grows-files c c' ix same
          | inr wrote ↦ record {
            sidecars = ix;
            kept = λ d b r.
                rw wrote
                  (ground (arith, read-write e.digest d body c.blobs, eq_bytes_iff e.digest d));
            addressed = λ d b r.
                let r' = rw wrote at r in
                ground (arith, read-write e.digest d body c.blobs, eq_bytes_iff e.digest d);
          }
        ]
    | inr (b, n) ↦ Grows-files c c' (ground arith) (ground arith)
  ]

  -- The blob of a successful publication.
  pub publish-Holds :
      (a : Artifact) (body : Bytes) (e : IndexEntry) (c c' : Cache) (d : Bytes)
      → e.digest ≡ sha256 body
      → e.bytes ≡ length body
      → publish sha256 a body e c ≡ (ok d, c')
      → Holds a d c'
  publish-Holds a body e c c' d hd hb h =
      let (v, hde, _, placed) = publish-ok a body e c c' d h in
      let valid = validate-IsValid a body e.bytes e.digest hd hb v in
      elim placed [
        | inl (n, w) ↦ (
          body,
          body,
          ap (read d) w
              ∙ read-write e.digest d body c.blobs
              ∙ rw ((eq_bytes_iff e.digest d).1 (sym hde)),
          sym hd ∙ sym hde,
          sym hd ∙ sym hde,
          valid,
        )
        | inr (b, n, hb', w) ↦ (
          b,
          body,
          ap (read d) w ∙ ap (λ x. read x c.blobs) hde ∙ n,
          hb' ∙ sym hde,
          sym hd ∙ sym hde,
          valid,
        )
      ]

  -- A local hit is the entry's own blob, of the recorded length and digest, and valid.
  pub local_hit-ok :
      (a : Artifact) (e : IndexEntry) (c : Cache) (d : Bytes)
      → local_hit sha256 a e c ≡ ok (some d)
      → (b : Bytes) × (d ≡ e.digest)
        × (read e.digest c.blobs ≡ some b)
        × (length b ≡ e.bytes)
        × (sha256 b ≡ e.digest)
        × (validate sha256 a b e.bytes (sha256 b) ≡ ok tt)
  unfolding local_hit
  local_hit-ok a e c d h = elim (Option-cases (read e.digest c.blobs)) [
    | inl n ↦ absurd (ground arith)
    | inr (b, n) ↦
        let same : eq_bytes (sha256 b) e.digest ≡ true = ground arith in
        (b, ground arith, n, ground arith, (eq_bytes_iff (sha256 b) e.digest).0 same, ground arith)
  ]

  pub local_hit-Holds :
      (a : Artifact) (e : IndexEntry) (c : Cache) (d : Bytes)
      → local_hit sha256 a e c ≡ ok (some d)
      → Holds a d c
  local_hit-Holds a e c d h =
      let (b, hd, r, hl, hs, v) = local_hit-ok a e c d h in
      (
        b,
        b,
        ap (λ x. read x c.blobs) hd ∙ r,
        hs ∙ sym hd,
        hs ∙ sym hd,
        validate-IsValid a b e.bytes (sha256 b) refl (sym hl) v,
      )

  pub look_local-ok :
      (a : Artifact) (c : Cache) (e : IndexEntry) (d : Bytes)
      → look_local sha256 a c ≡ ok (some (e, d))
      → (read_entry a.key c ≡ ok (some e)) × (local_hit sha256 a e c ≡ ok (some d))
  unfolding look_local
  look_local-ok a c e d h = elim (Result-cases (read_entry a.key c)) [
    | inl (f, r) ↦ absurd (ground arith)
    | inr (none, r) ↦ absurd (ground arith)
    | inr (some e', r) ↦ elim (Result-cases (local_hit sha256 a e' c)) [
      | inl (f, l) ↦ absurd (ground arith)
      | inr (none, l) ↦ absurd (ground arith)
      | inr (some d', l) ↦ ground arith
    ]
  ]
