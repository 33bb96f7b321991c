-- ===== src/Store/Maintain/Integrity.antt =====
-- `remove` and `gc` keep the cache well-formed: no entry is left without its blob.
use starfield_datastore.Prelude.{
  ℕ, ◌-◌, ◌≡◌, refl, ◌∙◌, inl, inr, Bool, true, false, not, none, some, List, [], ◌∷◌, arith, leb,
  Bool-cases, Bytes, eq_bytes, eq_bytes_iff, leb_bytes,
}
use starfield_datastore.Error.{Result, ok, err, Result-cases}
use starfield_datastore.Key.{ArtifactKey}
use starfield_datastore.Store.Files.{Files, read, names, read-delete, any-sort_by, read→listed}
use starfield_datastore.Store.Layout.{
  IndexEntry, entry, Cache, read_entry, remove_entry, keys, list_blobs, remove_blob,
}
use starfield_datastore.Store.Resolve.Integrity.{IsWellFormed}
use starfield_datastore.Store.Maintain.Evict.{done-cache}
use starfield_datastore.Store.Maintain.{
  Entries, entries, refers, digest_referenced, unlink, remove, sweep, evict, after_evict, add_key,
  evict_while, gc,
}
use starfield_datastore.Store.Maintain.Referenced.{read_entries-refers, digest_referenced-false}

module _ (sha256 : Bytes → Bytes) where
  remove_entry-IsWellFormed :
      (k : ArtifactKey) (c : Cache) → IsWellFormed sha256 c → IsWellFormed sha256 (remove_entry k c)
  unfolding remove_entry
  remove_entry-IsWellFormed k c wf = record {
    addressed = wf.addressed;
    readable = λ j m. ground (arith, read-delete k j c.index, wf.readable j);
    resolved = λ j e m. wf.resolved j e (ground (arith, read-delete k j c.index));
  }

  remove_blob-IsWellFormed :
      (d : Bytes) (c : Cache)
      → ((k : ArtifactKey) (e : IndexEntry)
          → read k c.index ≡ some (entry e)
          → eq_bytes e.digest d ≡ false)
      → IsWellFormed sha256 c
      → IsWellFormed sha256 (remove_blob d c)
  unfolding remove_blob
  remove_blob-IsWellFormed d c unused wf = record {
    addressed = λ j b m. wf.addressed j b (ground (arith, read-delete d j c.blobs));
    readable = wf.readable;
    resolved = λ j e m.
        let (b, hb) = wf.resolved j e m in
        (
          b,
          ground (
            arith,
            read-delete d e.digest c.blobs,
            unused j e m,
            eq_bytes_iff e.digest d,
            eq_bytes_iff d e.digest,
          ),
        );
  }

  unlink-IsWellFormed :
      (k : ArtifactKey) (e : IndexEntry) (c : Cache)
      → IsWellFormed sha256 c
      → IsWellFormed sha256 (unlink k e c).1
  unfolding unlink
  unlink-IsWellFormed k e c wf =
      let wf' = remove_entry-IsWellFormed k c wf in
      elim (Result-cases (digest_referenced e.digest (remove_entry k c))) [
        | inl (f, h) ↦ rw (h, unlink) wf'
        | inr (true, h) ↦ rw (h, unlink) wf'
        | inr (false, h) ↦
            rw (h, unlink)
              (remove_blob-IsWellFormed e.digest (remove_entry k c)
                (λ j x m. digest_referenced-false e.digest (remove_entry k c) j x h m) wf')
      ]

  -- `remove` keeps the cache well-formed, also when it fails: no other key loses its blob.
  pub remove-IsWellFormed :
      (k : ArtifactKey) (c : Cache) → IsWellFormed sha256 c → IsWellFormed sha256 (remove k c).1
  unfolding remove
  remove-IsWellFormed k c wf = elim (Result-cases (read_entry k c)) [
    | inl (f, h) ↦ rw (h, remove) wf
    | inr (none, h) ↦ rw (h, remove) wf
    | inr (some e, h) ↦
        rw (h, remove) (rw (done-cache (unlink k e c)) (unlink-IsWellFormed k e c wf))
  ]

  evict-IsWellFormed :
      (sizes : Files ℕ) (x : ArtifactKey × IndexEntry) (c : Cache)
      → IsWellFormed sha256 c
      → IsWellFormed sha256 (evict sizes x c).1
  unfolding evict
  evict-IsWellFormed sizes (k, snapshot) c wf = elim (Result-cases (read_entry k c)) [
    | inl (f, h) ↦ rw (h, evict) wf
    | inr (none, h) ↦ rw (h, evict) wf
    | inr (some e, h) ↦ elim (Bool-cases (not (eq_bytes e.digest snapshot.digest))) [
      | inl y ↦ rw (h, evict, y) wf
      | inr y ↦
          rw (h, evict, y)
            (let kept = unlink-IsWellFormed k e c wf in
              elim (Result-cases (unlink k e c).0) [
                | inl (f, u) ↦ rw u kept
                | inr (true, u) ↦ rw u kept
                | inr (false, u) ↦ rw u kept
              ])
    ]
  ]

  add_key-cache :
      (b : Bool) (k : ArtifactKey) (x : Result (List ArtifactKey) × Cache) → (add_key b k x).1 ≡ x.1
  add_key-cache b k (ok ks, c) = refl
  add_key-cache b k (err e, c) = refl

  after_evict-IsWellFormed :
      (k : ArtifactKey) (total : ℕ) (next : ℕ → Cache → Result (List ArtifactKey) × Cache)
      (x : Result (ℕ × Bool) × Cache)
      → IsWellFormed sha256 x.1
      → ((n : ℕ) (c : Cache) → IsWellFormed sha256 c → IsWellFormed sha256 (next n c).1)
      → IsWellFormed sha256 (after_evict k total next x).1
  unfolding after_evict
  after_evict-IsWellFormed k total next (err f, c) wf later = wf
  after_evict-IsWellFormed k total next (ok (freed, b), c) wf later =
      rw (add_key-cache b k (next (total - freed) c)) (later (total - freed) c wf)

  evict_while-IsWellFormed :
      (limit : ℕ) (sizes : Files ℕ) (es : Entries) (total : ℕ) (c : Cache)
      → IsWellFormed sha256 c
      → IsWellFormed sha256 (evict_while limit sizes es total c).1
  unfolding evict_while
  evict_while-IsWellFormed limit sizes [] total c wf = wf
  evict_while-IsWellFormed limit sizes (x ∷ es) total c wf = elim (Bool-cases (leb total limit)) [
    | inl y ↦ rw (y, evict_while) wf
    | inr y ↦
        rw (y, evict_while)
          (after_evict-IsWellFormed x.0 total _ (evict sizes x c) (evict-IsWellFormed sizes x c wf)
            (λ n c' wf'. evict_while-IsWellFormed limit sizes es n c' wf'))
  ]

  -- `sweep` removes blobs that the entries of the index do not name.
  abbrev Unused : Entries → Cache → Type 0
  Unused es c =
      (d : Bytes) (k : ArtifactKey) (e : IndexEntry)
      → refers d es ≡ false
      → read k c.index ≡ some (entry e)
      → eq_bytes e.digest d ≡ false

  sweep-IsWellFormed :
      (es : Entries) (found : List (Bytes × ℕ)) (c : Cache)
      → Unused es c
      → IsWellFormed sha256 c
      → IsWellFormed sha256 (sweep es found c).1
  unfolding sweep
  sweep-IsWellFormed es [] c unused wf = wf
  sweep-IsWellFormed es ((d, n) ∷ found) c unused wf = elim (Bool-cases (refers d es)) [
    | inl y ↦ rw y (sweep-IsWellFormed es found c unused wf)
    | inr y ↦ rw y (
        sweep-IsWellFormed es found (remove_blob d c) (unfold remove_blob in unused)
          (remove_blob-IsWellFormed d c (λ k e m. unused d k e y m) wf))
  ]

  entries-Unused : (es : Entries) (c : Cache) → entries c ≡ ok es → Unused es c
  unfolding entries keys
  entries-Unused es c h d k e f r =
      read_entries-refers _ c es k e d h
        (any-sort_by leb_bytes (λ j. eq_bytes j k) (names c.index)
          ∙ read→listed k c.index (entry e) r)
        r f

  -- `gc` keeps the cache well-formed, whatever the limit and also when it fails midway: no entry
  -- is left without its blob.
  pub gc-IsWellFormed :
      (limit : ℕ) (c : Cache) → IsWellFormed sha256 c → IsWellFormed sha256 (gc limit c).1
  unfolding gc
  gc-IsWellFormed limit c wf = elim (Result-cases (entries c)) [
    | inl (f, h) ↦ rw (h, gc) wf
    | inr (es, h) ↦
        rw (h, gc)
          (evict_while-IsWellFormed limit _ _ _ _
            (sweep-IsWellFormed es (list_blobs c) c (entries-Unused es c h) wf))
  ]
