-- ===== src/Store/Resolve/Import.antt =====
-- An imported file is served again from the local disk.
use starfield_datastore.Prelude.{
  ℕ, ◌≡◌, ◌≤◌, ◌++◌, refl, ap, ◌∙◌, inl, inr, Bool, true, false, false≢true, none, some, List, [],
  ◌∷◌, any, ◌==◌, arith, Bool-cases, ==_iff, &&_true, ||_false, length, length-append, Bytes, codes,
  eq_bytes, eq_bytes_refl, starts_with,
}
use starfield_datastore.Error.{ok, ◌>>◌}
use starfield_datastore.Key.{ArtifactKey}
use starfield_datastore.Check.{pass, check_body}
use starfield_datastore.Check.Pins.{check_body-split}
use starfield_datastore.Artifact.{Artifact}
use starfield_datastore.Store.Files.{Files, names, read, write, read-write}
use starfield_datastore.Store.Layout.{
  Sidecar, is_below, is_blocked, index_path, IndexEntry, new_entry, local_disk, entry, Cache,
  is_digest, parse_sidecar, read_entry, write_entry, publish_blob,
}
use starfield_datastore.Store.Receiver.Complete.{concat, receive_complete}
use starfield_datastore.Store.Local.{size_matches, validate, local_hit, publish, look_local}
use starfield_datastore.Store.Resolve.{
  Datastore, local_file, after_local, get_with_budget, get, import_file,
}
use starfield_datastore.Store.Resolve.Holds.{IsValid}

starts_with-length : (xs p : Bytes) → starts_with xs p ≡ true → length p ≤ length xs
unfolding starts_with
starts_with-length xs [] h = omega arith
starts_with-length [] (q ∷ p) h = absurd (false≢true h)
starts_with-length (x ∷ xs) (q ∷ p) h =
    let (hq, hp) = &&_true (x == q) (starts_with xs p) h in
    omega (arith, starts_with-length xs p hp)

-- No sidecar lies below itself.
is_below_same : (k : ArtifactKey) → is_below k k ≡ false
unfolding is_below
is_below_same k = elim (Bool-cases (starts_with (index_path k) (index_path k ++ codes "/"))) [
  | inr y ↦ y
  | inl y ↦
      let l = starts_with-length (index_path k) (index_path k ++ codes "/") y in
      absurd (omega (arith, length-append (index_path k) (codes "/")))
]

any-names-write :
    (p : Bytes → Bool) (k : Bytes) (v : Sidecar) (m : Files Sidecar)
    → p k ≡ false
    → any p (names m) ≡ false
    → any p (names (write k v m)) ≡ false
unfolding names write
any-names-write p k v [] hk h = rw hk refl
any-names-write p k v ((j, w) ∷ m) hk h = elim (Bool-cases (eq_bytes j k)) [
  | inl y ↦ rw (y, hk) (||_false (p j) _ h).1
  | inr y ↦ rw (y, (||_false (p j) _ h).0) (any-names-write p k v m hk (||_false (p j) _ h).1)
]

-- A key that is not blocked is not blocked by its own sidecar.
is_blocked-write :
    (k : ArtifactKey) (e : Sidecar) (c : Cache) (blobs : Files Bytes)
    → is_blocked k c ≡ false
    → is_blocked k (record c { index = write k e c.index; blobs = blobs; made = k ∷ c.made })
      ≡ false
unfolding is_blocked
is_blocked-write k e c blobs h =
    let (above, h1) = ||_false _ _ h in
    let (file, folder) = ||_false _ _ h1 in
    rw
      (
        any-names-write (is_below k) k e c.index (is_below_same k) above,
        any-names-write (λ other. is_below other k) k e c.index (is_below_same k) file,
        is_below_same k,
      )
      folder

-- The file system lets the sidecar be written.
pub record IsWritable (k : ArtifactKey) (c : Cache) : Type 0 where
  pub free : is_blocked k c ≡ false
  pub granted : c.refuses k ≡ false

module _ (sha256 : Bytes → Bytes) where
  validate-ok :
      (a : Artifact) (body : Bytes)
      → IsValid sha256 a body
      → validate sha256 a body (length body) (sha256 body) ≡ ok tt
  unfolding validate
  validate-ok a body v =
      let (pins, rest) = (check_body-split sha256 a.check body).0 v.checked in
      rw (v.sized, pins, rest) refl

  -- The sidecar of an imported body, and the cache that has both.
  abbrev imported : ℕ → Bytes → IndexEntry
  imported now body = record (new_entry now (sha256 body) (length body) local_disk) {
    source = some (codes "local:import");
  }

  abbrev with_import : Artifact → ℕ → Bytes → Cache → Cache
  with_import a now body c = record c {
    index = write a.key (entry (imported now body)) c.index;
    blobs = write (sha256 body) body c.blobs;
    made = a.key ∷ c.made;
  }

  publish_blob-new :
      (body digest : Bytes) (c : Cache)
      → read digest c.blobs ≡ none
      → publish_blob sha256 body digest c
        ≡ (some digest, record c { blobs = write digest body c.blobs })
  unfolding publish_blob
  publish_blob-new body digest c n = rw (publish_blob, n) refl

  write_entry-new :
      (k : ArtifactKey) (e : IndexEntry) (c : Cache)
      → is_blocked k c ≡ false
      → c.refuses k ≡ false
      → write_entry k e c
        ≡ (ok tt, record c { index = write k (entry e) c.index; made = k ∷ c.made })
  unfolding write_entry
  write_entry-new k e c free granted = rw (free, granted) refl

  is_blocked-blobs :
      (k : ArtifactKey) (c : Cache) (blobs : Files Bytes)
      → is_blocked k (record c { blobs = blobs }) ≡ is_blocked k c
  unfolding is_blocked
  is_blocked-blobs k c blobs = refl

  publish-imported :
      (a : Artifact) (now : ℕ) (body : Bytes) (c : Cache)
      → IsValid sha256 a body
      → IsWritable a.key c
      → read (sha256 body) c.blobs ≡ none
      → publish sha256 a body (imported now body) c ≡ (ok (sha256 body), with_import a now body c)
  unfolding publish
  publish-imported a now body c v w n =
      let c1 : Cache = record c { blobs = write (sha256 body) body c.blobs } in
      let free = is_blocked-blobs a.key c (write (sha256 body) body c.blobs) ∙ w.free in
      let placed = publish_blob-new body (sha256 body) c n in
      let wrote =
        ap (λ x. write_entry a.key (imported now body) x.1) placed
        ∙ write_entry-new a.key (imported now body) c1 free w.granted in
      rw (validate-ok a body v, publish, placed) (ap (λ x. (x.0 >> ok (sha256 body), x.1)) wrote)

  local_hit-imported :
      (a : Artifact) (now : ℕ) (body : Bytes) (c : Cache)
      → IsValid sha256 a body
      → local_hit sha256 a (imported now body) (with_import a now body c) ≡ ok (some (sha256 body))
  unfolding local_hit
  local_hit-imported a now body c v =
      let (pins, rest) = (check_body-split sha256 a.check body).0 v.checked in
      rw
        (
          read-write (sha256 body) (sha256 body) body c.blobs,
          eq_bytes_refl (sha256 body),
          local_hit,
          pins,
          (==_iff (length body) (length body)).1 refl,
          validate-ok a body v,
          eq_bytes_refl (sha256 body),
        )
        refl

  look_local-imported :
      (a : Artifact) (now : ℕ) (body : Bytes) (c : Cache)
      → IsValid sha256 a body
      → is_blocked a.key c ≡ false
      → is_digest (sha256 body) ≡ true
      → look_local sha256 a (with_import a now body c) ≡ ok (some (imported now body, sha256 body))
  unfolding look_local read_entry parse_sidecar
  look_local-imported a now body c v free d =
      rw
        (
          is_blocked-write a.key (entry (imported now body)) c (write (sha256 body) body c.blobs)
              free,
          read-write a.key a.key (entry (imported now body)) c.index,
          eq_bytes_refl a.key,
          d,
          local_hit-imported a now body c v,
        )
        refl

module _ (sha256 : Bytes → Bytes) (sanitize : Bytes → Bytes) where
  -- A file that meets the artifact's size pin and check, and whose digest is not in the cache yet, is
  -- imported under its digest where the file system lets the sidecar be written and no other key's
  -- path collides with the key's, and from then on `get_with_outcome` serves it from the local disk,
  -- with its length, also offline, and leaves the cache as it is. The digest is taken to have the
  -- form of one.
  pub import_file-get :
      (ds : Datastore) (a : Artifact) (reads : List Bytes) (before now : ℕ) (c : Cache)
      → is_digest (sha256 (concat reads)) ≡ true
      → size_matches a.expected_bytes (length (concat reads)) ≡ true
      → check_body sha256 a.check (concat reads) ≡ pass
      → IsWritable a.key c
      → read (sha256 (concat reads)) c.blobs ≡ none
      → let digest = sha256 (concat reads) in
        ((import_file sha256 sanitize before a reads c).0 ≡ ok digest)
        × (get sha256 sanitize now ds a (import_file sha256 sanitize before a reads c).1 ≡ (
          ok (
            digest,
            record { layer = local_disk; bytes = length (concat reads); source_index = none },
          ),
          (import_file sha256 sanitize before a reads c).1,
        ))
  unfolding import_file get get_with_budget after_local
  import_file-get ds a reads before now c d size fine w n =
      let body = concat reads in
      let v : IsValid sha256 a body = record { sized = size; checked = fine } in
      rw
        (
          receive_complete sha256 (λ found. found) a (local_file reads) true refl refl fine,
          import_file,
          publish-imported sha256 a before body c v w n,
        )
        (refl, rw (look_local-imported sha256 a before body c v w.free d) refl)
