-- ===== src/Store/Resolve/Collide.antt =====
-- Keys whose sidecars cannot stand beside each other, since `index_path` of src/store/layout.rs makes a
-- file for the one what is a directory for the other.
use starfield_datastore.Prelude.{
  ℕ, ◌≡◌, ◌≢◌, refl, sym, ap, ◌∙◌, inl, inr, Bool, true, false, false≢true, none, some, List, [],
  ◌∷◌, ◌++◌, arith, Bool-cases, Option-cases, any, Bytes, codes, eq_bytes, eq_bytes_iff,
  starts_with,
}
use mathlib.Core.List.{append_assoc}
use starfield_datastore.Error.{ok, err, io, Result-cases}
use starfield_datastore.Artifact.{Artifact}
use starfield_datastore.Store.Files.{Files, read, names}
use starfield_datastore.Store.Layout.{
  IndexEntry, Sidecar, Cache, index_path, is_below, is_blocked, read_entry, write_entry,
  publish_blob,
}
use starfield_datastore.Store.Local.{publish, look_local}
use starfield_datastore.Store.Receiver.{receive}
use starfield_datastore.Store.Resolve.{
  Datastore, local_file, after_local, get_with_budget, get, import_file,
}

starts_with-start : (p t : Bytes) → starts_with (p ++ t) p ≡ true
unfolding starts_with
starts_with-start [] t = refl
starts_with-start (x ∷ p) t = ground (arith, starts_with-start p t)

-- The path of `k.json/rest` lies below that of `k`.
is_below-folder : (key k rest : Bytes) → key ≡ k ++ (codes ".json/" ++ rest) → is_below key k ≡ true
unfolding is_below index_path
is_below-folder key k rest h =
    let path : key ++ codes ".json" ≡ (k ++ codes ".json/") ++ (rest ++ codes ".json") =
      ap (λ x. x ++ codes ".json") (h ∙ sym (append_assoc k (codes ".json/") rest))
      ∙ append_assoc (k ++ codes ".json/") rest (codes ".json") in
    let folder : (k ++ codes ".json") ++ codes "/" ≡ k ++ codes ".json/" =
      append_assoc k (codes ".json") (codes "/") in
    ap (λ x. starts_with x ((k ++ codes ".json") ++ codes "/")) path
    ∙ ap (starts_with ((k ++ codes ".json/") ++ (rest ++ codes ".json"))) folder
    ∙ starts_with-start (k ++ codes ".json/") (rest ++ codes ".json")

any-names :
    (p : Bytes → Bool) (k : Bytes) (v : Sidecar) (m : Files Sidecar)
    → read k m ≡ some v
    → p k ≡ true
    → any p (names m) ≡ true
unfolding read names
any-names p k v [] h hp = absurd (ground arith)
any-names p k v ((j, w) ∷ m) h hp = elim (Bool-cases (eq_bytes j k)) [
  | inl y ↦ let here : p j ≡ true = ap p ((eq_bytes_iff j k).0 y) ∙ hp in rw here refl
  | inr y ↦ ground (arith, any-names p k v m (ground arith) hp)
]

is_blocked-folder :
    (key k rest : Bytes) (v : Sidecar) (c : Cache)
    → read k c.index ≡ some v
    → key ≡ k ++ (codes ".json/" ++ rest)
    → is_blocked key c ≡ true
unfolding is_blocked
is_blocked-folder key k rest v c h e =
    ground (arith, any-names (is_below key) k v c.index h (is_below-folder key k rest e))

publish-free :
    (sha256 : Bytes → Bytes) (a : Artifact) (body : Bytes) (e : IndexEntry) (c c' : Cache)
    (d : Bytes)
    → publish sha256 a body e c ≡ (ok d, c')
    → is_blocked a.key c ≡ false
unfolding publish publish_blob write_entry is_blocked
publish-free sha256 a body e c c' d h = elim (Option-cases (read e.digest c.blobs)) [
  | inl n ↦ ground arith
  | inr (b, n) ↦ ground arith
]

module _ (sha256 : Bytes → Bytes) (sanitize : Bytes → Bytes) where
  import_file-free :
      (now : ℕ) (a : Artifact) (reads : List Bytes) (c c' : Cache) (d : Bytes)
      → import_file sha256 sanitize now a reads c ≡ (ok d, c')
      → is_blocked a.key c ≡ false
  unfolding import_file
  import_file-free now a reads c c' d h =
      elim (Result-cases (receive sha256 (λ found. found) a none (local_file reads)).0) [
        | inl (e, r) ↦ absurd (let z = rw (r, import_file) at h in ground arith)
        | inr (none, r) ↦ absurd (let z = rw (r, import_file) at h in ground arith)
        | inr (some x, r) ↦ publish-free sha256 a x.body _ c c' d (rw (r, import_file) at h)
      ]

  -- While a key `k` has its sidecar, the key `k.json/rest` cannot be cached, whatever it is: its `get`
  -- ends with an I/O error and leaves the cache, and no `import` of a file for it succeeds.
  pub get_collided :
      (now : ℕ) (ds : Datastore) (a : Artifact) (reads : List Bytes) (c : Cache) (k rest : Bytes)
      (v : Sidecar)
      → read k c.index ≡ some v
      → a.key ≡ k ++ (codes ".json/" ++ rest)
      → (get sha256 sanitize now ds a c ≡ (err io, c))
        × ((d : Bytes) → (import_file sha256 sanitize now a reads c).0 ≢ ok d)
  unfolding get get_with_budget after_local look_local read_entry
  get_collided now ds a reads c k rest v h e =
      let blocked = is_blocked-folder a.key k rest v c h e in
      (
        rw blocked refl,
        λ d p.
            let c' = (import_file sha256 sanitize now a reads c).1 in
            false≢true (sym (import_file-free now a reads c c' d (ap (λ r. (r, c')) p)) ∙ blocked),
      )
