-- ===== src/Server/Objects.antt =====
-- What stands behind a redirect: an object of the key that meets the artifact's pins.
use starfield_datastore.Prelude.{
  ℕ, ◌≡◌, refl, ap, ◌∙◌, ◌⊎◌, inl, inr, true, Option, List, none, some, arith, &&_true, all-append,
  Bytes, eq_bytes, eq_bytes_comm,
}
use mathlib.Core.Path.{subst}
use starfield_datastore.Error.{ok_inj, Result, ok, err, >>=-eq-ok, Result-cases}
use starfield_datastore.Check.{
  ContentCheck, sha256_is, magic, min_bytes, not_html, custom, all_of, no_check, Checks, nil, cons,
  pinned_sha256s, pinned_all,
}
use starfield_datastore.Check.Pins.{all_pins}
use starfield_datastore.Artifact.{Artifact}
use starfield_datastore.Store.Layout.{IndexEntry, Cache}
use starfield_datastore.Store.Local.{size_matches}
use starfield_datastore.Store.Resolve.{Datastore, ResolveOutcome}
use starfield_datastore.Store.Maintain.{entry_of}
use starfield_datastore.Server.Service.{
  MirrorObject, ObjectStore, Upload, World, check_pins, check_pins_all, check_metadata, redirect,
  object_of, upload, after_get, fill, resolve_miss,
}

mutual
  unfolding check_pins pinned_sha256s

  check_pins-pins :
      (c : ContentCheck) (meta : MirrorObject)
      → check_pins c meta ≡ true
      → all_pins meta.sha256 (pinned_sha256s c) ≡ true
  check_pins-pins (sha256_is pin) meta h = ground (arith, eq_bytes_comm pin meta.sha256)
  check_pins-pins (all_of cs) meta h = check_pins_all-pins cs meta h
  check_pins-pins (min_bytes n) meta h = refl
  check_pins-pins (magic prefixes trim) meta h = refl
  check_pins-pins not_html meta h = refl
  check_pins-pins (custom f) meta h = refl
  check_pins-pins no_check meta h = refl

  check_pins_all-pins :
      (cs : Checks) (meta : MirrorObject)
      → check_pins_all cs meta ≡ true
      → all_pins meta.sha256 (pinned_all cs) ≡ true
  check_pins_all-pins nil meta h = refl
  check_pins_all-pins (cons c cs) meta h =
      let (hc, hs) = &&_true _ _ h in
      all-append (eq_bytes meta.sha256) (pinned_sha256s c) (pinned_all cs)
      ∙ rw (check_pins-pins c meta hc, check_pins_all-pins cs meta hs) refl

-- The size and the digest pins of an artifact are those of a mirror object.
pub record Agrees (a : Artifact) (meta : MirrorObject) : Type 0 where
  pub size : size_matches a.expected_bytes meta.bytes ≡ true
  pub pins : all_pins meta.sha256 (pinned_sha256s a.check) ≡ true

-- The mirror said that it has the object of the artifact's key with that metadata, or accepted it.
abbrev pub Stands : ObjectStore → Artifact → MirrorObject → Type 0
Stands objects a meta =
    (objects.head a.key ≡ ok (some meta)) ⊎ ((d : Bytes) × (objects.put a.key d meta ≡ ok tt))

-- The URL is the one that the mirror signed for the artifact's key, and the object is there.
pub record IsAt (objects : ObjectStore) (a : Artifact) (hit : Bytes × MirrorObject) : Type 0 where
  pub signed : objects.presign a.key ≡ ok hit.0
  pub stands : Stands objects a hit.1
  pub agrees : Agrees a hit.1

pub redirect-IsAt :
    (objects : ObjectStore) (a : Artifact) (meta : MirrorObject) (hit : Bytes × MirrorObject)
    → Stands objects a meta
    → redirect objects a meta ≡ ok hit
    → IsAt objects a hit
unfolding redirect check_metadata
redirect-IsAt objects a meta hit there h =
    let (u, hc, hr) = >>=-eq-ok (check_metadata a meta) _ h in
    let (url, hp, hk) = >>=-eq-ok (objects.presign a.key) _ hr in
    let agrees : Agrees a meta = record {
      size = ground arith;
      pins = check_pins-pins a.check meta (ground arith);
    } in
    subst (IsAt objects a) (ok_inj _ _ hk) (record { signed = hp; stands = there; agrees = agrees })

upload-Stands :
    (objects : ObjectStore) (a : Artifact) (d : Bytes) (e : Option IndexEntry) (w : World)
    (meta : MirrorObject)
    → (upload objects a d e w).0 ≡ ok meta
    → Stands objects a meta
unfolding upload
upload-Stands objects a d none w meta h = absurd (ground arith)
upload-Stands objects a d (some e) w meta h =
    elim (Result-cases (objects.put a.key d (object_of e))) [
      | inl (f, p) ↦ absurd (ground arith)
      | inr (u, p) ↦
          let same : object_of e ≡ meta = ground arith in
          inr (d, subst (λ m. objects.put a.key d m ≡ ok tt) same p)
    ]

after_get-Stands :
    (objects : ObjectStore) (a : Artifact) (uploads : List Upload)
    (x : Result (Bytes × ResolveOutcome) × Cache) (meta : MirrorObject)
    → (after_get objects a uploads x).0 ≡ ok meta
    → Stands objects a meta
unfolding after_get
after_get-Stands objects a uploads (err e, c) meta h = absurd (ground arith)
after_get-Stands objects a uploads (ok (d, o), c) meta h =
    upload-Stands objects a d (entry_of a.key c) _ meta h

-- What a resolved miss reports stands at the mirror.
pub resolve_miss-Stands :
    (sha256 : Bytes → Bytes) (sanitize : Bytes → Bytes) (now : ℕ) (objects : ObjectStore)
    (ds : Datastore) (a : Artifact) (limit : Option ℕ) (w : World) (meta : MirrorObject)
    → (resolve_miss sha256 sanitize now objects ds a limit w).0 ≡ ok meta
    → Stands objects a meta
unfolding resolve_miss
resolve_miss-Stands sha256 sanitize now objects ds a limit w meta h =
    elim (Result-cases (objects.head a.key)) [
      | inl (e, p) ↦ absurd (let z = rw (p, resolve_miss) at h in ground arith)
      | inr (some m, p) ↦
          let z = rw (p, resolve_miss) at h in inl (p ∙ ap (λ x. ok (some x)) (ok_inj _ _ z))
      | inr (none, p) ↦
          let z = rw (p, resolve_miss) at h in
          after_get-Stands objects a w.uploads (fill sha256 sanitize now ds a limit w.cache) meta z
    ]
