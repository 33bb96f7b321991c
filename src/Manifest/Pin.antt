-- ===== src/Manifest/Pin.antt =====
-- What a pin adds to an artifact's check, and that it replaces none.
use starfield_datastore.Prelude.{
  ◌≡◌, refl, sym, ap, ◌∙◌, ◌≢◌, ◌↔◌, ◌⊎◌, inl, inr, true, none, some, [], ◌∷◌, arith, if◌then◌else◌,
  Bool-cases, &&_true, all-append, Bytes, eq_bytes, eq_bytes_iff, eq_bytes_refl, eq_bytes_comm,
}
use mathlib.Core.Path.{subst}
use starfield_datastore.Error.{ok, >>=-eq-ok, Result-cases}
use starfield_datastore.Key.{ArtifactKey}
use starfield_datastore.Check.{
  ContentCheck, sha256_is, magic, min_bytes, not_html, custom, all_of, no_check, Checks, nil, cons,
  pass, and_then, check_body, check_body_all, pinned_sha256s, pinned_all,
}
use starfield_datastore.Check.Pins.{all_pins}
use starfield_datastore.Artifact.{Artifact}
use starfield_datastore.Manifest.{
  Manifest, get, validate_digest, ensure_compatible_pin, ensure_compatible_pins, split_pin,
  pin_check, pin_entry, pin_sha256,
}

mutual
  unfolding ensure_compatible_pin pinned_sha256s

  compatible_lem :
      (c : ContentCheck) (digest : Bytes)
      → (ensure_compatible_pin c digest ≡ ok tt) ↔ (all_pins digest (pinned_sha256s c) ≡ true)
  compatible_lem (sha256_is pin) digest =
      (λ h. ground (arith, eq_bytes_comm pin digest), λ h. ground (arith, eq_bytes_comm pin digest))
  compatible_lem (magic prefixes trim) digest = (λ h. refl, λ h. refl)
  compatible_lem (min_bytes n) digest = (λ h. refl, λ h. refl)
  compatible_lem not_html digest = (λ h. refl, λ h. refl)
  compatible_lem (custom f) digest = (λ h. refl, λ h. refl)
  compatible_lem (all_of cs) digest = compatible_all_lem cs digest
  compatible_lem no_check digest = (λ h. refl, λ h. refl)

  compatible_all_lem :
      (cs : Checks) (digest : Bytes)
      → (ensure_compatible_pins cs digest ≡ ok tt) ↔ (all_pins digest (pinned_all cs) ≡ true)
  compatible_all_lem nil digest = (λ h. refl, λ h. refl)
  compatible_all_lem (cons c cs) digest =
      let split = all-append (eq_bytes digest) (pinned_sha256s c) (pinned_all cs) in
      (
        λ h.
            let (u, hc, hs) = >>=-eq-ok (ensure_compatible_pin c digest) _ h in
            split ∙ rw ((compatible_lem c digest).0 hc, (compatible_all_lem cs digest).0 hs),
        λ h.
            let (hc, hs) = &&_true _ _ (sym split ∙ h) in
            rw ((compatible_lem c digest).1 hc) ((compatible_all_lem cs digest).1 hs),
      )

-- `ensure_compatible_pin` accepts a digest exactly when every pin that `validate` would compare is
-- that digest.
pub ensure_compatible_pin_iff :
    (c : ContentCheck) (digest : Bytes)
    → (ensure_compatible_pin c digest ≡ ok tt) ↔ (all_pins digest (pinned_sha256s c) ≡ true)
ensure_compatible_pin_iff = compatible_lem

module _ (sha256 : Bytes → Bytes) where
  -- A digest that `split_pin` finds is one of the pins, and the check demands it.
  abbrev Finds : ContentCheck → Bytes → Type 0
  Finds c d =
      ((split_pin c).0 ≡ some d)
      × ((x : Bytes) → all_pins x (pinned_sha256s c) ≡ true → eq_bytes x d ≡ true)
      × ((body : Bytes) → check_body sha256 c body ≡ pass → sha256 body ≡ d)

  split_pin-cases : (c : ContentCheck) → (split_pin c ≡ (none, c)) ⊎ ((d : Bytes) × Finds c d)
  unfolding split_pin pinned_sha256s check_body
  split_pin-cases (sha256_is d) =
      inr (d, (refl, λ x h. ground arith, λ body h. ground (arith, eq_bytes_iff (sha256 body) d)))
  split_pin-cases (magic prefixes trim) = inl refl
  split_pin-cases (min_bytes n) = inl refl
  split_pin-cases not_html = inl refl
  split_pin-cases (custom f) = inl refl
  split_pin-cases no_check = inl refl
  split_pin-cases (all_of nil) = inl refl
  split_pin-cases (all_of (cons (magic prefixes trim) cs)) = inl refl
  split_pin-cases (all_of (cons (min_bytes n) cs)) = inl refl
  split_pin-cases (all_of (cons not_html cs)) = inl refl
  split_pin-cases (all_of (cons (custom f) cs)) = inl refl
  split_pin-cases (all_of (cons no_check cs)) = inl refl
  split_pin-cases (all_of (cons (all_of ds) cs)) = inl refl
  split_pin-cases (all_of (cons (sha256_is d) cs)) =
      inr (d, (refl, λ x h. (&&_true _ _ h).0, λ body h. demanded body h))
    where
      demanded :
          (body : Bytes)
          → and_then (check_body sha256 (sha256_is d) body) (check_body_all sha256 cs body) ≡ pass
          → sha256 body ≡ d
      demanded body h = elim (Bool-cases (eq_bytes (sha256 body) d)) [
        | inl y ↦ (eq_bytes_iff (sha256 body) d).0 y
        | inr y ↦ absurd (ground arith)
      ]

  -- The demands of a pinned check.
  abbrev pub Pinned : Bytes → ContentCheck → ContentCheck → Type 0
  Pinned digest c c' =
      (body : Bytes)
      → (check_body sha256 c' body ≡ pass)
        ↔ ((sha256 body ≡ digest) × (check_body sha256 c body ≡ pass))

  Pinned-same : (c : ContentCheck) (digest : Bytes) → Finds c digest → Pinned digest c c
  Pinned-same c digest f body = (λ h. (f.2 body h, h), λ h. h.1)

  Pinned-all :
      (c : ContentCheck) (digest : Bytes)
      → Pinned digest c (all_of (cons (sha256_is digest) (cons c nil)))
  unfolding check_body
  Pinned-all c digest body = (
    λ h. let e = eq_bytes_iff (sha256 body) digest in ground arith,
    λ h. rw ((eq_bytes_iff (sha256 body) digest).1 h.0, h.1),
  )

  pin_check-Pinned :
      (c c' : ContentCheck) (digest : Bytes) → pin_check c digest ≡ ok c' → Pinned digest c c'
  unfolding pin_check
  pin_check-Pinned c c' digest h =
      let (u, hu, hc) = >>=-eq-ok (ensure_compatible_pin c digest) _ h in
      elim (split_pin-cases c) [
        | inl s ↦
            let made : all_of (cons (sha256_is digest) (cons c nil)) ≡ c' = ground arith in
            subst (Pinned digest c) made (Pinned-all c digest)
        | inr (d, f) ↦
            let same = (eq_bytes_iff digest d).0 (f.1 digest ((compatible_lem c digest).0 hu)) in
            let kept : c ≡ c' = ground (arith, f.0, eq_bytes_refl d) in
            subst (Pinned digest c) kept (Pinned-same c digest (subst (Finds c) (sym same) f))
      ]

  pin_entry-ok :
      (key : ArtifactKey) (digest : Bytes) (m m' : Manifest)
      → pin_entry key digest m ≡ ok m'
      → (a : Artifact) × (c : ContentCheck) × (get key m ≡ some a)
        × (pin_check a.check digest ≡ ok c)
        × (get key m' ≡ some (record a { check = c }))
        × ((j : ArtifactKey) → j ≢ key → get j m' ≡ get j m)
  unfolding pin_entry get
  pin_entry-ok key digest [] m' h = absurd (ground arith)
  pin_entry-ok key digest (b ∷ m) m' h = elim (Bool-cases (eq_bytes b.key key)) [
    | inl y ↦ elim (Result-cases (pin_check b.check digest)) [
      | inl (e, p) ↦ absurd (ground arith)
      | inr (c, p) ↦
          let made : (record b { check = c }) ∷ m ≡ m' = ground arith in
          subst
            (λ x.
              (a : Artifact) × (c : ContentCheck) × (get key (b ∷ m) ≡ some a)
              × (pin_check a.check digest ≡ ok c)
              × (get key x ≡ some (record a { check = c }))
              × ((j : ArtifactKey) → j ≢ key → get j x ≡ get j (b ∷ m)))
            made
            (
              b,
              c,
              rw y refl,
              p,
              rw y refl,
              λ j ne. ground (arith, eq_bytes_iff b.key key, eq_bytes_iff b.key j),
            )
    ]
    | inr y ↦ elim (Result-cases (pin_entry key digest m)) [
      | inl (e, p) ↦ absurd (ground arith)
      | inr (rest, p) ↦
          let (a, c, hg, hp, hg', hj) = pin_entry-ok key digest m rest p in
          let made : b ∷ rest ≡ m' = ground arith in
          (
            a,
            c,
            rw y hg,
            hp,
            subst (λ x. get key x ≡ some (record a { check = c })) made (rw y hg'),
            λ j ne.
                ap (get j) (sym made) ∙ ap (λ x. if eq_bytes b.key j then some b else x) (hj j ne),
          )
    ]
  ]

  -- A pin that succeeds changes one artifact, that of the key: from then on its check demands the
  -- digest and what it demanded before, and nothing else. Every other key is looked up as before.
  pub pin_sha256-Pinned :
      (key : ArtifactKey) (digest : Bytes) (m m' : Manifest)
      → pin_sha256 key digest m ≡ ok m'
      → (a : Artifact) × (c : ContentCheck) × (get key m ≡ some a)
        × (get key m' ≡ some (record a { check = c }))
        × Pinned digest a.check c
        × ((j : ArtifactKey) → j ≢ key → get j m' ≡ get j m)
  unfolding pin_sha256
  pin_sha256-Pinned key digest m m' h =
      let (u, hd, he) = >>=-eq-ok (validate_digest digest) _ h in
      let (a, c, hg, hp, hg', hj) = pin_entry-ok key digest m m' he in
      (a, c, hg, hg', pin_check-Pinned a.check c digest hp, hj)
