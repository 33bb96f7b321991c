-- ===== src/CredentialConfig/Claims.antt =====
-- src/credential_config.rs `configured_provider`: the map of the hosts against a search through the
-- entries, on hosts in the form in which they are looked up.
use starfield_datastore.Prelude.{
  ℕ, suc, ◌+◌, ◌≤◌, ◌≡◌, refl, sym, ap, ◌∙◌, inl, inr, Bool, true, false, not, ◌&&◌, false≢true,
  Option, none, some, List, [], ◌∷◌, arith, if◌then◌else◌, Bool-cases, any, Bytes, eq_bytes,
  eq_bytes_iff,
}
use starfield_datastore.Error.{ok_inj, ok, >>=-eq-ok}
use starfield_datastore.CredentialConfig.{
  ByHost, lookup_host, is_claimed, claim_hosts, claim_all, normalized, is_unrecognized,
  validate_entries, SkippedCredential, configured_provider,
}
use starfield_datastore.CredentialConfig.Source.{CredentialConfig}

-- An entry of a known type that lists the host, in the form in which hosts are looked up.
abbrev pub claims : Bytes → CredentialConfig → Bool
claims host e = not (is_unrecognized e.source) && any (λ h. eq_bytes h host) (normalized e).hosts

-- The first entry that claims a host.
unfoldable pub find_claim : Bytes → List CredentialConfig → Option CredentialConfig
find_claim host [] = none
find_claim host (e ∷ es) =
    let rest = find_claim host es in if claims host e then some (normalized e) else rest

-- How many times a host stands in a list.
unfoldable pub count : Bytes → List Bytes → ℕ
count host [] = 0
count host (h ∷ hs) = let n = count host hs in if eq_bytes h host then suc n else n

-- How many times the entries of known types list a host.
unfoldable pub count_claims : Bytes → List CredentialConfig → ℕ
count_claims host [] = 0
count_claims host (e ∷ es) =
    let n = count_claims host es in
    if is_unrecognized e.source then n else count host (normalized e).hosts + n

abbrev taken : Option CredentialConfig → ℕ
taken none = 0
taken (some e) = 1

abbrev or_else : Option CredentialConfig → Option CredentialConfig → Option CredentialConfig
or_else none o = o
or_else (some e) o = some e

unclaimed : (o : Option CredentialConfig) → is_claimed o ≡ false → o ≡ none
unclaimed none h = refl
unclaimed (some e) h = absurd (false≢true (sym h))

taken_small : (o : Option CredentialConfig) → taken o ≤ 1
taken_small none = omega arith
taken_small (some e) = omega arith

if_same : {A : Type 0} (b : Bool) (x : A) → (if b then x else x) ≡ x
if_same true x = refl
if_same false x = refl

claim_hosts-lookup :
    (hosts : List Bytes) (entry : CredentialConfig) (m m' : ByHost) (host : Bytes)
    → claim_hosts hosts entry m ≡ ok m'
    → (lookup_host host m'
        ≡ (if any (λ h. eq_bytes h host) hosts then some entry else lookup_host host m))
      × (count host hosts + taken (lookup_host host m) ≤ 1)
      × (taken (lookup_host host m') ≡ count host hosts + taken (lookup_host host m))
unfolding claim_hosts lookup_host count
claim_hosts-lookup [] entry m m' host h =
    let e : m ≡ m' = ok_inj _ _ h in
    let small = taken_small (lookup_host host m) in
    (
      ap (lookup_host host) (sym e),
      omega arith,
      ap (λ x. taken (lookup_host host x)) (sym e) ∙ omega arith,
    )
claim_hosts-lookup (k ∷ hosts) entry m m' host h =
    elim (Bool-cases (is_claimed (lookup_host k m))) [
      | inl y ↦ absurd (ground arith)
      | inr y ↦
          let (hl, hc, ht) =
            claim_hosts-lookup hosts entry ((k, entry) ∷ m) m' host (ground arith) in
          elim (Bool-cases (eq_bytes k host)) [
            | inl z ↦
                let same = (eq_bytes_iff k host).0 z in
                let free : lookup_host host m ≡ none =
                  unclaimed _ (ap (λ x. is_claimed (lookup_host x m)) (sym same) ∙ y) in
                let added : lookup_host host ((k, entry) ∷ m) ≡ some entry = rw z refl in
                (
                  hl ∙ (rw z (if_same (any (λ h. eq_bytes h host) hosts) (some entry))),
                  ground arith,
                  ground arith,
                )
            | inr z ↦
                let kept : lookup_host host ((k, entry) ∷ m) ≡ lookup_host host m = rw z refl in
                (hl ∙ (rw z refl), ground arith, ground arith)
          ]
    ]

or_else-none : (o : Option CredentialConfig) → or_else o none ≡ o
or_else-none none = refl
or_else-none (some e) = refl

untaken : (o : Option CredentialConfig) → taken o ≤ 0 → o ≡ none
untaken none h = refl
untaken (some e) h = absurd (omega arith)

any-count :
    (host : Bytes) (hs : List Bytes) → any (λ h. eq_bytes h host) hs ≡ true → 1 ≤ count host hs
unfolding count
any-count host [] h = absurd (false≢true h)
any-count host (k ∷ hs) h = elim (Bool-cases (eq_bytes k host)) [
  | inl y ↦ rw y (omega arith)
  | inr y ↦ rw y (any-count host hs (ground arith))
]

claim_all-lookup :
    (es : List CredentialConfig) (m m' : ByHost) (host : Bytes)
    → claim_all es m ≡ ok m'
    → (lookup_host host m' ≡ or_else (lookup_host host m) (find_claim host es))
      × (count_claims host es + taken (lookup_host host m) ≤ 1)
unfolding claim_all find_claim count_claims
claim_all-lookup [] m m' host h =
    let e : m ≡ m' = ok_inj _ _ h in
    (
      ap (lookup_host host) (sym e) ∙ sym (or_else-none (lookup_host host m)),
      omega (arith, taken_small (lookup_host host m)),
    )
claim_all-lookup (e ∷ es) m m' host h = elim (Bool-cases (is_unrecognized e.source)) [
  | inl y ↦
      let (il, ic) = claim_all-lookup es m m' host (ground arith) in (il ∙ (rw y refl), rw y ic)
  | inr y ↦
      let (m1, h1, h2) =
        >>=-eq-ok (claim_hosts (normalized e).hosts (normalized e) m) (claim_all es)
          (ground arith) in
      let (hl, hc, ht) = claim_hosts-lookup (normalized e).hosts (normalized e) m m1 host h1 in
      let (il, ic) = claim_all-lookup es m1 m' host h2 in
      let listed = any (λ h. eq_bytes h host) (normalized e).hosts in
      let bound : count host (normalized e).hosts
            + count_claims host es
            + taken (lookup_host host m)
          ≤ 1 =
        omega (arith, ic, ht) in
      elim (Bool-cases listed) [
        | inl z ↦
            let free : lookup_host host m ≡ none =
              untaken (lookup_host host m)
                (omega (arith, any-count host (normalized e).hosts z, hc)) in
            (il ∙ (rw (hl, free, y, z) refl), rw y bound)
        | inr z ↦ (il ∙ (rw (hl, y, z) refl), rw y bound)
      ]
]

pub configured_provider-find_claim :
    (es : List CredentialConfig) (by_host : ByHost) (skipped : List SkippedCredential)
    (host : Bytes)
    → configured_provider es ≡ ok (by_host, skipped)
    → (lookup_host host by_host ≡ find_claim host es) × (count_claims host es ≤ 1)
unfolding configured_provider lookup_host
configured_provider-find_claim es by_host skipped host h =
    let (u, h0, h1) = >>=-eq-ok (validate_entries es) _ h in
    let (m, h2, h3) = >>=-eq-ok (claim_all es []) _ h1 in
    let same : m ≡ by_host = ap (λ p. p.0) (ok_inj {A = ByHost × List SkippedCredential} _ _ h3) in
    let (hl, hc) = claim_all-lookup es [] m host h2 in
    (ap (lookup_host host) (sym same) ∙ hl, omega (arith, hc))
