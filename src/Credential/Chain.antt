-- ===== src/Credential/Chain.antt =====
-- A chain of providers answers with the first of them that knows the host.
use starfield_datastore.Prelude.{
  ◌≡◌, refl, ◌∙◌, ◌↔◌, ◌⊎◌, inl, inr, Option, none, some, List, [], ◌∷◌, arith, Bytes,
}
use starfield_datastore.Error.{ok, >>=-eq-ok}
use starfield_datastore.Fetch.{Credential, Provider}
use starfield_datastore.Credential.{chain_credential}

-- Every provider of a list answers that it knows no credential.
abbrev pub AllSilent : Bytes → List Provider → Type 0
AllSilent host [] = Unit
AllSilent host (p ∷ ps) = (p.credential_for host ≡ ok none) × AllSilent host ps

-- A provider of a list answers with `c`, and those before it know no credential.
abbrev pub FirstAnswer : Bytes → Credential → List Provider → Type 0
FirstAnswer host c [] = ⊥
FirstAnswer host c (p ∷ ps) =
    (p.credential_for host ≡ ok (some c))
    ⊎ ((p.credential_for host ≡ ok none) × FirstAnswer host c ps)

-- A chain answers with a credential exactly when one of its providers does and those before it know
-- none: an error before it is not passed over.
pub chain_credential_iff :
    (ps : List Provider) (host : Bytes) (c : Credential)
    → (chain_credential ps host ≡ ok (some c)) ↔ FirstAnswer host c ps
unfolding chain_credential
chain_credential_iff [] host c = (λ h. absurd (ground arith), λ h. absurd h)
chain_credential_iff (p ∷ ps) host c =
    let (to, from) = chain_credential_iff ps host c in
    (
      λ h. let (found, hp, hr) = >>=-eq-ok (p.credential_for host) _ h in answered to found hp hr,
      λ h. elim h [ inl q ↦ rw q refl | inr (q, later) ↦ rw q (from later) ],
    )
  where
    answered :
        (chain_credential ps host ≡ ok (some c) → FirstAnswer host c ps)
        → (found : Option Credential) → p.credential_for host ≡ ok found
        → elim found [ none ↦ chain_credential ps host | some x ↦ ok (some x) ] ≡ ok (some c)
        → FirstAnswer host c (p ∷ ps)
    answered to none hp hr = inr (hp, to hr)
    answered to (some x) hp hr = inl (hp ∙ hr)
