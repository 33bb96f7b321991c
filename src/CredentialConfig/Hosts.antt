-- ===== src/CredentialConfig/Hosts.antt =====
-- src/credential_config.rs `ConfigProvider`: which entry a host belongs to, however it is written.
use starfield_datastore.Prelude.{
  map, codes, ◌++◌, ◌||◌, ℕ, suc, ◌+◌, ◌≤◌, ◌≡◌, refl, ap, ◌∙◌, Bool, true, false, not, ◌&&◌,
  Option, none, some, List, [], ◌∷◌, if◌then◌else◌, any, Bytes, eq_bytes,
}
use starfield_datastore.Error.{ok}
use starfield_datastore.CredentialConfig.{
  ByHost, normalized, is_unrecognized, SkippedCredential, configured_provider, normal_host, trim,
  config_provider, entry_credential, entry_identity, OpRun,
}
use starfield_datastore.Credential.{Variable, NetrcFile}
use starfield_datastore.Check.Html.{to_ascii_lowercase}
use mathlib.Core.Path.{subst}
use starfield_datastore.CredentialConfig.Source.{CredentialConfig}
use starfield_datastore.CredentialConfig.Claims.{
  find_claim, count, count_claims, configured_provider-find_claim,
}

-- An entry of a known type that lists the host, in whatever case either is written.
abbrev pub lists : Bytes → CredentialConfig → Bool
lists host e =
    not (is_unrecognized e.source)
    && any (λ h. eq_bytes (map to_ascii_lowercase (trim h)) (map to_ascii_lowercase host)) e.hosts

-- The first entry that lists a host.
unfoldable pub find_owner : Bytes → List CredentialConfig → Option CredentialConfig
find_owner host [] = none
find_owner host (e ∷ es) = let rest = find_owner host es in if lists host e then some e else rest

-- How many times a host is listed, in whatever case.
unfoldable pub count_listed : Bytes → List Bytes → ℕ
count_listed host [] = 0
count_listed host (h ∷ hs) =
    let n = count_listed host hs in
    if eq_bytes (map to_ascii_lowercase (trim h)) (map to_ascii_lowercase host) then suc n else n

unfoldable pub count_owners : Bytes → List CredentialConfig → ℕ
count_owners host [] = 0
count_owners host (e ∷ es) =
    let n = count_owners host es in
    if is_unrecognized e.source then n else count_listed host e.hosts + n

any-normal_host :
    (p : Bytes → Bool) (hs : List Bytes)
    → any p (map normal_host hs) ≡ any (λ h. p (map to_ascii_lowercase (trim h))) hs
any-normal_host p [] = refl
any-normal_host p (h ∷ hs) = ap (◌||◌ (p (normal_host h))) (any-normal_host p hs)

count-count_listed :
    (host : Bytes) (hs : List Bytes)
    → count (map to_ascii_lowercase host) (map normal_host hs) ≡ count_listed host hs
unfolding count count_listed
count-count_listed host [] = refl
count-count_listed host (h ∷ hs) = rw (count-count_listed host hs) refl

count_claims-count_owners :
    (host : Bytes) (es : List CredentialConfig)
    → count_claims (map to_ascii_lowercase host) es ≡ count_owners host es
unfolding count_claims count_owners
count_claims-count_owners host [] = refl
count_claims-count_owners host (e ∷ es) =
    rw (count_claims-count_owners host es, count-count_listed host e.hosts) refl

abbrev normalized_owner : Option CredentialConfig → Option CredentialConfig
normalized_owner none = none
normalized_owner (some e) = some (normalized e)

if_normalized :
    (b : Bool) (e : CredentialConfig) (o : Option CredentialConfig)
    → (if b then some (normalized e) else normalized_owner o)
      ≡ normalized_owner (if b then some e else o)
if_normalized true e o = refl
if_normalized false e o = refl

find_claim-find_owner :
    (host : Bytes) (es : List CredentialConfig)
    → find_claim (map to_ascii_lowercase host) es ≡ normalized_owner (find_owner host es)
unfolding find_claim find_owner
find_claim-find_owner host [] = refl
find_claim-find_owner host (e ∷ es) =
    rw
      (
        find_claim-find_owner host es,
        any-normal_host (λ h. eq_bytes h (map to_ascii_lowercase host)) e.hosts,
      )
      (if_normalized (lists host e) e (find_owner host es))

abbrev pub owner_identity : Option CredentialConfig → Option Bytes
owner_identity none = none
owner_identity (some e) = some (codes "config:" ++ e.name)

module _ (env_of : Bytes → Variable) (file : NetrcFile) (op : Bytes → Option OpRun) where
  normalized_credential :
      (o : Option CredentialConfig) (host : Bytes)
      → entry_credential env_of file op (normalized_owner o) host
        ≡ entry_credential env_of file op o host
  normalized_credential none host = refl
  normalized_credential (some e) host = refl

  normalized_identity :
      (o : Option CredentialConfig)
      → entry_identity env_of file op (normalized_owner o) ≡ owner_identity o
  normalized_identity none = refl
  normalized_identity (some e) = refl

  -- A provider that is made from entries answers for a host with the entry that a search through the
  -- entries of known types finds: the first one that lists the host, with white space around it and in
  -- whatever case either is written. The credential is what that entry's source gives for the host,
  -- none where no entry lists it, and the identity is that entry's name. No two entries list the same
  -- host, nor one of them twice.
  pub config_provider-find_owner :
      (es : List CredentialConfig) (by_host : ByHost) (skipped : List SkippedCredential)
      (host : Bytes)
      → configured_provider es ≡ ok (by_host, skipped)
      → ((config_provider env_of file op by_host).credential_for host
          ≡ entry_credential env_of file op (find_owner host es) host)
        × ((config_provider env_of file op by_host).identity_for host
            ≡ owner_identity (find_owner host es))
        × (count_owners host es ≤ 1)
  unfolding config_provider
  config_provider-find_owner es by_host skipped host h =
      let (found, few) =
        configured_provider-find_claim es by_host skipped (map to_ascii_lowercase host) h in
      let same = found ∙ find_claim-find_owner host es in
      (
        ap (λ o. entry_credential env_of file op o host) same
            ∙ normalized_credential (find_owner host es) host,
        ap (entry_identity env_of file op) same ∙ normalized_identity (find_owner host es),
        subst (λ n. n ≤ 1) (count_claims-count_owners host es) few,
      )
