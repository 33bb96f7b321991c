-- ===== src/Fetch/Confine.antt =====
-- Which requests `Fetcher::request` sends, and with which credential.
use starfield_datastore.Prelude.{
  ℕ, zero, suc, ◌≡◌, refl, ap, ◌⊎◌, inl, inr, Bool, true, false, not, ◌&&◌, ◌||◌, false≢true,
  Option, none, some, List, [], ◌∷◌, arith, ltb, leb, ◌==◌, Bool-cases, &&_true, is_empty, Bytes,
  codes, eq_bytes_iff,
}
use mathlib.Core.Path.{subst}
use starfield_datastore.Error.{Result, ok, err}
use starfield_datastore.Artifact.{Source}
use starfield_datastore.Store.Resolve.{Download}
use starfield_datastore.Fetch.{
  serving, Credential, Provider, Url, Sent, Response, Network, Run, returning, or_fail, checked_url,
  host_of, lookup, choose, target, respond, hop, hops,
}

-- Every request of a list.
abbrev pub AllSent : (Sent → Type 0) → List Sent → Type 0
AllSent P [] = Unit
AllSent P (s ∷ ss) = P s × AllSent P ss

-- What holds of each way to go on holds of `or_fail`.
pub or_fail-keeps :
    {A : Type 0} (Q : Run → Type 0) (r : Result A) (next : A → Run)
    → ((x : Result (Option Download)) → Q (returning x))
    → ((a : A) → r ≡ ok a → Q (next a))
    → Q (or_fail r next)
unfolding or_fail
or_fail-keeps Q (ok a) next fails goes = goes a refl
or_fail-keeps Q (err e) next fails goes = fails (err e)

pub host_of-ok : (url : Url) (host : Bytes) → host_of url ≡ ok host → url.host ≡ some host
unfolding host_of
host_of-ok url host h = ground arith

module _ (net : Network) where
  pub respond-keeps :
      (Q : Run → Type 0) (now : ℕ) (url : Url) (host : Bytes) (c : Option Credential)
      (identity : Option Bytes) (r : Response) (next : Url → Option Bytes → Run)
      → ((x : Result (Option Download)) → Q (returning x))
      → Q (serving net r identity)
      → ((to : Url) → target net url r.location ≡ ok to → Q (next to identity))
      → Q (respond net now url host c identity r next)
  unfolding respond
  respond-keeps Q now url host c identity r next ends serves goes =
      elim (Bool-cases (leb 300 r.status && ltb r.status 400)) [
        | inl y ↦ rw y (or_fail-keeps Q (target net url r.location) _ ends goes)
        | inr y ↦ rw y (elim (Bool-cases (r.status == 401 || r.status == 403)) [
          | inl z ↦ rw z (ends _)
          | inr z ↦ rw z (elim (Bool-cases (r.status == 404)) [
            | inl w ↦ rw w (ends _)
            | inr w ↦ rw w (elim (Bool-cases (leb 400 r.status && ltb r.status 600)) [
              | inl v ↦ rw v (ends _)
              | inr v ↦ rw v serves
            ])
          ])
        ])
      ]

  module _ (provider : Option Provider) (now : ℕ) (source : Source) where
    -- The credential that goes along is the provider's for the host of the request, or that of the
    -- source's own host where the source trusts its redirects.
    abbrev pub IsOwn : Option Credential → Sent → Type 0
    IsOwn origin s =
        ((host : Bytes) × (s.url.host ≡ some host) × (lookup provider host ≡ ok s.credential))
        ⊎ ((source.trust_redirects ≡ true) × (s.credential ≡ origin))

    choose-IsOwn :
        (first : Bool) (origin : Option Credential) (origin_host host : Bytes) (url : Url)
        (found : Option Credential)
        → url.host ≡ some host
        → lookup provider host ≡ ok found
        → IsOwn origin (record {
          url = url;
          credential =
              (choose (not first && source.trust_redirects) origin origin_host host found).0;
        })
    unfolding choose
    choose-IsOwn first origin origin_host host url (some c) hu hf = inl (host, hu, hf)
    choose-IsOwn first origin origin_host host url none hu hf =
        elim (Bool-cases (not first && source.trust_redirects)) [
          | inl y ↦ rw y (inr ((&&_true _ _ y).1, refl))
          | inr y ↦ rw y (inl (host, hu, hf))
        ]

    module _ (origin : Option Credential) (origin_host : Bytes) (Inv : Url → Type 0)
        (keep : (url to : Url) (location : Option Bytes)
          → Inv url
          → target net url location ≡ ok to
          → Inv to) where
      abbrev Fine : Sent → Type 0
      Fine s = Inv s.url × IsOwn origin s

      hop-Fine :
          (left : ℕ) (first : Bool) (url : Url) (identity : Option Bytes) (host : Bytes)
          (found : Option Credential) (next : Url → Option Bytes → Run)
          → Inv url
          → url.host ≡ some host
          → lookup provider host ≡ ok found
          → ((to : Url) (i : Option Bytes) → Inv to → AllSent Fine (next to i).sent)
          → AllSent Fine
              (hop net provider now source origin origin_host left first url identity host found
                next).sent
      unfolding hop
      hop-Fine left first url identity host found next i hu hf later = (
        (i, choose-IsOwn first origin origin_host host url found hu hf),
        or_fail-keeps (λ run. AllSent Fine run.sent) _ _ (λ x. tt)
            λ r hr.
              respond-keeps (λ run. AllSent Fine run.sent) now url host _ _ r next (λ x. tt) tt
                λ to ht. later to _ (keep url to r.location i ht),
      )

      pub hops-Fine :
          (left : ℕ) (first : Bool) (url : Url) (identity : Option Bytes)
          → Inv url
          → AllSent Fine
              (hops net provider now source origin origin_host left first url identity).sent
      unfolding hops
      hops-Fine zero first url identity i = tt
      hops-Fine (suc left) first url identity i =
          or_fail-keeps (λ run. AllSent Fine run.sent) (host_of url) _ (λ x. tt)
            λ host hh.
              or_fail-keeps (λ run. AllSent Fine run.sent) (lookup provider host) _ (λ x. tt)
                λ found hf.
                  hop-Fine left first url identity host found _ i (host_of-ok url host hh) hf
                    (λ to j it. hops-Fine left false to j it)

pub AllSent-map :
    (P Q : Sent → Type 0) (ss : List Sent) → ((s : Sent) → P s → Q s) → AllSent P ss → AllSent Q ss
AllSent-map P Q [] f h = tt
AllSent-map P Q (s ∷ ss) f h = (f s h.0, AllSent-map P Q ss f h.1)

-- A URL that `parse_source_url` lets through: HTTP or HTTPS, without a user or a password.
pub record IsPlain (url : Url) : Type 0 where
  pub username : url.username ≡ []
  pub password : url.password ≡ none
  pub scheme : (url.scheme ≡ codes "http") ⊎ (url.scheme ≡ codes "https")

is_empty-eq : (s : Bytes) → is_empty s ≡ true → s ≡ []
is_empty-eq [] h = refl
is_empty-eq (c ∷ s) h = absurd (false≢true h)

pub checked_url-ok :
    (parsed : Option Url) (url : Url)
    → checked_url parsed ≡ ok url
    → IsPlain url × (parsed ≡ some url)
unfolding checked_url
checked_url-ok none url h = absurd (ground arith)
checked_url-ok (some u) url h =
    let same : u ≡ url = ground arith in
    (
      subst IsPlain same (record {
        username = is_empty-eq u.username (ground arith);
        password = ground arith;
        scheme =
            ground
              (arith, eq_bytes_iff u.scheme (codes "http"), eq_bytes_iff u.scheme (codes "https"));
      }),
      ap some same,
    )
