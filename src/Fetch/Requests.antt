-- ===== src/Fetch/Requests.antt =====
-- `Fetcher::request` as a whole: its credentials, its schemes and how many requests it sends.
use starfield_datastore.Prelude.{
  ℕ, zero, suc, ◌≤◌, ◌≡◌, sym, ap, ◌∙◌, ◌⊎◌, inl, inr, Bool, true, false, Option, none, some, arith,
  Option-cases, length, Bytes, codes, eq_bytes_iff,
}
use mathlib.Core.Path.{subst}
use starfield_datastore.Error.{ok, >>=-eq-ok}
use starfield_datastore.Artifact.{Source}
use starfield_datastore.Fetch.{
  max_hops, Credential, Provider, Url, Sent, Network, Run, host_of, lookup, parse_source_url,
  validate_hop, target, hop, hops, request,
}
use starfield_datastore.Fetch.Confine.{
  AllSent, AllSent-map, or_fail-keeps, respond-keeps, IsOwn, hops-Fine, IsPlain, checked_url-ok,
  host_of-ok,
}

module _ (net : Network) where
  parse_source_url-IsPlain :
      (raw : Bytes) (url : Url) → parse_source_url net raw ≡ ok url → IsPlain url
  unfolding parse_source_url
  parse_source_url-IsPlain raw url h = (checked_url-ok (net.parse raw) url h).0

  -- A redirect leads where `parse_source_url` does, and not from HTTPS to HTTP.
  target-ok :
      (url to : Url) (location : Option Bytes)
      → target net url location ≡ ok to
      → IsPlain to × (url.scheme ≡ codes "https" → to.scheme ≡ codes "https")
  unfolding target validate_hop
  target-ok url to none h = absurd (ground arith)
  target-ok url to (some location) h = elim (Option-cases (net.join url location)) [
    | inl n ↦ absurd (let z = rw (n, target) at h in ground arith)
    | inr (t, n) ↦
        let (checked, hc, hk) =
          >>=-eq-ok (parse_source_url net (net.as_str t)) _ (rw (n, target) at h) in
        let same : checked ≡ to = ground arith in
        (
          subst IsPlain same (parse_source_url-IsPlain (net.as_str t) checked hc),
          ground (
            arith,
            eq_bytes_iff url.scheme (codes "https"),
            eq_bytes_iff checked.scheme (codes "https"),
          ),
        )
  ]

  -- Where a request may carry a credential: it is the provider's for the host that the request goes
  -- to, or the source trusts its redirects and it is the provider's for the source's own host.
  pub IsConfined : Option Provider → Source → Sent → Type 0
  IsConfined provider source s =
      ((host : Bytes) × (s.url.host ≡ some host) × (lookup provider host ≡ ok s.credential))
      ⊎ ((source.trust_redirects ≡ true)
          × (url : Url) × (host : Bytes) × (parse_source_url net source.url ≡ ok url)
          × (url.host ≡ some host)
          × (lookup provider host ≡ ok s.credential))

  -- Without a provider no request carries a credential.
  pub IsConfined-none :
      (source : Source) (s : Sent) → IsConfined none source s → s.credential ≡ none
  unfolding IsConfined lookup
  IsConfined-none source s (inl (host, hh, hl)) = ground arith
  IsConfined-none source s (inr (ht, url, host, hu, hh, hl)) = ground arith

  -- Every request that a fetch sends goes to an HTTP or HTTPS URL without embedded credentials, and
  -- its credential is the provider's for the host it goes to, or, where the source trusts its
  -- redirects, the provider's for the host of the source's URL.
  pub request-IsConfined :
      (provider : Option Provider) (now : ℕ) (source : Source)
      → AllSent
          (λ s. IsPlain s.url × IsConfined provider source s)
          (request net provider now source).sent
  unfolding request
  request-IsConfined provider now source =
      let P = λ (s : Sent). IsPlain s.url × IsConfined provider source s in
      or_fail-keeps (λ run. AllSent P run.sent) (parse_source_url net source.url) _ (λ x. tt)
        λ url hu.
          or_fail-keeps (λ run. AllSent P run.sent) (host_of url) _ (λ x. tt)
            λ host hh.
              or_fail-keeps (λ run. AllSent P run.sent) (lookup provider host) _ (λ x. tt)
                λ origin ho.
                  AllSent-map _ P _ (confine url host origin hu (host_of-ok url host hh) ho) (
                    hops-Fine net provider now source origin host IsPlain
                      (λ u to location i ht. (target-ok u to location ht).0) max_hops true url none
                      (parse_source_url-IsPlain source.url url hu))
    where
      confine :
          (url : Url) (host : Bytes) (origin : Option Credential)
          → parse_source_url net source.url ≡ ok url
          → url.host ≡ some host
          → lookup provider host ≡ ok origin
          → (s : Sent) → IsPlain s.url × IsOwn net provider now source origin s
          → IsPlain s.url × IsConfined provider source s
      confine url host origin hu hh ho s (plain, own) =
          unfold IsConfined in
          (
            plain,
            elim own [
              | inl mine ↦ inl mine
              | inr (trusts, same) ↦ inr (trusts, url, host, hu, hh, ho ∙ ap ok (sym same))
            ],
          )

  -- A fetch of an HTTPS source sends no request over plain HTTP, whatever the redirects say.
  pub request-https :
      (provider : Option Provider) (now : ℕ) (source : Source) (url : Url)
      → net.parse source.url ≡ some url
      → url.scheme ≡ codes "https"
      → AllSent (λ s. s.url.scheme ≡ codes "https") (request net provider now source).sent
  unfolding request
  request-https provider now source url hp hs =
      let P = λ (s : Sent). s.url.scheme ≡ codes "https" in
      or_fail-keeps (λ run. AllSent P run.sent) (parse_source_url net source.url) _ (λ x. tt)
        λ u hu.
          or_fail-keeps (λ run. AllSent P run.sent) (host_of u) _ (λ x. tt)
            λ host hh.
              or_fail-keeps (λ run. AllSent P run.sent) (lookup provider host) _ (λ x. tt)
                λ origin ho.
                  AllSent-map _ P _ (λ s h. h.0)
                    (hops-Fine net provider now source origin host
                      (λ (x : Url). x.scheme ≡ codes "https")
                      (λ v to location i ht. (target-ok v to location ht).1 i) max_hops true u none
                      (start u hu))
    where
      start : (u : Url) → parse_source_url net source.url ≡ ok u → u.scheme ≡ codes "https"
      start u hu =
          let same : url ≡ u = ground (
            arith,
            hp,
            (checked_url-ok (net.parse source.url) u (unfold parse_source_url in hu)).1,
          ) in
          subst (λ (x : Url). x.scheme ≡ codes "https") same hs

  hop-length :
      (provider : Option Provider) (now : ℕ) (source : Source) (origin : Option Credential)
      (origin_host : Bytes) (left : ℕ) (first : Bool) (url : Url) (identity : Option Bytes)
      (host : Bytes) (found : Option Credential) (next : Url → Option Bytes → Run)
      → ((to : Url) (i : Option Bytes) → length (next to i).sent ≤ left)
      → length
          (hop net provider now source origin origin_host left first url identity host found
            next).sent
        ≤ suc left
  unfolding hop
  hop-length provider now source origin origin_host left first url identity host found next later =
      or_fail-keeps (λ run. suc (length run.sent) ≤ suc left) _ _ (λ x. omega arith)
        λ r hr.
          respond-keeps net (λ run. suc (length run.sent) ≤ suc left) now url host _ _ r next
            (λ x. omega arith) (omega arith) λ to ht. omega (arith, later to _)

  hops-length :
      (provider : Option Provider) (now : ℕ) (source : Source) (origin : Option Credential)
      (origin_host : Bytes) (left : ℕ) (first : Bool) (url : Url) (identity : Option Bytes)
      → length (hops net provider now source origin origin_host left first url identity).sent ≤ left
  unfolding hops
  hops-length provider now source origin origin_host zero first url identity = omega arith
  hops-length provider now source origin origin_host (suc left) first url identity =
      or_fail-keeps (λ run. length run.sent ≤ suc left) (host_of url) _ (λ x. omega arith)
        λ host hh.
          or_fail-keeps (λ run. length run.sent ≤ suc left) (lookup provider host) _
            (λ x. omega arith)
            λ found hf.
              hop-length provider now source origin origin_host left first url identity host found _
                (λ to i. hops-length provider now source origin origin_host left false to i)

  -- A fetch sends at most ten requests.
  pub request-length :
      (provider : Option Provider) (now : ℕ) (source : Source)
      → length (request net provider now source).sent ≤ max_hops
  unfolding request
  request-length provider now source =
      or_fail-keeps (λ run. length run.sent ≤ max_hops) (parse_source_url net source.url) _
        (λ x. omega arith)
        λ url hu.
          or_fail-keeps (λ run. length run.sent ≤ max_hops) (host_of url) _ (λ x. omega arith)
            λ host hh.
              or_fail-keeps (λ run. length run.sent ≤ max_hops) (lookup provider host) _
                (λ x. omega arith)
                λ origin ho. hops-length provider now source origin host max_hops true url none
