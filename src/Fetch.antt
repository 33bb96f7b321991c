-- ===== src/Fetch.antt =====
-- src/fetch.rs: a GET that follows redirects itself and decides for each hop which credential goes
-- along. URLs are parsed by the url crate and sent by reqwest: both are parameters. What `request`
-- streams into its sink is a `Producer`, and the requests that it sends are kept in order.
-- Progress reports are left out.
pub mod Confine
pub mod Requests
pub mod Sanitize
use starfield_datastore.Prelude.{
  ℕ, zero, suc, Bool, true, false, not, ◌&&◌, ◌||◌, Option, none, some, List, [], ◌∷◌, ltb, leb,
  ◌==◌, if◌then◌else◌, is_empty, Bytes, codes, eq_bytes,
}
use starfield_datastore.Error.{
  ◌>>=◌, Error, Result, ok, err, mirror, config, no_credential, credential_rejected, http, io,
}
use starfield_datastore.Artifact.{Source}
use starfield_datastore.Store.Receiver.{Producer}
use starfield_datastore.Store.Resolve.{Download}

-- `MAX_HOPS`
abbrev pub max_hops : ℕ
max_hops = 10

-- `Credential` of src/credential.rs
pub data Credential : Type 0 where
  basic : Bytes → Bytes → Credential
  bearer : Bytes → Option ℕ → Credential

-- The trait `CredentialProvider` of src/credential.rs
pub record Provider : Type 0 where
  pub credential_for : Bytes → Result (Option Credential)
  pub identity_for : Bytes → Option Bytes

-- What the code reads of a `url::Url`.
pub record Url : Type 0 where
  pub scheme : Bytes
  pub username : Bytes
  pub password : Option Bytes
  pub host : Option Bytes
  pub rest : Bytes

pub record Sent : Type 0 where
  pub url : Url
  pub credential : Option Credential

pub record Response : Type 0 where
  pub status : ℕ
  pub location : Option Bytes
  pub etag : Option Bytes
  pub body : List Bytes
  -- how reading the body ends
  pub ending : Result (Unit {0})

-- The url crate, and the answers to requests. An answer may depend on how many hops are left, so that
-- a server may answer the same request otherwise the second time.
pub record Network : Type 0 where
  pub parse : Bytes → Option Url
  pub as_str : Url → Bytes
  pub join : Url → Bytes → Option Url
  pub send : ℕ → Sent → Result Response

-- What the call sent, and what it streams and returns.
pub record Run : Type 0 where
  pub sent : List Sent
  pub answer : Producer (Option Download)

abbrev pub returning : Result (Option Download) → Run
returning r = record { sent = []; answer = record { chunks = []; ending = r; on_write_error = io } }

-- `?` in a call that has sent nothing since.
unfoldable pub or_fail : {A : Type 0} → Result A → (A → Run) → Run
or_fail (ok a) next = next a
or_fail (err e) next = returning (err e)

abbrev pub sending : Sent → Run → Run
sending s run = record run { sent = s ∷ run.sent }

-- Whether the credential that goes along looks expired: what `apply` returns beside the request.
unfoldable pub apply : ℕ → Option Credential → Bool
apply now none = false
apply now (some (basic user secret)) = false
apply now (some (bearer secret none)) = false
apply now (some (bearer secret (some expires_at))) = leb expires_at now

unfoldable pub checked_url : Option Url → Result Url
checked_url none = err (config "invalid source URL")
checked_url (some url) =
    if not (is_empty url.username) || elim url.password [ none ↦ false | some p ↦ true ]
    then err (config "source URL carries userinfo")
    else if not (eq_bytes url.scheme (codes "http")) && not (eq_bytes url.scheme (codes "https"))
    then err (config "source URL is not http(s)")
    else ok url

unfoldable pub host_of : Url → Result Bytes
host_of url = elim url.host [ none ↦ err (config "URL has no host") | some host ↦ ok host ]

-- `Fetcher::lookup`
unfoldable pub lookup : Option Provider → Bytes → Result (Option Credential)
lookup none host = ok none
lookup (some p) host = p.credential_for host

-- The `match` on the credential of a hop: the host's own, or the origin's where that is trusted.
unfoldable pub choose :
    Bool → Option Credential → Bytes → Bytes → Option Credential → Option Credential × Bytes
choose trusted origin origin_host host (some c) = (some c, host)
choose trusted origin origin_host host none =
    if trusted then (origin, origin_host) else (none, host)

-- `identity_used` after a hop.
unfoldable pub used : Option Provider → Option Credential → Bytes → Option Bytes → Option Bytes
used (some p) (some c) host before = p.identity_for host
used (some p) none host before = before
used none c host before = before

abbrev denied : Bytes → ℕ → ℕ → Option Credential → Error
denied host status now none = no_credential host
denied host status now (some c) = credential_rejected host status (apply now (some c))

module _ (net : Network) where
  -- `parse_source_url`
  unfoldable pub parse_source_url : Bytes → Result Url
  parse_source_url raw = checked_url (net.parse raw)

  -- `validate_hop`
  unfoldable pub validate_hop : Url → Url → Result Url
  validate_hop from to = do
    checked ← parse_source_url (net.as_str to)
    (if eq_bytes from.scheme (codes "https") && not (eq_bytes checked.scheme (codes "https"))
        then err (mirror "refusing the downgrade")
        else ok checked)

  -- Where a redirect leads.
  unfoldable pub target : Url → Option Bytes → Result Url
  target url none = err (mirror "redirected without a Location header")
  target url (some location) = elim (net.join url location) [
    | none ↦ err (mirror "bad redirect")
    | some to ↦ validate_hop url to
  ]

  -- `Fetcher::stream`, into the sink that reads the producer.
  abbrev pub serving : Response → Option Bytes → Run
  serving r identity = record {
    sent = [];
    answer = record {
      chunks = r.body;
      ending = (do
        u ← r.ending
        ok (some (record { etag = r.etag; provider_identity = identity })));
      on_write_error = io;
    };
  }

  -- What a hop makes of its response.
  unfoldable pub respond :
      ℕ
      → Url
      → Bytes
      → Option Credential
      → Option Bytes
      → Response
      → (Url → Option Bytes → Run)
      → Run
  respond now url host credential identity r next =
      if leb 300 r.status && ltb r.status 400
      then or_fail (target url r.location) (λ to. next to identity)
      else if r.status == 401 || r.status == 403
      then returning (err (denied host r.status now credential))
      else if r.status == 404
      then returning (ok none)
      else if leb 400 r.status && ltb r.status 600
      then returning (err (http r.status))
      else serving r identity

  module _ (provider : Option Provider) (now : ℕ) (source : Source) (origin : Option Credential)
      (origin_host : Bytes) where
    -- One hop with the host's credential at hand.
    unfoldable pub hop :
        ℕ → Bool → Url → Option Bytes → Bytes → Option Credential → (Url → Option Bytes → Run) → Run
    hop left first url identity host found next =
        let (credential, credential_host) =
          choose (not first && source.trust_redirects) origin origin_host host found in
        let request : Sent = record { url = url; credential = credential } in
        let identity' = used provider credential credential_host identity in
        sending request
          (or_fail (net.send left request) (λ r. respond now url host credential identity' r next))

    -- The loop over the hops that are left.
    unfoldable pub hops : ℕ → Bool → Url → Option Bytes → Run
    hops zero first url identity = returning (err (mirror "too many redirects"))
    hops (suc left) first url identity =
        let next = hops left false in
        or_fail (host_of url) (λ host.
          or_fail (lookup provider host) (λ found. hop left first url identity host found next))

  -- `Fetcher::request`
  unfoldable pub request : Option Provider → ℕ → Source → Run
  request provider now source = or_fail (parse_source_url source.url) (λ url.
      or_fail (host_of url) (λ origin_host.
        or_fail (lookup provider origin_host)
          (λ origin. hops provider now source origin origin_host max_hops true url none)))
