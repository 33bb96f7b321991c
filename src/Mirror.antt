-- ===== src/Mirror.antt =====
-- src/mirror/http.rs: the mirror behind the artifact service. It asks the fetch engine, without a
-- credential provider.
use starfield_datastore.Prelude.{
  ℕ, String, ◌≡◌, ap, ◌≢◌, Bool, true, false, not, ◌||◌, Option, none, some, List, ◌++◌, arith,
  if◌then◌else◌, is_empty, Bytes, codes, eq_bytes,
}
use starfield_datastore.Error.{
  no_credential, credential_rejected, content_rejected, offline_miss, mirror_unreachable,
  manual_required, all_sources_failed, invalid_key, mirror, config, fill_unavailable,
  transfer_limit, manifest, io, http, Result, ok, err,
}
use starfield_datastore.Key.{ArtifactKey, trim_end_slash}
use starfield_datastore.Artifact.{new_source}
use starfield_datastore.Store.Receiver.{Producer}
use starfield_datastore.Store.Resolve.{Download}
use starfield_datastore.Store.Resolve
use starfield_datastore.Fetch.{Url, Network, Sent, Run, request}
use starfield_datastore.Fetch.Confine.{AllSent, AllSent-map}
use starfield_datastore.Fetch.Requests.{IsConfined-none, request-IsConfined}
use starfield_datastore.Fetch.Sanitize.{UrlParts, sanitize}

pub record HttpMirror : Type 0 where
  pub base : Bytes

-- `HttpMirror::new`
abbrev base_of : (Bytes → Option UrlParts) → Bytes → Option Url → Result HttpMirror
base_of parts raw none = err (mirror "invalid mirror URL")
base_of parts raw (some url) =
    if not (is_empty url.username) || elim url.password [ none ↦ false | some p ↦ true ]
    then err (mirror "mirror URL must not carry userinfo")
    else if not (eq_bytes url.scheme (codes "http") || eq_bytes url.scheme (codes "https"))
    then err (mirror "mirror URL must be http(s)")
    else ok (record { base = trim_end_slash (sanitize parts raw) })

unfoldable pub new : (Bytes → Option Url) → (Bytes → Option UrlParts) → Bytes → Result HttpMirror
new parse parts raw = base_of parts raw (parse raw)

-- `HttpMirror::location`
unfoldable pub location : HttpMirror → ArtifactKey → Bytes
location m key = m.base ++ codes "/artifact/" ++ key

-- What a mirror makes of the fetcher's answer.
unfoldable pub found : Result (Option Download) → Result Bool
found (ok (some d)) = ok true
found (ok none) = ok false
found (err (no_credential host)) = err (mirror "refused the request (HTTP 401/403)")
found (err e) = err e

found_no_credential :
    (r : Result (Option Download)) (host : Bytes) → found r ≢ err (no_credential host)
unfolding found
found_no_credential (ok (some d)) host h = absurd (ground arith)
found_no_credential (ok none) host h = absurd (ground arith)
found_no_credential (err (no_credential a)) host h = absurd (ground arith)
found_no_credential (err (credential_rejected a b c)) host h = absurd (ground arith)
found_no_credential (err (content_rejected a b)) host h = absurd (ground arith)
found_no_credential (err (offline_miss a)) host h = absurd (ground arith)
found_no_credential (err (mirror_unreachable a b)) host h = absurd (ground arith)
found_no_credential (err (manual_required a b)) host h = absurd (ground arith)
found_no_credential (err (all_sources_failed a b)) host h = absurd (ground arith)
found_no_credential (err invalid_key) host h = absurd (ground arith)
found_no_credential (err (mirror a)) host h = absurd (ground arith)
found_no_credential (err (config a)) host h = absurd (ground arith)
found_no_credential (err (fill_unavailable a)) host h = absurd (ground arith)
found_no_credential (err transfer_limit) host h = absurd (ground arith)
found_no_credential (err (manifest a)) host h = absurd (ground arith)
found_no_credential (err io) host h = absurd (ground arith)
found_no_credential (err (http a)) host h = absurd (ground arith)

found_refused :
    (r : Result (Option Download)) (host : Bytes)
    → r ≡ err (no_credential host)
    → (why : String) × (found r ≡ err (mirror why))
unfolding found
found_refused r host h = (_, ap found h)

module _ (net : Network) (now : ℕ) (m : HttpMirror) where
  abbrev run : ArtifactKey → Run
  run key = request net none now (new_source (location m key))

  -- `HttpMirror::fetch`
  unfoldable pub fetch : ArtifactKey → List Sent × Producer Bool
  fetch key =
      let r = run key in
      (
        r.sent,
        record {
          chunks = r.answer.chunks;
          ending = found r.answer.ending;
          on_write_error = r.answer.on_write_error;
        },
      )

  -- The mirror as the store sees it.
  unfoldable pub mirror_read : Resolve.Mirror
  mirror_read = record { object = λ key. (fetch key).1; location = location m }

  -- A mirror sends no credential, to the service or to whatever host that redirects to, and never asks
  -- its caller for one. Where the fetch engine ends with a host that asks for a credential, the ending
  -- is an error of the mirror, not a missing entry.
  pub fetch_no_credential :
      (key : ArtifactKey)
      → AllSent (λ s. s.credential ≡ none) (fetch key).0
        × ((host : Bytes) → (fetch key).1.ending ≢ err (no_credential host))
        × ((host : Bytes)
            → (run key).answer.ending ≡ err (no_credential host)
            → (why : String) × ((fetch key).1.ending ≡ err (mirror why)))
  unfolding fetch
  fetch_no_credential key = (
    AllSent-map _ _ (run key).sent
        (λ s (plain, confined). IsConfined-none net (new_source (location m key)) s confined)
        (request-IsConfined net none now (new_source (location m key))),
    found_no_credential (run key).answer.ending,
    found_refused (run key).answer.ending,
  )
