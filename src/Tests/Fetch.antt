-- ===== src/Tests/Fetch.antt =====
-- A fetch whose source redirects to another host.
use starfield_datastore.Prelude.{
  ◌≡◌, refl, false, none, some, [], ◌∷◌, if◌then◌else◌, Bytes, codes, eq_bytes,
}
use starfield_datastore.Error.{ok}
use starfield_datastore.Artifact.{Source}
use starfield_datastore.Fetch.{basic, Provider, Url, Network, request}
use starfield_datastore.Fetch.Confine.{AllSent, IsPlain}
use starfield_datastore.Fetch.Requests.{IsConfined, request-IsConfined, request-https}

abbrev url_at : Bytes → Url
url_at host = record {
  scheme = codes "https";
  username = [];
  password = none;
  host = some host;
  rest = codes "/f";
}

-- Every text is the name of a host, and the host `a` redirects to `b`.
abbrev toy_network : Network
toy_network = record {
  parse = λ raw. some (url_at raw);
  as_str = λ url. elim url.host [ none ↦ [] | some host ↦ host ];
  join = λ url location. some (url_at location);
  send = λ left s. ok (
      if eq_bytes (elim s.url.host [ none ↦ [] | some host ↦ host ]) (codes "a")
      then record {
        status = 302;
        location = some (codes "b");
        etag = none;
        body = [];
        ending = ok tt;
      }
      else record {
        status = 200;
        location = none;
        etag = none;
        body = codes "x" ∷ [];
        ending = ok tt;
      });
}

abbrev only_a : Provider
only_a = record {
  credential_for = λ host.
      ok (if eq_bytes host (codes "a") then some (basic (codes "me") (codes "pw")) else none);
  identity_for = λ host. none;
}

abbrev archive : Source
archive = record { url = codes "a"; trust_redirects = false }

request-IsConfined_example :
    AllSent
      (λ s. IsPlain s.url × IsConfined toy_network (some only_a) archive s)
      (request toy_network (some only_a) 0 archive).sent
request-IsConfined_example = request-IsConfined toy_network (some only_a) 0 archive

request-https_example :
    AllSent (λ s. s.url.scheme ≡ codes "https") (request toy_network (some only_a) 0 archive).sent
request-https_example =
    request-https toy_network (some only_a) 0 archive (url_at (codes "a")) refl refl
