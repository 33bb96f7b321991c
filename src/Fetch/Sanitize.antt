-- ===== src/Fetch/Sanitize.antt =====
-- src/fetch.rs `sanitize`: a URL without its query, fragment and userinfo. The url crate gives the
-- parts of a URL.
use starfield_datastore.Prelude.{ℕ, Option, none, some, [], ◌++◌, Bytes, codes}
use starfield_datastore.S3.Decimal.{to_decimal}

pub record UrlParts : Type 0 where
  pub scheme : Bytes
  pub host : Option Bytes
  pub port : Option ℕ
  pub path : Bytes

abbrev with_port : Option ℕ → Bytes
with_port none = []
with_port (some port) = codes ":" ++ to_decimal port

abbrev printed : UrlParts → Option Bytes → Bytes
printed u none = u.scheme ++ codes ":" ++ u.path
printed u (some host) = u.scheme ++ codes "://" ++ host ++ with_port u.port ++ u.path

abbrev sanitized : Option UrlParts → Bytes
sanitized none = codes "<unparseable url>"
sanitized (some u) = printed u u.host

-- `sanitize`
unfoldable pub sanitize : (Bytes → Option UrlParts) → Bytes → Bytes
sanitize parts raw = sanitized (parts raw)
