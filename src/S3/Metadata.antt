-- ===== src/S3/Metadata.antt =====
-- src/s3.rs `upload_metadata`: what an upload says of its object. The url crate is a parameter.
use starfield_datastore.Prelude.{
  true, false, not, ◌||◌, Option, none, some, [], ◌∷◌, ◌++◌, if◌then◌else◌, is_empty, Bytes, codes,
  eq_bytes,
}
use starfield_datastore.Error.{Result, ok, err, ◌>>=◌, mirror}
use starfield_datastore.Server.Service.{MirrorObject}
use starfield_datastore.Fetch.{Url}
use starfield_datastore.S3.{Metadata}
use starfield_datastore.S3.Decimal.{to_decimal}

-- The url crate: how it parses, and the text of a URL without its query and fragment.
pub record UrlCrate : Type 0 where
  pub parse : Bytes → Option Url
  pub without_query : Url → Bytes

abbrev pub source_url : UrlCrate → Option Url → Result Metadata
source_url crate none = err (mirror "invalid source metadata")
source_url crate (some url) =
    if not (is_empty url.username) || elim url.password [ none ↦ false | some p ↦ true ]
    then err (mirror "source metadata contains embedded credentials")
    else if eq_bytes url.scheme (codes "http") || eq_bytes url.scheme (codes "https")
    then ok ((codes "source", crate.without_query url) ∷ [])
    else ok []

unfoldable pub source_metadata : UrlCrate → Option Bytes → Result Metadata
source_metadata crate none = ok []
source_metadata crate (some source) = source_url crate (crate.parse source)

unfoldable pub identity_metadata : Option Bytes → Metadata
identity_metadata none = []
identity_metadata (some identity) = (codes "provider-identity", identity) ∷ []

-- `upload_metadata`
unfoldable pub upload_metadata : UrlCrate → MirrorObject → Result Metadata
upload_metadata crate meta = do
  source ← source_metadata crate meta.source
  ok (
      (codes "sha256", meta.sha256)
      ∷ ((codes "bytes", to_decimal meta.bytes)
          ∷ ((codes "fetched-at", to_decimal meta.fetched_at)
              ∷ (source ++ identity_metadata meta.provider_identity))))
