-- ===== src/S3/Outcome.antt =====
-- What the outcome of an upload (src/s3.rs `write`) says of the file and of the object, and that what
-- it stores as metadata is what `head` reads.
use starfield_datastore.Prelude.{
  ◌^◌, ◌<◌, ◌≡◌, refl, ap, inl, inr, true, false, not, ◌||◌, Option, none, some, [], ◌∷◌, ◌++◌,
  arith, ◌==◌, Bool-cases, if_false, length, is_empty, Bytes, codes, eq_bytes, eq_bytes_iff,
}
use mathlib.Core.Path.{subst}
use starfield_datastore.Error.{ok_inj, ok, >>=-eq-ok}
use starfield_datastore.Key.{ArtifactKey}
use starfield_datastore.Store.Layout.{is_digest}
use starfield_datastore.Server.Service.{MirrorObject}
use starfield_datastore.S3.{
  PutOutcome, Metadata, History, S3Mirror, HeadOutput, decode_head, lookup, validate_digest,
}
use starfield_datastore.S3.Metadata.{
  UrlCrate, upload_metadata, source_metadata, source_url, identity_metadata,
}
use starfield_datastore.Fetch.{Url}
use starfield_datastore.S3.Decimal.{to_decimal, parse_u64-to_decimal}
use starfield_datastore.S3.Upload.{write_checks, write}
use starfield_datastore.S3.Parts.{and_then-ok}

-- An upload that returns anything but an error has found the local file to be what the metadata says:
-- a digest that is one, the size and the SHA-256 of the file.
pub write-IsChecked :
    (m : S3Mirror) (key : ArtifactKey) (body : Bytes) (meta : MirrorObject) (sha256 : Bytes → Bytes)
    (crate : UrlCrate) (etag : Option Bytes) (h last : History) (o : PutOutcome)
    → write m key body meta sha256 crate etag h ≡ (ok o, last)
    → (is_digest meta.sha256 ≡ true) × (length body ≡ meta.bytes) × (sha256 body ≡ meta.sha256)
unfolding write write_checks validate_digest
write-IsChecked m key body meta sha256 crate etag h last o e =
    let (metadata, sent, hc, hn) =
      and_then-ok (write_checks m key body meta sha256 crate, h) _ o last e in
    let checked : write_checks m key body meta sha256 crate ≡ ok metadata = ap (λ p. p.0) hc in
    let (u, hd, hrest) = >>=-eq-ok (validate_digest meta.sha256) _ checked in
    let file = eq_bytes_iff (sha256 body) meta.sha256 in (ground arith, ground arith, ground arith)

-- Metadata of an upload, from what the source gives.
abbrev canonical : MirrorObject → Metadata → Metadata
canonical meta source =
    (codes "sha256", meta.sha256)
    ∷ ((codes "bytes", to_decimal meta.bytes)
        ∷ ((codes "fetched-at", to_decimal meta.fetched_at)
            ∷ (source ++ identity_metadata meta.provider_identity)))

abbrev head_output : MirrorObject → Metadata → Option Bytes → HeadOutput
head_output meta metadata etag = record {
  metadata = metadata;
  content_length = some meta.bytes;
  etag = etag;
}

-- What the source gives holds no other field.
abbrev IsSource : Metadata → Option Bytes → Type 0
IsSource source s =
    (identity : Option Bytes)
    → (lookup (codes "source") (source ++ identity_metadata identity) ≡ s)
      × (lookup (codes "provider-identity") (source ++ identity_metadata identity) ≡ identity)

no-IsSource : IsSource [] none
unfolding lookup identity_metadata eq_bytes
no-IsSource none = (refl, refl)
no-IsSource (some i) = (refl, refl)

one-IsSource : (x : Bytes) → IsSource ((codes "source", x) ∷ []) (some x)
unfolding lookup identity_metadata eq_bytes
one-IsSource x none = (refl, refl)
one-IsSource x (some i) = (refl, refl)

source_url-IsSource :
    (crate : UrlCrate) (url : Option Url) (source : Metadata)
    → source_url crate url ≡ ok source
    → (s : Option Bytes) × IsSource source s
source_url-IsSource crate none source h = absurd (ground arith)
source_url-IsSource crate (some url) source h =
    let userinfo =
      not (is_empty url.username) || elim url.password [ none ↦ false | some p ↦ true ] in
    let web = eq_bytes url.scheme (codes "http") || eq_bytes url.scheme (codes "https") in
    let text = crate.without_query url in
    elim (Bool-cases userinfo) [
      | inl y ↦ absurd (ground arith)
      | inr y ↦ elim (Bool-cases web) [
        | inl z ↦
            let e : (codes "source", text) ∷ [] ≡ source = ground arith in
            (some text, subst (λ x. IsSource x (some text)) e (one-IsSource text))
        | inr z ↦
            let e : [] ≡ source = ground arith in (none, subst (λ x. IsSource x none) e no-IsSource)
      ]
    ]

source_metadata-IsSource :
    (crate : UrlCrate) (url : Option Bytes) (source : Metadata)
    → source_metadata crate url ≡ ok source
    → (s : Option Bytes) × IsSource source s
unfolding source_metadata
source_metadata-IsSource crate none source h =
    let e : [] ≡ source = ground arith in (none, subst (λ x. IsSource x none) e no-IsSource)
source_metadata-IsSource crate (some url) source h =
    source_url-IsSource crate (crate.parse url) source h

decode_canonical :
    (meta : MirrorObject) (source : Metadata) (s etag : Option Bytes)
    → IsSource source s
    → is_digest meta.sha256 ≡ true
    → meta.bytes < 2 ^ 64
    → meta.fetched_at < 2 ^ 64
    → decode_head (head_output meta (canonical meta source) etag)
      ≡ ok (record meta { etag = etag; source = s })
unfolding decode_head validate_digest lookup eq_bytes
decode_canonical meta source s etag hs hd hb ht =
    let (h1, h2) = hs meta.provider_identity in
    rw (hd, parse_u64-to_decimal meta.bytes hb, parse_u64-to_decimal meta.fetched_at ht, h1, h2)
      (if_false (λ x. x ≡ ok (record meta { etag = etag; source = s }))
        (not (meta.bytes == meta.bytes)) _ _ (ground arith) refl)

-- `head` reads from the metadata of an upload the digest, the size, the provider identity and the time
-- that were uploaded, when the length that the server reports is the size and the numbers are of 64
-- bits.
pub decode_head-upload_metadata :
    (crate : UrlCrate) (meta : MirrorObject) (metadata : Metadata) (etag : Option Bytes)
    → upload_metadata crate meta ≡ ok metadata
    → is_digest meta.sha256 ≡ true
    → meta.bytes < 2 ^ 64
    → meta.fetched_at < 2 ^ 64
    → (s : Option Bytes) × (decode_head
          (record { metadata = metadata; content_length = some meta.bytes; etag = etag })
        ≡ ok (record meta { etag = etag; source = s }))
unfolding upload_metadata
decode_head-upload_metadata crate meta metadata etag h hd hb ht =
    let (source, hs, made) = >>=-eq-ok (source_metadata crate meta.source) _ h in
    let (s, hsource) = source_metadata-IsSource crate meta.source source hs in
    let e : canonical meta source ≡ metadata = ok_inj _ _ made in
    (
      s,
      subst
          (λ x.
            decode_head (head_output meta x etag) ≡ ok (record meta { etag = etag; source = s }))
          e (decode_canonical meta source s etag hsource hd hb ht),
    )
