-- ===== src/Config/Build.antt =====
-- src/store/mod.rs `DatastoreBuilder::build`: the datastore that the settings make. Making its
-- directories and the HTTP client are left out, and so are timeouts and progress reports.
use starfield_datastore.Prelude.{
  ℕ, ◌≡◌, refl, sym, ap, ◌∙◌, ◌≢◌, Bool, true, false, Option, none, some, Bytes,
}
use starfield_datastore.Error.{ok_inj, Result, ok, ◌>>=◌, >>=-eq-ok}
use starfield_datastore.Artifact.{Artifact, Source}
use starfield_datastore.Store.Layout.{Cache}
use starfield_datastore.Store.Receiver.{Producer}
use starfield_datastore.Store.Resolve.{Datastore, Download, get}
use starfield_datastore.Store.Resolve
use starfield_datastore.Store.Resolve.Layers.{get-closed}
use starfield_datastore.Fetch.{Network, request}
use starfield_datastore.Fetch.Sanitize.{UrlParts}
use starfield_datastore.Mirror.{mirror_read}
use starfield_datastore.Mirror
use starfield_datastore.S3.{Client, with_client, mirror_read_s3}
use starfield_datastore.Credential.{Variable}
use starfield_datastore.Config.{
  Mirror, http_mirror, s3_mirror, DatastoreBuilder, default_cache_root,
}

-- A datastore with its directory and its advisory budget.
pub record Built : Type 0 where
  pub root : Bytes
  pub store : Datastore
  pub max_bytes : Option ℕ

abbrev pub or_false : Option Bool → Bool
or_false none = false
or_false (some b) = b

abbrev root_of : Result Bytes → Option Bytes → Result Bytes
root_of fallback none = fallback
root_of fallback (some root) = ok root

or_false-closed : (o : Option Bool) → o ≢ some true → or_false o ≡ false
or_false-closed none shut = refl
or_false-closed (some false) shut = refl
or_false-closed (some true) shut = absurd (shut refl)

-- The network, the parts of URLs, the time, and the AWS client of a region.
module _ (net : Network) (parts : Bytes → Option UrlParts) (now : ℕ) (aws : Bytes → Client) where
  -- `open` of src/mirror/mod.rs, in a build with both kinds of mirrors
  unfoldable pub open_mirror : Mirror → Result Resolve.Mirror
  open_mirror (http_mirror base_url writable) =
      Mirror.new net.parse parts base_url >>= λ m. ok (mirror_read net now m)
  open_mirror (s3_mirror bucket prefix region writable) =
      with_client (aws region) bucket prefix >>= λ m. ok (mirror_read_s3 m)

  unfoldable pub open_option : Option Mirror → Result (Option Resolve.Mirror)
  open_option none = ok none
  open_option (some m) = open_mirror m >>= λ opened. ok (some opened)

  -- `DatastoreBuilder::build`
  unfoldable pub build : (Bytes → Variable) → DatastoreBuilder → Result Built
  build env b = do
    root ← root_of (default_cache_root env) b.cache_root
    opened ← open_option b.mirror
    ok (record {
      root = root;
      store = record {
        mirror = opened;
        request = λ source. (request net b.credentials now source).answer;
        allow_upstream = or_false b.allow_upstream;
        offline = or_false b.offline;
      };
      max_bytes = b.max_bytes;
    })

  module _ (sha256 : Bytes → Bytes) (sanitize : Bytes → Bytes) where
    -- A datastore goes to the sources of an artifact only if its builder was told so: where the setting
    -- is missing or false, whatever the sources would send makes no difference to what `get`
    -- returns or leaves in the cache.
    pub build-get :
        (env : Bytes → Variable) (b : DatastoreBuilder) (d : Built)
        (sources : Source → Producer (Option Download)) (a : Artifact) (c : Cache)
        → build env b ≡ ok d
        → b.allow_upstream ≢ some true
        → get sha256 sanitize now d.store a c
          ≡ get sha256 sanitize now (record d.store { request = sources }) a c
    unfolding build
    build-get env b d sources a c h shut =
        let (root, h0, h1) = >>=-eq-ok (root_of (default_cache_root env) b.cache_root) _ h in
        let (opened, h2, h3) = >>=-eq-ok (open_option b.mirror) _ h1 in
        let closed : d.store.allow_upstream ≡ false =
          ap (λ x. x.store.allow_upstream) (sym (ok_inj _ _ h3))
          ∙ or_false-closed b.allow_upstream shut in
        get-closed sha256 sanitize now d.store sources a c closed
