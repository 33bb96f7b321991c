-- ===== src/Config.antt =====
-- src/config.rs and the builder of src/store/mod.rs: where the settings of a datastore come from. The
-- toml crate and the file system are inputs; a path is its text, joined as on Unix.
pub mod Texts
pub mod Services
pub mod Precedence
pub mod Selection
pub mod Build
use starfield_datastore.Prelude.{
  ℕ, String, Bool, false, ◌||◌, Option, none, some, List, [], ◌∷◌, if◌then◌else◌, drop, is_empty,
  Bytes, codes, starts_with,
}
use starfield_datastore.Error.{Result, ok, ◌>>=◌, mirror}
use starfield_datastore.Key.{trim_slashes, trim_end_slash}
use starfield_datastore.Server.Service.{is_blank}
use starfield_datastore.S3.Decimal.{parse_u64}
use starfield_datastore.Policy.{ServiceCachePolicy}
use starfield_datastore.Policy
use starfield_datastore.Fetch.{Provider}
use starfield_datastore.Credential.{
  Variable, absent, not_unicode, value, NetrcFile, env_provider, netrc_provider, chain_provider,
}
use starfield_datastore.Credential.OnePassword.{one_password_provider}
use Texts.{invalid, or_option, parse_bool, split_once_slash, join}
use starfield_datastore.CredentialConfig.Source.{CredentialConfig}
use starfield_datastore.CredentialConfig.{configured_provider, config_provider, OpRun}

-- `Mirror` of src/mirror/mod.rs
pub data Mirror : Type 0 where
  http_mirror : Bytes → Bool → Mirror
  s3_mirror : Bytes → Bytes → Bytes → Bool → Mirror

pub record ServiceConfig : Type 0 where
  pub cache : Option ServiceCachePolicy
  pub manifest : Option Bytes
  pub bucket : Option Bytes
  pub region : Option Bytes
  pub bind : Option Bytes
  pub credentials : Option (List Bytes)

pub record DatastoreConfig : Type 0 where
  pub cache_dir : Option Bytes
  pub mirror : Option Bytes
  pub mirror_region : Option Bytes
  pub allow_upstream : Option Bool
  pub offline : Option Bool
  pub cache_max : Option ℕ
  pub credentials : List CredentialConfig
  pub services : List (Bytes × ServiceConfig)

-- `DatastoreBuilder`, without its timeout and its progress reports.
pub record DatastoreBuilder : Type 0 where
  pub cache_root : Option Bytes
  pub mirror : Option Mirror
  pub credentials : Option Provider
  pub allow_upstream : Option Bool
  pub offline : Option Bool
  pub max_bytes : Option ℕ

abbrev pub default_builder : DatastoreBuilder
default_builder = record {
  cache_root = none;
  mirror = none;
  credentials = none;
  allow_upstream = none;
  offline = none;
  max_bytes = none;
}

abbrev http_spec : Bytes → Result Mirror
http_spec spec =
    if starts_with spec (codes "http://") || starts_with spec (codes "https://")
    then ok (http_mirror (trim_end_slash spec) false)
    else invalid "mirror must be an http(s):// URL or s3://bucket/prefix"

-- The value of a variable that counts, as `env_var` reads it.
unfoldable pub env_text : Variable → Option Bytes
env_text absent = none
env_text not_unicode = none
env_text (value v) = if is_blank v then none else some v

module _ (env : Bytes → Variable) where
  abbrev pub env_var : String → Option Bytes
  env_var name = env_text (env (codes name))

  abbrev pub bool_of : Option Bytes → Result (Option Bool)
  bool_of none = ok none
  bool_of (some raw) = parse_bool raw >>= λ b. ok (some b)

  -- `env_bool`
  unfoldable pub env_bool : String → Result (Option Bool)
  env_bool name = bool_of (env_var name)

  abbrev in_region : Bytes → Bytes → Option Bytes → Result Mirror
  in_region bucket prefix none = invalid "S3 mirror needs a region"
  in_region bucket prefix (some region) = ok (s3_mirror bucket (trim_slashes prefix) region false)

  abbrev s3_spec : Bytes × Bytes → Option Bytes → Result Mirror
  s3_spec (bucket, prefix) region =
      if is_empty bucket
      then invalid "mirror has no bucket"
      else in_region bucket prefix
          (or_option region (or_option (env_var "AWS_REGION") (env_var "AWS_DEFAULT_REGION")))

  -- `parse_mirror`
  unfoldable pub parse_mirror : Bytes → Option Bytes → Result Mirror
  parse_mirror spec region =
      if starts_with spec (codes "s3://")
      then s3_spec (split_once_slash (drop 5 spec)) region
      else http_spec spec

  -- `config_path`
  unfoldable pub config_path : Option Bytes
  config_path = or_option (env_var "STARFIELD_DATASTORE_CONFIG") (
      or_option
        (elim (env_var "XDG_CONFIG_HOME") [
          | none ↦ none
          | some base ↦ some (join (join base (codes "starfield")) (codes "datastore.toml"))
        ])
        (elim (env_var "HOME") [
          | none ↦ none
          | some home ↦ some (
              join (join (join home (codes ".config")) (codes "starfield"))
                (codes "datastore.toml"))
        ]))

  -- `default_cache_root`
  unfoldable pub default_cache_root : Result Bytes
  default_cache_root = elim (env_var "XDG_CACHE_HOME") [
    | some base ↦ ok (join base (codes "starfield"))
    | none ↦ elim (env_var "HOME") [
      | some home ↦ ok (join (join home (codes ".cache")) (codes "starfield"))
      | none ↦ invalid "cannot locate a cache directory"
    ]
  ]

  -- The settings of `apply_file`, each of them for itself.
  unfoldable pub choose_root : Option Bytes → Option Bytes → Option Bytes
  choose_root set file = or_option set (or_option (env_var "STARFIELD_CACHE_DIR") file)

  abbrev pub mirror_of : Option Bytes → Option Bytes → Result (Option Mirror)
  mirror_of none region = ok none
  mirror_of (some spec) region = parse_mirror spec region >>= λ m. ok (some m)

  unfoldable pub choose_mirror :
      Option Mirror → Option Bytes → Option Bytes → Result (Option Mirror)
  choose_mirror (some m) file region = ok (some m)
  choose_mirror none file region =
      mirror_of (or_option (env_var "STARFIELD_MIRROR") file)
        (or_option (env_var "STARFIELD_MIRROR_REGION") region)

  unfoldable pub choose_bool : String → Option Bool → Option Bool → Result (Option Bool)
  choose_bool name (some b) file = ok (some b)
  choose_bool name none file = env_bool name >>= λ found. ok (or_option found file)

  abbrev byte_count_of : Option ℕ → Result ℕ
  byte_count_of none = invalid "STARFIELD_CACHE_MAX must be a byte count"
  byte_count_of (some n) = ok n

  abbrev pub byte_count : Bytes → Result ℕ
  byte_count raw = byte_count_of (parse_u64 raw)

  abbrev pub max_of : Option Bytes → Option ℕ → Result (Option ℕ)
  max_of none file = ok file
  max_of (some raw) file = byte_count raw >>= λ n. ok (some n)

  unfoldable pub choose_max : Option ℕ → Option ℕ → Result (Option ℕ)
  choose_max (some n) file = ok (some n)
  choose_max none file = max_of (env_var "STARFIELD_CACHE_MAX") file

  -- A netrc file, and the program `op`, which a build may lack.
  module _ (netrc : NetrcFile) (op : Option (Bytes → OpRun)) where
    abbrev pub op_run : Bytes → Option OpRun
    op_run reference = elim op [ none ↦ none | some run ↦ some (run reference) ]

    -- `provider_with_warnings`
    unfoldable pub provider_with_warnings : List CredentialConfig → Result Provider
    provider_with_warnings entries =
        configured_provider entries >>= λ p. ok (config_provider env netrc op_run p.0)

    abbrev item_provider : Option (Bytes → OpRun) → Option Bytes → List Provider
    item_provider none item = []
    item_provider (some run) none = []
    item_provider (some run) (some item) = one_password_provider run item ∷ []

    -- `default_credentials`
    unfoldable pub default_credentials : Provider
    default_credentials =
        chain_provider (
          env_provider env
          ∷ (netrc_provider netrc ∷ item_provider op (env_var "STARFIELD_OP_ITEM")))

    unfoldable pub choose_credentials :
        Option Provider → List CredentialConfig → Result (Option Provider)
    choose_credentials (some p) entries = ok (some p)
    choose_credentials none entries = provider_with_warnings entries >>= λ p.
        ok (some (chain_provider (p ∷ (default_credentials ∷ []))))

    -- `apply_file`
    unfoldable pub apply_file : DatastoreBuilder → DatastoreConfig → Result DatastoreBuilder
    apply_file builder file = do
      m ← choose_mirror builder.mirror file.mirror file.mirror_region
      upstream ← choose_bool "STARFIELD_ALLOW_UPSTREAM" builder.allow_upstream file.allow_upstream
      off ← choose_bool "STARFIELD_OFFLINE" builder.offline file.offline
      provider ← choose_credentials builder.credentials file.credentials
      limit ← choose_max builder.max_bytes file.cache_max
      ok (record {
        cache_root = choose_root builder.cache_root file.cache_dir;
        mirror = m;
        credentials = provider;
        allow_upstream = upstream;
        offline = off;
        max_bytes = limit;
      })
