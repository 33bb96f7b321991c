-- ===== src/Config/Services.antt =====
-- src/config.rs: the checks of a configuration, and the builders that it gives, for a library and for
-- one of its services.
use starfield_datastore.Prelude.{
  String, Bool, not, ◌&&◌, Option, none, some, List, [], ◌∷◌, map, if◌then◌else◌, any, all, Bytes,
  eq_bytes,
}
use starfield_datastore.Error.{Result, ok, ◌>>=◌, ◌>>◌}
use starfield_datastore.Server.Service.{is_blank}
use starfield_datastore.Policy.{ServiceCachePolicy}
use starfield_datastore.Policy
use starfield_datastore.Fetch.{Provider}
use starfield_datastore.Credential.{Variable, NetrcFile}
use starfield_datastore.CredentialConfig.Source.{CredentialConfig}
use starfield_datastore.CredentialConfig.{validate_entries, OpRun}
use starfield_datastore.Config.{
  ServiceConfig, DatastoreConfig, DatastoreBuilder, default_builder, provider_with_warnings,
  apply_file,
}
use starfield_datastore.Config.Texts.{invalid, is_some, is_relative, join}

-- The first loop of `validate`: the names so far are each new.
unfoldable pub validate_credentials : List CredentialConfig → List Bytes → Result (Unit {0})
validate_credentials [] seen = ok tt
validate_credentials (entry ∷ rest) seen =
    if any (eq_bytes entry.name) seen
    then invalid "duplicate credential"
    else (validate_entries (entry ∷ []) >> validate_credentials rest (entry.name ∷ seen))

abbrev pub names_of : List CredentialConfig → List Bytes
names_of = map (λ e. e.name)

abbrev pub is_named : List Bytes → Bytes → Bool
is_named names name = any (eq_bytes name) names

abbrev check_policy : Option Bytes → Option ServiceCachePolicy → Result (Unit {0})
check_policy cache_dir none = ok tt
check_policy cache_dir (some policy) =
    Policy.validate policy
    >> (if policy.evict_on_fetch && not (is_some cache_dir)
        then invalid "automatic service eviction requires an explicit cache_dir"
        else ok tt)

abbrev check_selected : List Bytes → Option (List Bytes) → Result (Unit {0})
check_selected names none = ok tt
check_selected names (some selected) =
    if all (is_named names) selected then ok tt else invalid "service names unknown credential"

unfoldable pub validate_service :
    Option Bytes → List Bytes → Bytes → ServiceConfig → Result (Unit {0})
validate_service cache_dir names name service =
    check_policy cache_dir service.cache
    >> (if is_blank name
        then invalid "service name is empty"
        else check_selected names service.credentials)

unfoldable pub validate_services :
    Option Bytes → List Bytes → List (Bytes × ServiceConfig) → Result (Unit {0})
validate_services cache_dir names [] = ok tt
validate_services cache_dir names ((name, service) ∷ rest) =
    validate_service cache_dir names name service >> validate_services cache_dir names rest

-- `DatastoreConfig::validate`
unfoldable pub validate : DatastoreConfig → Result (Unit {0})
validate c =
    validate_credentials c.credentials []
    >> validate_services c.cache_dir (names_of c.credentials) c.services

-- `from_toml_str`, on what the toml crate reads
unfoldable pub load : Option DatastoreConfig → Result DatastoreConfig
load none = invalid "invalid configuration"
load (some c) = validate c >> ok c

abbrev under : Bytes → Option Bytes → Option Bytes
under parent none = none
under parent (some path) = some (if is_relative path then join parent path else path)

unfoldable pub rebase_services : Bytes → List (Bytes × ServiceConfig) → List (Bytes × ServiceConfig)
rebase_services parent [] = []
rebase_services parent ((name, service) ∷ rest) =
    (name, record service { manifest = under parent service.manifest })
    ∷ rebase_services parent rest

-- What `from_path` makes of the paths in a file in the directory `parent`.
unfoldable pub rebase : Bytes → DatastoreConfig → DatastoreConfig
rebase parent c = record c {
  cache_dir = under parent c.cache_dir;
  services = rebase_services parent c.services;
}

unfoldable pub find_service : Bytes → List (Bytes × ServiceConfig) → Option ServiceConfig
find_service name [] = none
find_service name ((n, s) ∷ rest) = if eq_bytes n name then some s else find_service name rest

unfoldable pub find_credential : Bytes → List CredentialConfig → Option CredentialConfig
find_credential name [] = none
find_credential name (e ∷ rest) = if eq_bytes e.name name then some e else find_credential name rest

abbrev pub selected_or : {A : Type 0} → String → Option A → Result A
selected_or message none = invalid message
selected_or message (some a) = ok a

-- The entries with the names, in the order of the names.
unfoldable pub select : List Bytes → List CredentialConfig → Result (List CredentialConfig)
select [] entries = ok []
select (name ∷ rest) entries = do
  e ← selected_or "unknown credential" (find_credential name entries)
  more ← select rest entries
  ok (e ∷ more)

module _ (env : Bytes → Variable) (netrc : NetrcFile) (op : Option (Bytes → OpRun)) where
  -- `DatastoreConfig::builder`
  unfoldable pub builder : DatastoreConfig → Result DatastoreBuilder
  builder c = validate c >> apply_file env netrc op default_builder c

  unfoldable pub service_provider :
      Option (List Bytes) → List CredentialConfig → Result (Option Provider)
  service_provider none entries = ok none
  service_provider (some names) entries = do
    chosen ← select names entries
    p ← provider_with_warnings env netrc op chosen
    ok (some p)

  -- `builder_for_service`
  unfoldable pub builder_for_service : Bytes → DatastoreConfig → Result DatastoreBuilder
  builder_for_service name c = do
    service ← selected_or "unknown service" (find_service name c.services)
    u ← validate c
    provider ← service_provider service.credentials c.credentials
    apply_file env netrc op (record default_builder { credentials = provider }) c
