-- ===== src/CredentialConfig.antt =====
-- src/credential_config.rs: the credential entries of a configuration file, their validation, and the
-- provider that a selection of them makes. The environment, the .netrc file and the program `op` are
-- inputs. A hash map is the list of its pairs, latest first.
pub mod Source
pub mod RoundTrip
pub mod Secrets
pub mod Claims
pub mod Hosts
use starfield_datastore.Prelude.{
  String, Bool, true, false, not, ◌&&◌, ◌||◌, Option, none, some, List, [], ◌∷◌, ◌++◌, map, ◌==◌,
  if◌then◌else◌, is_empty, any, all, Bytes, codes, eq_bytes, starts_with,
}
use starfield_datastore.Error.{Result, ok, err, ◌>>=◌, ◌>>◌, config, io}
use starfield_datastore.Key.{is_ascii_alphanumeric}
use starfield_datastore.Check.Html.{to_ascii_lowercase, trim_start}
use starfield_datastore.Server.Service.{is_blank}
use starfield_datastore.Fetch.{Credential, basic, bearer, Provider}
use starfield_datastore.Credential.{Variable, absent, not_unicode, value, NetrcFile, netrc_lookup}
use starfield_datastore.Manifest.Utf8.{is_utf8}
use Source.{
  CredentialSource, env, basic_auth, netrc, one_password, unrecognized, CredentialConfig, kind_of,
}

-- `str::trim`
unfoldable pub trim_end : Bytes → Bytes
trim_end [] = []
trim_end (c ∷ s) = let rest = trim_end s in if is_blank (c ∷ s) then [] else c ∷ rest

abbrev pub trim : Bytes → Bytes
trim s = trim_end (trim_start s)

-- `is_bare_host`
unfoldable pub is_bare_host : Bytes → Bool
is_bare_host host =
    not (is_empty (trim host))
    && all (λ b. is_ascii_alphanumeric b || (b == b'.' || b == b'-')) (trim host)

abbrev invalid {ℓ} : {A : Type ℓ} → String → Result A
invalid message = err (config message)

-- The fields that each source requires.
unfoldable pub check_source : CredentialSource → Result (Unit {0})
check_source (env variable) = if is_blank variable then invalid "`variable` is empty" else ok tt
check_source (basic_auth username password_env) =
    if is_empty username || is_blank password_env
    then invalid "`username` and `password_env` are required"
    else ok tt
check_source netrc = ok tt
check_source (one_password reference) =
    if starts_with reference (codes "op://")
    then ok tt
    else invalid "`reference` must start with op://"
check_source (unrecognized raw) = ok tt

-- One round of the loop of `validate_entries`.
unfoldable pub validate_entry : CredentialConfig → List Bytes → Result (Unit {0})
validate_entry entry seen =
    if is_blank entry.name
    then invalid "a credential entry has an empty name"
    else if any (eq_bytes entry.name) seen
    then invalid "name is used twice"
    else if is_empty entry.hosts
    then invalid "lists no hosts"
    else if not (all is_bare_host entry.hosts)
    then invalid "host must be a bare hostname: no port, path, scheme or wildcard"
    else check_source entry.source

unfoldable pub validate_from : List CredentialConfig → List Bytes → Result (Unit {0})
validate_from [] seen = ok tt
validate_from (entry ∷ rest) seen =
    validate_entry entry seen >> validate_from rest (entry.name ∷ seen)

-- `validate_entries`
abbrev pub validate_entries : List CredentialConfig → Result (Unit {0})
validate_entries entries = validate_from entries []

-- `ConfigProvider { by_host }`
abbrev pub ByHost : Type 0
ByHost = List (Bytes × CredentialConfig)

unfoldable pub lookup_host : Bytes → ByHost → Option CredentialConfig
lookup_host host [] = none
lookup_host host ((h, e) ∷ rest) = if eq_bytes h host then some e else lookup_host host rest

abbrev pub is_claimed : Option CredentialConfig → Bool
is_claimed none = false
is_claimed (some e) = true

-- The hosts of an entry go into the map, each of them new.
unfoldable pub claim_hosts : List Bytes → CredentialConfig → ByHost → Result ByHost
claim_hosts [] entry by_host = ok by_host
claim_hosts (h ∷ hosts) entry by_host =
    if is_claimed (lookup_host h by_host)
    then invalid "host is claimed by two credentials in the same selection"
    else claim_hosts hosts entry ((h, entry) ∷ by_host)

-- A host as it is looked up.
abbrev pub normal_host : Bytes → Bytes
normal_host host = map to_ascii_lowercase (trim host)

abbrev pub normalized : CredentialConfig → CredentialConfig
normalized entry = record entry { hosts = map normal_host entry.hosts }

abbrev pub is_unrecognized : CredentialSource → Bool
is_unrecognized (unrecognized raw) = true
is_unrecognized (env variable) = false
is_unrecognized (basic_auth username password_env) = false
is_unrecognized netrc = false
is_unrecognized (one_password reference) = false

-- The loop of `configured_provider`.
unfoldable pub claim_all : List CredentialConfig → ByHost → Result ByHost
claim_all [] by_host = ok by_host
claim_all (entry ∷ rest) by_host =
    if is_unrecognized entry.source
    then claim_all rest by_host
    else (claim_hosts (normalized entry).hosts (normalized entry) by_host >>= claim_all rest)

-- `SkippedCredential`
pub record SkippedCredential : Type 0 where
  pub name : Bytes
  pub kind : Bytes

unfoldable pub skipped_of : List CredentialConfig → List SkippedCredential
skipped_of [] = []
skipped_of (entry ∷ rest) =
    let more = skipped_of rest in
    if is_unrecognized entry.source
    then (record { name = entry.name; kind = kind_of entry.source } ∷ more)
    else more

-- `configured_provider`
unfoldable pub configured_provider :
    List CredentialConfig → Result (ByHost × List SkippedCredential)
configured_provider entries = do
  u ← validate_entries entries
  by_host ← claim_all entries []
  ok (by_host, skipped_of entries)

-- `read_env`: an empty variable counts as one that is not set.
unfoldable pub read_env : Variable → Option Bytes
read_env absent = none
read_env not_unicode = none
read_env (value v) = if is_empty v then none else some v

-- A run of `op read`: it does not start, or it ends with success or not and with an output.
pub data OpRun : Type 0 where
  not_started : OpRun
  exited : Bool → Bytes → OpRun

-- What is left of an output without the line ends behind it.
unfoldable pub trim_newlines : Bytes → Bytes
trim_newlines [] = []
trim_newlines (c ∷ s) =
    let rest = trim_newlines s in if is_empty rest && (c == 13 || c == 10) then [] else c ∷ rest

-- `one_password`, without the feature (`none`) and with it
unfoldable pub run_op : Option OpRun → Result (Option Credential)
run_op none = invalid "this build has no `onepassword` feature"
run_op (some not_started) = err io
run_op (some (exited false out)) = invalid "`op read` failed for its reference"
run_op (some (exited true out)) =
    if not (is_utf8 out)
    then invalid "1Password field is not UTF-8"
    else ok (if is_empty (trim_newlines out) then none else some (bearer (trim_newlines out) none))

module _ (env_of : Bytes → Variable) (file : NetrcFile) (op : Bytes → Option OpRun) where
  abbrev secret_from : (Bytes → Credential) → Option Bytes → Result (Option Credential)
  secret_from make none = invalid "needs environment variable, which is not set"
  secret_from make (some secret) = ok (some (make secret))

  -- What an entry's source gives for a host.
  unfoldable pub source_credential : CredentialSource → Bytes → Result (Option Credential)
  source_credential (env variable) host =
      secret_from (λ secret. bearer secret none) (read_env (env_of variable))
  source_credential (basic_auth username password_env) host =
      secret_from (basic username) (read_env (env_of password_env))
  source_credential netrc host = netrc_lookup file host
  source_credential (one_password reference) host = run_op (op reference)
  source_credential (unrecognized raw) host = ok none

  abbrev pub entry_credential : Option CredentialConfig → Bytes → Result (Option Credential)
  entry_credential none host = ok none
  entry_credential (some entry) host = source_credential entry.source host

  abbrev pub entry_identity : Option CredentialConfig → Option Bytes
  entry_identity none = none
  entry_identity (some entry) = some (codes "config:" ++ entry.name)

  -- `ConfigProvider`
  unfoldable pub config_provider : ByHost → Provider
  config_provider by_host = record {
    credential_for =
        λ host. entry_credential (lookup_host (map to_ascii_lowercase host) by_host) host;
    identity_for = λ host. entry_identity (lookup_host (map to_ascii_lowercase host) by_host);
  }
