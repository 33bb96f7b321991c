-- ===== src/Tests/Config.antt =====
-- Configurations and credential entries at concrete inputs.
use starfield_datastore.Prelude.{
  ◌≤◌, ◌≡◌, refl, true, false, none, some, List, [], ◌∷◌, if◌then◌else◌, Bytes, codes, eq_bytes,
  starts_with,
}
use starfield_datastore.Error.{Result, io, ok, err}
use starfield_datastore.Key.{is_ascii_alphanumeric, trim_end_slash}
use starfield_datastore.Check.Html.{to_ascii_lowercase, trim_start, is_space, is_space2, is_space3}
use starfield_datastore.Server.Service.{is_blank}
use starfield_datastore.Credential.{Variable, absent, value, no_home}
use starfield_datastore.CredentialConfig.{
  ByHost, config_provider, entry_credential, SkippedCredential, trim_end, is_bare_host,
  check_source, validate_entry, validate_from, lookup_host, claim_hosts, claim_all, skipped_of,
  configured_provider,
}
use starfield_datastore.CredentialConfig.Source.{
  CredentialConfig, env, unrecognized, text, array, object, item, no_items, Fields, field, end,
  boolean, number, find_field, has_field, remove_field, only_fields, decode_known, decode_kind,
  decode_source, texts_of, deserialize, serialize, datetime_fields, kind_of,
}
use starfield_datastore.CredentialConfig.RoundTrip.{deserialize-serialize}
use starfield_datastore.CredentialConfig.Secrets.{deserialize_no_secret}
use starfield_datastore.CredentialConfig.Hosts.{
  find_owner, count_owners, owner_identity, config_provider-find_owner,
}
use starfield_datastore.Config.{
  DatastoreConfig, ServiceConfig, DatastoreBuilder, default_builder, http_mirror, env_text,
  env_bool, choose_root, parse_mirror, choose_mirror, choose_bool, choose_max, choose_credentials,
  apply_file,
}
use starfield_datastore.Config.Texts.{parse_bool}
use starfield_datastore.Config.Services.{builder_for_service}
use starfield_datastore.Config.Precedence.{Precedence, apply_file-Precedence}

-- An entry with a type that no build knows yet.
abbrev vault_fields : Fields
vault_fields = field (codes "name") (text (codes "mast")) (
    field (codes "type") (text (codes "vault")) (
      field (codes "hosts") (array (item (text (codes "a.test")) no_items)) (
        field (codes "flags") (array (item (boolean true) no_items))
          (field (codes "count") (number (codes "3")) end))))

abbrev vault_entry : CredentialConfig
vault_entry = record {
  name = codes "mast";
  hosts = codes "a.test" ∷ [];
  source = unrecognized (
      object (
        field (codes "type") (text (codes "vault")) (
          field (codes "flags") (array (item (boolean true) no_items))
            (field (codes "count") (number (codes "3")) end))));
}

vault_read : deserialize vault_fields ≡ ok vault_entry
unfolding deserialize find_field texts_of decode_source remove_field decode_kind datetime_fields
    eq_bytes starts_with
vault_read = refl

-- A serializer that fails.
abbrev full_disk : Fields → Result (Unit {0})
full_disk fs = err io

deserialize-serialize_example :
    (gs : Fields) × (serialize full_disk vault_entry ≡ full_disk gs)
    × (deserialize gs ≡ ok vault_entry)
deserialize-serialize_example = deserialize-serialize full_disk vault_fields vault_entry vault_read

abbrev env_fields : Fields
env_fields = field (codes "name") (text (codes "mast")) (
    field (codes "hosts") (array (item (text (codes "a.test")) no_items)) (
      field (codes "type") (text (codes "env"))
        (field (codes "variable") (text (codes "MAST")) end)))

abbrev env_entry : CredentialConfig
env_entry = record { name = codes "mast"; hosts = codes "A.test" ∷ []; source = env (codes "MAST") }

abbrev env_entry_read : CredentialConfig
env_entry_read = record env_entry { hosts = codes "a.test" ∷ [] }

env_read : deserialize env_fields ≡ ok env_entry_read
unfolding deserialize find_field has_field texts_of decode_source remove_field decode_kind
    decode_known only_fields eq_bytes
env_read = refl

deserialize_no_secret_example :
    (has_field (codes "password") env_fields ≡ false)
    × (has_field (codes "token") env_fields ≡ false)
    × (has_field (codes "secret") env_fields ≡ false)
    × (has_field (codes "api_key") env_fields ≡ false)
deserialize_no_secret_example = deserialize_no_secret env_fields env_entry_read env_read refl

abbrev entries : List CredentialConfig
entries = vault_entry ∷ (record env_entry { name = codes "archive" } ∷ [])

abbrev archive : CredentialConfig
archive = record {
  name = codes "archive";
  hosts = codes "a.test" ∷ [];
  source = env (codes "MAST");
}

abbrev skipped : List SkippedCredential
skipped = record { name = codes "mast"; kind = codes "vault" } ∷ []

-- The environment names a mirror and switches the sources on.
abbrev environment : Bytes → Variable
environment name =
    if eq_bytes name (codes "STARFIELD_MIRROR")
    then value (codes "https://m.test/")
    else if eq_bytes name (codes "STARFIELD_ALLOW_UPSTREAM")
    then value (codes " Yes ")
    else absent

abbrev made_of : ByHost
made_of = (codes "a.test", archive) ∷ []

selection_made : configured_provider entries ≡ ok (made_of, skipped)
unfolding configured_provider validate_from validate_entry is_blank trim_start is_space is_space2
    is_space3 is_bare_host trim_end check_source claim_all claim_hosts lookup_host skipped_of
    kind_of find_field is_ascii_alphanumeric eq_bytes to_ascii_lowercase starts_with
selection_made = refl

config_provider-find_owner_example :
    ((config_provider environment no_home (λ r. none) made_of).credential_for (codes "a.TEST")
      ≡ entry_credential environment no_home
          (λ r. none)
          (find_owner (codes "a.TEST") entries)
          (codes "a.TEST"))
    × ((config_provider environment no_home (λ r. none) made_of).identity_for (codes "a.TEST")
        ≡ owner_identity (find_owner (codes "a.TEST") entries))
    × (count_owners (codes "a.TEST") entries ≤ 1)
config_provider-find_owner_example =
    config_provider-find_owner environment no_home (λ r. none) entries made_of skipped
      (codes "a.TEST") selection_made

abbrev pipeline : ServiceConfig
pipeline = record {
  cache = none;
  manifest = none;
  bucket = none;
  region = none;
  bind = none;
  credentials = some (codes "mast" ∷ []);
}

abbrev file : DatastoreConfig
file = record {
  cache_dir = some (codes "/data");
  mirror = none;
  mirror_region = none;
  allow_upstream = some false;
  offline = none;
  cache_max = some 100;
  credentials = env_entry ∷ [];
  services = (codes "pipeline", pipeline) ∷ [];
}

abbrev explicit : DatastoreBuilder
explicit = record default_builder {
  max_bytes = some 5;
  credentials = some (record { credential_for = λ host. ok none; identity_for = λ host. none });
}

abbrev resolved : DatastoreBuilder
resolved = record explicit {
  cache_root = some (codes "/data");
  mirror = some (http_mirror (codes "https://m.test") false);
  allow_upstream = some true;
}

settings_resolved : apply_file environment no_home none explicit file ≡ ok resolved
unfolding apply_file choose_mirror parse_mirror env_text is_blank trim_start is_space is_space2
    is_space3 trim_end trim_end_slash choose_bool env_bool parse_bool to_ascii_lowercase
    choose_credentials choose_max choose_root eq_bytes starts_with
settings_resolved = refl

apply_file-Precedence_example : Precedence environment no_home none explicit file resolved
apply_file-Precedence_example =
    apply_file-Precedence environment no_home none explicit file resolved settings_resolved

-- The builder that the call makes.
service_builder : DatastoreBuilder
service_builder = elim (builder_for_service environment no_home none (codes "pipeline") file) [
  | ok b ↦ b
  | err e ↦ default_builder
]
