-- ===== src/Credential/OnePassword.antt =====
-- src/credential.rs `OnePasswordProvider`: a bearer token from a field of a 1Password item. The program
-- `op` is an input.
use starfield_datastore.Prelude.{
  Bool, not, ◌&&◌, ◌||◌, some, ◌∷◌, ◌++◌, ◌==◌, if◌then◌else◌, is_empty, all, Bytes, codes,
  starts_with,
}
use starfield_datastore.Error.{err, config}
use starfield_datastore.Key.{is_ascii_alphanumeric, trim_end_slash}
use starfield_datastore.Fetch.{Provider}
use starfield_datastore.CredentialConfig.{OpRun, run_op}

-- The item is a reference and the host is nothing that `op` could read otherwise.
unfoldable pub can_read : Bytes → Bytes → Bool
can_read op_item host =
    starts_with op_item (codes "op://")
    && (not (is_empty host)
        && all (λ b. is_ascii_alphanumeric b || (b == b'.' || (b == b'-' || b == b':'))) host)

unfoldable pub one_password_provider : (Bytes → OpRun) → Bytes → Provider
one_password_provider op op_item = record {
  credential_for = λ host.
      if can_read op_item host
      then run_op (some (op (trim_end_slash op_item ++ (b'/' ∷ host))))
      else err (config "invalid 1Password reference or host");
  identity_for = λ host. some (codes "onepassword:" ++ host);
}
