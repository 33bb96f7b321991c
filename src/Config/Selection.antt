-- ===== src/Config/Selection.antt =====
-- The credentials of a service of src/config.rs that selects some by name.
use starfield_datastore.Prelude.{◌≡◌, ◌⊎◌, Option, List, [], ◌∷◌, Bytes}
use starfield_datastore.Fetch.{Provider}
use starfield_datastore.Credential.{Variable, NetrcFile}
use starfield_datastore.CredentialConfig.Source.{CredentialConfig}
use starfield_datastore.CredentialConfig.{entry_credential, OpRun}
use starfield_datastore.CredentialConfig.Hosts.{find_owner}
use starfield_datastore.Config.{op_run}

abbrev IsIn : CredentialConfig → List CredentialConfig → Type 0
IsIn e [] = ⊥
IsIn e (x ∷ xs) = (x ≡ e) ⊎ IsIn e xs

-- For each of the names, in their order, an entry of that name.
abbrev pub Chosen : List Bytes → List CredentialConfig → List CredentialConfig → Type 0
Chosen [] entries chosen = chosen ≡ []
Chosen (name ∷ names) entries chosen =
    (e : CredentialConfig) × (more : List CredentialConfig) × (chosen ≡ e ∷ more)
    × (e.name ≡ name)
    × IsIn e entries
    × Chosen names entries more

module _ (env : Bytes → Variable) (netrc : NetrcFile) (op : Option (Bytes → OpRun)) where
  -- The provider answers for a host from the first of the entries that lists it, in whatever case, and
  -- from nothing else.
  abbrev pub AnswersFrom : List CredentialConfig → Provider → Type 0
  AnswersFrom chosen p =
      (host : Bytes)
      → p.credential_for host
        ≡ entry_credential env netrc (op_run env netrc op) (find_owner host chosen) host
