-- ===== src/Config/Precedence.antt =====
-- The precedence of src/config.rs: an explicit call, then the environment, then the file; and what a
-- service with a selection of credentials uses.
use starfield_datastore.Prelude.{
  ℕ, String, ◌≡◌, refl, sym, ap, ◌∙◌, Bool, Option, none, some, List, arith, Bytes, codes, is_empty,
  if◌then◌else◌,
}
use mathlib.Core.Path.{subst}
use starfield_datastore.Error.{ok_inj, Result, ok, ◌>>=◌, >>=-eq-ok}
use starfield_datastore.Fetch.{Provider}
use starfield_datastore.Check.Html.{trim_start}
use starfield_datastore.Server.Service.{is_blank}
use starfield_datastore.Credential.{Variable, absent, not_unicode, value, NetrcFile}
use starfield_datastore.CredentialConfig.Source.{CredentialConfig}
use starfield_datastore.CredentialConfig.{OpRun}
use starfield_datastore.Config.{
  Mirror, DatastoreConfig, DatastoreBuilder, env_text, env_var, apply_file, choose_root,
  choose_mirror, choose_bool, choose_max, env_bool, choose_credentials, parse_mirror, bool_of,
  mirror_of, max_of, byte_count,
}
use starfield_datastore.Config.Texts.{or_option, parse_bool}

-- What a variable says: nothing where it is not set, is not Unicode, or is white space alone.
abbrev pub said : Variable → Option Bytes
said absent = none
said not_unicode = none
said (value v) = if is_empty (trim_start v) then none else some v

env_text-said : (v : Variable) → env_text v ≡ said v
unfolding env_text is_blank
env_text-said absent = refl
env_text-said not_unicode = refl
env_text-said (value v) = refl

module _ (env : Bytes → Variable) (netrc : NetrcFile) (op : Option (Bytes → OpRun)) where
  -- Where one setting comes from: the explicit one, else the text of the variable as `read` reads it,
  -- else that of the file. A text that cannot be read is an error.
  abbrev pub Resolves :
      {A : Type 0} → Option A → Option Bytes → (Bytes → Result A) → Option A → Option A → Type 0
  Resolves (some a) text read file result = result ≡ some a
  Resolves none (some t) read file result = (a : _) × (read t ≡ ok a) × (result ≡ some a)
  Resolves none none read file result = result ≡ file

  bool_of-Resolves :
      (t : Option Bytes) (file result : Option Bool)
      → (bool_of env t >>= λ found. ok (or_option found file)) ≡ ok result
      → Resolves none t parse_bool file result
  bool_of-Resolves none file result h = sym (ok_inj _ _ h)
  bool_of-Resolves (some t) file result h =
      let (found, h0, h1) = >>=-eq-ok (parse_bool t >>= λ b. ok (some b)) _ h in
      let (b, h2, h3) = >>=-eq-ok (parse_bool t) (λ b. ok (some b)) h0 in
      let e : some b ≡ found = ok_inj _ _ h3 in
      (b, h2, sym (ok_inj _ _ h1) ∙ ap (λ o. or_option o file) (sym e))

  choose_bool-Resolves :
      (name : String) (set file result : Option Bool)
      → choose_bool env name set file ≡ ok result
      → Resolves set (env_var env name) parse_bool file result
  unfolding choose_bool env_bool
  choose_bool-Resolves name (some b) file result h = sym (ok_inj _ _ h)
  choose_bool-Resolves name none file result h = bool_of-Resolves (env_var env name) file result h

  max_of-Resolves :
      (t : Option Bytes) (file result : Option ℕ)
      → max_of env t file ≡ ok result
      → Resolves none t (byte_count env) file result
  max_of-Resolves none file result h = sym (ok_inj _ _ h)
  max_of-Resolves (some t) file result h =
      let (n, h0, h1) = >>=-eq-ok (byte_count env t) (λ n. ok (some n)) h in
      (n, h0, sym (ok_inj _ _ h1))

  choose_max-Resolves :
      (set file result : Option ℕ)
      → choose_max env set file ≡ ok result
      → Resolves set (env_var env "STARFIELD_CACHE_MAX") (byte_count env) file result
  unfolding choose_max
  choose_max-Resolves (some n) file result h = sym (ok_inj _ _ h)
  choose_max-Resolves none file result h = max_of-Resolves _ file result h

  mirror_of-Resolves :
      (t region : Option Bytes) (result : Option Mirror)
      → mirror_of env t region ≡ ok result
      → Resolves none t (λ spec. parse_mirror env spec region) none result
  mirror_of-Resolves none region result h = sym (ok_inj _ _ h)
  mirror_of-Resolves (some t) region result h =
      let (m, h0, h1) = >>=-eq-ok (parse_mirror env t region) (λ m. ok (some m)) h in
      (m, h0, sym (ok_inj _ _ h1))

  choose_mirror-Resolves :
      (set : Option Mirror) (file region : Option Bytes) (result : Option Mirror)
      → choose_mirror env set file region ≡ ok result
      → Resolves set
          (or_option (env_var env "STARFIELD_MIRROR") file)
          (λ spec. parse_mirror env spec (or_option (env_var env "STARFIELD_MIRROR_REGION") region))
          none
          result
  unfolding choose_mirror
  choose_mirror-Resolves (some m) file region result h = sym (ok_inj _ _ h)
  choose_mirror-Resolves none file region result h = mirror_of-Resolves _ _ result h

  choose_root-Resolves :
      (set t file : Option Bytes)
      → Resolves set t (λ x. ok x) file (or_option set (or_option t file))
  choose_root-Resolves (some r) t file = refl
  choose_root-Resolves none (some t) file = (t, refl, refl)
  choose_root-Resolves none none file = refl

  choose_credentials_set :
      (set : Option Provider) (entries : List CredentialConfig) (result : Option Provider)
      → choose_credentials env netrc op set entries ≡ ok result
      → (p : Provider) → set ≡ some p
      → result ≡ some p
  unfolding choose_credentials
  choose_credentials_set (some q) entries result h p e = sym (ok_inj _ _ h) ∙ e
  choose_credentials_set none entries result h p e = absurd (ground arith)

  -- What the settings of a builder resolve to, with `says` for what a variable says.
  abbrev PrecedenceOf :
      (Variable → Option Bytes) → DatastoreBuilder → DatastoreConfig → DatastoreBuilder → Type 0
  PrecedenceOf says b file r =
      Resolves b.cache_root (says (env (codes "STARFIELD_CACHE_DIR"))) (λ x. ok x) file.cache_dir
        r.cache_root
      × Resolves b.mirror (or_option (says (env (codes "STARFIELD_MIRROR"))) file.mirror)
          (λ spec.
            parse_mirror env spec
              (or_option (says (env (codes "STARFIELD_MIRROR_REGION"))) file.mirror_region))
          none r.mirror
      × Resolves b.allow_upstream (says (env (codes "STARFIELD_ALLOW_UPSTREAM"))) parse_bool
          file.allow_upstream r.allow_upstream
      × Resolves b.offline (says (env (codes "STARFIELD_OFFLINE"))) parse_bool file.offline
          r.offline
      × Resolves b.max_bytes (says (env (codes "STARFIELD_CACHE_MAX"))) (byte_count env)
          file.cache_max r.max_bytes
      × ((p : Provider) → b.credentials ≡ some p → r.credentials ≡ some p)

  abbrev pub Precedence : DatastoreBuilder → DatastoreConfig → DatastoreBuilder → Type 0
  Precedence b file r = PrecedenceOf said b file r

  -- Every setting of a datastore is the one of an explicit call where there is one, else what the
  -- environment says, else what the file says; a variable that is blank does not count, and one that
  -- counts and cannot be read is an error. An explicit credential provider is kept as it is.
  pub apply_file-Precedence :
      (b : DatastoreBuilder) (file : DatastoreConfig) (r : DatastoreBuilder)
      → apply_file env netrc op b file ≡ ok r
      → Precedence b file r
  unfolding apply_file choose_root
  apply_file-Precedence b file r h =
      let (m, hm, h1) = >>=-eq-ok (choose_mirror env b.mirror file.mirror file.mirror_region) _ h in
      let (u, hu, h2) =
        >>=-eq-ok (choose_bool env "STARFIELD_ALLOW_UPSTREAM" b.allow_upstream file.allow_upstream)
          _ h1 in
      let (o, ho, h3) =
        >>=-eq-ok (choose_bool env "STARFIELD_OFFLINE" b.offline file.offline) _ h2 in
      let (p, hp, h4) =
        >>=-eq-ok (choose_credentials env netrc op b.credentials file.credentials) _ h3 in
      let (n, hn, h5) = >>=-eq-ok (choose_max env b.max_bytes file.cache_max) _ h4 in
      let by_text : PrecedenceOf env_text b file r =
        subst (PrecedenceOf env_text b file) (ok_inj _ _ h5) (
          choose_root-Resolves b.cache_root _ file.cache_dir,
          choose_mirror-Resolves b.mirror file.mirror file.mirror_region m hm,
          choose_bool-Resolves "STARFIELD_ALLOW_UPSTREAM" b.allow_upstream file.allow_upstream u hu,
          choose_bool-Resolves "STARFIELD_OFFLINE" b.offline file.offline o ho,
          choose_max-Resolves b.max_bytes file.cache_max n hn,
          choose_credentials_set b.credentials file.credentials p hp,
        ) in
      subst (λ says. PrecedenceOf says b file r) (λ i v. env_text-said v i) by_text
