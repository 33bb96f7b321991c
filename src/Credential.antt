-- ===== src/Credential.antt =====
-- src/credential.rs: the providers that need no other program. Environment variables and the .netrc
-- file are inputs; a text is the list of its characters' codes. Hosts are ASCII, as the url crate
-- gives them.
pub mod Chain
pub mod Netrc
pub mod OnePassword
use starfield_datastore.Prelude.{
  ℕ, ◌-◌, Bool, true, false, not, ◌&&◌, ◌||◌, Option, none, some, List, [], ◌∷◌, ◌++◌, map, leb,
  ◌==◌, if◌then◌else◌, is_empty, Bytes, codes, eq_bytes,
}
use Prim.Native.Nat.{◌%◌}
use starfield_datastore.Error.{Result, ok, err, ◌>>=◌, config, io}
use starfield_datastore.Key.{is_ascii_alphanumeric}
use starfield_datastore.Store.Files.{Files, read}
use starfield_datastore.Fetch.{Credential, basic, bearer, Provider}

abbrev present : Bytes → Bytes → Option Credential → Option Bytes
present label host none = none
present label host (some c) = some (label ++ host)

-- `StaticProvider`
unfoldable pub static_provider : Files Credential → Provider
static_provider known = record {
  credential_for = λ host. ok (read host known);
  identity_for = λ host. present (codes "static:") host (read host known);
}

-- `ChainProvider::credential_for`: the first answer, or the first error.
unfoldable pub chain_credential : List Provider → Bytes → Result (Option Credential)
chain_credential [] host = ok none
chain_credential (p ∷ ps) host =
    let rest = chain_credential ps host in
    p.credential_for host >>= λ found. elim found [ none ↦ rest | some c ↦ ok (some c) ]

-- `ChainProvider::identity_for`
unfoldable pub chain_identity : List Provider → Bytes → Option Bytes
chain_identity [] host = none
chain_identity (p ∷ ps) host =
    let rest = chain_identity ps host in
    elim (p.identity_for host) [ none ↦ rest | some name ↦ some name ]

abbrev pub chain_provider : List Provider → Provider
chain_provider ps = record {
  credential_for = chain_credential ps;
  identity_for = chain_identity ps;
}

-- What `std::env::var` finds.
pub data Variable : Type 0 where
  absent : Variable
  not_unicode : Variable
  value : Bytes → Variable

abbrev to_ascii_uppercase : ℕ → ℕ
to_ascii_uppercase b = if leb b'a' b && leb b b'z' then b - 32 else b

-- `EnvProvider::variable`
unfoldable pub variable : Bytes → Bytes
variable host =
    codes "STARFIELD_TOKEN_"
    ++ map (λ c. if is_ascii_alphanumeric c then to_ascii_uppercase c else b'_') host

abbrev token_of : Variable → Result (Option Credential)
token_of absent = ok none
token_of not_unicode = err (config "credential environment variable is not UTF-8")
token_of (value token) = ok (if is_empty token then none else some (bearer token none))

abbrev identity_of : Bytes → Bytes → Result (Option Credential) → Option Bytes
identity_of label host (ok found) = present label host found
identity_of label host (err e) = none

-- `EnvProvider`
unfoldable pub env_provider : (Bytes → Variable) → Provider
env_provider env = record {
  credential_for = λ host. token_of (env (variable host));
  identity_for = λ host. identity_of (codes "env:") host (token_of (env (variable host)));
}

-- `char::is_whitespace`
unfoldable pub is_whitespace : ℕ → Bool
is_whitespace c =
    leb 9 c && leb c 13
    || (c == 32
        || (c == 0x85
            || (c == 0xa0
                || (c == 0x1680
                    || (leb 0x2000 c && leb c 0x200a
                        || (c == 0x2028
                            || (c == 0x2029 || (c == 0x202f || (c == 0x205f || c == 0x3000)))))))))

pub record Lexer : Type 0 where
  pub tokens : List Bytes
  pub token : Bytes
  pub quoted : Bool
  pub escaped : Bool
  pub comment : Bool

abbrev pub new_lexer : Lexer
new_lexer = record { tokens = []; token = []; quoted = false; escaped = false; comment = false }

abbrev pub end_token : Lexer → Lexer
end_token l =
    if is_empty l.token then l else record l { tokens = l.tokens ++ (l.token ∷ []); token = [] }

abbrev pub push_char : ℕ → Lexer → Lexer
push_char c l = record l { token = l.token ++ (c ∷ []) }

-- A character that is not escaped, not a backslash and not a quotation mark.
abbrev plain_char : ℕ → Lexer → Lexer
plain_char c l =
    let l' = if c == b'#' && not l.quoted then record l { comment = true } else l in
    if (is_whitespace c || l'.comment) && not l'.quoted then end_token l' else push_char c l'

-- A character outside a comment.
abbrev lex_char : ℕ → Lexer → Lexer
lex_char c l =
    if l.escaped
    then record (push_char c l) { escaped = false }
    else if c == 92
    then record l { escaped = true }
    else if c == 34
    then record l { quoted = not l.quoted }
    else plain_char c l

-- One round of the loop over the characters.
unfoldable pub lex_step : ℕ → Lexer → Lexer
lex_step c l = if l.comment && not (c == 10) then l else lex_char c (record l { comment = false })

unfoldable pub lex : Bytes → Lexer → Lexer
lex [] l = l
lex (c ∷ text) l = lex text (lex_step c l)

-- The tokens of a text.
unfoldable pub tokens_of : Bytes → Result (List Bytes)
tokens_of text =
    let l = lex text new_lexer in
    if l.quoted || l.escaped then err (config "invalid .netrc quoting") else ok (end_token l).tokens

-- `netrc_credential`
unfoldable pub netrc_credential : Option Bytes → Option Bytes → Result (Option Credential)
netrc_credential (some user) (some secret) = ok (some (basic user secret))
netrc_credential (some user) none = err (config ".netrc machine needs login and password")
netrc_credential none password = err (config ".netrc machine needs login and password")

abbrev pub is_machine : Option Bytes → Bytes → Bool
is_machine none host = false
is_machine (some m) host = eq_bytes m host

-- What an entry that ends gives: its credential if it is the host's, or else the rest.
abbrev pub entry_or :
    Bytes
    → Option Bytes
    → Option Bytes
    → Option Bytes
    → Result (Option Credential)
    → Result (Option Credential)
entry_or host machine user password rest =
    if is_machine machine host then netrc_credential user password else rest

abbrev pub is_value_field : Bytes → Bool
is_value_field field =
    eq_bytes field (codes "login")
    || (eq_bytes field (codes "password") || eq_bytes field (codes "account"))

abbrev pub set_if : Bool → Bytes → Option Bytes → Option Bytes
set_if true v before = some v
set_if false v before = before

-- The loop over the tokens.
unfoldable pub fields :
    Bytes → List Bytes → Option Bytes → Option Bytes → Option Bytes → Result (Option Credential)
fields host [] machine user password = entry_or host machine user password (ok none)
fields host (field ∷ []) machine user password =
    if eq_bytes field (codes "machine") || eq_bytes field (codes "default")
    then entry_or host machine user password (ok none)
    else if is_value_field field
    then err (config "incomplete .netrc entry")
    else err (config "unsupported or malformed .netrc field")
fields host (field ∷ v ∷ rest) machine user password =
    let next = fields host rest in
    let skipped = fields host (v ∷ rest) none none none in
    if eq_bytes field (codes "machine")
    then entry_or host machine user password (next (some v) none none)
    else if eq_bytes field (codes "default")
    then entry_or host machine user password skipped
    else if is_value_field field
    then next machine (set_if (eq_bytes field (codes "login")) v user)
        (set_if (eq_bytes field (codes "password")) v password)
    else err (config "unsupported or malformed .netrc field")

-- `parse_netrc`
unfoldable pub parse_netrc : Bytes → Bytes → Result (Option Credential)
parse_netrc text host = do tokens ← tokens_of text; fields host tokens none none none

-- What reading `~/.netrc` finds, with the file's mode.
pub data NetrcFile : Type 0 where
  no_home : NetrcFile
  not_found : NetrcFile
  unreadable : NetrcFile
  text_with_mode : Bytes → ℕ → NetrcFile

-- `mode & 0o077 != 0`: the lowest six bits.
unfoldable pub is_shared : ℕ → Bool
is_shared mode = not (mode % 64 == 0)

-- `NetrcProvider::credential_for`
unfoldable pub netrc_lookup : NetrcFile → Bytes → Result (Option Credential)
netrc_lookup no_home host = ok none
netrc_lookup not_found host = ok none
netrc_lookup unreadable host = err io
netrc_lookup (text_with_mode text mode) host =
    if is_shared mode
    then err (config ".netrc must not be accessible to group or other users (chmod 600)")
    else parse_netrc text host

-- `NetrcProvider`
unfoldable pub netrc_provider : NetrcFile → Provider
netrc_provider file = record {
  credential_for = netrc_lookup file;
  identity_for = λ host. identity_of (codes "netrc:") host (netrc_lookup file host);
}
