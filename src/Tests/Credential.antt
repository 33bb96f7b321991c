-- ===== src/Tests/Credential.antt =====
-- Providers at concrete inputs.
use starfield_datastore.Prelude.{
  ◌≡◌, refl, ◌≢◌, ◌↔◌, false, some, List, [], ◌∷◌, Bytes, codes, eq_bytes,
}
use starfield_datastore.Error.{ok}
use starfield_datastore.Fetch.{Credential, basic, Provider}
use starfield_datastore.Credential.{
  static_provider, chain_credential, lex, lex_step, tokens_of, is_whitespace, fields,
  netrc_credential, parse_netrc,
}
use starfield_datastore.Credential.Chain.{FirstAnswer, chain_credential_iff}
use starfield_datastore.Credential.Netrc.{names_host, parse_netrc_unnamed}

abbrev me : Credential
me = basic (codes "me") (codes "pw")

abbrev two : List Provider
two = static_provider [] ∷ static_provider ((codes "a", me) ∷ []) ∷ []

chain_credential_iff_example :
    (chain_credential two (codes "a") ≡ ok (some me)) ↔ FirstAnswer (codes "a") me two
chain_credential_iff_example = chain_credential_iff two (codes "a") me

abbrev netrc : Bytes
netrc = codes "machine a login me password \"p w\" default login x password y"

netrc-finds : parse_netrc netrc (codes "a") ≡ ok (some (basic (codes "me") (codes "p w")))
unfolding parse_netrc tokens_of lex lex_step is_whitespace fields netrc_credential eq_bytes
netrc-finds = refl

abbrev netrc_tokens : List Bytes
netrc_tokens =
    codes "machine"
    ∷ codes "a"
    ∷ codes "login"
    ∷ codes "me"
    ∷ codes "password"
    ∷ codes "p w"
    ∷ codes "default"
    ∷ codes "login"
    ∷ codes "x"
    ∷ codes "password"
    ∷ codes "y"
    ∷ []

netrc-tokens : tokens_of netrc ≡ ok netrc_tokens
unfolding tokens_of lex lex_step is_whitespace
netrc-tokens = refl

b_unnamed : names_host (codes "b") netrc_tokens ≡ false
unfolding names_host eq_bytes
b_unnamed = refl

parse_netrc_unnamed_example : parse_netrc netrc (codes "b") ≢ ok (some me)
parse_netrc_unnamed_example =
    parse_netrc_unnamed netrc (codes "b") netrc_tokens me netrc-tokens b_unnamed
