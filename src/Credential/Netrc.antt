-- ===== src/Credential/Netrc.antt =====
-- A `.netrc` file gives a host a credential only where it names the host.
use starfield_datastore.Prelude.{
  ◌≡◌, refl, ◌≢◌, inl, inr, Bool, false, ◌&&◌, ◌||◌, Option, none, some, List, [], ◌∷◌, arith,
  Bool-cases, ||_false, Bytes, codes, eq_bytes,
}
use starfield_datastore.Error.{ok}
use starfield_datastore.Fetch.{Credential}
use starfield_datastore.Credential.{
  tokens_of, is_machine, set_if, is_value_field, fields, parse_netrc,
}

-- Somewhere in the tokens stands `machine` with the host behind it.
unfoldable pub names_host : Bytes → List Bytes → Bool
names_host host [] = false
names_host host (t ∷ []) = false
names_host host (t ∷ u ∷ rest) =
    eq_bytes t (codes "machine") && eq_bytes u host || names_host host (u ∷ rest)

names_host-tail :
    (host t : Bytes) (rest : List Bytes)
    → names_host host (t ∷ rest) ≡ false
    → names_host host rest ≡ false
unfolding names_host
names_host-tail host t [] h = refl
names_host-tail host t (u ∷ rest) h = (||_false _ _ h).1

fields_unnamed :
    (host : Bytes) (tokens : List Bytes) (machine user password : Option Bytes) (c : Credential)
    → names_host host tokens ≡ false
    → is_machine machine host ≡ false
    → fields host tokens machine user password ≢ ok (some c)
unfolding fields names_host
fields_unnamed host [] machine user password c h m = λ p. ground arith
fields_unnamed host (f ∷ []) machine user password c h m = λ p. ground arith
fields_unnamed host (f ∷ v ∷ rest) machine user password c h m =
    let tail = names_host-tail host f (v ∷ rest) h in
    let later = names_host-tail host v rest tail in
    let skip = fields_unnamed host (v ∷ rest) none none none c tail refl in
    λ p. elim (Bool-cases (eq_bytes f (codes "machine"))) [
      | inl y ↦ fields_unnamed host rest (some v) none none c later (ground arith) (ground arith)
      | inr y ↦ elim (Bool-cases (eq_bytes f (codes "default"))) [
        | inl z ↦ skip (ground arith)
        | inr z ↦ elim (Bool-cases (is_value_field f)) [
          | inl w ↦
              let user' = set_if (eq_bytes f (codes "login")) v user in
              let password' = set_if (eq_bytes f (codes "password")) v password in
              fields_unnamed host rest machine user' password' c later m (ground arith)
          | inr w ↦ ground arith
        ]
      ]
    ]

-- A host that no `machine` entry of the file names gets no credential, whatever a `default` entry
-- says.
pub parse_netrc_unnamed :
    (text host : Bytes) (tokens : List Bytes) (c : Credential)
    → tokens_of text ≡ ok tokens
    → names_host host tokens ≡ false
    → parse_netrc text host ≢ ok (some c)
unfolding parse_netrc
parse_netrc_unnamed text host tokens c ht hn =
    λ p. fields_unnamed host tokens none none none c hn refl (let q = rw ht at p in q)
