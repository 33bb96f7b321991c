-- ===== src/CredentialConfig/Secrets.antt =====
-- src/credential_config.rs: no entry of a known type carries a secret.
use starfield_datastore.Prelude.{
  ◌≡◌, Bool, ◌||◌, refl, sym, ap, ◌∙◌, inl, inr, false, false≢true, Option, none, some, arith,
  Bool-cases, Bytes, codes, eq_bytes,
}
use mathlib.Core.Path.{subst}
use starfield_datastore.Error.{Result, ok, err, >>=-eq-ok}
use starfield_datastore.CredentialConfig.{is_unrecognized}
use starfield_datastore.CredentialConfig.Source.{
  Json, text, array, object, number, boolean, null, Fields, CredentialSource, CredentialConfig,
  find_field, has_field, remove_field, text_of, datetime_fields, is_known_kind, has_literal_secret,
  decode_known, decode_kind, decode_type, decode_source, rest_of, deserialize, hosts_of,
}
use starfield_datastore.CredentialConfig.RoundTrip.{remove_field_other}

abbrev NoSecret : Fields → Result CredentialSource → Type 0
NoSecret raw (err e) = Unit {0}
NoSecret raw (ok s) = is_unrecognized s ≡ false → has_literal_secret raw ≡ false

decode_kind-NoSecret : (kind : Bytes) (raw : Fields) → NoSecret raw (decode_kind kind raw)
unfolding decode_kind
decode_kind-NoSecret kind raw = elim (Bool-cases (is_known_kind kind)) [
  | inr y ↦ elim (Bool-cases (datetime_fields raw)) [
    | inl z ↦ rw (y, z) tt
    | inr z ↦ rw (y, z) (λ known. absurd (false≢true (sym known)))
  ]
  | inl y ↦ elim (Bool-cases (has_literal_secret raw)) [
    | inl z ↦ rw (y, z) tt
    | inr z ↦ rw (y, z) (anything (decode_known kind (remove_field (codes "type") raw)) z)
  ]
]
  where
    anything : (r : Result CredentialSource) → has_literal_secret raw ≡ false → NoSecret raw r
    anything (err e) z = tt
    anything (ok s) z = λ known. z

decode_type-NoSecret : (t : Option Json) (raw : Fields) → NoSecret raw (decode_type t raw)
decode_type-NoSecret none raw = tt
decode_type-NoSecret (some (array vs)) raw = tt
decode_type-NoSecret (some (object fs)) raw = tt
decode_type-NoSecret (some (number n)) raw = tt
decode_type-NoSecret (some (boolean b)) raw = tt
decode_type-NoSecret (some null) raw = tt
decode_type-NoSecret (some (text kind)) raw = decode_kind-NoSecret kind raw

has_field-rest_of :
    (k : Bytes) (fs : Fields)
    → eq_bytes (codes "name") k ≡ false
    → eq_bytes (codes "hosts") k ≡ false
    → has_field k (rest_of fs) ≡ has_field k fs
has_field-rest_of k fs hn hh =
    remove_field_other k (codes "hosts") (remove_field (codes "name") fs) hh
    ∙ remove_field_other k (codes "name") fs hn

has_literal_secret-rest_of : (fs : Fields) → has_literal_secret (rest_of fs) ≡ has_literal_secret fs
unfolding eq_bytes
has_literal_secret-rest_of fs =
    rw
      (
        has_field-rest_of (codes "password") fs refl refl,
        has_field-rest_of (codes "token") fs refl refl,
        has_field-rest_of (codes "secret") fs refl refl,
        has_field-rest_of (codes "api_key") fs refl refl,
      )
      refl

four_false :
    (a b c d : Bool)
    → (a || (b || (c || d))) ≡ false
    → (a ≡ false) × (b ≡ false) × (c ≡ false) × (d ≡ false)
four_false a b c d h = (ground arith, ground arith, ground arith, ground arith)

-- An entry of a known type that is read has no field called `password`, none called `token`, none
-- called `secret` and none called `api_key`.
pub deserialize_no_secret :
    (fs : Fields) (e : CredentialConfig)
    → deserialize fs ≡ ok e
    → is_unrecognized e.source ≡ false
    → (has_field (codes "password") fs ≡ false)
      × (has_field (codes "token") fs ≡ false)
      × (has_field (codes "secret") fs ≡ false)
      × (has_field (codes "api_key") fs ≡ false)
unfolding deserialize decode_source
deserialize_no_secret fs e h known =
    let (name, h0, h1) = >>=-eq-ok (text_of (find_field (codes "name") fs)) _ h in
    let (hosts, h2, h3) = >>=-eq-ok (hosts_of (find_field (codes "hosts") fs)) _ h1 in
    let (s, h4, h5) = >>=-eq-ok (decode_source (rest_of fs)) _ h3 in
    let made : CredentialConfig = record { name = name; hosts = hosts; source = s } in
    let e5 : made ≡ e = ground arith in
    let known' : is_unrecognized s ≡ false = ap (λ x. is_unrecognized x.source) e5 ∙ known in
    let none_left : NoSecret (rest_of fs) (ok s) =
      subst (NoSecret (rest_of fs)) h4
        (decode_type-NoSecret (find_field (codes "type") (rest_of fs)) (rest_of fs)) in
    four_false _ _ _ _ (sym (has_literal_secret-rest_of fs) ∙ none_left known')
