-- ===== src/CredentialConfig/RoundTrip.antt =====
-- Entries of src/credential_config.rs that are read, written and read again.
use starfield_datastore.Prelude.{
  ◌≡◌, refl, ap, ◌∙◌, ◌⊎◌, inl, inr, Bool, true, false, not, ◌||◌, Option, none, some, List, [],
  ◌∷◌, arith, if◌then◌else◌, Bool-cases, ||_false, Bytes, codes, eq_bytes, eq_bytes_iff,
}
use mathlib.Core.Path.{subst}
use starfield_datastore.Error.{Result, ok, err, ◌>>=◌, >>=-eq-ok}
use starfield_datastore.CredentialConfig.{is_unrecognized}
use starfield_datastore.CredentialConfig.Source.{
  Json, text, array, object, number, boolean, null, Fields, end, field, CredentialSource, env,
  basic_auth, netrc, one_password, unrecognized, CredentialConfig, find_field, has_field,
  remove_field, text_of, datetime_fields, is_known_kind, has_literal_secret, only_fields,
  decode_known, decode_kind, decode_type, decode_source, texts_of, items_of, rest_of, deserialize,
  source_fields, serialize, hosts_of,
}

has_field-remove_field : (k : Bytes) (fs : Fields) → has_field k (remove_field k fs) ≡ false
unfolding has_field remove_field
has_field-remove_field k end = refl
has_field-remove_field k (field j v fs) = elim (Bool-cases (eq_bytes j k)) [
  | inl y ↦ rw y (has_field-remove_field k fs)
  | inr y ↦ rw (y, y) (has_field-remove_field k fs)
]

pub remove_field_other :
    (k j : Bytes) (fs : Fields)
    → eq_bytes j k ≡ false
    → has_field k (remove_field j fs) ≡ has_field k fs
unfolding has_field remove_field
remove_field_other k j end ne = refl
remove_field_other k j (field i v fs) ne = elim (Bool-cases (eq_bytes i j)) [
  | inl y ↦
      let same = (eq_bytes_iff i j).0 y in
      let ne' : eq_bytes i k ≡ false = ap (λ x. eq_bytes x k) same ∙ ne in
      rw (y, ne') (remove_field_other k j fs ne)
  | inr y ↦ rw y (ap (◌||◌ (eq_bytes i k)) (remove_field_other k j fs ne))
]

remove_field_missing : (k : Bytes) (fs : Fields) → has_field k fs ≡ false → remove_field k fs ≡ fs
unfolding has_field remove_field
remove_field_missing k end h = refl
remove_field_missing k (field j v fs) h =
    let (hj, hfs) = ||_false (eq_bytes j k) (has_field k fs) h in
    rw hj (ap (field j v) (remove_field_missing k fs hfs))

texts_of-items_of : (hosts : List Bytes) → texts_of (items_of hosts) ≡ ok hosts
unfolding texts_of items_of
texts_of-items_of [] = refl
texts_of-items_of (h ∷ hosts) = rw (texts_of-items_of hosts) refl

-- A source that is read is of a known type, or kept as it was.
abbrev Kept : Fields → Result CredentialSource → Type 0
Kept raw (err e) = Unit {0}
Kept raw (ok s) = (s ≡ unrecognized (object raw)) ⊎ (is_unrecognized s ≡ false)

if-Kept :
    (raw : Fields) (b : Bool) (x y : Result CredentialSource)
    → Kept raw x
    → Kept raw y
    → Kept raw (if b then x else y)
if-Kept raw true x y hx hy = hx
if-Kept raw false x y hx hy = hy

>>=-Kept :
    (raw : Fields) (r : Result Bytes) (next : Bytes → Result CredentialSource)
    → ((s : Bytes) → Kept raw (next s))
    → Kept raw (r >>= next)
>>=-Kept raw (ok s) next step = step s
>>=-Kept raw (err e) next step = tt

decode_known-Kept : (raw fs : Fields) (kind : Bytes) → Kept raw (decode_known kind fs)
unfolding decode_known
decode_known-Kept raw fs kind =
    let u = text_of (find_field (codes "username") fs) in
    let p = text_of (find_field (codes "password_env") fs) in
    if-Kept raw (eq_bytes kind (codes "env")) _ _
      (if-Kept raw (only_fields _ fs) _ (err _)
        (>>=-Kept raw (text_of (find_field (codes "variable") fs)) (λ v. ok (env v))
          (λ v. inr refl))
        tt)
      (if-Kept raw (eq_bytes kind (codes "basic")) _ _
        (if-Kept raw (only_fields _ fs) _ (err _)
          (>>=-Kept raw u (λ u. p >>= λ p. ok (basic_auth u p))
            (λ u. >>=-Kept raw p (λ p. ok (basic_auth u p)) (λ p. inr refl)))
          tt)
        (if-Kept raw (eq_bytes kind (codes "netrc")) _ _
          (if-Kept raw (only_fields _ fs) (ok netrc) (err _) (inr refl) tt)
          (if-Kept raw (only_fields _ fs) _ (err _)
            (>>=-Kept raw (text_of (find_field (codes "reference") fs)) (λ r. ok (one_password r))
              (λ r. inr refl))
            tt)))

decode_source-Kept : (raw : Fields) → Kept raw (decode_source raw)
unfolding decode_source decode_kind
decode_source-Kept raw = typed (find_field (codes "type") raw)
  where
    typed : (t : Option Json) → Kept raw (decode_type t raw)
    typed none = tt
    typed (some (array vs)) = tt
    typed (some (object fs)) = tt
    typed (some (number n)) = tt
    typed (some (boolean b)) = tt
    typed (some null) = tt
    typed (some (text kind)) =
        if-Kept raw (not (is_known_kind kind)) _ _
          (if-Kept raw (datetime_fields raw) (err _) (ok (unrecognized (object raw))) tt (inl refl))
          (if-Kept raw (has_literal_secret raw) (err _) _ tt (decode_known-Kept raw _ kind))

-- What is written for the source, with no other key of the entry in it, is read back.
abbrev Restored : CredentialSource → Type 0
Restored s =
    (gs : Fields) × (source_fields s ≡ ok gs)
    × (has_field (codes "name") gs ≡ false)
    × (has_field (codes "hosts") gs ≡ false)
    × (decode_source gs ≡ ok s)

known-Restored : (s : CredentialSource) → is_unrecognized s ≡ false → Restored s
unfolding source_fields has_field decode_source decode_kind decode_known find_field remove_field
    only_fields datetime_fields eq_bytes
known-Restored (env v) h = (_, refl, refl, refl, refl)
known-Restored (basic_auth u p) h = (_, refl, refl, refl, refl)
known-Restored netrc h = (_, refl, refl, refl, refl)
known-Restored (one_password r) h = (_, refl, refl, refl, refl)
known-Restored (unrecognized raw) h = absurd (ground arith)

kept-Restored :
    (raw : Fields) (s : CredentialSource)
    → has_field (codes "name") raw ≡ false
    → has_field (codes "hosts") raw ≡ false
    → decode_source raw ≡ ok s
    → Restored s
unfolding source_fields
kept-Restored raw s hn hh hd = elim (subst (Kept raw) hd (decode_source-Kept raw)) [
  | inr known ↦ known-Restored s known
  | inl e ↦
      let wrote : source_fields (unrecognized (object raw)) ≡ ok raw = rw (hn, hh) refl in
      (raw, ap source_fields e ∙ wrote, hn, hh, hd)
]

rest_of-missing :
    (k : Bytes) (fs : Fields)
    → (k ≡ codes "name") ⊎ (k ≡ codes "hosts")
    → has_field k (rest_of fs) ≡ false
unfolding eq_bytes
rest_of-missing k fs (inr e) =
    rw e (has_field-remove_field (codes "hosts") (remove_field (codes "name") fs))
rest_of-missing k fs (inl e) = rw e (
    remove_field_other (codes "name") (codes "hosts") (remove_field (codes "name") fs) refl
    ∙ has_field-remove_field (codes "name") fs)

abbrev envelope : Bytes → List Bytes → Fields → Fields
envelope name hosts gs =
    field (codes "name") (text name) (field (codes "hosts") (array (items_of hosts)) gs)

deserialize-envelope :
    (name : Bytes) (hosts : List Bytes) (s : CredentialSource) (gs : Fields)
    → has_field (codes "name") gs ≡ false
    → has_field (codes "hosts") gs ≡ false
    → decode_source gs ≡ ok s
    → deserialize (envelope name hosts gs) ≡ ok (record { name = name; hosts = hosts; source = s })
unfolding deserialize find_field remove_field eq_bytes
deserialize-envelope name hosts s gs hn hh hd =
    rw
      (
        texts_of-items_of hosts,
        remove_field_missing (codes "name") gs hn,
        remove_field_missing (codes "hosts") gs hh,
        hd,
      )
      refl

-- An entry that a file holds can be written: the serializer is given a map, and its answer, also an
-- error, is that of the call. That map is read back as the same entry: its name, its hosts and its
-- source, one of an unrecognised type with the values of all of its fields included.
pub deserialize-serialize :
    {A : Type 0} (serializer : Fields → Result A) (fs : Fields) (e : CredentialConfig)
    → deserialize fs ≡ ok e
    → (gs : Fields) × (serialize serializer e ≡ serializer gs) × (deserialize gs ≡ ok e)
unfolding serialize deserialize
deserialize-serialize serializer fs e h =
    let (name, h0, h1) = >>=-eq-ok (text_of (find_field (codes "name") fs)) _ h in
    let (hosts, h2, h3) = >>=-eq-ok (hosts_of (find_field (codes "hosts") fs)) _ h1 in
    let (s, h4, h5) = >>=-eq-ok (decode_source (rest_of fs)) _ h3 in
    let made : CredentialConfig = record { name = name; hosts = hosts; source = s } in
    let (gs, hw, hn, hh, hd) =
      kept-Restored (rest_of fs) s (rest_of-missing _ fs (inl refl))
        (rest_of-missing _ fs (inr refl)) h4 in
    let e5 : made ≡ e = ground arith in
    subst (λ x. (gs : Fields) × (serialize serializer x ≡ serializer gs) × (deserialize gs ≡ ok x))
      e5 (envelope name hosts gs, rw hw refl, deserialize-envelope name hosts s gs hn hh hd)
