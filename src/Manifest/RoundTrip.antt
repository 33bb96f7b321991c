-- ===== src/Manifest/RoundTrip.antt =====
-- What `parse_check` reads of what `encode_check` wrote.
use starfield_datastore.Prelude.{
  ℕ, suc, ◌^◌, ◌≡◌, refl, inl, inr, Bool, true, ◌&&◌, ◌||◌, List, [], ◌∷◌, arith, ltb, leb,
  if◌then◌else◌, Bool-cases, &&_true, if_false, is_empty, any, all, Bytes, codes, eq_bytes,
}
use mathlib.Core.Path.{subst}
use starfield_datastore.Error.{ok, >>=-eq-ok}
use starfield_datastore.Manifest.Utf8.{is_utf8}
use starfield_datastore.Check.{
  ContentCheck, sha256_is, magic, min_bytes, not_html, custom, all_of, no_check, Checks, nil, cons,
}
use starfield_datastore.Manifest.{validate_digest}
use starfield_datastore.Manifest.Toml.{
  Value, text, integer, boolean, array, table, Values, empty, item, end, field, parse_check,
  parse_all, encode_check, encode_all, encode_prefixes, parse_prefixes, parse_bytes, encode_bytes,
  encode_prefix, parse_prefix, parse_magic, simple_variant,
}

-- Every number is a byte.
abbrev pub is_byte_string : Bytes → Bool
is_byte_string = all (λ b. ltb b 256)

unfoldable mutual
  -- Prefixes are bytes, and no check is nested deeper than `parse_check` goes from this depth.
  pub fits : ContentCheck → ℕ → Bool
  fits (all_of cs) depth = leb depth 32 && fits_all cs (suc depth)
  fits (magic prefixes trim) depth = leb depth 32 && all is_byte_string prefixes
  fits (sha256_is digest) depth = leb depth 32
  fits (min_bytes n) depth = leb depth 32
  fits not_html depth = leb depth 32
  fits (custom f) depth = leb depth 32
  fits no_check depth = leb depth 32

  pub fits_all : Checks → ℕ → Bool
  fits_all nil depth = true
  fits_all (cons c cs) depth = fits c depth && fits_all cs depth

parse_bytes-encode_bytes :
    (p : Bytes) → is_byte_string p ≡ true → parse_bytes (encode_bytes p) ≡ ok p
unfolding parse_bytes encode_bytes
parse_bytes-encode_bytes [] h = refl
parse_bytes-encode_bytes (b ∷ p) h =
    let (hb, hp) = &&_true (ltb b 256) (is_byte_string p) h in
    rw (hb, parse_bytes-encode_bytes p hp) refl

parse_prefix-encode_prefix :
    (p : Bytes) → is_byte_string p ≡ true → parse_prefix (encode_prefix p) ≡ ok p
unfolding parse_prefix encode_prefix
parse_prefix-encode_prefix p h = elim (Bool-cases (is_utf8 p)) [
  | inl y ↦ rw y refl
  | inr y ↦ rw y (parse_bytes-encode_bytes p h)
]

parse_prefixes-encode_prefixes :
    (ps : List Bytes) → all is_byte_string ps ≡ true → parse_prefixes (encode_prefixes ps) ≡ ok ps
unfolding parse_prefixes encode_prefixes
parse_prefixes-encode_prefixes [] h = refl
parse_prefixes-encode_prefixes (p ∷ ps) h =
    let (hp, hs) = &&_true _ _ h in
    rw (parse_prefix-encode_prefix p hp, parse_prefixes-encode_prefixes ps hs) refl

-- What a check within the depth is read as.
shallow {ℓ} :
    {A : Type ℓ} (depth : ℕ) (e r w : A)
    → leb depth 32 ≡ true
    → r ≡ w
    → (if ltb 32 depth then e else r) ≡ w
shallow depth e r w h p = if_false (λ x. x ≡ w) (ltb 32 depth) e r (ground arith) p

-- From the value that was made to the one that was returned.
pub returned {ℓ} : {A : Type 0} (P : A → Type ℓ) (made a : A) → ok made ≡ ok a → P made → P a
returned P made a h p = subst P (ground arith) p

abbrev magic_table : List Bytes → Bool → Value
magic_table ps trim = table (
    field (codes "magic") (array (encode_prefixes ps))
      (field (codes "trim_leading_whitespace") (boolean trim) end))

mutual
  unfolding encode_check parse_check fits eq_bytes simple_variant parse_magic

  -- A check that `encode_check` writes is what `parse_check` reads back, at every depth that leaves
  -- room for its nesting, when the numbers of its magic prefixes are bytes.
  pub parse_check-encode_check :
      (c : ContentCheck) (depth : ℕ) (v : Value)
      → encode_check c ≡ ok v
      → fits c depth ≡ true
      → parse_check v depth ≡ ok c
  parse_check-encode_check no_check depth v h f =
      returned (λ x. parse_check x depth ≡ ok no_check) _ v h (shallow depth _ _ _ f refl)
  parse_check-encode_check not_html depth v h f =
      returned (λ x. parse_check x depth ≡ ok not_html) _ v h (shallow depth _ _ _ f refl)
  parse_check-encode_check (min_bytes n) depth v h f = elim (Bool-cases (ltb n (2 ^ 63))) [
    | inl y ↦
        returned (λ x. parse_check x depth ≡ ok (min_bytes n))
          (table (field (codes "min_bytes") (integer n) end)) v (ground arith)
          (shallow depth _ _ _ f refl)
    | inr y ↦ absurd (ground arith)
  ]
  parse_check-encode_check (sha256_is digest) depth v h f =
      let (u, hd, hv) = >>=-eq-ok (validate_digest digest) _ h in
      returned (λ x. parse_check x depth ≡ ok (sha256_is digest))
        (table (field (codes "sha256") (text digest) end)) v hv (shallow depth _ _ _ f (rw hd refl))
  parse_check-encode_check (magic ps trim) depth v h f =
      let (hd, hb) = &&_true (leb depth 32) (all is_byte_string ps) f in
      elim (Bool-cases (is_empty ps || any is_empty ps)) [
        | inl y ↦ absurd (ground arith)
        | inr y ↦
            returned (λ x. parse_check x depth ≡ ok (magic ps trim)) (magic_table ps trim) v
              (ground arith)
              (shallow depth _ _ _ hd (rw (parse_prefixes-encode_prefixes ps hb) (rw y refl)))
      ]
  parse_check-encode_check (custom p) depth v h f = absurd (ground arith)
  parse_check-encode_check (all_of cs) depth v h f =
      let (hd, hf) = &&_true (leb depth 32) (fits_all cs (suc depth)) f in
      let (vs, hs, hv) = >>=-eq-ok (encode_all cs) _ h in
      returned (λ x. parse_check x depth ≡ ok (all_of cs))
        (table (field (codes "all") (array vs) end)) v hv
        (shallow depth _ _ _ hd (rw (parse_all-encode_all cs (suc depth) vs hs hf) refl))

  pub parse_all-encode_all :
      (cs : Checks) (depth : ℕ) (vs : Values)
      → encode_all cs ≡ ok vs
      → fits_all cs depth ≡ true
      → parse_all vs depth ≡ ok cs
  parse_all-encode_all nil depth vs h f = returned (λ x. parse_all x depth ≡ ok nil) empty vs h refl
  parse_all-encode_all (cons c cs) depth vs h f =
      let (hc, hcs) = &&_true (fits c depth) (fits_all cs depth) f in
      let (v, hv, hrest) = >>=-eq-ok (encode_check c) _ h in
      let (ws, hws, hmade) = >>=-eq-ok (encode_all cs) _ hrest in
      returned (λ x. parse_all x depth ≡ ok (cons c cs)) (item v ws) vs hmade
        (rw (parse_check-encode_check c depth v hv hc, parse_all-encode_all cs depth ws hws hcs)
          refl)
