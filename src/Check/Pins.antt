-- ===== src/Check/Pins.antt =====
-- Digest pins: a body is validated by comparing the pins with the digest at hand and by running the
-- rest of the check (store/mod.rs `validate`), not by rehashing it for each pin.
use starfield_datastore.Prelude.{
  ◌≡◌, refl, sym, ◌∙◌, ◌↔◌, Bool, true, false, ◌&&◌, List, arith, &&_true, all, all-append, Bytes,
  eq_bytes,
}
use starfield_datastore.Check.{
  ContentCheck, sha256_is, magic, min_bytes, not_html, custom, all_of, no_check, Checks, nil, cons,
  Verdict, pass, fail, and_then, check_body, check_body_all, pinned_sha256s, pinned_all,
  without_sha256, without_all,
}

-- Every pin of a list is `digest`.
abbrev pub all_pins : Bytes → List Bytes → Bool
all_pins digest pins = all (eq_bytes digest) pins

abbrev pub passes : Verdict → Bool
passes pass = true
passes (fail f) = false

passes-and_then : (v w : Verdict) → passes (and_then v w) ≡ (passes v && passes w)
passes-and_then pass w = refl
passes-and_then (fail f) w = refl

&&_swap : (a b c d : Bool) → ((a && b) && (c && d)) ≡ ((a && c) && (b && d))
&&_swap true true c d = refl
&&_swap true false true d = refl
&&_swap true false false d = refl
&&_swap false b c d = refl

module _ (sha256 : Bytes → Bytes) where
  mutual
    unfolding check_body pinned_sha256s without_sha256

    split_lem :
        (c : ContentCheck) (body : Bytes)
        → passes (check_body sha256 c body) ≡ (
            all_pins (sha256 body) (pinned_sha256s c)
            && passes (check_body sha256 (without_sha256 c) body))
    split_lem (sha256_is pin) body = ground arith
    split_lem (magic prefixes trim) body = refl
    split_lem (min_bytes m) body = refl
    split_lem not_html body = refl
    split_lem (custom f) body = refl
    split_lem (all_of cs) body = split_all_lem cs body
    split_lem no_check body = refl

    split_all_lem :
        (cs : Checks) (body : Bytes)
        → passes (check_body_all sha256 cs body) ≡ (
            all_pins (sha256 body) (pinned_all cs)
            && passes (check_body_all sha256 (without_all cs) body))
    split_all_lem nil body = refl
    split_all_lem (cons c cs) body =
        rw
          (
            passes-and_then (check_body sha256 c body) (check_body_all sha256 cs body),
            split_lem c body,
            split_all_lem cs body,
            all-append (eq_bytes (sha256 body)) (pinned_sha256s c) (pinned_all cs),
            passes-and_then (check_body sha256 (without_sha256 c) body)
                (check_body_all sha256 (without_all cs) body),
          )
          (&&_swap (all_pins (sha256 body) (pinned_sha256s c))
            (passes (check_body sha256 (without_sha256 c) body))
            (all_pins (sha256 body) (pinned_all cs))
            (passes (check_body_all sha256 (without_all cs) body)))

  passes_iff : (v : Verdict) → (passes v ≡ true) ↔ (v ≡ pass)
  passes_iff pass = (λ h. refl, λ h. refl)
  passes_iff (fail f) = (λ h. ground arith, λ h. ground arith)

  -- The full check accepts a body exactly when its digest is every pin and the check without the
  -- digest tests accepts it.
  pub check_body-split :
      (c : ContentCheck) (body : Bytes)
      → (check_body sha256 c body ≡ pass) ↔ (
          (all_pins (sha256 body) (pinned_sha256s c) ≡ true)
          × (check_body sha256 (without_sha256 c) body ≡ pass))
  check_body-split c body =
      let e = split_lem c body in
      (
        λ h. let (p, q) = &&_true _ _ (sym e ∙ (passes_iff _).1 h) in (p, (passes_iff _).0 q),
        λ h. (passes_iff _).0 (e ∙ rw (h.0, h.1)),
      )
