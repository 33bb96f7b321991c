-- ===== src/Check/Prefix.antt =====
-- `check_prefix` against the full check: what it refuses early, the full check would refuse.
use starfield_datastore.Prelude.{
  ℕ, zero, suc, ◌-◌, ◌≡◌, refl, sym, ap, ◌∙◌, inl, inr, Bool, true, false, ◌||◌, false≢true, List,
  [], ◌∷◌, ◌++◌, arith, if◌then◌else◌, ==_iff, Bool-cases, length, take, drop, take-append-drop,
  any_mono, Bytes, starts_with, starts_with-append,
}
use mathlib.Core.List.{append_assoc}
use starfield_datastore.Check.Html.{is_html, is_html-append}
use starfield_datastore.Check.{
  ContentCheck, sha256_is, magic, min_bytes, not_html, custom, all_of, no_check, Checks, nil, cons,
  Verdict, pass, fail, refuse, and_then, is_ascii_whitespace, scan_first, longest, magic_head,
  check_magic, check_html, trim_ascii_start, prefix_magic, check_prefix, check_prefix_all,
  check_body, check_body_all,
}

take-prefix {ℓ} :
    {A : Type ℓ} (m n : ℕ) (xs : List A) → (ys : List A) × (take m xs ≡ take m (take n xs) ++ ys)
take-prefix zero n xs = ([], refl)
take-prefix (suc m) zero xs = (take (suc m) xs, refl)
take-prefix (suc m) (suc n) [] = ([], refl)
take-prefix (suc m) (suc n) (x ∷ xs) = let (ys, e) = take-prefix m n xs in (ys, ap (◌∷◌ x) e)

is_html-take :
    (m n : ℕ) (body : Bytes)
    → is_html (take m body) ≡ false
    → is_html (take m (take n body)) ≡ false
is_html-take m n body h = elim (Bool-cases (is_html (take m (take n body)))) [
  | inl e ↦
      let (ys, same) = take-prefix m n body in
      absurd (false≢true (sym h ∙ ap is_html same ∙ is_html-append (take m (take n body)) ys e))
  | inr e ↦ e
]

html_verdict : (b : Bool) → (if b then refuse "NotHtml" else pass) ≡ pass → b ≡ false
html_verdict true h = ground arith
html_verdict false h = refl

check_html-take : (n : ℕ) (body : Bytes) → check_html body ≡ pass → check_html (take n body) ≡ pass
unfolding check_html
check_html-take n body h = rw (is_html-take 8192 n body (html_verdict _ h))

-- The skipped white space of the magic check, as in `check_prefix`.
abbrev skip : Bool → Bytes → Bytes
skip trim s = if trim then trim_ascii_start s else s

scan_first-skip :
    (trim : Bool) (s : Bytes) → (scan_first trim s).0 ++ (scan_first trim s).1 ≡ skip trim s
unfolding scan_first trim_ascii_start
scan_first-skip true [] = refl
scan_first-skip false [] = refl
scan_first-skip true (b ∷ s) = ground (arith, scan_first-skip true s)
scan_first-skip false (b ∷ s) = refl

-- The bytes that the magic check compares are the first after the white space.
magic_head-skip :
    (prefixes : List Bytes) (trim : Bool) (s : Bytes)
    → (rest : Bytes) × (skip trim s ≡ magic_head prefixes trim s ++ rest)
unfolding magic_head
magic_head-skip prefixes trim s =
    let head = (scan_first trim s).0 in
    let tail = (scan_first trim s).1 in
    let n = longest prefixes - length head in
    (
      drop n tail,
      sym (scan_first-skip trim s)
          ∙ ap (◌++◌ head) (sym (take-append-drop n tail))
          ∙ sym (append_assoc head (take n tail) (drop n tail)),
    )

-- Cut anywhere, the white space before a signature is skipped in the same way.
skip-take :
    (trim : Bool) (n : ℕ) (s : Bytes)
    → (rest : Bytes) × (skip trim s ≡ skip trim (take n s) ++ rest)
unfolding trim_ascii_start
skip-take false n s = (drop n s, sym (take-append-drop n s))
skip-take true zero s = (trim_ascii_start s, refl)
skip-take true (suc n) [] = ([], refl)
skip-take true (suc n) (b ∷ s) = elim (Bool-cases (is_ascii_whitespace b)) [
  | inl e ↦ rw e (skip-take true n s)
  | inr e ↦ rw e (drop n s, ap (◌∷◌ b) (sym (take-append-drop n s)))
]

-- Of two beginnings of one text, one begins with the other.
starts_with-comparable :
    (x y p : Bytes) → starts_with (x ++ y) p ≡ true → (starts_with x p || starts_with p x) ≡ true
unfolding starts_with
starts_with-comparable x y [] h = refl
starts_with-comparable [] y (c ∷ p) h = refl
starts_with-comparable (b ∷ x) y (c ∷ p) h =
    ground (arith, starts_with-comparable x y p, ==_iff b c, ==_iff c b)

signature-take :
    (prefixes : List Bytes) (trim : Bool) (n : ℕ) (s p : Bytes)
    → starts_with (magic_head prefixes trim s) p ≡ true
    → (starts_with (skip trim (take n s)) p || starts_with p (skip trim (take n s))) ≡ true
signature-take prefixes trim n s p h =
    let (tail, whole) = magic_head-skip prefixes trim s in
    let (rest, cut) = skip-take trim n s in
    let found = starts_with-append (magic_head prefixes trim s) tail p h in
    starts_with-comparable (skip trim (take n s)) rest p
      (ap (λ t. starts_with t p) (sym cut ∙ whole) ∙ found)

magic_verdict :
    (bad found : Bool)
    → (if bad then refuse "Magic" else if found then pass else refuse "Magic") ≡ pass
    → found ≡ true
magic_verdict bad found h = ground arith

check_magic-take :
    (prefixes : List Bytes) (trim : Bool) (n : ℕ) (body : Bytes)
    → check_magic prefixes trim body ≡ pass
    → prefix_magic prefixes trim (take n body) ≡ pass
unfolding check_magic prefix_magic
check_magic-take prefixes trim n body h =
    let found =
      any_mono (starts_with (magic_head prefixes trim body))
        (λ p. starts_with (skip trim (take n body)) p || starts_with p (skip trim (take n body)))
        prefixes (signature-take prefixes trim n body) in
    rw (found (magic_verdict _ _ h))

and_then-pass : (v w : Verdict) → and_then v w ≡ pass → (v ≡ pass) × (w ≡ pass)
and_then-pass pass w h = (refl, h)
and_then-pass (fail f) w h = ground arith

module _ (sha256 : Bytes → Bytes) where
  mutual
    unfolding check_prefix check_body

    check_prefix-take_lem :
        (c : ContentCheck) (n : ℕ) (body : Bytes)
        → check_body sha256 c body ≡ pass
        → check_prefix c (take n body) ≡ pass
    check_prefix-take_lem (sha256_is pin) n body h = refl
    check_prefix-take_lem (magic prefixes trim) n body h = check_magic-take prefixes trim n body h
    check_prefix-take_lem (min_bytes m) n body h = refl
    check_prefix-take_lem not_html n body h = check_html-take n body h
    check_prefix-take_lem (custom f) n body h = refl
    check_prefix-take_lem (all_of cs) n body h = check_prefix_all-take cs n body h
    check_prefix-take_lem no_check n body h = refl

    check_prefix_all-take :
        (cs : Checks) (n : ℕ) (body : Bytes)
        → check_body_all sha256 cs body ≡ pass
        → check_prefix_all cs (take n body) ≡ pass
    check_prefix_all-take nil n body h = refl
    check_prefix_all-take (cons c cs) n body h =
        let (hc, hcs) =
          and_then-pass (check_body sha256 c body) (check_body_all sha256 cs body) h in
        rw (check_prefix-take_lem c n body hc, check_prefix_all-take cs n body hcs)

  -- A body that the full check accepts passes the early check at every length, so the early check
  -- refuses no transfer that would have been accepted.
  pub check_prefix-take :
      (c : ContentCheck) (n : ℕ) (body : Bytes)
      → check_body sha256 c body ≡ pass
      → check_prefix c (take n body) ≡ pass
  check_prefix-take = check_prefix-take_lem
