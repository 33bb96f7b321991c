-- ===== src/S3/Decimal.antt =====
-- `u64::to_string` and `str::parse::<u64>`, which the object metadata goes through.
use starfield_datastore.Prelude.{
  ℕ, zero, suc, ◌+◌, ◌-◌, ◌*◌, ◌^◌, ◌<◌, ◌≡◌, refl, sym, ap, ◌∙◌, inl, inr, false, ◌||◌, Option,
  none, some, [], ◌∷◌, arith, ltb, ◌==◌, if◌then◌else◌, Bool-cases, Bytes,
}
use Prim.Native.Nat.{◌/◌, ◌%◌}

-- The digits of `n` in front of `out`; the fuel bounds their number.
unfoldable pub emit : ℕ → ℕ → Bytes → Bytes
emit zero n out = out
emit (suc k) n out =
    let rest = emit k (n / 10) ((b'0' + n % 10) ∷ out) in
    if ltb n 10 then (b'0' + n) ∷ out else rest

-- `u64::to_string`
abbrev pub to_decimal : ℕ → Bytes
to_decimal n = emit (suc n) n []

unfoldable pub scan : Bytes → ℕ → Option ℕ
scan [] n = some n
scan (c ∷ s) n =
    let rest = scan s (n * 10 + (c - b'0')) in
    if ltb c b'0' || ltb b'9' c
    then none
    else if ltb (n * 10 + (c - b'0')) (2 ^ 64)
    then rest
    else none

-- `u64::from_str`
unfoldable pub parse_u64 : Bytes → Option ℕ
parse_u64 [] = none
parse_u64 (c ∷ []) = scan (c ∷ []) 0
parse_u64 (c ∷ d ∷ s) = if c == b'+' then scan (d ∷ s) 0 else scan (c ∷ d ∷ s) 0

scan-emit : (k n : ℕ) (out : Bytes) → n < k → n < 2 ^ 64 → scan (emit k n out) 0 ≡ scan out n
unfolding scan emit
scan-emit zero n out h b = absurd (omega arith)
scan-emit (suc k) n out h b =
    let ih = scan-emit k (n / 10) ((b'0' + n % 10) ∷ out) in grind (arith, ih)

-- The first byte of a number is a digit.
emit-digit :
    (k n : ℕ) (out : Bytes)
    → n < k
    → (c : ℕ) × (s : Bytes) × (emit k n out ≡ c ∷ s) × (c == b'+' ≡ false)
unfolding emit
emit-digit zero n out h = absurd (omega arith)
emit-digit (suc k) n out h = elim (Bool-cases (ltb n 10)) [
  | inl y ↦ (b'0' + n, out, rw y refl, ground arith)
  | inr y ↦
      let (c, s, he, hc) = emit-digit k (n / 10) ((b'0' + n % 10) ∷ out) (ground arith) in
      (c, s, rw y he, hc)
]

parse_u64-scan : (c : ℕ) (s : Bytes) → c == b'+' ≡ false → parse_u64 (c ∷ s) ≡ scan (c ∷ s) 0
unfolding parse_u64
parse_u64-scan c [] h = refl
parse_u64-scan c (d ∷ s) h = rw h refl

-- A number of 64 bits is read back from the text it is printed as.
pub parse_u64-to_decimal : (n : ℕ) → n < 2 ^ 64 → parse_u64 (to_decimal n) ≡ some n
unfolding scan
parse_u64-to_decimal n h =
    let (c, s, he, hc) = emit-digit (suc n) n [] (omega arith) in
    ap parse_u64 he
    ∙ parse_u64-scan c s hc
    ∙ ap (λ x. scan x 0) (sym he)
    ∙ scan-emit (suc n) n [] (omega arith) h
