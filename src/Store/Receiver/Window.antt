-- ===== src/Store/Receiver/Window.antt =====
-- The window of the early check, on a body that the artifact's check accepts: it fills without a
-- refusal.
use starfield_datastore.Prelude.{
  ℕ, zero, suc, ◌-◌, ◌≤◌, ◌<◌, ◌≡◌, refl, sym, ap, ◌∙◌, ◌⊎◌, inl, inr, Bool, true, false, none, [],
  ◌∷◌, ◌++◌, arith, ltb, ◌==◌, if◌then◌else◌, ltb→lt, ==_iff, Bool-cases, if_false, length, take,
  drop, length-append, take-append-drop, Bytes,
}
use Prim.Native.Nat.{min}
use mathlib.Core.Path.{subst}
use mathlib.Core.List.{append_assoc}
use starfield_datastore.Check.{ContentCheck, Verdict, pass, fail, check_body, check_prefix}
use starfield_datastore.Check.Prefix.{check_prefix-take}
use starfield_datastore.Store.Receiver.{prefix_bytes, Receiver, check_head, judged, collect}

take-length-append : (p q : Bytes) → take (length p) (p ++ q) ≡ p
take-length-append [] q = refl
take-length-append (x ∷ p) q = ap (◌∷◌ x) (take-length-append p q)

length-take : (n : ℕ) (xs : Bytes) → length (take n xs) ≡ min n (length xs)
length-take zero xs = omega arith
length-take (suc n) [] = omega arith
length-take (suc n) (x ∷ xs) = omega (arith, length-take n xs)

take_all : (n : ℕ) (xs : Bytes) → length xs ≤ n → take n xs ≡ xs
take_all zero [] h = refl
take_all zero (x ∷ xs) h = absurd (omega arith)
take_all (suc n) [] h = refl
take_all (suc n) (x ∷ xs) h = ap (◌∷◌ x) (take_all n xs (omega arith))

module _ (sha256 : Bytes → Bytes) where
  -- A beginning of an accepted body passes the early check.
  pub prefix-pass :
      (c : ContentCheck) (p q : Bytes)
      → check_body sha256 c (p ++ q) ≡ pass
      → check_prefix c p ≡ pass
  prefix-pass c p q h =
      ap (check_prefix c) (sym (take-length-append p q))
      ∙ check_prefix-take sha256 c (length p) (p ++ q) h

-- No budget, nothing refused, and the head is all that was written until it is full and checked.
pub record Going (r : Receiver) : Type 0 where
  pub free : r.budget ≡ none
  pub fine : r.rejected ≡ none
  pub within : r.limit_exceeded ≡ false
  pub window :
      (r.prefix_checked ≡ true)
      ⊎ ((r.prefix_checked ≡ false) × (r.head ≡ r.written) × (length r.head < prefix_bytes))

-- The head that `collect` builds.
abbrev grown : Bytes → Bytes → Bytes
grown head buf = head ++ take (min (prefix_bytes - length head) (length buf)) buf

-- The head is full, or it has taken the whole buffer.
grown_cases :
    (head buf : Bytes)
    → length head < prefix_bytes
    → (length (grown head buf) ≡ prefix_bytes)
      ⊎ ((grown head buf ≡ head ++ buf) × (length (head ++ buf) < prefix_bytes))
grown_cases head buf h =
    let n = min (prefix_bytes - length head) (length buf) in
    elim (Bool-cases (ltb (length buf) (prefix_bytes - length head))) [
      | inl y ↦
          let fits : length buf ≤ n = omega (arith, ltb→lt _ _ y) in
          inr (
            ap (◌++◌ head) (take_all n buf fits),
            omega (arith, ltb→lt _ _ y, length-append head buf),
          )
      | inr y ↦
          let long : prefix_bytes - length head ≤ length buf = ground arith in
          inl (omega (arith, length-append head (take n buf), length-take n buf))
    ]

grown-prefix : (head buf rest : Bytes) → (q : Bytes) × (head ++ (buf ++ rest) ≡ grown head buf ++ q)
grown-prefix head buf rest =
    let n = min (prefix_bytes - length head) (length buf) in
    (
      drop n buf ++ rest,
      ap (λ t. head ++ (t ++ rest)) (sym (take-append-drop n buf))
          ∙ ap (◌++◌ head) (append_assoc (take n buf) (drop n buf) rest)
          ∙ sym (append_assoc head (take n buf) (drop n buf ++ rest)),
    )

module _ (sha256 : Bytes → Bytes) (c : ContentCheck) where
  -- One step of the window, on a body that the check accepts: `w` is what was written before.
  abbrev pub Collected : Bytes → Bytes → Receiver → Bool × Receiver → Type 0
  Collected w buf r (good, r') =
      (good ≡ true)
      × (r'.budget ≡ r.budget)
      × (r'.rejected ≡ r.rejected)
      × (r'.limit_exceeded ≡ r.limit_exceeded)
      × (r'.written ≡ r.written)
      × ((r'.prefix_checked ≡ true)
          ⊎ ((r'.prefix_checked ≡ false) × (r'.head ≡ w ++ buf) × (length r'.head < prefix_bytes)))

  judged-Collected :
      (w buf : Bytes) (v : Verdict) (r : Receiver) → v ≡ pass → Collected w buf r (judged v r)
  judged-Collected w buf pass r h = (refl, refl, refl, refl, refl, inl refl)
  judged-Collected w buf (fail f) r h = absurd (ground arith)

  -- The new head is full and checked, or still the whole of what was written.
  window_step :
      (w buf x : Bytes) (r : Receiver)
      → r.prefix_checked ≡ false
      → ((length x ≡ prefix_bytes) × (check_prefix c x ≡ pass))
        ⊎ ((x ≡ w ++ buf) × (length x < prefix_bytes))
      → Collected w buf r (
          if length x == prefix_bytes
          then judged (check_prefix c x) (record r { head = x })
          else (true, record r { head = x }))
  window_step w buf x r y (inl (full, fine)) =
      rw ((==_iff (length x) prefix_bytes).1 full, fine) (refl, refl, refl, refl, refl, inl refl)
  window_step w buf x r y (inr (same, short)) =
      let no : (length x == prefix_bytes) ≡ false = ground arith in
      rw no (refl, refl, refl, refl, refl, inr (y, same, short))

  pub collect-Collected :
      (r : Receiver) (buf rest : Bytes)
      → Going r
      → check_body sha256 c (r.written ++ (buf ++ rest)) ≡ pass
      → Collected r.written buf r (collect c buf r)
  unfolding collect check_head
  collect-Collected r buf rest g ok_body = elim g.window [
    | inl y ↦ simp y (refl, refl, refl, refl, refl, inl refl)
    | inr (y, same, short) ↦
        let (q, cut) = grown-prefix r.head buf rest in
        let whole = ap (λ t. t ++ (buf ++ rest)) (sym same) ∙ cut in
        let fine =
          prefix-pass sha256 c (grown r.head buf) q
            (ap (check_body sha256 c) (sym whole) ∙ ok_body) in
        let step =
          window_step r.written buf (grown r.head buf) r y (elim (grown_cases r.head buf short) [
            | inl full ↦ inl (full, fine)
            | inr (all_in, little) ↦ inr (
              all_in ∙ ap (λ t. t ++ buf) same,
              subst (λ t. length t < prefix_bytes) (sym all_in) little,
            )
          ]) in
        if_false (Collected r.written buf r) r.prefix_checked (true, r) _ y step
  ]
