-- ===== src/Server/Admission.antt =====
-- The coordinator as a system of open fills: each step admits one fill or ends one.
use starfield_datastore.Prelude.{
  ℕ, ◌+◌, ◌-◌, ◌≤◌, ◌<◌, ◌≡◌, refl, sym, ap, ◌⊎◌, inl, inr, false, Option, none, some, List, [],
  ◌∷◌, ◌++◌, arith, length, length-append,
}
use mathlib.Core.Path.{subst}
use starfield_datastore.Error.{Error, ok, err, Result-cases}
use starfield_datastore.Policy.{ServiceCachePolicy}
use starfield_datastore.Server.Coordinator.{
  State, initial, Environment, limit_of, admission, admit, Maintained, clean, broken, panic, settle,
  finish,
}

-- The state, with the byte limits of the guards that are alive.
pub record System : Type 0 where
  pub state : State
  pub guards : List ℕ

abbrev pub start : System
start = record { state = initial; guards = [] }

pub data Step (p : ServiceCachePolicy) : System → System → Type 0 where
  admits :
      (s : System) (expected : Option ℕ) (env : Environment) (limit : ℕ) (after : State)
      → admit p expected env s.state ≡ (ok limit, after)
      → Step p s (record { state = after; guards = limit ∷ s.guards })
  refuses :
      (s : System) (expected : Option ℕ) (env : Environment) (e : Error) (after : State)
      → admit p expected env s.state ≡ (err e, after)
      → Step p s (record { state = after; guards = s.guards })
  finishes :
      (s : System) (xs ys : List ℕ) (g : ℕ) (m : Maintained)
      → s.guards ≡ xs ++ (g ∷ ys)
      → Step p s (record { state = finish m s.state; guards = xs ++ ys })

pub data Reach (p : ServiceCachePolicy) (s : System) : System → Type 0 where
  here : Reach p s s
  next : {t u : System} → Reach p s t → Step p t u → Reach p s u

abbrev pub sum : List ℕ → ℕ
sum [] = 0
sum (x ∷ xs) = x + sum xs

abbrev pub AllAtMost : ℕ → List ℕ → Type 0
AllAtMost n [] = Unit
AllAtMost n (x ∷ xs) = (x ≤ n) × AllAtMost n xs

pub record IsSound (p : ServiceCachePolicy) (s : System) : Type 0 where
  pub counted : s.state.active ≡ length s.guards
  pub concurrency : s.state.active ≤ p.max_concurrent_fills
  pub reserved : s.state.reserved ≤ p.max_inflight_bytes
  pub covered : sum s.guards ≤ s.state.reserved
  pub each : AllAtMost p.max_artifact_bytes s.guards

pub admission-ok :
    (p : ServiceCachePolicy) (expected : Option ℕ) (env : Environment) (s : State) (reserved : ℕ)
    → admission p expected env s ≡ ok reserved
    → (limit_of p expected ≤ p.max_artifact_bytes)
      × (s.failed ≡ none)
      × (s.maintenance ≡ false)
      × (s.active < p.max_concurrent_fills)
      × (reserved ≡ s.reserved + limit_of p expected)
      × (reserved ≤ p.max_inflight_bytes)
unfolding admission
admission-ok p none env s reserved h = ground arith
admission-ok p (some n) env s reserved h = ground arith

pub admit-ok :
    (p : ServiceCachePolicy) (expected : Option ℕ) (env : Environment) (s after : State) (limit : ℕ)
    → admit p expected env s ≡ (ok limit, after)
    → (limit ≡ limit_of p expected)
      × (admission p expected env s ≡ ok after.reserved)
      × (after.active ≡ s.active + 1)
unfolding admit
admit-ok p expected env s after limit h = elim (Result-cases (admission p expected env s)) [
  | inl (e, x) ↦ absurd (ground arith)
  | inr (n, x) ↦ ground arith
]

admit-IsSound :
    (p : ServiceCachePolicy) (s : System) (expected : Option ℕ) (env : Environment) (limit : ℕ)
    (after : State)
    → admit p expected env s.state ≡ (ok limit, after)
    → IsSound p s
    → IsSound p (record { state = after; guards = limit ∷ s.guards })
admit-IsSound p s expected env limit after h i =
    let (hl, ha, hn) = admit-ok p expected env s.state after limit h in
    let (small, _, _, room, total, fits) = admission-ok p expected env s.state after.reserved ha in
    record {
      counted = omega (arith, i.counted);
      concurrency = omega arith;
      reserved = fits;
      covered = omega (arith, i.covered);
      each = (omega arith, i.each);
    }

sum-append : (xs ys : List ℕ) → sum (xs ++ ys) ≡ sum xs + sum ys
sum-append [] ys = omega arith
sum-append (x ∷ xs) ys = omega (arith, sum-append xs ys)

AllAtMost-remove :
    (n : ℕ) (xs ys : List ℕ) (g : ℕ) → AllAtMost n (xs ++ (g ∷ ys)) → AllAtMost n (xs ++ ys)
AllAtMost-remove n [] ys g h = h.1
AllAtMost-remove n (x ∷ xs) ys g h = (h.0, AllAtMost-remove n xs ys g h.1)

sum_of_empty : (xs : List ℕ) → length xs ≡ 0 → sum xs ≡ 0
sum_of_empty [] h = refl
sum_of_empty (x ∷ xs) h = absurd (omega arith)

finish-fields :
    (m : Maintained) (s : State)
    → ((finish m s).active ≡ s.active - 1)
      × ((finish m s).reserved ≤ s.reserved)
      × (((finish m s).reserved ≡ s.reserved) ⊎ (s.active - 1 ≡ 0))
unfolding finish settle
finish-fields clean s = ground arith
finish-fields (broken e) s = ground arith
finish-fields panic s = ground arith

finish-IsSound :
    (p : ServiceCachePolicy) (s : System) (xs ys : List ℕ) (g : ℕ) (m : Maintained)
    → s.guards ≡ xs ++ (g ∷ ys)
    → IsSound p s
    → IsSound p (record { state = finish m s.state; guards = xs ++ ys })
finish-IsSound p s xs ys g m h i =
    let (ha, hr, hz) = finish-fields m s.state in
    let n = ap length h in
    let n1 = length-append xs (g ∷ ys) in
    let n2 = length-append xs ys in
    let t = ap sum h in
    let t1 = sum-append xs (g ∷ ys) in
    let t2 = sum-append xs ys in
    record {
      counted = omega (arith, i.counted);
      concurrency = omega (arith, i.concurrency);
      reserved = omega (arith, i.reserved);
      covered = elim hz [
        | inl same ↦ omega (arith, i.covered)
        | inr gone ↦
            let none_left = sum_of_empty (xs ++ ys) (omega (arith, i.counted)) in omega arith
      ];
      each =
          AllAtMost-remove p.max_artifact_bytes xs ys g
            (subst (AllAtMost p.max_artifact_bytes) h i.each);
    }

pub admit-err :
    (p : ServiceCachePolicy) (expected : Option ℕ) (env : Environment) (s after : State) (e : Error)
    → admit p expected env s ≡ (err e, after)
    → after ≡ s
unfolding admit
admit-err p expected env s after e h = elim (Result-cases (admission p expected env s)) [
  | inl (f, x) ↦ ground arith
  | inr (n, x) ↦ absurd (ground arith)
]

Step-IsSound : {p : ServiceCachePolicy} {s t : System} → Step p s t → IsSound p s → IsSound p t
Step-IsSound {p} (admits s expected env limit after h) i =
    admit-IsSound p s expected env limit after h i
Step-IsSound {p} (refuses s expected env e after h) i =
    subst (λ x. IsSound p (record { state = x; guards = s.guards }))
      (sym (admit-err p expected env s.state after e h)) i
Step-IsSound {p} (finishes s xs ys g m h) i = finish-IsSound p s xs ys g m h i

Reach-IsSound_from :
    {p : ServiceCachePolicy} {s t : System} → Reach p s t → IsSound p s → IsSound p t
Reach-IsSound_from here i = i
Reach-IsSound_from (next r st) i = Step-IsSound st (Reach-IsSound_from r i)

start-IsSound : (p : ServiceCachePolicy) → IsSound p start
start-IsSound p = record {
  counted = refl;
  concurrency = omega arith;
  reserved = omega arith;
  covered = omega arith;
  each = tt;
}

-- Whatever fills are admitted and however they end, the active count is that of the open guards and
-- within the policy, each guard is within the largest artifact, and the limits of all open guards
-- together are covered by reservations within the staging limit.
pub Reach-IsSound : (p : ServiceCachePolicy) (s : System) → Reach p start s → IsSound p s
Reach-IsSound p s r = Reach-IsSound_from r (start-IsSound p)
