-- ===== src/Error.antt =====
-- src/error.rs: the errors of the crate as values, and the results that carry them.
-- The human-readable details that `format!` interpolates are left out; what a caller can branch on
-- (the variant, the key, the host, the status) is kept.
use starfield_datastore.Prelude.{ℕ, String, ◌≡◌, refl, ◌⊎◌, inl, inr, Bool, arith, Bytes}

-- check.rs `CheckFailure`: the name of the check that failed.
pub record CheckFailure : Type 0 where
  pub check : String

mutual
  pub data Error : Type 0 where
    no_credential : Bytes → Error
    credential_rejected : Bytes → ℕ → Bool → Error
    content_rejected : Bytes → CheckFailure → Error
    offline_miss : Bytes → Error
    mirror_unreachable : Bytes → Reason → Error
    manual_required : Bytes → Bytes → Error
    all_sources_failed : Bytes → Attempts → Error
    invalid_key : Error
    mirror : String → Error
    config : String → Error
    fill_unavailable : String → Error
    transfer_limit : Error
    manifest : String → Error
    io : Error
    http : ℕ → Error

  -- Why the mirror layer did not serve: the text that `MirrorUnreachable` shows.
  pub data Reason : Type 0 where
    no_mirror : Reason
    no_entry : Bytes → Reason
    failed : Error → Reason

  -- One line for each source tried, in order.
  pub data Attempts : Type 0 where
    nil : Attempts
    attempt : Bytes → Error → Attempts → Attempts

-- What a call of the crate returns.
pub data Result {ℓ} (T : Type ℓ) : Type ℓ where
  err : Error → Result T
  ok : T → Result T

-- The operator `?`: an error leaves the function, a value goes on to the rest of it.
infixl 5 ◌>>=◌
abbrev pub ◌>>=◌ {ℓ κ} : {T : Type ℓ} {U : Type κ} → Result T → (T → Result U) → Result U
err failure >>= rest = err failure
ok value >>= rest = rest value

-- The same after a call that returns nothing.
infixl 5 ◌>>◌
abbrev pub ◌>>◌ {ℓ} : {U : Type ℓ} → Result (Unit {0}) → Result U → Result U
call >> rest = call >>= λ nothing. rest

-- A call that succeeds as a whole has a value to go on from.
pub >>=-eq-ok {ℓ κ} :
    {T : Type ℓ} {U : Type κ} (call : Result T) (rest : T → Result U) {result : U}
    → call >>= rest ≡ ok result
    → (value : T) × (call ≡ ok value) × (rest value ≡ ok result)
>>=-eq-ok (err failure) rest h = absurd (ground arith)
>>=-eq-ok (ok value) rest h = (value, refl, h)

pub Result-cases {ℓ} :
    {A : Type ℓ} (r : Result A) → ((e : Error) × (r ≡ err e)) ⊎ ((a : A) × (r ≡ ok a))
Result-cases (ok a) = inr (a, refl)
Result-cases (err e) = inl (e, refl)

-- What two successes with the same result hold is the same.
pub ok_inj {ℓ} : {A : Type ℓ} (x y : A) → ok x ≡ ok y → x ≡ y
ok_inj x y e = ground arith
