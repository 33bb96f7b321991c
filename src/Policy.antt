-- ===== src/Policy.antt =====
-- src/config.rs `ServiceCachePolicy`: the limits of a server-owned cache. Numbers are `u64`.
use starfield_datastore.Prelude.{
  ℕ, ◌+◌, ◌^◌, ◌≤◌, ◌<◌, ◌≡◌, ◌↔◌, Bool, true, false, ◌||◌, Option, none, some, arith, ltb, ◌==◌,
  if◌then◌else◌,
}
use starfield_datastore.Error.{Result, ok, err, config}

abbrev pub u64 : ℕ
u64 = 2 ^ 64

-- `u64::checked_add`
abbrev pub checked_add : ℕ → ℕ → Option ℕ
checked_add a b = if ltb (a + b) u64 then some (a + b) else none

pub record ServiceCachePolicy : Type 0 where
  pub evict_on_fetch : Bool
  pub max_bytes : ℕ
  pub max_concurrent_fills : ℕ
  pub max_artifact_bytes : ℕ
  pub max_inflight_bytes : ℕ
  pub min_free_bytes : ℕ

abbrev is_none {ℓ} : {A : Type ℓ} → Option A → Bool
is_none none = true
is_none (some a) = false

-- `ServiceCachePolicy::validate`
unfoldable pub validate : ServiceCachePolicy → Result (Unit {0})
validate p =
    if p.max_concurrent_fills == 0
      || (p.max_artifact_bytes == 0
          || (ltb p.max_inflight_bytes p.max_artifact_bytes
              || (is_none (checked_add p.max_inflight_bytes p.min_free_bytes)
                  || is_none (checked_add p.max_inflight_bytes p.max_bytes))))
    then err (config "invalid service cache limits")
    else ok tt

pub record IsUsable (p : ServiceCachePolicy) : Type 0 where
  pub fills : 0 < p.max_concurrent_fills
  pub artifact : 0 < p.max_artifact_bytes
  pub inflight : p.max_artifact_bytes ≤ p.max_inflight_bytes
  pub free_room : p.max_inflight_bytes + p.min_free_bytes < u64
  pub kept_room : p.max_inflight_bytes + p.max_bytes < u64

-- `validate` accepts a policy exactly when it allows a fill, its largest artifact is not empty and
-- fits the staging limit, and the staging limit overflows neither with the free space to keep nor
-- with the retained bytes.
pub validate_iff : (p : ServiceCachePolicy) → (validate p ≡ ok tt) ↔ IsUsable p
unfolding validate
validate_iff p = (λ h. ground arith, λ h. ground arith)
