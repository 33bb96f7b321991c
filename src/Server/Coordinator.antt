-- ===== src/Server/Coordinator.antt =====
-- src/server/cache.rs: admission of cold fills and maintenance once they have drained. A call
-- holds the state's mutex for its whole body, so it is one step; `try_lock` and the free space of
-- the file system are inputs of the step. The number of active fills is a machine word that
-- counts guards, each of which is finished once.
use starfield_datastore.Prelude.{
  ℕ, ◌+◌, ◌-◌, Bool, true, false, not, ◌||◌, Option, none, some, List, ltb, leb, ◌==◌,
  if◌then◌else◌, Bytes,
}
use starfield_datastore.Error.{Error, Result, ok, err, ◌>>=◌, fill_unavailable, transfer_limit}
use starfield_datastore.Policy.{ServiceCachePolicy, checked_add}
use starfield_datastore.Store.Layout.{Cache}
use starfield_datastore.Store.Maintain.{blob_bytes, gc}

-- Why fills are disabled until a restart.
pub data Failed : Type 0 where
  failed_with : Error → Failed
  panicked : Failed

pub record State : Type 0 where
  pub active : ℕ
  pub reserved : ℕ
  pub maintenance : Bool
  pub failed : Option Failed

-- `State::default`
abbrev pub initial : State
initial = record { active = 0; reserved = 0; maintenance = false; failed = none }

-- The answers of the environment to one call of `admit`.
pub record Environment : Type 0 where
  pub lock_free : Bool
  pub available_space : Result ℕ

abbrev pub limit_of : ServiceCachePolicy → Option ℕ → ℕ
limit_of p none = p.max_artifact_bytes
limit_of p (some n) = n

-- The reservations with one more fill, if they fit.
abbrev pub reserve : ServiceCachePolicy → ℕ → Option ℕ → Result ℕ
reserve p limit none = err (fill_unavailable "staging reservations exhausted; retry")
reserve p limit (some n) =
    if leb n p.max_inflight_bytes
    then ok n
    else err (fill_unavailable "staging reservations exhausted; retry")

abbrev pub need : Option ℕ → Result ℕ
need none = err (fill_unavailable "filesystem reservation overflow")
need (some n) = ok n

abbrev pub enough : ℕ → ℕ → Result (Unit {0})
enough available required =
    if ltb available required
    then err (fill_unavailable "insufficient unreserved filesystem space")
    else ok tt

abbrev pub no_failure : Option Failed → Result (Unit {0})
no_failure none = ok tt
no_failure (some f) = err (fill_unavailable "maintenance failed; repair and restart")

abbrev pub unless : Bool → Error → Result (Unit {0})
unless true e = err e
unless false e = ok tt

-- The reservations after an admission, or why there is none.
unfoldable pub admission : ServiceCachePolicy → Option ℕ → Environment → State → Result ℕ
admission p expected env s = do
  let limit = limit_of p expected
  u ← unless (ltb p.max_artifact_bytes limit) transfer_limit
  u ← unless (not env.lock_free) (fill_unavailable "admission busy; retry")
  u ← no_failure s.failed
  u ←
      unless (s.maintenance || leb p.max_concurrent_fills s.active)
        (fill_unavailable "fills draining or concurrency exhausted; retry")
  reserved ← reserve p limit (checked_add s.reserved limit)
  required ← need (checked_add p.min_free_bytes reserved)
  available ← env.available_space
  u ← enough available required
  ok reserved

abbrev admitted : ℕ → State → Result ℕ → Result ℕ × State
admitted limit s (err e) = (err e, s)
admitted limit s (ok reserved) = (ok limit, record s { active = s.active + 1; reserved = reserved })

-- `Coordinator::admit`: the guard is its byte limit.
unfoldable pub admit : ServiceCachePolicy → Option ℕ → Environment → State → Result ℕ × State
admit p expected env s = admitted (limit_of p expected) s (admission p expected env s)

abbrev within_budget : ServiceCachePolicy → ℕ → Result (Unit {0})
within_budget p after =
    if ltb p.max_bytes after
    then err (fill_unavailable "retained cache remains above budget")
    else ok tt

abbrev measured : ServiceCachePolicy → Result (List Bytes) × Cache → Result (Unit {0}) × Cache
measured p (err e, c) = (err e, c)
measured p (ok removed, c) = ((do after ← blob_bytes c; within_budget p after), c)

-- `Coordinator::maintain`
unfoldable pub maintain : ServiceCachePolicy → Cache → Result (Unit {0}) × Cache
maintain p c = elim (blob_bytes c) [
  | err e ↦ (err e, c)
  | ok before ↦ measured p (gc p.max_bytes c)
]

-- How maintenance ended, as `finish` sees it.
pub data Maintained : Type 0 where
  clean : Maintained
  broken : Error → Maintained
  panic : Maintained

unfoldable pub settle : Maintained → State → State
settle clean s = record s { reserved = 0; maintenance = false }
settle (broken e) s = record s { failed = some (failed_with e) }
settle panic s = record s { failed = some panicked }

-- `Coordinator::finish`, which drops a guard: `m` is how maintenance ends if it runs.
unfoldable pub finish : Maintained → State → State
finish m s =
    let s' = record s { maintenance = true; active = s.active - 1 } in
    if not (s'.active == 0) then s' else settle m s'
