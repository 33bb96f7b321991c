-- ===== src/Server/Closing.antt =====
-- When the coordinator refuses fills, and when it must admit one.
use starfield_datastore.Prelude.{
  ℕ, ◌+◌, ◌-◌, ◌≤◌, ◌<◌, ◌≡◌, sym, ap, ◌∙◌, ◌≢◌, inl, inr, true, false, false≢true, Option, none,
  some, arith, ◌==◌, Bool-cases,
}
use starfield_datastore.Error.{Error, ok, err, Result-cases}
use starfield_datastore.Policy.{ServiceCachePolicy, IsUsable}
use starfield_datastore.Server.Coordinator.{
  State, Environment, admission, admit, Failed, failed_with, panicked, Maintained, clean, broken,
  panic, settle, finish,
}
use starfield_datastore.Server.Admission.{
  System, admits, refuses, finishes, Reach, here, next, admission-ok, admit-err, admit-ok,
}

-- An admission that is refused in a state, whatever is asked.
abbrev pub Closed : ServiceCachePolicy → State → Type 0
Closed p s =
    (expected : Option ℕ) (env : Environment) → (e : Error) × (admit p expected env s ≡ (err e, s))

refused :
    (p : ServiceCachePolicy) (expected : Option ℕ) (env : Environment) (s : State)
    → ((n : ℕ) → admission p expected env s ≢ ok n)
    → (e : Error) × (admit p expected env s ≡ (err e, s))
unfolding admit
refused p expected env s no_room = elim (Result-cases (admission p expected env s)) [
  | inl (e, h) ↦ (e, ground arith)
  | inr (n, h) ↦ absurd (no_room n h)
]

-- When a fill ends while another is open, the state that it leaves refuses every admission.
pub finish-Closed :
    (p : ServiceCachePolicy) (m : Maintained) (s : State) → 1 < s.active → Closed p (finish m s)
finish-Closed p m s busy expected env = refused p expected env (finish m s) λ n h.
    let (_, _, open_again, _, _, _) = admission-ok p expected env (finish m s) n h in
    absurd (false≢true (sym open_again ∙ closing m s busy))
  where
    closing : (m' : Maintained) (s' : State) → 1 < s'.active → (finish m' s').maintenance ≡ true
    closing m' s' busy' = unfold finish in ground arith

finish-failed :
    (m : Maintained) (s : State) (f : Failed)
    → s.failed ≡ some f
    → (f' : Failed) × ((finish m s).failed ≡ some f')
unfolding finish settle
finish-failed clean s f h = (f, ground arith)
finish-failed (broken e) s f h = elim (Bool-cases (s.active - 1 == 0)) [
  | inl y ↦ (failed_with e, ground arith)
  | inr y ↦ (f, ground arith)
]
finish-failed panic s f h = elim (Bool-cases (s.active - 1 == 0)) [
  | inl y ↦ (panicked, ground arith)
  | inr y ↦ (f, ground arith)
]

Reach-failed :
    {p : ServiceCachePolicy} {s t : System}
    → Reach p s t
    → (f : Failed) → s.state.failed ≡ some f
    → (f' : Failed) × (t.state.failed ≡ some f')
Reach-failed here f h = (f, h)
Reach-failed {p} (next r (admits u expected env limit after a)) f h =
    let (f', h') = Reach-failed r f h in
    let (_, ha, _) = admit-ok p expected env u.state after limit a in
    let (_, sound, _, _, _, _) = admission-ok p expected env u.state after.reserved ha in
    absurd (ground arith)
Reach-failed {p} (next r (refuses u expected env e after a)) f h =
    let (f', h') = Reach-failed r f h in
    (f', ap (λ (x : State). x.failed) (admit-err p expected env u.state after e a) ∙ h')
Reach-failed (next r (finishes u xs ys g m e)) f h =
    let (f', h') = Reach-failed r f h in finish-failed m u.state f' h'

-- Once maintenance has failed, no fill is ever admitted again, whatever happens to the others.
pub failed-Closed :
    (p : ServiceCachePolicy) (s t : System) (f : Failed)
    → s.state.failed ≡ some f
    → Reach p s t
    → Closed p t.state
failed-Closed p s t f h r expected env =
    let (f', h') = Reach-failed r f h in
    refused p expected env t.state
      λ n a. let (_, sound, _, _, _, _) = admission-ok p expected env t.state n a in ground arith

-- The state in which nothing is open and nothing has failed.
pub record IsIdle (s : State) : Type 0 where
  pub active : s.active ≡ 0
  pub reserved : s.reserved ≡ 0
  pub maintenance : s.maintenance ≡ false
  pub failed : s.failed ≡ none

-- The last fill to end opens admission again if maintenance succeeds.
finish-IsIdle : (s : State) → s.active ≡ 1 → s.failed ≡ none → IsIdle (finish clean s)
unfolding finish settle
finish-IsIdle s h f = record {
  active = ground arith;
  reserved = ground arith;
  maintenance = ground arith;
  failed = ground arith;
}

IsIdle-admission :
    (p : ServiceCachePolicy) (env : Environment) (s : State) (space : ℕ)
    → IsUsable p
    → IsIdle s
    → env.lock_free ≡ true
    → env.available_space ≡ ok space
    → p.min_free_bytes + p.max_artifact_bytes ≤ space
    → admission p none env s ≡ ok p.max_artifact_bytes
unfolding admission
IsIdle-admission p env s space usable idle free has room = ground (
  arith, usable.fills, usable.inflight, usable.free_room, idle.active, idle.reserved,
  idle.maintenance, idle.failed,
)

-- When the last fill has ended and maintenance succeeded, a fill of unknown size is admitted under
-- a valid policy, if the lock is free and the file system has room for one artifact of the largest
-- size beside the free space to keep.
pub finish-admit :
    (p : ServiceCachePolicy) (env : Environment) (s : State) (space : ℕ)
    → IsUsable p
    → s.active ≡ 1
    → s.failed ≡ none
    → env.lock_free ≡ true
    → env.available_space ≡ ok space
    → p.min_free_bytes + p.max_artifact_bytes ≤ space
    → (admit p none env (finish clean s)).0 ≡ ok p.max_artifact_bytes
unfolding admit
finish-admit p env s space usable last sound free has room = rw (
    IsIdle-admission p env (finish clean s) space usable (finish-IsIdle s last sound) free has room)
