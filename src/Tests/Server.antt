-- ===== src/Tests/Server.antt =====
-- The coordinator of cold fills under a small policy.
use starfield_datastore.Prelude.{◌≡◌, refl, true, false, none, some, [], ◌∷◌, arith}
use starfield_datastore.Error.{ok, io}
use starfield_datastore.Policy.{ServiceCachePolicy, validate, validate_iff}
use starfield_datastore.Server.Coordinator.{
  failed_with, State, initial, Environment, admission, admit, clean, broken, settle, finish,
}
use starfield_datastore.Server.Admission.{
  System, start, Reach, here, next, admits, finishes, IsSound, Reach-IsSound,
}
use starfield_datastore.Server.Closing.{Closed, failed-Closed, finish-admit}

abbrev small : ServiceCachePolicy
small = record {
  evict_on_fetch = true;
  max_bytes = 100;
  max_concurrent_fills = 2;
  max_artifact_bytes = 10;
  max_inflight_bytes = 20;
  min_free_bytes = 5;
}

abbrev roomy : Environment
roomy = record { lock_free = true; available_space = ok 1000 }

abbrev one_fill : State
one_fill = record { active = 1; reserved = 10; maintenance = false; failed = none }

small-accepted : validate small ≡ ok tt
unfolding validate
small-accepted = refl

first-admitted : admit small none roomy initial ≡ (ok 10, one_fill)
unfolding admit admission
first-admitted = refl

abbrev after_first : System
after_first = record { state = one_fill; guards = 10 ∷ [] }

abbrev after_failure : System
after_failure = record { state = finish (broken io) one_fill; guards = [] }

first-Reach : Reach small start after_first
first-Reach = next here (admits start none roomy 10 one_fill first-admitted)

failure-Reach : Reach small start after_failure
failure-Reach = next first-Reach (finishes after_first [] [] 10 (broken io) refl)

Reach-IsSound_example : IsSound small after_failure
Reach-IsSound_example = Reach-IsSound small after_failure failure-Reach

abbrev two_fills : State
two_fills = record { active = 2; reserved = 20; maintenance = false; failed = none }

failure-failed : after_failure.state.failed ≡ some (failed_with io)
unfolding finish settle
failure-failed = refl

failed-Closed_example : Closed small after_failure.state
failed-Closed_example =
    failed-Closed small after_failure after_failure (failed_with io) failure-failed here

finish-admit_example : (admit small none roomy (finish clean one_fill)).0 ≡ ok 10
finish-admit_example =
    finish-admit small roomy one_fill 1000 ((validate_iff small).0 small-accepted) refl refl refl
      refl (omega arith)
