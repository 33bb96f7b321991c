-- ===== src/Store/Receiver.antt =====
-- src/store/mod.rs `Receiver` and `Datastore::receive`: a transfer into a hashing temporary file,
-- with an early check of the first bytes and an optional byte budget. The temporary file is the
-- bytes written so far; a transfer that fails drops it, so it never shows in the cache.
pub mod Transfer
pub mod Budget
pub mod Window
pub mod Complete
use starfield_datastore.Prelude.{
  ℕ, ◌+◌, ◌-◌, ◌*◌, Bool, true, false, not, ◌&&◌, ◌||◌, Option, none, some, List, [], ◌∷◌, ◌++◌,
  ltb, ◌==◌, if◌then◌else◌, length, take, all, Bytes,
}
use Prim.Native.Nat.{min}
use starfield_datastore.Error.{
  CheckFailure, Error, Result, ok, err, io, transfer_limit, content_rejected,
}
use starfield_datastore.Check.{ContentCheck, Verdict, pass, fail, check_prefix}
use starfield_datastore.Artifact.{Artifact}

-- `PREFIX_BYTES`
abbrev pub prefix_bytes : ℕ
prefix_bytes = 8 * 1024

pub record Receiver : Type 0 where
  pub written : Bytes
  pub bytes : ℕ
  pub head : Bytes
  pub prefix_checked : Bool
  pub rejected : Option CheckFailure
  pub budget : Option ℕ
  pub limit_exceeded : Bool

-- `Receiver::new`, with the budget that `receive` sets
abbrev pub new_receiver : Option ℕ → Receiver
new_receiver budget = record {
  written = [];
  bytes = 0;
  head = [];
  prefix_checked = false;
  rejected = none;
  budget = budget;
  limit_exceeded = false;
}

-- The charge that `write` makes first: `false` where the budget is gone.
unfoldable pub charge : Option ℕ → ℕ → Receiver → Bool × Receiver
charge none n r = (true, r)
charge (some b) n r =
    if r.limit_exceeded || ltb b n
    then (false, record r { limit_exceeded = true })
    else (true, record r { budget = some (b - n) })

abbrev judged : Verdict → Receiver → Bool × Receiver
judged pass r = (true, record r { prefix_checked = true })
judged (fail f) r = (false, record r { prefix_checked = true; rejected = some f })

-- `Receiver::check_prefix`
unfoldable pub check_head : ContentCheck → Receiver → Bool × Receiver
check_head check r = judged (check_prefix check r.head) r

-- The middle of `write`: collect the head, and check it once it is full.
unfoldable pub collect : ContentCheck → Bytes → Receiver → Bool × Receiver
collect check buf r =
    if r.prefix_checked
    then (true, r)
    else (let n = min (prefix_bytes - length r.head) (length buf) in
        let r' = record r { head = r.head ++ take n buf } in
        if length r'.head == prefix_bytes then check_head check r' else (true, r'))

-- The end of `write`: the bytes reach the file, the hash and the count.
unfoldable pub append_bytes : Bytes → Receiver → Receiver
append_bytes buf r = record r { written = r.written ++ buf; bytes = r.bytes + length buf }

abbrev pub is_some {ℓ} : {A : Type ℓ} → Option A → Bool
is_some none = false
is_some (some a) = true

-- `Receiver::write` after the charge.
unfoldable pub after_charge : ContentCheck → Bytes → Bool × Receiver → Bool × Receiver
after_charge check buf (paid, r) =
    if not paid || is_some r.rejected
    then (false, r)
    else (let (sound, r') = collect check buf r in
        if sound then (true, append_bytes buf r') else (false, r'))

-- `Receiver::write`: `false` is an I/O error. A call that succeeds takes the whole buffer.
unfoldable pub write_chunk : ContentCheck → Bytes → Receiver → Bool × Receiver
write_chunk check buf r = after_charge check buf (charge r.budget (length buf) r)

-- What feeds the sink: the buffers that it hands to `write_all`, how it ends if the sink takes
-- them all, and the error that it returns if the sink refuses one.
pub record Producer (R : Type 0) : Type 0 where
  pub chunks : List Bytes
  pub ending : Result R
  pub on_write_error : Error

-- Go on after a write that succeeded.
unfoldable pub proceed : (Receiver → Bool × Receiver) → Bool × Receiver → Bool × Receiver
proceed next (true, r) = next r
proceed next (false, r) = (false, r)

-- Run a producer: `write_all` writes no empty buffer.
unfoldable pub drive : ContentCheck → List Bytes → Receiver → Bool × Receiver
drive check [] r = (true, r)
drive check ([] ∷ rest) r = drive check rest r
drive check ((b ∷ buf) ∷ rest) r = proceed (drive check rest) (write_chunk check (b ∷ buf) r)

-- `Receiver::finish_prefix`: a body shorter than the window is checked at the end.
unfoldable pub finish_prefix : ContentCheck → Receiver → Verdict
finish_prefix check r = if r.prefix_checked then pass else check_prefix check r.head

-- What `receive` returns: the temporary file, its digest and its length.
pub record Received : Type 0 where
  pub body : Bytes
  pub digest : Bytes
  pub bytes : ℕ

abbrev is_io : Error → Bool
is_io io = true
is_io e = false

-- How `receive` reads the producer's result: whether an object was served.
unfoldable pub served : {R : Type 0} → (R → Bool) → Result R → Receiver → Result Bool
served is_served (ok r) w = ok (is_served r)
served is_served (err e) w = if is_io e && is_some w.rejected then ok false else err e

module _ (sha256 : Bytes → Bytes) where
  abbrev accept : Artifact → Verdict → Receiver → Result (Option Received)
  accept artifact (fail f) w = err (content_rejected artifact.key f)
  accept artifact pass w =
      ok (some (record { body = w.written; digest = sha256 w.written; bytes = w.bytes }))

  -- The checks of `receive` after the transfer.
  unfoldable pub conclude : Artifact → Result Bool → Receiver → Result (Option Received)
  conclude artifact (err e) w = if w.limit_exceeded then err transfer_limit else err e
  conclude artifact (ok was_served) w =
      if w.limit_exceeded then err transfer_limit else elim w.rejected [
        | some f ↦ err (content_rejected artifact.key f)
        | none ↦ if was_served then accept artifact (finish_prefix artifact.check w) w else ok none
      ]

  -- `Datastore::receive`, with what is left of the budget.
  unfoldable pub receive :
      {R : Type 0}
      → (R → Bool)
      → Artifact
      → Option ℕ
      → Producer R
      → Result (Option Received) × Option ℕ
  receive is_served artifact budget producer =
      let (good, w) = drive artifact.check producer.chunks (new_receiver budget) in
      let result = if good then producer.ending else err producer.on_write_error in
      (conclude artifact (served is_served result w) w, w.budget)
