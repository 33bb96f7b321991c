-- ===== src/Store/Receiver/Budget.antt =====
-- The byte budget of a transfer: what is written is paid for in advance.
use starfield_datastore.Prelude.{
  ℕ, ◌+◌, ◌-◌, ◌≤◌, ◌≡◌, refl, sym, ap, ◌∙◌, inl, inr, Bool, true, false, ◌||◌, false≢true, some,
  arith, ltb, Bool-cases, ||_false, length, length-append, Bytes,
}
use mathlib.Core.Path.{subst}
use starfield_datastore.Check.{ContentCheck}
use starfield_datastore.Artifact.{Artifact}
use starfield_datastore.Store.Receiver.Transfer.{drive-keeps}
use starfield_datastore.Store.Receiver.{
  Receiver, new_receiver, charge, check_head, collect, append_bytes, is_some, after_charge,
  write_chunk, Producer, drive, receive,
}

-- At most `limit` bytes are written or left in the budget.
abbrev Paid : ℕ → Receiver → Type 0
Paid limit r = (left : ℕ) × (r.budget ≡ some left) × (left + length r.written ≤ limit)

-- The same, with room for a buffer of `n` bytes that is not written yet.
abbrev PaidFor : ℕ → ℕ → Receiver → Type 0
PaidFor limit n r = (left : ℕ) × (r.budget ≡ some left) × (left + length r.written + n ≤ limit)

charge-refused :
    (limit b n : ℕ) (r : Receiver)
    → r.budget ≡ some b
    → b + length r.written ≤ limit
    → Paid limit (charge (some b) n r).1
unfolding charge
charge-refused limit b n r e h = elim (Bool-cases (r.limit_exceeded || ltb b n)) [
  | inl y ↦ rw y (b, e, h)
  | inr y ↦ rw y (b - n, refl, omega arith)
]

charge-paid :
    (limit b n : ℕ) (r : Receiver)
    → r.budget ≡ some b
    → b + length r.written ≤ limit
    → (charge (some b) n r).0 ≡ true
    → PaidFor limit n (charge (some b) n r).1
unfolding charge
charge-paid limit b n r e h p = elim (Bool-cases (r.limit_exceeded || ltb b n)) [
  | inl y ↦ absurd (false≢true (rw y at p))
  | inr y ↦ rw y (b - n, refl, let z = (||_false r.limit_exceeded (ltb b n) y).1 in ground arith)
]

-- Collecting the head touches neither the budget nor what is written.
collect-same :
    (c : ContentCheck) (buf : Bytes) (r : Receiver)
    → ((collect c buf r).1.budget ≡ r.budget) × ((collect c buf r).1.written ≡ r.written)
unfolding collect check_head
collect-same c buf r = ground arith

collect-PaidFor :
    (limit n : ℕ) (c : ContentCheck) (buf : Bytes) (r : Receiver)
    → PaidFor limit n r
    → PaidFor limit n (collect c buf r).1
collect-PaidFor limit n c buf r (left, e, h) =
    let (same_budget, same_written) = collect-same c buf r in
    (left, same_budget ∙ e, omega (arith, ap length same_written))

PaidFor-Paid : (limit n : ℕ) (r : Receiver) → PaidFor limit n r → Paid limit r
PaidFor-Paid limit n r (left, e, h) = (left, e, omega arith)

append_bytes-Paid :
    (limit : ℕ) (buf : Bytes) (r : Receiver)
    → PaidFor limit (length buf) r
    → Paid limit (append_bytes buf r)
unfolding append_bytes
append_bytes-Paid limit buf r (left, e, h) = (left, e, omega (arith, length-append r.written buf))

-- The rest of a write.
after_charge-Paid :
    (limit : ℕ) (c : ContentCheck) (buf : Bytes) (x : Bool × Receiver)
    → Paid limit x.1
    → (x.0 ≡ true → PaidFor limit (length buf) x.1)
    → Paid limit (after_charge c buf x).1
unfolding after_charge
after_charge-Paid limit c buf (false, r) h k = h
after_charge-Paid limit c buf (true, r) h k = elim (Bool-cases (is_some r.rejected)) [
  | inl y ↦ rw y h
  | inr y ↦
      let later = collect-PaidFor limit (length buf) c buf r (k refl) in
      rw y (elim (Bool-cases (collect c buf r).0) [
        | inl g ↦ rw g (append_bytes-Paid limit buf (collect c buf r).1 later)
        | inr g ↦ rw g (PaidFor-Paid limit (length buf) (collect c buf r).1 later)
      ])
]

write_chunk-Paid :
    (limit : ℕ) (c : ContentCheck) (buf : Bytes) (r : Receiver)
    → Paid limit r
    → Paid limit (write_chunk c buf r).1
unfolding write_chunk
write_chunk-Paid limit c buf r (b, e, h) =
    let n = length buf in
    after_charge-Paid limit c buf (charge r.budget n r)
      (subst (λ o. Paid limit (charge o n r).1) (sym e) (charge-refused limit b n r e h))
      (subst (λ o. (charge o n r).0 ≡ true → PaidFor limit n (charge o n r).1) (sym e)
        (charge-paid limit b n r e h))

module _ (sha256 : Bytes → Bytes) where
  -- A transfer with a budget of `limit` bytes never has more than `limit` bytes on disk, counting
  -- what is left of the budget, however it ends.
  pub receive-budget :
      {R : Type 0} (is_served : R → Bool) (a : Artifact) (limit : ℕ) (p : Producer R)
      → (left : ℕ) × ((receive sha256 is_served a (some limit) p).1 ≡ some left)
        × (left + length (drive a.check p.chunks (new_receiver (some limit))).1.written ≤ limit)
  unfolding receive
  receive-budget is_served a limit p =
      drive-keeps (Paid limit) a.check (λ buf r. write_chunk-Paid limit a.check buf r) p.chunks
        (new_receiver (some limit)) (limit, refl, omega arith)
