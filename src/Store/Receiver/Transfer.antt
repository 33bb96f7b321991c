-- ===== src/Store/Receiver/Transfer.antt =====
-- What a transfer leaves in the receiver: the bytes, their count, the head and the budget.
use starfield_datastore.Prelude.{
  ℕ, ◌≡◌, refl, Bool, true, false, Option, none, some, List, [], ◌∷◌, arith, length, length-append,
  Bytes,
}
use starfield_datastore.Error.{Result, ok, err}
use starfield_datastore.Check.{ContentCheck}
use starfield_datastore.Artifact.{Artifact}
use starfield_datastore.Store.Receiver.{
  Receiver, new_receiver, charge, check_head, collect, append_bytes, after_charge, write_chunk,
  Producer, proceed, drive, Received, conclude, receive,
}

-- The count is the length of what is written.
abbrev Counted : Receiver → Type 0
Counted r = r.bytes ≡ length r.written

charge-Counted : (b : Option ℕ) (n : ℕ) (r : Receiver) → Counted r → Counted (charge b n r).1
unfolding charge
charge-Counted none n r h = h
charge-Counted (some b) n r h = ground arith

collect-Counted :
    (c : ContentCheck) (buf : Bytes) (r : Receiver) → Counted r → Counted (collect c buf r).1
unfolding collect check_head
collect-Counted c buf r h = ground arith

write_chunk-Counted :
    (c : ContentCheck) (buf : Bytes) (r : Receiver) → Counted r → Counted (write_chunk c buf r).1
unfolding write_chunk after_charge append_bytes
write_chunk-Counted c buf r h =
    let r1 = (charge r.budget (length buf) r).1 in
    ground (
      arith,
      charge-Counted r.budget (length buf) r h,
      collect-Counted c buf r1,
      length-append (collect c buf r1).1.written buf,
    )

-- What each write keeps, the transfer keeps.
pub drive-keeps {ℓ} :
    (P : Receiver → Type ℓ) (c : ContentCheck)
    → ((buf : Bytes) (r : Receiver) → P r → P (write_chunk c buf r).1)
    → (chunks : List Bytes) (r : Receiver) → P r
    → P (drive c chunks r).1
unfolding drive
drive-keeps P c keep [] r h = h
drive-keeps P c keep ([] ∷ rest) r h = drive-keeps P c keep rest r h
drive-keeps P c keep ((b ∷ buf) ∷ rest) r h =
    proceeds (write_chunk c (b ∷ buf) r) (keep (b ∷ buf) r h) (drive-keeps P c keep rest)
  where
    proceeds :
        (x : Bool × Receiver)
        → P x.1
        → ((s : Receiver) → P s → P (drive c rest s).1)
        → P (proceed (drive c rest) x).1
    proceeds (true, s) hs later = unfold proceed in later s hs
    proceeds (false, s) hs later = unfold proceed in hs

pub drive-bytes :
    (c : ContentCheck) (chunks : List Bytes) (budget : Option ℕ)
    → (drive c chunks (new_receiver budget)).1.bytes
      ≡ length (drive c chunks (new_receiver budget)).1.written
drive-bytes c chunks budget =
    drive-keeps Counted c (write_chunk-Counted c) chunks (new_receiver budget) refl

module _ (sha256 : Bytes → Bytes) where
  conclude-digest :
      (a : Artifact) (result : Result Bool) (w : Receiver) (r : Received)
      → Counted w
      → conclude sha256 a result w ≡ ok (some r)
      → (r.digest ≡ sha256 r.body) × (r.bytes ≡ length r.body)
  unfolding conclude
  conclude-digest a (err e) w r counted h = ground arith
  conclude-digest a (ok b) w r counted h = ground arith

  -- What is received is named by its digest and measured by its length.
  pub receive-digest :
      {R : Type 0} (is_served : R → Bool) (a : Artifact) (budget : Option ℕ) (p : Producer R)
      (r : Received)
      → (receive sha256 is_served a budget p).0 ≡ ok (some r)
      → (r.digest ≡ sha256 r.body) × (r.bytes ≡ length r.body)
  unfolding receive
  receive-digest is_served a budget p r h =
      conclude-digest a _ (drive a.check p.chunks (new_receiver budget)).1 r
        (drive-bytes a.check p.chunks budget) h
