-- ===== src/Store/Receiver/Complete.antt =====
-- A transfer of a body that the artifact's check accepts goes through, however it is cut in pieces.
use starfield_datastore.Prelude.{
  ◌≡◌, refl, sym, ap, ◌∙◌, inl, inr, Bool, true, false, false≢true, none, some, List, [], ◌∷◌, ◌++◌,
  arith, if◌then◌else◌, if_true, if_false, length, Bytes,
}
use mathlib.Core.Path.{subst}
use mathlib.Core.List.{append_assoc, append-nil}
use starfield_datastore.Error.{ok, err}
use starfield_datastore.Check.{ContentCheck, pass, check_body, check_prefix}
use starfield_datastore.Artifact.{Artifact}
use starfield_datastore.Store.Receiver.Transfer.{drive-bytes}
use starfield_datastore.Store.Receiver.{
  Receiver, new_receiver, charge, collect, append_bytes, is_some, after_charge, write_chunk,
  Producer, proceed, drive, finish_prefix, Received, served, conclude, receive,
}
use starfield_datastore.Store.Receiver.Window.{Going, Collected, collect-Collected, prefix-pass}

-- The whole body that a list of buffers makes.
abbrev pub concat : List Bytes → Bytes
concat [] = []
concat (b ∷ bs) = b ++ concat bs

module _ (sha256 : Bytes → Bytes) (c : ContentCheck) where
  -- A write of the next part of an accepted body succeeds.
  Written : Receiver → Bytes → Bool × Receiver → Type 0
  Written r buf (good, r') = (good ≡ true) × Going r' × (r'.written ≡ r.written ++ buf)

  append-Written :
      (r : Receiver) (buf : Bytes) (x : Bool × Receiver)
      → Going r
      → Collected sha256 c r.written buf r x
      → Written r buf (if x.0 then (true, append_bytes buf x.1) else (false, x.1))
  unfolding append_bytes Written
  append-Written r buf (false, r') g h = absurd (false≢true h.0)
  append-Written r buf (true, r') g (good, b, j, l, w, win) = (
    refl,
    record {
      free = b ∙ g.free;
      fine = j ∙ g.fine;
      within = l ∙ g.within;
      window = elim win [
        | inl y ↦ inl y
        | inr (y, same, short) ↦ inr (y, same ∙ ap (λ t. t ++ buf) (sym w), short)
      ];
    },
    ap (λ t. t ++ buf) w,
  )

  write_chunk-Written :
      (r : Receiver) (buf rest : Bytes)
      → Going r
      → check_body sha256 c (r.written ++ (buf ++ rest)) ≡ pass
      → Written r buf (write_chunk c buf r)
  unfolding write_chunk after_charge charge
  write_chunk-Written r buf rest g h =
      subst (λ o. Written r buf (after_charge c buf (charge o (length buf) r))) (sym g.free)
        (if_false (Written r buf) (is_some r.rejected) (false, r) _ (ap is_some g.fine)
          (append-Written r buf (collect c buf r) g (collect-Collected sha256 c r buf rest g h)))

  -- The whole transfer succeeds, and writes the whole body.
  drive-Written :
      (r : Receiver) (chunks : List Bytes)
      → Going r
      → check_body sha256 c (r.written ++ concat chunks) ≡ pass
      → Written r (concat chunks) (drive c chunks r)
  unfolding drive Written
  drive-Written r [] g h = (refl, g, sym (append-nil r.written))
  drive-Written r ([] ∷ rest) g h = drive-Written r rest g h
  drive-Written r ((b ∷ buf) ∷ rest) g h =
      continues (write_chunk c (b ∷ buf) r) (write_chunk-Written r (b ∷ buf) (concat rest) g h)
        (λ s. drive-Written s rest)
    where
      continues :
          (x : Bool × Receiver)
          → Written r (b ∷ buf) x
          → ((s : Receiver)
              → Going s
              → check_body sha256 c (s.written ++ concat rest) ≡ pass
              → Written s (concat rest) (drive c rest s))
          → Written r (concat ((b ∷ buf) ∷ rest)) (proceed (drive c rest) x)
      continues (false, s) w later = absurd (false≢true w.0)
      continues (true, s) (_, gs, e) later =
          let joined =
            ap (λ t. t ++ concat rest) e ∙ append_assoc r.written (b ∷ buf) (concat rest) in
          let (good, g', e') = later s gs (ap (check_body sha256 c) joined ∙ h) in
          unfold proceed in (good, g', e' ∙ joined)

  finish_prefix-pass :
      (r : Receiver) → Going r → check_body sha256 c r.written ≡ pass → finish_prefix c r ≡ pass
  unfolding finish_prefix
  finish_prefix-pass r g h = elim g.window [
    | inl y ↦ if_true (λ v. v ≡ pass) r.prefix_checked pass _ y refl
    | inr (y, same, short) ↦
        if_false (λ v. v ≡ pass) r.prefix_checked pass _ y
          (ap (check_prefix c) same
            ∙ prefix-pass sha256 c r.written []
                (ap (check_body sha256 c) (append-nil r.written) ∙ h))
  ]

module _ (sha256 : Bytes → Bytes) where
  -- A body received whole.
  abbrev pub whole : Bytes → Received
  whole body = record { body = body; digest = sha256 body; bytes = length body }

  conclude_complete :
      (a : Artifact) (w : Receiver)
      → Going w
      → w.bytes ≡ length w.written
      → check_body sha256 a.check w.written ≡ pass
      → conclude sha256 a (ok true) w ≡ ok (some (whole w.written))
  unfolding conclude
  conclude_complete a w g n h =
      let v = finish_prefix-pass sha256 a.check w g h in ground (arith, g.fine, g.within)

  -- Without a budget, an object that is served and that the artifact's check accepts is received
  -- whole, with its digest and length, however the sender cuts it.
  pub receive_complete :
      {R : Type 0} (is_served : R → Bool) (a : Artifact) (p : Producer R) (r : R)
      → p.ending ≡ ok r
      → is_served r ≡ true
      → check_body sha256 a.check (concat p.chunks) ≡ pass
      → (receive sha256 is_served a none p).0 ≡ ok (some (whole (concat p.chunks)))
  unfolding receive served Written
  receive_complete {R} is_served a p r ends yes_served h =
      ends_well (drive a.check p.chunks (new_receiver none))
        (drive-Written sha256 a.check (new_receiver none) p.chunks
          (record {
            free = refl;
            fine = refl;
            within = refl;
            window = inr (refl, refl, omega arith);
          })
          h)
        (drive-bytes a.check p.chunks none)
    where
      ends_well :
          (x : Bool × Receiver)
          → Written sha256 a.check (new_receiver none) (concat p.chunks) x
          → x.1.bytes ≡ length x.1.written
          → conclude sha256 a
              (served is_served (if x.0 then p.ending else err p.on_write_error) x.1)
              x.1
            ≡ ok (some (whole (concat p.chunks)))
      ends_well (false, w) (good, g, e) n = absurd (false≢true good)
      ends_well (true, w) (good, g, e) n =
          rw (ends, yes_served)
            (conclude_complete a w g n (ap (check_body sha256 a.check) e ∙ h)
              ∙ ap (λ t. ok (some (whole t))) e)
