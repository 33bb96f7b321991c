-- ===== src/S3/Parts.antt =====
-- The parts of a multipart upload (src/s3.rs `multipart`): what they add up to, and how many there are.
use starfield_datastore.Prelude.{
  drop-drop, drop-length, ℕ, zero, suc, ◌+◌, ◌-◌, ◌*◌, ◌^◌, ◌≤◌, ◌<◌, ◌≡◌, refl, sym, ap, ◌∙◌, inl,
  inr, Bool, true, ◌&&◌, List, [], ◌∷◌, ◌++◌, arith, ltb, leb, ◌==◌, Bool-cases, length, take, drop,
  take-append-drop, Bytes,
}
use mathlib.Core.List.{append_assoc, append-nil}
use mathlib.Core.Path.{subst}
use starfield_datastore.Error.{ok_inj, Result, ok, err, >>=-eq-ok}
use starfield_datastore.Key.{ArtifactKey}
use starfield_datastore.Server.Service.{MirrorObject}
use starfield_datastore.S3.{
  PartOutput, CompletedPart, Request, put_object, create_upload, upload_part, complete_upload,
  abort_upload, head_object, get_object, History, Reply, reply, failure, S3Mirror, object_key,
  required,
}
use starfield_datastore.S3.Upload.{
  Run, and_then, min, part_size, completed_part, part_answer, send_part, send_parts,
}

-- The bytes of the parts that were sent, oldest first.
abbrev pub uploaded : History → Bytes
uploaded [] = []
uploaded (upload_part k id number b ∷ h) = uploaded h ++ b
uploaded (head_object k ∷ h) = uploaded h
uploaded (get_object k ∷ h) = uploaded h
uploaded (put_object k b metadata c ∷ h) = uploaded h
uploaded (create_upload k metadata ∷ h) = uploaded h
uploaded (complete_upload k id parts c ∷ h) = uploaded h
uploaded (abort_upload k id ∷ h) = uploaded h

-- The numbers of the parts that were sent, oldest first.
abbrev pub sent_numbers : History → List ℕ
sent_numbers [] = []
sent_numbers (upload_part k id number b ∷ h) = sent_numbers h ++ (number ∷ [])
sent_numbers (head_object k ∷ h) = sent_numbers h
sent_numbers (get_object k ∷ h) = sent_numbers h
sent_numbers (put_object k b metadata c ∷ h) = sent_numbers h
sent_numbers (create_upload k metadata ∷ h) = sent_numbers h
sent_numbers (complete_upload k id parts c ∷ h) = sent_numbers h
sent_numbers (abort_upload k id ∷ h) = sent_numbers h

abbrev pub numbers_of : List CompletedPart → List ℕ
numbers_of [] = []
numbers_of (p ∷ ps) = p.number ∷ numbers_of ps

-- The parts are numbered one by one after `done`.
abbrev pub numbered_after : ℕ → List CompletedPart → Bool
numbered_after done [] = true
numbered_after done (p ∷ ps) = p.number == suc done && numbered_after (suc done) ps

-- A call that succeeded as a whole had two that did.
pub and_then-ok :
    {A B : Type 0} (run : Run A) (next : A → History → Run B) (b : B) (last : History)
    → and_then run next ≡ (ok b, last)
    → (a : A) × (h : History) × (run ≡ (ok a, h)) × (next a h ≡ (ok b, last))
unfolding and_then
and_then-ok (ok a, h) next b last e = (a, h, refl, e)
and_then-ok (err x, h) next b last e = absurd (ground arith)

completed_part-number :
    (n : ℕ) (out : PartOutput) (p : CompletedPart) → completed_part n out ≡ ok p → p.number ≡ n
unfolding completed_part
completed_part-number n out p h =
    let (etag, he, h1) = >>=-eq-ok (required "upload part has no ETag" out.etag) _ h in
    let (sum, hs, h2) =
      >>=-eq-ok (required "upload part has no CRC32 checksum" out.checksum) _ h1 in
    ap (λ x. x.number) (sym (ok_inj _ _ h2))

part_answer-number :
    (n : ℕ) (r : Reply PartOutput) (p : CompletedPart) → part_answer n r ≡ ok p → p.number ≡ n
part_answer-number n (reply out) p h = completed_part-number n out p h
part_answer-number n (failure status) p h = absurd (ground arith)

-- A part and what comes behind it are what was left of the file.
part_rest :
    (n o : ℕ) (sent last before body : Bytes)
    → sent ≡ before ++ take n (drop o body)
    → last ≡ sent ++ drop (o + n) body
    → last ≡ before ++ drop o body
part_rest n o sent last before body hs hl =
    hl
    ∙ ap (λ x. x ++ drop (o + n) body) hs
    ∙ append_assoc before _ _
    ∙ ap (◌++◌ before)
        (ap (◌++◌ (take n (drop o body))) (drop-drop o n body) ∙ take-append-drop n (drop o body))

same_run :
    {A : Type 0} (r r' : Result A) (h h' : History)
    → ◌≡◌ {A = Run A} (r, h) (r', h')
    → (r ≡ r') × (h ≡ h')
same_run r r' h h' e = (ap (λ p. p.0) e, ap (λ p. p.1) e)

count_step :
    (l size offset bytes n : ℕ)
    → offset < bytes
    → n ≡ min size (bytes - offset)
    → l * size + (offset + n) < bytes + size
    → suc l * size + offset < bytes + size
count_step zero size offset bytes n ho hn hc = ground arith
count_step (suc l) size offset bytes n ho hn hc = ground arith

module _ (m : S3Mirror) (key : ArtifactKey) (body : Bytes) (meta : MirrorObject) where
  abbrev part_request : Bytes → ℕ → ℕ → ℕ → Request
  part_request id offset n done =
      upload_part (object_key m key) id (suc done) (take n (drop offset body))

  taken :
      (id : Bytes) (offset n done : ℕ) (h sent : History) (p : CompletedPart)
      → ◌≡◌ {A = Run CompletedPart}
          (
            part_answer (suc done) (m.client.on_part (part_request id offset n done ∷ h)),
            part_request id offset n done ∷ h,
          )
          (ok p, sent)
      → (p.number ≡ suc done)
        × (uploaded sent ≡ uploaded h ++ take n (drop offset body))
        × (sent_numbers sent ≡ sent_numbers h ++ (suc done ∷ []))
  taken id offset n done h sent p e =
      let (hp, hs) = same_run _ _ _ _ e in
      (part_answer-number (suc done) _ p hp, ap uploaded (sym hs), ap sent_numbers (sym hs))

  send_part-ok :
      (id : Bytes) (offset n done : ℕ) (h sent : History) (p : CompletedPart)
      → send_part m key body meta id offset n done h ≡ (ok p, sent)
      → (p.number ≡ suc done)
        × (uploaded sent ≡ uploaded h ++ take n (drop offset body))
        × (sent_numbers sent ≡ sent_numbers h ++ (suc done ∷ []))
  unfolding send_part
  send_part-ok id offset n done h sent p e = elim (Bool-cases (ltb (length (drop offset body)) n)) [
    | inl y ↦ absurd (ground arith)
    | inr y ↦ elim (Bool-cases (leb (2 ^ 31) (suc done))) [
      | inl z ↦ absurd (ground arith)
      | inr z ↦ taken id offset n done h sent p (ground arith)
    ]
  ]

  -- What a run of the loop that succeeds has sent.
  abbrev pub Sends : ℕ → ℕ → ℕ → History → List CompletedPart → History → Type 0
  Sends size offset done h ps last =
      (uploaded last ≡ uploaded h ++ drop offset body)
      × (sent_numbers last ≡ sent_numbers h ++ numbers_of ps)
      × (numbered_after done ps ≡ true)
      × (length ps * size + offset < meta.bytes + size)

  Sends-done :
      (size offset done : ℕ) (h last : History) (ps : List CompletedPart)
      → 0 < size
      → offset ≡ meta.bytes
      → length body ≡ meta.bytes
      → ◌≡◌ {A = Run (List CompletedPart)} (ok [], h) (ok ps, last)
      → Sends size offset done h ps last
  Sends-done size offset done h last ps hz ho hl e =
      let (eps, elast) = same_run _ _ _ _ e in
      let none_left = append-nil (uploaded h) in
      let rest = drop-length offset body (omega arith) in
      let base : Sends size offset done h [] h = (
        sym none_left ∙ ap (◌++◌ (uploaded h)) (sym rest),
        sym (append-nil (sent_numbers h)),
        refl,
        omega arith,
      ) in
      subst (Sends size offset done h ps) elast
        (subst (λ x. Sends size offset done h x h) (ok_inj _ _ eps) base)

  Sends-more :
      (size offset done n : ℕ) (h sent end last : History) (p : CompletedPart)
      (ps qs : List CompletedPart)
      → offset < meta.bytes
      → n ≡ min size (meta.bytes - offset)
      → p.number ≡ suc done
      → uploaded sent ≡ uploaded h ++ take n (drop offset body)
      → sent_numbers sent ≡ sent_numbers h ++ (suc done ∷ [])
      → Sends size (offset + n) (suc done) sent qs end
      → ◌≡◌ {A = Run (List CompletedPart)} (ok (p ∷ qs), end) (ok ps, last)
      → Sends size offset done h ps last
  Sends-more size offset done n h sent end last p ps qs ho hn hp hs hm (hu, hv, hq, hc) e =
      let (eps, elast) = same_run _ _ _ _ e in
      let base : Sends size offset done h (p ∷ qs) end = (
        part_rest n offset (uploaded sent) (uploaded end) (uploaded h) body hs hu,
        hv
            ∙ ap (λ x. x ++ numbers_of qs) hm
            ∙ append_assoc (sent_numbers h) (suc done ∷ []) (numbers_of qs)
            ∙ ap (λ k. sent_numbers h ++ (k ∷ numbers_of qs)) (sym hp),
        rw (hp, hq) (ground arith),
        count_step (length qs) size offset meta.bytes n ho hn hc,
      ) in
      subst (Sends size offset done h ps) elast
        (subst (λ x. Sends size offset done h x end) (ok_inj _ _ eps) base)

  -- The loop sends the file from the offset on, in parts numbered one by one, when the fuel is
  -- enough for the bytes that are left.
  pub send_parts-Sends :
      (fuel : ℕ) (id : Bytes) (size offset done : ℕ) (h last : History) (ps : List CompletedPart)
      → 0 < size
      → offset ≤ meta.bytes
      → meta.bytes ≤ offset + fuel
      → length body ≡ meta.bytes
      → send_parts m key body meta fuel id size offset done h ≡ (ok ps, last)
      → Sends size offset done h ps last
  unfolding send_parts
  send_parts-Sends zero id size offset done h last ps hz ho hf hl e =
      Sends-done size offset done h last ps hz (omega arith) hl e
  send_parts-Sends (suc fuel) id size offset done h last ps hz ho hf hl e =
      elim (Bool-cases (ltb offset meta.bytes)) [
        | inr y ↦ Sends-done size offset done h last ps hz (ground arith) hl (ground arith)
        | inl y ↦
            let n = min size (meta.bytes - offset) in
            let next : CompletedPart → History → Run (List CompletedPart) = λ part sent.
              and_then (send_parts m key body meta fuel id size (offset + n) (suc done) sent)
                λ parts last. (ok (part ∷ parts), last) in
            let (p, sent, hp, h1) =
              and_then-ok (send_part m key body meta id offset n done h) next ps last
                (ground arith) in
            let (qs, end, hq, h2) =
              and_then-ok (send_parts m key body meta fuel id size (offset + n) (suc done) sent)
                (λ parts last. (ok (p ∷ parts), last)) ps last h1 in
            let (hnum, hsent, hmark) = send_part-ok id offset n done h sent p hp in
            Sends-more size offset done n h sent end last p ps qs (ground arith) refl hnum hsent
              hmark
              (send_parts-Sends fuel id size (offset + n) (suc done) sent end qs hz (ground arith)
                (ground arith) hl hq)
              h2
      ]

parts_bound : (l size bytes : ℕ) → l * size < bytes + size → bytes ≤ 10000 * size → l ≤ 10000
parts_bound l size bytes h b = elim (Bool-cases (ltb 10000 l)) [
  | inr y ↦ ground arith
  | inl y ↦
      let k = l - 10001 in
      let e : l ≡ 10001 + k = ground arith in
      let f : l * size ≡ 10001 * size + k * size = ap (λ x. x * size) e ∙ omega arith in
      absurd (omega arith)
]

pub part_size_enough : (bytes : ℕ) → (0 < part_size bytes) × (bytes ≤ 10000 * part_size bytes)
part_size_enough bytes = (ground arith, ground arith)

-- When every part of a multipart upload is accepted, the parts that were sent are, in order, the bytes
-- of the file. The numbers in the requests are those of the completed parts, one after the other from
-- one, and there are at most the 10000 of them that S3 allows.
pub send_parts_whole :
    (m : S3Mirror) (key : ArtifactKey) (body : Bytes) (meta : MirrorObject) (id : Bytes)
    (last : History) (ps : List CompletedPart)
    → length body ≡ meta.bytes
    → send_parts m key body meta meta.bytes id (part_size meta.bytes) 0 0 [] ≡ (ok ps, last)
    → (uploaded last ≡ body)
      × (sent_numbers last ≡ numbers_of ps)
      × (numbered_after 0 ps ≡ true)
      × (length ps ≤ 10000)
send_parts_whole m key body meta id last ps hl e =
    let (hz, hb) = part_size_enough meta.bytes in
    let (hu, hv, hn, hc) =
      send_parts-Sends m key body meta meta.bytes id (part_size meta.bytes) 0 0 [] last ps hz
        (omega arith) (omega arith) hl e in
    (hu, hv, hn, parts_bound (length ps) (part_size meta.bytes) meta.bytes (omega arith) hb)
