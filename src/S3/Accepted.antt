-- ===== src/S3/Accepted.antt =====
-- The loop of a multipart upload (src/s3.rs `multipart`) at a server that accepts every part.
use starfield_datastore.Prelude.{
  length-drop, ℕ, zero, suc, ◌+◌, ◌-◌, ◌*◌, ◌^◌, ◌≤◌, ◌<◌, ◌≡◌, refl, ap, ◌∙◌, ◌⊎◌, inl, inr, true,
  false, List, [], ◌∷◌, arith, ltb, leb, ltb→lt, Bool-cases, length, take, drop, Bytes,
}
use starfield_datastore.Error.{ok}
use starfield_datastore.Key.{ArtifactKey}
use starfield_datastore.Server.Service.{MirrorObject}
use starfield_datastore.S3.{CompletedPart, upload_part, History, S3Mirror, object_key}
use starfield_datastore.S3.Upload.{and_then, min, part_size, part_answer, send_part, send_parts}
use starfield_datastore.S3.Parts.{
  uploaded, sent_numbers, numbers_of, numbered_after, part_size_enough, send_parts_whole,
}

-- Every part is answered with an ETag and a checksum.
abbrev pub Accepts : S3Mirror → Type 0
Accepts m =
    (number : ℕ) (h : History)
    → (p : CompletedPart) × (part_answer number (m.client.on_part h) ≡ ok p)

few_parts :
    (n size offset bytes : ℕ)
    → n * size ≤ offset
    → offset < bytes
    → bytes ≤ 10000 * size
    → n < 10000
few_parts n size offset bytes h ho hb = elim (Bool-cases (ltb n 10000)) [
  | inl y ↦ ltb→lt n 10000 y
  | inr y ↦
      let k = n - 10000 in
      let e : n ≡ 10000 + k = ground arith in
      let f : n * size ≡ 10000 * size + k * size = ap (λ x. x * size) e ∙ omega arith in
      absurd (omega arith)
]

-- The parts so far are full, or the file is at its end.
abbrev Reached : ℕ → ℕ → ℕ → ℕ → Type 0
Reached done size offset bytes = (done * size ≤ offset) ⊎ (bytes ≤ offset)

Reached-step :
    (done size offset bytes n : ℕ)
    → n ≡ min size (bytes - offset)
    → offset < bytes
    → Reached done size offset bytes
    → Reached (suc done) size (offset + n) bytes
Reached-step done size offset bytes n e h (inr end) = absurd (omega arith)
Reached-step done size offset bytes n e h (inl full) =
    elim (Bool-cases (ltb (bytes - offset) size)) [
      | inl y ↦ inr (ground arith)
      | inr y ↦ let f : suc done * size ≡ done * size + size = omega arith in inl (ground arith)
    ]

module _ (m : S3Mirror) (key : ArtifactKey) (body : Bytes) (meta : MirrorObject) where
  send_part_accepted :
      (id : Bytes) (offset n done : ℕ) (h : History)
      → Accepts m
      → n ≤ length (drop offset body)
      → suc done < 2 ^ 31
      → (p : CompletedPart) × (sent : History) × (send_part m key body meta id offset n done h
          ≡ (ok p, sent))
  unfolding send_part
  send_part_accepted id offset n done h accepts room few =
      let sent = upload_part (object_key m key) id (suc done) (take n (drop offset body)) ∷ h in
      let (p, hp) = accepts (suc done) sent in
      let fits : ltb (length (drop offset body)) n ≡ false = ground arith in
      let counts : leb (2 ^ 31) (suc done) ≡ false = ground arith in
      (p, sent, rw (fits, counts, hp) refl)

  send_parts-Accepts :
      (fuel : ℕ) (id : Bytes) (size offset done : ℕ) (h : History)
      → Accepts m
      → length body ≡ meta.bytes
      → meta.bytes ≤ 10000 * size
      → Reached done size offset meta.bytes
      → (ps : List CompletedPart) × (last : History) × (send_parts m key body meta fuel id size
            offset done h
          ≡ (ok ps, last))
  unfolding send_parts and_then
  send_parts-Accepts zero id size offset done h accepts hl hb hr = ([], h, refl)
  send_parts-Accepts (suc fuel) id size offset done h accepts hl hb hr =
      elim (Bool-cases (ltb offset meta.bytes)) [
        | inr y ↦ ([], h, rw y refl)
        | inl y ↦
            let n = min size (meta.bytes - offset) in
            let before = ltb→lt offset meta.bytes y in
            let few : done < 10000 = elim hr [
              | inl full ↦ few_parts done size offset meta.bytes full before hb
              | inr end ↦ absurd (omega arith)
            ] in
            let (p, sent, hp) =
              send_part_accepted id offset n done h accepts
                (ground (arith, length-drop offset body)) (omega arith) in
            let (qs, last, hq) =
              send_parts-Accepts fuel id size (offset + n) (suc done) sent accepts hl hb
                (Reached-step done size offset meta.bytes n refl before hr) in
            (p ∷ qs, last, rw (y, hp, hq) refl)
      ]

-- When the server accepts every part, the loop ends and has sent the whole file, in requests that are
-- numbered one after the other from one, as the completed parts are, at most 10000 of them: neither the number of parts nor the reading of the file
-- makes it fail.
pub send_parts_accepted :
    (m : S3Mirror) (key : ArtifactKey) (body : Bytes) (meta : MirrorObject) (id : Bytes)
    → Accepts m
    → length body ≡ meta.bytes
    → (ps : List CompletedPart) × (last : History) × (send_parts m key body meta meta.bytes id
          (part_size meta.bytes)
          0
          0
          []
        ≡ (ok ps, last))
      × (uploaded last ≡ body)
      × (sent_numbers last ≡ numbers_of ps)
      × (numbered_after 0 ps ≡ true)
      × (length ps ≤ 10000)
send_parts_accepted m key body meta id accepts hl =
    let (ps, last, e) =
      send_parts-Accepts m key body meta meta.bytes id (part_size meta.bytes) 0 0 [] accepts hl
        (part_size_enough meta.bytes).1 (inl (omega arith)) in
    let (hu, hv, hn, hc) = send_parts_whole m key body meta id last ps hl e in
    (ps, last, e, hu, hv, hn, hc)
