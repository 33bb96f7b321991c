-- ===== src/Key/Shape.antt =====
-- What an accepted key looks like, and that it stays inside the directory that it is joined to.
use starfield_datastore.Prelude.{
  ℕ, zero, suc, ◌+◌, ◌≤◌, ◌≡◌, refl, sym, ap, ◌≢◌, ◌↔◌, ◌⊎◌, true, false, ◌||◌, Option, none, some,
  List, [], ◌∷◌, ◌++◌, arith, if◌then◌else◌, ==_iff, &&_true, length, is_empty, any, all, Bytes,
  codes, eq_bytes, eq_bytes_iff,
}
use starfield_datastore.Error.{ok}
use starfield_datastore.Key.{
  prepend, split_slash, is_ascii_alphanumeric, is_key_mark, bad_part, bad_key, new,
}

-- The parts of a text joined by slashes again.
abbrev join : List Bytes → Bytes
join [] = []
join (p ∷ []) = p
join (p ∷ q ∷ ps) = p ++ (b'/' ∷ join (q ∷ ps))

join-prepend : (c : ℕ) (ps : List Bytes) → join (prepend c ps) ≡ c ∷ join ps
unfolding prepend
join-prepend c [] = refl
join-prepend c (p ∷ []) = refl
join-prepend c (p ∷ q ∷ ps) = refl

split_slash-ne : (s : Bytes) → split_slash s ≢ []
unfolding split_slash
split_slash-ne [] = ground arith
split_slash-ne (c ∷ s) = ground (arith, split_slash-ne s)

join-empty : (ps : List Bytes) → ps ≢ [] → join ([] ∷ ps) ≡ b'/' ∷ join ps
join-empty [] h = absurd (h refl)
join-empty (p ∷ ps) h = refl

pub join-split_slash : (s : Bytes) → join (split_slash s) ≡ s
unfolding split_slash
join-split_slash [] = refl
join-split_slash (c ∷ s) = ground (
  arith,
  join-prepend c (split_slash s),
  join-split_slash s,
  join-empty (split_slash s) (split_slash-ne s),
  ==_iff c b'/',
)

-- A part that names an entry of the directory that it stands in.
pub record IsPart (p : Bytes) : Type 0 where
  pub nonempty : p ≢ []
  pub not_here : p ≢ codes "."
  pub not_up : p ≢ codes ".."
  pub short : length p ≤ 240

abbrev pub AllParts : List Bytes → Type 0
AllParts [] = Unit
AllParts (p ∷ ps) = IsPart p × AllParts ps

-- `a`-`z`, `A`-`Z`, `0`-`9` or one of `-._/`.
abbrev pub IsKeyByte : ℕ → Type 0
IsKeyByte b =
    ((48 ≤ b) × (b ≤ 57))
    ⊎ ((65 ≤ b) × (b ≤ 90))
    ⊎ ((97 ≤ b) × (b ≤ 122))
    ⊎ ((45 ≤ b) × (b ≤ 47))
    ⊎ (b ≡ 95)

abbrev pub AllKeyBytes : Bytes → Type 0
AllKeyBytes [] = Unit
AllKeyBytes (b ∷ s) = IsKeyByte b × AllKeyBytes s

pub record IsSafe (s : Bytes) : Type 0 where
  pub short : length s ≤ 1024
  pub parts : AllParts (split_slash s)
  pub bytes : AllKeyBytes s

bad_part_iff : (p : Bytes) → (bad_part p ≡ false) ↔ IsPart p
unfolding bad_part
bad_part_iff [] = (λ h. ground arith, λ h. absurd (h.nonempty refl))
bad_part_iff (c ∷ p) = (
  λ h. record {
    nonempty = ground arith;
    not_here = ground (arith, eq_bytes_iff (c ∷ p) (codes "."));
    not_up = ground (arith, eq_bytes_iff (c ∷ p) (codes ".."));
    short = ground arith;
  },
  λ h. ground (arith, eq_bytes_iff (c ∷ p) (codes "."), eq_bytes_iff (c ∷ p) (codes "..")),
)

parts_iff : (ps : List Bytes) → (any bad_part ps ≡ false) ↔ AllParts ps
parts_iff [] = (λ h. tt, λ h. refl)
parts_iff (p ∷ ps) = ground (arith, bad_part_iff p, parts_iff ps)

byte_iff : (b : ℕ) → ((is_ascii_alphanumeric b || is_key_mark b) ≡ true) ↔ IsKeyByte b
unfolding is_ascii_alphanumeric is_key_mark
byte_iff b = (λ h. ground arith, λ h. ground arith)

bytes_iff :
    (s : Bytes) → (all (λ b. is_ascii_alphanumeric b || is_key_mark b) s ≡ true) ↔ AllKeyBytes s
bytes_iff [] = (λ h. tt, λ h. refl)
bytes_iff (b ∷ s) = (
  λ h. let (hb, hs) = &&_true _ _ h in ((byte_iff b).0 hb, (bytes_iff s).0 hs),
  λ h. rw ((byte_iff b).1 h.0) ((bytes_iff s).1 h.1),
)

bad_key→IsSafe : (s : Bytes) → bad_key s ≡ false → IsSafe s
unfolding bad_key
bad_key→IsSafe s h = record {
  short = ground arith;
  parts = (parts_iff (split_slash s)).0 (ground arith);
  bytes = (bytes_iff s).0 (ground arith);
}

IsSafe→bad_key : (s : Bytes) → IsSafe s → bad_key s ≡ false
unfolding bad_key split_slash
IsSafe→bad_key [] h = absurd (h.parts.0.nonempty refl)
IsSafe→bad_key (c ∷ s) h =
    rw ((parts_iff (split_slash (c ∷ s))).1 h.parts, (bytes_iff (c ∷ s)).1 h.bytes)
      (ground (arith, h.short))

-- `ArtifactKey::new` accepts a text exactly when it has at most 1024 bytes, each an ASCII letter, a
-- digit or one of `-._/`, and every part between slashes has from 1 to 240 bytes and is neither `.`
-- nor `..`; it then keeps the text as it is.
pub new_iff : (s key : Bytes) → (new s ≡ ok key) ↔ ((key ≡ s) × IsSafe s)
unfolding new
new_iff s key = (
  λ h. (ground arith, bad_key→IsSafe s (ground arith)),
  λ h. rw (IsSafe→bad_key s h.1) (ap ok (sym h.0)),
)

-- Where a relative path leads, by the depth below a directory: `none` is a step above it.
pub descend : List Bytes → ℕ → Option ℕ
descend [] depth = some depth
descend (p ∷ ps) depth =
    if is_empty p || eq_bytes p (codes ".")
    then descend ps depth
    else if eq_bytes p (codes "..")
    then (elim depth [ zero ↦ none | suc d ↦ descend ps d ])
    else descend ps (suc depth)

AllParts-descend :
    (ps : List Bytes) (depth : ℕ) → AllParts ps → descend ps depth ≡ some (depth + length ps)
unfolding descend
AllParts-descend [] depth h = ap some (omega arith)
AllParts-descend ([] ∷ ps) depth h = absurd (h.0.nonempty refl)
AllParts-descend ((c ∷ p) ∷ ps) depth h = ground (
  arith,
  h.0.not_here,
  h.0.not_up,
  eq_bytes_iff (c ∷ p) (codes "."),
  eq_bytes_iff (c ∷ p) (codes ".."),
  AllParts-descend ps (suc depth) h.1,
)

-- The path that an accepted key names lies below the directory that it is joined to: every part
-- goes one level down, and none goes up.
pub new-descend :
    (s key : Bytes) (depth : ℕ)
    → new s ≡ ok key
    → descend (split_slash key) depth ≡ some (depth + length (split_slash key))
new-descend s key depth h =
    let (same, safe) = (new_iff s key).0 h in
    AllParts-descend (split_slash key) depth (rw same safe.parts)
