-- ===== src/Manifest/Utf8.antt =====
-- `std::str::from_utf8`: which byte strings are texts.
use starfield_datastore.Prelude.{
  ℕ, Bool, true, false, ◌&&◌, [], ◌∷◌, ltb, leb, ◌==◌, if◌then◌else◌, Bytes,
}

abbrev continues : ℕ → Bool
continues b = leb 0x80 b && leb b 0xbf

-- The second byte of a sequence of three, and of four.
abbrev second_of_three : ℕ → ℕ → Bool
second_of_three a b =
    if a == 0xe0
    then leb 0xa0 b && leb b 0xbf
    else if a == 0xed
    then leb 0x80 b && leb b 0x9f
    else leb 0xe1 a && leb a 0xef && continues b

abbrev second_of_four : ℕ → ℕ → Bool
second_of_four a b =
    if a == 0xf0
    then leb 0x90 b && leb b 0xbf
    else if a == 0xf4
    then leb 0x80 b && leb b 0x8f
    else leb 0xf1 a && leb a 0xf3 && continues b

unfoldable pub is_utf8 : Bytes → Bool
is_utf8 [] = true
is_utf8 (a ∷ []) = ltb a 0x80
is_utf8 (a ∷ b ∷ []) =
    let rest = is_utf8 (b ∷ []) in
    if ltb a 0x80 then rest else leb 0xc2 a && leb a 0xdf && continues b
is_utf8 (a ∷ b ∷ c ∷ []) = elim (ltb a 0x80) [
  | true ↦ is_utf8 (b ∷ c ∷ [])
  | false ↦ elim (leb 0xc2 a && leb a 0xdf) [
    | true ↦ continues b && is_utf8 (c ∷ [])
    | false ↦ second_of_three a b && continues c
  ]
]
is_utf8 (a ∷ b ∷ c ∷ d ∷ s) = elim (ltb a 0x80) [
  | true ↦ is_utf8 (b ∷ c ∷ d ∷ s)
  | false ↦ elim (leb 0xc2 a && leb a 0xdf) [
    | true ↦ continues b && is_utf8 (c ∷ d ∷ s)
    | false ↦ elim (leb 0xe0 a && leb a 0xef) [
      | true ↦ second_of_three a b && (continues c && is_utf8 (d ∷ s))
      | false ↦ second_of_four a b && (continues c && (continues d && is_utf8 s))
    ]
  ]
]
