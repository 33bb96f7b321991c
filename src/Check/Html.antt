-- ===== src/Check/Html.antt =====
-- The `NotHtml` arm of `check_reader` in src/check.rs, byte by byte. The source decodes the head
-- with `from_utf8_lossy`, which keeps every ASCII byte and puts non-ASCII marks for what is no
-- UTF-8: the tests here, all for ASCII texts, read the bytes themselves, and the trims know the
-- encodings of the marks and spaces that `str` trims.
use starfield_datastore.Prelude.{
  ℕ, ◌+◌, ◌≡◌, refl, sym, ap, ◌∙◌, Bool, true, false, ◌&&◌, ◌||◌, false≢true, [], ◌∷◌, ◌++◌, map,
  arith, leb, ◌==◌, if◌then◌else◌, Bytes, codes, starts_with, contains, starts_with-append,
  contains-append,
}

-- `to_ascii_lowercase`
unfoldable pub to_ascii_lowercase : ℕ → ℕ
to_ascii_lowercase b = if leb b'A' b && leb b b'Z' then b + 32 else b

-- `trim_start_matches('\u{feff}')`: U+FEFF is the bytes EF BB BF.
unfoldable pub trim_bom : Bytes → Bytes
trim_bom (a ∷ b ∷ c ∷ s) =
    if a == 0xef && (b == 0xbb && c == 0xbf) then trim_bom s else a ∷ b ∷ c ∷ s
trim_bom s = s

-- White space of one, two and three bytes.
unfoldable pub is_space : ℕ → Bool
is_space a = leb 9 a && leb a 13 || a == 32

unfoldable pub is_space2 : ℕ → ℕ → Bool
is_space2 a b = a == 0xc2 && (b == 0x85 || b == 0xa0)

unfoldable pub is_space3 : ℕ → ℕ → ℕ → Bool
is_space3 a b c =
    a == 0xe1 && (b == 0x9a && c == 0x80)
    || (a == 0xe2
          && (b == 0x80 && (leb 0x80 c && leb c 0x8a || (c == 0xa8 || (c == 0xa9 || c == 0xaf)))
              || b == 0x81 && c == 0x9f)
        || a == 0xe3 && (b == 0x80 && c == 0x80))

-- `str::trim_start`
unfoldable pub trim_start : Bytes → Bytes
trim_start [] = []
trim_start (a ∷ []) = if is_space a then [] else a ∷ []
trim_start (a ∷ b ∷ []) =
    let rest = trim_start (b ∷ []) in
    if is_space a then rest else if is_space2 a b then [] else a ∷ b ∷ []
trim_start (a ∷ b ∷ c ∷ s) = elim (is_space a) [
  | true ↦ trim_start (b ∷ c ∷ s)
  | false ↦ elim (is_space2 a b) [
    | true ↦ trim_start (c ∷ s)
    | false ↦ elim (is_space3 a b c) [ true ↦ trim_start s | false ↦ a ∷ b ∷ c ∷ s ]
  ]
]

unfoldable pub looks_html : Bytes → Bool
looks_html head =
    starts_with head (codes "<!doctype html")
    || (starts_with head (codes "<html")
        || (starts_with head (codes "<head")
            || (starts_with head (codes "<body")
                || (contains head (codes "<form") || contains head (codes "<html")))))

unfoldable pub is_html : Bytes → Bool
is_html head = looks_html (trim_start (trim_bom (map to_ascii_lowercase head)))

-- What looks like HTML still does with more behind it.
looks_html-append : (s t : Bytes) → looks_html s ≡ true → looks_html (s ++ t) ≡ true
unfolding looks_html
looks_html-append s t h = ground (
  arith,
  starts_with-append s t (codes "<!doctype html"),
  starts_with-append s t (codes "<html"),
  starts_with-append s t (codes "<head"),
  starts_with-append s t (codes "<body"),
  contains-append s t (codes "<form"),
  contains-append s t (codes "<html"),
)

-- Fewer than three bytes are no HTML.
short_text :
    (a b : ℕ)
    → (looks_html [] ≡ false) × (looks_html (a ∷ []) ≡ false) × (looks_html (a ∷ b ∷ []) ≡ false)
unfolding looks_html starts_with contains
short_text a b = ground arith

short_trim :
    (a b : ℕ)
    → (looks_html (trim_start (a ∷ [])) ≡ false) × (looks_html (trim_start (a ∷ b ∷ [])) ≡ false)
unfolding trim_start
short_trim a b = ground (arith, short_text a b, short_text b b)

trim_start-append :
    (s t : Bytes) → looks_html (trim_start s) ≡ true → trim_start (s ++ t) ≡ trim_start s ++ t
unfolding trim_start
trim_start-append [] t h = absurd (false≢true (sym (short_text 0 0).0 ∙ h))
trim_start-append (a ∷ []) t h = absurd (false≢true (sym (short_trim a a).0 ∙ h))
trim_start-append (a ∷ b ∷ []) t h = absurd (false≢true (sym (short_trim a b).1 ∙ h))
trim_start-append (a ∷ b ∷ c ∷ s) t h =
    ground
      (arith, trim_start-append (b ∷ c ∷ s) t, trim_start-append (c ∷ s) t, trim_start-append s t)

trim_bom-append :
    (s t : Bytes)
    → looks_html (trim_start (trim_bom s)) ≡ true
    → trim_bom (s ++ t) ≡ trim_bom s ++ t
unfolding trim_bom
trim_bom-append (a ∷ b ∷ c ∷ s) t h = ground (arith, trim_bom-append s t)
trim_bom-append [] t h = absurd (false≢true (sym (short_text 0 0).0 ∙ unfold trim_start in h))
trim_bom-append (a ∷ []) t h = absurd (false≢true (sym (short_trim a a).0 ∙ h))
trim_bom-append (a ∷ b ∷ []) t h = absurd (false≢true (sym (short_trim a b).1 ∙ h))

lower-append :
    (s t : Bytes)
    → map to_ascii_lowercase (s ++ t) ≡ map to_ascii_lowercase s ++ map to_ascii_lowercase t
lower-append [] t = refl
lower-append (a ∷ s) t = ap (◌∷◌ (to_ascii_lowercase a)) (lower-append s t)

-- A text whose beginning is HTML is HTML.
pub is_html-append : (s t : Bytes) → is_html s ≡ true → is_html (s ++ t) ≡ true
unfolding is_html
is_html-append s t h =
    let low = map to_ascii_lowercase s in
    let more = map to_ascii_lowercase t in
    rw (lower-append s t, trim_bom-append low more h, trim_start-append (trim_bom low) more h)
      (looks_html-append (trim_start (trim_bom low)) more h)
