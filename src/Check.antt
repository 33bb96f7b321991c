-- ===== src/Check.antt =====
-- src/check.rs: content checks, on a whole body (`check_file`, `check_reader`) and on the first bytes
-- of one (`check_prefix`). A reader is the body that it reads; reading a body that is there does not
-- fail. SHA-256 is a parameter, since the sha2 crate computes it.
pub mod Html
pub mod Prefix
pub mod Pins
use starfield_datastore.Prelude.{
  ℕ, ◌-◌, String, Bool, not, ◌||◌, Option, none, some, List, [], ◌∷◌, ◌++◌, ltb, ◌==◌,
  if◌then◌else◌, length, take, is_empty, any, Bytes, eq_bytes, starts_with,
}
use starfield_datastore.Error.{CheckFailure}
use Html.{is_html}

mutual
  pub data ContentCheck : Type 0 where
    sha256_is : Bytes → ContentCheck
    magic : List Bytes → Bool → ContentCheck
    min_bytes : ℕ → ContentCheck
    not_html : ContentCheck
    custom : (Bytes → Option Bytes) → ContentCheck
    all_of : Checks → ContentCheck
    no_check : ContentCheck

  -- The `Vec<ContentCheck>` of `All`.
  pub data Checks : Type 0 where
    nil : Checks
    cons : ContentCheck → Checks → Checks

-- `Result<(), CheckFailure>`
pub data Verdict : Type 0 where
  pass : Verdict
  fail : CheckFailure → Verdict

abbrev pub refuse : String → Verdict
refuse name = fail (record { check = name })

-- The `?` operator between two checks.
abbrev pub and_then : Verdict → Verdict → Verdict
and_then pass v = v
and_then (fail f) v = fail f

-- `ContentCheck::default_binary`
abbrev pub default_binary : ContentCheck
default_binary = all_of (cons not_html (cons (min_bytes 1024) nil))

-- `u8::is_ascii_whitespace`
unfoldable pub is_ascii_whitespace : ℕ → Bool
is_ascii_whitespace b = b == 32 || (b == 9 || (b == 10 || (b == 12 || b == 13)))

-- The loop of the magic check that reads one byte at a time: the first byte that counts, if there
-- is one, and what follows it.
unfoldable pub scan_first : Bool → Bytes → Bytes × Bytes
scan_first trim [] = ([], [])
scan_first trim (b ∷ rest) =
    if not trim || not (is_ascii_whitespace b) then (b ∷ [], rest) else scan_first trim rest

unfoldable pub longest : List Bytes → ℕ
longest [] = 0
longest (p ∷ ps) = if ltb (length p) (longest ps) then longest ps else length p

-- The bytes that the magic check compares.
unfoldable pub magic_head : List Bytes → Bool → Bytes → Bytes
magic_head prefixes trim body =
    let (head, rest) = scan_first trim body in head ++ take (longest prefixes - length head) rest

unfoldable pub check_magic : List Bytes → Bool → Bytes → Verdict
check_magic prefixes trim body =
    if is_empty prefixes || any is_empty prefixes
    then refuse "Magic"
    else if any (starts_with (magic_head prefixes trim body)) prefixes
    then pass
    else refuse "Magic"

unfoldable pub check_html : Bytes → Verdict
check_html body = if is_html (take 8192 body) then refuse "NotHtml" else pass

abbrev pub check_custom : Option Bytes → Verdict
check_custom none = pass
check_custom (some got) = refuse "Custom"

-- `<[u8]>::trim_ascii_start`
unfoldable pub trim_ascii_start : Bytes → Bytes
trim_ascii_start [] = []
trim_ascii_start (b ∷ s) = if is_ascii_whitespace b then trim_ascii_start s else b ∷ s

unfoldable pub prefix_magic : List Bytes → Bool → Bytes → Verdict
prefix_magic prefixes trim body =
    let head = if trim then trim_ascii_start body else body in
    if any (λ p. starts_with head p || starts_with p head) prefixes then pass else refuse "Magic"

unfoldable mutual
  -- `ContentCheck::check_prefix`
  pub check_prefix : ContentCheck → Bytes → Verdict
  check_prefix not_html head = check_html head
  check_prefix (magic prefixes trim) head = prefix_magic prefixes trim head
  check_prefix (all_of checks) head = check_prefix_all checks head
  check_prefix (sha256_is pin) head = pass
  check_prefix (min_bytes n) head = pass
  check_prefix (custom f) head = pass
  check_prefix no_check head = pass

  pub check_prefix_all : Checks → Bytes → Verdict
  check_prefix_all nil head = pass
  check_prefix_all (cons c cs) head = and_then (check_prefix c head) (check_prefix_all cs head)

module _ (sha256 : Bytes → Bytes) where
  unfoldable mutual
    -- `ContentCheck::check_reader`, which `check` and `check_file` call
    pub check_body : ContentCheck → Bytes → Verdict
    check_body no_check body = pass
    check_body (all_of checks) body = check_body_all checks body
    check_body (min_bytes min) body = if ltb (length body) min then refuse "MinBytes" else pass
    check_body (sha256_is expected) body =
        if eq_bytes (sha256 body) expected then pass else refuse "Sha256"
    check_body (magic prefixes trim) body = check_magic prefixes trim body
    check_body not_html body = check_html body
    check_body (custom f) body = check_custom (f body)

    pub check_body_all : Checks → Bytes → Verdict
    check_body_all nil body = pass
    check_body_all (cons c cs) body = and_then (check_body c body) (check_body_all cs body)

unfoldable mutual
  -- `pinned_sha256s` of store/mod.rs
  pub pinned_sha256s : ContentCheck → List Bytes
  pinned_sha256s (sha256_is digest) = digest ∷ []
  pinned_sha256s (all_of checks) = pinned_all checks
  pinned_sha256s (magic prefixes trim) = []
  pinned_sha256s (min_bytes n) = []
  pinned_sha256s not_html = []
  pinned_sha256s (custom f) = []
  pinned_sha256s no_check = []

  pub pinned_all : Checks → List Bytes
  pinned_all nil = []
  pinned_all (cons c cs) = pinned_sha256s c ++ pinned_all cs

unfoldable mutual
  -- `without_sha256` of store/mod.rs
  pub without_sha256 : ContentCheck → ContentCheck
  without_sha256 (sha256_is digest) = no_check
  without_sha256 (all_of checks) = all_of (without_all checks)
  without_sha256 (magic prefixes trim) = magic prefixes trim
  without_sha256 (min_bytes n) = min_bytes n
  without_sha256 not_html = not_html
  without_sha256 (custom f) = custom f
  without_sha256 no_check = no_check

  pub without_all : Checks → Checks
  without_all nil = nil
  without_all (cons c cs) = cons (without_sha256 c) (without_all cs)
