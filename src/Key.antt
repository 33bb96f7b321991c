-- ===== src/Key.antt =====
-- src/artifact.rs: the keys by which artifacts are named, sources, and the artifact itself.
pub mod Shape
pub mod Path
use starfield_datastore.Prelude.{
  Bool, not, ◌&&◌, ◌||◌, List, [], ◌∷◌, ◌++◌, ltb, leb, ◌==◌, if◌then◌else◌, length, is_empty, any,
  all, Bytes, codes, eq_bytes, ℕ,
}
use starfield_datastore.Error.{Result, ok, err, invalid_key}

-- `ArtifactKey(String)`: a key is its text; `new` is the only way to make one.
abbrev pub ArtifactKey : Type 0
ArtifactKey = Bytes

-- A byte put in front of the first part of a split text.
unfoldable pub prepend : ℕ → List Bytes → List Bytes
prepend c [] = (c ∷ []) ∷ []
prepend c (p ∷ ps) = (c ∷ p) ∷ ps

-- `str::split('/')`: never empty, one part more than there are slashes.
unfoldable pub split_slash : Bytes → List Bytes
unfolding prepend
split_slash [] = [] ∷ []
split_slash (c ∷ s) = if c == b'/' then [] ∷ split_slash s else prepend c (split_slash s)

unfoldable pub is_ascii_alphanumeric : ℕ → Bool
is_ascii_alphanumeric b =
    leb b'0' b && leb b b'9' || (leb b'A' b && leb b b'Z' || leb b'a' b && leb b b'z')

-- A byte of `-._/`.
unfoldable pub is_key_mark : ℕ → Bool
is_key_mark b = b == b'-' || (b == b'.' || (b == b'_' || b == b'/'))

-- The parts that `ArtifactKey::new` refuses.
unfoldable pub bad_part : Bytes → Bool
bad_part part =
    is_empty part
    || (eq_bytes part (codes ".") || (eq_bytes part (codes "..") || ltb 240 (length part)))

unfoldable pub bad_key : Bytes → Bool
unfolding bad_part is_key_mark is_ascii_alphanumeric split_slash
bad_key key =
    is_empty key
    || (ltb 1024 (length key)
        || (any bad_part (split_slash key)
            || not (all (λ b. is_ascii_alphanumeric b || is_key_mark b) key)))

-- `ArtifactKey::new`
unfoldable pub new : Bytes → Result ArtifactKey
unfolding bad_key
new key = if bad_key key then err invalid_key else ok key

-- `str::trim_end_matches('/')`
unfoldable pub trim_end_slash : Bytes → Bytes
trim_end_slash [] = []
trim_end_slash (c ∷ s) =
    let rest = trim_end_slash s in if is_empty rest && c == b'/' then [] else c ∷ rest

-- `str::trim_start_matches('/')`
unfoldable pub trim_start_slash : Bytes → Bytes
trim_start_slash [] = []
trim_start_slash (c ∷ s) = if c == b'/' then trim_start_slash s else c ∷ s

-- `str::trim_matches('/')`
unfoldable pub trim_slashes : Bytes → Bytes
unfolding trim_start_slash trim_end_slash
trim_slashes s = trim_end_slash (trim_start_slash s)

-- `ArtifactKey::mirror_path`
unfoldable pub mirror_path : ArtifactKey → Bytes → Bytes
unfolding trim_slashes
mirror_path key prefix =
    let p = trim_slashes prefix in if is_empty p then key else p ++ (b'/' ∷ key)
