-- ===== src/Manifest/Merge.antt =====
-- Lookups in a merged manifest.
use starfield_datastore.Prelude.{
  ◌≡◌, refl, ◌∙◌, Option, none, some, [], ◌∷◌, arith, if◌then◌else◌, eq_bytes, eq_bytes_iff,
}
use starfield_datastore.Key.{ArtifactKey}
use starfield_datastore.Artifact.{Artifact}
use starfield_datastore.Manifest.{Manifest, get, merge_one, merge}

get-merge_one :
    (key : ArtifactKey) (a : Artifact) (m : Manifest)
    → get key (merge_one a m) ≡ (if eq_bytes a.key key then some a else get key m)
unfolding get merge_one
get-merge_one key a [] = refl
get-merge_one key a (b ∷ m) = ground (
  arith,
  eq_bytes_iff a.key key,
  eq_bytes_iff b.key a.key,
  eq_bytes_iff b.key key,
  get-merge_one key a m,
)

-- The last artifact with a key.
abbrev pub or_else : Option Artifact → Option Artifact → Option Artifact
or_else none y = y
or_else (some x) y = some x

pub get_last : ArtifactKey → Manifest → Option Artifact
get_last key [] = none
get_last key (a ∷ m) = or_else (get_last key m) (if eq_bytes a.key key then some a else none)

-- A lookup after a merge finds the last entry of the other manifest with the key, and without one
-- what it found before.
pub get-merge :
    (key : ArtifactKey) (m other : Manifest)
    → get key (merge m other) ≡ or_else (get_last key other) (get key m)
unfolding merge get_last
get-merge key m [] = refl
get-merge key m (a ∷ other) = get-merge key (merge_one a m) other ∙ step (get_last key other)
  where
    step :
        (x : Option Artifact)
        → or_else x (get key (merge_one a m))
          ≡ or_else (or_else x (if eq_bytes a.key key then some a else none)) (get key m)
    step (some y) = refl
    step none = get-merge_one key a m ∙ ground arith
