-- ===== src/Key/Path.antt =====
-- Object paths: what `ArtifactKey::mirror_path` makes of a key and a prefix.
use starfield_datastore.Prelude.{
  ◌≡◌, refl, inl, inr, false, ◌&&◌, [], ◌∷◌, ◌++◌, arith, ◌==◌, ==_iff, Bool-cases, is_empty, Bytes,
}
use starfield_datastore.Error.{ok}
use starfield_datastore.Key.{
  split_slash, new, trim_start_slash, trim_end_slash, trim_slashes, mirror_path,
}
use starfield_datastore.Key.Shape.{IsSafe, new_iff, AllParts}

append-cancel : (p x y : Bytes) → p ++ x ≡ p ++ y → x ≡ y
append-cancel [] x y h = h
append-cancel (c ∷ p) x y h = append-cancel p x y (ground arith)

-- Two keys have one object path under a prefix only if they are the same key.
pub mirror_path-injective :
    (prefix k j : Bytes) → mirror_path k prefix ≡ mirror_path j prefix → k ≡ j
unfolding mirror_path
mirror_path-injective prefix k j h = elim (Bool-cases (is_empty (trim_slashes prefix))) [
  | inl e ↦ rw e at h
  | inr e ↦
      let h' = rw e at h in
      let t = append-cancel (trim_slashes prefix) (b'/' ∷ k) (b'/' ∷ j) h' in ground arith
]

-- The first byte of a text, unless it is empty.
abbrev pub StartsWithSlash : Bytes → Type 0
StartsWithSlash [] = ⊥
StartsWithSlash (c ∷ s) = c ≡ b'/'

trim_start_slash_lem : (s : Bytes) → ¬ StartsWithSlash (trim_start_slash s)
unfolding trim_start_slash
trim_start_slash_lem [] = λ h. h
trim_start_slash_lem (c ∷ s) = elim (Bool-cases (c == b'/')) [
  | inl e ↦ rw e (trim_start_slash_lem s)
  | inr e ↦ rw e (λ h. ground arith)
]

trim_end_slash-first : (s : Bytes) → ¬ StartsWithSlash s → ¬ StartsWithSlash (trim_end_slash s)
unfolding trim_end_slash
trim_end_slash-first [] h = h
trim_end_slash-first (c ∷ s) h = elim (Bool-cases (is_empty (trim_end_slash s) && c == b'/')) [
  | inl e ↦ rw e (λ x. x)
  | inr e ↦ rw e h
]

append-first : (p x : Bytes) → is_empty p ≡ false → ¬ StartsWithSlash p → ¬ StartsWithSlash (p ++ x)
append-first [] x e h = ground arith
append-first (c ∷ p) x e h = h

IsSafe-relative : (s : Bytes) → IsSafe s → ¬ StartsWithSlash s
IsSafe-relative [] safe = λ h. h
IsSafe-relative (c ∷ s) safe = λ h. empty_part h safe.parts
  where
    empty_part : c ≡ b'/' → ¬ AllParts (split_slash (c ∷ s))
    empty_part e = unfold split_slash in rw ((==_iff c b'/').1 e) (λ p. p.0.nonempty refl)

-- The object path of an accepted key is relative, whatever slashes the prefix has at its ends.
pub mirror_path-relative :
    (s key prefix : Bytes) → new s ≡ ok key → ¬ StartsWithSlash (mirror_path key prefix)
unfolding mirror_path trim_slashes
mirror_path-relative s key prefix h =
    elim (Bool-cases (is_empty (trim_end_slash (trim_start_slash prefix)))) [
      | inl e ↦ rw e (let g = (new_iff s key).0 h in rw g.0 (IsSafe-relative s g.1))
      | inr e ↦
          rw e
            (append-first _ (b'/' ∷ key) e (trim_end_slash-first _ (trim_start_slash_lem prefix)))
    ]
