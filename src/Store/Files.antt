-- ===== src/Store/Files.antt =====
-- A directory of files with unique names, as `std::fs` gives it to the store.
use starfield_datastore.Prelude.{
  ◌≡◌, refl, Bool, true, ◌||◌, Option, none, some, List, [], ◌∷◌, arith, if◌then◌else◌, any, Bytes,
  eq_bytes, eq_bytes_iff,
}

abbrev pub Files {ℓ} : Type ℓ → Type ℓ
Files V = List (Bytes × V)

module _ {ℓ} {V : Type ℓ} where
  unfoldable pub read : Bytes → Files V → Option V
  read k [] = none
  read k ((j, v) ∷ m) = if eq_bytes j k then some v else read k m

  unfoldable pub write : Bytes → V → Files V → Files V
  write k v [] = (k, v) ∷ []
  write k v ((j, w) ∷ m) = if eq_bytes j k then (k, v) ∷ m else (j, w) ∷ write k v m

  unfoldable pub delete : Bytes → Files V → Files V
  delete k [] = []
  delete k ((j, w) ∷ m) = let rest = delete k m in if eq_bytes j k then rest else (j, w) ∷ rest

  unfoldable pub names : Files V → List Bytes
  names [] = []
  names ((j, w) ∷ m) = j ∷ names m

  pub read-write :
      (k j : Bytes) (v : V) (m : Files V)
      → read j (write k v m) ≡ (if eq_bytes k j then some v else read j m)
  unfolding read write
  read-write k j v [] = refl
  read-write k j v ((i, w) ∷ m) =
      ground (arith, eq_bytes_iff k j, eq_bytes_iff i k, eq_bytes_iff i j, read-write k j v m)

  pub read-delete :
      (k j : Bytes) (m : Files V) → read j (delete k m) ≡ (if eq_bytes k j then none else read j m)
  unfolding read delete
  read-delete k j [] = ground arith
  read-delete k j ((i, w) ∷ m) =
      ground (arith, eq_bytes_iff k j, eq_bytes_iff i k, eq_bytes_iff i j, read-delete k j m)

pub ruleset file_laws = (read-write, read-delete)

-- Insertion sort; `sort_by_key` and `sort` of the standard library are stable.
module _ {ℓ} {A : Type ℓ} (le : A → A → Bool) where
  unfoldable pub insert_sorted : A → List A → List A
  insert_sorted x [] = x ∷ []
  insert_sorted x (y ∷ ys) = if le x y then x ∷ y ∷ ys else y ∷ insert_sorted x ys

  unfoldable pub sort_by : List A → List A
  unfolding insert_sorted
  sort_by [] = []
  sort_by (x ∷ xs) = insert_sorted x (sort_by xs)

  any-insert_sorted :
      (p : A → Bool) (x : A) (ys : List A) → any p (insert_sorted x ys) ≡ (p x || any p ys)
  unfolding insert_sorted
  any-insert_sorted p x [] = refl
  any-insert_sorted p x (y ∷ ys) = ground (arith, any-insert_sorted p x ys)

  -- Sorting keeps what a list holds.
  pub any-sort_by : (p : A → Bool) (xs : List A) → any p (sort_by xs) ≡ any p xs
  unfolding sort_by
  any-sort_by p [] = refl
  any-sort_by p (x ∷ xs) = ground (arith, any-insert_sorted p x (sort_by xs), any-sort_by p xs)

-- A name that can be read is listed.
pub read→listed {ℓ} :
    {V : Type ℓ} (k : Bytes) (m : Files V) (v : V)
    → read k m ≡ some v
    → any (λ j. eq_bytes j k) (names m) ≡ true
unfolding read names
read→listed k [] v h = ground arith
read→listed k ((j, w) ∷ m) v h = ground (arith, read→listed k m v)
