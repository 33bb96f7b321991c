-- ===== src/Prelude/Text.antt =====
-- Texts and bodies as lists of bytes: equality, order, and prefixes.
use Prim.Native.Nat.{ℕ}
use Prim.Native.Char.{code}
use Prim.Native.String.{String}
use mathlib.Core.Path.{◌≡◌, refl}
use mathlib.Core.Logic.{◌↔◌}
use mathlib.Core.Bool.{Bool, true, false, ◌&&◌, ◌||◌}
use mathlib.Core.List.{List, [], ◌∷◌, ◌++◌}
use native.Mathlib.Omega.{arith}
use starfield_datastore.Prelude.Tests.{ltb, ◌==◌, ==_iff}

abbrev pub Bytes : Type 0
Bytes = List ℕ

-- The bytes of an ASCII literal.
abbrev pub codes : String → Bytes
codes String.[] = []
codes (String.◌∷◌ c s) = code c ∷ codes s

unfoldable pub eq_bytes : Bytes → Bytes → Bool
eq_bytes [] [] = true
eq_bytes (a ∷ x) (b ∷ y) = a == b && eq_bytes x y
eq_bytes _ _ = false

pub eq_bytes_iff : (x y : Bytes) → (eq_bytes x y ≡ true) ↔ (x ≡ y)
unfolding eq_bytes
eq_bytes_iff [] [] = ground arith
eq_bytes_iff (a ∷ x) (b ∷ y) = ground (arith, eq_bytes_iff x y, ==_iff a b)
eq_bytes_iff [] (b ∷ y) = ground arith
eq_bytes_iff (a ∷ x) [] = ground arith

pub eq_bytes_refl : (x : Bytes) → eq_bytes x x ≡ true
eq_bytes_refl x = (eq_bytes_iff x x).1 refl

pub eq_bytes_comm : (x y : Bytes) → eq_bytes x y ≡ eq_bytes y x
eq_bytes_comm x y = ground (arith, eq_bytes_iff x y, eq_bytes_iff y x)

-- The order of `str`: byte by byte, a proper prefix first.
unfoldable pub leb_bytes : Bytes → Bytes → Bool
leb_bytes [] y = true
leb_bytes (a ∷ x) [] = false
leb_bytes (a ∷ x) (b ∷ y) = ltb a b || a == b && leb_bytes x y

unfoldable pub starts_with : Bytes → Bytes → Bool
starts_with xs [] = true
starts_with [] (p ∷ ps) = false
starts_with (x ∷ xs) (p ∷ ps) = x == p && starts_with xs ps

unfoldable pub contains : Bytes → Bytes → Bool
unfolding starts_with
contains [] needle = starts_with [] needle
contains (x ∷ xs) needle = starts_with (x ∷ xs) needle || contains xs needle

-- A text that starts with `p` still does with more behind it.
pub starts_with-append :
    (xs ys p : Bytes) → starts_with xs p ≡ true → starts_with (xs ++ ys) p ≡ true
unfolding starts_with
starts_with-append xs ys [] h = refl
starts_with-append [] ys (p ∷ ps) h = ground arith
starts_with-append (x ∷ xs) ys (p ∷ ps) h = ground (arith, starts_with-append xs ys ps)

pub contains-append : (xs ys p : Bytes) → contains xs p ≡ true → contains (xs ++ ys) p ≡ true
unfolding contains starts_with
contains-append [] [] p h = h
contains-append [] (y ∷ ys) [] h = refl
contains-append [] (y ∷ ys) (p ∷ ps) h = ground arith
contains-append (x ∷ xs) ys p h =
    ground (arith, contains-append xs ys p, starts_with-append (x ∷ xs) ys p)
