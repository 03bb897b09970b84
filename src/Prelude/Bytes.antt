-- ===== src/Prelude/Bytes.antt =====
-- Byte strings: std::string as a list of bytes, a byte being the number of an unsigned char.
use Prim.Native.Char.{code}
use Prim.Native.Nat.{ℕ, ◌<◌}
use Prim.Native.String.{String}
use mathlib.Core.Path.{◌≡◌, refl}
use mathlib.Core.Logic.{◌↔◌}
use mathlib.Core.Bool.{Bool, true, false, not, ◌&&◌}
use mathlib.Core.List.{List, [], ◌∷◌, ◌++◌}
use native.Mathlib.Omega.{arith}
use kvnorcom.Prelude.Tests.{◌==◌}

abbrev pub Bytes : Type 0
Bytes = List ℕ

-- The code points of a literal of the source; every one is ASCII.
abbrev pub codes : String → Bytes
codes String.[] = []
codes (String.◌∷◌ c s) = code c ∷ codes s

-- operator== of two std::string.
unfoldable pub equal : Bytes → Bytes → Bool
equal [] [] = true
equal [] (y ∷ ys) = false
equal (x ∷ xs) [] = false
equal (x ∷ xs) (y ∷ ys) = x == y && equal xs ys

pub equal_iff : (a b : Bytes) → (equal a b ≡ true) ↔ (a ≡ b)
unfolding equal
equal_iff [] [] = ground arith
equal_iff [] (y ∷ ys) = ground arith
equal_iff (x ∷ xs) [] = ground arith
equal_iff (x ∷ xs) (y ∷ ys) = ground (arith, equal_iff xs ys)

-- Every element is the value of an unsigned char.
abbrev pub AreBytes : Bytes → Type 0
AreBytes [] = Unit {0}
AreBytes (b ∷ bs) = (b < 256) × AreBytes bs

-- What lies behind the reader after `xs` are read, the latest first.
abbrev pub onto : Bytes → Bytes → Bytes
onto b [] = b
onto b (x ∷ xs) = onto (x ∷ b) xs

-- The last character, or `c` if there is none.
abbrev pub last_or : ℕ → Bytes → ℕ
last_or c [] = c
last_or c (x ∷ xs) = last_or x xs

-- The character does not occur.
abbrev pub lacks : ℕ → Bytes → Bool
lacks c [] = true
lacks c (x ∷ xs) = not (x == c) && lacks c xs

pub onto-append : (b xs ys : Bytes) → onto b (xs ++ ys) ≡ onto (onto b xs) ys
onto-append b [] ys = refl
onto-append b (x ∷ xs) ys = onto-append (x ∷ b) xs ys

pub last_or-append : (c : ℕ) (xs ys : Bytes) → last_or c (xs ++ ys) ≡ last_or (last_or c xs) ys
last_or-append c [] ys = refl
last_or-append c (x ∷ xs) ys = last_or-append x xs ys
