-- ===== src/Common/Bytes.antt =====
-- Byte strings as lists of numbers: `strcmp` as a test, and the six bytes of a hardware address.
use Prim.Native.Nat.{ℕ}
use Prim.Native.Char.{code}
use Prim.Native.String.{String}
use mathlib.Core.Path.{◌≡◌, refl}
use mathlib.Core.Bool.{Bool, true, false, ◌&&◌}
use mathlib.Core.List.{List, [], ◌∷◌, ◌++◌}
use mathlib.Core.Logic.{◌≢◌}
use native.Mathlib.Omega.{arith}
use quick_start.Common.Tests.{◌==◌, if◌then◌else◌}

-- The bytes of an ASCII literal, without the final NUL.
abbrev pub codes : String → List ℕ
codes String.[] = []
codes (String.◌∷◌ c s) = code c ∷ codes s

-- `strcmp(s, t) == 0`, over strings without their NUL.
unfoldable pub str_eq : List ℕ → List ℕ → Bool
str_eq [] [] = true
str_eq [] (y ∷ ys) = false
str_eq (x ∷ xs) [] = false
str_eq (x ∷ xs) (y ∷ ys) = x == y && str_eq xs ys

pub str_eq_self : (xs : List ℕ) → str_eq xs xs ≡ true
unfolding str_eq
str_eq_self [] = refl
str_eq_self (x ∷ xs) = ground (arith, str_eq_self xs)

pub eq_of_str_eq : (xs ys : List ℕ) → str_eq xs ys ≡ true → xs ≡ ys
unfolding str_eq
eq_of_str_eq [] [] h = refl
eq_of_str_eq [] (y ∷ ys) h = cc
eq_of_str_eq (x ∷ xs) [] h = cc
eq_of_str_eq (x ∷ xs) (y ∷ ys) h = ground (arith, eq_of_str_eq xs ys)

-- The bytes before the first NUL.
unfoldable pub c_string : List ℕ → List ℕ
c_string [] = []
c_string (c ∷ s) = if c == 0 then [] else c ∷ c_string s

-- No byte is NUL.
abbrev pub HasNoNul : List ℕ → Type 0
HasNoNul [] = Unit {0}
HasNoNul (c ∷ s) = (c ≢ 0) × HasNoNul s

pub c_string-nul : (s t : List ℕ) → HasNoNul s → c_string (s ++ 0 ∷ t) ≡ s
unfolding c_string
c_string-nul [] t h = refl
c_string-nul (c ∷ s) t h = ground (arith, c_string-nul s t h.1)

-- `unsigned char mac[ETH_ALEN]`
pub record Mac : Type 0 where
  pub b0 : ℕ
  pub b1 : ℕ
  pub b2 : ℕ
  pub b3 : ℕ
  pub b4 : ℕ
  pub b5 : ℕ

-- `memcmp(a, b, ETH_ALEN) == 0`
unfoldable pub mac_eq : Mac → Mac → Bool
mac_eq a c =
    a.b0 == c.b0
    && (a.b1 == c.b1 && (a.b2 == c.b2 && (a.b3 == c.b3 && (a.b4 == c.b4 && a.b5 == c.b5))))

pub eq_of_mac_eq : (a c : Mac) → mac_eq a c ≡ true → a ≡ c
unfolding mac_eq
eq_of_mac_eq a c h = ground arith

pub mac_eq_self : (a : Mac) → mac_eq a a ≡ true
unfolding mac_eq
mac_eq_self a = ground arith
