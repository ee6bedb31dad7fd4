-- ===== src/Common/Int.antt =====
-- Signed integers over the native numbers, and a machine word read as two's complement.
use Prim.Native.Nat.{ℕ, suc, ◌+◌, ◌-◌, ◌*◌, ◌%◌, ◌^◌, ◌≤◌, ◌<◌}
use mathlib.Core.Path.{◌≡◌}
use mathlib.Core.Bool.{Bool, true}
use native.Mathlib.Omega.{arith}
use native.Mathlib.Nat.{mod-eq_of_lt}
use quick_start.Common.Tests.{ltb, if◌then◌else◌}

-- `negsuc n` is -(n + 1).
pub data ℤ : Type 0 where
  pos : ℕ → ℤ
  negsuc : ℕ → ℤ

abbrev pub pos_part : ℤ → ℕ
pos_part (pos n) = n
pos_part (negsuc n) = 0

abbrev pub neg_part : ℤ → ℕ
neg_part (pos n) = 0
neg_part (negsuc n) = suc n

abbrev pub ltb_ℤ : ℤ → ℤ → Bool
ltb_ℤ a b = ltb (pos_part a + neg_part b) (pos_part b + neg_part a)

-- The value of an integer as a bound on a count: 0 for a negative one.
abbrev pub to_ℕ : ℤ → ℕ
to_ℕ = pos_part

pub ltb_ℤ-lt : (n : ℕ) (a : ℤ) → ltb_ℤ (pos n) a ≡ true → n < to_ℕ a
ltb_ℤ-lt n a h = ground arith

infix 50 ◌≤ℤ◌
abbrev pub ◌≤ℤ◌ : ℤ → ℤ → Type 0
a ≤ℤ b = pos_part a + neg_part b ≤ pos_part b + neg_part a

-- The low `w` bits of a word, read as a signed integer of that width.
abbrev pub to_signed : ℕ → ℕ → ℤ
to_signed w n =
    if ltb (2 * (n % 2 ^ w)) (2 ^ w) then pos (n % 2 ^ w) else negsuc (2 ^ w - n % 2 ^ w - 1)

pub to_signed-small : (w n : ℕ) → 2 * n < 2 ^ w → to_signed w n ≡ pos n
to_signed-small w n h = let r : n % 2 ^ w ≡ n = mod-eq_of_lt (omega arith) in rw r (ground arith)
