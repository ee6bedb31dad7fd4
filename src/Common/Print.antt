-- ===== src/Common/Print.antt =====
-- Numbers as text: `%u`, `%d` and the digits of `%x`.
use Prim.Native.Nat.{ℕ, zero, suc, ◌+◌, ◌-◌, ◌*◌, ◌/◌, ◌%◌, ◌^◌, ◌≤◌, ◌<◌}
use mathlib.Core.Path.{◌≡◌, refl, sym, ap, ◌∙◌}
use mathlib.Core.Logic.{inl, inr}
use mathlib.Core.Bool.{Bool, true, ◌&&◌}
use mathlib.Core.List.{List, [], ◌∷◌, ◌++◌, append_assoc}
use native.Mathlib.Omega.{arith}
use quick_start.Common.Tests.{ltb, leb, if◌then◌else◌, Bool-cases}
use quick_start.Common.Lists.{length, length-append}
use quick_start.Common.Int.{ℤ, pos, negsuc}

-- The digit of a number below 16.
unfoldable pub hex_digit : ℕ → ℕ
hex_digit n = if ltb n 10 then b'0' + n else b'a' + n - 10

-- At most `f` decimal digits, which are enough for a number below 10 ^ f.
unfoldable pub digits : ℕ → ℕ → List ℕ
digits zero n = []
digits (suc f) n =
    let high = digits f (n / 10) in
    if ltb n 10 then (b'0' + n) ∷ [] else high ++ (b'0' + n % 10) ∷ []

-- `%u`, for a number of at most 64 bits.
unfoldable pub decimal : ℕ → List ℕ
decimal n = digits 20 n

-- `%d`
unfoldable pub signed_decimal : ℤ → List ℕ
signed_decimal (pos n) = decimal n
signed_decimal (negsuc n) = b'-' ∷ decimal (suc n)

-- Whether every byte is a digit.
abbrev pub all_digits : List ℕ → Bool
all_digits [] = true
all_digits (c ∷ s) = (leb b'0' c && leb c b'9') && all_digits s

all_digits-append :
    (s t : List ℕ) → all_digits s ≡ true → all_digits t ≡ true → all_digits (s ++ t) ≡ true
all_digits-append [] t h k = k
all_digits-append (c ∷ s) t h k = ground (arith, all_digits-append s t (ground arith) k)

last_digit : (n : ℕ) → all_digits ((b'0' + n % 10) ∷ []) ≡ true
last_digit n = ground arith

digits-all_digits : (f n : ℕ) → all_digits (digits f n) ≡ true
unfolding digits
digits-all_digits zero n = refl
digits-all_digits (suc f) n = elim (Bool-cases (ltb n 10)) [
  | inl h ↦ rw h (ground arith)
  | inr h ↦
      rw h (all_digits-append (digits f (n / 10)) _ (digits-all_digits f (n / 10)) (last_digit n))
]

length-digits : (f n : ℕ) → length (digits f n) ≤ f
unfolding digits
length-digits zero n = omega arith
length-digits (suc f) n = elim (Bool-cases (ltb n 10)) [
  | inl h ↦ rw h (omega arith)
  | inr h ↦ rw h (
      omega
        (arith, length-digits f (n / 10), length-append (digits f (n / 10)) ((b'0' + n % 10) ∷ [])))
]

-- The number of a text that begins with digits.
abbrev pub digit_value : ℕ → List ℕ → ℕ
digit_value n [] = n
digit_value n (c ∷ s) =
    let more = digit_value (n * 10 + (c - b'0')) s in if leb b'0' c && leb c b'9' then more else n

digit_value-digit :
    (n d : ℕ) (s : List ℕ) → d < 10 → digit_value n ((b'0' + d) ∷ s) ≡ digit_value (n * 10 + d) s
digit_value-digit n d s h =
    let e : n * 10 + (b'0' + d - b'0') ≡ n * 10 + d = omega arith in rw e (ground arith)

digit_value-digits :
    (f n : ℕ) (s : List ℕ) → n < 10 ^ f → digit_value 0 (digits f n ++ s) ≡ digit_value n s
unfolding digits
digit_value-digits zero zero s h = refl
digit_value-digits zero (suc n) s h = absurd (omega arith)
digit_value-digits (suc f) n s h = elim (Bool-cases (ltb n 10)) [
  | inl l ↦ rw l (digit_value-digit 0 n s (ground arith) ∙ ap (λ m. digit_value m s) (omega arith))
  | inr l ↦ rw l (
      ap (digit_value 0) (append_assoc (digits f (n / 10)) ((b'0' + n % 10) ∷ []) s)
      ∙ digit_value-digits f (n / 10) ((b'0' + n % 10) ∷ s) (omega (arith, h))
      ∙ digit_value-digit (n / 10) (n % 10) s (omega arith)
      ∙ ap (λ m. digit_value m s) (omega arith))
]

-- A number has a first digit.
digits-cons : (f n : ℕ) → (c : ℕ) × (w : List ℕ) × (digits (suc f) n ≡ c ∷ w)
unfolding digits
digits-cons zero n = elim (Bool-cases (ltb n 10)) [
  | inl h ↦ (b'0' + n, [], rw h refl)
  | inr h ↦ (b'0' + n % 10, [], rw h refl)
]
digits-cons (suc f) n = elim (Bool-cases (ltb n 10)) [
  | inl h ↦ (b'0' + n, [], rw h refl)
  | inr h ↦ let (c, w, e) = digits-cons f (n / 10) in (c, w ++ (b'0' + n % 10) ∷ [], rw (h, e) refl)
]

pub decimal-cons :
    (n : ℕ) → (c : ℕ) × (w : List ℕ) × (decimal n ≡ c ∷ w) × (all_digits (c ∷ w) ≡ true)
unfolding decimal
decimal-cons n =
    let (c, w, e) = digits-cons 19 n in (c, w, e, ap all_digits (sym e) ∙ digits-all_digits 20 n)

pub length-decimal : (n : ℕ) → length (decimal n) ≤ 20
unfolding decimal
length-decimal n = length-digits 20 n

pub digit_value-decimal :
    (n : ℕ) (s : List ℕ) → n < 10 ^ 20 → digit_value 0 (decimal n ++ s) ≡ digit_value n s
unfolding decimal
digit_value-decimal n s h = digit_value-digits 20 n s h
