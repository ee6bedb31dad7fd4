-- ===== src/Conntrack/Address.antt =====
-- `ip_str_to_num` of lab/net/pktconntrack/test_conntrack.c.
use Prim.Native.Nat.{bit_or, max, digits, bit_or-bitwise}
use native.Mathlib.Nat.{pow-suc, mul_assoc}
use quick_start.Common.{
  ℕ, zero, suc, ◌+◌, ◌*◌, ◌/◌, ◌%◌, ◌^◌, ◌≤◌, ◌<◌, ◌≡◌, refl, sym, ◌∙◌, List, [], ◌∷◌, none, some,
  get_elem?, arith,
}

-- `tmpip[i] << k`, in 32 bits.
abbrev pub shl32 : ℕ → ℕ → ℕ
shl32 n k = n * 2 ^ k % 2 ^ 32

-- An element of `tmpip` behind `sscanf`: what was 0 stays so where nothing was converted.
unfoldable pub converted : List ℕ → ℕ → ℕ
converted values i = elim (get_elem? values i) [ none ↦ 0 | some n ↦ n ]

-- `values` are the numbers that `sscanf` has converted, the first of them to `tmpip[3]`.
unfoldable pub ip_str_to_num : List ℕ → ℕ
unfolding converted
ip_str_to_num values =
    bit_or
      (bit_or (bit_or (shl32 (converted values 0) 24) (shl32 (converted values 1) 16))
        (shl32 (converted values 2) 8))
      (converted values 3)

abbrev or_digits : ℕ → ℕ → ℕ → ℕ
or_digits n x y = digits (λ b. b) max n x y

double-pow : (k q : ℕ) → q * 2 ^ suc k ≡ q * 2 ^ k * 2
double-pow k q = rw (pow-suc 2 k) (sym (mul_assoc q (2 ^ k) 2))

-- Numbers with no digit in common, the first a multiple of a power of two above the second: their
-- digits stand side by side. `n` is the number of rounds that the operation may take.
or_digits-add : (n k q x y : ℕ) → x ≤ n → x ≡ q * 2 ^ k → y < 2 ^ k → or_digits n x y ≡ x + y
or_digits-add zero k q zero y l e h = omega arith
or_digits-add zero k q (suc x) y l e h = absurd (omega arith)
or_digits-add (suc n) k q zero y l e h = omega arith
or_digits-add (suc n) zero q (suc x) y l e h = omega (
  arith,
  or_digits-add n zero (suc x / 2) (suc x / 2) (y / 2) (omega arith) (omega arith) (omega arith),
)
or_digits-add (suc n) (suc k) q (suc x) y l e h = omega (
  arith,
  double-pow k q,
  double-pow k 1,
  or_digits-add n k q (suc x / 2) (y / 2) (omega arith) (omega (arith, double-pow k q))
      (omega (arith, double-pow k 1)),
)

bit_or-add : (k q y : ℕ) → y < 2 ^ k → bit_or (q * 2 ^ k) y ≡ q * 2 ^ k + y
bit_or-add k q y h =
    bit_or-bitwise (q * 2 ^ k) y ∙ or_digits-add (q * 2 ^ k) k q (q * 2 ^ k) y (omega arith) refl h

-- For four numbers below 256 the result is the address with these four bytes, the first the highest.
pub ip_str_to_num-bytes :
    (a b c d : ℕ)
    → a < 256
    → b < 256
    → c < 256
    → d < 256
    → ip_str_to_num (a ∷ b ∷ c ∷ d ∷ []) ≡ ((a * 256 + b) * 256 + c) * 256 + d
unfolding ip_str_to_num
ip_str_to_num-bytes a b c d ha hb hc hd =
    let l0 : shl32 a 24 ≡ a * 2 ^ 24 = omega arith in
    let l1 : shl32 b 16 ≡ b * 2 ^ 16 = omega arith in
    let l2 : shl32 c 8 ≡ c * 2 ^ 8 = omega arith in
    let high : a * 2 ^ 24 + b * 2 ^ 16 ≡ (a * 2 ^ 8 + b) * 2 ^ 16 = omega arith in
    let three : (a * 2 ^ 8 + b) * 2 ^ 16 + c * 2 ^ 8 ≡ ((a * 2 ^ 8 + b) * 2 ^ 8 + c) * 2 ^ 8 =
      omega arith in
    rw
      (
        l0,
        l1,
        l2,
        bit_or-add 24 a (b * 2 ^ 16) (omega arith),
        high,
        bit_or-add 16 (a * 2 ^ 8 + b) (c * 2 ^ 8) (omega arith),
        three,
        bit_or-add 8 ((a * 2 ^ 8 + b) * 2 ^ 8 + c) d hd,
      )
      (omega arith)
