-- ===== src/Des3/Hex.antt =====
-- `outPutFileStr` of lab/c/des3/des3_encrypt.c: the bytes of a message as hexadecimal text.
use mathlib.Core.Path.{ap₂}
use quick_start.Common.{
  ◌>>=◌, ℕ, ◌+◌, ◌-◌, ◌*◌, ◌/◌, ◌%◌, ◌<◌, ◌≡◌, refl, List, [], ◌∷◌, ◌++◌, Option, none, some,
  length, length-append, ltb, if◌then◌else◌, arith, codes, hex_digit,
}
use quick_start.Des3.Base.{fits}

-- `sprintf(str_out + i*2, "%02x", str[i])` for each byte.
unfoldable pub hex : List ℕ → List ℕ
unfolding hex_digit
hex [] = []
hex (b ∷ bs) = hex_digit (b / 16) ∷ hex_digit (b % 16) ∷ hex bs

-- `str_out` holds 500 bytes, the NUL of the last `sprintf` included, and `cmd` 600. Where there is no
-- byte to write, `str_out` is printed with nothing in it initialised: `none` too.
unfoldable pub out_put_file_str : List ℕ → Option (List ℕ)
unfolding hex
out_put_file_str [] = none
out_put_file_str (b ∷ bs) = do
  str_out ← fits 499 (hex (b ∷ bs))
  fits 599 (codes "echo " ++ (str_out ++ codes " > ./encrypt_data"))

-- The number of a digit, and the bytes of a text of digits.
unfoldable pub hex_value : ℕ → ℕ
hex_value c = if ltb c b'a' then c - b'0' else c - b'a' + 10

pub unhex : List ℕ → List ℕ
unfolding hex_value
unhex [] = []
unhex (h ∷ []) = []
unhex (h ∷ l ∷ s) = (16 * hex_value h + hex_value l) ∷ unhex s

hex_value-hex_digit : (n : ℕ) → n < 16 → hex_value (hex_digit n) ≡ n
unfolding hex_value hex_digit
hex_value-hex_digit n h = ground arith

-- Every byte fits into eight bits.
abbrev pub AllBytes : List ℕ → Type 0
AllBytes [] = Unit {0}
AllBytes (b ∷ bs) = (b < 256) × AllBytes bs

unhex-hex : (bs : List ℕ) → AllBytes bs → unhex (hex bs) ≡ bs
unfolding hex unhex
unhex-hex [] h = refl
unhex-hex (b ∷ bs) h =
    ap₂ ◌∷◌
      (omega (
        arith,
        hex_value-hex_digit (b / 16) (omega arith),
        hex_value-hex_digit (b % 16) (omega arith),
      ))
      (unhex-hex bs h.1)

length-hex : (bs : List ℕ) → length (hex bs) ≡ 2 * length bs
unfolding hex
length-hex [] = refl
length-hex (b ∷ bs) = omega (arith, length-hex bs)

-- The text has two digits for each byte, and determines the bytes.
pub hex_lem :
    (bs : List ℕ) → AllBytes bs → (length (hex bs) ≡ 2 * length bs) × (unhex (hex bs) ≡ bs)
hex_lem bs h = (length-hex bs, unhex-hex bs h)

-- The command of a message that is not empty is made exactly where the message has at most 249 bytes;
-- a longer one runs over the end of `str_out`.
pub out_put_file_str_bounds :
    (b : ℕ) (bs : List ℕ)
    → out_put_file_str (b ∷ bs) ≡ (
        if ltb 249 (length (b ∷ bs))
        then none
        else some (codes "echo " ++ (hex (b ∷ bs) ++ codes " > ./encrypt_data")))
unfolding out_put_file_str
out_put_file_str_bounds b bs =
    ground (arith, length-hex bs, length-append (hex bs) (codes " > ./encrypt_data"))
