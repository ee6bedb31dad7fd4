-- ===== src/Des3/Fixed.antt =====
-- lab/c/des3/des3_encrypt2.c, a variant of the message with a name of one size: its functions up to
-- `create_encrypt_data`. What follows in that file does not compile, and is not modelled.
use quick_start.Common.{
  byte_lengths, ◌>>=◌, ℕ, zero, suc, ◌+◌, ◌-◌, ◌%◌, ◌≤◌, ◌<◌, ◌≡◌, refl, List, [], ◌∷◌, ◌++◌,
  Option, some, length, take, drop, replicate, ltb, ◌==◌, Bool-cases, inl, inr, if◌then◌else◌,
  length-append, take-append, take-all, length-take_all, arith,
}
use quick_start.Des3.Base.{Crypto, fits, fits-some, create_encrypt_key, little_endian}
use quick_start.Des3.Padding.{pad_count, padded, last-pad, unpad, set_pkcs7_padding-some}
use quick_start.Des3.Message.{encrypt_block, encrypt_blocks, create_encrypt_data}

unfoldable pub strnrand2 : List ℕ → List ℕ
strnrand2 [] = []
strnrand2 (r ∷ rs) = r % 256 ∷ strnrand2 rs

unfoldable pub byte_time2 : ℕ → List ℕ
unfolding little_endian
byte_time2 now = little_endian 8 now

-- `str` holds 24 bytes, all of which are written.
unfoldable pub create_encrypt_key2 : List ℕ → List ℕ → List ℕ
create_encrypt_key2 random timenow = take 8 random ++ (take 8 timenow ++ replicate 8 0)

-- `data` holds 256 bytes.
unfoldable pub create_onu_key2 : Crypto → List ℕ → List ℕ → List ℕ → Option (List ℕ)
create_onu_key2 c random timenow password = do
  text ← fits 256 (take 8 random ++ (password ++ take 8 timenow))
  some (c.md5 text)

-- The bytes that are copied, and the byte that fills the rest.
unfoldable pub copied_len : ℕ → ℕ
copied_len len = if ltb 15 len then 15 else len

unfoldable pub pad_byte : ℕ → ℕ
pad_byte len = if ltb 15 len then 1 else 16 - len % 16

-- The 16 bytes of `str`.
unfoldable pub set_pkcs7_padding2 : List ℕ → List ℕ
set_pkcs7_padding2 input =
    take (copied_len (length input)) input
    ++ replicate (16 - copied_len (length input)) (pad_byte (length input))

module _ (c : Crypto) where
  -- The loop over the two blocks.
  unfoldable pub encrypt_blocks2 : ℕ → List ℕ → List ℕ → List ℕ
  encrypt_blocks2 zero key text = []
  encrypt_blocks2 (suc n) key text =
      c.ecb3_encrypt (take 8 key) (take 8 (drop 8 key)) (take 8 (drop 16 key)) (take 8 text)
      ++ encrypt_blocks2 n key (drop 8 text)

  -- The 16 bytes of `data`.
  unfoldable pub create_encrypt_data2 : List ℕ → List ℕ → List ℕ → List ℕ
  create_encrypt_data2 random timenow username =
      encrypt_blocks2 2 (create_encrypt_key2 random timenow) (set_pkcs7_padding2 username)

short_counts : (len : ℕ) → len ≤ 15 → (copied_len len ≡ len) × (pad_byte len ≡ 16 - len)
unfolding copied_len pad_byte
short_counts len h = ground arith

long_counts : (len : ℕ) → 15 < len → (copied_len len ≡ 15) × (pad_byte len ≡ 1)
unfolding copied_len pad_byte
long_counts len h = ground arith

padding2-short :
    (input : List ℕ)
    → length input ≤ 15
    → set_pkcs7_padding2 input ≡ input ++ replicate (16 - length input) (16 - length input)
unfolding set_pkcs7_padding2
padding2-short input h =
    let (c, p) = short_counts (length input) h in
    rw (c, p, take-all (length input) input (omega arith)) refl

padding2-long :
    (input : List ℕ) → 15 < length input → set_pkcs7_padding2 input ≡ take 15 input ++ 1 ∷ []
unfolding set_pkcs7_padding2
padding2-long input h = let (c, p) = long_counts (length input) h in rw (c, p) refl

unpad-pad :
    (text : List ℕ) (n : ℕ)
    → 0 < n
    → length text + n ≡ 16
    → (length (text ++ replicate n n) ≡ 16) × (unpad (text ++ replicate n n) ≡ text)
unfolding unpad
unpad-pad text n p h =
    let all : length (text ++ replicate n n) ≡ 16 = omega byte_lengths in
    (all, take-append _ text (replicate n n) (omega (arith, all, last-pad text n n p)))

-- The padded name always has 16 bytes, and the receiver's side of PKCS #7 finds the first 15 bytes of
-- the name in it, the whole name if it is not longer.
pub set_pkcs7_padding2_lem :
    (input : List ℕ)
    → (length (set_pkcs7_padding2 input) ≡ 16) × (unpad (set_pkcs7_padding2 input) ≡ take 15 input)
set_pkcs7_padding2_lem input = elim (Bool-cases (ltb 15 (length input))) [
  | inl more ↦
      let long : 15 < length input = ground arith in
      let cut = length-take_all 15 input (omega arith) in
      rw (padding2-long input long) (unpad-pad (take 15 input) 1 (omega arith) (omega (arith, cut)))
  | inr less ↦
      let short : length input ≤ 15 = ground arith in
      rw (padding2-short input short, take-all 15 input short)
        (unpad-pad input (16 - length input) (omega arith) (omega arith))
]

padded-padding2 :
    (username : List ℕ)
    → 8 ≤ length username
    → length username ≤ 15
    → padded username ≡ set_pkcs7_padding2 username
unfolding padded pad_count
padded-padding2 username l h =
    let n : (if length username == 0 then 0 else 8 - length username % 8) ≡ 16 - length username =
      ground arith in
    rw (n, padding2-short username h) refl

length-two : (c : Crypto) (key text : List ℕ) → length (encrypt_blocks c 2 key text) ≡ 16
unfolding encrypt_blocks
length-two c key text =
    let k = λ (i : ℕ). take 8 (drop i key) in
    omega (
      arith,
      length-append (encrypt_block c key (take 8 text))
          (encrypt_block c key (take 8 (drop 8 text)) ++ []),
      length-append (encrypt_block c key (take 8 (drop 8 text))) [],
      c.length-ecb3 (k 0) (k 8) (k 16) (take 8 text),
      c.length-ecb3 (k 0) (k 8) (k 16) (take 8 (drop 8 text)),
    )

-- For a name of 8 to 15 bytes the two variants of the file encrypt alike: the data of the one are those
-- of the other, under the same random bytes and the same time.
pub create_encrypt_data2-equiv :
    (c : Crypto) (random timenow username : List ℕ)
    → 8 ≤ length username
    → length username ≤ 15
    → create_encrypt_data c random timenow username
      ≡ some (create_encrypt_data2 c random timenow username)
unfolding create_encrypt_data create_encrypt_data2 create_encrypt_key create_encrypt_key2
    encrypt_blocks encrypt_blocks2
create_encrypt_data2-equiv c random timenow username l h =
    let same = padded-padding2 username l h in
    let whole : length (padded username) ≡ 16 = rw same (set_pkcs7_padding2_lem username).0 in
    rw (set_pkcs7_padding-some username (omega (arith, whole)), whole, same)
      (fits-some 500 _ (
        omega
          (arith, length-two c (create_encrypt_key random timenow) (set_pkcs7_padding2 username))))
