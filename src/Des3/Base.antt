-- ===== src/Des3/Base.antt =====
-- Keys and random bytes of lab/c/des3/des3_encrypt.c, and the cryptography that it calls.
use quick_start.Common.{
  ◌>>=◌, ℕ, zero, suc, ◌/◌, ◌%◌, ◌≤◌, ◌<◌, ◌≡◌, refl, List, [], ◌∷◌, ◌++◌, Option, none, some,
  length, take, replicate, ltb, if◌then◌else◌, arith,
}

-- What the program leaves to OpenSSL: `DES_ecb3_encrypt` on one block under the three keys that
-- `DES_set_key_unchecked` makes of eight bytes each, and `MD5`.
pub record Crypto : Type 0 where
  pub ecb3_encrypt : List ℕ → List ℕ → List ℕ → List ℕ → List ℕ
  pub md5 : List ℕ → List ℕ
  pub length-ecb3 : (k₁ k₂ k₃ b : List ℕ) → length (ecb3_encrypt k₁ k₂ k₃ b) ≡ 8
  pub length-md5 : (m : List ℕ) → length (md5 m) ≡ 16

-- The bytes written, if they fit into a buffer.
abbrev pub fits : ℕ → List ℕ → Option (List ℕ)
fits size bytes = if ltb size (length bytes) then none else some bytes

-- `strnrand`, over what `rand` returns.
unfoldable pub strnrand : List ℕ → List ℕ
strnrand [] = []
strnrand (r ∷ rs) = r % 256 ∷ strnrand rs

-- The low `n` bytes of a number, the lowest first.
unfoldable pub little_endian : ℕ → ℕ → List ℕ
little_endian zero t = []
little_endian (suc n) t = t % 256 ∷ little_endian n (t / 256)

-- `byte_time`: a `time_t` of eight bytes, as a little-endian machine stores it.
unfoldable pub byte_time : ℕ → List ℕ
unfolding little_endian
byte_time now = little_endian 8 now

-- `create_encrypt_key`: the first 24 bytes, which are those that are used.
unfoldable pub create_encrypt_key : List ℕ → List ℕ → List ℕ
create_encrypt_key random timenow = take 8 random ++ (take 8 timenow ++ replicate 8 0)

-- `data` holds 256 bytes.
unfoldable pub create_onu_key : Crypto → List ℕ → List ℕ → List ℕ → Option (List ℕ)
create_onu_key c random timenow password = do
  text ← fits 256 (take 8 random ++ (password ++ take 8 timenow))
  some (c.md5 text)

pub length-strnrand : (rs : List ℕ) → length (strnrand rs) ≡ length rs
unfolding strnrand
length-strnrand [] = refl
length-strnrand (r ∷ rs) = omega (arith, length-strnrand rs)

length-little_endian : (n t : ℕ) → length (little_endian n t) ≡ n
unfolding little_endian
length-little_endian zero t = refl
length-little_endian (suc n) t = omega (arith, length-little_endian n (t / 256))

pub length-byte_time : (now : ℕ) → length (byte_time now) ≡ 8
unfolding byte_time
length-byte_time now = length-little_endian 8 now

pub fits-some : (size : ℕ) (bytes : List ℕ) → length bytes ≤ size → fits size bytes ≡ some bytes
fits-some size bytes h = ground arith

pub fits-none : (size : ℕ) (bytes : List ℕ) → size < length bytes → fits size bytes ≡ none
fits-none size bytes h = ground arith
