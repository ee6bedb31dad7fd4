-- ===== src/Des3/Message.antt =====
-- The encrypted message of lab/c/des3/des3_encrypt.c: `create_encrypt_data` and
-- `create_encrypt_message`.
use quick_start.Common.{◌>>=◌, ℕ, zero, suc, List, [], ◌∷◌, ◌++◌, Option, take, drop}
use quick_start.Des3.Base.{Crypto, fits, create_encrypt_key, create_onu_key, strnrand, byte_time}
use quick_start.Des3.Padding.{set_pkcs7_padding}

module _ (c : Crypto) where
  -- `DES_set_key_unchecked` on the three parts of the key, and one block.
  unfoldable pub encrypt_block : List ℕ → List ℕ → List ℕ
  encrypt_block key block =
      c.ecb3_encrypt (take 8 key) (take 8 (drop 8 key)) (take 8 (drop 16 key)) block

  -- The loop over the blocks.
  unfoldable pub encrypt_blocks : ℕ → List ℕ → List ℕ → List ℕ
  unfolding encrypt_block
  encrypt_blocks zero key text = []
  encrypt_blocks (suc n) key text =
      encrypt_block key (take 8 text) ++ encrypt_blocks n key (drop 8 text)

  -- The bytes of `str` that count; their number is returned.
  unfoldable pub create_encrypt_data : List ℕ → List ℕ → List ℕ → Option (List ℕ)
  create_encrypt_data random timenow username = do
    (pkcs7_str, encrypt_count) ← set_pkcs7_padding username
    fits 500 (encrypt_blocks encrypt_count (create_encrypt_key random timenow) pkcs7_str)

  -- `random` and `timenow` are what `strnrand` and `byte_time` give.
  unfoldable pub message_of : List ℕ → List ℕ → List ℕ → List ℕ → Option (List ℕ)
  message_of random timenow username password = do
    onu_key ← create_onu_key c random timenow password
    encry_data ← create_encrypt_data random timenow username
    fits 500 (1 ∷ (random ++ (timenow ++ (onu_key ++ encry_data))))

  -- `rands` is what eight calls of `rand` return, `now` what `time` returns.
  unfoldable pub create_encrypt_message : List ℕ → ℕ → List ℕ → List ℕ → Option (List ℕ)
  unfolding message_of
  create_encrypt_message rands now username password =
      message_of (strnrand rands) (byte_time now) username password
