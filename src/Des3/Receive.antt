-- ===== src/Des3/Receive.antt =====
-- What the other side makes of a message of lab/c/des3/des3_encrypt.c.
use mathlib.Core.List.{append_assoc}
use quick_start.Common.{
  byte_lengths, ℕ, zero, suc, ◌*◌, ◌/◌, ◌≤◌, ◌<◌, ◌≡◌, refl, sym, ap, ◌∙◌, List, [], ◌∷◌, ◌++◌,
  Option, none, some, length, length-append, take, drop, ◌==◌, if◌then◌else◌, arith, str_eq,
  take-append, drop-append, take-append-drop, length-take_all,
}
use quick_start.Des3.Base.{Crypto, create_encrypt_key}
use quick_start.Des3.Padding.{unpad}
use quick_start.Des3.Message.{encrypt_block, encrypt_blocks}

-- Triple DES backwards, which undoes `DES_ecb3_encrypt` under the same keys.
pub record Decrypt (c : Crypto) : Type 0 where
  pub ecb3_decrypt : List ℕ → List ℕ → List ℕ → List ℕ → List ℕ
  pub decrypt-encrypt :
      (k₁ k₂ k₃ b : List ℕ) → length b ≡ 8 → ecb3_decrypt k₁ k₂ k₃ (c.ecb3_encrypt k₁ k₂ k₃ b) ≡ b

-- The four fields of a message, found at their places.
pub fields :
    (random timenow hash secret : List ℕ)
    → length random ≡ 8
    → length timenow ≡ 8
    → length hash ≡ 16
    → let m = random ++ (timenow ++ (hash ++ secret)) in
      (take 8 m ≡ random)
      × (take 8 (drop 8 m) ≡ timenow)
      × (take 16 (drop 16 m) ≡ hash)
      × (drop 32 m ≡ secret)
fields random timenow hash secret hr ht hh = (
  take-append 8 random _ hr,
  rw (drop-append 8 random (timenow ++ (hash ++ secret)) hr) (take-append 8 timenow _ ht),
  ap (λ t. take 16 (drop 16 t)) (sym (append_assoc random timenow (hash ++ secret)))
      ∙ rw (drop-append 16 (random ++ timenow) (hash ++ secret) head_length)
          (take-append 16 hash _ hh),
  ap (drop 32) (
        sym (append_assoc random timenow (hash ++ secret))
        ∙ sym (append_assoc (random ++ timenow) hash secret))
      ∙ drop-append 32 ((random ++ timenow) ++ hash) secret (omega (byte_lengths, head_length)),
)
  where
    head_length : length (random ++ timenow) ≡ 16
    head_length = omega byte_lengths

-- The limits within which the buffers hold: 240 bytes of password, 463 of user name.
pub record IsShort (username password : List ℕ) : Type 0 where
  pub named : 0 < length username
  pub name : length username ≤ 463
  pub pass : length password ≤ 240

module _ (c : Crypto) (d : Decrypt c) where
  pub decrypt_block : List ℕ → List ℕ → List ℕ
  decrypt_block key block =
      d.ecb3_decrypt (take 8 key) (take 8 (drop 8 key)) (take 8 (drop 16 key)) block

  pub decrypt_blocks : ℕ → List ℕ → List ℕ → List ℕ
  unfolding decrypt_block
  decrypt_blocks zero key text = []
  decrypt_blocks (suc n) key text =
      decrypt_block key (take 8 text) ++ decrypt_blocks n key (drop 8 text)

  -- The receiver knows the password. It takes the message apart at fixed places, compares the hash, and
  -- decrypts under the key that the random bytes and the time give.
  unfoldable pub receive : List ℕ → List ℕ → Option (List ℕ)
  unfolding decrypt_blocks
  receive password [] = none
  receive password (kind ∷ m) =
      let random = take 8 m in
      let timenow = take 8 (drop 8 m) in
      let onu_key = take 16 (drop 16 m) in
      let secret = drop 32 m in
      if kind == 1
      then if str_eq onu_key (c.md5 (random ++ (password ++ timenow)))
        then some
            (unpad (decrypt_blocks (length secret / 8) (create_encrypt_key random timenow) secret))
        else none
      else none

  pub length-encrypt_blocks :
      (n : ℕ) (key text : List ℕ) → length (encrypt_blocks c n key text) ≡ 8 * n
  unfolding encrypt_blocks
  length-encrypt_blocks zero key text = refl
  length-encrypt_blocks (suc n) key text = omega (
    arith,
    length-append (encrypt_block c key (take 8 text)) (encrypt_blocks c n key (drop 8 text)),
    c.length-ecb3 (take 8 key) (take 8 (drop 8 key)) (take 8 (drop 16 key)) (take 8 text),
    length-encrypt_blocks n key (drop 8 text),
  )

  pub decrypt-encrypt_blocks :
      (n : ℕ) (key text : List ℕ)
      → length text ≡ 8 * n
      → decrypt_blocks n key (encrypt_blocks c n key text) ≡ text
  unfolding decrypt_blocks encrypt_blocks
  decrypt-encrypt_blocks zero key [] h = refl
  decrypt-encrypt_blocks zero key (x ∷ text) h = absurd (omega arith)
  decrypt-encrypt_blocks (suc n) key text h =
      rw
        (
          take-append 8 (encrypt_block c key (take 8 text)) (encrypt_blocks c n key (drop 8 text))
              (c.length-ecb3 _ _ _ _),
          drop-append 8 (encrypt_block c key (take 8 text)) (encrypt_blocks c n key (drop 8 text))
              (c.length-ecb3 _ _ _ _),
          d.decrypt-encrypt (take 8 key) (take 8 (drop 8 key)) (take 8 (drop 16 key)) (take 8 text)
              (length-take_all 8 text (omega arith)),
          decrypt-encrypt_blocks n key (drop 8 text) (omega byte_lengths),
        )
        (take-append-drop 8 text)
