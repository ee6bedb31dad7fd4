-- ===== src/Des3/Roundtrip.antt =====
-- A message of lab/c/des3/des3_encrypt.c made and received.
use quick_start.Common.{
  ℕ, ◌+◌, ◌/◌, ◌≤◌, ◌≡◌, ap, ◌∙◌, List, ◌∷◌, ◌++◌, some, length, length-append, take, arith,
  str_eq_self, take-all, length-take_all,
}
use quick_start.Des3.Base.{
  Crypto, fits-some, create_encrypt_key, create_onu_key, strnrand, byte_time, length-strnrand,
  length-byte_time,
}
use quick_start.Des3.Padding.{padded, set_pkcs7_padding-some, unpad-padded, padded_lem}
use quick_start.Des3.Message.{
  encrypt_blocks, create_encrypt_data, message_of, create_encrypt_message,
}
use quick_start.Des3.Receive.{
  Decrypt, fields, IsShort, receive, length-encrypt_blocks, decrypt-encrypt_blocks,
}

module _ (c : Crypto) (d : Decrypt c) where
  -- The encrypted user name.
  abbrev secret_of : List ℕ → List ℕ → List ℕ → List ℕ
  secret_of random timenow username =
      encrypt_blocks c (length (padded username) / 8) (create_encrypt_key random timenow)
        (padded username)

  abbrev hash_of : List ℕ → List ℕ → List ℕ → List ℕ
  hash_of random timenow password = c.md5 (take 8 random ++ (password ++ take 8 timenow))

  length-hash_text :
      (random timenow password : List ℕ)
      → length random ≡ 8
      → length timenow ≡ 8
      → length (take 8 random ++ (password ++ take 8 timenow)) ≡ length password + 16
  length-hash_text random timenow password hr ht = omega (
    arith,
    length-append (take 8 random) (password ++ take 8 timenow),
    length-append password (take 8 timenow),
    length-take_all 8 random,
    length-take_all 8 timenow,
  )

  length-secret :
      (random timenow username password : List ℕ)
      → IsShort username password
      → (length (padded username) ≤ 464)
        × (length (secret_of random timenow username) ≡ length (padded username))
  length-secret random timenow username password s =
      let (a, b, e, f) = padded_lem username s.named in
      (
        omega arith,
        omega (
          arith,
          length-encrypt_blocks c d (length (padded username) / 8)
              (create_encrypt_key random timenow) (padded username),
        ),
      )

  create_onu_key-some :
      (random timenow password : List ℕ)
      → length random ≡ 8
      → length timenow ≡ 8
      → length password ≤ 240
      → create_onu_key c random timenow password ≡ some (hash_of random timenow password)
  unfolding create_onu_key
  create_onu_key-some random timenow password hr ht h = rw (
      fits-some 256 (take 8 random ++ (password ++ take 8 timenow))
        (omega (arith, length-hash_text random timenow password hr ht)))

  create_encrypt_data-some :
      (random timenow username password : List ℕ)
      → IsShort username password
      → create_encrypt_data c random timenow username ≡ some (secret_of random timenow username)
  unfolding create_encrypt_data
  create_encrypt_data-some random timenow username password s =
      let (a, b) = length-secret random timenow username password s in
      rw (
        set_pkcs7_padding-some username (omega arith),
        fits-some 500 (secret_of random timenow username) (omega arith),
      )

  -- The message, and its length.
  abbrev message : List ℕ → List ℕ → List ℕ → List ℕ → List ℕ
  message random timenow username password =
      1
      ∷ (random
          ++ (timenow ++ (hash_of random timenow password ++ secret_of random timenow username)))

  length-message :
      (random timenow username password : List ℕ)
      → length random ≡ 8
      → length timenow ≡ 8
      → IsShort username password
      → length (message random timenow username password) ≡ 33 + length (padded username)
  length-message random timenow username password hr ht s =
      let hash = hash_of random timenow password in
      let secret = secret_of random timenow username in
      omega (
        arith,
        length-append random (timenow ++ (hash ++ secret)),
        length-append timenow (hash ++ secret),
        length-append hash secret,
        c.length-md5 (take 8 random ++ (password ++ take 8 timenow)),
        (length-secret random timenow username password s).1,
      )

  message_of-some :
      (random timenow username password : List ℕ)
      → length random ≡ 8
      → length timenow ≡ 8
      → IsShort username password
      → message_of c random timenow username password
        ≡ some (message random timenow username password)
  unfolding message_of
  message_of-some random timenow username password hr ht s = rw (
    create_onu_key-some random timenow password hr ht s.pass,
    create_encrypt_data-some random timenow username password s,
    fits-some 500 (message random timenow username password) (
        omega (
          arith,
          length-message random timenow username password hr ht s,
          (length-secret random timenow username password s).0,
        )),
  )

  hash_whole :
      (random timenow password : List ℕ)
      → length random ≡ 8
      → length timenow ≡ 8
      → hash_of random timenow password ≡ c.md5 (random ++ (password ++ timenow))
  hash_whole random timenow password hr ht =
      ap (λ r. c.md5 (r ++ (password ++ take 8 timenow))) (take-all 8 random (omega arith))
      ∙ ap (λ t. c.md5 (random ++ (password ++ t))) (take-all 8 timenow (omega arith))

  receive-message :
      (random timenow username password : List ℕ)
      → length random ≡ 8
      → length timenow ≡ 8
      → IsShort username password
      → receive c d password (message random timenow username password) ≡ some username
  unfolding receive
  receive-message random timenow username password hr ht s =
      let secret = secret_of random timenow username in
      let n = length (padded username) / 8 in
      let f =
        fields random timenow (hash_of random timenow password) secret hr ht (c.length-md5 _) in
      let (a, _, _, _) = padded_lem username s.named in
      let l = (length-secret random timenow username password s).1 in
      rw (
        f.0,
        f.1,
        f.2,
        f.3,
        hash_whole random timenow password hr ht,
        str_eq_self (c.md5 (random ++ (password ++ timenow))),
        l,
        decrypt-encrypt_blocks c d n (create_encrypt_key random timenow) (padded username)
            (omega arith),
        unpad-padded username s.named,
      )

  -- A user name of 1 to 463 bytes and a password of at most 240 make a message of the type byte and 32
  -- bytes of header before the padded name, and a receiver who knows the password, and for whom the
  -- cipher is undone by decryption, accepts it and reads the user name.
  pub receive-create :
      (rands username password : List ℕ) (now : ℕ)
      → length rands ≡ 8
      → IsShort username password
      → (m : List ℕ) × (create_encrypt_message c rands now username password ≡ some m)
        × (length m ≡ 33 + length (padded username))
        × (receive c d password m ≡ some username)
  unfolding create_encrypt_message
  receive-create rands username password now h s =
      let random = strnrand rands in
      let timenow = byte_time now in
      let hr : length random ≡ 8 = omega (arith, length-strnrand rands) in
      let ht : length timenow ≡ 8 = length-byte_time now in
      (
        message random timenow username password,
        message_of-some random timenow username password hr ht s,
        length-message random timenow username password hr ht s,
        receive-message random timenow username password hr ht s,
      )
