-- ===== src/Des3/Delivery.antt =====
-- What `create_send_message` of lab/c/des3/des3_encrypt.c sends, and when it stays in its buffers.
use quick_start.Common.{
  ℕ, zero, ◌-◌, ◌≤◌, ◌<◌, ◌≡◌, ◌∙◌, ◌⊎◌, List, [], ◌∷◌, ◌++◌, none, some, length, length-append,
  length-replicate, take, drop, replicate, arith, codes, length-take_all, take-append, drop-append,
}
use quick_start.Des3.Base.{Crypto}
use quick_start.Des3.Padding.{pad_count, padded, length-padded}
use quick_start.Des3.Message.{create_encrypt_message}
use quick_start.Des3.Receive.{Decrypt, IsShort, receive}
use quick_start.Des3.Roundtrip.{receive-create}
use quick_start.Des3.Hex.{hex, out_put_file_str, out_put_file_str_bounds}
use quick_start.Des3.Send.{serial_field, plain_message, build_message, create_send_message}

length-serial_field : (sn : List ℕ) → length (serial_field sn) ≡ 24
unfolding serial_field
length-serial_field sn = ground (
  arith,
  length-take_all 24 sn,
  length-append sn (replicate (24 - length sn) 0),
  length-replicate (24 - length sn) (zero),
)

-- The command for a message of at most 249 bytes.
abbrev pub command : List ℕ → List ℕ
command str = codes "echo " ++ (hex str ++ codes " > ./encrypt_data")

written :
    (str : List ℕ) → 0 < length str → length str ≤ 249 → out_put_file_str str ≡ some (command str)
written [] h k = absurd (omega arith)
written (b ∷ bs) h k = ground (arith, out_put_file_str_bounds b bs)

overrun : (str : List ℕ) → 249 < length str → out_put_file_str str ≡ none
overrun [] h = absurd (omega arith)
overrun (b ∷ bs) h = ground (arith, out_put_file_str_bounds b bs)

short_padded : (username : List ℕ) → length username ≤ 215 → length (padded username) ≤ 216
unfolding pad_count
short_padded username h = ground (arith, length-padded username)

long_padded : (username : List ℕ) → 215 < length username → 216 < length (padded username)
unfolding pad_count
long_padded username h = ground (arith, length-padded username)

length-plain : (sn : List ℕ) → length (plain_message sn) ≡ 35
unfolding plain_message
length-plain sn =
    length-append (serial_field sn) (codes "admin/admin") ∙ omega (arith, length-serial_field sn)

plain_fields :
    (sn : List ℕ)
    → (take 24 (plain_message sn) ≡ serial_field sn)
      × (drop 24 (plain_message sn) ≡ codes "admin/admin")
unfolding plain_message
plain_fields sn = (
  take-append 24 (serial_field sn) (codes "admin/admin") (length-serial_field sn),
  drop-append 24 (serial_field sn) (codes "admin/admin") (length-serial_field sn),
)

module _ (c : Crypto) where
  -- Without a user name, mode 2 sends 35 bytes: the serial number, cut or filled with NUL to 24 bytes,
  -- and the fixed account.
  pub create_send_message-plain :
      (rands password serialnum : List ℕ) (now : ℕ)
      → (create_send_message c rands now [] password serialnum 2
          ≡ some (plain_message serialnum, command (plain_message serialnum)))
        × (length (plain_message serialnum) ≡ 35)
        × (take 24 (plain_message serialnum) ≡ serial_field serialnum)
        × (drop 24 (plain_message serialnum) ≡ codes "admin/admin")
  unfolding create_send_message
  create_send_message-plain rands password serialnum now = (
    rw (
        written (plain_message serialnum) (omega (arith, length-plain serialnum))
          (omega (arith, length-plain serialnum))),
    length-plain serialnum,
    (plain_fields serialnum).0,
    (plain_fields serialnum).1,
  )

-- The two modes that encrypt.
abbrev pub Encrypts : ℕ → Type 0
Encrypts mode = (mode ≡ 2) ⊎ (mode ≡ 3)

build_encrypted :
    (c : Crypto) (rands username password serialnum : List ℕ) (now mode : ℕ)
    → Encrypts mode
    → 0 < length username
    → build_message c rands now username password serialnum mode
      ≡ create_encrypt_message c rands now username password
unfolding build_message
build_encrypted c rands username password serialnum now mode e h = ground arith

module _ (c : Crypto) (d : Decrypt c) where
  -- In the modes 2 and 3, with a password of at most 240 bytes and a user name of 1 to 215, the message
  -- is sent and written out, and a receiver who knows the password reads the user name from it.
  pub send-receive :
      (rands username password serialnum : List ℕ) (now mode : ℕ)
      → length rands ≡ 8
      → Encrypts mode
      → IsShort username password
      → length username ≤ 215
      → (str : List ℕ) × (create_send_message c rands now username password serialnum mode
          ≡ some (str, command str))
        × (receive c d password str ≡ some username)
  unfolding create_send_message
  send-receive rands username password serialnum now mode h e s k =
      let (m, built, l, r) = receive-create c d rands username password now h s in
      let b = build_encrypted c rands username password serialnum now mode e s.named ∙ built in
      (m, rw (b, written m (omega arith) (omega (arith, short_padded username k))), r)

  -- In the modes 2 and 3, with a password of at most 240 bytes and a user name of 216 to 463, a message
  -- is still made, and its hexadecimal text runs over its buffer.
  pub send-overrun :
      (rands username password serialnum : List ℕ) (now mode : ℕ)
      → length rands ≡ 8
      → Encrypts mode
      → IsShort username password
      → 215 < length username
      → (str : List ℕ) × (build_message c rands now username password serialnum mode ≡ some str)
        × (create_send_message c rands now username password serialnum mode ≡ none)
  unfolding create_send_message
  send-overrun rands username password serialnum now mode h e s k =
      let (m, built, l, r) = receive-create c d rands username password now h s in
      let b = build_encrypted c rands username password serialnum now mode e s.named ∙ built in
      (m, b, rw (b, overrun m (omega (arith, long_padded username k))))
