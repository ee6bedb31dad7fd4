-- ===== src/Des3/Send.antt =====
-- `create_send_message` of lab/c/des3/des3_encrypt.c.
use quick_start.Common.{
  ◌>>=◌, ℕ, ◌-◌, List, [], ◌++◌, Option, some, length, take, replicate, ltb, ◌==◌, if◌then◌else◌,
  codes,
}
use quick_start.Des3.Base.{Crypto}
use quick_start.Des3.Message.{create_encrypt_message}
use quick_start.Des3.Hex.{out_put_file_str}

-- `sn`: the first 24 bytes of the serial number, filled with NUL.
unfoldable pub serial_field : List ℕ → List ℕ
serial_field serialnum =
    if ltb 24 (length serialnum)
    then take 24 serialnum
    else serialnum ++ replicate (24 - length serialnum) 0

-- The message without the encrypted user name: `strlen(username)` is 0.
unfoldable pub plain_message : List ℕ → List ℕ
unfolding serial_field
plain_message serialnum = serial_field serialnum ++ codes "admin/admin"

module _ (c : Crypto) where
  -- The bytes of `str` that count, before they are written out.
  unfoldable pub build_message : List ℕ → ℕ → List ℕ → List ℕ → List ℕ → ℕ → Option (List ℕ)
  unfolding plain_message
  build_message rands now username password serialnum mode =
      if mode == 2
      then if length username == 0
        then some (plain_message serialnum)
        else create_encrypt_message c rands now username password
      else if mode == 3
      then create_encrypt_message c rands now username password
      else some []

  -- The bytes, and the command that writes them to a file.
  unfoldable pub create_send_message :
      List ℕ → ℕ → List ℕ → List ℕ → List ℕ → ℕ → Option (List ℕ × List ℕ)
  unfolding build_message
  create_send_message rands now username password serialnum mode = do
    str ← build_message rands now username password serialnum mode
    cmd ← out_put_file_str str
    some (str, cmd)
