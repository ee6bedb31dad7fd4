-- ===== src/Des3/Main.antt =====
-- `main` of lab/c/des3/des3_encrypt.c: a message is made, and a file is read back.
use quick_start.Common.{
  byte_lengths, ◌>>=◌, ℕ, suc, ◌/◌, ◌%◌, ◌≡◌, ◌≤◌, refl, ap, ◌∙◌, inl, List, [], ◌∷◌, ◌++◌, Option,
  none, some, length, length-append, take, take-all, take-append, replicate, ltb, if◌then◌else◌,
  codes, ◌==◌, ◌&&◌, ◌<◌, ◌*◌, ◌+◌, Bool, true, inr, Bool-cases, decimal, hex_digit, c_string,
  HasNoNul, arith,
}
use quick_start.Des3.Hex.{hex_value}
use quick_start.Des3.Base.{Crypto}
use quick_start.Des3.Receive.{Decrypt, receive}
use quick_start.Des3.Send.{create_send_message}
use quick_start.Des3.Delivery.{send-receive}

-- `%x` of a byte.
unfoldable pub hex_byte : ℕ → List ℕ
hex_byte b = if ltb b 16 then hex_digit b ∷ [] else hex_digit (b / 16) ∷ hex_digit (b % 16) ∷ []

-- `outPutStr`
unfoldable pub out_put_str : List ℕ → List ℕ
unfolding hex_byte
out_put_str [] = codes "\n"
out_put_str (b ∷ bytes) = codes "0x" ++ (hex_byte b ++ (codes " " ++ out_put_str bytes))

-- The file: it cannot be opened, or not be read, or has its bytes.
pub data File : Type 0 where
  not_opened not_read : File
  opened : List ℕ → File

-- The texts around the length and the bytes of a file.
abbrev pub data_text : ℕ → List ℕ → List ℕ
data_text len text =
    codes "--------------------------open file------------------------\nlen: "
    ++ (decimal len ++ (codes "\n last: 0x00\ndata: " ++ (text ++ codes "\n")))

-- What is printed of the bytes that `read` has stored, less the last of them; `none` is a NUL that is
-- written before the array, as it is for a file without a byte.
unfoldable pub show_data : List ℕ → Option (List ℕ)
show_data [] = none
show_data (b ∷ bytes) = some (data_text (length bytes) (c_string (take (length bytes) (b ∷ bytes))))

-- What follows the message; `none` is as above, and so is a read that fails.
unfoldable pub read_back : File → Option (List ℕ)
unfolding show_data
read_back not_opened = some (codes "open filed!!\n")
read_back not_read = none
read_back (opened bytes) = show_data (take 500 bytes)

abbrev pub user : List ℕ
user = codes "+dgy666hello@js.comxxx.cn@voip"

abbrev pub pass : List ℕ
pass = codes "123123"

-- What `main` itself prints, over what `rand` and `time` return, and the file.
unfoldable pub main : Crypto → List ℕ → ℕ → File → Option (List ℕ)
unfolding read_back
main c rands now file = do
  (str, cmd) ← create_send_message c rands now user pass (replicate 24 b'0') 2
  rest ← read_back file
  some (out_put_str str ++ rest)

-- The bytes of a printed line, read back: a digit counts sixteen times the ones before it, the x of a
-- prefix drops the 0 before it, and a space ends a byte.
unfoldable pub read_line : ℕ → List ℕ → List ℕ
read_line n [] = []
read_line n (c ∷ cs) =
    if c == b' '
    then n ∷ read_line 0 cs
    else if c == b'x'
    then read_line 0 cs
    else read_line (16 * n + hex_value c) cs

read_line-digit :
    (n d : ℕ) (cs : List ℕ) → d < 16 → read_line n (hex_digit d ∷ cs) ≡ read_line (16 * n + d) cs
unfolding read_line hex_digit hex_value
read_line-digit n d cs h = ground arith

abbrev pub all_bytes : List ℕ → Bool
all_bytes [] = true
all_bytes (b ∷ bytes) = ltb b 256 && all_bytes bytes

read_line-byte :
    (b : ℕ) (cs : List ℕ)
    → b < 256
    → read_line 0 (codes "0x" ++ (hex_byte b ++ (codes " " ++ cs))) ≡ b ∷ read_line 0 cs
unfolding hex_byte read_line
read_line-byte b cs h = elim (Bool-cases (ltb b 16)) [
  | inl e ↦
      rw e
        (read_line-digit 0 b (32 ∷ cs) (ground arith) ∙ ap (λ n. n ∷ read_line 0 cs) (omega arith))
  | inr e ↦ rw e (
      read_line-digit 0 (b / 16) (hex_digit (b % 16) ∷ 32 ∷ cs) (omega arith)
      ∙ read_line-digit (16 * 0 + b / 16) (b % 16) (32 ∷ cs) (omega arith)
      ∙ ap (λ n. n ∷ read_line 0 cs) (omega arith))
]

-- The line determines the bytes.
read_line-out_put_str :
    (bytes : List ℕ) → all_bytes bytes ≡ true → read_line 0 (out_put_str bytes) ≡ bytes
unfolding out_put_str read_line
read_line-out_put_str [] h = refl
read_line-out_put_str (b ∷ bytes) h =
    read_line-byte b (out_put_str bytes) (ground arith)
    ∙ ap (◌∷◌ b) (read_line-out_put_str bytes (ground arith))

c_string-all : (text : List ℕ) → HasNoNul text → c_string text ≡ text
unfolding c_string
c_string-all [] h = refl
c_string-all (b ∷ text) h = ground (arith, c_string-all text h.1)

show_data-line :
    (text : List ℕ)
    → HasNoNul text
    → show_data (text ++ 10 ∷ []) ≡ some (data_text (length text) text)
unfolding show_data
show_data-line [] h = ap (λ t. some (data_text 0 t)) (c_string-all [] tt)
show_data-line (b ∷ text) h =
    let len : length (text ++ 10 ∷ []) ≡ suc (length text) =
      length-append text (10 ∷ []) ∙ omega arith in
    ap (λ n. some (data_text n (c_string (take n (b ∷ (text ++ 10 ∷ [])))))) len
    ∙ ap (λ t. some (data_text (suc (length text)) (c_string (b ∷ t))))
        (take-append (length text) text (10 ∷ []) refl)
    ∙ ap (λ t. some (data_text (suc (length text)) t)) (c_string-all (b ∷ text) h)

module _ (c : Crypto) (d : Decrypt c) where
  -- If the bytes of the message that is made fit into eight bits, the program prints one line from which
  -- they are read back, and a receiver reads the user name from them. Behind it the program prints, of a
  -- file with a line of at most 499 bytes and no NUL, the length and the line; and it writes before its
  -- array where the file is empty or cannot be read.
  pub main-reads :
      (rands text : List ℕ) (now : ℕ)
      → length rands ≡ 8
      → HasNoNul text
      → length text ≤ 499
      → ((str cmd : List ℕ)
          → create_send_message c rands now user pass (replicate 24 b'0') 2 ≡ some (str, cmd)
          → all_bytes str ≡ true)
      → (str : List ℕ) × (line : List ℕ) × (receive c d pass str ≡ some user)
        × (read_line 0 line ≡ str)
        × (main c rands now (opened (text ++ 10 ∷ []))
            ≡ some (
                line
                ++ (codes "--------------------------open file------------------------\nlen: "
                    ++ (decimal (length text)
                        ++ (codes "\n last: 0x00\ndata: " ++ (text ++ codes "\n"))))))
        × (main c rands now (opened []) ≡ none)
        × (main c rands now not_read ≡ none)
        × (main c rands now not_opened ≡ some (line ++ codes "open filed!!\n"))
  unfolding main read_back
  main-reads rands text now h t l small =
      let (str, sent, read) =
        send-receive c d rands user pass (replicate 24 b'0') now 2 h (inl refl)
          (record { named = omega arith; name = omega arith; pass = omega arith }) (omega arith) in
      let whole : take 500 (text ++ 10 ∷ []) ≡ text ++ 10 ∷ [] =
        take-all 500 (text ++ 10 ∷ []) (omega byte_lengths) in
      (
        str,
        out_put_str str,
        read,
        read_line-out_put_str str (small str _ sent),
        rw (sent, whole, show_data-line text t) refl,
        rw sent refl,
        rw sent refl,
        rw sent refl,
      )
