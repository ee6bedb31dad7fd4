-- ===== src/Des3/Tests.antt =====
-- The theorems about lab/c/des3/des3_encrypt.c, with a cipher and a hash that only cut and fill.
use quick_start.Common.{
  ap, sym, ◌∙◌, Option, Bool, true, decimal, byte_lengths, ℕ, ◌≡◌, refl, inl, inr, List, [], ◌∷◌,
  ◌++◌, none, some, length, length-take_all, take, take-append, replicate, codes, arith,
}
use quick_start.Des3.Base.{Crypto, create_onu_key, strnrand, byte_time}
use quick_start.Des3.Fixed.{create_encrypt_data2, create_encrypt_data2-equiv}
use quick_start.Des3.Message.{create_encrypt_data, create_encrypt_message, encrypt_blocks}
use quick_start.Des3.Padding.{set_pkcs7_padding}
use quick_start.Des3.Receive.{Decrypt, IsShort, receive}
use quick_start.Des3.Hex.{out_put_file_str, out_put_file_str_bounds}
use quick_start.Des3.Send.{build_message, create_send_message}
use quick_start.Des3.Main.{
  main, opened, not_opened, not_read, all_bytes, read_line, user, pass, main-reads,
}
use quick_start.Des3.Delivery.{command, send-receive, send-overrun}

abbrev fill : ℕ → List ℕ → List ℕ
fill n b = take n (b ++ replicate n 0)

length-fill : (n : ℕ) (b : List ℕ) → length (fill n b) ≡ n
length-fill n b = length-take_all n (b ++ replicate n 0) (omega byte_lengths)

abbrev trivial : Crypto
trivial = record {
  ecb3_encrypt = λ k₁ k₂ k₃ b. fill 8 b;
  md5 = λ m. fill 16 m;
  length-ecb3 = λ k₁ k₂ k₃ b. length-fill 8 b;
  length-md5 = λ m. length-fill 16 m;
}

fill-fill : (b : List ℕ) → length b ≡ 8 → fill 8 (fill 8 b) ≡ b
fill-fill b h = rw (take-append 8 b (replicate 8 0) h) (take-append 8 b (replicate 8 0) h)

abbrev undo : Decrypt trivial
undo = record {
  ecb3_decrypt = λ k₁ k₂ k₃ b. fill 8 b;
  decrypt-encrypt = λ k₁ k₂ k₃ b h. fill-fill b h;
}

abbrev rands : List ℕ
rands = 11 ∷ 300 ∷ 7 ∷ 99 ∷ 1 ∷ 2 ∷ 3 ∷ 4 ∷ []

short : IsShort user pass
short = record { named = omega arith; name = omega arith; pass = omega arith }

create_encrypt_data2-equiv_example :
    create_encrypt_data trivial rands (replicate 8 5) (codes "dgy666hello")
    ≡ some (create_encrypt_data2 trivial rands (replicate 8 5) (codes "dgy666hello"))
create_encrypt_data2-equiv_example =
    create_encrypt_data2-equiv trivial rands (replicate 8 5) (codes "dgy666hello") (omega arith)
      (omega arith)

send-receive_example :
    (str : List ℕ) × (create_send_message trivial rands 1527 user pass (replicate 24 b'0') 2
      ≡ some (str, command str))
    × (receive trivial undo pass str ≡ some user)
send-receive_example =
    send-receive trivial undo rands user pass (replicate 24 b'0') 1527 2 refl (inl refl) short
      (omega arith)

abbrev long_user : List ℕ
long_user = replicate 216 b'u'

send-overrun_example :
    (str : List ℕ) × (build_message trivial rands 1527 long_user pass [] 3 ≡ some str)
    × (create_send_message trivial rands 1527 long_user pass [] 3 ≡ none)
send-overrun_example =
    send-overrun trivial undo rands long_user pass [] 1527 3 refl (inr refl)
      (record { named = omega arith; name = omega arith; pass = omega arith }) (omega arith)

out_put_file_str_bounds_example : out_put_file_str (replicate 250 255) ≡ none
out_put_file_str_bounds_example = out_put_file_str_bounds 255 (replicate 249 255)

abbrev sent_bytes : Option (List ℕ × List ℕ) → Bool
sent_bytes none = true
sent_bytes (some (str, cmd)) = all_bytes str

sent_small :
    sent_bytes (create_send_message trivial rands 1527 user pass (replicate 24 b'0') 2) ≡ true
unfolding create_send_message create_encrypt_message create_onu_key strnrand byte_time
    create_encrypt_data set_pkcs7_padding encrypt_blocks out_put_file_str
sent_small = refl

main-reads_example :
    (str : List ℕ) × (line : List ℕ) × (receive trivial undo pass str ≡ some user)
    × (read_line 0 line ≡ str)
    × (main trivial rands 1527 (opened (codes "0a1b" ++ 10 ∷ []))
        ≡ some (
            line
            ++ (codes "--------------------------open file------------------------\nlen: "
                ++ (decimal 4 ++ (codes "\n last: 0x00\ndata: " ++ (codes "0a1b" ++ codes "\n"))))))
    × (main trivial rands 1527 (opened []) ≡ none)
    × (main trivial rands 1527 not_read ≡ none)
    × (main trivial rands 1527 not_opened ≡ some (line ++ codes "open filed!!\n"))
main-reads_example =
    main-reads trivial undo rands (codes "0a1b") 1527 refl (omega arith) (omega arith)
      (λ str cmd e. sym (ap sent_bytes e) ∙ sent_small)
