-- ===== src/MacLimit/Config.antt =====
-- The proc file of dirver/maclimit/maclimit.c: `read_maclimit_proc` and `write_maclimit_proc`.
use quick_start.Common.{
  ℕ, zero, suc, ◌+◌, Bool, true, false, not, ◌&&◌, ◌||◌, Option, none, some, ◌>>=◌, List, [], ◌∷◌,
  ◌++◌, length, drop, ltb, ◌==◌, if◌then◌else◌, codes, signed_decimal,
}
use quick_start.Common.Int.{to_signed}
use quick_start.MacLimit.Types.{MaclimitCfg}

abbrev pub proc_receve_buf_size : ℕ
proc_receve_buf_size = 20

abbrev pub space : ℕ
space = b' '

abbrev pub proc_send_buf_size : ℕ
proc_send_buf_size = 255

-- The text that `sprintf` writes to `page`.
unfoldable pub page_text : MaclimitCfg → List ℕ
page_text cfg =
    codes "config: limit_num: "
    ++ (signed_decimal cfg.limit_num
        ++ (codes ", enable: " ++ (signed_decimal cfg.enable ++ codes "\n")))

-- The bytes that are delivered, over the kernel's `simple_read_from_buffer`; `none` is a text that, with
-- its NUL, runs over `page`.
unfoldable pub read_maclimit_proc :
    (simple_read_from_buffer : (cnt pos : ℕ) (page : List ℕ) → List ℕ)
    → (cnt pos : ℕ) → MaclimitCfg
    → Option (List ℕ)
unfolding page_text
read_maclimit_proc simple_read_from_buffer cnt pos cfg =
    if ltb proc_send_buf_size (length (page_text cfg) + 1)
    then none
    else some (simple_read_from_buffer cnt pos (page_text cfg))

-- `-EFAULT`, a read behind the end of `buf`, or the count with the configuration that is left.
pub data Written : Type 0 where
  efault : Written
  overread : Written
  wrote : ℕ → MaclimitCfg → Written

-- The test of the loop at `buf[i]`, where `rest` begins with `buf[i + 1]`, which is read only behind a
-- space; `none` is a read behind the end.
unfoldable pub option_starts : ℕ → ℕ → List ℕ → Option Bool
option_starts i c [] = if c == space then none else some (i == 0)
option_starts i c (d ∷ rest) = some ((c == space && (not (d == 0) && not (d == space))) || i == 0)

-- What the program leaves to the kernel: the number at the head of a text, where `none` is a number
-- that does not end in it, for which the kernel reads behind its end; and the width of a `long`.
module _ (simple_strtoul : List ℕ → Option ℕ) (long_bits : ℕ) where
  -- The `switch` on `opt_num`, at `buf[i]`; `none` is a read behind the end of `buf`.
  unfoldable pub set_option : ℕ → List ℕ → MaclimitCfg → Option MaclimitCfg
  set_option zero text cfg =
      simple_strtoul text >>= (λ v. some (record cfg { limit_num = to_signed long_bits v }))
  set_option (suc zero) text cfg =
      simple_strtoul (drop 1 text) >>= (λ v. some (record cfg { enable = to_signed 32 v }))
  set_option (suc (suc n)) text cfg = some cfg

  -- The loop, with `n` rounds left, over the bytes from `buf[i]` on.
  unfoldable pub parse : ℕ → ℕ → ℕ → List ℕ → MaclimitCfg → Option MaclimitCfg
  parse zero i opt_num text cfg = some cfg
  parse (suc n) i opt_num [] cfg = none
  parse (suc n) i opt_num (c ∷ rest) cfg = elim (option_starts i c rest) [
    | none ↦ none
    | some true ↦
        set_option opt_num (c ∷ rest) cfg >>= (λ cfg'. parse n (i + 1) (opt_num + 1) rest cfg')
    | some false ↦ parse n (i + 1) opt_num rest cfg
  ]

  unfoldable pub written : ℕ → Option MaclimitCfg → Written
  written count none = overread
  written count (some cfg) = wrote count cfg

  -- `stack` is what `buf` held before; `copied` is whether `copy_from_user` has copied all of the
  -- `count` bytes of `buffer`.
  unfoldable pub write_maclimit_proc : List ℕ → Bool → List ℕ → MaclimitCfg → Written
  unfolding written
  write_maclimit_proc stack copied buffer cfg =
      if ltb proc_receve_buf_size (length buffer)
      then efault
      else if not copied
      then efault
      else written (length buffer)
          (parse (length buffer) 0 0 (buffer ++ drop (length buffer) stack) cfg)
