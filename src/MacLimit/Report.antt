-- ===== src/MacLimit/Report.antt =====
-- Numbers that are written to the proc file of dirver/maclimit/maclimit.c and read from it.
use mathlib.Core.List.{append_assoc}
use quick_start.Common.{
  ℕ, ◌+◌, ◌*◌, ◌^◌, ◌<◌, ◌≤◌, ◌≡◌, refl, sym, ap, ◌∙◌, true, List, [], ◌∷◌, ◌++◌, Option, some,
  length, length-append, drop, codes, decimal, decimal-cons, length-decimal, signed_decimal,
  all_digits, arith,
}
use quick_start.Common.Int.{pos, to_signed, to_signed-small}
use quick_start.MacLimit.Types.{MaclimitCfg}
use quick_start.MacLimit.Config.{
  wrote, proc_receve_buf_size, proc_send_buf_size, space, page_text, read_maclimit_proc,
  write_maclimit_proc,
}
use quick_start.MacLimit.Options.{HasNoSpace}
use quick_start.MacLimit.Words.{write_maclimit_proc-words}

abbrev pub newline : ℕ
newline = b'\n'

digits-HasNoSpace : (s : List ℕ) → all_digits s ≡ true → HasNoSpace s
digits-HasNoSpace [] h = tt
digits-HasNoSpace (c ∷ s) h = (λ e. ground arith, digits-HasNoSpace s (ground arith))

-- The line that is written for two numbers.
abbrev pub numbers : ℕ → ℕ → List ℕ
numbers n e = decimal n ++ space ∷ (decimal e ++ newline ∷ [])

fits_page :
    (n e : ℕ)
    → length (page_text (record { limit_num = pos n; enable = pos e })) + 1 ≤ proc_send_buf_size
unfolding page_text signed_decimal
fits_page n e = omega (
  arith,
  length-append (decimal n) (codes ", enable: " ++ (decimal e ++ codes "\n")),
  length-append (decimal e) (codes "\n"),
  length-decimal n,
  length-decimal e,
)

module _ (simple_strtoul : List ℕ → Option ℕ) (long_bits : ℕ)
    (simple_read_from_buffer : (cnt pos : ℕ) (page : List ℕ) → List ℕ)
    (strtoul-decimal : (n c : ℕ) (rest : List ℕ)
      → n < 10 ^ 20
      → n < 2 ^ long_bits
      → c < b'0'
      → simple_strtoul (decimal n ++ c ∷ rest) ≡ some n) where
  set :
      (stack : List ℕ) (cfg : MaclimitCfg) (n e : ℕ)
      → length stack ≡ proc_receve_buf_size
      → length (numbers n e) < proc_receve_buf_size
      → n < 10 ^ 20
      → n < 2 ^ long_bits
      → e < 10 ^ 20
      → e < 2 ^ long_bits
      → write_maclimit_proc simple_strtoul long_bits stack true (numbers n e) cfg
        ≡ wrote
            (length (numbers n e))
            (record { limit_num = to_signed long_bits n; enable = to_signed 32 e })
  set stack cfg n e ls l hn ln he le =
      let (c, w, en, dn) = decimal-cons n in
      let (d, v, ee, de) = decimal-cons e in
      let line : numbers n e ≡ c ∷ w ++ space ∷ d ∷ (v ++ newline ∷ []) = rw (en, ee) refl in
      let rest = drop (length (c ∷ w ++ space ∷ d ∷ (v ++ newline ∷ []))) stack in
      let first : simple_strtoul ((c ∷ w ++ space ∷ d ∷ (v ++ newline ∷ [])) ++ rest) ≡ some n =
        ap simple_strtoul (ap (◌∷◌ c) (append_assoc w (space ∷ d ∷ (v ++ newline ∷ [])) rest))
        ∙ ap (λ t. simple_strtoul (t ++ space ∷ d ∷ ((v ++ newline ∷ []) ++ rest))) (sym en)
        ∙ strtoul-decimal n space (d ∷ ((v ++ newline ∷ []) ++ rest)) hn ln (omega arith) in
      let second : simple_strtoul (d ∷ (v ++ newline ∷ []) ++ rest) ≡ some e =
        ap simple_strtoul (ap (◌∷◌ d) (append_assoc v (newline ∷ []) rest))
        ∙ ap (λ t. simple_strtoul (t ++ newline ∷ rest)) (sym ee)
        ∙ strtoul-decimal e newline rest he le (omega arith) in
      let fits = rw line at l in
      rw line (
        write_maclimit_proc-words simple_strtoul long_bits stack w (v ++ newline ∷ []) c d n e cfg
          fits ls (digits-HasNoSpace (c ∷ w) dn) (λ z. ground arith) (λ z. ground arith) first
          second)

  shown :
      (n e cnt start : ℕ)
      → read_maclimit_proc simple_read_from_buffer cnt start
          (record { limit_num = pos n; enable = pos e })
        ≡ some (
            simple_read_from_buffer cnt start
              (page_text (record { limit_num = pos n; enable = pos e })))
  unfolding read_maclimit_proc
  shown n e cnt start = let h = fits_page n e in ground arith

  -- Two numbers that are written on a line, of fewer than 20 bytes with its end, are the two that
  -- the file shows from then on: the page that is read has the first as the limit and the second as
  -- `enable`. Both must fit a `long`, the first also with its sign and below 10 ^ 20, and the
  -- second an `int`; `simple_strtoul` is to read a number in decimal that a byte below the digits
  -- ends.
  pub read_maclimit_proc-write :
      (stack : List ℕ) (cfg : MaclimitCfg) (n e cnt start : ℕ)
      → length stack ≡ proc_receve_buf_size
      → length (numbers n e) < proc_receve_buf_size
      → n < 10 ^ 20
      → 2 * n < 2 ^ long_bits
      → e < 2 ^ 31
      → e < 2 ^ long_bits
      → (cfg' : MaclimitCfg) × (write_maclimit_proc simple_strtoul long_bits stack true
            (numbers n e)
            cfg
          ≡ wrote (length (numbers n e)) cfg')
        × (read_maclimit_proc simple_read_from_buffer cnt start cfg'
            ≡ some (
                simple_read_from_buffer cnt start (
                  codes "config: limit_num: "
                  ++ (decimal n ++ (codes ", enable: " ++ (decimal e ++ codes "\n"))))))
  unfolding page_text signed_decimal
  read_maclimit_proc-write stack cfg n e cnt start ls l hn ln he le =
      let n' : to_signed long_bits n ≡ pos n = to_signed-small long_bits n ln in
      let e' : to_signed 32 e ≡ pos e = to_signed-small 32 e (omega arith) in
      (
        record { limit_num = pos n; enable = pos e },
        set stack cfg n e ls l hn (omega arith) (omega arith) le ∙ rw (n', e') refl,
        shown n e cnt start,
      )
