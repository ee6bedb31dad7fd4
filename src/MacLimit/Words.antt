-- ===== src/MacLimit/Words.antt =====
-- The options that a write to the proc file of dirver/maclimit/maclimit.c sets.
use mathlib.Core.List.{append_assoc}
use quick_start.Common.{
  byte_lengths, ℕ, suc, ◌+◌, ◌<◌, ◌≡◌, ◌≢◌, refl, sym, ap, ◌∙◌, inl, inr, true, Option, some, List,
  ◌∷◌, ◌++◌, length, length-append, drop, arith,
}
use quick_start.Common.Int.{to_signed}
use quick_start.MacLimit.Types.{MaclimitCfg}
use quick_start.MacLimit.Config.{
  wrote, proc_receve_buf_size, space, set_option, parse, written, write_maclimit_proc,
}
use quick_start.MacLimit.Options.{
  HasNoSpace, option_starts-first, option_starts-space, parses, parse-word, parse-ignores,
  parse-overread, accepted,
}

module _ (simple_strtoul : List ℕ → Option ℕ) (long_bits : ℕ) where
  parse-first :
      (n o c : ℕ) (rest : List ℕ) (cfg cfg' : MaclimitCfg)
      → c ≢ space
      → set_option simple_strtoul long_bits o (c ∷ rest) cfg ≡ some cfg'
      → parses simple_strtoul long_bits (suc n) 0 o (c ∷ rest) cfg
        ≡ parses simple_strtoul long_bits n 1 (o + 1) rest cfg'
  unfolding parse
  parse-first n o c rest cfg cfg' h e = rw (option_starts-first c rest h, e, parse)

  parse-second :
      (n i o d : ℕ) (rest : List ℕ) (cfg cfg' : MaclimitCfg)
      → d ≢ 0
      → d ≢ space
      → set_option simple_strtoul long_bits o (space ∷ d ∷ rest) cfg ≡ some cfg'
      → parses simple_strtoul long_bits (suc n) i o (space ∷ d ∷ rest) cfg
        ≡ parses simple_strtoul long_bits n (i + 1) (o + 1) (d ∷ rest) cfg'
  unfolding parse
  parse-second n i o d rest cfg cfg' z h e = rw (option_starts-space i d rest z h, e, parse)

  -- What is left behind the second option, with a byte of the buffer to spare.
  parse-rest :
      (i d : ℕ) (e t : List ℕ) (cfg : MaclimitCfg)
      → 0 < length t
      → parses simple_strtoul long_bits (suc (length e)) i 2 (d ∷ (e ++ t)) cfg ≡ some cfg
  parse-rest i d e t cfg h =
      elim (parse-ignores simple_strtoul long_bits (suc (length e)) i 0 (d ∷ (e ++ t)) cfg) [
        | inl f ↦
            let scan =
              parse-overread simple_strtoul long_bits (suc (length e)) i 2 (d ∷ (e ++ t)) cfg
                (omega byte_lengths) in
            elim (scan.0 f) [
              | inl (full, _) ↦ absurd (omega (arith, full, length-append e t))
              | inr (few, _, _) ↦ absurd (omega (arith, few))
            ]
        | inr f ↦ f
      ]

  parse-two :
      (w e t : List ℕ) (c d n limit enable : ℕ) (cfg : MaclimitCfg)
      → HasNoSpace (c ∷ w)
      → d ≢ 0
      → d ≢ space
      → n ≡ length w + suc (suc (length e))
      → 0 < length t
      → simple_strtoul (c ∷ (w ++ space ∷ d ∷ (e ++ t))) ≡ some limit
      → simple_strtoul (d ∷ (e ++ t)) ≡ some enable
      → parses simple_strtoul long_bits (suc n) 0 0 (c ∷ (w ++ space ∷ d ∷ (e ++ t))) cfg
        ≡ some (record { limit_num = to_signed long_bits limit; enable = to_signed 32 enable })
  unfolding set_option
  parse-two w e t c d n limit enable cfg h z s en l el ee =
      let cfg0 : MaclimitCfg = record cfg { limit_num = to_signed long_bits limit } in
      let cfg1 : MaclimitCfg = record cfg0 { enable = to_signed 32 enable } in
      parse-first n 0 c (w ++ space ∷ d ∷ (e ++ t)) cfg cfg0 h.0 (rw el refl)
      ∙ parse-word simple_strtoul long_bits w (space ∷ d ∷ (e ++ t)) n (suc (suc (length e))) 1
          (1 + length w) 1 _ h.1 (λ e. cc) en refl
      ∙ parse-second (suc (length e)) (1 + length w) 1 d (e ++ t) cfg0 cfg1 z s (rw ee refl)
      ∙ parse-rest (1 + length w + 1) d e t _ l

  -- A write of a word, a space and a text that begins with neither a space nor a NUL, of fewer than 20
  -- bytes and copied, sets the limit to the number that `simple_strtoul` reads at the head of the
  -- buffer, and `enable` to the one that it reads behind the space. The buffer is the text followed by
  -- what the stack held, in which both numbers are to end.
  pub write_maclimit_proc-words :
      (stack w e : List ℕ) (c d limit enable : ℕ) (cfg : MaclimitCfg)
      → length (c ∷ w ++ space ∷ d ∷ e) < proc_receve_buf_size
      → length stack ≡ proc_receve_buf_size
      → HasNoSpace (c ∷ w)
      → d ≢ 0
      → d ≢ space
      → let buffer = c ∷ w ++ space ∷ d ∷ e in
        let rest = drop (length buffer) stack in
        simple_strtoul (buffer ++ rest) ≡ some limit
        → simple_strtoul (d ∷ e ++ rest) ≡ some enable
        → write_maclimit_proc simple_strtoul long_bits stack true buffer cfg
          ≡ wrote
              (length buffer)
              (record { limit_num = to_signed long_bits limit; enable = to_signed 32 enable })
  unfolding written
  write_maclimit_proc-words stack w e c d limit enable cfg l ls h z s el ee =
      let buffer = c ∷ w ++ space ∷ d ∷ e in
      let rest = drop (length buffer) stack in
      let joined = append_assoc w (space ∷ d ∷ e) rest in
      let p : parses simple_strtoul long_bits (length buffer) 0 0 (buffer ++ rest) cfg
          ≡ some (record { limit_num = to_signed long_bits limit; enable = to_signed 32 enable }) =
        rw joined (
          parse-two w e rest c d (length (w ++ space ∷ d ∷ e)) limit enable cfg h z s
            (length-append w (space ∷ d ∷ e)) (omega byte_lengths)
            (ap simple_strtoul (ap (◌∷◌ c) (sym joined)) ∙ el) ee) in
      accepted simple_strtoul long_bits stack buffer cfg (λ g. omega arith)
      ∙ ap (written simple_strtoul long_bits (length buffer)) p
