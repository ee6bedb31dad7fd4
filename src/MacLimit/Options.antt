-- ===== src/MacLimit/Options.antt =====
-- What a write to the proc file of dirver/maclimit/maclimit.c configures.
use quick_start.Common.{
  ℕ, zero, suc, ◌+◌, ◌<◌, ◌≤◌, ◌≡◌, ◌≢◌, refl, sym, ◌∙◌, Option-cases, ◌⊎◌, inl, inr, Bool, true,
  false, Option, none, some, List, [], ◌∷◌, ◌++◌, length, drop, arith,
}
use quick_start.MacLimit.Types.{MaclimitCfg}
use quick_start.MacLimit.Config.{
  proc_receve_buf_size, space, option_starts, set_option, parse, written, write_maclimit_proc,
}

abbrev pub HasNoSpace : List ℕ → Type 0
HasNoSpace [] = Unit {0}
HasNoSpace (c ∷ cs) = (c ≢ space) × HasNoSpace cs

abbrev pub EndsIn : ℕ → List ℕ → Type 0
EndsIn c [] = ⊥
EndsIn c (x ∷ []) = x ≡ c
EndsIn c (x ∷ y ∷ xs) = EndsIn c (y ∷ xs)

option_starts-word :
    (i c : ℕ) (rest : List ℕ) → i ≢ 0 → c ≢ space → option_starts i c rest ≡ some false
unfolding option_starts
option_starts-word i c [] n h = ground arith
option_starts-word i c (d ∷ rest) n h = ground arith

pub option_starts-first : (c : ℕ) (rest : List ℕ) → c ≢ space → option_starts 0 c rest ≡ some true
unfolding option_starts
option_starts-first c [] h = ground arith
option_starts-first c (d ∷ rest) h = ground arith

pub option_starts-space :
    (i d : ℕ) (rest : List ℕ) → d ≢ 0 → d ≢ space → option_starts i space (d ∷ rest) ≡ some true
unfolding option_starts
option_starts-space i d rest z h = ground arith

module _ (simple_strtoul : List ℕ → Option ℕ) (long_bits : ℕ) where
  abbrev pub parses : ℕ → ℕ → ℕ → List ℕ → MaclimitCfg → Option MaclimitCfg
  parses = parse simple_strtoul long_bits

  -- Behind the first byte, a byte that is no space starts no option.
  pub parse-word :
      (w t : List ℕ) (m n i j o : ℕ) (cfg : MaclimitCfg)
      → HasNoSpace w
      → i ≢ 0
      → m ≡ length w + n
      → j ≡ i + length w
      → parses m i o (w ++ t) cfg ≡ parses n j o t cfg
  unfolding parse
  parse-word [] t m n i j o cfg h z em ej =
      let a : m ≡ n = omega arith in let b : j ≡ i = omega arith in rw (a, b)
  parse-word (c ∷ w) t zero n i j o cfg h z em ej = absurd (omega arith)
  parse-word (c ∷ w) t (suc m) n i j o cfg h z em ej =
      rw (option_starts-word i c (w ++ t) z h.0, parse)
        (parse-word w t m n (i + 1) j o cfg h.1 (omega arith) (omega arith) (omega arith))

  -- From the third option on the text is ignored.
  pub parse-ignores :
      (n i o : ℕ) (text : List ℕ) (cfg : MaclimitCfg)
      → (parses n i (suc (suc o)) text cfg ≡ none) ⊎ (parses n i (suc (suc o)) text cfg ≡ some cfg)
  unfolding parse set_option
  parse-ignores zero i o text cfg = inr refl
  parse-ignores (suc n) i o [] cfg = inl refl
  parse-ignores (suc n) i o (c ∷ rest) cfg =
      ground (arith, parse-ignores n (i + 1) o rest cfg, parse-ignores n (i + 1) (suc o) rest cfg)

  set_option-none :
      (o : ℕ) (text : List ℕ) (cfg : MaclimitCfg)
      → set_option simple_strtoul long_bits o text cfg ≡ none
      → (o < 2) × (simple_strtoul (drop o text) ≡ none)
  unfolding set_option
  set_option-none zero text cfg e = ground arith
  set_option-none (suc zero) text cfg e = ground arith
  set_option-none (suc (suc o)) text cfg e = absurd (cc)

  -- A round starts no option, or one of which the number is read, or one of which the number does not
  -- end in the buffer.
  parse-round :
      (n i o c : ℕ) (rest : List ℕ) (cfg : MaclimitCfg) (b : Bool)
      → option_starts i c rest ≡ some b
      → ((o' : ℕ) × (cfg' : MaclimitCfg) × (o ≤ o')
          × (parses (suc n) i o (c ∷ rest) cfg ≡ parses n (i + 1) o' rest cfg'))
        ⊎ ((parses (suc n) i o (c ∷ rest) cfg ≡ none)
            × (o < 2)
            × (simple_strtoul (drop o (c ∷ rest)) ≡ none))
  unfolding parse
  parse-round n i o c rest cfg false e = inl (o, cfg, omega arith, rw (e, parse))
  parse-round n i o c rest cfg true e =
      elim (Option-cases (set_option simple_strtoul long_bits o (c ∷ rest) cfg)) [
        | inl f ↦
            let (few, r) = set_option-none o (c ∷ rest) cfg f in inr (rw (e, f, parse), few, r)
        | inr (cfg', f) ↦ inl (o + 1, cfg', omega arith, rw (e, f, parse))
      ]

  ends : (i c : ℕ) → option_starts i c [] ≡ none → c ≡ space
  unfolding option_starts
  ends i c e = ground arith

  starts : (i c : ℕ) (b : Bool) → option_starts i c [] ≡ some b → c ≢ space
  unfolding option_starts
  starts i c b e = λ z. ground arith

  -- The loop reads behind the end for its last byte, or in a number.
  abbrev Behind : ℕ → ℕ → List ℕ → Type 0
  Behind n o text =
      ((n ≡ length text) × EndsIn space text)
      ⊎ ((o < 2) × (m : ℕ) × (simple_strtoul (drop m text) ≡ none))

  parse-last :
      (i o c : ℕ) (cfg : MaclimitCfg)
      → (parses 1 i o (c ∷ []) cfg ≡ none → Behind 1 o (c ∷ []))
        × (c ≡ space → parses 1 i o (c ∷ []) cfg ≡ none)
  unfolding parse
  parse-last i o c cfg = elim (Option-cases (option_starts i c [])) [
    | inl f ↦ (λ e. inl (refl, ends i c f), λ e. rw (f, parse))
    | inr (b, f) ↦ elim (parse-round 0 i o c [] cfg b f) [
      | inl (o', cfg', more, e) ↦ (λ g. absurd (cc), λ g. absurd (starts i c b f g))
      | inr (e, few, r) ↦ (λ g. inr (few, o, r), λ g. e)
    ]
  ]

  -- A loop that may not run over the buffer.
  pub parse-overread :
      (n i o : ℕ) (text : List ℕ) (cfg : MaclimitCfg)
      → n ≤ length text
      → (parses n i o text cfg ≡ none → Behind n o text)
        × ((n ≡ length text) × EndsIn space text → parses n i o text cfg ≡ none)
  unfolding parse option_starts
  parse-overread zero i o [] cfg h = (λ e. absurd (cc), λ e. absurd e.1)
  parse-overread zero i o (c ∷ rest) cfg h = (λ e. absurd (cc), λ e. absurd (omega arith))
  parse-overread (suc n) i o [] cfg h = absurd (omega arith)
  parse-overread (suc zero) i o (c ∷ []) cfg h = let l = parse-last i o c cfg in (l.0, λ e. l.1 e.1)
  parse-overread (suc (suc n)) i o (c ∷ []) cfg h = absurd (omega arith)
  parse-overread (suc n) i o (c ∷ d ∷ rest) cfg h =
      elim (parse-round n i o c (d ∷ rest) cfg _ refl) [
        | inl (o', cfg', more, e) ↦
            let ih = parse-overread n (i + 1) o' (d ∷ rest) cfg' (omega arith) in
            (
              λ f. elim (ih.0 (sym e ∙ f)) [
                | inl g ↦ inl (omega arith, g.1)
                | inr (few, m, g) ↦ inr (omega arith, suc m, g)
              ],
              λ f. e ∙ ih.1 (omega arith, f.1),
            )
        | inr (e, few, g) ↦ (λ f. inr (few, o, g), λ f. e)
      ]

  -- `buf` behind `copy_from_user`.
  abbrev pub text : List ℕ → List ℕ → List ℕ
  text stack buffer = buffer ++ drop (length buffer) stack

  pub accepted :
      (stack buffer : List ℕ) (cfg : MaclimitCfg)
      → ¬ (proc_receve_buf_size < length buffer)
      → write_maclimit_proc simple_strtoul long_bits stack true buffer cfg
        ≡ written simple_strtoul long_bits
            (length buffer)
            (parses (length buffer) 0 0 (text stack buffer) cfg)
  unfolding write_maclimit_proc
  accepted stack buffer cfg h = ground arith
