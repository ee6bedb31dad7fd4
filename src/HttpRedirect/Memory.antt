-- ===== src/HttpRedirect/Memory.antt =====
-- What `http404_nf_cb` of lab/net/httpredirect/httpredirect.c leaves in the memory behind the headers.
use mathlib.Core.List.{append_assoc}
use quick_start.Common.{
  byte_lengths, ℕ, zero, suc, ◌+◌, ◌*◌, ◌≡◌, ◌≤◌, ◌<◌, refl, sym, ap, ◌∙◌, List, [], ◌∷◌, ◌++◌,
  Bool, true, ◌&&◌, not, none, some, length, length-append, length-replicate, length-drop, take,
  take-append, drop, drop-append, replicate, ltb, Bool-cases, inl, inr, ◌==◌, arith,
}
use quick_start.HttpRedirect.Types.{strlen, http_302_header}
use quick_start.HttpRedirect.Rewrite.{write_at, rewrite_payload}

-- Whether a text has no NUL in it.
abbrev pub no_nul : List ℕ → Bool
no_nul [] = true
no_nul (c ∷ s) = not (c == 0) && no_nul s

no_nul-append : (s t : List ℕ) → no_nul s ≡ true → no_nul t ≡ true → no_nul (s ++ t) ≡ true
no_nul-append [] t h k = k
no_nul-append (c ∷ s) t h k = ground (arith, no_nul-append s t (ground arith) k)

header-no_nul : (url : List ℕ) → no_nul url ≡ true → no_nul (http_302_header url) ≡ true
unfolding http_302_header
header-no_nul url h = no_nul-append url _ h refl

strlen-append : (s t : List ℕ) → no_nul s ≡ true → strlen (s ++ 0 ∷ t) ≡ length s
unfolding strlen
strlen-append [] t h = refl
strlen-append (c ∷ s) t h = ground (arith, strlen-append s t (ground arith))

drop-nil : (n : ℕ) → drop {A = ℕ} n [] ≡ []
drop-nil zero = refl
drop-nil (suc n) = refl

pub drop-drop : (m n k : ℕ) (xs : List ℕ) → k ≡ n + m → drop m (drop n xs) ≡ drop k xs
drop-drop m zero k xs e = ap (λ i. drop i xs) (omega (arith, e))
drop-drop m (suc n) k [] e = drop-nil m ∙ sym (drop-nil k)
drop-drop m (suc n) zero (x ∷ xs) e = absurd (omega (arith, e))
drop-drop m (suc n) (suc k) (x ∷ xs) e = drop-drop m n k xs (omega (arith, e))

write_at-some :
    (i : ℕ) (bytes mem : List ℕ)
    → i + length bytes ≤ length mem
    → write_at i bytes mem ≡ some (take i mem ++ (bytes ++ drop (i + length bytes) mem))
unfolding write_at
write_at-some i bytes mem h = ground arith

write_at-none :
    (i : ℕ) (bytes mem : List ℕ) → length mem < i + length bytes → write_at i bytes mem ≡ none
unfolding write_at
write_at-none i bytes mem h = ground arith

-- The answer with its NUL, over the memory.
abbrev printed : List ℕ → List ℕ → List ℕ
printed url mem = (http_302_header url ++ 0 ∷ []) ++ drop (length (http_302_header url) + 1) mem

-- All of the memory once it is rewritten: the answer, its NUL, zeros, and what is left of the memory.
abbrev pub redirected : List ℕ → ℕ → List ℕ → List ℕ
redirected url len mem =
    (http_302_header url ++ 0 ∷ [])
    ++ (replicate (len + length (http_302_header url) + 1) 0
        ++ drop (len + 2 * (length (http_302_header url) + 1)) mem)

module _ (url : List ℕ) (len : ℕ) (mem : List ℕ) where
  abbrev size : ℕ
  size = length (http_302_header url)

  length-head : length (http_302_header url ++ 0 ∷ []) ≡ size + 1
  length-head = length-append (http_302_header url) (0 ∷ [])

  length-printed : size + 1 ≤ length mem → length (printed url mem) ≡ length mem
  length-printed h = omega (
    arith,
    length-head,
    length-append (http_302_header url ++ 0 ∷ []) (drop (size + 1) mem),
    length-drop (size + 1) mem,
  )

  strlen-printed : no_nul url ≡ true → strlen (printed url mem) ≡ size
  strlen-printed h =
      ap strlen (append_assoc (http_302_header url) (0 ∷ []) (drop (size + 1) mem))
      ∙ strlen-append (http_302_header url) (drop (size + 1) mem) (header-no_nul url h)

  sprintf-some :
      size + 1 ≤ length mem
      → write_at 0 (http_302_header url ++ 0 ∷ []) mem ≡ some (printed url mem)
  sprintf-some h =
      write_at-some 0 (http_302_header url ++ 0 ∷ []) mem (omega (arith, length-head))
      ∙ ap (λ n. some ((http_302_header url ++ 0 ∷ []) ++ drop n mem)) (omega (arith, length-head))

  -- The `memset` behind the answer.
  memset-some :
      len + 2 * (size + 1) ≤ length mem
      → write_at (size + 1) (replicate (len + size + 1) 0) (printed url mem)
        ≡ some (redirected url len mem)
  memset-some l =
      let n = length-replicate {A = ℕ} (len + size + 1) 0 in
      write_at-some (size + 1) (replicate (len + size + 1) 0) (printed url mem)
        (omega (arith, n, length-printed (omega arith)))
      ∙ rw
          (
            take-append (size + 1) (http_302_header url ++ 0 ∷ []) (drop (size + 1) mem)
                length-head,
            n,
            rest,
          )
          refl
    where
      rest : drop (size + 1 + (len + size + 1)) (printed url mem) ≡ drop (len + 2 * (size + 1)) mem
      rest =
          sym (
            drop-drop (len + size + 1) (size + 1) (size + 1 + (len + size + 1)) (printed url mem)
              refl)
          ∙ ap (drop (len + size + 1)) (
              drop-append (size + 1) (http_302_header url ++ 0 ∷ []) (drop (size + 1) mem)
                length-head)
          ∙ drop-drop (len + size + 1) (size + 1) (len + 2 * (size + 1)) mem (omega arith)

  memset-none :
      size + 1 ≤ length mem
      → length mem < len + 2 * (size + 1)
      → write_at (size + 1) (replicate (len + size + 1) 0) (printed url mem) ≡ none
  memset-none h l =
      write_at-none (size + 1) (replicate (len + size + 1) 0) (printed url mem)
        (omega (byte_lengths, length-printed h))

  pub rewrite_payload-some :
      no_nul url ≡ true
      → len + 2 * (size + 1) ≤ length mem
      → rewrite_payload url len mem ≡ some (redirected url len mem)
  unfolding rewrite_payload
  rewrite_payload-some h l = rw (sprintf-some (omega arith), strlen-printed h) (memset-some l)

  pub rewrite_payload-none :
      no_nul url ≡ true → length mem < len + 2 * (size + 1) → rewrite_payload url len mem ≡ none
  unfolding rewrite_payload
  rewrite_payload-none h l = elim (Bool-cases (ltb (length mem) (size + 1))) [
    | inl short ↦
        let less : length mem < size + 1 = ground arith in
        rw (write_at-none 0 (http_302_header url ++ 0 ∷ []) mem (omega (arith, length-head))) refl
    | inr long ↦
        let more : size + 1 ≤ length mem = ground arith in
        rw (sprintf-some more, strlen-printed h) (memset-none more l)
  ]

  pub len-le-redirected : len ≤ length (redirected url len mem)
  len-le-redirected = omega (
    arith,
    length-append (http_302_header url ++ 0 ∷ [])
        (replicate (len + size + 1) 0 ++ drop (len + 2 * (size + 1)) mem),
    length-append (replicate (len + size + 1) 0) (drop (len + 2 * (size + 1)) mem),
    length-replicate {A = ℕ} (len + size + 1) 0,
  )
