-- ===== src/Hack/Format.antt =====
-- lab/c/hack/fmt.c prints its argument as a format, and print.c prints a text that its buffer does not
-- hold.
use quick_start.Common.{
  byte_lengths, ℕ, zero, suc, ◌+◌, ◌-◌, ◌≡◌, ◌≢◌, ◌≤◌, ◌<◌, refl, List, [], ◌∷◌, ◌++◌, Option, none,
  some, false, ◌>>=◌, length, take, replicate, codes, ltb, ◌==◌, if◌then◌else◌, arith,
}

-- What `sprintf` stores in an array of `size` bytes, less its NUL; `none` is a write behind the end.
unfoldable pub sprintf : ℕ → List ℕ → Option (List ℕ)
sprintf size text = if ltb (length text) size then some text else none

-- `printf` of a text without arguments: `none` is a conversion, which reads an argument that is not
-- there.
unfoldable pub printf : List ℕ → Option (List ℕ)
printf [] = some []
printf (c ∷ []) = if c == b'%' then none else some (c ∷ [])
printf (c ∷ d ∷ s) =
    let behind = printf s in
    let next = printf (d ∷ s) in
    if c == b'%'
    then if d == b'%' then (behind >>= λ t. some (b'%' ∷ t)) else none
    else (next >>= λ t. some (c ∷ t))

-- `main` of fmt.c, over `argv[1]`: what it prints.
unfoldable pub fmt_main : Option (List ℕ) → Option (List ℕ)
unfolding sprintf printf
fmt_main none = none
fmt_main (some arg) = do
  tmp ← sprintf 4096 (take 4000 arg ++ codes "\n")
  text ← printf tmp
  some (text ++ codes "\n")

-- `%-4s`
unfoldable pub field4 : List ℕ → List ℕ
field4 s = s ++ replicate (4 - length s) b' '

-- `t1` and `main` of print.c.
unfoldable pub t1 : Option (List ℕ)
unfolding sprintf field4
t1 = sprintf 2 (field4 (codes "123456789") ++ (codes " ======  " ++ field4 (codes "123456789")))

-- No byte begins a conversion.
abbrev pub HasNoPercent : List ℕ → Type 0
HasNoPercent [] = Unit {0}
HasNoPercent (c ∷ s) = (c ≢ b'%') × HasNoPercent s

printf-plain : (s : List ℕ) → HasNoPercent s → printf s ≡ some s
unfolding printf
printf-plain [] h = refl
printf-plain (c ∷ []) h = ground arith
printf-plain (c ∷ d ∷ s) h =
    let ih = printf-plain (d ∷ s) h.1 in
    let e : (c == b'%') ≡ false = ground (arith, h.0) in rw (e, ih) refl

take-percent : (n : ℕ) (s : List ℕ) → HasNoPercent s → HasNoPercent (take n s ++ codes "\n")
take-percent zero s h = (omega arith, tt)
take-percent (suc n) [] h = (omega arith, tt)
take-percent (suc n) (c ∷ s) h = (h.0, take-percent n s h.1)

length-take_le : (n : ℕ) (s : List ℕ) → length (take n s) ≤ n
length-take_le zero s = omega arith
length-take_le (suc n) [] = omega arith
length-take_le (suc n) (c ∷ s) = omega (arith, length-take_le n s)

length-line : (n : ℕ) (s : List ℕ) → length (take n s ++ codes "\n") ≤ n + 1
length-line n s = omega (byte_lengths, length-take_le n s)

sprintf-fits :
    (size n : ℕ) (text : List ℕ) → length text ≤ n → n < size → sprintf size text ≡ some text
unfolding sprintf
sprintf-fits size n text h l = ground arith

-- An argument without a conversion is printed, up to 4000 bytes of it, with two line ends: the buffer
-- holds every argument.
pub fmt_main-plain :
    (arg : List ℕ)
    → HasNoPercent arg
    → fmt_main (some arg) ≡ some ((take 4000 arg ++ codes "\n") ++ codes "\n")
unfolding fmt_main
fmt_main-plain arg h =
    let tmp = take 4000 arg ++ codes "\n" in
    rw
      (
        sprintf-fits 4096 (4000 + 1) tmp (length-line 4000 arg) (omega arith),
        printf-plain tmp (take-percent 4000 arg h),
      )
      refl

-- print.c writes behind the end of its buffer.
t1-overrun : t1 ≡ none
unfolding t1 field4 sprintf
t1-overrun = refl
