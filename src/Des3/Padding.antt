-- ===== src/Des3/Padding.antt =====
-- `set_pkcs7_padding` of lab/c/des3/des3_encrypt.c.
use quick_start.Common.{
  ◌>>=◌, ℕ, zero, suc, ◌+◌, ◌-◌, ◌/◌, ◌%◌, ◌≤◌, ◌<◌, ◌≡◌, refl, ap, ◌∙◌, List, [], ◌∷◌, ◌++◌,
  Option, some, length, length-append, length-replicate, take, replicate, ◌==◌, if◌then◌else◌,
  arith, take-append,
}
use quick_start.Des3.Base.{fits, fits-some}

-- The number of bytes added.
unfoldable pub pad_count : ℕ → ℕ
pad_count len = if len == 0 then 0 else 8 - len % 8

-- The text and its padding.
unfoldable pub padded : List ℕ → List ℕ
unfolding pad_count
padded input = input ++ replicate (pad_count (length input)) (pad_count (length input))

-- The bytes of `str`, which holds 500, and the number of blocks.
unfoldable pub set_pkcs7_padding : List ℕ → Option (List ℕ × ℕ)
unfolding padded
set_pkcs7_padding input = do str ← fits 500 (padded input); some (str, length str / 8)

pad_count_bounds :
    (n : ℕ) → 0 < n → (1 ≤ pad_count n) × (pad_count n ≤ 8) × ((n + pad_count n) % 8 ≡ 0)
unfolding pad_count
pad_count_bounds n h = ground arith

pub length-padded :
    (input : List ℕ) → length (padded input) ≡ length input + pad_count (length input)
unfolding padded
length-padded input =
    length-append input _ ∙ ap (◌+◌ (length input)) (length-replicate _ (pad_count (length input)))

-- The last byte of a text.
abbrev pub last : List ℕ → ℕ
last [] = 0
last (c ∷ []) = c
last (c ∷ d ∷ s) = last (d ∷ s)

-- The receiver's side of PKCS #7: the last byte says how many bytes to take off.
unfoldable pub unpad : List ℕ → List ℕ
unpad s = take (length s - last s) s

last-replicate : (n c : ℕ) → last (replicate (suc n) c) ≡ c
last-replicate zero c = refl
last-replicate (suc n) c = last-replicate n c

last-append : (xs : List ℕ) (y : ℕ) (ys : List ℕ) → last (xs ++ y ∷ ys) ≡ last (y ∷ ys)
last-append [] y ys = refl
last-append (x ∷ []) y ys = refl
last-append (x ∷ z ∷ xs) y ys = last-append (z ∷ xs) y ys

pub last-pad : (xs : List ℕ) (n c : ℕ) → 0 < n → last (xs ++ replicate n c) ≡ c
last-pad xs zero c h = absurd (omega arith)
last-pad xs (suc n) c h = last-append xs c (replicate n c) ∙ last-replicate n c

pub unpad-padded : (input : List ℕ) → 0 < length input → unpad (padded input) ≡ input
unfolding unpad padded
unpad-padded input h =
    let p = pad_count (length input) in
    take-append _ input (replicate p p) (
      omega (
        arith,
        length-padded input,
        last-pad input p p (pad_count_bounds (length input) h).0,
        (pad_count_bounds (length input) h).0,
      ))

-- A text that is not empty is padded to whole blocks, by one block at most, and is found again by the
-- last byte.
pub padded_lem :
    (input : List ℕ)
    → 0 < length input
    → (length (padded input) % 8 ≡ 0)
      × (length input < length (padded input))
      × (length (padded input) ≤ length input + 8)
      × (unpad (padded input) ≡ input)
padded_lem input h =
    let (a, b, c) = pad_count_bounds (length input) h in
    (
      rw (length-padded input) c,
      omega (arith, length-padded input),
      omega (arith, length-padded input),
      unpad-padded input h,
    )

pub set_pkcs7_padding-some :
    (input : List ℕ)
    → length (padded input) ≤ 500
    → set_pkcs7_padding input ≡ some (padded input, length (padded input) / 8)
unfolding set_pkcs7_padding
set_pkcs7_padding-some input h = rw (fits-some 500 (padded input) h)
