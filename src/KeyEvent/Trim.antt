-- ===== src/KeyEvent/Trim.antt =====
-- `ltrim`, `rtrim` and `trim` of dirver/keyevent/process/board_event.c, over the bytes of a string
-- without its NUL.
use mathlib.Core.List.{append_assoc, append-nil}
use quick_start.Common.{
  take-all, ℕ, zero, suc, ◌≤◌, ◌<◌, ◌≡◌, refl, sym, ap, ◌∙◌, inl, inr, Bool, true, false, ◌||◌,
  none, some, List, [], ◌∷◌, ◌++◌, length, take, get_elem?, ◌==◌, if◌then◌else◌, arith, Bool-cases,
}

abbrev pub is_blank : ℕ → Bool
is_blank c = c == b' ' || (c == b'\t' || c == b'\n')

-- The loop of `ltrim`, and the `strcpy` of what it leaves.
unfoldable pub ltrim : List ℕ → List ℕ
ltrim [] = []
ltrim (c ∷ s) = if is_blank c then ltrim s else c ∷ s

abbrev byte_at : List ℕ → ℕ → ℕ
byte_at s i = elim (get_elem? s i) [ none ↦ 0 | some c ↦ c ]

-- The loop of `rtrim` from i = j - 1: the value of i + 1 behind it. The code reads s[i] before it tests
-- i ≥ 0; at i = -1 it stops whatever it has read.
unfoldable pub rtrim_from : List ℕ → ℕ → ℕ
rtrim_from s zero = 0
rtrim_from s (suc i) = let rest = rtrim_from s i in if is_blank (byte_at s i) then rest else suc i

unfoldable pub rtrim : List ℕ → List ℕ
unfolding rtrim_from
rtrim s = take (rtrim_from s (length s)) s

unfoldable pub trim : List ℕ → List ℕ
unfolding ltrim rtrim
trim s = rtrim (ltrim s)

abbrev pub AllBlank : List ℕ → Type 0
AllBlank [] = Unit {0}
AllBlank (c ∷ s) = (is_blank c ≡ true) × AllBlank s

abbrev pub BeginsSolid : List ℕ → Type 0
BeginsSolid [] = Unit {0}
BeginsSolid (c ∷ s) = is_blank c ≡ false

abbrev pub EndsSolid : List ℕ → Type 0
EndsSolid [] = Unit {0}
EndsSolid (c ∷ []) = is_blank c ≡ false
EndsSolid (c ∷ d ∷ s) = EndsSolid (d ∷ s)

AllBlank-snoc : (b : List ℕ) (c : ℕ) → AllBlank b → is_blank c ≡ true → AllBlank (b ++ c ∷ [])
AllBlank-snoc [] c h k = (k, tt)
AllBlank-snoc (x ∷ b) c h k = (h.0, AllBlank-snoc b c h.1 k)

EndsSolid-snoc : (s : List ℕ) (c : ℕ) → is_blank c ≡ false → EndsSolid (s ++ c ∷ [])
EndsSolid-snoc [] c k = k
EndsSolid-snoc (x ∷ []) c k = k
EndsSolid-snoc (x ∷ y ∷ s) c k = EndsSolid-snoc (y ∷ s) c k

take-suc : (i : ℕ) (s : List ℕ) → i < length s → take (suc i) s ≡ take i s ++ byte_at s i ∷ []
take-suc i [] h = absurd (omega arith)
take-suc zero (x ∷ s) h = refl
take-suc (suc i) (x ∷ s) h = ap (◌∷◌ x) (take-suc i s (omega arith))

ltrim_lem : (s : List ℕ) → (b : List ℕ) × (s ≡ b ++ ltrim s) × AllBlank b × BeginsSolid (ltrim s)
unfolding ltrim
ltrim_lem [] = ([], refl, tt, tt)
ltrim_lem (c ∷ s) = elim (Bool-cases (is_blank c)) [
  | inl e ↦ let (b, p, h, k) = ltrim_lem s in (c ∷ b, rw e (ap (◌∷◌ c) p), (e, h), rw e k)
  | inr e ↦ ([], rw e refl, tt, rw e e)
]

rtrim_from_lem :
    (s : List ℕ) (j : ℕ)
    → j ≤ length s
    → (b : List ℕ) × (take j s ≡ take (rtrim_from s j) s ++ b)
      × AllBlank b
      × EndsSolid (take (rtrim_from s j) s)
unfolding rtrim_from
rtrim_from_lem s zero h = ([], refl, tt, tt)
rtrim_from_lem s (suc i) h = elim (Bool-cases (is_blank (byte_at s i))) [
  | inl e ↦
      let (b, p, k, l) = rtrim_from_lem s i (omega arith) in
      (
        b ++ byte_at s i ∷ [],
        rw e (take-suc i s h ∙ ap (λ t. t ++ byte_at s i ∷ []) p ∙ append_assoc _ b _),
        AllBlank-snoc b (byte_at s i) k e,
        rw e l,
      )
  | inr e ↦ (
    [],
    rw e (sym (append-nil (take (suc i) s))),
    tt,
    rw e (rw (take-suc i s h) (EndsSolid-snoc (take i s) (byte_at s i) e)),
  )
]

rtrim_lem : (s : List ℕ) → (b : List ℕ) × (s ≡ rtrim s ++ b) × AllBlank b × EndsSolid (rtrim s)
unfolding rtrim
rtrim_lem s =
    let (b, p, h, k) = rtrim_from_lem s (length s) (omega arith) in
    (b, sym (take-all (length s) s (omega arith)) ∙ p, h, k)

BeginsSolid-take : (n : ℕ) (s : List ℕ) → BeginsSolid s → BeginsSolid (take n s)
BeginsSolid-take zero s h = tt
BeginsSolid-take (suc n) [] h = tt
BeginsSolid-take (suc n) (c ∷ s) h = h

-- `trim` splits a string into blanks, its result and blanks, and its result neither begins nor ends
-- with a blank.
pub trim_lem :
    (s : List ℕ)
    → (a : List ℕ) × (b : List ℕ) × (s ≡ a ++ (trim s ++ b))
      × AllBlank a
      × AllBlank b
      × BeginsSolid (trim s)
      × EndsSolid (trim s)
unfolding trim
trim_lem s =
    let (a, p, h, k) = ltrim_lem s in
    let (b, q, i, j) = rtrim_lem (ltrim s) in
    (a, b, p ∙ ap (◌++◌ a) q, h, i, BeginsSolid-take _ (ltrim s) k, j)
