-- ===== src/MacLimit/Terminals.antt =====
-- The list of dirver/maclimit/maclimit.c as what it stands for: a collection of hardware addresses in
-- no order.
use native.Mathlib.Nat.{ℕ_set}
use mathlib.Core.Quot
use mathlib.Core.Quot.{Quot, Quot-set}
use quick_start.Common.{
  ℕ, zero, suc, ◌+◌, ◌<◌, ◌≡◌, refl, sym, ap, ◌∙◌, true, List, [], ◌∷◌, map, Option, none, some,
  Mac, mac_eq, mac_eq_self, eq_of_mac_eq, Bool-cases, inl, inr, length, get_elem?, ltb,
  if◌then◌else◌, arith,
}
use quick_start.MacLimit.Types.{MaclimitNode}
use quick_start.MacLimit.Thread.{list_replace}
use quick_start.MacLimit.Scan.{Absent, mac_eq-ne, length-list_replace}

-- 1 if the two are equal, else 0.
abbrev pub one : Mac → Mac → ℕ
one a m = if mac_eq a m then 1 else 0

abbrev pub count : Mac → List Mac → ℕ
count m [] = 0
count m (x ∷ xs) = one x m + count m xs

-- Two lists with the same addresses, each as often.
abbrev pub SameTerminals : List Mac → List Mac → Type 0
SameTerminals xs ys = (length xs ≡ length ys) × ((m : Mac) → count m xs ≡ count m ys)

abbrev pub Terminals : Type 0
Terminals = Quot SameTerminals

abbrev pub holds : Mac → Terminals → ℕ
holds m = Quot.lift ℕ_set (count m) (λ xs ys h. h.1 m)

abbrev pub size : Terminals → ℕ
size = Quot.lift ℕ_set length (λ xs ys h. h.0)

pub put-same :
    (new : Mac) (xs ys : List Mac) → SameTerminals xs ys → SameTerminals (new ∷ xs) (new ∷ ys)
put-same new xs ys h = (ap suc h.0, λ m. ap (λ n. one new m + n) (h.1 m))

abbrev pub put : Mac → Terminals → Terminals
put new =
    Quot.lift Quot-set (λ xs. Quot.mk (new ∷ xs)) (λ xs ys h. Quot.sound (put-same new xs ys h))

-- The first place with an address goes to a new one.
abbrev pub swap_first : Mac → Mac → List Mac → List Mac
swap_first old new [] = []
swap_first old new (x ∷ xs) =
    let rest = swap_first old new xs in if mac_eq x old then new ∷ xs else x ∷ rest

length-swap_first : (old new : Mac) (xs : List Mac) → length (swap_first old new xs) ≡ length xs
length-swap_first old new [] = refl
length-swap_first old new (x ∷ xs) = ground (arith, length-swap_first old new xs)

-- What is taken out where the address is there.
abbrev if_held : ℕ → ℕ → ℕ
if_held held n = if ltb 0 held then n else 0

held-more : (held n : ℕ) → if_held (1 + held) n ≡ n
held-more held n = ground arith

held-some : (held n : ℕ) → 0 < held → if_held held n ≡ n
held-some held n h = ground arith

held-zero : (held n : ℕ) → if_held (0 + held) n ≡ if_held held n
held-zero held n = ap (λ k. if_held k n) (omega arith)

one-same : (a b m : Mac) → mac_eq a b ≡ true → one a m ≡ one b m
one-same a b m e = ap (λ x. one x m) (eq_of_mac_eq a b e)

count-swap_first :
    (old new m : Mac) (xs : List Mac)
    → count m (swap_first old new xs) + if_held (count old xs) (one old m)
      ≡ count m xs + if_held (count old xs) (one new m)
count-swap_first old new m [] = refl
count-swap_first old new m (x ∷ xs) = elim (Bool-cases (mac_eq x old)) [
  | inl e ↦
      rw (e, held-more (count old xs) (one old m), held-more (count old xs) (one new m))
        (omega (arith, one-same x old m e))
  | inr e ↦
      rw (e, held-zero (count old xs) (one old m), held-zero (count old xs) (one new m))
        (omega (arith, count-swap_first old new m xs))
]

pub swap-same :
    (old new : Mac) (xs ys : List Mac)
    → SameTerminals xs ys
    → SameTerminals (swap_first old new xs) (swap_first old new ys)
swap-same old new xs ys h = (
  length-swap_first old new xs ∙ h.0 ∙ sym (length-swap_first old new ys),
  λ m. omega (
    arith,
    count-swap_first old new m xs,
    count-swap_first old new m ys,
    h.1 m,
    ap (λ n. if_held n (one old m)) (h.1 old),
    ap (λ n. if_held n (one new m)) (h.1 old),
  ),
)

abbrev pub swap : Mac → Mac → Terminals → Terminals
swap old new =
    Quot.lift Quot-set (λ xs. Quot.mk (swap_first old new xs))
      (λ xs ys h. Quot.sound (swap-same old new xs ys h))

some_inj : (a b : Mac) → ◌≡◌ {A = Option Mac} (some a) (some b) → a ≡ b
some_inj a b e = cc

-- The address at a place is in the list.
pub count-at : (k : ℕ) (x : Mac) (xs : List Mac) → get_elem? xs k ≡ some x → 0 < count x xs
count-at k x [] e = absurd (cc)
count-at zero x (y ∷ ys) e =
    let same : mac_eq y x ≡ true = rw (some_inj y x e) (mac_eq_self x) in rw same (omega arith)
count-at (suc k) x (y ∷ ys) e = omega (arith, count-at k x ys e)

count-list_replace :
    (k : ℕ) (node x m : Mac) (xs : List Mac)
    → get_elem? xs k ≡ some x
    → count m (list_replace k node xs) + one x m ≡ count m xs + one node m
unfolding list_replace
count-list_replace k node x m [] e = absurd (cc)
count-list_replace zero node x m (y ∷ ys) e = omega (arith, ap (λ z. one z m) (some_inj y x e))
count-list_replace (suc k) node x m (y ∷ ys) e = omega (arith, count-list_replace k node x m ys e)

-- Replacing the address at a place swaps it.
pub list_replace-swap :
    (k : ℕ) (node x : Mac) (xs : List Mac)
    → get_elem? xs k ≡ some x
    → ◌≡◌ {A = Terminals} (Quot.mk (list_replace k node xs)) (swap x node (Quot.mk xs))
list_replace-swap k node x xs e = Quot.sound (
  length-list_replace k node xs ∙ sym (length-swap_first x node xs),
  λ m. omega (
    arith,
    count-list_replace k node x m xs e,
    count-swap_first x node m xs,
    held-some (count x xs) (one x m) (count-at k x xs e),
    held-some (count x xs) (one node m) (count-at k x xs e),
  ),
)

-- The addresses of a list of nodes.
abbrev pub macs : List MaclimitNode → List Mac
macs = map (λ x. x.mac)

pub count-zero : (m : Mac) (xs : List MaclimitNode) → Absent m xs → count m (macs xs) ≡ 0
count-zero m [] a = refl
count-zero m (x ∷ xs) a = elim (Bool-cases (mac_eq x.mac m)) [
  | inl e ↦ absurd (a.0 (eq_of_mac_eq x.mac m e))
  | inr e ↦ rw e (omega (arith, count-zero m xs a.1))
]

pub zero-Absent : (m : Mac) (xs : List MaclimitNode) → count m (macs xs) ≡ 0 → Absent m xs
zero-Absent m [] h = tt
zero-Absent m (x ∷ xs) h = elim (Bool-cases (mac_eq x.mac m)) [
  | inl e ↦ absurd (ground arith)
  | inr e ↦ (mac_eq-ne x.mac m e, zero-Absent m xs (ground arith))
]

pub length-macs : (xs : List MaclimitNode) → length (macs xs) ≡ length xs
length-macs [] = refl
length-macs (x ∷ xs) = ap suc (length-macs xs)

pub macs-list_replace :
    (k : ℕ) (node : MaclimitNode) (xs : List MaclimitNode)
    → macs (list_replace k node xs) ≡ list_replace k node.mac (macs xs)
unfolding list_replace
macs-list_replace k node [] = refl
macs-list_replace zero node (x ∷ xs) = refl
macs-list_replace (suc k) node (x ∷ xs) = ap (◌∷◌ x.mac) (macs-list_replace k node xs)

-- A place behind the end of the list.
pub list_replace-none :
    (k : ℕ) (node : Mac) (xs : List Mac) → get_elem? xs k ≡ none → list_replace k node xs ≡ xs
unfolding list_replace
list_replace-none k node [] e = refl
list_replace-none zero node (x ∷ xs) e = absurd (cc)
list_replace-none (suc k) node (x ∷ xs) e = ap (◌∷◌ x) (list_replace-none k node xs e)
