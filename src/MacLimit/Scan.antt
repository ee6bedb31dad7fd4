-- ===== src/MacLimit/Scan.antt =====
-- What the loop of `net_hook_func` finds, against a list without an address.
use quick_start.Common.{
  ℕ, zero, suc, ◌+◌, ◌≡◌, ◌≢◌, refl, ◌⊎◌, inl, inr, true, false, List, [], ◌∷◌, Mac, mac_eq,
  eq_of_mac_eq, mac_eq_self, length, arith, Bool-cases, sym, ap,
}
use quick_start.MacLimit.Types.{MaclimitNode}
use quick_start.MacLimit.Hooks.{scan}
use quick_start.MacLimit.Thread.{list_replace}

-- No node of the list has the address.
abbrev pub Absent : Mac → List MaclimitNode → Type 0
Absent m [] = Unit {0}
Absent m (x ∷ xs) = (x.mac ≢ m) × Absent m xs

-- No address stands in two nodes.
abbrev pub IsDistinct : List MaclimitNode → Type 0
IsDistinct [] = Unit {0}
IsDistinct (x ∷ xs) = Absent x.mac xs × IsDistinct xs

pub mac_eq-ne : (a c : Mac) → mac_eq a c ≡ false → a ≢ c
mac_eq-ne a c h e = cc (h, e, mac_eq_self a)

-- The two outcomes of the loop.
pub scan_lem :
    (m : Mac) (xs : List MaclimitNode) (n : ℕ)
    → (((scan m xs n).0 ≡ true) × (¬ Absent m xs))
      ⊎ ((scan m xs n ≡ (false, n + length xs)) × Absent m xs)
unfolding scan
scan_lem m [] n = inr (ground arith, tt)
scan_lem m (x ∷ xs) n = elim (Bool-cases (mac_eq x.mac m)) [
  | inl e ↦ inl (rw e refl, λ h. h.0 (eq_of_mac_eq x.mac m e))
  | inr e ↦ elim (scan_lem m xs (n + 1)) [
    | inl f ↦ inl (rw e f.0, λ h. f.1 h.1)
    | inr f ↦ inr (rw e (ground arith), (mac_eq-ne x.mac m e, f.1))
  ]
]

pub Absent-list_replace :
    (m : Mac) (k : ℕ) (node : MaclimitNode) (xs : List MaclimitNode)
    → node.mac ≢ m
    → Absent m xs
    → Absent m (list_replace k node xs)
unfolding list_replace
Absent-list_replace m k node [] h a = tt
Absent-list_replace m zero node (x ∷ xs) h a = (h, a.1)
Absent-list_replace m (suc k) node (x ∷ xs) h a = (a.0, Absent-list_replace m k node xs h a.1)

-- Putting a new address in place of another keeps the addresses distinct.
pub IsDistinct-list_replace :
    (k : ℕ) (node : MaclimitNode) (xs : List MaclimitNode)
    → Absent node.mac xs
    → IsDistinct xs
    → IsDistinct (list_replace k node xs)
unfolding list_replace
IsDistinct-list_replace k node [] a d = tt
IsDistinct-list_replace zero node (x ∷ xs) a d = (a.1, d.1)
IsDistinct-list_replace (suc k) node (x ∷ xs) a d = (
  Absent-list_replace x.mac k node xs (λ e. a.0 (sym e)) d.0,
  IsDistinct-list_replace k node xs a.1 d.1,
)

pub length-list_replace {ℓ} :
    {A : Type ℓ} (k : ℕ) (node : A) (xs : List A) → length (list_replace k node xs) ≡ length xs
unfolding list_replace
length-list_replace k node [] = refl
length-list_replace zero node (x ∷ xs) = refl
length-list_replace (suc k) node (x ∷ xs) = ap suc (length-list_replace k node xs)
