-- ===== src/Hack/Heap.antt =====
-- lab/c/hack/heap.c copies its argument into an allocation of 1024 bytes.
use quick_start.Common.{
  ℕ, ◌≡◌, ◌≤◌, ◌↔◌, List, ◌++◌, Bool, true, ◌&&◌, not, Option, none, some, length, codes, ltb,
  if◌then◌else◌, arith,
}

-- `main`, over whether the first `malloc` succeeds, and `argv[1]`: what is printed, or a copy to or from
-- NULL, or one that writes behind the end.
unfoldable pub heap_main : Bool → Option (List ℕ) → Option (List ℕ)
heap_main first none = none
heap_main first (some arg) =
    if not (first && ltb (length arg) 1024)
    then none
    else some (
        codes "start..\nfirst malloc..\nsceond malloc..\n"
        ++ codes "strcpy to first..\nfirst free..\nsceond free..\n")

-- The copy runs over its allocation exactly for an argument of 1024 bytes or more.
pub heap_main-bounds : (arg : List ℕ) → (heap_main true (some arg) ≡ none) ↔ (1024 ≤ length arg)
unfolding heap_main
heap_main-bounds arg = (λ h. ground arith, λ h. ground arith)
