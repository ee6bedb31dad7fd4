-- ===== src/MacLimit/Alloc.antt =====
-- Allocated nodes: where the listed nodes of dirver/maclimit/maclimit.c stand, and the thread's own.
use quick_start.Common.{
  ℕ, zero, suc, ◌+◌, ◌≤◌, ◌<◌, ◌≡◌, refl, ap, ◌∙◌, List, [], ◌∷◌, length, true, Option, none, some,
  get_elem?, ◌==◌, if◌then◌else◌, arith,
}
use quick_start.MacLimit.Types.{
  MaclimitNode, MaclimitState, Heap, freed, Pc, lock_new, insert_new, lock_old, spare, replace,
  unlock, initial,
}
use quick_start.MacLimit.Scan.{length-list_replace}
use quick_start.MacLimit.Thread.{Env, list_replace, thread_at, limit_check_step}
use quick_start.MacLimit.System.{Event, sched, step, run, hook_keeps, hook_keeps_heap}

-- A node that the thread has created and not yet linked.
abbrev pub in_hand : Pc → ℕ
in_hand (lock_new _) = 1
in_hand (insert_new _) = 1
in_hand (lock_old _ _) = 1
in_hand (spare _ _) = 1
in_hand (replace _ _) = 1
in_hand _ = 0

-- How often the address `a` stands in a list.
abbrev pub count : ℕ → List ℕ → ℕ
count a [] = 0
count a (b ∷ bs) = (if a == b then 1 else 0) + count a bs

-- Whether the address `a` is the one of the thread's node, once it is created and until it is linked.
abbrev pub held : ℕ → Pc → Heap → ℕ
held a pc h = if a == h.node then in_hand pc else 0

abbrev IsBackedAt : ℕ → Pc → Heap → Type 0
IsBackedAt a pc h =
    (count a h.addrs + held a pc h ≤ (if h.live a then 1 else 0)) × (h.live a ≡ true → a < h.next)

-- Each listed node has an address; no address is that of two listed nodes, or of a listed one and of
-- the one in hand; and the addresses of these nodes are allocated, which is what `kmalloc` returned
-- before.
abbrev pub IsBacked : MaclimitState → Type 0
IsBacked s =
    (length s.heap.addrs ≡ length s.list)
    × (length s.list + in_hand s.pc ≤ s.nodes)
    × ((a : ℕ) → IsBackedAt a s.pc s.heap)

-- A replacement takes out the address at its place.
count-list_replace :
    (k a o x : ℕ) (bs : List ℕ)
    → get_elem? bs k ≡ some o
    → count x (list_replace k a bs) + (if x == o then 1 else 0)
      ≡ count x bs + (if x == a then 1 else 0)
unfolding list_replace
count-list_replace k a o x [] e = absurd (cc)
count-list_replace zero a o x (b ∷ bs) e = ground arith
count-list_replace (suc k) a o x (b ∷ bs) e =
    let ih = count-list_replace k a o x bs e in ground arith

list_replace-none : (k a : ℕ) (bs : List ℕ) → get_elem? bs k ≡ none → list_replace k a bs ≡ bs
unfolding list_replace
list_replace-none k a [] e = refl
list_replace-none zero a (b ∷ bs) e = absurd (cc)
list_replace-none (suc k) a (b ∷ bs) e = ap (◌∷◌ b) (list_replace-none k a bs e)

replaced-IsBackedAt :
    (x : ℕ) (k : ℕ) (o : Option ℕ) (node : MaclimitNode) (pc : Pc) (h : Heap)
    → in_hand pc ≡ 0
    → get_elem? h.addrs k ≡ o
    → IsBackedAt x (replace k node) h
    → IsBackedAt x pc (freed o (record h { addrs = list_replace k h.node h.addrs }))
unfolding freed
replaced-IsBackedAt x k none node pc h z e b =
    rw (list_replace-none k h.node h.addrs e, z) (ground arith)
replaced-IsBackedAt x k (some o) node pc h z e b =
    let c = count-list_replace k h.node o x h.addrs e in rw z (ground arith)

freed-addrs : (o : Option ℕ) (h : Heap) → (freed o h).addrs ≡ h.addrs
unfolding freed
freed-addrs none h = refl
freed-addrs (some a) h = refl

thread-IsBackedAt :
    (x : ℕ) (pc : Pc) (env : Env) (s : MaclimitState)
    → IsBackedAt x pc s.heap
    → (pc ≡ s.pc)
    → IsBackedAt x (thread_at pc env s).pc (thread_at pc env s).heap
unfolding thread_at
thread-IsBackedAt x (replace k node) env s b e =
    replaced-IsBackedAt x k _ node unlock s.heap refl refl b
thread-IsBackedAt x pc env s b e = ground arith

thread-length :
    (pc : Pc) (env : Env) (s : MaclimitState)
    → length s.heap.addrs ≡ length s.list
    → length (thread_at pc env s).heap.addrs ≡ length (thread_at pc env s).list
unfolding thread_at
thread-length (replace k node) env s h =
    ap length (
      freed-addrs (get_elem? s.heap.addrs k)
        (record s.heap { addrs = list_replace k s.heap.node s.heap.addrs }))
    ∙ omega (
      arith,
      length-list_replace k s.heap.node s.heap.addrs,
      length-list_replace k node s.list,
      h,
    )
thread-length pc env s h = ground arith

thread-nodes :
    (pc : Pc) (env : Env) (s : MaclimitState)
    → length s.list + in_hand pc ≤ s.nodes
    → length s.list + in_hand s.pc ≤ s.nodes
    → length (thread_at pc env s).list + in_hand (thread_at pc env s).pc
      ≤ (thread_at pc env s).nodes
unfolding thread_at
thread-nodes (replace k node) env s h b = omega (arith, length-list_replace k node s.list)
thread-nodes pc env s h b = ground arith

step-IsBacked : (s : MaclimitState) (e : Event) → IsBacked s → IsBacked (step s e)
unfolding step limit_check_step
step-IsBacked s (sched env) (l, n, b) = (
  thread-length s.pc env s l,
  thread-nodes s.pc env s n n,
  λ a. thread-IsBackedAt a s.pc env s (b a) refl,
)
step-IsBacked s e h =
    let (p, l, n) = hook_keeps s e refl in rw (p, l, n, hook_keeps_heap s e refl) h

pub initial-IsBacked : IsBacked initial
initial-IsBacked = (refl, omega arith, λ a. ground arith)

-- What the invariant says of the address at a place of the list.
pub listed-IsLive :
    (a : ℕ) (s : MaclimitState)
    → IsBacked s
    → (count a s.heap.addrs ≤ (if s.heap.live a then 1 else 0))
listed-IsLive a s (l, n, b) = omega (arith, (b a).0)

-- In every history the nodes that are listed, and the one that the thread is about to link, stand at
-- allocated addresses, no two of them at the same: the `kfree` of a replaced node leaves the others
-- allocated, and the counter of the allocations covers them all.
pub run-IsBacked : (s : MaclimitState) (es : List Event) → IsBacked s → IsBacked (run s es)
unfolding run
run-IsBacked s [] h = h
run-IsBacked s (e ∷ es) h = run-IsBacked (step s e) es (step-IsBacked s e h)
