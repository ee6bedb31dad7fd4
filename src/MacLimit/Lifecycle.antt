-- ===== src/MacLimit/Lifecycle.antt =====
-- Loading and unloading of dirver/maclimit/maclimit.c: `nf_init` and `nf_cleanup`.
use quick_start.Common.{
  ℕ, ◌+◌, ◌-◌, ◌≡◌, refl, ap, List, [], ◌∷◌, ◌==◌, some, Bool, true, false, not, ◌&&◌, length,
  arith, if◌then◌else◌,
}
use quick_start.Common.Int.{ℤ, pos, negsuc, ltb_ℤ}
use quick_start.MacLimit.Types.{MaclimitState, freed, initial}
use quick_start.MacLimit.System.{Event, run}
use quick_start.MacLimit.Alloc.{count, IsBacked, listed-IsLive, initial-IsBacked, run-IsBacked}
use quick_start.MacLimit.Stop.{kthread_stop}

-- What the module has put into the kernel.
pub record Kernel : Type 0 where
  pub proc : Bool  -- the proc entry
  pub hooks : Bool  -- the netfilter hooks
  pub thread : Bool  -- the thread, created and not yet stopped

abbrev pub no_kernel : Kernel
no_kernel = record { proc = false; hooks = false; thread = false }

-- How the kernel answers `nf_init`: the status of `nf_register_hooks`, and whether the proc entry and
-- the thread were created.
pub record InitEnv : Type 0 where
  pub proc_ok : Bool
  pub hooks_status : ℤ
  pub thread_ok : Bool

abbrev pub efault : ℤ
efault = negsuc 13

-- The labels `cleanup_proc` and `cleanup_nf_hook`.
unfoldable pub cleanup_proc : ℤ → Kernel → ℤ × Kernel
cleanup_proc status k = (status, record k { proc = false })

unfoldable pub cleanup_nf_hook : ℤ → Kernel → ℤ × Kernel
unfolding cleanup_proc
cleanup_nf_hook status k = cleanup_proc status (record k { hooks = false })

-- Behind the registration of the hooks.
unfoldable pub start_thread : InitEnv → Kernel → ℤ × Kernel
unfolding cleanup_nf_hook
start_thread env k =
    if env.thread_ok
    then (env.hooks_status, record k { thread = true })
    else cleanup_nf_hook env.hooks_status k

unfoldable pub nf_init : InitEnv → Kernel → ℤ × Kernel
unfolding start_thread cleanup_proc cleanup_nf_hook
nf_init env k =
    if not env.proc_ok
    then cleanup_proc efault k
    else if ltb_ℤ env.hooks_status (pos 0)
    then cleanup_nf_hook env.hooks_status (record k { proc = true })
    else start_thread env (record k { proc = true; hooks = true })

-- `kfree` of the node at an address.
unfoldable pub kfree : ℕ → MaclimitState → MaclimitState
unfolding freed
kfree a s = record s { nodes = s.nodes - 1; heap = freed (some a) s.heap }

-- The loop over the list, `list_for_each_entry_safe`, from a node on.
unfoldable pub kfree_all : List ℕ → MaclimitState → MaclimitState
kfree_all [] s = s
kfree_all (a ∷ bs) s = kfree_all bs (kfree a s)

-- `nf_cleanup`, once `kthread_stop` has returned: the thread stands at its end, and every node of the
-- list is freed. The list itself is left as it is.
unfoldable pub nf_cleanup : MaclimitState → Kernel → MaclimitState × Kernel
nf_cleanup s k =
    (kfree_all s.heap.addrs s, record k { thread = false; proc = false; hooks = false })

abbrev pub loaded : Kernel
loaded = record { proc = true; hooks = true; thread = true }

-- The kernel grants `nf_init` all three.
abbrev pub succeeds : InitEnv → Bool
succeeds env = env.proc_ok && (not (ltb_ℤ env.hooks_status (pos 0)) && env.thread_ok)

-- Loading is atomic: `nf_init` installs the proc entry, the hooks and the thread if the kernel grants
-- all three, and otherwise leaves none of them. It returns `-EFAULT` without the proc entry, and else
-- the status with which the hooks were registered.
pub nf_init_atomic :
    (env : InitEnv)
    → ((nf_init env no_kernel).1 ≡ (if succeeds env then loaded else no_kernel))
      × ((nf_init env no_kernel).0 ≡ (if env.proc_ok then env.hooks_status else efault))
unfolding nf_init
nf_init_atomic env = (ground arith, ground arith)

-- A thread that cannot be created is not reported: `nf_init` has taken back the hooks and the proc
-- entry, and returns the status with which the hooks were registered, which is no error.
pub nf_init-no_thread :
    (env : InitEnv)
    → env.proc_ok ≡ true
    → ltb_ℤ env.hooks_status (pos 0) ≡ false
    → env.thread_ok ≡ false
    → (nf_init env no_kernel ≡ (env.hooks_status, no_kernel))
      × (ltb_ℤ (nf_init env no_kernel).0 (pos 0) ≡ false)
unfolding nf_init
nf_init-no_thread env p h t = (ground arith, ground arith)

kfree_all-nodes : (bs : List ℕ) (s : MaclimitState) → (kfree_all bs s).nodes ≡ s.nodes - length bs
unfolding kfree_all kfree
kfree_all-nodes [] s = omega arith
kfree_all-nodes (a ∷ bs) s = let ih = kfree_all-nodes bs (kfree a s) in omega arith

-- What is allocated behind the loop.
kfree_all-live :
    (bs : List ℕ) (s : MaclimitState) (x : ℕ)
    → (kfree_all bs s).heap.live x ≡ (if count x bs == 0 then s.heap.live x else false)
unfolding kfree_all kfree freed
kfree_all-live [] s x = refl
kfree_all-live (a ∷ bs) s x = let ih = kfree_all-live bs (kfree a s) x in ground arith

-- Over distinct, allocated addresses the loop frees each once, and nothing else.
abbrev pub FreesListed : MaclimitState → MaclimitState → Type 0
FreesListed s t =
    (t.nodes + length s.list ≡ s.nodes)
    × ((a : ℕ)
        → count a s.heap.addrs + (if t.heap.live a then 1 else 0)
          ≡ (if s.heap.live a then 1 else 0))

pub kfree_all-FreesListed :
    (s t : MaclimitState)
    → IsBacked s
    → t.nodes ≡ s.nodes
    → t.heap ≡ s.heap
    → FreesListed s (kfree_all t.heap.addrs t)
kfree_all-FreesListed s t h n e = (
  let m = kfree_all-nodes t.heap.addrs t in
      let l = ap (λ u. length u.addrs) e in omega (arith, h.0, h.1, n, m, l),
  λ a.
      let l = kfree_all-live t.heap.addrs t a in
      let c = listed-IsLive a s h in
      let o = ap (λ u. u.live a) e in let p = ap (λ u. count a u.addrs) e in ground arith,
)

-- Unloading takes everything back: after any history, the stop of the thread and whatever happens
-- behind it, it frees each listed node, once, and no other: the nodes that stay allocated are those
-- that are in no list.
pub nf_cleanup-frees :
    (before es : List Event)
    → let s = run (kthread_stop (run initial before)) es in
      ((nf_cleanup s loaded).1 ≡ no_kernel) × FreesListed s (nf_cleanup s loaded).0
unfolding nf_cleanup kthread_stop
nf_cleanup-frees before es =
    let stopping : MaclimitState = record (run initial before) { runnable = true } in
    let s = run stopping es in
    (
      refl,
      kfree_all-FreesListed s s
          (run-IsBacked stopping es (run-IsBacked initial before initial-IsBacked)) refl refl,
    )
