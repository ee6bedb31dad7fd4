-- ===== src/MacLimit/Unload/Wakes.antt =====
-- What `nf_cleanup` of dirver/maclimit/maclimit.c leaves, and which packets make it wake NULL.
use quick_start.Common.{
  ◌≡◌, refl, ◌∙◌, List, [], ◌∷◌, true, false, not, ◌&&◌, Bool-cases, inl, inr, none, some,
  if◌then◌else◌, arith,
}
use quick_start.MacLimit.Types.{MaclimitState, initial}
use quick_start.MacLimit.Hooks.{
  Packet, is_no_add, scan, is_limited, admit, send_add_opt_to_thread, net_hook_func,
}
use quick_start.MacLimit.System.{
  Event, net_in, arp_in, sched, configure, is_sched, step, run, hook_keeps, hook_keeps_heap,
}
use quick_start.MacLimit.Alloc.{initial-IsBacked, run-IsBacked}
use quick_start.MacLimit.Stop.{kthread_stop}
use quick_start.MacLimit.Lifecycle.{
  Kernel, kfree_all, FreesListed, kfree_all-FreesListed, nf_cleanup, no_kernel, loaded,
}
use quick_start.MacLimit.Installed.{
  Installed, can_come, wakes, come, all_come, run_under, is_quiet, no_thread, left_with,
  all_come_lem,
}
use quick_start.MacLimit.Unload.{
  forget_task, remove_proc_entry, nf_unregister_hooks, free_nodes, nf_cleanup_rest, stopped_module,
  no_proc, stays_quiet,
}

-- Without the thread, nothing changes the list.
step-same :
    (e : Event) (k : Kernel) (s : MaclimitState)
    → k.thread ≡ false
    → let s' = if can_come k e then step s e else s in
      (s'.list ≡ s.list) × (s'.nodes ≡ s.nodes) × (s'.heap ≡ s.heap)
step-same e k s t = elim (Bool-cases (can_come k e)) [
  | inl h ↦
      let (_, l, n) = hook_keeps s e (is_hook e h) in rw h (l, n, hook_keeps_heap s e (is_hook e h))
  | inr h ↦ rw h (refl, refl, refl)
]
  where
    is_hook : (e : Event) → can_come k e ≡ true → is_sched e ≡ false
    is_hook (sched env) h = absurd (ground (arith, t, h))
    is_hook (net_in p) h = refl
    is_hook (arp_in a) h = refl
    is_hook (configure cfg) h = refl

run_under-same :
    (es : List Event) (k : Kernel) (s : MaclimitState)
    → k.thread ≡ false
    → ((run_under k es s).list ≡ s.list)
      × ((run_under k es s).nodes ≡ s.nodes)
      × ((run_under k es s).heap ≡ s.heap)
run_under-same [] k s t = (refl, refl, refl)
run_under-same (e ∷ es) k s t =
    let s' = if can_come k e then step s e else s in
    let (l, n, h) = step-same e k s t in
    let (l', n', h') = run_under-same es k s' t in (l' ∙ l, n' ∙ n, h' ∙ h)

none_come :
    (es : List Event) (s : MaclimitState)
    → all_come es (left_with no_kernel s) ≡ some (left_with no_kernel s)
unfolding all_come come
none_come [] s = refl
none_come (sched env ∷ es) s = none_come es s
none_come (net_in p ∷ es) s = none_come es s
none_come (arp_in a ∷ es) s = none_come es s
none_come (configure cfg ∷ es) s = none_come es s

cleanup_lem :
    (es0 es1 es2 : List Event) (s : MaclimitState)
    → let s' = run_under no_proc es1 (run_under no_thread es0 s) in
      nf_cleanup_rest es0 es1 es2
        (record { maclimit = s; kernel = loaded; limit_check_task = true })
      ≡ (if stays_quiet es0 es1 s
          then some (left_with no_kernel (kfree_all s'.heap.addrs s'))
          else none)
unfolding nf_cleanup_rest forget_task remove_proc_entry nf_unregister_hooks free_nodes
cleanup_lem es0 es1 es2 s =
    let s0 = run_under no_thread es0 s in
    let s1 = run_under no_proc es1 s0 in
    elim (Bool-cases (is_quiet no_thread es0 s)) [
      | inl h ↦ elim (Bool-cases (is_quiet no_proc es1 s0)) [
        | inl h' ↦
            rw
              (
                all_come_lem es0 (left_with no_thread s) refl,
                h,
                all_come_lem es1 (left_with no_proc s0) refl,
                h',
                none_come es2 s1,
              )
              refl
        | inr h' ↦
            rw
              (
                all_come_lem es0 (left_with no_thread s) refl,
                h,
                all_come_lem es1 (left_with no_proc s0) refl,
                h',
              )
              refl
      ]
      | inr h ↦ rw (all_come_lem es0 (left_with no_thread s) refl, h) refl
    ]

-- A hook wakes the thread for a limited packet whose address is not listed, when the list is not being
-- changed and no request is pending; so it does with any limit.
net_in-wakes :
    (p : Packet) (s : MaclimitState)
    → wakes s (net_in (some p)) ≡ (
        is_limited p s
        && (not s.locked && (not (scan p.h_source s.list 0).0 && is_no_add s.new_terminal.flag)))
unfolding step net_hook_func admit send_add_opt_to_thread is_limited
net_in-wakes p s = ground arith

-- Behind the stop of the thread, whatever packets and configurations come in the meantime,
-- `nf_cleanup` takes everything back and frees each listed node, once, and no other, if no hook wakes
-- the thread between the reset of `limit_check_task` and the removal of the hooks; and if one does, it
-- wakes NULL. A packet does so in a state if it is limited, its address is not listed, the list is not
-- being changed and no request is pending.
pub nf_cleanup-wakes :
    (before es es0 es1 es2 : List Event) (p : Packet) (met : MaclimitState)
    → let s = run (kthread_stop (run initial before)) es in
      (stays_quiet es0 es1 s ≡ true
        → (l : Installed) × (nf_cleanup_rest es0 es1 es2 (stopped_module s) ≡ some l)
          × (l.kernel ≡ no_kernel)
          × FreesListed s l.maclimit)
      × (stays_quiet es0 es1 s ≡ false → nf_cleanup_rest es0 es1 es2 (stopped_module s) ≡ none)
      × (wakes met (net_in (some p)) ≡ (
          is_limited p met
          && (not met.locked
              && (not (scan p.h_source met.list 0).0 && is_no_add met.new_terminal.flag))))
unfolding kthread_stop
nf_cleanup-wakes before es es0 es1 es2 p met =
    let stopping : MaclimitState = record (run initial before) { runnable = true } in
    let s = run stopping es in
    let s0 = run_under no_thread es0 s in
    let s1 = run_under no_proc es1 s0 in
    let (l0, n0, h0) = run_under-same es0 no_thread s refl in
    let (l1, n1, h1) = run_under-same es1 no_proc s0 refl in
    let backed = run-IsBacked stopping es (run-IsBacked initial before initial-IsBacked) in
    (
      (λ h. (
        left_with no_kernel (kfree_all s1.heap.addrs s1),
        cleanup_lem es0 es1 es2 s ∙ rw h refl,
        refl,
        kfree_all-FreesListed s s1 backed (n1 ∙ n0) (h1 ∙ h0),
      )),
      (λ h. cleanup_lem es0 es1 es2 s ∙ rw h refl),
      net_in-wakes p met,
    )

-- When nothing comes in between, this is `nf_cleanup` in one step.
nf_cleanup_rest-alone :
    (s : MaclimitState)
    → nf_cleanup_rest [] [] [] (stopped_module s)
      ≡ some (left_with (nf_cleanup s loaded).1 (nf_cleanup s loaded).0)
unfolding nf_cleanup_rest all_come forget_task remove_proc_entry nf_unregister_hooks free_nodes
    nf_cleanup
nf_cleanup_rest-alone s = refl
