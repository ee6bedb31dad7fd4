-- ===== src/MacLimit/Round.antt =====
-- Whole rounds of `limit_check_func`, from a packet to the new list.
use quick_start.Common.{
  ◌+◌, ◌≡◌, ap, refl, inl, inr, true, false, some, ◌∷◌, length, arith, replicate,
}
use quick_start.Common.Int.{ltb_ℤ, pos}
use quick_start.MacLimit.Types.{no_add_task, add_immediate, MaclimitNode, MaclimitState, asleep}
use quick_start.MacLimit.Scan.{Absent, scan_lem}
use quick_start.MacLimit.Verdict.{IsLimited, is_limited-of}
use quick_start.MacLimit.Hooks.{nf_accept, Packet, send_add_opt_to_thread, admit, net_hook_func}
use quick_start.MacLimit.Thread.{Env, thread_at, limit_check_step}
use quick_start.MacLimit.System.{net_in, sched, step, run}

-- The kernel has memory and does not stop the thread.
abbrev pub calm : Env
calm = record { should_stop = false; memory = true }

abbrev pub node_of : Packet → MaclimitNode
node_of p = record { dev = p.in_dev; mac = p.h_source; srcip = p.saddr; dstip = p.daddr }

-- The module at rest: the thread sleeps, nothing is asked of it.
pub record IsIdle (s : MaclimitState) : Type 0 where
  pub sleeps : s.pc ≡ asleep
  pub blocked : s.runnable ≡ false
  pub nothing : s.new_terminal.flag ≡ no_add_task
  pub free : s.locked ≡ false

-- What the hook leaves for an address that is not listed, below the limit.
after_request : Packet → MaclimitState → MaclimitState
after_request p s = record s {
  new_terminal = record s.new_terminal { node = node_of p; flag = add_immediate };
  runnable = true;
  pc = asleep;
  locked = false;
}

net_hook-immediate :
    (p : Packet) (s : MaclimitState)
    → IsIdle s
    → IsLimited p s
    → Absent p.h_source s.list
    → ltb_ℤ (pos (length s.list)) s.cfg.limit_num ≡ true
    → net_hook_func (some p) s ≡ (nf_accept, after_request p s)
unfolding net_hook_func admit send_add_opt_to_thread after_request
net_hook-immediate p s i l a h = elim (scan_lem p.h_source s.list 0) [
  | inl g ↦ absurd (g.1 a)
  | inr g ↦ ground (arith, g.0, is_limited-of p s l)
]

-- Seven steps of the thread carry the request out.
immediate_steps :
    (p : Packet) (s : MaclimitState)
    → let t = run (after_request p s) (replicate 7 (sched calm)) in
      IsIdle t × (t.list ≡ node_of p ∷ s.list) × (t.nodes ≡ s.nodes + 1)
unfolding run step limit_check_step thread_at after_request
immediate_steps p s =
    (record { sleeps = refl; blocked = refl; nothing = refl; free = refl }, refl, refl)

-- At rest and below the limit, a limited packet with an address that is not listed is let through,
-- and, if the thread is not stopped and `kmalloc` has memory, seven of its steps put its node at the
-- head of the list and end at rest again.
pub add_immediate_round :
    (p : Packet) (s : MaclimitState)
    → IsIdle s
    → IsLimited p s
    → Absent p.h_source s.list
    → ltb_ℤ (pos (length s.list)) s.cfg.limit_num ≡ true
    → let t = run s (net_in (some p) ∷ replicate 7 (sched calm)) in
      ((net_hook_func (some p) s).0 ≡ nf_accept)
      × IsIdle t
      × (t.list ≡ node_of p ∷ s.list)
      × (t.nodes ≡ s.nodes + 1)
unfolding run step
add_immediate_round p s i l a h =
    let e = net_hook-immediate p s i l a h in
    let e' : (net_hook_func (some p) s).1 ≡ after_request p s = ap (λ x. x.1) e in
    let (idle, list, nodes) = immediate_steps p s in
    (ap (λ x. x.0) e, rw e' idle, rw e' list, rw e' nodes)
