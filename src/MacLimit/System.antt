-- ===== src/MacLimit/System.antt =====
-- The module of dirver/maclimit/maclimit.c as a whole: hooks, thread steps and configuration in any
-- order.
use quick_start.Common.{List, [], ◌∷◌, Option, none, some, Bool, true, false, ◌≡◌, arith}
use quick_start.MacLimit.Types.{MaclimitCfg, MaclimitState}
use quick_start.MacLimit.Hooks.{
  Packet, ArpInfo, send_add_opt_to_thread, admit, net_hook_func, arp_reply, arpin_hook_func,
}
use quick_start.MacLimit.Thread.{Env, limit_check_step}

-- A packet, an ARP packet, a step of the thread, or a new configuration from the proc file.
pub data Event : Type 0 where
  net_in : Option Packet → Event
  arp_in : Option (Option ArpInfo) → Event
  sched : Env → Event
  configure : MaclimitCfg → Event

unfoldable pub step : MaclimitState → Event → MaclimitState
step s (net_in p) = (net_hook_func p s).1
step s (arp_in p) = (arpin_hook_func p s).1
step s (sched env) = limit_check_step env s
step s (configure cfg) = record s { cfg = cfg }

unfoldable pub run : MaclimitState → List Event → MaclimitState
run s [] = s
run s (e ∷ es) = run (step s e) es

abbrev pub is_sched : Event → Bool
is_sched (sched _) = true
is_sched _ = false

net_hook_keeps :
    (p : Packet) (s : MaclimitState)
    → ((net_hook_func (some p) s).1.pc ≡ s.pc)
      × ((net_hook_func (some p) s).1.list ≡ s.list)
      × ((net_hook_func (some p) s).1.nodes ≡ s.nodes)
unfolding net_hook_func admit send_add_opt_to_thread
net_hook_keeps p s = ground arith

-- An event that is no step of the thread leaves its place, the list and the allocations alone.
pub hook_keeps :
    (s : MaclimitState) (e : Event)
    → is_sched e ≡ false
    → ((step s e).pc ≡ s.pc) × ((step s e).list ≡ s.list) × ((step s e).nodes ≡ s.nodes)
unfolding step net_hook_func arpin_hook_func arp_reply
hook_keeps s (sched env) h = absurd (cc)
hook_keeps s (net_in none) h = ground arith
hook_keeps s (net_in (some p)) h = net_hook_keeps p s
hook_keeps s (arp_in none) h = ground arith
hook_keeps s (arp_in (some none)) h = ground arith
hook_keeps s (arp_in (some (some a))) h = ground arith
hook_keeps s (configure cfg) h = ground arith

net_hook_keeps_heap : (p : Packet) (s : MaclimitState) → (net_hook_func (some p) s).1.heap ≡ s.heap
unfolding net_hook_func admit send_add_opt_to_thread
net_hook_keeps_heap p s = ground arith

-- Nor does it allocate, free or link a node.
pub hook_keeps_heap :
    (s : MaclimitState) (e : Event) → is_sched e ≡ false → (step s e).heap ≡ s.heap
unfolding step net_hook_func arpin_hook_func arp_reply
hook_keeps_heap s (sched env) h = absurd (cc)
hook_keeps_heap s (net_in none) h = ground arith
hook_keeps_heap s (net_in (some p)) h = net_hook_keeps_heap p s
hook_keeps_heap s (arp_in none) h = ground arith
hook_keeps_heap s (arp_in (some none)) h = ground arith
hook_keeps_heap s (arp_in (some (some a))) h = ground arith
hook_keeps_heap s (configure cfg) h = ground arith
