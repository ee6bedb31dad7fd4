-- ===== src/MacLimit/Wakeup.antt =====
-- The wake-up that `limit_check_func` loses: it resets the flag before it sets its task state, so a
-- hook between the two wakes a task that still runs.
use quick_start.Common.{◌≡◌, ◌∙◌, refl, ◌⊎◌, inl, inr, false, some, List, [], ◌∷◌, arith}
use quick_start.MacLimit.Types.{no_add_task, add_immediate, add_check, MaclimitState, doze, asleep}
use quick_start.MacLimit.Scan.{Absent, scan_lem}
use quick_start.MacLimit.Verdict.{IsLimited, is_limited-of}
use quick_start.MacLimit.Hooks.{
  Packet, send_add_opt_to_thread, admit, net_hook_func, arp_reply, arpin_hook_func,
}
use quick_start.MacLimit.Thread.{Env, thread_at, limit_check_step}
use quick_start.MacLimit.System.{Event, net_in, sched, step, run}

-- The thread sleeps with no wake-up on its way, and a request stands in `new_terminal`.
pub record IsStuck (s : MaclimitState) : Type 0 where
  pub sleeps : s.pc ≡ asleep
  pub blocked : s.runnable ≡ false
  pub request : (s.new_terminal.flag ≡ add_immediate) ⊎ (s.new_terminal.flag ≡ add_check)

-- The thread, its request and the list stay as they are.
pub record IsFrozen (s t : MaclimitState) : Type 0 where
  pub stuck : IsStuck t
  pub same_list : t.list ≡ s.list
  pub same_request : t.new_terminal ≡ s.new_terminal

thread-eq : (env : Env) (s : MaclimitState) → IsStuck s → limit_check_step env s ≡ s
unfolding limit_check_step thread_at
thread-eq env s h = ground arith

step-IsFrozen : (s : MaclimitState) (e : Event) → IsStuck s → IsFrozen s (step s e)
unfolding step net_hook_func admit send_add_opt_to_thread arpin_hook_func arp_reply
step-IsFrozen s (sched env) h =
    rw (thread-eq env s h) (record { stuck = h; same_list = refl; same_request = refl })
step-IsFrozen s e h = ground arith

-- A stuck thread stays asleep, its request pending and the list unchanged, in every history of
-- packets, ARP replies, configurations and scheduling.
pub run-IsFrozen : (s : MaclimitState) (es : List Event) → IsStuck s → IsFrozen s (run s es)
unfolding run
run-IsFrozen s [] h = record { stuck = h; same_list = refl; same_request = refl }
run-IsFrozen s (e ∷ es) h =
    let f = step-IsFrozen s e h in
    let g = run-IsFrozen (step s e) es f.stuck in
    record {
      stuck = g.stuck;
      same_list = g.same_list ∙ f.same_list;
      same_request = g.same_request ∙ f.same_request;
    }

net_hook-request :
    (p : Packet) (s : MaclimitState)
    → IsLimited p s
    → s.locked ≡ false
    → Absent p.h_source s.list
    → s.new_terminal.flag ≡ no_add_task
    → (((net_hook_func (some p) s).1.new_terminal.flag ≡ add_immediate)
        ⊎ ((net_hook_func (some p) s).1.new_terminal.flag ≡ add_check))
      × ((net_hook_func (some p) s).1.pc ≡ s.pc)
unfolding net_hook_func admit send_add_opt_to_thread
net_hook-request p s l f a e = elim (scan_lem p.h_source s.list 0) [
  | inl g ↦ absurd (g.1 a)
  | inr g ↦ ground (arith, g.0, is_limited-of p s l)
]

-- Where the thread has reset the flag and not yet set its task state, a limited packet with an
-- address that is not listed, and then the next step of the thread, leave the thread stuck.
pub lost_wakeup :
    (s : MaclimitState) (p : Packet) (env : Env)
    → s.pc ≡ doze
    → s.new_terminal.flag ≡ no_add_task
    → s.locked ≡ false
    → IsLimited p s
    → Absent p.h_source s.list
    → IsStuck (run s (net_in (some p) ∷ sched env ∷ []))
unfolding run step limit_check_step thread_at
lost_wakeup s p env d e f l a = ground (arith, net_hook-request p s l f a e)

-- Where the thread has reset the flag and not yet set its task state, a limited packet with an address
-- that is not listed, and then the next step of the thread, leave the thread asleep with the request
-- pending; and so it stays, with the list unchanged, in every history of packets, ARP replies,
-- configurations and scheduling.
pub lost_wakeup-stays :
    (s : MaclimitState) (p : Packet) (env : Env) (es : List Event)
    → s.pc ≡ doze
    → s.new_terminal.flag ≡ no_add_task
    → s.locked ≡ false
    → IsLimited p s
    → Absent p.h_source s.list
    → let t = run s (net_in (some p) ∷ sched env ∷ []) in IsFrozen t (run t es)
lost_wakeup-stays s p env es d e f l a =
    run-IsFrozen (run s (net_in (some p) ∷ sched env ∷ [])) es (lost_wakeup s p env d e f l a)
