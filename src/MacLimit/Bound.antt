-- ===== src/MacLimit/Bound.antt =====
-- How long the list of dirver/maclimit/maclimit.c becomes.
use quick_start.Common.{ℕ, ◌≤◌, ◌<◌, ◌≡◌, inl, inr, none, some, List, [], ◌∷◌, length, arith}
use quick_start.Common.Int.{to_ℕ}
use quick_start.MacLimit.Types.{
  MaclimitCfg, add_immediate, add_check, MaclimitState, Pc, loop, lock_new, insert_new, replace,
  doze, asleep, initial,
}
use quick_start.MacLimit.Scan.{scan_lem, length-list_replace}
use quick_start.MacLimit.Hooks.{
  Packet, ArpInfo, send_add_opt_to_thread, admit, net_hook_func, arp_reply, arpin_hook_func,
}
use quick_start.MacLimit.Thread.{Env, thread_at, limit_check_step}
use quick_start.MacLimit.System.{Event, net_in, arp_in, sched, configure, step, run}

-- There is room below `limit` where a node is on its way to the list.
abbrev pub Room : ℕ → Pc → MaclimitState → Type 0
Room limit loop s = s.new_terminal.flag ≡ add_immediate → length s.list < limit
Room limit doze s = s.new_terminal.flag ≡ add_immediate → length s.list < limit
Room limit asleep s = s.new_terminal.flag ≡ add_immediate → length s.list < limit
Room limit (lock_new _) s = length s.list < limit
Room limit (insert_new _) s = length s.list < limit
Room limit _ s = Unit {0}

pub record IsBounded (limit : ℕ) (s : MaclimitState) : Type 0 where
  pub config : to_ℕ s.cfg.limit_num ≤ limit
  pub short : length s.list ≤ limit
  pub room : Room limit s.pc s

-- A configuration among the events allows at most `limit` addresses.
abbrev pub Allows : ℕ → Event → Type 0
Allows limit (configure cfg) = to_ℕ cfg.limit_num ≤ limit
Allows limit _ = Unit {0}

abbrev pub AllAllow : ℕ → List Event → Type 0
AllAllow limit [] = Unit {0}
AllAllow limit (e ∷ es) = Allows limit e × AllAllow limit es

module _ (limit : ℕ) where
  send_check-Room :
      (pc : Pc) (p : Packet) (s : MaclimitState)
      → Room limit pc s
      → Room limit pc (send_add_opt_to_thread p add_check s)
  unfolding send_add_opt_to_thread
  send_check-Room loop p s h = λ e. ground arith
  send_check-Room pc p s h = ground arith

  send_immediate-Room :
      (pc : Pc) (p : Packet) (s : MaclimitState)
      → length s.list < limit
      → Room limit pc s
      → Room limit pc (send_add_opt_to_thread p add_immediate s)
  unfolding send_add_opt_to_thread
  send_immediate-Room loop p s r h = λ e. ground arith
  send_immediate-Room pc p s r h = ground arith

  admit-IsBounded :
      (p : Packet) (s : MaclimitState)
      → IsBounded limit s
      → IsBounded limit (admit p (length s.list) s).1
  unfolding admit send_add_opt_to_thread
  admit-IsBounded p s h =
      ground (arith, send_check-Room s.pc p s h.room, send_immediate-Room s.pc p s)

  net_hook-IsBounded :
      (p : Packet) (s : MaclimitState)
      → IsBounded limit s
      → IsBounded limit (net_hook_func (some p) s).1
  unfolding net_hook_func
  net_hook-IsBounded p s h = elim (scan_lem p.h_source s.list 0) [
    | inl f ↦ ground (arith, f.0)
    | inr f ↦ ground (arith, f.0, admit-IsBounded p s h)
  ]

  arp_reply-Room :
      (pc : Pc) (a : ArpInfo) (s : MaclimitState) → Room limit pc s → Room limit pc (arp_reply a s)
  unfolding arp_reply
  arp_reply-Room loop a s h = λ e. ground arith
  arp_reply-Room pc a s h = ground arith

  thread-IsBounded :
      (pc : Pc) (env : Env) (s : MaclimitState)
      → Room limit pc s
      → IsBounded limit s
      → IsBounded limit (thread_at pc env s)
  unfolding thread_at
  thread-IsBounded (replace k node) env s r h = record {
    config = h.config;
    short = omega (arith, length-list_replace k node s.list);
    room = tt;
  }
  thread-IsBounded pc env s r h = ground arith

  arp_reply-IsBounded :
      (a : ArpInfo) (s : MaclimitState) → IsBounded limit s → IsBounded limit (arp_reply a s)
  unfolding arp_reply
  arp_reply-IsBounded a s h = record {
    config = ground arith;
    short = ground arith;
    room = ground (arith, arp_reply-Room s.pc a s h.room);
  }

  configure-Room :
      (pc : Pc) (cfg : MaclimitCfg) (s : MaclimitState)
      → Room limit pc s
      → Room limit pc (record s { cfg = cfg })
  configure-Room loop cfg s h = h
  configure-Room pc cfg s h = h

  step-IsBounded :
      (s : MaclimitState) (e : Event)
      → Allows limit e
      → IsBounded limit s
      → IsBounded limit (step s e)
  unfolding step limit_check_step net_hook_func arpin_hook_func
  step-IsBounded s (net_in none) c h = h
  step-IsBounded s (net_in (some p)) c h = net_hook-IsBounded p s h
  step-IsBounded s (arp_in none) c h = h
  step-IsBounded s (arp_in (some none)) c h = h
  step-IsBounded s (arp_in (some (some a))) c h = arp_reply-IsBounded a s h
  step-IsBounded s (sched env) c h = thread-IsBounded s.pc env s h.room h
  step-IsBounded s (configure cfg) c h = record {
    config = c;
    short = h.short;
    room = configure-Room s.pc cfg s h.room;
  }

  run-IsBounded :
      (s : MaclimitState) (es : List Event)
      → AllAllow limit es
      → IsBounded limit s
      → IsBounded limit (run s es)
  unfolding run
  run-IsBounded s [] c h = h
  run-IsBounded s (e ∷ es) c h = run-IsBounded (step s e) es c.1 (step-IsBounded s e c.0 h)

  -- In every history of the module that starts from its static data, the list has at most `limit`
  -- nodes, where `limit` is at least 1 and at least every limit that is configured.
  pub run-length :
      (es : List Event) → 1 ≤ limit → AllAllow limit es → length (run initial es).list ≤ limit
  run-length es h c =
      (run-IsBounded initial es c
        (record { config = h; short = omega arith; room = λ e. cc })).short
