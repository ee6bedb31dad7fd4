-- ===== src/MacLimit/Invariant.antt =====
-- What holds at each place of `limit_check_func`, whatever the hooks do in between.
use quick_start.Common.{
  ◌≡◌, refl, ◌⊎◌, inl, inr, Bool, true, false, none, some, List, [], ◌∷◌, arith,
}
use quick_start.MacLimit.Types.{
  MaclimitNode, MaclimitCfg, AddMode, no_add_task, add_immediate, add_check, arp_replay_check,
  arp_replay_ok, MaclimitState, Pc, loop, lock_new, insert_new, visit, arm, probe, judge, lock_old,
  spare, replace, unlock, finish, doze, asleep, stopped, initial,
}
use quick_start.MacLimit.Scan.{Absent, IsDistinct, IsDistinct-list_replace, scan_lem}
use quick_start.MacLimit.Hooks.{
  Packet, ArpInfo, send_add_opt_to_thread, admit, net_hook_func, arp_reply, arpin_hook_func,
}
use quick_start.MacLimit.Thread.{Env, thread_at, limit_check_step}
use quick_start.MacLimit.System.{Event, net_in, arp_in, sched, configure, step, run}

abbrev pub IsPending : AddMode → Type 0
IsPending no_add_task = ⊥
IsPending _ = Unit {0}

-- The thread is checking a node: no hook starts a request.
abbrev pub IsProbing : AddMode → Type 0
IsProbing arp_replay_check = Unit {0}
IsProbing arp_replay_ok = Unit {0}
IsProbing _ = ⊥

-- A request that the thread has not yet read.
abbrev pub Requested : MaclimitState → AddMode → Type 0
Requested s no_add_task = Unit {0}
Requested s add_immediate = Absent s.new_terminal.node.mac s.list
Requested s add_check = Absent s.new_terminal.node.mac s.list
Requested s _ = ⊥

-- A copy of the request, for an address that is not listed.
abbrev pub Copied : MaclimitState → MaclimitNode → Type 0
Copied s node = (node.mac ≡ s.new_terminal.node.mac) × Absent node.mac s.list

abbrev pub At : Pc → MaclimitState → Type 0
At loop s = Requested s s.new_terminal.flag
At (lock_new node) s = (s.new_terminal.flag ≡ add_immediate) × Copied s node
At (insert_new node) s = (s.new_terminal.flag ≡ add_immediate) × Copied s node
At (visit k) s = IsPending s.new_terminal.flag × Absent s.new_terminal.node.mac s.list
At (arm k p) s = IsProbing s.new_terminal.flag × Absent s.new_terminal.node.mac s.list
At (probe k p i) s = IsProbing s.new_terminal.flag × Absent s.new_terminal.node.mac s.list
At (judge k p) s = IsProbing s.new_terminal.flag × Absent s.new_terminal.node.mac s.list
At (lock_old k node) s = IsProbing s.new_terminal.flag × Copied s node
At (spare k node) s = IsProbing s.new_terminal.flag × Copied s node
At (replace k node) s = IsProbing s.new_terminal.flag × Copied s node
At unlock s = IsPending s.new_terminal.flag
At finish s = Unit {0}
At doze s = Requested s s.new_terminal.flag
At asleep s = Requested s s.new_terminal.flag
At stopped s = Requested s s.new_terminal.flag

-- Where the thread holds the lock for writing.
abbrev pub holds_lock : Pc → Bool
holds_lock (insert_new _) = true
holds_lock (spare _ _) = true
holds_lock (replace _ _) = true
holds_lock unlock = true
holds_lock _ = false

pub record Inv (s : MaclimitState) : Type 0 where
  pub at : At s.pc s
  pub distinct : IsDistinct s.list
  pub lock : s.locked ≡ holds_lock s.pc

-- A hook leaves the list, the lock and the place of the thread alone.
send-At :
    (pc : Pc) (p : Packet) (mode : AddMode) (s : MaclimitState)
    → (mode ≡ add_immediate) ⊎ (mode ≡ add_check)
    → Absent p.h_source s.list
    → At pc s
    → At pc (send_add_opt_to_thread p mode s)
unfolding send_add_opt_to_thread
send-At loop p mode s r a h = ground arith
send-At pc p mode s r a h = ground arith

send-Inv :
    (p : Packet) (mode : AddMode) (s : MaclimitState)
    → (mode ≡ add_immediate) ⊎ (mode ≡ add_check)
    → Absent p.h_source s.list
    → Inv s
    → Inv (send_add_opt_to_thread p mode s)
unfolding send_add_opt_to_thread
send-Inv p mode s r a h = record {
  at = ground (arith, send-At s.pc p mode s r a h.at);
  distinct = ground arith;
  lock = ground arith;
}

net_hook-Inv : (p : Packet) (s : MaclimitState) → Inv s → Inv (net_hook_func (some p) s).1
unfolding net_hook_func admit
net_hook-Inv p s h = elim (scan_lem p.h_source s.list 0) [
  | inl f ↦ ground (arith, f.0)
  | inr f ↦ ground (
    arith,
    f.0,
    send-Inv p add_immediate s (inl refl) f.1 h,
    send-Inv p add_check s (inr refl) f.1 h,
  )
]

arp_reply-At : (pc : Pc) (a : ArpInfo) (s : MaclimitState) → At pc s → At pc (arp_reply a s)
unfolding arp_reply
arp_reply-At loop a s h = ground arith
arp_reply-At pc a s h = ground arith

arp_reply-Inv : (a : ArpInfo) (s : MaclimitState) → Inv s → Inv (arp_reply a s)
unfolding arp_reply
arp_reply-Inv a s h = record {
  at = ground (arith, arp_reply-At s.pc a s h.at);
  distinct = ground arith;
  lock = ground arith;
}

-- A step of the thread, from each place.
thread-Inv :
    (pc : Pc) (env : Env) (s : MaclimitState)
    → At pc s
    → IsDistinct s.list
    → s.locked ≡ holds_lock pc
    → Inv s
    → Inv (thread_at pc env s)
unfolding thread_at
thread-Inv (replace k node) env s at d l h = record {
  at = ground arith;
  distinct = IsDistinct-list_replace k node s.list at.1.1 d;
  lock = ground arith;
}
thread-Inv pc env s at d l h = ground arith

configure-At :
    (pc : Pc) (cfg : MaclimitCfg) (s : MaclimitState) → At pc s → At pc (record s { cfg = cfg })
configure-At loop cfg s h = ground arith
configure-At pc cfg s h = ground arith

-- Every event keeps the addresses in the list distinct, the lock as the thread's place says, and a
-- pending request about an address that is not listed.
pub step-Inv : (s : MaclimitState) (e : Event) → Inv s → Inv (step s e)
unfolding step limit_check_step net_hook_func arpin_hook_func
step-Inv s (net_in none) h = h
step-Inv s (net_in (some p)) h = net_hook-Inv p s h
step-Inv s (arp_in none) h = h
step-Inv s (arp_in (some none)) h = h
step-Inv s (arp_in (some (some a))) h = arp_reply-Inv a s h
step-Inv s (sched env) h = thread-Inv s.pc env s h.at h.distinct h.lock h
step-Inv s (configure cfg) h = record {
  at = configure-At s.pc cfg s h.at;
  distinct = h.distinct;
  lock = h.lock;
}

pub run-Inv : (s : MaclimitState) (es : List Event) → Inv s → Inv (run s es)
unfolding run
run-Inv s [] h = h
run-Inv s (e ∷ es) h = run-Inv (step s e) es (step-Inv s e h)

pub initial-Inv : Inv initial
initial-Inv = record { at = tt; distinct = tt; lock = refl }

-- In every history the list never holds an address twice.
pub run-IsDistinct : (es : List Event) → IsDistinct (run initial es).list
run-IsDistinct es = (run-Inv initial es initial-Inv).distinct
