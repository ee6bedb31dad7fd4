-- ===== src/MacLimit/Stop.antt =====
-- What `kthread_stop` does to the thread of dirver/maclimit/maclimit.c, step by step.
use quick_start.Common.{
  ℕ, suc, ◌≡◌, refl, inl, inr, Bool, true, false, not, ◌&&◌, Option, List, [], ◌∷◌, none, some, leb,
  get_elem?, Option-cases, arith,
}
use quick_start.MacLimit.Types.{AddMode, MaclimitState, Pc, loop, visit, doze, asleep, stopped}
use quick_start.MacLimit.Hooks.{ArpInfo, is_replay_check, arp_reply, arpin_hook_func}
use quick_start.MacLimit.Thread.{Env, thread_at, limit_check_step}
use quick_start.MacLimit.System.{Event, net_in, arp_in, sched, configure, step, run, hook_keeps}
use quick_start.MacLimit.Progress.{turns}

-- `kthread_stop` makes `kthread_should_stop` true and wakes the thread, and then waits for its return.
unfoldable pub kthread_stop : MaclimitState → MaclimitState
kthread_stop s = record s { runnable = true }

-- What can happen behind `kthread_stop` while no packet comes in.
abbrev pub behind_stop : Event → Bool
behind_stop (net_in _) = false
behind_stop (arp_in _) = true
behind_stop (sched env) = env.should_stop
behind_stop (configure _) = true

abbrev pub all_behind_stop : List Event → Bool
all_behind_stop [] = true
all_behind_stop (e ∷ es) = behind_stop e && all_behind_stop es

-- Whether the thread has returned, and whether it stands where a stop reaches it: at the head of its
-- loop, or in `schedule`.
abbrev pub is_stopped : Pc → Bool
is_stopped stopped = true
is_stopped _ = false

abbrev pub hears_stop : Pc → Bool
hears_stop loop = true
hears_stop asleep = true
hears_stop stopped = true
hears_stop _ = false

-- Whether the thread returns within `n` of its steps.
abbrev pub soon : ℕ → Bool → Pc → Bool
soon n runnable stopped = true
soon n runnable loop = leb 1 n
soon n runnable asleep = runnable && leb 2 n
soon n runnable _ = false

-- Whether the thread goes on to sleep, with nothing that wakes it.
abbrev pub deaf : Bool → AddMode → Pc → Bool
deaf runnable flag loop = false
deaf runnable flag stopped = false
deaf runnable flag asleep = not runnable && not (is_replay_check flag)
deaf runnable flag doze = not (is_replay_check flag)
deaf runnable flag _ = true

abbrev is_deaf : MaclimitState → Bool
is_deaf s = deaf s.runnable s.new_terminal.flag s.pc

thread-soon :
    (pc : Pc) (n : ℕ) (env : Env) (s : MaclimitState)
    → s.pc ≡ pc
    → env.should_stop ≡ true
    → soon (suc n) s.runnable pc ≡ true
    → soon n (thread_at pc env s).runnable (thread_at pc env s).pc ≡ true
unfolding thread_at
thread-soon stopped n env s p e h = rw p refl
thread-soon pc n env s p e h = ground arith

thread-deaf :
    (pc : Pc) (env : Env) (s : MaclimitState)
    → s.pc ≡ pc
    → deaf s.runnable s.new_terminal.flag pc ≡ true
    → is_deaf (thread_at pc env s) ≡ true
unfolding thread_at
thread-deaf (visit k) env s p h = elim (Option-cases (get_elem? s.list k)) [
  | inl e ↦ ground (arith, e)
  | inr (q, e) ↦ ground (arith, e)
]
thread-deaf asleep env s p h =
    let r : s.runnable ≡ false = ground arith in
    let f : is_replay_check s.new_terminal.flag ≡ false = ground arith in rw (r, p, f) refl
thread-deaf pc env s p h = ground arith

arp-soon :
    (pc : Pc) (n : ℕ) (s : MaclimitState) (a : Option (Option ArpInfo))
    → soon n s.runnable pc ≡ true
    → soon n (arpin_hook_func a s).1.runnable pc ≡ true
unfolding arpin_hook_func arp_reply
arp-soon pc n s none h = h
arp-soon pc n s (some none) h = h
arp-soon pc n s (some (some a)) h = ground arith

arp-deaf :
    (pc : Pc) (s : MaclimitState) (a : Option (Option ArpInfo))
    → deaf s.runnable s.new_terminal.flag pc ≡ true
    → let t = (arpin_hook_func a s).1 in deaf t.runnable t.new_terminal.flag pc ≡ true
unfolding arpin_hook_func arp_reply
arp-deaf pc s none h = h
arp-deaf pc s (some none) h = h
arp-deaf pc s (some (some a)) h = ground arith

step-soon :
    (e : Event) (es : List Event) (s : MaclimitState)
    → behind_stop e ≡ true
    → soon (turns (e ∷ es)) s.runnable s.pc ≡ true
    → soon (turns es) (step s e).runnable (step s e).pc ≡ true
unfolding step limit_check_step
step-soon (net_in p) es s b h = absurd (cc)
step-soon (sched env) es s b h = thread-soon s.pc (turns es) env s refl b h
step-soon (arp_in a) es s b h = rw (hook_keeps s (arp_in a) refl).0 (arp-soon s.pc (turns es) s a h)
step-soon (configure cfg) es s b h = h

step-deaf :
    (e : Event) (s : MaclimitState)
    → behind_stop e ≡ true
    → is_deaf s ≡ true
    → is_deaf (step s e) ≡ true
unfolding step limit_check_step
step-deaf (net_in p) s b h = absurd (cc)
step-deaf (sched env) s b h = thread-deaf s.pc env s refl h
step-deaf (arp_in a) s b h = rw (hook_keeps s (arp_in a) refl).0 (arp-deaf s.pc s a h)
step-deaf (configure cfg) s b h = h

soon-stopped : (pc : Pc) (runnable : Bool) → soon 0 runnable pc ≡ true → is_stopped pc ≡ true
soon-stopped pc runnable h = ground arith

deaf-stopped : (s : MaclimitState) → is_deaf s ≡ true → is_stopped s.pc ≡ false
deaf-stopped s h = ground arith

pub run-soon :
    (es : List Event) (s : MaclimitState)
    → all_behind_stop es ≡ true
    → soon (turns es) s.runnable s.pc ≡ true
    → is_stopped (run s es).pc ≡ true
unfolding run
run-soon [] s b h = soon-stopped s.pc s.runnable h
run-soon (e ∷ es) s b h = run-soon es (step s e) (ground arith) (step-soon e es s (ground arith) h)

pub run-deaf :
    (es : List Event) (s : MaclimitState)
    → all_behind_stop es ≡ true
    → is_deaf s ≡ true
    → is_stopped (run s es).pc ≡ false
unfolding run
run-deaf [] s b h = deaf-stopped s h
run-deaf (e ∷ es) s b h = run-deaf es (step s e) (ground arith) (step-deaf e s (ground arith) h)
