-- ===== src/MacLimit/Stopping.antt =====
-- When the stop that nf_cleanup of dirver/maclimit/maclimit.c waits for comes to an end.
use quick_start.Common.{
  ℕ, ◌≤◌, ◌≡◌, refl, sym, ◌∙◌, inl, inr, Bool, true, false, not, List, [], ◌∷◌, none, some,
  get_elem?, Option-cases, Bool-cases, arith,
}
use quick_start.MacLimit.Types.{AddMode, MaclimitState, Pc, visit, doze, asleep, stopped, initial}
use quick_start.MacLimit.Hooks.{
  is_replay_check, send_add_opt_to_thread, admit, net_hook_func, arp_reply, arpin_hook_func,
}
use quick_start.MacLimit.Thread.{Env, thread_at, limit_check_step}
use quick_start.MacLimit.System.{
  Event, net_in, arp_in, sched, configure, step, run, is_sched, hook_keeps,
}
use quick_start.MacLimit.Progress.{turns}
use quick_start.MacLimit.Stop.{
  kthread_stop, all_behind_stop, is_stopped, hears_stop, soon, deaf, run-soon, run-deaf,
}

-- A thread that has reset the flag is not taken to wait for an ARP reply.
abbrev calm : AddMode → Pc → Bool
calm flag doze = not (is_replay_check flag)
calm flag asleep = not (is_replay_check flag)
calm flag _ = true

abbrev is_calm : MaclimitState → Bool
is_calm s = calm s.new_terminal.flag s.pc

thread-calm :
    (pc : Pc) (env : Env) (s : MaclimitState)
    → s.pc ≡ pc
    → calm s.new_terminal.flag pc ≡ true
    → is_calm (thread_at pc env s) ≡ true
unfolding thread_at
thread-calm (visit k) env s p h = elim (Option-cases (get_elem? s.list k)) [
  | inl e ↦ ground (arith, e)
  | inr (q, e) ↦ ground (arith, e)
]
thread-calm asleep env s p h = elim (Bool-cases s.runnable) [
  | inl r ↦ rw r refl
  | inr r ↦ let f : is_replay_check s.new_terminal.flag ≡ false = ground arith in rw (r, p, f) refl
]
thread-calm stopped env s p h = rw p refl
thread-calm pc env s p h = ground arith

hook-calm :
    (pc : Pc) (s : MaclimitState) (e : Event)
    → is_sched e ≡ false
    → calm s.new_terminal.flag pc ≡ true
    → calm (step s e).new_terminal.flag pc ≡ true
unfolding step net_hook_func admit send_add_opt_to_thread arpin_hook_func arp_reply
hook-calm pc s (sched env) n h = absurd (cc)
hook-calm pc s (net_in none) n h = h
hook-calm pc s (net_in (some p)) n h = ground arith
hook-calm pc s (arp_in none) n h = h
hook-calm pc s (arp_in (some none)) n h = h
hook-calm pc s (arp_in (some (some a))) n h = ground arith
hook-calm pc s (configure cfg) n h = h

step-calm : (s : MaclimitState) (e : Event) → is_calm s ≡ true → is_calm (step s e) ≡ true
unfolding step limit_check_step
step-calm s (sched env) h = thread-calm s.pc env s refl h
step-calm s e h = rw (hook_keeps s e refl).0 (hook-calm s.pc s e refl h)

run-calm : (s : MaclimitState) (es : List Event) → is_calm s ≡ true → is_calm (run s es) ≡ true
unfolding run
run-calm s [] h = h
run-calm s (e ∷ es) h = run-calm (step s e) es (step-calm s e h)

-- A stop that finds the thread at the head of its loop or in `schedule` ends in two of its steps; one
-- that finds it elsewhere does not end.
hears-soon : (pc : Pc) (n : ℕ) → 2 ≤ n → hears_stop pc ≡ true → soon n true pc ≡ true
hears-soon pc n l h = ground arith

hears-deaf :
    (pc : Pc) (flag : AddMode)
    → calm flag pc ≡ true
    → hears_stop pc ≡ false
    → deaf true flag pc ≡ true
hears-deaf pc flag c h = ground arith

-- In every history: behind `kthread_stop`, and while no packet comes in, the thread has returned after
-- two of its steps if the call has found it at the head of its loop, asleep in `schedule` or returned
-- already; and otherwise it does not return, however many steps it takes, as it goes to sleep without
-- a look at the stop.
pub kthread_stop-returns :
    (before es : List Event)
    → all_behind_stop es ≡ true
    → 2 ≤ turns es
    → is_stopped (run (kthread_stop (run initial before)) es).pc
      ≡ hears_stop (run initial before).pc
unfolding kthread_stop
kthread_stop-returns before es b l =
    let s = run initial before in
    elim (Bool-cases (hears_stop s.pc)) [
      | inl h ↦
          run-soon es (record s { runnable = true }) b (hears-soon s.pc (turns es) l h) ∙ sym h
      | inr h ↦
          run-deaf es (record s { runnable = true }) b
            (hears-deaf s.pc s.new_terminal.flag (run-calm initial before refl) h)
          ∙ sym h
    ]
