-- ===== src/MacLimit/Tests.antt =====
-- The theorems about dirver/maclimit/maclimit.c at concrete packets and histories.
mod Unload
use quick_start.Common.{
  ℕ, ◌≡◌, ◌<◌, ◌^◌, ◌∷◌, ◌++◌, ◌∙◌, take, drop, decimal, digits, digit_value, digit_value-decimal,
  Option, all_digits, ltb, ◌≢◌, ◌≤◌, ◌+◌, refl, Bool, true, false, none, some, List, [], map, ap,
  ◌-◌, length, arith, codes, replicate, Mac, leb, if◌then◌else◌,
}
use quick_start.Common.Int.{pos}
use quick_start.MacLimit.Types.{
  NetDevice, MaclimitNode, MaclimitCfg, MaclimitState, doze, asleep, initial, zero_mac,
}
use quick_start.MacLimit.Scan.{Absent, IsDistinct}
use quick_start.MacLimit.Hooks.{nf_accept, Packet, net_hook_func}
use quick_start.MacLimit.System.{Event, net_in, arp_in, sched, configure, step, run}
use quick_start.MacLimit.Verdict.{IsLimited}
use quick_start.MacLimit.Invariant.{run-IsDistinct}
use quick_start.MacLimit.Bound.{run-length}
use quick_start.MacLimit.Progress.{ComesToRest, limit_check-rests}
use quick_start.MacLimit.Wakeup.{IsFrozen, lost_wakeup-stays}
use quick_start.MacLimit.Thread.{Env}
use quick_start.MacLimit.Stop.{kthread_stop, is_stopped, hears_stop}
use quick_start.MacLimit.Stopping.{kthread_stop-returns}
use quick_start.MacLimit.Round.{calm, node_of, IsIdle, add_immediate_round}
use quick_start.MacLimit.Check.{replace_first_silent}
use quick_start.MacLimit.CheckRound.{round_events, add_check_round}
use quick_start.MacLimit.Alloc.{IsBacked, initial-IsBacked, run-IsBacked}
use quick_start.MacLimit.Refines.{terminals, policy, Evolves, run-Evolves}
use quick_start.MacLimit.Config.{write_maclimit_proc, read_maclimit_proc, wrote}
use quick_start.MacLimit.Words.{write_maclimit_proc-words}
use quick_start.MacLimit.Report.{numbers, read_maclimit_proc-write}
use quick_start.MacLimit.Lifecycle.{
  no_kernel, loaded, InitEnv, succeeds, nf_init, nf_cleanup, nf_init_atomic, nf_cleanup-frees,
}

abbrev mac_of : ℕ → Mac
mac_of n = record zero_mac { b5 = n }

abbrev bridge : NetDevice
bridge = record { name = codes "br0"; dev_addr = mac_of 254 }

-- A TCP packet of the terminal with number `n`.
abbrev pub packet : ℕ → Packet
packet n = record {
  protocol = 6;
  saddr = 0xc0a80100 + n;
  daddr = 0x08080808;
  h_source = mac_of n;
  in_dev = bridge;
}

-- The module at rest with a limit of 2, over some listed terminals.
abbrev resting : List ℕ → MaclimitState
resting ns = record initial {
  cfg = record { enable = pos 1; limit_num = pos 2 };
  list = map (λ n. node_of (packet n)) ns;
  pc = asleep;
  runnable = false;
  nodes = length ns;
  heap = record { addrs = ns; node = 0; live = λ a. ltb a 90; next = 90 };
}

limited : (n : ℕ) (ns : List ℕ) → IsLimited (packet n) (resting ns)
limited n ns = record { on = λ e. cc; not_udp = λ e. absurd (omega arith); bridge = refl }

idle : (ns : List ℕ) → IsIdle (resting ns)
idle ns = record { sleeps = refl; blocked = refl; nothing = refl; free = refl }

mac_ne : (m n : ℕ) → m ≢ n → mac_of m ≢ mac_of n
mac_ne m n h e = h (ap (λ (a : Mac). a.b5) e)

unknown_three : Absent (mac_of 3) (resting (2 ∷ 1 ∷ [])).list
unknown_three =
    (mac_ne 2 3 (λ e. absurd (omega arith)), (mac_ne 1 3 (λ e. absurd (omega arith)), tt))

add_immediate_round_example :
    ((net_hook_func (some (packet 3)) (resting (1 ∷ []))).0 ≡ nf_accept)
    × ((run (resting (1 ∷ [])) (net_in (some (packet 3)) ∷ replicate 7 (sched calm))).list
        ≡ node_of (packet 3) ∷ node_of (packet 1) ∷ [])
add_immediate_round_example =
    let (accepted, _, list, _) =
      add_immediate_round (packet 3) (resting (1 ∷ [])) (idle (1 ∷ [])) (limited 3 (1 ∷ []))
        (unknown_three.1) refl in
    (accepted, list)

-- Terminal 2 answers, terminal 1 does not.
abbrev answers : MaclimitNode → Bool
answers x = leb 2 x.mac.b5

add_check_round_example :
    (run (resting (2 ∷ 1 ∷ [])) (round_events answers (packet 3) (resting (2 ∷ 1 ∷ [])).list)).list
    ≡ replace_first_silent answers (node_of (packet 3)) (resting (2 ∷ 1 ∷ [])).list
add_check_round_example =
    (add_check_round answers (packet 3) (resting (2 ∷ 1 ∷ [])) (idle (2 ∷ 1 ∷ []))
      (limited 3 (2 ∷ 1 ∷ [])) unknown_three refl).1

add_check_result :
    replace_first_silent answers (node_of (packet 3)) (resting (2 ∷ 1 ∷ [])).list
    ≡ node_of (packet 2) ∷ node_of (packet 3) ∷ []
unfolding replace_first_silent
add_check_result = refl

-- Two packets of one terminal, and the thread's steps for them.
abbrev pub history : List Event
history =
    configure (record { enable = pos 1; limit_num = pos 2 })
    ∷ net_in (some (packet 1))
    ∷ net_in (some (packet 1))
    ∷ replicate 12 (sched calm)

run-IsDistinct_example : IsDistinct (run initial history).list
run-IsDistinct_example = run-IsDistinct history

run-length_example : length (run initial history).list ≤ 2
run-length_example = run-length 2 history (omega arith) (omega arith)

limit_check-rests_example : ComesToRest initial (replicate 8 (sched calm))
limit_check-rests_example = limit_check-rests initial (replicate 8 (sched calm)) (omega arith)

run-IsBacked_example : IsBacked (run initial history)
run-IsBacked_example = run-IsBacked initial history initial-IsBacked

-- The thread has reset the flag and not yet set its task state.
abbrev dozing : MaclimitState
dozing = record (resting []) { pc = doze; runnable = true }

lost_wakeup-stays_example :
    let s = run dozing (net_in (some (packet 1)) ∷ sched calm ∷ []) in IsFrozen s (run s history)
lost_wakeup-stays_example =
    lost_wakeup-stays dozing (packet 1) calm history refl refl refl
      (record { on = λ e. cc; not_udp = λ e. absurd (omega arith); bridge = refl }) tt

-- The module is unloaded while the thread is about to sleep.
abbrev pub unloading : Env
unloading = record { should_stop = true; memory = true }

kthread_stop-returns_example :
    is_stopped
      (run
        (kthread_stop (run initial (sched calm ∷ sched calm ∷ [])))
        (sched unloading ∷ arp_in none ∷ sched unloading ∷ [])).pc
    ≡ hears_stop (run initial (sched calm ∷ sched calm ∷ [])).pc
kthread_stop-returns_example =
    kthread_stop-returns (sched calm ∷ sched calm ∷ [])
      (sched unloading ∷ arp_in none ∷ sched unloading ∷ []) refl (omega arith)

-- `simple_strtoul` in decimal.
abbrev number : List ℕ → Option ℕ
number s = if all_digits s then none else some (digit_value 0 s)

all_digits-ended : (s rest : List ℕ) (c : ℕ) → c < b'0' → all_digits (s ++ c ∷ rest) ≡ false
all_digits-ended [] rest c h = ground arith
all_digits-ended (d ∷ s) rest c h = let ih = all_digits-ended s rest c h in ground arith

number-stops :
    (n c : ℕ) (rest : List ℕ)
    → n < 10 ^ 20
    → n < 2 ^ 64
    → c < b'0'
    → number (decimal n ++ c ∷ rest) ≡ some n
number-stops n c rest h k l =
    let e : digit_value 0 (decimal n ++ c ∷ rest) ≡ n =
      digit_value-decimal n (c ∷ rest) h ∙ ground arith in
    rw (all_digits-ended (decimal n) rest c l, e) refl

length-numbers : length (numbers 12 1) ≡ 5
unfolding decimal digits
length-numbers = refl

read_maclimit_proc-write_example :
    (cfg : MaclimitCfg) × (write_maclimit_proc number 64
        (replicate 20 7)
        true
        (numbers 12 1)
        initial.cfg
      ≡ wrote (length (numbers 12 1)) cfg)
    × (read_maclimit_proc (λ cnt start page. take cnt (drop start page)) 100 0 cfg
        ≡ some (
            take 100 (
              codes "config: limit_num: "
              ++ (decimal 12 ++ (codes ", enable: " ++ (decimal 1 ++ codes "\n"))))))
read_maclimit_proc-write_example =
    read_maclimit_proc-write number 64 (λ cnt start page. take cnt (drop start page)) number-stops
      (replicate 20 7) initial.cfg 12 1 100 0 refl (omega (arith, length-numbers)) (omega arith)
      (omega arith) (omega arith) (omega arith)

abbrev old_stack : List ℕ
old_stack = codes "1234567 old options."

abbrev off : MaclimitCfg
off = record { enable = pos 0; limit_num = pos 1 }

-- The digits that the stack held belong to the second number.
write_maclimit_proc-words_example :
    write_maclimit_proc number 64 old_stack true (codes "3 1") off
    ≡ wrote 3 (record { limit_num = pos 3; enable = pos 14567 })
write_maclimit_proc-words_example =
    write_maclimit_proc-words number 64 old_stack [] [] b'3' b'1' 3 14567 off (omega arith) refl
      ((λ e. absurd (omega arith)), tt) (λ e. absurd (omega arith)) (λ e. absurd (omega arith)) refl
      refl

abbrev ones : List ℕ
ones = replicate 20 b'1'

run-Evolves_example :
    let s = run initial (net_in (some (packet 1)) ∷ sched calm ∷ []) in
    ((net_hook_func (some (packet 2)) s).0 ≡ policy (packet 2) s.cfg s.locked (terminals s))
    × Evolves (terminals s) (terminals (step s (sched calm)))
run-Evolves_example =
    run-Evolves (net_in (some (packet 1)) ∷ sched calm ∷ []) (sched calm) (packet 2)
