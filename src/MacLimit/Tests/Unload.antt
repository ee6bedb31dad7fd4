-- ===== src/MacLimit/Tests/Unload.antt =====
-- The loading and unloading of dirver/maclimit/maclimit.c between packets.
use quick_start.Common.Int.{pos}
use quick_start.Common.{str_eq, ◌≡◌, List, [], ◌∷◌, true, false, not, ◌&&◌, none, some}
use quick_start.MacLimit.Types.{initial}
use quick_start.MacLimit.Hooks.{
  net_hook_func, admit, send_add_opt_to_thread, is_no_add, scan, is_limited,
}
use quick_start.MacLimit.System.{step, configure, Event, net_in, arp_in, sched, run}
use quick_start.MacLimit.Stop.{kthread_stop}
use quick_start.MacLimit.Lifecycle.{FreesListed, no_kernel, InitEnv}
use quick_start.MacLimit.Load.{nf_init_with, nf_init_with-atomic}
use quick_start.MacLimit.Installed.{Installed, wakes}
use quick_start.MacLimit.Unload.{nf_cleanup_rest, stays_quiet, stopped_module}
use quick_start.MacLimit.Unload.Wakes.{nf_cleanup-wakes}
use quick_start.MacLimit.Tests.{packet, history, unloading}

abbrev stopping : List Event
stopping = sched unloading ∷ sched unloading ∷ []

-- The first packet is of a listed address, and the second of another.
nf_cleanup-wakes_example :
    let s = run (kthread_stop (run initial history)) stopping in
    (stays_quiet (net_in (some (packet 1)) ∷ []) (arp_in none ∷ []) s ≡ true
      → (l : Installed) × (nf_cleanup_rest
            (net_in (some (packet 1)) ∷ [])
            (arp_in none ∷ [])
            (net_in (some (packet 2)) ∷ [])
            (stopped_module s)
          ≡ some l)
        × (l.kernel ≡ no_kernel)
        × FreesListed s l.maclimit)
    × (stays_quiet (net_in (some (packet 1)) ∷ []) (arp_in none ∷ []) s ≡ false
        → nf_cleanup_rest
            (net_in (some (packet 1)) ∷ [])
            (arp_in none ∷ [])
            (net_in (some (packet 2)) ∷ [])
            (stopped_module s)
          ≡ none)
    × (wakes s (net_in (some (packet 2))) ≡ (
        is_limited (packet 2) s
        && (not s.locked
            && (not (scan (packet 2).h_source s.list 0).0 && is_no_add s.new_terminal.flag))))
nf_cleanup-wakes_example =
    nf_cleanup-wakes history stopping (net_in (some (packet 1)) ∷ []) (arp_in none ∷ [])
      (net_in (some (packet 2)) ∷ []) (packet 2) (run (kthread_stop (run initial history)) stopping)

-- The limit is switched on before the hooks are there, and a packet comes before the thread.
abbrev granted : InitEnv
granted = record { proc_ok = true; hooks_status = pos 0; thread_ok = true }

abbrev switched : List Event
switched = configure (record { enable = pos 1; limit_num = pos 1 }) ∷ []

nf_init_with-atomic_example :
    nf_init_with granted switched (net_in (some (packet 1)) ∷ []) [] initial ≡ none
unfolding step net_hook_func is_limited admit send_add_opt_to_thread scan str_eq
nf_init_with-atomic_example =
    nf_init_with-atomic granted switched (net_in (some (packet 1)) ∷ []) [] initial
