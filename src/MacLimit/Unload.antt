-- ===== src/MacLimit/Unload.antt =====
-- `nf_cleanup` of dirver/maclimit/maclimit.c behind its stop of the thread, with the packets and the
-- writes to the proc file that come in between.
pub mod Wakes
use quick_start.Common.{
  ℕ, ◌+◌, ◌≡◌, refl, ap, ◌∙◌, List, [], ◌∷◌, length, Bool, true, false, not, ◌&&◌, Bool-cases, inl,
  inr, Option, none, some, ◌>>=◌, ◌-◌, if◌then◌else◌, arith,
}
use quick_start.MacLimit.Types.{MaclimitState, NewTerminal, stopped, initial}
use quick_start.MacLimit.Hooks.{
  Packet, is_no_add, scan, is_limited, admit, send_add_opt_to_thread, net_hook_func,
}
use quick_start.MacLimit.System.{
  Event, net_in, arp_in, sched, configure, is_sched, step, run, hook_keeps,
}
use quick_start.MacLimit.Alloc.{run-IsBacked}
use quick_start.MacLimit.Stop.{kthread_stop}
use quick_start.MacLimit.Installed.{
  Installed, can_come, wakes, come, all_come, run_under, is_quiet, no_thread, only_proc, left_with,
  all_come_lem,
}
use quick_start.MacLimit.Lifecycle.{Kernel, kfree, kfree_all, nf_cleanup, no_kernel, loaded}

-- What `nf_cleanup` does once `kthread_stop` has returned, one access after the other.
unfoldable pub forget_task : Installed → Installed
forget_task l = record l { limit_check_task = false; kernel = record l.kernel { thread = false } }

unfoldable pub remove_proc_entry : Installed → Installed
remove_proc_entry l = record l { kernel = record l.kernel { proc = false } }

unfoldable pub nf_unregister_hooks : Installed → Installed
nf_unregister_hooks l = record l { kernel = record l.kernel { hooks = false } }

unfoldable pub free_nodes : Installed → Installed
unfolding kfree_all kfree
free_nodes l = record l { maclimit = kfree_all l.maclimit.heap.addrs l.maclimit }

-- The events come behind the reset of the pointer, the removal of the proc entry, and that of the
-- hooks.
unfoldable pub nf_cleanup_rest : List Event → List Event → List Event → Installed → Option Installed
nf_cleanup_rest es0 es1 es2 l =
    all_come es0 (forget_task l)
    >>= (λ l0. all_come es1 (remove_proc_entry l0))
    >>= (λ l1. all_come es2 (nf_unregister_hooks l1))
    >>= (λ l2. some (free_nodes l2))

-- The kernel's part of the module without its thread and its proc entry.
abbrev pub no_proc : Kernel
no_proc = record { proc = false; hooks = true; thread = false }

abbrev pub stays_quiet : List Event → List Event → MaclimitState → Bool
stays_quiet es0 es1 s = is_quiet no_thread es0 s && is_quiet no_proc es1 (run_under no_thread es0 s)

-- The module when `kthread_stop` has returned.
abbrev pub stopped_module : MaclimitState → Installed
stopped_module s = record { maclimit = s; kernel = loaded; limit_check_task = true }
