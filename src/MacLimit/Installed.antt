-- ===== src/MacLimit/Installed.antt =====
-- dirver/maclimit/maclimit.c while it is being loaded or unloaded: its hooks and its proc file can be in
-- use before `limit_check_task` is a thread, and behind that.
use quick_start.Common.{
  ◌≡◌, refl, List, [], ◌∷◌, Bool, true, false, not, ◌&&◌, Bool-cases, inl, inr, Option, none, some,
  ◌>>=◌, if◌then◌else◌, arith,
}
use quick_start.MacLimit.Types.{MaclimitState}
use quick_start.MacLimit.System.{Event, net_in, arp_in, sched, configure, step}
use quick_start.MacLimit.Lifecycle.{Kernel}

-- The module with what it has in the kernel, and whether `limit_check_task` is a thread or NULL.
pub record Installed : Type 0 where
  pub maclimit : MaclimitState
  pub kernel : Kernel
  pub limit_check_task : Bool

-- Whether an event can reach the module.
abbrev pub can_come : Kernel → Event → Bool
can_come k (net_in _) = k.hooks
can_come k (arp_in _) = k.hooks
can_come k (sched _) = k.thread
can_come k (configure _) = k.proc

-- Whether a hook calls `wake_up_process`, as a thread that sleeps shows.
abbrev pub wakes : MaclimitState → Event → Bool
wakes s (sched _) = false
wakes s e = (step (record s { runnable = false }) e).runnable

-- `none` is `wake_up_process(NULL)`.
unfoldable pub come : Event → Installed → Option Installed
come e l =
    if not (can_come l.kernel e)
    then some l
    else if wakes l.maclimit e && not l.limit_check_task
    then none
    else some (record l { maclimit = step l.maclimit e })

unfoldable pub all_come : List Event → Installed → Option Installed
unfolding come
all_come [] l = some l
all_come (e ∷ es) l = come e l >>= all_come es

-- The module's data behind the events that can come, and whether none of them wakes the thread.
abbrev pub run_under : Kernel → List Event → MaclimitState → MaclimitState
run_under k [] s = s
run_under k (e ∷ es) s = run_under k es (if can_come k e then step s e else s)

abbrev pub is_quiet : Kernel → List Event → MaclimitState → Bool
is_quiet k [] s = true
is_quiet k (e ∷ es) s =
    not (can_come k e && wakes s e) && is_quiet k es (if can_come k e then step s e else s)

-- The kernel's part of the module without its thread, and with its proc entry only.
abbrev pub no_thread : Kernel
no_thread = record { proc = true; hooks = true; thread = false }

abbrev pub only_proc : Kernel
only_proc = record { proc = true; hooks = false; thread = false }

-- The module without a thread.
abbrev pub left_with : Kernel → MaclimitState → Installed
left_with k s = record { maclimit = s; kernel = k; limit_check_task = false }

-- The events come without a thread to wake.
come_lem :
    (e : Event) (l : Installed)
    → l.limit_check_task ≡ false
    → come e l ≡ (
        if can_come l.kernel e && wakes l.maclimit e
        then none
        else some
            (record l { maclimit = if can_come l.kernel e then step l.maclimit e else l.maclimit }))
unfolding come
come_lem e l t = ground (arith, t)

pub all_come_lem :
    (es : List Event) (l : Installed)
    → l.limit_check_task ≡ false
    → all_come es l ≡ (
        if is_quiet l.kernel es l.maclimit
        then some (record l { maclimit = run_under l.kernel es l.maclimit })
        else none)
unfolding all_come
all_come_lem [] l t = refl
all_come_lem (e ∷ es) l t = elim (Bool-cases (can_come l.kernel e && wakes l.maclimit e)) [
  | inl h ↦ rw (come_lem e l t, h) refl
  | inr h ↦
      rw (come_lem e l t, h)
        (all_come_lem es
          (record l { maclimit = if can_come l.kernel e then step l.maclimit e else l.maclimit }) t)
]
