-- ===== src/MacLimit/Load.antt =====
-- `nf_init` of dirver/maclimit/maclimit.c, with the packets and the writes to the proc file that come in
-- between.
use quick_start.Common.{
  ◌≡◌, refl, List, [], ◌∷◌, Bool, true, not, ◌&&◌, ◌||◌, Bool-cases, inl, inr, Option, none, some,
  ◌>>=◌, if◌then◌else◌, arith,
}
use quick_start.Common.Int.{ℤ, pos, ltb_ℤ}
use quick_start.MacLimit.Types.{MaclimitState}
use quick_start.MacLimit.System.{Event, net_in, arp_in, sched, configure, step}
use quick_start.MacLimit.Installed.{
  Installed, all_come, run_under, is_quiet, no_thread, only_proc, left_with, all_come_lem,
}
use quick_start.MacLimit.Lifecycle.{InitEnv, efault, nf_init, no_kernel, loaded, succeeds}
use quick_start.MacLimit.Unload.{remove_proc_entry, nf_unregister_hooks}

-- An error code in `limit_check_task` is as fatal to wake as NULL.
unfoldable pub create_thread : InitEnv → List Event → Installed → Option (ℤ × Installed)
create_thread env es l =
    if env.thread_ok
    then some (
      env.hooks_status,
      record l { limit_check_task = true; kernel = record l.kernel { thread = true } },
    )
    else all_come es l
      >>= (λ l'. some (env.hooks_status, remove_proc_entry (nf_unregister_hooks l')))

unfoldable pub register_hooks :
    InitEnv → List Event → List Event → Installed → Option (ℤ × Installed)
unfolding create_thread
register_hooks env es0 es1 l =
    if ltb_ℤ env.hooks_status (pos 0)
    then some (env.hooks_status, remove_proc_entry (nf_unregister_hooks l))
    else all_come es0 (record l { kernel = record l.kernel { hooks = true } })
      >>= create_thread env es1

-- The events come behind the creation of the proc entry, the registration of the hooks, and the failed
-- creation of the thread.
unfoldable pub nf_init_with :
    InitEnv → List Event → List Event → List Event → MaclimitState → Option (ℤ × Installed)
unfolding register_hooks
nf_init_with env es0 es1 es2 s =
    if not env.proc_ok
    then some (efault, remove_proc_entry (left_with no_kernel s))
    else all_come es0 (left_with only_proc s) >>= register_hooks env es1 es2

-- Whether no hook wakes the thread before it is there.
abbrev pub loads_quietly : InitEnv → List Event → List Event → List Event → MaclimitState → Bool
loads_quietly env es0 es1 es2 s =
    let s0 = run_under only_proc es0 s in
    let s1 = run_under no_thread es1 s0 in
    not env.proc_ok
    || (ltb_ℤ env.hooks_status (pos 0)
        || (is_quiet no_thread es1 s0 && (env.thread_ok || is_quiet no_thread es2 s1)))

-- The proc file alone wakes nothing.
only_proc-quiet : (es : List Event) (s : MaclimitState) → is_quiet only_proc es s ≡ true
unfolding step
only_proc-quiet [] s = refl
only_proc-quiet (net_in p ∷ es) s = only_proc-quiet es s
only_proc-quiet (arp_in a ∷ es) s = only_proc-quiet es s
only_proc-quiet (sched env ∷ es) s = only_proc-quiet es s
only_proc-quiet (configure cfg ∷ es) s = only_proc-quiet es (step s (configure cfg))

-- The module's data when `nf_init` returns.
abbrev pub data_behind :
    InitEnv → List Event → List Event → List Event → MaclimitState → MaclimitState
data_behind env es0 es1 es2 s =
    let s0 = run_under only_proc es0 s in
    let s1 = run_under no_thread es1 s0 in
    if not env.proc_ok
    then s
    else if ltb_ℤ env.hooks_status (pos 0)
    then s0
    else if env.thread_ok
    then s1
    else run_under no_thread es2 s1

-- Loading is atomic also when packets come and the proc file is written in between: as long as no hook
-- wakes the thread before it is there, `nf_init` returns and installs what it does when nothing comes,
-- and `limit_check_task` is a thread just if all is granted; the data have changed by these events
-- only. A hook that does wake the thread wakes NULL or an error code.
pub nf_init_with-atomic :
    (env : InitEnv) (es0 es1 es2 : List Event) (s : MaclimitState)
    → nf_init_with env es0 es1 es2 s ≡ (
        if loads_quietly env es0 es1 es2 s
        then some (
          if env.proc_ok then env.hooks_status else efault,
          record {
            maclimit = data_behind env es0 es1 es2 s;
            kernel = if succeeds env then loaded else no_kernel;
            limit_check_task = succeeds env;
          },
        )
        else none)
unfolding nf_init_with register_hooks create_thread remove_proc_entry nf_unregister_hooks
nf_init_with-atomic env es0 es1 es2 s =
    let s0 = run_under only_proc es0 s in
    let s1 = run_under no_thread es1 s0 in
    let come0 = all_come_lem es0 (left_with only_proc s) refl in
    let come1 = all_come_lem es1 (left_with no_thread s0) refl in
    let come2 = all_come_lem es2 (left_with no_thread s1) refl in
    let quiet0 = only_proc-quiet es0 s in
    elim (Bool-cases env.proc_ok) [
      | inr p ↦ rw p refl
      | inl p ↦ elim (Bool-cases (ltb_ℤ env.hooks_status (pos 0))) [
        | inl h ↦ rw (p, come0, quiet0, h) refl
        | inr h ↦ elim (Bool-cases (is_quiet no_thread es1 s0)) [
          | inr q ↦ rw (p, come0, quiet0, h, come1, q) refl
          | inl q ↦ elim (Bool-cases env.thread_ok) [
            | inl t ↦ rw (p, come0, quiet0, h, come1, q, t) refl
            | inr t ↦ elim (Bool-cases (is_quiet no_thread es2 s1)) [
              | inl r ↦ rw (p, come0, quiet0, h, come1, q, t, come2, r) refl
              | inr r ↦ rw (p, come0, quiet0, h, come1, q, t, come2, r) refl
            ]
          ]
        ]
      ]
    ]

-- When nothing comes in between, this is `nf_init` in one step.
nf_init_with-alone :
    (env : InitEnv) (s : MaclimitState)
    → nf_init_with env [] [] [] s
      ≡ some (
        (nf_init env no_kernel).0,
        record {
          maclimit = s;
          kernel = (nf_init env no_kernel).1;
          limit_check_task = succeeds env;
        },
      )
unfolding nf_init_with register_hooks create_thread remove_proc_entry nf_unregister_hooks all_come
    nf_init
nf_init_with-alone env s = ground arith
