-- ===== src/Speedtest/Command.antt =====
-- `run_speedtest_by_cmd` and `speedtest_proc_write` of lab/net/speedtest/speedtest.c.
use quick_start.Common.{
  ℕ, List, Bool, true, false, ◌||◌, not, Option, none, some, ◌>>=◌, length, get_elem?, ltb, ◌==◌,
  if◌then◌else◌,
}
use quick_start.Speedtest.Types.{
  no_task, live_task, dead_task, Task, SpeedtestCfg, fast_rcv, Speedtest,
  get_speedtest_port_by_index, zero_status,
}
use quick_start.Speedtest.Packet.{Checksums}
use quick_start.Speedtest.Timer.{Clock}
use quick_start.Speedtest.Compute.{drain, finish}
use quick_start.Speedtest.Sender.{end_thread}

-- What a command comes to: the usage line; a `kthread_stop` that is repeated on a pointer which nothing
-- clears; a `wake_up_process` of NULL; or the end of the function.
pub data Ran : Type 0 where
  usage : Speedtest → Ran
  endless : Ran
  null_task : Ran
  ran : Speedtest → Ran

-- What a command meets: `jiffies` when each sender has stopped, and which threads can be created.
pub record Kernel : Type 0 where
  pub jiffies0 : ℕ
  pub jiffies1 : ℕ
  pub created0 : Bool
  pub created1 : Bool
  pub created_comp : Bool

-- The variable that the `i`-th conversion is to fill, behind `sscanf`.
unfoldable pub scanned : ℕ → List ℕ → ℕ → ℕ
scanned i values old = elim (get_elem? values i) [ none ↦ old | some value ↦ value ]

unfoldable pub scan_cfg : List ℕ → SpeedtestCfg → SpeedtestCfg
unfolding scanned
scan_cfg values cfg = record cfg {
  enable = scanned 0 values cfg.enable;
  dur_time = scanned 1 values cfg.dur_time;
  speed = scanned 2 values cfg.speed;
  pkt_size = scanned 3 values cfg.pkt_size;
}

-- The first loop, over the values that `sscanf` has converted; the tests come out alike in both rounds.
unfoldable pub scan0 : List ℕ → Speedtest → Speedtest
unfolding scan_cfg scanned
scan0 values s = record s {
  cfg0 = scan_cfg values s.cfg0;
  st_loop_timer_enable = scanned 4 values s.st_loop_timer_enable;
}

unfoldable pub configure : List ℕ → Speedtest → Speedtest
unfolding scan0 scan_cfg scanned
configure values s =
    let first = scan0 values s in
    record first {
      cfg0 = record first.cfg0 { port = get_speedtest_port_by_index 0 };
      cfg1 = record (scan_cfg values first.cfg1) { port = get_speedtest_port_by_index 1 };
      st_loop_timer_enable = scanned 4 values first.st_loop_timer_enable;
    }

unfoldable pub stop_task : Clock → ℕ → SpeedtestCfg → Task → Option SpeedtestCfg
stop_task k jiffies cfg no_task = some cfg
stop_task k jiffies cfg live_task = some (end_thread k jiffies cfg)
stop_task k jiffies cfg dead_task = none

-- `none` is a loop that does not end.
unfoldable pub stop_allspeedtest_task : Clock → Kernel → Speedtest → Option Speedtest
stop_allspeedtest_task k e s = do
  cfg0 ← stop_task k e.jiffies0 s.cfg0 s.cfg0.task
  cfg1 ← stop_task k e.jiffies1 s.cfg1 s.cfg1.task
  some (record s { cfg0 = cfg0; cfg1 = cfg1 })

-- A counting thread that is stopped has a last round.
unfoldable pub stop_compute : Checksums → Speedtest → Task → Option Speedtest
stop_compute c s no_task = some s
stop_compute c s live_task = some (finish (drain c s.comp_skbqueue s))
stop_compute c s dead_task = none

unfoldable pub stop_compspeedtest_task : Checksums → Speedtest → Option Speedtest
stop_compspeedtest_task c s = stop_compute c s s.compute_task

unfoldable pub create_task : SpeedtestCfg → SpeedtestCfg
create_task cfg =
    if cfg.enable == 0 then cfg else record cfg { status = zero_status; task = dead_task }

unfoldable pub is_created : SpeedtestCfg → Bool → Bool
is_created cfg created = cfg.enable == 0 || created

-- The second loop, and whether it runs to its end.
unfoldable pub create_tasks : Kernel → Speedtest → Bool × Speedtest
create_tasks e s =
    let first = record s { cfg0 = create_task s.cfg0 } in
    if not (is_created s.cfg0 e.created0)
    then (false, first)
    else (is_created s.cfg1 e.created1, record first { cfg1 = create_task s.cfg1 })

unfoldable pub task_run_flag : Speedtest → Bool
task_run_flag s = not (s.cfg0.enable == 0) || not (s.cfg1.enable == 0)

unfoldable pub is_null : Task → Bool
is_null no_task = true
is_null live_task = false
is_null dead_task = false

-- The two `wake_up_process` calls.
unfoldable pub start_allspeedtest_task : Speedtest → Ran
start_allspeedtest_task s =
    if is_null s.cfg0.task || is_null s.cfg1.task
    then null_task
    else ran (record s {
      cfg0 = record s.cfg0 { task = live_task };
      cfg1 = record s.cfg1 { task = live_task };
    })

-- What follows a counting thread that could not be created: the senders are to be stopped.
unfoldable pub after_stop : Option Speedtest → Ran
after_stop none = endless
after_stop (some s) = ran s

unfoldable pub start_compute : Clock → Kernel → Option Speedtest → Ran
unfolding after_stop
start_compute k e none = endless
start_compute k e (some s) =
    if e.created_comp
    then start_allspeedtest_task (record s { compute_task = live_task })
    else after_stop (stop_allspeedtest_task k e (record s { compute_task = dead_task }))

module _ (c : Checksums) (k : Clock) (e : Kernel) where
  unfoldable pub start_tasks : Bool × Speedtest → Ran
  unfolding start_compute
  start_tasks (false, s) = ran s
  start_tasks (true, s) =
      if task_run_flag s
      then start_compute k e
          (stop_compspeedtest_task c (record s { rx_hook = fast_rcv; st_ready = 0 }))
      else ran s

  unfoldable pub after_stop_all : Option Speedtest → Ran
  after_stop_all none = endless
  after_stop_all (some s) = start_tasks (create_tasks e s)

  -- `values` are the numbers that `sscanf` has converted, at most five.
  unfoldable pub run_speedtest_by_cmd : List ℕ → Speedtest → Ran
  run_speedtest_by_cmd values s =
      if not (length values == 5)
      then usage (scan0 values s)
      else after_stop_all (stop_allspeedtest_task k e (configure values s))

-- `-EFAULT`, a write behind the end of `data`, or the count with what the command came to.
pub data Written : Type 0 where
  efault : Written
  overflow : Written
  wrote : ℕ → Ran → Written

-- `sscanf` is what the kernel's converts of a string; `copied` is whether all of `buffer` was copied.
unfoldable pub speedtest_proc_write :
    Checksums
    → Clock
    → Kernel
    → (sscanf : List ℕ → List ℕ) → (copied : Bool) → (buffer : List ℕ) → Speedtest
    → Written
speedtest_proc_write c k e sscanf copied buffer s =
    if ltb 255 (length buffer)
    then overflow
    else if not copied
    then efault
    else wrote (length buffer) (run_speedtest_by_cmd c k e (sscanf buffer) s)
