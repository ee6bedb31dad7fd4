-- ===== src/Speedtest/Recount.antt =====
-- A command of lab/net/speedtest/speedtest.c while the counting thread of the last test still waits.
use quick_start.Common.{ℕ, ◌/◌, ◌%◌, ◌^◌, ◌<◌, ◌≡◌, refl, ◌∙◌, [], ◌∷◌, true, arith}
use quick_start.Speedtest.Types.{
  no_task, live_task, dead_task, SpeedtestCfg, Skb, fast_rcv, rcv_probe, Speedtest,
  get_speedtest_port_by_index, is_speedtest_task_running, is_set,
}
use quick_start.Speedtest.Packet.{Checksums}
use quick_start.Speedtest.Timer.{Clock}
use quick_start.Speedtest.Hooks.{rcv_speedtest_probe_pkt}
use quick_start.Speedtest.Compute.{drain, finish}
use quick_start.Speedtest.Sender.{end_thread}
use quick_start.Speedtest.Command.{
  null_task, ran, Kernel, scanned, scan_cfg, scan0, configure, stop_task, stop_allspeedtest_task,
  stop_compute, stop_compspeedtest_task, create_task, is_created, create_tasks, task_run_flag,
  is_null, start_allspeedtest_task, start_compute, start_tasks, after_stop_all,
  run_speedtest_by_cmd,
}
use quick_start.Speedtest.Keeps.{drain-keeps, finish-keeps}
use quick_start.Speedtest.Restart.{started}

module _ (c : Checksums) (k : Clock) (e : Kernel) where
  -- What a command comes to once its tasks are created, in the presence of a counting thread.
  start_tasks-counting :
      (s : Speedtest)
      → s.compute_task ≡ live_task
      → task_run_flag s ≡ true
      → e.created_comp ≡ true
      → start_tasks c k e (true, s)
        ≡ start_allspeedtest_task
            (record (finish
              (drain c s.comp_skbqueue (record s { rx_hook = fast_rcv; st_ready = 0 }))) {
                compute_task = live_task;
              })
  unfolding start_tasks start_compute stop_compspeedtest_task stop_compute
  start_tasks-counting s tc f cc = rw (f, tc, cc) refl

  -- The state in which the counting thread has been stopped.
  abbrev stopped : Speedtest → Speedtest
  stopped s =
      record (finish (drain c s.comp_skbqueue (record s { rx_hook = fast_rcv; st_ready = 0 }))) {
        compute_task = live_task;
      }

  stopped-keeps :
      (s : Speedtest)
      → ((stopped s).cfg0.task ≡ s.cfg0.task)
        × ((stopped s).cfg1.task ≡ s.cfg1.task)
        × ((stopped s).rx_hook ≡ rcv_probe)
  stopped-keeps s =
      let (d0, d1) =
        drain-keeps c s.comp_skbqueue (record s { rx_hook = fast_rcv; st_ready = 0 }) in
      let (f0, f1, h) =
        finish-keeps c (drain c s.comp_skbqueue (record s { rx_hook = fast_rcv; st_ready = 0 })) in
      (f0 ∙ d0, f1 ∙ d1, h)

  -- A direction that is to start, before its thread is woken up.
  abbrev asleep : ℕ → ℕ → ℕ → ℕ → ℕ → SpeedtestCfg
  asleep port enable dur_time speed pkt_size =
      record (started port enable dur_time speed pkt_size) { task = dead_task }

  start_all-null : (s : Speedtest) → s.cfg0.task ≡ no_task → start_allspeedtest_task s ≡ null_task
  unfolding start_allspeedtest_task is_null
  start_all-null s t = rw t refl

  start_all-woken :
      (s : Speedtest)
      → s.cfg0.task ≡ dead_task
      → s.cfg1.task ≡ dead_task
      → start_allspeedtest_task s
        ≡ ran (record s {
          cfg0 = record s.cfg0 { task = live_task };
          cfg1 = record s.cfg1 { task = live_task };
        })
  unfolding start_allspeedtest_task is_null
  start_all-woken s t0 t1 = rw (t0, t1) refl

  task_run_flag-second : (s : Speedtest) → 0 < s.cfg1.enable → task_run_flag s ≡ true
  unfolding task_run_flag
  task_run_flag-second s h = ground arith

  run_one-created :
      (enable dur_time speed pkt_size loop_timer : ℕ) (s : Speedtest)
      → 0 < enable
      → s.cfg0.task ≡ live_task
      → s.cfg1.task ≡ no_task
      → e.created1 ≡ true
      → run_speedtest_by_cmd c k e (enable ∷ dur_time ∷ speed ∷ pkt_size ∷ loop_timer ∷ []) s
        ≡ start_tasks c k e (
          true,
          record s {
            cfg0 = record (asleep 1 0 dur_time speed pkt_size) {
              status = record s.cfg0.status { end_time = e.jiffies0 / k.hz % 2 ^ 32 };
              task = no_task;
            };
            cfg1 = asleep 4 enable dur_time speed pkt_size;
            st_loop_timer_enable = loop_timer;
          },
        )
  unfolding run_speedtest_by_cmd after_stop_all create_tasks create_task is_created
      stop_allspeedtest_task stop_task end_thread configure scan0 scan_cfg scanned
      get_speedtest_port_by_index
  run_one-created enable dur_time speed pkt_size loop_timer s h t0 t1 c1 = ground arith

  run_counting-created :
      (enable dur_time speed pkt_size loop_timer : ℕ) (s : Speedtest)
      → 0 < enable
      → s.cfg0.task ≡ no_task
      → s.cfg1.task ≡ no_task
      → e.created0 ≡ true
      → e.created1 ≡ true
      → run_speedtest_by_cmd c k e (enable ∷ dur_time ∷ speed ∷ pkt_size ∷ loop_timer ∷ []) s
        ≡ start_tasks c k e (
          true,
          record s {
            cfg0 = asleep 1 enable dur_time speed pkt_size;
            cfg1 = asleep 4 enable dur_time speed pkt_size;
            st_loop_timer_enable = loop_timer;
          },
        )
  unfolding run_speedtest_by_cmd after_stop_all create_tasks create_task is_created
      stop_allspeedtest_task stop_task end_thread configure scan0 scan_cfg scanned
      get_speedtest_port_by_index
  run_counting-created enable dur_time speed pkt_size loop_timer s h t0 t1 c0 c1 = ground arith

  -- When just one direction still runs, the command wakes up a task that is NULL.
  pub run-one_running :
      (enable dur_time speed pkt_size loop_timer : ℕ) (s : Speedtest)
      → 0 < enable
      → s.cfg0.task ≡ live_task
      → s.cfg1.task ≡ no_task
      → s.compute_task ≡ live_task
      → e.created1 ≡ true
      → e.created_comp ≡ true
      → run_speedtest_by_cmd c k e (enable ∷ dur_time ∷ speed ∷ pkt_size ∷ loop_timer ∷ []) s
        ≡ null_task
  run-one_running enable dur_time speed pkt_size loop_timer s h t0 t1 tc c1 cc =
      let b = record s {
        cfg0 = record (asleep 1 0 dur_time speed pkt_size) {
          status = record s.cfg0.status { end_time = e.jiffies0 / k.hz % 2 ^ 32 };
          task = no_task;
        };
        cfg1 = asleep 4 enable dur_time speed pkt_size;
        st_loop_timer_enable = loop_timer;
      } in
      run_one-created enable dur_time speed pkt_size loop_timer s h t0 t1 c1
      ∙ start_tasks-counting b tc (task_run_flag-second b h) cc
      ∙ start_all-null (stopped b) (stopped-keeps b).0

  -- When both directions have ended and the counting thread still waits, the command starts both
  -- directions, but the counting thread that it stops puts the hook for probes back: no packet of the
  -- new test reaches the queue, as the hook takes every packet and changes nothing.
  pub run-counting :
      (enable dur_time speed pkt_size loop_timer : ℕ) (skb : Skb) (s : Speedtest)
      → 0 < enable
      → s.cfg0.task ≡ no_task
      → s.cfg1.task ≡ no_task
      → s.compute_task ≡ live_task
      → e.created0 ≡ true
      → e.created1 ≡ true
      → e.created_comp ≡ true
      → (s' : Speedtest) × (run_speedtest_by_cmd c k e
            (enable ∷ dur_time ∷ speed ∷ pkt_size ∷ loop_timer ∷ [])
            s
          ≡ ran s')
        × (s'.cfg0.task ≡ live_task)
        × (s'.cfg1.task ≡ live_task)
        × (s'.rx_hook ≡ rcv_probe)
        × (rcv_speedtest_probe_pkt skb s' ≡ (1, s'))
  unfolding rcv_speedtest_probe_pkt is_speedtest_task_running is_set
  run-counting enable dur_time speed pkt_size loop_timer skb s h t0 t1 tc c0 c1 cc =
      let a = record s {
        cfg0 = asleep 1 enable dur_time speed pkt_size;
        cfg1 = asleep 4 enable dur_time speed pkt_size;
        st_loop_timer_enable = loop_timer;
      } in
      let (k0, k1, hook) = stopped-keeps a in
      (
        record (stopped a) {
          cfg0 = record (stopped a).cfg0 { task = live_task };
          cfg1 = record (stopped a).cfg1 { task = live_task };
        },
        run_counting-created enable dur_time speed pkt_size loop_timer s h t0 t1 c0 c1
            ∙ start_tasks-counting a tc (task_run_flag-second a h) cc
            ∙ start_all-woken (stopped a) k0 k1,
        refl,
        refl,
        hook,
        refl,
      )
