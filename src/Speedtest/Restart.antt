-- ===== src/Speedtest/Restart.antt =====
-- What a command of lab/net/speedtest/speedtest.c starts, and in which states it starts nothing.
use quick_start.Common.{ℕ, ◌<◌, ◌≡◌, refl, [], ◌∷◌, true, arith}
use quick_start.Speedtest.Types.{
  no_task, live_task, SpeedtestCfg, fast_rcv, Speedtest, get_speedtest_port_by_index, zero_status,
}
use quick_start.Speedtest.Packet.{Checksums}
use quick_start.Speedtest.Timer.{Clock}
use quick_start.Speedtest.Sender.{end_thread}
use quick_start.Speedtest.Command.{
  ran, Kernel, scanned, scan_cfg, scan0, configure, stop_task, stop_allspeedtest_task, stop_compute,
  stop_compspeedtest_task, create_task, is_created, create_tasks, task_run_flag, is_null,
  start_allspeedtest_task, start_compute, start_tasks, after_stop_all, run_speedtest_by_cmd,
}

-- The configuration of a direction that a command starts.
abbrev pub started : ℕ → ℕ → ℕ → ℕ → ℕ → SpeedtestCfg
started port enable dur_time speed pkt_size = record {
  enable = enable;
  dur_time = dur_time;
  speed = speed;
  pkt_size = pkt_size;
  port = port;
  status = zero_status;
  task = live_task;
}

module _ (c : Checksums) (k : Clock) (e : Kernel) where
  -- A command of five numbers, the first of them not 0, when no thread is left and all can be created:
  -- both directions run with its numbers, cleared counters and their own ports, the counting thread
  -- runs, packets go to its queue, and the module is no longer ready; nothing else is changed.
  pub run-started :
      (enable dur_time speed pkt_size loop_timer : ℕ) (s : Speedtest)
      → 0 < enable
      → s.cfg0.task ≡ no_task
      → s.cfg1.task ≡ no_task
      → s.compute_task ≡ no_task
      → e.created0 ≡ true
      → e.created1 ≡ true
      → e.created_comp ≡ true
      → run_speedtest_by_cmd c k e (enable ∷ dur_time ∷ speed ∷ pkt_size ∷ loop_timer ∷ []) s
        ≡ ran (record s {
          cfg0 = started 1 enable dur_time speed pkt_size;
          cfg1 = started 4 enable dur_time speed pkt_size;
          compute_task = live_task;
          st_ready = 0;
          st_loop_timer_enable = loop_timer;
          rx_hook = fast_rcv;
        })
  unfolding run_speedtest_by_cmd after_stop_all start_tasks create_tasks create_task is_created
      task_run_flag is_null start_allspeedtest_task start_compute stop_allspeedtest_task stop_task
      stop_compute stop_compspeedtest_task configure scan0 scan_cfg scanned
      get_speedtest_port_by_index
  run-started enable dur_time speed pkt_size loop_timer s h t0 t1 tc c0 c1 cc = ground arith

  -- A command of five numbers while both directions run: each sender that it stops switches its
  -- direction off again, so that both directions end switched off and without a task, and no thread is
  -- started; the counting thread goes on.
  pub run-running :
      (enable dur_time speed pkt_size loop_timer : ℕ) (s : Speedtest)
      → s.cfg0.task ≡ live_task
      → s.cfg1.task ≡ live_task
      → (s' : Speedtest) × (run_speedtest_by_cmd c k e
            (enable ∷ dur_time ∷ speed ∷ pkt_size ∷ loop_timer ∷ [])
            s
          ≡ ran s')
        × (s'.cfg0.task ≡ no_task)
        × (s'.cfg1.task ≡ no_task)
        × (s'.cfg0.enable ≡ 0)
        × (s'.cfg1.enable ≡ 0)
        × (s'.compute_task ≡ s.compute_task)
  unfolding run_speedtest_by_cmd after_stop_all start_tasks create_tasks create_task is_created
      task_run_flag stop_allspeedtest_task stop_task end_thread configure scan0 scan_cfg
  run-running enable dur_time speed pkt_size loop_timer s t0 t1 =
      let s1 = configure (enable ∷ dur_time ∷ speed ∷ pkt_size ∷ loop_timer ∷ []) s in
      (
        record s1 {
          cfg0 = end_thread k e.jiffies0 s1.cfg0;
          cfg1 = end_thread k e.jiffies1 s1.cfg1;
        },
        ground arith,
        refl,
        refl,
        refl,
        refl,
        refl,
      )
