-- ===== src/Speedtest/Tests/Commands.antt =====
-- The theorems about commands to lab/net/speedtest/speedtest.c, and about the states behind them.
use quick_start.Common.{ℕ, List, ◌≡◌, ◌↔◌, ◌⊎◌, refl, [], ◌∷◌, false, none, arith}
use quick_start.Speedtest.Types.{no_task, live_task, fast_rcv, rcv_probe, Speedtest, zero_status}
use quick_start.Speedtest.Hooks.{rcv_speedtest_probe_pkt}
use quick_start.Speedtest.Command.{ran, configure, create_task, run_speedtest_by_cmd}
use quick_start.Speedtest.System.{stopping0, hooking, waiting, World}
use quick_start.Speedtest.Sound.Reach.{loaded}
use quick_start.Speedtest.Show.{speedtest_proc_show}
use quick_start.Speedtest.Report.{HasNoTime, speedtest_proc_show-none}
use quick_start.Speedtest.Restart.{started, run-running}
use quick_start.Speedtest.Recount.{run-counting}
use quick_start.Speedtest.Tests.{sums, clock, kernel, cfg_of, idle, damaged}

abbrev running : Speedtest
running = record idle {
  cfg0 = started 1 1 10 100 1280;
  cfg1 = started 4 1 10 100 1280;
  compute_task = live_task;
  rx_hook = fast_rcv;
}

run-running_example :
    (s' : Speedtest) × (run_speedtest_by_cmd sums clock kernel
        (1 ∷ 20 ∷ 200 ∷ 1280 ∷ 0 ∷ [])
        running
      ≡ ran s')
    × (s'.cfg0.task ≡ no_task)
    × (s'.cfg1.task ≡ no_task)
    × (s'.cfg0.enable ≡ 0)
    × (s'.cfg1.enable ≡ 0)
    × (s'.compute_task ≡ live_task)
run-running_example = run-running sums clock kernel 1 20 200 1280 0 running refl refl

abbrev counting : Speedtest
counting = record idle { compute_task = live_task; rx_hook = fast_rcv; timer = false }

run-counting_example :
    (s' : Speedtest) × (run_speedtest_by_cmd sums clock kernel
        (1 ∷ 20 ∷ 200 ∷ 1280 ∷ 0 ∷ [])
        counting
      ≡ ran s')
    × (s'.cfg0.task ≡ live_task)
    × (s'.cfg1.task ≡ live_task)
    × (s'.rx_hook ≡ rcv_probe)
    × (rcv_speedtest_probe_pkt damaged s' ≡ (1, s'))
run-counting_example =
    run-counting sums clock kernel 1 20 200 1280 0 damaged counting (omega arith) refl refl refl
      refl refl refl

-- A first test that was stopped in the second in which it began.
abbrev cut_short : Speedtest
cut_short = record idle {
  cfg0 = record (cfg_of 1) { status = record zero_status { begin_time = 7; end_time = 7 } };
}

speedtest_proc_show-none_example :
    (speedtest_proc_show clock 900 901 cut_short ≡ none)
    ↔ (HasNoTime clock 900 cut_short.cfg0.status ⊎ HasNoTime clock 901 cut_short.cfg1.status)
speedtest_proc_show-none_example =
    speedtest_proc_show-none clock 900 901 cut_short (omega arith, omega arith)
      (omega arith, omega arith)

-- A command to a module that was just loaded, up to the reset of `st_ready`: the hook is set, and
-- `compute_task` is still NULL.
abbrev values : List ℕ
values = 1 ∷ 10 ∷ 100 ∷ 1280 ∷ 0 ∷ []

abbrev configured : World
configured = record loaded { data_ = configure values loaded.data_; stage = stopping0 }

abbrev created : World
created = record configured {
  data_ = record configured.data_ {
    cfg0 = create_task configured.data_.cfg0;
    cfg1 = create_task configured.data_.cfg1;
  };
  stage = hooking;
}

abbrev hooked : World
hooked = record created {
  data_ = record created.data_ { rx_hook = fast_rcv; st_ready = 0 };
  stage = waiting;
}
