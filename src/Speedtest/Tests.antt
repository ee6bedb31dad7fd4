-- ===== src/Speedtest/Tests.antt =====
-- The theorems about lab/net/speedtest/speedtest.c, with a checksum that adds the bytes up.
mod Commands
mod Whole
mod Threads
use quick_start.Common.{
  drop, ℕ, ◌+◌, ◌*◌, ◌/◌, ◌%◌, ◌≡◌, ◌≤◌, ◌↔◌, ◌⊎◌, refl, List, [], ◌∷◌, ◌++◌, Bool, true, false,
  none, some, arith,
}
use quick_start.Speedtest.Types.{
  st_running, no_task, live_task, fast_rcv, rcv_probe, SpeedtestStatus, SpeedtestCfg, Skb,
  Speedtest, zero_status, is_set, is_speedtest_task_running, get_speedtest_port_by_index,
}
use quick_start.Speedtest.Packet.{Checksums, speedtest_bytes}
use quick_start.Speedtest.Hooks.{rcv_speedtest_probe_pkt, xmit_speedtest_pkt}
use quick_start.Speedtest.Timer.{Clock, jiffies_after}
use quick_start.Speedtest.Compute.{
  drained, drain, finish, Round, is_sending, speedtest_compute_func,
}
use quick_start.Speedtest.Sender.{
  pkts_per_sec, Try, returned, end_thread, begin_status, speedtest_thread_func,
}
use quick_start.Speedtest.Command.{Kernel, ran, run_speedtest_by_cmd}
use quick_start.Speedtest.Timer.{speedtest_loopdetect_timer_init}
use quick_start.Speedtest.Module.{unloaded, set_hooks, speedtest_init_module}
use quick_start.Speedtest.Show.{speedtest_proc_show}
use quick_start.Speedtest.Report.{HasNoTime, speedtest_proc_show-none}
use quick_start.Speedtest.Demux.{PortTag, tagged}
use quick_start.Speedtest.Loopback.{
  first, second, Arrival, looped, sum0, sum1, IsReported, drain-loopback,
}
use quick_start.Speedtest.Sending.{sent_more, thread_func-full_speed}
use quick_start.Speedtest.Wrap.{thread_func-wrapped}
use quick_start.Speedtest.Rate.{gap, thread_func-rate}
use quick_start.Speedtest.Waiting.{IsFinished, all_drained, compute_func-ends}
use quick_start.Speedtest.Restart.{started, run-started, run-running}
use quick_start.Speedtest.Recount.{run-counting}
use quick_start.Speedtest.Probe.{runs, probes-ready, runs-ready}

abbrev sum : List ℕ → ℕ
sum [] = 0
sum (b ∷ bytes) = (b + sum bytes) % 65536

abbrev pub sums : Checksums
sums = record {
  ip_compute_csum = λ b. sum b;
  udp_check = λ from to segment. sum segment;
  store16 = λ n. n / 256 % 256 ∷ n % 256 ∷ [];
  length-store16 = λ n. refl;
}

abbrev pub clock : Clock
clock = record { hz = 100; long_bits = 64 }

abbrev short_clock : Clock
short_clock = record { hz = 100; long_bits = 32 }

abbrev pub kernel : Kernel
kernel = record {
  jiffies0 = 2000;
  jiffies1 = 2001;
  created0 = true;
  created1 = true;
  created_comp = true;
}

abbrev pub cfg_of : ℕ → SpeedtestCfg
cfg_of port = record {
  enable = 1;
  dur_time = 10;
  speed = 100;
  pkt_size = 60;
  port = port;
  status = zero_status;
  task = no_task;
}

abbrev pub idle : Speedtest
idle = record {
  cfg0 = cfg_of 1;
  cfg1 = cfg_of 4;
  compute_task = no_task;
  comp_skbqueue = [];
  timer = true;
  st_ready = 0;
  st_loop_timer_enable = 1;
  rx_hook = rcv_probe;
  ready_endtime = 0;
}

abbrev pub tag : PortTag
tag = record { t0 = 0x81; t1 = 0; t2 = 0; t3 = 7 }

abbrev with_sum : ℕ → ℕ → SpeedtestStatus
with_sum sum sent = record zero_status { pkt_csum = sum; pktsend_count = sent }

abbrev sent_off : Speedtest
sent_off = record idle {
  cfg0 = record (cfg_of 1) { status = with_sum (sum0 sums 60 60) 3 };
  cfg1 = record (cfg_of 4) { status = with_sum (sum1 sums 60 60) 2 };
  compute_task = live_task;
}

-- A packet of the first direction whose sum is 0.
abbrev pub damaged : Skb
damaged = record { dev = none; bytes = 0 ∷ 0 ∷ 0 ∷ 0 ∷ 0 ∷ 0 ∷ 16 ∷ 16 ∷ 16 ∷ 16 ∷ 16 ∷ 16 ∷ [] }

abbrev pub try : ℕ → ℕ → Bool → Try
try timens jiffies stop = record {
  timens = timens;
  cloned = true;
  taken = true;
  jiffies = jiffies;
  should_stop = stop;
}

abbrev tries : List Try
tries = try 50 1000 false ∷ try 60 1001 false ∷ []

thread_func-full_speed_example :
    speedtest_thread_func sums clock true true 1000 0 (tries ++ try 70 2001 false ∷ []) (cfg_of 1)
    ≡ returned (record (cfg_of 1) {
      enable = 0;
      status = record zero_status {
        state = st_running;
        pkt_csum = sums.ip_compute_csum (drop 14 (speedtest_bytes sums 1 60));
        begin_time = 10;
        end_time = 20;
        pktsend_count = 3;
      };
    })
unfolding pkts_per_sec
thread_func-full_speed_example =
    thread_func-full_speed sums clock 1000 0 tries (try 70 2001 false) (cfg_of 1) (omega arith)
      (omega arith) (omega arith) (omega arith) (omega arith) refl refl

-- A test of 10 seconds, five seconds before a clock of 32 bits wraps around.
thread_func-wrapped_example :
    (result : SpeedtestCfg) × (speedtest_thread_func sums short_clock true true 4294966796 0
        (try 50 4294966797 false ∷ [])
        (cfg_of 1)
      ≡ returned result)
    × (result.task ≡ no_task)
    × (result.status.pktsend_count ≤ 0 + 1)
unfolding pkts_per_sec
thread_func-wrapped_example =
    thread_func-wrapped sums short_clock 4294966796 0 (try 50 4294966797 false) (cfg_of 1)
      (omega arith) (omega arith) (omega arith) (omega arith) (omega arith) (omega arith)
      (omega arith) (omega arith) (omega arith)

abbrev slow_cfg : SpeedtestCfg
slow_cfg = record (cfg_of 1) { speed = 10 }

thread_func-rate_example :
    (result : SpeedtestCfg) × (speedtest_thread_func sums clock true true 1000 0
        (tries ++ try 90000 1002 true ∷ [])
        slow_cfg
      ≡ returned result)
    × (result.task ≡ no_task)
    × (result.status.pktsend_count * gap slow_cfg + 0
        ≤ slow_cfg.status.pktsend_count * gap slow_cfg + 90000)
unfolding pkts_per_sec
thread_func-rate_example =
    thread_func-rate sums clock 1000 0 100 tries (try 90000 1002 true) slow_cfg (omega arith)
      (omega arith) (omega arith) (omega arith) (omega arith) refl (omega arith) (omega arith) refl

-- A round in which the senders have ended.
abbrev quiet : ℕ → Round
quiet jiffies = record {
  others = λ s. s;
  meanwhile = λ s. record s {
    cfg0 = record s.cfg0 { task = no_task };
    cfg1 = record s.cfg1 { task = no_task };
  };
  jiffies = jiffies;
  should_stop = false;
}

-- A round that leaves a sender running.
abbrev running : Round
running = record {
  others = λ s. s;
  meanwhile = λ s. record s { cfg0 = record s.cfg0 { task = live_task } };
  jiffies = 900;
  should_stop = false;
}

compute_func-ends_example :
    (report : Speedtest) × (done : List Round) × (later : List Round) × (speedtest_compute_func sums
        clock
        ((running ∷ []) ++ quiet 1000 ∷ ((quiet 1200 ∷ []) ++ quiet 1501 ∷ []))
        sent_off
      ≡ some report)
    × ((running ∷ []) ++ quiet 1000 ∷ ((quiet 1200 ∷ []) ++ quiet 1501 ∷ []) ≡ done ++ later)
    × IsFinished sums clock (all_drained sums clock done sent_off) report
unfolding is_sending is_set jiffies_after drained
compute_func-ends_example =
    compute_func-ends sums clock (running ∷ []) (quiet 1000) (quiet 1200 ∷ []) (quiet 1501) sent_off
      (refl, refl, tt) (λ s. refl) ((λ s. refl), tt) (λ s. refl) (omega arith) (omega arith)

abbrev probe : ℕ → Skb
probe i = tagged tag none (speedtest_bytes sums (get_speedtest_port_by_index i) 1280)

probes-ready_example :
    (rcv_speedtest_probe_pkt (probe 1) (rcv_speedtest_probe_pkt (probe 0) idle).1
      ≡ (1, record idle { st_ready = 3; timer = false }))
    × (rcv_speedtest_probe_pkt (probe 0) (rcv_speedtest_probe_pkt (probe 1) idle).1
        ≡ (1, record idle { st_ready = 3; timer = false }))
    × ((rcv_speedtest_probe_pkt (probe 0) idle).0 ≡ 1)
    × ((rcv_speedtest_probe_pkt (probe 1) idle).0 ≡ 1)
    × (xmit_speedtest_pkt damaged (record idle { st_ready = 3; timer = false }) ≡ 0)
unfolding is_speedtest_task_running is_set
probes-ready_example = probes-ready sums 1280 none tag tag damaged idle refl refl

runs-ready_example :
    (s' : Speedtest) × (runs clock (1000 ∷ 1200 ∷ 9000 ∷ []) (record idle { st_ready = 1 })
      ≡ some s')
    × (s'.st_ready ≡ 1)
unfolding is_speedtest_task_running is_set jiffies_after
runs-ready_example =
    runs-ready clock 1000 (1200 ∷ 9000 ∷ []) (record idle { st_ready = 1 }) refl (omega arith)
      (omega arith)
