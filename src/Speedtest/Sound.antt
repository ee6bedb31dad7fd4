-- ===== src/Speedtest/Sound.antt =====
-- What holds in every state of lab/net/speedtest/speedtest.c.
pub mod Reach
use quick_start.Common.{
  ℕ, ◌≤◌, ◌≡◌, refl, List, [], ◌∷◌, Bool, true, false, not, ◌||◌, ◌&&◌, some, length, length-append,
  ◌==◌, arith,
}
use quick_start.Speedtest.Types.{
  Skb, no_rx, fast_rcv, rcv_probe, RxHook, is_set, SpeedtestCfg, Speedtest,
  get_speedtest_port_by_index,
}
use quick_start.Speedtest.Packet.{Checksums}
use quick_start.Speedtest.Hooks.{
  speedtest_skbqueue_len, fast_rcv_speedtest_pkt, set_ready1, set_ready2, free_probe_skb,
  rcv_speedtest_probe_pkt,
}
use quick_start.Speedtest.Timer.{
  Clock, begin_wait, end_wait, wait_ready, speedtest_loop_detect_cb,
  speedtest_loopdetect_timer_init,
}
use quick_start.Speedtest.Compute.{count_pkt, drain, restart_timer, lose_all}
use quick_start.Speedtest.Sender.{Try, count_sent, end_thread, begin_status}
use quick_start.Speedtest.Command.{scan_cfg, scan0, configure}
use quick_start.Speedtest.System.{received, Stage, idle, readying, waiting, starting, World}

-- Between the hook and the pointer, a command is about to set the pointer.
abbrev pub sets_pointer : Stage → Bool
sets_pointer readying = true
sets_pointer waiting = true
sets_pointer starting = true
sets_pointer _ = false

abbrev pub is_idle : Stage → Bool
is_idle idle = true
is_idle _ = false

-- Whether packets are queued only if somebody `answers` for the queue.
abbrev pub is_counted : RxHook → Bool → Bool
is_counted no_rx answers = true
is_counted fast_rcv answers = answers
is_counted rcv_probe answers = true

-- Whether a direction with a task has its port, and without one too unless the module is `resting`.
abbrev pub has_port : Bool → ℕ → SpeedtestCfg → Bool
has_port resting port cfg = (resting && not (is_set cfg.task)) || cfg.port == port

-- `answers` is whether somebody but the pointer answers for the queue.
abbrev pub IsSoundIn : Clock → (answers resting : Bool) → Speedtest → Type 0
IsSoundIn k answers resting s =
    (length s.comp_skbqueue ≤ speedtest_skbqueue_len k)
    × (s.st_ready ≤ 3)
    × (is_counted s.rx_hook (is_set s.compute_task || answers) ≡ true)
    × (has_port resting 1 s.cfg0 ≡ true)
    × (has_port resting 4 s.cfg1 ≡ true)

-- The queue keeps to its size; the ready flags are two bits; the hook that queues packets is set only
-- while the pointer to the counting thread is set, a command is about to set it, or a counting thread
-- that has cleared it is about to put back the other hook; and a direction with a task, or in a command,
-- has its own port.
abbrev pub IsSound : Clock → World → Type 0
IsSound k w = IsSoundIn k (sets_pointer w.stage || not (w.leaving == 0)) (is_idle w.stage) w.data_

fast_rcv-IsSoundIn :
    (k : Clock) (answers resting : Bool) (skb : Skb) (s : Speedtest)
    → IsSoundIn k answers resting s
    → IsSoundIn k answers resting (fast_rcv_speedtest_pkt k skb s).1
unfolding fast_rcv_speedtest_pkt
fast_rcv-IsSoundIn k answers resting skb s i =
    ground (arith, length-append s.comp_skbqueue (skb ∷ []))

rcv_probe-IsSoundIn :
    (k : Clock) (answers resting : Bool) (skb : Skb) (s : Speedtest)
    → IsSoundIn k answers resting s
    → IsSoundIn k answers resting (rcv_speedtest_probe_pkt skb s).1
unfolding rcv_speedtest_probe_pkt free_probe_skb set_ready1 set_ready2
rcv_probe-IsSoundIn k answers resting skb s i = ground arith

pub received-IsSoundIn :
    (k : Clock) (answers resting : Bool) (hook : RxHook) (skb : Skb) (s : Speedtest)
    → IsSoundIn k answers resting s
    → IsSoundIn k answers resting (received k hook skb s).1
unfolding received
received-IsSoundIn k answers resting no_rx skb s i = i
received-IsSoundIn k answers resting fast_rcv skb s i = fast_rcv-IsSoundIn k answers resting skb s i
received-IsSoundIn k answers resting rcv_probe skb s i =
    rcv_probe-IsSoundIn k answers resting skb s i

pub closed-IsSoundIn :
    (k : Clock) (answers resting : Bool) (s : Speedtest)
    → IsSoundIn k answers resting s
    → IsSoundIn k answers resting (lose_all (restart_timer s))
unfolding restart_timer lose_all speedtest_loopdetect_timer_init
closed-IsSoundIn k answers resting s i = ground arith

pub scan0-IsSoundIn :
    (k : Clock) (answers resting : Bool) (values : List ℕ) (s : Speedtest)
    → IsSoundIn k answers resting s
    → IsSoundIn k answers resting (scan0 values s)
unfolding scan0 scan_cfg
scan0-IsSoundIn k answers resting values s i = ground arith

pub configure-IsSoundIn :
    (k : Clock) (answers : Bool) (values : List ℕ) (s : Speedtest)
    → IsSoundIn k answers true s
    → IsSoundIn k answers false (configure values s)
unfolding configure scan0 scan_cfg get_speedtest_port_by_index
configure-IsSoundIn k answers values s i = ground arith

module _ (c : Checksums) (k : Clock) (answers resting : Bool) where
  pub loop_detect_cb-IsSoundIn :
      (made : Bool) (jiffies : ℕ) (s s' : Speedtest)
      → IsSoundIn k answers resting s
      → speedtest_loop_detect_cb k made jiffies s ≡ some s'
      → IsSoundIn k answers resting s'
  unfolding speedtest_loop_detect_cb wait_ready begin_wait end_wait
  loop_detect_cb-IsSoundIn made jiffies s s' i e = ground arith

  pub drain-IsSoundIn :
      (skbs : List Skb) (s : Speedtest)
      → IsSoundIn k answers resting s
      → IsSoundIn k answers resting (drain c skbs s)
  unfolding drain count_pkt
  drain-IsSoundIn [] s i = ground arith
  drain-IsSoundIn (skb ∷ skbs) s i = drain-IsSoundIn skbs (count_pkt c skb s) (ground arith)

  pub begin-has_port :
      (jiffies port : ℕ) (pkt : List ℕ) (cfg : SpeedtestCfg)
      → has_port resting port (begin_status c k jiffies pkt cfg) ≡ has_port resting port cfg
  unfolding begin_status
  begin-has_port jiffies port pkt cfg = refl

  pub sent-has_port :
      (t : Try) (port : ℕ) (cfg : SpeedtestCfg)
      → has_port resting port (count_sent t cfg) ≡ has_port resting port cfg
  unfolding count_sent
  sent-has_port t port cfg = ground arith

  -- A direction that loses its task keeps its port.
  pub end-has_port :
      (jiffies port : ℕ) (cfg : SpeedtestCfg)
      → has_port resting port cfg ≡ true
      → has_port resting port (end_thread k jiffies cfg) ≡ true
  unfolding end_thread is_set
  end-has_port jiffies port cfg h = ground arith
