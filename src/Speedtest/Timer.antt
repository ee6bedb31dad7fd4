-- ===== src/Speedtest/Timer.antt =====
-- The loop detection timer of lab/net/speedtest/speedtest.c.
use quick_start.Common.{
  ℕ, ◌+◌, ◌*◌, ◌%◌, ◌^◌, Bool, true, false, Option, none, some, ◌&&◌, not, ltb, ◌==◌, if◌then◌else◌,
}
use quick_start.Speedtest.Types.{Speedtest, is_speedtest_task_running}

unfoldable pub speedtest_loopdetect_timer_init : Speedtest → Speedtest
speedtest_loopdetect_timer_init s = record s { timer = true }

-- `HZ`, and the width of an `unsigned long`.
pub record Clock : Type 0 where
  pub hz : ℕ
  pub long_bits : ℕ

-- `jiffies + n * HZ`
unfoldable pub jiffies_after : Clock → ℕ → ℕ → ℕ
jiffies_after k jiffies n = (jiffies + n * k.hz) % 2 ^ k.long_bits

module _ (k : Clock) where
  -- The first `if` behind the probes: the end of the wait is set.
  unfoldable pub begin_wait : ℕ → Speedtest → Speedtest
  unfolding jiffies_after
  begin_wait jiffies s =
      if not (s.st_ready == 0) && s.ready_endtime == 0
      then record s { ready_endtime = jiffies_after k jiffies 5 }
      else s

  -- The second `if`.
  unfoldable pub end_wait : ℕ → Speedtest → Speedtest
  end_wait jiffies s =
      if s.ready_endtime == 0 && ltb s.ready_endtime jiffies
      then record s { ready_endtime = 0; st_ready = 0 }
      else s

  -- What follows the probes. A timer that has run is pending again only as it is set again.
  unfoldable pub wait_ready : ℕ → Speedtest → Speedtest
  unfolding begin_wait end_wait
  wait_ready jiffies s = record (end_wait jiffies (begin_wait jiffies s)) { timer = true }

  -- `made` is whether the first of the two probes can be made: without it NULL is cloned, which is
  -- `none`. Without the second the first is sent again; the probes change nothing of the module's.
  unfoldable pub speedtest_loop_detect_cb : Bool → ℕ → Speedtest → Option Speedtest
  speedtest_loop_detect_cb made jiffies s =
      if is_speedtest_task_running s
      then some (record s { timer = false })
      else if not made
      then none
      else some (wait_ready jiffies s)
