-- ===== src/Speedtest/Tests/Threads.antt =====
-- The threads of a whole test of lab/net/speedtest/speedtest.c.
use quick_start.Common.{str_eq, codes, ◌≡◌, refl, List, [], ◌∷◌, true, false, none, arith}
use quick_start.Speedtest.Types.{get_speedtest_port_by_index, is_set, Speedtest}
use quick_start.Speedtest.Sender.{
  Try, send_time, pkts_per_sec, count_sent, end_thread, begin_status,
}
use quick_start.Speedtest.Compute.{drain, count_pkt, is_sending}
use quick_start.Speedtest.Command.{ran, wrote, speedtest_proc_write}
use quick_start.Speedtest.Packet.{speedtest_bytes, eth_header}
use quick_start.Speedtest.Timer.{jiffies_after}
use quick_start.Speedtest.Hooks.{fast_rcv_speedtest_pkt}
use quick_start.Speedtest.System.{received}
use quick_start.Speedtest.Wire.{happens, begun}
use quick_start.Speedtest.Restart.{started}
use quick_start.Speedtest.Whole.{tested}
use quick_start.Speedtest.Threads.{
  moves0, moves1, back0, back1, lost1, Test, Turn, thread_tries, loop_tries, count_round, all_moved,
  moved, move0, move1, turned, all_turned,
}
use quick_start.Speedtest.Threads.Whole.{
  SenderRun, IsRun, Schedule, all_turns, begun_test, Fits, Completes, test-reports,
}
use quick_start.Speedtest.Tests.{sums, clock, kernel, idle, tag, try}
use quick_start.Speedtest.Tests.Whole.{scans}

-- The first sender is over after the ten seconds, and the second is stopped before.
abbrev tries0 : List Try
tries0 = try 50 1000 false ∷ try 70 2001 false ∷ []

abbrev tries1 : List Try
tries1 = try 60 1000 false ∷ try 80 1001 true ∷ []

-- One packet comes back before the first count, one is lost, and one comes back behind the last count;
-- the last is still on the wire.
abbrev busy : List Turn
busy =
    record { moves = moves0 ∷ moves1 ∷ back0 tag none ∷ []; meanwhile = []; jiffies = 1000 }
    ∷ record { moves = moves1 ∷ lost1 ∷ moves1 ∷ []; meanwhile = []; jiffies = 1500 }
    ∷ []

abbrev first : Turn
first = record { moves = moves0 ∷ []; meanwhile = moves0 ∷ []; jiffies = 2001 }

abbrev rest : List Turn
rest = record { moves = []; meanwhile = []; jiffies = 2400 } ∷ []

abbrev last : Turn
last = record { moves = []; meanwhile = back1 tag none ∷ []; jiffies = 2502 }

abbrev schedule : Schedule
schedule = record { busy = busy; first = first; rest = rest; last = last }

abbrev run0 : SenderRun
run0 = record { jiffies = 1000; timens = 0; tries = tries0; sent = tries0; end = 2001 }

abbrev run1 : SenderRun
run1 = record { jiffies = 1000; timens = 0; tries = tries1; sent = tries1; end = 1001 }

abbrev test : Test
test = begun_test sums clock 60 run0 run1 (tested 1 10 100 60 0 idle)

runs_IsRun : IsRun clock (started 1 1 10 100 60) run0 × IsRun clock (started 4 1 10 100 60) run1
unfolding thread_tries send_time pkts_per_sec loop_tries
runs_IsRun = (refl, refl)

-- A sender is left in the first two turns, and none in the third.
schedule-Fits : Fits sums clock 60 schedule test
unfolding is_sending turned count_round all_turned all_moved moved move0 move1 happens count_sent
    end_thread begun begin_status received fast_rcv_speedtest_pkt drain count_pkt is_set str_eq
    speedtest_bytes eth_header get_speedtest_port_by_index jiffies_after
schedule-Fits = ((refl, (refl, tt)), refl, omega arith, omega arith)

test-reports_example :
    (s' : Speedtest) × (speedtest_proc_write sums clock kernel scans true
        (codes "1 10 100 60 0")
        idle
      ≡ wrote 13 (ran s'))
    × Completes sums clock 60 run0 run1 (all_turns schedule) s'
test-reports_example =
    test-reports sums clock kernel scans (codes "1 10 100 60 0") 1 10 100 60 0 run0 run1 schedule
      idle (omega arith) refl (omega arith) (omega arith) (omega arith) refl refl refl refl refl
      refl refl runs_IsRun.0 runs_IsRun.1 (omega arith) schedule-Fits
