-- ===== src/Speedtest/Threads/Whole.antt =====
-- From a command to the report with the threads' own functions: a whole test of
-- lab/net/speedtest/speedtest.c.
use quick_start.Common.{
  ℕ, ◌^◌, ◌≡◌, ◌≤◌, ◌<◌, refl, sym, ap, List, [], ◌∷◌, ◌++◌, true, false, some, length,
}
use quick_start.Speedtest.Types.{no_task, live_task, SpeedtestCfg, Speedtest}
use quick_start.Speedtest.Packet.{Checksums, speedtest_bytes}
use quick_start.Speedtest.Timer.{Clock, jiffies_after}
use quick_start.Speedtest.Compute.{is_sending, speedtest_compute_func}
use quick_start.Speedtest.Sender.{Try, end_thread, returned, begin_status, speedtest_thread_func}
use quick_start.Speedtest.Command.{ran, wrote, Kernel, speedtest_proc_write}
use quick_start.Speedtest.Restart.{started, run-started}
use quick_start.Speedtest.Wire.{begun}
use quick_start.Speedtest.Whole.{tested, begun-IsAccounted, write-ran}
use quick_start.Speedtest.Threads.{
  thread_tries, left, Test, Turn, turned, all_turned, rounds, happenings,
}
use quick_start.Speedtest.Threads.Sent.{count_all, thread_func-tries}
use quick_start.Speedtest.Threads.Views.{count_all-view}
use quick_start.Speedtest.Threads.Moves.{IsOn, AreOn}
use quick_start.Speedtest.Threads.Turns.{AllBusy}
use quick_start.Speedtest.Threads.Report.{Reports, compute_loop-Reports}
use quick_start.Speedtest.Threads.Returns.{compute_func-returns}

-- A sender's run: its clocks at the start, what its iterations meet, and those of them that try to send,
-- with `jiffies` at the end.
pub record SenderRun : Type 0 where
  pub jiffies : ℕ
  pub timens : ℕ
  pub tries : List Try
  pub sent : List Try
  pub end : ℕ

abbrev pub IsRun : Clock → SpeedtestCfg → SenderRun → Type 0
IsRun k cfg r = thread_tries k r.jiffies r.timens r.tries cfg ≡ some (r.sent, r.end)

-- The turns of a test: those that find a sender, the first that finds none, and those up to the end of
-- the wait.
pub record Schedule : Type 0 where
  pub busy : List Turn
  pub first : Turn
  pub rest : List Turn
  pub last : Turn

abbrev pub all_turns : Schedule → List Turn
all_turns q = q.busy ++ q.first ∷ (q.rest ++ q.last ∷ [])

module _ (c : Checksums) (k : Clock) where
  -- A sender that has made its packet, and one that has ended.
  abbrev begun_sender : ℕ → SpeedtestCfg → SpeedtestCfg
  begun_sender jiffies cfg = begin_status c k jiffies (speedtest_bytes c cfg.port cfg.pkt_size) cfg

  abbrev ended_sender : SenderRun → SpeedtestCfg → SpeedtestCfg
  ended_sender r cfg = end_thread k r.end (count_all r.sent (begun_sender r.jiffies cfg))

  begun-IsOn :
      (r : SenderRun) (cfg : SpeedtestCfg)
      → cfg.task ≡ live_task
      → IsOn k (ended_sender r cfg) (left r.sent r.end) (begun_sender r.jiffies cfg)
  unfolding end_thread begin_status
  begun-IsOn r cfg t =
      (t, ap (end_thread k r.end) (sym (count_all-view r.sent (begun_sender r.jiffies cfg))))

  -- A test whose senders have made their packets and have their tries to send.
  abbrev pub begun_test : ℕ → SenderRun → SenderRun → Speedtest → Test
  begun_test size r0 r1 s = record {
    wire = begun c k size r0.jiffies r1.jiffies s;
    left0 = left r0.sent r0.end;
    left1 = left r1.sent r1.end;
  }

  -- The turns fit their names, and the last is late enough.
  abbrev pub Fits : ℕ → Schedule → Test → Type 0
  Fits size q x =
      AllBusy c k size q.busy x
      × (is_sending (turned c k size q.first (all_turned c k size q.busy x)).wire.speedtest ≡ false)
      × (0 < jiffies_after k q.first.jiffies 5)
      × (jiffies_after k q.first.jiffies 5 < q.last.jiffies)

  -- The three threads return, and the counting thread reports.
  abbrev pub Completes : ℕ → SenderRun → SenderRun → List Turn → Speedtest → Type 0
  Completes size r0 r1 turns s =
      (last0 : SpeedtestCfg) × (last1 : SpeedtestCfg) × (report : Speedtest)
      × (speedtest_thread_func c k true true r0.jiffies r0.timens r0.tries s.cfg0 ≡ returned last0)
      × (speedtest_thread_func c k true true r1.jiffies r1.timens r1.tries s.cfg1 ≡ returned last1)
      × (speedtest_compute_func c k (rounds c k size turns (begun_test size r0 r1 s))
            (begun_test size r0 r1 s).wire.speedtest
          ≡ some report)
      × Reports c k size last0 last1 turns (begun_test size r0 r1 s) report

  tested-Completes :
      (enable dur_time speed size loop_timer : ℕ) (r0 r1 : SenderRun) (q : Schedule) (s : Speedtest)
      → 42 ≤ size
      → size ≤ 65569
      → s.comp_skbqueue ≡ []
      → IsRun k (started 1 enable dur_time speed size) r0
      → IsRun k (started 4 enable dur_time speed size) r1
      → happenings (all_turns q) < 2 ^ 64
      → Fits size q (begun_test size r0 r1 (tested enable dur_time speed size loop_timer s))
      → Completes size r0 r1 (all_turns q) (tested enable dur_time speed size loop_timer s)
  unfolding speedtest_compute_func begun begin_status
  tested-Completes enable dur_time speed size loop_timer r0 r1 q s l h empty e0 e1 b
        (a, i, w, late) =
      let s' = tested enable dur_time speed size loop_timer s in
      let x = begun_test size r0 r1 s' in
      let last0 = ended_sender r0 s'.cfg0 in
      let last1 = ended_sender r1 s'.cfg1 in
      let on : AreOn c k size last0 last1 x =
        (begun-IsOn r0 s'.cfg0 refl, begun-IsOn r1 s'.cfg1 refl) in
      let accounted =
        begun-IsAccounted c k enable dur_time speed size loop_timer r0.jiffies r1.jiffies
          (happenings (all_turns q)) s empty b in
      let (report, r) =
        compute_func-returns c k size last0 last1 q.busy q.first q.rest q.last x on a i w late in
      (
        last0,
        last1,
        report,
        thread_func-tries c k r0.jiffies r0.timens r0.end r0.tries r0.sent s'.cfg0 l h e0,
        thread_func-tries c k r1.jiffies r1.timens r1.end r1.tries r1.sent s'.cfg1 l h e1,
        r,
        compute_loop-Reports c k size last0 last1 (all_turns q) 0 (happenings (all_turns q)) x
            report refl accounted on r,
      )

  -- A command that is written to the proc file starts a test, whose threads are the module's own
  -- functions: each sender over the iterations that it meets, and the counting thread over rounds
  -- between which the senders go on and packets come back, are lost on the wire or find the queue full,
  -- in any order. Both senders return, and so does the counting thread, by the first round more than
  -- five seconds later than the first one that finds no sender. Behind some of the rounds it reports of
  -- each direction that the packets sent are those received and those lost, that none is corrupted, and
  -- that just those are lost that are still on the wire, were lost there, found no room or came behind
  -- the last count; and what a sender has left in its direction, as its count of packets, is reported
  -- as it left it. The command is at most 255 bytes of which sscanf reads five numbers, the first of
  -- them not 0; no thread is left before it, the queue is empty and all threads can be created, the
  -- size fits, the loops of both senders are left in their iterations, less than 2^64 things happen,
  -- each round before that first one finds a sender, and the end of the wait is not 0 in the bits of
  -- the clock.
  pub test-reports :
      (e : Kernel) (sscanf : List ℕ → List ℕ) (buf : List ℕ)
      → (enable dur_time speed size loop_timer : ℕ) (r0 r1 : SenderRun) (q : Schedule)
      → (s : Speedtest) → length buf ≤ 255
      → sscanf buf ≡ enable ∷ dur_time ∷ speed ∷ size ∷ loop_timer ∷ []
      → 0 < enable
      → 42 ≤ size
      → size ≤ 65569
      → s.cfg0.task ≡ no_task
      → s.cfg1.task ≡ no_task
      → s.compute_task ≡ no_task
      → s.comp_skbqueue ≡ []
      → e.created0 ≡ true
      → e.created1 ≡ true
      → e.created_comp ≡ true
      → IsRun k (started 1 enable dur_time speed size) r0
      → IsRun k (started 4 enable dur_time speed size) r1
      → happenings (all_turns q) < 2 ^ 64
      → Fits size q (begun_test size r0 r1 (tested enable dur_time speed size loop_timer s))
      → (s' : Speedtest) × (speedtest_proc_write c k e sscanf true buf s
          ≡ wrote (length buf) (ran s'))
        × Completes size r0 r1 (all_turns q) s'
  test-reports e sscanf buf enable dur_time speed size loop_timer r0 r1 q s n v p l h t0 t1 tc empty
        c0 c1 c2 e0 e1 b fits =
      let s' = tested enable dur_time speed size loop_timer s in
      (
        s',
        write-ran c k e sscanf buf _ s s' n v
            (run-started c k e enable dur_time speed size loop_timer s p t0 t1 tc c0 c1 c2),
        tested-Completes enable dur_time speed size loop_timer r0 r1 q s l h empty e0 e1 b fits,
      )
