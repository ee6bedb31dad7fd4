-- ===== src/Speedtest/Whole.antt =====
-- From a command to the report: a whole test of lab/net/speedtest/speedtest.c.
use quick_start.Common.{
  ℕ, suc, ◌^◌, ◌≡◌, ◌≤◌, ◌<◌, refl, List, [], ◌∷◌, true, false, ltb, some, length, arith,
}
use quick_start.Speedtest.Types.{
  no_task, live_task, fast_rcv, Speedtest, get_speedtest_port_by_index,
}
use quick_start.Speedtest.Packet.{Checksums, speedtest_bytes, make_speedtest_pkt}
use quick_start.Speedtest.Timer.{Clock}
use quick_start.Speedtest.Compute.{drain}
use quick_start.Speedtest.Sender.{begin_status}
use quick_start.Speedtest.Command.{ran, wrote, Kernel, run_speedtest_by_cmd, speedtest_proc_write}
use quick_start.Speedtest.Demux.{make-bytes}
use quick_start.Speedtest.Loopback.{finish-status}
use quick_start.Speedtest.Restart.{started, run-started}
use quick_start.Speedtest.Wire.{Event, history, begun, ended}
use quick_start.Speedtest.Conserves.{IsSettled, lose-IsSettled}
use quick_start.Speedtest.Accounts.{IsAccounted}
use quick_start.Speedtest.Accounts.History.{history-IsAccounted, drain-IsBalanced}

-- The data behind a command that starts a test.
abbrev pub tested : ℕ → ℕ → ℕ → ℕ → ℕ → Speedtest → Speedtest
tested enable dur_time speed size loop_timer s = record s {
  cfg0 = started 1 enable dur_time speed size;
  cfg1 = started 4 enable dur_time speed size;
  compute_task = live_task;
  st_ready = 0;
  st_loop_timer_enable = loop_timer;
  rx_hook = fast_rcv;
}

module _ (c : Checksums) (k : Clock) where
  pub begun-IsAccounted :
      (enable dur_time speed size loop_timer jiffies0 jiffies1 left : ℕ) (s : Speedtest)
      → s.comp_skbqueue ≡ []
      → left < 2 ^ 64
      → IsAccounted c size left
          (begun c k size jiffies0 jiffies1 (tested enable dur_time speed size loop_timer s))
  unfolding begun begin_status get_speedtest_port_by_index
  begun-IsAccounted enable dur_time speed size loop_timer jiffies0 jiffies1 left s q b =
      ([], refl, q, (refl, refl, refl, omega (arith, b)), (refl, refl, refl, omega (arith, b)))

  -- A command that is written to the proc file.
  pub write-ran :
      (e : Kernel) (sscanf : List ℕ → List ℕ) (buf values : List ℕ) (s s' : Speedtest)
      → length buf ≤ 255
      → sscanf buf ≡ values
      → run_speedtest_by_cmd c k e values s ≡ ran s'
      → speedtest_proc_write c k e sscanf true buf s ≡ wrote (length buf) (ran s')
  unfolding speedtest_proc_write
  write-ran e sscanf buf values s s' l v r =
      let short : ltb 255 (length buf) ≡ false = ground arith in rw (short, v, r) refl

  -- A command that is written to the proc file starts a test, and both senders make their packets:
  -- whatever they send, in whatever order the packets come back, are lost or find the queue full, and
  -- whenever the counting thread has its rounds, at its end it reports of each direction that the
  -- packets sent are those received and those lost, that none is corrupted, and that just those are
  -- lost that are still on the wire, were lost there or found no room. The command is at most 255 bytes
  -- of which sscanf reads five numbers, the first of them not 0; no thread is left before it, the queue
  -- is empty and all threads can be created, the size fits, and less than 2^64 - 1 things happen.
  pub test-accounted :
      (e : Kernel) (sscanf : List ℕ → List ℕ) (buf : List ℕ)
      → (enable dur_time speed size loop_timer jiffies0 jiffies1 : ℕ)
      → (events : List Event) (s : Speedtest) → length buf ≤ 255
      → sscanf buf ≡ enable ∷ dur_time ∷ speed ∷ size ∷ loop_timer ∷ []
      → 0 < enable
      → 42 ≤ size
      → size ≤ 65569
      → s.cfg0.task ≡ no_task
      → s.cfg1.task ≡ no_task
      → s.compute_task ≡ no_task
      → s.comp_skbqueue ≡ []
      → e.created0 ≡ true
      → e.created1 ≡ true
      → e.created_comp ≡ true
      → suc (length events) < 2 ^ 64
      → (s' : Speedtest) × (speedtest_proc_write c k e sscanf true buf s
          ≡ wrote (length buf) (ran s'))
        × (make_speedtest_pkt c true true s'.cfg0.port s'.cfg0.pkt_size
            ≡ some (some (speedtest_bytes c s'.cfg0.port s'.cfg0.pkt_size)))
        × (make_speedtest_pkt c true true s'.cfg1.port s'.cfg1.pkt_size
            ≡ some (some (speedtest_bytes c s'.cfg1.port s'.cfg1.pkt_size)))
        × (let w = history c k size events (begun c k size jiffies0 jiffies1 s') in
            IsSettled w.flying0 w.gone0 (ended c k size w).cfg0.status
            × IsSettled w.flying1 w.gone1 (ended c k size w).cfg1.status)
  unfolding ended
  test-accounted e sscanf buf enable dur_time speed size loop_timer jiffies0 jiffies1 events s n v p
        l h t0 t1 tc q c0 c1 c2 b =
      let s' = tested enable dur_time speed size loop_timer s in
      let w = history c k size events (begun c k size jiffies0 jiffies1 s') in
      let accounted = history-IsAccounted c k size events (begun c k size jiffies0 jiffies1 s') (
        begun-IsAccounted enable dur_time speed size loop_timer jiffies0 jiffies1
          (suc (length events)) s q b) in
      let (hook, queue, b0, b1) = drain-IsBalanced c k size 0 w accounted in
      let (f0, f1) = finish-status c (drain c w.speedtest.comp_skbqueue w.speedtest) in
      (
        s',
        write-ran e sscanf buf _ s s' n v
            (run-started c k e enable dur_time speed size loop_timer s p t0 t1 tc c0 c1 c2),
        make-bytes c 1 size l h,
        make-bytes c 4 size l h,
        (rw f0 (lose-IsSettled c _ 0 _ _ _ b0), rw f1 (lose-IsSettled c _ 0 _ _ _ b1)),
      )
