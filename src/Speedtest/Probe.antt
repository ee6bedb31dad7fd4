-- ===== src/Speedtest/Probe.antt =====
-- The probes of lab/net/speedtest/speedtest.c: how a looped line is found, and the wait for it.
use quick_start.Common.{
  ℕ, ◌≡◌, ◌<◌, refl, ap, ◌∙◌, List, [], ◌∷◌, true, false, Bool-cases, inl, inr, ◌>>=◌, Option, some,
  arith,
}
use quick_start.Speedtest.Types.{
  Skb, Speedtest, is_speedtest_task_running, get_speedtest_port_by_index,
}
use quick_start.Speedtest.Packet.{Checksums, speedtest_bytes}
use quick_start.Speedtest.Hooks.{
  set_ready1, set_ready2, free_probe_skb, rcv_speedtest_probe_pkt, xmit_speedtest_pkt,
}
use quick_start.Speedtest.Timer.{
  Clock, jiffies_after, begin_wait, end_wait, wait_ready, speedtest_loop_detect_cb,
}
use quick_start.Speedtest.Counts.{from0, from1}
use quick_start.Speedtest.Demux.{PortTag, tagged, tagged-from0, tagged-from1}

-- The timer over the times at which it runs, with the probes made.
unfoldable pub runs : Clock → List ℕ → Speedtest → Option Speedtest
runs k [] s = some s
runs k (jiffies ∷ times) s = speedtest_loop_detect_cb k true jiffies s >>= runs k times

rcv-first :
    (skb : Skb) (s : Speedtest)
    → is_speedtest_task_running s ≡ false
    → from0 skb ≡ true
    → rcv_speedtest_probe_pkt skb s ≡ free_probe_skb (record s { st_ready = set_ready1 s.st_ready })
unfolding rcv_speedtest_probe_pkt from0
rcv-first skb s h f = rw (h, f) refl

rcv-second :
    (skb : Skb) (s : Speedtest)
    → is_speedtest_task_running s ≡ false
    → from0 skb ≡ false
    → from1 skb ≡ true
    → rcv_speedtest_probe_pkt skb s ≡ free_probe_skb (record s { st_ready = set_ready2 s.st_ready })
unfolding rcv_speedtest_probe_pkt from1 from0
rcv-second skb s h f g = ground arith

ready_first :
    (s : Speedtest)
    → s.st_ready ≡ 0
    → free_probe_skb (record s { st_ready = set_ready1 s.st_ready })
      ≡ (1, record s { st_ready = 1 })
unfolding free_probe_skb set_ready1
ready_first s r = rw r refl

ready_second :
    (s : Speedtest)
    → s.st_ready ≡ 0
    → free_probe_skb (record s { st_ready = set_ready2 s.st_ready })
      ≡ (1, record s { st_ready = 2 })
unfolding free_probe_skb set_ready2
ready_second s r = rw r refl

ready_both1 :
    (s : Speedtest)
    → free_probe_skb (record s { st_ready = set_ready2 1 })
      ≡ (1, record s { st_ready = 3; timer = false })
unfolding free_probe_skb set_ready2
ready_both1 s = refl

ready_both2 :
    (s : Speedtest)
    → free_probe_skb (record s { st_ready = set_ready1 2 })
      ≡ (1, record s { st_ready = 3; timer = false })
unfolding free_probe_skb set_ready1
ready_both2 s = refl

module _ (c : Checksums) (size : ℕ) (dev : Option (List ℕ)) (t0 t1 : PortTag) where
  abbrev probe0 : Skb
  probe0 = tagged t0 dev (speedtest_bytes c (get_speedtest_port_by_index 0) size)

  abbrev probe1 : Skb
  probe1 = tagged t1 dev (speedtest_bytes c (get_speedtest_port_by_index 1) size)

  rcv-probe0 :
      (s : Speedtest)
      → is_speedtest_task_running s ≡ false
      → rcv_speedtest_probe_pkt probe0 s
        ≡ free_probe_skb (record s { st_ready = set_ready1 s.st_ready })
  unfolding get_speedtest_port_by_index
  rcv-probe0 s h = rcv-first _ s h (tagged-from0 c t0 dev size).0

  rcv-probe1 :
      (s : Speedtest)
      → is_speedtest_task_running s ≡ false
      → rcv_speedtest_probe_pkt probe1 s
        ≡ free_probe_skb (record s { st_ready = set_ready2 s.st_ready })
  unfolding get_speedtest_port_by_index
  rcv-probe1 s h = rcv-second _ s h (tagged-from1 c t1 dev size).0 (tagged-from1 c t1 dev size).1

  -- While no test runs and the module is not ready, the two probes coming back make it ready, in the
  -- one order and in the other: both are taken, and the timer is stopped with the second; in the state
  -- that is reached the transmit hook lets no packet out.
  pub probes-ready :
      (skb : Skb) (s : Speedtest)
      → is_speedtest_task_running s ≡ false
      → s.st_ready ≡ 0
      → (rcv_speedtest_probe_pkt probe1 (rcv_speedtest_probe_pkt probe0 s).1
          ≡ (1, record s { st_ready = 3; timer = false }))
        × (rcv_speedtest_probe_pkt probe0 (rcv_speedtest_probe_pkt probe1 s).1
            ≡ (1, record s { st_ready = 3; timer = false }))
        × ((rcv_speedtest_probe_pkt probe0 s).0 ≡ 1)
        × ((rcv_speedtest_probe_pkt probe1 s).0 ≡ 1)
        × (xmit_speedtest_pkt skb (record s { st_ready = 3; timer = false }) ≡ 0)
  unfolding is_speedtest_task_running xmit_speedtest_pkt
  probes-ready skb s h r =
      let one = ready_first s r in
      let two = ready_second s r in
      (
        ap (λ p. rcv_speedtest_probe_pkt probe1 p.1) (rcv-probe0 s h ∙ one)
            ∙ rcv-probe1 (record s { st_ready = 1 }) h
            ∙ ready_both1 s,
        ap (λ p. rcv_speedtest_probe_pkt probe0 p.1) (rcv-probe1 s h ∙ two)
            ∙ rcv-probe0 (record s { st_ready = 2 }) h
            ∙ ready_both2 s,
        ap (λ p. p.0) (rcv-probe0 s h ∙ one),
        ap (λ p. p.0) (rcv-probe1 s h ∙ two),
        refl,
      )

module _ (k : Clock) where
  -- One run in a wait: the readiness and the end of the wait stay.
  cb-waits :
      (jiffies : ℕ) (s : Speedtest)
      → 0 < s.ready_endtime
      → (s' : Speedtest) × (speedtest_loop_detect_cb k true jiffies s ≡ some s')
        × (s'.st_ready ≡ s.st_ready)
        × (s'.ready_endtime ≡ s.ready_endtime)
  unfolding speedtest_loop_detect_cb wait_ready begin_wait end_wait
  cb-waits jiffies s h = elim (Bool-cases (is_speedtest_task_running s)) [
    | inl r ↦ (record s { timer = false }, rw r refl, refl, refl)
    | inr r ↦ (wait_ready k jiffies s, rw r refl, ground arith, ground arith)
  ]

  cb-begins :
      (jiffies : ℕ) (s : Speedtest)
      → is_speedtest_task_running s ≡ false
      → 0 < s.st_ready
      → 0 < jiffies_after k jiffies 5
      → (s' : Speedtest) × (speedtest_loop_detect_cb k true jiffies s ≡ some s')
        × (s'.st_ready ≡ s.st_ready)
        × (0 < s'.ready_endtime)
  unfolding speedtest_loop_detect_cb wait_ready begin_wait end_wait
  cb-begins jiffies s h r p = (wait_ready k jiffies s, rw h refl, ground arith, ground arith)

  runs-waits :
      (times : List ℕ) (s : Speedtest)
      → 0 < s.ready_endtime
      → (s' : Speedtest) × (runs k times s ≡ some s') × (s'.st_ready ≡ s.st_ready)
  unfolding runs
  runs-waits [] s h = (s, refl, refl)
  runs-waits (jiffies ∷ times) s h =
      let (s1, c, q, e) = cb-waits jiffies s h in
      let (s2, d, q') = runs-waits times s1 (rw e h) in (s2, rw (c, d) refl, q' ∙ q)

  -- Once a probe has come back, the timer never takes that back, however often and late it runs: the
  -- wait of five seconds that its first run begins has no end. The end must not be 0 in the bits of the
  -- clock, and the probes can be made.
  pub runs-ready :
      (jiffies : ℕ) (times : List ℕ) (s : Speedtest)
      → is_speedtest_task_running s ≡ false
      → 0 < s.st_ready
      → 0 < jiffies_after k jiffies 5
      → (s' : Speedtest) × (runs k (jiffies ∷ times) s ≡ some s') × (s'.st_ready ≡ s.st_ready)
  unfolding runs
  runs-ready jiffies times s h r p =
      let (s1, c, q, e) = cb-begins jiffies s h r p in
      let (s2, d, q') = runs-waits times s1 e in (s2, rw (c, d) refl, q' ∙ q)
