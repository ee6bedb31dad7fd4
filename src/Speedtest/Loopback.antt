-- ===== src/Speedtest/Loopback.antt =====
-- A test of lab/net/speedtest/speedtest.c whose packets come back: what the counting thread reports.
use quick_start.Common.{
  ℕ, suc, ◌+◌, ◌-◌, ◌^◌, ◌≡◌, ◌≤◌, ◌<◌, refl, List, [], ◌∷◌, Bool, true, false, Option, drop, arith,
}
use quick_start.Speedtest.Types.{
  st_finished, SpeedtestStatus, Skb, Speedtest, sub64, get_speedtest_port_by_index,
}
use quick_start.Speedtest.Packet.{Checksums, speedtest_bytes}
use quick_start.Speedtest.Timer.{speedtest_loopdetect_timer_init}
use quick_start.Speedtest.Compute.{restart_timer, lose_all, drain, lose, finish}
use quick_start.Speedtest.Counts.{from0, from1, count, is_bad, drain_lem, counted, IsWord, tallied}
use quick_start.Speedtest.Demux.{PortTag, tagged, tagged-from0, tagged-from1, tagged-csum}

-- A packet that comes back, of the first direction or the second, with its tag and its device.
pub data Arrival : Type 0 where
  first : PortTag → Option (List ℕ) → Arrival
  second : PortTag → Option (List ℕ) → Arrival

abbrev pub firsts : List Arrival → ℕ
firsts [] = 0
firsts (first t dev ∷ arrivals) = suc (firsts arrivals)
firsts (second t dev ∷ arrivals) = firsts arrivals

abbrev pub seconds : List Arrival → ℕ
seconds [] = 0
seconds (first t dev ∷ arrivals) = seconds arrivals
seconds (second t dev ∷ arrivals) = suc (seconds arrivals)

module _ (c : Checksums) (size0 size1 : ℕ) where
  abbrev pub pkt0 : List ℕ
  pkt0 = speedtest_bytes c (get_speedtest_port_by_index 0) size0

  abbrev pub pkt1 : List ℕ
  pkt1 = speedtest_bytes c (get_speedtest_port_by_index 1) size1

  abbrev pub looped : List Arrival → List Skb
  looped [] = []
  looped (first t dev ∷ arrivals) = tagged t dev pkt0 ∷ looped arrivals
  looped (second t dev ∷ arrivals) = tagged t dev pkt1 ∷ looped arrivals

  tests0 :
      (t : PortTag) (dev : Option (List ℕ))
      → (from0 (tagged t dev pkt0) ≡ true) × (from1 (tagged t dev pkt0) ≡ false)
  unfolding get_speedtest_port_by_index
  tests0 t dev = tagged-from0 c t dev size0

  tests1 :
      (t : PortTag) (dev : Option (List ℕ))
      → (from0 (tagged t dev pkt1) ≡ false) × (from1 (tagged t dev pkt1) ≡ true)
  unfolding get_speedtest_port_by_index
  tests1 t dev = tagged-from1 c t dev size1

  pub from0-looped : (arrivals : List Arrival) → count from0 (looped arrivals) ≡ firsts arrivals
  from0-looped [] = refl
  from0-looped (first t dev ∷ arrivals) = rw ((tests0 t dev).0, from0-looped arrivals) refl
  from0-looped (second t dev ∷ arrivals) = rw ((tests1 t dev).0, from0-looped arrivals) refl

  pub from1-looped : (arrivals : List Arrival) → count from1 (looped arrivals) ≡ seconds arrivals
  from1-looped [] = refl
  from1-looped (first t dev ∷ arrivals) = rw ((tests0 t dev).1, from1-looped arrivals) refl
  from1-looped (second t dev ∷ arrivals) = rw ((tests1 t dev).1, from1-looped arrivals) refl

  -- The sum that the sender of a direction has stored.
  abbrev pub sum0 : ℕ
  sum0 = c.ip_compute_csum (drop 14 pkt0)

  abbrev pub sum1 : ℕ
  sum1 = c.ip_compute_csum (drop 14 pkt1)

  pub is_bad-looped :
      (arrivals : List Arrival)
      → (count (is_bad c from0 sum0) (looped arrivals) ≡ 0)
        × (count (is_bad c from1 sum1) (looped arrivals) ≡ 0)
  is_bad-looped [] = (refl, refl)
  is_bad-looped (first t dev ∷ arrivals) =
      let (b0, b1) = is_bad-looped arrivals in
      (
        rw (tagged-csum c t dev (get_speedtest_port_by_index 0) size0) ground arith,
        rw ((tests0 t dev).1, b1) refl,
      )
  is_bad-looped (second t dev ∷ arrivals) =
      let (b0, b1) = is_bad-looped arrivals in
      (
        rw ((tests1 t dev).0, b0) refl,
        rw (tagged-csum c t dev (get_speedtest_port_by_index 1) size1) ground arith,
      )

-- The status of a sender that has stored its sum and counted `sent` packets.
abbrev pub IsStarted : ℕ → ℕ → SpeedtestStatus → Type 0
IsStarted sum sent st =
    (st.pktrcv_count ≡ 0) × (st.pkterr_count ≡ 0) × (st.pkt_csum ≡ sum) × (st.pktsend_count ≡ sent)

-- What is reported of a direction.
abbrev pub IsReported : ℕ → ℕ → ℕ → SpeedtestStatus → Type 0
IsReported received bad lost st =
    (st.state ≡ st_finished)
    × (st.pktrcv_count ≡ received)
    × (st.pkterr_count ≡ bad)
    × (st.pktlose_count ≡ lost)

module _ (c : Checksums) where
  -- The report on a queue with `n` packets of the direction, of which `b` are bad.
  report :
      (from : Skb → Bool) (skbs : List Skb) (st : SpeedtestStatus) (sum sent n b : ℕ)
      → sent < 2 ^ 64
      → n < 2 ^ 64
      → b < 2 ^ 64
      → IsStarted sum sent st
      → count from skbs ≡ n
      → count (is_bad c from sum) skbs ≡ b
      → IsReported n b (sub64 (sub64 sent n) b) (lose (counted c from skbs st))
  unfolding lose
  report from skbs st sum sent n b w wn wb (r, e, k, s) hn hb = (
    refl,
    rw (r, hn) (omega arith),
    rw (k, e, hb) (omega arith),
    rw (r, k, e, hb, hn, s) (ground arith),
  )

  is_bad-from :
      (from : Skb → Bool) (sum : ℕ) (skbs : List Skb)
      → count (is_bad c from sum) skbs ≤ count from skbs
  is_bad-from from sum [] = omega arith
  is_bad-from from sum (skb ∷ skbs) = ground (arith, is_bad-from from sum skbs)

  started-IsWord : (sum sent : ℕ) (st : SpeedtestStatus) → IsStarted sum sent st → IsWord c st
  started-IsWord sum sent st (r, e, k, n) = (omega arith, omega arith)

  pub finish-status :
      (s : Speedtest)
      → ((finish s).cfg0.status ≡ lose s.cfg0.status)
        × ((finish s).cfg1.status ≡ lose s.cfg1.status)
  unfolding finish restart_timer lose_all speedtest_loopdetect_timer_init
  finish-status s = ground arith

  -- The two reports when a queue has been counted.
  finish-drain :
      (skbs : List Skb) (s : Speedtest)
      → IsWord c s.cfg0.status
      → IsWord c s.cfg1.status
      → ((finish (drain c skbs s)).cfg0.status ≡ lose (counted c from0 skbs s.cfg0.status))
        × ((finish (drain c skbs s)).cfg1.status ≡ lose (counted c from1 skbs s.cfg1.status))
  finish-drain skbs s w0 w1 = rw (drain_lem c skbs s w0 w1) (finish-status (tallied c skbs s))

  sub64-none : (sent n : ℕ) → sent < 2 ^ 64 → n ≤ sent → sent - n ≡ sub64 (sub64 sent n) 0
  sub64-none sent n w h = omega arith

  -- The packets of a test come back with a port's tag put in, in any order and of both directions, not
  -- more than were sent: when the thread has counted them and ends, it reports for each direction just
  -- those of that direction as received, none as corrupted, and the rest of those sent as lost.
  pub drain-loopback :
      (size0 size1 sent0 sent1 : ℕ) (arrivals : List Arrival) (s : Speedtest)
      → sent0 < 2 ^ 64
      → sent1 < 2 ^ 64
      → firsts arrivals ≤ sent0
      → seconds arrivals ≤ sent1
      → IsStarted (sum0 c size0 size1) sent0 s.cfg0.status
      → IsStarted (sum1 c size0 size1) sent1 s.cfg1.status
      → IsReported
          (firsts arrivals)
          0
          (sent0 - firsts arrivals)
          (finish (drain c (looped c size0 size1 arrivals) s)).cfg0.status
        × IsReported
            (seconds arrivals)
            0
            (sent1 - seconds arrivals)
            (finish (drain c (looped c size0 size1 arrivals) s)).cfg1.status
  drain-loopback size0 size1 sent0 sent1 arrivals s w0 w1 l0 l1 s0 s1 =
      let (d0, d1) =
        finish-drain (looped c size0 size1 arrivals) s
          (started-IsWord (sum0 c size0 size1) sent0 s.cfg0.status s0)
          (started-IsWord (sum1 c size0 size1) sent1 s.cfg1.status s1) in
      let (b0, b1) = is_bad-looped c size0 size1 arrivals in
      (
        rw (d0, sub64-none sent0 (firsts arrivals) w0 l0)
            (report from0 (looped c size0 size1 arrivals) s.cfg0.status (sum0 c size0 size1) sent0
              (firsts arrivals) 0 w0 (omega arith) (omega arith) s0
              (from0-looped c size0 size1 arrivals) b0),
        rw (d1, sub64-none sent1 (seconds arrivals) w1 l1)
            (report from1 (looped c size0 size1 arrivals) s.cfg1.status (sum1 c size0 size1) sent1
              (seconds arrivals) 0 w1 (omega arith) (omega arith) s1
              (from1-looped c size0 size1 arrivals) b1),
      )

  -- Every packet of the first direction comes back, and some of them with a wrong checksum: as a
  -- corrupted packet is taken off twice, the count of lost packets is not 0 but wraps around to 2^64 less
  -- the corrupted ones.
  pub drain-corrupted :
      (skbs : List Skb) (s : Speedtest) (sum sent sum' sent' : ℕ)
      → sent < 2 ^ 64
      → IsStarted sum sent s.cfg0.status
      → IsStarted sum' sent' s.cfg1.status
      → count from0 skbs ≡ sent
      → 0 < count (is_bad c from0 sum) skbs
      → (finish (drain c skbs s)).cfg0.status.pktlose_count + count (is_bad c from0 sum) skbs
        ≡ 2 ^ 64
  drain-corrupted skbs s sum sent sum' sent' w s0 s1 n b =
      let d =
        finish-drain skbs s (started-IsWord sum sent s.cfg0.status s0)
          (started-IsWord sum' sent' s.cfg1.status s1) in
      let le = is_bad-from from0 sum skbs in
      let (fin, r, e, lost) =
        report from0 skbs s.cfg0.status sum sent sent (count (is_bad c from0 sum) skbs) w w
          (omega arith) s0 n refl in
      rw (d.0, lost) (omega arith)
