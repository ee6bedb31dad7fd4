-- ===== src/Speedtest/Wrap.antt =====
-- A test of lab/net/speedtest/speedtest.c over whose time the clock wraps around.
use native.Mathlib.Nat.{mod-eq-sub-mod, mod-le, mod-eq_of_lt}
use quick_start.Common.{
  ℕ, ◌+◌, ◌-◌, ◌*◌, ◌%◌, ◌^◌, ◌≡◌, ◌≤◌, ◌<◌, refl, List, [], ◌∷◌, true, false, arith,
}
use quick_start.Speedtest.Types.{no_task, SpeedtestCfg}
use quick_start.Speedtest.Packet.{Checksums, speedtest_bytes}
use quick_start.Speedtest.Timer.{Clock}
use quick_start.Speedtest.Sender.{
  Try, pkts_per_sec, returned, end_thread, begin_status, speedtest_thread_func,
}
use quick_start.Speedtest.Sending.{sent_more, sends, goes_on, thread_func-full_speed}

-- A sum that wraps around is less than its parts.
wrapped-lt : (m j d : ℕ) → d < m → m ≤ j + d → (j + d) % m < j
wrapped-lt m j d h l = rw (mod-eq-sub-mod l) (omega (arith, mod-le (j + d - m) m))

sends-one : (t : Try) → sends (t ∷ []) ≤ 1
sends-one t = ground arith

ends_at_once : (end_time : ℕ) (t : Try) → end_time < t.jiffies → goes_on end_time t ≡ false
ends_at_once end_time t h = ground arith

module _ (c : Checksums) (k : Clock) where
  end_thread-count :
      (jiffies : ℕ) (pkt : List ℕ) (start n : ℕ) (cfg : SpeedtestCfg)
      → n ≤ 1
      → let result = end_thread k jiffies (sent_more n (begin_status c k start pkt cfg)) in
        (result.task ≡ no_task) × (result.status.pktsend_count ≤ cfg.status.pktsend_count + 1)
  unfolding end_thread begin_status
  end_thread-count jiffies pkt start n cfg h = (refl, omega arith)

  -- At 100 Mbit/s or more, with a size that fits and a rate of at least a packet per second in 32 bits:
  -- where the clock wraps around before the test is over, the sender returns behind its first
  -- iteration, with at most one packet sent, as the end of the test compares as past. The time of the
  -- test fits 32 bits and the clock.
  pub thread_func-wrapped :
      (jiffies timens : ℕ) (t : Try) (cfg : SpeedtestCfg)
      → 42 ≤ cfg.pkt_size
      → cfg.pkt_size ≤ 65569
      → 100 ≤ cfg.speed
      → 0 < pkts_per_sec cfg
      → cfg.status.pktsend_count < 2 ^ 64
      → cfg.dur_time * k.hz < 2 ^ 32
      → cfg.dur_time * k.hz < 2 ^ k.long_bits
      → 2 ^ k.long_bits ≤ jiffies + cfg.dur_time * k.hz
      → jiffies ≤ t.jiffies
      → (result : SpeedtestCfg) × (speedtest_thread_func c k true true jiffies timens (t ∷ []) cfg
          ≡ returned result)
        × (result.task ≡ no_task)
        × (result.status.pktsend_count ≤ cfg.status.pktsend_count + 1)
  unfolding end_thread begin_status
  thread_func-wrapped jiffies timens t cfg l h v p w d d' o j =
      let short : cfg.dur_time * k.hz % 2 ^ 32 ≡ cfg.dur_time * k.hz = mod-eq_of_lt d in
      let early = wrapped-lt (2 ^ k.long_bits) jiffies (cfg.dur_time * k.hz) d' o in
      let past : (jiffies + cfg.dur_time * k.hz % 2 ^ 32) % 2 ^ k.long_bits < t.jiffies =
        rw short (omega (arith, early)) in
      let (none_left, few) =
        end_thread-count t.jiffies (speedtest_bytes c cfg.port cfg.pkt_size) jiffies
          (sends (t ∷ [])) cfg (sends-one t) in
      (
        end_thread k t.jiffies (
            sent_more (sends (t ∷ []))
              (begin_status c k jiffies (speedtest_bytes c cfg.port cfg.pkt_size) cfg)),
        thread_func-full_speed c k jiffies timens [] t cfg l h v p w refl (ends_at_once _ t past),
        none_left,
        few,
      )
