-- ===== src/Speedtest/Sender.antt =====
-- `speedtest_thread_func` of lab/net/speedtest/speedtest.c: the thread that sends.
use quick_start.Common.{
  ℕ, ◌+◌, ◌*◌, ◌/◌, ◌%◌, ◌^◌, List, [], ◌∷◌, Bool, ◌&&◌, ◌||◌, not, Option, none, some, drop, ltb,
  ◌==◌, if◌then◌else◌,
}
use quick_start.Speedtest.Types.{st_running, no_task, dead_task, SpeedtestCfg, add64}
use quick_start.Speedtest.Packet.{Checksums, make_speedtest_pkt, send_speedtest_pkt}
use quick_start.Speedtest.Timer.{Clock}

-- What an iteration of the loop meets: the time of day in nanoseconds, what becomes of the packet, and
-- then `jiffies` and whether the thread is to stop.
pub record Try : Type 0 where
  pub timens : ℕ
  pub cloned : Bool
  pub taken : Bool
  pub jiffies : ℕ
  pub should_stop : Bool

-- `speed * 1024 * 1024 / 8 / pkt_size`, in 32 bits; the size is not 0.
unfoldable pub pkts_per_sec : SpeedtestCfg → ℕ
pkts_per_sec cfg = cfg.speed * 1024 * 1024 % 2 ^ 32 / 8 / cfg.pkt_size

-- `none` is a division by 0.
unfoldable pub send_time : SpeedtestCfg → Option ℕ
unfolding pkts_per_sec
send_time cfg = if pkts_per_sec cfg == 0 then none else some (1000000000 / pkts_per_sec cfg)

unfoldable pub count_sent : Try → SpeedtestCfg → SpeedtestCfg
unfolding send_speedtest_pkt
count_sent t cfg =
    if send_speedtest_pkt t.cloned t.taken
    then record cfg {
      status = record cfg.status { pktsend_count = add64 cfg.status.pktsend_count 1 };
    }
    else cfg

-- What follows the loop, in which the thread gives up its task.
unfoldable pub end_thread : Clock → ℕ → SpeedtestCfg → SpeedtestCfg
end_thread k jiffies cfg = record cfg {
  task = no_task;
  enable = 0;
  status = record cfg.status { end_time = jiffies / k.hz % 2 ^ 32 };
}

module _ (k : Clock) (send_ns end_time : ℕ) where
  -- The two loops: `paced` is the one below 100 Mbit/s, which waits for `speed_time`. The result is
  -- the configuration and the clock when the loop is left; `none` is a loop that goes on.
  unfoldable pub send_loop : Bool → ℕ → List Try → SpeedtestCfg → Option (ℕ × SpeedtestCfg)
  send_loop paced speed_time [] cfg = none
  send_loop paced speed_time (t ∷ tries) cfg =
      let waits = send_loop paced speed_time tries cfg in
      let sent = count_sent t cfg in
      let next = send_loop paced ((send_ns + t.timens) % 2 ^ k.long_bits) tries sent in
      if paced && not (ltb speed_time t.timens)
      then waits
      else if t.should_stop || ltb end_time t.jiffies
      then some (t.jiffies, sent)
      else next

-- What has become of the thread: it still runs, it has divided by 0, it has been given a size outside
-- the model, or it has returned.
pub data Sent : Type 0 where
  sending : Sent
  zero_division : Sent
  bad_size : Sent
  returned : SpeedtestCfg → Sent

unfoldable pub leave_loop : Clock → Option (ℕ × SpeedtestCfg) → Sent
leave_loop k none = sending
leave_loop k (some (jiffies, cfg)) = returned (end_thread k jiffies cfg)

module _ (c : Checksums) (k : Clock) where
  unfoldable pub begin_status : ℕ → List ℕ → SpeedtestCfg → SpeedtestCfg
  begin_status jiffies pkt cfg = record cfg {
    status = record cfg.status {
      state = st_running;
      pkt_csum = c.ip_compute_csum (drop 14 pkt);
      begin_time = jiffies / k.hz % 2 ^ 32;
    };
  }

  unfoldable pub run_loop : ℕ → ℕ → List Try → SpeedtestCfg → Option ℕ → Sent
  unfolding leave_loop
  run_loop jiffies timens tries cfg none = zero_division
  run_loop jiffies timens tries cfg (some ns) = leave_loop k (
      send_loop k ns ((jiffies + cfg.dur_time * k.hz % 2 ^ 32) % 2 ^ k.long_bits)
        (ltb cfg.speed 100) ((ns + timens) % 2 ^ k.long_bits) tries cfg)

  unfoldable pub run_with : ℕ → ℕ → List Try → SpeedtestCfg → Option (Option (List ℕ)) → Sent
  run_with jiffies timens tries cfg none = bad_size
  run_with jiffies timens tries cfg (some none) = returned (record cfg { task = dead_task })
  run_with jiffies timens tries cfg (some (some pkt)) =
      run_loop jiffies timens tries (begin_status jiffies pkt cfg) (send_time cfg)

  -- `found` and `memory` are whether the device is there and the buffer; `jiffies` and `timens` the
  -- clocks at the start.
  unfoldable pub speedtest_thread_func : Bool → Bool → ℕ → ℕ → List Try → SpeedtestCfg → Sent
  speedtest_thread_func found memory jiffies timens tries cfg =
      run_with jiffies timens tries cfg (make_speedtest_pkt c found memory cfg.port cfg.pkt_size)
