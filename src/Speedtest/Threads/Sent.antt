-- ===== src/Speedtest/Threads/Sent.antt =====
-- What a sender of lab/net/speedtest/speedtest.c sends, as a list of its own: `speedtest_thread_func`
-- comes to a fold over it.
use quick_start.Common.{
  ℕ, ◌+◌, ◌*◌, ◌%◌, ◌^◌, ◌≡◌, ◌≤◌, refl, ap, ◌∙◌, List, [], ◌∷◌, Bool, ◌&&◌, ◌||◌, not, Option,
  none, some, ◌>>=◌, if◌then◌else◌, true, false, ltb, arith,
}
use quick_start.Speedtest.Types.{SpeedtestCfg}
use quick_start.Speedtest.Packet.{Checksums, speedtest_bytes}
use quick_start.Speedtest.Timer.{Clock}
use quick_start.Speedtest.Demux.{make-bytes}
use quick_start.Speedtest.Sender.{
  Try, send_time, count_sent, end_thread, send_loop, returned, leave_loop, begin_status, run_loop,
  run_with, speedtest_thread_func,
}
use quick_start.Speedtest.Threads.{loop_tries, thread_tries}

-- The configuration behind some tries.
abbrev pub count_all : List Try → SpeedtestCfg → SpeedtestCfg
count_all [] cfg = cfg
count_all (t ∷ tries) cfg = count_all tries (count_sent t cfg)

-- The end of a loop that has made some tries.
abbrev pub counted_all : SpeedtestCfg → List Try × ℕ → Option (ℕ × SpeedtestCfg)
counted_all cfg (tries, jiffies) = some (jiffies, count_all tries cfg)

-- One iteration, whatever its tests say.
iteration :
    (waits stops : Bool) (t : Try) (cfg : SpeedtestCfg) (w n : Option (List Try × ℕ))
    → (w' n' : Option (ℕ × SpeedtestCfg)) → w' ≡ w >>= counted_all cfg
    → n' ≡ n >>= counted_all (count_sent t cfg)
    → (if waits then w' else if stops then some (t.jiffies, count_sent t cfg) else n')
      ≡ (if waits
          then w
          else if stops
          then some (t ∷ [], t.jiffies)
          else n >>= (λ (sent, jiffies). some (t ∷ sent, jiffies)))
        >>= counted_all cfg
iteration true stops t cfg w n w' n' p q = p
iteration false true t cfg w n w' n' p q = refl
iteration false false t cfg w none w' n' p q = q
iteration false false t cfg w (some n) w' n' p q = q

-- The loop's end is that of its tries.
send_loop-tries :
    (k : Clock) (ns end_time : ℕ) (paced : Bool) (speed_time : ℕ) (tries : List Try)
    → (cfg : SpeedtestCfg)
    → send_loop k ns end_time paced speed_time tries cfg
      ≡ loop_tries k ns end_time paced speed_time tries >>= counted_all cfg
unfolding send_loop loop_tries
send_loop-tries k ns end_time paced speed_time [] cfg = refl
send_loop-tries k ns end_time paced speed_time (t ∷ tries) cfg =
    iteration (paced && not (ltb speed_time t.timens)) (t.should_stop || ltb end_time t.jiffies) t
      cfg _ _ _ _ (send_loop-tries k ns end_time paced speed_time tries cfg)
      (send_loop-tries k ns end_time paced ((ns + t.timens) % 2 ^ k.long_bits) tries
        (count_sent t cfg))

module _ (c : Checksums) (k : Clock) where
  -- A run whose loop is left returns the fold of its tries.
  run_loop-tries :
      (jiffies timens end : ℕ) (pkt : List ℕ) (tries sent : List Try) (cfg : SpeedtestCfg)
      → (send_ns : Option ℕ)
      → send_ns >>= (λ ns.
        loop_tries k ns
          ((jiffies + cfg.dur_time * k.hz % 2 ^ 32) % 2 ^ k.long_bits)
          (ltb cfg.speed 100)
          ((ns + timens) % 2 ^ k.long_bits)
          tries)
        ≡ some (sent, end)
      → run_loop c k jiffies timens tries (begin_status c k jiffies pkt cfg) send_ns
        ≡ returned (end_thread k end (count_all sent (begin_status c k jiffies pkt cfg)))
  unfolding run_loop leave_loop begin_status
  run_loop-tries jiffies timens end pkt tries sent cfg none h = absurd (ground arith)
  run_loop-tries jiffies timens end pkt tries sent cfg (some ns) h =
      let started = begin_status c k jiffies pkt cfg in
      ap (leave_loop k) (
        send_loop-tries k ns ((jiffies + cfg.dur_time * k.hz % 2 ^ 32) % 2 ^ k.long_bits)
          (ltb cfg.speed 100) ((ns + timens) % 2 ^ k.long_bits) tries started
        ∙ ap (λ o. o >>= counted_all started) h)

  pub thread_func-tries :
      (jiffies timens end : ℕ) (tries sent : List Try) (cfg : SpeedtestCfg)
      → 42 ≤ cfg.pkt_size
      → cfg.pkt_size ≤ 65569
      → thread_tries k jiffies timens tries cfg ≡ some (sent, end)
      → speedtest_thread_func c k true true jiffies timens tries cfg
        ≡ returned (
            end_thread k end (
              count_all sent
                (begin_status c k jiffies (speedtest_bytes c cfg.port cfg.pkt_size) cfg)))
  unfolding speedtest_thread_func run_with thread_tries begin_status send_time
  thread_func-tries jiffies timens end tries sent cfg l h e =
      ap (run_with c k jiffies timens tries cfg) (make-bytes c cfg.port cfg.pkt_size l h)
      ∙ run_loop-tries jiffies timens end (speedtest_bytes c cfg.port cfg.pkt_size) tries sent cfg
          (send_time cfg) e
