-- ===== src/Speedtest/Sending.antt =====
-- What the sending thread of lab/net/speedtest/speedtest.c does: its rate, its count and its failures.
use native.Mathlib.Nat.{zero-div}
use quick_start.Common.{
  ℕ, suc, ◌+◌, ◌*◌, ◌/◌, ◌%◌, ◌^◌, ◌≡◌, ◌≤◌, ◌<◌, refl, ap, ◌∙◌, List, [], ◌∷◌, ◌++◌, Bool, true,
  false, Bool-cases, inl, inr, ◌&&◌, ◌||◌, not, none, some, ltb, drop, if◌then◌else◌, arith,
}
use quick_start.Speedtest.Types.{
  SpeedtestCfg, st_running, no_task, dead_task, Skb, Speedtest, is_speedtest_task_running, is_set,
}
use quick_start.Speedtest.Packet.{
  Checksums, speedtest_bytes, make_speedtest_pkt, send_speedtest_pkt,
}
use quick_start.Speedtest.Hooks.{xmit_speedtest_pkt}
use quick_start.Speedtest.Timer.{Clock}
use quick_start.Speedtest.Demux.{make-bytes}
use quick_start.Speedtest.Sender.{
  Try, pkts_per_sec, send_time, count_sent, end_thread, send_loop, zero_division, returned,
  leave_loop, begin_status, run_loop, run_with, speedtest_thread_func,
}

-- Whether an iteration sends a packet.
abbrev pub is_sent : Try → Bool
is_sent t = t.cloned && t.taken

abbrev pub sends : List Try → ℕ
sends [] = 0
sends (t ∷ tries) = if is_sent t then suc (sends tries) else sends tries

-- The configuration with `n` more packets sent.
abbrev pub sent_more : ℕ → SpeedtestCfg → SpeedtestCfg
sent_more n cfg = record cfg {
  status = record cfg.status { pktsend_count = (cfg.status.pktsend_count + n) % 2 ^ 64 };
}

-- Whether a loop goes on behind an iteration.
abbrev pub goes_on : ℕ → Try → Bool
goes_on end_time t = not (t.should_stop || ltb end_time t.jiffies)

abbrev pub all_go_on : ℕ → List Try → Bool
all_go_on end_time [] = true
all_go_on end_time (t ∷ tries) = goes_on end_time t && all_go_on end_time tries

sent_more-eq :
    (cfg : SpeedtestCfg) (a b : ℕ)
    → a ≡ b
    → record cfg { status = record cfg.status { pktsend_count = a } }
      ≡ record cfg { status = record cfg.status { pktsend_count = b } }
sent_more-eq cfg a b h = rw h refl

module _ (k : Clock) (ns end_time : ℕ) where
  sent_more-count :
      (t : Try) (tries : List Try) (cfg : SpeedtestCfg)
      → sent_more (sends tries) (count_sent t cfg) ≡ sent_more (sends (t ∷ tries)) cfg
  unfolding count_sent send_speedtest_pkt
  sent_more-count t tries cfg = elim (Bool-cases (is_sent t)) [
    | inl h ↦ rw h (sent_more-eq cfg _ _ (omega arith))
    | inr h ↦ rw h refl
  ]

  sent_more-zero : (cfg : SpeedtestCfg) → cfg.status.pktsend_count < 2 ^ 64 → cfg ≡ sent_more 0 cfg
  sent_more-zero cfg w = sent_more-eq cfg cfg.status.pktsend_count _ (omega arith)

  count_sent-lt :
      (t : Try) (cfg : SpeedtestCfg)
      → cfg.status.pktsend_count < 2 ^ 64
      → (count_sent t cfg).status.pktsend_count < 2 ^ 64
  unfolding count_sent
  count_sent-lt t cfg w = ground arith

  -- One iteration at full speed.
  full_step :
      (speed_time : ℕ) (t : Try) (tries : List Try) (cfg : SpeedtestCfg)
      → (goes_on end_time t ≡ true
          → send_loop k ns end_time false speed_time (t ∷ tries) cfg
            ≡ send_loop k ns end_time false
                ((ns + t.timens) % 2 ^ k.long_bits)
                tries
                (count_sent t cfg))
        × (goes_on end_time t ≡ false
            → send_loop k ns end_time false speed_time (t ∷ tries) cfg
              ≡ some (t.jiffies, count_sent t cfg))
  unfolding send_loop
  full_step speed_time t tries cfg = ((λ h. ground arith), (λ h. ground arith))

  full_loop :
      (tries : List Try) (speed_time : ℕ) (last : Try) (cfg : SpeedtestCfg)
      → cfg.status.pktsend_count < 2 ^ 64
      → all_go_on end_time tries ≡ true
      → goes_on end_time last ≡ false
      → send_loop k ns end_time false speed_time (tries ++ last ∷ []) cfg
        ≡ some (last.jiffies, sent_more (sends (tries ++ last ∷ [])) cfg)
  full_loop [] speed_time last cfg w h h' =
      (full_step speed_time last [] cfg).1 h'
      ∙ ap (λ e. some (last.jiffies, e))
          (sent_more-zero (count_sent last cfg) (count_sent-lt last cfg w)
            ∙ sent_more-count last [] cfg)
  full_loop (t ∷ tries) speed_time last cfg w h h' =
      (full_step speed_time t (tries ++ last ∷ []) cfg).0 (ground arith)
      ∙ full_loop tries ((ns + t.timens) % 2 ^ k.long_bits) last (count_sent t cfg)
          (count_sent-lt t cfg w) (ground arith) h'
      ∙ ap (λ e. some (last.jiffies, e)) (sent_more-count t (tries ++ last ∷ []) cfg)

pub send_time-some :
    (cfg : SpeedtestCfg)
    → 0 < pkts_per_sec cfg
    → send_time cfg ≡ some (1000000000 / pkts_per_sec cfg)
unfolding send_time
send_time-some cfg p = ground arith

send_time-none : (cfg : SpeedtestCfg) → pkts_per_sec cfg ≡ 0 → send_time cfg ≡ none
unfolding send_time
send_time-none cfg p = ground arith

pkts_per_sec-zero : (cfg : SpeedtestCfg) (n : ℕ) → cfg.speed ≡ 4096 * n → pkts_per_sec cfg ≡ 0
unfolding pkts_per_sec
pkts_per_sec-zero cfg n v =
    let eighth : cfg.speed * 1024 * 1024 % 2 ^ 32 / 8 ≡ 0 = omega (arith, v) in
    rw eighth (zero-div cfg.pkt_size)

fast : (cfg : SpeedtestCfg) → 100 ≤ cfg.speed → ltb cfg.speed 100 ≡ false
fast cfg v = ground arith

module _ (c : Checksums) (k : Clock) where
  -- At 100 Mbit/s or more, with a size that fits and a rate of at least a packet per second in 32 bits,
  -- the sender runs until the first iteration behind which it is to stop or the time is over, and then
  -- returns: its count has grown by just the packets that the device has taken, the checksum of its
  -- packet behind the Ethernet header and the times of its start and end in seconds are stored, its
  -- task is given up, and the direction is switched off.
  pub thread_func-full_speed :
      (jiffies timens : ℕ) (tries : List Try) (last : Try) (cfg : SpeedtestCfg)
      → 42 ≤ cfg.pkt_size
      → cfg.pkt_size ≤ 65569
      → 100 ≤ cfg.speed
      → 0 < pkts_per_sec cfg
      → cfg.status.pktsend_count < 2 ^ 64
      → all_go_on ((jiffies + cfg.dur_time * k.hz % 2 ^ 32) % 2 ^ k.long_bits) tries ≡ true
      → goes_on ((jiffies + cfg.dur_time * k.hz % 2 ^ 32) % 2 ^ k.long_bits) last ≡ false
      → speedtest_thread_func c k true true jiffies timens (tries ++ last ∷ []) cfg
        ≡ returned (record cfg {
          task = no_task;
          enable = 0;
          status = record cfg.status {
            state = st_running;
            pkt_csum = c.ip_compute_csum (drop 14 (speedtest_bytes c cfg.port cfg.pkt_size));
            begin_time = jiffies / k.hz % 2 ^ 32;
            end_time = last.jiffies / k.hz % 2 ^ 32;
            pktsend_count = (cfg.status.pktsend_count + sends (tries ++ last ∷ [])) % 2 ^ 64;
          };
        })
  unfolding speedtest_thread_func run_with run_loop leave_loop begin_status end_thread
  thread_func-full_speed jiffies timens tries last cfg l h v p w g g' =
      ap (run_with c k jiffies timens (tries ++ last ∷ []) cfg)
        (make-bytes c cfg.port cfg.pkt_size l h)
      ∙ ap
          (run_loop c k jiffies timens (tries ++ last ∷ [])
            (begin_status c k jiffies (speedtest_bytes c cfg.port cfg.pkt_size) cfg))
          (send_time-some cfg p)
      ∙ ap
          (λ b. leave_loop k (
            send_loop k (1000000000 / pkts_per_sec cfg)
              ((jiffies + cfg.dur_time * k.hz % 2 ^ 32) % 2 ^ k.long_bits) b
              ((1000000000 / pkts_per_sec cfg + timens) % 2 ^ k.long_bits) (tries ++ last ∷ [])
              (begin_status c k jiffies (speedtest_bytes c cfg.port cfg.pkt_size) cfg)))
          (fast cfg v)
      ∙ ap (leave_loop k) (
          full_loop k (1000000000 / pkts_per_sec cfg)
            ((jiffies + cfg.dur_time * k.hz % 2 ^ 32) % 2 ^ k.long_bits) tries
            ((1000000000 / pkts_per_sec cfg + timens) % 2 ^ k.long_bits) last
            (begin_status c k jiffies (speedtest_bytes c cfg.port cfg.pkt_size) cfg) w g g')

  -- A speed that is a multiple of 4096 Mbit/s, 0 included, is 0 in the 32 bits of its bytes per second:
  -- the sender divides by 0.
  pub thread_func-zero_division :
      (jiffies timens n : ℕ) (tries : List Try) (cfg : SpeedtestCfg)
      → 42 ≤ cfg.pkt_size
      → cfg.pkt_size ≤ 65569
      → cfg.speed ≡ 4096 * n
      → speedtest_thread_func c k true true jiffies timens tries cfg ≡ zero_division
  unfolding speedtest_thread_func run_with run_loop begin_status
  thread_func-zero_division jiffies timens n tries cfg l h v =
      ap (run_with c k jiffies timens tries cfg) (make-bytes c cfg.port cfg.pkt_size l h)
      ∙ ap
          (run_loop c k jiffies timens tries
            (begin_status c k jiffies (speedtest_bytes c cfg.port cfg.pkt_size) cfg))
          (send_time-none cfg (pkts_per_sec-zero cfg n v))

  -- A sender that gets no packet, as its device or the memory is missing, returns and leaves its task
  -- set: from then on the transmit hook drops every packet.
  pub thread_func-no_packet :
      (found memory : Bool) (jiffies timens : ℕ) (tries : List Try) (skb : Skb) (s : Speedtest)
      → (found && memory) ≡ false
      → (cfg : SpeedtestCfg) × (speedtest_thread_func c k found memory jiffies timens tries s.cfg0
          ≡ returned cfg)
        × (xmit_speedtest_pkt skb (record s { cfg0 = cfg }) ≡ 0)
  unfolding speedtest_thread_func run_with make_speedtest_pkt xmit_speedtest_pkt
      is_speedtest_task_running is_set
  thread_func-no_packet found memory jiffies timens tries skb s h =
      (record s.cfg0 { task = dead_task }, rw h refl, ground arith)
