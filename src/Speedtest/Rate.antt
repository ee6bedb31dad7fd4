-- ===== src/Speedtest/Rate.antt =====
-- The rate of the paced loop of `speedtest_thread_func`, in lab/net/speedtest/speedtest.c.
use native.Mathlib.Nat.{mod-eq_of_lt, mul-le-mul_right, suc-mul}
use quick_start.Common.{
  ℕ, ◌+◌, ◌*◌, ◌/◌, ◌%◌, ◌^◌, ◌≡◌, ◌≤◌, ◌<◌, refl, sym, ap, ◌∙◌, List, [], ◌∷◌, ◌++◌, Bool, true,
  false, Bool-cases, inl, inr, ◌&&◌, ◌||◌, Option, none, some, ltb, leb, arith,
}
use quick_start.Speedtest.Types.{SpeedtestCfg, no_task}
use quick_start.Speedtest.Packet.{Checksums, speedtest_bytes}
use quick_start.Speedtest.Timer.{Clock}
use quick_start.Speedtest.Demux.{make-bytes}
use quick_start.Speedtest.Sending.{send_time-some}
use quick_start.Speedtest.Sender.{
  Try, pkts_per_sec, count_sent, send_loop, end_thread, returned, leave_loop, begin_status,
  run_loop, run_with, speedtest_thread_func,
}

-- Whether no iteration is later than a time.
abbrev pub all_until : ℕ → List Try → Bool
all_until last [] = true
all_until last (t ∷ tries) = leb t.timens last && all_until last tries

abbrev pub sent_count : Option (ℕ × SpeedtestCfg) → ℕ
sent_count none = 0
sent_count (some (jiffies, cfg)) = cfg.status.pktsend_count

count_sent-le :
    (t : Try) (cfg : SpeedtestCfg)
    → (count_sent t cfg).status.pktsend_count ≤ cfg.status.pktsend_count + 1
unfolding count_sent
count_sent-le t cfg = ground arith

mul_suc_le : (a b n : ℕ) → a ≤ b + 1 → a * n ≤ b * n + n
mul_suc_le a b n h = omega (arith, mul-le-mul_right n h, suc-mul b n)

pos_mul : (n : ℕ) → 0 * n ≡ 0
pos_mul n = omega arith

module _ (k : Clock) (ns end_time last : ℕ) where
  abbrev loop : ℕ → List Try → SpeedtestCfg → Option (ℕ × SpeedtestCfg)
  loop = send_loop k ns end_time true

  -- The three cases of an iteration.
  loop-wait :
      (speed_time : ℕ) (t : Try) (tries : List Try) (cfg : SpeedtestCfg)
      → ltb speed_time t.timens ≡ false
      → loop speed_time (t ∷ tries) cfg ≡ loop speed_time tries cfg
  unfolding send_loop
  loop-wait speed_time t tries cfg h = rw h refl

  loop-end :
      (speed_time : ℕ) (t : Try) (tries : List Try) (cfg : SpeedtestCfg)
      → ltb speed_time t.timens ≡ true
      → (t.should_stop || ltb end_time t.jiffies) ≡ true
      → loop speed_time (t ∷ tries) cfg ≡ some (t.jiffies, count_sent t cfg)
  unfolding send_loop
  loop-end speed_time t tries cfg h h' = rw (h, h') refl

  loop-next :
      (speed_time : ℕ) (t : Try) (tries : List Try) (cfg : SpeedtestCfg)
      → ltb speed_time t.timens ≡ true
      → (t.should_stop || ltb end_time t.jiffies) ≡ false
      → loop speed_time (t ∷ tries) cfg
        ≡ loop ((ns + t.timens) % 2 ^ k.long_bits) tries (count_sent t cfg)
  unfolding send_loop
  loop-next speed_time t tries cfg h h' = rw (h, h') refl

  next_time :
      (t : Try)
      → last + ns < 2 ^ k.long_bits
      → leb t.timens last ≡ true
      → (ns + t.timens) % 2 ^ k.long_bits ≡ ns + t.timens
  next_time t w h = mod-eq_of_lt (ground arith)

  loop-nil :
      (speed_time : ℕ) (cfg : SpeedtestCfg)
      → speed_time ≤ last + ns
      → sent_count (loop speed_time [] cfg) * ns + speed_time
        ≤ cfg.status.pktsend_count * ns + last + ns
  unfolding send_loop
  loop-nil speed_time cfg l = omega arith

  -- No more packets go out than have their time between two.
  loop-rate :
      (tries : List Try) (speed_time : ℕ) (cfg : SpeedtestCfg)
      → last + ns < 2 ^ k.long_bits
      → speed_time ≤ last + ns
      → all_until last tries ≡ true
      → sent_count (loop speed_time tries cfg) * ns + speed_time
        ≤ cfg.status.pktsend_count * ns + last + ns
  loop-rate [] speed_time cfg w l u = loop-nil speed_time cfg l
  loop-rate (t ∷ tries) speed_time cfg w l u =
      let u' : all_until last tries ≡ true = ground arith in
      let le : leb t.timens last ≡ true = ground arith in
      let at : t.timens ≤ last = ground arith in
      let m =
        mul_suc_le (count_sent t cfg).status.pktsend_count cfg.status.pktsend_count ns
          (count_sent-le t cfg) in
      elim (Bool-cases (ltb speed_time t.timens)) [
        | inr h ↦ rw (loop-wait speed_time t tries cfg h) (loop-rate tries speed_time cfg w l u')
        | inl h ↦
            let lt : speed_time < t.timens = ground arith in
            elim (Bool-cases (t.should_stop || ltb end_time t.jiffies)) [
              | inl h' ↦ rw (loop-end speed_time t tries cfg h h') (omega arith)
              | inr h' ↦
                  let ih = loop-rate tries (ns + t.timens) (count_sent t cfg) w (omega arith) u' in
                  rw (loop-next speed_time t tries cfg h h', next_time t w le) (omega arith)
            ]
      ]

  -- The loop is left by an iteration that is late enough and is to stop, if not before.
  loop-stops :
      (tries : List Try) (speed_time : ℕ) (t : Try) (cfg : SpeedtestCfg)
      → last + ns < 2 ^ k.long_bits
      → speed_time ≤ last + ns
      → all_until last tries ≡ true
      → last + ns < t.timens
      → t.should_stop ≡ true
      → (r : ℕ × SpeedtestCfg) × (loop speed_time (tries ++ t ∷ []) cfg ≡ some r)
  loop-stops [] speed_time t cfg w l u late stop =
      ((t.jiffies, count_sent t cfg), loop-end speed_time t [] cfg (ground arith) (rw stop refl))
  loop-stops (x ∷ tries) speed_time t cfg w l u late stop =
      let u' : all_until last tries ≡ true = ground arith in
      let le : leb x.timens last ≡ true = ground arith in
      let at : x.timens ≤ last = ground arith in
      elim (Bool-cases (ltb speed_time x.timens)) [
        | inr h ↦
            let (r, e) = loop-stops tries speed_time t cfg w l u' late stop in
            (r, loop-wait speed_time x (tries ++ t ∷ []) cfg h ∙ e)
        | inl h ↦ elim (Bool-cases (x.should_stop || ltb end_time x.jiffies)) [
          | inl h' ↦
              ((x.jiffies, count_sent x cfg), loop-end speed_time x (tries ++ t ∷ []) cfg h h')
          | inr h' ↦
              let (r, e) =
                loop-stops tries (ns + x.timens) t (count_sent x cfg) w (omega arith) u' late
                  stop in
              (
                r,
                loop-next speed_time x (tries ++ t ∷ []) cfg h h'
                    ∙ ap (λ n. loop n (tries ++ t ∷ []) (count_sent x cfg)) (next_time x w le)
                    ∙ e,
              )
        ]
      ]

all_until-append :
    (m n : ℕ) (tries : List Try) (t : Try)
    → m ≤ n
    → all_until m tries ≡ true
    → t.timens ≤ n
    → all_until n (tries ++ t ∷ []) ≡ true
all_until-append m n [] t l u h = ground arith
all_until-append m n (x ∷ tries) t l u h =
    ground (arith, all_until-append m n tries t l (ground arith) h)

-- The nanoseconds between two packets of a direction.
abbrev pub gap : SpeedtestCfg → ℕ
gap cfg = 1000000000 / pkts_per_sec cfg

slow : (cfg : SpeedtestCfg) → cfg.speed < 100 → ltb cfg.speed 100 ≡ true
slow cfg v = ground arith

module _ (c : Checksums) (k : Clock) where
  -- Below 100 Mbit/s, with a size that fits and a rate of at least a packet per second in 32 bits, on a
  -- clock of nanoseconds that does not run over: once an iteration that is to stop comes later than
  -- the gap of two packets after the others, the sender has returned, with its task given up; and the
  -- packets it has sent, times the gap, do not exceed the time since its start.
  pub thread_func-rate :
      (jiffies timens last : ℕ) (tries : List Try) (t : Try) (cfg : SpeedtestCfg)
      → 42 ≤ cfg.pkt_size
      → cfg.pkt_size ≤ 65569
      → cfg.speed < 100
      → 0 < pkts_per_sec cfg
      → timens ≤ last
      → all_until last tries ≡ true
      → last + gap cfg < t.timens
      → t.timens + gap cfg < 2 ^ k.long_bits
      → t.should_stop ≡ true
      → (result : SpeedtestCfg) × (speedtest_thread_func c k true true jiffies timens
            (tries ++ t ∷ [])
            cfg
          ≡ returned result)
        × (result.task ≡ no_task)
        × (result.status.pktsend_count * gap cfg + timens
            ≤ cfg.status.pktsend_count * gap cfg + t.timens)
  unfolding speedtest_thread_func run_with run_loop leave_loop begin_status end_thread
  thread_func-rate jiffies timens last tries t cfg l h v p b u late w stop =
      let started = begin_status c k jiffies (speedtest_bytes c cfg.port cfg.pkt_size) cfg in
      let end = (jiffies + cfg.dur_time * k.hz % 2 ^ 32) % 2 ^ k.long_bits in
      let all = tries ++ t ∷ [] in
      let first : (gap cfg + timens) % 2 ^ k.long_bits ≡ gap cfg + timens =
        mod-eq_of_lt (omega arith) in
      let ((j, left), e) =
        loop-stops k (gap cfg) end last tries (gap cfg + timens) t started (omega arith)
          (omega arith) u late stop in
      let rate =
        loop-rate k (gap cfg) end t.timens all (gap cfg + timens) started w (omega arith)
          (all_until-append last t.timens tries t (omega arith) u (omega arith)) in
      let bound : left.status.pktsend_count * gap cfg + (gap cfg + timens)
          ≤ started.status.pktsend_count * gap cfg + t.timens + gap cfg =
        rw (sym (ap sent_count e)) rate in
      (
        end_thread k j left,
        ap (run_with c k jiffies timens all cfg) (make-bytes c cfg.port cfg.pkt_size l h)
            ∙ ap (run_loop c k jiffies timens all started) (send_time-some cfg p)
            ∙ ap
                (λ x.
                  leave_loop k (
                    send_loop k (gap cfg) end x ((gap cfg + timens) % 2 ^ k.long_bits) all started))
                (slow cfg v)
            ∙ ap (λ n. leave_loop k (send_loop k (gap cfg) end true n all started)) first
            ∙ ap (leave_loop k) e,
        refl,
        omega (arith, bound),
      )
