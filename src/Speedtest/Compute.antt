-- ===== src/Speedtest/Compute.antt =====
-- `speedtest_compute_func` of lab/net/speedtest/speedtest.c: the thread that counts.
use quick_start.Common.{
  ℕ, List, [], ◌∷◌, Bool, ◌&&◌, ◌||◌, not, Option, none, some, drop, ltb, ◌==◌, str_eq,
  if◌then◌else◌,
}
use quick_start.Speedtest.Types.{
  st_finished, no_task, is_set, SpeedtestStatus, Skb, rcv_probe, Speedtest, add64, sub64,
}
use quick_start.Speedtest.Packet.{Checksums}
use quick_start.Speedtest.Hooks.{st0_mac, st1_mac, h_source}
use quick_start.Speedtest.Timer.{Clock, jiffies_after, speedtest_loopdetect_timer_init}

unfoldable pub lose : SpeedtestStatus → SpeedtestStatus
lose st = record st {
  pktlose_count = sub64 (sub64 st.pktsend_count st.pktrcv_count) st.pkterr_count;
  state = st_finished;
}

unfoldable pub restart_timer : Speedtest → Speedtest
restart_timer s =
    if s.st_loop_timer_enable == 0
    then s
    else speedtest_loopdetect_timer_init (record s { st_ready = 0 })

unfoldable pub lose_all : Speedtest → Speedtest
unfolding lose
lose_all s = record s {
  cfg0 = record s.cfg0 { status = lose s.cfg0.status };
  cfg1 = record s.cfg1 { status = lose s.cfg1.status };
}

-- What follows the loop.
unfoldable pub finish : Speedtest → Speedtest
unfolding restart_timer lose_all
finish s =
    lose_all
      (restart_timer (record s { comp_skbqueue = []; compute_task = no_task; rx_hook = rcv_probe }))

module _ (c : Checksums) where
  -- The checksum over what follows a tagged Ethernet header, for a packet of at least 18 bytes.
  unfoldable pub skb_csum : Skb → ℕ
  skb_csum skb = c.ip_compute_csum (drop 18 skb.bytes)

  unfoldable pub count_in : Skb → SpeedtestStatus → SpeedtestStatus
  unfolding skb_csum
  count_in skb st = record st {
    pktrcv_count = add64 st.pktrcv_count 1;
    pkterr_count = if st.pkt_csum == skb_csum skb then st.pkterr_count else add64 st.pkterr_count 1;
  }

  unfoldable pub count_pkt : Skb → Speedtest → Speedtest
  unfolding count_in
  count_pkt skb s =
      if str_eq (h_source skb) st0_mac
      then record s { cfg0 = record s.cfg0 { status = count_in skb s.cfg0.status } }
      else if str_eq (h_source skb) st1_mac
      then record s { cfg1 = record s.cfg1 { status = count_in skb s.cfg1.status } }
      else s

  -- The inner loop, over the packets of `comp_skbqueue`.
  unfoldable pub drain : List Skb → Speedtest → Speedtest
  drain [] s = record s { comp_skbqueue = [] }
  drain (skb ∷ queue) s = drain queue (count_pkt skb s)

-- What a round of the outer loop meets: what the other threads and the hooks do to the data before the
-- queue is empty, and then before the thread looks for the senders; the clock, and whether the thread is
-- to stop.
pub record Round : Type 0 where
  pub others : Speedtest → Speedtest
  pub meanwhile : Speedtest → Speedtest
  pub jiffies : ℕ
  pub should_stop : Bool

unfoldable pub is_sending : Speedtest → Bool
is_sending s = is_set s.cfg0.task || is_set s.cfg1.task

module _ (c : Checksums) (k : Clock) where
  -- The local `end_time` behind a round's drain.
  unfoldable pub next_end_time : ℕ → Bool → ℕ → ℕ
  next_end_time jiffies running end_time =
      if running then 0 else if end_time == 0 then jiffies_after k jiffies 5 else end_time

  unfoldable pub is_over : Round → Bool → ℕ → Bool
  is_over r running end_time = r.should_stop || (not running && ltb end_time r.jiffies)

  unfoldable pub drained : Round → Speedtest → Speedtest
  drained r s = r.meanwhile (drain c (r.others s).comp_skbqueue (r.others s))

  -- The thread over its rounds; `none` is a thread that still runs behind the last of them.
  unfoldable pub compute_loop : List Round → ℕ → Speedtest → Option Speedtest
  compute_loop [] end_time s = none
  compute_loop (r ∷ rounds) end_time s =
      let seen = drained r s in
      let end = next_end_time r.jiffies (is_sending seen) end_time in
      let rest = compute_loop rounds end seen in
      if is_over r (is_sending seen) end then some (finish seen) else rest

  unfoldable pub speedtest_compute_func : List Round → Speedtest → Option Speedtest
  speedtest_compute_func rounds s = compute_loop rounds 0 s
