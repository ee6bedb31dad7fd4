-- ===== src/Speedtest/Threads/Views.antt =====
-- What a sender of lab/net/speedtest/speedtest.c writes of its direction, which the other parts leave
-- as it is.
use quick_start.Common.{◌≡◌, refl, ap, ◌∙◌, List, [], ◌∷◌, arith}
use quick_start.Speedtest.Types.{
  st_idle, SpeedtestCfg, Skb, RxHook, no_rx, fast_rcv, rcv_probe, Speedtest,
}
use quick_start.Speedtest.Packet.{Checksums, send_speedtest_pkt}
use quick_start.Speedtest.Hooks.{fast_rcv_speedtest_pkt, rcv_speedtest_probe_pkt, free_probe_skb}
use quick_start.Speedtest.Timer.{Clock, speedtest_loopdetect_timer_init}
use quick_start.Speedtest.Compute.{
  count_in, count_pkt, drain, finish, restart_timer, lose_all, lose,
}
use quick_start.Speedtest.Sender.{Try, count_sent}
use quick_start.Speedtest.System.{received}
use quick_start.Speedtest.Threads.Sent.{count_all}

-- A direction less what the counting thread writes of it.
abbrev pub sender_view : SpeedtestCfg → SpeedtestCfg
sender_view cfg = record cfg {
  status = record cfg.status {
    state = st_idle;
    pktrcv_count = 0;
    pkterr_count = 0;
    pktlose_count = 0;
  };
}

pub received-cfgs :
    (k : Clock) (hook : RxHook) (skb : Skb) (s : Speedtest)
    → ((received k hook skb s).1.cfg0 ≡ s.cfg0) × ((received k hook skb s).1.cfg1 ≡ s.cfg1)
unfolding received fast_rcv_speedtest_pkt rcv_speedtest_probe_pkt free_probe_skb
received-cfgs k no_rx skb s = (refl, refl)
received-cfgs k fast_rcv skb s = ground arith
received-cfgs k rcv_probe skb s = ground arith

pub count_sent-view :
    (t : Try) (cfg : SpeedtestCfg)
    → (sender_view (count_sent t cfg) ≡ count_sent t (sender_view cfg))
      × ((count_sent t cfg).task ≡ cfg.task)
unfolding count_sent send_speedtest_pkt
count_sent-view t cfg = ground arith

pub count_all-view :
    (tries : List Try) (cfg : SpeedtestCfg)
    → sender_view (count_all tries cfg) ≡ count_all tries (sender_view cfg)
count_all-view [] cfg = refl
count_all-view (t ∷ tries) cfg =
    count_all-view tries (count_sent t cfg) ∙ ap (count_all tries) (count_sent-view t cfg).0

pub finish-view :
    (s : Speedtest)
    → (sender_view (finish s).cfg0 ≡ sender_view s.cfg0)
      × (sender_view (finish s).cfg1 ≡ sender_view s.cfg1)
unfolding finish restart_timer lose_all lose speedtest_loopdetect_timer_init
finish-view s = ground arith

module _ (c : Checksums) where
  count_pkt-view :
      (skb : Skb) (s : Speedtest)
      → (sender_view (count_pkt c skb s).cfg0 ≡ sender_view s.cfg0)
        × (sender_view (count_pkt c skb s).cfg1 ≡ sender_view s.cfg1)
  unfolding count_pkt count_in
  count_pkt-view skb s = ground arith

  pub drain-view :
      (skbs : List Skb) (s : Speedtest)
      → (sender_view (drain c skbs s).cfg0 ≡ sender_view s.cfg0)
        × (sender_view (drain c skbs s).cfg1 ≡ sender_view s.cfg1)
  unfolding drain
  drain-view [] s = (refl, refl)
  drain-view (skb ∷ skbs) s =
      let (a, b) = drain-view skbs (count_pkt c skb s) in
      let (a', b') = count_pkt-view skb s in (a ∙ a', b ∙ b')
