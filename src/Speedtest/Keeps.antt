-- ===== src/Speedtest/Keeps.antt =====
-- What the end of the counting thread of lab/net/speedtest/speedtest.c leaves as it was.
use quick_start.Common.{◌≡◌, refl, ◌∙◌, List, [], ◌∷◌, arith}
use quick_start.Speedtest.Types.{Skb, rcv_probe, Speedtest}
use quick_start.Speedtest.Packet.{Checksums}
use quick_start.Speedtest.Timer.{speedtest_loopdetect_timer_init}
use quick_start.Speedtest.Compute.{count_pkt, drain, finish, restart_timer, lose_all}

module _ (c : Checksums) where
  count_pkt-keeps :
      (skb : Skb) (s : Speedtest)
      → ((count_pkt c skb s).cfg0.task ≡ s.cfg0.task)
        × ((count_pkt c skb s).cfg1.task ≡ s.cfg1.task)
  unfolding count_pkt
  count_pkt-keeps skb s = ground arith

  pub drain-keeps :
      (skbs : List Skb) (s : Speedtest)
      → ((drain c skbs s).cfg0.task ≡ s.cfg0.task) × ((drain c skbs s).cfg1.task ≡ s.cfg1.task)
  unfolding drain
  drain-keeps [] s = (refl, refl)
  drain-keeps (skb ∷ skbs) s =
      let (a, b) = drain-keeps skbs (count_pkt c skb s) in
      let (a', b') = count_pkt-keeps skb s in (a ∙ a', b ∙ b')

  -- The counting thread's end leaves the two tasks, and puts the hook for probes back.
  pub finish-keeps :
      (s : Speedtest)
      → ((finish s).cfg0.task ≡ s.cfg0.task)
        × ((finish s).cfg1.task ≡ s.cfg1.task)
        × ((finish s).rx_hook ≡ rcv_probe)
  unfolding finish restart_timer lose_all speedtest_loopdetect_timer_init
  finish-keeps s = ground arith
