-- ===== src/Speedtest/Accounts/Events.antt =====
-- The sends, ends, returns and losses of a test of lab/net/speedtest/speedtest.c keep its accounts.
use quick_start.Common.{
  ℕ, suc, refl, List, [], ◌∷◌, ◌++◌, Bool-cases, inl, inr, Option, length, ltb,
}
use quick_start.Speedtest.Types.{is_set}
use quick_start.Speedtest.Packet.{Checksums}
use quick_start.Speedtest.Hooks.{speedtest_skbqueue_len}
use quick_start.Speedtest.Timer.{Clock}
use quick_start.Speedtest.Sender.{Try, end_thread}
use quick_start.Speedtest.Demux.{PortTag, tagged}
use quick_start.Speedtest.Loopback.{first, second, pkt0, pkt1}
use quick_start.Speedtest.Wire.{
  Wire, sends0, sends1, ends0, ends1, returns0, returns1, vanishes0, vanishes1, happens,
}
use quick_start.Speedtest.Conserves.{
  sent-IsBalanced, rest-IsBalanced, vanished-IsBalanced, queued-IsBalanced,
}
use quick_start.Speedtest.Accounts.{
  IsAccounted, first-append, second-append, received-fast, looped-append, rest-IsAccounted,
  tested-IsAccounted, ltb-lt,
}

module _ (c : Checksums) (k : Clock) (size : ℕ) where
  pub sends-IsAccounted :
      (t : Try) (left : ℕ) (w : Wire)
      → IsAccounted c size (suc left) w
      → IsAccounted c size left (happens c k size (sends0 t) w)
        × IsAccounted c size left (happens c k size (sends1 t) w)
  unfolding happens
  sends-IsAccounted t left w (arrivals, h, q, b0, b1) = (
    tested-IsAccounted c size (is_set w.speedtest.cfg0.task) left w _ (arrivals, h, q, b0, b1)
        (λ e. (
          arrivals,
          h,
          q,
          sent-IsBalanced _ t left _ w.flying0 w.gone0 w.speedtest.cfg0 b0,
          rest-IsBalanced _ left _ w.flying1 w.gone1 w.speedtest.cfg1.status b1,
        )),
    tested-IsAccounted c size (is_set w.speedtest.cfg1.task) left w _ (arrivals, h, q, b0, b1)
        (λ e. (
          arrivals,
          h,
          q,
          rest-IsBalanced _ left _ w.flying0 w.gone0 w.speedtest.cfg0.status b0,
          sent-IsBalanced _ t left _ w.flying1 w.gone1 w.speedtest.cfg1 b1,
        )),
  )

  pub ends-IsAccounted :
      (jiffies left : ℕ) (w : Wire)
      → IsAccounted c size (suc left) w
      → IsAccounted c size left (happens c k size (ends0 jiffies) w)
        × IsAccounted c size left (happens c k size (ends1 jiffies) w)
  unfolding happens end_thread
  ends-IsAccounted jiffies left w a =
      (rest-IsAccounted c size left w a, rest-IsAccounted c size left w a)

  pub vanishes-IsAccounted :
      (left : ℕ) (w : Wire)
      → IsAccounted c size (suc left) w
      → IsAccounted c size left (happens c k size vanishes0 w)
        × IsAccounted c size left (happens c k size vanishes1 w)
  unfolding happens
  vanishes-IsAccounted left w (arrivals, h, q, b0, b1) = (
    tested-IsAccounted c size (ltb 0 w.flying0) left w _ (arrivals, h, q, b0, b1)
        (λ e. (
          arrivals,
          h,
          q,
          vanished-IsBalanced _ left _ w.flying0 w.gone0 w.speedtest.cfg0.status b0
              (ltb-lt c size w.flying0 e),
          rest-IsBalanced _ left _ w.flying1 w.gone1 w.speedtest.cfg1.status b1,
        )),
    tested-IsAccounted c size (ltb 0 w.flying1) left w _ (arrivals, h, q, b0, b1)
        (λ e. (
          arrivals,
          h,
          q,
          rest-IsBalanced _ left _ w.flying0 w.gone0 w.speedtest.cfg0.status b0,
          vanished-IsBalanced _ left _ w.flying1 w.gone1 w.speedtest.cfg1.status b1
              (ltb-lt c size w.flying1 e),
        )),
  )

  -- A packet that comes in is in the queue, or gone as the queue is full.
  pub returns0-IsAccounted :
      (t : PortTag) (dev : Option (List ℕ)) (left : ℕ) (w : Wire)
      → IsAccounted c size (suc left) w
      → IsAccounted c size left (happens c k size (returns0 t dev) w)
  unfolding happens
  returns0-IsAccounted t dev left w (arrivals, h, q, b0, b1) =
      let skb = tagged t dev (pkt0 c size size) in
      let (room, full) = received-fast k w.speedtest.rx_hook skb w.speedtest h in
      tested-IsAccounted c size (ltb 0 w.flying0) left w _ (arrivals, h, q, b0, b1)
        (λ p.
          elim (Bool-cases (ltb (length w.speedtest.comp_skbqueue) (speedtest_skbqueue_len k))) [
            | inl e ↦
                rw (room e, e)
                  (
                    arrivals ++ first t dev ∷ [],
                    h,
                    rw (looped-append c size arrivals (first t dev), q) refl,
                    rw (first-append arrivals t dev).0 (
                        queued-IsBalanced _ left _ w.flying0 w.gone0 w.speedtest.cfg0.status b0
                          (ltb-lt c size w.flying0 p)),
                    rw (first-append arrivals t dev).1
                        (rest-IsBalanced _ left _ w.flying1 w.gone1 w.speedtest.cfg1.status b1),
                  )
            | inr e ↦
                rw (full e, e)
                  (
                    arrivals,
                    h,
                    q,
                    vanished-IsBalanced _ left _ w.flying0 w.gone0 w.speedtest.cfg0.status b0
                        (ltb-lt c size w.flying0 p),
                    rest-IsBalanced _ left _ w.flying1 w.gone1 w.speedtest.cfg1.status b1,
                  )
          ])

  pub returns1-IsAccounted :
      (t : PortTag) (dev : Option (List ℕ)) (left : ℕ) (w : Wire)
      → IsAccounted c size (suc left) w
      → IsAccounted c size left (happens c k size (returns1 t dev) w)
  unfolding happens
  returns1-IsAccounted t dev left w (arrivals, h, q, b0, b1) =
      let skb = tagged t dev (pkt1 c size size) in
      let (room, full) = received-fast k w.speedtest.rx_hook skb w.speedtest h in
      tested-IsAccounted c size (ltb 0 w.flying1) left w _ (arrivals, h, q, b0, b1)
        (λ p.
          elim (Bool-cases (ltb (length w.speedtest.comp_skbqueue) (speedtest_skbqueue_len k))) [
            | inl e ↦
                rw (room e, e)
                  (
                    arrivals ++ second t dev ∷ [],
                    h,
                    rw (looped-append c size arrivals (second t dev), q) refl,
                    rw (second-append arrivals t dev).0
                        (rest-IsBalanced _ left _ w.flying0 w.gone0 w.speedtest.cfg0.status b0),
                    rw (second-append arrivals t dev).1 (
                        queued-IsBalanced _ left _ w.flying1 w.gone1 w.speedtest.cfg1.status b1
                          (ltb-lt c size w.flying1 p)),
                  )
            | inr e ↦
                rw (full e, e)
                  (
                    arrivals,
                    h,
                    q,
                    rest-IsBalanced _ left _ w.flying0 w.gone0 w.speedtest.cfg0.status b0,
                    vanished-IsBalanced _ left _ w.flying1 w.gone1 w.speedtest.cfg1.status b1
                        (ltb-lt c size w.flying1 p),
                  )
          ])
