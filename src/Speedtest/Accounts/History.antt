-- ===== src/Speedtest/Accounts/History.antt =====
-- Every history of a test of lab/net/speedtest/speedtest.c keeps its accounts.
use quick_start.Common.{ℕ, suc, ◌≡◌, refl, ap, ◌∙◌, List, [], ◌∷◌, length}
use quick_start.Speedtest.Types.{fast_rcv}
use quick_start.Speedtest.Packet.{Checksums}
use quick_start.Speedtest.Timer.{Clock}
use quick_start.Speedtest.Compute.{drain}
use quick_start.Speedtest.Counts.{from0, from1, drain_lem, tallied}
use quick_start.Speedtest.Loopback.{looped, sum0, sum1, from0-looped, from1-looped, is_bad-looped}
use quick_start.Speedtest.Wire.{
  Wire, Event, sends0, sends1, ends0, ends1, returns0, returns1, vanishes0, vanishes1, counts,
  happens, history,
}
use quick_start.Speedtest.Conserves.{IsBalanced, counted-IsBalanced, balanced-IsWord}
use quick_start.Speedtest.Accounts.{IsAccounted}
use quick_start.Speedtest.Accounts.Events.{
  sends-IsAccounted, ends-IsAccounted, vanishes-IsAccounted, returns0-IsAccounted,
  returns1-IsAccounted,
}

module _ (c : Checksums) (k : Clock) (size : ℕ) where
  -- A round of the counting thread takes the queue into the counters.
  pub drain-IsBalanced :
      (left : ℕ) (w : Wire)
      → IsAccounted c size (suc left) w
      → let s = drain c w.speedtest.comp_skbqueue w.speedtest in
        (s.rx_hook ≡ fast_rcv)
        × (s.comp_skbqueue ≡ [])
        × IsBalanced (sum0 c size size) left 0 w.flying0 w.gone0 s.cfg0.status
        × IsBalanced (sum1 c size size) left 0 w.flying1 w.gone1 s.cfg1.status
  drain-IsBalanced left w (arrivals, h, q, b0, b1) =
      let skbs = looped c size size arrivals in
      let (z0, z1) = is_bad-looped c size size arrivals in
      let st0 = w.speedtest.cfg0.status in
      let st1 = w.speedtest.cfg1.status in
      let all : drain c w.speedtest.comp_skbqueue w.speedtest ≡ tallied c skbs w.speedtest =
        ap (λ xs. drain c xs w.speedtest) q
        ∙ drain_lem c skbs w.speedtest (balanced-IsWord c _ _ _ _ _ st0 b0)
            (balanced-IsWord c _ _ _ _ _ st1 b1) in
      rw all (
        h,
        refl,
        counted-IsBalanced c _ from0 skbs left _ w.flying0 w.gone0 w.speedtest.cfg0.status b0
            (from0-looped c size size arrivals) z0,
        counted-IsBalanced c _ from1 skbs left _ w.flying1 w.gone1 w.speedtest.cfg1.status b1
            (from1-looped c size size arrivals) z1,
      )

  counts-IsAccounted :
      (left : ℕ) (w : Wire)
      → IsAccounted c size (suc left) w
      → IsAccounted c size left (happens c k size counts w)
  unfolding happens
  counts-IsAccounted left w a = let (h, q, b0, b1) = drain-IsBalanced left w a in ([], h, q, b0, b1)

  pub happens-IsAccounted :
      (event : Event) (left : ℕ) (w : Wire)
      → IsAccounted c size (suc left) w
      → IsAccounted c size left (happens c k size event w)
  happens-IsAccounted (sends0 t) left w a = (sends-IsAccounted c k size t left w a).0
  happens-IsAccounted (sends1 t) left w a = (sends-IsAccounted c k size t left w a).1
  happens-IsAccounted (ends0 jiffies) left w a = (ends-IsAccounted c k size jiffies left w a).0
  happens-IsAccounted (ends1 jiffies) left w a = (ends-IsAccounted c k size jiffies left w a).1
  happens-IsAccounted (returns0 t dev) left w a = returns0-IsAccounted c k size t dev left w a
  happens-IsAccounted (returns1 t dev) left w a = returns1-IsAccounted c k size t dev left w a
  happens-IsAccounted vanishes0 left w a = (vanishes-IsAccounted c k size left w a).0
  happens-IsAccounted vanishes1 left w a = (vanishes-IsAccounted c k size left w a).1
  happens-IsAccounted counts left w a = counts-IsAccounted left w a

  pub history-IsAccounted :
      (events : List Event) (w : Wire)
      → IsAccounted c size (suc (length events)) w
      → IsAccounted c size 1 (history c k size events w)
  unfolding history
  history-IsAccounted [] w a = a
  history-IsAccounted (event ∷ events) w a =
      history-IsAccounted events (happens c k size event w)
        (happens-IsAccounted event (suc (length events)) w a)
