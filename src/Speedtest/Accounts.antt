-- ===== src/Speedtest/Accounts.antt =====
-- Every packet of a test of lab/net/speedtest/speedtest.c is accounted for, whatever happens in it.
mod Events
pub mod History
use quick_start.Common.{
  ℕ, suc, ◌+◌, ◌-◌, ◌^◌, ◌≡◌, ◌≤◌, ◌<◌, refl, sym, ap, ◌∙◌, List, [], ◌∷◌, ◌++◌, Bool, true, false,
  not, Bool-cases, inl, inr, Option, length, ltb, ◌==◌, if◌then◌else◌, arith,
}
use quick_start.Speedtest.Types.{
  SpeedtestCfg, SpeedtestStatus, Skb, Speedtest, RxHook, fast_rcv, is_set,
}
use quick_start.Speedtest.Packet.{Checksums, send_speedtest_pkt}
use quick_start.Speedtest.Hooks.{speedtest_skbqueue_len, fast_rcv_speedtest_pkt}
use quick_start.Speedtest.Timer.{Clock}
use quick_start.Speedtest.Compute.{drain, lose}
use quick_start.Speedtest.Sender.{Try, count_sent, end_thread, begin_status}
use quick_start.Speedtest.Timer.{Clock}
use quick_start.Speedtest.System.{received}
use quick_start.Speedtest.Demux.{PortTag, tagged}
use quick_start.Speedtest.Counts.{from0, from1, count, is_bad, counted, drain_lem, tallied}
use quick_start.Speedtest.Loopback.{
  Arrival, first, second, firsts, seconds, looped, pkt0, pkt1, sum0, sum1, from0-looped,
  from1-looped, is_bad-looped,
}
use quick_start.Speedtest.Wire.{
  Wire, Event, sends0, sends1, ends0, ends1, returns0, returns1, vanishes0, vanishes1, counts,
  gone_behind, flying_behind, happens, history,
}
use quick_start.Speedtest.Conserves.{
  IsBalanced, sent-IsBalanced, rest-IsBalanced, vanished-IsBalanced, queued-IsBalanced,
  counted-IsBalanced, balanced-IsWord,
}

-- One more arrival.
pub first-append :
    (arrivals : List Arrival) (t : PortTag) (dev : Option (List ℕ))
    → (firsts (arrivals ++ first t dev ∷ []) ≡ suc (firsts arrivals))
      × (seconds (arrivals ++ first t dev ∷ []) ≡ seconds arrivals)
first-append [] t dev = (refl, refl)
first-append (first t' dev' ∷ arrivals) t dev =
    let (p, q) = first-append arrivals t dev in (ap suc p, q)
first-append (second t' dev' ∷ arrivals) t dev =
    let (p, q) = first-append arrivals t dev in (p, ap suc q)

pub second-append :
    (arrivals : List Arrival) (t : PortTag) (dev : Option (List ℕ))
    → (firsts (arrivals ++ second t dev ∷ []) ≡ firsts arrivals)
      × (seconds (arrivals ++ second t dev ∷ []) ≡ suc (seconds arrivals))
second-append [] t dev = (refl, refl)
second-append (first t' dev' ∷ arrivals) t dev =
    let (p, q) = second-append arrivals t dev in (ap suc p, q)
second-append (second t' dev' ∷ arrivals) t dev =
    let (p, q) = second-append arrivals t dev in (p, ap suc q)

pub received-fast :
    (k : Clock) (hook : RxHook) (skb : Skb) (s : Speedtest)
    → hook ≡ fast_rcv
    → (ltb (length s.comp_skbqueue) (speedtest_skbqueue_len k) ≡ true
        → (received k hook skb s).1 ≡ record s { comp_skbqueue = s.comp_skbqueue ++ skb ∷ [] })
      × (ltb (length s.comp_skbqueue) (speedtest_skbqueue_len k) ≡ false
          → (received k hook skb s).1 ≡ s)
unfolding received fast_rcv_speedtest_pkt
received-fast k hook skb s e = rw e ((λ h. rw h refl), (λ h. rw h refl))

module _ (c : Checksums) (size : ℕ) where
  -- A wire in a test: packets go to the queue, which holds packets of the test only, and each direction
  -- is balanced.
  abbrev pub IsAccounted : ℕ → Wire → Type 0
  IsAccounted left w =
      (arrivals : List Arrival) × (w.speedtest.rx_hook ≡ fast_rcv)
      × (w.speedtest.comp_skbqueue ≡ looped c size size arrivals)
      × IsBalanced (sum0 c size size) left (firsts arrivals) w.flying0 w.gone0
          w.speedtest.cfg0.status
      × IsBalanced (sum1 c size size) left (seconds arrivals) w.flying1 w.gone1
          w.speedtest.cfg1.status

  pub looped-append :
      (arrivals : List Arrival) (a : Arrival)
      → looped c size size (arrivals ++ a ∷ [])
        ≡ looped c size size arrivals ++ looped c size size (a ∷ [])
  looped-append [] a = refl
  looped-append (first t dev ∷ arrivals) a =
      ap (◌∷◌ (tagged t dev (pkt0 c size size))) (looped-append arrivals a)
  looped-append (second t dev ∷ arrivals) a =
      ap (◌∷◌ (tagged t dev (pkt1 c size size))) (looped-append arrivals a)

  pub rest-IsAccounted : (left : ℕ) (w : Wire) → IsAccounted (suc left) w → IsAccounted left w
  rest-IsAccounted left w (arrivals, h, q, b0, b1) = (
    arrivals,
    h,
    q,
    rest-IsBalanced _ left _ w.flying0 w.gone0 w.speedtest.cfg0.status b0,
    rest-IsBalanced _ left _ w.flying1 w.gone1 w.speedtest.cfg1.status b1,
  )

  -- An event that is possible only under a test.
  pub tested-IsAccounted :
      (test : Bool) (left : ℕ) (w w' : Wire)
      → IsAccounted (suc left) w
      → (test ≡ true → IsAccounted left w')
      → IsAccounted left (if test then w' else w)
  tested-IsAccounted true left w w' a h = h refl
  tested-IsAccounted false left w w' a h = rest-IsAccounted left w a

  pub ltb-lt : (n : ℕ) → ltb 0 n ≡ true → 0 < n
  ltb-lt n h = ground arith
