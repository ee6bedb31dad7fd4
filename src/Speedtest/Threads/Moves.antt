-- ===== src/Speedtest/Threads/Moves.antt =====
-- Each sender of a test of lab/net/speedtest/speedtest.c goes its own way, whatever the other parts do.
use quick_start.Common.{ℕ, ◌≡◌, refl, ap, ◌∙◌, List, [], ◌∷◌, Option, arith}
use quick_start.Speedtest.Types.{no_task, live_task, is_set, SpeedtestCfg}
use quick_start.Speedtest.Packet.{Checksums}
use quick_start.Speedtest.Timer.{Clock}
use quick_start.Speedtest.Compute.{drain}
use quick_start.Speedtest.Sender.{Try, count_sent, end_thread}
use quick_start.Speedtest.Demux.{PortTag, tagged}
use quick_start.Speedtest.Loopback.{pkt0, pkt1}
use quick_start.Speedtest.Wire.{
  Wire, sends0, sends1, returns0, returns1, vanishes0, vanishes1, happens,
}
use quick_start.Speedtest.Threads.{
  Left, left, over, Test, Move, moves0, moves1, back0, back1, lost0, lost1, Turn, move0, move1,
  moved, all_moved, count_round, turned,
}
use quick_start.Speedtest.Threads.Sent.{count_all}
use quick_start.Speedtest.Threads.Views.{sender_view, received-cfgs, count_sent-view, drain-view}

-- A sender that is on its way to a last configuration: with what it has still to do, it leaves it.
abbrev pub IsOn : Clock → SpeedtestCfg → Left → SpeedtestCfg → Type 0
IsOn k last (left tries jiffies) cfg =
    (cfg.task ≡ live_task)
    × (end_thread k jiffies (count_all tries (sender_view cfg)) ≡ sender_view last)
IsOn k last over cfg = (cfg.task ≡ no_task) × (sender_view cfg ≡ sender_view last)

module _ (k : Clock) (last : SpeedtestCfg) where
  pub IsOn-same :
      (l : Left) (cfg cfg' : SpeedtestCfg)
      → sender_view cfg' ≡ sender_view cfg
      → IsOn k last l cfg
      → IsOn k last l cfg'
  IsOn-same (left tries jiffies) cfg cfg' e (t, h) =
      (ap (λ v. v.task) e ∙ t, ap (λ v. end_thread k jiffies (count_all tries v)) e ∙ h)
  IsOn-same over cfg cfg' e (t, h) = (ap (λ v. v.task) e ∙ t, e ∙ h)

  IsOn-sends :
      (t : Try) (tries : List Try) (jiffies : ℕ) (cfg : SpeedtestCfg)
      → IsOn k last (left (t ∷ tries) jiffies) cfg
      → IsOn k last (left tries jiffies) (count_sent t cfg)
  IsOn-sends t tries jiffies cfg (l, h) =
      let (v, s) = count_sent-view t cfg in
      (s ∙ l, ap (λ v. end_thread k jiffies (count_all tries v)) v ∙ h)

  IsOn-ends :
      (jiffies : ℕ) (cfg : SpeedtestCfg)
      → IsOn k last (left [] jiffies) cfg
      → IsOn k last over (end_thread k jiffies cfg)
  unfolding end_thread
  IsOn-ends jiffies cfg (l, h) = (refl, h)

module _ (c : Checksums) (k : Clock) (size : ℕ) where
  returns-cfgs :
      (t : PortTag) (dev : Option (List ℕ)) (w : Wire)
      → let w0 = happens c k size (returns0 t dev) w in
        let w1 = happens c k size (returns1 t dev) w in
        (w0.speedtest.cfg0 ≡ w.speedtest.cfg0)
        × (w0.speedtest.cfg1 ≡ w.speedtest.cfg1)
        × (w1.speedtest.cfg0 ≡ w.speedtest.cfg0)
        × (w1.speedtest.cfg1 ≡ w.speedtest.cfg1)
  unfolding happens
  returns-cfgs t dev w =
      let (a, b) =
        received-cfgs k w.speedtest.rx_hook (tagged t dev (pkt0 c size size)) w.speedtest in
      let (a', b') =
        received-cfgs k w.speedtest.rx_hook (tagged t dev (pkt1 c size size)) w.speedtest in
      ground (arith, a, b, a', b')

  vanishes-speedtest :
      (w : Wire)
      → ((happens c k size vanishes0 w).speedtest ≡ w.speedtest)
        × ((happens c k size vanishes1 w).speedtest ≡ w.speedtest)
  unfolding happens
  vanishes-speedtest w = ground arith

  sends-cfgs :
      (t : Try) (w : Wire)
      → let w0 = happens c k size (sends0 t) w in
        let w1 = happens c k size (sends1 t) w in
        (w.speedtest.cfg0.task ≡ live_task → w0.speedtest.cfg0 ≡ count_sent t w.speedtest.cfg0)
        × (w0.speedtest.cfg1 ≡ w.speedtest.cfg1)
        × (w1.speedtest.cfg0 ≡ w.speedtest.cfg0)
        × (w.speedtest.cfg1.task ≡ live_task → w1.speedtest.cfg1 ≡ count_sent t w.speedtest.cfg1)
  unfolding happens is_set
  sends-cfgs t w = ((λ h. rw h refl), ground arith, ground arith, (λ h. rw h refl))

  module _ (last0 last1 : SpeedtestCfg) where
    -- Both senders are on their way.
    abbrev pub AreOn : Test → Type 0
    AreOn x =
        IsOn k last0 x.left0 x.wire.speedtest.cfg0 × IsOn k last1 x.left1 x.wire.speedtest.cfg1

    move0-AreOn :
        (l : Left) (x : Test)
        → IsOn k last0 l x.wire.speedtest.cfg0
        → AreOn x
        → AreOn (move0 c k size l x)
    unfolding move0 happens
    move0-AreOn (left [] jiffies) x on (a, b) =
        (IsOn-ends k last0 jiffies x.wire.speedtest.cfg0 on, b)
    move0-AreOn (left (t ∷ tries) jiffies) x on (a, b) =
        let (p, q, _, _) = sends-cfgs t x.wire in
        (rw (p on.0) (IsOn-sends k last0 t tries jiffies x.wire.speedtest.cfg0 on), rw q b)
    move0-AreOn over x on a = a

    move1-AreOn :
        (l : Left) (x : Test)
        → IsOn k last1 l x.wire.speedtest.cfg1
        → AreOn x
        → AreOn (move1 c k size l x)
    unfolding move1 happens
    move1-AreOn (left [] jiffies) x on (a, b) =
        (a, IsOn-ends k last1 jiffies x.wire.speedtest.cfg1 on)
    move1-AreOn (left (t ∷ tries) jiffies) x on (a, b) =
        let (_, _, p, q) = sends-cfgs t x.wire in
        (rw p a, rw (q on.0) (IsOn-sends k last1 t tries jiffies x.wire.speedtest.cfg1 on))
    move1-AreOn over x on a = a

    moved-AreOn : (m : Move) (x : Test) → AreOn x → AreOn (moved c k size m x)
    unfolding moved
    moved-AreOn moves0 x a = move0-AreOn x.left0 x a.0 a
    moved-AreOn moves1 x a = move1-AreOn x.left1 x a.1 a
    moved-AreOn (back0 t dev) x a = let (p, q, _, _) = returns-cfgs t dev x.wire in rw (p, q) a
    moved-AreOn (back1 t dev) x a = let (_, _, p, q) = returns-cfgs t dev x.wire in rw (p, q) a
    moved-AreOn lost0 x a = rw (vanishes-speedtest x.wire).0 a
    moved-AreOn lost1 x a = rw (vanishes-speedtest x.wire).1 a

    all_moved-AreOn : (moves : List Move) (x : Test) → AreOn x → AreOn (all_moved c k size moves x)
    unfolding all_moved
    all_moved-AreOn [] x a = a
    all_moved-AreOn (m ∷ moves) x a = all_moved-AreOn moves (moved c k size m x) (moved-AreOn m x a)

    count_round-AreOn : (x : Test) → AreOn x → AreOn (count_round c k size x)
    unfolding count_round happens
    count_round-AreOn x (a0, a1) =
        let s = x.wire.speedtest in
        let (p, q) = drain-view c s.comp_skbqueue s in
        (
          IsOn-same k last0 x.left0 s.cfg0 (drain c s.comp_skbqueue s).cfg0 p a0,
          IsOn-same k last1 x.left1 s.cfg1 (drain c s.comp_skbqueue s).cfg1 q a1,
        )

    pub turned-AreOn : (turn : Turn) (x : Test) → AreOn x → AreOn (turned c k size turn x)
    unfolding turned
    turned-AreOn turn x a =
        let x' = all_moved c k size turn.moves x in
        all_moved-AreOn turn.meanwhile (count_round c k size x')
          (count_round-AreOn x' (all_moved-AreOn turn.moves x a))
