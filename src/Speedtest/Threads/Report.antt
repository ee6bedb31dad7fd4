-- ===== src/Speedtest/Threads/Report.antt =====
-- The accounts of a test of lab/net/speedtest/speedtest.c when its threads run together.
use quick_start.Common.{
  ℕ, suc, ◌+◌, ◌≡◌, refl, sym, ap, ◌∙◌, List, [], ◌∷◌, ◌++◌, false, Bool-cases, inl, inr, some,
  length, arith,
}
use quick_start.Speedtest.Types.{SpeedtestCfg, Speedtest, is_set}
use quick_start.Speedtest.Packet.{Checksums}
use quick_start.Speedtest.Timer.{Clock}
use quick_start.Speedtest.Compute.{finish, is_sending, compute_loop}
use quick_start.Speedtest.Loopback.{from0-looped, from1-looped, finish-status}
use quick_start.Speedtest.Counts.{from0, from1, count}
use quick_start.Speedtest.Wire.{
  Wire, sends0, sends1, ends0, ends1, returns0, returns1, vanishes0, vanishes1, counts,
}
use quick_start.Speedtest.Conserves.{IsSettled, lose_late-IsSettled}
use quick_start.Speedtest.Accounts.{IsAccounted, rest-IsAccounted}
use quick_start.Speedtest.Accounts.History.{happens-IsAccounted}
use quick_start.Speedtest.Threads.{
  Left, left, over, Test, Move, moves0, moves1, back0, back1, lost0, lost1, Turn, move0, move1,
  moved, all_moved, count_round, turned, all_turned, rounds, happenings,
}
use quick_start.Speedtest.Threads.Turns.{ends, ends-is_sending, turn-ends, turn-goes_on}
use quick_start.Speedtest.Threads.Views.{sender_view, finish-view}
use quick_start.Speedtest.Threads.Moves.{IsOn, AreOn, turned-AreOn}

module _ (c : Checksums) (k : Clock) (size : ℕ) where
  move-IsAccounted :
      (l : Left) (n : ℕ) (x : Test)
      → IsAccounted c size (suc n) x.wire
      → IsAccounted c size n (move0 c k size l x).wire
        × IsAccounted c size n (move1 c k size l x).wire
  unfolding move0 move1
  move-IsAccounted (left [] jiffies) n x a = (
    happens-IsAccounted c k size (ends0 jiffies) n x.wire a,
    happens-IsAccounted c k size (ends1 jiffies) n x.wire a,
  )
  move-IsAccounted (left (t ∷ tries) jiffies) n x a = (
    happens-IsAccounted c k size (sends0 t) n x.wire a,
    happens-IsAccounted c k size (sends1 t) n x.wire a,
  )
  move-IsAccounted over n x a =
      (rest-IsAccounted c size n x.wire a, rest-IsAccounted c size n x.wire a)

  moved-IsAccounted :
      (m : Move) (n : ℕ) (x : Test)
      → IsAccounted c size (suc n) x.wire
      → IsAccounted c size n (moved c k size m x).wire
  unfolding moved
  moved-IsAccounted moves0 n x a = (move-IsAccounted x.left0 n x a).0
  moved-IsAccounted moves1 n x a = (move-IsAccounted x.left1 n x a).1
  moved-IsAccounted (back0 t dev) n x a = happens-IsAccounted c k size (returns0 t dev) n x.wire a
  moved-IsAccounted (back1 t dev) n x a = happens-IsAccounted c k size (returns1 t dev) n x.wire a
  moved-IsAccounted lost0 n x a = happens-IsAccounted c k size vanishes0 n x.wire a
  moved-IsAccounted lost1 n x a = happens-IsAccounted c k size vanishes1 n x.wire a

  all_moved-IsAccounted :
      (moves : List Move) (n m : ℕ) (x : Test)
      → m ≡ length moves + n
      → IsAccounted c size m x.wire
      → IsAccounted c size n (all_moved c k size moves x).wire
  unfolding all_moved
  all_moved-IsAccounted [] n m x e a = let e' : m ≡ n = omega (arith, e) in rw (sym e') a
  all_moved-IsAccounted (move ∷ moves) n m x e a =
      let e' : m ≡ suc (length moves + n) = omega (arith, e) in
      all_moved-IsAccounted moves n (length moves + n) (moved c k size move x) refl
        (moved-IsAccounted move (length moves + n) x (rw (sym e') a))

  turned-IsAccounted :
      (turn : Turn) (n m : ℕ) (x : Test)
      → m ≡ suc (length turn.moves + length turn.meanwhile) + n
      → IsAccounted c size m x.wire
      → IsAccounted c size n (turned c k size turn x).wire
  unfolding turned count_round
  turned-IsAccounted turn n m x e a =
      let x' = all_moved c k size turn.moves x in
      let l = length turn.meanwhile + n in
      all_moved-IsAccounted turn.meanwhile n l (count_round c k size x') refl (
        happens-IsAccounted c k size counts l x'.wire
          (all_moved-IsAccounted turn.moves (suc l) m x (omega (arith, e)) a))

  -- All is settled: a packet that has come too late for the last count is lost too.
  abbrev pub AreSettled : Wire → Speedtest → Type 0
  AreSettled w s =
      IsSettled w.flying0 (w.gone0 + count from0 w.speedtest.comp_skbqueue) s.cfg0.status
      × IsSettled w.flying1 (w.gone1 + count from1 w.speedtest.comp_skbqueue) s.cfg1.status

  -- What the end of the counting thread makes of the accounts.
  finish-AreSettled :
      (n : ℕ) (w : Wire) → IsAccounted c size n w → AreSettled w (finish w.speedtest)
  finish-AreSettled n w (arrivals, h, q, b0, b1) =
      let (f0, f1) = finish-status c w.speedtest in
      (
        rw (f0, q, from0-looped c size size arrivals) (lose_late-IsSettled c _ n _ _ _ _ b0),
        rw (f1, q, from1-looped c size size arrivals) (lose_late-IsSettled c _ n _ _ _ _ b1),
      )

  module _ (last0 last1 : SpeedtestCfg) where
    is_over-view :
        (last cfg : SpeedtestCfg) (l : Left)
        → is_set cfg.task ≡ false
        → IsOn k last l cfg
        → sender_view cfg ≡ sender_view last
    unfolding is_set
    is_over-view last cfg (left tries jiffies) s (t, h) = absurd (ground (arith, t, s))
    is_over-view last cfg over s (t, h) = h

    -- A report of the counting thread: all is settled, and each sender has ended as it would alone.
    abbrev pub IsReport : Wire → Speedtest → Type 0
    IsReport w s =
        AreSettled w s
        × (sender_view s.cfg0 ≡ sender_view last0)
        × (sender_view s.cfg1 ≡ sender_view last1)

    finish-IsReport :
        (n : ℕ) (x : Test)
        → IsAccounted c size n x.wire
        → AreOn c k size last0 last1 x
        → is_sending x.wire.speedtest ≡ false
        → IsReport x.wire (finish x.wire.speedtest)
    unfolding is_sending
    finish-IsReport n x d (a, b) s =
        let (v0, v1) = finish-view x.wire.speedtest in
        let t0 : is_set x.wire.speedtest.cfg0.task ≡ false = ground arith in
        let t1 : is_set x.wire.speedtest.cfg1.task ≡ false = ground arith in
        (
          finish-AreSettled n x.wire d,
          v0 ∙ is_over-view last0 x.wire.speedtest.cfg0 x.left0 t0 a,
          v1 ∙ is_over-view last1 x.wire.speedtest.cfg1 x.left1 t1 b,
        )

    -- The report is made behind some of the turns.
    abbrev pub Reports : List Turn → Test → Speedtest → Type 0
    Reports turns x s =
        (done : List Turn) × (rest : List Turn) × (turns ≡ done ++ rest)
        × IsReport (all_turned c k size done x).wire s

    Reports-later :
        (turn : Turn) (turns : List Turn) (x : Test) (s : Speedtest)
        → Reports turns (turned c k size turn x) s
        → Reports (turn ∷ turns) x s
    unfolding all_turned
    Reports-later turn turns x s (done, rest, e, r) = (turn ∷ done, rest, ap (◌∷◌ turn) e, r)

    pub compute_loop-Reports :
        (turns : List Turn) (end_time n : ℕ) (x : Test) (s : Speedtest)
        → n ≡ happenings turns
        → IsAccounted c size n x.wire
        → AreOn c k size last0 last1 x
        → compute_loop c k (rounds c k size turns x) end_time x.wire.speedtest ≡ some s
        → Reports turns x s
    unfolding rounds compute_loop all_turned
    compute_loop-Reports [] end_time n x s e a on h = absurd (ground arith)
    compute_loop-Reports (turn ∷ turns) end_time n x s e a on h =
        let x' = turned c k size turn x in
        let d = turned-IsAccounted turn (happenings turns) n x e a in
        let on' = turned-AreOn c k size last0 last1 turn x on in
        elim (Bool-cases (ends c k size turn end_time x')) [
          | inl w ↦
              let e' : finish x'.wire.speedtest ≡ s =
                ground (arith, sym (turn-ends c k size turn turns end_time x w) ∙ h) in
              (
                turn ∷ [],
                turns,
                refl,
                rw (sym e') (
                    finish-IsReport (happenings turns) x' d on'
                      (ends-is_sending c k size turn end_time x' w)),
              )
          | inr w ↦ Reports-later turn turns x s (
              compute_loop-Reports turns _ (happenings turns) x' s refl d on'
                (sym (turn-goes_on c k size turn turns end_time x w) ∙ h))
        ]
