-- ===== src/Speedtest/Threads.antt =====
-- The threads of a test of lab/net/speedtest/speedtest.c, each with the rest of its own run, and the
-- packets on the wire between them.
pub mod Sent
pub mod Views
pub mod Moves
pub mod Turns
pub mod Report
pub mod Returns
pub mod Whole
use quick_start.Common.{
  ℕ, suc, ◌+◌, ◌*◌, ◌%◌, ◌^◌, List, [], ◌∷◌, Bool, false, ◌&&◌, ◌||◌, not, Option, none, some,
  ◌>>=◌, length, ltb, if◌then◌else◌,
}
use quick_start.Speedtest.Types.{SpeedtestCfg, Speedtest}
use quick_start.Speedtest.Packet.{Checksums}
use quick_start.Speedtest.Timer.{Clock}
use quick_start.Speedtest.Compute.{Round}
use quick_start.Speedtest.Sender.{Try, send_time}
use quick_start.Speedtest.Demux.{PortTag}
use quick_start.Speedtest.Wire.{
  Wire, sends0, sends1, ends0, ends1, returns0, returns1, vanishes0, vanishes1, counts, happens,
}

-- The iterations of a sender's loop that try to send, and `jiffies` when it is left; `none` is a loop
-- that goes on.
module _ (k : Clock) (send_ns end_time : ℕ) where
  unfoldable pub loop_tries : Bool → ℕ → List Try → Option (List Try × ℕ)
  loop_tries paced speed_time [] = none
  loop_tries paced speed_time (t ∷ tries) =
      let waits = loop_tries paced speed_time tries in
      let next = loop_tries paced ((send_ns + t.timens) % 2 ^ k.long_bits) tries in
      if paced && not (ltb speed_time t.timens)
      then waits
      else if t.should_stop || ltb end_time t.jiffies
      then some (t ∷ [], t.jiffies)
      else next >>= (λ (sent, jiffies). some (t ∷ sent, jiffies))

-- The same of a sender's whole run.
unfoldable pub thread_tries : Clock → ℕ → ℕ → List Try → SpeedtestCfg → Option (List Try × ℕ)
thread_tries k jiffies timens tries cfg = send_time cfg >>= (λ ns.
    loop_tries k ns ((jiffies + cfg.dur_time * k.hz % 2 ^ 32) % 2 ^ k.long_bits) (ltb cfg.speed 100)
      ((ns + timens) % 2 ^ k.long_bits) tries)

-- What a sender has still to do: to try to send, and to end at a time; or nothing.
pub data Left : Type 0 where
  left : List Try → ℕ → Left
  over : Left

pub record Test : Type 0 where
  pub wire : Wire
  pub left0 : Left
  pub left1 : Left

-- A sender goes on, or a packet comes back or is lost.
pub data Move : Type 0 where
  moves0 moves1 : Move
  back0 back1 : PortTag → Option (List ℕ) → Move
  lost0 lost1 : Move

-- What happens before the count of a round of the counting thread and behind it, and `jiffies` then.
pub record Turn : Type 0 where
  pub moves : List Move
  pub meanwhile : List Move
  pub jiffies : ℕ

abbrev with_speedtest : Speedtest → Test → Test
with_speedtest s x = record x { wire = record x.wire { speedtest = s } }

module _ (c : Checksums) (k : Clock) (size : ℕ) where
  unfoldable pub move0 : Left → Test → Test
  move0 (left [] jiffies) x = record x {
    wire = happens c k size (ends0 jiffies) x.wire;
    left0 = over;
  }
  move0 (left (t ∷ tries) jiffies) x = record x {
    wire = happens c k size (sends0 t) x.wire;
    left0 = left tries jiffies;
  }
  move0 over x = x

  unfoldable pub move1 : Left → Test → Test
  move1 (left [] jiffies) x = record x {
    wire = happens c k size (ends1 jiffies) x.wire;
    left1 = over;
  }
  move1 (left (t ∷ tries) jiffies) x = record x {
    wire = happens c k size (sends1 t) x.wire;
    left1 = left tries jiffies;
  }
  move1 over x = x

  unfoldable pub moved : Move → Test → Test
  unfolding move0 move1
  moved moves0 x = move0 x.left0 x
  moved moves1 x = move1 x.left1 x
  moved (back0 t dev) x = record x { wire = happens c k size (returns0 t dev) x.wire }
  moved (back1 t dev) x = record x { wire = happens c k size (returns1 t dev) x.wire }
  moved lost0 x = record x { wire = happens c k size vanishes0 x.wire }
  moved lost1 x = record x { wire = happens c k size vanishes1 x.wire }

  unfoldable pub all_moved : List Move → Test → Test
  all_moved [] x = x
  all_moved (m ∷ moves) x = all_moved moves (moved m x)

  unfoldable pub count_round : Test → Test
  count_round x = record x { wire = happens c k size counts x.wire }

  unfoldable pub turned : Turn → Test → Test
  turned turn x = all_moved turn.meanwhile (count_round (all_moved turn.moves x))

  unfoldable pub all_turned : List Turn → Test → Test
  all_turned [] x = x
  all_turned (turn ∷ turns) x = all_turned turns (turned turn x)

  -- The rounds of the counting thread: what the others do to the data that it has left.
  unfoldable pub rounds : List Turn → Test → List Round
  rounds [] x = []
  rounds (turn ∷ turns) x =
      record {
        others = λ s. (all_moved turn.moves (with_speedtest s x)).wire.speedtest;
        meanwhile = λ s.
            (all_moved turn.meanwhile (with_speedtest s (all_moved turn.moves x))).wire.speedtest;
        jiffies = turn.jiffies;
        should_stop = false;
      }
      ∷ rounds turns (turned turn x)

-- How many things happen in some turns, a round of the counting thread in each included.
abbrev pub happenings : List Turn → ℕ
happenings [] = 0
happenings (turn ∷ turns) = suc (length turn.moves + length turn.meanwhile) + happenings turns
