-- ===== src/Speedtest/Wire.antt =====
-- A whole test of lab/net/speedtest/speedtest.c: the senders, the wire and the counting thread in any
-- order.
use quick_start.Common.{ℕ, suc, ◌-◌, List, [], ◌∷◌, Option, length, ltb, if◌then◌else◌}
use quick_start.Speedtest.Types.{Speedtest, is_set}
use quick_start.Speedtest.Packet.{Checksums, speedtest_bytes, send_speedtest_pkt}
use quick_start.Speedtest.Hooks.{speedtest_skbqueue_len}
use quick_start.Speedtest.Timer.{Clock}
use quick_start.Speedtest.Compute.{drain, finish}
use quick_start.Speedtest.Sender.{Try, count_sent, end_thread, begin_status}
use quick_start.Speedtest.System.{received}
use quick_start.Speedtest.Demux.{PortTag, tagged}
use quick_start.Speedtest.Loopback.{pkt0, pkt1}

-- The module, with the packets of each direction that are on the wire and those that are gone.
pub record Wire : Type 0 where
  pub speedtest : Speedtest
  pub flying0 : ℕ
  pub flying1 : ℕ
  pub gone0 : ℕ
  pub gone1 : ℕ

-- What happens during a test: a sender tries to send, or ends; a packet comes back with a tag, or is
-- lost on the wire; the counting thread has a round.
pub data Event : Type 0 where
  sends0 sends1 : Try → Event
  ends0 ends1 : ℕ → Event
  returns0 returns1 : PortTag → Option (List ℕ) → Event
  vanishes0 vanishes1 : Event
  counts : Event

-- The packets gone behind one that comes in: a full queue takes none.
abbrev pub gone_behind : Clock → Speedtest → ℕ → ℕ
gone_behind k s gone =
    if ltb (length s.comp_skbqueue) (speedtest_skbqueue_len k) then gone else suc gone

-- The packets on the wire behind a try.
abbrev pub flying_behind : Try → ℕ → ℕ
flying_behind t flying = if send_speedtest_pkt t.cloned t.taken then suc flying else flying

module _ (c : Checksums) (k : Clock) (size : ℕ) where
  -- A sender that has ended sends no more, and only what is on the wire can come back or be lost.
  unfoldable pub happens : Event → Wire → Wire
  happens (sends0 t) w =
      if is_set w.speedtest.cfg0.task
      then record w {
        speedtest = record w.speedtest { cfg0 = count_sent t w.speedtest.cfg0 };
        flying0 = flying_behind t w.flying0;
      }
      else w
  happens (sends1 t) w =
      if is_set w.speedtest.cfg1.task
      then record w {
        speedtest = record w.speedtest { cfg1 = count_sent t w.speedtest.cfg1 };
        flying1 = flying_behind t w.flying1;
      }
      else w
  happens (ends0 jiffies) w = record w {
    speedtest = record w.speedtest { cfg0 = end_thread k jiffies w.speedtest.cfg0 };
  }
  happens (ends1 jiffies) w = record w {
    speedtest = record w.speedtest { cfg1 = end_thread k jiffies w.speedtest.cfg1 };
  }
  happens (returns0 t dev) w =
      if ltb 0 w.flying0
      then record w {
        speedtest =
            (received k w.speedtest.rx_hook (tagged t dev (pkt0 c size size)) w.speedtest).1;
        flying0 = w.flying0 - 1;
        gone0 = gone_behind k w.speedtest w.gone0;
      }
      else w
  happens (returns1 t dev) w =
      if ltb 0 w.flying1
      then record w {
        speedtest =
            (received k w.speedtest.rx_hook (tagged t dev (pkt1 c size size)) w.speedtest).1;
        flying1 = w.flying1 - 1;
        gone1 = gone_behind k w.speedtest w.gone1;
      }
      else w
  happens vanishes0 w =
      if ltb 0 w.flying0 then record w { flying0 = w.flying0 - 1; gone0 = suc w.gone0 } else w
  happens vanishes1 w =
      if ltb 0 w.flying1 then record w { flying1 = w.flying1 - 1; gone1 = suc w.gone1 } else w
  happens counts w = record w { speedtest = drain c w.speedtest.comp_skbqueue w.speedtest }

  unfoldable pub history : List Event → Wire → Wire
  history [] w = w
  history (event ∷ events) w = history events (happens event w)

  -- The wire when both senders have made their packets, behind a command.
  unfoldable pub begun : ℕ → ℕ → Speedtest → Wire
  begun jiffies0 jiffies1 s = record {
    speedtest = record s {
      cfg0 = begin_status c k jiffies0 (speedtest_bytes c s.cfg0.port s.cfg0.pkt_size) s.cfg0;
      cfg1 = begin_status c k jiffies1 (speedtest_bytes c s.cfg1.port s.cfg1.pkt_size) s.cfg1;
    };
    flying0 = 0;
    flying1 = 0;
    gone0 = 0;
    gone1 = 0;
  }

  -- What the counting thread leaves when it ends behind a last round.
  unfoldable pub ended : Wire → Speedtest
  ended w = finish (drain c w.speedtest.comp_skbqueue w.speedtest)
