-- ===== src/Speedtest/Conserves.antt =====
-- No packet of a test of lab/net/speedtest/speedtest.c goes unaccounted for.
use quick_start.Common.{ℕ, suc, ◌+◌, ◌-◌, ◌^◌, ◌≡◌, ◌<◌, refl, List, Bool, arith}
use quick_start.Speedtest.Types.{SpeedtestCfg, SpeedtestStatus, Skb}
use quick_start.Speedtest.Packet.{Checksums}
use quick_start.Speedtest.Compute.{lose}
use quick_start.Speedtest.Sender.{Try, count_sent}
use quick_start.Speedtest.Counts.{count, is_bad, counted, IsWord}
use quick_start.Speedtest.Wire.{flying_behind}

-- The packets of a direction that the sender has counted are those counted as received, those in the
-- queue, those on the wire and those that are gone; `left` more can be counted without wrapping around.
abbrev pub IsBalanced : (sum left queued flying gone : ℕ) → SpeedtestStatus → Type 0
IsBalanced sum left queued flying gone st =
    (st.pktsend_count ≡ st.pktrcv_count + queued + (flying + gone))
    × (st.pkterr_count ≡ 0)
    × (st.pkt_csum ≡ sum)
    × (st.pktsend_count + left < 2 ^ 64)

-- What the end of the counting thread makes of a balanced direction.
abbrev pub IsSettled : (flying gone : ℕ) → SpeedtestStatus → Type 0
IsSettled flying gone st =
    (st.pktsend_count ≡ st.pktrcv_count + st.pktlose_count)
    × (st.pktlose_count ≡ flying + gone)
    × (st.pkterr_count ≡ 0)

module _ (sum : ℕ) where
  pub sent-IsBalanced :
      (t : Try) (left queued flying gone : ℕ) (cfg : SpeedtestCfg)
      → IsBalanced sum (suc left) queued flying gone cfg.status
      → IsBalanced sum left queued (flying_behind t flying) gone (count_sent t cfg).status
  unfolding count_sent
  sent-IsBalanced t left queued flying gone cfg h = ground arith

  pub rest-IsBalanced :
      (left queued flying gone : ℕ) (st : SpeedtestStatus)
      → IsBalanced sum (suc left) queued flying gone st
      → IsBalanced sum left queued flying gone st
  rest-IsBalanced left queued flying gone st h = ground arith

  pub vanished-IsBalanced :
      (left queued flying gone : ℕ) (st : SpeedtestStatus)
      → IsBalanced sum (suc left) queued flying gone st
      → 0 < flying
      → IsBalanced sum left queued (flying - 1) (suc gone) st
  vanished-IsBalanced left queued flying gone st h p = ground arith

  pub queued-IsBalanced :
      (left queued flying gone : ℕ) (st : SpeedtestStatus)
      → IsBalanced sum (suc left) queued flying gone st
      → 0 < flying
      → IsBalanced sum left (suc queued) (flying - 1) gone st
  queued-IsBalanced left queued flying gone st h p = ground arith

module _ (c : Checksums) (sum : ℕ) where
  pub balanced-IsWord :
      (left queued flying gone : ℕ) (st : SpeedtestStatus)
      → IsBalanced sum (suc left) queued flying gone st
      → IsWord c st
  balanced-IsWord left queued flying gone st (b, e, k, w) = (omega arith, omega arith)

  pub counted-IsBalanced :
      (from : Skb → Bool) (skbs : List Skb) (left queued flying gone : ℕ) (st : SpeedtestStatus)
      → IsBalanced sum (suc left) queued flying gone st
      → count from skbs ≡ queued
      → count (is_bad c from sum) skbs ≡ 0
      → IsBalanced sum left 0 flying gone (counted c from skbs st)
  counted-IsBalanced from skbs left queued flying gone st (b, e, k, w) n z =
      let z' : count (is_bad c from st.pkt_csum) skbs ≡ 0 = rw k z in
      (rw n (omega arith), rw (e, z') refl, k, omega arith)

  pub lose_late-IsSettled :
      (left queued flying gone : ℕ) (st : SpeedtestStatus)
      → IsBalanced sum left queued flying gone st
      → IsSettled flying (gone + queued) (lose st)
  unfolding lose
  lose_late-IsSettled left queued flying gone st (b, e, k, w) =
      (rw e (omega arith), rw e (omega arith), e)

  pub lose-IsSettled :
      (left flying gone : ℕ) (st : SpeedtestStatus)
      → IsBalanced sum left 0 flying gone st
      → IsSettled flying gone (lose st)
  lose-IsSettled left flying gone st b =
      let (s, l, e) = lose_late-IsSettled left 0 flying gone st b in (s, omega (arith, l), e)
