-- ===== src/Speedtest/Threads/Turns.antt =====
-- The counting thread of lab/net/speedtest/speedtest.c between what the other threads do: when it ends.
use quick_start.Common.{
  ℕ, ◌≡◌, refl, ap, ◌∙◌, List, [], ◌∷◌, ◌++◌, Bool, true, false, not, ◌&&◌, some, ltb,
  if◌then◌else◌, arith,
}
use quick_start.Speedtest.Packet.{Checksums}
use quick_start.Speedtest.Timer.{Clock}
use quick_start.Speedtest.Compute.{
  finish, is_sending, is_over, next_end_time, drained, compute_loop,
}
use quick_start.Speedtest.Wire.{happens}
use quick_start.Speedtest.Threads.{Test, Turn, count_round, turned, all_turned, rounds}

module _ (c : Checksums) (k : Clock) (size : ℕ) where
  -- Whether the counting thread ends behind a turn.
  abbrev pub ends : Turn → ℕ → Test → Bool
  ends turn end_time x =
      let sending = is_sending x.wire.speedtest in
      not sending && ltb (next_end_time c k turn.jiffies sending end_time) turn.jiffies

  compute_loop-turn :
      (turn : Turn) (turns : List Turn) (end_time : ℕ) (x : Test)
      → compute_loop c k (rounds c k size (turn ∷ turns) x) end_time x.wire.speedtest ≡ (
          let x' = turned c k size turn x in
          if ends turn end_time x'
          then some (finish x'.wire.speedtest)
          else compute_loop c k
              (rounds c k size turns x')
              (next_end_time c k turn.jiffies (is_sending x'.wire.speedtest) end_time)
              x'.wire.speedtest)
  unfolding rounds compute_loop turned count_round happens drained is_over
  compute_loop-turn turn turns end_time x = refl

  pub turn-ends :
      (turn : Turn) (turns : List Turn) (end_time : ℕ) (x : Test)
      → ends turn end_time (turned c k size turn x) ≡ true
      → compute_loop c k (rounds c k size (turn ∷ turns) x) end_time x.wire.speedtest
        ≡ some (finish (turned c k size turn x).wire.speedtest)
  turn-ends turn turns end_time x w = compute_loop-turn turn turns end_time x ∙ rw w refl

  pub turn-goes_on :
      (turn : Turn) (turns : List Turn) (end_time : ℕ) (x : Test)
      → ends turn end_time (turned c k size turn x) ≡ false
      → compute_loop c k (rounds c k size (turn ∷ turns) x) end_time x.wire.speedtest ≡ (
          let x' = turned c k size turn x in
          compute_loop c k
            (rounds c k size turns x')
            (next_end_time c k turn.jiffies (is_sending x'.wire.speedtest) end_time)
            x'.wire.speedtest)
  turn-goes_on turn turns end_time x w = compute_loop-turn turn turns end_time x ∙ rw w refl

  pub ends-is_sending :
      (turn : Turn) (end_time : ℕ) (x : Test)
      → ends turn end_time x ≡ true
      → is_sending x.wire.speedtest ≡ false
  ends-is_sending turn end_time x w = ground arith

  -- Turns behind each of which a sender is left.
  abbrev pub AllBusy : List Turn → Test → Type 0
  AllBusy [] x = Unit
  AllBusy (turn ∷ turns) x =
      (is_sending (turned c k size turn x).wire.speedtest ≡ true)
      × AllBusy turns (turned c k size turn x)

  busy-goes_on :
      (turn : Turn) (x : Test)
      → is_sending x.wire.speedtest ≡ true
      → (ends turn 0 x ≡ false)
        × (next_end_time c k turn.jiffies (is_sending x.wire.speedtest) 0 ≡ 0)
  unfolding next_end_time
  busy-goes_on turn x h = (rw h refl, rw h refl)

  pub all_busy :
      (busy turns : List Turn) (x : Test)
      → AllBusy busy x
      → compute_loop c k (rounds c k size (busy ++ turns) x) 0 x.wire.speedtest
        ≡ compute_loop c k
            (rounds c k size turns (all_turned c k size busy x))
            0
            (all_turned c k size busy x).wire.speedtest
  unfolding all_turned
  all_busy [] turns x b = refl
  all_busy (turn ∷ busy) turns x (h, b) =
      let x' = turned c k size turn x in
      let (g, e) = busy-goes_on turn x' h in
      turn-goes_on turn (busy ++ turns) 0 x g
      ∙ ap (λ n. compute_loop c k (rounds c k size (busy ++ turns) x') n x'.wire.speedtest) e
      ∙ all_busy busy turns x' b
