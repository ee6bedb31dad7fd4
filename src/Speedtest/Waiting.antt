-- ===== src/Speedtest/Waiting.antt =====
-- How long the counting thread of lab/net/speedtest/speedtest.c waits.
use quick_start.Common.{
  ◌==◌, ap, ℕ, ◌≡◌, ◌<◌, refl, ◌∙◌, List, [], ◌∷◌, ◌++◌, true, false, Bool-cases, inl, inr, some,
  if◌then◌else◌, arith,
}
use quick_start.Speedtest.Types.{Speedtest, SpeedtestStatus, st_finished, no_task, rcv_probe, sub64}
use quick_start.Speedtest.Packet.{Checksums}
use quick_start.Speedtest.Timer.{speedtest_loopdetect_timer_init, Clock, jiffies_after}
use quick_start.Speedtest.Compute.{
  restart_timer, lose_all, lose, drain, finish, Round, is_sending, next_end_time, is_over, drained,
  compute_loop, speedtest_compute_func,
}

-- Whether no sender is left when a round looks for them, whatever the state before it.
abbrev pub IsIdle : Round → Type 0
IsIdle r = (s : Speedtest) → is_sending (r.meanwhile s) ≡ false

abbrev pub AllIdle : List Round → Type 0
AllIdle [] = Unit
AllIdle (r ∷ rounds) = IsIdle r × AllIdle rounds

module _ (c : Checksums) (k : Clock) where
  drained-idle : (r : Round) (s : Speedtest) → IsIdle r → is_sending (drained c k r s) ≡ false
  unfolding drained
  drained-idle r s h = h (drain c (r.others s).comp_skbqueue (r.others s))

  -- One idle round: the end of the wait stays, or is set.
  idle-next :
      (jiffies end_time : ℕ) → 0 < end_time → next_end_time c k jiffies false end_time ≡ end_time
  unfolding next_end_time
  idle-next jiffies end_time p = ground arith

  idle_round :
      (r : Round) (rounds : List Round) (end_time end : ℕ) (s : Speedtest)
      → IsIdle r
      → next_end_time c k r.jiffies false end_time ≡ end
      → compute_loop c k (r ∷ rounds) end_time s ≡ (
          if is_over c k r false end
          then some (finish (drained c k r s))
          else compute_loop c k rounds end (drained c k r s))
  unfolding compute_loop
  idle_round r rounds end_time end s i e = rw (drained-idle r s i, e) refl

  is_over-late : (r : Round) (end : ℕ) → end < r.jiffies → is_over c k r false end ≡ true
  unfolding is_over
  is_over-late r end l = ground arith

  -- The data behind some rounds.
  abbrev pub all_drained : List Round → Speedtest → Speedtest
  all_drained [] s = s
  all_drained (r ∷ rounds) s = all_drained rounds (drained c k r s)

  -- The loop is left behind some of the rounds.
  abbrev Ends : List Round → ℕ → Speedtest → Type 0
  Ends rounds end_time s =
      (done : List Round) × (rest : List Round) × (rounds ≡ done ++ rest)
      × (compute_loop c k rounds end_time s ≡ some (finish (all_drained done s)))

  Ends-later :
      (r : Round) (rounds : List Round) (end_time end : ℕ) (s : Speedtest)
      → compute_loop c k (r ∷ rounds) end_time s ≡ compute_loop c k rounds end (drained c k r s)
      → Ends rounds end (drained c k r s)
      → Ends (r ∷ rounds) end_time s
  Ends-later r rounds end_time end s e (done, rest, p, w) = (r ∷ done, rest, ap (◌∷◌ r) p, e ∙ w)

  -- An idle round before a loop that ends: the loop ends in the round or behind it.
  goes_on :
      (r : Round) (rounds : List Round) (end_time end : ℕ) (s : Speedtest)
      → IsIdle r
      → next_end_time c k r.jiffies false end_time ≡ end
      → Ends rounds end (drained c k r s)
      → Ends (r ∷ rounds) end_time s
  goes_on r rounds end_time end s i e w = elim (Bool-cases (is_over c k r false end)) [
    | inl h ↦ (r ∷ [], rounds, refl, idle_round r rounds end_time end s i e ∙ rw h refl)
    | inr h ↦
        Ends-later r rounds end_time end s (idle_round r rounds end_time end s i e ∙ rw h refl) w
  ]

  waits :
      (rounds : List Round) (last : Round) (end : ℕ) (s : Speedtest)
      → 0 < end
      → AllIdle rounds
      → IsIdle last
      → end < last.jiffies
      → Ends (rounds ++ last ∷ []) end s
  waits [] last end s p a i l = (
    last ∷ [],
    [],
    refl,
    idle_round last [] end end s i (idle-next last.jiffies end p)
        ∙ rw (is_over-late last end l) refl,
  )
  waits (r ∷ rounds) last end s p (i', a) i l =
      goes_on r (rounds ++ last ∷ []) end end s i' (idle-next r.jiffies end p)
        (waits rounds last end (drained c k r s) p a i l)

  -- Rounds that each find a sender, and that nothing stops.
  abbrev pub AllBusy : List Round → Speedtest → Type 0
  AllBusy [] s = Unit
  AllBusy (r ∷ rounds) s =
      (is_sending (drained c k r s) ≡ true)
      × (r.should_stop ≡ false)
      × AllBusy rounds (drained c k r s)

  busy_round :
      (r : Round) (rounds : List Round) (s : Speedtest)
      → is_sending (drained c k r s) ≡ true
      → r.should_stop ≡ false
      → compute_loop c k (r ∷ rounds) 0 s ≡ compute_loop c k rounds 0 (drained c k r s)
  unfolding compute_loop next_end_time is_over
  busy_round r rounds s b n = rw (b, n) refl

  busy-Ends :
      (busy rounds : List Round) (s : Speedtest)
      → AllBusy busy s
      → Ends rounds 0 (all_drained busy s)
      → Ends (busy ++ rounds) 0 s
  busy-Ends [] rounds s b e = e
  busy-Ends (r ∷ busy) rounds s (b, n, bs) e =
      Ends-later r (busy ++ rounds) 0 0 s (busy_round r (busy ++ rounds) s b n)
        (busy-Ends busy rounds (drained c k r s) bs e)

  begins : (jiffies : ℕ) → next_end_time c k jiffies false 0 ≡ jiffies_after k jiffies 5
  unfolding next_end_time
  begins jiffies = refl

  -- What the end of the thread makes of a direction, and of the data.
  abbrev IsClosed : SpeedtestStatus → SpeedtestStatus → Type 0
  IsClosed before st =
      (st.state ≡ st_finished)
      × (st.pktlose_count
          ≡ sub64 (sub64 before.pktsend_count before.pktrcv_count) before.pkterr_count)
      × (st.pktsend_count ≡ before.pktsend_count)
      × (st.pktrcv_count ≡ before.pktrcv_count)
      × (st.pkterr_count ≡ before.pkterr_count)

  abbrev pub IsFinished : Speedtest → Speedtest → Type 0
  IsFinished before s =
      (s.comp_skbqueue ≡ [])
      × (s.compute_task ≡ no_task)
      × (s.rx_hook ≡ rcv_probe)
      × (s.timer ≡ (if before.st_loop_timer_enable == 0 then before.timer else true))
      × IsClosed before.cfg0.status s.cfg0.status
      × IsClosed before.cfg1.status s.cfg1.status

  finish-IsFinished : (s : Speedtest) → IsFinished s (finish s)
  unfolding finish restart_timer lose_all lose speedtest_loopdetect_timer_init
  finish-IsFinished s = ground arith

  -- When rounds that find a sender are followed by rounds that find none, and nothing stops the first,
  -- the counting thread returns by the first round that is more than five seconds later than the first
  -- one without a sender: behind some of the rounds it has emptied the queue, given up its task and put
  -- the hook for probes back, it has set the timer if that is enabled, and each direction is finished,
  -- with the packets lost that were sent and are neither received nor counted as an error, in 64 bits.
  -- The end of the wait must not be 0 in the bits of the clock.
  pub compute_func-ends :
      (busy : List Round) (first : Round) (rest : List Round) (last : Round) (s : Speedtest)
      → AllBusy busy s
      → IsIdle first
      → AllIdle rest
      → IsIdle last
      → 0 < jiffies_after k first.jiffies 5
      → jiffies_after k first.jiffies 5 < last.jiffies
      → (report : Speedtest) × (done : List Round) × (later : List Round) × (speedtest_compute_func
            c k
            (busy ++ first ∷ (rest ++ last ∷ []))
            s
          ≡ some report)
        × (busy ++ first ∷ (rest ++ last ∷ []) ≡ done ++ later)
        × IsFinished (all_drained done s) report
  unfolding speedtest_compute_func
  compute_func-ends busy first rest last s b i0 a i p l =
      let end = jiffies_after k first.jiffies 5 in
      let s' = all_drained busy s in
      let (done, later, e, w) = busy-Ends busy (first ∷ (rest ++ last ∷ [])) s b (
        goes_on first (rest ++ last ∷ []) 0 end s' i0 (begins first.jiffies)
          (waits rest last end (drained c k first s') p a i l)) in
      (finish (all_drained done s), done, later, w, e, finish-IsFinished (all_drained done s))
