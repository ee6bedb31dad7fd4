-- ===== src/Speedtest/Threads/Returns.antt =====
-- The counting thread of lab/net/speedtest/speedtest.c returns once the senders have.
use quick_start.Common.{
  ℕ, ◌<◌, ◌≡◌, refl, ◌∙◌, List, [], ◌∷◌, ◌++◌, false, Bool-cases, ◌⊎◌, inl, inr, some, arith,
}
use quick_start.Speedtest.Types.{SpeedtestCfg, Speedtest, is_set}
use quick_start.Speedtest.Packet.{Checksums}
use quick_start.Speedtest.Timer.{Clock, jiffies_after}
use quick_start.Speedtest.Compute.{
  finish, is_sending, next_end_time, compute_loop, speedtest_compute_func,
}
use quick_start.Speedtest.Threads.{
  Left, left, over, Test, Move, moves0, moves1, back0, back1, lost0, lost1, Turn, move0, move1,
  moved, all_moved, count_round, turned, all_turned, rounds,
}
use quick_start.Speedtest.Threads.Moves.{IsOn, AreOn, turned-AreOn}
use quick_start.Speedtest.Threads.Turns.{ends, turn-ends, turn-goes_on, AllBusy, all_busy}

-- No sender has anything left to do.
abbrev AreOver : Test → Type 0
AreOver x = (x.left0 ≡ over) × (x.left1 ≡ over)

module _ (c : Checksums) (k : Clock) (size : ℕ) where
  move-over : (l : Left) (x : Test) → l ≡ over → (move0 c k size l x ≡ x) × (move1 c k size l x ≡ x)
  unfolding move0 move1
  move-over l x e = rw e (refl, refl)

  moved-AreOver : (m : Move) (x : Test) → AreOver x → AreOver (moved c k size m x)
  unfolding moved
  moved-AreOver moves0 x (a, b) = rw (move-over x.left0 x a).0 (a, b)
  moved-AreOver moves1 x (a, b) = rw (move-over x.left1 x b).1 (a, b)
  moved-AreOver (back0 t dev) x o = o
  moved-AreOver (back1 t dev) x o = o
  moved-AreOver lost0 x o = o
  moved-AreOver lost1 x o = o

  all_moved-AreOver :
      (moves : List Move) (x : Test) → AreOver x → AreOver (all_moved c k size moves x)
  unfolding all_moved
  all_moved-AreOver [] x o = o
  all_moved-AreOver (m ∷ moves) x o =
      all_moved-AreOver moves (moved c k size m x) (moved-AreOver m x o)

  turned-AreOver : (turn : Turn) (x : Test) → AreOver x → AreOver (turned c k size turn x)
  unfolding turned count_round
  turned-AreOver turn x o =
      all_moved-AreOver turn.meanwhile (count_round c k size (all_moved c k size turn.moves x))
        (all_moved-AreOver turn.moves x o)

  module _ (last0 last1 : SpeedtestCfg) where
    no_task-over :
        (last cfg : SpeedtestCfg) (l : Left)
        → IsOn k last l cfg
        → (l ≡ over → is_set cfg.task ≡ false) × (is_set cfg.task ≡ false → l ≡ over)
    unfolding is_set
    no_task-over last cfg (left tries jiffies) (t, h) =
        ((λ e. absurd (ground arith)), (λ e. absurd (ground (arith, t, e))))
    no_task-over last cfg over (t, h) = ((λ e. rw t refl), (λ e. refl))

    AreOver-iff :
        (x : Test)
        → AreOn c k size last0 last1 x
        → (AreOver x → is_sending x.wire.speedtest ≡ false)
          × (is_sending x.wire.speedtest ≡ false → AreOver x)
    unfolding is_sending
    AreOver-iff x (a, b) =
        let (p0, q0) = no_task-over last0 x.wire.speedtest.cfg0 x.left0 a in
        let (p1, q1) = no_task-over last1 x.wire.speedtest.cfg1 x.left1 b in
        ((λ (o0, o1). rw (p0 o0, p1 o1) refl), (λ h. (q0 (ground arith), q1 (ground arith))))

    -- A turn without a sender before a loop that ends: the loop ends behind the turn or later.
    idle_turn :
        (turn : Turn) (turns : List Turn) (end_time end : ℕ) (x : Test)
        → is_sending (turned c k size turn x).wire.speedtest ≡ false
        → next_end_time c k turn.jiffies false end_time ≡ end
        → (end < turn.jiffies)
          ⊎ ((s : Speedtest) × (compute_loop c k
                  (rounds c k size turns (turned c k size turn x))
                  end
                  (turned c k size turn x).wire.speedtest
                ≡ some s))
        → (s : Speedtest) × (compute_loop c k
              (rounds c k size (turn ∷ turns) x)
              end_time
              x.wire.speedtest
            ≡ some s)
    idle_turn turn turns end_time end x i e w =
        let x' = turned c k size turn x in
        elim (Bool-cases (ends c k size turn end_time x')) [
          | inl h ↦ (finish x'.wire.speedtest, turn-ends c k size turn turns end_time x h)
          | inr h ↦ elim w [
            | inl l ↦ absurd (ground (arith, h, i, e, l))
            | inr (s, r) ↦ (s, turn-goes_on c k size turn turns end_time x h ∙ rw (i, e) r)
          ]
        ]

    waits :
        (turns : List Turn) (last : Turn) (end : ℕ) (x : Test)
        → 0 < end
        → AreOn c k size last0 last1 x
        → AreOver x
        → end < last.jiffies
        → (s : Speedtest) × (compute_loop c k
              (rounds c k size (turns ++ last ∷ []) x)
              end
              x.wire.speedtest
            ≡ some s)
    unfolding next_end_time
    waits [] last end x p on o l =
        let x' = turned c k size last x in
        let on' = turned-AreOn c k size last0 last1 last x on in
        idle_turn last [] end end x ((AreOver-iff x' on').0 (turned-AreOver last x o))
          (ground arith) (inl l)
    waits (turn ∷ turns) last end x p on o l =
        let x' = turned c k size turn x in
        let on' = turned-AreOn c k size last0 last1 turn x on in
        let o' = turned-AreOver turn x o in
        idle_turn turn (turns ++ last ∷ []) end end x ((AreOver-iff x' on').0 o') (ground arith)
          (inr (waits turns last end x' p on' o' l))

    all_turned-AreOn :
        (turns : List Turn) (x : Test)
        → AreOn c k size last0 last1 x
        → AreOn c k size last0 last1 (all_turned c k size turns x)
    unfolding all_turned
    all_turned-AreOn [] x a = a
    all_turned-AreOn (turn ∷ turns) x a =
        all_turned-AreOn turns (turned c k size turn x) (turned-AreOn c k size last0 last1 turn x a)

    -- Behind the first turn without a sender, the counting thread returns by the first turn that is more
    -- than five seconds later.
    pub compute_func-returns :
        (busy : List Turn) (first : Turn) (rest : List Turn) (last : Turn) (x : Test)
        → AreOn c k size last0 last1 x
        → AllBusy c k size busy x
        → is_sending (turned c k size first (all_turned c k size busy x)).wire.speedtest ≡ false
        → 0 < jiffies_after k first.jiffies 5
        → jiffies_after k first.jiffies 5 < last.jiffies
        → (s : Speedtest) × (speedtest_compute_func c k
              (rounds c k size (busy ++ first ∷ (rest ++ last ∷ [])) x)
              x.wire.speedtest
            ≡ some s)
    unfolding speedtest_compute_func next_end_time
    compute_func-returns busy first rest last x on b i p l =
        let y = all_turned c k size busy x in
        let y' = turned c k size first y in
        let on' = turned-AreOn c k size last0 last1 first y (all_turned-AreOn busy x on) in
        let end = jiffies_after k first.jiffies 5 in
        let (s, r) =
          idle_turn first (rest ++ last ∷ []) 0 end y i refl
            (inr (waits rest last end y' p on' ((AreOver-iff y' on').1 i) l)) in
        (s, all_busy c k size busy (first ∷ (rest ++ last ∷ [])) x b ∙ r)
