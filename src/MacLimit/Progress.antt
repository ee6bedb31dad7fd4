-- ===== src/MacLimit/Progress.antt =====
-- `limit_check_func` comes to rest: each of its steps brings it nearer to `schedule` or its return.
use quick_start.Common.{
  ℕ, zero, suc, ◌+◌, ◌-◌, ◌*◌, ◌≤◌, ◌<◌, ◌≡◌, refl, inl, inr, Bool, true, false, some, List, [],
  ◌∷◌, length, take, arith, get_elem?, Option-cases, Bool-cases,
}
use quick_start.MacLimit.Types.{
  MaclimitNode, MaclimitState, Pc, loop, lock_new, insert_new, visit, arm, probe, judge, lock_old,
  spare, replace, unlock, finish, doze, asleep, stopped,
}
use quick_start.MacLimit.Scan.{length-list_replace}
use quick_start.MacLimit.Thread.{Env, thread_at, limit_check_step}
use quick_start.MacLimit.System.{Event, sched, step, run, hook_keeps}

abbrev pub is_resting : Pc → Bool
is_resting asleep = true
is_resting stopped = true
is_resting _ = false

-- At most so many steps are left before the thread rests, over a list of `n` nodes.
abbrev pub rank : ℕ → Pc → ℕ
rank n loop = 10 * n + 8
rank n (lock_new _) = 5
rank n (insert_new _) = 4
rank n (visit k) = 10 * (n - k) + 7
rank n (arm k _) = 10 * (n - k - 1) + 15
rank n (probe k _ i) = 10 * (n - k - 1) + 9 + (5 - i)
rank n (judge k _) = 10 * (n - k - 1) + 8
rank n (lock_old _ _) = 6
rank n (spare _ _) = 5
rank n (replace _ _) = 4
rank n unlock = 3
rank n finish = 2
rank n doze = 1
rank n asleep = 0
rank n stopped = 0

in_list :
    (xs : List MaclimitNode) (k : ℕ) (p : MaclimitNode) → get_elem? xs k ≡ some p → k < length xs
in_list [] k p h = absurd (cc)
in_list (x ∷ xs) zero p h = omega arith
in_list (x ∷ xs) (suc k) p h = omega (arith, in_list xs k p h)

thread-rank :
    (pc : Pc) (env : Env) (s : MaclimitState)
    → is_resting pc ≡ false
    → rank (length (thread_at pc env s).list) (thread_at pc env s).pc < rank (length s.list) pc
unfolding thread_at
thread-rank asleep env s h = absurd (cc)
thread-rank stopped env s h = absurd (cc)
thread-rank (visit k) env s h = elim (Option-cases (get_elem? s.list k)) [
  | inl e ↦ ground (arith, e)
  | inr (p, e) ↦ ground (arith, e, in_list s.list k p e)
]
thread-rank (replace k node) env s h = omega (arith, length-list_replace k node s.list)
thread-rank pc env s h = ground arith

-- A step of the thread lowers its rank.
step-rank :
    (env : Env) (s : MaclimitState)
    → is_resting s.pc ≡ false
    → rank (length (step s (sched env)).list) (step s (sched env)).pc < rank (length s.list) s.pc
unfolding step limit_check_step
step-rank env s h = thread-rank s.pc env s h

-- How often the thread is given a step.
abbrev pub turns : List Event → ℕ
turns [] = 0
turns (sched _ ∷ es) = suc (turns es)
turns (_ ∷ es) = turns es

-- Some prefix of the events brings the thread to rest.
abbrev pub ComesToRest : MaclimitState → List Event → Type 0
ComesToRest s es = (n : ℕ) × (is_resting (run s (take n es)).pc ≡ true)

rank-rests : (n : ℕ) (pc : Pc) → rank n pc ≤ 0 → is_resting pc ≡ true
rank-rests n asleep h = refl
rank-rests n stopped h = refl
rank-rests n pc h = absurd (omega arith)

rank-turns :
    (s : MaclimitState) (e : Event) (es : List Event)
    → is_resting s.pc ≡ false
    → rank (length s.list) s.pc ≤ turns (e ∷ es)
    → rank (length (step s e).list) (step s e).pc ≤ turns es
rank-turns s (sched env) es b h = omega (arith, step-rank env s b)
rank-turns s e es b h = let (p, l, m) = hook_keeps s e refl in rw (p, l) h

-- A history that gives the thread as many steps as its rank, `10 n + 8` at most over `n` nodes where
-- it starts at the head of its loop, brings it to rest, whatever the hooks do in between.
pub limit_check-rests :
    (s : MaclimitState) (es : List Event) → rank (length s.list) s.pc ≤ turns es → ComesToRest s es
unfolding run
limit_check-rests s [] h = (0, rank-rests (length s.list) s.pc h)
limit_check-rests s (e ∷ es) h = elim (Bool-cases (is_resting s.pc)) [
  | inl r ↦ (0, r)
  | inr b ↦ let (n, rest) = limit_check-rests (step s e) es (rank-turns s e es b h) in (suc n, rest)
]
