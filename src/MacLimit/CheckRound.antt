-- ===== src/MacLimit/CheckRound.antt =====
-- A whole check of `limit_check_func`, from the packet that starts it to its end.
use quick_start.Common.{
  ◌+◌, ◌≡◌, ◌∙◌, refl, ap, inl, inr, Bool, true, false, some, List, [], ◌∷◌, ◌++◌, length, arith,
}
use quick_start.Common.Int.{ltb_ℤ, pos}
use quick_start.MacLimit.Types.{add_check, MaclimitNode, MaclimitState, visit, asleep, finish}
use quick_start.MacLimit.Scan.{Absent, scan_lem}
use quick_start.MacLimit.Verdict.{IsLimited, is_limited-of}
use quick_start.MacLimit.Hooks.{Packet, send_add_opt_to_thread, admit, net_hook_func}
use quick_start.MacLimit.Thread.{thread_at, limit_check_step}
use quick_start.MacLimit.System.{Event, net_in, sched, step, run}
use quick_start.MacLimit.Round.{calm, node_of, IsIdle}
use quick_start.MacLimit.Check.{IsChecked, replace_first_silent, check_events, leaked, check_lem}

after_check_request : Packet → MaclimitState → MaclimitState
after_check_request p s = record s {
  new_terminal = record s.new_terminal { node = node_of p; flag = add_check };
  runnable = true;
  pc = asleep;
  locked = false;
}

net_hook-check :
    (p : Packet) (s : MaclimitState)
    → IsIdle s
    → IsLimited p s
    → Absent p.h_source s.list
    → ltb_ℤ (pos (length s.list)) s.cfg.limit_num ≡ false
    → (net_hook_func (some p) s).1 ≡ after_check_request p s
unfolding net_hook_func admit send_add_opt_to_thread after_check_request
net_hook-check p s i l a h = elim (scan_lem p.h_source s.list 0) [
  | inl g ↦ absurd (g.1 a)
  | inr g ↦ ground (arith, g.0, is_limited-of p s l)
]

run-append : (s : MaclimitState) (es fs : List Event) → run s (es ++ fs) ≡ run (run s es) fs
unfolding run
run-append s [] fs = refl
run-append s (e ∷ es) fs = run-append (step s e) es fs

run_hook :
    (p : Packet) (s : MaclimitState) (es : List Event)
    → IsIdle s
    → IsLimited p s
    → Absent p.h_source s.list
    → ltb_ℤ (pos (length s.list)) s.cfg.limit_num ≡ false
    → run s (net_in (some p) ∷ es) ≡ run (after_check_request p s) es
unfolding run step
run_hook p s es i l a h = ap (λ t. run t es) (net_hook-check p s i l a h)

to_visit :
    (p : Packet) (s : MaclimitState) (es : List Event)
    → run (after_check_request p s) (sched calm ∷ sched calm ∷ es)
      ≡ run (record (after_check_request p s) { pc = visit 0 }) es
unfolding run step limit_check_step thread_at after_check_request
to_visit p s es = refl

to_rest :
    (t : MaclimitState)
    → t.pc ≡ finish
    → t.locked ≡ false
    → let u = run t (sched calm ∷ sched calm ∷ []) in
      IsIdle u × (u.list ≡ t.list) × (u.nodes ≡ t.nodes)
unfolding run step limit_check_step thread_at
to_rest t e f = ground arith

-- The history of a whole check, from the packet to the next rest.
abbrev pub round_events : (MaclimitNode → Bool) → Packet → List MaclimitNode → List Event
round_events alive p xs =
    net_in (some p)
    ∷ sched calm
    ∷ sched calm
    ∷ (check_events alive xs ++ sched calm ∷ sched calm ∷ [])

round_start :
    (alive : MaclimitNode → Bool) (p : Packet) (s : MaclimitState)
    → IsIdle s
    → IsLimited p s
    → Absent p.h_source s.list
    → ltb_ℤ (pos (length s.list)) s.cfg.limit_num ≡ false
    → run s (round_events alive p s.list)
      ≡ run
          (run (record (after_check_request p s) { pc = visit 0 }) (check_events alive s.list))
          (sched calm ∷ sched calm ∷ [])
round_start alive p s i l a h =
    run_hook p s _ i l a h
    ∙ to_visit p s _
    ∙ run-append _ (check_events alive s.list) (sched calm ∷ sched calm ∷ [])

-- At rest and at the limit, a limited packet with an address that is not listed starts a check. Where
-- the nodes that are alive answer the first request to them and the others send no answer, the check
-- ends at rest, the first node that is not alive has given its place to the new one, no other node
-- has changed, and one more node than before stays allocated if there was such a node: the second
-- that `limit_check_func` creates for it.
pub add_check_round :
    (alive : MaclimitNode → Bool) (p : Packet) (s : MaclimitState)
    → IsIdle s
    → IsLimited p s
    → Absent p.h_source s.list
    → ltb_ℤ (pos (length s.list)) s.cfg.limit_num ≡ false
    → let t = run s (round_events alive p s.list) in
      IsIdle t
      × (t.list ≡ replace_first_silent alive (node_of p) s.list)
      × (t.nodes ≡ s.nodes + leaked alive s.list)
unfolding after_check_request
add_check_round alive p s i l a h = rw (round_start alive p s i l a h) (
    let (j, k, m) = to_rest _ checked.ended checked.free in
    (j, k ∙ checked.result, m ∙ checked.alloc))
  where
    checked :
        IsChecked alive [] s.list
          (after_check_request p s)
          (run (record (after_check_request p s) { pc = visit 0 }) (check_events alive s.list))
    checked = check_lem alive s.list [] (after_check_request p s) refl refl
