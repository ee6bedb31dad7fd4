-- ===== src/MacLimit/Check.antt =====
-- A whole check of `limit_check_func` (its ADD_CHECK case) against a specification of it.
use mathlib.Core.List.{append_assoc}
use quick_start.Common.{
  ℕ, ◌+◌, ◌≡◌, ◌∙◌, refl, sym, ap, inl, inr, Bool, true, false, none, some, List, [], ◌∷◌, ◌++◌,
  length, length-append, arith, get_elem?, mac_eq_self, replicate, Bool-cases, if◌then◌else◌,
}
use quick_start.MacLimit.Types.{arp_replay_ok, MaclimitNode, MaclimitState, visit, finish}
use quick_start.MacLimit.Hooks.{arp_reply, arpin_hook_func}
use quick_start.MacLimit.Thread.{thread_at, limit_check_step, list_replace, send_request}
use quick_start.MacLimit.System.{Event, arp_in, sched, step, run}
use quick_start.MacLimit.Round.{calm}

-- The specification of a check: the first node that is not alive gives its place to the new one.
unfoldable pub replace_first_silent :
    (MaclimitNode → Bool) → MaclimitNode → List MaclimitNode → List MaclimitNode
replace_first_silent alive new [] = []
replace_first_silent alive new (x ∷ xs) =
    if alive x then x ∷ replace_first_silent alive new xs else new ∷ xs

-- An ARP packet from a node.
abbrev pub reply_of : MaclimitNode → Event
reply_of x =
    arp_in
      (some (some (record { src = x.mac; srcip = x.dstip; dst = x.dev.dev_addr; dstip = x.srcip })))

-- A history of the check of the nodes `xs`: each that is alive answers the first request to it, one
-- that is not gets five requests, and is replaced.
pub check_events : (MaclimitNode → Bool) → List MaclimitNode → List Event
check_events alive [] = sched calm ∷ []
check_events alive (x ∷ xs) =
    let rest = check_events alive xs in
    if alive x
    then replicate 3 (sched calm) ++ reply_of x ∷ sched calm ∷ sched calm ∷ rest
    else replicate 13 (sched calm)

-- Where the check of a node at place `k` leaves the module if it answers.
answered : ℕ → MaclimitNode → MaclimitState → MaclimitState
unfolding send_request
answered k x s =
    let t = send_request x s in
    record t {
      new_terminal = record s.new_terminal { arp_cmp_mac = x.mac; flag = arp_replay_ok };
      runnable = true;
      pc = visit (k + 1);
    }

alive_steps :
    (k : ℕ) (x : MaclimitNode) (s : MaclimitState) (es : List Event)
    → get_elem? s.list k ≡ some x
    → run
        (record s { pc = visit k })
        (replicate 3 (sched calm) ++ reply_of x ∷ sched calm ∷ sched calm ∷ es)
      ≡ run (answered k x s) es
unfolding run step limit_check_step thread_at answered arpin_hook_func arp_reply
alive_steps k x s es e = ground (arith, e, mac_eq_self x.mac)

silent_steps :
    (k : ℕ) (x : MaclimitNode) (s : MaclimitState)
    → get_elem? s.list k ≡ some x
    → let t = run (record s { pc = visit k }) (replicate 13 (sched calm)) in
      (t.pc ≡ finish)
      × (t.list ≡ list_replace k s.new_terminal.node s.list)
      × (t.nodes ≡ s.nodes + 1)
      × (t.locked ≡ false)
unfolding run step limit_check_step thread_at
silent_steps k x s e = ground (arith, e)

-- The nodes that a check leaves allocated without listing them: one if it replaces a node.
pub leaked : (MaclimitNode → Bool) → List MaclimitNode → ℕ
leaked alive [] = 0
leaked alive (x ∷ xs) = if alive x then leaked alive xs else 1

get_elem?-length :
    (done : List MaclimitNode) (x : MaclimitNode) (xs : List MaclimitNode)
    → get_elem? (done ++ x ∷ xs) (length done) ≡ some x
get_elem?-length [] x xs = refl
get_elem?-length (y ∷ done) x xs = get_elem?-length done x xs

get_elem?-end : (done : List MaclimitNode) → get_elem? (done ++ []) (length done) ≡ none
get_elem?-end [] = refl
get_elem?-end (y ∷ done) = get_elem?-end done

list_replace-length :
    (done : List MaclimitNode) (x new : MaclimitNode) (xs : List MaclimitNode)
    → list_replace (length done) new (done ++ x ∷ xs) ≡ done ++ new ∷ xs
unfolding list_replace
list_replace-length [] x new xs = refl
list_replace-length (y ∷ done) x new xs = ap (◌∷◌ y) (list_replace-length done x new xs)

-- A check that has passed the nodes `done` and is about to visit `xs`.
pub record IsChecked (alive : MaclimitNode → Bool) (done xs : List MaclimitNode)
    (s t : MaclimitState) : Type 0 where
  pub ended : t.pc ≡ finish
  pub result : t.list ≡ done ++ replace_first_silent alive s.new_terminal.node xs
  pub alloc : t.nodes ≡ s.nodes + leaked alive xs
  pub free : t.locked ≡ false

end_steps :
    (done : List MaclimitNode) (s : MaclimitState)
    → s.list ≡ done ++ []
    → run (record s { pc = visit (length done) }) (sched calm ∷ []) ≡ record s { pc = finish }
unfolding run step limit_check_step thread_at
end_steps done s e = ground (arith, e, get_elem?-end done)

-- The two ways to pass a node.
pass_alive :
    (alive : MaclimitNode → Bool) (x : MaclimitNode) (xs done : List MaclimitNode)
    (s t : MaclimitState)
    → alive x ≡ true
    → IsChecked alive (done ++ x ∷ []) xs (answered (length done) x s) t
    → IsChecked alive done (x ∷ xs) s t
unfolding replace_first_silent leaked answered
pass_alive alive x xs done s t a h = record {
  ended = h.ended;
  result = rw a (h.result ∙ append_assoc done (x ∷ []) _);
  alloc = rw a h.alloc;
  free = h.free;
}

pass_silent :
    (alive : MaclimitNode → Bool) (x : MaclimitNode) (xs done : List MaclimitNode)
    (s : MaclimitState)
    → alive x ≡ false
    → s.list ≡ done ++ x ∷ xs
    → IsChecked alive done
        (x ∷ xs)
        s
        (run (record s { pc = visit (length done) }) (replicate 13 (sched calm)))
unfolding replace_first_silent leaked
pass_silent alive x xs done s a e = record {
  ended = steps.0;
  result = rw a (
      steps.1
      ∙ ap (list_replace (length done) s.new_terminal.node) e
      ∙ list_replace-length done x s.new_terminal.node xs);
  alloc = rw a steps.2;
  free = steps.3;
}
  where
    steps :
        let t = run (record s { pc = visit (length done) }) (replicate 13 (sched calm)) in
        (t.pc ≡ finish)
        × (t.list ≡ list_replace (length done) s.new_terminal.node s.list)
        × (t.nodes ≡ s.nodes + 1)
        × (t.locked ≡ false)
    steps = silent_steps (length done) x s (rw e (get_elem?-length done x xs))

pub check_lem :
    (alive : MaclimitNode → Bool) (xs done : List MaclimitNode) (s : MaclimitState)
    → s.list ≡ done ++ xs
    → s.locked ≡ false
    → IsChecked alive done xs s
        (run (record s { pc = visit (length done) }) (check_events alive xs))
unfolding check_events replace_first_silent leaked answered
check_lem alive [] done s e f =
    rw (end_steps done s e) (record { ended = refl; result = e; alloc = omega arith; free = f })
check_lem alive (x ∷ xs) done s e f = elim (Bool-cases (alive x)) [
  | inl a ↦
      rw
        (
          a,
          alive_steps (length done) x s (check_events alive xs) (rw e (get_elem?-length done x xs)),
        )
        (pass_alive alive x xs done s _ a (
          rw (length-append done (x ∷ [])) at (
            check_lem alive xs (done ++ x ∷ []) (answered (length done) x s)
              (e ∙ sym (append_assoc done (x ∷ []) xs)) f)))
  | inr a ↦ rw a (pass_silent alive x xs done s a e)
]
