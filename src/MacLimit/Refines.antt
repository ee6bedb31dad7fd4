-- ===== src/MacLimit/Refines.antt =====
-- dirver/maclimit/maclimit.c against a specification that knows no list, only a collection of addresses.
use mathlib.Core.Quot
use quick_start.Common.{
  ◌<◌, ◌≡◌, refl, ap, ◌∙◌, Bool, false, not, ◌&&◌, List, some, Option-cases, Mac, str_eq, codes,
  Bool-cases, inl, inr, get_elem?, ◌==◌, if◌then◌else◌, arith,
}
use quick_start.Common.Int.{pos, ltb_ℤ}
use quick_start.MacLimit.Types.{
  MaclimitNode, MaclimitCfg, MaclimitState, Pc, insert_new, replace, initial,
}
use quick_start.MacLimit.Hooks.{
  Verdict, nf_accept, nf_drop, Packet, ipproto_udp, truthy, is_limited, admit, net_hook_func,
}
use quick_start.MacLimit.Thread.{Env, thread_at, limit_check_step}
use quick_start.MacLimit.System.{Event, sched, step, run, hook_keeps}
use quick_start.MacLimit.Scan.{Absent, scan_lem}
use quick_start.MacLimit.Invariant.{At, Inv, run-Inv, initial-Inv}
use quick_start.MacLimit.Terminals.{
  Terminals, holds, size, put, swap, macs, count, count-zero, zero-Absent, count-at, length-macs,
  macs-list_replace, list_replace-swap, list_replace-none,
}

-- The collection of a state.
abbrev pub terminals : MaclimitState → Terminals
terminals s = Quot.mk (macs s.list)

-- The specification's verdict: over the limit, an address that is not held is dropped.
abbrev pub policy : Packet → MaclimitCfg → Bool → Terminals → Verdict
policy p cfg locked t =
    if truthy cfg.enable
      && (not (p.protocol == ipproto_udp)
          && (str_eq p.in_dev.name (codes "br0")
              && (not locked
                  && (holds p.h_source t == 0 && not (ltb_ℤ (pos (size t)) cfg.limit_num)))))
    then nf_drop
    else nf_accept

-- The specification's steps: the collection stays, it takes a new address, or a new address takes the
-- place of one that it holds.
pub data Evolves (t t' : Terminals) : Type 0 where
  stays : t' ≡ t → Evolves t t'
  puts : (new : Mac) → holds new t ≡ 0 → t' ≡ put new t → Evolves t t'
  swaps : (old new : Mac) → 0 < holds old t → holds new t ≡ 0 → t' ≡ swap old new t → Evolves t t'

listed-holds : (m : Mac) (xs : List MaclimitNode) → ¬ Absent m xs → (count m (macs xs) == 0) ≡ false
listed-holds m xs h = elim (Bool-cases (count m (macs xs) == 0)) [
  | inl e ↦ absurd (h (zero-Absent m xs (ground arith)))
  | inr e ↦ e
]

hook-policy :
    (p : Packet) (s : MaclimitState)
    → (net_hook_func (some p) s).0 ≡ policy p s.cfg s.locked (terminals s)
unfolding net_hook_func is_limited admit
hook-policy p s = elim (scan_lem p.h_source s.list 0) [
  | inl f ↦ ground (arith, f.0, listed-holds p.h_source s.list f.1)
  | inr f ↦ ground (arith, f.0, count-zero p.h_source s.list f.1, length-macs s.list)
]

thread-Evolves :
    (pc : Pc) (env : Env) (s : MaclimitState)
    → At pc s
    → Evolves (terminals s) (terminals (thread_at pc env s))
unfolding thread_at
thread-Evolves (insert_new node) env s at = puts node.mac (count-zero node.mac s.list at.1.1) refl
thread-Evolves (replace k node) env s at = elim (Option-cases (get_elem? (macs s.list) k)) [
  | inl gone ↦ stays (
      ap (λ l. Quot.mk l)
        (macs-list_replace k node s.list ∙ list_replace-none k node.mac (macs s.list) gone))
  | inr (old, there) ↦
      swaps old node.mac (count-at k old (macs s.list) there) (count-zero node.mac s.list at.1.1) (
        ap (λ l. Quot.mk l) (macs-list_replace k node s.list)
        ∙ list_replace-swap k node.mac old (macs s.list) there)
]
thread-Evolves pc env s at =
    let same : (thread_at pc env s).list ≡ s.list = ground arith in
    stays (ap (λ l. Quot.mk (macs l)) same)

step-Evolves :
    (s : MaclimitState) (e : Event) → Inv s → Evolves (terminals s) (terminals (step s e))
unfolding step limit_check_step
step-Evolves s (sched env) h = thread-Evolves s.pc env s h.at
step-Evolves s e h = stays (ap (λ l. Quot.mk (macs l)) (hook_keeps s e refl).1)

-- In every history the module implements the specification: a packet gets the verdict that the
-- collection of listed addresses gives it, in whatever order they are listed; and every event leaves
-- the collection as it is, adds the address of a terminal that was not in it, or puts such an address
-- in the place of one that was.
pub run-Evolves :
    (es : List Event) (e : Event) (p : Packet)
    → let s = run initial es in
      ((net_hook_func (some p) s).0 ≡ policy p s.cfg s.locked (terminals s))
      × Evolves (terminals s) (terminals (step s e))
run-Evolves es e p = (
  hook-policy p (run initial es),
  step-Evolves (run initial es) e (run-Inv initial es initial-Inv),
)
