-- ===== src/MacLimit/Verdict.antt =====
-- Which packets `net_hook_func` drops.
use quick_start.Common.{
  ℕ, ◌≡◌, ◌≢◌, ◌↔◌, inl, inr, true, false, some, length, codes, str_eq, eq_of_str_eq, arith,
}
use quick_start.Common.Int.{pos, ◌≤ℤ◌}
use quick_start.MacLimit.Types.{MaclimitState}
use quick_start.MacLimit.Scan.{Absent, scan_lem}
use quick_start.MacLimit.Hooks.{nf_drop, Packet, ipproto_udp, is_limited, admit, net_hook_func}

-- The packet comes under the limit: it is on, the protocol is not UDP, the device is br0.
pub record IsLimited (p : Packet) (s : MaclimitState) : Type 0 where
  pub on : s.cfg.enable ≢ pos 0
  pub not_udp : p.protocol ≢ ipproto_udp
  pub bridge : p.in_dev.name ≡ codes "br0"

pub is_limited-true : (p : Packet) (s : MaclimitState) → is_limited p s ≡ true → IsLimited p s
unfolding is_limited
is_limited-true p s h = ground (arith, eq_of_str_eq p.in_dev.name (codes "br0"))

pub is_limited-of : (p : Packet) (s : MaclimitState) → IsLimited p s → is_limited p s ≡ true
unfolding is_limited str_eq
is_limited-of p s h = rw h.bridge (ground arith)

pub record IsRefused (p : Packet) (s : MaclimitState) : Type 0 where
  pub limited : IsLimited p s
  pub free : s.locked ≡ false
  pub unknown : Absent p.h_source s.list
  pub full : s.cfg.limit_num ≤ℤ pos (length s.list)

admit-drop :
    (p : Packet) (n : ℕ) (s : MaclimitState)
    → ((admit p n s).0 ≡ nf_drop) ↔ (s.cfg.limit_num ≤ℤ pos n)
unfolding admit
admit-drop p n s = (λ h. ground arith, λ h. ground arith)

drop-IsRefused :
    (p : Packet) (s : MaclimitState) → (net_hook_func (some p) s).0 ≡ nf_drop → IsRefused p s
unfolding net_hook_func
drop-IsRefused p s h = elim (scan_lem p.h_source s.list 0) [
  | inl f ↦ absurd (ground (arith, f.0))
  | inr f ↦ record {
    limited = is_limited-true p s (ground arith);
    free = ground arith;
    unknown = f.1;
    full = ground (arith, f.0, (admit-drop p (length s.list) s).0);
  }
]

IsRefused-drop :
    (p : Packet) (s : MaclimitState) → IsRefused p s → (net_hook_func (some p) s).0 ≡ nf_drop
unfolding net_hook_func
IsRefused-drop p s h = elim (scan_lem p.h_source s.list 0) [
  | inl f ↦ absurd (f.1 h.unknown)
  | inr f ↦
      ground
        (arith, f.0, is_limited-of p s h.limited, h.free, (admit-drop p (length s.list) s).1 h.full)
]

-- A packet is dropped exactly when the limit is on, it is no UDP packet, it comes in by br0, the
-- list is not being changed, its source address is not listed, and the list has reached the limit.
pub net_hook_func-drop :
    (p : Packet) (s : MaclimitState) → ((net_hook_func (some p) s).0 ≡ nf_drop) ↔ IsRefused p s
net_hook_func-drop p s = (drop-IsRefused p s, IsRefused-drop p s)
