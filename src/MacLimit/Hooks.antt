-- ===== src/MacLimit/Hooks.antt =====
-- The netfilter hooks of dirver/maclimit/maclimit.c. A hook runs to its end between two steps of the
-- thread.
use quick_start.Common.{
  ℕ, ◌+◌, List, [], ◌∷◌, Bool, true, false, not, ◌&&◌, Option, none, some, Mac, mac_eq, str_eq,
  codes, ◌==◌, if◌then◌else◌,
}
use quick_start.Common.Int.{ℤ, pos, negsuc, ltb_ℤ}
use quick_start.MacLimit.Types.{
  NetDevice, MaclimitNode, AddMode, no_add_task, add_immediate, add_check, arp_replay_check,
  arp_replay_ok, MaclimitState,
}

pub data Verdict : Type 0 where
  nf_accept nf_drop : Verdict

-- What `net_hook_func` reads of the `sk_buff`, and `state->in`.
pub record Packet : Type 0 where
  pub protocol : ℕ
  pub saddr : ℕ
  pub daddr : ℕ
  pub h_source : Mac
  pub in_dev : NetDevice

abbrev pub ipproto_udp : ℕ
ipproto_udp = 17

-- An `int` as a condition.
abbrev pub truthy : ℤ → Bool
truthy (pos n) = not (n == 0)
truthy (negsuc n) = true

abbrev pub is_no_add : AddMode → Bool
is_no_add no_add_task = true
is_no_add _ = false

abbrev pub is_replay_check : AddMode → Bool
is_replay_check arp_replay_check = true
is_replay_check _ = false

-- The loop of `net_hook_func`: whether the address is listed, and `connect_num` behind the loop.
unfoldable pub scan : Mac → List MaclimitNode → ℕ → Bool × ℕ
scan srcmac [] connect_num = (false, connect_num)
scan srcmac (p ∷ rest) connect_num =
    if mac_eq p.mac srcmac then (true, connect_num + 1) else scan srcmac rest (connect_num + 1)

unfoldable pub send_add_opt_to_thread : Packet → AddMode → MaclimitState → MaclimitState
send_add_opt_to_thread p mode s =
    if is_no_add s.new_terminal.flag
    then record s {
      new_terminal = record s.new_terminal {
        node = record { dev = p.in_dev; mac = p.h_source; srcip = p.saddr; dstip = p.daddr };
        flag = mode;
      };
      runnable = true;
    }
    else s

-- The tests that bring a packet to the list.
unfoldable pub is_limited : Packet → MaclimitState → Bool
is_limited p s =
    truthy s.cfg.enable && (not (p.protocol == ipproto_udp) && str_eq p.in_dev.name (codes "br0"))

-- Behind the loop, for an address that is not listed.
unfoldable pub admit : Packet → ℕ → MaclimitState → Verdict × MaclimitState
admit p connect_num s =
    if ltb_ℤ (pos connect_num) s.cfg.limit_num
    then (nf_accept, send_add_opt_to_thread p add_immediate s)
    else (nf_drop, send_add_opt_to_thread p add_check s)

-- A failed `read_trylock` lets the packet through.
unfoldable pub net_hook_func : Option Packet → MaclimitState → Verdict × MaclimitState
net_hook_func none s = (nf_accept, s)
net_hook_func (some p) s =
    if not (is_limited p s)
    then (nf_accept, s)
    else if s.locked
    then (nf_accept, s)
    else let (known, connect_num) = scan p.h_source s.list 0 in
      if known then (nf_accept, s) else admit p connect_num s

-- `struct arp_info`
pub record ArpInfo : Type 0 where
  pub src : Mac
  pub srcip : ℕ
  pub dst : Mac
  pub dstip : ℕ

unfoldable pub arp_reply : ArpInfo → MaclimitState → MaclimitState
arp_reply arpinfo s =
    if is_replay_check s.new_terminal.flag && mac_eq arpinfo.src s.new_terminal.arp_cmp_mac
    then record s { new_terminal = record s.new_terminal { flag = arp_replay_ok }; runnable = true }
    else s

-- The outer `none` is a null `skb`, the inner one a null ARP header.
unfoldable pub arpin_hook_func : Option (Option ArpInfo) → MaclimitState → Verdict × MaclimitState
unfolding arp_reply
arpin_hook_func (some (some arpinfo)) s = (nf_accept, arp_reply arpinfo s)
arpin_hook_func _ s = (nf_accept, s)
