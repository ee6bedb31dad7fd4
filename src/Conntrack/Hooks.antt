-- ===== src/Conntrack/Hooks.antt =====
-- The hooks and the proc file of lab/net/pktconntrack/test_conntrack.c, and loading it.
use quick_start.Common.{
  ℕ, ◌+◌, ◌*◌, ◌≡◌, ◌<◌, refl, ap, ◌∙◌, arith, ◌&&◌, [], ◌∷◌, List, Bool, false, Option, none, some,
  ◌==◌,
}
use quick_start.Conntrack.Address.{ip_str_to_num, ip_str_to_num-bytes}

-- The bytes of `iph->saddr` in memory, which is all that the hooks read.
pub record Skb : Type 0 where
  pub s0 : ℕ
  pub s1 : ℕ
  pub s2 : ℕ
  pub s3 : ℕ

-- The points at which the hooks are registered.
pub data HookNum : Type 0 where
  pre_routing local_in forward local_out post_routing : HookNum

-- `ntohl(iph->saddr)`: the first byte in memory is the highest.
abbrev pub source_ip : Skb → ℕ
source_ip skb = ((skb.s0 * 256 + skb.s1) * 256 + skb.s2) * 256 + skb.s3

abbrev pub nf_accept : ℕ
nf_accept = 1

-- Each hook gives its verdict and whether it has printed its line; `cmp_src_ip` is the module's state.
unfoldable pub test_nf_pre_routing : ℕ → Option Skb → ℕ × Bool
test_nf_pre_routing cmp_src_ip none = (nf_accept, false)
test_nf_pre_routing cmp_src_ip (some skb) = (nf_accept, source_ip skb == cmp_src_ip)

unfoldable pub test_nf_local_in : ℕ → Option Skb → ℕ × Bool
test_nf_local_in cmp_src_ip none = (nf_accept, false)
test_nf_local_in cmp_src_ip (some skb) = (nf_accept, source_ip skb == cmp_src_ip)

unfoldable pub test_nf_forward : ℕ → Option Skb → ℕ × Bool
test_nf_forward cmp_src_ip none = (nf_accept, false)
test_nf_forward cmp_src_ip (some skb) = (nf_accept, source_ip skb == cmp_src_ip)

unfoldable pub test_nf_local_out : ℕ → Option Skb → ℕ × Bool
test_nf_local_out cmp_src_ip none = (nf_accept, false)
test_nf_local_out cmp_src_ip (some skb) = (nf_accept, source_ip skb == cmp_src_ip)

unfoldable pub test_nf_post_routing : ℕ → Option Skb → ℕ × Bool
test_nf_post_routing cmp_src_ip none = (nf_accept, false)
test_nf_post_routing cmp_src_ip (some skb) = (nf_accept, source_ip skb == cmp_src_ip)

-- `test_nf_ops`: the hook at each point.
unfoldable pub test_nf_ops : HookNum → ℕ → Option Skb → ℕ × Bool
unfolding test_nf_pre_routing test_nf_local_in test_nf_forward test_nf_local_out
    test_nf_post_routing
test_nf_ops pre_routing = test_nf_pre_routing
test_nf_ops local_in = test_nf_local_in
test_nf_ops forward = test_nf_forward
test_nf_ops local_out = test_nf_local_out
test_nf_ops post_routing = test_nf_post_routing

-- The count that is returned, and the new `cmp_src_ip`. `sscanf` is what the kernel's converts of a
-- text with the format `%d.%d.%d.%d`.
unfoldable pub test_conntrack_fs_write : (sscanf : List ℕ → List ℕ) → List ℕ → ℕ → ℕ × ℕ
test_conntrack_fs_write sscanf buf size = (size, ip_str_to_num (sscanf buf))

-- What is registered with the kernel.
pub record Registered : Type 0 where
  pub proc_entry : Bool
  pub hooks : Bool

-- `test_module_init` over whether the entry and the hooks can be registered; the entry is not tested.
unfoldable pub test_module_init : Bool → Bool → Bool × Registered
test_module_init entry hooks = (hooks, record { proc_entry = entry; hooks = hooks })

unfoldable pub test_module_exit : Registered → Registered
test_module_exit r = record { proc_entry = false; hooks = false }

-- The same test at each point.
ops_lem :
    (point : HookNum) (cmp_src_ip : ℕ) (skb : Skb)
    → test_nf_ops point cmp_src_ip (some skb) ≡ (nf_accept, source_ip skb == cmp_src_ip)
unfolding test_nf_ops
ops_lem pre_routing cmp_src_ip skb = refl
ops_lem local_in cmp_src_ip skb = refl
ops_lem forward cmp_src_ip skb = refl
ops_lem local_out cmp_src_ip skb = refl
ops_lem post_routing cmp_src_ip skb = refl

source_ip-bytes :
    (a b c d : ℕ) (skb : Skb)
    → (a < 256) × (b < 256) × (c < 256) × (d < 256)
    → (skb.s0 < 256) × (skb.s1 < 256) × (skb.s2 < 256) × (skb.s3 < 256)
    → (source_ip skb == ((a * 256 + b) * 256 + c) * 256 + d)
      ≡ (skb.s0 == a && (skb.s1 == b && (skb.s2 == c && skb.s3 == d)))
source_ip-bytes a b c d skb h k = ground arith

-- Where sscanf reads four bytes from what is written to the proc file, the hooks look for the
-- address of these bytes: at each of the five points every packet is accepted, and a line is
-- printed exactly for the packets whose source address has these four bytes.
pub fs_write-ops :
    (sscanf : List ℕ → List ℕ) (buf : List ℕ) (size a b c d : ℕ) (point : HookNum) (skb : Skb)
    → sscanf buf ≡ a ∷ b ∷ c ∷ d ∷ []
    → (a < 256) × (b < 256) × (c < 256) × (d < 256)
    → (skb.s0 < 256) × (skb.s1 < 256) × (skb.s2 < 256) × (skb.s3 < 256)
    → test_nf_ops point (test_conntrack_fs_write sscanf buf size).1 (some skb)
      ≡ (nf_accept, skb.s0 == a && (skb.s1 == b && (skb.s2 == c && skb.s3 == d)))
unfolding test_conntrack_fs_write
fs_write-ops sscanf buf size a b c d point skb e (ha, hb, hc, hd) k =
    rw (e, ip_str_to_num-bytes a b c d ha hb hc hd)
      (ops_lem point (((a * 256 + b) * 256 + c) * 256 + d) skb
        ∙ ap (λ t. (nf_accept, t)) (source_ip-bytes a b c d skb (ha, hb, hc, hd) k))
