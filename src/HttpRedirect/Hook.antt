-- ===== src/HttpRedirect/Hook.antt =====
-- The hook and the proc file of lab/net/httpredirect/httpredirect.c, and loading it.
use quick_start.Common.{
  ℕ, List, ◌++◌, Bool, false, ◌&&◌, not, Option, none, some, length, take, drop, codes, ltb, ◌==◌,
  if◌then◌else◌,
}
use quick_start.HttpRedirect.Types.{NetKernel, Skb, Config, url_size, ipproto_tcp, protocol}
use quick_start.HttpRedirect.Rewrite.{rewrite_payload, check_tcp, check_ip}

-- What a packet comes to. `overread` is a packet whose buffer ends before the bytes that are searched,
-- `overrun` one whose buffer ends before the last byte that is written.
pub data Verdict : Type 0 where
  nf_drop : Verdict
  nf_accept : Skb → Verdict
  overread : Verdict
  overrun : Verdict

module _ (k : NetKernel) where
  -- The two searches, in the memory from the payload on.
  unfoldable pub is_404 : List ℕ → Bool
  is_404 mem = k.strnstr (drop 8 mem) (codes "404") 10 && k.strnstr mem (codes "HTTP") 5

  unfoldable pub rewritten : Skb → Option (List ℕ) → Verdict
  unfolding check_tcp check_ip
  rewritten skb none = overrun
  rewritten skb (some mem) = nf_accept (
      check_ip k (
        check_tcp k (record skb {
          payload = take (length skb.payload) mem;
          room = drop (length skb.payload) mem;
        })))

  unfoldable pub http404_nf_cb : Config → Option Skb → Verdict
  unfolding is_404 rewritten protocol
  http404_nf_cb cfg none = nf_drop
  http404_nf_cb cfg (some skb) =
      if protocol skb == ipproto_tcp && not (cfg.enable == 0)
      then if ltb (length (skb.payload ++ skb.room)) 19
        then overread
        else if is_404 (skb.payload ++ skb.room)
        then rewritten skb (rewrite_payload cfg.url (length skb.payload) (skb.payload ++ skb.room))
        else nf_accept skb
      else nf_accept skb

-- The points at which the hook is registered.
pub data HookNum : Type 0 where
  local_out forward : HookNum

-- `test_nf_ops`: the hook at each point.
unfoldable pub test_nf_ops : NetKernel → HookNum → Config → Option Skb → Verdict
test_nf_ops k local_out = http404_nf_cb k
test_nf_ops k forward = http404_nf_cb k

-- What `sscanf` converts of a text with the format `%d %s`.
pub data Scanned : Type 0 where
  nothing : Scanned
  number : ℕ → Scanned
  both : ℕ → List ℕ → Scanned

-- The count that is returned with the new configuration, or a word that is longer than its array.
pub data Written : Type 0 where
  overflow : Written
  wrote : ℕ → Config → Written

unfoldable pub store : ℕ → Config → Scanned → Written
store size cfg nothing = wrote size cfg
store size cfg (number n) = wrote size (record cfg { enable = n })
store size cfg (both n word) =
    if ltb (length word) url_size then wrote size (record { enable = n; url = word }) else overflow

-- `buf` is the text in the memory of the process, up to its NUL, which need not be `size` bytes long.
unfoldable pub test_conntrack_fs_write : (sscanf : List ℕ → Scanned) → List ℕ → ℕ → Config → Written
unfolding store
test_conntrack_fs_write sscanf buf size cfg =
    if ltb url_size size then wrote size cfg else store size cfg (sscanf buf)

-- What is registered with the kernel.
pub record Registered : Type 0 where
  pub proc_entry : Bool
  pub hooks : Bool

-- `test_module_init` over whether the entry and the hooks can be registered; the entry is not tested.
unfoldable pub test_module_init : Bool → Bool → Bool × Registered
test_module_init entry hooks = (hooks, record { proc_entry = entry; hooks = hooks })

unfoldable pub test_module_exit : Registered → Registered
test_module_exit r = record { proc_entry = false; hooks = false }
