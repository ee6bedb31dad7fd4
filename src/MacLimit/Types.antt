-- ===== src/MacLimit/Types.antt =====
-- The types of dirver/maclimit/maclimit.c, and the module's static data in one record.
use quick_start.Common.{
  ℕ, ◌+◌, List, [], Mac, Bool, true, false, Option, none, some, ◌==◌, if◌then◌else◌,
}
use quick_start.Common.Int.{ℤ, pos}

-- The fields that the module reads of a `struct net_device`.
pub record NetDevice : Type 0 where
  pub name : List ℕ
  pub dev_addr : Mac

-- `maclimit_node_t`. Its link is left out: `maclimit_list` is a list of nodes.
pub record MaclimitNode : Type 0 where
  pub dev : NetDevice
  pub mac : Mac
  pub srcip : ℕ
  pub dstip : ℕ

-- `maclimit_cfg_t`
pub record MaclimitCfg : Type 0 where
  pub enable : ℤ
  pub limit_num : ℤ

-- `enum add_mode`
pub data AddMode : Type 0 where
  no_add_task add_immediate add_check arp_replay_check arp_replay_ok : AddMode

-- `new_terminal_t`
pub record NewTerminal : Type 0 where
  pub node : MaclimitNode
  pub arp_cmp_mac : Mac
  pub flag : AddMode

-- What `arp_send` is called with in `limit_check_func`, in the order of its arguments.
pub record ArpRequest : Type 0 where
  pub dest_ip : ℕ
  pub dev : NetDevice
  pub src_ip : ℕ
  pub src_hw : Mac
  pub target_hw : Mac

-- Where `limit_check_func` stands, with its live locals. `k` is the place of `pos` in the list, and
-- `i` counts the ARP requests to it.
pub data Pc : Type 0 where
  loop : Pc  -- the test of the outer `while`
  lock_new : (node : MaclimitNode) → Pc  -- ADD_IMMEDIATE, before `write_lock`
  insert_new : (node : MaclimitNode) → Pc  -- before `list_add`
  visit : (k : ℕ) → Pc  -- ADD_CHECK, head of `list_for_each_entry_safe`
  arm : (k : ℕ) (pos : MaclimitNode) → Pc  -- before the `memcpy` to `arp_cmp_mac`
  probe : (k : ℕ) (pos : MaclimitNode) (i : ℕ) → Pc  -- the test of the `for`
  judge : (k : ℕ) (pos : MaclimitNode) → Pc  -- the `if` behind it
  lock_old : (k : ℕ) (node : MaclimitNode) → Pc  -- before `write_lock`
  spare : (k : ℕ) (node : MaclimitNode) → Pc  -- before the second `create_new_node`
  replace : (k : ℕ) (node : MaclimitNode) → Pc  -- before `list_replace` and `kfree`
  unlock : Pc  -- before `write_unlock`
  finish : Pc  -- before the flag is reset
  doze : Pc  -- before `set_current_state`
  asleep : Pc  -- in `schedule`
  stopped : Pc  -- returned

-- Where the nodes stand. The addresses are those of successive allocations.
pub record Heap : Type 0 where
  pub addrs : List ℕ  -- of the listed nodes, in the order of the list
  pub node : ℕ  -- the thread's `node`
  pub live : ℕ → Bool  -- allocated and not freed
  pub next : ℕ  -- what `kmalloc` returns next

-- `kmalloc` and `kfree`.
abbrev pub allocated : Heap → Heap
allocated h = record h { live = λ x. if x == h.next then true else h.live x; next = h.next + 1 }

unfoldable pub freed : Option ℕ → Heap → Heap
freed none h = h
freed (some a) h = record h { live = λ x. if x == a then false else h.live x }

pub record MaclimitState : Type 0 where
  pub cfg : MaclimitCfg
  pub list : List MaclimitNode  -- `maclimit_list`
  pub new_terminal : NewTerminal
  pub locked : Bool  -- `maclimit_rwlock` is held for writing
  pub runnable : Bool  -- the thread's task state is TASK_RUNNING
  pub pc : Pc
  pub nodes : ℕ  -- how many nodes are allocated and not freed
  pub heap : Heap  -- which ones
  pub arps : List ArpRequest  -- sent so far, the last one first

abbrev pub zero_mac : Mac
zero_mac = record { b0 = 0; b1 = 0; b2 = 0; b3 = 0; b4 = 0; b5 = 0 }

-- The static data is zero but for the configuration; the null device is never read.
abbrev pub zero_node : MaclimitNode
zero_node = record {
  dev = record { name = []; dev_addr = zero_mac };
  mac = zero_mac;
  srcip = 0;
  dstip = 0;
}

-- The static initialisers, with the thread created and woken.
abbrev pub initial : MaclimitState
initial = record {
  cfg = record { enable = pos 0; limit_num = pos 1 };
  list = [];
  new_terminal = record { node = zero_node; arp_cmp_mac = zero_mac; flag = no_add_task };
  locked = false;
  runnable = true;
  pc = loop;
  nodes = 0;
  heap = record { addrs = []; node = 0; live = λ x. false; next = 1 };
  arps = [];
}
