-- ===== src/MacLimit/Thread.antt =====
-- `limit_check_func` and `create_new_node` of dirver/maclimit/maclimit.c, one access to shared data
-- at a time.
use quick_start.Common.{
  ℕ, zero, suc, ◌+◌, ◌-◌, List, [], ◌∷◌, Bool, true, false, ◌&&◌, Option, none, some, Mac,
  get_elem?, ltb, if◌then◌else◌,
}
use quick_start.MacLimit.Types.{
  MaclimitNode, AddMode, no_add_task, add_immediate, add_check, arp_replay_check, ArpRequest,
  MaclimitState, allocated, freed, Pc, loop, lock_new, insert_new, visit, arm, probe, judge,
  lock_old, spare, replace, unlock, finish, doze, asleep, stopped,
}
use quick_start.MacLimit.Hooks.{is_replay_check}

abbrev pub check_arp_packet_num : ℕ
check_arp_packet_num = 5

abbrev pub boardcast_address : Mac
boardcast_address = record { b0 = 0xff; b1 = 0xff; b2 = 0xff; b3 = 0xff; b4 = 0xff; b5 = 0xff }

-- What the kernel answers in a step: `kthread_should_stop()`, and whether `kmalloc` has memory.
pub record Env : Type 0 where
  pub should_stop : Bool
  pub memory : Bool

unfoldable pub create_new_node : Env → MaclimitNode → Option MaclimitNode
create_new_node env new =
    if env.memory
    then some (record { dev = new.dev; mac = new.mac; srcip = new.srcip; dstip = new.dstip })
    else none

-- The list with the node at place `k` replaced: `list_replace`.
unfoldable pub list_replace {ℓ} : {A : Type ℓ} → ℕ → A → List A → List A
list_replace k new [] = []
list_replace zero new (x ∷ xs) = new ∷ xs
list_replace (suc k) new (x ∷ xs) = x ∷ list_replace k new xs

abbrev goto : Pc → MaclimitState → MaclimitState
goto pc s = record s { pc = pc }

abbrev set_flag : AddMode → MaclimitState → MaclimitState
set_flag mode s = record s { new_terminal = record s.new_terminal { flag = mode } }

-- A call of `create_new_node`; on NULL the code breaks out to `finish`.
unfoldable pub with_node : Env → (MaclimitNode → Pc) → MaclimitState → MaclimitState
unfolding create_new_node
with_node env next s = elim (create_new_node env s.new_terminal.node) [
  | none ↦ goto finish s
  | some node ↦ record s {
    pc = next node;
    nodes = s.nodes + 1;
    heap = record (allocated s.heap) { node = s.heap.next };
  }
]

-- The `switch` on the flag.
unfoldable pub dispatch : AddMode → Env → MaclimitState → MaclimitState
unfolding with_node
dispatch add_immediate env s = with_node env lock_new s
dispatch add_check env s = goto (visit 0) s
dispatch _ env s = goto finish s

unfoldable pub send_request : MaclimitNode → MaclimitState → MaclimitState
send_request p s = record s { arps = request ∷ s.arps }
  where
    request : ArpRequest
    request = record {
      dest_ip = p.srcip;
      dev = p.dev;
      src_ip = p.dstip;
      src_hw = p.dev.dev_addr;
      target_hw = boardcast_address;
    }

-- The head of `list_for_each_entry_safe`: the end of the list, or the next `pos`, for which the
-- flag is set.
unfoldable pub visit_at : Option MaclimitNode → ℕ → MaclimitState → MaclimitState
visit_at none k s = goto finish s
visit_at (some p) k s = goto (arm k p) (set_flag arp_replay_check s)

-- One step from each place. The timed sleep in the `for` ends by itself, so it is no step of its
-- own; `schedule` returns only when a wake-up has made the task runnable.
unfoldable pub thread_at : Pc → Env → MaclimitState → MaclimitState
unfolding dispatch with_node send_request list_replace visit_at create_new_node
thread_at loop env s =
    if env.should_stop then goto stopped s else dispatch s.new_terminal.flag env s
thread_at (lock_new node) env s = record s { pc = insert_new node; locked = true }
thread_at (insert_new node) env s = record s {
  pc = unlock;
  list = node ∷ s.list;
  heap = record s.heap { addrs = s.heap.node ∷ s.heap.addrs };
}
thread_at (visit k) env s = visit_at (get_elem? s.list k) k s
thread_at (arm k p) env s =
    goto (probe k p 0) (record s { new_terminal = record s.new_terminal { arp_cmp_mac = p.mac } })
thread_at (probe k p i) env s =
    if ltb i check_arp_packet_num && is_replay_check s.new_terminal.flag
    then goto (probe k p (i + 1)) (send_request p s)
    else goto (judge k p) s
thread_at (judge k p) env s =
    if is_replay_check s.new_terminal.flag
    then with_node env (lock_old k) s
    else goto (visit (k + 1)) s
thread_at (lock_old k node) env s = record s { pc = spare k node; locked = true }
thread_at (spare k node) env s = elim (create_new_node env s.new_terminal.node) [
  | none ↦ goto (replace k node) s
  | some _ ↦ record s { pc = replace k node; nodes = s.nodes + 1; heap = allocated s.heap }
]
thread_at (replace k node) env s = record s {
  pc = unlock;
  list = list_replace k node s.list;
  nodes = s.nodes - 1;
  heap =
      freed (get_elem? s.heap.addrs k)
        (record s.heap { addrs = list_replace k s.heap.node s.heap.addrs });
}
thread_at unlock env s = record s { pc = finish; locked = false }
thread_at finish env s = goto doze (set_flag no_add_task s)
thread_at doze env s = record s { pc = asleep; runnable = false }
thread_at asleep env s = if s.runnable then goto loop s else s
thread_at stopped env s = s

unfoldable pub limit_check_step : Env → MaclimitState → MaclimitState
unfolding thread_at
limit_check_step env s = thread_at s.pc env s
