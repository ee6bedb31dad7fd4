-- ===== src/Speedtest/Types.antt =====
-- The types of lab/net/speedtest/speedtest.c, and the module's static data in one record.
use quick_start.Common.{
  ℕ, ◌+◌, ◌-◌, ◌%◌, ◌^◌, List, Bool, true, false, Option, ◌||◌, ◌==◌, if◌then◌else◌,
}

-- `running_state_t`
pub data RunningState : Type 0 where
  st_idle st_running st_finished : RunningState

-- `struct speedtest_status`
pub record SpeedtestStatus : Type 0 where
  pub state : RunningState
  pub begin_time : ℕ  -- uint32_t
  pub end_time : ℕ
  pub pktrcv_count : ℕ  -- uint64_t
  pub pktsend_count : ℕ
  pub pkterr_count : ℕ
  pub pktlose_count : ℕ
  pub pkt_csum : ℕ

-- A `struct task_struct *`: NULL; a thread that runs and sets the pointer to NULL when it ends; or a
-- pointer that nothing sets to NULL: to a thread that is not woken up yet, or has returned before its
-- loop, or an error code.
pub data Task : Type 0 where
  no_task live_task dead_task : Task

-- Whether the pointer is not NULL.
unfoldable pub is_set : Task → Bool
is_set no_task = false
is_set live_task = true
is_set dead_task = true

-- `struct speedtest_cfg`
pub record SpeedtestCfg : Type 0 where
  pub enable : ℕ  -- uint32_t
  pub dur_time : ℕ
  pub speed : ℕ
  pub pkt_size : ℕ
  pub port : ℕ  -- uint8_t
  pub status : SpeedtestStatus
  pub task : Task

-- What the module reads of an `sk_buff`: the name of its device, and its bytes from `data` on, where
-- the Ethernet header stands.
pub record Skb : Type 0 where
  pub dev : Option (List ℕ)
  pub bytes : List ℕ

-- The functions that `hs_speedtest_rx_hook` is set to.
pub data RxHook : Type 0 where
  no_rx fast_rcv rcv_probe : RxHook

pub record Speedtest : Type 0 where
  pub cfg0 : SpeedtestCfg  -- st_cfg[0]
  pub cfg1 : SpeedtestCfg  -- st_cfg[1]
  pub compute_task : Task
  pub comp_skbqueue : List Skb  -- the oldest first
  pub timer : Bool  -- `loop_detect_timer` is pending
  pub st_ready : ℕ
  pub st_loop_timer_enable : ℕ
  pub rx_hook : RxHook
  pub ready_endtime : ℕ  -- static in `speedtest_loop_detect_cb`

-- uint64_t arithmetic.
abbrev pub add64 : ℕ → ℕ → ℕ
add64 a b = (a + b) % 2 ^ 64

abbrev pub sub64 : ℕ → ℕ → ℕ
sub64 a b = (a + 2 ^ 64 - b) % 2 ^ 64

unfoldable pub get_speedtest_port_by_index : ℕ → ℕ
get_speedtest_port_by_index i = if i == 0 then 1 else 4

unfoldable pub is_speedtest_task_running : Speedtest → Bool
unfolding is_set
is_speedtest_task_running s = is_set s.compute_task || (is_set s.cfg0.task || is_set s.cfg1.task)

abbrev pub zero_status : SpeedtestStatus
zero_status = record {
  state = st_idle;
  begin_time = 0;
  end_time = 0;
  pktrcv_count = 0;
  pktsend_count = 0;
  pkterr_count = 0;
  pktlose_count = 0;
  pkt_csum = 0;
}
