-- ===== src/Speedtest/Module.antt =====
-- `speedtest_init_module` and `speedtest_exit_module` of lab/net/speedtest/speedtest.c.
use quick_start.Common.{Bool, true, false, [], Option, some, ◌>>=◌, if◌then◌else◌}
use quick_start.Speedtest.Types.{no_rx, rcv_probe, no_task, zero_status, SpeedtestCfg, Speedtest}
use quick_start.Speedtest.Packet.{Checksums}
use quick_start.Speedtest.Timer.{Clock, speedtest_loopdetect_timer_init}
use quick_start.Speedtest.Command.{Kernel, stop_allspeedtest_task, stop_compspeedtest_task}

-- The module's data with what it holds of the kernel's.
pub record Loaded : Type 0 where
  pub data_ : Speedtest
  pub proc_entry : Bool
  pub kfifo : Bool
  pub tx_hook : Bool

-- The static data when the kernel has put the module into memory.
abbrev static_cfg : SpeedtestCfg
static_cfg = record {
  enable = 0;
  dur_time = 0;
  speed = 0;
  pkt_size = 0;
  port = 0;
  status = zero_status;
  task = no_task;
}

abbrev pub unloaded : Loaded
unloaded = record {
  data_ = record {
    cfg0 = static_cfg;
    cfg1 = static_cfg;
    compute_task = no_task;
    comp_skbqueue = [];
    timer = false;
    st_ready = 0;
    st_loop_timer_enable = 1;
    rx_hook = no_rx;
    ready_endtime = 0;
  };
  proc_entry = false;
  kfifo = false;
  tx_hook = false;
}

-- The label `err`.
unfoldable pub err : Loaded → Bool × Loaded
err m = (false, record m { proc_entry = false })

unfoldable pub set_hooks : Loaded → Bool × Loaded
set_hooks m = (
  true,
  record m {
    kfifo = true;
    tx_hook = true;
    data_ =
        speedtest_loopdetect_timer_init
          (record m.data_ { rx_hook = rcv_probe; comp_skbqueue = [] });
  },
)

-- Whether the module is loaded; the arguments are whether the entry and the queue can be made.
unfoldable pub speedtest_init_module : Bool → Bool → Loaded → Bool × Loaded
unfolding err set_hooks
speedtest_init_module entry queue m =
    if entry
    then if queue
      then set_hooks (record m { proc_entry = true })
      else err (record m { proc_entry = true })
    else (false, m)

unfoldable pub unload : Loaded → Speedtest → Loaded
unload m s = record m {
  data_ = record s { rx_hook = no_rx; comp_skbqueue = [] };
  proc_entry = false;
  kfifo = false;
  tx_hook = false;
}

-- `none` is an exit that does not end.
unfoldable pub speedtest_exit_module : Checksums → Clock → Kernel → Loaded → Option Loaded
speedtest_exit_module c k e m = do
  senders_stopped ← stop_allspeedtest_task k e (record m.data_ { timer = false })
  stopped ← stop_compspeedtest_task c senders_stopped
  some (unload m stopped)
