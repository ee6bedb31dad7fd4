-- ===== src/Speedtest/System.antt =====
-- The parts of lab/net/speedtest/speedtest.c run together: hooks, timer, threads and commands.
use quick_start.Common.{ℕ, ◌+◌, ◌≡◌, ◌≢◌, List, [], Bool, true, some, length, if◌then◌else◌}
use quick_start.Speedtest.Types.{
  Skb, no_rx, fast_rcv, rcv_probe, RxHook, no_task, live_task, dead_task, Speedtest,
}
use quick_start.Speedtest.Packet.{Checksums}
use quick_start.Speedtest.Hooks.{fast_rcv_speedtest_pkt, rcv_speedtest_probe_pkt}
use quick_start.Speedtest.Timer.{Clock, speedtest_loop_detect_cb}
use quick_start.Speedtest.Compute.{drain, restart_timer, lose_all}
use quick_start.Speedtest.Sender.{Try, count_sent, end_thread, begin_status}
use quick_start.Speedtest.Command.{
  ran, scan0, configure, create_task, is_created, task_run_flag, start_allspeedtest_task,
}

-- What the kernel does with a packet that comes in: 0 is one that it forwards itself.
unfoldable pub received : Clock → RxHook → Skb → Speedtest → ℕ × Speedtest
received k no_rx skb s = (0, s)
received k fast_rcv skb s = fast_rcv_speedtest_pkt k skb s
received k rcv_probe skb s = rcv_speedtest_probe_pkt skb s

-- Where a command stands.
pub data Stage : Type 0 where
  idle : Stage  -- no command runs
  stopping0 stopping1 : Stage  -- in `stop_allspeedtest_task`, at the loop for a direction
  creating0 creating1 : Stage  -- before a direction's thread is created
  hooking : Stage  -- before the receive hook is set
  readying : Stage  -- before `st_ready` is reset
  waiting : Stage  -- in `stop_compspeedtest_task`
  starting : Stage  -- before `compute_task` is set
  undoing0 undoing1 : Stage  -- in the second `stop_allspeedtest_task`
  waking : Stage  -- before `start_allspeedtest_task`

-- The data, the command, and how many counting threads have cleared their pointer and not yet put back
-- the hook, and how many have put it back and not yet returned.
pub record World : Type 0 where
  pub data_ : Speedtest
  pub stage : Stage
  pub leaving : ℕ
  pub closing : ℕ

-- The stage behind a thread's creation.
unfoldable pub created_or_out : Bool → Stage → Stage
created_or_out created next = if created then next else idle

module _ (c : Checksums) (k : Clock) where
  -- One step of the module: each part does what it may do in a state, and a command or the end of the
  -- counting thread goes on by one access to the shared data.
  pub data Step : World → World → Type 0 where
    receives :
        (skb : Skb) (w : World)
        → Step w (record w { data_ = (received k w.data_.rx_hook skb w.data_).1 })
    ticks :
        (made : Bool) (jiffies : ℕ) (w : World) (s' : Speedtest)
        → w.data_.timer ≡ true
        → speedtest_loop_detect_cb k made jiffies w.data_ ≡ some s'
        → Step w (record w { data_ = s' })
    -- A sender that gets no packet returns with its pointer set.
    fails0 :
        (w : World)
        → w.data_.cfg0.task ≡ live_task
        → Step w (record w {
          data_ = record w.data_ { cfg0 = record w.data_.cfg0 { task = dead_task } };
        })
    begins0 :
        (jiffies : ℕ) (pkt : List ℕ) (w : World)
        → w.data_.cfg0.task ≡ live_task
        → Step w (record w {
          data_ = record w.data_ { cfg0 = begin_status c k jiffies pkt w.data_.cfg0 };
        })
    sends0 :
        (t : Try) (w : World)
        → w.data_.cfg0.task ≡ live_task
        → Step w (record w { data_ = record w.data_ { cfg0 = count_sent t w.data_.cfg0 } })
    ends0 :
        (jiffies : ℕ) (w : World)
        → w.data_.cfg0.task ≡ live_task
        → Step w (record w { data_ = record w.data_ { cfg0 = end_thread k jiffies w.data_.cfg0 } })
    fails1 :
        (w : World)
        → w.data_.cfg1.task ≡ live_task
        → Step w (record w {
          data_ = record w.data_ { cfg1 = record w.data_.cfg1 { task = dead_task } };
        })
    begins1 :
        (jiffies : ℕ) (pkt : List ℕ) (w : World)
        → w.data_.cfg1.task ≡ live_task
        → Step w (record w {
          data_ = record w.data_ { cfg1 = begin_status c k jiffies pkt w.data_.cfg1 };
        })
    sends1 :
        (t : Try) (w : World)
        → w.data_.cfg1.task ≡ live_task
        → Step w (record w { data_ = record w.data_ { cfg1 = count_sent t w.data_.cfg1 } })
    ends1 :
        (jiffies : ℕ) (w : World)
        → w.data_.cfg1.task ≡ live_task
        → Step w (record w { data_ = record w.data_ { cfg1 = end_thread k jiffies w.data_.cfg1 } })
    -- The counting thread: its loop, and what follows it.
    counts :
        (w : World)
        → w.data_.compute_task ≡ live_task
        → Step w (record w { data_ = drain c w.data_.comp_skbqueue w.data_ })
    empties :
        (w : World)
        → w.data_.compute_task ≡ live_task
        → Step w (record w { data_ = record w.data_ { comp_skbqueue = [] } })
    forgets :
        (w : World)
        → w.data_.compute_task ≡ live_task
        → Step w (record w {
          data_ = record w.data_ { compute_task = no_task };
          leaving = w.leaving + 1;
        })
    rehooks :
        (n : ℕ) (w : World)
        → w.leaving ≡ n + 1
        → Step w (record w {
          data_ = record w.data_ { rx_hook = rcv_probe };
          leaving = n;
          closing = w.closing + 1;
        })
    closes :
        (n : ℕ) (w : World)
        → w.closing ≡ n + 1
        → Step w (record w { data_ = lose_all (restart_timer w.data_); closing = n })
    -- A command: the usage line, or the values.
    refuses :
        (values : List ℕ) (w : World)
        → w.stage ≡ idle
        → length values ≢ 5
        → Step w (record w { data_ = scan0 values w.data_ })
    configures :
        (values : List ℕ) (w : World)
        → w.stage ≡ idle
        → length values ≡ 5
        → Step w (record w { data_ = configure values w.data_; stage = stopping0 })
    stops0 :
        (w : World)
        → w.stage ≡ stopping0
        → w.data_.cfg0.task ≡ no_task
        → Step w (record w { stage = stopping1 })
    stops1 :
        (w : World)
        → w.stage ≡ stopping1
        → w.data_.cfg1.task ≡ no_task
        → Step w (record w { stage = creating0 })
    creates0 :
        (created : Bool) (w : World)
        → w.stage ≡ creating0
        → Step w (record w {
          data_ = record w.data_ { cfg0 = create_task w.data_.cfg0 };
          stage = created_or_out (is_created w.data_.cfg0 created) creating1;
        })
    creates1 :
        (created : Bool) (w : World)
        → w.stage ≡ creating1
        → Step w (record w {
          data_ = record w.data_ { cfg1 = create_task w.data_.cfg1 };
          stage =
              created_or_out
                (is_created w.data_.cfg1 created)
                (created_or_out (task_run_flag w.data_) hooking);
        })
    hooks :
        (w : World)
        → w.stage ≡ hooking
        → Step w (record w { data_ = record w.data_ { rx_hook = fast_rcv }; stage = readying })
    readies :
        (w : World)
        → w.stage ≡ readying
        → Step w (record w { data_ = record w.data_ { st_ready = 0 }; stage = waiting })
    waits :
        (w : World)
        → w.stage ≡ waiting
        → w.data_.compute_task ≡ no_task
        → Step w (record w { stage = starting })
    starts :
        (w : World)
        → w.stage ≡ starting
        → Step w (record w { data_ = record w.data_ { compute_task = live_task }; stage = waking })
    -- The counting thread could not be created.
    lacks :
        (w : World)
        → w.stage ≡ starting
        → Step w
            (record w { data_ = record w.data_ { compute_task = dead_task }; stage = undoing0 })
    undoes0 :
        (w : World)
        → w.stage ≡ undoing0
        → w.data_.cfg0.task ≡ no_task
        → Step w (record w { stage = undoing1 })
    undoes1 :
        (w : World)
        → w.stage ≡ undoing1
        → w.data_.cfg1.task ≡ no_task
        → Step w (record w { stage = idle })
    wakes :
        (w : World) (s' : Speedtest)
        → w.stage ≡ waking
        → start_allspeedtest_task w.data_ ≡ ran s'
        → Step w (record w { data_ = s'; stage = idle })

  -- The states that a state can come to.
  pub data Steps : World → World → Type 0 where
    rests : (w : World) → Steps w w
    goes : (w w' w'' : World) → Steps w w' → Step w' w'' → Steps w w''
