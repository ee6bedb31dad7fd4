-- ===== src/Speedtest/Unload.antt =====
-- Loading and unloading of lab/net/speedtest/speedtest.c, and the first second of its report.
use quick_start.Common.{
  ℕ, ◌/◌, ◌≡◌, refl, ap, ◌∙◌, List, [], ◌∷◌, Bool, true, false, ◌&&◌, not, none, some, ◌==◌,
  if◌then◌else◌, arith,
}
use quick_start.Speedtest.Types.{no_task, live_task, no_rx, rcv_probe, SpeedtestCfg, Skb, Speedtest}
use quick_start.Speedtest.Packet.{Checksums}
use quick_start.Speedtest.Timer.{Clock, speedtest_loopdetect_timer_init}
use quick_start.Speedtest.Compute.{count_pkt, drain, finish, restart_timer, lose_all}
use quick_start.Speedtest.Sender.{begin_status}
use quick_start.Speedtest.Command.{
  Kernel, stop_task, stop_compute, stop_allspeedtest_task, stop_compspeedtest_task,
}
use quick_start.Speedtest.Module.{
  Loaded, err, set_hooks, unload, speedtest_init_module, speedtest_exit_module,
}
use quick_start.Speedtest.Show.{used_time, shown_speed}

-- Loading is all or nothing: with the entry and the queue, the hooks are set and the timer runs; without
-- one of them it reports a failure and leaves everything as it was.
pub init_module_atomic :
    (entry queue : Bool) (m : Loaded)
    → m.proc_entry ≡ false
    → speedtest_init_module entry queue m ≡ (
        if entry && queue
        then (
          true,
          record m {
            proc_entry = true;
            kfifo = true;
            tx_hook = true;
            data_ = record m.data_ { timer = true; rx_hook = rcv_probe; comp_skbqueue = [] };
          },
        )
        else (false, m))
unfolding speedtest_init_module err set_hooks speedtest_loopdetect_timer_init
init_module_atomic entry queue m h = ground arith

module _ (c : Checksums) (k : Clock) (e : Kernel) where
  count_pkt-enable :
      (skb : Skb) (s : Speedtest)
      → ((count_pkt c skb s).st_loop_timer_enable ≡ s.st_loop_timer_enable)
        × ((count_pkt c skb s).timer ≡ s.timer)
  unfolding count_pkt
  count_pkt-enable skb s = ground arith

  drain-enable :
      (skbs : List Skb) (s : Speedtest)
      → ((drain c skbs s).st_loop_timer_enable ≡ s.st_loop_timer_enable)
        × ((drain c skbs s).timer ≡ s.timer)
  unfolding drain
  drain-enable [] s = (refl, refl)
  drain-enable (skb ∷ skbs) s =
      let (a, b) = drain-enable skbs (count_pkt c skb s) in
      let (a', b') = count_pkt-enable skb s in (a ∙ a', b ∙ b')

  finish-timer :
      (s : Speedtest) → s.timer ≡ false → (finish s).timer ≡ not (s.st_loop_timer_enable == 0)
  unfolding finish restart_timer lose_all speedtest_loopdetect_timer_init
  finish-timer s h = ground arith

  -- Unloading while the counting thread waits for its end: the thread is stopped only after the timer,
  -- and so with the loop detection switched on the timer is pending when the module is gone. All else
  -- is given back.
  pub exit_module-counting :
      (m : Loaded)
      → m.data_.cfg0.task ≡ no_task
      → m.data_.cfg1.task ≡ no_task
      → m.data_.compute_task ≡ live_task
      → (m' : Loaded) × (speedtest_exit_module c k e m ≡ some m')
        × (m'.data_.timer ≡ not (m.data_.st_loop_timer_enable == 0))
        × (m'.data_.rx_hook ≡ no_rx)
        × (m'.proc_entry ≡ false)
        × (m'.kfifo ≡ false)
        × (m'.tx_hook ≡ false)
  unfolding speedtest_exit_module stop_allspeedtest_task stop_task stop_compspeedtest_task
      stop_compute unload
  exit_module-counting m t0 t1 tc =
      let s = record m.data_ { timer = false } in
      let counted = drain c s.comp_skbqueue s in
      let (a, b) = drain-enable s.comp_skbqueue s in
      (
        unload m (finish counted),
        rw (t0, t1, tc) refl,
        finish-timer counted b ∙ ap (λ x. not (x == 0)) a,
        refl,
        refl,
        refl,
        refl,
      )

  no_time :
      (jiffies now : ℕ) (pkt : List ℕ) (cfg : SpeedtestCfg)
      → cfg.status.end_time ≡ 0
      → now / k.hz ≡ jiffies / k.hz
      → used_time k now (begin_status c k jiffies pkt cfg).status ≡ 0
  unfolding used_time begin_status
  no_time jiffies now pkt cfg h q = rw (h, q) (omega arith)

  -- In the second in which a sender has begun, reading the report divides by 0.
  pub show-first_second :
      (jiffies now : ℕ) (pkt : List ℕ) (cfg : SpeedtestCfg)
      → cfg.status.end_time ≡ 0
      → now / k.hz ≡ jiffies / k.hz
      → shown_speed k now (begin_status c k jiffies pkt cfg) ≡ none
  unfolding shown_speed
  show-first_second jiffies now pkt cfg h q = rw (no_time jiffies now pkt cfg h q) refl
