-- ===== src/Speedtest/Hooks.antt =====
-- The receive and transmit hooks of lab/net/speedtest/speedtest.c.
use quick_start.Common.{
  ℕ, ◌+◌, ◌*◌, ◌/◌, ◌%◌, List, [], ◌∷◌, ◌++◌, false, ◌||◌, not, none, some, take, drop, length,
  replicate, ltb, ◌==◌, str_eq, codes, if◌then◌else◌,
}
use quick_start.Speedtest.Types.{Skb, Speedtest, is_speedtest_task_running}
use quick_start.Speedtest.Timer.{Clock}

abbrev pub st0_mac : List ℕ
st0_mac = replicate 6 0x10

abbrev pub st1_mac : List ℕ
st1_mac = replicate 6 0x40

-- `ethd->h_source`
abbrev pub h_source : Skb → List ℕ
h_source skb = take 6 (drop 6 skb.bytes)

-- 0 is a packet that the hook has freed, 1 one that goes on.
unfoldable pub xmit_speedtest_pkt : Skb → Speedtest → ℕ
xmit_speedtest_pkt skb s =
    if s.st_ready == 3 || is_speedtest_task_running s
    then 0
    else if not (s.st_loop_timer_enable == 0)
    then 1
    else elim skb.dev [
      | none ↦ 1
      | some name ↦
          if str_eq name (codes "vif_lan1")
            || (str_eq name (codes "br0") || str_eq name (codes "eth0.1"))
          then 1
          else 0
    ]

-- `comp_skbqueue` has 2 MiB, for pointers that are as wide as an `unsigned long`.
abbrev pub speedtest_skbqueue_len : Clock → ℕ
speedtest_skbqueue_len k = 2 * 1024 * 1024 / (k.long_bits / 8)

-- A full queue takes nothing; the packet counts as taken all the same.
unfoldable pub fast_rcv_speedtest_pkt : Clock → Skb → Speedtest → ℕ × Speedtest
fast_rcv_speedtest_pkt k skb s =
    if ltb (length s.comp_skbqueue) (speedtest_skbqueue_len k)
    then (1, record s { comp_skbqueue = s.comp_skbqueue ++ skb ∷ [] })
    else (1, s)

-- `st_ready |= 1` and `st_ready |= 2`, on its two bits.
unfoldable pub set_ready1 : ℕ → ℕ
set_ready1 r = if r % 2 == 0 then r + 1 else r

unfoldable pub set_ready2 : ℕ → ℕ
set_ready2 r = if r / 2 % 2 == 0 then r + 2 else r

-- The label `free_probe_skb`.
unfoldable pub free_probe_skb : Speedtest → ℕ × Speedtest
free_probe_skb s = (1, if s.st_ready == 3 then record s { timer = false } else s)

-- 1 is a packet that the hook has taken, 0 one to forward.
unfoldable pub rcv_speedtest_probe_pkt : Skb → Speedtest → ℕ × Speedtest
unfolding free_probe_skb
rcv_speedtest_probe_pkt skb s =
    if is_speedtest_task_running s
    then (1, s)
    else if str_eq (h_source skb) st0_mac
    then free_probe_skb (record s { st_ready = set_ready1 s.st_ready })
    else if str_eq (h_source skb) st1_mac
    then free_probe_skb (record s { st_ready = set_ready2 s.st_ready })
    else (0, s)
