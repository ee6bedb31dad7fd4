-- ===== src/Speedtest/Show.antt =====
-- `speedtest_proc_show` of lab/net/speedtest/speedtest.c.
use quick_start.Common.{
  ◌>>=◌, ℕ, ◌+◌, ◌-◌, ◌*◌, ◌/◌, ◌%◌, ◌^◌, List, [], ◌∷◌, ◌++◌, Option, none, some, ◌==◌,
  if◌then◌else◌, codes, decimal, signed_decimal, hex_digit,
}
use quick_start.Common.Int.{to_signed}
use quick_start.Speedtest.Types.{
  RunningState, st_idle, st_running, st_finished, SpeedtestCfg, SpeedtestStatus, Speedtest,
}
use quick_start.Speedtest.Timer.{Clock}

-- uint32_t arithmetic.
abbrev pub sub32 : ℕ → ℕ → ℕ
sub32 a b = (a % 2 ^ 32 + 2 ^ 32 - b % 2 ^ 32) % 2 ^ 32

unfoldable pub used_time : Clock → ℕ → SpeedtestStatus → ℕ
used_time k jiffies st =
    if st.end_time == 0
    then sub32 (jiffies / k.hz) st.begin_time
    else sub32 st.end_time st.begin_time

-- In Mbit/s; `none` is a division by 0.
unfoldable pub shown_speed : Clock → ℕ → SpeedtestCfg → Option ℕ
unfolding used_time
shown_speed k jiffies cfg =
    let used = used_time k jiffies cfg.status in
    if used == 0
    then none
    else some (cfg.status.pktsend_count * cfg.pkt_size * 8 % 2 ^ 64 / (used * 1024 * 1024 % 2 ^ 64))

unfoldable pub state_str : RunningState → List ℕ
state_str st_idle = codes "IDLE"
state_str st_running = codes "RUNNING"
state_str st_finished = codes "FINISHED"

-- `%04x` of 16 bits.
unfoldable pub hex4 : ℕ → List ℕ
hex4 n =
    hex_digit (n / 4096 % 16)
    ∷ hex_digit (n / 256 % 16)
    ∷ hex_digit (n / 16 % 16)
    ∷ hex_digit (n % 16)
    ∷ []

abbrev line : List ℕ → List ℕ → List ℕ → List ℕ
line before value behind = codes "       " ++ (before ++ (value ++ (behind ++ codes "\n")))

-- The numbers of a direction, at its speed in Mbit/s.
unfoldable pub numbers : Clock → ℕ → SpeedtestCfg → ℕ → List ℕ
unfolding hex4 used_time
numbers k jiffies cfg speed =
    line (codes "pktsend count:") (decimal cfg.status.pktsend_count) []
    ++ (line (codes "pktrcv count:") (decimal cfg.status.pktrcv_count) []
        ++ (line (codes "pkterr count:") (decimal cfg.status.pkterr_count) []
            ++ (line (codes "pktlose count:") (decimal cfg.status.pktlose_count) []
                ++ (line (codes "pkt_csum: 0x") (hex4 cfg.status.pkt_csum) []
                    ++ (line (codes "speed: ") (decimal speed) (codes " Mbit/s")
                        ++ line (codes "used time: ") (decimal (used_time k jiffies cfg.status))
                            [])))))

-- A round of the first loop; `none` is a division by 0.
unfoldable pub show_direction : Clock → ℕ → ℕ → SpeedtestCfg → Option (List ℕ)
unfolding state_str numbers shown_speed
show_direction k jiffies i cfg = do
  speed ← shown_speed k jiffies cfg
  some (
      codes "===================  DIRECTION "
      ++ (decimal i
          ++ (codes "  =================\n\nSTATUS: "
              ++ (state_str cfg.status.state ++ (codes "\n\n" ++ numbers k jiffies cfg speed)))))

-- A round of the second loop.
unfoldable pub show_config : ℕ → SpeedtestCfg → List ℕ
show_config i cfg =
    codes "CONFIG "
    ++ (decimal i
        ++ (codes ":\n \t  enable:"
            ++ (signed_decimal (to_signed 32 cfg.enable)
                ++ (codes ",  dur_time:"
                    ++ (decimal cfg.dur_time
                        ++ (codes ", speed: "
                            ++ (decimal cfg.speed
                                ++ (codes ", port: "
                                    ++ (decimal cfg.port
                                        ++ (codes ", pkt_size: "
                                            ++ (decimal cfg.pkt_size ++ codes "\n")))))))))))

-- The text of the report, with `jiffies` as each direction reads it; `none` is a division by 0.
unfoldable pub speedtest_proc_show : Clock → (jiffies0 jiffies1 : ℕ) → Speedtest → Option (List ℕ)
unfolding show_direction show_config
speedtest_proc_show k jiffies0 jiffies1 s = do
  direction0 ← show_direction k jiffies0 0 s.cfg0
  direction1 ← show_direction k jiffies1 1 s.cfg1
  some (
      codes "SPEEDTEST STATUS: READY_"
      ++ (decimal s.st_ready
          ++ (codes "\n"
              ++ (direction0
                  ++ (direction1
                      ++ (codes "\n\n" ++ (show_config 0 s.cfg0 ++ show_config 1 s.cfg1)))))))
