-- ===== src/Speedtest/Sound/Reach.antt =====
-- The states that lab/net/speedtest/speedtest.c can come to.
use quick_start.Common.{true}
use quick_start.Speedtest.Module.{speedtest_init_module, unloaded}
use quick_start.Speedtest.System.{idle, World}

-- The module that was just loaded.
abbrev pub loaded : World
loaded = record {
  data_ = (speedtest_init_module true true unloaded).1.data_;
  stage = idle;
  leaving = 0;
  closing = 0;
}
