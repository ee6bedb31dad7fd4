-- ===== src/Speedtest/Tests/Whole.antt =====
-- A whole test of lab/net/speedtest/speedtest.c.
use quick_start.Common.{ℕ, List, [], ◌∷◌}

-- A process that writes "1 10 100 60 0" to the file.
abbrev pub scans : List ℕ → List ℕ
scans buf = 1 ∷ 10 ∷ 100 ∷ 60 ∷ 0 ∷ []
