-- ===== src/Conntrack/Tests.antt =====
-- The theorems about lab/net/pktconntrack/test_conntrack.c at an address.
use quick_start.Common.{ℕ, ◌≡◌, refl, List, [], ◌∷◌, true, some, arith}
use quick_start.Conntrack.Hooks.{
  Skb, forward, nf_accept, test_nf_ops, test_conntrack_fs_write, fs_write-ops,
}

abbrev numbers : List ℕ → List ℕ
numbers text = 192 ∷ 168 ∷ 85 ∷ 1 ∷ []

abbrev sent : Skb
sent = record { s0 = 192; s1 = 168; s2 = 85; s3 = 1 }

fs_write-ops_example :
    test_nf_ops forward (test_conntrack_fs_write numbers [] 13).1 (some sent) ≡ (nf_accept, true)
fs_write-ops_example =
    fs_write-ops numbers [] 13 192 168 85 1 forward sent refl (omega arith) (omega arith)
