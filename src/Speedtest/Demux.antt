-- ===== src/Speedtest/Demux.antt =====
-- The packets of lab/net/speedtest/speedtest.c, and how the counting thread tells them apart.
use quick_start.Common.{
  byte_lengths, ℕ, ◌-◌, ◌≡◌, ◌≤◌, refl, List, [], ◌∷◌, ◌++◌, true, false, Option, some, drop, take,
  length, length-append, length-replicate, replicate, str_eq, arith,
}
use quick_start.Speedtest.Types.{Skb}
use quick_start.Speedtest.Packet.{
  Checksums, htons, source_byte, eth_header, eth_len, ip_len, udp_len, saddr, daddr, ip_header,
  udp_segment, speedtest_bytes, make_speedtest_pkt,
}
use quick_start.Speedtest.Compute.{skb_csum}
use quick_start.Speedtest.Counts.{from0, from1}

-- A port's tag, which the switch puts behind the addresses.
pub record PortTag : Type 0 where
  pub t0 : ℕ
  pub t1 : ℕ
  pub t2 : ℕ
  pub t3 : ℕ

-- A packet that comes back with a tag.
abbrev pub tagged : PortTag → Option (List ℕ) → List ℕ → Skb
tagged t dev pkt = record {
  dev = dev;
  bytes = take 12 pkt ++ (t.t0 ∷ t.t1 ∷ t.t2 ∷ t.t3 ∷ []) ++ drop 12 pkt;
}

module _ (c : Checksums) where
  pub tagged-from0 :
      (t : PortTag) (dev : Option (List ℕ)) (size : ℕ)
      → (from0 (tagged t dev (speedtest_bytes c 1 size)) ≡ true)
        × (from1 (tagged t dev (speedtest_bytes c 1 size)) ≡ false)
  unfolding from1 from0 str_eq speedtest_bytes eth_header source_byte htons
  tagged-from0 t dev size = (refl, refl)

  pub tagged-from1 :
      (t : PortTag) (dev : Option (List ℕ)) (size : ℕ)
      → (from0 (tagged t dev (speedtest_bytes c 4 size)) ≡ false)
        × (from1 (tagged t dev (speedtest_bytes c 4 size)) ≡ true)
  unfolding from1 from0 str_eq speedtest_bytes eth_header source_byte htons
  tagged-from1 t dev size = (refl, refl)

  pub tagged-csum :
      (t : PortTag) (dev : Option (List ℕ)) (port size : ℕ)
      → skb_csum c (tagged t dev (speedtest_bytes c port size))
        ≡ c.ip_compute_csum (drop 14 (speedtest_bytes c port size))
  unfolding skb_csum speedtest_bytes eth_header htons
  tagged-csum t dev port size = refl

  pub length-ip_header : (n k : ℕ) → length (ip_header n (c.store16 k)) ≡ 20
  unfolding ip_header htons
  length-ip_header n k = omega (byte_lengths, c.length-store16 k)

  pub length-udp_segment : (n k : ℕ) → 8 ≤ n → length (udp_segment n (c.store16 k)) ≡ n
  unfolding udp_segment htons
  length-udp_segment n k h = omega (
    arith,
    length-append (c.store16 k) (replicate (n - udp_len) 0xaa),
    c.length-store16 k,
    length-replicate {A = ℕ} (n - udp_len) 0xaa,
  )

  pub length-speedtest_bytes :
      (port size : ℕ) → 42 ≤ size → length (speedtest_bytes c port size) ≡ size
  unfolding speedtest_bytes eth_header htons
  length-speedtest_bytes port size h = omega (
    arith,
    length-append
        (ip_header (size - eth_len)
          (c.store16 (c.ip_compute_csum (ip_header (size - eth_len) (0 ∷ 0 ∷ [])))))
        (udp_segment (size - eth_len - ip_len) (
          c.store16
            (c.udp_check saddr daddr (udp_segment (size - eth_len - ip_len) (0 ∷ 0 ∷ []))))),
    length-ip_header (size - eth_len) (c.ip_compute_csum (ip_header (size - eth_len) (0 ∷ 0 ∷ []))),
    length-udp_segment (size - eth_len - ip_len)
        (c.udp_check saddr daddr (udp_segment (size - eth_len - ip_len) (0 ∷ 0 ∷ [])))
        (omega arith),
  )

  pub make-bytes :
      (port size : ℕ)
      → 42 ≤ size
      → size ≤ 65569
      → make_speedtest_pkt c true true port size ≡ some (some (speedtest_bytes c port size))
  unfolding make_speedtest_pkt
  make-bytes port size h h' = ground arith

  -- For a size from 42 to 65569 the packet is made, and has that many bytes.
  pub make_speedtest_pkt-length :
      (port size : ℕ)
      → 42 ≤ size
      → size ≤ 65569
      → (pkt : List ℕ) × (make_speedtest_pkt c true true port size ≡ some (some pkt))
        × (length pkt ≡ size)
  make_speedtest_pkt-length port size h h' =
      (speedtest_bytes c port size, make-bytes port size h h', length-speedtest_bytes port size h)
