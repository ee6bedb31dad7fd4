-- ===== src/Speedtest/Packet.antt =====
-- `make_speedtest_pkt` and `send_speedtest_pkt` of lab/net/speedtest/speedtest.c.
use quick_start.Common.{
  ℕ, ◌+◌, ◌-◌, ◌*◌, ◌/◌, ◌%◌, ◌≡◌, List, [], ◌∷◌, ◌++◌, Bool, ◌&&◌, ◌||◌, ◌^◌, not, Option, none,
  some, length, replicate, ltb, if◌then◌else◌,
}

-- What the module leaves to the kernel: the checksums, and how a 16-bit number stands in memory.
pub record Checksums : Type 0 where
  pub ip_compute_csum : List ℕ → ℕ
  pub udp_check : (saddr daddr segment : List ℕ) → ℕ  -- skb_checksum and csum_tcpudp_magic
  pub store16 : ℕ → List ℕ
  pub length-store16 : (n : ℕ) → length (store16 n) ≡ 2

-- `htons`: the two bytes of a 16-bit number in network order.
unfoldable pub htons : ℕ → List ℕ
htons n = n / 256 % 256 ∷ n % 256 ∷ []

abbrev pub eth_len : ℕ
eth_len = 14

abbrev pub ip_len : ℕ
ip_len = 20

abbrev pub udp_len : ℕ
udp_len = 8

-- `((port & 0x0f) << 4)`, as a byte
unfoldable pub source_byte : ℕ → ℕ
source_byte port = port % 16 * 16 % 256

unfoldable pub eth_header : ℕ → List ℕ
unfolding source_byte htons
eth_header port = replicate 6 0x80 ++ (replicate 6 (source_byte port) ++ htons 0x0800)

abbrev pub saddr : List ℕ
saddr = 0xc0 ∷ 0xa8 ∷ 0x55 ∷ 0x01 ∷ []

abbrev pub daddr : List ℕ
daddr = 0xc0 ∷ 0xa8 ∷ 0x55 ∷ 0x02 ∷ []

-- The IP header with a checksum field.
unfoldable pub ip_header : ℕ → List ℕ → List ℕ
unfolding htons
ip_header tot_len check =
    0x45 ∷ 0 ∷ (htons tot_len ++ (0x11 ∷ 0x11 ∷ 0 ∷ 0 ∷ 64 ∷ 17 ∷ (check ++ (saddr ++ daddr))))

-- The UDP segment with a checksum field; `len` counts its header.
unfoldable pub udp_segment : ℕ → List ℕ → List ℕ
unfolding htons
udp_segment len check =
    htons 8888 ++ (htons 9999 ++ (htons len ++ (check ++ replicate (len - udp_len) 0xaa)))

module _ (c : Checksums) where
  -- The bytes of the packet. The lengths are those of the buffer, as 16-bit numbers where they are
  -- stored.
  unfoldable pub speedtest_bytes : ℕ → ℕ → List ℕ
  speedtest_bytes port pkt_size =
      let len = pkt_size - eth_len - ip_len in
      let check = c.udp_check saddr daddr (udp_segment len (0 ∷ 0 ∷ [])) in
      let ip_check = c.ip_compute_csum (ip_header (pkt_size - eth_len) (0 ∷ 0 ∷ [])) in
      eth_header port
      ++ (ip_header (pkt_size - eth_len) (c.store16 ip_check) ++ udp_segment len (c.store16 check))

  -- `some none` is a failure that is reported. `none` is a size outside the model: one with no room
  -- for the three headers, for which the length of a `memset` or an `skb_put` turns negative, or one
  -- whose UDP segment is longer than its 16-bit length field says, so that the `memset` leaves bytes of
  -- the buffer as they were.
  unfoldable pub make_speedtest_pkt : Bool → Bool → ℕ → ℕ → Option (Option (List ℕ))
  make_speedtest_pkt found memory port pkt_size =
      if not (found && memory)
      then some none
      else if ltb pkt_size (eth_len + ip_len + udp_len)
          || ltb (2 ^ 16 + eth_len + ip_len - 1) pkt_size
      then none
      else some (some (speedtest_bytes port pkt_size))

-- Whether the packet went out: the clone was made and the device took it.
unfoldable pub send_speedtest_pkt : Bool → Bool → Bool
send_speedtest_pkt cloned taken = cloned && taken
