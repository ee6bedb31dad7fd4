-- ===== src/Speedtest/Datagram.antt =====
-- The packets of lab/net/speedtest/speedtest.c are UDP datagrams.
use quick_start.Common.{ℕ, ◌+◌, ◌-◌, ◌*◌, ◌≡◌, ◌<◌, List, [], ◌∷◌, ◌++◌, take, drop, length, arith}
use quick_start.Speedtest.Packet.{
  Checksums, htons, eth_len, ip_len, saddr, daddr, ip_header, udp_segment,
}

-- Every number of a list is a byte.
abbrev pub AllBytes : List ℕ → Type 0
AllBytes [] = Unit {0}
AllBytes (b ∷ bytes) = (b < 256) × AllBytes bytes

-- The number of the first two bytes, in network order.
abbrev pub be16 : List ℕ → ℕ
be16 [] = 0
be16 (high ∷ []) = 0
be16 (high ∷ low ∷ rest) = high * 256 + low

-- A header with 0 in the two bytes of its checksum at a place.
abbrev pub zeroed : ℕ → List ℕ → List ℕ
zeroed at h = take at h ++ (0 ∷ 0 ∷ drop (2 + at) h)

htons-AllBytes : (n : ℕ) → AllBytes (htons n)
unfolding htons
htons-AllBytes n = (omega arith, (omega arith, tt))

-- The IP header and the UDP segment of a frame.
abbrev pub ip_of : List ℕ → List ℕ
ip_of pkt = take 20 (drop 14 pkt)

abbrev pub udp_of : List ℕ → List ℕ
udp_of pkt = drop 20 (drop 14 pkt)

-- An Ethernet frame around an IP datagram around a UDP segment: its bytes, the fields that tell its
-- type and its lengths, and its two checksums.
pub record IsDatagram (c : Checksums) (size : ℕ) (pkt : List ℕ) : Type 0 where
  pub whole : length pkt ≡ size
  pub bytes : AllBytes pkt
  pub ether_type : be16 (drop 12 pkt) ≡ 0x0800
  pub total_length : be16 (drop 2 (ip_of pkt)) ≡ size - 14
  pub ip_check :
      take 2 (drop 10 (ip_of pkt)) ≡ c.store16 (c.ip_compute_csum (zeroed 10 (ip_of pkt)))
  pub udp_length : be16 (drop 4 (udp_of pkt)) ≡ size - 34
  pub udp_check :
      take 2 (drop 6 (udp_of pkt)) ≡ c.store16 (c.udp_check saddr daddr (zeroed 6 (udp_of pkt)))

module _ (c : Checksums) where
  -- The parts of a packet behind its Ethernet header.
  module _ (port size : ℕ) where
    abbrev ip_sum : List ℕ
    ip_sum = c.store16 (c.ip_compute_csum (ip_header (size - eth_len) (0 ∷ 0 ∷ [])))

    abbrev udp_sum : List ℕ
    udp_sum =
        c.store16 (c.udp_check saddr daddr (udp_segment (size - eth_len - ip_len) (0 ∷ 0 ∷ [])))

    abbrev ip : List ℕ
    ip = ip_header (size - eth_len) ip_sum

    abbrev segment : List ℕ
    segment = udp_segment (size - eth_len - ip_len) udp_sum
