-- ===== src/HttpRedirect/Rewrite.antt =====
-- How `http404_nf_cb` of lab/net/httpredirect/httpredirect.c rewrites a packet.
use quick_start.Common.{
  ◌>>=◌, ℕ, ◌+◌, ◌-◌, ◌%◌, ◌^◌, List, [], ◌∷◌, ◌++◌, Option, none, some, length, take, drop,
  replicate, ltb, if◌then◌else◌,
}
use quick_start.HttpRedirect.Types.{
  NetKernel, Skb, saddr, daddr, tot_len, ip_hdrlen, strlen, http_302_header,
}

-- Bytes written over a part of a memory; `none` is a write behind its end.
unfoldable pub write_at : ℕ → List ℕ → List ℕ → Option (List ℕ)
write_at i bytes mem =
    if ltb (length mem) (i + length bytes)
    then none
    else some (take i mem ++ (bytes ++ drop (i + length bytes) mem))

-- The `sprintf` and the `memset`, on the memory from the payload on; `len` is `skb->tail - tcp_payload`.
unfoldable pub rewrite_payload : List ℕ → ℕ → List ℕ → Option (List ℕ)
unfolding write_at
rewrite_payload url len mem = do
  printed ← write_at 0 (http_302_header url ++ 0 ∷ []) mem
  let count = len + strlen printed + 1
  write_at (strlen printed + 1) (replicate count 0) printed

-- A 16-bit field of a header.
abbrev pub set_field : ℕ → List ℕ → List ℕ → List ℕ
set_field i bytes header = take i header ++ (bytes ++ drop (i + 2) header)

abbrev pub zero_field : ℕ → List ℕ → List ℕ
zero_field i header = set_field i (0 ∷ 0 ∷ []) header

abbrev pub tcp_check_at : ℕ
tcp_check_at = 16

abbrev pub ip_check_at : ℕ
ip_check_at = 10

-- `~` on 16 bits.
abbrev pub not16 : ℕ → ℕ
not16 n = 65535 - n % 65536

module _ (k : NetKernel) where
  unfoldable pub tcp_check : Skb → ℕ
  tcp_check skb =
      let segment = zero_field tcp_check_at skb.tcp ++ skb.payload in
      k.tcp_v4_check (length segment) (saddr skb) (daddr skb) (k.csum_partial segment 0)

  -- The length of the segment as the IP header says it, in 32 bits.
  unfoldable pub partial_check : Skb → ℕ
  partial_check skb =
      not16
        (k.tcp_v4_check ((tot_len skb + 2 ^ 32 - ip_hdrlen skb) % 2 ^ 32) (saddr skb) (daddr skb) 0)

  unfoldable pub check_tcp : Skb → Skb
  unfolding partial_check tcp_check
  check_tcp skb =
      if skb.is_partial
      then record skb {
        tcp = set_field tcp_check_at (k.store16 (partial_check skb)) skb.tcp;
        csum_start = skb.headroom + length skb.ip;
        csum_offset = tcp_check_at;
      }
      else record skb { tcp = set_field tcp_check_at (k.store16 (tcp_check skb)) skb.tcp }

  unfoldable pub check_ip : Skb → Skb
  check_ip skb = record skb {
    ip =
        set_field ip_check_at (k.store16 (k.ip_compute_csum (zero_field ip_check_at skb.ip)))
          skb.ip;
  }
