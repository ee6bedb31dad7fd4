-- ===== src/HttpRedirect/Types.antt =====
-- The data of lab/net/httpredirect/httpredirect.c, and what it calls of the kernel.
use quick_start.Common.{
  ℕ, suc, ◌+◌, ◌*◌, ◌%◌, ◌≡◌, List, [], ◌∷◌, ◌++◌, Bool, true, none, some, length, get_elem?, take,
  drop, codes, ◌==◌, if◌then◌else◌,
}

-- `strnstr`, as a test, and the checksums; `store16` is how a 16-bit number stands in memory.
pub record NetKernel : Type 0 where
  pub strnstr : List ℕ → List ℕ → ℕ → Bool
  pub tcp_v4_check : (len : ℕ) (saddr daddr : List ℕ) (base : ℕ) → ℕ
  pub csum_partial : List ℕ → ℕ → ℕ
  pub ip_compute_csum : List ℕ → ℕ
  pub store16 : ℕ → List ℕ
  pub strnstr-finds :
      (s before what behind : List ℕ) (len : ℕ)
      → take len s ≡ before ++ (what ++ behind)
      → strnstr s what len ≡ true
  pub length-store16 : (n : ℕ) → length (store16 n) ≡ 2

-- A linear `sk_buff`: the bytes of its two headers, those of the payload up to `tail`, and those behind
-- `tail` up to the end of its buffer. `headroom` is what stands before the network header, `is_partial`
-- is `ip_summed == CHECKSUM_PARTIAL`.
pub record Skb : Type 0 where
  pub headroom : ℕ
  pub ip : List ℕ
  pub tcp : List ℕ
  pub payload : List ℕ
  pub room : List ℕ
  pub is_partial : Bool
  pub csum_start : ℕ
  pub csum_offset : ℕ

-- `http_404redirect_enable`, an `int` as a word, and the text in `http_404redirect_url`.
pub record Config : Type 0 where
  pub enable : ℕ
  pub url : List ℕ

abbrev pub url_size : ℕ
url_size = 128

-- The byte of a header at a place.
abbrev pub byte : ℕ → List ℕ → ℕ
byte i bytes = elim (get_elem? bytes i) [ none ↦ 0 | some b ↦ b ]

abbrev pub ipproto_tcp : ℕ
ipproto_tcp = 6

unfoldable pub protocol : Skb → ℕ
protocol skb = byte 9 skb.ip

unfoldable pub saddr : Skb → List ℕ
saddr skb = take 4 (drop 12 skb.ip)

unfoldable pub daddr : Skb → List ℕ
daddr skb = take 4 (drop 16 skb.ip)

-- `ntohs(iph->tot_len)`
unfoldable pub tot_len : Skb → ℕ
tot_len skb = byte 2 skb.ip * 256 + byte 3 skb.ip

-- `ip_hdrlen(skb)`, from the length field.
unfoldable pub ip_hdrlen : Skb → ℕ
ip_hdrlen skb = byte 0 skb.ip % 16 * 4

-- `strlen`
unfoldable pub strlen : List ℕ → ℕ
strlen [] = 0
strlen (c ∷ s) = if c == 0 then 0 else suc (strlen s)

abbrev pub crlf : List ℕ
crlf = 13 ∷ 10 ∷ []

-- `HTTP_302_HEADER` with the address in it.
unfoldable pub http_302_header : List ℕ → List ℕ
http_302_header url =
    codes "HTTP/1.1 302 Found"
    ++ (crlf
        ++ (codes "Location: " ++ (url ++ (crlf ++ (codes "Content-Length: 0" ++ (crlf ++ crlf))))))
