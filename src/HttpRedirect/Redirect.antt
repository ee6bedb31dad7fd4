-- ===== src/HttpRedirect/Redirect.antt =====
-- What lab/net/httpredirect/httpredirect.c makes of a 404 answer.
use quick_start.Common.{
  byte_lengths, ℕ, ◌+◌, ◌*◌, ◌≡◌, ◌≤◌, ◌<◌, refl, ap, ◌∙◌, List, [], ◌∷◌, ◌++◌, true, false, some,
  length, length-take_all, take-append-drop, take, drop, codes, arith,
}
use quick_start.HttpRedirect.Types.{NetKernel, Skb, Config, ipproto_tcp, protocol, http_302_header}
use quick_start.HttpRedirect.Rewrite.{rewrite_payload, check_tcp, check_ip}
use quick_start.HttpRedirect.Memory.{
  no_nul, redirected, rewrite_payload-some, rewrite_payload-none, len-le-redirected,
}
use quick_start.HttpRedirect.Checks.{
  IsChecked, SameHeaders, checked, check-full, checked-IsChecked, checked-SameHeaders,
}
use quick_start.HttpRedirect.Hook.{nf_accept, overrun, is_404, rewritten, http404_nf_cb}

-- The payload of a 404 answer of HTTP/1.`minor`.
abbrev pub not_found : ℕ → List ℕ → List ℕ
not_found minor rest = codes "HTTP/1." ++ minor ∷ (codes " 404" ++ rest)

-- The length of the answer that is written.
abbrev pub answer_len : Config → ℕ
answer_len cfg = length (http_302_header cfg.url)

module _ (k : NetKernel) (cfg : Config) (minor : ℕ) (rest : List ℕ) (skb : Skb) where
  -- What the hook needs to rewrite a 404 answer: the module is switched on, and the packet is TCP.
  pub record IsRedirected : Type 0 where
    pub enabled : 0 < cfg.enable
    pub text : no_nul cfg.url ≡ true
    pub is_tcp : protocol skb ≡ ipproto_tcp
    pub ip_len : 20 ≤ length skb.ip
    pub tcp_len : 20 ≤ length skb.tcp
    pub full : skb.is_partial ≡ false
    pub starts : skb.payload ≡ not_found minor rest
    pub searched : 19 ≤ length (skb.payload ++ skb.room)

  abbrev mem : List ℕ
  mem = skb.payload ++ skb.room

  found : skb.payload ≡ not_found minor rest → is_404 k mem ≡ true
  unfolding is_404
  found e =
      rw
        (
          e,
          k.strnstr-finds (drop 8 (not_found minor rest ++ skb.room)) (32 ∷ []) (codes "404")
              (take 6 (rest ++ skb.room)) 10 refl,
          k.strnstr-finds (not_found minor rest ++ skb.room) [] (codes "HTTP") (47 ∷ []) 5 refl,
        )
        refl

  hook-rewritten :
      IsRedirected
      → http404_nf_cb k cfg (some skb)
        ≡ rewritten k skb (rewrite_payload cfg.url (length skb.payload) mem)
  unfolding http404_nf_cb
  hook-rewritten r = let e = found r.starts in ground arith

  -- The packet with its payload rewritten, before its checksums.
  abbrev turned : Skb
  turned = record skb {
    payload = take (length skb.payload) (redirected cfg.url (length skb.payload) mem);
    room = drop (length skb.payload) (redirected cfg.url (length skb.payload) mem);
  }

  accepted :
      IsRedirected
      → 2 * (answer_len cfg + 1) ≤ length skb.room
      → http404_nf_cb k cfg (some skb) ≡ nf_accept (check_ip k (check_tcp k turned))
  unfolding rewritten
  accepted r l =
      hook-rewritten r
      ∙ ap (rewritten k skb)
          (rewrite_payload-some cfg.url (length skb.payload) mem r.text (omega (byte_lengths, l)))

  length-turned : length turned.payload ≡ length skb.payload
  length-turned =
      length-take_all (length skb.payload) (redirected cfg.url (length skb.payload) mem)
        (len-le-redirected cfg.url (length skb.payload) mem)

  -- Where the module is switched on with an address, a TCP packet with whole headers that begins a
  -- 404 answer of HTTP/1.x goes on with as many bytes of payload, which with the bytes behind them
  -- are now the redirection to that address, a NUL, and zeros up to twice the length of the
  -- redirection and its NUL behind the old end; its two checksums are those of its new bytes, and
  -- nothing else in its headers has changed. The buffer must have that much room behind the packet,
  -- the 19 bytes that are searched must be there, and the checksum must be left to the module.
  pub nf_cb-redirects :
      IsRedirected
      → 2 * (answer_len cfg + 1) ≤ length skb.room
      → (result : Skb) × (http404_nf_cb k cfg (some skb) ≡ nf_accept result)
        × (length result.payload ≡ length skb.payload)
        × (result.payload ++ result.room
            ≡ redirected cfg.url (length skb.payload) (skb.payload ++ skb.room))
        × IsChecked k result
        × SameHeaders skb result
  nf_cb-redirects r l = (
    checked k turned r.full r.ip_len r.tcp_len,
    accepted r l ∙ ap nf_accept (check-full k turned r.full r.ip_len r.tcp_len),
    length-turned,
    take-append-drop (length skb.payload) (redirected cfg.url (length skb.payload) mem),
    checked-IsChecked k turned r.full r.ip_len r.tcp_len,
    record {
      tcp_same = (checked-SameHeaders k turned r.full r.ip_len r.tcp_len).tcp_same;
      ip_same = (checked-SameHeaders k turned r.full r.ip_len r.tcp_len).ip_same;
      start_same = refl;
    },
  )

  -- Where the module is switched on with an address, and a TCP packet with whole headers begins a
  -- 404 answer of HTTP/1.x, but the buffer has less room behind the packet than twice the length of
  -- the redirection and its NUL, the hook writes behind the end of the buffer, however long the
  -- payload is. The checksum must be left to the module, and the 19 bytes that are searched must be
  -- there.
  pub nf_cb-overrun :
      IsRedirected
      → length skb.room < 2 * (answer_len cfg + 1)
      → http404_nf_cb k cfg (some skb) ≡ overrun
  unfolding rewritten
  nf_cb-overrun r l =
      hook-rewritten r
      ∙ ap (rewritten k skb)
          (rewrite_payload-none cfg.url (length skb.payload) mem r.text (omega (byte_lengths, l)))
