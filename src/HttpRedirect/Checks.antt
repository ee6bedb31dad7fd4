-- ===== src/HttpRedirect/Checks.antt =====
-- The checksums of a packet that lab/net/httpredirect/httpredirect.c has rewritten.
use quick_start.Common.{
  ℕ, ◌+◌, ◌≡◌, ◌≤◌, refl, sym, ap, ◌∙◌, List, ◌++◌, false, length, length-take_all, take,
  take-append, drop, drop-append, arith,
}
use quick_start.HttpRedirect.Types.{NetKernel, Skb, saddr, daddr}
use quick_start.HttpRedirect.Rewrite.{
  set_field, zero_field, tcp_check_at, ip_check_at, tcp_check, check_tcp, check_ip,
}
use quick_start.HttpRedirect.Memory.{drop-drop}

-- The two bytes of a field.
abbrev pub field : ℕ → List ℕ → List ℕ
field i header = take 2 (drop i header)

module _ (i : ℕ) (bytes header : List ℕ) (two : length bytes ≡ 2)
    (fits : i + 2 ≤ length header) where
  behind-set : drop (i + 2) (set_field i bytes header) ≡ drop (i + 2) header
  behind-set =
      sym (drop-drop 2 i (i + 2) (set_field i bytes header) refl)
      ∙ ap (drop 2) (
          drop-append i (take i header) (bytes ++ drop (i + 2) header)
            (length-take_all i header (omega arith)))
      ∙ drop-append 2 bytes (drop (i + 2) header) two

  pub field-set : field i (set_field i bytes header) ≡ bytes
  field-set =
      ap (take 2) (
        drop-append i (take i header) (bytes ++ drop (i + 2) header)
          (length-take_all i header (omega arith)))
      ∙ take-append 2 bytes (drop (i + 2) header) two

  pub zero_field-set : zero_field i (set_field i bytes header) ≡ zero_field i header
  zero_field-set =
      rw
        (
          take-append i (take i header) (bytes ++ drop (i + 2) header)
              (length-take_all i header (omega arith)),
          behind-set,
        )
        refl

-- A packet with the checksums that its own bytes have.
pub record IsChecked (k : NetKernel) (skb : Skb) : Type 0 where
  pub tcp_checked : field tcp_check_at skb.tcp ≡ k.store16 (tcp_check k skb)
  pub ip_checked :
      field ip_check_at skb.ip ≡ k.store16 (k.ip_compute_csum (zero_field ip_check_at skb.ip))

-- Two packets with the same headers, but for the checksums.
pub record SameHeaders (skb result : Skb) : Type 0 where
  pub tcp_same : zero_field tcp_check_at result.tcp ≡ zero_field tcp_check_at skb.tcp
  pub ip_same : zero_field ip_check_at result.ip ≡ zero_field ip_check_at skb.ip
  pub start_same : result.csum_start ≡ skb.csum_start

module _ (k : NetKernel) (skb : Skb) (partial : skb.is_partial ≡ false)
    (ip_len : 20 ≤ length skb.ip) (tcp_len : 20 ≤ length skb.tcp) where
  abbrev with_tcp : Skb
  with_tcp = record skb { tcp = set_field tcp_check_at (k.store16 (tcp_check k skb)) skb.tcp }

  check_tcp-full : check_tcp k skb ≡ with_tcp
  unfolding check_tcp
  check_tcp-full = rw partial refl

  abbrev ip_sum : List ℕ
  ip_sum = k.store16 (k.ip_compute_csum (zero_field ip_check_at skb.ip))

  abbrev pub checked : Skb
  checked = record with_tcp { ip = set_field ip_check_at ip_sum skb.ip }

  pub check-full : check_ip k (check_tcp k skb) ≡ checked
  unfolding check_ip
  check-full = rw check_tcp-full refl

  pub checked-SameHeaders : SameHeaders skb checked
  checked-SameHeaders = record {
    tcp_same =
        zero_field-set tcp_check_at (k.store16 (tcp_check k skb)) skb.tcp (k.length-store16 _)
          (omega arith);
    ip_same = zero_field-set ip_check_at ip_sum skb.ip (k.length-store16 _) (omega arith);
    start_same = refl;
  }

  saddr-same : saddr checked ≡ saddr skb
  unfolding saddr
  saddr-same = ap (take 4) (behind-set ip_check_at ip_sum skb.ip (k.length-store16 _) (omega arith))

  daddr-same : daddr checked ≡ daddr skb
  unfolding daddr
  daddr-same = ap (take 4) (
      sym (drop-drop 4 12 16 (set_field ip_check_at ip_sum skb.ip) (omega arith))
      ∙ ap (drop 4) (behind-set ip_check_at ip_sum skb.ip (k.length-store16 _) (omega arith))
      ∙ drop-drop 4 12 16 skb.ip (omega arith))

  abbrev sum_of : List ℕ → List ℕ → List ℕ → ℕ
  sum_of segment from to = k.tcp_v4_check (length segment) from to (k.csum_partial segment 0)

  tcp_check-same : tcp_check k checked ≡ tcp_check k skb
  unfolding tcp_check
  tcp_check-same =
      ap (λ h. sum_of (h ++ skb.payload) (saddr checked) (daddr checked))
        checked-SameHeaders.tcp_same
      ∙ ap (λ a. sum_of (zero_field tcp_check_at skb.tcp ++ skb.payload) a (daddr checked))
          saddr-same
      ∙ ap (sum_of (zero_field tcp_check_at skb.tcp ++ skb.payload) (saddr skb)) daddr-same

  pub checked-IsChecked : IsChecked k checked
  checked-IsChecked = record {
    tcp_checked =
        field-set tcp_check_at (k.store16 (tcp_check k skb)) skb.tcp (k.length-store16 _)
          (omega arith)
        ∙ ap k.store16 (sym tcp_check-same);
    ip_checked =
        field-set ip_check_at ip_sum skb.ip (k.length-store16 _) (omega arith)
        ∙ ap (λ h. k.store16 (k.ip_compute_csum h)) (sym checked-SameHeaders.ip_same);
  }
