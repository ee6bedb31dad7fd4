-- ===== src/Speedtest/Counts.antt =====
-- What the counters of lab/net/speedtest/speedtest.c come to.
use quick_start.Common.{
  ℕ, suc, ◌+◌, ◌%◌, ◌^◌, ◌<◌, ◌≡◌, refl, sym, ap, ◌∙◌, List, [], ◌∷◌, Bool, true, false, Bool-cases,
  inl, inr, ◌&&◌, not, ◌==◌, str_eq, if◌then◌else◌, arith,
}
use quick_start.Speedtest.Types.{SpeedtestStatus, Skb, Speedtest}
use quick_start.Speedtest.Packet.{Checksums}
use quick_start.Speedtest.Hooks.{st0_mac, st1_mac, h_source}
use quick_start.Speedtest.Compute.{skb_csum, count_in, count_pkt, drain}

-- Whether a packet comes from the first port, or else from the second.
unfoldable pub from0 : Skb → Bool
from0 skb = str_eq (h_source skb) st0_mac

unfoldable pub from1 : Skb → Bool
unfolding from0
from1 skb = not (from0 skb) && str_eq (h_source skb) st1_mac

-- How many packets of a list pass a test.
abbrev pub count : (Skb → Bool) → List Skb → ℕ
count p [] = 0
count p (skb ∷ skbs) = if p skb then suc (count p skbs) else count p skbs

module _ (c : Checksums) where
  -- A packet whose checksum is not `sum`.
  abbrev pub is_bad : (Skb → Bool) → ℕ → Skb → Bool
  is_bad from sum skb = from skb && not (sum == skb_csum c skb)

  -- The counters of a direction behind a list of packets.
  abbrev pub counted : (Skb → Bool) → List Skb → SpeedtestStatus → SpeedtestStatus
  counted from skbs st = record st {
    pktrcv_count = (st.pktrcv_count + count from skbs) % 2 ^ 64;
    pkterr_count = (st.pkterr_count + count (is_bad from st.pkt_csum) skbs) % 2 ^ 64;
  }

  abbrev pub IsWord : SpeedtestStatus → Type 0
  IsWord st = (st.pktrcv_count < 2 ^ 64) × (st.pkterr_count < 2 ^ 64)

  counters :
      (st : SpeedtestStatus) (r r' e e' : ℕ)
      → r ≡ r'
      → e ≡ e'
      → record st { pktrcv_count = r; pkterr_count = e }
        ≡ record st { pktrcv_count = r'; pkterr_count = e' }
  counters st r r' e e' p q = rw (p, q) refl

  pub counted-nil : (from : Skb → Bool) (st : SpeedtestStatus) → IsWord st → counted from [] st ≡ st
  counted-nil from st (r, e) =
      counters st _ st.pktrcv_count _ st.pkterr_count (omega (arith, r)) (omega (arith, e))

  pub counted-from :
      (from : Skb → Bool) (skb : Skb) (skbs : List Skb) (st : SpeedtestStatus)
      → from skb ≡ true
      → counted from skbs (count_in c skb st) ≡ counted from (skb ∷ skbs) st
  unfolding count_in
  counted-from from skb skbs st h = counters st _ _ _ _ (ground arith) (ground arith)

  pub counted-not :
      (from : Skb → Bool) (skb : Skb) (skbs : List Skb) (st : SpeedtestStatus)
      → from skb ≡ false
      → counted from skbs st ≡ counted from (skb ∷ skbs) st
  counted-not from skb skbs st h = counters st _ _ _ _ (ground arith) (ground arith)

  -- What the queue comes to in the data.
  abbrev pub tallied : List Skb → Speedtest → Speedtest
  tallied skbs s = record s {
    comp_skbqueue = [];
    cfg0 = record s.cfg0 { status = counted from0 skbs s.cfg0.status };
    cfg1 = record s.cfg1 { status = counted from1 skbs s.cfg1.status };
  }

  statuses :
      (s : Speedtest) (a a' b b' : SpeedtestStatus)
      → a ≡ a'
      → b ≡ b'
      → record s {
        comp_skbqueue = [];
        cfg0 = record s.cfg0 { status = a };
        cfg1 = record s.cfg1 { status = b };
      }
        ≡ record s {
          comp_skbqueue = [];
          cfg0 = record s.cfg0 { status = a' };
          cfg1 = record s.cfg1 { status = b' };
        }
  statuses s a a' b b' p q = rw (p, q) refl

  count_pkt-from0 :
      (skb : Skb) (s : Speedtest)
      → from0 skb ≡ true
      → count_pkt c skb s
        ≡ record s { cfg0 = record s.cfg0 { status = count_in c skb s.cfg0.status } }
  unfolding count_pkt from0
  count_pkt-from0 skb s h = rw h refl

  count_pkt-from1 :
      (skb : Skb) (s : Speedtest)
      → from0 skb ≡ false
      → from1 skb ≡ true
      → count_pkt c skb s
        ≡ record s { cfg1 = record s.cfg1 { status = count_in c skb s.cfg1.status } }
  unfolding count_pkt from1 from0
  count_pkt-from1 skb s h h' = ground arith

  count_pkt-other :
      (skb : Skb) (s : Speedtest) → from0 skb ≡ false → from1 skb ≡ false → count_pkt c skb s ≡ s
  unfolding count_pkt from1 from0
  count_pkt-other skb s h h' = ground arith

  from1-from0 : (skb : Skb) → from0 skb ≡ true → from1 skb ≡ false
  unfolding from1
  from1-from0 skb h = rw h refl

  tallied-count :
      (skb : Skb) (skbs : List Skb) (s : Speedtest)
      → tallied skbs (count_pkt c skb s) ≡ tallied (skb ∷ skbs) s
  tallied-count skb skbs s = elim (Bool-cases (from0 skb)) [
    | inl h ↦
        ap (tallied skbs) (count_pkt-from0 skb s h)
        ∙ statuses s _ _ _ _ (counted-from from0 skb skbs s.cfg0.status h)
            (counted-not from1 skb skbs s.cfg1.status (from1-from0 skb h))
    | inr h ↦ elim (Bool-cases (from1 skb)) [
      | inl h' ↦
          ap (tallied skbs) (count_pkt-from1 skb s h h')
          ∙ statuses s _ _ _ _ (counted-not from0 skb skbs s.cfg0.status h)
              (counted-from from1 skb skbs s.cfg1.status h')
      | inr h' ↦
          ap (tallied skbs) (count_pkt-other skb s h h')
          ∙ statuses s _ _ _ _ (counted-not from0 skb skbs s.cfg0.status h)
              (counted-not from1 skb skbs s.cfg1.status h')
    ]
  ]

  count_pkt-IsWord :
      (skb : Skb) (s : Speedtest)
      → IsWord s.cfg0.status
      → IsWord s.cfg1.status
      → IsWord (count_pkt c skb s).cfg0.status × IsWord (count_pkt c skb s).cfg1.status
  unfolding count_pkt count_in
  count_pkt-IsWord skb s (a, b) (a', b') = ground arith

  -- Draining a queue adds to the counters of each direction the packets that have its source address,
  -- and to its errors those of them whose checksum differs from the one sent, in 64 bits; it empties the
  -- queue and changes nothing else.
  pub drain_lem :
      (skbs : List Skb) (s : Speedtest)
      → IsWord s.cfg0.status
      → IsWord s.cfg1.status
      → drain c skbs s ≡ tallied skbs s
  unfolding drain
  drain_lem [] s w0 w1 =
      statuses s _ _ _ _ (sym (counted-nil from0 s.cfg0.status w0))
        (sym (counted-nil from1 s.cfg1.status w1))
  drain_lem (skb ∷ skbs) s w0 w1 =
      let (v0, v1) = count_pkt-IsWord skb s w0 w1 in
      drain_lem skbs (count_pkt c skb s) v0 v1 ∙ tallied-count skb skbs s
