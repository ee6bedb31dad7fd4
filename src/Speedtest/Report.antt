-- ===== src/Speedtest/Report.antt =====
-- When the report of lab/net/speedtest/speedtest.c can be read.
use quick_start.Common.{
  ◌>>=◌, ℕ, ◌/◌, ◌%◌, ◌^◌, ◌<◌, ◌≡◌, ◌≢◌, ◌↔◌, ◌⊎◌, inl, inr, refl, Option, none, some, arith,
}
use quick_start.Speedtest.Types.{SpeedtestCfg, SpeedtestStatus, Speedtest}
use quick_start.Speedtest.Timer.{Clock}
use quick_start.Speedtest.Show.{used_time, shown_speed, show_direction, speedtest_proc_show}

-- A test that ended in the second in which it began, or that runs and began in this second.
abbrev pub HasNoTime : Clock → ℕ → SpeedtestStatus → Type 0
HasNoTime k jiffies st =
    ((st.end_time ≢ 0) × (st.end_time ≡ st.begin_time))
    ⊎ ((st.end_time ≡ 0) × (jiffies / k.hz % 2 ^ 32 ≡ st.begin_time))

-- The times of a status are 32-bit numbers.
abbrev pub IsTimed : SpeedtestStatus → Type 0
IsTimed st = (st.begin_time < 2 ^ 32) × (st.end_time < 2 ^ 32)

-- Steps behind one that may fail, and behind two.
bind-none {ℓ κ} :
    {A : Type ℓ} {B : Type κ} (o : Option A) (f : A → B)
    → ((o >>= λ a. some (f a)) ≡ none) ↔ (o ≡ none)
bind-none none f = (λ e. refl, λ e. refl)
bind-none (some a) f = (λ e. absurd (cc), λ e. absurd (cc))

both-none {ℓ κ} :
    {A : Type ℓ} {B : Type κ} (o p : Option A) (f : A → A → B)
    → ((o >>= λ a. p >>= λ b. some (f a b)) ≡ none) ↔ ((o ≡ none) ⊎ (p ≡ none))
both-none none p f = (λ e. inl refl, λ e. refl)
both-none (some a) none f = (λ e. inr refl, λ e. refl)
both-none (some a) (some b) f =
    (λ e. absurd (cc), λ e. elim e [ inl h ↦ absurd (cc) | inr h ↦ absurd (cc) ])

used_time-zero :
    (k : Clock) (jiffies : ℕ) (st : SpeedtestStatus)
    → IsTimed st
    → (used_time k jiffies st ≡ 0) ↔ HasNoTime k jiffies st
unfolding used_time
used_time-zero k jiffies st t = (λ e. ground arith, λ h. ground arith)

shown_speed-none :
    (k : Clock) (jiffies : ℕ) (cfg : SpeedtestCfg)
    → (shown_speed k jiffies cfg ≡ none) ↔ (used_time k jiffies cfg.status ≡ 0)
unfolding shown_speed
shown_speed-none k jiffies cfg = (λ e. ground arith, λ h. ground arith)

show_direction-none :
    (k : Clock) (jiffies i : ℕ) (cfg : SpeedtestCfg)
    → IsTimed cfg.status
    → (show_direction k jiffies i cfg ≡ none) ↔ HasNoTime k jiffies cfg.status
unfolding show_direction
show_direction-none k jiffies i cfg t =
    let (there, back) = shown_speed-none k jiffies cfg in
    let (from, to) = used_time-zero k jiffies cfg.status t in
    let (out, into) = bind-none (shown_speed k jiffies cfg) _ in
    (λ e. from (there (out e)), λ h. into (back (to h)))

-- With times of 32 bits, reading the report divides by 0 exactly if one of the two directions has
-- no whole second behind it: its last test ended in the second in which it began, or it has no end
-- yet and its beginning is the second of the read. In every other state the report has its text.
pub speedtest_proc_show-none :
    (k : Clock) (jiffies0 jiffies1 : ℕ) (s : Speedtest)
    → IsTimed s.cfg0.status
    → IsTimed s.cfg1.status
    → (speedtest_proc_show k jiffies0 jiffies1 s ≡ none)
      ↔ (HasNoTime k jiffies0 s.cfg0.status ⊎ HasNoTime k jiffies1 s.cfg1.status)
unfolding speedtest_proc_show
speedtest_proc_show-none k jiffies0 jiffies1 s t0 t1 =
    let (from0, to0) = show_direction-none k jiffies0 0 s.cfg0 t0 in
    let (from1, to1) = show_direction-none k jiffies1 1 s.cfg1 t1 in
    let (out, into) =
      both-none (show_direction k jiffies0 0 s.cfg0) (show_direction k jiffies1 1 s.cfg1) _ in
    (
      λ e. elim (out e) [ inl a ↦ inl (from0 a) | inr b ↦ inr (from1 b) ],
      λ h. into (elim h [ inl a ↦ inl (to0 a) | inr b ↦ inr (to1 b) ]),
    )
