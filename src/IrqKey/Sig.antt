-- ===== src/IrqKey/Sig.antt =====
-- dirver/char_drv_demo/irq_sig.c: a key that signals its process.
use quick_start.Common.{
  ℕ, ◌+◌, ◌≡◌, ◌≢◌, ◌<◌, ◌≤◌, ◌∙◌, ap, List, [], ◌∷◌, ◌++◌, Bool, true, false, ◌||◌, not, Option,
  none, some, ◌==◌, if◌then◌else◌, arith,
}

-- The static data, with whether a process is on the list `key_async`, and how many signals it was sent.
pub record Key : Type 0 where
  pub key_val : ℕ
  pub ev_press : ℕ
  pub key_async : Bool
  pub signals : ℕ

abbrev pub initial : Key
initial = record { key_val = 0; ev_press = 0; key_async = false; signals = 0 }

-- The `switch` on the level of the pin.
unfoldable pub key_value : ℕ → ℕ
key_value pin_status = if pin_status == 0 then 0 else if pin_status == 1 then 1 else 100

-- `kill_fasync` signals the process that has asked for it.
unfoldable pub kill_fasync : Key → Key
kill_fasync d = if d.key_async then record d { signals = d.signals + 1 } else d

unfoldable pub eint9_interrupt : ℕ → Key → Key
unfolding key_value kill_fasync
eint9_interrupt pin_status d =
    kill_fasync (record d { key_val = key_value pin_status; ev_press = 1 })

-- Whether the mask is POLLIN | POLLRDNORM, and not 0.
unfoldable pub key_poll : Key → Bool
key_poll d = not (d.ev_press == 0)

-- `-EINVAL`, or the byte that is copied with the new data; `copied` is whether the copy succeeds, which
-- is not tested.
pub data Read : Type 0 where
  einval : Read
  one : Option ℕ → Key → Read

unfoldable pub key_read : Bool → ℕ → Key → Read
key_read copied size d =
    if not (size == 1)
    then einval
    else one (if copied then some d.key_val else none) (record d { ev_press = 0 })

-- `fasync_helper` puts the process on the list, or takes it off.
unfoldable pub key_fasync : Bool → Key → Key
key_fasync on d = record d { key_async = on }

-- What can happen to the driver.
pub data Event : Type 0 where
  interrupt : (pin_status : ℕ) → Event
  poll : Event
  read : (copied : Bool) (size : ℕ) → Event
  fasync : (on : Bool) → Event

unfoldable pub after_read : Key → Read → Key
after_read d einval = d
after_read d (one byte e) = e

unfoldable pub step : Event → Key → Key
unfolding eint9_interrupt after_read key_fasync
step (interrupt pin_status) d = eint9_interrupt pin_status d
step poll d = d
step (read copied size) d = after_read d (key_read copied size d)
step (fasync on) d = key_fasync on d

-- The driver behind a history, the newest event first.
unfoldable pub behind : List Event → Key
behind [] = initial
behind (e ∷ history) = step e (behind history)

abbrev is_interrupt : Event → Bool
is_interrupt (interrupt pin_status) = true
is_interrupt poll = false
is_interrupt (read copied size) = false
is_interrupt (fasync on) = false

-- Whether an event takes the press away.
abbrev is_read : Event → Bool
is_read (interrupt pin_status) = false
is_read poll = false
is_read (read copied size) = size == 1
is_read (fasync on) = false

abbrev pub any : (Event → Bool) → List Event → Bool
any p [] = false
any p (e ∷ history) = p e || any p history

abbrev pub has_interrupt : List Event → Bool
has_interrupt = any is_interrupt

abbrev pub has_read : List Event → Bool
has_read = any is_read

-- The driver behind a press at the level `v` and events that are no press.
abbrev IsPressed : ℕ → List Event → Key → Type 0
IsPressed v newer d = (d.key_val ≡ key_value v) × ((d.ev_press == 0) ≡ has_read newer)

step-IsPressed :
    (v : ℕ) (e : Event) (newer : List Event) (d : Key)
    → is_interrupt e ≡ false
    → IsPressed v newer d
    → IsPressed v (e ∷ newer) (step e d)
unfolding step key_read
step-IsPressed v (interrupt p) newer d h i = cc
step-IsPressed v poll newer d h i = i
step-IsPressed v (read copied size) newer d h i = ground arith
step-IsPressed v (fasync on) newer d h i = i

key_value-level : (v : ℕ) → (v < 2 → key_value v ≡ v) × (2 ≤ v → key_value v ≡ 100)
unfolding key_value
key_value-level v = ((λ h. ground arith), (λ h. ground arith))

press-IsPressed : (v : ℕ) (d : Key) → IsPressed v [] (step (interrupt v) d)
unfolding step
press-IsPressed v d = ground arith

behind-IsPressed :
    (v : ℕ) (newer older : List Event)
    → has_interrupt newer ≡ false
    → IsPressed v newer (behind (newer ++ interrupt v ∷ older))
unfolding behind
behind-IsPressed v [] older h = press-IsPressed v (behind older)
behind-IsPressed v (e ∷ newer) older h =
    step-IsPressed v e newer (behind (newer ++ interrupt v ∷ older)) (ground arith)
      (behind-IsPressed v newer older (ground arith))

-- In every history with a press, the driver is ready for a poll exactly if no byte was read since the
-- last press; a read of one byte delivers the level of that press where it is 0 or 1, and 100 for any
-- other level, whether or not it was read before, and takes the press away; a read of another size is
-- refused.
pub behind-key :
    (v size : ℕ) (newer older : List Event)
    → has_interrupt newer ≡ false
    → (key_poll (behind (newer ++ interrupt v ∷ older)) ≡ not (has_read newer))
      × (let d = behind (newer ++ interrupt v ∷ older) in
          (v < 2 → key_read true 1 d ≡ one (some v) (record d { ev_press = 0 }))
          × (2 ≤ v → key_read true 1 d ≡ one (some 100) (record d { ev_press = 0 }))
          × (size ≢ 1 → key_read true size d ≡ einval))
unfolding key_poll key_read
behind-key v size newer older h =
    let d = behind (newer ++ interrupt v ∷ older) in
    let (k, p) = behind-IsPressed v newer older h in
    let (low, high) = key_value-level v in
    (
      ap not p,
      (
        (λ l. ap (λ n. one (some n) (record d { ev_press = 0 })) (k ∙ low l)),
        (λ l. ap (λ n. one (some n) (record d { ev_press = 0 })) (k ∙ high l)),
        (λ n. ground arith),
      ),
    )
