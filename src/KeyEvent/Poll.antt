-- ===== src/KeyEvent/Poll.antt =====
-- A process that polls the device of dirver/keyevent/module/board_input_dev.c, against the last two
-- statements of `set_trigger_board_input_event_handler`, in any order of steps.
use quick_start.Common.{
  ℕ, zero, suc, ◌≡◌, refl, List, [], ◌∷◌, ◌++◌, true, false, replicate, if◌then◌else◌, arith,
}
use quick_start.KeyEvent.Device.{Device, set_tail, set_wake, set_status, board_button_poll}

-- The `poll` system call: about to call `board_button_poll`, asleep, or back in the process.
pub data Poller : Type 0 where
  polling asleep returned : Poller

pub record Polled : Type 0 where
  pub device : Device
  pub poller : Poller

-- A statement of the handler, or a step of the `poll` call.
pub data Event : Type 0 where
  does : (Device → Device) → Event
  turn : Event

-- `board_button_poll`, and sleep on an empty mask.
unfoldable pub poll_once : Device → Polled
unfolding board_button_poll
poll_once d =
    let (mask, e) = board_button_poll d in
    record { device = e; poller = if mask then returned else asleep }

unfoldable pub turn_at : Poller → Device → Polled
unfolding poll_once
turn_at polling d = poll_once d
turn_at asleep d =
    if d.woken
    then record { device = record d { woken = false }; poller = polling }
    else record { device = d; poller = asleep }
turn_at returned d = record { device = d; poller = returned }

unfoldable pub step : Polled → Event → Polled
unfolding turn_at
step s (does f) = record s { device = f s.device }
step s turn = turn_at s.poller s.device

unfoldable pub run : Polled → List Event → Polled
run s [] = s
run s (e ∷ es) = run (step s e) es

-- The event is there, and the poller sleeps with nothing to wake it.
pub record IsMissed (s : Polled) : Type 0 where
  pub sleeps : s.poller ≡ asleep
  pub event : s.device.trigger_status ≡ true
  pub quiet : s.device.woken ≡ false

pub record IsWaiting (s : Polled) : Type 0 where
  pub sleeps : s.poller ≡ asleep
  pub nothing : s.device.trigger_status ≡ false
  pub quiet : s.device.woken ≡ false

turn-IsMissed : (s : Polled) → IsMissed s → IsMissed (step s turn)
unfolding step
turn-IsMissed s h = ground arith

turns-IsMissed : (n : ℕ) (s : Polled) → IsMissed s → IsMissed (run s (replicate n turn))
unfolding run
turns-IsMissed zero s h = h
turns-IsMissed (suc n) s h = turns-IsMissed n (step s turn) (turn-IsMissed s h)

-- The statements of a handler, with two turns of the poller behind each but the last.
abbrev pub interleaved : List (Device → Device) → List Event
interleaved [] = []
interleaved (f ∷ []) = does f ∷ []
interleaved (f ∷ g ∷ fs) = does f ∷ turn ∷ turn ∷ interleaved (g ∷ fs)

missed : (s : Polled) → IsWaiting s → IsMissed (run s (interleaved set_tail))
unfolding run step set_wake set_status
missed s h = ground arith

run-append : (s : Polled) (es fs : List Event) → run s (es ++ fs) ≡ run (run s es) fs
unfolding run
run-append s [] fs = refl
run-append s (e ∷ es) fs = run-append (step s e) es fs

-- A poller that waits while the handler does its last two statements, and is scheduled twice between
-- them, finds no event and sleeps again, as the handler wakes it before it stores the status: then the
-- event is there, and no number of its turns brings it back.
pub wake_before_status :
    (s : Polled) (n : ℕ) → IsWaiting s → IsMissed (run s (interleaved set_tail ++ replicate n turn))
wake_before_status s n h =
    rw (run-append s (interleaved set_tail) (replicate n turn)) (turns-IsMissed n _ (missed s h))

-- Where the poller has no turn between the two statements, or one at most, it comes back with the
-- event consumed.
pub wake_and_status :
    (s : Polled)
    → IsWaiting s
    → ((run s (does set_wake ∷ does set_status ∷ turn ∷ turn ∷ [])).poller ≡ returned)
      × ((run s (does set_wake ∷ turn ∷ does set_status ∷ turn ∷ [])).poller ≡ returned)
      × ((run s (does set_wake ∷ does set_status ∷ turn ∷ turn ∷ [])).device.trigger_status ≡ false)
      × ((run s (does set_wake ∷ turn ∷ does set_status ∷ turn ∷ [])).device.trigger_status ≡ false)
unfolding run step set_wake set_status
wake_and_status s h = ground arith
