-- ===== src/IrqKey/Polled.antt =====
-- dirver/char_drv_demo/irq_poll.c: a key that is waited for, by one process.
use quick_start.Common.{
  ℕ, ◌≡◌, refl, List, [], ◌∷◌, Bool, true, false, not, ◌==◌, if◌then◌else◌, arith,
}

-- The static data, with whether the process sleeps in `wait_event_interruptible`.
pub record Button : Type 0 where
  pub key_val : ℕ
  pub ev_press : ℕ
  pub waiting : Bool

abbrev pub fresh : Button
fresh = record { key_val = 0; ev_press = 0; waiting = false }

-- What `key_read` comes to: `-EINVAL`, a process that sleeps, or the byte that it copies.
pub data Answer : Type 0 where
  nothing : Answer
  einval : Answer
  sleeps : Answer
  copied : ℕ → Answer

-- Behind the wait: its result is not looked at.
unfoldable pub finish_read : Button → Answer × Button
finish_read d = (copied d.key_val, record d { waiting = false })

-- The test of the wait, at its start and whenever the process is woken up.
unfoldable pub wait_event : Button → Answer × Button
unfolding finish_read
wait_event d = if d.ev_press == 0 then (sleeps, record d { waiting = true }) else finish_read d

unfoldable pub key_read : ℕ → Button → Answer × Button
key_read size d = if not (size == 1) then (einval, d) else wait_event d

-- `wake_up_interruptible`, which is all that the handler does.
unfoldable pub eint9_interrupt : Button → Answer × Button
eint9_interrupt d = if d.waiting then wait_event d else (nothing, d)

-- A signal ends the wait.
unfoldable pub signal : Button → Answer × Button
unfolding finish_read
signal d = if d.waiting then finish_read d else (nothing, d)

-- Whether the mask is POLLIN | POLLRDNORM, and not 0.
unfoldable pub key_poll : Button → Bool
key_poll d = not (d.ev_press == 0)

pub data Event : Type 0 where
  interrupted : Event
  signalled : Event
  reads : (size : ℕ) → Event

-- A process that sleeps makes no call.
unfoldable pub step : Event → Button → Answer × Button
unfolding eint9_interrupt signal
step interrupted d = eint9_interrupt d
step signalled d = signal d
step (reads size) d = if d.waiting then (nothing, d) else key_read size d

-- The driver behind a history, the newest event first.
unfoldable pub behind : List Event → Button
behind [] = fresh
behind (e ∷ history) = (step e (behind history)).1

abbrev IsQuiet : Button → Type 0
IsQuiet d = (d.key_val ≡ 0) × (d.ev_press ≡ 0)

step-IsQuiet : (e : Event) (d : Button) → IsQuiet d → IsQuiet (step e d).1
unfolding step key_read wait_event
step-IsQuiet interrupted d q = ground arith
step-IsQuiet signalled d q = ground arith
step-IsQuiet (reads size) d q = ground arith

behind-IsQuiet : (history : List Event) → IsQuiet (behind history)
unfolding behind
behind-IsQuiet [] = (refl, refl)
behind-IsQuiet (e ∷ history) = step-IsQuiet e (behind history) (behind-IsQuiet history)

quiet-interrupted : (d : Button) → IsQuiet d → (step interrupted d).1 ≡ d
unfolding step wait_event
quiet-interrupted d q = ground arith

quiet-signalled :
    (d : Button)
    → IsQuiet d
    → step signalled d
      ≡ (if d.waiting then (copied 0, record d { waiting = false }) else (nothing, d))
unfolding step
quiet-signalled d (k, p) = rw k (ground arith)

-- The handler stores nothing: in every history the driver is not ready for a poll, a press leaves the
-- driver as it is, a process that reads one byte sleeps, and it returns only by a signal, with the byte
-- 0.
pub behind-never :
    (history : List Event)
    → (key_poll (behind history) ≡ false)
      × ((step interrupted (behind history)).1 ≡ behind history)
      × ((key_read 1 (behind history)).0 ≡ sleeps)
      × (step signalled (behind history) ≡ (
          if (behind history).waiting
          then (copied 0, record (behind history) { waiting = false })
          else (nothing, behind history)))
unfolding key_poll key_read wait_event
behind-never history =
    let (k, p) = behind-IsQuiet history in
    (
      ground arith,
      quiet-interrupted (behind history) (k, p),
      ground arith,
      quiet-signalled (behind history) (k, p),
    )
