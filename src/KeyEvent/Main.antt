-- ===== src/KeyEvent/Main.antt =====
-- `main` of dirver/keyevent/process/board_event.c, from opening the device to closing it.
use quick_start.Common.{
  ℕ, ◌≡◌, refl, ap, ◌∙◌, List, [], ◌∷◌, ◌++◌, Bool, true, false, Option, none, some, map, length,
  if◌then◌else◌, arith,
}
use quick_start.Common.Int.{ℤ, pos, negsuc, ltb_ℤ}
use quick_start.KeyEvent.Device.{Device}
use quick_start.KeyEvent.Transfer.{IsValid}
use quick_start.KeyEvent.Mailbox.{Answer, answers, calls}
use quick_start.KeyEvent.EventDevice.{EventDevice, board_button_dev}
use quick_start.KeyEvent.Process.{
  Handled, Polling, poll_failed, no_input, input, event_loop, recv_max_buf_size, AllFit, inputs,
  classify, event_loop-terminated,
}
use quick_start.KeyEvent.Bursts.{Burst, bursts, bursts-AllProvided, seen, seen-bursts, lasts}

-- What has become of the process: it waits for the next event, or it has returned, with the messages
-- that it has handled, the descriptor that it has closed and its status.
pub data Process : Type 0 where
  waits : List Handled → Process
  returned : List Handled → (closed : ℤ) → (status : ℕ) → Process

-- Whether the loop is left: a call of `poll` fails.
unfoldable pub is_left : List Polling → Bool
is_left [] = false
is_left (poll_failed ∷ ps) = true
is_left (no_input ∷ ps) = is_left ps
is_left (input delivered ∷ ps) = is_left ps

-- `fd` is what `open` returns, and `recv_buf` what the array holds at first; `none` is a write behind
-- its end.
unfoldable pub main : ℤ → List ℕ → List Polling → Option Process
unfolding is_left
main fd recv_buf ps =
    if ltb_ℤ fd (pos 0) then some (returned [] fd 0) else elim (event_loop recv_buf ps) [
      | none ↦ none
      | some handled ↦ some (if is_left ps then returned handled fd 0 else waits handled)
    ]

inputs-left :
    (ws : List (List ℕ))
    → (is_left (inputs ws) ≡ false) × (is_left (inputs ws ++ poll_failed ∷ []) ≡ true)
unfolding is_left
inputs-left [] = (refl, refl)
inputs-left (w ∷ ws) = inputs-left ws

-- A failing `poll` ends the loop, and handles nothing.
loop-failed :
    (ps : List Polling) (buf : List ℕ) → event_loop buf (ps ++ poll_failed ∷ []) ≡ event_loop buf ps
unfolding event_loop
loop-failed [] buf = refl
loop-failed (poll_failed ∷ ps) buf = refl
loop-failed (no_input ∷ ps) buf = loop-failed ps buf
loop-failed (input none ∷ ps) buf = rw (loop-failed ps buf) refl
loop-failed (input (some delivered) ∷ ps) buf = grind (arith, loop-failed ps)

-- The process behind a device that is opened.
main-opened :
    (fd : ℕ) (buf : List ℕ) (ps : List Polling) (hs : List Handled)
    → event_loop buf ps ≡ some hs
    → main (pos fd) buf ps ≡ some (if is_left ps then returned hs (pos fd) 0 else waits hs)
unfolding main
main-opened fd buf ps hs e = ground arith

main-failed :
    (n : ℕ) (buf : List ℕ) (ps : List Polling)
    → main (negsuc n) buf ps ≡ some (returned [] (negsuc n) 0)
unfolding main
main-failed n buf ps = ground arith

-- The process behind any such device.
module _ (dev : EventDevice) where
  open dev use {State, IsOpen, view, answer, answer_lem}

  pub main-bursts :
      (fd : ℕ) (bs : List Burst) (buf : List ℕ) (d : State)
      → IsOpen d
      → length buf ≡ recv_max_buf_size
      → AllFit recv_max_buf_size (lasts bs)
      → (given : List Answer) × (answer (bursts bs) d ≡ some given)
        × (main (pos fd) buf (seen given) ≡ some (waits (map classify (lasts bs))))
        × (main (pos fd) buf (seen given ++ poll_failed ∷ [])
            ≡ some (returned (map classify (lasts bs)) (pos fd) 0))
        × ((n : ℕ) → main (negsuc n) buf (seen given) ≡ some (returned [] (negsuc n) 0))
  main-bursts fd bs buf d v l h =
      let ps = inputs (lasts bs) in
      let hs = map classify (lasts bs) in
      let handled = event_loop-terminated (lasts bs) buf (rw l h) in
      let (stays, leaves) = inputs-left (lasts bs) in
      let saw = seen-bursts bs h (view d) in
      (
        answers (bursts bs) (view d),
        answer_lem (bursts bs) d v (bursts-AllProvided bs),
        ap (main (pos fd) buf) saw
            ∙ main-opened fd buf ps hs handled
            ∙ ap (λ left. some (if left then returned hs (pos fd) 0 else waits hs)) stays,
        ap (λ qs. main (pos fd) buf (qs ++ poll_failed ∷ [])) saw
            ∙ main-opened fd buf (ps ++ poll_failed ∷ []) hs (loop-failed ps buf ∙ handled)
            ∙ ap (λ left. some (if left then returned hs (pos fd) 0 else waits hs)) leaves,
        λ n. main-failed n buf (seen (answers (bursts bs) (view d))),
      )

-- From the driver to the process: where events come in bursts and the process polls and reads behind
-- each, it has handled just the last event of every burst, by its own text, in the order of the bursts,
-- and waits for the next; if a poll fails behind them, it closes the device and returns 0. If the device
-- cannot be opened it handles nothing, closes the error code, and returns 0 all the same. The last
-- events must be sent with their NUL and leave room in the buffer of the process.
pub main-handles :
    (bits fd : ℕ) (bs : List Burst) (buf : List ℕ) (d : Device)
    → IsValid d
    → length buf ≡ recv_max_buf_size
    → AllFit recv_max_buf_size (lasts bs)
    → (given : List Answer) × (calls bits (bursts bs) d ≡ some given)
      × (main (pos fd) buf (seen given) ≡ some (waits (map classify (lasts bs))))
      × (main (pos fd) buf (seen given ++ poll_failed ∷ [])
          ≡ some (returned (map classify (lasts bs)) (pos fd) 0))
      × ((n : ℕ) → main (negsuc n) buf (seen given) ≡ some (returned [] (negsuc n) 0))
main-handles bits = main-bursts (board_button_dev bits)
