-- ===== src/KeyEvent/Device.antt =====
-- The device of dirver/keyevent/module/board_input_dev.c: its two buffers and the handlers.
use quick_start.Common.{
  ℕ, ◌-◌, ◌^◌, List, [], ◌∷◌, ◌++◌, Bool, true, false, Option, none, some, take, drop, length, ltb,
  if◌then◌else◌,
}
use quick_start.Common.Int.{ℤ, pos, negsuc, ltb_ℤ}

-- `board_button_data_t`: a buffer of 256 bytes, and how many of them count.
pub record BoardButtonData : Type 0 where
  pub bytes : List ℕ
  pub len : ℕ

-- The module's static data. `woken` is whether the wait queue has been woken since a poller went to
-- sleep on it.
pub record Device : Type 0 where
  pub send_data : BoardButtonData
  pub recv_data : BoardButtonData
  pub trigger_status : Bool
  pub woken : Bool

abbrev pub board_button_recv_buf_size : ℕ
board_button_recv_buf_size = 256

abbrev pub board_button_send_buf_size : ℕ
board_button_send_buf_size = 256

-- An `int` converted to `size_t`, which has `w` bits.
abbrev pub size_of_int : ℕ → ℤ → ℕ
size_of_int w (pos n) = n
size_of_int w (negsuc n) = 2 ^ w - n - 1

-- `memcpy(to, from, n)`; `none` if it reads or writes behind the end of a buffer.
unfoldable pub memcpy : List ℕ → List ℕ → ℕ → Option (List ℕ)
memcpy to from n =
    if ltb (length from) n
    then none
    else if ltb (length to) n
    then none
    else some (take n from ++ drop n to)

-- The copy of `set_trigger_board_input_event_handler`, before the wake-up and the flag. `none` is a
-- fault of `memcpy`; the flag says whether the handler goes on.
unfoldable pub set_copy : ℕ → List ℕ → ℤ → Device → Option (Bool × Device)
unfolding memcpy
set_copy w from len d =
    if ltb_ℤ (pos board_button_send_buf_size) len
    then some (false, d)
    else elim (memcpy d.send_data.bytes from (size_of_int w len)) [
      | none ↦ none
      | some bytes ↦
          some (true, record d { send_data = record { bytes = bytes; len = size_of_int w len } })
    ]

unfoldable pub set_wake : Device → Device
set_wake d = record d { woken = true }

unfoldable pub set_status : Device → Device
set_status d = record d { trigger_status = true }

-- What the handler does behind its copy, in its order.
abbrev pub set_tail : List (Device → Device)
set_tail = set_wake ∷ set_status ∷ []

abbrev pub in_order : List (Device → Device) → Device → Device
in_order [] d = d
in_order (f ∷ fs) d = in_order fs (f d)

unfoldable pub set_trigger_board_input_event_handler : ℕ → List ℕ → ℤ → Device → Option Device
unfolding set_copy set_wake set_status
set_trigger_board_input_event_handler w from len d = elim (set_copy w from len d) [
  | none ↦ none
  | some (false, e) ↦ some e
  | some (true, e) ↦ some (in_order set_tail e)
]

-- `to` is the caller's buffer. The test compares `len` as a `size_t`.
unfoldable pub get_trigger_board_input_event_handler : ℕ → List ℕ → ℤ → Device → Option (ℕ × List ℕ)
unfolding memcpy
get_trigger_board_input_event_handler w to len d =
    if ltb (size_of_int w len) d.recv_data.len
    then some (0, to)
    else elim (memcpy to d.recv_data.bytes d.recv_data.len) [
      | none ↦ none
      | some bytes ↦ some (d.recv_data.len, bytes)
    ]

-- The mask POLLIN | POLLRDNORM as a truth value.
unfoldable pub board_button_poll : Device → Bool × Device
board_button_poll d =
    if d.trigger_status then (true, record d { trigger_status = false }) else (false, d)

-- What a call from user space returns: `-EFAULT` or a count.
pub data Returned : Type 0 where
  efault : Returned
  count : ℕ → Returned

-- The bytes that reach the user's buffer. `readable` is whether `copy_to_user` succeeds.
unfoldable pub board_button_read : Bool → ℕ → Device → Returned × List ℕ
board_button_read readable size d =
    if ltb board_button_send_buf_size size
    then (efault, take 0 d.send_data.bytes)
    else if readable
    then (count d.send_data.len, take d.send_data.len d.send_data.bytes)
    else (efault, take 0 d.send_data.bytes)

-- `copied` is the result of `copy_from_user`: all of `buf`, or what it leaves in the buffer if it
-- fails.
pub data Copied : Type 0 where
  all : Copied
  failed : (leaves : List ℕ) → Copied

unfoldable pub write_copied : Copied → List ℕ → Device → Device
write_copied all buf d = record d {
  recv_data = record { bytes = buf ++ drop (length buf) d.recv_data.bytes; len = length buf };
  woken = true;
}
write_copied (failed leaves) buf d = record d { recv_data = record d.recv_data { bytes = leaves } }

unfoldable pub board_button_write : Copied → List ℕ → Device → Returned × Device
unfolding write_copied
board_button_write copied buf d =
    if ltb board_button_recv_buf_size (length buf)
    then (efault, d)
    else (count (length buf), write_copied copied buf d)
