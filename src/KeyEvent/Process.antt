-- ===== src/KeyEvent/Process.antt =====
-- The user process of dirver/keyevent/process/board_event.c: `handle_dev_info` and the loop of `main`.
use mathlib.Core.List.{append_assoc}
use quick_start.Common.{
  byte_lengths, ℕ, ◌≤◌, ◌≡◌, refl, ◌∙◌, true, Option, none, some, List, [], ◌∷◌, ◌++◌, map, length,
  take-all, drop, drop-append, ltb, ◌==◌, if◌then◌else◌, arith, codes, str_eq, c_string, HasNoNul,
  c_string-nul,
}
use quick_start.Common.Int.{pos}
use quick_start.KeyEvent.Device.{
  Device, set_trigger_board_input_event_handler, board_button_read, board_button_send_buf_size,
}
use quick_start.KeyEvent.Transfer.{IsValid, set_trigger-read}

abbrev pub recv_max_buf_size : ℕ
recv_max_buf_size = 255

abbrev pub wifi_onoff_key : List ℕ
wifi_onoff_key = codes "wifi key"

-- Which of its two lines `handle_dev_info` prints.
pub data Handled : Type 0 where
  wifi unused : Handled

unfoldable pub handle_dev_info : List ℕ → Handled
unfolding c_string
handle_dev_info msg = if str_eq (c_string msg) wifi_onoff_key then wifi else unused

-- What `read` leaves in `recv_buf`; `none` if the device has written behind its end.
unfoldable pub read_into : List ℕ → List ℕ → Option (List ℕ)
read_into recv_buf delivered =
    if ltb (length recv_buf) (length delivered)
    then none
    else some (delivered ++ drop (length delivered) recv_buf)

-- A return of `poll`: -1, or no POLLIN, or POLLIN with the outcome of the `read` behind it, which may
-- fail.
pub data Polling : Type 0 where
  poll_failed : Polling
  no_input : Polling
  input : Option (List ℕ) → Polling

-- The loop of `main`, over what `poll` and `read` return: the messages handled, in order, or `none`
-- behind an overflow. The result of `read` is not looked at.
unfoldable pub event_loop : List ℕ → List Polling → Option (List Handled)
event_loop recv_buf [] = some []
event_loop recv_buf (poll_failed ∷ ps) = some []
event_loop recv_buf (no_input ∷ ps) = event_loop recv_buf ps
event_loop recv_buf (input none ∷ ps) =
    let rest = event_loop recv_buf ps in
    elim rest [ none ↦ none | some hs ↦ some (handle_dev_info recv_buf ∷ hs) ]
event_loop recv_buf (input (some delivered) ∷ ps) = elim (read_into recv_buf delivered) [
  | none ↦ none
  | some buf ↦
      let rest = event_loop buf ps in
      elim rest [ none ↦ none | some hs ↦ some (handle_dev_info buf ∷ hs) ]
]

-- What a text means to `handle_dev_info`.
abbrev pub classify : List ℕ → Handled
classify w = if str_eq w wifi_onoff_key then wifi else unused

handle-nul : (w t : List ℕ) → HasNoNul w → handle_dev_info (w ++ 0 ∷ t) ≡ classify w
unfolding handle_dev_info
handle-nul w t h = rw (c_string-nul w t h)

-- A message with the NUL behind it that `strlen` does not count.
abbrev pub terminated : List ℕ → List ℕ
terminated w = w ++ 0 ∷ []

length-read :
    (buf m : List ℕ) → length m ≤ length buf → length (m ++ drop (length m) buf) ≡ length buf
length-read buf [] h = refl
length-read [] (c ∷ m) h = absurd (omega arith)
length-read (x ∷ buf) (c ∷ m) h = omega (arith, length-read buf m (omega arith))

read_into-some :
    (buf m : List ℕ) → length m ≤ length buf → read_into buf m ≡ some (m ++ drop (length m) buf)
unfolding read_into
read_into-some buf m h = ground arith

loop-step :
    (buf m : List ℕ) (ps : List Polling) (hs : List Handled)
    → length m ≤ length buf
    → event_loop (m ++ drop (length m) buf) ps ≡ some hs
    → event_loop buf (input (some m) ∷ ps) ≡ some (handle_dev_info (m ++ drop (length m) buf) ∷ hs)
unfolding event_loop
loop-step buf m ps hs h e = ground (arith, read_into-some buf m h)

-- Texts without a NUL that fit, with it, into the buffer.
abbrev pub AllFit : ℕ → List (List ℕ) → Type 0
AllFit n [] = Unit {0}
AllFit n (w ∷ ws) = HasNoNul w × (length (terminated w) ≤ n) × AllFit n ws

abbrev pub inputs : List (List ℕ) → List Polling
inputs [] = []
inputs (w ∷ ws) = input (some (terminated w)) ∷ inputs ws

-- Messages that are sent with their NUL, and fit into the buffer, are each handled by their own text,
-- whatever the buffer held before.
pub event_loop-terminated :
    (ws : List (List ℕ)) (buf : List ℕ)
    → AllFit (length buf) ws
    → event_loop buf (inputs ws) ≡ some (map classify ws)
unfolding event_loop
event_loop-terminated [] buf h = refl
event_loop-terminated (w ∷ ws) buf h =
    let m = terminated w in
    let rest = drop (length m) buf in
    let ih = event_loop-terminated ws (m ++ rest) (rw (length-read buf m h.1) h.2) in
    loop-step buf m (inputs ws) (map classify ws) h.1 ih
    ∙ rw (append_assoc w (0 ∷ []) rest, handle-nul w rest h.0)

handle-key :
    (c : ℕ) (rest : List ℕ)
    → handle_dev_info (wifi_onoff_key ++ c ∷ rest) ≡ (if c == 0 then wifi else unused)
unfolding handle_dev_info str_eq
handle-key c rest = ground arith

-- A message that is sent without its NUL runs on into what the buffer held behind it: the key is
-- recognised only where the old byte behind it is NUL.
pub event_loop-stale :
    (old : List ℕ) (c : ℕ) (rest : List ℕ)
    → length old ≡ length wifi_onoff_key
    → event_loop (old ++ c ∷ rest) (input (some wifi_onoff_key) ∷ [])
      ≡ some ((if c == 0 then wifi else unused) ∷ [])
unfolding event_loop
event_loop-stale old c rest h =
    loop-step (old ++ c ∷ rest) wifi_onoff_key [] [] (omega byte_lengths) refl
    ∙ rw (drop-append 8 old (c ∷ rest) h, handle-key c rest)

-- From the driver to the process: an event with its NUL that the driver is given, and that leaves room
-- in the buffer of the process, is handled by its own text.
pub event-handled :
    (bits : ℕ) (w buf : List ℕ) (d : Device)
    → IsValid d
    → HasNoNul w
    → length buf ≡ recv_max_buf_size
    → length (terminated w) ≤ recv_max_buf_size
    → (e : Device) × (set_trigger_board_input_event_handler bits
          (terminated w)
          (pos (length (terminated w)))
          d
        ≡ some e)
      × (event_loop buf (input (some (board_button_read true recv_max_buf_size e).1) ∷ [])
          ≡ some (classify w ∷ []))
event-handled bits w buf d v h l k =
    let (e, s, _, _, _, r) =
      set_trigger-read bits (terminated w) (length (terminated w)) recv_max_buf_size d v
        (omega arith) (omega arith) (omega arith) in
    (
      e,
      s,
      rw (r, take-all (length (terminated w)) (terminated w) (omega arith))
          (event_loop-terminated (w ∷ []) buf (h, omega arith, tt)),
    )

-- The driver accepts an event one byte longer than the buffer of the process, and its read writes
-- that event behind the end of the buffer.
pub event-overflow :
    (bits : ℕ) (m buf : List ℕ) (d : Device)
    → IsValid d
    → length buf ≡ recv_max_buf_size
    → length m ≡ board_button_send_buf_size
    → (e : Device) × (set_trigger_board_input_event_handler bits m (pos (length m)) d ≡ some e)
      × (event_loop buf (input (some (board_button_read true recv_max_buf_size e).1) ∷ []) ≡ none)
unfolding event_loop read_into
event-overflow bits m buf d v l k =
    let (e, s, _, _, _, r) =
      set_trigger-read bits m (length m) recv_max_buf_size d v (omega arith) (omega arith)
        (omega arith) in
    (e, s, rw (r, take-all (length m) m (omega arith)) (ground arith))
