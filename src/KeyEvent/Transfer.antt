-- ===== src/KeyEvent/Transfer.antt =====
-- What the handlers of dirver/keyevent/module/board_input_dev.c carry from one side to the other.
use quick_start.Common.{
  ℕ, zero, suc, ◌+◌, ◌^◌, ◌≤◌, ◌<◌, ◌≡◌, refl, ◌∙◌, List, [], ◌∷◌, ◌++◌, true, false, none, some,
  take, take-append, length-take_all, drop, length, ltb, if◌then◌else◌, arith,
}
use quick_start.Common.Int.{ℤ, pos, negsuc}
use quick_start.KeyEvent.Device.{
  Device, board_button_send_buf_size, board_button_recv_buf_size, size_of_int, memcpy,
  set_trigger_board_input_event_handler, get_trigger_board_input_event_handler, board_button_poll,
  count, board_button_read, all, failed, board_button_write,
}

-- Both buffers have their size, and the lengths stay within it.
pub record IsValid (d : Device) : Type 0 where
  pub send_size : length d.send_data.bytes ≡ board_button_send_buf_size
  pub recv_size : length d.recv_data.bytes ≡ board_button_recv_buf_size
  pub send_len : d.send_data.len ≤ board_button_send_buf_size
  pub recv_len : d.recv_data.len ≤ board_button_recv_buf_size

pub take-take-append :
    (n : ℕ) (xs ys : List ℕ) → n ≤ length xs → take n (take n xs ++ ys) ≡ take n xs
take-take-append zero xs ys h = refl
take-take-append (suc n) [] ys h = absurd (omega arith)
take-take-append (suc n) (x ∷ xs) ys h = rw (take-take-append n xs ys (omega arith))

pub length-overlay :
    (n : ℕ) (xs ys : List ℕ)
    → n ≤ length xs
    → n ≤ length ys
    → length (take n xs ++ drop n ys) ≡ length ys
length-overlay zero xs ys h k = refl
length-overlay (suc n) [] ys h k = absurd (omega arith)
length-overlay (suc n) (x ∷ xs) [] h k = absurd (omega arith)
length-overlay (suc n) (x ∷ xs) (y ∷ ys) h k =
    omega (arith, length-overlay n xs ys (omega arith) (omega arith))

pub length-overlay_all :
    (xs ys : List ℕ) → length xs ≤ length ys → length (xs ++ drop (length xs) ys) ≡ length ys
length-overlay_all [] ys h = refl
length-overlay_all (x ∷ xs) [] h = absurd (omega arith)
length-overlay_all (x ∷ xs) (y ∷ ys) h = omega (arith, length-overlay_all xs ys (omega arith))

memcpy-some :
    (to from : List ℕ) (n : ℕ)
    → n ≤ length from
    → n ≤ length to
    → memcpy to from n ≡ some (take n from ++ drop n to)
unfolding memcpy
memcpy-some to from n h k = ground arith

module _ (w : ℕ) where
  pub set_some :
      (from : List ℕ) (n : ℕ) (d : Device)
      → IsValid d
      → n ≤ board_button_send_buf_size
      → n ≤ length from
      → set_trigger_board_input_event_handler w from (pos n) d
        ≡ some (record d {
          send_data = record { bytes = take n from ++ drop n d.send_data.bytes; len = n };
          trigger_status = true;
          woken = true;
        })
  unfolding set_trigger_board_input_event_handler
  set_some from n d v h k = ground (arith, memcpy-some d.send_data.bytes from n k)

  -- An event of at most 256 bytes that the caller can provide is stored whole: the device stays
  -- valid, the next poll reports it and the one after that does not, and a read of at most 256 bytes
  -- delivers exactly the event.
  pub set_trigger-read :
      (from : List ℕ) (n size : ℕ) (d : Device)
      → IsValid d
      → n ≤ board_button_send_buf_size
      → n ≤ length from
      → size ≤ board_button_send_buf_size
      → (e : Device) × (set_trigger_board_input_event_handler w from (pos n) d ≡ some e)
        × IsValid e
        × ((board_button_poll e).0 ≡ true)
        × ((board_button_poll (board_button_poll e).1).0 ≡ false)
        × (board_button_read true size e ≡ (count n, take n from))
  unfolding board_button_poll board_button_read
  set_trigger-read from n size d v h k z = (
    record d {
      send_data = record { bytes = take n from ++ drop n d.send_data.bytes; len = n };
      trigger_status = true;
      woken = true;
    },
    set_some from n d v h k,
    record {
      send_size = omega (arith, length-overlay n from d.send_data.bytes k);
      recv_size = v.recv_size;
      send_len = h;
      recv_len = v.recv_len;
    },
    refl,
    refl,
    rw (take-take-append n from (drop n d.send_data.bytes) k) (ground arith),
  )

  -- A length above 256 is refused with no effect.
  pub set_trigger-long :
      (from : List ℕ) (n : ℕ) (d : Device)
      → board_button_send_buf_size < n
      → set_trigger_board_input_event_handler w from (pos n) d ≡ some d
  unfolding set_trigger_board_input_event_handler
  set_trigger-long from n d h = ground arith

  -- A negative length passes the test: as a `size_t` it is more than a buffer of 256 bytes holds, and
  -- the copy runs over the end of the buffer.
  pub set_trigger-negative :
      (from : List ℕ) (n : ℕ) (d : Device)
      → IsValid d
      → board_button_send_buf_size + n + 1 < 2 ^ w
      → set_trigger_board_input_event_handler w from (negsuc n) d ≡ none
  unfolding set_trigger_board_input_event_handler memcpy
  set_trigger-negative from n d v h = ground arith

  -- What a complete write leaves.
  abbrev pub received : List ℕ → Device → Device
  received buf d = record d {
    recv_data = record { bytes = buf ++ drop (length buf) d.recv_data.bytes; len = length buf };
    woken = true;
  }

  pub write_all :
      (buf : List ℕ) (d : Device)
      → length buf ≤ board_button_recv_buf_size
      → board_button_write all buf d ≡ (count (length buf), received buf d)
  unfolding board_button_write
  write_all buf d h = ground arith

  pub get_stored :
      (len : ℤ) (to : List ℕ) (d : Device)
      → d.recv_data.len ≤ length d.recv_data.bytes
      → size_of_int w len ≤ length to
      → get_trigger_board_input_event_handler w to len d ≡ (
          if ltb (size_of_int w len) d.recv_data.len
          then some (0, to)
          else some
              (d.recv_data.len, take d.recv_data.len d.recv_data.bytes ++ drop d.recv_data.len to))
  unfolding get_trigger_board_input_event_handler
  get_stored len to d h k = ground (arith, memcpy-some to d.recv_data.bytes d.recv_data.len h)

  -- A message of at most 256 bytes that a process writes is handed over whole to a kernel caller whose
  -- buffer has room for it; the length that the caller states must be at least that of the message,
  -- else the caller gets nothing and its buffer stays as it is.
  pub write-get_trigger :
      (buf to : List ℕ) (room : ℕ) (d : Device)
      → IsValid d
      → length buf ≤ board_button_recv_buf_size
      → room ≤ length to
      → let r = board_button_write all buf d in
        IsValid r.1
        × (r.0 ≡ count (length buf))
        × (get_trigger_board_input_event_handler w to (pos room) r.1 ≡ (
            if ltb room (length buf)
            then some (0, to)
            else some (length buf, buf ++ drop (length buf) to)))
  write-get_trigger buf to room d v h k = rw (write_all buf d h) (
    record {
      send_size = v.send_size;
      recv_size = length-stored;
      send_len = v.send_len;
      recv_len = h;
    },
    refl,
    get_stored (pos room) to (received buf d) (omega (arith, length-stored)) k
        ∙ rw (take-append (length buf) buf (drop (length buf) d.recv_data.bytes) refl),
  )
    where
      length-stored : length (buf ++ drop (length buf) d.recv_data.bytes) ≡ 256
      length-stored = omega (arith, length-overlay_all buf d.recv_data.bytes)

  -- A write within the limit is reported as complete also where `copy_from_user` has failed: then
  -- nothing is woken, and the length of the message before it stays.
  pub write-reports :
      (leaves buf : List ℕ) (d : Device)
      → length buf ≤ board_button_recv_buf_size
      → let r = board_button_write (failed leaves) buf d in
        (r.0 ≡ count (length buf)) × (r.1.recv_data.len ≡ d.recv_data.len) × (r.1.woken ≡ d.woken)
  unfolding board_button_write
  write-reports leaves buf d h = ground arith

  -- A read never looks at the size that the process asks for, but to refuse more than 256: below that
  -- it returns the whole event, also where it is longer than the process asked for.
  pub read-ignores_size :
      (from : List ℕ) (n size : ℕ) (d : Device)
      → IsValid d
      → n ≤ board_button_send_buf_size
      → n ≤ length from
      → size < n
      → (e : Device) × (set_trigger_board_input_event_handler w from (pos n) d ≡ some e)
        × (length (board_button_read true size e).1 ≡ n)
        × (size < length (board_button_read true size e).1)
  read-ignores_size from n size d v h k z =
      let (e, s, _, _, _, r) = set_trigger-read from n size d v h k (omega arith) in
      let l : length (board_button_read true size e).1 ≡ n =
        rw r (omega (arith, length-take_all n from k)) in
      (e, s, l, omega arith)
