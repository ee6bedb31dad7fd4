-- ===== src/KeyEvent/Mailbox.antt =====
-- The device of dirver/keyevent/module/board_input_dev.c against two mailboxes.
use quick_start.Common.{
  ◌>>=◌, ℕ, ◌≤◌, ◌<◌, ◌≡◌, refl, List, [], ◌∷◌, ◌++◌, Bool, true, false, Option, none, some, inl,
  inr, Bool-cases, take, take-append, drop, length-take_all, length, ltb, if◌then◌else◌, arith,
}
use quick_start.Common.Int.{pos}
use quick_start.KeyEvent.Device.{
  Device, board_button_send_buf_size, board_button_recv_buf_size, Returned, efault, count,
  set_trigger_board_input_event_handler, get_trigger_board_input_event_handler, board_button_poll,
  board_button_read, all, board_button_write,
}
use quick_start.KeyEvent.Transfer.{
  IsValid, set_some, set_trigger-long, write_all, get_stored, received, length-overlay,
  length-overlay_all, take-take-append,
}

-- The calls of both sides: of the kernel `sets` and `gets`, of a process the others.
pub data Call : Type 0 where
  sets : (from : List ℕ) (n : ℕ) → Call
  polls : Call
  reads : (size : ℕ) → Call
  writes : (buf : List ℕ) → Call
  gets : (to : List ℕ) (room : ℕ) → Call

-- A caller provides the bytes that it speaks of.
abbrev pub IsProvided : Call → Type 0
IsProvided (sets from n) = n ≤ length from
IsProvided polls = Unit {0}
IsProvided (reads size) = Unit {0}
IsProvided (writes buf) = Unit {0}
IsProvided (gets to room) = room ≤ length to

abbrev pub AllProvided : List Call → Type 0
AllProvided [] = Unit {0}
AllProvided (c ∷ cs) = IsProvided c × AllProvided cs

pub data Answer : Type 0 where
  nothing : Answer
  ready : Bool → Answer
  delivered : Returned → List ℕ → Answer
  wrote : Returned → Answer
  handed : ℕ → List ℕ → Answer

abbrev after_set : Option Device → Option (Answer × Device)
after_set none = none
after_set (some e) = some (nothing, e)

abbrev after_get : Device → Option (ℕ × List ℕ) → Option (Answer × Device)
after_get d none = none
after_get d (some (n, bytes)) = some (handed n bytes, d)

-- The call on the device, where what is copied to and from user space is there; `none` is a fault of
-- `memcpy`.
unfoldable pub call : ℕ → Call → Device → Option (Answer × Device)
call w (sets from n) d = after_set (set_trigger_board_input_event_handler w from (pos n) d)
call w polls d = some (ready (board_button_poll d).0, (board_button_poll d).1)
call w (reads size) d =
    some (delivered (board_button_read true size d).0 (board_button_read true size d).1, d)
call w (writes buf) d =
    some (wrote (board_button_write all buf d).0, (board_button_write all buf d).1)
call w (gets to room) d = after_get d (get_trigger_board_input_event_handler w to (pos room) d)

unfoldable pub calls : ℕ → List Call → Device → Option (List Answer)
calls w [] d = some []
calls w (c ∷ cs) d = do (answer, e) ← call w c d; answers ← calls w cs e; some (answer ∷ answers)

-- The specification: the last event, whether it is still to be polled, and the last message.
pub record Boxes : Type 0 where
  pub event : List ℕ
  pub is_new : Bool
  pub message : List ℕ

abbrev pub answer : Call → Boxes → Answer × Boxes
answer (sets from n) b =
    if ltb 256 n then (nothing, b) else (nothing, record b { event = take n from; is_new = true })
answer polls b = (ready b.is_new, record b { is_new = false })
answer (reads size) b =
    if ltb 256 size
    then (delivered efault [], b)
    else (delivered (count (length b.event)) b.event, b)
answer (writes buf) b =
    if ltb 256 (length buf)
    then (wrote efault, b)
    else (wrote (count (length buf)), record b { message = buf })
answer (gets to room) b =
    if ltb room (length b.message)
    then (handed 0 to, b)
    else (handed (length b.message) (b.message ++ drop (length b.message) to), b)

abbrev pub answers : List Call → Boxes → List Answer
answers [] b = []
answers (c ∷ cs) b = (answer c b).0 ∷ answers cs (answer c b).1

-- The mailboxes that a device holds.
abbrev pub boxes : Device → Boxes
boxes d = record {
  event = take d.send_data.len d.send_data.bytes;
  is_new = d.trigger_status;
  message = take d.recv_data.len d.recv_data.bytes;
}

-- A device that answers as its mailboxes do, and holds those that they become.
abbrev Agrees : ℕ → Call → Device → Type 0
Agrees w c d =
    (e : Device) × (call w c d ≡ some ((answer c (boxes d)).0, e))
    × IsValid e
    × (boxes e ≡ (answer c (boxes d)).1)

module _ (w : ℕ) where
  sets-Agrees :
      (from : List ℕ) (n : ℕ) (d : Device) → IsValid d → n ≤ length from → Agrees w (sets from n) d
  unfolding call
  sets-Agrees from n d v h = elim (Bool-cases (ltb 256 n)) [
    | inl long ↦ (d, rw (long, set_trigger-long w from n d (ground arith)) refl, v, rw long refl)
    | inr short ↦
        let fits : n ≤ board_button_send_buf_size = ground arith in
        (
          record d {
            send_data = record { bytes = take n from ++ drop n d.send_data.bytes; len = n };
            trigger_status = true;
            woken = true;
          },
          rw (short, set_some w from n d v fits h) refl,
          record {
            send_size = omega (
              arith,
              length-overlay n from d.send_data.bytes h (omega (arith, v.send_size)),
              v.send_size,
            );
            recv_size = v.recv_size;
            send_len = fits;
            recv_len = v.recv_len;
          },
          rw (short, take-take-append n from (drop n d.send_data.bytes) h) refl,
        )
  ]

  poll_lem :
      (d : Device) → board_button_poll d ≡ (d.trigger_status, record d { trigger_status = false })
  unfolding board_button_poll
  poll_lem d = ground arith

  polls-Agrees : (d : Device) → IsValid d → Agrees w polls d
  unfolding call
  polls-Agrees d v = (
    record d { trigger_status = false },
    rw (poll_lem d) refl,
    record {
      send_size = v.send_size;
      recv_size = v.recv_size;
      send_len = v.send_len;
      recv_len = v.recv_len;
    },
    refl,
  )

  reads-Agrees : (size : ℕ) (d : Device) → IsValid d → Agrees w (reads size) d
  unfolding call board_button_read
  reads-Agrees size d v = elim (Bool-cases (ltb 256 size)) [
    | inl long ↦ (d, rw long refl, v, rw long refl)
    | inr short ↦ (
      d,
      rw
          (
            short,
            length-take_all d.send_data.len d.send_data.bytes
                (omega (arith, v.send_size, v.send_len)),
          )
          refl,
      v,
      rw short refl,
    )
  ]

  write_long :
      (buf : List ℕ) (d : Device)
      → board_button_recv_buf_size < length buf
      → board_button_write all buf d ≡ (efault, d)
  unfolding board_button_write
  write_long buf d h = ground arith

  writes-Agrees : (buf : List ℕ) (d : Device) → IsValid d → Agrees w (writes buf) d
  unfolding call
  writes-Agrees buf d v = elim (Bool-cases (ltb 256 (length buf))) [
    | inl long ↦ (d, rw (long, write_long buf d (ground arith)) refl, v, rw long refl)
    | inr short ↦
        let fits : length buf ≤ board_button_recv_buf_size = ground arith in
        (
          received w buf d,
          rw (short, write_all w buf d fits) refl,
          record {
            send_size = v.send_size;
            recv_size = omega (
              arith,
              length-overlay_all buf d.recv_data.bytes (omega (arith, v.recv_size)),
              v.recv_size,
            );
            send_len = v.send_len;
            recv_len = fits;
          },
          rw (short, take-append (length buf) buf (drop (length buf) d.recv_data.bytes) refl) refl,
        )
  ]

  gets-Agrees :
      (to : List ℕ) (room : ℕ) (d : Device)
      → IsValid d
      → room ≤ length to
      → Agrees w (gets to room) d
  unfolding call
  gets-Agrees to room d v h =
      let whole =
        length-take_all d.recv_data.len d.recv_data.bytes
          (omega (arith, v.recv_size, v.recv_len)) in
      let got = get_stored w (pos room) to d (omega (arith, v.recv_size, v.recv_len)) h in
      elim (Bool-cases (ltb room d.recv_data.len)) [
        | inl long ↦ (d, rw (whole, got, long) refl, v, rw (whole, long) refl)
        | inr short ↦ (d, rw (whole, got, short) refl, v, rw (whole, short) refl)
      ]

  call-Agrees : (c : Call) (d : Device) → IsValid d → IsProvided c → Agrees w c d
  call-Agrees (sets from n) d v h = sets-Agrees from n d v h
  call-Agrees polls d v h = polls-Agrees d v
  call-Agrees (reads size) d v h = reads-Agrees size d v
  call-Agrees (writes buf) d v h = writes-Agrees buf d v
  call-Agrees (gets to room) d v h = gets-Agrees to room d v h

  -- A device whose buffers have their size implements two mailboxes: whatever calls of both sides
  -- come in whatever order, each answer is the one that the mailboxes give, of which the one holds
  -- the last event of at most 256 bytes and whether a poll has reported it, and the other the last
  -- message of at most 256 bytes. Each caller must provide the bytes that it speaks of, and no copy
  -- to or from user space may fail.
  pub calls-refine :
      (cs : List Call) (d : Device)
      → IsValid d
      → AllProvided cs
      → calls w cs d ≡ some (answers cs (boxes d))
  unfolding calls
  calls-refine [] d v h = refl
  calls-refine (c ∷ cs) d v h =
      let (e, a, v', b) = call-Agrees c d v h.0 in rw (a, calls-refine cs e v' h.1, b) refl
