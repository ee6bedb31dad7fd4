-- ===== src/KeyEvent/Tests.antt =====
-- The theorems about dirver/keyevent at a concrete device and concrete texts.
use quick_start.Common.{
  ℕ, ◌≡◌, refl, true, false, some, List, [], ◌∷◌, ◌++◌, replicate, codes, arith,
}
use quick_start.Common.Int.{pos, negsuc}
use quick_start.KeyEvent.Device.{
  set_tail, Device, set_trigger_board_input_event_handler, board_button_poll, board_button_read,
  board_button_write, count, failed,
}
use quick_start.KeyEvent.Transfer.{IsValid, set_trigger-read, write-reports}
use quick_start.KeyEvent.Mailbox.{
  Answer, Call, sets, polls, reads, writes, gets, ready, delivered, wrote, handed, calls,
  calls-refine,
}
use quick_start.KeyEvent.Mailbox
use quick_start.KeyEvent.Bursts.{Burst, bursts, seen}
use quick_start.KeyEvent.Main.{main, waits, returned, main-handles}
use quick_start.KeyEvent.Poll.{Polled, asleep, turn, interleaved, run, IsMissed, wake_before_status}
use quick_start.KeyEvent.Trim.{trim, AllBlank, BeginsSolid, EndsSolid, trim_lem}
use quick_start.KeyEvent.Process.{poll_failed, classify}
use quick_start.KeyEvent.Lifecycle.{
  Grants, nothing, efault, board_button_dev_init, board_button_dev_init_atomic,
}

abbrev zeros : List ℕ
zeros = replicate 256 0

-- The device as `board_button_dev_init` leaves it, over buffers of zeros.
abbrev fresh : Device
fresh = record {
  send_data = record { bytes = zeros; len = 0 };
  recv_data = record { bytes = zeros; len = 0 };
  trigger_status = false;
  woken = false;
}

fresh-IsValid : IsValid fresh
fresh-IsValid = record {
  send_size = refl;
  recv_size = refl;
  send_len = omega arith;
  recv_len = omega arith;
}

abbrev key_event : List ℕ
key_event = codes "led onoff key"

set_trigger-read_example :
    (e : Device) × (set_trigger_board_input_event_handler 64 key_event (pos 13) fresh ≡ some e)
    × IsValid e
    × ((board_button_poll e).0 ≡ true)
    × ((board_button_poll (board_button_poll e).1).0 ≡ false)
    × (board_button_read true 255 e ≡ (count 13, key_event))
set_trigger-read_example =
    set_trigger-read 64 key_event 13 255 fresh fresh-IsValid (omega arith) (omega arith)
      (omega arith)

write-reports_example : (board_button_write (failed zeros) key_event fresh).0 ≡ count 13
write-reports_example = (write-reports 64 zeros key_event fresh (omega arith)).0

abbrev waiting : Polled
waiting = record { device = fresh; poller = asleep }

wake_before_status_example : IsMissed (run waiting (interleaved set_tail ++ replicate 5 turn))
wake_before_status_example =
    wake_before_status waiting 5 (record { sleeps = refl; nothing = refl; quiet = refl })

trim_lem_example :
    (a : List ℕ) × (b : List ℕ) × (codes " reboot " ≡ a ++ (trim (codes " reboot ") ++ b))
    × AllBlank a
    × AllBlank b
    × BeginsSolid (trim (codes " reboot "))
    × EndsSolid (trim (codes " reboot "))
trim_lem_example = trim_lem (codes " reboot ")

trim_runs : trim (codes " short reset key \n") ≡ codes "short reset key"
unfolding trim
trim_runs = refl

abbrev recv_buf : List ℕ
recv_buf = replicate 255 b'x'

-- The class cannot be created.
abbrev no_class : Grants
no_class = record {
  region_ok = true;
  recv_ok = true;
  send_ok = true;
  cdev_ok = true;
  class_ok = false;
  device_ok = true;
}

board_button_dev_init_atomic_example : board_button_dev_init no_class nothing ≡ (efault, nothing)
board_button_dev_init_atomic_example = (board_button_dev_init_atomic no_class).0

abbrev history : List Call
history = sets key_event 13 ∷ polls ∷ polls ∷ reads 255 ∷ writes (codes "ok") ∷ gets zeros 100 ∷ []

calls-refine_example :
    calls 64 history fresh
    ≡ some (
        Mailbox.nothing
        ∷ ready true
        ∷ ready false
        ∷ delivered (count 13) key_event
        ∷ wrote (count 2)
        ∷ handed 2 (codes "ok" ++ replicate 254 0)
        ∷ [])
calls-refine_example =
    calls-refine 64 history fresh fresh-IsValid
      (omega arith, (tt, (tt, (tt, (tt, (omega arith, tt))))))

abbrev two_bursts : List Burst
two_bursts =
    record { before = codes "led" ∷ zeros ∷ []; last = codes "wifi key" }
    ∷ record { before = []; last = codes "short reset key" }
    ∷ []

main-handles_example :
    (given : List Answer) × (calls 64 (bursts two_bursts) fresh ≡ some given)
    × (main (pos 3) recv_buf (seen given)
        ≡ some (waits (classify (codes "wifi key") ∷ classify (codes "short reset key") ∷ [])))
    × (main (pos 3) recv_buf (seen given ++ poll_failed ∷ [])
        ≡ some (
            returned
              (classify (codes "wifi key") ∷ classify (codes "short reset key") ∷ [])
              (pos 3)
              0))
    × ((n : ℕ) → main (negsuc n) recv_buf (seen given) ≡ some (returned [] (negsuc n) 0))
main-handles_example = main-handles 64 3 two_bursts recv_buf fresh fresh-IsValid refl (omega arith)
