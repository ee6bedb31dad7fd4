-- ===== src/KeyEvent/EventDevice.antt =====
-- What dirver/keyevent/process relies on of the device that it opens: each side's calls are answered as
-- by two mailboxes.
use quick_start.Common.{ℕ, ◌≡◌, List, Option, some}
use quick_start.KeyEvent.Device.{Device}
use quick_start.KeyEvent.Transfer.{IsValid}
use quick_start.KeyEvent.Mailbox.{
  Call, Answer, AllProvided, Boxes, boxes, answers, calls, calls-refine,
}

pub record EventDevice : Type 1 where
  pub State : Type 0
  pub IsOpen : State → Type 0
  pub view : State → Boxes
  pub answer : List Call → State → Option (List Answer)
  pub answer_lem :
      (cs : List Call) (s : State)
      → IsOpen s
      → AllProvided cs
      → answer cs s ≡ some (answers cs (view s))

-- The driver of dirver/keyevent/module is one, for each width of a size_t.
abbrev pub board_button_dev : ℕ → EventDevice
board_button_dev bits = record {
  State = Device;
  IsOpen = IsValid;
  view = boxes;
  answer = calls bits;
  answer_lem = calls-refine bits;
}
