-- ===== src/IrqKey/PolledDevice.antt =====
-- Opening and loading in dirver/char_drv_demo/irq_poll.c, which leaves the pin as it is.
use quick_start.Common.{ℕ, ◌+◌, ◌-◌, ◌≡◌, refl, List, Bool, true, false, if◌then◌else◌, arith}
use quick_start.IrqKey.Device.{Held}

-- 0, whether or not the handler can be registered.
unfoldable pub key_open : Bool → Held → ℕ × Held
key_open granted r = (0, record r { irqs = if granted then r.irqs + 1 else r.irqs })

-- `key_write` takes nothing.
unfoldable pub key_write : List ℕ → ℕ
key_write buf = 0

unfoldable pub key_release : Held → Held
key_release r = record r { irqs = r.irqs - 1 }

unfoldable pub m_key_init : Bool → Bool → Bool → Held → ℕ × Held
m_key_init chrdev class_ node r = (0, record r { chrdev = chrdev; class_ = class_; node = node })

unfoldable pub m_key_exit : Held → Held
m_key_exit r = record r { chrdev = false; class_ = false; node = false }

-- A second process whose handler cannot be registered is told that the device is open, and its release
-- takes the handler of the first.
pub key_release-refused :
    (r : Held)
    → ((key_open false r).0 ≡ 0)
      × ((key_release (key_open false (key_open true r).1).1).irqs ≡ r.irqs)
unfolding key_open key_release
key_release-refused r = (refl, omega arith)
