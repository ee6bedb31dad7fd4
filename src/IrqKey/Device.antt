-- ===== src/IrqKey/Device.antt =====
-- Opening and loading in dirver/char_drv_demo/irq_sig.c.
use quick_start.Common.{ℕ, ◌+◌, ◌-◌, ◌≡◌, refl, List, Bool, true, false, if◌then◌else◌}

-- What the driver holds of the kernel's. `irqs` are the handlers that are registered for the pin, and
-- `configured` is whether the pin is set up as an interrupt with a pull-up.
pub record Held : Type 0 where
  pub chrdev : Bool
  pub class_ : Bool
  pub node : Bool
  pub irqs : ℕ
  pub configured : Bool

-- 0, whether or not the handler can be registered.
unfoldable pub key_open : Bool → Held → ℕ × Held
key_open granted r =
    (0, record r { irqs = if granted then r.irqs + 1 else r.irqs; configured = true })

-- `key_write` takes nothing.
unfoldable pub key_write : List ℕ → ℕ
key_write buf = 0

unfoldable pub key_release : Held → Held
key_release r = record r { irqs = r.irqs - 1 }

-- 0, whatever the kernel grants of the number, the class and the node.
unfoldable pub m_key_init : Bool → Bool → Bool → Held → ℕ × Held
m_key_init chrdev class_ node r = (0, record r { chrdev = chrdev; class_ = class_; node = node })

unfoldable pub m_key_exit : Held → Held
m_key_exit r = record r { chrdev = false; class_ = false; node = false }

-- Loading reports success in every case, and unloading takes back what it has, or has not, registered.
pub m_key_exit-init :
    (chrdev class_ node : Bool) (r : Held)
    → ((m_key_init chrdev class_ node r).0 ≡ 0)
      × (m_key_exit (m_key_init chrdev class_ node r).1
          ≡ record r { chrdev = false; class_ = false; node = false })
unfolding m_key_init m_key_exit
m_key_exit-init chrdev class_ node r = (refl, refl)
