-- ===== src/KeyEvent/Lifecycle.antt =====
-- Loading and unloading of dirver/keyevent/module/board_input_dev.c.
use quick_start.Common.{◌≡◌, Bool, true, false, not, ◌&&◌, ◌||◌, if◌then◌else◌, arith}

-- What the module has taken from the kernel.
pub record Resources : Type 0 where
  pub region : Bool  -- the device number
  pub recv_buf : Bool
  pub send_buf : Bool
  pub cdev : Bool
  pub class_ : Bool
  pub device : Bool

abbrev pub nothing : Resources
nothing = record {
  region = false;
  recv_buf = false;
  send_buf = false;
  cdev = false;
  class_ = false;
  device = false;
}

abbrev pub everything : Resources
everything = record {
  region = true;
  recv_buf = true;
  send_buf = true;
  cdev = true;
  class_ = true;
  device = true;
}

-- What the kernel grants `board_button_dev_init`.
pub record Grants : Type 0 where
  pub region_ok : Bool
  pub recv_ok : Bool
  pub send_ok : Bool
  pub cdev_ok : Bool
  pub class_ok : Bool
  pub device_ok : Bool

pub data Status : Type 0 where
  success efault : Status

-- The labels, each of which falls through to the next.
unfoldable pub fail : Resources → Status × Resources
fail r = (efault, record r { recv_buf = false; send_buf = false; region = false })

unfoldable pub err_cdev_del : Resources → Status × Resources
unfolding fail
err_cdev_del r = fail (record r { cdev = false })

unfoldable pub err_class_destory : Resources → Status × Resources
unfolding err_cdev_del
err_class_destory r = err_cdev_del (record r { class_ = false })

-- Behind `cdev_add`.
unfoldable pub create_device : Grants → Resources → Status × Resources
unfolding err_class_destory err_cdev_del
create_device g r =
    if not g.class_ok
    then err_cdev_del r
    else if not g.device_ok
    then err_class_destory (record r { class_ = true })
    else (success, record r { class_ = true; device = true })

-- Behind `alloc_chrdev_region`: both buffers are asked for before either is tested.
unfoldable pub allocate : Grants → Resources → Status × Resources
unfolding create_device fail
allocate g r =
    let s = record r { recv_buf = g.recv_ok; send_buf = g.send_ok } in
    if not g.recv_ok || not g.send_ok
    then fail s
    else if not g.cdev_ok
    then fail s
    else create_device g (record s { cdev = true })

unfoldable pub board_button_dev_init : Grants → Resources → Status × Resources
unfolding allocate fail
board_button_dev_init g r =
    if not g.region_ok then fail r else allocate g (record r { region = true })

unfoldable pub board_button_dev_exit : Resources → Resources
board_button_dev_exit r = record r {
  recv_buf = false;
  send_buf = false;
  device = false;
  class_ = false;
  cdev = false;
  region = false;
}

abbrev pub all_granted : Grants → Bool
all_granted g =
    g.region_ok && (g.recv_ok && (g.send_ok && (g.cdev_ok && (g.class_ok && g.device_ok))))

-- Loading is atomic: with every request granted it succeeds and holds every resource, and otherwise it
-- reports an error and holds none. Unloading gives every resource back.
pub board_button_dev_init_atomic :
    (g : Grants)
    → (board_button_dev_init g nothing
        ≡ (if all_granted g then (success, everything) else (efault, nothing)))
      × (board_button_dev_exit (board_button_dev_init g nothing).1 ≡ nothing)
unfolding board_button_dev_init board_button_dev_exit
board_button_dev_init_atomic g = (ground arith, ground arith)
