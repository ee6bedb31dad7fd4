-- ===== src/KeyEvent.antt =====
-- dirver/keyevent: a character device that hands key events to a user process, and that process.
pub mod Device
pub mod Transfer
pub mod Mailbox
pub mod EventDevice
pub mod Poll
pub mod Trim
pub mod Process
pub mod Bursts
pub mod Main
pub mod Lifecycle
mod Tests
