-- ===== src/IrqKey.antt =====
-- dirver/char_drv_demo: two drivers for a key, one that signals and one that is polled.
pub mod Device
pub mod Sig
pub mod Polled
pub mod PolledDevice
mod Tests
