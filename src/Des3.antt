-- ===== src/Des3.antt =====
-- lab/c/des3/des3_encrypt.c: the login message of an optical network unit.
pub mod Base
pub mod Padding
pub mod Fixed
pub mod Message
pub mod Receive
pub mod Roundtrip
pub mod Send
pub mod Hex
pub mod Delivery
pub mod Main
mod Tests
