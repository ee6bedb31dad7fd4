-- ===== src/Hack.antt =====
-- lab/c/hack: small programs with a hole in each.
pub mod Format
pub mod Heap
