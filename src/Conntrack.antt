-- ===== src/Conntrack.antt =====
-- lab/net/pktconntrack/test_conntrack.c: a module that reports the packets of one source address.
pub mod Address
pub mod Hooks
mod Tests
