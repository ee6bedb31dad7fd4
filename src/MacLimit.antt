-- ===== src/MacLimit.antt =====
-- dirver/maclimit/maclimit.c: a netfilter module that lets at most `limit_num` hardware addresses
-- through, and replaces a listed one that no longer answers ARP requests.
pub mod Types
pub mod Hooks
pub mod Thread
pub mod System
pub mod Scan
pub mod Verdict
pub mod Invariant
pub mod Bound
pub mod Progress
pub mod Wakeup
pub mod Stop
pub mod Stopping
pub mod Round
pub mod Check
pub mod CheckRound
pub mod Alloc
pub mod Terminals
pub mod Refines
pub mod Config
pub mod Options
pub mod Words
pub mod Report
pub mod Lifecycle
pub mod Installed
pub mod Unload
pub mod Load
mod Tests
