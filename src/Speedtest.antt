-- ===== src/Speedtest.antt =====
-- lab/net/speedtest/speedtest.c: a kernel module that measures the speed between two ports.
pub mod Types
pub mod Packet
pub mod Hooks
pub mod Timer
pub mod Compute
pub mod Sender
pub mod Counts
pub mod Demux
pub mod Datagram
pub mod Loopback
pub mod Wire
pub mod Conserves
pub mod Accounts
pub mod Sending
pub mod Wrap
pub mod Rate
pub mod Command
pub mod Show
pub mod Report
pub mod System
pub mod Sound
pub mod Module
pub mod Keeps
pub mod Restart
pub mod Whole
pub mod Recount
pub mod Probe
pub mod Waiting
pub mod Unload
pub mod Threads
mod Tests
