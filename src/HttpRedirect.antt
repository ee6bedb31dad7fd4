-- ===== src/HttpRedirect.antt =====
-- lab/net/httpredirect/httpredirect.c: a netfilter module that turns 404 answers into redirections.
pub mod Types
pub mod Rewrite
pub mod Hook
pub mod Memory
pub mod Checks
pub mod Redirect
pub mod Switch
mod Tests
