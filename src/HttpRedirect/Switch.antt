-- ===== src/HttpRedirect/Switch.antt =====
-- From the proc file of lab/net/httpredirect/httpredirect.c to the packets.
