-- ===== src/Login.antt =====
-- The waiting list of the login server (source/waitlist.h and .cpp).
pub mod Waitlist
