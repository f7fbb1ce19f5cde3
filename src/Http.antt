-- ===== src/Http.antt =====
-- src/http.h and src/http.cpp: the tables of replies and reasons.
pub mod Replies
pub mod Reason
pub mod Framing
mod Tests
