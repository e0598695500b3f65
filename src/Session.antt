-- ===== src/Session.antt =====
-- `SessionStats` of src/peer_stats.hpp and src/peer_stats.cpp: the session's counters and peers.
pub mod State
pub mod Peers
pub mod Totals
pub mod Consistency
