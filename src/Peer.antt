-- ===== src/Peer.antt =====
-- `PeerStats` of src/peer_stats.hpp and src/peer_stats.cpp: what is kept of one connection.
pub mod Report
pub mod State
pub mod Activity
pub mod Events
pub mod Snapshot
pub mod History
pub mod Bursts
pub mod Window
pub mod Identity
pub mod Gaps
pub mod Requests
pub mod Queues
pub mod Chokes
