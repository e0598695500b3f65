-- ===== src/Summary.antt =====
-- The counts of src/summary_writer.cpp over the peers of a session.
pub mod Counts
pub mod Document
use bittorrent_peer_linking.Base.{
  ℕ, suc, ◌+◌, ltb, leb, ℤ, pos, ltb_ℤ, ◌+ℤ◌, Bool, true, false, ◌&&◌, ◌||◌, String, List, [], ◌∷◌,
  length, if◌then◌else◌, ◌≡◌, refl, arith, ◌≤◌, Bool-cases, inl, inr,
}
use bittorrent_peer_linking.Double.{Double}
use bittorrent_peer_linking.Map.{Map}
use bittorrent_peer_linking.Peer.State.{PeerStats}
use bittorrent_peer_linking.Session.State.{SessionStats}
use bittorrent_peer_linking.Session.Totals.{unique_peers_seen}

pub record NetworkByteTotals : Type 0 where
  pub downloaded : ℤ
  pub uploaded : ℤ

pub record PeerObservationCounts : Type 0 where
  pub unique_peer_endpoints_seen : ℕ
  pub peer_connections_observed : ℕ
  pub active_peer_connections : ℕ
  pub fingerprintable_peer_connections : ℕ

module _ {D : Double} where
  unfoldable pub add_bytes : Map String (PeerStats D) → NetworkByteTotals → NetworkByteTotals
  add_bytes [] totals = totals
  add_bytes ((key, peer) ∷ peers) totals = add_bytes peers (record {
    downloaded = totals.downloaded +ℤ peer.total_download_bytes;
    uploaded = totals.uploaded +ℤ peer.total_upload_bytes;
  })

  unfoldable pub peer_network_byte_totals : SessionStats D → NetworkByteTotals
  peer_network_byte_totals stats =
      add_bytes stats.peers_by_key (record { downloaded = pos 0; uploaded = pos 0 })

  unfoldable pub had_protocol_activity : PeerStats D → Bool
  had_protocol_activity peer =
      ltb 0 peer.requests_sent
      || ltb 0 peer.block_responses_received
      || ltb 0 peer.incoming_requests_received
      || ltb 0 peer.blocks_uploaded
      || ltb_ℤ (pos 0) peer.total_download_bytes
      || ltb_ℤ (pos 0) peer.total_upload_bytes

  unfoldable pub count_peer : PeerStats D → PeerObservationCounts → PeerObservationCounts
  count_peer peer counts =
      let active = had_protocol_activity peer in
      let fingerprint_samples = peer.requests_sent + peer.incoming_requests_received in
      record counts {
        active_peer_connections =
            if active then suc counts.active_peer_connections else counts.active_peer_connections;
        fingerprintable_peer_connections =
            if leb 100 fingerprint_samples && active
            then suc counts.fingerprintable_peer_connections
            else counts.fingerprintable_peer_connections;
      }

  unfoldable pub count_peers :
      Map String (PeerStats D) → PeerObservationCounts → PeerObservationCounts
  count_peers [] counts = counts
  count_peers ((key, peer) ∷ peers) counts = count_peers peers (count_peer peer counts)

  unfoldable pub peer_observation_counts : SessionStats D → PeerObservationCounts
  peer_observation_counts stats = count_peers stats.peers_by_key (record {
    unique_peer_endpoints_seen = unique_peers_seen stats;
    peer_connections_observed = length stats.peers_by_key;
    active_peer_connections = 0;
    fingerprintable_peer_connections = 0;
  })
