-- ===== src/Peer/Identity.antt =====
-- Which connection the statistics of a peer of src/peer_stats.cpp are about, after each call.
use bittorrent_peer_linking.Base.{ℤ, Bool, ◌≡◌, refl, arith, String}
use bittorrent_peer_linking.Double.{Double}
use bittorrent_peer_linking.Util.{TimestampPair}
use bittorrent_peer_linking.Peer.State.{PeerStats}
use bittorrent_peer_linking.Peer.Activity.{
  mark_seen, note_interaction, record_outstanding_depth, flush_incoming_request_burst,
  note_incoming_request_burst, advance_activity_window, note_peer_id,
}
use bittorrent_peer_linking.Peer.Events.{
  note_connect, note_disconnect, note_request_sent, note_block_response, note_timeout, note_drop,
  note_incoming_request, note_block_uploaded, note_snubbed, note_unsnubbed,
}
use bittorrent_peer_linking.Peer.Snapshot.{
  update_from_snapshot, finalize, reset_outstanding_requests,
}
use bittorrent_peer_linking.Peer.History.{
  PeerCall, sees, identifies, connects, disconnects, sends_request, receives_block, times_out,
  drops, receives_request, uploads_block, snubs, unsnubs, snapshots, finishes_piece, resets,
  finalizes, step, finish_piece,
}

-- The key of the connection and the key of its endpoint.
pub record Identity : Type 0 where
  pub peer : String
  pub endpoint : String

module _ {D : Double} where
  abbrev pub identity : PeerStats D → Identity
  identity p = record { peer = p.peer_key; endpoint = p.endpoint_key }

  advance-identity :
      (p : PeerStats D) (t : ℤ) (b : Bool) → identity (advance_activity_window p t b) ≡ identity p
  unfolding advance_activity_window
  advance-identity p t b = ground arith

  disconnect-identity :
      (p : PeerStats D) (ts : TimestampPair) → identity (note_disconnect p ts) ≡ identity p
  unfolding note_disconnect mark_seen record_outstanding_depth advance_activity_window
      flush_incoming_request_burst
  disconnect-identity p ts = ground arith

  pub step-identity :
      (p : PeerStats D) (ts : TimestampPair) (call : PeerCall)
      → identity (step p (ts, call)) ≡ identity p
  unfolding step mark_seen note_interaction note_peer_id note_connect note_request_sent
      note_block_response note_timeout note_drop note_incoming_request note_incoming_request_burst
      note_block_uploaded note_snubbed note_unsnubbed finish_piece reset_outstanding_requests
      record_outstanding_depth flush_incoming_request_burst advance_activity_window
      update_from_snapshot finalize note_disconnect
  step-identity p ts sees = refl
  step-identity p ts (identifies pid) = ground arith
  step-identity p ts (connects direction transport alert) = refl
  step-identity p ts disconnects = disconnect-identity p ts
  step-identity p ts (sends_request piece block) = refl
  step-identity p ts (receives_block piece block) = refl
  step-identity p ts (times_out piece block) = refl
  step-identity p ts (drops piece block) = refl
  step-identity p ts (receives_request request) = ground arith
  step-identity p ts (uploads_block piece block) = ground arith
  step-identity p ts snubs = refl
  step-identity p ts unsnubs = refl
  step-identity p ts (snapshots peer interval) = ground arith
  step-identity p ts finishes_piece = refl
  step-identity p ts resets = refl
  step-identity p ts finalizes = ground arith
