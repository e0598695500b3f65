-- ===== src/Peer/History.antt =====
-- The calls that the program makes on a peer, as one step function.
use bittorrent_peer_linking.Base.{suc, ℤ, Bool, String, List, [], ◌∷◌}
use bittorrent_peer_linking.Double.{Double}
use bittorrent_peer_linking.Util.{TimestampPair, PeerId, PeerInfo}
use bittorrent_peer_linking.Peer.State.{PeerStats}
use bittorrent_peer_linking.Peer.Activity.{mark_seen, note_peer_id}
use bittorrent_peer_linking.Peer.Events.{
  PeerRequest, note_connect, note_disconnect, note_request_sent, note_block_response, note_timeout,
  note_drop, note_incoming_request, note_block_uploaded, note_snubbed, note_unsnubbed,
}
use bittorrent_peer_linking.Peer.Snapshot.{
  update_from_snapshot, finalize, reset_outstanding_requests,
}

pub data PeerCall : Type 0 where
  sees : PeerCall
  identifies : PeerId → PeerCall
  connects : String → String → Bool → PeerCall
  disconnects : PeerCall
  sends_request : ℤ → ℤ → PeerCall
  receives_block : ℤ → ℤ → PeerCall
  times_out : ℤ → ℤ → PeerCall
  drops : ℤ → ℤ → PeerCall
  receives_request : PeerRequest → PeerCall
  uploads_block : ℤ → ℤ → PeerCall
  snubs : PeerCall
  unsnubs : PeerCall
  snapshots : PeerInfo → ℤ → PeerCall
  finishes_piece : PeerCall
  resets : PeerCall
  finalizes : PeerCall

module _ {D : Double} where
  -- `++peer.pieces_finished`, which the session does.
  unfoldable pub finish_piece : PeerStats D → PeerStats D
  finish_piece p = record p { pieces_finished = suc p.pieces_finished }

  unfoldable pub step : PeerStats D → TimestampPair × PeerCall → PeerStats D
  step p (ts, sees) = mark_seen p ts
  step p (ts, identifies pid) = note_peer_id p pid
  step p (ts, connects direction transport alert) = note_connect p ts direction transport alert
  step p (ts, disconnects) = note_disconnect p ts
  step p (ts, sends_request piece block) = note_request_sent p ts piece block
  step p (ts, receives_block piece block) = note_block_response p ts piece block
  step p (ts, times_out piece block) = note_timeout p ts piece block
  step p (ts, drops piece block) = note_drop p ts piece block
  step p (ts, receives_request request) = note_incoming_request p ts request
  step p (ts, uploads_block piece block) = note_block_uploaded p ts piece block
  step p (ts, snubs) = note_snubbed p ts
  step p (ts, unsnubs) = note_unsnubbed p ts
  step p (ts, snapshots peer interval) = update_from_snapshot p peer ts interval
  step p (ts, finishes_piece) = finish_piece p
  step p (ts, resets) = reset_outstanding_requests p
  step p (ts, finalizes) = finalize p ts

  unfoldable pub run : PeerStats D → List (TimestampPair × PeerCall) → PeerStats D
  run p [] = p
  run p (c ∷ cs) = run (step p c) cs
