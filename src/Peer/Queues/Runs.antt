-- ===== src/Peer/Queues/Runs.antt =====
-- The calls on a peer of src/peer_stats.cpp as events of the queue of one block.
use bittorrent_peer_linking.Base.{
  ℤ, Bool, true, false, ◌≡◌, refl, arith, ap, ◌∙◌, List, [], ◌∷◌, push_back, if◌then◌else◌,
}
use bittorrent_peer_linking.Map.{Map, find, insert, same}
use bittorrent_peer_linking.Double.{Double}
use bittorrent_peer_linking.Util.{TimestampPair, PeerId, PeerInfo}
use bittorrent_peer_linking.Peer.State.{RequestKey, request_key_ord, PeerStats}
use bittorrent_peer_linking.Peer.Activity.{
  mark_seen, note_interaction, record_outstanding_depth, flush_incoming_request_burst,
  note_incoming_request_burst, advance_activity_window, note_peer_id,
}
use bittorrent_peer_linking.Peer.Events.{
  PeerRequest, note_connect, note_disconnect, note_request_sent, note_block_response, note_timeout,
  note_drop, note_incoming_request, note_block_uploaded, queue_at, note_snubbed, note_unsnubbed,
}
use bittorrent_peer_linking.Peer.Snapshot.{
  update_from_snapshot, finalize, reset_outstanding_requests,
}
use bittorrent_peer_linking.Peer.History.{
  PeerCall, run, sees, identifies, connects, disconnects, sends_request, receives_block, times_out,
  drops, receives_request, uploads_block, snubs, unsnubs, snapshots, finishes_piece, resets,
  finalizes, step, run, finish_piece,
}
use bittorrent_peer_linking.Peer.Queues.{
  Waiting, upload_key, requested_key, serve, serve_all, served, queue_at-pushed, queue_at-served,
}

module _ {D : Double} where
  abbrev pub waiting_of : RequestKey → PeerStats D → Waiting
  waiting_of key p = record {
    is_open = p.active_connection;
    queue = queue_at key p.pending_upload_requests;
  }

  incoming-pending :
      (p : PeerStats D) (ts : TimestampPair) (request : PeerRequest)
      → (note_incoming_request p ts request).pending_upload_requests
        ≡ insert
            (requested_key request)
            (push_back (queue_at (requested_key request) p.pending_upload_requests) ts.mono_ns)
            p.pending_upload_requests
  unfolding note_incoming_request mark_seen note_interaction note_incoming_request_burst
      flush_incoming_request_burst
  incoming-pending p ts request = ground arith

  incoming-open :
      (p : PeerStats D) (ts : TimestampPair) (request : PeerRequest)
      → (note_incoming_request p ts request).active_connection ≡ p.active_connection
  unfolding note_incoming_request mark_seen note_interaction note_incoming_request_burst
      flush_incoming_request_burst
  incoming-open p ts request = ground arith

  upload-pending :
      (p : PeerStats D) (ts : TimestampPair) (piece block : ℤ)
      → (note_block_uploaded p ts piece block).pending_upload_requests
        ≡ served
            (upload_key piece block)
            (queue_at (upload_key piece block) p.pending_upload_requests)
            p.pending_upload_requests
  unfolding note_block_uploaded mark_seen note_interaction
  upload-pending p ts piece block = ground arith

  upload-open :
      (p : PeerStats D) (ts : TimestampPair) (piece block : ℤ)
      → (note_block_uploaded p ts piece block).active_connection ≡ p.active_connection
  unfolding note_block_uploaded mark_seen note_interaction
  upload-open p ts piece block = ground arith

  queued :
      (key : RequestKey) (p : PeerStats D) (open_after : Bool) (pending : Map RequestKey (List ℤ))
      (hit : Bool) (queue : List ℤ)
      → open_after ≡ p.active_connection
      → queue_at key pending ≡ (if hit then queue else queue_at key p.pending_upload_requests)
      → record { is_open = open_after; queue = queue_at key pending }
        ≡ (if hit then record (waiting_of key p) { queue = queue } else waiting_of key p)
  queued key p open_after pending true queue e h = λ i. record { is_open = e i; queue = h i }
  queued key p open_after pending false queue e h = λ i. record { is_open = e i; queue = h i }

  incoming-waiting :
      (key : RequestKey) (p : PeerStats D) (ts : TimestampPair) (request : PeerRequest)
      → waiting_of key (note_incoming_request p ts request)
        ≡ serve key (waiting_of key p) (ts, receives_request request)
  incoming-waiting key p ts request =
      queued key p _ _ (same key (requested_key request)) _ (incoming-open p ts request) (
        ap (queue_at key) (incoming-pending p ts request)
        ∙ queue_at-pushed key (requested_key request) ts.mono_ns p.pending_upload_requests)

  upload-waiting :
      (key : RequestKey) (p : PeerStats D) (ts : TimestampPair) (piece block : ℤ)
      → waiting_of key (note_block_uploaded p ts piece block)
        ≡ serve key (waiting_of key p) (ts, uploads_block piece block)
  upload-waiting key p ts piece block =
      queued key p _ _ (same key (upload_key piece block)) _ (upload-open p ts piece block) (
        ap (queue_at key) (upload-pending p ts piece block)
        ∙ queue_at-served key (upload_key piece block) p.pending_upload_requests)

  snapshot-waiting :
      (key : RequestKey) (p : PeerStats D) (ts : TimestampPair) (peer : PeerInfo) (interval : ℤ)
      → waiting_of key (update_from_snapshot p peer ts interval) ≡ waiting_of key p
  unfolding update_from_snapshot note_interaction mark_seen note_peer_id record_outstanding_depth
      advance_activity_window
  snapshot-waiting key p ts peer interval = ground arith

  disconnect-waiting :
      (key : RequestKey) (p : PeerStats D) (ts : TimestampPair)
      → waiting_of key (note_disconnect p ts) ≡ record { is_open = false; queue = [] }
  unfolding note_disconnect mark_seen record_outstanding_depth advance_activity_window
      flush_incoming_request_burst queue_at find
  disconnect-waiting key p ts = ground arith

  finalize-waiting :
      (key : RequestKey) (p : PeerStats D) (ts : TimestampPair)
      → waiting_of key (finalize p ts) ≡ serve key (waiting_of key p) (ts, finalizes)
  unfolding finalize note_disconnect mark_seen record_outstanding_depth advance_activity_window
      flush_incoming_request_burst queue_at find
  finalize-waiting key p ts = ground arith

  identify-waiting :
      (key : RequestKey) (p : PeerStats D) (pid : PeerId)
      → waiting_of key (note_peer_id p pid) ≡ waiting_of key p
  unfolding note_peer_id
  identify-waiting key p pid = ground arith

  step-waiting :
      (key : RequestKey) (p : PeerStats D) (ts : TimestampPair) (call : PeerCall)
      → waiting_of key (step p (ts, call)) ≡ serve key (waiting_of key p) (ts, call)
  unfolding step mark_seen note_interaction note_connect note_request_sent note_block_response
      note_timeout note_drop note_snubbed note_unsnubbed finish_piece reset_outstanding_requests
      record_outstanding_depth queue_at find
  step-waiting key p ts sees = refl
  step-waiting key p ts (identifies pid) = identify-waiting key p pid
  step-waiting key p ts (connects direction transport alert) = refl
  step-waiting key p ts disconnects = disconnect-waiting key p ts
  step-waiting key p ts (sends_request piece block) = refl
  step-waiting key p ts (receives_block piece block) = refl
  step-waiting key p ts (times_out piece block) = refl
  step-waiting key p ts (drops piece block) = refl
  step-waiting key p ts (receives_request request) = incoming-waiting key p ts request
  step-waiting key p ts (uploads_block piece block) = upload-waiting key p ts piece block
  step-waiting key p ts snubs = refl
  step-waiting key p ts unsnubs = refl
  step-waiting key p ts (snapshots peer interval) = snapshot-waiting key p ts peer interval
  step-waiting key p ts finishes_piece = refl
  step-waiting key p ts resets = refl
  step-waiting key p ts finalizes = finalize-waiting key p ts

  -- Whatever calls are made on a peer, the requests for a block that wait for their upload are
  -- those of a first-in first-out queue of that block alone, which each request joins and each
  -- upload leaves, and which a disconnection, a reset and the end of an open connection empty.
  pub waiting_of-run :
      (key : RequestKey) (p : PeerStats D) (calls : List (TimestampPair × PeerCall))
      → waiting_of key (run p calls) ≡ serve_all key (waiting_of key p) calls
  unfolding run
  waiting_of-run key p [] = refl
  waiting_of-run key p ((ts, call) ∷ calls) =
      waiting_of-run key (step p (ts, call)) calls
      ∙ ap (λ w. serve_all key w calls) (step-waiting key p ts call)
