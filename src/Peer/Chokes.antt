-- ===== src/Peer/Chokes.antt =====
-- The counts of choke transitions that `update_from_snapshot` of src/peer_stats.cpp keeps.
mod Flags
use Flags.{
  Flag, observed, observed_all, advanced, both, rises_of, falls_of, values_in, new-counts,
  call-values,
}
use bittorrent_peer_linking.Base.{
  ℕ, suc, ◌+◌, ℤ, Bool, true, false, not, ◌&&◌, ◌≡◌, refl, arith, sym, ap, ◌∙◌, String, List, [],
  ◌∷◌, if◌then◌else◌,
}
use bittorrent_peer_linking.Util.{PeerFlag, has_flag, PeerId}
use bittorrent_peer_linking.Double.{Double}
use bittorrent_peer_linking.Util.{TimestampPair, PeerInfo}
use bittorrent_peer_linking.Peer.State.{PeerStats, new_peer}
use bittorrent_peer_linking.Peer.Activity.{
  mark_seen, note_interaction, record_outstanding_depth, flush_incoming_request_burst,
  note_incoming_request_burst, advance_activity_window, note_peer_id,
}
use bittorrent_peer_linking.Peer.Events.{
  PeerRequest, note_connect, note_disconnect, note_request_sent, note_block_response, note_timeout,
  note_drop, note_incoming_request, note_block_uploaded, note_snubbed, note_unsnubbed,
}
use bittorrent_peer_linking.Peer.Snapshot.{
  update_from_snapshot, finalize, reset_outstanding_requests,
}
use bittorrent_peer_linking.Peer.History.{
  PeerCall, sees, identifies, connects, disconnects, sends_request, receives_block, times_out,
  drops, receives_request, uploads_block, snubs, unsnubs, snapshots, finishes_piece, resets,
  finalizes, step, run, finish_piece,
}

module _ {D : Double} where
  -- Whether the peer chokes us.
  abbrev pub remote_flag : PeerStats D → Flag
  remote_flag p = record {
    known = p.state_flags_initialized;
    raised = p.remote_choked;
    ups = p.choked_count;
    downs = p.unchoked_count;
  }

  -- Whether we choke the peer.
  abbrev pub local_flag : PeerStats D → Flag
  local_flag p = record {
    known = p.state_flags_initialized;
    raised = p.local_choked;
    ups = p.we_choked_count;
    downs = p.we_unchoked_count;
  }

  -- The counts of its choking us, and of our choking it, are those of the snapshots.
  abbrev pub AreCounted : PeerStats D → List (TimestampPair × PeerCall) → Type 0
  AreCounted p calls =
      (p.choked_count ≡ rises_of (values_in PeerFlag.remote_choked calls))
      × (p.unchoked_count ≡ falls_of (values_in PeerFlag.remote_choked calls))
      × (p.we_choked_count ≡ rises_of (values_in PeerFlag.choked calls))
      × (p.we_unchoked_count ≡ falls_of (values_in PeerFlag.choked calls))

  snapshot-remote :
      (p : PeerStats D) (ts : TimestampPair) (peer : PeerInfo) (interval : ℤ)
      → remote_flag (update_from_snapshot p peer ts interval)
        ≡ observed (remote_flag p) (has_flag peer.flags PeerFlag.remote_choked)
  unfolding update_from_snapshot note_interaction mark_seen note_peer_id record_outstanding_depth
      advance_activity_window
  snapshot-remote p ts peer interval = ground arith

  snapshot-local :
      (p : PeerStats D) (ts : TimestampPair) (peer : PeerInfo) (interval : ℤ)
      → local_flag (update_from_snapshot p peer ts interval)
        ≡ observed (local_flag p) (has_flag peer.flags PeerFlag.choked)
  unfolding update_from_snapshot note_interaction mark_seen note_peer_id record_outstanding_depth
      advance_activity_window
  snapshot-local p ts peer interval = ground arith

  -- Both flags, which no other call touches.
  abbrev flags_of : PeerStats D → Flag × Flag
  flags_of p = (remote_flag p, local_flag p)

  identify-flags : (p : PeerStats D) (pid : PeerId) → flags_of (note_peer_id p pid) ≡ flags_of p
  unfolding note_peer_id
  identify-flags p pid = ground arith

  disconnect-flags :
      (p : PeerStats D) (ts : TimestampPair) → flags_of (note_disconnect p ts) ≡ flags_of p
  unfolding note_disconnect mark_seen record_outstanding_depth advance_activity_window
      flush_incoming_request_burst
  disconnect-flags p ts = ground arith

  finalize-flags : (p : PeerStats D) (ts : TimestampPair) → flags_of (finalize p ts) ≡ flags_of p
  unfolding finalize note_disconnect mark_seen record_outstanding_depth advance_activity_window
      flush_incoming_request_burst
  finalize-flags p ts = ground arith

  incoming-flags :
      (p : PeerStats D) (ts : TimestampPair) (request : PeerRequest)
      → flags_of (note_incoming_request p ts request) ≡ flags_of p
  unfolding note_incoming_request mark_seen note_interaction note_incoming_request_burst
      flush_incoming_request_burst
  incoming-flags p ts request = ground arith

  upload-flags :
      (p : PeerStats D) (ts : TimestampPair) (piece block : ℤ)
      → flags_of (note_block_uploaded p ts piece block) ≡ flags_of p
  unfolding note_block_uploaded mark_seen note_interaction
  upload-flags p ts piece block = ground arith

  step-flags :
      (p : PeerStats D) (ts : TimestampPair) (call : PeerCall)
      → flags_of (step p (ts, call)) ≡ both call (flags_of p)
  unfolding step mark_seen note_interaction note_connect note_request_sent note_block_response
      note_timeout note_drop note_snubbed note_unsnubbed finish_piece reset_outstanding_requests
      record_outstanding_depth
  step-flags p ts sees = refl
  step-flags p ts (identifies pid) = identify-flags p pid
  step-flags p ts (connects direction transport alert) = refl
  step-flags p ts disconnects = disconnect-flags p ts
  step-flags p ts (sends_request piece block) = refl
  step-flags p ts (receives_block piece block) = refl
  step-flags p ts (times_out piece block) = refl
  step-flags p ts (drops piece block) = refl
  step-flags p ts (receives_request request) = incoming-flags p ts request
  step-flags p ts (uploads_block piece block) = upload-flags p ts piece block
  step-flags p ts snubs = refl
  step-flags p ts unsnubs = refl
  step-flags p ts (snapshots peer interval) =
      λ i. (snapshot-remote p ts peer interval i, snapshot-local p ts peer interval i)
  step-flags p ts finishes_piece = refl
  step-flags p ts resets = refl
  step-flags p ts finalizes = finalize-flags p ts

  run-flags :
      (p : PeerStats D) (calls : List (TimestampPair × PeerCall))
      → flags_of (run p calls) ≡ (
        observed_all (remote_flag p) (values_in PeerFlag.remote_choked calls),
        observed_all (local_flag p) (values_in PeerFlag.choked calls),
      )
  unfolding run values_in observed_all
  run-flags p [] = refl
  run-flags p ((ts, call) ∷ calls) =
      run-flags (step p (ts, call)) calls
      ∙ ap
          (λ (f : Flag × Flag). (
            observed_all f.0 (values_in PeerFlag.remote_choked calls),
            observed_all f.1 (values_in PeerFlag.choked calls),
          ))
          (step-flags p ts call)
      ∙ (λ i. (
        sym (call-values PeerFlag.remote_choked ts call calls (remote_flag p)) i,
        sym (call-values PeerFlag.choked ts call calls (local_flag p)) i,
      ))

-- After any calls on a new peer, the counts of its choking and unchoking us, and of our choking and
-- unchoking it, are exactly how often the flag went up and down from one snapshot of the peer to the
-- next, the first snapshot being no transition.
pub run-AreCounted :
    (D : Double) (peer_key endpoint_key peer_ip : String) (peer_port : ℕ) (ts : TimestampPair)
    (direction transport : String) (calls : List (TimestampPair × PeerCall))
    → AreCounted
        (run (new_peer D peer_key endpoint_key peer_ip peer_port ts direction transport) calls)
        calls
unfolding new_peer
run-AreCounted D peer_key endpoint_key peer_ip peer_port ts direction transport calls =
    let p = new_peer D peer_key endpoint_key peer_ip peer_port ts direction transport in
    let e = run-flags p calls in
    let (a, b) = new-counts (values_in PeerFlag.remote_choked calls) in
    let (c, d) = new-counts (values_in PeerFlag.choked calls) in
    (
      ap (λ (f : Flag × Flag). f.0.ups) e ∙ a,
      ap (λ (f : Flag × Flag). f.0.downs) e ∙ b,
      ap (λ (f : Flag × Flag). f.1.ups) e ∙ c,
      ap (λ (f : Flag × Flag). f.1.downs) e ∙ d,
    )
