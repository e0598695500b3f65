-- ===== src/Peer/Bursts/Accounts.antt =====
-- Every call on a peer keeps the account of its bursts.
use mathlib.Core.Path.{subst}
use bittorrent_peer_linking.Base.{
  ℤ, Bool, false, ◌≡◌, refl, arith, sym, String, List, [], ◌∷◌, Bool-cases, Option-cases, inl, inr,
  ℕ,
}
use bittorrent_peer_linking.Double.{Double}
use bittorrent_peer_linking.Util.{TimestampPair, PeerId, PeerInfo}
use bittorrent_peer_linking.Peer.State.{PeerStats, new_peer}
use bittorrent_peer_linking.Peer.Activity.{
  mark_seen, note_interaction, record_outstanding_depth, flush_incoming_request_burst,
  advance_activity_window, note_peer_id,
}
use bittorrent_peer_linking.Peer.Events.{
  PeerRequest, note_connect, note_disconnect, note_request_sent, note_block_response, note_timeout,
  note_drop, note_incoming_request, note_block_uploaded, note_snubbed, note_unsnubbed,
}
use bittorrent_peer_linking.Peer.Snapshot.{
  update_from_snapshot, finalize, reset_outstanding_requests,
}
use bittorrent_peer_linking.Peer.History.{
  PeerCall, sees, identifies, connects, disconnects, sends_request, receives_block, times_out,
  drops, receives_request, uploads_block, snubs, unsnubs, snapshots, finishes_piece, resets,
  finalizes, step, run, finish_piece,
}
use bittorrent_peer_linking.Peer.Bursts.{
  burst_view, IsAccounted, IsLedger, flush-IsAccounted, burst-IsAccounted,
}

module _ {D : Double} where
  advance-view :
      (p : PeerStats D) (t : ℤ) (b : Bool)
      → burst_view (advance_activity_window p t b) ≡ burst_view p
  unfolding advance_activity_window
  advance-view p t b = ground arith

  snapshot-view :
      (p : PeerStats D) (ts : TimestampPair) (peer : PeerInfo) (i : ℤ)
      → burst_view (update_from_snapshot p peer ts i) ≡ burst_view p
  unfolding update_from_snapshot note_interaction mark_seen note_peer_id record_outstanding_depth
      advance_activity_window
  snapshot-view p ts peer i = ground arith

  advance-IsAccounted :
      (p : PeerStats D) (t : ℤ) (b : Bool)
      → IsAccounted p
      → IsAccounted (advance_activity_window p t b)
  advance-IsAccounted p t b (bursts, l) =
      (bursts, subst (λ v. IsLedger v bursts) (sym (advance-view p t b)) l)

  disconnect-IsAccounted :
      (p : PeerStats D) (ts : TimestampPair) → IsAccounted p → IsAccounted (note_disconnect p ts)
  unfolding note_disconnect record_outstanding_depth mark_seen
  disconnect-IsAccounted p ts a =
      advance-IsAccounted (flush_incoming_request_burst (mark_seen p ts)) ts.mono_ns false
        (flush-IsAccounted (mark_seen p ts) a)

  finalize-IsAccounted :
      (p : PeerStats D) (ts : TimestampPair) → IsAccounted p → IsAccounted (finalize p ts)
  unfolding finalize
  finalize-IsAccounted p ts a =
      let q = flush_incoming_request_burst p in
      let flushed : IsAccounted q = flush-IsAccounted p a in
      elim (Bool-cases q.active_connection) [
        | inl e ↦ simp e (disconnect-IsAccounted q ts flushed)
        | inr e ↦ simp e (elim (Option-cases q.last_activity_window_mono_ns) [
          | inl f ↦ simp f flushed
          | inr (w, f) ↦ simp f (advance-IsAccounted q ts.mono_ns false flushed)
        ])
      ]

  block_uploaded-view :
      (p : PeerStats D) (ts : TimestampPair) (piece block : ℤ)
      → burst_view (note_block_uploaded p ts piece block) ≡ burst_view p
  unfolding note_block_uploaded note_interaction mark_seen
  block_uploaded-view p ts piece block = ground arith

  incoming-IsAccounted :
      (p : PeerStats D) (ts : TimestampPair) (request : PeerRequest)
      → IsAccounted p
      → IsAccounted (note_incoming_request p ts request)
  unfolding note_incoming_request note_interaction mark_seen
  incoming-IsAccounted p ts request (bursts, l) =
      burst-IsAccounted _ p.incoming_requests_received ts.mono_ns bursts refl l

  peer_id-view : (p : PeerStats D) (pid : PeerId) → burst_view (note_peer_id p pid) ≡ burst_view p
  unfolding note_peer_id
  peer_id-view p pid = ground arith

  step-IsAccounted :
      (p : PeerStats D) (c : TimestampPair × PeerCall) → IsAccounted p → IsAccounted (step p c)
  unfolding step mark_seen note_interaction note_peer_id note_connect note_request_sent
      note_block_response note_timeout note_drop note_snubbed note_unsnubbed finish_piece
      reset_outstanding_requests record_outstanding_depth
  step-IsAccounted p (ts, sees) a = a
  step-IsAccounted p (ts, identifies pid) (bursts, l) =
      (bursts, subst (λ v. IsLedger v bursts) (sym (peer_id-view p pid)) l)
  step-IsAccounted p (ts, connects direction transport alert) a = a
  step-IsAccounted p (ts, disconnects) a = disconnect-IsAccounted p ts a
  step-IsAccounted p (ts, sends_request piece block) a = a
  step-IsAccounted p (ts, receives_block piece block) a = a
  step-IsAccounted p (ts, times_out piece block) a = a
  step-IsAccounted p (ts, drops piece block) a = a
  step-IsAccounted p (ts, receives_request request) a = incoming-IsAccounted p ts request a
  step-IsAccounted p (ts, uploads_block piece block) (bursts, l) =
      (bursts, subst (λ v. IsLedger v bursts) (sym (block_uploaded-view p ts piece block)) l)
  step-IsAccounted p (ts, snubs) a = a
  step-IsAccounted p (ts, unsnubs) a = a
  step-IsAccounted p (ts, snapshots peer interval) (bursts, l) =
      (bursts, subst (λ v. IsLedger v bursts) (sym (snapshot-view p ts peer interval)) l)
  step-IsAccounted p (ts, finishes_piece) a = a
  step-IsAccounted p (ts, resets) a = a
  step-IsAccounted p (ts, finalizes) a = finalize-IsAccounted p ts a

  history-IsAccounted :
      (p : PeerStats D) (calls : List (TimestampPair × PeerCall))
      → IsAccounted p
      → IsAccounted (run p calls)
  unfolding run
  history-IsAccounted p [] a = a
  history-IsAccounted p (c ∷ cs) a = history-IsAccounted (step p c) cs (step-IsAccounted p c a)

-- After any calls on a new peer, in any order and at any times, the burst size samples are the
-- sizes of bursts of at least one request each, which together with the burst that is still open
-- hold every incoming request exactly once; there is one duration for each burst that is over, and
-- there are at most as many idle gaps. The open burst has no request exactly if there is none.
pub run-IsAccounted :
    (D : Double) (peer_key endpoint_key peer_ip : String) (peer_port : ℕ) (ts : TimestampPair)
    (direction transport : String) (calls : List (TimestampPair × PeerCall))
    → IsAccounted
        (run (new_peer D peer_key endpoint_key peer_ip peer_port ts direction transport) calls)
unfolding new_peer
run-IsAccounted D peer_key endpoint_key peer_ip peer_port ts direction transport calls =
    history-IsAccounted (new_peer D peer_key endpoint_key peer_ip peer_port ts direction transport)
      calls
      (
        [],
        record {
          samples = refl;
          total = refl;
          positive = tt;
          timed = refl;
          gaps = omega arith;
          idle = λ h. refl;
          busy = λ h. cc;
        },
      )
