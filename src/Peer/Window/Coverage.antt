-- ===== src/Peer/Window/Coverage.antt =====
-- The calls on a peer of src/peer_stats.cpp and the time that its windows cover.
use mathlib.Core.Path.{subst}
use bittorrent_peer_linking.Base.{
  ℤ, ◌≤ℤ◌, int_laws, Bool, false, ◌≡◌, refl, arith, sym, String, List, [], ◌∷◌, some, ℕ,
}
use bittorrent_peer_linking.Double.{Double}
use bittorrent_peer_linking.Util.{TimestampPair, PeerId, PeerInfo}
use bittorrent_peer_linking.Peer.State.{PeerStats, new_peer}
use bittorrent_peer_linking.Peer.Activity.{
  mark_seen, note_interaction, record_outstanding_depth, flush_incoming_request_burst,
  note_incoming_request_burst, advance_activity_window, note_peer_id,
}
use bittorrent_peer_linking.Peer.Events.{
  PeerRequest, note_connect, note_disconnect, note_request_sent, note_block_response, note_timeout,
  note_drop, note_incoming_request, note_block_uploaded, note_snubbed, note_unsnubbed,
}
use bittorrent_peer_linking.Peer.Snapshot.{
  update_from_snapshot, finalize, peer_has_recent_activity, snapshot_rate,
  reset_outstanding_requests,
}
use bittorrent_peer_linking.Peer.History.{
  PeerCall, sees, identifies, connects, disconnects, sends_request, receives_block, times_out,
  drops, receives_request, uploads_block, snubs, unsnubs, snapshots, finishes_piece, resets,
  finalizes, step, run, finish_piece,
}
use bittorrent_peer_linking.Peer.Window.{WindowView, window_view, IsCovered, advance-IsCovered}

-- The times of the calls do not fall, and begin at `now` or later.
abbrev pub IsOrdered : ℤ → List (TimestampPair × PeerCall) → Type 0
IsOrdered now [] = Unit {0}
IsOrdered now ((ts, c) ∷ cs) = (now ≤ℤ ts.mono_ns) × IsOrdered ts.mono_ns cs

-- The time of the last of the calls, or `now` if there is none.
abbrev pub end_of : ℤ → List (TimestampPair × PeerCall) → ℤ
end_of now [] = now
end_of now ((ts, c) ∷ cs) = end_of ts.mono_ns cs

leaves :
    (v w : WindowView) (start last now : ℤ)
    → IsCovered start last v
    → last ≤ℤ now
    → w ≡ v
    → (t : ℤ) × IsCovered start t w × (t ≤ℤ now)
leaves v w start last now c h e = (last, subst (IsCovered start last) (sym e) c, h)

module _ {D : Double} where
  snapshot-view :
      (p : PeerStats D) (ts : TimestampPair) (peer : PeerInfo) (i : ℤ)
      → window_view (update_from_snapshot p peer ts i)
        ≡ window_view (
            advance_activity_window p ts.mono_ns (
              peer_has_recent_activity D peer
                (snapshot_rate D peer.payload_down_speed peer.down_speed)
                (snapshot_rate D peer.payload_up_speed peer.up_speed)
                i))
  unfolding update_from_snapshot note_interaction mark_seen note_peer_id record_outstanding_depth
      advance_activity_window
  snapshot-view p ts peer i = ground arith

  disconnect-view :
      (p : PeerStats D) (ts : TimestampPair)
      → window_view (note_disconnect p ts)
        ≡ window_view (advance_activity_window p ts.mono_ns false)
  unfolding note_disconnect mark_seen record_outstanding_depth advance_activity_window
      flush_incoming_request_burst
  disconnect-view p ts = ground arith

  finalize-view :
      (p : PeerStats D) (ts : TimestampPair) (last : ℤ)
      → p.last_activity_window_mono_ns ≡ some last
      → window_view (finalize p ts) ≡ window_view (advance_activity_window p ts.mono_ns false)
  unfolding finalize note_disconnect mark_seen record_outstanding_depth advance_activity_window
      flush_incoming_request_burst
  finalize-view p ts last e = ground arith

  block_uploaded-view :
      (p : PeerStats D) (ts : TimestampPair) (piece block : ℤ)
      → window_view (note_block_uploaded p ts piece block) ≡ window_view p
  unfolding note_block_uploaded note_interaction mark_seen
  block_uploaded-view p ts piece block = ground arith

  incoming-view :
      (p : PeerStats D) (ts : TimestampPair) (request : PeerRequest)
      → window_view (note_incoming_request p ts request) ≡ window_view p
  unfolding note_incoming_request note_interaction mark_seen note_incoming_request_burst
      flush_incoming_request_burst
  incoming-view p ts request = ground arith

  peer_id-view : (p : PeerStats D) (pid : PeerId) → window_view (note_peer_id p pid) ≡ window_view p
  unfolding note_peer_id
  peer_id-view p pid = ground arith

  connect-view :
      (p : PeerStats D) (ts : TimestampPair) (direction transport : String) (alert : Bool)
      (last : ℤ)
      → p.last_activity_window_mono_ns ≡ some last
      → window_view (note_connect p ts direction transport alert) ≡ window_view p
  unfolding note_connect mark_seen
  connect-view p ts direction transport alert last e = ground arith

  -- All time from `start` on is covered up to the last window, which is no later than `now`.
  abbrev pub Covers : ℤ → ℤ → PeerStats D → Type 0
  Covers start now p = (last : ℤ) × IsCovered start last (window_view p) × (last ≤ℤ now)

  -- A call that closes a window covers the time up to now, and any other leaves the cover alone.
  closes :
      (p : PeerStats D) (w : WindowView) (start last now : ℤ) (b : Bool)
      → IsCovered start last (window_view p)
      → last ≤ℤ now
      → w ≡ window_view (advance_activity_window p now b)
      → (t : ℤ) × IsCovered start t w × (t ≤ℤ now)
  closes p w start last now b c h e = (
    now,
    subst (IsCovered start now) (sym e) (advance-IsCovered p start last now b c h),
    omega arith,
  )

  step-Covers :
      (p : PeerStats D) (ts : TimestampPair) (call : PeerCall) (start last : ℤ)
      → IsCovered start last (window_view p)
      → last ≤ℤ ts.mono_ns
      → Covers start ts.mono_ns (step p (ts, call))
  unfolding step mark_seen note_interaction note_request_sent note_block_response note_timeout
      note_drop note_snubbed note_unsnubbed finish_piece reset_outstanding_requests
      record_outstanding_depth
  step-Covers p ts sees start last c h = (last, c, h)
  step-Covers p ts (identifies pid) start last c h =
      leaves _ _ start last _ c h (peer_id-view p pid)
  step-Covers p ts (connects direction transport alert) start last c h =
      leaves _ _ start last _ c h (connect-view p ts direction transport alert last c.open_window)
  step-Covers p ts disconnects start last c h =
      closes p _ start last _ false c h (disconnect-view p ts)
  step-Covers p ts (sends_request piece block) start last c h = (last, c, h)
  step-Covers p ts (receives_block piece block) start last c h = (last, c, h)
  step-Covers p ts (times_out piece block) start last c h = (last, c, h)
  step-Covers p ts (drops piece block) start last c h = (last, c, h)
  step-Covers p ts (receives_request request) start last c h =
      leaves _ _ start last _ c h (incoming-view p ts request)
  step-Covers p ts (uploads_block piece block) start last c h =
      leaves _ _ start last _ c h (block_uploaded-view p ts piece block)
  step-Covers p ts snubs start last c h = (last, c, h)
  step-Covers p ts unsnubs start last c h = (last, c, h)
  step-Covers p ts (snapshots peer interval) start last c h =
      closes p _ start last _ _ c h (snapshot-view p ts peer interval)
  step-Covers p ts finishes_piece start last c h = (last, c, h)
  step-Covers p ts resets start last c h = (last, c, h)
  step-Covers p ts finalizes start last c h =
      closes p _ start last _ false c h (finalize-view p ts last c.open_window)

  history-Covers :
      (p : PeerStats D) (start now : ℤ) (calls : List (TimestampPair × PeerCall))
      → Covers start now p
      → IsOrdered now calls
      → Covers start (end_of now calls) (run p calls)
  unfolding run
  history-Covers p start now [] k o = k
  history-Covers p start now ((ts, call) ∷ cs) (last, c, h) o =
      history-Covers (step p (ts, call)) start ts.mono_ns cs
        (step-Covers p ts call start last c (omega arith)) o.1

-- After calls on a new peer whose times do not fall, the peer's active and idle times are not
-- negative and add up to exactly the time from its creation to its last window, which is no later
-- than the last call.
pub run-Covers :
    (D : Double) (peer_key endpoint_key peer_ip : String) (peer_port : ℕ) (ts : TimestampPair)
    (direction transport : String) (calls : List (TimestampPair × PeerCall))
    → IsOrdered ts.mono_ns calls
    → Covers ts.mono_ns
        (end_of ts.mono_ns calls)
        (run (new_peer D peer_key endpoint_key peer_ip peer_port ts direction transport) calls)
unfolding new_peer
run-Covers D peer_key endpoint_key peer_ip peer_port ts direction transport calls o =
    history-Covers (new_peer D peer_key endpoint_key peer_ip peer_port ts direction transport)
      ts.mono_ns ts.mono_ns calls
      (
        ts.mono_ns,
        record {
          open_window = refl;
          active_nonneg = omega arith;
          idle_nonneg = omega arith;
          whole = omega int_laws;
        },
        omega arith,
      )
      o
