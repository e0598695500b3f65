-- ===== src/Peer/Activity.antt =====
-- The helpers that the events share: sightings, interactions, bursts of incoming requests, the
-- depth of the request queue, and the windows of active and idle time.
use bittorrent_peer_linking.Base.{
  suc, ℤ, pos, ltb_ℤ, is_zero, ◌-ℤ◌, ◌+ℤ◌, Bool, true, false, str_eq, is_empty, none, some,
  if◌then◌else◌, push_back,
}
use bittorrent_peer_linking.Double.{Double}
use bittorrent_peer_linking.Util.{TimestampPair, ns_to_ms, PeerId, peer_id_to_hex, peer_id_prefix}
use bittorrent_peer_linking.Peer.State.{PeerStats}

-- `kIncomingRequestBurstGapMs`
unfoldable pub k_incoming_request_burst_gap_ms : (D : Double) → D.Real
k_incoming_request_burst_gap_ms D = D.literal 100 1

module _ {D : Double} where
  unfoldable pub mark_seen : PeerStats D → TimestampPair → PeerStats D
  mark_seen p ts =
      let first = is_zero p.first_seen_mono_ns in
      record p {
        first_seen_mono_ns = if first then ts.mono_ns else p.first_seen_mono_ns;
        first_seen_utc = if first then ts.utc_ts else p.first_seen_utc;
        last_seen_mono_ns = ts.mono_ns;
        last_seen_utc = ts.utc_ts;
      }

  unfoldable pub note_interaction : PeerStats D → ℤ → PeerStats D
  note_interaction p mono_ns = record p {
    interaction_gap_ms_samples = elim p.last_interaction_mono_ns [
      | none ↦ p.interaction_gap_ms_samples
      | some last ↦
          if ltb_ℤ last mono_ns
          then push_back p.interaction_gap_ms_samples (ns_to_ms D (mono_ns -ℤ last))
          else p.interaction_gap_ms_samples
    ];
    last_interaction_mono_ns = some mono_ns;
  }

  unfoldable pub record_outstanding_depth : PeerStats D → D.Real → PeerStats D
  record_outstanding_depth p depth = record p {
    outstanding_depth_samples = push_back p.outstanding_depth_samples depth;
  }

  unfoldable pub flush_incoming_request_burst : PeerStats D → PeerStats D
  flush_incoming_request_burst p =
      if p.incoming_request_burst_active
      then record p {
        incoming_request_burst_size_samples =
            push_back p.incoming_request_burst_size_samples
              (D.of_ℤ (pos p.current_incoming_request_burst_size));
        incoming_request_burst_duration_ms_samples =
            push_back p.incoming_request_burst_duration_ms_samples (
              ns_to_ms D (
                p.current_incoming_request_burst_last_mono_ns
                -ℤ p.current_incoming_request_burst_start_mono_ns));
        incoming_request_burst_active = false;
        current_incoming_request_burst_size = 0;
        current_incoming_request_burst_start_mono_ns = pos 0;
        current_incoming_request_burst_last_mono_ns = pos 0;
      }
      else p

  -- A burst of one request, seen at `mono_ns`.
  start_burst : PeerStats D → ℤ → PeerStats D
  start_burst p mono_ns = record p {
    incoming_request_burst_active = true;
    current_incoming_request_burst_size = 1;
    current_incoming_request_burst_start_mono_ns = mono_ns;
    current_incoming_request_burst_last_mono_ns = mono_ns;
  }

  unfoldable pub note_incoming_request_burst : PeerStats D → ℤ → PeerStats D
  unfolding start_burst
  note_incoming_request_burst p mono_ns =
      let gap_ms = ns_to_ms D (mono_ns -ℤ p.current_incoming_request_burst_last_mono_ns) in
      if p.incoming_request_burst_active
      then (if D.le gap_ms (k_incoming_request_burst_gap_ms D)
          then record p {
            current_incoming_request_burst_size = suc p.current_incoming_request_burst_size;
            current_incoming_request_burst_last_mono_ns = mono_ns;
          }
          else (let flushed = flush_incoming_request_burst p in
              start_burst
                (record flushed {
                  incoming_request_burst_idle_gap_ms_samples =
                      push_back flushed.incoming_request_burst_idle_gap_ms_samples gap_ms;
                })
                mono_ns))
      else start_burst p mono_ns

  -- The time since the last window counts as the window's kind.
  credit_window : PeerStats D → ℤ → PeerStats D
  credit_window p delta =
      if p.last_activity_window_active
      then record p { active_time_ns = p.active_time_ns +ℤ delta }
      else record p { idle_time_ns = p.idle_time_ns +ℤ delta }

  close_window : PeerStats D → ℤ → PeerStats D
  unfolding credit_window
  close_window p mono_ns = elim p.last_activity_window_mono_ns [
    | none ↦ p
    | some last ↦ if ltb_ℤ last mono_ns then credit_window p (mono_ns -ℤ last) else p
  ]

  unfoldable pub advance_activity_window : PeerStats D → ℤ → Bool → PeerStats D
  unfolding close_window
  advance_activity_window p mono_ns active_now = record (close_window p mono_ns) {
    last_activity_window_mono_ns = some mono_ns;
    last_activity_window_active = active_now;
  }

  unfoldable pub note_peer_id : PeerStats D → PeerId → PeerStats D
  note_peer_id p pid =
      let hex = peer_id_to_hex pid in
      let prefix = peer_id_prefix pid in
      if str_eq hex "unknown" then p else record p {
        peer_id_hex = hex;
        peer_id_prefix_hex = if is_empty prefix then p.peer_id_prefix_hex else prefix;
      }
