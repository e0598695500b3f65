-- ===== src/Peer/Snapshot.antt =====
-- `update_from_snapshot`, `finalize` and `reset_outstanding_requests`.
use bittorrent_peer_linking.Base.{
  suc, ℤ, pos, ltb_ℤ, leb_ℤ, ◌-ℤ◌, ◌*ℤ◌, Bool, true, false, not, ◌&&◌, ◌||◌, String, str_eq,
  is_empty, none, some, List, [], ◌∷◌, if◌then◌else◌, push_back, length,
}
use bittorrent_peer_linking.Map.{Map, insert}
use bittorrent_peer_linking.Keys.{string_ord}
use bittorrent_peer_linking.Double.{Double, max_real}
use bittorrent_peer_linking.Util.{
  TimestampPair, PeerInfo, PeerFlag, PeerSource, has_flag, transport_from_peer_info,
  peer_flag_labels, peer_source_labels,
}
use bittorrent_peer_linking.Peer.State.{PeerStats}
use bittorrent_peer_linking.Peer.Activity.{
  mark_seen, note_interaction, record_outstanding_depth, flush_incoming_request_burst,
  advance_activity_window, note_peer_id,
}
use bittorrent_peer_linking.Peer.Events.{note_disconnect}

-- `insert` of each label into a set.
insert_labels : List String → Map String (Unit {0}) → Map String (Unit {0})
insert_labels [] labels = labels
insert_labels (label ∷ rest) labels = insert_labels rest (insert label tt labels)

unfoldable pub snapshot_direction : PeerInfo → String → String
snapshot_direction peer otherwise =
    if has_flag peer.flags PeerFlag.outgoing_connection
    then "outbound"
    else if has_flag peer.source PeerSource.incoming
    then "inbound"
    else otherwise

module _ (D : Double) where
  unfoldable pub peer_has_recent_activity : PeerInfo → D.Real → D.Real → ℤ → Bool
  peer_has_recent_activity peer download_rate upload_rate snapshot_interval_ms =
      D.lt (D.literal 0 1) download_rate
      || D.lt (D.literal 0 1) upload_rate
      || ltb_ℤ (pos 0) peer.download_queue_length
      || ltb_ℤ (pos 0) peer.upload_queue_length
      || leb_ℤ peer.last_active_ms (snapshot_interval_ms *ℤ pos 2)

  -- The payload speed if there is any, else the whole speed.
  unfoldable pub snapshot_rate : ℤ → ℤ → D.Real
  snapshot_rate payload_speed speed =
      if ltb_ℤ (pos 0) payload_speed then D.of_ℤ payload_speed else D.of_ℤ speed

module _ {D : Double} where
  -- What the snapshot says of the peer's identity.
  snapshot_identity : PeerStats D → PeerInfo → PeerStats D
  unfolding snapshot_direction insert_labels
  snapshot_identity p peer = record p {
    client_name = if is_empty peer.client then p.client_name else peer.client;
    direction =
        if str_eq p.direction "unknown" then snapshot_direction peer p.direction else p.direction;
    transport = if str_eq p.transport "unknown" then transport_from_peer_info peer else p.transport;
    observed_flags = insert_labels (peer_flag_labels peer) p.observed_flags;
    observed_sources = insert_labels (peer_source_labels peer) p.observed_sources;
    total_download_bytes = peer.total_download;
    total_upload_bytes = peer.total_upload;
  }

  -- The rates, their peaks, and the depth of the request queue.
  snapshot_rates : PeerStats D → PeerInfo → PeerStats D
  unfolding snapshot_rate
  snapshot_rates p peer =
      let download_rate = snapshot_rate D peer.payload_down_speed peer.down_speed in
      let upload_rate = snapshot_rate D peer.payload_up_speed peer.up_speed in
      record_outstanding_depth
        (record p {
          download_rate_samples = push_back p.download_rate_samples download_rate;
          upload_rate_samples = push_back p.upload_rate_samples upload_rate;
          peak_download_rate_Bps =
              max_real D p.peak_download_rate_Bps
                (max_real D download_rate (D.of_ℤ peer.download_rate_peak));
          peak_upload_rate_Bps =
              max_real D p.peak_upload_rate_Bps
                (max_real D upload_rate (D.of_ℤ peer.upload_rate_peak));
        })
        (max_real D (D.of_ℤ (pos (length p.outstanding_requests)))
          (D.of_ℤ peer.download_queue_length))

  -- The transitions of the choke flags are counted from the second snapshot on.
  snapshot_flags : PeerStats D → PeerInfo → PeerStats D
  snapshot_flags p peer =
      let remote_choked_now = has_flag peer.flags PeerFlag.remote_choked in
      let local_choked_now = has_flag peer.flags PeerFlag.choked in
      let known = p.state_flags_initialized in
      record p {
        choked_count =
            if known && not p.remote_choked && remote_choked_now
            then suc p.choked_count
            else p.choked_count;
        unchoked_count =
            if known && p.remote_choked && not remote_choked_now
            then suc p.unchoked_count
            else p.unchoked_count;
        we_choked_count =
            if known && not p.local_choked && local_choked_now
            then suc p.we_choked_count
            else p.we_choked_count;
        we_unchoked_count =
            if known && p.local_choked && not local_choked_now
            then suc p.we_unchoked_count
            else p.we_unchoked_count;
        state_flags_initialized = true;
        remote_choked = remote_choked_now;
        local_choked = local_choked_now;
        snubbed = has_flag peer.flags PeerFlag.snubbed;
        interesting = has_flag peer.flags PeerFlag.interesting;
        remote_interested = has_flag peer.flags PeerFlag.remote_interested;
        seed = has_flag peer.flags PeerFlag.seed;
      }

  -- An active snapshot is an interaction, if the last one is an interval ago or more.
  snapshot_interaction : PeerStats D → ℤ → ℤ → PeerStats D
  snapshot_interaction p mono_ns snapshot_interval_ms = elim p.last_interaction_mono_ns [
    | none ↦ note_interaction p mono_ns
    | some last ↦
        if leb_ℤ (snapshot_interval_ms *ℤ pos 1000000) (mono_ns -ℤ last)
        then note_interaction p mono_ns
        else p
  ]

  unfoldable pub update_from_snapshot : PeerStats D → PeerInfo → TimestampPair → ℤ → PeerStats D
  unfolding snapshot_identity snapshot_rates snapshot_flags snapshot_interaction
  update_from_snapshot p0 peer ts snapshot_interval_ms =
      let seen = note_peer_id (mark_seen p0 ts) peer.pid in
      let flagged = snapshot_flags (snapshot_rates (snapshot_identity seen peer) peer) peer in
      let active_now =
        peer_has_recent_activity D peer (snapshot_rate D peer.payload_down_speed peer.down_speed)
          (snapshot_rate D peer.payload_up_speed peer.up_speed) snapshot_interval_ms in
      let q = advance_activity_window flagged ts.mono_ns active_now in
      if active_now then snapshot_interaction q ts.mono_ns snapshot_interval_ms else q

  unfoldable pub finalize : PeerStats D → TimestampPair → PeerStats D
  finalize p0 session_end =
      let p = flush_incoming_request_burst p0 in
      if p.active_connection
      then note_disconnect p session_end
      else elim p.last_activity_window_mono_ns [
        | none ↦ p
        | some last ↦ advance_activity_window p session_end.mono_ns false
      ]

  unfoldable pub reset_outstanding_requests : PeerStats D → PeerStats D
  reset_outstanding_requests p =
      record_outstanding_depth
        (record p { outstanding_requests = []; pending_upload_requests = [] }) (D.literal 0 1)
