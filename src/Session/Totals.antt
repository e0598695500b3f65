-- ===== src/Session/Totals.antt =====
-- The session's totals: pieces, bytes, lost alerts, and the end of the session.
use bittorrent_peer_linking.Base.{
  ℕ, suc, ◌+◌, ℤ, pos, max_ℤ, ◌-ℤ◌, Bool, true, false, none, some, [], if◌then◌else◌, push_back,
  length,
}
use bittorrent_peer_linking.Map.{find, map_values}
use bittorrent_peer_linking.Keys.{string_ord, int_ord}
use bittorrent_peer_linking.Double.{Double}
use bittorrent_peer_linking.Util.{TimestampPair}
use bittorrent_peer_linking.Util.Names.{TorrentState, downloading, finished, seeding}
use bittorrent_peer_linking.Peer.Snapshot
use bittorrent_peer_linking.Session.State.{SessionStats, TorrentStatus}
use bittorrent_peer_linking.Session.Peers.{update_peer}

unfoldable pub state_implies_network_piece_completion : TorrentState → Bool
state_implies_network_piece_completion downloading = true
state_implies_network_piece_completion finished = true
state_implies_network_piece_completion seeding = true
state_implies_network_piece_completion _ = false

module _ {D : Double} where
  -- The peer of the last block of the piece, if it is known, has finished one piece more.
  unfoldable pub credit_piece : SessionStats D → ℤ → SessionStats D
  credit_piece s piece_index = elim (find piece_index s.last_piece_peer_key) [
    | none ↦ s
    | some key ↦ update_peer key (λ p. record p { pieces_finished = suc p.pieces_finished }) s
  ]

  unfoldable pub note_piece_finished : SessionStats D → ℤ → SessionStats D
  unfolding credit_piece
  note_piece_finished s piece_index =
      if state_implies_network_piece_completion s.latest_torrent_state
      then credit_piece (record s { piece_completions = suc s.piece_completions }) piece_index
      else record s { verification_piece_completions = suc s.verification_piece_completions }

  unfoldable pub set_initial_totals : SessionStats D → TorrentStatus → SessionStats D
  set_initial_totals s torrent_status = record s {
    initial_total_done_bytes = torrent_status.total_done;
    initial_total_upload_bytes = torrent_status.total_upload;
    final_total_done_bytes = torrent_status.total_done;
    final_total_upload_bytes = torrent_status.total_upload;
    total_download_bytes = pos 0;
    total_upload_bytes = pos 0;
    latest_torrent_state = torrent_status.state;
  }

  unfoldable pub note_torrent_state : SessionStats D → TorrentState → SessionStats D
  note_torrent_state s state = record s { latest_torrent_state = state }

  unfoldable pub note_alert_loss : SessionStats D → ℕ → SessionStats D
  note_alert_loss s dropped_alert_type_bits = record s {
    alert_loss_detected = true;
    alerts_dropped_notifications = suc s.alerts_dropped_notifications;
    alerts_dropped_type_bits_total = s.alerts_dropped_type_bits_total + dropped_alert_type_bits;
    last_piece_peer_key = [];
    peers_by_key = map_values Snapshot.reset_outstanding_requests s.peers_by_key;
  }

  unfoldable pub record_session_snapshot : SessionStats D → TorrentStatus → SessionStats D
  record_session_snapshot s torrent_status = record s {
    latest_torrent_state = torrent_status.state;
    final_total_done_bytes = torrent_status.total_done;
    final_total_upload_bytes = torrent_status.total_upload;
    total_download_bytes = max_ℤ (pos 0) (torrent_status.total_done -ℤ s.initial_total_done_bytes);
    total_upload_bytes =
        max_ℤ (pos 0) (torrent_status.total_upload -ℤ s.initial_total_upload_bytes);
    session_download_rate_samples =
        push_back s.session_download_rate_samples (D.of_ℤ torrent_status.download_rate);
    session_upload_rate_samples =
        push_back s.session_upload_rate_samples (D.of_ℤ torrent_status.upload_rate);
    max_peers_observed = max_ℤ s.max_peers_observed torrent_status.num_peers;
    max_seeds_observed = max_ℤ s.max_seeds_observed torrent_status.num_seeds;
  }

  unfoldable pub finalize : SessionStats D → TimestampPair → SessionStats D
  finalize s end_time = record s {
    ended_utc = end_time.utc_ts;
    end_mono_ns = end_time.mono_ns;
    peers_by_key = map_values (λ p. Snapshot.finalize p end_time) s.peers_by_key;
  }

  unfoldable pub unique_peers_seen : SessionStats D → ℕ
  unique_peers_seen s = length s.unique_peer_endpoints
