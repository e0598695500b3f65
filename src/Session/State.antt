-- ===== src/Session/State.antt =====
-- The fields of `SessionStats`, in the order of src/peer_stats.hpp, and its constructor.
use bittorrent_peer_linking.Base.{ℕ, ℤ, pos, Bool, false, String, List, []}
use bittorrent_peer_linking.Map.{Map}
use bittorrent_peer_linking.Double.{Double}
use bittorrent_peer_linking.Util.{TimestampPair}
use bittorrent_peer_linking.Util.Names.{TorrentState}
use bittorrent_peer_linking.Peer.State.{PeerStats}

-- What the program reads of `lt::torrent_status` for its statistics.
pub record TorrentStatus : Type 0 where
  pub state : TorrentState
  pub total_done : ℤ
  pub total_upload : ℤ
  pub download_rate : ℤ
  pub upload_rate : ℤ
  pub num_peers : ℤ
  pub num_seeds : ℤ

pub record SessionStats (D : Double) : Type 0 where
  pub run_id : String
  pub session_id : String
  pub started_utc : String
  pub ended_utc : String
  pub start_mono_ns : ℤ
  pub end_mono_ns : ℤ
  pub tracker_announces : ℕ
  pub tracker_replies : ℕ
  pub tracker_errors : ℕ
  pub tracker_warnings : ℕ
  pub incoming_connection_count : ℕ
  pub successful_peer_connects : ℕ
  pub disconnect_count : ℕ
  pub peer_error_count : ℕ
  pub connection_failures : ℕ
  pub alerts_dropped_notifications : ℕ
  pub alerts_dropped_type_bits_total : ℕ
  pub alert_loss_detected : Bool
  pub piece_completions : ℕ
  pub verification_piece_completions : ℕ
  pub max_peers_observed : ℤ
  pub max_seeds_observed : ℤ
  pub initial_total_done_bytes : ℤ
  pub initial_total_upload_bytes : ℤ
  pub final_total_done_bytes : ℤ
  pub final_total_upload_bytes : ℤ
  pub total_download_bytes : ℤ
  pub total_upload_bytes : ℤ
  pub latest_torrent_state : TorrentState
  pub unique_peer_endpoints : Map String (Unit {0})
  pub connect_sequence_by_endpoint : Map String ℕ
  pub active_peer_key_by_endpoint : Map String String
  pub peers_by_key : Map String (PeerStats D)
  pub last_piece_peer_key : Map ℤ String
  pub session_download_rate_samples : List D.Real
  pub session_upload_rate_samples : List D.Real

unfoldable pub new_session : (D : Double) → String → String → TimestampPair → SessionStats D
new_session D run_id_value session_id_value start = record {
  run_id = run_id_value;
  session_id = session_id_value;
  started_utc = start.utc_ts;
  ended_utc = "";
  start_mono_ns = start.mono_ns;
  end_mono_ns = pos 0;
  tracker_announces = 0;
  tracker_replies = 0;
  tracker_errors = 0;
  tracker_warnings = 0;
  incoming_connection_count = 0;
  successful_peer_connects = 0;
  disconnect_count = 0;
  peer_error_count = 0;
  connection_failures = 0;
  alerts_dropped_notifications = 0;
  alerts_dropped_type_bits_total = 0;
  alert_loss_detected = false;
  piece_completions = 0;
  verification_piece_completions = 0;
  max_peers_observed = pos 0;
  max_seeds_observed = pos 0;
  initial_total_done_bytes = pos 0;
  initial_total_upload_bytes = pos 0;
  final_total_done_bytes = pos 0;
  final_total_upload_bytes = pos 0;
  total_download_bytes = pos 0;
  total_upload_bytes = pos 0;
  latest_torrent_state = TorrentState.checking_resume_data;
  unique_peer_endpoints = [];
  connect_sequence_by_endpoint = [];
  active_peer_key_by_endpoint = [];
  peers_by_key = [];
  last_piece_peer_key = [];
  session_download_rate_samples = [];
  session_upload_rate_samples = [];
}
