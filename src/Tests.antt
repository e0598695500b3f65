-- ===== src/Tests.antt =====
-- A peer, its endpoint and what libtorrent reports of it, at which the theorems are tried.
pub mod Peers
pub mod Sessions
pub mod Artifacts
pub mod Runs
pub mod Loops
pub mod Programs
use bittorrent_peer_linking.Base.{
  ℕ, ◌*◌, ◌/◌, ℤ, pos, ltb_ℤ, leb_ℤ, ◌≡◌, refl, arith, ◌*ℤ◌, ◌+ℤ◌, ◌-ℤ◌, pos_part, String, some,
  List, [], ◌+◌, if◌then◌else◌, ◌∷◌, length, true, false,
}
use bittorrent_peer_linking.Map.{find, same}
use bittorrent_peer_linking.Alerts.Attribution.{credit-finishes}
use bittorrent_peer_linking.Alerts.Handlers.{credit_block}
use bittorrent_peer_linking.Peer.History.{finish_piece}
use bittorrent_peer_linking.Peer.Queues.{serve_all, upload_key}
use bittorrent_peer_linking.Peer.Queues.Runs.{waiting_of, waiting_of-run}
use bittorrent_peer_linking.Session.Consistency.Start.{record-IsConsistent}
use bittorrent_peer_linking.Session.Totals.{
  note_piece_finished, record_session_snapshot, state_implies_network_piece_completion,
}
use bittorrent_peer_linking.Double.{Double}
use bittorrent_peer_linking.Keys.{string_ord, peer_key_for_inj}
use bittorrent_peer_linking.Util.{TimestampPair, Endpoint, PeerId, PeerInfo, endpoint_to_string}
use bittorrent_peer_linking.Util.Names.{TorrentState, SocketType}
use bittorrent_peer_linking.Peer.State.{PeerStats, new_peer}
use bittorrent_peer_linking.Peer.Events.{quotient}
use bittorrent_peer_linking.Peer.History.{
  PeerCall, connects, disconnects, sends_request, receives_block, receives_request, snapshots,
  uploads_block, run,
}
use bittorrent_peer_linking.Peer.Bursts.{IsAccounted}
use bittorrent_peer_linking.Peer.Bursts.Accounts.{run-IsAccounted}
use bittorrent_peer_linking.Peer.Window.Coverage.{Covers, end_of, run-Covers}
use bittorrent_peer_linking.Peer.Chokes.{AreCounted, run-AreCounted}
use bittorrent_peer_linking.Peer.Gaps.{IsGapped, rhythm_of, run-IsGapped}
use bittorrent_peer_linking.Peer.Requests.{exchange_of}
use bittorrent_peer_linking.Peer.Requests.Balance.{IsBalanced, run-IsBalanced}
use bittorrent_peer_linking.Session.State.{SessionStats, TorrentStatus, new_session}
use bittorrent_peer_linking.Session.Peers.{
  ensure_peer_for_endpoint, note_peer_connect, note_peer_disconnect,
}
use bittorrent_peer_linking.Session.Consistency.{IsConsistent}
use bittorrent_peer_linking.Session.Consistency.Start.{new-IsConsistent}
use bittorrent_peer_linking.Session.Consistency.Opening.{IsFound, ensure-IsFound}
use bittorrent_peer_linking.Session.Consistency.Calls.{Serves, connect-Serves}
use bittorrent_peer_linking.Session.Consistency.Endings.{IsEnded, disconnect-IsEnded}
use bittorrent_peer_linking.Alerts.{Alert, Detail, Direction, Operation}
use bittorrent_peer_linking.Alerts.Handlers.{drain_alerts}
use bittorrent_peer_linking.Alerts.Drain.{Succeeds, events_of_all, drain-Succeeds}
use bittorrent_peer_linking.Capture.{Reading, capture_snapshots}
use bittorrent_peer_linking.Run.{Life, run_session}
use bittorrent_peer_linking.Run.Totality.{events_of_life, capture-Succeeds, session-Succeeds}

-- Hundredths in the place of `double`: a number is that many of them, and `floor`, `ceil` and the
-- indices are those of what is not negative.
abbrev pub whole : Double
whole = record {
  Real = ℤ;
  of_ℤ = λ n. n *ℤ pos 100;
  literal = λ n d. pos (n * 100 / d);
  add = λ a b. a +ℤ b;
  sub = λ a b. a -ℤ b;
  mul = λ a b. quotient (a *ℤ b) (pos 100);
  div = λ a b. quotient (a *ℤ pos 100) b;
  lt = ltb_ℤ;
  le = leb_ℤ;
  sqrt = λ a. a;
  floor = λ a. pos (pos_part a / 100 * 100);
  ceil = λ a. pos ((pos_part a + 99) / 100 * 100);
  to_size = λ a. pos_part a / 100;
}

abbrev pub at_ms : ℕ → TimestampPair
at_ms ms = record { utc_ts = "2024-01-01T00:00:00.000Z"; mono_ns = pos (ms * 1000000) }

abbrev pub home : Endpoint
home = record { address = "10.0.0.1"; port = 6881 }

abbrev pub pid : PeerId
pid = 45 ∷ 76 ∷ 84 ∷ []

abbrev pub status : TorrentStatus
status = record {
  state = TorrentState.downloading;
  total_done = pos 0;
  total_upload = pos 0;
  download_rate = pos 1000;
  upload_rate = pos 0;
  num_peers = pos 1;
  num_seeds = pos 0;
}

abbrev pub info : PeerInfo
info = record {
  ip = home;
  pid = pid;
  client = "lt";
  flags = λ flag. false;
  source = λ source. true;
  total_download = pos 16384;
  total_upload = pos 0;
  payload_down_speed = pos 100;
  payload_up_speed = pos 0;
  down_speed = pos 120;
  up_speed = pos 0;
  download_rate_peak = pos 200;
  upload_rate_peak = pos 0;
  download_queue_length = pos 1;
  upload_queue_length = pos 0;
  last_active_ms = pos 10;
  last_request_ms = pos 10;
  timed_out_requests = pos 0;
  busy_requests = pos 0;
  requests_in_buffer = pos 0;
  queue_bytes = pos 0;
  request_timeout = pos 0;
  downloading_piece_index = pos 0;
  downloading_block_index = pos 0;
  downloading_progress = pos 0;
  downloading_total = pos 0;
}
