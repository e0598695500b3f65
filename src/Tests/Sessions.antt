-- ===== src/Tests/Sessions.antt =====
-- A session of src/main.cpp with one peer.
use bittorrent_peer_linking.Base.{pos, ◌≡◌, refl, String, some, List, [], if◌then◌else◌, ◌∷◌, true}
use bittorrent_peer_linking.Map.{find, same}
use bittorrent_peer_linking.Alerts.Attribution.{credit-finishes}
use bittorrent_peer_linking.Alerts.Handlers.{credit_block}
use bittorrent_peer_linking.Peer.History.{finish_piece}
use bittorrent_peer_linking.Session.Consistency.Start.{record-IsConsistent}
use bittorrent_peer_linking.Session.Totals.{
  note_piece_finished, record_session_snapshot, state_implies_network_piece_completion,
}
use bittorrent_peer_linking.Keys.{string_ord}
use bittorrent_peer_linking.Util.{TimestampPair, endpoint_to_string}
use bittorrent_peer_linking.Util.Names.{SocketType}
use bittorrent_peer_linking.Peer.State.{PeerStats}
use bittorrent_peer_linking.Session.State.{SessionStats, new_session}
use bittorrent_peer_linking.Session.Peers.{
  ensure_peer_for_endpoint, note_peer_connect, note_peer_disconnect,
}
use bittorrent_peer_linking.Session.Consistency.{IsConsistent}
use bittorrent_peer_linking.Session.Consistency.Start.{new-IsConsistent}
use bittorrent_peer_linking.Session.Consistency.Opening.{IsFound, ensure-IsFound}
use bittorrent_peer_linking.Session.Consistency.Calls.{Serves, connect-Serves}
use bittorrent_peer_linking.Session.Consistency.Endings.{IsEnded, disconnect-IsEnded}
use bittorrent_peer_linking.Alerts.{Alert, Detail, Direction, Operation}
use bittorrent_peer_linking.Alerts.Drain.{Succeeds}
use bittorrent_peer_linking.Capture.{Reading}
use bittorrent_peer_linking.Run.{Life, run_session}
use bittorrent_peer_linking.Run.Totality.{events_of_life, session-Succeeds}
use bittorrent_peer_linking.Tests.{whole, at_ms, home, pid, status, info}

abbrev pub fresh : SessionStats whole
fresh = new_session whole "run-1" "session-1" (at_ms 1)

pub fresh-IsConsistent : IsConsistent fresh
fresh-IsConsistent = new-IsConsistent whole "run-1" "session-1" (at_ms 1)

abbrev alert_of : Detail → Alert
alert_of detail = record { what = "alert"; message = "an alert"; detail = detail }

abbrev pub alerts : List (TimestampPair × Alert)
alerts =
    (at_ms 2, alert_of (Detail.peer_connect home pid Direction.outward SocketType.tcp))
    ∷ (at_ms 3, alert_of (Detail.block_downloading home pid (pos 0) (pos 0)))
    ∷ (at_ms 5, alert_of (Detail.block_finished home pid (pos 0) (pos 0)))
    ∷ (at_ms 6, alert_of (Detail.piece_finished (pos 0)))
    ∷ (at_ms 7, alert_of Detail.other)
    ∷ (at_ms 9, alert_of (Detail.alerts_dropped 2))
    ∷ []

abbrev pub operation_name : Operation → String
operation_name op = "operation"

abbrev pub reading : Reading whole
reading = record {
  ts = at_ms 10;
  torrent_status = status;
  progress = pos 0;
  is_listening = true;
  listen_port = pos 6881;
  peers = info ∷ [];
}

abbrev life : Life whole
life = record {
  run_id = "run-1";
  session_id = "session-1";
  session_start = at_ms 1;
  initial_status = status;
  snapshot_interval_ms = pos 1000;
  passes = record { alerts = alerts; reading = some reading } ∷ [];
  last_alerts = [];
  last_reading = reading;
  session_end = at_ms 20;
}

session-Succeeds_example : Succeeds (run_session operation_name life) (events_of_life life)
session-Succeeds_example = session-Succeeds operation_name life

connect-Serves_example :
    Serves (note_peer_connect fresh home pid (at_ms 2) "outbound" "tcp") (endpoint_to_string home)
connect-Serves_example = connect-Serves fresh home pid (at_ms 2) "outbound" "tcp" fresh-IsConsistent

-- The session after that connection.
abbrev connected : SessionStats whole
connected = (connect-Serves fresh home pid (at_ms 2) "outbound" "tcp" fresh-IsConsistent).0.0

connected-IsConsistent : IsConsistent connected
connected-IsConsistent =
    (connect-Serves fresh home pid (at_ms 2) "outbound" "tcp" fresh-IsConsistent).2.consistent

ensure-IsFound_example :
    (r : SessionStats whole × String) × (ensure_peer_for_endpoint connected home
        (at_ms 3)
        "unknown"
        "unknown"
      ≡ some r)
    × IsFound connected r.0 (endpoint_to_string home) r.1
ensure-IsFound_example =
    ensure-IsFound connected home (at_ms 3) "unknown" "unknown" connected-IsConsistent

disconnect-IsEnded_example :
    (r : SessionStats whole × String) × (note_peer_disconnect connected home pid (at_ms 4) ≡ some r)
    × IsEnded connected (endpoint_to_string home) pid (at_ms 4) r.0 r.1
disconnect-IsEnded_example = disconnect-IsEnded connected home pid (at_ms 4) connected-IsConsistent

-- The connected session once its torrent is being downloaded, its peer and the peer's key.
abbrev downloading_session : SessionStats whole
downloading_session = record_session_snapshot connected status

abbrev connected_key : String
connected_key = (connect-Serves fresh home pid (at_ms 2) "outbound" "tcp" fresh-IsConsistent).0.1

abbrev connected_peer : PeerStats whole
connected_peer =
    (connect-Serves fresh home pid (at_ms 2) "outbound" "tcp" fresh-IsConsistent).2.present.0

connected_peer-found : find connected_key downloading_session.peers_by_key ≡ some connected_peer
unfolding record_session_snapshot
connected_peer-found =
    (connect-Serves fresh home pid (at_ms 2) "outbound" "tcp" fresh-IsConsistent).2.present.1

is_downloading :
    state_implies_network_piece_completion downloading_session.latest_torrent_state ≡ true
unfolding record_session_snapshot state_implies_network_piece_completion
is_downloading = refl

credit-finishes_example :
    find connected_key
      (note_piece_finished
        (credit_block (pos 4) connected_key downloading_session)
        (pos 4)).peers_by_key
    ≡ (if same connected_key connected_key
        then some (finish_piece connected_peer)
        else find connected_key downloading_session.peers_by_key)
credit-finishes_example =
    credit-finishes downloading_session connected_key connected_key connected_peer (pos 4)
      (record-IsConsistent connected status connected-IsConsistent) connected_peer-found
      is_downloading
