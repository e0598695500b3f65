-- ===== src/Alerts.antt =====
-- The alerts that libtorrent hands to `drain_alerts` of src/main.cpp, and the events that the
-- program writes for them.
pub mod Handlers
pub mod Drain
pub mod Logged
pub mod Attribution
use bittorrent_peer_linking.Base.{ℕ, ℤ, Bool, true, false, ◌||◌, String, str_eq, Option}
use bittorrent_peer_linking.Double.{Double}
use bittorrent_peer_linking.Json.{Json}
use bittorrent_peer_linking.Util.{Endpoint, PeerId}
use bittorrent_peer_linking.Util.Names.{TorrentState, SocketType}
use bittorrent_peer_linking.Peer.State.{EventPeerContext}
use bittorrent_peer_linking.Peer.Events.{PeerRequest}

-- `lt::event_t`
pub data TrackerEvent : Type 0 where
  none completed started stopped paused : TrackerEvent
  other : ℕ → TrackerEvent

unfoldable pub tracker_event_name : TrackerEvent → String
tracker_event_name completed = "completed"
tracker_event_name started = "started"
tracker_event_name stopped = "stopped"
tracker_event_name paused = "paused"
tracker_event_name none = "none"
tracker_event_name (other n) = "none"

-- `lt::peer_connect_alert::direction_t`
pub data Direction : Type 0 where
  inward outward : Direction

unfoldable pub peer_connect_direction_name : Direction → String
peer_connect_direction_name inward = "inbound"
peer_connect_direction_name outward = "outbound"

-- `lt::operation_t`: those that the program names, and the others by their number.
pub data Operation : Type 0 where
  connect sock_open ssl_handshake sock_bind sock_accept : Operation
  other : ℕ → Operation

unfoldable pub is_connection_failure_operation : Operation → Bool
is_connection_failure_operation connect = true
is_connection_failure_operation sock_open = true
is_connection_failure_operation ssl_handshake = true
is_connection_failure_operation sock_bind = true
is_connection_failure_operation sock_accept = true
is_connection_failure_operation (other n) = false

-- What the program reads of each alert; `other` is any alert that it passes over.
pub data Detail : Type 0 where
  listen_succeeded : (address : String) (port : ℤ) (socket : SocketType) → Detail
  listen_failed :
      (address : String) (port : ℤ) (op : Operation) (error : String) (socket : SocketType) → Detail
  tracker_announce : (url : String) (event : TrackerEvent) → Detail
  tracker_reply : (url : String) (num_peers : ℤ) → Detail
  tracker_error :
      (url : String) (times_in_row : ℤ) (error : String) (op : Operation) (failure_reason : String)
      → Detail
  tracker_warning : (url : String) (warning : String) → Detail
  state_changed : (prev_state state : TorrentState) → Detail
  torrent_finished : Detail
  peer_connect :
      (endpoint : Endpoint) (pid : PeerId) (direction : Direction) (socket : SocketType) → Detail
  peer_error : (endpoint : Endpoint) (pid : PeerId) (error : String) (op : Operation) → Detail
  peer_disconnected :
      (endpoint : Endpoint) (pid : PeerId) (error : String) (op : Operation) (reason : ℤ)
      (socket : SocketType)
      → Detail
  incoming_connection : (endpoint : Endpoint) (socket : SocketType) → Detail
  peer_snubbed : (endpoint : Endpoint) (pid : PeerId) → Detail
  peer_unsnubbed : (endpoint : Endpoint) (pid : PeerId) → Detail
  block_downloading : (endpoint : Endpoint) (pid : PeerId) (piece block : ℤ) → Detail
  block_finished : (endpoint : Endpoint) (pid : PeerId) (piece block : ℤ) → Detail
  block_timeout : (endpoint : Endpoint) (pid : PeerId) (piece block : ℤ) → Detail
  request_dropped : (endpoint : Endpoint) (pid : PeerId) (piece block : ℤ) → Detail
  incoming_request : (endpoint : Endpoint) (pid : PeerId) (req : PeerRequest) → Detail
  block_uploaded : (endpoint : Endpoint) (pid : PeerId) (piece block : ℤ) → Detail
  piece_finished : (piece : ℤ) → Detail
  peer_log :
      (endpoint : Endpoint) (pid : PeerId) (event_type : String) (direction : ℤ)
      (log_message : String)
      → Detail
  alerts_dropped : (count : ℕ) → Detail
  other : Detail

pub record Alert : Type 0 where
  pub what : String
  pub message : String
  pub detail : Detail

-- The arguments of a call of `EventWriter::write_event`.
pub record Event (D : Double) : Type 0 where
  pub event_type : String
  pub payload : Json D
  pub peer_context : Option EventPeerContext
