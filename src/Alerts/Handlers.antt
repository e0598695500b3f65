-- ===== src/Alerts/Handlers.antt =====
-- The branches of `drain_alerts`: what each alert does to the session's statistics, and the event
-- that is written for it. `none` is an exception out of the branch.
use bittorrent_peer_linking.Base.{
  suc, ℤ, pos, String, Option, none, some, if◌then◌else◌, ◌>>=◌, List, [], ◌∷◌, ◌++◌,
}
use bittorrent_peer_linking.Map.{find, insert}
use bittorrent_peer_linking.Keys.{string_ord, int_ord}
use bittorrent_peer_linking.Double.{Double}
use bittorrent_peer_linking.Json.{Json, Members, member, end, object, integer, string, with_member}
use bittorrent_peer_linking.Util.{TimestampPair, Endpoint, PeerId, peer_id_to_hex}
use bittorrent_peer_linking.Util.Names.{
  SocketType, state_name, socket_type_label, transport_from_socket_type,
}
use bittorrent_peer_linking.Peer.State.{PeerStats, event_context}
use bittorrent_peer_linking.Peer.Events.{
  note_request_sent, note_block_response, note_timeout, note_drop, note_incoming_request,
  note_block_uploaded, note_snubbed, note_unsnubbed,
}
use bittorrent_peer_linking.Session.State.{SessionStats}
use bittorrent_peer_linking.Session.Peers.{
  update_peer, note_peer_connect, note_peer_event, note_peer_disconnect,
}
use bittorrent_peer_linking.Session.Totals.{
  note_piece_finished, note_torrent_state, note_alert_loss,
}
use bittorrent_peer_linking.Alerts.{
  Alert, Detail, Operation, Event, tracker_event_name, peer_connect_direction_name,
  is_connection_failure_operation,
}

abbrev pub Handled : Double → Type 0
Handled D = Option (SessionStats D × List (Event D))

-- The two entries that every payload begins with.
base_alert_payload : {D : Double} → Alert → Members D
base_alert_payload alert =
    member "alert_name" (string alert.what) (member "message" (string alert.message) end)

module _ {D : Double} where
  infixl 40 ◌with◌
  -- Entries that a branch adds to its payload.
  abbrev ◌with◌ : Members D → String × Json D → Members D
  payload with (key, value) = with_member payload key value

  -- An event with no peer.
  plain_event : SessionStats D → String → Members D → Handled D
  plain_event s event_type payload =
      some
        (s, record { event_type = event_type; payload = object payload; peer_context = none } ∷ [])

  -- An event about a peer.
  unfoldable pub event_about : PeerStats D → String → Members D → Event D
  event_about peer event_type payload = record {
    event_type = event_type;
    payload = object payload;
    peer_context = some (event_context peer);
  }

  unfoldable pub peer_event : SessionStats D → String → String → Members D → Handled D
  peer_event s key event_type payload = do
    peer ← find key s.peers_by_key
    some (s, event_about peer event_type payload ∷ [])

  -- `note_peer_event`, and what the branch does to the peer that it answers with.
  unfoldable pub on_peer :
      SessionStats D
      → Endpoint
      → PeerId
      → TimestampPair
      → (PeerStats D → PeerStats D)
      → String
      → Members D
      → Handled D
  on_peer s0 endpoint pid ts f event_type payload = do
    (s, key) ← note_peer_event s0 endpoint pid ts "unknown" "unknown"
    peer_event (update_peer key f s) key event_type payload

  unfoldable pub block_payload : Members D → ℤ → ℤ → Members D
  block_payload payload piece block =
      payload with ("piece", integer piece) with ("block", integer block)

  -- `last_piece_peer_key[piece] = peer.peer_key`
  unfoldable pub credit_block : ℤ → String → SessionStats D → SessionStats D
  credit_block piece key s = elim (find key s.peers_by_key) [
    | none ↦ s
    | some peer ↦ record s {
      last_piece_peer_key = insert piece peer.peer_key s.last_piece_peer_key;
    }
  ]

  unfoldable pub on_block_finished :
      SessionStats D → Endpoint → PeerId → TimestampPair → ℤ → ℤ → Members D → Handled D
  on_block_finished s0 endpoint pid ts piece block payload = do
    (s, key) ← note_peer_event s0 endpoint pid ts "unknown" "unknown"
    let answered = update_peer key (λ p. note_block_response p ts piece block) s
    peer_event (credit_block piece key answered) key "block_response_received"
        (block_payload payload piece block)

  unfoldable pub connect_payload : Members D → PeerId → SocketType → Members D
  connect_payload payload pid socket =
      payload
      with ("peer_id_hex", string (peer_id_to_hex pid))
      with ("socket_type", string (socket_type_label socket))

  unfoldable pub on_peer_connect :
      SessionStats D
      → Endpoint
      → PeerId
      → TimestampPair
      → String
      → SocketType
      → Members D
      → Handled D
  on_peer_connect s0 endpoint pid ts direction socket payload = do
    (s, key) ← note_peer_connect s0 endpoint pid ts direction (transport_from_socket_type socket)
    peer_event s key "peer_connected" (connect_payload payload pid socket)

  unfoldable pub on_peer_disconnected :
      SessionStats D → Endpoint → PeerId → TimestampPair → Members D → Handled D
  on_peer_disconnected s0 endpoint pid ts payload = do
    (s, key) ← note_peer_disconnect s0 endpoint pid ts
    peer_event s key "peer_disconnected" payload

  -- `++peer_error_count`, and `++connection_failures` for an operation of connecting.
  unfoldable pub count_peer_error : SessionStats D → Operation → SessionStats D
  count_peer_error s op = record s {
    peer_error_count = suc s.peer_error_count;
    connection_failures =
        if is_connection_failure_operation op
        then suc s.connection_failures
        else s.connection_failures;
  }

module _ {D : Double} (operation_name : Operation → String) where
  unfoldable pub handle_alert : SessionStats D → TimestampPair → Alert → Detail → Handled D
  unfolding plain_event base_alert_payload block_payload
  handle_alert s ts alert (Detail.listen_succeeded address port socket) =
      plain_event s "listen_succeeded" (
        base_alert_payload alert
        with ("address", string address)
        with ("port", integer port)
        with ("socket_type", string (socket_type_label socket)))
  handle_alert s ts alert (Detail.listen_failed address port op error socket) =
      plain_event s "listen_failed" (
        base_alert_payload alert
        with ("address", string address)
        with ("port", integer port)
        with ("operation", string (operation_name op))
        with ("error", string error)
        with ("socket_type", string (socket_type_label socket)))
  handle_alert s ts alert (Detail.tracker_announce url event) =
      plain_event (record s { tracker_announces = suc s.tracker_announces }) "tracker_announce"
        (base_alert_payload alert
          with ("tracker_url", string url)
          with ("event", string (tracker_event_name event)))
  handle_alert s ts alert (Detail.tracker_reply url num_peers) =
      plain_event (record s { tracker_replies = suc s.tracker_replies }) "tracker_reply"
        (base_alert_payload alert
          with ("tracker_url", string url)
          with ("num_peers", integer num_peers))
  handle_alert s ts alert (Detail.tracker_error url times_in_row error op failure_reason) =
      plain_event (record s { tracker_errors = suc s.tracker_errors }) "tracker_error"
        (base_alert_payload alert
          with ("tracker_url", string url)
          with ("times_in_row", integer times_in_row)
          with ("error", string error)
          with ("operation", string (operation_name op))
          with ("failure_reason", string failure_reason))
  handle_alert s ts alert (Detail.tracker_warning url warning) =
      plain_event (record s { tracker_warnings = suc s.tracker_warnings }) "tracker_warning"
        (base_alert_payload alert with ("tracker_url", string url) with ("warning", string warning))
  handle_alert s ts alert (Detail.state_changed prev_state state) =
      plain_event (note_torrent_state s state) "torrent_state_changed" (
        base_alert_payload alert
        with ("previous_state", string (state_name prev_state))
        with ("state", string (state_name state)))
  handle_alert s ts alert Detail.torrent_finished =
      plain_event s "torrent_finished" (base_alert_payload alert)
  handle_alert s ts alert (Detail.peer_connect endpoint pid direction socket) =
      on_peer_connect s endpoint pid ts (peer_connect_direction_name direction) socket
        (base_alert_payload alert)
  handle_alert s ts alert (Detail.peer_error endpoint pid error op) =
      on_peer (count_peer_error s op) endpoint pid ts (λ p. p) "peer_error"
        (base_alert_payload alert
          with ("error", string error)
          with ("operation", string (operation_name op)))
  handle_alert s ts alert (Detail.peer_disconnected endpoint pid error op reason socket) =
      on_peer_disconnected s endpoint pid ts (
        base_alert_payload alert
        with ("error", string error)
        with ("operation", string (operation_name op))
        with ("close_reason", integer reason)
        with ("socket_type", string (socket_type_label socket)))
  handle_alert s ts alert (Detail.incoming_connection endpoint socket) =
      plain_event (record s { incoming_connection_count = suc s.incoming_connection_count })
        "incoming_connection"
        (base_alert_payload alert
          with ("peer_ip", string endpoint.address)
          with ("peer_port", integer (pos endpoint.port))
          with ("socket_type", string (socket_type_label socket))
          with ("transport", string (transport_from_socket_type socket)))
  handle_alert s ts alert (Detail.peer_snubbed endpoint pid) =
      on_peer s endpoint pid ts (λ p. note_snubbed p ts) "peer_snubbed" (base_alert_payload alert)
  handle_alert s ts alert (Detail.peer_unsnubbed endpoint pid) =
      on_peer s endpoint pid ts (λ p. note_unsnubbed p ts) "peer_unsnubbed"
        (base_alert_payload alert)
  handle_alert s ts alert (Detail.block_downloading endpoint pid piece block) =
      on_peer s endpoint pid ts (λ p. note_request_sent p ts piece block) "block_request_sent"
        (block_payload (base_alert_payload alert) piece block)
  handle_alert s ts alert (Detail.block_finished endpoint pid piece block) =
      on_block_finished s endpoint pid ts piece block (base_alert_payload alert)
  handle_alert s ts alert (Detail.block_timeout endpoint pid piece block) =
      on_peer s endpoint pid ts (λ p. note_timeout p ts piece block) "block_timeout"
        (block_payload (base_alert_payload alert) piece block)
  handle_alert s ts alert (Detail.request_dropped endpoint pid piece block) =
      on_peer s endpoint pid ts (λ p. note_drop p ts piece block) "request_dropped"
        (block_payload (base_alert_payload alert) piece block)
  handle_alert s ts alert (Detail.incoming_request endpoint pid req) =
      on_peer s endpoint pid ts (λ p. note_incoming_request p ts req) "incoming_request"
        (base_alert_payload alert
          with ("piece", integer req.piece)
          with ("start", integer req.start)
          with ("length", integer req.length))
  handle_alert s ts alert (Detail.block_uploaded endpoint pid piece block) =
      on_peer s endpoint pid ts (λ p. note_block_uploaded p ts piece block) "block_uploaded"
        (block_payload (base_alert_payload alert) piece block)
  handle_alert s ts alert (Detail.piece_finished piece) =
      plain_event (note_piece_finished s piece) "piece_finished"
        (base_alert_payload alert with ("piece", integer piece))
  handle_alert s ts alert (Detail.peer_log endpoint pid event_type direction log_message) =
      on_peer s endpoint pid ts (λ p. p) "peer_log"
        (base_alert_payload alert
          with ("peer_log_event", string event_type)
          with ("direction", integer direction)
          with ("log_message", string log_message))
  handle_alert s ts alert (Detail.alerts_dropped count) =
      plain_event (note_alert_loss s count) "alerts_dropped"
        (base_alert_payload alert with ("dropped_alert_type_bits", integer (pos count)))
  handle_alert s ts alert Detail.other = some (s, [])

  -- The loop over the alerts, each with the time at which it is handled.
  unfoldable pub drain_alerts : SessionStats D → List (TimestampPair × Alert) → Handled D
  drain_alerts s [] = some (s, [])
  drain_alerts s0 ((ts, alert) ∷ alerts) = do
    (s, events) ← handle_alert s0 ts alert alert.detail
    (s', more) ← drain_alerts s alerts
    some (s', events ++ more)
