-- ===== src/Alerts/Drain.antt =====
-- `drain_alerts` of src/main.cpp on any alerts, against a consistent session.
use bittorrent_peer_linking.Base.{
  ℕ, ◌+◌, ℤ, ◌≡◌, refl, arith, String, some, List, [], ◌∷◌, ◌++◌, length, length-append,
}
use bittorrent_peer_linking.Keys.{string_ord, int_ord}
use bittorrent_peer_linking.Double.{Double}
use bittorrent_peer_linking.Json.{Members}
use bittorrent_peer_linking.Util.{TimestampPair, Endpoint, PeerId, endpoint_to_string}
use bittorrent_peer_linking.Util.Names.{SocketType, transport_from_socket_type}
use bittorrent_peer_linking.Peer.State.{PeerStats}
use bittorrent_peer_linking.Peer.Identity.{identity, step-identity}
use bittorrent_peer_linking.Peer.Events.{
  note_request_sent, note_block_response, note_timeout, note_drop, note_incoming_request,
  note_block_uploaded, note_snubbed, note_unsnubbed,
}
use bittorrent_peer_linking.Peer.History.{
  sends_request, receives_block, times_out, drops, receives_request, uploads_block, snubs, unsnubs,
  step,
}
use bittorrent_peer_linking.Session.State.{SessionStats}
use bittorrent_peer_linking.Session.Peers.{update_peer}
use bittorrent_peer_linking.Session.Totals.{note_torrent_state}
use bittorrent_peer_linking.Session.Consistency.{IsConsistent}
use bittorrent_peer_linking.Session.Consistency.Calls.{
  IsServed, event-Serves, connect-Serves, update-IsServed,
}
use bittorrent_peer_linking.Session.Consistency.Endings.{
  disconnect-IsEnded, loss-IsConsistent, piece-IsConsistent,
}
use bittorrent_peer_linking.Alerts.{Alert, Detail, Operation, Event, peer_connect_direction_name}
use bittorrent_peer_linking.Alerts.Handlers.{
  Handled, handle_alert, drain_alerts, on_peer, on_block_finished, on_peer_connect,
  on_peer_disconnected, peer_event, event_about, block_payload, connect_payload, count_peer_error,
  credit_block,
}

-- The events that an alert leaves.
abbrev pub events_of : Detail → ℕ
events_of Detail.other = 0
events_of (Detail.listen_succeeded _ _ _) = 1
events_of _ = 1

abbrev pub events_of_all : List (TimestampPair × Alert) → ℕ
events_of_all [] = 0
events_of_all ((ts, alert) ∷ alerts) = events_of alert.detail + events_of_all alerts

module _ {D : Double} where
  -- The branch does not throw, keeps the session consistent, and leaves `n` events.
  abbrev pub Succeeds : Handled D → ℕ → Type 0
  Succeeds result n =
      (r : SessionStats D × List (Event D)) × (result ≡ some r)
      × IsConsistent r.0
      × (length r.1 ≡ n)

  pub present-Succeeds :
      (s : SessionStats D) (endpoint key event_type : String) (payload : Members D)
      → IsServed s endpoint key
      → Succeeds (peer_event s key event_type payload) 1
  unfolding peer_event
  present-Succeeds s endpoint key event_type payload v =
      let (peer, found, _) = v.present in
      (
        (s, event_about peer event_type payload ∷ []),
        rw (found, peer_event) refl,
        v.consistent,
        refl,
      )

  on_peer-Succeeds :
      (s : SessionStats D) (endpoint : Endpoint) (pid : PeerId) (ts : TimestampPair)
      (f : PeerStats D → PeerStats D) (event_type : String) (payload : Members D)
      → ((p : PeerStats D) → identity (f p) ≡ identity p)
      → IsConsistent s
      → Succeeds (on_peer s endpoint pid ts f event_type payload) 1
  unfolding on_peer
  on_peer-Succeeds s endpoint pid ts f event_type payload keeps c =
      let (r, e, v) = event-Serves s endpoint pid ts "unknown" "unknown" c in
      let (q, g, k, n) =
        present-Succeeds (update_peer r.1 f r.0) (endpoint_to_string endpoint) r.1 event_type
          payload (update-IsServed r.0 _ r.1 f keeps v) in
      (q, rw (e, on_peer) g, k, n)

  credit-IsServed :
      (s : SessionStats D) (endpoint key : String) (piece : ℤ)
      → IsServed s endpoint key
      → IsServed (credit_block piece key s) endpoint key
  unfolding credit_block
  credit-IsServed s endpoint key piece v =
      let (peer, found, own) = v.present in
      rw (found, credit_block)
        (record { consistent = v.consistent; is_active = v.is_active; present = v.present })

  finished-Succeeds :
      (s : SessionStats D) (endpoint : Endpoint) (pid : PeerId) (ts : TimestampPair)
      (piece block : ℤ) (payload : Members D)
      → IsConsistent s
      → Succeeds (on_block_finished s endpoint pid ts piece block payload) 1
  unfolding on_block_finished step
  finished-Succeeds s endpoint pid ts piece block payload c =
      let (r, e, v) = event-Serves s endpoint pid ts "unknown" "unknown" c in
      let answered = update_peer r.1 (λ p. note_block_response p ts piece block) r.0 in
      let (q, g, k, n) =
        present-Succeeds (credit_block piece r.1 answered) (endpoint_to_string endpoint) r.1
          "block_response_received" (block_payload payload piece block)
          (credit-IsServed answered _ r.1 piece (
            update-IsServed r.0 _ r.1 (λ p. note_block_response p ts piece block)
              (λ p. step-identity p ts (receives_block piece block)) v)) in
      (q, rw (e, on_block_finished) g, k, n)

  connect-Succeeds :
      (s : SessionStats D) (endpoint : Endpoint) (pid : PeerId) (ts : TimestampPair)
      (direction : String) (socket : SocketType) (payload : Members D)
      → IsConsistent s
      → Succeeds (on_peer_connect s endpoint pid ts direction socket payload) 1
  unfolding on_peer_connect
  connect-Succeeds s endpoint pid ts direction socket payload c =
      let (r, e, v) =
        connect-Serves s endpoint pid ts direction (transport_from_socket_type socket) c in
      let (q, g, k, n) =
        present-Succeeds r.0 (endpoint_to_string endpoint) r.1 "peer_connected"
          (connect_payload payload pid socket) v in
      (q, rw (e, on_peer_connect) g, k, n)

  disconnect-Succeeds :
      (s : SessionStats D) (endpoint : Endpoint) (pid : PeerId) (ts : TimestampPair)
      (payload : Members D)
      → IsConsistent s
      → Succeeds (on_peer_disconnected s endpoint pid ts payload) 1
  unfolding on_peer_disconnected peer_event
  disconnect-Succeeds s endpoint pid ts payload c =
      let (r, e, v) = disconnect-IsEnded s endpoint pid ts c in
      let (peer, found, _) = v.present in
      (
        (r.0, event_about peer "peer_disconnected" payload ∷ []),
        rw (e, found, on_peer_disconnected) refl,
        v.consistent,
        refl,
      )

  plain-Succeeds :
      (s : SessionStats D) (e : Event D) → IsConsistent s → Succeeds (some (s, e ∷ [])) 1
  plain-Succeeds s e c = ((s, e ∷ []), refl, c, refl)

module _ {D : Double} (operation_name : Operation → String) where
  handle-Succeeds :
      (s : SessionStats D) (ts : TimestampPair) (alert : Alert) (detail : Detail)
      → IsConsistent s
      → Succeeds (handle_alert operation_name s ts alert detail) (events_of detail)
  unfolding handle_alert step count_peer_error note_torrent_state
  handle-Succeeds s ts alert (Detail.listen_succeeded address port label) c = plain-Succeeds _ _ c
  handle-Succeeds s ts alert (Detail.listen_failed address port op error label) c =
      plain-Succeeds _ _ c
  handle-Succeeds s ts alert (Detail.tracker_announce url event) c = plain-Succeeds _ _ c
  handle-Succeeds s ts alert (Detail.tracker_reply url num_peers) c = plain-Succeeds _ _ c
  handle-Succeeds s ts alert (Detail.tracker_error url times_in_row error op failure_reason) c =
      plain-Succeeds _ _ c
  handle-Succeeds s ts alert (Detail.tracker_warning url warning) c = plain-Succeeds _ _ c
  handle-Succeeds s ts alert (Detail.state_changed prev_state state) c = plain-Succeeds _ _ c
  handle-Succeeds s ts alert Detail.torrent_finished c = plain-Succeeds _ _ c
  handle-Succeeds s ts alert (Detail.peer_connect endpoint pid direction label) c =
      connect-Succeeds s endpoint pid ts (peer_connect_direction_name direction) label _ c
  handle-Succeeds s ts alert (Detail.peer_error endpoint pid error op) c =
      on_peer-Succeeds (count_peer_error s op) endpoint pid ts (λ p. p) _ _ (λ p. refl) c
  handle-Succeeds s ts alert (Detail.peer_disconnected endpoint pid error op reason label) c =
      disconnect-Succeeds s endpoint pid ts _ c
  handle-Succeeds s ts alert (Detail.incoming_connection endpoint label) c = plain-Succeeds _ _ c
  handle-Succeeds s ts alert (Detail.peer_snubbed endpoint pid) c =
      on_peer-Succeeds s endpoint pid ts (λ p. note_snubbed p ts) _ _
        (λ p. step-identity p ts snubs) c
  handle-Succeeds s ts alert (Detail.peer_unsnubbed endpoint pid) c =
      on_peer-Succeeds s endpoint pid ts (λ p. note_unsnubbed p ts) _ _
        (λ p. step-identity p ts unsnubs) c
  handle-Succeeds s ts alert (Detail.block_downloading endpoint pid piece block) c =
      on_peer-Succeeds s endpoint pid ts (λ p. note_request_sent p ts piece block) _ _
        (λ p. step-identity p ts (sends_request piece block)) c
  handle-Succeeds s ts alert (Detail.block_finished endpoint pid piece block) c =
      finished-Succeeds s endpoint pid ts piece block _ c
  handle-Succeeds s ts alert (Detail.block_timeout endpoint pid piece block) c =
      on_peer-Succeeds s endpoint pid ts (λ p. note_timeout p ts piece block) _ _
        (λ p. step-identity p ts (times_out piece block)) c
  handle-Succeeds s ts alert (Detail.request_dropped endpoint pid piece block) c =
      on_peer-Succeeds s endpoint pid ts (λ p. note_drop p ts piece block) _ _
        (λ p. step-identity p ts (drops piece block)) c
  handle-Succeeds s ts alert (Detail.incoming_request endpoint pid req) c =
      on_peer-Succeeds s endpoint pid ts (λ p. note_incoming_request p ts req) _ _
        (λ p. step-identity p ts (receives_request req)) c
  handle-Succeeds s ts alert (Detail.block_uploaded endpoint pid piece block) c =
      on_peer-Succeeds s endpoint pid ts (λ p. note_block_uploaded p ts piece block) _ _
        (λ p. step-identity p ts (uploads_block piece block)) c
  handle-Succeeds s ts alert (Detail.piece_finished piece) c =
      plain-Succeeds _ _ (piece-IsConsistent s piece c)
  handle-Succeeds s ts alert (Detail.peer_log endpoint pid event_type direction log_message) c =
      on_peer-Succeeds s endpoint pid ts (λ p. p) _ _ (λ p. refl) c
  handle-Succeeds s ts alert (Detail.alerts_dropped count) c =
      plain-Succeeds _ _ (loss-IsConsistent s count c)
  handle-Succeeds s ts alert Detail.other c = ((s, []), refl, c, refl)

  -- On any alerts, handled at any times, a consistent session is drained without an exception and
  -- stays consistent, and exactly one event is written for each alert that the program knows.
  pub drain-Succeeds :
      (s : SessionStats D) (alerts : List (TimestampPair × Alert))
      → IsConsistent s
      → Succeeds (drain_alerts operation_name s alerts) (events_of_all alerts)
  unfolding drain_alerts
  drain-Succeeds s [] c = ((s, []), refl, c, refl)
  drain-Succeeds s ((ts, alert) ∷ alerts) c =
      let (r, e, k, n) = handle-Succeeds s ts alert alert.detail c in
      let (q, f, l, m) = drain-Succeeds r.0 alerts k in
      ((q.0, r.1 ++ q.1), rw (e, f) refl, l, omega (arith, length-append r.1 q.1, n, m))
