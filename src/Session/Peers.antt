-- ===== src/Session/Peers.antt =====
-- The operations on a session's peers. A reference to a peer is its key in `peers_by_key`; `none`
-- is the exception of `peers_by_key.at` on a key that is not there.
use bittorrent_peer_linking.Base.{ℕ, suc, ℤ, true, String, Option, none, some, if◌then◌else◌, ◌>>=◌}
use bittorrent_peer_linking.Map.{Map, find, insert, erase, emplace, update_at}
use bittorrent_peer_linking.Keys.{string_ord, peer_key_for}
use bittorrent_peer_linking.Double.{Double}
use bittorrent_peer_linking.Util.{
  TimestampPair, Endpoint, endpoint_to_string, PeerId, PeerInfo, transport_from_peer_info,
}
use bittorrent_peer_linking.Peer.State.{PeerStats, new_peer}
use bittorrent_peer_linking.Peer.Activity.{mark_seen, note_peer_id}
use bittorrent_peer_linking.Peer.Events.{note_connect, note_disconnect}
use bittorrent_peer_linking.Peer.Snapshot.{update_from_snapshot, snapshot_direction}
use bittorrent_peer_linking.Session.State.{SessionStats}

-- `connect_sequence_by_endpoint[key]`, zero where there is no entry.
unfoldable pub sequence_at : String → Map String ℕ → ℕ
sequence_at key sequences = elim (find key sequences) [ none ↦ 0 | some n ↦ n ]

module _ {D : Double} where
  -- A write through a reference to the peer of a key.
  unfoldable pub update_peer :
      String → (PeerStats D → PeerStats D) → SessionStats D → SessionStats D
  update_peer key f s = record s { peers_by_key = update_at key f s.peers_by_key }

  -- A new peer of the endpoint, under the next sequence number.
  unfoldable pub open_peer :
      SessionStats D → Endpoint → TimestampPair → String → String → SessionStats D × String
  open_peer s endpoint ts direction transport =
      let endpoint_key = endpoint_to_string endpoint in
      let sequence = suc (sequence_at endpoint_key s.connect_sequence_by_endpoint) in
      let peer_key = peer_key_for endpoint_key sequence in
      let peer =
        new_peer D peer_key endpoint_key endpoint.address endpoint.port ts direction transport in
      (
        record s {
          connect_sequence_by_endpoint =
              insert endpoint_key sequence s.connect_sequence_by_endpoint;
          peers_by_key = emplace peer_key peer s.peers_by_key;
          active_peer_key_by_endpoint = insert endpoint_key peer_key s.active_peer_key_by_endpoint;
        },
        peer_key,
      )

  unfoldable pub ensure_peer_for_endpoint :
      SessionStats D → Endpoint → TimestampPair → String → String → Option (SessionStats D × String)
  ensure_peer_for_endpoint s0 endpoint ts direction transport =
      let endpoint_key = endpoint_to_string endpoint in
      let s = record s0 {
        unique_peer_endpoints = insert endpoint_key tt s0.unique_peer_endpoints;
      } in
      elim (find endpoint_key s.active_peer_key_by_endpoint) [
        | none ↦ some (open_peer s endpoint ts direction transport)
        | some key ↦ elim (find key s.peers_by_key) [ none ↦ none | some peer ↦ some (s, key) ]
      ]

  -- `++successful_peer_connects`, if the peer has not seen its connect alert.
  unfoldable pub count_connect : SessionStats D → PeerStats D → SessionStats D
  count_connect s peer =
      if peer.saw_connect_alert
      then s
      else record s { successful_peer_connects = suc s.successful_peer_connects }

  unfoldable pub note_peer_connect :
      SessionStats D
      → Endpoint
      → PeerId
      → TimestampPair
      → String
      → String
      → Option (SessionStats D × String)
  unfolding count_connect
  note_peer_connect s0 endpoint pid ts direction transport = do
    (s, key) ← ensure_peer_for_endpoint s0 endpoint ts direction transport
    peer ← find key s.peers_by_key
    some (
      update_peer key (λ p. note_peer_id (note_connect p ts direction transport true) pid)
          (count_connect s peer),
      key,
    )

  unfoldable pub note_peer_event :
      SessionStats D
      → Endpoint
      → PeerId
      → TimestampPair
      → String
      → String
      → Option (SessionStats D × String)
  note_peer_event s0 endpoint pid ts direction transport = do
    (s, key) ← ensure_peer_for_endpoint s0 endpoint ts direction transport
    some (update_peer key (λ p. note_peer_id (mark_seen p ts) pid) s, key)

  unfoldable pub note_peer_disconnect :
      SessionStats D → Endpoint → PeerId → TimestampPair → Option (SessionStats D × String)
  note_peer_disconnect s0 endpoint pid ts = do
    (s1, key) ← note_peer_event s0 endpoint pid ts "unknown" "unknown"
    let s = update_peer key (λ p. note_disconnect p ts) s1
    peer ← find key s.peers_by_key
    some (
      record s {
        active_peer_key_by_endpoint = erase peer.endpoint_key s.active_peer_key_by_endpoint;
        disconnect_count = suc s.disconnect_count;
      },
      key,
    )

  unfoldable pub note_peer_snapshot :
      SessionStats D → PeerInfo → TimestampPair → ℤ → Option (SessionStats D × String)
  note_peer_snapshot s0 peer ts snapshot_interval_ms = do
    (s, key) ←
        ensure_peer_for_endpoint s0 peer.ip ts (snapshot_direction peer "unknown")
          (transport_from_peer_info peer)
    some (update_peer key (λ p. update_from_snapshot p peer ts snapshot_interval_ms) s, key)
