-- ===== src/Session/Consistency/Calls.antt =====
-- `note_peer_connect`, `note_peer_event` and `note_peer_snapshot` of src/peer_stats.cpp in a
-- consistent session.
use bittorrent_peer_linking.Base.{
  ℤ, ◌≡◌, inl, inr, refl, ◌∙◌, true, String, Option, some, Bool-cases,
}
use bittorrent_peer_linking.Map.{find}
use bittorrent_peer_linking.Keys.{string_ord}
use bittorrent_peer_linking.Double.{Double}
use bittorrent_peer_linking.Util.{
  TimestampPair, Endpoint, endpoint_to_string, PeerId, PeerInfo, transport_from_peer_info,
}
use bittorrent_peer_linking.Peer.State.{PeerStats}
use bittorrent_peer_linking.Peer.Identity.{identity, step-identity}
use bittorrent_peer_linking.Peer.Activity.{mark_seen, note_peer_id}
use bittorrent_peer_linking.Peer.Events.{note_connect}
use bittorrent_peer_linking.Peer.Snapshot.{update_from_snapshot, snapshot_direction}
use bittorrent_peer_linking.Peer.History.{sees, identifies, connects, snapshots, step}
use bittorrent_peer_linking.Session.State.{SessionStats}
use bittorrent_peer_linking.Session.Peers.{
  update_peer, note_peer_connect, note_peer_event, note_peer_snapshot, count_connect,
}
use bittorrent_peer_linking.Session.Consistency.{
  HasPeer, IsConsistent, update-IsConsistent, update-HasPeer,
}
use bittorrent_peer_linking.Session.Consistency.Opening.{IsFound, ensure-IsFound}

module _ {D : Double} where
  -- The session after a call, and the active peer of the endpoint, to which the call refers.
  pub record IsServed (after : SessionStats D) (endpoint key : String) : Type 0 where
    pub consistent : IsConsistent after
    pub is_active : find endpoint after.active_peer_key_by_endpoint ≡ some key
    pub present : HasPeer after.peers_by_key key endpoint

  -- The call does not throw, and its result is served.
  abbrev pub Serves : Option (SessionStats D × String) → String → Type 0
  Serves result endpoint =
      (r : SessionStats D × String) × (result ≡ some r) × IsServed r.0 endpoint r.1

  pub update-IsServed :
      (s : SessionStats D) (endpoint key : String) (f : PeerStats D → PeerStats D)
      → ((p : PeerStats D) → identity (f p) ≡ identity p)
      → IsServed s endpoint key
      → IsServed (update_peer key f s) endpoint key
  unfolding update_peer
  update-IsServed s endpoint key f keeps v = record {
    consistent = unfold update_peer in update-IsConsistent s key f keeps v.consistent;
    is_active = v.is_active;
    present = update-HasPeer s.peers_by_key key key endpoint f keeps v.present;
  }

  pub found-IsServed :
      {s after : SessionStats D} {endpoint key : String}
      → IsFound s after endpoint key
      → IsServed after endpoint key
  found-IsServed f = record {
    consistent = f.consistent;
    is_active = f.is_active;
    present = f.present;
  }

  pub seen-identity :
      (ts : TimestampPair) (pid : PeerId) (p : PeerStats D)
      → identity (note_peer_id (mark_seen p ts) pid) ≡ identity p
  unfolding step
  seen-identity ts pid p =
      step-identity (mark_seen p ts) ts (identifies pid) ∙ step-identity p ts sees

  -- An alert about a peer in a consistent session does not throw. The session stays consistent, and
  -- the endpoint's active peer is the one that the call answers with.
  pub event-Serves :
      (s : SessionStats D) (endpoint : Endpoint) (pid : PeerId) (ts : TimestampPair)
      (direction transport : String)
      → IsConsistent s
      → Serves (note_peer_event s endpoint pid ts direction transport) (endpoint_to_string endpoint)
  unfolding note_peer_event
  event-Serves s endpoint pid ts direction transport c =
      let (r, e, f) = ensure-IsFound s endpoint ts direction transport c in
      (
        (update_peer r.1 (λ p. note_peer_id (mark_seen p ts) pid) r.0, r.1),
        rw (e, note_peer_event) refl,
        update-IsServed r.0 _ r.1 (λ p. note_peer_id (mark_seen p ts) pid) (seen-identity ts pid)
            (found-IsServed f),
      )

  -- A snapshot of a peer in a consistent session does not throw. The session stays consistent, and
  -- the endpoint's active peer is the one that the call answers with.
  pub snapshot-Serves :
      (s : SessionStats D) (peer : PeerInfo) (ts : TimestampPair) (interval : ℤ)
      → IsConsistent s
      → Serves (note_peer_snapshot s peer ts interval) (endpoint_to_string peer.ip)
  unfolding note_peer_snapshot step
  snapshot-Serves s peer ts interval c =
      let (r, e, f) =
        ensure-IsFound s peer.ip ts (snapshot_direction peer "unknown")
          (transport_from_peer_info peer) c in
      (
        (update_peer r.1 (λ p. update_from_snapshot p peer ts interval) r.0, r.1),
        rw (e, note_peer_snapshot) refl,
        update-IsServed r.0 _ r.1 (λ p. update_from_snapshot p peer ts interval)
            (λ p. step-identity p ts (snapshots peer interval)) (found-IsServed f),
      )

  connected-identity :
      (ts : TimestampPair) (pid : PeerId) (direction transport : String) (p : PeerStats D)
      → identity (note_peer_id (note_connect p ts direction transport true) pid) ≡ identity p
  unfolding step
  connected-identity ts pid direction transport p =
      step-identity (note_connect p ts direction transport true) ts (identifies pid)
      ∙ step-identity p ts (connects direction transport true)

  -- The count of connections is no part of what is consistent.
  count-IsServed :
      (s : SessionStats D) (peer : PeerStats D) (endpoint key : String)
      → IsServed s endpoint key
      → IsServed (count_connect s peer) endpoint key
  unfolding count_connect
  count-IsServed s peer endpoint key v = elim (Bool-cases peer.saw_connect_alert) [
    | inl e ↦ simp e v
    | inr e ↦ simp e (record {
      consistent = record {
        peers_sorted = v.consistent.peers_sorted;
        active_sorted = v.consistent.active_sorted;
        active = v.consistent.active;
        numbered = v.consistent.numbered;
        counted = v.consistent.counted;
      };
      is_active = v.is_active;
      present = v.present;
    })
  ]

  -- A connect alert in a consistent session does not throw. The session stays consistent, and the
  -- endpoint's active peer is the one that the call answers with.
  pub connect-Serves :
      (s : SessionStats D) (endpoint : Endpoint) (pid : PeerId) (ts : TimestampPair)
      (direction transport : String)
      → IsConsistent s
      → Serves
          (note_peer_connect s endpoint pid ts direction transport)
          (endpoint_to_string endpoint)
  unfolding note_peer_connect
  connect-Serves s endpoint pid ts direction transport c =
      let (r, e, f) = ensure-IsFound s endpoint ts direction transport c in
      let (peer, found, _) = f.present in
      let write =
        λ (p : PeerStats D). note_peer_id (note_connect p ts direction transport true) pid in
      (
        (update_peer r.1 write (count_connect r.0 peer), r.1),
        rw (e, found, note_peer_connect) refl,
        update-IsServed (count_connect r.0 peer) _ r.1 write
            (connected-identity ts pid direction transport)
            (count-IsServed r.0 peer _ r.1 (found-IsServed f)),
      )
