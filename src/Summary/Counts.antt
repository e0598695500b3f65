-- ===== src/Summary/Counts.antt =====
-- What the counts of src/summary_writer.cpp are.
use bittorrent_peer_linking.Base.{
  ℕ, suc, ◌+◌, leb, ◌≡◌, refl, ap, ◌∙◌, arith, ◌≤◌, Bool, true, false, ◌&&◌, String, List, [], ◌∷◌,
  length, if◌then◌else◌, Bool-cases, inl, inr,
}
use bittorrent_peer_linking.Double.{Double}
use bittorrent_peer_linking.Map.{Map}
use bittorrent_peer_linking.Peer.State.{PeerStats}
use bittorrent_peer_linking.Session.State.{SessionStats}
use bittorrent_peer_linking.Session.Totals.{unique_peers_seen}
use bittorrent_peer_linking.Summary.{
  PeerObservationCounts, had_protocol_activity, count_peer, count_peers, peer_observation_counts,
}

both : (a b : Bool) → (a && b) ≡ true → b ≡ true
both true b h = h
both false b h = absurd (cc h)

module _ {D : Double} where
  abbrev start : SessionStats D → PeerObservationCounts
  start stats = record {
    unique_peer_endpoints_seen = unique_peers_seen stats;
    peer_connections_observed = length stats.peers_by_key;
    active_peer_connections = 0;
    fingerprintable_peer_connections = 0;
  }

  -- The keys of the peers that pass a test.
  unfoldable pub passing : (PeerStats D → Bool) → Map String (PeerStats D) → List String
  passing test [] = []
  passing test ((key, peer) ∷ peers) =
      if test peer then key ∷ passing test peers else passing test peers

  abbrev pub is_fingerprintable : PeerStats D → Bool
  is_fingerprintable peer =
      leb 100 (peer.requests_sent + peer.incoming_requests_received) && had_protocol_activity peer

  step-active :
      (peer : PeerStats D) (counts : PeerObservationCounts)
      → (count_peer peer counts).active_peer_connections ≡ (
          if had_protocol_activity peer
          then suc counts.active_peer_connections
          else counts.active_peer_connections)
  unfolding count_peer
  step-active peer counts = refl

  step-fingerprintable :
      (peer : PeerStats D) (counts : PeerObservationCounts)
      → (count_peer peer counts).fingerprintable_peer_connections ≡ (
          if is_fingerprintable peer
          then suc counts.fingerprintable_peer_connections
          else counts.fingerprintable_peer_connections)
  unfolding count_peer
  step-fingerprintable peer counts = refl

  length-passing :
      (test : PeerStats D → Bool) (key : String) (peer : PeerStats D)
      (peers : Map String (PeerStats D)) (n : ℕ)
      → (if test peer then suc n else n) + length (passing test peers)
        ≡ n + length (passing test ((key, peer) ∷ peers))
  unfolding passing
  length-passing test key peer peers n = elim (Bool-cases (test peer)) [
    | inl e ↦ rw e (omega arith)
    | inr e ↦ rw e refl
  ]

  peers-active :
      (peers : Map String (PeerStats D)) (counts : PeerObservationCounts)
      → (count_peers peers counts).active_peer_connections
        ≡ counts.active_peer_connections + length (passing had_protocol_activity peers)
  unfolding count_peers passing
  peers-active [] counts = omega arith
  peers-active ((key, peer) ∷ peers) counts =
      peers-active peers (count_peer peer counts)
      ∙ ap (λ n. n + length (passing had_protocol_activity peers)) (step-active peer counts)
      ∙ length-passing had_protocol_activity key peer peers counts.active_peer_connections

  peers-fingerprintable :
      (peers : Map String (PeerStats D)) (counts : PeerObservationCounts)
      → (count_peers peers counts).fingerprintable_peer_connections
        ≡ counts.fingerprintable_peer_connections + length (passing is_fingerprintable peers)
  unfolding count_peers passing
  peers-fingerprintable [] counts = omega arith
  peers-fingerprintable ((key, peer) ∷ peers) counts =
      peers-fingerprintable peers (count_peer peer counts)
      ∙ ap (λ n. n + length (passing is_fingerprintable peers)) (step-fingerprintable peer counts)
      ∙ length-passing is_fingerprintable key peer peers counts.fingerprintable_peer_connections

  peers-observed :
      (peers : Map String (PeerStats D)) (counts : PeerObservationCounts)
      → (count_peers peers counts).peer_connections_observed ≡ counts.peer_connections_observed
  unfolding count_peers count_peer
  peers-observed [] counts = refl
  peers-observed ((key, peer) ∷ peers) counts = peers-observed peers (count_peer peer counts)

  passing-within :
      (test : PeerStats D → Bool) (peers : Map String (PeerStats D))
      → length (passing test peers) ≤ length peers
  unfolding passing
  passing-within test [] = omega arith
  passing-within test ((key, peer) ∷ peers) = elim (Bool-cases (test peer)) [
    | inl e ↦ rw e (omega (arith, passing-within test peers))
    | inr e ↦ rw e (omega (arith, passing-within test peers))
  ]

  passing-fewer :
      (few many : PeerStats D → Bool) (peers : Map String (PeerStats D))
      → ((peer : PeerStats D) → few peer ≡ true → many peer ≡ true)
      → length (passing few peers) ≤ length (passing many peers)
  unfolding passing
  passing-fewer few many [] h = omega arith
  passing-fewer few many ((key, peer) ∷ peers) h =
      let rest = passing-fewer few many peers h in
      elim (Bool-cases (few peer)) [
        | inl e ↦ rw (e, h peer e) (omega (arith, rest))
        | inr e ↦ elim (Bool-cases (many peer)) [
          | inl e' ↦ rw (e, e') (omega (arith, rest))
          | inr e' ↦ rw (e, e') rest
        ]
      ]

  fingerprintable-active :
      (peer : PeerStats D) → is_fingerprintable peer ≡ true → had_protocol_activity peer ≡ true
  fingerprintable-active peer e =
      both (leb 100 (peer.requests_sent + peer.incoming_requests_received))
        (had_protocol_activity peer) e

  -- The counts of a summary are the number of peers, of those with activity and of those with
  -- activity and at least a hundred requests in either direction; the last are at most as many as the
  -- second, and these at most as many as the first.
  pub counts-bounds :
      (stats : SessionStats D)
      → let counts = peer_observation_counts stats in
        (counts.peer_connections_observed ≡ length stats.peers_by_key)
        × (counts.active_peer_connections
            ≡ length (passing had_protocol_activity stats.peers_by_key))
        × (counts.fingerprintable_peer_connections
            ≡ length (passing is_fingerprintable stats.peers_by_key))
        × (counts.fingerprintable_peer_connections ≤ counts.active_peer_connections)
        × (counts.active_peer_connections ≤ counts.peer_connections_observed)
  unfolding peer_observation_counts
  counts-bounds stats =
      let peers = stats.peers_by_key in
      let fewer =
        passing-fewer is_fingerprintable had_protocol_activity peers fingerprintable-active in
      let within = passing-within had_protocol_activity peers in
      let active = peers-active peers (start stats) in
      let fingerprintable = peers-fingerprintable peers (start stats) in
      let observed = peers-observed peers (start stats) in
      (
        observed,
        omega (arith, active),
        omega (arith, fingerprintable),
        omega (arith, fingerprintable, active, fewer),
        omega (arith, active, observed, within),
      )
