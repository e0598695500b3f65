-- ===== src/Session/Consistency/Endings.antt =====
-- Disconnections, lost alerts, finished pieces and the end of a session, in src/peer_stats.cpp.
use mathlib.Core.Option
use mathlib.Core.Option.{some-injective}
use mathlib.Core.Path.{subst}
use bittorrent_peer_linking.Base.{
  ℕ, suc, ℤ, ◌≡◌, inl, inr, refl, sym, ap, ◌∙◌, arith, false, String, none, some, Bool-cases,
  Option-cases,
}
use bittorrent_peer_linking.Map.{Map, find, erase, map_values, same, update_at}
use bittorrent_peer_linking.Map.Laws.{
  find-erase, find-update_at, erase-IsSorted, length-erase, same_refl, find-map_values,
  map_values-IsSorted, length-map_values,
}
use bittorrent_peer_linking.Keys.{string_ord, int_ord}
use bittorrent_peer_linking.Double.{Double}
use bittorrent_peer_linking.Util.{TimestampPair, Endpoint, endpoint_to_string, PeerId}
use bittorrent_peer_linking.Peer.State.{PeerStats}
use bittorrent_peer_linking.Peer.Identity.{identity, step-identity}
use bittorrent_peer_linking.Peer.Activity.{record_outstanding_depth, mark_seen, note_peer_id}
use bittorrent_peer_linking.Peer.Events.{note_disconnect}
use bittorrent_peer_linking.Peer.Snapshot
use bittorrent_peer_linking.Peer.History.{disconnects, finalizes, step}
use bittorrent_peer_linking.Session.State.{SessionStats}
use bittorrent_peer_linking.Session.Peers.{update_peer, note_peer_event, note_peer_disconnect}
use bittorrent_peer_linking.Session.Totals.{
  note_alert_loss, note_piece_finished, credit_piece, finalize,
  state_implies_network_piece_completion,
}
use bittorrent_peer_linking.Session.Consistency.{
  HasPeer, IsNumbered, IsConsistent, update-IsConsistent, endpoint_kept, renumber,
}
use bittorrent_peer_linking.Session.Consistency.Opening.{ensure-IsFound}
use bittorrent_peer_linking.Session.Consistency.Calls.{
  IsServed, found-IsServed, seen-identity, update-IsServed,
}

module _ {D : Double} where
  -- What a disconnection leaves of a session: the endpoint's peer, with what its statistics were
  -- before and the disconnection noted in them; every other peer; and no active peer of the endpoint.
  pub record IsEnded (before : SessionStats D) (endpoint : String) (pid : PeerId)
      (ts : TimestampPair) (after : SessionStats D) (key : String) : Type 0 where
    pub consistent : IsConsistent after
    pub present : HasPeer after.peers_by_key key endpoint
    pub closed : find endpoint after.active_peer_key_by_endpoint ≡ none
    pub peer : PeerStats D
    pub noted :
        find key after.peers_by_key
        ≡ some (note_disconnect (note_peer_id (mark_seen peer ts) pid) ts)
    pub was_active :
        (k : String)
        → find endpoint before.active_peer_key_by_endpoint ≡ some k
        → (k ≡ key) × (find key before.peers_by_key ≡ some peer)
    pub others :
        (k : String) (p : PeerStats D)
        → same k key ≡ false
        → find k before.peers_by_key ≡ some p
        → find k after.peers_by_key ≡ some p

  -- The endpoint's peer stays, and the endpoint has no active peer any more.
  record IsClosed (after : SessionStats D) (endpoint key : String) : Type 0 where
    consistent : IsConsistent after
    present : HasPeer after.peers_by_key key endpoint
    closed : find endpoint after.active_peer_key_by_endpoint ≡ none

  erase-active :
      (peers : Map String (PeerStats D)) (active : Map String String) (endpoint : String)
      → ((e k : String) → find e active ≡ some k → HasPeer peers k e)
      → (e k : String) → find e (erase endpoint active) ≡ some k
      → HasPeer peers k e
  erase-active peers active endpoint old e k h = elim (Bool-cases (same e endpoint)) [
    | inr other ↦ old e k (sym (find-erase e endpoint active ∙ rw other) ∙ h)
    | inl hit ↦
        let gone : find e (erase endpoint active) ≡ none = find-erase e endpoint active ∙ rw hit in
        absurd (cc (sym gone ∙ h))
  ]

  close-IsClosed :
      (s : SessionStats D) (endpoint key : String)
      → IsServed s endpoint key
      → IsClosed
          (record s {
            active_peer_key_by_endpoint = erase endpoint s.active_peer_key_by_endpoint;
            disconnect_count = suc s.disconnect_count;
          })
          endpoint
          key
  close-IsClosed s endpoint key v = record {
    consistent = record {
      peers_sorted = v.consistent.peers_sorted;
      active_sorted =
          erase-IsSorted endpoint s.active_peer_key_by_endpoint v.consistent.active_sorted;
      active =
          erase-active s.peers_by_key s.active_peer_key_by_endpoint endpoint v.consistent.active;
      numbered = v.consistent.numbered;
      counted = omega (
        arith,
        v.consistent.counted,
        length-erase endpoint key s.active_peer_key_by_endpoint v.consistent.active_sorted
            v.is_active,
      );
    };
    present = v.present;
    closed = find-erase endpoint endpoint s.active_peer_key_by_endpoint ∙ rw (same_refl endpoint);
  }

  -- Two writes to one peer.
  find-twice :
      (m : Map String (PeerStats D)) (key : String) (f g : PeerStats D → PeerStats D)
      (p : PeerStats D)
      → find key m ≡ some p
      → find key (update_at key g (update_at key f m)) ≡ some (g (f p))
  find-twice m key f g p found =
      find-update_at key key g (update_at key f m)
      ∙ rw (same_refl key, find-update_at key key f m, same_refl key, found) refl

  find-other :
      (m : Map String (PeerStats D)) (key k : String) (f g : PeerStats D → PeerStats D)
      → same k key ≡ false
      → find k (update_at key g (update_at key f m)) ≡ find k m
  find-other m key k f g other =
      find-update_at k key g (update_at key f m) ∙ rw (other, find-update_at k key f m, other) refl

  -- In a consistent session a disconnection does not throw. The statistics that the endpoint's active
  -- peer had, if there was one, are still there under its key, with the disconnection noted in them
  -- by `mark_seen`, `note_peer_id` and `note_disconnect` and nothing else changed; every other peer is
  -- as it was; the endpoint has no active peer afterwards, and the session stays consistent.
  pub disconnect-IsEnded :
      (s : SessionStats D) (endpoint : Endpoint) (pid : PeerId) (ts : TimestampPair)
      → IsConsistent s
      → (r : SessionStats D × String) × (note_peer_disconnect s endpoint pid ts ≡ some r)
        × IsEnded s (endpoint_to_string endpoint) pid ts r.0 r.1
  unfolding note_peer_disconnect note_peer_event step update_peer
  disconnect-IsEnded s endpoint pid ts c =
      let (r, e, f) = ensure-IsFound s endpoint ts "unknown" "unknown" c in
      let seen : PeerStats D → PeerStats D = λ p. note_peer_id (mark_seen p ts) pid in
      let ending : PeerStats D → PeerStats D = λ p. note_disconnect p ts in
      let at = endpoint_to_string endpoint in
      let v : IsServed (update_peer r.1 seen r.0) at r.1 =
        update-IsServed r.0 at r.1 seen (seen-identity ts pid) (found-IsServed f) in
      let ended : SessionStats D = update_peer r.1 ending (update_peer r.1 seen r.0) in
      let w : IsServed ended at r.1 =
        update-IsServed (update_peer r.1 seen r.0) at r.1 ending
          (λ p. step-identity p ts disconnects) v in
      let (peer, found, own) = w.present in
      let (old, was, _) = f.present in
      let closed = close-IsClosed ended at r.1 w in
      (
        (
          record ended {
            active_peer_key_by_endpoint = erase peer.endpoint_key ended.active_peer_key_by_endpoint;
            disconnect_count = suc ended.disconnect_count;
          },
          r.1,
        ),
        rw (e, found, note_peer_disconnect) refl,
        rw own (record {
          consistent = closed.consistent;
          present = closed.present;
          closed = closed.closed;
          peer = old;
          noted = find-twice r.0.peers_by_key r.1 seen ending old was;
          was_active = λ k listed.
              let same_key = f.answered k listed in
              let (p, there, _) = c.active at k listed in
              (
                same_key,
                subst (λ x. find x s.peers_by_key ≡ some old) same_key
                    (there
                      ∙ sym (f.kept k p there)
                      ∙ ap (λ x. find x r.0.peers_by_key) same_key
                      ∙ was),
              );
          others = λ k p other there.
              find-other r.0.peers_by_key r.1 k seen ending other ∙ f.kept k p there;
        }),
      )

  -- A write to every peer that keeps their identities.
  map-IsConsistent :
      (s : SessionStats D) (f : PeerStats D → PeerStats D)
      → ((p : PeerStats D) → identity (f p) ≡ identity p)
      → IsConsistent s
      → IsConsistent (record s { peers_by_key = map_values f s.peers_by_key })
  map-IsConsistent s f keeps c = record {
    peers_sorted = map_values-IsSorted f s.peers_by_key c.peers_sorted;
    active_sorted = c.active_sorted;
    active = λ endpoint k h.
        let (p, found, own) = c.active endpoint k h in
        (f p, find-map_values f k s.peers_by_key ∙ rw found, endpoint_kept f p (keeps p) ∙ own);
    numbered = λ k q h. numbered k q (sym (find-map_values f k s.peers_by_key) ∙ h);
    counted = length-map_values f s.peers_by_key ∙ c.counted;
  }
    where
      numbered :
          (k : String) (q : PeerStats D)
          → Option.map f (find k s.peers_by_key) ≡ some q
          → IsNumbered s.connect_sequence_by_endpoint k q
      numbered k q h = elim (Option-cases (find k s.peers_by_key)) [
        | inl e ↦ absurd (cc (sym (rw e at h)))
        | inr (p, e) ↦
            subst (IsNumbered s.connect_sequence_by_endpoint k) (some-injective (f p) q (rw e at h))
              (renumber s.connect_sequence_by_endpoint k f p (keeps p) (c.numbered k p e))
      ]

  -- Lost alerts forget requests, and no peer.
  pub loss-IsConsistent :
      (s : SessionStats D) (bits : ℕ) → IsConsistent s → IsConsistent (note_alert_loss s bits)
  unfolding note_alert_loss Snapshot.reset_outstanding_requests record_outstanding_depth
  loss-IsConsistent s bits c = map-IsConsistent s Snapshot.reset_outstanding_requests (λ p. refl) c

  credit-IsConsistent :
      (s : SessionStats D) (piece_index : ℤ)
      → IsConsistent s
      → IsConsistent (credit_piece s piece_index)
  unfolding credit_piece update_peer
  credit-IsConsistent s piece_index c =
      elim (Option-cases (find piece_index s.last_piece_peer_key)) [
        | inl f ↦ rw (f, credit_piece) c
        | inr (key, f) ↦
            rw (f, credit_piece)
              (update-IsConsistent s key (λ p. record p { pieces_finished = suc p.pieces_finished })
                (λ p. refl) c)
      ]

  pub piece-IsConsistent :
      (s : SessionStats D) (piece_index : ℤ)
      → IsConsistent s
      → IsConsistent (note_piece_finished s piece_index)
  unfolding note_piece_finished
  piece-IsConsistent s piece_index c =
      elim (Bool-cases (state_implies_network_piece_completion s.latest_torrent_state)) [
        | inr e ↦ simp e c
        | inl e ↦ simp e (
            credit-IsConsistent (record s { piece_completions = suc s.piece_completions })
              piece_index c)
      ]

  pub finalize-IsConsistent :
      (s : SessionStats D) (end_time : TimestampPair)
      → IsConsistent s
      → IsConsistent (finalize s end_time)
  unfolding finalize step
  finalize-IsConsistent s end_time c =
      map-IsConsistent s (λ p. Snapshot.finalize p end_time)
        (λ p. step-identity p end_time finalizes) c
