-- ===== src/Session/Consistency/Opening.antt =====
-- `ensure_peer_for_endpoint` of src/peer_stats.cpp: it finds the active peer of an endpoint or
-- opens a new one.
use mathlib.Core.Path.{subst}
use mathlib.Core.Option.{some-injective}
use bittorrent_peer_linking.Base.{
  ℕ, suc, ◌≤◌, ◌≡◌, inl, inr, refl, sym, ap, ◌∙◌, arith, String, none, some, if◌then◌else◌,
  Bool-cases, Option-cases,
}
use bittorrent_peer_linking.Map.{Map, find, insert, same}
use bittorrent_peer_linking.Map.Laws.{
  find-insert, insert-IsSorted, length-insert_new, same-eq, same_refl, emplace_new,
}
use bittorrent_peer_linking.Keys.{string_ord, peer_key_for}
use bittorrent_peer_linking.Double.{Double}
use bittorrent_peer_linking.Util.{TimestampPair, Endpoint, endpoint_to_string}
use bittorrent_peer_linking.Peer.State.{PeerStats, new_peer}
use bittorrent_peer_linking.Session.State.{SessionStats}
use bittorrent_peer_linking.Session.Peers.{sequence_at, open_peer, ensure_peer_for_endpoint}
use bittorrent_peer_linking.Session.Consistency.{
  HasPeer, IsNumbered, IsConsistent, insert-IsNumbered, fresh_key,
}

find-insert_self :
    {V : Type 0} (k : String) (v : V) (m : Map String V) → find k (insert k v m) ≡ some v
find-insert_self k v m = find-insert k k v m ∙ rw (same_refl k)

-- The next number of an endpoint, and those of the others.
sequence_at-insert :
    (endpoint e : String) (n : ℕ) (m : Map String ℕ)
    → sequence_at e (insert endpoint n m) ≡ (if same e endpoint then n else sequence_at e m)
unfolding sequence_at
sequence_at-insert endpoint e n m = ground (arith, find-insert e endpoint n m)

sequence_at-grows :
    (endpoint e : String) (m : Map String ℕ)
    → sequence_at e m ≤ sequence_at e (insert endpoint (suc (sequence_at endpoint m)) m)
sequence_at-grows endpoint e m =
    ground
      (arith, sequence_at-insert endpoint e (suc (sequence_at endpoint m)) m, same-eq e endpoint)

module _ {D : Double} where
  insert_new-HasPeer :
      (m : Map String (PeerStats D)) (key k endpoint : String) (q : PeerStats D)
      → find key m ≡ none
      → HasPeer m k endpoint
      → HasPeer (insert key q m) k endpoint
  insert_new-HasPeer m key k endpoint q e (r, f, g) = elim (Bool-cases (same k key)) [
    | inr other ↦ (r, find-insert k key q m ∙ rw other f, g)
    | inl hit ↦
        let found : find k m ≡ none = rw (same-eq k key hit) e in absurd (cc (sym found ∙ f))
  ]

  opened-active :
      (peers : Map String (PeerStats D)) (active : Map String String) (endpoint key : String)
      (q : PeerStats D)
      → find key peers ≡ none
      → q.endpoint_key ≡ endpoint
      → ((e k : String) → find e active ≡ some k → HasPeer peers k e)
      → (e k : String) → find e (insert endpoint key active) ≡ some k
      → HasPeer (insert key q peers) k e
  opened-active peers active endpoint key q fresh own old e k h =
      elim (Bool-cases (same e endpoint)) [
        | inr other ↦
            let before : find e active ≡ some k =
              sym (find-insert e endpoint key active ∙ rw other) ∙ h in
            insert_new-HasPeer peers key k e q fresh (old e k before)
        | inl hit ↦
            let written : find e (insert endpoint key active) ≡ some key =
              find-insert e endpoint key active ∙ rw hit in
            let same_key : key ≡ k = some-injective key k (sym written ∙ h) in
            (
              q,
              subst (λ x. find x (insert key q peers) ≡ some q) same_key
                  (find-insert_self key q peers),
              own ∙ sym (same-eq e endpoint hit),
            )
      ]

  grown-IsNumbered :
      (sequences : Map String ℕ) (endpoint k : String) (p : PeerStats D)
      → IsNumbered sequences k p
      → IsNumbered (insert endpoint (suc (sequence_at endpoint sequences)) sequences) k p
  grown-IsNumbered sequences endpoint k p (n, a, b, h) =
      (n, a, b, omega (arith, sequence_at-grows endpoint p.endpoint_key sequences))

  first-IsNumbered :
      (sequences : Map String ℕ) (endpoint : String) (n : ℕ) (q : PeerStats D)
      → q.endpoint_key ≡ endpoint
      → q.peer_key ≡ peer_key_for endpoint n
      → IsNumbered (insert endpoint n sequences) (peer_key_for endpoint n) q
  first-IsNumbered sequences endpoint n q own named =
      let given : sequence_at endpoint (insert endpoint n sequences) ≡ n =
        sequence_at-insert endpoint endpoint n sequences ∙ rw (same_refl endpoint) in
      (n, named, ap (λ x. peer_key_for x n) (sym own), rw own (omega (arith, given)))

  -- The new peer, its number and its entry among the active ones.
  open-IsConsistent :
      (s : SessionStats D) (endpoint : Endpoint) (ts : TimestampPair) (direction transport : String)
      → IsConsistent s
      → find (endpoint_to_string endpoint) s.active_peer_key_by_endpoint ≡ none
      → IsConsistent (open_peer s endpoint ts direction transport).0
  unfolding open_peer new_peer
  open-IsConsistent s endpoint ts direction transport c e =
      let endpoint_key = endpoint_to_string endpoint in
      let sequences = s.connect_sequence_by_endpoint in
      let key = peer_key_for endpoint_key (suc (sequence_at endpoint_key sequences)) in
      let peer =
        new_peer D key endpoint_key endpoint.address endpoint.port ts direction transport in
      let fresh = fresh_key s endpoint_key c in
      rw (emplace_new key peer s.peers_by_key fresh) (record {
        peers_sorted = insert-IsSorted key peer s.peers_by_key c.peers_sorted;
        active_sorted =
            insert-IsSorted endpoint_key key s.active_peer_key_by_endpoint c.active_sorted;
        active =
            opened-active s.peers_by_key s.active_peer_key_by_endpoint endpoint_key key peer fresh
              refl c.active;
        numbered =
            insert-IsNumbered s.peers_by_key _ key peer
              (first-IsNumbered sequences endpoint_key _ peer refl refl)
              (λ k p h. grown-IsNumbered sequences endpoint_key k p (c.numbered k p h));
        counted = omega (
          arith,
          c.counted,
          length-insert_new key peer s.peers_by_key fresh,
          length-insert_new endpoint_key key s.active_peer_key_by_endpoint e,
        );
      })

  -- The session after a lookup, and the key that it answers with.
  pub record IsFound (before after : SessionStats D) (endpoint key : String) : Type 0 where
    pub consistent : IsConsistent after
    pub is_active : find endpoint after.active_peer_key_by_endpoint ≡ some key
    pub present : HasPeer after.peers_by_key key endpoint
    pub kept :
        (k : String) (p : PeerStats D)
        → find k before.peers_by_key ≡ some p
        → find k after.peers_by_key ≡ some p
    pub answered :
        (k : String) → find endpoint before.active_peer_key_by_endpoint ≡ some k → k ≡ key

  insert_new-kept :
      (m : Map String (PeerStats D)) (key k : String) (q p : PeerStats D)
      → find key m ≡ none
      → find k m ≡ some p
      → find k (insert key q m) ≡ some p
  insert_new-kept m key k q p fresh h = elim (Bool-cases (same k key)) [
    | inr other ↦ find-insert k key q m ∙ rw other h
    | inl hit ↦
        let found : find k m ≡ none = rw (same-eq k key hit) fresh in absurd (cc (sym found ∙ h))
  ]

  open-kept :
      (s : SessionStats D) (endpoint : Endpoint) (ts : TimestampPair) (direction transport : String)
      → IsConsistent s
      → (k : String) (p : PeerStats D) → find k s.peers_by_key ≡ some p
      → find k (open_peer s endpoint ts direction transport).0.peers_by_key ≡ some p
  unfolding open_peer
  open-kept s endpoint ts direction transport c k p h =
      let fresh = fresh_key s (endpoint_to_string endpoint) c in
      rw (emplace_new _ _ s.peers_by_key fresh) (insert_new-kept s.peers_by_key _ k _ p fresh h)

  open-IsFound :
      (s : SessionStats D) (endpoint : Endpoint) (ts : TimestampPair) (direction transport : String)
      → IsConsistent s
      → find (endpoint_to_string endpoint) s.active_peer_key_by_endpoint ≡ none
      → let r = open_peer s endpoint ts direction transport in
        IsFound s r.0 (endpoint_to_string endpoint) r.1
  open-IsFound s endpoint ts direction transport c e =
      let next = open-IsConsistent s endpoint ts direction transport c e in
      let listed : find (endpoint_to_string endpoint)
            (open_peer s endpoint ts direction transport).0.active_peer_key_by_endpoint
          ≡ some (open_peer s endpoint ts direction transport).1 =
        unfold open_peer in
        find-insert_self (endpoint_to_string endpoint) _ s.active_peer_key_by_endpoint in
      record {
        consistent = next;
        is_active = listed;
        present = next.active _ _ listed;
        kept = open-kept s endpoint ts direction transport c;
        answered = λ k listed. absurd (cc (sym e ∙ listed));
      }

  -- In a consistent session the lookup of an endpoint's peer does not throw. It answers with the
  -- key under which the endpoint's active peer stands afterwards, the session stays consistent,
  -- no peer of an earlier connection is overwritten or lost, and an endpoint that had an active peer
  -- keeps it.
  pub ensure-IsFound :
      (s : SessionStats D) (endpoint : Endpoint) (ts : TimestampPair) (direction transport : String)
      → IsConsistent s
      → (r : SessionStats D × String) × (ensure_peer_for_endpoint s endpoint ts direction transport
          ≡ some r)
        × IsFound s r.0 (endpoint_to_string endpoint) r.1
  unfolding ensure_peer_for_endpoint
  ensure-IsFound s endpoint ts direction transport c =
      let seen = insert (endpoint_to_string endpoint) tt s.unique_peer_endpoints in
      let marked : SessionStats D = record s { unique_peer_endpoints = seen } in
      let kept_consistent : IsConsistent marked = record {
        peers_sorted = c.peers_sorted;
        active_sorted = c.active_sorted;
        active = c.active;
        numbered = c.numbered;
        counted = c.counted;
      } in
      elim (Option-cases (find (endpoint_to_string endpoint) s.active_peer_key_by_endpoint)) [
        | inl e ↦
            let f = open-IsFound marked endpoint ts direction transport kept_consistent e in
            (
              open_peer marked endpoint ts direction transport,
              rw (e, ensure_peer_for_endpoint) refl,
              record {
                consistent = f.consistent;
                is_active = f.is_active;
                present = f.present;
                kept = f.kept;
                answered = f.answered;
              },
            )
        | inr (key, e) ↦
            let (p, found, own) = c.active (endpoint_to_string endpoint) key e in
            (
              (marked, key),
              rw (e, found, ensure_peer_for_endpoint) refl,
              record {
                consistent = kept_consistent;
                is_active = e;
                present = (p, found, own);
                kept = λ k q h. h;
                answered = λ k listed. some-injective k key (sym listed ∙ e);
              },
            )
      ]
