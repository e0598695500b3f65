-- ===== src/Session/Consistency.antt =====
-- How the maps of a session of src/peer_stats.cpp fit together: what `active_peer_key_by_endpoint`
-- leads to in `peers_by_key`, and the sequence numbers that the keys of peers hold.
pub mod Opening
pub mod Start
pub mod Calls
pub mod Endings
use mathlib.Core.Path.{subst}
use mathlib.Core.Option
use mathlib.Core.Option.{some-injective}
use bittorrent_peer_linking.Base.{
  ℕ, suc, ◌+◌, ◌≤◌, ◌<◌, ◌≡◌, ◌≢◌, ◌⊎◌, inl, inr, refl, sym, ap, ◌∙◌, arith, Bool, true, false,
  String, Option, none, some, [], length, if◌then◌else◌, Bool-cases, Option-cases,
}
use bittorrent_peer_linking.Map.{Map, find, insert, erase, emplace, same, update_at}
use bittorrent_peer_linking.Map.Laws.{
  IsSorted, find-insert, find-erase, insert-IsSorted, erase-IsSorted, length-insert_new,
  length-insert_old, length-erase, same-eq, same_of_eq, same_refl, find-update_at,
  update_at-IsSorted, length-update_at,
}
use bittorrent_peer_linking.Keys.{string_ord, peer_key_for, peer_key_for_inj}
use bittorrent_peer_linking.Double.{Double}
use bittorrent_peer_linking.Util.{TimestampPair, Endpoint, endpoint_to_string}
use bittorrent_peer_linking.Peer.State.{PeerStats, new_peer}
use bittorrent_peer_linking.Peer.Identity.{Identity, identity}
use bittorrent_peer_linking.Session.State.{SessionStats}
use bittorrent_peer_linking.Session.Peers.{
  sequence_at, update_peer, open_peer, ensure_peer_for_endpoint,
}

module _ {D : Double} where
  -- A peer of the endpoint stands under the key.
  abbrev pub HasPeer : Map String (PeerStats D) → String → String → Type 0
  HasPeer peers key endpoint =
      (p : PeerStats D) × (find key peers ≡ some p) × (p.endpoint_key ≡ endpoint)

  -- The peer's key is its endpoint's key with a sequence number that was given out.
  abbrev pub IsNumbered : Map String ℕ → String → PeerStats D → Type 0
  IsNumbered sequences key p =
      (n : ℕ) × (p.peer_key ≡ key)
      × (key ≡ peer_key_for p.endpoint_key n)
      × (n ≤ sequence_at p.endpoint_key sequences)

  pub record AreConsistent (peers : Map String (PeerStats D)) (actives : Map String String)
      (sequences : Map String ℕ) (disconnects : ℕ) : Type 0 where
    pub peers_sorted : IsSorted peers
    pub active_sorted : IsSorted actives
    pub active :
        (endpoint key : String) → find endpoint actives ≡ some key → HasPeer peers key endpoint
    pub numbered :
        (key : String) (p : PeerStats D) → find key peers ≡ some p → IsNumbered sequences key p
    pub counted : length peers ≡ length actives + disconnects

  abbrev pub IsConsistent : SessionStats D → Type 0
  IsConsistent s =
      AreConsistent s.peers_by_key s.active_peer_key_by_endpoint s.connect_sequence_by_endpoint
        s.disconnect_count

  pub endpoint_kept :
      (f : PeerStats D → PeerStats D) (p : PeerStats D)
      → identity (f p) ≡ identity p
      → (f p).endpoint_key ≡ p.endpoint_key
  endpoint_kept f p e = ap (λ (v : Identity). v.endpoint) e

  -- A write that keeps the endpoint keeps who has which peer.
  pub update-HasPeer :
      (m : Map String (PeerStats D)) (key k endpoint : String) (f : PeerStats D → PeerStats D)
      → ((p : PeerStats D) → identity (f p) ≡ identity p)
      → HasPeer m k endpoint
      → HasPeer (update_at key f m) k endpoint
  update-HasPeer m key k endpoint f keeps (p, found, own) = elim (Bool-cases (same k key)) [
    | inr other ↦ (p, find-update_at k key f m ∙ rw other found, own)
    | inl hit ↦ (f p, find-update_at k key f m ∙ rw (hit, found), endpoint_kept f p (keeps p) ∙ own)
  ]

  pub renumber :
      (sequences : Map String ℕ) (k : String) (f : PeerStats D → PeerStats D) (p : PeerStats D)
      → identity (f p) ≡ identity p
      → IsNumbered sequences k p
      → IsNumbered sequences k (f p)
  renumber sequences k f p e (n, a, b, h) =
      let d = endpoint_kept f p e in (n, ap (λ (v : Identity). v.peer) e ∙ a, rw d b, rw d h)

  update-IsNumbered :
      (m : Map String (PeerStats D)) (sequences : Map String ℕ) (key : String)
      (f : PeerStats D → PeerStats D)
      → ((p : PeerStats D) → identity (f p) ≡ identity p)
      → ((k : String) (p : PeerStats D) → find k m ≡ some p → IsNumbered sequences k p)
      → (k : String) (q : PeerStats D) → find k (update_at key f m) ≡ some q
      → IsNumbered sequences k q
  update-IsNumbered m sequences key f keeps old k q h = elim (Bool-cases (same k key)) [
    | inr other ↦
        let before : find k m ≡ some q = sym (find-update_at k key f m ∙ rw other) ∙ h in
        old k q before
    | inl hit ↦
        let written : Option.map f (find k m) ≡ some q =
          sym (find-update_at k key f m ∙ rw hit) ∙ h in
        elim (Option-cases (find k m)) [
          | inl e ↦ absurd (cc (sym (rw e at written)))
          | inr (p, e) ↦
              subst (IsNumbered sequences k) (some-injective (f p) q (rw e at written))
                (renumber sequences k f p (keeps p) (old k p e))
        ]
  ]

  pub insert-IsNumbered :
      (m : Map String (PeerStats D)) (sequences : Map String ℕ) (key : String) (q : PeerStats D)
      → IsNumbered sequences key q
      → ((k : String) (p : PeerStats D) → find k m ≡ some p → IsNumbered sequences k p)
      → (k : String) (p : PeerStats D) → find k (insert key q m) ≡ some p
      → IsNumbered sequences k p
  insert-IsNumbered m sequences key q new old k p h = elim (Bool-cases (same k key)) [
    | inr other ↦ old k p (sym (find-insert k key q m ∙ rw other) ∙ h)
    | inl hit ↦
        let found : find k (insert key q m) ≡ some q = find-insert k key q m ∙ rw hit in
        let written : q ≡ p = some-injective q p (sym found ∙ h) in
        subst (IsNumbered sequences k) written
          (subst (λ x. IsNumbered sequences x q) (sym (same-eq k key hit)) new)
  ]

  -- A key with the next sequence number is new.
  pub fresh_key :
      (s : SessionStats D) (endpoint : String)
      → IsConsistent s
      → find
          (peer_key_for endpoint (suc (sequence_at endpoint s.connect_sequence_by_endpoint)))
          s.peers_by_key
        ≡ none
  fresh_key s endpoint c =
      let key = peer_key_for endpoint (suc (sequence_at endpoint s.connect_sequence_by_endpoint)) in
      elim (Option-cases (find key s.peers_by_key)) [
        | inl e ↦ e
        | inr (p, e) ↦
            let (n, _, q, le) = c.numbered key p e in
            let (d, m) = peer_key_for_inj endpoint p.endpoint_key _ n q in
            absurd (stale n (sequence_at endpoint s.connect_sequence_by_endpoint) m (rw d le))
      ]
    where
      stale : (n last : ℕ) → suc last ≡ n → n ≤ last → ⊥
      stale n last e h = omega arith

  -- A write to a peer that keeps its identity.
  pub update-IsConsistent :
      (s : SessionStats D) (key : String) (f : PeerStats D → PeerStats D)
      → ((p : PeerStats D) → identity (f p) ≡ identity p)
      → IsConsistent s
      → IsConsistent (update_peer key f s)
  unfolding update_peer
  update-IsConsistent s key f keeps c = record {
    peers_sorted = update_at-IsSorted key f s.peers_by_key c.peers_sorted;
    active_sorted = c.active_sorted;
    active = λ endpoint k h.
        update-HasPeer s.peers_by_key key k endpoint f keeps (c.active endpoint k h);
    numbered =
        update-IsNumbered s.peers_by_key s.connect_sequence_by_endpoint key f keeps c.numbered;
    counted = length-update_at key f s.peers_by_key c.peers_sorted ∙ c.counted;
  }
