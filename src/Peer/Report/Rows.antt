-- ===== src/Peer/Report/Rows.antt =====
-- The rows of the connections in the summary of src/peer_stats.cpp.
use bittorrent_peer_linking.Base.{◌≡◌, refl, String, some, [], ◌∷◌}
use bittorrent_peer_linking.Double.{Double}
use bittorrent_peer_linking.Map.{Map, find}
use bittorrent_peer_linking.Keys.{string_ord}
use bittorrent_peer_linking.Map.Laws.{IsSorted, find-tail, same_refl}
use bittorrent_peer_linking.Json.{
  Items, nil, cons, array, string, value_find, find_member, members_of,
}
use bittorrent_peer_linking.Base.Ensures.{Ensures, bind-Ensures, some-Ensures}
use bittorrent_peer_linking.Peer.State.{PeerStats}
use bittorrent_peer_linking.Peer.Report.{
  summaries_of, identity_rows, row_of, to_json, rows_of, peer_summaries_json,
}
use bittorrent_peer_linking.Session.State.{SessionStats}
use bittorrent_peer_linking.Session.Consistency.{IsConsistent}

module _ {D : Double} where
  -- One row for each connection, in the order of the map, under the key that the map has for it.
  abbrev pub AreRows : Map String (PeerStats D) → Items D → Type 0
  AreRows [] nil = Unit
  AreRows [] (cons row rows) = ⊥
  AreRows ((key, peer) ∷ peers) nil = ⊥
  AreRows ((key, peer) ∷ peers) (cons row rows) =
      (value_find row "peer_key" ≡ some (string key)) × AreRows peers rows

  -- Every connection has the key under which it stands.
  AreKeyed : Map String (PeerStats D) → Type 0
  AreKeyed [] = Unit
  AreKeyed ((key, peer) ∷ peers) = (peer.peer_key ≡ key) × AreKeyed peers

  sorted-AreKeyed :
      (peers : Map String (PeerStats D))
      → IsSorted peers
      → ((k : String) (p : PeerStats D) → find k peers ≡ some p → p.peer_key ≡ k)
      → AreKeyed peers
  unfolding AreKeyed find
  sorted-AreKeyed [] s h = tt
  sorted-AreKeyed ((key, peer) ∷ peers) (above, s) h = (
    h key peer (rw (same_refl key) refl),
    sorted-AreKeyed peers s (λ k p e. h k p (find-tail key k peer p peers above e)),
  )

module _ (D : Double) where
  to_json-Ensures :
      (p : PeerStats D)
      → Ensures (to_json D p) (λ row. value_find row "peer_key" ≡ some (string p.peer_key))
  unfolding to_json row_of identity_rows value_find find_member members_of
  to_json-Ensures p = bind-Ensures (summaries_of D p) _ (λ r e. some-Ensures _ (row_of D p r) refl)

  rows-Ensures :
      (peers : Map String (PeerStats D))
      → AreKeyed peers
      → Ensures (rows_of D peers) (AreRows peers)
  unfolding rows_of AreKeyed
  rows-Ensures [] h = some-Ensures _ nil tt
  rows-Ensures ((key, peer) ∷ peers) (same_key, h) = bind-Ensures (to_json D peer) _ (λ row e.
      bind-Ensures (rows_of D peers) _ (λ rows f.
        some-Ensures _ (cons row rows)
          (rw (← same_key) (to_json-Ensures peer row e), rows-Ensures peers h rows f)))

  -- The report of the peers of a consistent session has one row for each, in the order of their keys
  -- and under them.
  pub summaries-AreRows :
      (s : SessionStats D)
      → IsConsistent s
      → Ensures
          (peer_summaries_json D s)
          (λ report. (rows : Items D) × (report ≡ array rows) × AreRows s.peers_by_key rows)
  unfolding peer_summaries_json
  summaries-AreRows s c =
      let keyed = sorted-AreKeyed s.peers_by_key c.peers_sorted (λ k p e. (c.numbered k p e).1) in
      bind-Ensures (rows_of D s.peers_by_key) _ (λ rows e.
        some-Ensures _ (array rows) (rows, refl, rows-Ensures s.peers_by_key keyed rows e))
