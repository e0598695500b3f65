-- ===== src/Alerts/Attribution.antt =====
-- Finished pieces of src/main.cpp and src/peer_stats.cpp: which peer gets a piece for its own.
use mathlib.Core.Option
use bittorrent_peer_linking.Base.{
  ℤ, ◌≡◌, refl, ◌∙◌, arith, true, String, Option, some, if◌then◌else◌, Bool-cases, inl, inr,
}
use bittorrent_peer_linking.Map.{Map, find, insert, same, update_at}
use bittorrent_peer_linking.Map.Laws.{find-insert, find-update_at, same_refl, same-eq}
use bittorrent_peer_linking.Keys.{string_ord, int_ord}
use bittorrent_peer_linking.Double.{Double}
use bittorrent_peer_linking.Peer.State.{PeerStats}
use bittorrent_peer_linking.Peer.History.{finish_piece}
use bittorrent_peer_linking.Session.State.{SessionStats}
use bittorrent_peer_linking.Session.Peers.{update_peer}
use bittorrent_peer_linking.Session.Totals.{
  note_piece_finished, credit_piece, state_implies_network_piece_completion,
}
use bittorrent_peer_linking.Session.Consistency.{IsConsistent}
use bittorrent_peer_linking.Alerts.Handlers.{credit_block}

mapped :
    {V : Type 0} (k key : String) (f : V → V) (v : V) (m : Map String V)
    → find key m ≡ some v
    → (if same k key then Option.map f (find k m) else find k m)
      ≡ (if same k key then some (f v) else find k m)
mapped k key f v m e = elim (Bool-cases (same k key)) [
  | inl h ↦ rw h (rw (same-eq k key h, e) refl)
  | inr h ↦ rw h
]

module _ {D : Double} where
  -- The peer that the session holds for a piece.
  abbrev pub owner : SessionStats D → ℤ → Option String
  owner s piece = find piece s.last_piece_peer_key

  credited-owner :
      (s : SessionStats D) (key : String) (peer : PeerStats D) (piece : ℤ)
      → IsConsistent s
      → find key s.peers_by_key ≡ some peer
      → credit_block piece key s
        ≡ record s { last_piece_peer_key = insert piece key s.last_piece_peer_key }
  unfolding credit_block
  credited-owner s key peer piece c found =
      let (n, own, _, _) = c.numbered key peer found in rw (found, credit_block, own)

  finished-peers :
      (s : SessionStats D) (key : String) (piece : ℤ)
      → state_implies_network_piece_completion s.latest_torrent_state ≡ true
      → owner s piece ≡ some key
      → (note_piece_finished s piece).peers_by_key ≡ update_at key finish_piece s.peers_by_key
  unfolding note_piece_finished credit_piece update_peer finish_piece
  finished-peers s key piece network o = ground (arith, network, o)

  -- In a consistent session whose torrent is past its checks, a block of a piece that comes from a
  -- peer, and then the end of that piece, count one finished piece for this peer and leave the
  -- statistics of every other peer as they are.
  pub credit-finishes :
      (s : SessionStats D) (key k : String) (peer : PeerStats D) (piece : ℤ)
      → IsConsistent s
      → find key s.peers_by_key ≡ some peer
      → state_implies_network_piece_completion s.latest_torrent_state ≡ true
      → find k (note_piece_finished (credit_block piece key s) piece).peers_by_key
        ≡ (if same k key then some (finish_piece peer) else find k s.peers_by_key)
  credit-finishes s key k peer piece c found network =
      let held : SessionStats D = record s {
        last_piece_peer_key = insert piece key s.last_piece_peer_key;
      } in
      let written =
        finished-peers held key piece network
          (find-insert piece piece key s.last_piece_peer_key ∙ rw (same_refl piece)) in
      rw (credited-owner s key peer piece c found, written)
        (find-update_at k key finish_piece s.peers_by_key
          ∙ mapped k key finish_piece peer s.peers_by_key found)
