-- ===== src/Peer/Queues.antt =====
-- The requests of a peer that wait for their upload: `pending_upload_requests` of
-- src/peer_stats.cpp holds a queue of times for each block.
pub mod Runs
use bittorrent_peer_linking.Base.{
  ℤ, Bool, true, false, ◌≡◌, refl, arith, sym, ap, ◌∙◌, List, [], ◌∷◌, none, some, push_back,
  if◌then◌else◌, Bool-cases, inl, inr,
}
use bittorrent_peer_linking.Map.{Map, find, insert, erase, same}
use bittorrent_peer_linking.Map.Laws.{find-insert, find-erase, same-eq}
use bittorrent_peer_linking.Double.{Double}
use bittorrent_peer_linking.Util.{TimestampPair, PeerId, PeerInfo, ns_to_ms}
use bittorrent_peer_linking.Peer.State.{RequestKey, request_key_ord, PeerStats, new_peer}
use bittorrent_peer_linking.Peer.Activity.{
  mark_seen, note_interaction, record_outstanding_depth, flush_incoming_request_burst,
  note_incoming_request_burst, advance_activity_window, note_peer_id,
}
use bittorrent_peer_linking.Peer.Events.{
  PeerRequest, note_connect, note_disconnect, note_request_sent, note_block_response, note_timeout,
  note_drop, note_incoming_request, note_block_uploaded, queue_at, block_index_from_request,
  note_snubbed, note_unsnubbed,
}
use bittorrent_peer_linking.Peer.Snapshot.{
  update_from_snapshot, finalize, reset_outstanding_requests,
}
use bittorrent_peer_linking.Peer.History.{
  PeerCall, run, sees, identifies, connects, disconnects, sends_request, receives_block, times_out,
  drops, receives_request, uploads_block, snubs, unsnubs, snapshots, finishes_piece, resets,
  finalizes, step, run, finish_piece,
}

-- What one block sees of a peer: whether the connection is open, and the block's queue.
pub record Waiting : Type 0 where
  pub is_open : Bool
  pub queue : List ℤ

abbrev pub rest_of : List ℤ → List ℤ
rest_of [] = []
rest_of (t ∷ queue) = queue

abbrev pub upload_key : ℤ → ℤ → RequestKey
upload_key piece block = record { piece_index = piece; block_index = block }

abbrev pub requested_key : PeerRequest → RequestKey
requested_key request = upload_key request.piece (block_index_from_request request)

-- A queue of one block, which is independent of those of the others: a request for the block joins
-- it at its end, an upload of the block takes the request at its front, and a disconnection, a
-- reset and the end of an open connection empty it.
abbrev pub serve : RequestKey → Waiting → TimestampPair × PeerCall → Waiting
serve key w (ts, receives_request request) =
    if same key (requested_key request)
    then record w { queue = push_back w.queue ts.mono_ns }
    else w
serve key w (ts, uploads_block piece block) =
    if same key (upload_key piece block) then record w { queue = rest_of w.queue } else w
serve key w (ts, connects direction transport alert) = record w { is_open = true }
serve key w (ts, disconnects) = record { is_open = false; queue = [] }
serve key w (ts, resets) = record w { queue = [] }
serve key w (ts, finalizes) = if w.is_open then record { is_open = false; queue = [] } else w
serve key w _ = w

abbrev pub serve_all : RequestKey → Waiting → List (TimestampPair × PeerCall) → Waiting
serve_all key w [] = w
serve_all key w (call ∷ calls) = serve_all key (serve key w call) calls

queue_at-insert :
    (key k : RequestKey) (queue : List ℤ) (m : Map RequestKey (List ℤ))
    → queue_at key (insert k queue m) ≡ (if same key k then queue else queue_at key m)
unfolding queue_at
queue_at-insert key k queue m = ground (arith, find-insert key k queue m)

queue_at-erase :
    (key k : RequestKey) (m : Map RequestKey (List ℤ))
    → queue_at key (erase k m) ≡ (if same key k then [] else queue_at key m)
unfolding queue_at
queue_at-erase key k m = ground (arith, find-erase key k m)

-- The queues after an upload of the block `k`.
abbrev pub served : RequestKey → List ℤ → Map RequestKey (List ℤ) → Map RequestKey (List ℤ)
served k [] m = m
served k (t ∷ []) m = erase k m
served k (t ∷ u ∷ rest) m = insert k (u ∷ rest) m

pub queue_at-pushed :
    (key k : RequestKey) (t : ℤ) (m : Map RequestKey (List ℤ))
    → queue_at key (insert k (push_back (queue_at k m) t) m)
      ≡ (if same key k then push_back (queue_at key m) t else queue_at key m)
queue_at-pushed key k t m = elim (Bool-cases (same key k)) [
  | inl h ↦
      queue_at-insert key k (push_back (queue_at k m) t) m
      ∙ rw h (ap (λ x. push_back (queue_at x m) t) (sym (same-eq key k h)))
  | inr h ↦ queue_at-insert key k (push_back (queue_at k m) t) m ∙ rw h
]

taken :
    (key k : RequestKey) (queue : List ℤ) (m : Map RequestKey (List ℤ))
    → queue_at k m ≡ queue
    → queue_at key (served k queue m) ≡ (if same key k then rest_of queue else queue_at key m)
taken key k [] m e = elim (Bool-cases (same key k)) [
  | inl h ↦ rw h (ap (λ x. queue_at x m) (same-eq key k h) ∙ e)
  | inr h ↦ rw h
]
taken key k (t ∷ []) m e = queue_at-erase key k m
taken key k (t ∷ u ∷ rest) m e = queue_at-insert key k (u ∷ rest) m

pub queue_at-served :
    (key k : RequestKey) (m : Map RequestKey (List ℤ))
    → queue_at key (served k (queue_at k m) m)
      ≡ (if same key k then rest_of (queue_at key m) else queue_at key m)
queue_at-served key k m = elim (Bool-cases (same key k)) [
  | inl h ↦
      taken key k (queue_at k m) m refl
      ∙ rw h (ap (λ x. rest_of (queue_at x m)) (sym (same-eq key k h)))
  | inr h ↦ taken key k (queue_at k m) m refl ∙ rw h
]
