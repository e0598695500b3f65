-- ===== src/Peer/Requests.antt =====
-- The requests that a peer has not answered, in `outstanding_requests` of src/peer_stats.cpp, and
-- the latencies of those that it has.
pub mod Balance
use bittorrent_peer_linking.Base.{
  ℕ, suc, ◌+◌, ◌≤◌, ℤ, ◌-ℤ◌, ◌≡◌, refl, arith, sym, ap, String, List, [], ◌∷◌, Option, none, some,
  length, push_back, length-push_back, if◌then◌else◌, Option-cases, Bool-cases, inl, inr,
}
use mathlib.Core.Path.{subst}
use bittorrent_peer_linking.Map.{Map, find, insert, erase}
use bittorrent_peer_linking.Map.Laws.{
  IsSorted, insert-IsSorted, erase-IsSorted, length-insert_new, length-insert_old, length-erase,
  erase-eq_of_none,
}
use bittorrent_peer_linking.Double.{Double}
use bittorrent_peer_linking.Util.{TimestampPair, PeerId, PeerInfo, ns_to_ms}
use bittorrent_peer_linking.Peer.State.{RequestKey, request_key_ord, PeerStats, new_peer}
use bittorrent_peer_linking.Peer.Activity.{
  mark_seen, note_interaction, record_outstanding_depth, flush_incoming_request_burst,
  note_incoming_request_burst, advance_activity_window, note_peer_id,
}
use bittorrent_peer_linking.Peer.Events.{
  PeerRequest, note_connect, note_disconnect, note_request_sent, note_block_response, note_timeout,
  note_drop, note_incoming_request, note_block_uploaded, note_snubbed, note_unsnubbed,
}
use bittorrent_peer_linking.Peer.Snapshot.{
  update_from_snapshot, finalize, reset_outstanding_requests,
}
use bittorrent_peer_linking.Peer.History.{
  PeerCall, sees, identifies, connects, disconnects, sends_request, receives_block, times_out,
  drops, receives_request, uploads_block, snubs, unsnubs, snapshots, finishes_piece, resets,
  finalizes, step, run, finish_piece,
}

-- The requests that are out, and what became of the others.
pub record Exchange (D : Double) : Type 0 where
  pub out : Map RequestKey ℤ
  pub latencies : List D.Real
  pub sent : ℕ
  pub responses : ℕ

abbrev pub key_of : ℤ → ℤ → RequestKey
key_of piece block = record { piece_index = piece; block_index = block }

-- The time of the answer, where the request is out.
abbrev pub next_latencies : {A : Type 0} → List A → Option ℤ → (ℤ → A) → List A
next_latencies latencies none latency = latencies
next_latencies latencies (some sent) latency = push_back latencies (latency sent)

module _ {D : Double} where
  abbrev pub exchange_of : PeerStats D → Exchange D
  exchange_of p = record {
    out = p.outstanding_requests;
    latencies = p.block_latency_ms_samples;
    sent = p.requests_sent;
    responses = p.block_responses_received;
  }

  -- What a call does to the requests that are out, where it is no `finalize`: a request goes out,
  -- a response, a timeout or a drop takes it back, and a disconnection or a reset takes all.
  abbrev pub exchange : Exchange D → TimestampPair × PeerCall → Exchange D
  exchange v (ts, sends_request piece block) = record v {
    out = insert (key_of piece block) ts.mono_ns v.out;
    sent = suc v.sent;
  }
  exchange v (ts, receives_block piece block) = record v {
    out = erase (key_of piece block) v.out;
    latencies =
        next_latencies v.latencies (find (key_of piece block) v.out)
          (λ t. ns_to_ms D (ts.mono_ns -ℤ t));
    responses = suc v.responses;
  }
  exchange v (ts, times_out piece block) = record v { out = erase (key_of piece block) v.out }
  exchange v (ts, drops piece block) = record v { out = erase (key_of piece block) v.out }
  exchange v (ts, disconnects) = record v { out = [] }
  exchange v (ts, resets) = record v { out = [] }
  exchange v _ = v

  pub send-exchange :
      (p : PeerStats D) (ts : TimestampPair) (piece block : ℤ)
      → exchange_of (note_request_sent p ts piece block)
        ≡ exchange (exchange_of p) (ts, sends_request piece block)
  unfolding note_request_sent mark_seen note_interaction record_outstanding_depth
  send-exchange p ts piece block = refl

  pub response-exchange :
      (p : PeerStats D) (ts : TimestampPair) (piece block : ℤ)
      → exchange_of (note_block_response p ts piece block)
        ≡ exchange (exchange_of p) (ts, receives_block piece block)
  unfolding note_block_response mark_seen note_interaction record_outstanding_depth
  response-exchange p ts piece block =
      ground (arith, erase-eq_of_none (key_of piece block) p.outstanding_requests)

  pub incoming-exchange :
      (p : PeerStats D) (ts : TimestampPair) (request : PeerRequest)
      → exchange_of (note_incoming_request p ts request) ≡ exchange_of p
  unfolding note_incoming_request mark_seen note_interaction note_incoming_request_burst
      flush_incoming_request_burst
  incoming-exchange p ts request = ground arith

  pub upload-exchange :
      (p : PeerStats D) (ts : TimestampPair) (piece block : ℤ)
      → exchange_of (note_block_uploaded p ts piece block) ≡ exchange_of p
  unfolding note_block_uploaded mark_seen note_interaction
  upload-exchange p ts piece block = ground arith

  pub snapshot-exchange :
      (p : PeerStats D) (ts : TimestampPair) (peer : PeerInfo) (interval : ℤ)
      → exchange_of (update_from_snapshot p peer ts interval) ≡ exchange_of p
  unfolding update_from_snapshot note_interaction mark_seen note_peer_id record_outstanding_depth
      advance_activity_window
  snapshot-exchange p ts peer interval = ground arith

  pub peer_id-exchange :
      (p : PeerStats D) (pid : PeerId) → exchange_of (note_peer_id p pid) ≡ exchange_of p
  unfolding note_peer_id
  peer_id-exchange p pid = ground arith

  pub disconnect-exchange :
      (p : PeerStats D) (ts : TimestampPair)
      → exchange_of (note_disconnect p ts) ≡ record (exchange_of p) { out = [] }
  unfolding note_disconnect mark_seen record_outstanding_depth advance_activity_window
      flush_incoming_request_burst
  disconnect-exchange p ts = ground arith

  pub finalize-exchange :
      (p : PeerStats D) (ts : TimestampPair)
      → exchange_of (finalize p ts)
        ≡ (if p.active_connection then record (exchange_of p) { out = [] } else exchange_of p)
  unfolding finalize note_disconnect mark_seen record_outstanding_depth advance_activity_window
      flush_incoming_request_burst
  finalize-exchange p ts = ground arith
