-- ===== src/Peer/Requests/Balance.antt =====
-- The balance of the requests of src/peer_stats.cpp: how many are out, answered and sent.
use bittorrent_peer_linking.Base.{
  ℕ, suc, ◌+◌, ◌≤◌, ℤ, arith, ap, String, List, [], ◌∷◌, length, length-push_back, Option-cases,
  Bool-cases, inl, inr,
}
use bittorrent_peer_linking.Map.{Map, find, insert, erase}
use bittorrent_peer_linking.Map.Laws.{
  IsSorted, insert-IsSorted, erase-IsSorted, length-insert_new, length-insert_old, length-erase,
  erase-eq_of_none,
}
use bittorrent_peer_linking.Double.{Double}
use bittorrent_peer_linking.Util.{TimestampPair}
use bittorrent_peer_linking.Peer.State.{RequestKey, request_key_ord, PeerStats, new_peer}
use bittorrent_peer_linking.Peer.Activity.{
  mark_seen, note_interaction, record_outstanding_depth, note_peer_id,
}
use bittorrent_peer_linking.Peer.Events.{
  note_connect, note_timeout, note_drop, note_snubbed, note_unsnubbed,
}
use bittorrent_peer_linking.Peer.Snapshot.{finalize, reset_outstanding_requests}
use bittorrent_peer_linking.Peer.History.{
  PeerCall, sees, identifies, connects, disconnects, sends_request, receives_block, times_out,
  drops, receives_request, uploads_block, snubs, unsnubs, snapshots, finishes_piece, resets,
  finalizes, step, run, finish_piece,
}
use bittorrent_peer_linking.Peer.Requests.{
  Exchange, exchange_of, exchange, key_of, next_latencies, send-exchange, response-exchange,
  incoming-exchange, upload-exchange, snapshot-exchange, peer_id-exchange, disconnect-exchange,
  finalize-exchange,
}

send-length :
    (key : RequestKey) (t : ℤ) (out : Map RequestKey ℤ)
    → IsSorted out
    → length (insert key t out) ≤ suc (length out)
send-length key t out s = elim (Option-cases (find key out)) [
  | inl e ↦ omega (arith, length-insert_new key t out e)
  | inr (u, e) ↦ omega (arith, length-insert_old key t u out s e)
]

take-length :
    (key : RequestKey) (out : Map RequestKey ℤ) → IsSorted out → length (erase key out) ≤ length out
take-length key out s = elim (Option-cases (find key out)) [
  | inl e ↦ omega (arith, ap length (erase-eq_of_none key out e))
  | inr (u, e) ↦ omega (arith, length-erase key u out s e)
]

module _ {D : Double} where
  pub record IsBalanced (v : Exchange D) : Type 0 where
    pub sorted : IsSorted v.out
    -- A request is out, or answered, or neither any more.
    pub balance : length v.out + length v.latencies ≤ v.sent
    pub answered : length v.latencies ≤ v.responses

  cleared-IsBalanced : (v : Exchange D) → IsBalanced v → IsBalanced (record v { out = [] })
  cleared-IsBalanced v h = record {
    sorted = tt;
    balance = omega (arith, h.balance);
    answered = h.answered;
  }

  taken-IsBalanced :
      (v : Exchange D) (key : RequestKey)
      → IsBalanced v
      → IsBalanced (record v { out = erase key v.out })
  taken-IsBalanced v key h = record {
    sorted = erase-IsSorted key v.out h.sorted;
    balance = omega (arith, h.balance, take-length key v.out h.sorted);
    answered = h.answered;
  }

  sent-IsBalanced :
      (v : Exchange D) (ts : TimestampPair) (piece block : ℤ)
      → IsBalanced v
      → IsBalanced (exchange v (ts, sends_request piece block))
  sent-IsBalanced v ts piece block h = record {
    sorted = insert-IsSorted (key_of piece block) ts.mono_ns v.out h.sorted;
    balance = omega (arith, h.balance, send-length (key_of piece block) ts.mono_ns v.out h.sorted);
    answered = h.answered;
  }

  answered-IsBalanced :
      (v : Exchange D) (key : RequestKey) (latency : ℤ → D.Real)
      → IsBalanced v
      → IsBalanced (record {
        out = erase key v.out;
        latencies = next_latencies v.latencies (find key v.out) latency;
        sent = v.sent;
        responses = suc v.responses;
      })
  answered-IsBalanced v key latency h = elim (Option-cases (find key v.out)) [
    | inl e ↦ rw e (record {
      sorted = erase-IsSorted key v.out h.sorted;
      balance = omega (arith, h.balance, take-length key v.out h.sorted);
      answered = omega (arith, h.answered);
    })
    | inr (t, e) ↦ rw e (record {
      sorted = erase-IsSorted key v.out h.sorted;
      balance = omega (
        arith,
        h.balance,
        length-erase key t v.out h.sorted e,
        length-push_back v.latencies (latency t),
      );
      answered = omega (arith, h.answered, length-push_back v.latencies (latency t));
    })
  ]

  finalize-IsBalanced :
      (p : PeerStats D) (ts : TimestampPair)
      → IsBalanced (exchange_of p)
      → IsBalanced (exchange_of (finalize p ts))
  finalize-IsBalanced p ts h = rw (finalize-exchange p ts) (elim (Bool-cases p.active_connection) [
    | inl e ↦ simp e (cleared-IsBalanced (exchange_of p) h)
    | inr e ↦ simp e h
  ])

  step-IsBalanced :
      (p : PeerStats D) (ts : TimestampPair) (call : PeerCall)
      → IsBalanced (exchange_of p)
      → IsBalanced (exchange_of (step p (ts, call)))
  unfolding step mark_seen note_interaction note_peer_id note_connect note_timeout note_drop
      note_snubbed note_unsnubbed finish_piece reset_outstanding_requests record_outstanding_depth
  step-IsBalanced p ts sees h = h
  step-IsBalanced p ts (identifies pid) h = rw (peer_id-exchange p pid) h
  step-IsBalanced p ts (connects direction transport alert) h = h
  step-IsBalanced p ts disconnects h =
      rw (disconnect-exchange p ts) (cleared-IsBalanced (exchange_of p) h)
  step-IsBalanced p ts (sends_request piece block) h =
      rw (send-exchange p ts piece block) (sent-IsBalanced (exchange_of p) ts piece block h)
  step-IsBalanced p ts (receives_block piece block) h =
      rw (response-exchange p ts piece block)
        (answered-IsBalanced (exchange_of p) (key_of piece block) _ h)
  step-IsBalanced p ts (times_out piece block) h =
      taken-IsBalanced (exchange_of p) (key_of piece block) h
  step-IsBalanced p ts (drops piece block) h =
      taken-IsBalanced (exchange_of p) (key_of piece block) h
  step-IsBalanced p ts (receives_request request) h = rw (incoming-exchange p ts request) h
  step-IsBalanced p ts (uploads_block piece block) h = rw (upload-exchange p ts piece block) h
  step-IsBalanced p ts snubs h = h
  step-IsBalanced p ts unsnubs h = h
  step-IsBalanced p ts (snapshots peer interval) h = rw (snapshot-exchange p ts peer interval) h
  step-IsBalanced p ts finishes_piece h = h
  step-IsBalanced p ts resets h = cleared-IsBalanced (exchange_of p) h
  step-IsBalanced p ts finalizes h = finalize-IsBalanced p ts h

  history-IsBalanced :
      (p : PeerStats D) (calls : List (TimestampPair × PeerCall))
      → IsBalanced (exchange_of p)
      → IsBalanced (exchange_of (run p calls))
  unfolding run
  history-IsBalanced p [] h = h
  history-IsBalanced p ((ts, call) ∷ calls) h =
      history-IsBalanced (step p (ts, call)) calls (step-IsBalanced p ts call h)

-- After any calls on a new peer, the requests that are out and the latency samples are together
-- no more than the requests sent, and the latency samples are no more than the block responses.
pub run-IsBalanced :
    (D : Double) (peer_key endpoint_key peer_ip : String) (peer_port : ℕ) (ts : TimestampPair)
    (direction transport : String) (calls : List (TimestampPair × PeerCall))
    → IsBalanced (
        exchange_of
          (run (new_peer D peer_key endpoint_key peer_ip peer_port ts direction transport) calls))
unfolding new_peer
run-IsBalanced D peer_key endpoint_key peer_ip peer_port ts direction transport calls =
    history-IsBalanced (new_peer D peer_key endpoint_key peer_ip peer_port ts direction transport)
      calls (record { sorted = tt; balance = omega arith; answered = omega arith })
