-- ===== src/Tests/Peers.antt =====
-- A peer of src/peer_stats.cpp that connects, exchanges requests and leaves.
use bittorrent_peer_linking.Base.{ℕ, pos, ◌≡◌, refl, arith, String, List, [], ◌∷◌, true}
use bittorrent_peer_linking.Peer.Queues.{serve_all, upload_key}
use bittorrent_peer_linking.Peer.Queues.Runs.{waiting_of, waiting_of-run}
use bittorrent_peer_linking.Keys.{string_ord, peer_key_for_inj}
use bittorrent_peer_linking.Util.{TimestampPair}
use bittorrent_peer_linking.Peer.State.{PeerStats, new_peer}
use bittorrent_peer_linking.Peer.History.{
  PeerCall, connects, disconnects, sends_request, receives_block, receives_request, snapshots,
  uploads_block, run,
}
use bittorrent_peer_linking.Peer.Bursts.{IsAccounted}
use bittorrent_peer_linking.Peer.Bursts.Accounts.{run-IsAccounted}
use bittorrent_peer_linking.Peer.Window.Coverage.{Covers, end_of, run-Covers}
use bittorrent_peer_linking.Peer.Chokes.{AreCounted, run-AreCounted}
use bittorrent_peer_linking.Peer.Gaps.{IsGapped, rhythm_of, run-IsGapped}
use bittorrent_peer_linking.Peer.Requests.{exchange_of}
use bittorrent_peer_linking.Peer.Requests.Balance.{IsBalanced, run-IsBalanced}
use bittorrent_peer_linking.Tests.{whole, at_ms, info}

abbrev calls : List (TimestampPair × PeerCall)
calls =
    (at_ms 2, connects "outbound" "tcp" true)
    ∷ (at_ms 3, sends_request (pos 0) (pos 0))
    ∷ (at_ms 5, receives_block (pos 0) (pos 0))
    ∷ (at_ms 6, receives_request (record { piece = pos 1; start = pos 0; length = pos 16384 }))
    ∷ (at_ms 8, uploads_block (pos 1) (pos 0))
    ∷ (at_ms 9, disconnects)
    ∷ []

abbrev peer : PeerStats whole
peer =
    new_peer whole "10.0.0.1:6881#1" "10.0.0.1:6881" "10.0.0.1" 6881 (at_ms 1) "unknown" "unknown"

run-Covers_example : Covers (pos 1000000) (end_of (pos 1000000) calls) (run peer calls)
run-Covers_example =
    run-Covers whole "10.0.0.1:6881#1" "10.0.0.1:6881" "10.0.0.1" 6881 (at_ms 1) "unknown" "unknown"
      calls
      (omega arith, (omega arith, (omega arith, (omega arith, (omega arith, (omega arith, tt))))))

run-IsAccounted_example : IsAccounted (run peer calls)
run-IsAccounted_example =
    run-IsAccounted whole "10.0.0.1:6881#1" "10.0.0.1:6881" "10.0.0.1" 6881 (at_ms 1) "unknown"
      "unknown" calls

run-IsBalanced_example : IsBalanced (exchange_of (run peer calls))
run-IsBalanced_example =
    run-IsBalanced whole "10.0.0.1:6881#1" "10.0.0.1:6881" "10.0.0.1" 6881 (at_ms 1) "unknown"
      "unknown" calls

run-IsGapped_example : IsGapped (rhythm_of (run peer calls))
run-IsGapped_example =
    run-IsGapped whole "10.0.0.1:6881#1" "10.0.0.1:6881" "10.0.0.1" 6881 (at_ms 1) "unknown"
      "unknown" calls

abbrev home_key : String
home_key = "10.0.0.1:6881"

abbrev third : ℕ
third = 3

peer_key_for_inj_example : (home_key ≡ home_key) × (third ≡ third)
peer_key_for_inj_example = peer_key_for_inj home_key home_key third third refl

waiting_of-run_example :
    waiting_of (upload_key (pos 1) (pos 0)) (run peer calls)
    ≡ serve_all (upload_key (pos 1) (pos 0)) (waiting_of (upload_key (pos 1) (pos 0)) peer) calls
waiting_of-run_example = waiting_of-run (upload_key (pos 1) (pos 0)) peer calls

abbrev observed_calls : List (TimestampPair × PeerCall)
observed_calls =
    (at_ms 2, snapshots info (pos 1000))
    ∷ (at_ms 3, snapshots (record info { flags = λ flag. true }) (pos 1000))
    ∷ (at_ms 4, snapshots info (pos 1000))
    ∷ []

run-AreCounted_example : AreCounted (run peer observed_calls) observed_calls
run-AreCounted_example =
    run-AreCounted whole "10.0.0.1:6881#1" "10.0.0.1:6881" "10.0.0.1" 6881 (at_ms 1) "unknown"
      "unknown" observed_calls
