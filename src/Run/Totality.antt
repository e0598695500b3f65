-- ===== src/Run/Totality.antt =====
-- Runs of a session of src/main.cpp, and the events that they write.
use bittorrent_peer_linking.Base.{
  ℕ, ◌+◌, ℤ, refl, arith, String, Option, none, some, List, [], ◌∷◌, ◌++◌, length, length-append,
}
use bittorrent_peer_linking.Double.{Double}
use bittorrent_peer_linking.Util.{TimestampPair, PeerInfo, endpoint_to_string}
use bittorrent_peer_linking.Session.State.{SessionStats, new_session}
use bittorrent_peer_linking.Session.Totals.{set_initial_totals, finalize, record_session_snapshot}
use bittorrent_peer_linking.Session.Consistency.{IsConsistent}
use bittorrent_peer_linking.Session.Consistency.Start.{
  new-IsConsistent, totals-IsConsistent, record-IsConsistent,
}
use bittorrent_peer_linking.Session.Consistency.Calls.{snapshot-Serves}
use bittorrent_peer_linking.Session.Consistency.Endings.{finalize-IsConsistent}
use bittorrent_peer_linking.Alerts.{Alert, Operation}
use bittorrent_peer_linking.Alerts.Drain.{Succeeds, events_of_all, present-Succeeds, drain-Succeeds}
use bittorrent_peer_linking.Capture.{
  Reading, capture_peers, capture_snapshots, peer_payload, with_overview,
}
use bittorrent_peer_linking.Run.{Pass, Life, capture_if_due, run_pass, run_passes, run_session}

module _ {D : Double} where
  -- The events of a snapshot that may be due.
  abbrev pub events_of_reading : Option (Reading D) → ℕ
  events_of_reading none = 0
  events_of_reading (some r) = 2 + length r.peers

  abbrev pub events_of_passes : List (Pass D) → ℕ
  events_of_passes [] = 0
  events_of_passes (pass ∷ passes) =
      (events_of_all pass.alerts + events_of_reading pass.reading) + events_of_passes passes

  -- The events from the first pass to the end of the session.
  abbrev pub events_of_life : Life D → ℕ
  events_of_life life =
      events_of_passes life.passes
      + (events_of_all life.last_alerts + (2 + length life.last_reading.peers))

  peers-Succeeds :
      (s : SessionStats D) (ts : TimestampPair) (interval : ℤ) (peers : List PeerInfo)
      → IsConsistent s
      → Succeeds (capture_peers s ts interval peers) (length peers)
  unfolding capture_peers
  peers-Succeeds s ts interval [] c = ((s, []), refl, c, refl)
  peers-Succeeds s ts interval (peer ∷ peers) c =
      let (r, e, v) = snapshot-Serves s peer ts interval c in
      let (q, f, k, n) =
        present-Succeeds r.0 (endpoint_to_string peer.ip) r.1 "peer_snapshot" (peer_payload peer)
          v in
      let (t, g, l, m) = peers-Succeeds q.0 ts interval peers k in
      ((t.0, q.1 ++ t.1), rw (e, f, g) refl, l, omega (arith, length-append q.1 t.1, n, m))

  pub capture-Succeeds :
      (s : SessionStats D) (reading : Reading D) (interval : ℤ)
      → IsConsistent s
      → Succeeds (capture_snapshots s reading interval) (2 + length reading.peers)
  unfolding capture_snapshots with_overview
  capture-Succeeds s reading interval c =
      let (r, e, k, n) =
        peers-Succeeds (record_session_snapshot s reading.torrent_status) reading.ts interval
          reading.peers (record-IsConsistent s reading.torrent_status c) in
      ((r.0, with_overview reading r.1), rw e refl, k, omega (arith, n))

  due-Succeeds :
      (s : SessionStats D) (reading : Option (Reading D)) (interval : ℤ)
      → IsConsistent s
      → Succeeds (capture_if_due s reading interval) (events_of_reading reading)
  unfolding capture_if_due
  due-Succeeds s none interval c = ((s, []), refl, c, refl)
  due-Succeeds s (some reading) interval c = capture-Succeeds s reading interval c

module _ {D : Double} (operation_name : Operation → String) where
  pub pass-Succeeds :
      (s : SessionStats D) (alerts : List (TimestampPair × Alert)) (reading : Option (Reading D))
      (interval : ℤ)
      → IsConsistent s
      → Succeeds
          (run_pass operation_name s alerts reading interval)
          (events_of_all alerts + events_of_reading reading)
  unfolding run_pass
  pass-Succeeds s alerts reading interval c =
      let (r, e, k, n) = drain-Succeeds operation_name s alerts c in
      let (q, f, l, m) = due-Succeeds r.0 reading interval k in
      ((q.0, r.1 ++ q.1), rw (e, f) refl, l, omega (arith, length-append r.1 q.1, n, m))

  pub passes-Succeeds :
      (s : SessionStats D) (passes : List (Pass D)) (interval : ℤ)
      → IsConsistent s
      → Succeeds (run_passes operation_name s passes interval) (events_of_passes passes)
  unfolding run_passes
  passes-Succeeds s [] interval c = ((s, []), refl, c, refl)
  passes-Succeeds s (pass ∷ passes) interval c =
      let (r, e, k, n) = pass-Succeeds s pass.alerts pass.reading interval c in
      let (q, f, l, m) = passes-Succeeds r.0 passes interval k in
      ((q.0, r.1 ++ q.1), rw (e, f) refl, l, omega (arith, length-append r.1 q.1, n, m))

  -- Whatever alerts, statuses and peers libtorrent reports and whatever the clock says, the
  -- statistics calls of a session from its start to `finalize` do not throw, the session's maps fit
  -- together at the end, and the events written are one for each alert that the program knows and,
  -- for each snapshot, two and one for each peer.
  pub session-Succeeds :
      (life : Life D) → Succeeds (run_session operation_name life) (events_of_life life)
  unfolding run_session
  session-Succeeds life =
      let started = new_session D life.run_id life.session_id life.session_start in
      let (r, e, k, n) =
        passes-Succeeds (set_initial_totals started life.initial_status) life.passes
          life.snapshot_interval_ms
          (totals-IsConsistent started life.initial_status
            (new-IsConsistent D life.run_id life.session_id life.session_start)) in
      let (q, f, l, m) =
        pass-Succeeds r.0 life.last_alerts (some life.last_reading) life.snapshot_interval_ms k in
      (
        (finalize q.0 life.session_end, r.1 ++ q.1),
        rw (e, f) refl,
        finalize-IsConsistent q.0 life.session_end l,
        omega (arith, length-append r.1 q.1, n, m),
      )
