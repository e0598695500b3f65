-- ===== src/Run.antt =====
-- The life of a session in `main` of src/main.cpp, from the constructor of `SessionStats` to
-- `finalize`: the passes of its loop, each with the alerts it drains and the snapshot it takes.
pub mod Totality
use bittorrent_peer_linking.Base.{ℤ, String, Option, none, some, List, [], ◌∷◌, ◌++◌, ◌>>=◌}
use bittorrent_peer_linking.Double.{Double}
use bittorrent_peer_linking.Util.{TimestampPair}
use bittorrent_peer_linking.Session.State.{SessionStats, TorrentStatus, new_session}
use bittorrent_peer_linking.Session.Totals.{set_initial_totals, finalize}
use bittorrent_peer_linking.Alerts.{Alert, Operation}
use bittorrent_peer_linking.Alerts.Handlers.{Handled, drain_alerts}
use bittorrent_peer_linking.Capture.{Reading, capture_snapshots}

-- A pass: the alerts, and what is read where `now >= next_snapshot`.
pub record Pass (D : Double) : Type 0 where
  pub alerts : List (TimestampPair × Alert)
  pub reading : Option (Reading D)

-- What a session meets from its start to its end.
pub record Life (D : Double) : Type 0 where
  pub run_id : String
  pub session_id : String
  pub session_start : TimestampPair
  pub initial_status : TorrentStatus
  pub snapshot_interval_ms : ℤ
  pub passes : List (Pass D)
  pub last_alerts : List (TimestampPair × Alert)
  pub last_reading : Reading D
  pub session_end : TimestampPair

module _ {D : Double} where
  unfoldable pub capture_if_due : SessionStats D → Option (Reading D) → ℤ → Handled D
  capture_if_due s none interval = some (s, [])
  capture_if_due s (some reading) interval = capture_snapshots s reading interval

module _ {D : Double} (operation_name : Operation → String) where
  -- `drain_alerts`, and `capture_snapshots` where it is due.
  unfoldable pub run_pass :
      SessionStats D → List (TimestampPair × Alert) → Option (Reading D) → ℤ → Handled D
  run_pass s0 alerts reading interval = do
    (s, events) ← drain_alerts operation_name s0 alerts
    (s', more) ← capture_if_due s reading interval
    some (s', events ++ more)

  unfoldable pub run_passes : SessionStats D → List (Pass D) → ℤ → Handled D
  run_passes s [] interval = some (s, [])
  run_passes s0 (pass ∷ passes) interval = do
    (s, events) ← run_pass s0 pass.alerts pass.reading interval
    (s', more) ← run_passes s passes interval
    some (s', events ++ more)

  unfoldable pub run_session : Life D → Handled D
  run_session life =
      let started =
        set_initial_totals (new_session D life.run_id life.session_id life.session_start)
          life.initial_status in
      do
        (s1, events) ← run_passes started life.passes life.snapshot_interval_ms
        (s2, more) ← run_pass s1 life.last_alerts (some life.last_reading) life.snapshot_interval_ms
        some (finalize s2 life.session_end, events ++ more)
