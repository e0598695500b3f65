-- ===== src/Main/Report.antt =====
-- The event log and the summary that a session of src/main.cpp leaves.
use bittorrent_peer_linking.Base.{◌≡◌, some, List, [], ◌∷◌, ◌++◌}
use bittorrent_peer_linking.Double.{Double}
use bittorrent_peer_linking.Exec.Gives.{Gives}
use bittorrent_peer_linking.Json.{Json}
use bittorrent_peer_linking.Util.{TimestampPair}
use bittorrent_peer_linking.Util.Platform.{Platform}
use bittorrent_peer_linking.Config.{RuntimeConfig, OutputPaths}
use bittorrent_peer_linking.Disk.{Host, World, document}
use bittorrent_peer_linking.Session.State.{SessionStats}
use bittorrent_peer_linking.Session.Totals.{finalize}
use bittorrent_peer_linking.Session.Consistency.{IsConsistent}
use bittorrent_peer_linking.Loop.{Tick, passes_of}
use bittorrent_peer_linking.Run.{Life, run_session}
use bittorrent_peer_linking.Alerts.{Event}
use bittorrent_peer_linking.Log.{EventWriter}
use bittorrent_peer_linking.Summary.Document.Contents.{IsReport}
use bittorrent_peer_linking.Main.Payloads.{finished_event}
use bittorrent_peer_linking.Main.Capturing.{Engine, Ended, final_of}
use bittorrent_peer_linking.Main.Going.{Holds, opening_events}

module _ {D : Double} (h : Host) (platform : Platform) (config : RuntimeConfig)
    (output_paths : OutputPaths) (engine : Engine D) where
  -- What the statistics of the session meet, between two readings of the clock.
  abbrev pub life_of : List (Tick D) → TimestampPair → TimestampPair → Life D
  life_of ticks session_start session_end = record {
    run_id = config.run_id;
    session_id = config.session_id;
    session_start = session_start;
    initial_status = engine.initial_status;
    snapshot_interval_ms = config.snapshot_interval_ms;
    passes = passes_of ticks;
    last_alerts = engine.last_alerts;
    last_reading = engine.last_reading;
    session_end = session_end;
  }

  -- The statistics and the events are those of the session's statistics calls; the log holds the
  -- three events of the start, these events, and the event of the end, and nothing else; and the
  -- summary on disk is a report of the statistics.
  pub record IsRecorded (ticks : List (Tick D)) (ended : Ended D) (w : World D) : Type 0 where
    pub session_start : TimestampPair
    pub session_end : TimestampPair
    pub events : List (Event D)
    pub ran :
        run_session engine.operation_name (life_of ticks session_start session_end)
        ≡ some (ended.stats, events)
    pub logged : Holds ended.writer (
        opening_events h platform config output_paths engine
        ++ (events ++ (finished_event ended.stats ended.final ∷ [])))
    pub consistent : IsConsistent ended.stats
    pub root : Json D
    pub report : IsReport ended.stats root
    pub there : w.entry output_paths.summary_json_path ≡ some (document root)

  -- What is known before the end: the statistics before `finalize`, and the log.
  record Finishes (ticks : List (Tick D)) (x : SessionStats D × EventWriter D) (w : World D)
      : Type 0 where
    session_start : TimestampPair
    events : List (Event D)
    ran :
        (session_end : TimestampPair)
        → run_session engine.operation_name (life_of ticks session_start session_end)
          ≡ some (finalize x.0 session_end, events)
    held : Holds x.1 (opening_events h platform config output_paths engine ++ events)

  -- The log is complete.
  record Closes (ticks : List (Tick D)) (session_end : TimestampPair) (stats : SessionStats D)
      (writer : EventWriter D) (w : World D) : Type 0 where
    session_start : TimestampPair
    events : List (Event D)
    ran :
        run_session engine.operation_name (life_of ticks session_start session_end)
        ≡ some (stats, events)
    logged : Holds writer (
        opening_events h platform config output_paths engine
        ++ (events ++ (finished_event stats (final_of config engine) ∷ [])))
