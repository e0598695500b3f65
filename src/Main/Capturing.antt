-- ===== src/Main/Capturing.antt =====
-- The session in `main` of src/main.cpp, from the event log's opening to the summary. What libtorrent
-- answers is a parameter. The events of the loop are written behind its passes, as no pass reads the
-- log.
use bittorrent_peer_linking.Base.{
  ℕ, ℤ, Bool, String, is_empty, ◌<>◌, Option, none, some, List, [], ◌∷◌, is_zero, if◌then◌else◌,
}
use bittorrent_peer_linking.Base.Results.{ok, err}
use bittorrent_peer_linking.Double.{Double}
use bittorrent_peer_linking.Exec.{pure, ◌>>=◌, ◌>>◌}
use bittorrent_peer_linking.Util.{TimestampPair, is_magnet_uri}
use bittorrent_peer_linking.Util.Platform.{Platform, InfoHash, info_hash_to_string}
use bittorrent_peer_linking.Disk.{Host, Io, capture_timestamp}
use bittorrent_peer_linking.Config.{RuntimeConfig, OutputPaths}
use bittorrent_peer_linking.Alerts.{Alert, Operation}
use bittorrent_peer_linking.Capture.{Reading}
use bittorrent_peer_linking.Session.State.{SessionStats, TorrentStatus, new_session}
use bittorrent_peer_linking.Session.Totals.{set_initial_totals, finalize}
use bittorrent_peer_linking.Run.{run_pass, run_passes}
use bittorrent_peer_linking.Loop.{Turn, Tick, passes_of}
use bittorrent_peer_linking.Log.{EventWriter, new_writer, set_info_hash}
use bittorrent_peer_linking.Log.Stream.{open_log, close_log, log_event, log_events}
use bittorrent_peer_linking.Summary.Document.{Final, write_session_summary}
use bittorrent_peer_linking.Main.Payloads.{
  started_event, config_event, torrent_added_event, finished_event,
}

-- What libtorrent answers in a session: the messages of its errors, the torrent's status at the start
-- and at the end with its info hashes, what the loop's turns read, and what is read after the loop.
pub record Engine (D : Double) : Type 0 where
  pub operation_name : Operation → String
  pub magnet_error : Option String
  pub file_error : Option String
  pub add_error : Option String
  pub initial_status : TorrentStatus
  pub initial_hash : InfoHash
  pub process_start : ℕ
  pub turns : ℕ → Turn D
  pub last_alerts : List (TimestampPair × Alert)
  pub last_reading : Reading D
  pub final_status : TorrentStatus
  pub final_progress : D.Real
  pub final_hash : InfoHash
  pub stop_requested : Bool
  pub listen_port : ℤ
  pub is_listening : Bool

-- The session's statistics and log at its end.
pub record Ended (D : Double) : Type 0 where
  pub stats : SessionStats D
  pub writer : EventWriter D
  pub final : Final D

module _ {D : Double} where
  -- `if (error_code) throw ...`
  unfoldable pub check_error : Option String → String → Io D (Unit {0})
  check_error none text w = (ok tt, w)
  check_error (some message) text w = (err (text <> message), w)

  -- The torrent is parsed or loaded.
  unfoldable pub check_source : RuntimeConfig → Engine D → Io D (Unit {0})
  check_source config engine =
      if is_magnet_uri config.torrent_source
      then check_error engine.magnet_error "invalid magnet URI: "
      else check_error engine.file_error
          ("failed to load torrent file '" <> (config.torrent_source <> "': "))

  -- An exception of the statistics.
  unfoldable pub lift : {A : Type 0} → Option A → Io D A
  lift none w = (err "map::at", w)
  lift (some a) w = (ok a, w)

  unfoldable pub exit_reason : RuntimeConfig → Engine D → String
  exit_reason config engine =
      if engine.stop_requested
      then "signal"
      else if is_zero config.runtime_seconds
      then "stopped"
      else "runtime_elapsed"

  unfoldable pub final_of : RuntimeConfig → Engine D → Final D
  final_of config engine =
      let info_hash = info_hash_to_string engine.initial_hash in
      record {
        status = engine.final_status;
        progress = engine.final_progress;
        info_hash = if is_empty info_hash then info_hash_to_string engine.final_hash else info_hash;
        exit_reason = exit_reason config engine;
        listen_port = engine.listen_port;
        is_listening = engine.is_listening;
      }

module _ {D : Double} (h : Host) (platform : Platform) (config : RuntimeConfig)
    (output_paths : OutputPaths) (engine : Engine D) where
  -- From the settings to the torrent's start.
  unfoldable pub start_torrent : Io D (SessionStats D × EventWriter D)
  start_torrent = do
    open_log h output_paths
    session_start ← capture_timestamp h
    let stats = new_session D config.run_id config.session_id session_start
    writer1 ←
        log_events h (started_event platform output_paths ∷ config_event h config ∷ [])
          (new_writer config)
    check_source config engine
    check_error engine.add_error "failed to add torrent: "
    let info_hash = info_hash_to_string engine.initial_hash
    writer2 ← log_event h (torrent_added_event h config info_hash) (set_info_hash info_hash writer1)
    pure (set_initial_totals stats engine.initial_status, writer2)

  -- The loop's passes, and the drain and the snapshot after it.
  unfoldable pub run_torrent :
      List (Tick D) → SessionStats D × EventWriter D → Io D (SessionStats D × EventWriter D)
  run_torrent ticks (stats0, writer0) = do
    (stats1, events) ←
        lift (run_passes engine.operation_name stats0 (passes_of ticks) config.snapshot_interval_ms)
    writer1 ← log_events h events writer0
    (stats2, more) ← lift (
        run_pass engine.operation_name stats1 engine.last_alerts (some engine.last_reading)
          config.snapshot_interval_ms)
    writer2 ← log_events h more writer1
    pure (stats2, writer2)

  -- From the last reading of the clock to the summary.
  unfoldable pub finish_torrent : SessionStats D × EventWriter D → Io D (Ended D)
  finish_torrent (stats0, writer0) = do
    session_end ← capture_timestamp h
    let stats = finalize stats0 session_end
    let final = final_of config engine
    writer ← log_event h (finished_event stats final) writer0
    close_log h output_paths
    write_session_summary h platform config output_paths stats final
    pure (record { stats = stats; writer = writer; final = final })

  unfoldable pub record_session : List (Tick D) → Io D (Ended D)
  record_session ticks = do
    started ← start_torrent
    ran ← run_torrent ticks started
    finish_torrent ran
