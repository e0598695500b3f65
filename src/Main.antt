-- ===== src/Main.antt =====
-- `main` of src/main.cpp as a whole. Console output is left out.
pub mod Payloads
pub mod Capturing
pub mod Frame
pub mod Outcomes
pub mod Codes
pub mod Going
pub mod Report
pub mod Termination
pub mod Switches
use bittorrent_peer_linking.Base.{
  ℕ, Bool, String, is_empty, Option, none, some, List, if◌then◌else◌,
}
use mathlib.Core.Option.{map}
use bittorrent_peer_linking.Base.Results.{Result, ok, err}
use bittorrent_peer_linking.Double.{Double}
use bittorrent_peer_linking.Exec.{pure, ◌>>=◌, ◌>>◌}
use bittorrent_peer_linking.Paths.{FilePath}
use bittorrent_peer_linking.Util.{is_magnet_uri}
use bittorrent_peer_linking.Util.Platform.{Platform, generate_id}
use bittorrent_peer_linking.Config.{RuntimeConfig, OutputPaths}
use bittorrent_peer_linking.Disk.{Host, World, Io}
use bittorrent_peer_linking.Artifacts.{ArtifactState}
use bittorrent_peer_linking.Artifacts.Manifest.{write_artifact_state}
use bittorrent_peer_linking.Args.{Args, Request, usage, run, read_command_line}
use bittorrent_peer_linking.Outputs.{prepare_output_paths}
use bittorrent_peer_linking.Loop.{Tick, start_timer, run_loop}
use bittorrent_peer_linking.Sender.{Curl}
use bittorrent_peer_linking.Publish.{Start, exits, begins, start_run, publish}
use bittorrent_peer_linking.Main.Capturing.{Engine, record_session}

-- The ids that were not given, and the kind of the source.
unfoldable pub with_ids : Platform → RuntimeConfig → RuntimeConfig
with_ids platform config = record config {
  run_id = if is_empty config.run_id then generate_id platform 0 "run" else config.run_id;
  session_id =
      if is_empty config.session_id then generate_id platform 1 "session" else config.session_id;
  torrent_source_type = if is_magnet_uri config.torrent_source then "magnet" else "torrent_file";
}

module _ {D : Double} (h : Host) (platform : Platform) (engine : Engine D) where
  -- The session's files: the state `capturing`, the log and the summary, the state `ready_to_upload`.
  unfoldable pub capture_session : RuntimeConfig → OutputPaths → List (Tick D) → Io D OutputPaths
  capture_session config output_paths ticks = do
    write_artifact_state h config output_paths ArtifactState.capturing
    ended ← record_session h platform config output_paths engine ticks
    write_artifact_state h config output_paths ArtifactState.ready_to_upload
    pure output_paths

  unfoldable pub run_capture : Args → List (Tick D) → Io D OutputPaths
  run_capture args ticks = do
    output_paths ←
        prepare_output_paths h (with_ids platform args.config) args.event_log_override
          args.summary_json_override
    capture_session (with_ids platform args.config) output_paths ticks

module _ {D : Double} (h : Host) (curl : Curl) (platform : Platform) (engine : Engine D) where
  -- An exception of the session ends the program with 2.
  unfoldable pub exit_code : RuntimeConfig → Result OutputPaths × World D → ℕ × World D
  exit_code config (err message, w) = (2, w)
  exit_code config (ok output_paths, w) = publish h curl config output_paths w

  -- The session, and the upload of its files.
  unfoldable pub run_begun : Args → World D → List (Tick D) → ℕ × World D
  run_begun args w ticks =
      exit_code (with_ids platform args.config) (run_capture h platform engine args ticks w)

  -- The loop of a session that begins is run first, as it depends on the clock and on signals only.
  unfoldable pub after_start : ℕ → Args → Start × World D → Option (ℕ × World D)
  after_start fuel args (exits code, w) = some (code, w)
  after_start fuel args (begins, w) = map (run_begun args w) (
      run_loop fuel (start_timer args.config engine.process_start) engine.turns 0
        engine.process_start)

  unfoldable pub respond : ℕ → Result Request → World D → Option (ℕ × World D)
  respond fuel (err message) w = some (2, w)
  respond fuel (ok usage) w = some (0, w)
  respond fuel (ok (run args)) w = after_start fuel args (start_run h curl args.config w)

  -- The exit code, or `none` where the fuel does not reach to the end of the session's loop.
  unfoldable pub main : ℕ → List String → World D → Option (ℕ × World D)
  main fuel argv w = respond fuel (read_command_line argv) w
