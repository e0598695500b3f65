-- ===== src/Tests/Programs.antt =====
-- The program of src/main.cpp from its command line to its exit code, for a session of one second.
use bittorrent_peer_linking.Args.{
  assign, is_valid_node_role, kind_of, parse_args, refuse_if, stoi, treat, validate,
}
use bittorrent_peer_linking.Artifacts.{artifact_paths_for_session_dir}
use bittorrent_peer_linking.Artifacts.Manifest.{write_artifact_state}
use bittorrent_peer_linking.Disk.{
  capture_timestamp, create_directories, ensure_parent_directory, put, write_file, write_json_file,
}
use bittorrent_peer_linking.Paths.{parent_path}
use bittorrent_peer_linking.Main.Capturing.{check_error, check_source, start_torrent}
use bittorrent_peer_linking.Log.Stream.{log_event, log_events, open_log}
use bittorrent_peer_linking.Util.{is_magnet_uri}
use bittorrent_peer_linking.Base.{
  ◌≡◌, refl, arith, pos, Bool, true, false, none, some, List, [], ◌∷◌, length,
}
use bittorrent_peer_linking.Base.Results.{Result, ok, err}
use bittorrent_peer_linking.Util.Platform.{Platform, InfoHash}
use bittorrent_peer_linking.Args.{read_command_line}
use bittorrent_peer_linking.Artifacts.Pending.{pending_session}
use bittorrent_peer_linking.Main.Payloads.{config_payload, settings_pack}
use bittorrent_peer_linking.Main.Switches.{IsReported, config-IsReported}
use bittorrent_peer_linking.Main.{with_ids, main, capture_session, run_capture, run_begun}
use bittorrent_peer_linking.Main.Capturing.{Engine, Ended, record_session, final_of}
use bittorrent_peer_linking.Main.Outcomes.{IsUnready, failed-IsCapturing}
use bittorrent_peer_linking.Main.Codes.{Tells, run_begun-Tells}
use bittorrent_peer_linking.Main.Termination.{Returns, main-Returns}
use bittorrent_peer_linking.Log.{new_writer, write_event}
use bittorrent_peer_linking.Session.State.{SessionStats, new_session}
use bittorrent_peer_linking.Session.Consistency.{IsConsistent}
use bittorrent_peer_linking.Alerts.{Event}
use bittorrent_peer_linking.Alerts.Drain.{events_of_all}
use bittorrent_peer_linking.Alerts.Logged.{Logs, drain-Logs}
use bittorrent_peer_linking.Alerts.Handlers.{drain_alerts}
use bittorrent_peer_linking.Tests.{whole, at_ms, status}
use bittorrent_peer_linking.Tests.Sessions.{
  reading, operation_name, fresh, fresh-IsConsistent, alerts,
}
use bittorrent_peer_linking.Tests.Artifacts.{host, world, paths, config, answering, accepting}
use bittorrent_peer_linking.Tests.Runs.{rooted, bare, bare-IsListed}
use bittorrent_peer_linking.Tests.Loops.{turns, one_second, ticks}

abbrev platform : Platform
platform = record {
  hostname = "node";
  libtorrent_version = "2.0.10.0";
  pid = 42;
  compact_utc_stamp = λ n. "20240101T000000Z";
  monotonic_now_ns = λ n. 1234567;
}

abbrev hash : InfoHash
hash = record { has_v1 = true; has_v2 = false; v1 = "0a0b"; text = "0a0b" }

abbrev engine : Engine whole
engine = record {
  operation_name = operation_name;
  magnet_error = none;
  file_error = none;
  add_error = none;
  initial_status = status;
  initial_hash = hash;
  process_start = 7;
  turns = turns;
  last_alerts = [];
  last_reading = record reading { peers = [] };
  final_status = status;
  final_progress = pos 1;
  final_hash = hash;
  stop_requested = false;
  listen_port = pos 6881;
  is_listening = true;
}

abbrev refusing : Engine whole
refusing = record engine { add_error = some "duplicate torrent" }

main-Returns_example : Returns host (answering accepting) platform engine (
    main host
      (answering accepting)
      platform
      engine
      2000000000
      ("-f" ∷ "file.torrent" ∷ "-t" ∷ "1" ∷ [])
      rooted)
unfolding read_command_line parse_args treat kind_of assign stoi validate refuse_if
    is_valid_node_role
main-Returns_example =
    main-Returns host (answering accepting) platform engine 2000000000
      ("-f" ∷ "file.torrent" ∷ "-t" ∷ "1" ∷ []) one_second rooted refl refl (omega arith)
      (λ n. omega arith) (omega arith)

run_begun-Tells_example :
    Tells bare platform engine one_second
      (answering accepting)
      (run_capture bare platform engine one_second ticks rooted)
      (run_begun bare (answering accepting) platform engine one_second rooted ticks)
run_begun-Tells_example =
    run_begun-Tells bare platform engine one_second (answering accepting) ticks rooted refl
      (bare-IsListed _)

failed-IsCapturing_example : IsUnready host platform refusing config paths (
    pending_session host
      (capture_session host platform refusing config paths [] world).1
      paths.artifact_dir)
unfolding capture_session record_session artifact_paths_for_session_dir write_artifact_state
    create_directories capture_timestamp write_json_file ensure_parent_directory parent_path
    write_file start_torrent open_log put log_events log_event write_event check_source
    is_magnet_uri check_error
failed-IsCapturing_example =
    failed-IsCapturing host platform refusing config paths []
      "failed to add torrent: duplicate torrent" world refl refl refl refl

config-IsReported_example :
    let config = with_ids platform one_second.config in
    let payload = config_payload {D = whole} host config in
    let pack = settings_pack config in
    IsReported payload "dht_enabled" pack "enable_dht"
    × IsReported payload "lsd_enabled" pack "enable_lsd"
    × IsReported payload "upnp_enabled" pack "enable_upnp"
    × IsReported payload "natpmp_enabled" pack "enable_natpmp"
unfolding read_command_line parse_args treat kind_of assign stoi validate refuse_if
    is_valid_node_role
config-IsReported_example =
    config-IsReported host platform ("-f" ∷ "file.torrent" ∷ "-t" ∷ "1" ∷ []) one_second refl

abbrev is_ok : {A : Type 0} → Result A → Bool
is_ok (ok a) = true
is_ok (err message) = false

abbrev or_else : {A : Type 0} → Result A → A → A
or_else (ok a) b = a
or_else (err message) b = b

abbrev unended : Ended whole
unended = record {
  stats = new_session whole "" "" (at_ms 0);
  writer = new_writer config;
  final = final_of config engine;
}

abbrev ended : Ended whole
ended = or_else (record_session host platform config paths engine [] world).0 unended

drain-Logs_example :
    (r : SessionStats whole × List (Event whole)) × (drain_alerts operation_name fresh alerts
      ≡ some r)
    × IsConsistent r.0
    × (length r.1 ≡ events_of_all alerts)
    × Logs host
        (events_of_all alerts)
        (new_writer config)
        (log_events host r.1 (new_writer config) world).0
drain-Logs_example =
    drain-Logs host operation_name fresh alerts (new_writer config) world fresh-IsConsistent
