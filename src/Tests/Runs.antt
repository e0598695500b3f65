-- ===== src/Tests/Runs.antt =====
-- A run of src/main.cpp: its command line, its files, its log, and the retry of its upload.
use bittorrent_peer_linking.Args.{
  assign, is_valid_node_role, kind_of, refuse_if, stoi, treat, treat_last, validate,
}
use bittorrent_peer_linking.Sender.{
  judge, perform_upload, send_artifacts_to_destination, transfer, validate_destination_url,
}
use bittorrent_peer_linking.Base.{starts_with}
use bittorrent_peer_linking.Disk.{
  put, rename, capture_timestamp, create_directories, ensure_parent_directory, exists, write_file,
  write_json_file,
}
use bittorrent_peer_linking.Artifacts.Manifest.{write_artifact_state}
use bittorrent_peer_linking.Paths.{Place, parent_path, join, below, filename}
use bittorrent_peer_linking.Base.{
  ◌≡◌, ◌↔◌, refl, ◌≤◌, push_back, true, String, none, some, List, [], ◌∷◌, ◌++◌, length, pos,
}
use bittorrent_peer_linking.Base.Results.{err, ◌>>=◌}
use bittorrent_peer_linking.Json.{null}
use bittorrent_peer_linking.Util.{TimestampPair}
use bittorrent_peer_linking.Disk.{Host, World, directory}
use bittorrent_peer_linking.Artifacts.Archive.{
  archive_place, move_session, archive_artifact_session,
}
use bittorrent_peer_linking.Artifacts.{
  archive_artifacts_dir, absolute, ArtifactState, artifact_paths_for_session_dir,
}
use bittorrent_peer_linking.Artifacts.Pending.{pending_session}
use mathlib.Core.List.{Mem, not-mem-nil}
use bittorrent_peer_linking.Retry.{upload_session}
use bittorrent_peer_linking.Artifacts.Reads.{IsRead, written-IsRead}
use bittorrent_peer_linking.Args.{Args, Setting, parse_args, default_args, read_command_line}
use bittorrent_peer_linking.Config.{RuntimeConfig, OutputPaths}
use bittorrent_peer_linking.Args.Laws.{render, assign_all, parse-render, IsValid, read-IsValid}
use bittorrent_peer_linking.Outputs.{prepare_output_paths}
use bittorrent_peer_linking.Outputs.Laws.{IsPrepared, prepare-IsPrepared}
use bittorrent_peer_linking.Alerts.{Event}
use bittorrent_peer_linking.Log.{write_events}
use bittorrent_peer_linking.Log.Laws.{Writes, writer_of, write-AreLines}
use bittorrent_peer_linking.Peer.State.{new_peer}
use bittorrent_peer_linking.Publish.{publish, code_of}
use bittorrent_peer_linking.Publish.Laws.{IsPublished, publish-IsPublished}
use bittorrent_peer_linking.Summary.{had_protocol_activity, peer_observation_counts}
use bittorrent_peer_linking.Summary.Counts.{passing, is_fingerprintable, counts-bounds}
use bittorrent_peer_linking.Session.State.{SessionStats, new_session}
use bittorrent_peer_linking.Tests.{whole, at_ms}
use bittorrent_peer_linking.Tests.Artifacts.{
  host, config, world, session_dir, failing, answering, accepting, paths,
}

abbrev settings : List (Setting × String)
settings =
    (Setting.torrent_source, "file.torrent")
    ∷ (Setting.listen_port, "6881")
    ∷ (Setting.session_id, "s2")
    ∷ []

parse-render_example :
    parse_args (render settings ++ ("--no-console-status" ∷ [])) default_args
    ≡ (assign_all settings default_args >>= λ b. parse_args ("--no-console-status" ∷ []) b)
parse-render_example = parse-render settings ("--no-console-status" ∷ []) default_args

abbrev with_port : Args
with_port =
    let c = default_args.config in
    record default_args { config = record c { listen_port = pos 6881 } }

read-IsValid_example : IsValid with_port.config
unfolding read_command_line parse_args treat kind_of assign stoi validate refuse_if
    is_valid_node_role
read-IsValid_example = read-IsValid ("-p" ∷ "6881" ∷ []) with_port refl

-- An unknown option and a missing value are refused.
test_unknown :
    parse_args ("-p" ∷ "1" ∷ "--nothing" ∷ []) default_args ≡ err "unknown argument: --nothing"
unfolding parse_args treat kind_of assign stoi treat_last
test_unknown = refl

test_missing : parse_args ("--run-id" ∷ []) default_args ≡ err "missing value for --run-id"
unfolding parse_args treat_last kind_of
test_missing = refl

abbrev pub rooted : World whole
rooted = record {
  entry = λ p. elim p [ [] ↦ some directory | n ∷ names ↦ none ];
  ticks = 0;
  requests = [];
}

-- The disk has nothing in it, and its listings are those of the host.
abbrev pub bare : Host
bare = record host { listing = λ present p. [] }

pub bare-IsListed : (p : Place) (n : String) → (exists rooted (push_back p n) ≡ true) ↔ Mem n []
unfolding exists
bare-IsListed [] n = ((λ e. absurd (cc e)), (λ m. absurd (not-mem-nil m)))
bare-IsListed (m ∷ p) n = ((λ e. absurd (cc e)), (λ k. absurd (not-mem-nil k)))

prepare-IsPrepared_example :
    IsPrepared bare config none none rooted (prepare_output_paths bare config none none rooted)
prepare-IsPrepared_example = prepare-IsPrepared bare config none none rooted refl (bare-IsListed _)

abbrev an_event : Event whole
an_event = record { event_type = "session_started"; payload = null; peer_context = none }

abbrev some_events : List (TimestampPair × Event whole)
some_events = (at_ms 1, an_event) ∷ (at_ms 2, an_event) ∷ []

write-AreLines_example :
    Writes config "" host some_events [] (write_events host some_events (writer_of config "" []))
write-AreLines_example = write-AreLines config "" host some_events []

-- A session with one peer, of a hundred and twenty requests.
abbrev busy : SessionStats whole
busy =
    let s = new_session whole "run-1" "session-1" (at_ms 1) in
    let p = new_peer whole "k#1" "k" "10.0.0.1" 6881 (at_ms 1) "inbound" "tcp" in
    record s { peers_by_key = ("k#1", record p { requests_sent = 120 }) ∷ [] }

counts-bounds_example :
    let counts = peer_observation_counts busy in
    (counts.peer_connections_observed ≡ length busy.peers_by_key)
    × (counts.active_peer_connections ≡ length (passing had_protocol_activity busy.peers_by_key))
    × (counts.fingerprintable_peer_connections
        ≡ length (passing is_fingerprintable busy.peers_by_key))
    × (counts.fingerprintable_peer_connections ≤ counts.active_peer_connections)
    × (counts.active_peer_connections ≤ counts.peer_connections_observed)
counts-bounds_example = counts-bounds busy

-- The session with its log elsewhere, and the disk after its upload failed.
abbrev elsewhere : OutputPaths
elsewhere = record paths { event_log_path = paths.summary_json_path }

abbrev after_failure : World whole
after_failure = (upload_session host failing config elsewhere world).1

abbrev with_id : RuntimeConfig
with_id = record config { session_id = "s1" }

publish-IsPublished_example :
    IsPublished host
      (answering accepting)
      config
      paths
      world
      (publish host (answering accepting) config paths world).1
unfolding publish code_of upload_session send_artifacts_to_destination validate_destination_url
    starts_with perform_upload exists artifact_paths_for_session_dir transfer judge
    archive_artifact_session archive_artifacts_dir absolute join create_directories parent_path
    rename archive_place move_session write_artifact_state below filename put write_file
    write_json_file capture_timestamp ensure_parent_directory
publish-IsPublished_example =
    publish-IsPublished host (answering accepting) config paths world refl refl

written-IsRead_example : IsRead with_id ArtifactState.capturing (
    pending_session host
      (write_artifact_state host with_id
        (artifact_paths_for_session_dir session_dir)
        ArtifactState.capturing
        world).1
      session_dir)
unfolding write_artifact_state create_directories capture_timestamp write_json_file
    ensure_parent_directory parent_path write_file artifact_paths_for_session_dir
written-IsRead_example =
    written-IsRead host with_id session_dir ArtifactState.capturing world refl refl
