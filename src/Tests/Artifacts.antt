-- ===== src/Tests/Artifacts.antt =====
-- A disk with one pending session, and a destination that takes it.
use mathlib.Core.List.{Perm}
use bittorrent_peer_linking.Disk.{put, read_json_file}
use bittorrent_peer_linking.Paths.{below}
use bittorrent_peer_linking.Sender.{
  capture_status_line, judge, perform_upload, response_body_of, transfer, trim_http_line,
  validate_destination_url,
}
use bittorrent_peer_linking.Artifacts.{artifact_state_from_string, pending_artifacts_dir}
use bittorrent_peer_linking.Artifacts.Pending.{pending_session, read_session}
use bittorrent_peer_linking.Artifacts.Manifest.{json_string_or_empty}
use bittorrent_peer_linking.Base.{str_eq, str_eq_iff, sym, ◌∙◌, true, false, ◌≢◌}
use bittorrent_peer_linking.Base.{
  ℕ, ◌≡◌, refl, String, true, false, Option, none, some, List, [], ◌∷◌, pos, if◌then◌else◌, length,
  ◌⊎◌, ◌<>◌, ◌++◌, ◌≤◌, ◌<◌, is_empty, starts_with,
}
use bittorrent_peer_linking.Base.Results.{Result, ok, err}
use bittorrent_peer_linking.Json.{Json, string, object, member, end, integer, value_find}
use bittorrent_peer_linking.Paths.{join, filename, parent_path, Place, same_place}
use bittorrent_peer_linking.Disk.{
  create_directories, capture_timestamp, write_json_file, ensure_parent_directory, write_file,
  rename, Host, World, Entry, directory, document, other_file, granted, exists,
}
use bittorrent_peer_linking.Disk.Laws.{Later}
use bittorrent_peer_linking.Config.{RuntimeConfig, OutputPaths, default_config}
use bittorrent_peer_linking.Artifacts.{
  archive_artifacts_dir, absolute, artifact_state_name, ArtifactState,
  artifact_paths_for_session_dir,
}
use bittorrent_peer_linking.Artifacts.Manifest.{
  load_existing_state_or_empty, attempts_of, failures_of, write_artifact_state,
  record_artifact_upload_failure,
}
use bittorrent_peer_linking.Artifacts.Kept.{HasFailure}
use bittorrent_peer_linking.Artifacts.Failures.{record-HasFailure, write_state-Keeps}
use bittorrent_peer_linking.Artifacts.Archive.{archive_artifact_session, archive_place}
use bittorrent_peer_linking.Artifacts.Moves.{IsArchived, archive-IsArchived}
use bittorrent_peer_linking.Sender.Checks.{IsSendable}
use bittorrent_peer_linking.Sender.Uploads.{after_upload, upload_reply, send-Once, send-Accepted}
use bittorrent_peer_linking.Sender.Answers.{is_line_end, ends_line, status-last}
use bittorrent_peer_linking.Artifacts.Pending.{
  PendingArtifactSession, unread_session, sort_sessions, find_pending_artifact_sessions,
}
use bittorrent_peer_linking.Retry.{upload_session, retry_pending_artifact_uploads}
use bittorrent_peer_linking.Retry.Uploads.{upload-Fails}
use bittorrent_peer_linking.Artifacts.Order.{Ascends, sort-IsSorted}
use bittorrent_peer_linking.Retry.Outcomes.{ready_of, HasSent, retry-HasSent}
use bittorrent_peer_linking.Sender.{
  ArtifactSendResult, status_line_of, send_result_of, Curl, Reply, send_artifacts_to_destination,
}
use bittorrent_peer_linking.Tests.{whole, at_ms}

abbrev pub home_dir : Place
home_dir = "w" ∷ []

abbrev pub session_dir : Place
session_dir = "w" ∷ "artifacts" ∷ "pending" ∷ "s1" ∷ []

abbrev pub paths : OutputPaths
paths = artifact_paths_for_session_dir session_dir

abbrev pub manifest : Json whole
manifest = object (
    member "state" (string "ready_to_upload")
      (member "run_id" (string "run-7") (member "upload_attempt_count" (integer (pos 2)) end)))

abbrev pub disk : List (Place × Entry whole)
disk =
    (home_dir, directory)
    ∷ ("w" ∷ "artifacts" ∷ [], directory)
    ∷ ("w" ∷ "artifacts" ∷ "pending" ∷ [], directory)
    ∷ (session_dir, directory)
    ∷ ("w" ∷ "artifacts" ∷ "pending" ∷ "s1" ∷ "state.json" ∷ [], document manifest)
    ∷ ("w" ∷ "artifacts" ∷ "pending" ∷ "s1" ∷ "session_events.ndjson" ∷ [], other_file)
    ∷ ("w" ∷ "artifacts" ∷ "pending" ∷ "s1" ∷ "session_summary.json" ∷ [], other_file)
    ∷ []

abbrev pub entry_in : List (Place × Entry whole) → Place → Option (Entry whole)
entry_in [] q = none
entry_in ((p, e) ∷ entries) q =
    let rest = entry_in entries q in if same_place p q then some e else rest

abbrev pub world : World whole
world = record { entry = entry_in disk; ticks = 0; requests = [] }

abbrev pub host : Host
host = record {
  working_dir = home_dir;
  listing = λ present p. "s1" ∷ [];
  access = λ tick p. granted;
  filesystem_error = λ p. "filesystem error";
  parse_error = "parse error";
  dump_error = λ texts. none;
  clock = λ n. at_ms 5;
}

abbrev pub config : RuntimeConfig
config = record default_config { run_id = "run-9"; destination_url = "http://brain/upload" }

record-HasFailure_example :
    (tick : ℕ) × (state : Json whole) × ((record_artifact_upload_failure host config paths
          "timed out" world).1.entry
        paths.state_json_path
      ≡ some (document state))
    × HasFailure config "timed out"
        (host.clock tick)
        (load_existing_state_or_empty host paths world)
        state
unfolding record_artifact_upload_failure create_directories capture_timestamp write_json_file
    ensure_parent_directory parent_path write_file artifact_paths_for_session_dir
record-HasFailure_example = record-HasFailure host config paths "timed out" world refl

write_state-Keeps_example :
    (state : Json whole) × ((write_artifact_state host config paths ArtifactState.capturing
          world).1.entry
        paths.state_json_path
      ≡ some (document state))
    × (value_find state "state" ≡ some (string (artifact_state_name ArtifactState.capturing)))
    × (failures_of (value_find state "upload_failures")
        ≡ failures_of
            (value_find (load_existing_state_or_empty host paths world) "upload_failures"))
    × (attempts_of (value_find state "upload_attempt_count")
        ≡ attempts_of
            (value_find (load_existing_state_or_empty host paths world) "upload_attempt_count"))
unfolding write_artifact_state create_directories capture_timestamp write_json_file
    ensure_parent_directory parent_path write_file artifact_paths_for_session_dir
write_state-Keeps_example = write_state-Keeps host config paths ArtifactState.capturing world refl

abbrev archived_paths : OutputPaths
archived_paths = artifact_paths_for_session_dir ("w" ∷ "artifacts" ∷ "archive" ∷ "s1" ∷ [])

archive-IsArchived_example :
    (exists world (archive_place host config paths.artifact_dir) ≡ false)
    × IsArchived host paths.artifact_dir
        (archive_place host config paths.artifact_dir)
        world
        archived_paths
        (archive_artifact_session host config paths world).1
unfolding archive_artifact_session write_artifact_state rename exists archive_artifacts_dir absolute
    join filename create_directories capture_timestamp write_json_file ensure_parent_directory
    parent_path write_file artifact_paths_for_session_dir put below
archive-IsArchived_example = archive-IsArchived host config paths world archived_paths refl

abbrev pub accepting : Reply
accepting = record {
  result = 0;
  header_lines = "HTTP/1.1 100 Continue" ∷ "HTTP/1.1 201 Created" ∷ "Server: brain" ∷ [];
  body_parts = "do" ∷ "ne" ∷ [];
  response_code = 201;
}

abbrev pub answering : Reply → Curl
answering reply = record {
  global_init = 0;
  easy_init = true;
  mime_init = true;
  addpart = λ n. true;
  part_call = λ n call. 0;
  setopt = λ option. 0;
  perform = λ before request. reply;
  getinfo = 0;
  strerror = λ n. "curl error";
}

abbrev created : ArtifactSendResult
created = record { status_code = 201; status_text = "HTTP/1.1 201 Created"; response_body = "done" }

send-Once_example :
    ((message : String) × (send_artifacts_to_destination (answering accepting) config paths world
        ≡ (err message, world)))
    ⊎ (IsSendable config paths world
        × ((send_artifacts_to_destination (answering accepting) config paths world).1
            ≡ after_upload config paths world))
send-Once_example = send-Once (answering accepting) config paths world

send-Accepted_example :
    IsSendable config paths world
    × ((send_artifacts_to_destination (answering accepting) config paths world).1
        ≡ after_upload config paths world)
    × ((upload_reply (answering accepting) config paths world).result ≡ 0)
    × (200 ≤ created.status_code)
    × (created.status_code < 300)
    × (created ≡ send_result_of (upload_reply (answering accepting) config paths world))
unfolding send_artifacts_to_destination artifact_paths_for_session_dir validate_destination_url
    starts_with perform_upload exists transfer judge status_line_of response_body_of
    capture_status_line trim_http_line
send-Accepted_example = send-Accepted (answering accepting) config paths world created refl

status-last_example :
    ((tail : String) × ("HTTP/1.1 201 Created\r\n"
        ≡ status_line_of "" (
            ("HTTP/1.1 100 Continue" ∷ []) ++ ("HTTP/1.1 201 Created\r\n" ∷ ("Server: brain" ∷ [])))
          <> tail)
      × (is_line_end tail ≡ true))
    × (ends_line (
          status_line_of "" (
            ("HTTP/1.1 100 Continue" ∷ [])
            ++ ("HTTP/1.1 201 Created\r\n" ∷ ("Server: brain" ∷ []))))
        ≡ false)
unfolding starts_with
status-last_example =
    status-last "" "HTTP/1.1 201 Created\r\n" ("HTTP/1.1 100 Continue" ∷ []) ("Server: brain" ∷ [])
      refl refl

abbrev pub failing : Curl
failing = answering (record accepting { result = 28 })

upload-Fails_example :
    ((q : Place)
      → (paths.state_json_path ≡ q)
        ⊎ Later (world.entry q) ((upload_session host failing config paths world).1.entry q))
    × (((message : String) × ((upload_session host failing config paths world).0
            ≡ err (
                "artifact upload failed: curl error"
                <> ("; additionally failed to update state.json with the upload failure: "
                    <> message))))
        ⊎ (((upload_session host failing config paths world).0
              ≡ err "artifact upload failed: curl error")
            × ((tick : ℕ) × (state : Json whole) × ((upload_session host failing config paths
                      world).1.entry
                    paths.state_json_path
                  ≡ some (document state))
                × HasFailure config "artifact upload failed: curl error"
                    (host.clock tick)
                    (load_existing_state_or_empty host paths world)
                    state)))
unfolding send_artifacts_to_destination artifact_paths_for_session_dir validate_destination_url
    starts_with perform_upload exists transfer judge
upload-Fails_example =
    upload-Fails host failing config paths "artifact upload failed: curl error" world refl

retry-HasSent_example :
    ((message : String) × (find_pending_artifact_sessions host world config.artifacts_dir
        ≡ err message)
      × (retry_pending_artifact_uploads host (answering accepting) config world
          ≡ (err message, world)))
    ⊎ ((sessions : List PendingArtifactSession) × (find_pending_artifact_sessions host world
            config.artifacts_dir
          ≡ ok sessions)
        × (((is_empty config.destination_url ≡ true)
              × (retry_pending_artifact_uploads host (answering accepting) config world
                  ≡ (ok false, world)))
            ⊎ ((is_empty config.destination_url ≡ false)
                × HasSent config sessions false world
                    (retry_pending_artifact_uploads host (answering accepting) config world))))
retry-HasSent_example = retry-HasSent host (answering accepting) config world

abbrev ready_in : Result (List PendingArtifactSession) → ℕ
ready_in (ok sessions) = length (ready_of sessions)
ready_in (err message) = 0

-- The session is found, and is ready.
test_ready : ready_in (find_pending_artifact_sessions host world config.artifacts_dir) ≡ 1
unfolding find_pending_artifact_sessions ready_of exists pending_artifacts_dir absolute join
    pending_session artifact_paths_for_session_dir read_session read_json_file
    artifact_state_from_string json_string_or_empty
test_ready = refl

abbrev session_at : String → PendingArtifactSession
session_at n = unread_session host world ("w" ∷ "artifacts" ∷ "pending" ∷ n ∷ [])

abbrev two_sessions : List PendingArtifactSession
two_sessions = session_at "s2" ∷ session_at "s1" ∷ []

names_differ : (m n : String) → str_eq m n ≡ false → m ≢ n
names_differ m n e p = absurd (apart (sym ((str_eq_iff m n).1 p) ∙ e))
  where
    apart : true ≡ false → ⊥
    apart h = cc h

sort-IsSorted_example :
    Perm two_sessions (sort_sessions two_sessions)
    × Ascends (sort_sessions two_sessions)
    × ((other : List PendingArtifactSession)
        → Perm two_sessions other
        → Ascends other
        → other ≡ sort_sessions two_sessions)
unfolding unread_session artifact_paths_for_session_dir filename
sort-IsSorted_example = sort-IsSorted two_sessions ((names_differ "s2" "s1" refl, tt), (tt, tt))
