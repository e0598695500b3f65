-- ===== src/Artifacts/Manifest.antt =====
-- The file state.json of src/artifact_lifecycle.cpp: how it is read, written and kept.
use bittorrent_peer_linking.Base.{
  ℤ, pos, ◌+ℤ◌, not, String, is_empty, Option, none, some, if◌then◌else◌,
}
use bittorrent_peer_linking.Base.Results.{Result, ok, err}
use bittorrent_peer_linking.Double.{Double}
use bittorrent_peer_linking.Json.{
  Json, Items, Members, boolean, integer, string, array, object, nil, end, member, value_find,
  find_member, set_member, push_item,
}
use bittorrent_peer_linking.Util.{TimestampPair}
use bittorrent_peer_linking.Paths.{text_of}
use bittorrent_peer_linking.Exec.{gets, ◌>>=◌, ◌>>◌}
use bittorrent_peer_linking.Disk.{
  Host, World, Io, exists, capture_timestamp, create_directories, read_json_file, write_json_file,
}
use bittorrent_peer_linking.Config.{RuntimeConfig, OutputPaths}
use bittorrent_peer_linking.Artifacts.{ArtifactState, artifact_state_name}

module _ {D : Double} where
  string_or_empty : Option (Json D) → String
  string_or_empty (some (string s)) = s
  string_or_empty _ = ""

  unfoldable pub json_string_or_empty : Json D → String → String
  unfolding string_or_empty value_find
  json_string_or_empty value key = string_or_empty (value_find value key)

  -- The members that a new state takes over from the last one, where they have the right kind.
  unfoldable pub array_only : Option (Json D) → Option (Json D)
  array_only (some (array items)) = some (array items)
  array_only _ = none

  unfoldable pub object_only : Option (Json D) → Option (Json D)
  object_only (some (object fields)) = some (object fields)
  object_only _ = none

  unfoldable pub integer_only : Option (Json D) → Option (Json D)
  integer_only (some (integer n)) = some (integer n)
  integer_only _ = none

  unfoldable pub string_only : Option (Json D) → Option (Json D)
  string_only (some (string s)) = some (string s)
  string_only _ = none

  unfoldable pub keep : Option (Json D) → String → Members D → Members D
  keep none key members = members
  keep (some value) key members = set_member members key value

  unfoldable pub keep_failures : Json D → Members D → Members D
  unfolding array_only object_only integer_only string_only keep
  keep_failures previous members =
      keep (string_only (value_find previous "last_upload_attempt_utc")) "last_upload_attempt_utc" (
        keep (integer_only (value_find previous "upload_attempt_count")) "upload_attempt_count" (
          keep (object_only (value_find previous "last_upload_failure")) "last_upload_failure"
            (keep (array_only (value_find previous "upload_failures")) "upload_failures" members)))

  -- The state that is written anew each time.
  unfoldable pub fresh_state :
      RuntimeConfig → OutputPaths → ArtifactState → String → TimestampPair → Members D
  unfolding artifact_state_name
  fresh_state config output_paths state created_utc now =
      member "schema_version" (integer (pos 1)) (
        member "state" (string (artifact_state_name state)) (
          member "run_id" (string config.run_id) (
            member "session_id" (string config.session_id) (
              member "created_utc" (string created_utc) (
                member "updated_utc" (string now.utc_ts) (
                  member "artifact_dir" (string (text_of output_paths.artifact_dir)) (
                    member "destination_url_configured"
                      (boolean (not (is_empty config.destination_url)))
                      (member "files"
                        (object (
                          member "state_json" (string (text_of output_paths.state_json_path)) (
                            member "event_log" (string (text_of output_paths.event_log_path)) (
                              member "summary_json"
                                (string (text_of output_paths.summary_json_path)) end))))
                        end))))))))

  object_or_empty : Result (Json D) → Json D
  object_or_empty (ok (object members)) = object members
  object_or_empty _ = object end

  created_or : Result (Json D) → String → String
  unfolding json_string_or_empty
  created_or (ok previous) now =
      let created_utc = json_string_or_empty previous "created_utc" in
      if is_empty created_utc then now else created_utc
  created_or (err message) now = now

  unfoldable pub attempts_of : Option (Json D) → ℤ
  attempts_of (some (integer n)) = n
  attempts_of _ = pos 0

  unfoldable pub failures_of : Option (Json D) → Items D
  failures_of (some (array items)) = items
  failures_of _ = nil

  unfoldable pub failure_json : RuntimeConfig → TimestampPair → String → Json D
  failure_json config now error_message = object (
      member "attempt_utc" (string now.utc_ts) (
        member "destination_url" (string config.destination_url)
          (member "error" (string error_message) end)))

  -- The failure is appended and counted.
  unfoldable pub with_failure : Members D → Json D → TimestampPair → Members D
  unfolding attempts_of failures_of
  with_failure members failure now =
      let attempt_count = attempts_of (find_member "upload_attempt_count" members) +ℤ pos 1 in
      let failures = push_item (failures_of (find_member "upload_failures" members)) failure in
      set_member
        (set_member
          (set_member (set_member members "upload_failures" (array failures)) "last_upload_failure"
            failure)
          "upload_attempt_count" (integer attempt_count))
        "last_upload_attempt_utc" (string now.utc_ts)

module _ {D : Double} (h : Host) where
  -- Both read the last state, if there is one; an exception is caught.
  unfoldable pub created_utc_for_state : OutputPaths → TimestampPair → World D → String
  unfolding created_or
  created_utc_for_state output_paths now w =
      if exists w output_paths.state_json_path
      then created_or (read_json_file h output_paths.state_json_path w) now.utc_ts
      else now.utc_ts

  unfoldable pub load_existing_state_or_empty : OutputPaths → World D → Json D
  unfolding object_or_empty
  load_existing_state_or_empty output_paths w =
      if exists w output_paths.state_json_path
      then object_or_empty (read_json_file h output_paths.state_json_path w)
      else object end

  unfoldable pub base_state_json :
      RuntimeConfig → OutputPaths → ArtifactState → TimestampPair → World D → Members D
  base_state_json config output_paths state now w =
      keep_failures (load_existing_state_or_empty output_paths w)
        (fresh_state config output_paths state (created_utc_for_state output_paths now w) now)

  unfoldable pub write_artifact_state :
      RuntimeConfig → OutputPaths → ArtifactState → Io D (Unit {0})
  write_artifact_state config output_paths state = do
    create_directories h output_paths.artifact_dir
    now ← capture_timestamp h
    state_json ← gets (base_state_json config output_paths state now)
    write_json_file h output_paths.state_json_path (object state_json)

  unfoldable pub record_artifact_upload_failure :
      RuntimeConfig → OutputPaths → String → Io D (Unit {0})
  record_artifact_upload_failure config output_paths error_message = do
    create_directories h output_paths.artifact_dir
    now ← capture_timestamp h
    state_json ← gets (base_state_json config output_paths ArtifactState.ready_to_upload now)
    write_json_file h output_paths.state_json_path
        (object (with_failure state_json (failure_json config now error_message) now))
