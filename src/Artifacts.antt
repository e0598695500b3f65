-- ===== src/Artifacts.antt =====
-- src/artifact_lifecycle.cpp and .hpp: the states of the artifacts of a session, and their places.
pub mod Manifest
pub mod Pending
pub mod Archive
pub mod Kept
pub mod Failures
pub mod Names
pub mod Reads
pub mod Order
pub mod Moves
use bittorrent_peer_linking.Base.{
  Bool, String, str_eq, List, [], ◌∷◌, ◌++◌, push_back, if◌then◌else◌,
}
use bittorrent_peer_linking.Disk.{Host}
use bittorrent_peer_linking.Paths.{FilePath, Place, join, name}
use bittorrent_peer_linking.Config.{OutputPaths}

pub data ArtifactState : Type 0 where
  capturing ready_to_upload archived unknown : ArtifactState

unfoldable pub artifact_state_name : ArtifactState → String
artifact_state_name capturing = "capturing"
artifact_state_name ready_to_upload = "ready_to_upload"
artifact_state_name archived = "archived"
artifact_state_name unknown = "unknown"

unfoldable pub artifact_state_from_string : String → ArtifactState
artifact_state_from_string value =
    if str_eq value "capturing"
    then capturing
    else if str_eq value "ready_to_upload"
    then ready_to_upload
    else if str_eq value "archived"
    then archived
    else unknown

-- `std::filesystem::absolute(p)`
unfoldable pub absolute : Host → FilePath → Place
absolute h p = if p.is_absolute then p.names else h.working_dir ++ p.names

unfoldable pub pending_artifacts_dir : Host → FilePath → Place
pending_artifacts_dir h artifacts_dir = absolute h (join artifacts_dir (name "pending"))

unfoldable pub archive_artifacts_dir : Host → FilePath → Place
archive_artifacts_dir h artifacts_dir = absolute h (join artifacts_dir (name "archive"))

unfoldable pub artifact_paths_for_session_dir : Place → OutputPaths
artifact_paths_for_session_dir session_dir = record {
  artifact_dir = session_dir;
  state_json_path = push_back session_dir "state.json";
  event_log_path = push_back session_dir "session_events.ndjson";
  summary_json_path = push_back session_dir "session_summary.json";
}
