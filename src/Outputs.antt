-- ===== src/Outputs.antt =====
-- `prepare_output_paths` of src/logging.cpp: where a session writes its files.
pub mod Laws
use bittorrent_peer_linking.Base.{
  Bool, true, false, String, ◌<>◌, Option, none, some, List, [], ◌∷◌, push_back, if◌then◌else◌,
}
use bittorrent_peer_linking.Base.Results.{ok, err}
use bittorrent_peer_linking.Double.{Double}
use bittorrent_peer_linking.Paths.{FilePath, Place, join, name, path_of, text_of}
use bittorrent_peer_linking.Exec.{pure, ◌>>=◌, ◌>>◌}
use bittorrent_peer_linking.Disk.{
  Host, World, Entry, directory, document, other_file, Io, exists, create_directories,
  ensure_parent_directory,
}
use bittorrent_peer_linking.Config.{RuntimeConfig, OutputPaths}
use bittorrent_peer_linking.Artifacts.{absolute}

-- `absolute(artifacts_dir / kind / session_id)`
unfoldable pub session_place : Host → RuntimeConfig → String → Place
session_place h config kind =
    absolute h (join (join config.artifacts_dir (name kind)) (path_of config.session_id))

unfoldable pub path_or : Host → Option FilePath → Place → Place
path_or h none default = default
path_or h (some path) default = absolute h path

-- The paths that are used, with the overrides of the command line.
unfoldable pub chosen_paths : Host → RuntimeConfig → Option FilePath → Option FilePath → OutputPaths
chosen_paths h config event_log_override summary_json_override =
    let artifact_dir = session_place h config "pending" in
    record {
      artifact_dir = artifact_dir;
      state_json_path = push_back artifact_dir "state.json";
      event_log_path =
          path_or h event_log_override (push_back artifact_dir "session_events.ndjson");
      summary_json_path =
          path_or h summary_json_override (push_back artifact_dir "session_summary.json");
    }

-- `std::filesystem::is_empty(p)` of a directory: its iterator is at the end at once.
unfoldable pub no_entries : List String → Bool
no_entries [] = true
no_entries (n ∷ names) = false

module _ {D : Double} where
  -- What stands at the session's place must be an empty directory, if there is something.
  unfoldable pub refusal : Host → World D → Place → Option (Entry D) → Option String
  refusal h w p none = none
  refusal h w p (some directory) =
      if no_entries (h.listing (exists w) p)
      then none
      else some (
          "artifact directory already exists and is not empty: "
          <> (text_of p <> "; choose a different --session-id or resolve the pending artifacts"))
  refusal h w p (some (document value)) =
      some ("artifact path exists but is not a directory: " <> text_of p)
  refusal h w p (some other_file) =
      some ("artifact path exists but is not a directory: " <> text_of p)

module _ {D : Double} (h : Host) where
  unfoldable pub make_outputs : OutputPaths → Io D OutputPaths
  make_outputs paths = do
    create_directories h paths.artifact_dir
    ensure_parent_directory h paths.event_log_path
    ensure_parent_directory h paths.summary_json_path
    pure paths

  unless_refused : Option String → OutputPaths → Io D OutputPaths
  unless_refused none paths w = make_outputs paths w
  unless_refused (some message) paths w = (err message, w)

  unfoldable pub prepare_output_paths :
      RuntimeConfig → Option FilePath → Option FilePath → Io D OutputPaths
  unfolding unless_refused
  prepare_output_paths config event_log_override summary_json_override w =
      let paths = chosen_paths h config event_log_override summary_json_override in
      let archive_dir = session_place h config "archive" in
      if exists w archive_dir
      then (
        err (
            "archive artifact directory already exists: "
            <> (text_of archive_dir <> "; choose a different --session-id")),
        w,
      )
      else unless_refused (refusal h w paths.artifact_dir (w.entry paths.artifact_dir)) paths w
