-- ===== src/Artifacts/Pending.antt =====
-- `find_pending_artifact_sessions` of src/artifact_lifecycle.cpp.
use bittorrent_peer_linking.Base.{
  Bool, true, false, String, is_empty, str_lt, Option, none, some, List, [], ◌∷◌, push_back,
  if◌then◌else◌,
}
use bittorrent_peer_linking.Base.Results.{Result, ok, err}
use bittorrent_peer_linking.Double.{Double}
use bittorrent_peer_linking.Json.{Json, object, value_find}
use bittorrent_peer_linking.Paths.{FilePath, Place, path_of, join, filename}
use bittorrent_peer_linking.Disk.{
  Host, World, Entry, directory, document, other_file, exists, read_json_file,
}
use bittorrent_peer_linking.Config.{OutputPaths}
use bittorrent_peer_linking.Artifacts.{
  ArtifactState, artifact_state_from_string, absolute, pending_artifacts_dir,
  artifact_paths_for_session_dir,
}
use bittorrent_peer_linking.Artifacts.Manifest.{json_string_or_empty}

pub record PendingArtifactSession : Type 0 where
  pub output_paths : OutputPaths
  pub run_id : String
  pub session_id : String
  pub state : ArtifactState
  pub state_text : String
  pub has_state_file : Bool
  pub state_file_valid : Bool

-- `if (!entry.is_directory()) continue`
unfoldable pub with_directory :
    {D : Double}
    → Option (Entry D)
    → PendingArtifactSession
    → List PendingArtifactSession
    → List PendingArtifactSession
with_directory none session sessions = sessions
with_directory (some directory) session sessions = session ∷ sessions
with_directory (some (document value)) session sessions = sessions
with_directory (some other_file) session sessions = sessions

module _ {D : Double} (h : Host) where
  path_from_files : Option (Json D) → Place → String → Place → Place
  unfolding json_string_or_empty
  path_from_files (some (object files)) session_dir key fallback =
      let value = json_string_or_empty (object files) key in
      if is_empty value
      then fallback
      else absolute h (join (record { is_absolute = true; names = session_dir }) (path_of value))
  path_from_files _ session_dir key fallback = fallback

  -- A relative path in the file is one below the session's directory.
  unfoldable pub path_from_state_file : Json D → Place → String → Place → Place
  unfolding path_from_files value_find
  path_from_state_file state session_dir key fallback =
      path_from_files (value_find state "files") session_dir key fallback

  -- What is known of a session before its file state.json is read.
  unfoldable pub unread_session : World D → Place → PendingArtifactSession
  unread_session w session_dir =
      let output_paths = artifact_paths_for_session_dir session_dir in
      record {
        output_paths = output_paths;
        run_id = "";
        session_id = filename session_dir;
        state = ArtifactState.unknown;
        state_text = "";
        has_state_file = exists w output_paths.state_json_path;
        state_file_valid = false;
      }

  unfoldable pub read_session : PendingArtifactSession → Result (Json D) → PendingArtifactSession
  read_session session (err message) = record session {
    state = ArtifactState.unknown;
    state_text = "invalid";
  }
  read_session session (ok state_json) =
      let paths = session.output_paths in
      let manifest_session_id = json_string_or_empty state_json "session_id" in
      record session {
        state_text = json_string_or_empty state_json "state";
        state = artifact_state_from_string (json_string_or_empty state_json "state");
        run_id = json_string_or_empty state_json "run_id";
        session_id =
            if is_empty manifest_session_id then session.session_id else manifest_session_id;
        output_paths = record paths {
          state_json_path =
              path_from_state_file state_json paths.artifact_dir "state_json" paths.state_json_path;
          event_log_path =
              path_from_state_file state_json paths.artifact_dir "event_log" paths.event_log_path;
          summary_json_path =
              path_from_state_file state_json paths.artifact_dir "summary_json"
                paths.summary_json_path;
        };
        state_file_valid = true;
      }

  unfoldable pub pending_session : World D → Place → PendingArtifactSession
  unfolding unread_session
  pending_session w session_dir =
      let session = unread_session w session_dir in
      if session.has_state_file
      then read_session session (read_json_file h session.output_paths.state_json_path w)
      else session

  -- The loop over the entries of the directory.
  unfoldable pub collect_sessions : World D → Place → List String → List PendingArtifactSession
  unfolding with_directory
  collect_sessions w pending_dir [] = []
  collect_sessions w pending_dir (n ∷ names) =
      let session_dir = push_back pending_dir n in
      with_directory (w.entry session_dir) (pending_session w session_dir)
        (collect_sessions w pending_dir names)

-- `std::sort` by the names of the directories, which differ.
unfoldable pub session_lt : PendingArtifactSession → PendingArtifactSession → Bool
session_lt lhs rhs =
    str_lt (filename lhs.output_paths.artifact_dir) (filename rhs.output_paths.artifact_dir)

unfoldable pub insert_session :
    PendingArtifactSession → List PendingArtifactSession → List PendingArtifactSession
insert_session s [] = s ∷ []
insert_session s (t ∷ rest) = if session_lt t s then t ∷ insert_session s rest else s ∷ t ∷ rest

unfoldable pub sort_sessions : List PendingArtifactSession → List PendingArtifactSession
unfolding insert_session
sort_sessions [] = []
sort_sessions (s ∷ rest) = insert_session s (sort_sessions rest)

-- `std::filesystem::directory_iterator` throws at what is no directory.
list_sessions :
    {D : Double} → Host → World D → Place → Option (Entry D) → Result (List PendingArtifactSession)
unfolding sort_sessions collect_sessions
list_sessions h w pending_dir none = ok []
list_sessions h w pending_dir (some directory) =
    ok (sort_sessions (collect_sessions h w pending_dir (h.listing (exists w) pending_dir)))
list_sessions h w pending_dir (some (document value)) = err (h.filesystem_error pending_dir)
list_sessions h w pending_dir (some other_file) = err (h.filesystem_error pending_dir)

unfoldable pub find_pending_artifact_sessions :
    {D : Double} → Host → World D → FilePath → Result (List PendingArtifactSession)
unfolding list_sessions
find_pending_artifact_sessions h w artifacts_dir =
    let pending_dir = pending_artifacts_dir h artifacts_dir in
    list_sessions h w pending_dir (w.entry pending_dir)
