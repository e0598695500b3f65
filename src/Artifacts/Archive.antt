-- ===== src/Artifacts/Archive.antt =====
-- `archive_artifact_session` of src/artifact_lifecycle.cpp.
use bittorrent_peer_linking.Base.{◌<>◌, push_back, if◌then◌else◌}
use bittorrent_peer_linking.Base.Results.{err}
use bittorrent_peer_linking.Double.{Double}
use bittorrent_peer_linking.Paths.{Place, text_of, filename, parent_path}
use bittorrent_peer_linking.Exec.{pure, ◌>>◌}
use bittorrent_peer_linking.Disk.{Host, Io, exists, create_directories, rename}
use bittorrent_peer_linking.Config.{RuntimeConfig, OutputPaths}
use bittorrent_peer_linking.Artifacts.{
  ArtifactState, archive_artifacts_dir, artifact_paths_for_session_dir,
}
use bittorrent_peer_linking.Artifacts.Manifest.{write_artifact_state}

-- The directory that the session moves to.
unfoldable pub archive_place : Host → RuntimeConfig → Place → Place
archive_place h config artifact_dir =
    push_back (archive_artifacts_dir h config.artifacts_dir) (filename artifact_dir)

module _ {D : Double} (h : Host) where
  unfoldable pub move_session : RuntimeConfig → Place → Place → Io D OutputPaths
  move_session config artifact_dir archive_dir = do
    create_directories h (parent_path archive_dir)
    rename h artifact_dir archive_dir
    write_artifact_state h config (artifact_paths_for_session_dir archive_dir)
        ArtifactState.archived
    pure (artifact_paths_for_session_dir archive_dir)

  unfoldable pub archive_artifact_session : RuntimeConfig → OutputPaths → Io D OutputPaths
  unfolding archive_place move_session
  archive_artifact_session config pending_output_paths w =
      let archive_dir = archive_place h config pending_output_paths.artifact_dir in
      if exists w archive_dir
      then (err ("archive artifact directory already exists: " <> text_of archive_dir), w)
      else move_session config pending_output_paths.artifact_dir archive_dir w
