-- ===== src/Retry.antt =====
-- `retry_pending_artifact_uploads` of src/main.cpp: the sessions that are ready are sent to the
-- destination and archived. Its console output is left out.
pub mod Uploads
pub mod Outcomes
pub mod Again
use bittorrent_peer_linking.Base.{
  Bool, true, false, String, is_empty, ◌<>◌, List, [], ◌∷◌, if◌then◌else◌,
}
use bittorrent_peer_linking.Base.Results.{ok, err}
use bittorrent_peer_linking.Double.{Double}
use bittorrent_peer_linking.Paths.{filename}
use bittorrent_peer_linking.Exec.{continue, pure, raise, try_catch, ◌>>=◌, ◌>>◌}
use bittorrent_peer_linking.Disk.{Host, World, Io}
use bittorrent_peer_linking.Config.{RuntimeConfig, OutputPaths}
use bittorrent_peer_linking.Artifacts.{ArtifactState, capturing, ready_to_upload, archived, unknown}
use bittorrent_peer_linking.Artifacts.Manifest.{record_artifact_upload_failure}
use bittorrent_peer_linking.Artifacts.Pending.{
  PendingArtifactSession, find_pending_artifact_sessions,
}
use bittorrent_peer_linking.Artifacts.Archive.{archive_artifact_session}
use bittorrent_peer_linking.Sender.{Curl, ArtifactSendResult, send_artifacts_to_destination}

abbrev pub is_ready : PendingArtifactSession → Bool
is_ready session = elim session.state [ ready_to_upload ↦ true | _ ↦ false ]

-- The configuration under which a pending session is sent.
unfoldable pub upload_config_of : RuntimeConfig → PendingArtifactSession → RuntimeConfig
upload_config_of config session = record config {
  run_id = if is_empty session.run_id then config.run_id else session.run_id;
  session_id =
      if is_empty session.session_id
      then filename session.output_paths.artifact_dir
      else session.session_id;
}

module _ {D : Double} (h : Host) where
  unfoldable pub record_upload_failure_or_throw :
      RuntimeConfig → OutputPaths → String → Io D (Unit {0})
  record_upload_failure_or_throw config output_paths upload_error =
      try_catch (record_artifact_upload_failure h config output_paths upload_error) (λ what. raise (
        upload_error
        <> ("; additionally failed to update state.json with the upload failure: " <> what)))

  -- The failure is recorded, and thrown again.
  unfoldable pub record_and_rethrow : RuntimeConfig → OutputPaths → String → Io D ArtifactSendResult
  record_and_rethrow config output_paths what = do
    record_upload_failure_or_throw config output_paths what
    raise what

module _ {D : Double} (h : Host) (curl : Curl) where
  -- One session that is ready.
  unfoldable pub upload_session : RuntimeConfig → OutputPaths → Io D OutputPaths
  unfolding record_and_rethrow
  upload_session config output_paths = do
    send_result ←
        try_catch (send_artifacts_to_destination curl config output_paths)
          (record_and_rethrow h config output_paths)
    archive_artifact_session h config output_paths

  unfoldable pub retry_sessions : RuntimeConfig → List PendingArtifactSession → Bool → Io D Bool
  retry_sessions config [] uploaded_any = pure uploaded_any
  retry_sessions config (session ∷ sessions) uploaded_any =
      let skip = retry_sessions config sessions uploaded_any in
      let go_on = retry_sessions config sessions true in
      if is_ready session
      then (if is_empty config.destination_url
          then skip
          else upload_session (upload_config_of config session) session.output_paths >> go_on)
      else skip

  unfoldable pub retry_pending_artifact_uploads : RuntimeConfig → Io D Bool
  unfolding retry_sessions upload_session
  retry_pending_artifact_uploads config w =
      continue (find_pending_artifact_sessions h w config.artifacts_dir)
        (λ sessions. retry_sessions config sessions false) w
