-- ===== src/Publish.antt =====
-- The two places where `main` of src/main.cpp sends artifacts, with the exit codes: the retry before
-- a session, and the upload of the session's own files after it. Console output is left out.
pub mod Laws
use bittorrent_peer_linking.Base.{ℕ, Bool, true, false, String, is_empty, if◌then◌else◌}
use bittorrent_peer_linking.Base.Results.{Result, ok, err}
use bittorrent_peer_linking.Double.{Double}
use bittorrent_peer_linking.Disk.{Host, World}
use bittorrent_peer_linking.Config.{RuntimeConfig, OutputPaths}
use bittorrent_peer_linking.Sender.{Curl}
use bittorrent_peer_linking.Retry.{upload_session, retry_pending_artifact_uploads}

abbrev pub k_artifact_upload_failure_exit_code : ℕ
k_artifact_upload_failure_exit_code = 3

-- The program returns an exit code, or a session begins.
pub data Start : Type 0 where
  exits : ℕ → Start
  begins : Start

-- A missing torrent is an exception, with which `main` returns 2.
unfoldable pub after_retry : RuntimeConfig → Result Bool → Start
after_retry config (err message) = exits k_artifact_upload_failure_exit_code
after_retry config (ok uploaded_pending_artifacts) =
    if is_empty config.torrent_source
    then (if uploaded_pending_artifacts then exits 0 else exits 2)
    else begins

unfoldable pub code_of {ℓ} : {A : Type ℓ} → Result A → ℕ
code_of (ok a) = 0
code_of (err message) = k_artifact_upload_failure_exit_code

module _ {D : Double} (h : Host) (curl : Curl) where
  unfoldable pub start_run : RuntimeConfig → World D → Start × World D
  start_run config w =
      let (uploaded, w') = retry_pending_artifact_uploads h curl config w in
      (after_retry config uploaded, w')

  -- The exit code of the run, after the session's files are complete.
  unfoldable pub publish : RuntimeConfig → OutputPaths → World D → ℕ × World D
  publish config output_paths w =
      let (archived_paths, w') = upload_session h curl config output_paths w in
      if is_empty config.destination_url then (0, w) else (code_of archived_paths, w')
