-- ===== src/Publish/Laws.antt =====
-- What the exit codes of src/main.cpp tell of an upload.
use mathlib.Core.Path.{subst}
use bittorrent_peer_linking.Base.{◌≡◌, refl, sym, ap, ◌∙◌, ◌≤◌, ◌<◌, false, is_empty, inl, inr}
use bittorrent_peer_linking.Base.Results.{Result, ok, err, err_apart, Result-cases}
use bittorrent_peer_linking.Double.{Double}
use bittorrent_peer_linking.Disk.{Host, World}
use bittorrent_peer_linking.Config.{RuntimeConfig, OutputPaths}
use bittorrent_peer_linking.Artifacts.Archive.{archive_place}
use bittorrent_peer_linking.Artifacts.Moves.{IsArchived, archive-IsArchived}
use bittorrent_peer_linking.Sender.{
  Curl, ArtifactSendResult, send_result_of, send_artifacts_to_destination,
}
use bittorrent_peer_linking.Sender.Checks.{IsSendable}
use bittorrent_peer_linking.Sender.Uploads.{after_upload, upload_reply, send-Accepted}
use bittorrent_peer_linking.Retry.{upload_session}
use bittorrent_peer_linking.Retry.Uploads.{attempt-fails, attempt-goes_on}
use bittorrent_peer_linking.Publish.{code_of, publish}

-- A session that was sent in one request, the whole form, to which libcurl's reply was a good end of
-- the transfer with a status of success, and that was archived.
pub record IsPublished {D : Double} (h : Host) (curl : Curl) (config : RuntimeConfig)
    (paths : OutputPaths) (w w' : World D) : Type 0 where
  pub sendable : IsSendable config paths w
  pub transferred : (upload_reply curl config paths w).result ≡ 0
  pub accepted :
      (200 ≤ (upload_reply curl config paths w).response_code)
      × ((upload_reply curl config paths w).response_code < 300)
  pub there : OutputPaths
  pub archived :
      IsArchived h paths.artifact_dir
        (archive_place h config paths.artifact_dir)
        (after_upload config paths w)
        there
        w'

code-ok : {A : Type 0} (r : Result A) → code_of r ≡ 0 → (a : A) × (r ≡ ok a)
unfolding code_of
code-ok (ok a) e = (a, refl)
code-ok (err message) e = absurd (cc e)

module _ {D : Double} (h : Host) (curl : Curl) (config : RuntimeConfig) (paths : OutputPaths) where
  upload-IsPublished :
      (w : World D) (there : OutputPaths)
      → (upload_session h curl config paths w).0 ≡ ok there
      → IsPublished h curl config paths w (upload_session h curl config paths w).1
  unfolding send_result_of
  upload-IsPublished w there done =
      elim (Result-cases (send_artifacts_to_destination curl config paths w).0) [
        | inr (what, thrown) ↦ absurd (
            err_apart _ there (
              sym (
                ap (λ (x : Result OutputPaths × World D). x.0)
                  (attempt-fails h curl config paths what w thrown))
              ∙ done))
        | inl (r, sent) ↦
            let (sendable, e, ended, low, high, r_is) = send-Accepted curl config paths w r sent in
            let replied : (200 ≤ (upload_reply curl config paths w).response_code)
                × ((upload_reply curl config paths w).response_code < 300) =
              subst (λ (x : ArtifactSendResult). (200 ≤ x.status_code) × (x.status_code < 300)) r_is
                (low, high) in
            let go = attempt-goes_on h curl config paths r w sent in
            let v = (send_artifacts_to_destination curl config paths w).1 in
            let (_, moved) =
              archive-IsArchived h config paths v there
                (sym (ap (λ (x : Result OutputPaths × World D). x.0) go) ∙ done) in
            let place = archive_place h config paths.artifact_dir in
            record {
              sendable = sendable;
              transferred = ended;
              accepted = replied;
              there = there;
              archived =
                  subst
                    (λ u.
                      IsArchived h paths.artifact_dir place u there
                        (upload_session h curl config paths w).1)
                    e
                    (subst (λ u. IsArchived h paths.artifact_dir place v there u)
                      (sym (ap (λ (x : Result OutputPaths × World D). x.1) go)) moved);
            }
      ]

  -- When a destination is configured and the program returns 0, exactly one request was made, the
  -- whole form with the session's files; libcurl's reply to it is a good end of the transfer with a
  -- status from 200 to 299; and the session was archived.
  pub publish-IsPublished :
      (w : World D)
      → is_empty config.destination_url ≡ false
      → (publish h curl config paths w).0 ≡ 0
      → IsPublished h curl config paths w (publish h curl config paths w).1
  unfolding publish
  publish-IsPublished w known done =
      let upload = upload_session h curl config paths w in
      let code : (publish h curl config paths w).0 ≡ code_of upload.0 = rw known refl in
      let (there, e) = code-ok upload.0 (sym code ∙ done) in rw known (upload-IsPublished w there e)
