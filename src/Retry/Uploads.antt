-- ===== src/Retry/Uploads.antt =====
-- One session of `retry_pending_artifact_uploads` of src/main.cpp: its upload and its archiving.
use mathlib.Core.Path.{subst}
use bittorrent_peer_linking.Base.{
  ℕ, ◌≡◌, refl, sym, ap, ◌∙◌, false, String, ◌<>◌, some, push_back, ◌⊎◌, inl, inr, Bool-cases,
}
use bittorrent_peer_linking.Base.Results.{Result, ok, err, Result-cases}
use bittorrent_peer_linking.Double.{Double}
use bittorrent_peer_linking.Json.{Json}
use bittorrent_peer_linking.Paths.{Place, same_place, parent_path}
use bittorrent_peer_linking.Exec.{continue}
use bittorrent_peer_linking.Exec.Respects.{Relation, Respects, bind-Respects}
use bittorrent_peer_linking.Disk.{Host, World, document, exists, create_directories, rename}
use bittorrent_peer_linking.Disk.Laws.{Later, same_entry, same_place-eq, create-Spares}
use bittorrent_peer_linking.Disk.Moves.{rename-unsent}
use bittorrent_peer_linking.Config.{RuntimeConfig, OutputPaths}
use bittorrent_peer_linking.Artifacts.{ArtifactState, artifact_paths_for_session_dir}
use bittorrent_peer_linking.Artifacts.Manifest.{
  load_existing_state_or_empty, write_artifact_state, record_artifact_upload_failure,
}
use bittorrent_peer_linking.Artifacts.Kept.{HasFailure}
use bittorrent_peer_linking.Artifacts.Failures.{
  write_state-Spares, record-Spares, record-HasFailure, load-Later,
}
use bittorrent_peer_linking.Artifacts.Archive.{
  archive_place, move_session, archive_artifact_session,
}
use bittorrent_peer_linking.Sender.{Curl, ArtifactSendResult, send_artifacts_to_destination}
use bittorrent_peer_linking.Sender.Checks.{upload_form}
use bittorrent_peer_linking.Sender.Uploads.{after_upload, send-Once, send-Accepted}
use bittorrent_peer_linking.Retry.{
  record_upload_failure_or_throw, record_and_rethrow, upload_session,
}

abbrev silent : (D : Double) → Relation (World D)
silent D = record {
  Leads = λ w w'. w'.requests ≡ w.requests;
  stays = λ w. refl;
  chains = λ u v w a b. b ∙ a;
}

-- The text of the exception, by whether the failure could be recorded.
unfoldable pub recorded : String → Result (Unit {0}) → String
recorded what (ok _) = what
recorded what (err message) =
    what <> ("; additionally failed to update state.json with the upload failure: " <> message)

module _ {D : Double} (h : Host) where
  -- Archiving sends nothing.
  move-silent :
      (config : RuntimeConfig) (dir archive : Place)
      → Respects (silent D) (move_session h config dir archive)
  unfolding move_session
  move-silent config dir archive =
      let there = artifact_paths_for_session_dir archive in
      bind-Respects (silent D) (create_directories h (parent_path archive)) _
        (λ w. (create-Spares h (λ q. false) (parent_path archive) w).unsent)
        (λ _. bind-Respects (silent D) (rename h dir archive) _ (rename-unsent h dir archive) (λ _.
          bind-Respects (silent D) (write_artifact_state h config there ArtifactState.archived) _
            (λ w. (write_state-Spares h config there ArtifactState.archived w).unsent)
            (λ _. λ w. refl)))

  archive-silent :
      (config : RuntimeConfig) (paths : OutputPaths)
      → Respects (silent D) (archive_artifact_session h config paths)
  unfolding archive_artifact_session
  archive-silent config paths w =
      elim (Bool-cases (exists w (archive_place h config paths.artifact_dir))) [
        | inl taken ↦ rw taken
        | inr free ↦
            rw free
              (move-silent config paths.artifact_dir (archive_place h config paths.artifact_dir) w)
      ]

  rethrow-err :
      (config : RuntimeConfig) (paths : OutputPaths) (what : String) (w : World D)
      → record_and_rethrow h config paths what w ≡ (
        err (recorded what (record_artifact_upload_failure h config paths what w).0),
        (record_artifact_upload_failure h config paths what w).1,
      )
  unfolding record_and_rethrow record_upload_failure_or_throw recorded
  rethrow-err config paths what w =
      elim (Result-cases (record_artifact_upload_failure h config paths what w).0) [
        | inl (_, e) ↦ rw e
        | inr (message, e) ↦ rw e
      ]

module _ {D : Double} (h : Host) (curl : Curl) where
  pub attempt-fails :
      (config : RuntimeConfig) (paths : OutputPaths) (what : String) (w : World D)
      → (send_artifacts_to_destination curl config paths w).0 ≡ err what
      → let v = (send_artifacts_to_destination curl config paths w).1 in
        upload_session h curl config paths w ≡ (
          err (recorded what (record_artifact_upload_failure h config paths what v).0),
          (record_artifact_upload_failure h config paths what v).1,
        )
  unfolding upload_session
  attempt-fails config paths what w thrown =
      let v = (send_artifacts_to_destination curl config paths w).1 in
      rw thrown (
        ap
          (λ (x : Result ArtifactSendResult × World D).
            continue x.0 (λ _. archive_artifact_session h config paths) x.1)
          (rethrow-err h config paths what v))

  pub attempt-goes_on :
      (config : RuntimeConfig) (paths : OutputPaths) (r : ArtifactSendResult) (w : World D)
      → (send_artifacts_to_destination curl config paths w).0 ≡ ok r
      → upload_session h curl config paths w
        ≡ archive_artifact_session h config paths
            (send_artifacts_to_destination curl config paths w).1
  unfolding upload_session
  attempt-goes_on config paths r w sent = rw sent

  -- A failed upload leaves the disk as it was.
  send-entry :
      (config : RuntimeConfig) (paths : OutputPaths) (w : World D) (q : Place)
      → (send_artifacts_to_destination curl config paths w).1.entry q ≡ w.entry q
  unfolding after_upload
  send-entry config paths w q = elim (send-Once curl config paths w) [
    | inl (message, e) ↦ ap (λ (x : Result ArtifactSendResult × World D). x.1.entry q) e
    | inr (sendable, e) ↦ ap (λ (x : World D). x.entry q) e
  ]

  -- When the sending throws, the session is not archived: the exception is thrown on, with a
  -- note where the failure could not be recorded; outside the file state.json entries stay as they
  -- were, where at most directories are made; and where the failure could be recorded, state.json holds one more failure, with that
  -- exception's text, over the state of before.
  pub upload-Fails :
      (config : RuntimeConfig) (paths : OutputPaths) (what : String) (w : World D)
      → (send_artifacts_to_destination curl config paths w).0 ≡ err what
      → ((q : Place)
          → (paths.state_json_path ≡ q)
            ⊎ Later (w.entry q) ((upload_session h curl config paths w).1.entry q))
        × (((message : String) × ((upload_session h curl config paths w).0
                ≡ err (
                    what
                    <> ("; additionally failed to update state.json with the upload failure: "
                        <> message))))
            ⊎ (((upload_session h curl config paths w).0 ≡ err what)
                × ((tick : ℕ) × (state : Json D) × ((upload_session h curl config paths w).1.entry
                        paths.state_json_path
                      ≡ some (document state))
                    × HasFailure config what
                        (h.clock tick)
                        (load_existing_state_or_empty h paths w)
                        state)))
  unfolding recorded
  upload-Fails config paths what w thrown =
      let v = (send_artifacts_to_destination curl config paths w).1 in
      let e = attempt-fails config paths what w thrown in
      let after : Result OutputPaths × World D → World D = λ x. x.1 in
      let outcome : Result OutputPaths × World D → Result OutputPaths = λ x. x.0 in
      (
        λ q. elim (Bool-cases (same_place paths.state_json_path q)) [
          | inl same ↦ inl (same_place-eq paths.state_json_path q same)
          | inr other ↦ inr (
              subst (λ (x : World D). Later (w.entry q) (x.entry q)) (sym (ap after e))
                (subst
                  (λ o. Later o ((record_artifact_upload_failure h config paths what v).1.entry q))
                  (send-entry config paths w q)
                  ((record-Spares h config paths what v).kept q other)))
        ],
        elim (Result-cases (record_artifact_upload_failure h config paths what v).0) [
          | inr (message, failed) ↦
              inl (message, ap outcome e ∙ ap (λ r. err (recorded what r)) failed)
          | inl (_, done) ↦
              let (tick, state, there, holds) = record-HasFailure h config paths what v done in
              inr (
                ap outcome e ∙ ap (λ r. err (recorded what r)) done,
                (
                  tick,
                  state,
                  ap (λ (x : World D). x.entry paths.state_json_path) (ap after e) ∙ there,
                  subst (λ previous. HasFailure config what (h.clock tick) previous state)
                      (load-Later h paths paths w v
                        (same_entry (send-entry config paths w paths.state_json_path)))
                      holds,
                ),
              )
        ],
      )

  -- What one session adds to the requests.
  pub upload-sends :
      (config : RuntimeConfig) (paths : OutputPaths) (w : World D)
      → ((message : String) × ((upload_session h curl config paths w).0 ≡ err message)
          × ((upload_session h curl config paths w).1.requests ≡ w.requests))
        ⊎ ((upload_session h curl config paths w).1.requests
            ≡ push_back w.requests (upload_form config paths))
  unfolding after_upload
  upload-sends config paths w =
      elim (Result-cases (send_artifacts_to_destination curl config paths w).0) [
        | inl (r, sent) ↦
            let (_, e, _, _, _, _) = send-Accepted curl config paths w r sent in
            inr (
              ap (λ (x : Result OutputPaths × World D). x.1.requests)
                (attempt-goes_on config paths r w sent)
              ∙ archive-silent h config paths (send_artifacts_to_destination curl config paths w).1
              ∙ ap (λ (x : World D). x.requests) e)
        | inr (what, thrown) ↦
            let v = (send_artifacts_to_destination curl config paths w).1 in
            let e = attempt-fails config paths what w thrown in
            let silent_there : (upload_session h curl config paths w).1.requests ≡ v.requests =
              ap (λ (x : Result OutputPaths × World D). x.1.requests) e
              ∙ (record-Spares h config paths what v).unsent in
            elim (send-Once curl config paths w) [
              | inl (_, same) ↦ inl (
                recorded what (record_artifact_upload_failure h config paths what v).0,
                ap (λ (x : Result OutputPaths × World D). x.0) e,
                silent_there ∙ ap (λ (x : Result ArtifactSendResult × World D). x.1.requests) same,
              )
              | inr (_, one) ↦ inr (silent_there ∙ ap (λ (x : World D). x.requests) one)
            ]
      ]
