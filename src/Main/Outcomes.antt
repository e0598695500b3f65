-- ===== src/Main/Outcomes.antt =====
-- What the exit codes and the state on disk tell of a session of src/main.cpp.
use mathlib.Core.Path.{subst}
use bittorrent_peer_linking.Base.{
  ◌≡◌, refl, sym, ap, ◌∙◌, false, String, some, List, push_back, ◌⊎◌, inl, inr,
}
use bittorrent_peer_linking.Base.Results.{Result, ok, err, err_apart, ok_injective, Result-cases}
use bittorrent_peer_linking.Double.{Double}
use bittorrent_peer_linking.Json.{Json, string, value_find}
use bittorrent_peer_linking.Exec.{pure, ◌>>=◌, ◌>>◌}
use bittorrent_peer_linking.Exec.Respects.{bind-returns}
use bittorrent_peer_linking.Util.Platform.{Platform}
use bittorrent_peer_linking.Config.{RuntimeConfig, OutputPaths}
use bittorrent_peer_linking.Disk.{Host, World, Io, document, other_file}
use bittorrent_peer_linking.Disk.Broken.{Later-some}
use bittorrent_peer_linking.Artifacts.{ArtifactState, artifact_state_name}
use bittorrent_peer_linking.Artifacts.Manifest.{write_artifact_state}
use bittorrent_peer_linking.Artifacts.Failures.{write_state-names, write_state-BreaksOff}
use bittorrent_peer_linking.Artifacts.Pending.{PendingArtifactSession, pending_session}
use bittorrent_peer_linking.Retry.{is_ready}
use bittorrent_peer_linking.Artifacts.Reads.{pending_session-state, pending_session-broken}
use bittorrent_peer_linking.Loop.{Tick}
use bittorrent_peer_linking.Main.{capture_session}
use bittorrent_peer_linking.Main.Capturing.{Engine, Ended, record_session}
use bittorrent_peer_linking.Main.Frame.{written_files, record-Spares}

module _ {D : Double} (h : Host) (platform : Platform) (engine : Engine D) (config : RuntimeConfig)
    (paths : OutputPaths) where
  -- What a run does after it has written the state `capturing`.
  abbrev started : World D → World D
  started w = (write_artifact_state h config paths ArtifactState.capturing w).1

  abbrev last_steps : Io D OutputPaths
  last_steps = write_artifact_state h config paths ArtifactState.ready_to_upload >> pure paths

  abbrev after_start_of : List (Tick D) → Io D OutputPaths
  after_start_of ticks = record_session h platform config paths engine ticks >>= λ _. last_steps

  -- A session that no later run takes for a ready one: it is still in the state `capturing`, or its
  -- state's file is invalid.
  abbrev pub IsUnready : PendingArtifactSession → Type 0
  IsUnready session =
      (is_ready session ≡ false)
      × ((session.state ≡ ArtifactState.capturing)
          ⊎ ((session.state ≡ ArtifactState.unknown) × (session.state_text ≡ "invalid")))

  unready :
      (session : PendingArtifactSession)
      → (session.state ≡ ArtifactState.capturing)
        ⊎ ((session.state ≡ ArtifactState.unknown) × (session.state_text ≡ "invalid"))
      → IsUnready session
  unready session (inl e) = (rw e refl, inl e)
  unready session (inr (e, text)) = (rw e refl, inr (e, text))

  found-IsUnready :
      (state : Json D) (w : World D)
      → paths.state_json_path ≡ push_back paths.artifact_dir "state.json"
      → value_find state "state" ≡ some (string (artifact_state_name ArtifactState.capturing))
      → (w.entry paths.state_json_path ≡ some (document state))
        ⊎ (w.entry paths.state_json_path ≡ some other_file)
      → IsUnready (pending_session h w paths.artifact_dir)
  found-IsUnready state w named is_capturing (inl there) =
      unready (pending_session h w paths.artifact_dir) (
        inl (
          pending_session-state h ArtifactState.capturing paths.artifact_dir state w
            (subst (λ p. w.entry p ≡ some (document state)) named there) is_capturing))
  found-IsUnready state w named is_capturing (inr broken) =
      unready (pending_session h w paths.artifact_dir) (
        inr (
          pending_session-broken h paths.artifact_dir w
            (subst (λ p. w.entry p ≡ some other_file) named broken)))

  last-throws :
      (message : String) (w : World D)
      → (last_steps w).0 ≡ err message
      → ((text : String) × ((write_artifact_state h config paths ArtifactState.ready_to_upload w).0
            ≡ err text))
        × ((last_steps w).1
            ≡ (write_artifact_state h config paths ArtifactState.ready_to_upload w).1)
  last-throws message w thrown =
      let last = write_artifact_state h config paths ArtifactState.ready_to_upload in
      elim (Result-cases (last w).0) [
        | inl (_, e) ↦ absurd (err_apart message paths (sym (rw e at thrown)))
        | inr (text, e) ↦ ((text, e), rw e refl)
      ]

  -- If the state `capturing` was written with success and any later call of the session throws, be it
  -- the write of the state `ready_to_upload` itself, then a search finds the session still in the
  -- state `capturing`, or its state's file invalid, where that write broke off, so that no later run
  -- takes it for one that is ready. The state's file must be `state.json` of the session's directory,
  -- and neither the event log nor the summary.
  pub failed-IsCapturing :
      (ticks : List (Tick D)) (message : String) (w : World D)
      → paths.state_json_path ≡ push_back paths.artifact_dir "state.json"
      → written_files paths paths.state_json_path ≡ false
      → (write_artifact_state h config paths ArtifactState.capturing w).0 ≡ ok tt
      → (capture_session h platform engine config paths ticks w).0 ≡ err message
      → IsUnready (
          pending_session h
            (capture_session h platform engine config paths ticks w).1
            paths.artifact_dir)
  unfolding capture_session
  failed-IsCapturing ticks message w named apart begun thrown =
      let v = started w in
      let run = record_session h platform config paths engine ticks in
      let value = λ (x : Result OutputPaths × World D). x.0 in
      let outcome = λ (x : Result OutputPaths × World D).
        IsUnready (pending_session h x.1 paths.artifact_dir) in
      let (state, there, is_capturing, _, _) =
        write_state-names h config paths ArtifactState.capturing w begun in
      let spared = record-Spares h platform config paths engine ticks v in
      let still = Later-some _ _ (document state) (spared.kept paths.state_json_path apart) there in
      let first : capture_session h platform engine config paths ticks w ≡ after_start_of ticks v =
        rw begun refl in
      elim (Result-cases (run v).0) [
        | inr (text, e) ↦
            let all : after_start_of ticks v ≡ (err text, (run v).1) = rw e refl in
            subst outcome (sym (first ∙ all))
              (found-IsUnready state (run v).1 named is_capturing (inl still))
        | inl (ended, e) ↦
            let all : after_start_of ticks v ≡ last_steps (run v).1 = rw e refl in
            let ((text, failed), same) =
              last-throws message (run v).1 (sym (ap value (first ∙ all)) ∙ thrown) in
            let remains =
              write_state-BreaksOff h config paths ArtifactState.ready_to_upload (run v).1 text
                failed (document state) still in
            subst outcome (sym (first ∙ all)) (
              subst (λ u. IsUnready (pending_session h u paths.artifact_dir)) (sym same)
                (found-IsUnready state _ named is_capturing remains))
      ]

  -- A session that ends without an exception has recorded its run and is ready to be sent.
  pub captured-IsReady :
      (ticks : List (Tick D)) (there : OutputPaths) (w : World D)
      → paths.state_json_path ≡ push_back paths.artifact_dir "state.json"
      → (capture_session h platform engine config paths ticks w).0 ≡ ok there
      → (there ≡ paths)
        × ((ended : Ended D) × ((record_session h platform config paths engine ticks (started w)).0
              ≡ ok ended))
        × ((pending_session h
              (capture_session h platform engine config paths ticks w).1
              paths.artifact_dir).state
            ≡ ArtifactState.ready_to_upload)
  unfolding capture_session
  captured-IsReady ticks there w named done =
      let first = write_artifact_state h config paths ArtifactState.capturing in
      let run = record_session h platform config paths engine ticks in
      let last = write_artifact_state h config paths ArtifactState.ready_to_upload in
      let v = (run (started w)).1 in
      let value = λ (x : Result OutputPaths × World D). x.0 in
      let (_, _, go1) = bind-returns first (λ _. after_start_of ticks) w there done in
      let done1 = sym (ap value go1) ∙ done in
      let (ended, e2, go2) = bind-returns run (λ _. last_steps) (started w) there done1 in
      let done2 = sym (ap value go2) ∙ done1 in
      let (_, e3, go3) = bind-returns last (λ _. pure paths) v there done2 in
      let (state, written, is_ready, _, _) =
        write_state-names h config paths ArtifactState.ready_to_upload v e3 in
      let all : capture_session h platform engine config paths ticks w ≡ (ok paths, (last v).1) =
        go1 ∙ go2 ∙ go3 in
      (
        ok_injective there paths (sym done ∙ ap value all),
        (ended, e2),
        ap (λ (x : Result OutputPaths × World D). (pending_session h x.1 paths.artifact_dir).state)
              all
            ∙ pending_session-state h ArtifactState.ready_to_upload paths.artifact_dir state
                (last v).1 (subst (λ p. (last v).1.entry p ≡ some (document state)) named written)
                is_ready,
      )
