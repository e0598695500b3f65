-- ===== src/Main/Codes.antt =====
-- What the exit code of src/main.cpp tells of a session that has begun.
use bittorrent_peer_linking.Base.{
  ℕ, ◌≡◌, refl, sym, ap, ◌∙◌, true, false, String, is_empty, some, List, [], push_back, inl, inr,
  Bool-cases,
}
use bittorrent_peer_linking.Base.Results.{Result, ok, err, err_apart, ok_injective, Result-cases}
use bittorrent_peer_linking.Double.{Double}
use bittorrent_peer_linking.Exec.Respects.{bind-returns}
use bittorrent_peer_linking.Util.Platform.{Platform}
use bittorrent_peer_linking.Paths.{Place}
use bittorrent_peer_linking.Config.{RuntimeConfig, OutputPaths}
use bittorrent_peer_linking.Disk.{Host, World, directory}
use bittorrent_peer_linking.Artifacts.{ArtifactState}
use bittorrent_peer_linking.Artifacts.Pending.{pending_session}
use bittorrent_peer_linking.Args.{Args}
use bittorrent_peer_linking.Outputs.{chosen_paths, prepare_output_paths}
use bittorrent_peer_linking.Outputs.Laws.{IsListed, prepare-IsPrepared}
use bittorrent_peer_linking.Loop.{Tick}
use bittorrent_peer_linking.Sender.{Curl}
use bittorrent_peer_linking.Retry.{upload_session}
use bittorrent_peer_linking.Publish.{publish, code_of}
use bittorrent_peer_linking.Publish.Laws.{IsPublished, publish-IsPublished}
use bittorrent_peer_linking.Main.{with_ids, capture_session, run_capture, exit_code, run_begun}
use bittorrent_peer_linking.Main.Capturing.{Engine}
use bittorrent_peer_linking.Main.Outcomes.{captured-IsReady}

module _ {D : Double} (h : Host) (platform : Platform) (engine : Engine D) (args : Args) where
  abbrev pub config_used : RuntimeConfig
  config_used = with_ids platform args.config

  -- The session returned its paths, and a search finds it in the state `ready_to_upload`.
  pub record IsCaptured (x : Result OutputPaths × World D) (paths : OutputPaths) : Type 0 where
    pub returned : x.0 ≡ ok paths
    pub is_ready : (pending_session h x.1 paths.artifact_dir).state ≡ ArtifactState.ready_to_upload

  -- The session's place, which the listing of its directory must name the entries of.
  abbrev pub session_dir : Place
  session_dir =
      (chosen_paths h config_used args.event_log_override args.summary_json_override).artifact_dir

  prepared-named :
      (paths : OutputPaths) (w : World D)
      → w.entry [] ≡ some directory
      → IsListed h w session_dir
      → (prepare_output_paths h config_used args.event_log_override args.summary_json_override w).0
        ≡ ok paths
      → paths.state_json_path ≡ push_back paths.artifact_dir "state.json"
  prepared-named paths w root listed done =
      elim (prepare-IsPrepared h config_used args.event_log_override args.summary_json_override w
        root listed).outcome [
          | inl (message, e) ↦ absurd (err_apart message paths (sym e ∙ done))
          | inr (there, e, asked, _, _, _) ↦
              rw (ok_injective paths there (sym done ∙ e)) asked.state_in
        ]

  run_capture-IsCaptured :
      (ticks : List (Tick D)) (paths : OutputPaths) (w : World D)
      → w.entry [] ≡ some directory
      → IsListed h w session_dir
      → (run_capture h platform engine args ticks w).0 ≡ ok paths
      → IsCaptured (run_capture h platform engine args ticks w) paths
  unfolding run_capture
  run_capture-IsCaptured ticks paths w root listed done =
      let prepare =
        prepare_output_paths h config_used args.event_log_override args.summary_json_override in
      let capture = λ (p : OutputPaths). capture_session h platform engine config_used p ticks in
      let (p, e, go) = bind-returns prepare capture w paths done in
      let captured : (capture p (prepare w).1).0 ≡ ok paths =
        sym (ap (λ (x : Result OutputPaths × World D). x.0) go) ∙ done in
      let named = prepared-named p w root listed e in
      let (same, _, ready) =
        captured-IsReady h platform engine config_used p ticks paths (prepare w).1 named captured in
      record {
        returned = done;
        is_ready = rw same (
            ap (λ (x : Result OutputPaths × World D). (pending_session h x.1 p.artifact_dir).state)
              go
            ∙ ready);
      }

  -- What an exit code of a session tells, by the session's result before its upload.
  pub data Tells (curl : Curl) (x : Result OutputPaths × World D) (outcome : ℕ × World D)
      : Type 0 where
    threw : (message : String) → x.0 ≡ err message → outcome.0 ≡ 2 → Tells curl x outcome
    waits :
        (paths : OutputPaths)
        → IsCaptured x paths
        → is_empty config_used.destination_url ≡ true
        → outcome ≡ (0, x.1)
        → Tells curl x outcome
    published :
        (paths : OutputPaths)
        → IsCaptured x paths
        → is_empty config_used.destination_url ≡ false
        → outcome.0 ≡ 0
        → IsPublished h curl config_used paths x.1 outcome.1
        → Tells curl x outcome
    unsent :
        (paths : OutputPaths) (message : String)
        → IsCaptured x paths
        → is_empty config_used.destination_url ≡ false
        → outcome.0 ≡ 3
        → (upload_session h curl config_used paths x.1).0 ≡ err message
        → Tells curl x outcome

  publish-Tells :
      (curl : Curl) (x : Result OutputPaths × World D) (paths : OutputPaths)
      → IsCaptured x paths
      → Tells curl x (publish h curl config_used paths x.1)
  unfolding publish code_of
  publish-Tells curl x paths captured = elim (Bool-cases (is_empty config_used.destination_url)) [
    | inl none_given ↦ waits paths captured none_given (rw none_given refl)
    | inr known ↦ elim (Result-cases (upload_session h curl config_used paths x.1).0) [
      | inl (there, e) ↦
          let zero : (publish h curl config_used paths x.1).0 ≡ 0 = rw (known, e) refl in
          published paths captured known zero
            (publish-IsPublished h curl config_used paths x.1 known zero)
      | inr (message, e) ↦ unsent paths message captured known (rw (known, e) refl) e
    ]
  ]

  code-Tells :
      (curl : Curl) (x : Result OutputPaths × World D)
      → ((paths : OutputPaths) → x.0 ≡ ok paths → IsCaptured x paths)
      → Tells curl x (exit_code h curl platform engine config_used x)
  unfolding exit_code
  code-Tells curl (err message, w) h = threw message refl refl
  code-Tells curl (ok paths, w) h = publish-Tells curl (ok paths, w) paths (h paths refl)

  -- Where the root of the disk is a directory and the listing of the session's place names its
  -- entries, the exit code of a session that begins tells its
  -- outcome: 2, that an exception ended it before its upload; 0, that it is in the state
  -- `ready_to_upload` and there is no destination, or that its files went to the destination in one request, whose
  -- reply had a status from 200 to 299, and were archived; 3, that it was in that state but the upload or the archiving threw.
  pub run_begun-Tells :
      (curl : Curl) (ticks : List (Tick D)) (w : World D)
      → w.entry [] ≡ some directory
      → IsListed h w session_dir
      → Tells curl
          (run_capture h platform engine args ticks w)
          (run_begun h curl platform engine args w ticks)
  unfolding run_begun
  run_begun-Tells curl ticks w root listed =
      code-Tells curl (run_capture h platform engine args ticks w)
        (λ paths e. run_capture-IsCaptured ticks paths w root listed e)
