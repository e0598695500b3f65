-- ===== src/Outputs/Laws.antt =====
-- What `prepare_output_paths` of src/logging.cpp guarantees.
use bittorrent_peer_linking.Base.{
  ◌≡◌, ◌↔◌, refl, sym, ap, ◌∙◌, arith, true, false, String, ◌<>◌, Option, none, some, List, [], ◌∷◌,
  push_back, ◌⊎◌, inl, inr, Bool-cases, Option-cases,
}
use bittorrent_peer_linking.Base.Results.{Result, ok, err, ok_injective, Result-cases}
use bittorrent_peer_linking.Double.{Double}
use bittorrent_peer_linking.Paths.{FilePath, Place, join, name, path_of, text_of, parent_path}
use bittorrent_peer_linking.Artifacts.{absolute}
use mathlib.Core.Path.{subst}
use mathlib.Core.List.{Mem, not-mem-nil}
use bittorrent_peer_linking.Exec.{pure, ◌>>◌}
use bittorrent_peer_linking.Exec.Respects.{Respects, bind-Respects, bind-returns}
use bittorrent_peer_linking.Disk.{
  Host, World, Io, Entry, directory, document, other_file, exists, create_directories,
  ensure_parent_directory,
}
use bittorrent_peer_linking.Disk.Made.{stays_directory, create-entry}
use bittorrent_peer_linking.Disk.Laws.{Spares, sparing, create-Spares}
use bittorrent_peer_linking.Config.{RuntimeConfig, OutputPaths}
use bittorrent_peer_linking.Outputs.{
  session_place, path_or, chosen_paths, no_entries, refusal, make_outputs, unless_refused,
  prepare_output_paths,
}

-- The paths that the configuration and the command line ask for: the session's directory is that of
-- its id among the pending ones, its state stands in there, and so do the event log and the summary
-- that the command line does not place elsewhere.
pub record AreAsked (h : Host) (config : RuntimeConfig) (event_log summary_json : Option FilePath)
    (paths : OutputPaths) : Type 0 where
  pub in_pending :
      paths.artifact_dir
      ≡ absolute h (join (join config.artifacts_dir (name "pending")) (path_of config.session_id))
  pub state_in : paths.state_json_path ≡ push_back paths.artifact_dir "state.json"
  pub log_in :
      event_log ≡ none → paths.event_log_path ≡ push_back paths.artifact_dir "session_events.ndjson"
  pub log_at : (p : FilePath) → event_log ≡ some p → paths.event_log_path ≡ absolute h p
  pub summary_in :
      summary_json ≡ none
      → paths.summary_json_path ≡ push_back paths.artifact_dir "session_summary.json"
  pub summary_at : (p : FilePath) → summary_json ≡ some p → paths.summary_json_path ≡ absolute h p

-- The place has no entry in it, and so is free, or an empty directory.
abbrev pub IsBare : {D : Double} → World D → Place → Type 0
IsBare w p =
    (w.entry p ≡ none)
    ⊎ ((w.entry p ≡ some directory) × ((n : String) → w.entry (push_back p n) ≡ none))

-- What is so after the preparation of the paths: at most directories are made, and it threw, or no
-- archive had the name, the session's place was free or an empty directory, and is a directory.
pub record IsPrepared {D : Double} (h : Host) (config : RuntimeConfig)
    (event_log summary_json : Option FilePath) (w : World D) (x : Result OutputPaths × World D)
    : Type 0 where
  pub spared : Spares (λ q. false) w x.1
  pub outcome :
      ((message : String) × (x.0 ≡ err message))
      ⊎ ((paths : OutputPaths) × (x.0 ≡ ok paths)
          × AreAsked h config event_log summary_json paths
          × (w.entry (session_place h config "archive") ≡ none)
          × IsBare w paths.artifact_dir
          × (x.1.entry paths.artifact_dir ≡ some directory))

-- The names that a directory's iterator gives are those of its entries.
abbrev pub IsListed : {D : Double} → Host → World D → Place → Type 0
IsListed h w p = (n : String) → (exists w (push_back p n) ≡ true) ↔ Mem n (h.listing (exists w) p)

not_empty : Place → String
not_empty p =
    "artifact directory already exists and is not empty: "
    <> (text_of p <> "; choose a different --session-id or resolve the pending artifacts")

some_apart : {A : Type 0} (a : A) → some a ≡ none → ⊥
some_apart a e = cc e

chosen-AreAsked :
    (h : Host) (config : RuntimeConfig) (event_log summary_json : Option FilePath)
    → AreAsked h config event_log summary_json (chosen_paths h config event_log summary_json)
unfolding chosen_paths path_or session_place
chosen-AreAsked h config event_log summary_json = record {
  in_pending = refl;
  state_in = refl;
  log_in = λ e. rw e refl;
  log_at = λ p e. rw e refl;
  summary_in = λ e. rw e refl;
  summary_at = λ p e. rw e refl;
}

no_entries-nil : (names : List String) → no_entries names ≡ true → names ≡ []
unfolding no_entries
no_entries-nil [] e = refl
no_entries-nil (n ∷ names) e = absurd (cc e)

module _ {D : Double} where
  found : (w : World D) (p : Place) (e : Entry D) → w.entry p ≡ some e → exists w p ≡ true
  unfolding exists
  found w p e there = ground (arith, there)

  missing : (w : World D) (p : Place) → exists w p ≡ false → w.entry p ≡ none
  missing w p free = elim (Option-cases (w.entry p)) [
    | inl e ↦ e
    | inr (e, there) ↦ absurd (true_apart (sym (found w p e there) ∙ free))
  ]
    where
      true_apart : true ≡ false → ⊥
      true_apart e = cc e

module _ {D : Double} (h : Host) where
  -- The call behind the creation of the session's directory.
  abbrev parents : OutputPaths → Io D OutputPaths
  parents paths = do
    ensure_parent_directory h paths.event_log_path
    ensure_parent_directory h paths.summary_json_path
    pure paths

  parents-Spares : (paths : OutputPaths) → Respects (sparing D (λ q. false)) (parents paths)
  unfolding ensure_parent_directory
  parents-Spares paths =
      let s = sparing D (λ q. false) in
      bind-Respects s (ensure_parent_directory h paths.event_log_path) _
        (create-Spares h (λ q. false) (parent_path paths.event_log_path))
        (λ _.
          bind-Respects s (ensure_parent_directory h paths.summary_json_path) _
            (create-Spares h (λ q. false) (parent_path paths.summary_json_path)) (λ _. s.stays))

  make-Spares : (paths : OutputPaths) → Respects (sparing D (λ q. false)) (make_outputs h paths)
  unfolding make_outputs
  make-Spares paths =
      bind-Respects (sparing D (λ q. false)) (create_directories h paths.artifact_dir) _
        (create-Spares h (λ q. false) paths.artifact_dir) (λ _. parents-Spares paths)

  parents-result :
      (paths result : OutputPaths) (w : World D) → (parents paths w).0 ≡ ok result → result ≡ paths
  parents-result paths result w done =
      let outcome : Result OutputPaths × World D → Result OutputPaths = λ x. x.0 in
      let end : Io D OutputPaths =
        ensure_parent_directory h paths.summary_json_path >> pure paths in
      let (_, _, e) =
        bind-returns (ensure_parent_directory h paths.event_log_path) (λ _. end) w result done in
      let v = (ensure_parent_directory h paths.event_log_path w).1 in
      let (_, _, f) =
        bind-returns (ensure_parent_directory h paths.summary_json_path) (λ _. pure paths) v result
          (sym (ap outcome e) ∙ done) in
      sym (ok_injective paths result (sym (ap outcome f) ∙ sym (ap outcome e) ∙ done))

  make-directory :
      (paths result : OutputPaths) (w : World D)
      → w.entry [] ≡ some directory
      → (make_outputs h paths w).0 ≡ ok result
      → (result ≡ paths) × ((make_outputs h paths w).1.entry paths.artifact_dir ≡ some directory)
  unfolding make_outputs
  make-directory paths result w root done =
      let v = (create_directories h paths.artifact_dir w).1 in
      let (_, created, e) =
        bind-returns (create_directories h paths.artifact_dir) (λ _. parents paths) w result done in
      let outcome : Result OutputPaths × World D → Result OutputPaths = λ x. x.0 in
      (
        parents-result paths result v (sym (ap outcome e) ∙ done),
        ap (λ (x : Result OutputPaths × World D). x.1.entry paths.artifact_dir) e
            ∙ stays_directory (v.entry paths.artifact_dir)
                ((parents paths v).1.entry paths.artifact_dir)
                ((parents-Spares paths v).kept paths.artifact_dir refl)
                (create-entry h paths.artifact_dir w root created),
      )

  -- An iterator that is at its end has no entries.
  bare_directory :
      (w : World D) (p : Place)
      → IsListed h w p
      → no_entries (h.listing (exists w) p) ≡ true
      → (n : String) → w.entry (push_back p n) ≡ none
  bare_directory w p listed empty n = elim (Option-cases (w.entry (push_back p n))) [
    | inl e ↦ e
    | inr (entry, e) ↦ absurd (
        not-mem-nil
          (subst (Mem n) (no_entries-nil _ empty) ((listed n).0 (found w (push_back p n) entry e))))
  ]

  -- What stood at the session's place.
  refusal-IsBare :
      (w : World D) (p : Place) (o : Option (Entry D))
      → IsListed h w p
      → w.entry p ≡ o
      → refusal h w p o ≡ none
      → IsBare w p
  unfolding refusal not_empty
  refusal-IsBare w p none listed e free = inl e
  refusal-IsBare w p (some directory) listed e free =
      elim (Bool-cases (no_entries (h.listing (exists w) p))) [
        | inl bare ↦ inr (e, bare_directory w p listed bare)
        | inr full ↦ absurd (some_apart (not_empty p) (sym (rw full) ∙ free))
      ]
  refusal-IsBare w p (some (document value)) listed e free = absurd (cc free)
  refusal-IsBare w p (some other_file) listed e free = absurd (cc free)

  module _ (config : RuntimeConfig) (event_log summary_json : Option FilePath) where
    prepared :
        (w : World D) (o : Option String)
        → let paths = chosen_paths h config event_log summary_json in
          w.entry [] ≡ some directory
          → IsListed h w paths.artifact_dir
          → w.entry (session_place h config "archive") ≡ none
          → refusal h w paths.artifact_dir (w.entry paths.artifact_dir) ≡ o
          → IsPrepared h config event_log summary_json w (unless_refused h o paths w)
    unfolding unless_refused
    prepared w (some message) root listed fresh e = record {
      spared = (sparing D (λ q. false)).stays w;
      outcome = inl (message, refl);
    }
    prepared w none root listed fresh e =
        let paths = chosen_paths h config event_log summary_json in
        record {
          spared = make-Spares paths w;
          outcome = elim (Result-cases (make_outputs h paths w).0) [
            | inr thrown ↦ inl thrown
            | inl (result, done) ↦
                let (same, there) = make-directory paths result w root done in
                inr (
                  paths,
                  done ∙ ap ok same,
                  chosen-AreAsked h config event_log summary_json,
                  fresh,
                  refusal-IsBare w paths.artifact_dir (w.entry paths.artifact_dir) listed refl e,
                  there,
                )
          ];
        }

    -- Whether it returns or throws, it sends nothing, and every entry of the disk stays as it was,
    -- where at most directories are made. When it returns, no archive had the session's name, the
    -- session's place was free or a directory with no entry in it, and is a directory now; the
    -- state's path is in it, and so are those of the event log and of the summary, unless the command
    -- line gives them. The root is taken to be a directory, and the listing of the session's place to
    -- name its entries.
    pub prepare-IsPrepared :
        (w : World D)
        → w.entry [] ≡ some directory
        → IsListed h w (chosen_paths h config event_log summary_json).artifact_dir
        → IsPrepared h config event_log summary_json w
            (prepare_output_paths h config event_log summary_json w)
    unfolding prepare_output_paths
    prepare-IsPrepared w root listed =
        let archive = session_place h config "archive" in
        let paths = chosen_paths h config event_log summary_json in
        elim (Bool-cases (exists w archive)) [
          | inl taken ↦ rw taken (record {
            spared = (sparing D (λ q. false)).stays w;
            outcome = inl (
              "archive artifact directory already exists: "
                  <> (text_of archive <> "; choose a different --session-id"),
              refl,
            );
          })
          | inr fresh ↦ rw fresh (
              prepared w (refusal h w paths.artifact_dir (w.entry paths.artifact_dir)) root listed
                (missing w archive fresh) refl)
        ]
