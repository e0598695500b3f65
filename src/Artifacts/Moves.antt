-- ===== src/Artifacts/Moves.antt =====
-- What `archive_artifact_session` of src/artifact_lifecycle.cpp does to the disk.
use mathlib.Core.Path.{subst}
use bittorrent_peer_linking.Base.{
  ◌≡◌, refl, sym, ap, ◌∙◌, false, Option, none, some, [], ◌∷◌, ◌++◌, ◌<>◌, push_back,
  push_back-append, Bool-cases, Option-cases, ◌⊎◌, inl, inr,
}
use bittorrent_peer_linking.Base.Results.{Result, ok, err_apart, ok_injective}
use bittorrent_peer_linking.Double.{Double}
use bittorrent_peer_linking.Json.{Json, string, value_find}
use bittorrent_peer_linking.Paths.{Place, text_of, same_place, below, parent_path}
use bittorrent_peer_linking.Exec.{pure, ◌>>◌}
use bittorrent_peer_linking.Exec.Respects.{bind-returns}
use bittorrent_peer_linking.Disk.{Host, World, Io, document, exists, create_directories, rename}
use bittorrent_peer_linking.Disk.Laws.{Later, Later_trans, create-Spares, same_place-eq}
use bittorrent_peer_linking.Disk.Moves.{below-append, rename-moves, rename-leaves, rename-unsent}
use bittorrent_peer_linking.Config.{RuntimeConfig, OutputPaths}
use bittorrent_peer_linking.Artifacts.{
  archived, artifact_state_name, artifact_paths_for_session_dir,
}
use bittorrent_peer_linking.Artifacts.Manifest.{
  load_existing_state_or_empty, failures_of, write_artifact_state,
}
use bittorrent_peer_linking.Artifacts.Failures.{write_state-Spares, write_state-Keeps, load-Later}
use bittorrent_peer_linking.Artifacts.Archive.{
  archive_place, move_session, archive_artifact_session,
}

-- The disk after a session was archived, and the paths that came back.
pub record IsArchived {D : Double} (h : Host) (dir archive : Place) (w : World D)
    (paths : OutputPaths) (w' : World D) : Type 0 where
  pub placed : paths ≡ artifact_paths_for_session_dir archive
  pub moved :
      (names : Place)
      → (paths.state_json_path ≡ archive ++ names)
        ⊎ Later (w.entry (dir ++ names)) (w'.entry (archive ++ names))
  pub left :
      (names : Place)
      → ((rest : Place) × (below archive (dir ++ names) ≡ some rest))
        ⊎ Later none (w'.entry (dir ++ names))
  pub named :
      (state : Json D) × (w'.entry paths.state_json_path ≡ some (document state))
      × (value_find state "state" ≡ some (string "archived"))
      × (failures_of (value_find state "upload_failures")
          ≡ failures_of (
              value_find
                (load_existing_state_or_empty h (artifact_paths_for_session_dir dir) w)
                "upload_failures"))
  pub unsent : w'.requests ≡ w.requests

none_apart : {A : Type 0} (a : A) → Option.none ≡ some a → ⊥
none_apart a e = cc e

module _ {D : Double} (h : Host) (config : RuntimeConfig) (dir archive : Place) (w : World D) where
  abbrev paths_there : OutputPaths
  paths_there = artifact_paths_for_session_dir archive

  abbrev made_ready : World D
  made_ready = (create_directories h (parent_path archive) w).1

  abbrev moved_there : World D
  moved_there = (rename h dir archive made_ready).1

  abbrev settled : World D
  settled = (write_artifact_state h config paths_there archived moved_there).1

  abbrev state_place : Place
  state_place = push_back archive "state.json"

  create-Later : (q : Place) → Later (w.entry q) (made_ready.entry q)
  create-Later q = (create-Spares h (λ q. false) (parent_path archive) w).kept q refl

  write-Later :
      (q : Place) → same_place state_place q ≡ false → Later (moved_there.entry q) (settled.entry q)
  unfolding artifact_paths_for_session_dir
  write-Later q other = (write_state-Spares h config paths_there archived moved_there).kept q other

  -- The file state.json is one of what is below the directory.
  state-apart : (q : Place) → below archive q ≡ none → same_place state_place q ≡ false
  state-apart q apart = elim (Bool-cases (same_place state_place q)) [
    | inr other ↦ other
    | inl same ↦ absurd (
        none_apart ("state.json" ∷ []) (
          sym apart
          ∙ ap (below archive)
              (sym (same_place-eq state_place q same) ∙ push_back-append archive "state.json")
          ∙ below-append archive ("state.json" ∷ [])))
  ]

  module _ (renamed : (rename h dir archive made_ready).0 ≡ ok tt) where
    state-Later : Later (w.entry (push_back dir "state.json")) (moved_there.entry state_place)
    state-Later =
        subst (λ o. Later (w.entry (push_back dir "state.json")) o)
          (ap made_ready.entry (push_back-append dir "state.json")
            ∙ sym (rename-moves h dir archive made_ready ("state.json" ∷ []) renamed)
            ∙ ap moved_there.entry (sym (push_back-append archive "state.json")))
          (create-Later (push_back dir "state.json"))

    settled-Archived :
        (write_artifact_state h config paths_there archived moved_there).0 ≡ ok tt
        → IsArchived h dir archive w paths_there settled
    unfolding artifact_paths_for_session_dir artifact_state_name
    settled-Archived written = record {
      placed = refl;
      moved = λ names. elim (Bool-cases (same_place state_place (archive ++ names))) [
        | inl same ↦ inl (same_place-eq state_place (archive ++ names) same)
        | inr other ↦ inr (
            Later_trans (w.entry (dir ++ names)) (moved_there.entry (archive ++ names))
              (settled.entry (archive ++ names))
              (subst (λ o. Later (w.entry (dir ++ names)) o)
                (sym (rename-moves h dir archive made_ready names renamed))
                (create-Later (dir ++ names)))
              (write-Later (archive ++ names) other))
      ];
      left = λ names. elim (Option-cases (below archive (dir ++ names))) [
        | inr inside ↦ inl inside
        | inl apart ↦ inr (
            subst (λ o. Later o (settled.entry (dir ++ names)))
              (rename-leaves h dir archive made_ready names apart renamed)
              (write-Later (dir ++ names) (state-apart (dir ++ names) apart)))
      ];
      named =
          let (state, e, name, kept, _) =
            write_state-Keeps h config paths_there archived moved_there written in
          (
            state,
            e,
            name,
            kept
                ∙ ap (λ j. failures_of (value_find j "upload_failures"))
                    (load-Later h (artifact_paths_for_session_dir dir) paths_there w moved_there
                      state-Later),
          );
      unsent =
          (write_state-Spares h config paths_there archived moved_there).unsent
          ∙ rename-unsent h dir archive made_ready
          ∙ (create-Spares h (λ q. false) (parent_path archive) w).unsent;
    }

module _ {D : Double} (h : Host) where
  session-Archived :
      (config : RuntimeConfig) (dir archive : Place) (w : World D) (paths : OutputPaths)
      → (move_session h config dir archive w).0 ≡ ok paths
      → IsArchived h dir archive w paths (move_session h config dir archive w).1
  unfolding move_session
  session-Archived config dir archive w paths done =
      let w1 = made_ready h config dir archive w in
      let w2 = moved_there h config dir archive w in
      let there = artifact_paths_for_session_dir archive in
      let finish : Io D OutputPaths = write_artifact_state h config there archived >> pure there in
      let (_, _, e1) =
        bind-returns (create_directories h (parent_path archive))
          (λ _. rename h dir archive >> finish) w paths done in
      let outcome : Result OutputPaths × World D → Result OutputPaths = λ x. x.0 in
      let done1 = sym (ap outcome e1) ∙ done in
      let (_, renamed, e2) = bind-returns (rename h dir archive) (λ _. finish) w1 paths done1 in
      let done2 = sym (ap outcome e2) ∙ done1 in
      let (_, written, e3) =
        bind-returns (write_artifact_state h config there archived) (λ _. pure there) w2 paths
          done2 in
      let whole = e1 ∙ e2 ∙ e3 in
      let same : there ≡ paths = ok_injective there paths (sym (ap outcome whole) ∙ done) in
      subst (λ (x : OutputPaths × World D). IsArchived h dir archive w x.0 x.1)
        (ap (λ a. (a, settled h config dir archive w)) same
          ∙ ap (λ (x : Result OutputPaths × World D). (paths, x.1)) (sym whole))
        (settled-Archived h config dir archive w renamed written)

  -- When a session was archived, its directory in the archive was free and its paths there came
  -- back; each place below the session's directory has its entry at the same place below the archive's,
  -- but for state.json, which names the state archived and holds the failures of before; below the old
  -- directory, what is not below the new one is empty but for new directories; and nothing is sent.
  pub archive-IsArchived :
      (config : RuntimeConfig) (paths : OutputPaths) (w : World D) (paths' : OutputPaths)
      → (archive_artifact_session h config paths w).0 ≡ ok paths'
      → (exists w (archive_place h config paths.artifact_dir) ≡ false)
        × IsArchived h paths.artifact_dir
            (archive_place h config paths.artifact_dir)
            w
            paths'
            (archive_artifact_session h config paths w).1
  unfolding archive_artifact_session
  archive-IsArchived config paths w paths' done =
      let archive = archive_place h config paths.artifact_dir in
      elim (Bool-cases (exists w archive)) [
        | inl taken ↦ absurd (
            err_apart ("archive artifact directory already exists: " <> text_of archive) paths'
              (sym (rw taken) ∙ done))
        | inr free ↦ (
          free,
          rw free
              (session-Archived config paths.artifact_dir archive w paths' (sym (rw free) ∙ done)),
        )
      ]
