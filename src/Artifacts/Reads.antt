-- ===== src/Artifacts/Reads.antt =====
-- A session's file state.json of src/artifact_lifecycle.cpp, written and read back.
use mathlib.Core.Path.{subst}
use bittorrent_peer_linking.Base.{
  ◌≡◌, refl, sym, ap, ◌∙◌, arith, true, false, is_empty, some, push_back,
}
use bittorrent_peer_linking.Base.Results.{ok}
use bittorrent_peer_linking.Double.{Double}
use bittorrent_peer_linking.Json.{Json, string, value_find}
use bittorrent_peer_linking.Paths.{Place}
use bittorrent_peer_linking.Disk.{Host, World, document, other_file, exists, read_json_file}
use bittorrent_peer_linking.Config.{RuntimeConfig}
use bittorrent_peer_linking.Artifacts.{
  ArtifactState, artifact_state_name, artifact_paths_for_session_dir,
}
use bittorrent_peer_linking.Artifacts.Manifest.{json_string_or_empty, write_artifact_state}
use bittorrent_peer_linking.Artifacts.Failures.{write_state-names}
use bittorrent_peer_linking.Artifacts.Names.{from_name}
use bittorrent_peer_linking.Artifacts.Pending.{
  PendingArtifactSession, unread_session, read_session, pending_session,
}

-- What a search finds of a session, as it was written.
pub record IsRead (config : RuntimeConfig) (s : ArtifactState) (session : PendingArtifactSession)
    : Type 0 where
  pub has_state : session.state ≡ s
  pub is_named : session.state_text ≡ artifact_state_name s
  pub has_run : session.run_id ≡ config.run_id
  pub has_session : session.session_id ≡ config.session_id
  pub is_valid : session.state_file_valid ≡ true

module _ {D : Double} (h : Host) where
  session-IsRead :
      (config : RuntimeConfig) (s : ArtifactState) (session : PendingArtifactSession)
      (state : Json D)
      → is_empty config.session_id ≡ false
      → value_find state "state" ≡ some (string (artifact_state_name s))
      → value_find state "run_id" ≡ some (string config.run_id)
      → value_find state "session_id" ≡ some (string config.session_id)
      → IsRead config s (read_session h session (ok state))
  unfolding read_session json_string_or_empty
  session-IsRead config s session state known named run id = record {
    has_state = rw named (from_name s);
    is_named = rw named refl;
    has_run = rw run refl;
    has_session = rw (id, known) refl;
    is_valid = refl;
  }

  found :
      (p : Place) (state : Json D) (w : World D)
      → w.entry p ≡ some (document state)
      → exists w p ≡ true
  unfolding exists
  found p state w there = ground (arith, there)

  -- The state file of a directory, where there is one, is what a search reads.
  pub pending-reads :
      (dir : Place) (state : Json D) (w : World D)
      → w.entry (push_back dir "state.json") ≡ some (document state)
      → pending_session h w dir ≡ read_session h (unread_session h w dir) (ok state)
  unfolding pending_session read_json_file artifact_paths_for_session_dir unread_session
      read_session
  pending-reads dir state w there =
      rw (found (push_back dir "state.json") state w there, there) refl

  read_session-state :
      (s : ArtifactState) (session : PendingArtifactSession) (state : Json D)
      → value_find state "state" ≡ some (string (artifact_state_name s))
      → (read_session h session (ok state)).state ≡ s
  unfolding read_session json_string_or_empty
  read_session-state s session state named = rw named (from_name s)

  -- The search takes the state from the file.
  pub pending_session-state :
      (s : ArtifactState) (dir : Place) (state : Json D) (w : World D)
      → w.entry (push_back dir "state.json") ≡ some (document state)
      → value_find state "state" ≡ some (string (artifact_state_name s))
      → (pending_session h w dir).state ≡ s
  pending_session-state s dir state w there named =
      ap (λ (x : PendingArtifactSession). x.state) (pending-reads dir state w there)
      ∙ read_session-state s (unread_session h w dir) state named

  broken : (p : Place) (w : World D) → w.entry p ≡ some other_file → exists w p ≡ true
  unfolding exists
  broken p w there = ground (arith, there)

  -- A state file that holds no JSON value is an invalid one, of a session in no known state.
  pub pending_session-broken :
      (dir : Place) (w : World D)
      → w.entry (push_back dir "state.json") ≡ some other_file
      → ((pending_session h w dir).state ≡ ArtifactState.unknown)
        × ((pending_session h w dir).state_text ≡ "invalid")
  unfolding pending_session read_json_file artifact_paths_for_session_dir unread_session
      read_session
  pending_session-broken dir w there =
      rw (broken (push_back dir "state.json") w there, there) (refl, refl)

  -- A state that was written to a session's directory with success, for a session with an id, is read
  -- back by the search: its state, run id and session id, from a valid file.
  pub written-IsRead :
      (config : RuntimeConfig) (dir : Place) (s : ArtifactState) (w : World D)
      → is_empty config.session_id ≡ false
      → (write_artifact_state h config (artifact_paths_for_session_dir dir) s w).0 ≡ ok tt
      → IsRead config s (
          pending_session h
            (write_artifact_state h config (artifact_paths_for_session_dir dir) s w).1
            dir)
  unfolding artifact_paths_for_session_dir
  written-IsRead config dir s w known done =
      let paths = artifact_paths_for_session_dir dir in
      let (state, there, named, run, id) = write_state-names h config paths s w done in
      subst (IsRead config s)
        (sym (pending-reads dir state (write_artifact_state h config paths s w).1 there))
        (session-IsRead config s _ state known named run id)
