-- ===== src/Artifacts/Failures.antt =====
-- What the calls of src/artifact_lifecycle.cpp on the file state.json keep and what they write.
use mathlib.Core.Path.{subst}
use bittorrent_peer_linking.Base.{
  ℕ, suc, ◌≡◌, refl, sym, ap, ◌∙◌, arith, false, String, Option, none, some,
}
use bittorrent_peer_linking.Base.Results.{Result, ok}
use bittorrent_peer_linking.Double.{Double}
use bittorrent_peer_linking.Exec.{gets, ◌>>=◌, ◌>>◌}
use bittorrent_peer_linking.Exec.Respects.{Respects, bind-Respects, bind-returns}
use bittorrent_peer_linking.Json.{
  Json, null, boolean, integer, real, string, array, object, end, value_find,
}
use bittorrent_peer_linking.Util.{TimestampPair}
use bittorrent_peer_linking.Paths.{same_place}
use bittorrent_peer_linking.Disk.{
  Host, World, Entry, directory, document, other_file, Io, exists, capture_timestamp,
  create_directories, read_json_file, write_json_file,
}
use bittorrent_peer_linking.Disk.Broken.{BreaksOff, bind-BreaksOff, write_json-BreaksOff}
use bittorrent_peer_linking.Disk.Laws.{
  Later, same_entry, made, sparing, create-Spares, write_json-Spares, timestamp-Spares,
  write_json-entry,
}
use bittorrent_peer_linking.Config.{RuntimeConfig, OutputPaths}
use bittorrent_peer_linking.Artifacts.{ArtifactState, artifact_state_name}
use bittorrent_peer_linking.Artifacts.Kept.{
  HasFailure, with_failure-HasFailure, kept-failures, kept-attempts, kept-name, kept-run,
  kept-session,
}
use bittorrent_peer_linking.Artifacts.Manifest.{
  attempts_of, failures_of, failure_json, with_failure, load_existing_state_or_empty,
  base_state_json, created_utc_for_state, write_artifact_state, record_artifact_upload_failure,
}

module _ {D : Double} (h : Host) where
  -- What a place of the disk tells of the last state.
  last_state : Option (Entry D) → Json D
  last_state (some (document (object m))) = object m
  last_state _ = object end

  load-last :
      (paths : OutputPaths) (o : Option (Entry D)) (w : World D)
      → w.entry paths.state_json_path ≡ o
      → load_existing_state_or_empty h paths w ≡ last_state o
  unfolding load_existing_state_or_empty exists read_json_file last_state
  load-last paths none w e = ground (arith, e)
  load-last paths (some directory) w e = ground (arith, e)
  load-last paths (some other_file) w e = ground (arith, e)
  load-last paths (some (document (object m))) w e = ground (arith, e)
  load-last paths (some (document null)) w e = ground (arith, e)
  load-last paths (some (document (boolean b))) w e = ground (arith, e)
  load-last paths (some (document (integer n))) w e = ground (arith, e)
  load-last paths (some (document (real r))) w e = ground (arith, e)
  load-last paths (some (document (string s))) w e = ground (arith, e)
  load-last paths (some (document (array items))) w e = ground (arith, e)

  -- Where an entry is as before or a new directory, the last state is as before, also at another
  -- place.
  pub load-Later :
      (paths paths' : OutputPaths) (w w' : World D)
      → Later (w.entry paths.state_json_path) (w'.entry paths'.state_json_path)
      → load_existing_state_or_empty h paths' w' ≡ load_existing_state_or_empty h paths w
  unfolding last_state
  load-Later paths paths' w w' (same_entry e) =
      load-last paths' (w.entry paths.state_json_path) w' e
      ∙ sym (load-last paths (w.entry paths.state_json_path) w refl)
  load-Later paths paths' w w' (made e f) =
      load-last paths' (some directory) w' f ∙ sym (load-last paths none w e)

  -- Both writers make the directory, read the clock, and write the file state.json.
  abbrev writer : OutputPaths → (TimestampPair → World D → Json D) → Io D (Unit {0})
  writer paths content = do
    create_directories h paths.artifact_dir
    now ← capture_timestamp h
    state_json ← gets (content now)
    write_json_file h paths.state_json_path state_json

  writer-Spares :
      (paths : OutputPaths) (content : TimestampPair → World D → Json D)
      → Respects (sparing D (same_place paths.state_json_path)) (writer paths content)
  writer-Spares paths content =
      let t = same_place paths.state_json_path in
      bind-Respects (sparing D t) (create_directories h paths.artifact_dir) _
        (create-Spares h t paths.artifact_dir)
        (λ _.
          bind-Respects (sparing D t) (capture_timestamp h) _ (timestamp-Spares h t)
            (λ now. λ w. write_json-Spares h paths.state_json_path (content now w) w))

  pub write_state-Spares :
      (config : RuntimeConfig) (paths : OutputPaths) (state : ArtifactState)
      → Respects
          (sparing D (same_place paths.state_json_path))
          (write_artifact_state h config paths state)
  unfolding write_artifact_state
  write_state-Spares config paths state =
      writer-Spares paths (λ now. λ w. object (base_state_json h config paths state now w))

  -- A state that could not be written leaves the last one, or a file that holds no JSON value.
  pub write_state-BreaksOff :
      (config : RuntimeConfig) (paths : OutputPaths) (state : ArtifactState)
      → BreaksOff {D = D} paths.state_json_path (write_artifact_state h config paths state)
  unfolding write_artifact_state
  write_state-BreaksOff config paths state =
      let p = paths.state_json_path in
      bind-BreaksOff p (create_directories h paths.artifact_dir) _
        (create-Spares h (λ q. false) paths.artifact_dir)
        (λ _. bind-BreaksOff p (capture_timestamp h) _ (timestamp-Spares h (λ q. false)) (λ now.
          λ w. write_json-BreaksOff h p (object (base_state_json h config paths state now w)) w))

  -- Whether it succeeds or throws, the record of a failure sends nothing, and outside the file
  -- state.json entries stay as they were, where at most directories are made.
  pub record-Spares :
      (config : RuntimeConfig) (paths : OutputPaths) (error_message : String)
      → Respects
          (sparing D (same_place paths.state_json_path))
          (record_artifact_upload_failure h config paths error_message)
  unfolding record_artifact_upload_failure
  record-Spares config paths error_message = writer-Spares paths (λ now. λ w. object (
      with_failure (base_state_json h config paths ArtifactState.ready_to_upload now w)
        (failure_json config now error_message) now))

  -- A writer that returns has written its content, at a reading of the clock and for a disk to
  -- which at most directories were added.
  writer-entry :
      (paths : OutputPaths) (content : TimestampPair → World D → Json D) (w : World D)
      → (writer paths content w).0 ≡ ok tt
      → (tick : ℕ) × (v : World D) × Later
          (w.entry paths.state_json_path)
          (v.entry paths.state_json_path)
        × ((writer paths content w).1.entry paths.state_json_path
            ≡ some (document (content (h.clock tick) v)))
  unfolding capture_timestamp
  writer-entry paths content w done =
      let v = (create_directories h paths.artifact_dir w).1 in
      let (_, _, e) =
        bind-returns (create_directories h paths.artifact_dir)
          (λ _. capture_timestamp h >>= λ now.
            gets (content now) >>= λ j. write_json_file h paths.state_json_path j)
          w tt done in
      let v' : World D = record v { ticks = suc v.ticks } in
      (
        v.ticks,
        v',
        (create-Spares h (λ q. false) paths.artifact_dir w).kept paths.state_json_path refl,
        ap (λ (r : Result (Unit {0}) × World D). r.1.entry paths.state_json_path) e
            ∙ write_json-entry h paths.state_json_path (content (h.clock v.ticks) v') v'
                (sym (ap (λ (r : Result (Unit {0}) × World D). r.0) e) ∙ done),
      )

  -- A failure that is recorded with success leaves a file state.json in which the state is
  -- "ready_to_upload", the attempts are one more than in the last state, the failures are those of the last state and
  -- the new one, and the last failure is the new one; the last state is the empty object where the file
  -- was missing or held no JSON object.
  pub record-HasFailure :
      (config : RuntimeConfig) (paths : OutputPaths) (error_message : String) (w : World D)
      → (record_artifact_upload_failure h config paths error_message w).0 ≡ ok tt
      → (tick : ℕ) × (state : Json D) × ((record_artifact_upload_failure h config paths
              error_message w).1.entry
            paths.state_json_path
          ≡ some (document state))
        × HasFailure config error_message
            (h.clock tick)
            (load_existing_state_or_empty h paths w)
            state
  unfolding record_artifact_upload_failure base_state_json
  record-HasFailure config paths error_message w done =
      let content : TimestampPair → World D → Json D = λ now. λ w. object (
        with_failure (base_state_json h config paths ArtifactState.ready_to_upload now w)
          (failure_json config now error_message) now) in
      let (tick, v, later, e) = writer-entry paths content w done in
      (
        tick,
        content (h.clock tick) v,
        e,
        subst
            (λ previous.
              HasFailure config error_message (h.clock tick) previous (content (h.clock tick) v))
            (load-Later paths paths w v later)
            (with_failure-HasFailure (load_existing_state_or_empty h paths v) config paths
              (created_utc_for_state h paths (h.clock tick) v) error_message (h.clock tick)),
      )

  -- A state that is written with success stands in state.json under its name, with the failures and
  -- the attempts of the last state, which is the empty object where the file was missing or held no
  -- JSON object.
  pub write_state-Keeps :
      (config : RuntimeConfig) (paths : OutputPaths) (s : ArtifactState) (w : World D)
      → (write_artifact_state h config paths s w).0 ≡ ok tt
      → (state : Json D) × ((write_artifact_state h config paths s w).1.entry paths.state_json_path
          ≡ some (document state))
        × (value_find state "state" ≡ some (string (artifact_state_name s)))
        × (failures_of (value_find state "upload_failures")
            ≡ failures_of (value_find (load_existing_state_or_empty h paths w) "upload_failures"))
        × (attempts_of (value_find state "upload_attempt_count")
            ≡ attempts_of
                (value_find (load_existing_state_or_empty h paths w) "upload_attempt_count"))
  unfolding write_artifact_state base_state_json value_find
  write_state-Keeps config paths s w done =
      let content : TimestampPair → World D → Json D =
        λ now. λ v. object (base_state_json h config paths s now v) in
      let (tick, v, later, e) = writer-entry paths content w done in
      let now = h.clock tick in
      let last = load_existing_state_or_empty h paths v in
      let created = created_utc_for_state h paths now v in
      let same = load-Later paths paths w v later in
      (
        content now v,
        e,
        kept-name last config paths s created now,
        kept-failures last config paths s created now
            ∙ ap (λ j. failures_of (value_find j "upload_failures")) same,
        kept-attempts last config paths s created now
            ∙ ap (λ j. attempts_of (value_find j "upload_attempt_count")) same,
      )

  -- The ids and the state's name that are written.
  pub write_state-names :
      (config : RuntimeConfig) (paths : OutputPaths) (s : ArtifactState) (w : World D)
      → (write_artifact_state h config paths s w).0 ≡ ok tt
      → (state : Json D) × ((write_artifact_state h config paths s w).1.entry paths.state_json_path
          ≡ some (document state))
        × (value_find state "state" ≡ some (string (artifact_state_name s)))
        × (value_find state "run_id" ≡ some (string config.run_id))
        × (value_find state "session_id" ≡ some (string config.session_id))
  unfolding write_artifact_state base_state_json value_find
  write_state-names config paths s w done =
      let content : TimestampPair → World D → Json D =
        λ now. λ v. object (base_state_json h config paths s now v) in
      let (tick, v, _, e) = writer-entry paths content w done in
      let now = h.clock tick in
      let last = load_existing_state_or_empty h paths v in
      let created = created_utc_for_state h paths now v in
      (
        content now v,
        e,
        kept-name last config paths s created now,
        kept-run last config paths s created now,
        kept-session last config paths s created now,
      )
