-- ===== src/Artifacts/Kept.antt =====
-- The members of state.json that src/artifact_lifecycle.cpp takes over and those that it adds.
use bittorrent_peer_linking.Base.{
  ◌≡◌, refl, arith, pos, ◌+ℤ◌, String, str_eq, str_eq_iff, Option, none, some, if◌then◌else◌,
}
use bittorrent_peer_linking.Double.{Double}
use bittorrent_peer_linking.Json.{
  Json, Members, null, boolean, integer, real, string, array, object, end, member, value_find,
  find_member, set_member, push_item,
}
use bittorrent_peer_linking.Util.{TimestampPair}
use bittorrent_peer_linking.Config.{RuntimeConfig, OutputPaths}
use bittorrent_peer_linking.Artifacts.{ArtifactState, artifact_state_name}
use bittorrent_peer_linking.Artifacts.Manifest.{
  array_only, integer_only, keep, keep_failures, fresh_state, attempts_of, failures_of,
  failure_json, with_failure,
}

module _ {D : Double} where
  -- A member that was written is found, and the others are as before.
  pub find-set :
      (j k : String) (v : Json D) (m : Members D)
      → find_member j (set_member m k v) ≡ (if str_eq j k then some v else find_member j m)
  unfolding find_member set_member
  find-set j k v end = refl
  find-set j k v (member i u m) =
      ground (arith, str_eq_iff k i, str_eq_iff j k, str_eq_iff j i, find-set j k v m)

  abbrev or_else : Option (Json D) → Option (Json D) → Option (Json D)
  or_else none other = other
  or_else (some v) other = some v

  -- A member that is kept stands in place of what was there.
  find-keep :
      (j k : String) (o : Option (Json D)) (m : Members D)
      → find_member j (keep o k m)
        ≡ (if str_eq j k then or_else o (find_member j m) else find_member j m)
  unfolding keep
  find-keep j k none m = ground arith
  find-keep j k (some v) m = find-set j k v m

  failures_of-array :
      (o : Option (Json D)) → failures_of (or_else (array_only o) none) ≡ failures_of o
  unfolding array_only failures_of
  failures_of-array none = refl
  failures_of-array (some (array items)) = refl
  failures_of-array (some null) = refl
  failures_of-array (some (boolean b)) = refl
  failures_of-array (some (integer n)) = refl
  failures_of-array (some (real r)) = refl
  failures_of-array (some (string s)) = refl
  failures_of-array (some (object fields)) = refl

  attempts_of-integer :
      (o : Option (Json D)) → attempts_of (or_else (integer_only o) none) ≡ attempts_of o
  unfolding integer_only attempts_of
  attempts_of-integer none = refl
  attempts_of-integer (some (array items)) = refl
  attempts_of-integer (some null) = refl
  attempts_of-integer (some (boolean b)) = refl
  attempts_of-integer (some (integer n)) = refl
  attempts_of-integer (some (real r)) = refl
  attempts_of-integer (some (string s)) = refl
  attempts_of-integer (some (object fields)) = refl

  -- The failures of a state that is written are those of the last state.
  module _ (previous : Json D) (config : RuntimeConfig) (paths : OutputPaths)
      (state : ArtifactState) (created : String) (now : TimestampPair) where
    abbrev pub kept : Members D
    kept = keep_failures previous (fresh_state config paths state created now)

    pub kept-failures :
        failures_of (find_member "upload_failures" kept)
        ≡ failures_of (value_find previous "upload_failures")
    unfolding keep_failures fresh_state find_member
    kept-failures = simp (find-keep, failures_of-array)

    pub kept-attempts :
        attempts_of (find_member "upload_attempt_count" kept)
        ≡ attempts_of (value_find previous "upload_attempt_count")
    unfolding keep_failures fresh_state find_member
    kept-attempts = simp (find-keep, attempts_of-integer)

    pub kept-name : find_member "state" kept ≡ some (string (artifact_state_name state))
    unfolding keep_failures fresh_state find_member
    kept-name = simp (find-keep)

    pub kept-run : find_member "run_id" kept ≡ some (string config.run_id)
    unfolding keep_failures fresh_state find_member
    kept-run = simp (find-keep)

    pub kept-session : find_member "session_id" kept ≡ some (string config.session_id)
    unfolding keep_failures fresh_state find_member
    kept-session = simp (find-keep)

-- A state that holds one failure more than the last one.
pub record HasFailure {D : Double} (config : RuntimeConfig) (error_message : String)
    (now : TimestampPair) (previous state : Json D) : Type 0 where
  pub names_ready : value_find state "state" ≡ some (string "ready_to_upload")
  pub counted :
      attempts_of (value_find state "upload_attempt_count")
      ≡ attempts_of (value_find previous "upload_attempt_count") +ℤ pos 1
  pub appended :
      failures_of (value_find state "upload_failures")
      ≡ push_item
          (failures_of (value_find previous "upload_failures"))
          (failure_json config now error_message)
  pub is_last :
      value_find state "last_upload_failure" ≡ some (failure_json config now error_message)

pub with_failure-HasFailure :
    {D : Double} (previous : Json D) (config : RuntimeConfig) (paths : OutputPaths)
    (created error_message : String) (now : TimestampPair)
    → HasFailure config error_message now previous (
        object (
          with_failure
            (kept previous config paths ArtifactState.ready_to_upload created now)
            (failure_json config now error_message)
            now))
unfolding with_failure value_find artifact_state_name failures_of attempts_of
with_failure-HasFailure previous config paths created error_message now = record {
  names_ready = simp (find-set, kept-name);
  counted = simp (find-set, kept-attempts);
  appended = simp (find-set, kept-failures);
  is_last = simp (find-set);
}
