-- ===== src/Main/Frame.antt =====
-- What a session of src/main.cpp writes between its two states.
use bittorrent_peer_linking.Base.{
  ◌≡◌, refl, Bool, true, false, ◌||◌, String, Option, none, some, List, [], ◌∷◌, Bool-cases, inl,
  inr,
}
use bittorrent_peer_linking.Double.{Double}
use bittorrent_peer_linking.Paths.{Place, same_place}
use bittorrent_peer_linking.Exec.Respects.{Respects, bind-Respects}
use bittorrent_peer_linking.Util.Platform.{Platform, info_hash_to_string}
use bittorrent_peer_linking.Config.{RuntimeConfig, OutputPaths}
use bittorrent_peer_linking.Disk.{Host, capture_timestamp}
use bittorrent_peer_linking.Disk.Laws.{sparing, widen-Spares, timestamp-Spares}
use bittorrent_peer_linking.Alerts.{Event}
use bittorrent_peer_linking.Loop.{Tick, passes_of}
use bittorrent_peer_linking.Log.{EventWriter, new_writer, set_info_hash}
use bittorrent_peer_linking.Main.Payloads.{
  started_event, config_event, torrent_added_event, finished_event,
}
use bittorrent_peer_linking.Run.{run_pass, run_passes}
use bittorrent_peer_linking.Session.Totals.{finalize}
use bittorrent_peer_linking.Log.Stream.{log_event, log_events, open_log, close_log}
use bittorrent_peer_linking.Log.Stream.Frame.{
  open-Spares, close-Spares, event-Spares, events-Spares,
}
use bittorrent_peer_linking.Util.{is_magnet_uri}
use bittorrent_peer_linking.Session.State.{SessionStats}
use bittorrent_peer_linking.Summary.Document.{write_session_summary}
use bittorrent_peer_linking.Summary.Document.Contents.{write_session-Spares}
use bittorrent_peer_linking.Main.Capturing.{
  Engine, final_of, check_error, check_source, lift, start_torrent, run_torrent, finish_torrent,
  record_session,
}

-- The event log and the summary.
abbrev pub written_files : OutputPaths → Place → Bool
written_files output_paths q =
    same_place output_paths.event_log_path q || same_place output_paths.summary_json_path q

left_false : (a b : Bool) → (a || b) ≡ false → a ≡ false
left_false true b e = e
left_false false b e = refl

right_false : (a b : Bool) → (a || b) ≡ false → b ≡ false
right_false true b e = absurd (cc e)
right_false false b e = e

module _ {D : Double} (t : Place → Bool) where
  error-Spares :
      (error : Option String) (text : String) → Respects (sparing D t) (check_error error text)
  unfolding check_error
  error-Spares none text w = (sparing D t).stays w
  error-Spares (some message) text w = (sparing D t).stays w

  source-Spares :
      (config : RuntimeConfig) (engine : Engine D)
      → Respects (sparing D t) (check_source config engine)
  unfolding check_source
  source-Spares config engine = elim (Bool-cases (is_magnet_uri config.torrent_source)) [
    | inl e ↦ rw e (error-Spares engine.magnet_error _)
    | inr e ↦ rw e (error-Spares engine.file_error _)
  ]

  lift-Spares : {A : Type 0} (x : Option A) → Respects (sparing D t) (lift x)
  unfolding lift
  lift-Spares none w = (sparing D t).stays w
  lift-Spares (some a) w = (sparing D t).stays w

module _ {D : Double} (h : Host) (platform : Platform) (config : RuntimeConfig)
    (output_paths : OutputPaths) (engine : Engine D) where
  abbrev touched : Place → Bool
  touched = written_files output_paths

  start-Spares : Respects (sparing D touched) (start_torrent h platform config output_paths engine)
  unfolding start_torrent
  start-Spares =
      let s = sparing D touched in
      let opening = started_event platform output_paths ∷ config_event h config ∷ [] in
      let info_hash = info_hash_to_string engine.initial_hash in
      let added = torrent_added_event h config info_hash in
      bind-Respects s (open_log h output_paths) _
        (λ w.
          widen-Spares (same_place output_paths.event_log_path) touched w _ (λ q. left_false _ _)
            (open-Spares h output_paths w))
        (λ _. bind-Respects s (capture_timestamp h) _ (timestamp-Spares h touched) (λ start.
          bind-Respects s (log_events h opening (new_writer config)) _
            (events-Spares touched h opening (new_writer config))
            (λ writer.
              bind-Respects s (check_source config engine) _ (source-Spares touched config engine)
                (λ _.
                  bind-Respects s (check_error engine.add_error "failed to add torrent: ") _
                    (error-Spares touched engine.add_error _)
                    (λ _.
                      bind-Respects s (log_event h added (set_info_hash info_hash writer)) _
                        (event-Spares touched h added (set_info_hash info_hash writer))
                        (λ _. s.stays))))))

  run-Spares :
      (ticks : List (Tick D)) (started : SessionStats D × EventWriter D)
      → Respects
          (sparing D touched)
          (run_torrent h platform config output_paths engine ticks started)
  unfolding run_torrent
  run-Spares ticks (stats, writer) =
      let s = sparing D touched in
      let interval = config.snapshot_interval_ms in
      let passes = run_passes engine.operation_name stats (passes_of ticks) interval in
      bind-Respects s (lift passes) _ (lift-Spares touched passes)
        (λ (a : SessionStats D × List (Event D)).
          let last =
            run_pass engine.operation_name a.0 engine.last_alerts (some engine.last_reading)
              interval in
          bind-Respects s (log_events h a.1 writer) _ (events-Spares touched h a.1 writer) (λ next.
            bind-Respects s (lift last) _ (lift-Spares touched last)
              (λ (b : SessionStats D × List (Event D)).
                bind-Respects s (log_events h b.1 next) _ (events-Spares touched h b.1 next)
                  (λ _. s.stays))))

  finish-Spares :
      (ran : SessionStats D × EventWriter D)
      → Respects (sparing D touched) (finish_torrent h platform config output_paths engine ran)
  unfolding finish_torrent
  finish-Spares (stats, writer) =
      let s = sparing D touched in
      let final = final_of config engine in
      bind-Respects s (capture_timestamp h) _ (timestamp-Spares h touched) (λ session_end.
        let ended = finalize stats session_end in
        bind-Respects s (log_event h (finished_event ended final) writer) _
          (event-Spares touched h (finished_event ended final) writer)
          (λ _.
            bind-Respects s (close_log h output_paths) _ (close-Spares touched h output_paths) (λ _.
              bind-Respects s (write_session_summary h platform config output_paths ended final) _
                (λ w.
                  widen-Spares (same_place output_paths.summary_json_path) touched w _
                    (λ q. right_false _ _)
                    (write_session-Spares h platform config output_paths ended final w))
                (λ _. s.stays))))

  -- Between the two states, only the event log and the summary are written; no request is made.
  pub record-Spares :
      (ticks : List (Tick D))
      → Respects (sparing D touched) (record_session h platform config output_paths engine ticks)
  unfolding record_session
  record-Spares ticks =
      let s = sparing D touched in
      bind-Respects s (start_torrent h platform config output_paths engine) _ start-Spares
        (λ started.
          bind-Respects s (run_torrent h platform config output_paths engine ticks started) _
            (run-Spares ticks started) finish-Spares)
