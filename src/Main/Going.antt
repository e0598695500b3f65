-- ===== src/Main/Going.antt =====
-- The event log of a session of src/main.cpp, up to the end of its loop.
use bittorrent_peer_linking.Base.{
  ◌≡◌, refl, ap, Option, none, some, List, [], ◌∷◌, ◌++◌, push_back, inl, inr, Option-cases,
}
use mathlib.Core.Path.{subst}
use mathlib.Core.List.{append_assoc, append-nil}
use bittorrent_peer_linking.Base.Results.{ok, err_apart, ok_injective}
use bittorrent_peer_linking.Double.{Double}
use bittorrent_peer_linking.Json.{Json, string, value_find, texts_of}
use bittorrent_peer_linking.Util.{TimestampPair}
use bittorrent_peer_linking.Exec.Gives.{Gives, bind-Gives, pure-Gives}
use bittorrent_peer_linking.Util.Platform.{Platform, info_hash_to_string}
use bittorrent_peer_linking.Config.{RuntimeConfig, OutputPaths}
use bittorrent_peer_linking.Disk.{Host, World, capture_timestamp}
use bittorrent_peer_linking.Alerts.{Event}
use bittorrent_peer_linking.Session.State.{SessionStats, new_session}
use bittorrent_peer_linking.Session.Totals.{set_initial_totals}
use bittorrent_peer_linking.Run.{run_pass, run_passes}
use bittorrent_peer_linking.Loop.{Tick, passes_of}
use bittorrent_peer_linking.Log.{EventWriter, new_writer, set_info_hash, event_line, write_event}
use bittorrent_peer_linking.Log.Laws.{event_line-IsLine}
use bittorrent_peer_linking.Log.Stream.{open_log, log_event, log_events}
use bittorrent_peer_linking.Main.Payloads.{started_event, config_event, torrent_added_event}
use bittorrent_peer_linking.Main.Capturing.{
  Engine, check_error, check_source, lift, start_torrent, run_torrent,
}

-- Lines that are those of some events, in their order, each with the type and payload of its event.
abbrev pub AreOf : {D : Double} → List (Event D) → List (Json D) → Type 0
AreOf [] [] = Unit
AreOf [] (line ∷ lines) = ⊥
AreOf (event ∷ events) [] = ⊥
AreOf (event ∷ events) (line ∷ lines) =
    (value_find line "event_type" ≡ some (string event.event_type))
    × (value_find line "payload" ≡ some event.payload)
    × AreOf events lines

module _ {D : Double} where
  push-AreOf :
      (events : List (Event D)) (lines : List (Json D)) (event : Event D) (line : Json D)
      → value_find line "event_type" ≡ some (string event.event_type)
      → value_find line "payload" ≡ some event.payload
      → AreOf events lines
      → AreOf (events ++ (event ∷ [])) (push_back lines line)
  push-AreOf [] [] event line typed loaded h = (typed, loaded, tt)
  push-AreOf [] (l ∷ lines) event line typed loaded h = absurd h
  push-AreOf (e ∷ events) [] event line typed loaded h = absurd h
  push-AreOf (e ∷ events) (l ∷ lines) event line typed loaded (a, b, h) =
      (a, b, push-AreOf events lines event line typed loaded h)

  -- The log holds these events.
  abbrev pub Holds : EventWriter D → List (Event D) → Type 0
  Holds writer events = AreOf events writer.lines

  write_event-Holds :
      (h : Host) (ts : TimestampPair) (event : Event D) (events : List (Event D))
      (writer next : EventWriter D)
      → Holds writer events
      → write_event h ts event writer ≡ ok next
      → Holds next (events ++ (event ∷ []))
  unfolding write_event
  write_event-Holds h ts event events writer next held e =
      let line = event_line writer.config writer.info_hash ts event in
      let l =
        event_line-IsLine writer.config writer.info_hash ts event.event_type event.payload
          event.peer_context in
      elim (Option-cases (h.dump_error (texts_of line))) [
        | inr (message, f) ↦ absurd (err_apart message next (rw f at e))
        | inl f ↦
            let same = ok_injective _ next (rw f at e) in
            rw (← same) (push-AreOf events writer.lines event line l.typed l.with_payload held)
      ]

module _ {D : Double} (h : Host) where
  pub log_event-Holds :
      (event : Event D) (events : List (Event D)) (writer : EventWriter D) (w : World D)
      (next : EventWriter D)
      → Holds writer events
      → (log_event h event writer w).0 ≡ ok next
      → Holds next (events ++ (event ∷ []))
  unfolding log_event capture_timestamp
  log_event-Holds event events writer w next held e =
      write_event-Holds h (h.clock w.ticks) event events writer next held e

  -- Events that are logged without an exception stand behind the earlier ones.
  pub log_events-Holds :
      (more events : List (Event D)) (writer : EventWriter D)
      → Gives
          (λ (w : World D). Holds writer events)
          (log_events h more writer)
          (λ next w. Holds next (events ++ more))
  unfolding log_events
  log_events-Holds [] events writer = pure-Gives writer _ _ (λ s held. rw (append-nil events) held)
  log_events-Holds (event ∷ more) events writer =
      bind-Gives (log_event h event writer) _ _ (λ next w. Holds next (events ++ (event ∷ [])))
        (λ next w. Holds next (events ++ (event ∷ more)))
        (λ s next held e. log_event-Holds event events writer s next held e)
        (λ next s last held e.
          subst (Holds last) (append_assoc events (event ∷ []) more)
            (log_events-Holds more (events ++ (event ∷ [])) next s last held e))

module _ {D : Double} where
  lift-returns :
      {A : Type 0} (x : Option A) (w : World D) (a : A) → (lift x w).0 ≡ ok a → x ≡ some a
  unfolding lift
  lift-returns none w a e = absurd (err_apart _ a e)
  lift-returns (some b) w a e = ap some (ok_injective b a e)

module _ {D : Double} (h : Host) (platform : Platform) (config : RuntimeConfig)
    (output_paths : OutputPaths) (engine : Engine D) where
  -- The events before the loop.
  abbrev pub opening_events : List (Event D)
  opening_events =
      started_event platform output_paths
      ∷ config_event h config
      ∷ torrent_added_event h config (info_hash_to_string engine.initial_hash)
      ∷ []

  -- The statistics and the log when the loop begins.
  pub record Starts (x : SessionStats D × EventWriter D) (w : World D) : Type 0 where
    pub start : TimestampPair
    pub stats :
        x.0
        ≡ set_initial_totals
            (new_session D config.run_id config.session_id start)
            engine.initial_status
    pub held : Holds x.1 opening_events

  -- Where a step says nothing of what it gives.
  abbrev Any : {A : Type 0} → A → World D → Type 0
  Any a w = Unit

  pub start-Starts : Gives (λ w. Unit) (start_torrent h platform config output_paths engine) Starts
  unfolding start_torrent new_writer set_info_hash
  start-Starts =
      let opening = started_event platform output_paths ∷ config_event h config ∷ [] in
      let info_hash = info_hash_to_string engine.initial_hash in
      let added = torrent_added_event h config info_hash in
      bind-Gives (open_log h output_paths) _ _ Any Starts (λ s a p e. tt)
        (λ _.
          bind-Gives (capture_timestamp h) _ _ Any Starts (λ s a p e. tt)
            (λ start.
              bind-Gives (log_events h opening (new_writer config)) _ _
                (λ writer w. Holds writer opening) Starts
                (λ s a p e. log_events-Holds h opening [] (new_writer config) s a tt e)
                (λ writer.
                  bind-Gives (check_source config engine) _ _ (λ _ w. Holds writer opening) Starts
                    (λ s a p e. p)
                    (λ _.
                      bind-Gives (check_error engine.add_error "failed to add torrent: ") _ _
                        (λ _ w. Holds writer opening) Starts (λ s a p e. p)
                        (λ _.
                          bind-Gives (log_event h added (set_info_hash info_hash writer)) _ _
                            (λ next w. Holds next opening_events) Starts
                            (λ s a p e.
                              log_event-Holds h added opening (set_info_hash info_hash writer) s a p
                                e)
                            (λ next.
                              pure-Gives _ _ Starts
                                (λ s p. record { start = start; stats = refl; held = p })))))))

  -- The loop's passes and the last one, with their events behind the earlier ones.
  pub record Ran (events : List (Event D)) (ticks : List (Tick D)) (before : SessionStats D)
      (x : SessionStats D × EventWriter D) (w : World D) : Type 0 where
    pub looped : SessionStats D × List (Event D)
    pub last : SessionStats D × List (Event D)
    pub ran :
        run_passes engine.operation_name before (passes_of ticks) config.snapshot_interval_ms
        ≡ some looped
    pub ran_last :
        run_pass engine.operation_name looped.0 engine.last_alerts
          (some engine.last_reading)
          config.snapshot_interval_ms
        ≡ some last
    pub stats : x.0 ≡ last.0
    pub held : Holds x.1 (events ++ (looped.1 ++ last.1))

  pub run-Ran :
      (ticks : List (Tick D)) (events : List (Event D)) (started : SessionStats D × EventWriter D)
      → Gives
          (λ w. Holds started.1 events)
          (run_torrent h platform config output_paths engine ticks started)
          (Ran events ticks started.0)
  unfolding run_torrent
  run-Ran ticks events (stats, writer) =
      let interval = config.snapshot_interval_ms in
      let passes = run_passes engine.operation_name stats (passes_of ticks) interval in
      let after = Ran events ticks stats in
      bind-Gives (lift passes) _ _
        (λ (a : SessionStats D × List (Event D)) w. (passes ≡ some a) × Holds writer events) after
        (λ s a p e. (lift-returns passes s a e, p))
        (λ (a : SessionStats D × List (Event D)).
          let last =
            run_pass engine.operation_name a.0 engine.last_alerts (some engine.last_reading)
              interval in
          bind-Gives (log_events h a.1 writer) _ _
            (λ next w. (passes ≡ some a) × Holds next (events ++ a.1)) after
            (λ s next p e. (p.0, log_events-Holds h a.1 events writer s next p.1 e))
            (λ next.
              bind-Gives (lift last) _ _
                (λ (b : SessionStats D × List (Event D)) w.
                  (passes ≡ some a) × (last ≡ some b) × Holds next (events ++ a.1))
                after (λ s b p e. (p.0, lift-returns last s b e, p.1))
                (λ (b : SessionStats D × List (Event D)).
                  bind-Gives (log_events h b.1 next) _ _
                    (λ written w.
                      (passes ≡ some a) × (last ≡ some b) × Holds written (events ++ (a.1 ++ b.1)))
                    after
                    (λ s written p e. (
                      p.0,
                      p.1,
                      subst (Holds written) (append_assoc events a.1 b.1)
                          (log_events-Holds h b.1 (events ++ a.1) next s written p.2 e),
                    ))
                    (λ written. pure-Gives _ _ after (λ s p. record {
                      looped = a;
                      last = b;
                      ran = p.0;
                      ran_last = p.1;
                      stats = refl;
                      held = p.2;
                    })))))
