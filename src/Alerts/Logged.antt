-- ===== src/Alerts/Logged.antt =====
-- What a drain of src/main.cpp leaves in the event log.
use bittorrent_peer_linking.Base.{
  ℕ, ◌+◌, ◌≡◌, refl, arith, String, none, some, List, [], ◌∷◌, length, length-push_back, push_back,
  ◌⊎◌, inl, inr, Option-cases,
}
use bittorrent_peer_linking.Base.Results.{Result, ok, err}
use bittorrent_peer_linking.Double.{Double}
use bittorrent_peer_linking.Json.{Json, texts_of}
use bittorrent_peer_linking.Util.{TimestampPair}
use bittorrent_peer_linking.Disk.{Host, World, capture_timestamp}
use bittorrent_peer_linking.Session.State.{SessionStats}
use bittorrent_peer_linking.Session.Consistency.{IsConsistent}
use bittorrent_peer_linking.Alerts.{Alert, Event, Operation}
use bittorrent_peer_linking.Alerts.Handlers.{drain_alerts}
use bittorrent_peer_linking.Alerts.Drain.{drain-Succeeds, events_of_all}
use bittorrent_peer_linking.Log.{EventWriter, event_line, write_event}
use bittorrent_peer_linking.Log.Stream.{log_event, log_events}

module _ {D : Double} (h : Host) where
  -- Either `dump()` threw for the line of an event, or there is a new line for each event.
  abbrev pub Logs : ℕ → EventWriter D → Result (EventWriter D) → Type 0
  Logs n writer result =
      ((message : String) × (line : Json D) × (result ≡ err message)
        × (h.dump_error (texts_of line) ≡ some message))
      ⊎ ((next : EventWriter D) × (result ≡ ok next)
          × (length next.lines ≡ length writer.lines + n))

  event-refused :
      (event : Event D) (writer : EventWriter D) (w : World D) (message : String)
      → h.dump_error (texts_of (event_line writer.config writer.info_hash (h.clock w.ticks) event))
        ≡ some message
      → (log_event h event writer w).0 ≡ err message
  unfolding log_event write_event capture_timestamp
  event-refused event writer w message e = rw e

  event-logged :
      (event : Event D) (writer : EventWriter D) (w : World D)
      → h.dump_error (texts_of (event_line writer.config writer.info_hash (h.clock w.ticks) event))
        ≡ none
      → (log_event h event writer w).0
        ≡ ok (record writer {
          lines =
              push_back writer.lines
                (event_line writer.config writer.info_hash (h.clock w.ticks) event);
        })
  unfolding log_event write_event capture_timestamp
  event-logged event writer w e = rw e

  log_events-Logs :
      (events : List (Event D)) (writer : EventWriter D) (w : World D)
      → Logs (length events) writer (log_events h events writer w).0
  unfolding log_events
  log_events-Logs [] writer w = inr (writer, refl, omega arith)
  log_events-Logs (event ∷ events) writer w =
      let line = event_line writer.config writer.info_hash (h.clock w.ticks) event in
      let v = (log_event h event writer w).1 in
      elim (Option-cases (h.dump_error (texts_of line))) [
        | inr (message, e) ↦
            inl (message, line, rw (event-refused event writer w message e) refl, e)
        | inl e ↦
            let next : EventWriter D = record writer { lines = push_back writer.lines line } in
            rw (event-logged event writer w e) (elim (log_events-Logs events next v) [
              | inl thrown ↦ inl thrown
              | inr (last, f, n) ↦
                  inr (last, f, omega (arith, n, length-push_back writer.lines line))
            ])
      ]

  -- On any alerts, handled at any times, the calls of a drain on the statistics of a consistent
  -- session do not throw, the session stays consistent, and there is exactly one event for each alert
  -- that the program knows. Written to the log, either these events are one line each, or an
  -- exception comes out, which `dump()` threw for the texts of a line.
  pub drain-Logs :
      (operation_name : Operation → String) (s : SessionStats D)
      (alerts : List (TimestampPair × Alert)) (writer : EventWriter D) (w : World D)
      → IsConsistent s
      → (r : SessionStats D × List (Event D)) × (drain_alerts operation_name s alerts ≡ some r)
        × IsConsistent r.0
        × (length r.1 ≡ events_of_all alerts)
        × Logs (events_of_all alerts) writer (log_events h r.1 writer w).0
  drain-Logs operation_name s alerts writer w c =
      let (r, e, k, n) = drain-Succeeds operation_name s alerts c in
      (r, e, k, n, rw (← n) (log_events-Logs r.1 writer w))
