-- ===== src/Log/Laws.antt =====
-- What the lines of the event log of src/logging.cpp hold.
use mathlib.Core.Path.{subst}
use mathlib.Core.List.{append_assoc, append-nil}
use bittorrent_peer_linking.Base.{
  ◌≡◌, refl, sym, ap, ◌∙◌, ◌⊎◌, inl, inr, Option-cases, String, Option, none, some, List, [], ◌∷◌,
  ◌++◌, push_back, push_back-append,
}
use bittorrent_peer_linking.Double.{Double}
use bittorrent_peer_linking.Json.{
  Json, integer, string, find_member, value_find, null_if_empty, texts_of,
}
use bittorrent_peer_linking.Base.Results.{Result, ok, err, ◌>>=◌}
use bittorrent_peer_linking.Disk.{Host}
use bittorrent_peer_linking.Util.{TimestampPair}
use bittorrent_peer_linking.Config.{RuntimeConfig}
use bittorrent_peer_linking.Peer.State.{EventPeerContext}
use bittorrent_peer_linking.Alerts.{Event}
use bittorrent_peer_linking.Artifacts.Kept.{find-set}
use bittorrent_peer_linking.Log.{
  EventWriter, envelope, with_peer, event_line, write_event, write_events,
}

-- The key of the peer, if there is one.
abbrev pub key_of : {D : Double} → Option EventPeerContext → Option (Json D)
key_of none = none
key_of (some peer) = some (string peer.peer_key)

-- A line with the fields that an analysis goes by.
pub record IsLine {D : Double} (config : RuntimeConfig) (info_hash : String) (ts : TimestampPair)
    (event : Event D) (line : Json D) : Type 0 where
  pub timed : value_find line "mono_ns" ≡ some (integer ts.mono_ns)
  pub in_run : value_find line "run_id" ≡ some (string config.run_id)
  pub in_session : value_find line "session_id" ≡ some (string config.session_id)
  pub typed : value_find line "event_type" ≡ some (string event.event_type)
  pub hashed : value_find line "info_hash" ≡ some (null_if_empty D info_hash)
  pub of_peer : value_find line "peer_key" ≡ key_of event.peer_context
  pub with_payload : value_find line "payload" ≡ some event.payload

-- The lines of some events, each of them well formed, in their order.
pub data AreLines {D : Double} (config : RuntimeConfig) (info_hash : String)
    : List (TimestampPair × Event D) → List (Json D) → Type 0 where
  no_lines : AreLines config info_hash [] []
  line_and :
      {ts : TimestampPair} {event : Event D} {events : List (TimestampPair × Event D)}
      {line : Json D} {lines : List (Json D)}
      → IsLine config info_hash ts event line
      → AreLines config info_hash events lines
      → AreLines config info_hash ((ts, event) ∷ events) (line ∷ lines)

module _ {D : Double} (config : RuntimeConfig) (info_hash : String) where
  pub event_line-IsLine :
      (ts : TimestampPair) (event_type : String) (payload : Json D) (peer : Option EventPeerContext)
      → let event : Event D = record {
        event_type = event_type;
        payload = payload;
        peer_context = peer;
      } in
        IsLine config info_hash ts event (event_line config info_hash ts event)
  unfolding event_line with_peer envelope value_find find_member
  event_line-IsLine ts event_type payload none = record {
    timed = simp (find-set);
    in_run = simp (find-set);
    in_session = simp (find-set);
    typed = simp (find-set);
    hashed = simp (find-set);
    of_peer = simp (find-set);
    with_payload = simp (find-set);
  }
  event_line-IsLine ts event_type payload (some peer) = record {
    timed = simp (find-set);
    in_run = simp (find-set);
    in_session = simp (find-set);
    typed = simp (find-set);
    hashed = simp (find-set);
    of_peer = simp (find-set);
    with_payload = simp (find-set);
  }

  -- A writer with some lines.
  abbrev pub writer_of : List (Json D) → EventWriter D
  writer_of before = record { config = config; info_hash = info_hash; lines = before }

  -- An exception comes from a line that `dump()` refuses, for one of the events.
  abbrev pub IsRefused : Host → List (TimestampPair × Event D) → String → Type 0
  IsRefused h [] message = ⊥
  IsRefused h ((ts, event) ∷ events) message =
      (h.dump_error (texts_of (event_line config info_hash ts event)) ≡ some message)
      ⊎ IsRefused h events message

  -- What came of the calls behind some earlier lines.
  abbrev pub Writes :
      Host → List (TimestampPair × Event D) → List (Json D) → Result (EventWriter D) → Type 0
  Writes h events before result =
      ((message : String) × (result ≡ err message) × IsRefused h events message)
      ⊎ ((next : EventWriter D) × (lines : List (Json D)) × (result ≡ ok next)
          × (next.lines ≡ before ++ lines)
          × AreLines config info_hash events lines)

  later_lines :
      (h : Host) (ts : TimestampPair) (event : Event D) (events : List (TimestampPair × Event D))
      (before : List (Json D)) (result : Result (EventWriter D))
      → Writes h events (push_back before (event_line config info_hash ts event)) result
      → Writes h ((ts, event) ∷ events) before result
  later_lines h ts event events before result (inl (message, e, why)) = inl (message, e, inr why)
  later_lines h ts event events before result (inr (next, lines, e, split, good)) =
      let line = event_line config info_hash ts event in
      inr (
        next,
        line ∷ lines,
        e,
        split
            ∙ ap (λ l. l ++ lines) (push_back-append before line)
            ∙ append_assoc before (line ∷ []) lines,
        line_and (event_line-IsLine ts event.event_type event.payload event.peer_context) good,
      )

  event-refused :
      (h : Host) (ts : TimestampPair) (event : Event D) (before : List (Json D)) (message : String)
      → h.dump_error (texts_of (event_line config info_hash ts event)) ≡ some message
      → write_event h ts event (writer_of before) ≡ err message
  unfolding write_event
  event-refused h ts event before message e = rw e

  event-written :
      (h : Host) (ts : TimestampPair) (event : Event D) (before : List (Json D))
      → h.dump_error (texts_of (event_line config info_hash ts event)) ≡ none
      → write_event h ts event (writer_of before)
        ≡ ok (writer_of (push_back before (event_line config info_hash ts event)))
  unfolding write_event
  event-written h ts event before e = rw e

  -- Either an exception comes out, which is that of `dump()` for the line of one of the events, or the
  -- events stand behind the earlier lines, one line for each event and in their order; each line has
  -- the time, run, session, type, info hash and payload of its event, and the key of the peer exactly
  -- when the event has a peer.
  pub write-AreLines :
      (h : Host) (events : List (TimestampPair × Event D)) (before : List (Json D))
      → Writes h events before (write_events h events (writer_of before))
  unfolding write_events
  write-AreLines h [] before = inr (_, [], refl, sym (append-nil before), no_lines)
  write-AreLines h ((ts, event) ∷ events) before =
      let line = event_line config info_hash ts event in
      let rest = λ (r : Result (EventWriter D)). r >>= λ next. write_events h events next in
      elim (Option-cases (h.dump_error (texts_of line))) [
        | inr (message, e) ↦
            inl (message, ap rest (event-refused h ts event before message e), inl e)
        | inl e ↦
            subst (Writes h ((ts, event) ∷ events) before)
              (sym (ap rest (event-written h ts event before e)))
              (later_lines h ts event events before _
                (write-AreLines h events (push_back before line)))
      ]
