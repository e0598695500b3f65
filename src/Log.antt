-- ===== src/Log.antt =====
-- `EventWriter` of src/logging.cpp: the event log, one JSON object a line. A line counts as written
-- when the writer hands it to its stream, whose errors `write_event` does not look at.
pub mod Laws
pub mod Stream
use bittorrent_peer_linking.Base.{
  ℤ, pos, Bool, true, false, String, ◌<>◌, Option, none, some, List, [], ◌∷◌, push_back,
  if◌then◌else◌,
}
use bittorrent_peer_linking.Base.Results.{Result, ok, err, ◌>>=◌}
use bittorrent_peer_linking.Double.{Double}
use bittorrent_peer_linking.Json.{
  Json, Members, integer, string, object, end, member, set_member, null_if_empty, texts_of,
}
use bittorrent_peer_linking.Disk.{Host}
use bittorrent_peer_linking.Util.{TimestampPair}
use bittorrent_peer_linking.Config.{RuntimeConfig}
use bittorrent_peer_linking.Peer.State.{EventPeerContext}
use bittorrent_peer_linking.Alerts.{Event}

pub record EventWriter (D : Double) : Type 0 where
  pub config : RuntimeConfig
  pub info_hash : String
  pub lines : List (Json D)

module _ {D : Double} where
  -- The constructor, once the stream is open.
  unfoldable pub new_writer : RuntimeConfig → EventWriter D
  new_writer config = record { config = config; info_hash = ""; lines = [] }

  unfoldable pub set_info_hash : String → EventWriter D → EventWriter D
  set_info_hash info_hash writer = record writer { info_hash = info_hash }

  -- The members that every line has.
  unfoldable pub envelope : RuntimeConfig → String → TimestampPair → String → Members D
  envelope config info_hash ts event_type = member "utc_ts" (string ts.utc_ts) (
      member "mono_ns" (integer ts.mono_ns) (
        member "run_id" (string config.run_id) (
          member "session_id" (string config.session_id) (
            member "event_type" (string event_type) (
              member "node_role" (string config.node_role) (
                member "torrent_source" (string config.torrent_source)
                  (member "info_hash" (null_if_empty D info_hash) end)))))))

  unfoldable pub with_peer : Option EventPeerContext → Members D → Members D
  with_peer none event = event
  with_peer (some peer) event =
      set_member
        (set_member
          (set_member
            (set_member (set_member event "peer_key" (string peer.peer_key)) "peer_ip"
              (string peer.peer_ip))
            "peer_port" (integer (pos peer.peer_port)))
          "direction" (string peer.direction))
        "transport" (string peer.transport)

  unfoldable pub event_line : RuntimeConfig → String → TimestampPair → Event D → Json D
  event_line config info_hash ts event = object (
      set_member (with_peer event.peer_context (envelope config info_hash ts event.event_type))
        "payload" event.payload)

  -- The line goes to the stream, unless its `dump()` threw.
  unless_thrown : Option String → EventWriter D → Json D → Result (EventWriter D)
  unless_thrown none writer line = ok (record writer { lines = push_back writer.lines line })
  unless_thrown (some message) writer line = err message

  -- The line is dumped as a text, which throws where a text in it is not UTF-8.
  unfoldable pub write_event :
      Host → TimestampPair → Event D → EventWriter D → Result (EventWriter D)
  unfolding unless_thrown
  write_event h ts event writer =
      let line = event_line writer.config writer.info_hash ts event in
      unless_thrown (h.dump_error (texts_of line)) writer line

  -- Calls one after the other, each at its time.
  unfoldable pub write_events :
      Host → List (TimestampPair × Event D) → EventWriter D → Result (EventWriter D)
  write_events h [] writer = ok writer
  write_events h ((ts, event) ∷ events) writer =
      write_event h ts event writer >>= λ next. write_events h events next
