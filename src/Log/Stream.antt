-- ===== src/Log/Stream.antt =====
-- The stream of `EventWriter` in src/logging.cpp. It is opened by the constructor. A line that cannot
-- be written leaves the stream in error, which `close` reports; `write_event` does not look.
pub mod Frame
use bittorrent_peer_linking.Base.{String, ◌<>◌, Option, none, some, List, [], ◌∷◌}
use bittorrent_peer_linking.Base.Results.{ok, err}
use bittorrent_peer_linking.Double.{Double}
use bittorrent_peer_linking.Paths.{Place, text_of}
use bittorrent_peer_linking.Exec.{answer, pure, ◌>>=◌}
use bittorrent_peer_linking.Config.{OutputPaths}
use bittorrent_peer_linking.Disk.{
  Host, World, Io, Entry, Access, directory, document, other_file, granted, refused, cut_short, put,
  capture_timestamp,
}
use bittorrent_peer_linking.Alerts.{Event}
use bittorrent_peer_linking.Log.{EventWriter, write_event}

module _ {D : Double} where
  truncate : Access → Place → Io D (Unit {0})
  truncate granted p w = (ok tt, put w p other_file)
  truncate cut_short p w = (ok tt, put w p other_file)
  truncate refused p w = (err ("failed to open event log at " <> text_of p), w)

  open_at : Option (Entry D) → Access → Place → Io D (Unit {0})
  unfolding truncate
  open_at (some directory) a p w = (err ("failed to open event log at " <> text_of p), w)
  open_at (some (document value)) a p w = truncate a p w
  open_at (some other_file) a p w = truncate a p w
  open_at none a p w = truncate a p w

  close_at : Access → Place → Io D (Unit {0})
  close_at granted p w = (ok tt, w)
  close_at refused p w = (ok tt, w)
  close_at cut_short p w = (err ("failed to close event log at " <> text_of p), w)

module _ {D : Double} (h : Host) where
  -- The constructor's stream and its test.
  unfoldable pub open_log : OutputPaths → Io D (Unit {0})
  unfolding open_at
  open_log output_paths w =
      let p = output_paths.event_log_path in open_at (w.entry p) (h.access w.ticks p) p w

  -- `EventWriter::close`, of a stream to which something was written.
  unfoldable pub close_log : OutputPaths → Io D (Unit {0})
  unfolding close_at
  close_log output_paths w =
      let p = output_paths.event_log_path in close_at (h.access w.ticks p) p w

  -- `write_event`, with its reading of the clock.
  unfoldable pub log_event : Event D → EventWriter D → Io D (EventWriter D)
  log_event event writer = do ts ← capture_timestamp h; answer (write_event h ts event writer)

  unfoldable pub log_events : List (Event D) → EventWriter D → Io D (EventWriter D)
  log_events [] writer = pure writer
  log_events (event ∷ events) writer = do next ← log_event event writer; log_events events next
