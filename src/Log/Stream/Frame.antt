-- ===== src/Log/Stream/Frame.antt =====
-- What the event log's stream of src/logging.cpp touches.
use bittorrent_peer_linking.Base.{Bool, Option, none, some, List, [], ◌∷◌}
use bittorrent_peer_linking.Double.{Double}
use bittorrent_peer_linking.Paths.{Place, same_place}
use bittorrent_peer_linking.Exec.Respects.{Respects, bind-Respects}
use bittorrent_peer_linking.Config.{OutputPaths}
use bittorrent_peer_linking.Disk.{
  Host, Entry, Access, directory, document, other_file, granted, refused, cut_short,
}
use bittorrent_peer_linking.Disk.Laws.{sparing, put-Spares, timestamp-Spares}
use bittorrent_peer_linking.Alerts.{Event}
use bittorrent_peer_linking.Log.{EventWriter}
use bittorrent_peer_linking.Log.Stream.{
  truncate, open_at, close_at, open_log, close_log, log_event, log_events,
}

module _ {D : Double} where
  truncate-Spares : (a : Access) (p : Place) → Respects (sparing D (same_place p)) (truncate a p)
  unfolding truncate
  truncate-Spares granted p w = put-Spares p w other_file
  truncate-Spares cut_short p w = put-Spares p w other_file
  truncate-Spares refused p w = (sparing D (same_place p)).stays w

  open_at-Spares :
      (o : Option (Entry D)) (a : Access) (p : Place)
      → Respects (sparing D (same_place p)) (open_at o a p)
  unfolding open_at
  open_at-Spares (some directory) a p w = (sparing D (same_place p)).stays w
  open_at-Spares (some (document value)) a p w = truncate-Spares a p w
  open_at-Spares (some other_file) a p w = truncate-Spares a p w
  open_at-Spares none a p w = truncate-Spares a p w

module _ {D : Double} (h : Host) (output_paths : OutputPaths) where
  pub open-Spares :
      Respects (sparing D (same_place output_paths.event_log_path)) (open_log h output_paths)
  unfolding open_log
  open-Spares w =
      let p = output_paths.event_log_path in open_at-Spares (w.entry p) (h.access w.ticks p) p w

module _ {D : Double} (t : Place → Bool) where
  close_at-Spares : (a : Access) (p : Place) → Respects (sparing D t) (close_at a p)
  unfolding close_at
  close_at-Spares granted p w = (sparing D t).stays w
  close_at-Spares refused p w = (sparing D t).stays w
  close_at-Spares cut_short p w = (sparing D t).stays w

  pub close-Spares :
      (h : Host) (output_paths : OutputPaths) → Respects (sparing D t) (close_log h output_paths)
  unfolding close_log
  close-Spares h output_paths w =
      let p = output_paths.event_log_path in close_at-Spares (h.access w.ticks p) p w

  pub event-Spares :
      (h : Host) (event : Event D) (writer : EventWriter D)
      → Respects (sparing D t) (log_event h event writer)
  unfolding log_event
  event-Spares h event writer =
      bind-Respects (sparing D t) _ _ (timestamp-Spares h t) (λ ts. (sparing D t).stays)

  pub events-Spares :
      (h : Host) (events : List (Event D)) (writer : EventWriter D)
      → Respects (sparing D t) (log_events h events writer)
  unfolding log_events
  events-Spares h [] writer w = (sparing D t).stays w
  events-Spares h (event ∷ events) writer w =
      bind-Respects (sparing D t) (log_event h event writer) _ (event-Spares h event writer)
        (events-Spares h events) w
