-- ===== src/Capture.antt =====
-- `capture_snapshots` of src/main.cpp: the periodic snapshot of the session, the torrent and its
-- peers. What the libtorrent session and torrent answer is an argument.
use bittorrent_peer_linking.Base.{ℤ, Bool, List, [], ◌∷◌, ◌++◌, none, some, ◌>>=◌}
use bittorrent_peer_linking.Double.{Double}
use bittorrent_peer_linking.Json.{
  Members, members_of, member, end, object, array, integer, string, boolean, real,
  strings_to_json_array,
}
use bittorrent_peer_linking.Util.{
  TimestampPair, PeerInfo, peer_flag_labels, peer_source_labels, peer_id_to_hex,
}
use bittorrent_peer_linking.Util.Names.{state_name}
use bittorrent_peer_linking.Session.State.{SessionStats, TorrentStatus}
use bittorrent_peer_linking.Session.Peers.{note_peer_snapshot}
use bittorrent_peer_linking.Session.Totals.{record_session_snapshot}
use bittorrent_peer_linking.Alerts.{Event}
use bittorrent_peer_linking.Alerts.Handlers.{Handled, peer_event}

-- What one call reads: the time, `torrent_handle.status()` with its progress as a `double`, the
-- listening socket, and `get_peer_info`.
pub record Reading (D : Double) : Type 0 where
  pub ts : TimestampPair
  pub torrent_status : TorrentStatus
  pub progress : D.Real
  pub is_listening : Bool
  pub listen_port : ℤ
  pub peers : List PeerInfo

module _ {D : Double} where
  session_payload : Reading D → Members D
  session_payload r = member "num_peers" (integer r.torrent_status.num_peers) (
      member "is_listening" (boolean r.is_listening)
        (member "listen_port" (integer r.listen_port) end))

  torrent_payload : Reading D → Members D
  torrent_payload r =
      let status = r.torrent_status in
      member "state" (string (state_name status.state)) (
        member "progress" (real (D.mul r.progress (D.literal 100 1))) (
          member "num_peers" (integer status.num_peers) (
            member "num_seeds" (integer status.num_seeds) (
              member "total_done" (integer status.total_done) (
                member "total_upload" (integer status.total_upload) (
                  member "download_rate_Bps" (integer status.download_rate)
                    (member "upload_rate_Bps" (integer status.upload_rate) end)))))))

  unfoldable pub peer_payload : PeerInfo → Members D
  unfolding members_of
  peer_payload peer = members_of (
      ("client", string peer.client)
      ∷ ("payload_down_speed_Bps", integer peer.payload_down_speed)
      ∷ ("payload_up_speed_Bps", integer peer.payload_up_speed)
      ∷ ("down_speed_Bps", integer peer.down_speed)
      ∷ ("up_speed_Bps", integer peer.up_speed)
      ∷ ("total_download_bytes", integer peer.total_download)
      ∷ ("total_upload_bytes", integer peer.total_upload)
      ∷ ("download_queue_length", integer peer.download_queue_length)
      ∷ ("upload_queue_length", integer peer.upload_queue_length)
      ∷ ("timed_out_requests", integer peer.timed_out_requests)
      ∷ ("busy_requests", integer peer.busy_requests)
      ∷ ("requests_in_buffer", integer peer.requests_in_buffer)
      ∷ ("queue_bytes", integer peer.queue_bytes)
      ∷ ("request_timeout", integer peer.request_timeout)
      ∷ ("last_active_ms", integer peer.last_active_ms)
      ∷ ("last_request_ms", integer peer.last_request_ms)
      ∷ ("flags", array (strings_to_json_array D (peer_flag_labels peer)))
      ∷ ("sources", array (strings_to_json_array D (peer_source_labels peer)))
      ∷ ("peer_id_hex", string (peer_id_to_hex peer.pid))
      ∷ ("downloading_piece", integer peer.downloading_piece_index)
      ∷ ("downloading_block", integer peer.downloading_block_index)
      ∷ ("downloading_progress", integer peer.downloading_progress)
      ∷ ("downloading_total", integer peer.downloading_total)
      ∷ [])

  -- The loop over the peers.
  unfoldable pub capture_peers : SessionStats D → TimestampPair → ℤ → List PeerInfo → Handled D
  capture_peers s ts snapshot_interval_ms [] = some (s, [])
  capture_peers s0 ts snapshot_interval_ms (peer ∷ peers) = do
    (s1, key) ← note_peer_snapshot s0 peer ts snapshot_interval_ms
    (s2, events) ← peer_event s1 key "peer_snapshot" (peer_payload peer)
    (s3, more) ← capture_peers s2 ts snapshot_interval_ms peers
    some (s3, events ++ more)

  -- The event of the session and that of the torrent, before those of the peers.
  unfoldable pub with_overview : Reading D → List (Event D) → List (Event D)
  unfolding session_payload torrent_payload
  with_overview r events =
      record {
        event_type = "session_snapshot";
        payload = object (session_payload r);
        peer_context = none;
      }
      ∷ record {
        event_type = "torrent_snapshot";
        payload = object (torrent_payload r);
        peer_context = none;
      }
      ∷ events

  unfoldable pub capture_snapshots : SessionStats D → Reading D → ℤ → Handled D
  capture_snapshots s0 r snapshot_interval_ms = do
    (s, events) ←
        capture_peers (record_session_snapshot s0 r.torrent_status) r.ts snapshot_interval_ms
          r.peers
    some (s, with_overview r events)
