-- ===== src/Summary/Document.antt =====
-- `write_session_summary` of src/summary_writer.cpp: the summary of a session and its file.
pub mod Contents
use bittorrent_peer_linking.Base.{
  ◌+◌, ℤ, pos, ◌-ℤ◌, is_zero, Bool, String, Option, none, some, List, [], ◌∷◌, ◌>>=◌,
}
use bittorrent_peer_linking.Base.Results.{err}
use bittorrent_peer_linking.Double.{Double}
use bittorrent_peer_linking.Json.{
  Json, Members, members_of, object, integer, real, string, boolean, null_if_empty, optional_number,
}
use bittorrent_peer_linking.Paths.{text_of}
use bittorrent_peer_linking.Config.{RuntimeConfig, OutputPaths}
use bittorrent_peer_linking.Util.{ns_to_ms}
use bittorrent_peer_linking.Util.Names.{state_name}
use bittorrent_peer_linking.Util.Platform.{Platform}
use bittorrent_peer_linking.Util.Samples.{
  DistributionSummary, summarize_samples, distribution_summary_to_json,
}
use bittorrent_peer_linking.Peer.Report.{peer_summaries_json}
use bittorrent_peer_linking.Session.State.{SessionStats, TorrentStatus}
use bittorrent_peer_linking.Sender.{k_client_version}
use bittorrent_peer_linking.Disk.{Host, World, Io, write_file}
use bittorrent_peer_linking.Artifacts.{absolute}
use bittorrent_peer_linking.Summary.{peer_network_byte_totals, peer_observation_counts}

-- The arguments that the end of a session supplies.
pub record Final (D : Double) : Type 0 where
  pub status : TorrentStatus
  pub progress : D.Real
  pub info_hash : String
  pub exit_reason : String
  pub listen_port : ℤ
  pub is_listening : Bool

module _ {D : Double} where
  unfoldable pub build_session_json :
      Platform → RuntimeConfig → SessionStats D → Final D → Members D
  build_session_json platform config stats final = members_of (
      ("run_id", string config.run_id)
      ∷ ("session_id", string config.session_id)
      ∷ ("started_utc", string stats.started_utc)
      ∷ ("ended_utc", string stats.ended_utc)
      ∷ ("duration_ms", real (ns_to_ms D (stats.end_mono_ns -ℤ stats.start_mono_ns)))
      ∷ ("hostname", null_if_empty D platform.hostname)
      ∷ ("client_version", string k_client_version)
      ∷ ("client_label", null_if_empty D config.client_label)
      ∷ ("profile_id", null_if_empty D config.profile_id)
      ∷ ("destination_url", null_if_empty D config.destination_url)
      ∷ ("libtorrent_version", string platform.libtorrent_version)
      ∷ ("exit_reason", string final.exit_reason)
      ∷ [])

  unfoldable pub runtime_config : Host → RuntimeConfig → OutputPaths → Final D → Members D
  runtime_config h config output_paths final = members_of (
      ("listen_port", integer config.listen_port)
      ∷ ("listen_port_actual", integer final.listen_port)
      ∷ ("announce_ip", null_if_empty D config.announce_ip)
      ∷ ("dht_enabled", boolean config.enable_dht)
      ∷ ("lsd_enabled", boolean config.enable_lsd)
      ∷ ("upnp_enabled", boolean config.enable_upnp)
      ∷ ("natpmp_enabled", boolean config.enable_natpmp)
      ∷ ("runtime_seconds_requested", integer config.runtime_seconds)
      ∷ ("run_forever", boolean (is_zero config.runtime_seconds))
      ∷ ("snapshot_interval_ms", integer config.snapshot_interval_ms)
      ∷ ("console_status_enabled", boolean config.console_status)
      ∷ ("node_role", string config.node_role)
      ∷ ("torrent_source_type", string config.torrent_source_type)
      ∷ ("destination_url", null_if_empty D config.destination_url)
      ∷ ("save_path", string (text_of (absolute h config.save_path)))
      ∷ ("artifacts_dir", string (text_of output_paths.artifact_dir))
      ∷ [])

  unfoldable pub torrent_json : Host → RuntimeConfig → SessionStats D → Final D → Members D
  torrent_json h config stats final = members_of (
      ("source", string config.torrent_source)
      ∷ ("source_type", string config.torrent_source_type)
      ∷ ("info_hash", null_if_empty D final.info_hash)
      ∷ ("save_path", string (text_of (absolute h config.save_path)))
      ∷ ("final_state", string (state_name final.status.state))
      ∷ ("final_progress", real (D.mul final.progress (D.literal 100 1)))
      ∷ ("initial_total_done_bytes", integer stats.initial_total_done_bytes)
      ∷ ("initial_total_upload_bytes", integer stats.initial_total_upload_bytes)
      ∷ ("final_total_done_bytes", integer final.status.total_done)
      ∷ ("final_total_upload_bytes", integer final.status.total_upload)
      ∷ ("session_completed_bytes", integer stats.total_download_bytes)
      ∷ ("session_network_downloaded_bytes", integer (peer_network_byte_totals stats).downloaded)
      ∷ ("session_network_uploaded_bytes", integer (peer_network_byte_totals stats).uploaded)
      ∷ ("session_downloaded_bytes", integer (peer_network_byte_totals stats).downloaded)
      ∷ ("session_uploaded_bytes", integer (peer_network_byte_totals stats).uploaded)
      ∷ ("total_peers_observed", integer stats.max_peers_observed)
      ∷ ("total_seeds_observed", integer stats.max_seeds_observed)
      ∷ [])

  unfoldable pub global_metrics :
      SessionStats D → DistributionSummary D → DistributionSummary D → Final D → Members D
  global_metrics stats download upload final = members_of (
      ("total_runtime_ms", real (ns_to_ms D (stats.end_mono_ns -ℤ stats.start_mono_ns)))
      ∷ ("total_bytes_down", integer (peer_network_byte_totals stats).downloaded)
      ∷ ("total_bytes_up", integer (peer_network_byte_totals stats).uploaded)
      ∷ ("file_completed_bytes", integer stats.total_download_bytes)
      ∷ ("mean_download_rate_Bps", optional_number D download.mean)
      ∷ ("mean_upload_rate_Bps", optional_number D upload.mean)
      ∷ ("download_rate_summary", distribution_summary_to_json D download)
      ∷ ("upload_rate_summary", distribution_summary_to_json D upload)
      ∷ (
        "unique_peers_seen",
        integer (pos (peer_observation_counts stats).unique_peer_endpoints_seen),
      )
      ∷ (
        "unique_peer_endpoints_seen",
        integer (pos (peer_observation_counts stats).unique_peer_endpoints_seen),
      )
      ∷ (
        "peer_connections_observed",
        integer (pos (peer_observation_counts stats).peer_connections_observed),
      )
      ∷ (
        "active_peer_connections",
        integer (pos (peer_observation_counts stats).active_peer_connections),
      )
      ∷ (
        "fingerprintable_peer_connections",
        integer (pos (peer_observation_counts stats).fingerprintable_peer_connections),
      )
      ∷ (
        "connection_attempts",
        integer (pos (stats.successful_peer_connects + stats.connection_failures)),
      )
      ∷ ("successful_peer_connects", integer (pos stats.successful_peer_connects))
      ∷ ("disconnect_count", integer (pos stats.disconnect_count))
      ∷ ("peer_error_count", integer (pos stats.peer_error_count))
      ∷ ("tracker_announces", integer (pos stats.tracker_announces))
      ∷ ("tracker_replies", integer (pos stats.tracker_replies))
      ∷ ("tracker_errors", integer (pos stats.tracker_errors))
      ∷ ("tracker_warnings", integer (pos stats.tracker_warnings))
      ∷ ("piece_completions", integer (pos stats.piece_completions))
      ∷ ("verification_piece_completions", integer (pos stats.verification_piece_completions))
      ∷ ("incoming_connections", integer (pos stats.incoming_connection_count))
      ∷ ("alerts_dropped_notifications", integer (pos stats.alerts_dropped_notifications))
      ∷ ("alerts_dropped_type_bits_total", integer (pos stats.alerts_dropped_type_bits_total))
      ∷ ("alert_loss_detected", boolean stats.alert_loss_detected)
      ∷ ("is_listening", boolean final.is_listening)
      ∷ [])

  unfoldable pub files_json : OutputPaths → Members D
  files_json output_paths = members_of (
      ("artifact_dir", string (text_of output_paths.artifact_dir))
      ∷ ("state_json", string (text_of output_paths.state_json_path))
      ∷ ("event_log", string (text_of output_paths.event_log_path))
      ∷ ("summary_json", string (text_of output_paths.summary_json_path))
      ∷ [])

  -- `root`
  unfoldable pub summary_json :
      Host → Platform → RuntimeConfig → OutputPaths → SessionStats D → Final D → Option (Json D)
  summary_json h platform config output_paths stats final = do
    download ← summarize_samples D stats.session_download_rate_samples
    upload ← summarize_samples D stats.session_upload_rate_samples
    peers ← peer_summaries_json D stats
    some (
        object (
          members_of (
            ("schema_version", integer (pos 1))
            ∷ ("session", object (build_session_json platform config stats final))
            ∷ ("config", object (runtime_config h config output_paths final))
            ∷ ("torrent", object (torrent_json h config stats final))
            ∷ ("global_metrics", object (global_metrics stats download upload final))
            ∷ ("peer_summaries", peers)
            ∷ ("files", object (files_json output_paths))
            ∷ [])))

  -- A read outside of the samples, where the program's behaviour is undefined, writes nothing here.
  write_summary : Host → OutputPaths → Option (Json D) → Io D (Unit {0})
  write_summary h output_paths none w = (err "read outside of the samples", w)
  write_summary h output_paths (some root) w =
      write_file h output_paths.summary_json_path root "failed to open summary output at "
        "failed to write summary output at " w

  unfoldable pub write_session_summary :
      Host → Platform → RuntimeConfig → OutputPaths → SessionStats D → Final D → Io D (Unit {0})
  unfolding write_summary
  write_session_summary h platform config output_paths stats final =
      write_summary h output_paths (summary_json h platform config output_paths stats final)
