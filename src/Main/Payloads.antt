-- ===== src/Main/Payloads.antt =====
-- What `main` of src/main.cpp asks of libtorrent for a session, and what it writes to the event log
-- at the session's start and end.
use bittorrent_peer_linking.Base.{
  ℕ, ◌-ℤ◌, Bool, true, false, String, is_empty, ◌<>◌, to_string, none, List, [], ◌∷◌, ◌++◌,
  pos_part, if◌then◌else◌,
}
use bittorrent_peer_linking.Double.{Double}
use bittorrent_peer_linking.Json.{
  Members, nil, cons, members_of, object, array, integer, real, string, boolean, null_if_empty,
}
use bittorrent_peer_linking.Paths.{text_of}
use bittorrent_peer_linking.Disk.{Host}
use bittorrent_peer_linking.Config.{RuntimeConfig, OutputPaths}
use bittorrent_peer_linking.Artifacts.{absolute}
use bittorrent_peer_linking.Util.{ns_to_ms}
use bittorrent_peer_linking.Util.Names.{state_name}
use bittorrent_peer_linking.Util.Platform.{Platform}
use bittorrent_peer_linking.Alerts.{Event}
use bittorrent_peer_linking.Session.State.{SessionStats}
use bittorrent_peer_linking.Summary.Document.{Final}
use bittorrent_peer_linking.Sender.{k_client_version}

-- A value of `lt::settings_pack`; a mask is the list of its categories.
pub data PackValue : Type 0 where
  flag : Bool → PackValue
  text : String → PackValue
  number : ℕ → PackValue
  mask : List String → PackValue

-- The two interfaces on the port; a port has been checked not to be negative.
unfoldable pub listen_interfaces : RuntimeConfig → String
listen_interfaces config =
    let port = to_string (pos_part config.listen_port) in "0.0.0.0:" <> (port <> (",[::]:" <> port))

unfoldable pub announce_setting : String → List (String × PackValue)
announce_setting announce_ip =
    if is_empty announce_ip then [] else ("announce_ip", text announce_ip) ∷ []

unfoldable pub settings_pack : RuntimeConfig → List (String × PackValue)
settings_pack config =
    ("enable_dht", flag false)
    ∷ ("enable_lsd", flag false)
    ∷ ("enable_upnp", flag false)
    ∷ ("enable_natpmp", flag false)
    ∷ ("ssrf_mitigation", flag false)
    ∷ ("allow_multiple_connections_per_ip", flag true)
    ∷ ("listen_interfaces", text (listen_interfaces config))
    ∷ (announce_setting config.announce_ip
        ++ (("alert_queue_size", number 50000)
            ∷ (
              "alert_mask",
              mask (
                  "error" ∷ "status" ∷ "session_log" ∷ "torrent_log" ∷ "tracker" ∷ "peer"
                  ∷ "connect" ∷ "piece_progress" ∷ "block_progress" ∷ "upload" ∷ "incoming_request"
                  ∷ []),
            )
            ∷ []))

abbrev pub k_tailscale_cgnat_range : String
k_tailscale_cgnat_range = "100.64.0.0/10"

-- `lt::ip_filter::add_rule`, with the ends of the range as they are written.
pub record FilterRule : Type 0 where
  pub first : String
  pub last : String
  pub blocked : Bool

abbrev pub tailscale_peer_filter : List FilterRule
tailscale_peer_filter =
    record { first = "100.64.0.0"; last = "100.127.255.255"; blocked = true } ∷ []

module _ {D : Double} where
  -- An event of the session itself.
  abbrev session_event : String → Members D → Event D
  session_event event_type payload = record {
    event_type = event_type;
    payload = object payload;
    peer_context = none;
  }

  unfoldable pub started_event : Platform → OutputPaths → Event D
  started_event platform output_paths = session_event "session_started" (
      members_of (
        ("client_version", string k_client_version)
        ∷ ("hostname", string platform.hostname)
        ∷ ("artifact_dir", string (text_of output_paths.artifact_dir))
        ∷ []))

  unfoldable pub config_payload : Host → RuntimeConfig → Members D
  config_payload h config = members_of (
      ("listen_port", integer config.listen_port)
      ∷ ("announce_ip", null_if_empty D config.announce_ip)
      ∷ ("blocked_peer_ranges", array (cons (string k_tailscale_cgnat_range) nil))
      ∷ ("dht_enabled", boolean config.enable_dht)
      ∷ ("lsd_enabled", boolean config.enable_lsd)
      ∷ ("upnp_enabled", boolean config.enable_upnp)
      ∷ ("natpmp_enabled", boolean config.enable_natpmp)
      ∷ ("runtime_seconds", integer config.runtime_seconds)
      ∷ ("snapshot_interval_ms", integer config.snapshot_interval_ms)
      ∷ ("torrent_source_type", string config.torrent_source_type)
      ∷ ("save_path", string (text_of (absolute h config.save_path)))
      ∷ ("client_label", null_if_empty D config.client_label)
      ∷ ("profile_id", null_if_empty D config.profile_id)
      ∷ ("destination_url", null_if_empty D config.destination_url)
      ∷ [])

  unfoldable pub config_event : Host → RuntimeConfig → Event D
  config_event h config = session_event "session_config" (config_payload h config)

  unfoldable pub torrent_added_event : Host → RuntimeConfig → String → Event D
  torrent_added_event h config info_hash = session_event "torrent_added" (
      members_of (
        ("source_type", string config.torrent_source_type)
        ∷ ("save_path", string (text_of (absolute h config.save_path)))
        ∷ ("info_hash", null_if_empty D info_hash)
        ∷ []))

  unfoldable pub finished_event : SessionStats D → Final D → Event D
  finished_event stats final = session_event "session_finished" (
      members_of (
        ("exit_reason", string final.exit_reason)
        ∷ ("duration_ms", real (ns_to_ms D (stats.end_mono_ns -ℤ stats.start_mono_ns)))
        ∷ ("final_state", string (state_name final.status.state))
        ∷ ("final_progress", real (D.mul final.progress (D.literal 100 1)))
        ∷ ("total_done", integer final.status.total_done)
        ∷ ("total_upload", integer final.status.total_upload)
        ∷ []))
