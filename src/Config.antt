-- ===== src/Config.antt =====
-- `RuntimeConfig` and `OutputPaths` of src/logging.hpp. The `.` before the two default directories is
-- left out, as it names the same place.
use bittorrent_peer_linking.Base.{ℤ, pos, Bool, true, false, String, [], ◌∷◌}
use bittorrent_peer_linking.Paths.{FilePath, Place}

pub record RuntimeConfig : Type 0 where
  pub torrent_source : String
  pub torrent_source_type : String
  pub run_id : String
  pub session_id : String
  pub node_role : String
  pub announce_ip : String
  pub client_label : String
  pub profile_id : String
  pub destination_url : String
  pub artifacts_dir : FilePath
  pub save_path : FilePath
  pub runtime_seconds : ℤ
  pub listen_port : ℤ
  pub snapshot_interval_ms : ℤ
  pub console_status : Bool
  pub enable_dht : Bool
  pub enable_lsd : Bool
  pub enable_upnp : Bool
  pub enable_natpmp : Bool

abbrev pub default_config : RuntimeConfig
default_config = record {
  torrent_source = "";
  torrent_source_type = "";
  run_id = "";
  session_id = "";
  node_role = "unknown";
  announce_ip = "";
  client_label = "";
  profile_id = "";
  destination_url = "";
  artifacts_dir = record { is_absolute = false; names = "artifacts" ∷ [] };
  save_path = record { is_absolute = false; names = "data" ∷ [] };
  runtime_seconds = pos 60;
  listen_port = pos 51413;
  snapshot_interval_ms = pos 1000;
  console_status = true;
  enable_dht = false;
  enable_lsd = false;
  enable_upnp = false;
  enable_natpmp = false;
}

-- All of them are absolute.
pub record OutputPaths : Type 0 where
  pub artifact_dir : Place
  pub state_json_path : Place
  pub event_log_path : Place
  pub summary_json_path : Place
