-- ===== src/Peer/State.antt =====
-- The fields of `PeerStats`, in the order of src/peer_stats.hpp, and its constructors. Counters
-- start at zero and only grow, so they are natural numbers; times and totals are integers.
use bittorrent_peer_linking.Base.{
  ℕ, ℤ, pos, ltb_ℤ, is_zero, leb_ℤ, ◌-ℤ◌, Bool, true, false, not, ◌||◌, ◌≡◌, arith, String, List,
  [], Option, none, some, if◌then◌else◌, eq_of_parts,
}
use bittorrent_peer_linking.Map.{Ord, Map}
use bittorrent_peer_linking.Double.{Double}
use bittorrent_peer_linking.Util.{TimestampPair}

pub record RequestKey : Type 0 where
  pub piece_index : ℤ
  pub block_index : ℤ

abbrev eq_ℤ : ℤ → ℤ → Bool
eq_ℤ a b = if ltb_ℤ a b then false else not (ltb_ℤ b a)

-- `RequestKey::operator<`
unfoldable pub request_key_lt : RequestKey → RequestKey → Bool
request_key_lt key other =
    if not (eq_ℤ key.piece_index other.piece_index)
    then ltb_ℤ key.piece_index other.piece_index
    else ltb_ℤ key.block_index other.block_index

pub record EventPeerContext : Type 0 where
  pub peer_key : String
  pub peer_ip : String
  pub peer_port : ℕ
  pub direction : String
  pub transport : String

pub record PeerStats (D : Double) : Type 0 where
  pub peer_key : String
  pub endpoint_key : String
  pub peer_ip : String
  pub peer_port : ℕ
  pub direction : String
  pub transport : String
  pub peer_id_hex : String
  pub peer_id_prefix_hex : String
  pub client_name : String
  pub observed_flags : Map String (Unit {0})
  pub observed_sources : Map String (Unit {0})
  pub first_seen_utc : String
  pub last_seen_utc : String
  pub connected_utc : String
  pub disconnected_utc : String
  pub first_seen_mono_ns : ℤ
  pub last_seen_mono_ns : ℤ
  pub connected_mono_ns : ℤ
  pub disconnected_mono_ns : ℤ
  pub active_connection : Bool
  pub saw_connect_alert : Bool
  pub state_flags_initialized : Bool
  pub remote_choked : Bool
  pub local_choked : Bool
  pub snubbed : Bool
  pub interesting : Bool
  pub remote_interested : Bool
  pub seed : Bool
  pub requests_sent : ℕ
  pub block_responses_received : ℕ
  pub request_timeouts : ℕ
  pub requests_dropped : ℕ
  pub pieces_finished : ℕ
  pub incoming_requests_received : ℕ
  pub blocks_uploaded : ℕ
  pub snubbed_count : ℕ
  pub unsnubbed_count : ℕ
  pub choked_count : ℕ
  pub unchoked_count : ℕ
  pub we_choked_count : ℕ
  pub we_unchoked_count : ℕ
  pub total_download_bytes : ℤ
  pub total_upload_bytes : ℤ
  pub peak_download_rate_Bps : D.Real
  pub peak_upload_rate_Bps : D.Real
  pub first_request_delay_ms : Option D.Real
  pub first_incoming_request_delay_ms : Option D.Real
  pub first_block_upload_delay_ms : Option D.Real
  pub last_request_sent_mono_ns : Option ℤ
  pub last_incoming_request_mono_ns : Option ℤ
  pub last_block_uploaded_mono_ns : Option ℤ
  pub last_interaction_mono_ns : Option ℤ
  pub last_activity_window_mono_ns : Option ℤ
  pub last_activity_window_active : Bool
  pub active_time_ns : ℤ
  pub idle_time_ns : ℤ
  pub request_gap_ms_samples : List D.Real
  pub block_latency_ms_samples : List D.Real
  pub incoming_request_gap_ms_samples : List D.Real
  pub block_upload_gap_ms_samples : List D.Real
  pub request_to_upload_latency_ms_samples : List D.Real
  pub incoming_request_burst_size_samples : List D.Real
  pub incoming_request_burst_duration_ms_samples : List D.Real
  pub incoming_request_burst_idle_gap_ms_samples : List D.Real
  pub interaction_gap_ms_samples : List D.Real
  pub download_rate_samples : List D.Real
  pub upload_rate_samples : List D.Real
  pub outstanding_depth_samples : List D.Real
  pub outstanding_requests : Map RequestKey ℤ
  pub pending_upload_requests : Map RequestKey (List ℤ)
  pub incoming_request_burst_active : Bool
  pub current_incoming_request_burst_size : ℕ
  pub current_incoming_request_burst_start_mono_ns : ℤ
  pub current_incoming_request_burst_last_mono_ns : ℤ

pub request_key_lt_irrefl : (a : RequestKey) → request_key_lt a a ≡ false
unfolding request_key_lt
request_key_lt_irrefl a = ground arith

pub request_key_lt_trans :
    (a b c : RequestKey)
    → request_key_lt a b ≡ true
    → request_key_lt b c ≡ true
    → request_key_lt a c ≡ true
unfolding request_key_lt
request_key_lt_trans a b c h k = ground arith

pub request_key_lt_tri :
    (a b : RequestKey) → request_key_lt a b ≡ false → request_key_lt b a ≡ false → a ≡ b
unfolding request_key_lt
request_key_lt_tri a b h k =
    let p : a.piece_index ≡ b.piece_index = eq_of_parts _ _ (ground arith) in
    let q : a.block_index ≡ b.block_index = eq_of_parts _ _ (ground arith) in
    λ i. record { piece_index = p i; block_index = q i }

instance abbrev pub request_key_ord : Ord RequestKey
request_key_ord = record {
  lt = request_key_lt;
  lt_irrefl = request_key_lt_irrefl;
  lt_trans = request_key_lt_trans;
  lt_tri = request_key_lt_tri;
}

module _ {D : Double} where
  unfoldable pub event_context : PeerStats D → EventPeerContext
  event_context p = record {
    peer_key = p.peer_key;
    peer_ip = p.peer_ip;
    peer_port = p.peer_port;
    direction = p.direction;
    transport = p.transport;
  }

  unfoldable pub connected_duration_ns : PeerStats D → ℤ
  connected_duration_ns peer =
      let start =
        if not (is_zero peer.connected_mono_ns)
        then peer.connected_mono_ns
        else peer.first_seen_mono_ns in
      let end =
        if not (is_zero peer.disconnected_mono_ns)
        then peer.disconnected_mono_ns
        else peer.last_seen_mono_ns in
      if is_zero start || leb_ℤ end start then pos 0 else end -ℤ start

-- The constructor with arguments; every other field has the default of its declaration.
unfoldable pub new_peer :
    (D : Double) → String → String → String → ℕ → TimestampPair → String → String → PeerStats D
new_peer D peer_key_value endpoint_key_value peer_ip_value peer_port_value ts direction_value
      transport_value =
    record {
      peer_key = peer_key_value;
      endpoint_key = endpoint_key_value;
      peer_ip = peer_ip_value;
      peer_port = peer_port_value;
      direction = direction_value;
      transport = transport_value;
      peer_id_hex = "unknown";
      peer_id_prefix_hex = "";
      client_name = "";
      observed_flags = [];
      observed_sources = [];
      first_seen_utc = ts.utc_ts;
      last_seen_utc = ts.utc_ts;
      connected_utc = ts.utc_ts;
      disconnected_utc = "";
      first_seen_mono_ns = ts.mono_ns;
      last_seen_mono_ns = ts.mono_ns;
      connected_mono_ns = ts.mono_ns;
      disconnected_mono_ns = pos 0;
      active_connection = true;
      saw_connect_alert = false;
      state_flags_initialized = false;
      remote_choked = false;
      local_choked = false;
      snubbed = false;
      interesting = false;
      remote_interested = false;
      seed = false;
      requests_sent = 0;
      block_responses_received = 0;
      request_timeouts = 0;
      requests_dropped = 0;
      pieces_finished = 0;
      incoming_requests_received = 0;
      blocks_uploaded = 0;
      snubbed_count = 0;
      unsnubbed_count = 0;
      choked_count = 0;
      unchoked_count = 0;
      we_choked_count = 0;
      we_unchoked_count = 0;
      total_download_bytes = pos 0;
      total_upload_bytes = pos 0;
      peak_download_rate_Bps = D.literal 0 1;
      peak_upload_rate_Bps = D.literal 0 1;
      first_request_delay_ms = none;
      first_incoming_request_delay_ms = none;
      first_block_upload_delay_ms = none;
      last_request_sent_mono_ns = none;
      last_incoming_request_mono_ns = none;
      last_block_uploaded_mono_ns = none;
      last_interaction_mono_ns = none;
      last_activity_window_mono_ns = some ts.mono_ns;
      last_activity_window_active = true;
      active_time_ns = pos 0;
      idle_time_ns = pos 0;
      request_gap_ms_samples = [];
      block_latency_ms_samples = [];
      incoming_request_gap_ms_samples = [];
      block_upload_gap_ms_samples = [];
      request_to_upload_latency_ms_samples = [];
      incoming_request_burst_size_samples = [];
      incoming_request_burst_duration_ms_samples = [];
      incoming_request_burst_idle_gap_ms_samples = [];
      interaction_gap_ms_samples = [];
      download_rate_samples = [];
      upload_rate_samples = [];
      outstanding_depth_samples = [];
      outstanding_requests = [];
      pending_upload_requests = [];
      incoming_request_burst_active = false;
      current_incoming_request_burst_size = 0;
      current_incoming_request_burst_start_mono_ns = pos 0;
      current_incoming_request_burst_last_mono_ns = pos 0;
    }
