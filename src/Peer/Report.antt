-- ===== src/Peer/Report.antt =====
-- `PeerStats::to_json` and `SessionStats::peer_summaries_json` of src/peer_stats.cpp: the row of a
-- connection in the summary of a session.
pub mod Rows
use bittorrent_peer_linking.Base.{
  ◌+◌, pos, Bool, true, false, ◌||◌, String, str_eq, Option, none, some, List, [], ◌∷◌, ◌++◌, ◌>>=◌,
  if◌then◌else◌,
}
use bittorrent_peer_linking.Double.{Double, min_real}
use bittorrent_peer_linking.Map.{Map}
use bittorrent_peer_linking.Json.{
  Json, Members, Items, nil, cons, members_of, object, array, integer, real, string, boolean,
  null_if_empty, optional_number, strings_to_json_array,
}
use bittorrent_peer_linking.Util.{ns_to_ms}
use bittorrent_peer_linking.Util.Samples.{
  DistributionSummary, summarize_samples, distribution_summary_to_json,
}
use bittorrent_peer_linking.Peer.State.{PeerStats, connected_duration_ns}
use bittorrent_peer_linking.Session.State.{SessionStats}

-- The summaries of the connection's samples.
pub record Summaries (D : Double) : Type 0 where
  pub request_gap : DistributionSummary D
  pub latency : DistributionSummary D
  pub incoming_request_gap : DistributionSummary D
  pub block_upload_gap : DistributionSummary D
  pub request_to_upload_latency : DistributionSummary D
  pub incoming_request_burst_size : DistributionSummary D
  pub incoming_request_burst_duration : DistributionSummary D
  pub incoming_request_burst_idle_gap : DistributionSummary D
  pub interaction_gap : DistributionSummary D
  pub download_rate : DistributionSummary D
  pub upload_rate : DistributionSummary D
  pub outstanding_depth : DistributionSummary D

-- A set of texts in its order.
unfoldable pub sorted_strings : Map String (Unit {0}) → List String
sorted_strings [] = []
sorted_strings ((value, unit) ∷ values) = value ∷ sorted_strings values

unfoldable pub has_label : String → Map String (Unit {0}) → Bool
has_label label [] = false
has_label label ((value, unit) ∷ values) = str_eq label value || has_label label values

module _ (D : Double) where
  open D use {mul, div, of_ℤ, literal}

  unfoldable pub summaries_of : PeerStats D → Option (Summaries D)
  summaries_of p = do
    request_gap ← summarize_samples D p.request_gap_ms_samples
    latency ← summarize_samples D p.block_latency_ms_samples
    incoming_request_gap ← summarize_samples D p.incoming_request_gap_ms_samples
    block_upload_gap ← summarize_samples D p.block_upload_gap_ms_samples
    request_to_upload_latency ← summarize_samples D p.request_to_upload_latency_ms_samples
    incoming_request_burst_size ← summarize_samples D p.incoming_request_burst_size_samples
    incoming_request_burst_duration ←
        summarize_samples D p.incoming_request_burst_duration_ms_samples
    incoming_request_burst_idle_gap ←
        summarize_samples D p.incoming_request_burst_idle_gap_ms_samples
    interaction_gap ← summarize_samples D p.interaction_gap_ms_samples
    download_rate ← summarize_samples D p.download_rate_samples
    upload_rate ← summarize_samples D p.upload_rate_samples
    outstanding_depth ← summarize_samples D p.outstanding_depth_samples
    some (record {
      request_gap = request_gap;
      latency = latency;
      incoming_request_gap = incoming_request_gap;
      block_upload_gap = block_upload_gap;
      request_to_upload_latency = request_to_upload_latency;
      incoming_request_burst_size = incoming_request_burst_size;
      incoming_request_burst_duration = incoming_request_burst_duration;
      incoming_request_burst_idle_gap = incoming_request_burst_idle_gap;
      interaction_gap = interaction_gap;
      download_rate = download_rate;
      upload_rate = upload_rate;
      outstanding_depth = outstanding_depth;
    })

  unfoldable pub observation_quality_score : PeerStats D → D.Real
  observation_quality_score p =
      let observation_duration_ms = ns_to_ms D (connected_duration_ns p) in
      let sample_score =
        min_real D (literal 1 1)
          (div (of_ℤ (pos (p.requests_sent + p.incoming_requests_received))) (literal 1000 1)) in
      let duration_score =
        min_real D (literal 1 1) (div observation_duration_ms (literal 30000 1)) in
      mul sample_score duration_score

  unfoldable pub state_transitions : PeerStats D → Members D
  state_transitions p = members_of (
      ("peer_choked_us", integer (pos p.choked_count))
      ∷ ("peer_unchoked_us", integer (pos p.unchoked_count))
      ∷ ("we_choked_peer", integer (pos p.we_choked_count))
      ∷ ("we_unchoked_peer", integer (pos p.we_unchoked_count))
      ∷ ("peer_snubbed", integer (pos p.snubbed_count))
      ∷ ("peer_unsnubbed", integer (pos p.unsnubbed_count))
      ∷ [])

  unfoldable pub identity_rows : PeerStats D → List (String × Json D)
  identity_rows p =
      ("peer_key", string p.peer_key)
      ∷ ("peer_ip", string p.peer_ip)
      ∷ ("peer_port", integer (pos p.peer_port))
      ∷ ("direction", string p.direction)
      ∷ ("transport", string p.transport)
      ∷ (
        "peer_id_hex",
        null_if_empty D (if str_eq p.peer_id_hex "unknown" then "" else p.peer_id_hex),
      )
      ∷ ("peer_id_prefix", null_if_empty D p.peer_id_prefix_hex)
      ∷ ("client", null_if_empty D p.client_name)
      ∷ ("capability_flags", array (strings_to_json_array D (sorted_strings p.observed_flags)))
      ∷ ("peer_sources", array (strings_to_json_array D (sorted_strings p.observed_sources)))
      ∷ ("first_seen_utc", null_if_empty D p.first_seen_utc)
      ∷ ("last_seen_utc", null_if_empty D p.last_seen_utc)
      ∷ ("connected_utc", null_if_empty D p.connected_utc)
      ∷ ("disconnected_utc", null_if_empty D p.disconnected_utc)
      ∷ ("first_seen_mono_ns", integer p.first_seen_mono_ns)
      ∷ ("last_seen_mono_ns", integer p.last_seen_mono_ns)
      ∷ ("total_connected_duration_ms", real (ns_to_ms D (connected_duration_ns p)))
      ∷ ("connection_duration_ms", real (ns_to_ms D (connected_duration_ns p)))
      ∷ ("first_request_delay_ms", optional_number D p.first_request_delay_ms)
      ∷ ("first_incoming_request_delay_ms", optional_number D p.first_incoming_request_delay_ms)
      ∷ ("first_block_upload_delay_ms", optional_number D p.first_block_upload_delay_ms)
      ∷ []

  unfoldable pub pace_rows : Summaries D → List (String × Json D)
  pace_rows r =
      ("mean_request_gap_ms", optional_number D r.request_gap.mean)
      ∷ ("std_request_gap_ms", optional_number D r.request_gap.stddev)
      ∷ ("p50_request_gap_ms", optional_number D r.request_gap.p50)
      ∷ ("p95_request_gap_ms", optional_number D r.request_gap.p95)
      ∷ ("mean_incoming_request_gap_ms", optional_number D r.incoming_request_gap.mean)
      ∷ ("std_incoming_request_gap_ms", optional_number D r.incoming_request_gap.stddev)
      ∷ ("p50_incoming_request_gap_ms", optional_number D r.incoming_request_gap.p50)
      ∷ ("p95_incoming_request_gap_ms", optional_number D r.incoming_request_gap.p95)
      ∷ ("mean_block_upload_gap_ms", optional_number D r.block_upload_gap.mean)
      ∷ ("std_block_upload_gap_ms", optional_number D r.block_upload_gap.stddev)
      ∷ ("p50_block_upload_gap_ms", optional_number D r.block_upload_gap.p50)
      ∷ ("p95_block_upload_gap_ms", optional_number D r.block_upload_gap.p95)
      ∷ ("mean_request_to_upload_latency_ms", optional_number D r.request_to_upload_latency.mean)
      ∷ ("std_request_to_upload_latency_ms", optional_number D r.request_to_upload_latency.stddev)
      ∷ ("p50_request_to_upload_latency_ms", optional_number D r.request_to_upload_latency.p50)
      ∷ ("p95_request_to_upload_latency_ms", optional_number D r.request_to_upload_latency.p95)
      ∷ ("mean_block_latency_ms", optional_number D r.latency.mean)
      ∷ ("std_block_latency_ms", optional_number D r.latency.stddev)
      ∷ ("p50_block_latency_ms", optional_number D r.latency.p50)
      ∷ ("p95_block_latency_ms", optional_number D r.latency.p95)
      ∷ ("mean_interaction_gap_ms", optional_number D r.interaction_gap.mean)
      ∷ ("mean_incoming_request_burst_size", optional_number D r.incoming_request_burst_size.mean)
      ∷ ("p95_incoming_request_burst_size", optional_number D r.incoming_request_burst_size.p95)
      ∷ (
        "mean_incoming_request_burst_duration_ms",
        optional_number D r.incoming_request_burst_duration.mean,
      )
      ∷ (
        "p95_incoming_request_burst_duration_ms",
        optional_number D r.incoming_request_burst_duration.p95,
      )
      ∷ (
        "mean_incoming_request_burst_idle_gap_ms",
        optional_number D r.incoming_request_burst_idle_gap.mean,
      )
      ∷ (
        "p95_incoming_request_burst_idle_gap_ms",
        optional_number D r.incoming_request_burst_idle_gap.p95,
      )
      ∷ []

  unfoldable pub count_rows : PeerStats D → Summaries D → List (String × Json D)
  count_rows p r =
      ("active_time_ms", real (ns_to_ms D p.active_time_ns))
      ∷ ("idle_time_ms", real (ns_to_ms D p.idle_time_ns))
      ∷ ("observation_quality_score", real (observation_quality_score p))
      ∷ ("observation_sample_count", integer (pos (p.requests_sent + p.incoming_requests_received)))
      ∷ ("requests_sent", integer (pos p.requests_sent))
      ∷ ("block_responses_received", integer (pos p.block_responses_received))
      ∷ ("request_timeouts", integer (pos p.request_timeouts))
      ∷ ("requests_dropped", integer (pos p.requests_dropped))
      ∷ ("pieces_finished", integer (pos p.pieces_finished))
      ∷ ("snubbed_count", integer (pos p.snubbed_count))
      ∷ ("unsnubbed_count", integer (pos p.unsnubbed_count))
      ∷ ("choked_count", integer (pos p.choked_count))
      ∷ ("unchoked_count", integer (pos p.unchoked_count))
      ∷ ("mean_download_rate_Bps", optional_number D r.download_rate.mean)
      ∷ ("mean_upload_rate_Bps", optional_number D r.upload_rate.mean)
      ∷ ("peak_download_rate_Bps", real p.peak_download_rate_Bps)
      ∷ ("peak_upload_rate_Bps", real p.peak_upload_rate_Bps)
      ∷ []

  unfoldable pub summary_rows : Summaries D → List (String × Json D)
  summary_rows r =
      ("request_gap_summary", distribution_summary_to_json D r.request_gap)
      ∷ ("block_latency_summary", distribution_summary_to_json D r.latency)
      ∷ ("incoming_request_gap_summary", distribution_summary_to_json D r.incoming_request_gap)
      ∷ ("block_upload_gap_summary", distribution_summary_to_json D r.block_upload_gap)
      ∷ (
        "request_to_upload_latency_summary",
        distribution_summary_to_json D r.request_to_upload_latency,
      )
      ∷ (
        "incoming_request_burst_size_summary",
        distribution_summary_to_json D r.incoming_request_burst_size,
      )
      ∷ (
        "incoming_request_burst_duration_summary",
        distribution_summary_to_json D r.incoming_request_burst_duration,
      )
      ∷ (
        "incoming_request_burst_idle_gap_summary",
        distribution_summary_to_json D r.incoming_request_burst_idle_gap,
      )
      ∷ ("interaction_gap_summary", distribution_summary_to_json D r.interaction_gap)
      ∷ ("download_rate_summary", distribution_summary_to_json D r.download_rate)
      ∷ ("upload_rate_summary", distribution_summary_to_json D r.upload_rate)
      ∷ ("outstanding_request_depth_summary", distribution_summary_to_json D r.outstanding_depth)
      ∷ []

  unfoldable pub closing_rows : PeerStats D → List (String × Json D)
  closing_rows p =
      ("state_transition_counts", object (state_transitions p))
      ∷ ("total_download_bytes", integer p.total_download_bytes)
      ∷ ("total_upload_bytes", integer p.total_upload_bytes)
      ∷ ("incoming_requests_received", integer (pos p.incoming_requests_received))
      ∷ ("blocks_uploaded", integer (pos p.blocks_uploaded))
      ∷ ("supports_extensions", boolean (has_label "supports_extensions" p.observed_flags))
      ∷ ("is_seed", boolean p.seed)
      ∷ ("remote_choked", boolean p.remote_choked)
      ∷ ("local_choked", boolean p.local_choked)
      ∷ ("snubbed", boolean p.snubbed)
      ∷ []

  -- The members of the initializer list, one part after the other.
  unfoldable pub row_of : PeerStats D → Summaries D → Json D
  row_of p r = object (
      members_of (
        identity_rows p
        ++ (pace_rows r ++ (count_rows p r ++ (summary_rows r ++ (closing_rows p))))))

  unfoldable pub to_json : PeerStats D → Option (Json D)
  to_json p = do r ← summaries_of p; some (row_of p r)

  unfoldable pub rows_of : Map String (PeerStats D) → Option (Items D)
  rows_of [] = some nil
  rows_of ((peer_key, peer) ∷ peers) = do
    row ← to_json peer
    rows ← rows_of peers
    some (cons row rows)

  unfoldable pub peer_summaries_json : SessionStats D → Option (Json D)
  peer_summaries_json s = do rows ← rows_of s.peers_by_key; some (array rows)
