-- ===== src/Peer/Events.antt =====
-- What an alert about a peer records: connections, requests sent and answered, requests that the
-- peer sends and the blocks uploaded for them, snubs.
use bittorrent_peer_linking.Base.{
  suc, ◌/◌, ℤ, pos, negsuc, sub_ℕ, leb_ℤ, is_zero, ◌-ℤ◌, Bool, true, false, not, ◌&&◌, ◌||◌, String,
  str_eq, is_empty, none, some, List, [], ◌∷◌, if◌then◌else◌, push_back, length,
}
use bittorrent_peer_linking.Map.{Map, find, insert, erase}
use bittorrent_peer_linking.Double.{Double}
use bittorrent_peer_linking.Util.{TimestampPair, ns_to_ms}
use bittorrent_peer_linking.Peer.State.{PeerStats, RequestKey, request_key_ord}
use bittorrent_peer_linking.Peer.Activity.{
  mark_seen, note_interaction, record_outstanding_depth, flush_incoming_request_burst,
  note_incoming_request_burst, advance_activity_window,
}

-- What the program reads of `lt::peer_request`.
pub record PeerRequest : Type 0 where
  pub piece : ℤ
  pub start : ℤ
  pub length : ℤ

module _ {D : Double} where
  -- The early guesses of direction and transport, and the explicit alert's word.
  unfoldable pub note_connect : PeerStats D → TimestampPair → String → String → Bool → PeerStats D
  note_connect p0 ts direction_value transport_value from_connect_alert =
      let p = mark_seen p0 ts in
      let guess = not from_connect_alert || not p.saw_connect_alert in
      let direction =
        if guess && not (is_empty direction_value) && str_eq p.direction "unknown"
        then direction_value
        else p.direction in
      let transport =
        if guess && not (is_empty transport_value) && str_eq p.transport "unknown"
        then transport_value
        else p.transport in
      let unset = is_zero p.connected_mono_ns in
      record p {
        active_connection = true;
        connected_mono_ns = if unset then ts.mono_ns else p.connected_mono_ns;
        connected_utc = if unset then ts.utc_ts else p.connected_utc;
        last_activity_window_mono_ns = elim p.last_activity_window_mono_ns [
          | none ↦ some ts.mono_ns
          | some last ↦ some last
        ];
        saw_connect_alert = if from_connect_alert then true else p.saw_connect_alert;
        direction = if from_connect_alert then direction_value else direction;
        transport = if from_connect_alert then transport_value else transport;
      }

  unfoldable pub note_disconnect : PeerStats D → TimestampPair → PeerStats D
  note_disconnect p ts =
      let q =
        advance_activity_window (flush_incoming_request_burst (mark_seen p ts)) ts.mono_ns false in
      record_outstanding_depth
        (record q {
          disconnected_mono_ns = ts.mono_ns;
          disconnected_utc = ts.utc_ts;
          active_connection = false;
          outstanding_requests = [];
          pending_upload_requests = [];
        })
        (D.literal 0 1)

  -- `static_cast<double>(outstanding_requests.size())` becomes a sample.
  record_queue_size : PeerStats D → PeerStats D
  record_queue_size p = record_outstanding_depth p (D.of_ℤ (pos (length p.outstanding_requests)))

  unfoldable pub note_request_sent : PeerStats D → TimestampPair → ℤ → ℤ → PeerStats D
  unfolding record_queue_size
  note_request_sent p0 ts piece_index block_index =
      let p = note_interaction (mark_seen p0 ts) ts.mono_ns in
      record_queue_size (record p {
        requests_sent = suc p.requests_sent;
        request_gap_ms_samples = elim p.last_request_sent_mono_ns [
          | none ↦ p.request_gap_ms_samples
          | some last ↦ push_back p.request_gap_ms_samples (ns_to_ms D (ts.mono_ns -ℤ last))
        ];
        first_request_delay_ms = elim p.last_request_sent_mono_ns [
          | none ↦
              if is_zero p.connected_mono_ns
              then p.first_request_delay_ms
              else some (ns_to_ms D (ts.mono_ns -ℤ p.connected_mono_ns))
          | some last ↦ p.first_request_delay_ms
        ];
        last_request_sent_mono_ns = some ts.mono_ns;
        outstanding_requests =
            insert (record { piece_index = piece_index; block_index = block_index }) ts.mono_ns
              p.outstanding_requests;
      })

  unfoldable pub note_block_response : PeerStats D → TimestampPair → ℤ → ℤ → PeerStats D
  unfolding record_queue_size
  note_block_response p0 ts piece_index block_index =
      let p = note_interaction (mark_seen p0 ts) ts.mono_ns in
      let key : RequestKey = record { piece_index = piece_index; block_index = block_index } in
      let found = find key p.outstanding_requests in
      record_queue_size (record p {
        block_responses_received = suc p.block_responses_received;
        block_latency_ms_samples = elim found [
          | none ↦ p.block_latency_ms_samples
          | some sent ↦ push_back p.block_latency_ms_samples (ns_to_ms D (ts.mono_ns -ℤ sent))
        ];
        outstanding_requests = elim found [
          | none ↦ p.outstanding_requests
          | some sent ↦ erase key p.outstanding_requests
        ];
      })

  unfoldable pub note_timeout : PeerStats D → TimestampPair → ℤ → ℤ → PeerStats D
  unfolding record_queue_size
  note_timeout p0 ts piece_index block_index =
      let p = note_interaction (mark_seen p0 ts) ts.mono_ns in
      record_queue_size (record p {
        request_timeouts = suc p.request_timeouts;
        outstanding_requests =
            erase (record { piece_index = piece_index; block_index = block_index })
              p.outstanding_requests;
      })

  unfoldable pub note_drop : PeerStats D → TimestampPair → ℤ → ℤ → PeerStats D
  unfolding record_queue_size
  note_drop p0 ts piece_index block_index =
      let p = note_interaction (mark_seen p0 ts) ts.mono_ns in
      record_queue_size (record p {
        requests_dropped = suc p.requests_dropped;
        outstanding_requests =
            erase (record { piece_index = piece_index; block_index = block_index })
              p.outstanding_requests;
      })

-- The quotient of two integers as the language takes it, towards zero; the divisor is positive.
abbrev pub quotient : ℤ → ℤ → ℤ
quotient (pos n) (pos d) = pos (n / d)
quotient (pos n) (negsuc d) = sub_ℕ 0 (n / suc d)
quotient (negsuc n) (pos d) = sub_ℕ 0 (suc n / d)
quotient (negsuc n) (negsuc d) = pos (suc n / suc d)

unfoldable pub block_index_from_request : PeerRequest → ℤ
block_index_from_request request =
    if leb_ℤ request.length (pos 0) then pos 0 else quotient request.start request.length

-- `pending_upload_requests[key]`, which makes an empty queue where there is none.
unfoldable pub queue_at : RequestKey → Map RequestKey (List ℤ) → List ℤ
queue_at key pending = elim (find key pending) [ none ↦ [] | some queue ↦ queue ]

module _ {D : Double} where
  unfoldable pub note_incoming_request : PeerStats D → TimestampPair → PeerRequest → PeerStats D
  unfolding queue_at
  note_incoming_request p0 ts request =
      let p = note_interaction (mark_seen p0 ts) ts.mono_ns in
      let q =
        note_incoming_request_burst
          (record p {
            incoming_requests_received = suc p.incoming_requests_received;
            incoming_request_gap_ms_samples = elim p.last_incoming_request_mono_ns [
              | none ↦ p.incoming_request_gap_ms_samples
              | some last ↦
                  push_back p.incoming_request_gap_ms_samples (ns_to_ms D (ts.mono_ns -ℤ last))
            ];
            first_incoming_request_delay_ms = elim p.last_incoming_request_mono_ns [
              | none ↦
                  if is_zero p.connected_mono_ns
                  then p.first_incoming_request_delay_ms
                  else some (ns_to_ms D (ts.mono_ns -ℤ p.connected_mono_ns))
              | some last ↦ p.first_incoming_request_delay_ms
            ];
            last_incoming_request_mono_ns = some ts.mono_ns;
          })
          ts.mono_ns in
      let key : RequestKey = record {
        piece_index = request.piece;
        block_index = block_index_from_request request;
      } in
      record q {
        pending_upload_requests =
            insert key (push_back (queue_at key q.pending_upload_requests) ts.mono_ns)
              q.pending_upload_requests;
      }

  -- The oldest pending request of the block is taken off its queue, and the queue with its last.
  serve_pending : PeerStats D → ℤ → RequestKey → List ℤ → PeerStats D
  serve_pending p mono_ns key [] = p
  serve_pending p mono_ns key (request_mono_ns ∷ rest) = record p {
    request_to_upload_latency_ms_samples =
        if leb_ℤ request_mono_ns mono_ns
        then push_back p.request_to_upload_latency_ms_samples
            (ns_to_ms D (mono_ns -ℤ request_mono_ns))
        else p.request_to_upload_latency_ms_samples;
    pending_upload_requests = elim rest [
      | [] ↦ erase key p.pending_upload_requests
      | next ∷ more ↦ insert key (next ∷ more) p.pending_upload_requests
    ];
  }

  unfoldable pub note_block_uploaded : PeerStats D → TimestampPair → ℤ → ℤ → PeerStats D
  unfolding serve_pending queue_at
  note_block_uploaded p0 ts piece_index block_index =
      let p = note_interaction (mark_seen p0 ts) ts.mono_ns in
      let key : RequestKey = record { piece_index = piece_index; block_index = block_index } in
      serve_pending
        (record p {
          blocks_uploaded = suc p.blocks_uploaded;
          block_upload_gap_ms_samples = elim p.last_block_uploaded_mono_ns [
            | none ↦ p.block_upload_gap_ms_samples
            | some last ↦ push_back p.block_upload_gap_ms_samples (ns_to_ms D (ts.mono_ns -ℤ last))
          ];
          first_block_upload_delay_ms = elim p.last_block_uploaded_mono_ns [
            | none ↦
                if is_zero p.connected_mono_ns
                then p.first_block_upload_delay_ms
                else some (ns_to_ms D (ts.mono_ns -ℤ p.connected_mono_ns))
            | some last ↦ p.first_block_upload_delay_ms
          ];
          last_block_uploaded_mono_ns = some ts.mono_ns;
        })
        ts.mono_ns key (queue_at key p.pending_upload_requests)

  unfoldable pub note_snubbed : PeerStats D → TimestampPair → PeerStats D
  note_snubbed p0 ts =
      let p = note_interaction (mark_seen p0 ts) ts.mono_ns in
      record p { snubbed_count = suc p.snubbed_count; snubbed = true }

  unfoldable pub note_unsnubbed : PeerStats D → TimestampPair → PeerStats D
  note_unsnubbed p0 ts =
      let p = note_interaction (mark_seen p0 ts) ts.mono_ns in
      record p { unsnubbed_count = suc p.unsnubbed_count; snubbed = false }
