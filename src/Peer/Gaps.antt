-- ===== src/Peer/Gaps.antt =====
-- The gap samples of src/peer_stats.cpp: of requests sent, of incoming requests and of uploaded
-- blocks, each against the count of its events.
use bittorrent_peer_linking.Base.{
  ℕ, suc, ℤ, ◌-ℤ◌, ◌≡◌, refl, arith, sym, ap, String, List, [], ◌∷◌, Option, none, some, length,
  push_back, length-push_back,
}
use mathlib.Core.Path.{subst}
use bittorrent_peer_linking.Double.{Double}
use bittorrent_peer_linking.Util.{TimestampPair, PeerInfo, ns_to_ms}
use bittorrent_peer_linking.Peer.State.{PeerStats, new_peer}
use bittorrent_peer_linking.Peer.Activity.{
  mark_seen, note_interaction, record_outstanding_depth, flush_incoming_request_burst,
  note_incoming_request_burst, advance_activity_window, note_peer_id,
}
use bittorrent_peer_linking.Peer.Events.{
  PeerRequest, note_connect, note_disconnect, note_request_sent, note_block_response, note_timeout,
  note_drop, note_incoming_request, note_block_uploaded, note_snubbed, note_unsnubbed,
}
use bittorrent_peer_linking.Peer.Snapshot.{
  update_from_snapshot, finalize, reset_outstanding_requests,
}
use bittorrent_peer_linking.Peer.History.{
  PeerCall, sees, identifies, connects, disconnects, sends_request, receives_block, times_out,
  drops, receives_request, uploads_block, snubs, unsnubs, snapshots, finishes_piece, resets,
  finalizes, step, run, finish_piece,
}

-- Events of one kind: how many there were, the gaps between them, and the time of the last.
pub record Series (D : Double) : Type 0 where
  pub count : ℕ
  pub gaps : List D.Real
  pub last : Option ℤ

-- The three kinds of events that are timed.
pub record Rhythm (D : Double) : Type 0 where
  pub sent : Series D
  pub incoming : Series D
  pub uploaded : Series D

-- One gap between each event and the next, and a last event if there was any.
abbrev pub IsSpaced : {A : Type 0} → ℕ → List A → Option ℤ → Type 0
IsSpaced n gaps none = (gaps ≡ []) × (n ≡ 0)
IsSpaced n gaps (some t) = n ≡ suc (length gaps)

-- The gap since the last event becomes a sample.
abbrev pub next_gaps : {A : Type 0} → List A → Option ℤ → (ℤ → A) → List A
next_gaps gaps none gap = gaps
next_gaps gaps (some t) gap = push_back gaps (gap t)

next-IsSpaced :
    {A : Type 0} (n : ℕ) (gaps : List A) (last : Option ℤ) (now : ℤ) (gap : ℤ → A)
    → IsSpaced n gaps last
    → IsSpaced (suc n) (next_gaps gaps last gap) (some now)
next-IsSpaced n gaps none now gap (e, h) = omega (arith, h, ap length e)
next-IsSpaced n gaps (some t) now gap h = omega (arith, h, length-push_back gaps (gap t))

module _ {D : Double} where
  -- One event more.
  abbrev pub next_of : Series D → ℤ → Series D
  next_of v now = record {
    count = suc v.count;
    gaps = next_gaps v.gaps v.last (λ t. ns_to_ms D (now -ℤ t));
    last = some now;
  }

  abbrev pub requests_sent_of : PeerStats D → Series D
  requests_sent_of p = record {
    count = p.requests_sent;
    gaps = p.request_gap_ms_samples;
    last = p.last_request_sent_mono_ns;
  }

  abbrev pub incoming_requests_of : PeerStats D → Series D
  incoming_requests_of p = record {
    count = p.incoming_requests_received;
    gaps = p.incoming_request_gap_ms_samples;
    last = p.last_incoming_request_mono_ns;
  }

  abbrev pub uploads_of : PeerStats D → Series D
  uploads_of p = record {
    count = p.blocks_uploaded;
    gaps = p.block_upload_gap_ms_samples;
    last = p.last_block_uploaded_mono_ns;
  }

  abbrev pub rhythm_of : PeerStats D → Rhythm D
  rhythm_of p = record {
    sent = requests_sent_of p;
    incoming = incoming_requests_of p;
    uploaded = uploads_of p;
  }

  -- What a call is to the three kinds.
  abbrev pub beat : Rhythm D → TimestampPair × PeerCall → Rhythm D
  beat r (ts, sends_request piece block) = record r { sent = next_of r.sent ts.mono_ns }
  beat r (ts, receives_request request) = record r { incoming = next_of r.incoming ts.mono_ns }
  beat r (ts, uploads_block piece block) = record r { uploaded = next_of r.uploaded ts.mono_ns }
  beat r _ = r

  disconnect-rhythm :
      (p : PeerStats D) (ts : TimestampPair) → rhythm_of (note_disconnect p ts) ≡ rhythm_of p
  unfolding note_disconnect mark_seen record_outstanding_depth advance_activity_window
      flush_incoming_request_burst
  disconnect-rhythm p ts = ground arith

  finalize-rhythm : (p : PeerStats D) (ts : TimestampPair) → rhythm_of (finalize p ts) ≡ rhythm_of p
  unfolding finalize note_disconnect mark_seen record_outstanding_depth advance_activity_window
      flush_incoming_request_burst
  finalize-rhythm p ts = ground arith

  send-rhythm :
      (p : PeerStats D) (ts : TimestampPair) (piece block : ℤ)
      → rhythm_of (note_request_sent p ts piece block)
        ≡ beat (rhythm_of p) (ts, sends_request piece block)
  unfolding note_request_sent mark_seen note_interaction record_outstanding_depth
  send-rhythm p ts piece block = ground arith

  incoming-rhythm :
      (p : PeerStats D) (ts : TimestampPair) (request : PeerRequest)
      → rhythm_of (note_incoming_request p ts request)
        ≡ beat (rhythm_of p) (ts, receives_request request)
  unfolding note_incoming_request mark_seen note_interaction note_incoming_request_burst
      flush_incoming_request_burst
  incoming-rhythm p ts request = ground arith

  upload-rhythm :
      (p : PeerStats D) (ts : TimestampPair) (piece block : ℤ)
      → rhythm_of (note_block_uploaded p ts piece block)
        ≡ beat (rhythm_of p) (ts, uploads_block piece block)
  unfolding note_block_uploaded mark_seen note_interaction
  upload-rhythm p ts piece block = ground arith

  snapshot-rhythm :
      (p : PeerStats D) (ts : TimestampPair) (peer : PeerInfo) (interval : ℤ)
      → rhythm_of (update_from_snapshot p peer ts interval) ≡ rhythm_of p
  unfolding update_from_snapshot note_interaction mark_seen note_peer_id record_outstanding_depth
      advance_activity_window
  snapshot-rhythm p ts peer interval = ground arith

  step-rhythm :
      (p : PeerStats D) (ts : TimestampPair) (call : PeerCall)
      → rhythm_of (step p (ts, call)) ≡ beat (rhythm_of p) (ts, call)
  unfolding step mark_seen note_interaction note_peer_id note_connect note_request_sent
      note_block_response note_timeout note_drop note_incoming_request note_incoming_request_burst
      note_block_uploaded note_snubbed note_unsnubbed finish_piece reset_outstanding_requests
      record_outstanding_depth flush_incoming_request_burst advance_activity_window
      update_from_snapshot
  step-rhythm p ts sees = refl
  step-rhythm p ts (identifies pid) = ground arith
  step-rhythm p ts (connects direction transport alert) = refl
  step-rhythm p ts disconnects = disconnect-rhythm p ts
  step-rhythm p ts (sends_request piece block) = send-rhythm p ts piece block
  step-rhythm p ts (receives_block piece block) = refl
  step-rhythm p ts (times_out piece block) = refl
  step-rhythm p ts (drops piece block) = refl
  step-rhythm p ts (receives_request request) = incoming-rhythm p ts request
  step-rhythm p ts (uploads_block piece block) = upload-rhythm p ts piece block
  step-rhythm p ts snubs = refl
  step-rhythm p ts unsnubs = refl
  step-rhythm p ts (snapshots peer interval) = snapshot-rhythm p ts peer interval
  step-rhythm p ts finishes_piece = refl
  step-rhythm p ts resets = refl
  step-rhythm p ts finalizes = finalize-rhythm p ts

  abbrev pub IsGapped : Rhythm D → Type 0
  IsGapped r =
      IsSpaced r.sent.count r.sent.gaps r.sent.last
      × IsSpaced r.incoming.count r.incoming.gaps r.incoming.last
      × IsSpaced r.uploaded.count r.uploaded.gaps r.uploaded.last

  beat-IsGapped :
      (r : Rhythm D) (ts : TimestampPair) (call : PeerCall)
      → IsGapped r
      → IsGapped (beat r (ts, call))
  beat-IsGapped r ts (sends_request piece block) (a, b, c) =
      (next-IsSpaced r.sent.count r.sent.gaps r.sent.last ts.mono_ns _ a, b, c)
  beat-IsGapped r ts (receives_request request) (a, b, c) =
      (a, next-IsSpaced r.incoming.count r.incoming.gaps r.incoming.last ts.mono_ns _ b, c)
  beat-IsGapped r ts (uploads_block piece block) (a, b, c) =
      (a, b, next-IsSpaced r.uploaded.count r.uploaded.gaps r.uploaded.last ts.mono_ns _ c)
  beat-IsGapped r ts sees h = h
  beat-IsGapped r ts (identifies pid) h = h
  beat-IsGapped r ts (connects direction transport alert) h = h
  beat-IsGapped r ts disconnects h = h
  beat-IsGapped r ts (receives_block piece block) h = h
  beat-IsGapped r ts (times_out piece block) h = h
  beat-IsGapped r ts (drops piece block) h = h
  beat-IsGapped r ts snubs h = h
  beat-IsGapped r ts unsnubs h = h
  beat-IsGapped r ts (snapshots peer interval) h = h
  beat-IsGapped r ts finishes_piece h = h
  beat-IsGapped r ts resets h = h
  beat-IsGapped r ts finalizes h = h

  history-IsGapped :
      (p : PeerStats D) (calls : List (TimestampPair × PeerCall))
      → IsGapped (rhythm_of p)
      → IsGapped (rhythm_of (run p calls))
  unfolding run
  history-IsGapped p [] h = h
  history-IsGapped p ((ts, call) ∷ calls) h =
      history-IsGapped (step p (ts, call)) calls
        (subst IsGapped (sym (step-rhythm p ts call)) (beat-IsGapped (rhythm_of p) ts call h))

-- After any calls on a new peer, for each of the requests sent, the incoming requests and the
-- uploaded blocks: there are no gap samples and no time of a last event as long as there was no
-- event, and afterwards there is a time of the last one and exactly one gap sample fewer than
-- events.
pub run-IsGapped :
    (D : Double) (peer_key endpoint_key peer_ip : String) (peer_port : ℕ) (ts : TimestampPair)
    (direction transport : String) (calls : List (TimestampPair × PeerCall))
    → IsGapped (
        rhythm_of
          (run (new_peer D peer_key endpoint_key peer_ip peer_port ts direction transport) calls))
unfolding new_peer
run-IsGapped D peer_key endpoint_key peer_ip peer_port ts direction transport calls =
    history-IsGapped (new_peer D peer_key endpoint_key peer_ip peer_port ts direction transport)
      calls ((refl, refl), (refl, refl), (refl, refl))
