-- ===== src/Peer/Window.antt =====
-- Active and idle time: the windows that `advance_activity_window` of src/peer_stats.cpp closes.
pub mod Coverage
use mathlib.Core.Path.{subst}
use bittorrent_peer_linking.Base.{
  ℤ, pos, ltb_ℤ, pos_part, neg_part, ap, ◌∙◌, if◌then◌else◌, ◌+ℤ◌, ◌-ℤ◌, ◌≤ℤ◌, int_laws, Bool, true,
  false, ◌≡◌, refl, arith, sym, String, List, [], ◌∷◌, none, some, Bool-cases, Option-cases, inl,
  inr, ℕ, Option,
}
use bittorrent_peer_linking.Keys.{ltb_ℤ_tri}
use bittorrent_peer_linking.Double.{Double}
use bittorrent_peer_linking.Util.{TimestampPair, PeerId, PeerInfo}
use bittorrent_peer_linking.Peer.State.{PeerStats, new_peer}
use bittorrent_peer_linking.Peer.Activity.{
  mark_seen, note_interaction, record_outstanding_depth, flush_incoming_request_burst,
  note_incoming_request_burst, advance_activity_window, note_peer_id,
}
use bittorrent_peer_linking.Peer.Events.{
  PeerRequest, note_connect, note_disconnect, note_request_sent, note_block_response, note_timeout,
  note_drop, note_incoming_request, note_block_uploaded, note_snubbed, note_unsnubbed,
}
use bittorrent_peer_linking.Peer.Snapshot.{
  update_from_snapshot, finalize, peer_has_recent_activity, snapshot_rate,
  reset_outstanding_requests,
}
use bittorrent_peer_linking.Peer.History.{
  PeerCall, sees, identifies, connects, disconnects, sends_request, receives_block, times_out,
  drops, receives_request, uploads_block, snubs, unsnubs, snapshots, finishes_piece, resets,
  finalizes, step, run, finish_piece,
}

-- The fields that tell time.
pub record WindowView : Type 0 where
  pub last : Option ℤ
  pub active_ns : ℤ
  pub idle_ns : ℤ

-- From `start` to the last window, at `last`, all time is active or idle.
pub record IsCovered (start last : ℤ) (v : WindowView) : Type 0 where
  pub open_window : v.last ≡ some last
  pub active_nonneg : pos 0 ≤ℤ v.active_ns
  pub idle_nonneg : pos 0 ≤ℤ v.idle_ns
  pub whole : start +ℤ v.active_ns +ℤ v.idle_ns ≡ last

le_not_lt : (a b : ℤ) → a ≤ℤ b → ltb_ℤ b a ≡ false
le_not_lt a b h = ground arith

module _ {D : Double} where
  abbrev pub window_view : PeerStats D → WindowView
  window_view p = record {
    last = p.last_activity_window_mono_ns;
    active_ns = p.active_time_ns;
    idle_ns = p.idle_time_ns;
  }

  -- A window that the clock has left counts as active or idle, as it began; one at the same
  -- time counts for nothing.
  advance-view :
      (p : PeerStats D) (last t : ℤ) (b : Bool)
      → p.last_activity_window_mono_ns ≡ some last
      → window_view (advance_activity_window p t b) ≡ (
          if ltb_ℤ last t
          then (if p.last_activity_window_active
              then record {
                last = some t;
                active_ns = p.active_time_ns +ℤ (t -ℤ last);
                idle_ns = p.idle_time_ns;
              }
              else record {
                last = some t;
                active_ns = p.active_time_ns;
                idle_ns = p.idle_time_ns +ℤ (t -ℤ last);
              })
          else record { last = some t; active_ns = p.active_time_ns; idle_ns = p.idle_time_ns })
  unfolding advance_activity_window
  advance-view p last t b e = ground arith

  pub advance-IsCovered :
      (p : PeerStats D) (start last t : ℤ) (b : Bool)
      → IsCovered start last (window_view p)
      → last ≤ℤ t
      → IsCovered start t (window_view (advance_activity_window p t b))
  advance-IsCovered p start last t b c h =
      rw (advance-view p last t b c.open_window) (elim (Bool-cases (ltb_ℤ last t)) [
        | inl later ↦ rw later (elim (Bool-cases p.last_activity_window_active) [
          | inl e ↦ simp e (record {
            open_window = refl;
            active_nonneg = omega (int_laws, c.active_nonneg);
            idle_nonneg = c.idle_nonneg;
            whole = omega (int_laws, ap pos_part c.whole, ap neg_part c.whole);
          })
          | inr e ↦ simp e (record {
            open_window = refl;
            active_nonneg = c.active_nonneg;
            idle_nonneg = omega (int_laws, c.idle_nonneg);
            whole = omega (int_laws, ap pos_part c.whole, ap neg_part c.whole);
          })
        ])
        | inr same ↦ rw same (record {
          open_window = refl;
          active_nonneg = c.active_nonneg;
          idle_nonneg = c.idle_nonneg;
          whole = c.whole ∙ ltb_ℤ_tri last t same (le_not_lt last t h);
        })
      ])
