-- ===== src/Session/Consistency/Start.antt =====
-- The session at its start, and the totals that its snapshots write, which are in no map.
use bittorrent_peer_linking.Base.{String, refl}
use bittorrent_peer_linking.Map.{find}
use bittorrent_peer_linking.Double.{Double}
use bittorrent_peer_linking.Util.{TimestampPair}
use bittorrent_peer_linking.Session.State.{SessionStats, TorrentStatus, new_session}
use bittorrent_peer_linking.Session.Totals.{set_initial_totals, record_session_snapshot}
use bittorrent_peer_linking.Session.Consistency.{IsConsistent}

pub new-IsConsistent :
    (D : Double) (run_id session_id : String) (start : TimestampPair)
    → IsConsistent (new_session D run_id session_id start)
unfolding new_session find
new-IsConsistent D run_id session_id start = record {
  peers_sorted = tt;
  active_sorted = tt;
  active = λ endpoint key h. absurd (cc h);
  numbered = λ key p h. absurd (cc h);
  counted = refl;
}

module _ {D : Double} where
  pub totals-IsConsistent :
      (s : SessionStats D) (status : TorrentStatus)
      → IsConsistent s
      → IsConsistent (set_initial_totals s status)
  unfolding set_initial_totals
  totals-IsConsistent s status c = record {
    peers_sorted = c.peers_sorted;
    active_sorted = c.active_sorted;
    active = c.active;
    numbered = c.numbered;
    counted = c.counted;
  }

  pub record-IsConsistent :
      (s : SessionStats D) (status : TorrentStatus)
      → IsConsistent s
      → IsConsistent (record_session_snapshot s status)
  unfolding record_session_snapshot
  record-IsConsistent s status c = record {
    peers_sorted = c.peers_sorted;
    active_sorted = c.active_sorted;
    active = c.active;
    numbered = c.numbered;
    counted = c.counted;
  }
