-- ===== src/Summary/Document/Contents.antt =====
-- What the summary of src/summary_writer.cpp tells of a session.
use bittorrent_peer_linking.Base.{
  ℕ, suc, pos, ◌≡◌, refl, sym, ap, ◌∙◌, inl, inr, Option-cases, String, Option, none, some, [], ◌∷◌,
  length, ◌>>=◌,
}
use bittorrent_peer_linking.Base.Results.{ok, err_apart}
use bittorrent_peer_linking.Double.{Double}
use bittorrent_peer_linking.Map.{Map}
use bittorrent_peer_linking.Paths.{same_place}
use bittorrent_peer_linking.Json.{
  Json, Items, nil, cons, array, integer, value_find, find_member, members_of,
}
use bittorrent_peer_linking.Exec.Respects.{Respects}
use bittorrent_peer_linking.Config.{RuntimeConfig, OutputPaths}
use bittorrent_peer_linking.Disk.{Host, World, Io, document, write_file}
use bittorrent_peer_linking.Disk.Laws.{sparing, write_file-Spares, write_file-entry}
use bittorrent_peer_linking.Util.Platform.{Platform}
use bittorrent_peer_linking.Base.Ensures.{Ensures, bind-Ensures, some-Ensures}
use bittorrent_peer_linking.Util.Samples.{summarize_samples}
use bittorrent_peer_linking.Peer.Report.{peer_summaries_json}
use bittorrent_peer_linking.Exec.{raise}
use bittorrent_peer_linking.Peer.State.{PeerStats}
use bittorrent_peer_linking.Peer.Report.Rows.{AreRows, summaries-AreRows}
use bittorrent_peer_linking.Session.State.{SessionStats}
use bittorrent_peer_linking.Session.Consistency.{IsConsistent}
use bittorrent_peer_linking.Summary.{peer_network_byte_totals}
use bittorrent_peer_linking.Summary.Counts.{counts-bounds}
use bittorrent_peer_linking.Summary.Document.{
  Final, summary_json, torrent_json, global_metrics, write_summary, write_session_summary,
}

module _ {D : Double} where
  -- The value at a key of the member at a key.
  abbrev pub under : Json D → String → String → Option (Json D)
  under root outer inner = value_find root outer >>= λ value. value_find value inner

  abbrev pub count_items : Items D → ℕ
  count_items nil = 0
  count_items (cons item items) = suc (count_items items)

  count-rows :
      (peers : Map String (PeerStats D)) (rows : Items D)
      → AreRows peers rows
      → length peers ≡ count_items rows
  count-rows [] nil h = refl
  count-rows [] (cons row rows) h = absurd h
  count-rows ((key, peer) ∷ peers) nil h = absurd h
  count-rows ((key, peer) ∷ peers) (cons row rows) (k, h) = ap suc (count-rows peers rows h)

  -- One row for each connection, under its key; as many rows as there are connections counted; and
  -- the totals of the torrent and of the metrics are those of the connections.
  pub record IsReport (s : SessionStats D) (root : Json D) : Type 0 where
    pub rows : Items D
    pub summaries : value_find root "peer_summaries" ≡ some (array rows)
    pub are_rows : AreRows s.peers_by_key rows
    pub counted :
        under root "global_metrics" "peer_connections_observed"
        ≡ some (integer (pos (count_items rows)))
    pub downloaded :
        under root "torrent" "session_network_downloaded_bytes"
        ≡ some (integer (peer_network_byte_totals s).downloaded)
    pub same_downloaded :
        under root "global_metrics" "total_bytes_down"
        ≡ under root "torrent" "session_network_downloaded_bytes"
    pub uploaded :
        under root "torrent" "session_network_uploaded_bytes"
        ≡ some (integer (peer_network_byte_totals s).uploaded)
    pub same_uploaded :
        under root "global_metrics" "total_bytes_up"
        ≡ under root "torrent" "session_network_uploaded_bytes"

module _ {D : Double} (h : Host) (platform : Platform) (config : RuntimeConfig)
    (output_paths : OutputPaths) where
  document-IsReport :
      (s : SessionStats D) (final : Final D)
      → IsConsistent s
      → Ensures (summary_json h platform config output_paths s final) (IsReport s)
  unfolding summary_json torrent_json global_metrics value_find find_member members_of
  document-IsReport s final c =
      bind-Ensures (summarize_samples D s.session_download_rate_samples) _ (λ download e.
        bind-Ensures (summarize_samples D s.session_upload_rate_samples) _ (λ upload f.
          bind-Ensures (peer_summaries_json D s) _ (λ peers g.
            let (rows, array_of, are_rows) = summaries-AreRows D s c peers g in
            some-Ensures _ _ (record {
              rows = rows;
              summaries = ap some array_of;
              are_rows = are_rows;
              counted =
                  ap (λ n. some (integer (pos n)))
                    ((counts-bounds s).0 ∙ count-rows s.peers_by_key rows are_rows);
              downloaded = refl;
              same_downloaded = refl;
              uploaded = refl;
              same_uploaded = refl;
            }))))

  written :
      (s : SessionStats D) (final : Final D) (root : Json D)
      → summary_json h platform config output_paths s final ≡ some root
      → write_session_summary h platform config output_paths s final
        ≡ write_file h output_paths.summary_json_path root "failed to open summary output at "
            "failed to write summary output at "
  unfolding write_session_summary write_summary
  written s final root e = rw e refl

  write_summary-Spares :
      (x : Option (Json D))
      → Respects
          (sparing D (same_place output_paths.summary_json_path))
          (write_summary h output_paths x)
  unfolding write_summary
  write_summary-Spares none w = (sparing D (same_place output_paths.summary_json_path)).stays w
  write_summary-Spares (some root) w = write_file-Spares h output_paths.summary_json_path root _ _ w

  pub write_session-Spares :
      (s : SessionStats D) (final : Final D)
      → Respects
          (sparing D (same_place output_paths.summary_json_path))
          (write_session_summary h platform config output_paths s final)
  unfolding write_session_summary
  write_session-Spares s final =
      write_summary-Spares (summary_json h platform config output_paths s final)

  unwritten :
      (s : SessionStats D) (final : Final D)
      → summary_json h platform config output_paths s final ≡ none
      → write_session_summary h platform config output_paths s final
        ≡ raise "read outside of the samples"
  unfolding write_session_summary write_summary
  unwritten s final e = rw e refl

  -- What a consistent session leaves in the file, when the summary was written: a row for each
  -- connection, and the totals of the connections.
  pub summary-IsReport :
      (s : SessionStats D) (final : Final D)
      → IsConsistent s
      → (w : World D) → (write_session_summary h platform config output_paths s final w).0 ≡ ok tt
      → (root : Json D) × IsReport s root
        × ((write_session_summary h platform config output_paths s final w).1.entry
              output_paths.summary_json_path
            ≡ some (document root))
  summary-IsReport s final c w done =
      let outcome = λ (m : Io D (Unit {0})). (m w).0 in
      let path = output_paths.summary_json_path in
      elim (Option-cases (summary_json h platform config output_paths s final)) [
        | inl e ↦ absurd (err_apart _ tt (sym (ap outcome (unwritten s final e)) ∙ done))
        | inr (root, e) ↦ (
          root,
          document-IsReport s final c root e,
          ap (λ (m : Io D (Unit {0})). (m w).1.entry path) (written s final root e)
              ∙ write_file-entry h path root _ _ w
                  (sym (ap outcome (written s final root e)) ∙ done),
        )
      ]
