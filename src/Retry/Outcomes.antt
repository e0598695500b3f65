-- ===== src/Retry/Outcomes.antt =====
-- The loop of `retry_pending_artifact_uploads` of src/main.cpp: which sessions it sends.
use mathlib.Core.List.{append_assoc, append-nil}
use bittorrent_peer_linking.Base.{
  ◌≡◌, refl, sym, ap, ◌∙◌, Bool, true, false, String, is_empty, ◌||◌, List, [], ◌∷◌, ◌++◌,
  push_back, push_back-append, ◌⊎◌, inl, inr, Bool-cases, if◌then◌else◌,
}
use bittorrent_peer_linking.Base.Results.{Result, ok, err, err_apart, Result-cases}
use bittorrent_peer_linking.Double.{Double}
use bittorrent_peer_linking.Disk.{Host, World, Request}
use bittorrent_peer_linking.Config.{RuntimeConfig}
use bittorrent_peer_linking.Artifacts.Pending.{
  PendingArtifactSession, find_pending_artifact_sessions,
}
use bittorrent_peer_linking.Sender.{Curl}
use bittorrent_peer_linking.Sender.Checks.{upload_form}
use bittorrent_peer_linking.Retry.{
  is_ready, upload_config_of, upload_session, retry_sessions, retry_pending_artifact_uploads,
}
use bittorrent_peer_linking.Retry.Uploads.{upload-sends}

-- The sessions that are ready, in their order, and the requests that they stand for.
unfoldable pub ready_of : List PendingArtifactSession → List PendingArtifactSession
ready_of [] = []
ready_of (s ∷ sessions) = if is_ready s then s ∷ ready_of sessions else ready_of sessions

unfoldable pub forms_of : RuntimeConfig → List PendingArtifactSession → List Request
forms_of config [] = []
forms_of config (s ∷ sessions) =
    upload_form (upload_config_of config s) s.output_paths ∷ forms_of config sessions

abbrev pub is_some : List PendingArtifactSession → Bool
is_some [] = false
is_some (s ∷ rest) = true

abbrev pub is_some_ready : List PendingArtifactSession → Bool
is_some_ready sessions = is_some (ready_of sessions)

-- The requests that were added are those of the first ready sessions, and of all of them when the
-- loop returns.
pub record HasSent {D : Double} (config : RuntimeConfig) (sessions : List PendingArtifactSession)
    (uploaded_any : Bool) (w : World D) (x : Result Bool × World D) : Type 0 where
  pub sent : List PendingArtifactSession
  pub unsent : List PendingArtifactSession
  pub in_order : ready_of sessions ≡ sent ++ unsent
  pub requested : x.1.requests ≡ w.requests ++ forms_of config sent
  pub completed :
      ((message : String) × (x.0 ≡ err message))
      ⊎ ((unsent ≡ []) × (x.0 ≡ ok (uploaded_any || is_some_ready sessions)))

ready-cons :
    (s : PendingArtifactSession) (sessions : List PendingArtifactSession)
    → is_ready s ≡ true
    → ready_of (s ∷ sessions) ≡ s ∷ ready_of sessions
unfolding ready_of
ready-cons s sessions e = rw e

ready-skip :
    (s : PendingArtifactSession) (sessions : List PendingArtifactSession)
    → is_ready s ≡ false
    → ready_of (s ∷ sessions) ≡ ready_of sessions
unfolding ready_of
ready-skip s sessions e = rw e

or_true : (b : Bool) → true ≡ (b || true)
or_true true = refl
or_true false = refl

or_false : (b : Bool) → b ≡ (b || false)
or_false true = refl
or_false false = refl

module _ {D : Double} (config : RuntimeConfig) (s : PendingArtifactSession)
    (sessions : List PendingArtifactSession) (w : World D) where
  skipped :
      (b : Bool) (x : Result Bool × World D)
      → is_ready s ≡ false
      → HasSent config sessions b w x
      → HasSent config (s ∷ sessions) b w x
  skipped b x e holds = record {
    sent = holds.sent;
    unsent = holds.unsent;
    in_order = ready-skip s sessions e ∙ holds.in_order;
    requested = holds.requested;
    completed = elim holds.completed [
      | inl thrown ↦ inl thrown
      | inr (none, flag) ↦
          inr (none, flag ∙ ap (λ l. ok (b || is_some l)) (sym (ready-skip s sessions e)))
    ];
  }

  -- The loop stops at a session that throws, before or after its request.
  stopped :
      (b : Bool) (message : String) (w' : World D)
      → is_ready s ≡ true
      → (w'.requests ≡ w.requests)
        ⊎ (w'.requests
            ≡ push_back w.requests (upload_form (upload_config_of config s) s.output_paths))
      → HasSent config (s ∷ sessions) b w (err message, w')
  unfolding forms_of
  stopped b message w' e (inl same) = record {
    sent = [];
    unsent = s ∷ ready_of sessions;
    in_order = ready-cons s sessions e;
    requested = same ∙ sym (append-nil w.requests);
    completed = inl (message, refl);
  }
  stopped b message w' e (inr one) = record {
    sent = s ∷ [];
    unsent = ready_of sessions;
    in_order = ready-cons s sessions e;
    requested = one ∙ push_back-append w.requests _;
    completed = inl (message, refl);
  }

  -- The loop goes on behind a session that was sent.
  followed :
      (b : Bool) (w' : World D) (x : Result Bool × World D)
      → is_ready s ≡ true
      → w'.requests ≡ push_back w.requests (upload_form (upload_config_of config s) s.output_paths)
      → HasSent config sessions true w' x
      → HasSent config (s ∷ sessions) b w x
  unfolding forms_of
  followed b w' x e one holds = record {
    sent = s ∷ holds.sent;
    unsent = holds.unsent;
    in_order = ready-cons s sessions e ∙ ap (λ l. s ∷ l) holds.in_order;
    requested =
        let form = upload_form (upload_config_of config s) s.output_paths in
        holds.requested
        ∙ ap (λ l. l ++ forms_of config holds.sent) (one ∙ push_back-append w.requests form)
        ∙ append_assoc w.requests (form ∷ []) (forms_of config holds.sent);
    completed = elim holds.completed [
      | inl thrown ↦ inl thrown
      | inr (none, flag) ↦ inr (
        none,
        flag ∙ ap ok (or_true b) ∙ ap (λ l. ok (b || is_some l)) (sym (ready-cons s sessions e)),
      )
    ];
  }

module _ {D : Double} (h : Host) (curl : Curl) (config : RuntimeConfig) where
  loop-HasSent :
      is_empty config.destination_url ≡ false
      → (sessions : List PendingArtifactSession) (b : Bool) (w : World D)
      → HasSent config sessions b w (retry_sessions h curl config sessions b w)
  unfolding retry_sessions ready_of forms_of
  loop-HasSent known [] b w = record {
    sent = [];
    unsent = [];
    in_order = refl;
    requested = sym (append-nil w.requests);
    completed = inr (refl, ap ok (or_false b));
  }
  loop-HasSent known (s ∷ sessions) b w = elim (Bool-cases (is_ready s)) [
    | inr e ↦ rw e (skipped config s sessions w b _ e (loop-HasSent known sessions b w))
    | inl e ↦
        let sent = upload-sends h curl (upload_config_of config s) s.output_paths w in
        let w' = (upload_session h curl (upload_config_of config s) s.output_paths w).1 in
        elim (Result-cases (upload_session h curl (upload_config_of config s) s.output_paths w).0) [
          | inr (message, f) ↦
              rw (e, known, f)
                (stopped config s sessions w b message w' e
                  (elim sent [ inl (_, _, same) ↦ inl same | inr one ↦ inr one ]))
          | inl (p, f) ↦ elim sent [
            | inl (message, g, _) ↦ absurd (err_apart message p (sym g ∙ f))
            | inr one ↦
                rw (e, known, f)
                  (followed config s sessions w b w' _ e one (loop-HasSent known sessions true w'))
          ]
        ]
  ]

  loop-idle :
      is_empty config.destination_url ≡ true
      → (sessions : List PendingArtifactSession) (b : Bool) (w : World D)
      → retry_sessions h curl config sessions b w ≡ (ok b, w)
  unfolding retry_sessions
  loop-idle bare [] b w = refl
  loop-idle bare (s ∷ sessions) b w = elim (Bool-cases (is_ready s)) [
    | inr e ↦ rw e (loop-idle bare sessions b w)
    | inl e ↦ rw (e, bare) (loop-idle bare sessions b w)
  ]

  -- When the search for sessions throws, its exception comes out, nothing is sent and nothing
  -- changes. Otherwise, without a destination, nothing is sent and nothing changes; with one, the
  -- requests that are added are those of the first ready sessions, each once and in the order of the
  -- list, under the ids and paths of the session. When the loop returns, they are those of all the
  -- ready sessions, and the result says whether there was one.
  pub retry-HasSent :
      (w : World D)
      → ((message : String) × (find_pending_artifact_sessions h w config.artifacts_dir
            ≡ err message)
          × (retry_pending_artifact_uploads h curl config w ≡ (err message, w)))
        ⊎ ((sessions : List PendingArtifactSession) × (find_pending_artifact_sessions h w
                config.artifacts_dir
              ≡ ok sessions)
            × (((is_empty config.destination_url ≡ true)
                  × (retry_pending_artifact_uploads h curl config w ≡ (ok false, w)))
                ⊎ ((is_empty config.destination_url ≡ false)
                    × HasSent config sessions false w
                        (retry_pending_artifact_uploads h curl config w))))
  unfolding retry_pending_artifact_uploads
  retry-HasSent w = elim (Result-cases (find_pending_artifact_sessions h w config.artifacts_dir)) [
    | inr (message, e) ↦ inl (message, e, rw e refl)
    | inl (sessions, e) ↦ inr (
      sessions,
      e,
      rw e (elim (Bool-cases (is_empty config.destination_url)) [
        | inl bare ↦ inl (bare, loop-idle bare sessions false w)
        | inr known ↦ inr (known, loop-HasSent known sessions false w)
      ]),
    )
  ]
