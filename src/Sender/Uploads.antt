-- ===== src/Sender/Uploads.antt =====
-- `send_artifacts_to_destination` of src/artifact_sender.cpp: what it sends and what it returns.
use mathlib.Core.Path.{subst}
use bittorrent_peer_linking.Base.{
  ◌≡◌, refl, sym, ap, ◌∙◌, arith, ◌≤◌, ◌<◌, ℕ, Bool, true, false, not, ◌||◌, String, push_back, ltb,
  leb, ◌==◌, ◌⊎◌, inl, inr, Bool-cases, ◌<>◌,
}
use bittorrent_peer_linking.Base.Results.{Result, ok, err, err_apart}
use bittorrent_peer_linking.Double.{Double}
use bittorrent_peer_linking.Disk.{World}
use bittorrent_peer_linking.Config.{RuntimeConfig, OutputPaths}
use bittorrent_peer_linking.Sender.Checks.{IsSendable, upload_form, send-Comes}
use bittorrent_peer_linking.Sender.{
  Reply, Curl, ArtifactSendResult, send_result_of, transfer, judge, send_artifacts_to_destination,
}

accepted-range : (n : ℕ) → (ltb n 200 || leb 300 n) ≡ false → (200 ≤ n) × (n < 300)
accepted-range n h = (ground arith, ground arith)

not_ended-eq : (n : ℕ) → not (n == 0) ≡ false → n ≡ 0
not_ended-eq n h = ground arith

abbrev is_rejected : Reply → Bool
is_rejected reply = ltb reply.response_code 200 || leb 300 reply.response_code

module _ (curl : Curl) where
  -- What becomes of a reply, by the three tests.
  judged : Reply → Bool → Bool → Bool → Result ArtifactSendResult
  judged reply true no_code bad = err ("artifact upload failed: " <> curl.strerror reply.result)
  judged reply false true bad =
      err ("failed to read upload response code: " <> curl.strerror curl.getinfo)
  judged reply false false true =
      err ("destination rejected artifacts with status: " <> (send_result_of reply).status_text)
  judged reply false false false = ok (send_result_of reply)

  judged-accepts :
      (reply : Reply) (failed no_code bad : Bool) (r : ArtifactSendResult)
      → judged reply failed no_code bad ≡ ok r
      → (failed ≡ false) × (bad ≡ false) × (r ≡ send_result_of reply)
  unfolding judged
  judged-accepts reply true no_code bad r e = absurd (cc e)
  judged-accepts reply false true bad r e = absurd (cc e)
  judged-accepts reply false false true r e = absurd (cc e)
  judged-accepts reply false false false r e = (refl, refl, cc)

-- The world after the request.
unfoldable pub after_upload : {D : Double} → RuntimeConfig → OutputPaths → World D → World D
unfolding upload_form
after_upload config paths w = record w {
  requests = push_back w.requests (upload_form config paths);
}

module _ {D : Double} (curl : Curl) where
  judge-judged :
      (reply : Reply) (w : World D)
      → judge curl reply w ≡ (
        judged curl reply (not (reply.result == 0)) (not (curl.getinfo == 0)) (is_rejected reply),
        w,
      )
  unfolding judge judged
  judge-judged reply w = elim (Bool-cases (not (reply.result == 0))) [
    | inl e ↦ rw e
    | inr e ↦ elim (Bool-cases (not (curl.getinfo == 0))) [
      | inl e' ↦ rw (e, e')
      | inr e' ↦ elim (Bool-cases (is_rejected reply)) [
        | inl e'' ↦ rw (e, e', e'')
        | inr e'' ↦ rw (e, e', e'')
      ]
    ]
  ]

  unfoldable pub upload_reply : RuntimeConfig → OutputPaths → World D → Reply
  unfolding upload_form
  upload_reply config paths w = curl.perform w.requests (upload_form config paths)

  -- An upload throws and changes nothing, or it was possible and the one change is one request, which
  -- is the whole form.
  pub send-Once :
      (config : RuntimeConfig) (paths : OutputPaths) (w : World D)
      → ((message : String) × (send_artifacts_to_destination curl config paths w
            ≡ (err message, w)))
        ⊎ (IsSendable config paths w
            × ((send_artifacts_to_destination curl config paths w).1 ≡ after_upload config paths w))
  unfolding after_upload upload_reply transfer judge
  send-Once config paths w = elim (send-Comes curl config paths w) [
    | inr thrown ↦ inl thrown
    | inl (sendable, e) ↦ inr (
      sendable,
      ap (λ (x : Result ArtifactSendResult × World D). x.1)
          (e ∙ judge-judged (upload_reply config paths w) (after_upload config paths w)),
    )
  ]

  -- When the upload returns a result, it was possible, the one change is one request, which is the
  -- whole form, its transfer ended well, the status code is from 200 to 299, and the result is that of
  -- the reply.
  pub send-Accepted :
      (config : RuntimeConfig) (paths : OutputPaths) (w : World D) (r : ArtifactSendResult)
      → (send_artifacts_to_destination curl config paths w).0 ≡ ok r
      → IsSendable config paths w
        × ((send_artifacts_to_destination curl config paths w).1 ≡ after_upload config paths w)
        × ((upload_reply config paths w).result ≡ 0)
        × (200 ≤ r.status_code)
        × (r.status_code < 300)
        × (r ≡ send_result_of (upload_reply config paths w))
  unfolding after_upload upload_reply transfer judge send_result_of
  send-Accepted config paths w r done = elim (send-Comes curl config paths w) [
    | inr (message, e) ↦
        absurd (
          err_apart message r
            (sym (ap (λ (x : Result ArtifactSendResult × World D). x.0) e) ∙ done))
    | inl (sendable, e) ↦
        let outcome : Result ArtifactSendResult × World D → Result ArtifactSendResult = λ x. x.0 in
        let reply = upload_reply config paths w in
        let judgement = judge-judged reply (after_upload config paths w) in
        let (ended, good, r_is) =
          judged-accepts curl reply _ _ _ r (sym (ap outcome (e ∙ judgement)) ∙ done) in
        let accepted : (200 ≤ r.status_code) × (r.status_code < 300) =
          subst (λ (n : ℕ). (200 ≤ n) × (n < 300))
            (sym (ap (λ (x : ArtifactSendResult). x.status_code) r_is))
            (accepted-range reply.response_code good) in
        (
          sendable,
          ap (λ (x : Result ArtifactSendResult × World D). x.1) (e ∙ judgement),
          not_ended-eq reply.result ended,
          accepted.0,
          accepted.1,
          r_is,
        )
  ]
