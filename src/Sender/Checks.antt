-- ===== src/Sender/Checks.antt =====
-- The calls before the request of src/artifact_sender.cpp: each of them throws and changes nothing, or
-- goes on.
use bittorrent_peer_linking.Base.{
  ◌≡◌, refl, ℕ, Bool, true, false, ◌||◌, String, is_empty, starts_with, List, [], ◌∷◌, push_back,
  ◌==◌, inl, inr, Bool-cases, ◌<>◌,
}
use bittorrent_peer_linking.Double.{Double}
use bittorrent_peer_linking.Paths.{Place, text_of}
use bittorrent_peer_linking.Exec.{pure, ◌>>=◌}
use bittorrent_peer_linking.Exec.Comes.{Comes, bind-Comes, skip-Comes}
use bittorrent_peer_linking.Disk.{World, Io, Request, exists}
use bittorrent_peer_linking.Config.{RuntimeConfig, OutputPaths}
use bittorrent_peer_linking.Sender.{
  Curl, ArtifactSendResult, k_client_version, validate_destination_url, ensure_upload_file_exists,
  check, check_curl, parts_of, add_part, add_text_part, add_file_part, add_artifact_form_fields,
  add_artifact_files, set_options, transfer_options, transfer, judge, perform_upload,
  send_artifacts_to_destination,
}

-- What is sent for a session.
unfoldable pub upload_form : RuntimeConfig → OutputPaths → Request
upload_form config paths = record {
  url = config.destination_url;
  fields =
      ("run_id", config.run_id)
      ∷ ("session_id", config.session_id)
      ∷ ("node_role", config.node_role)
      ∷ ("client_version", k_client_version)
      ∷ ("state_json_path", text_of paths.state_json_path)
      ∷ ("event_log_path", text_of paths.event_log_path)
      ∷ ("summary_json_path", text_of paths.summary_json_path)
      ∷ [];
  files =
      ("state_json", paths.state_json_path)
      ∷ ("event_log", paths.event_log_path)
      ∷ ("summary_json", paths.summary_json_path)
      ∷ [];
}

-- The scheme of the destination is known and the three files are there.
pub record IsSendable {D : Double} (config : RuntimeConfig) (paths : OutputPaths) (w : World D)
    : Type 0 where
  pub is_http :
      (starts_with config.destination_url "http://"
        || starts_with config.destination_url "https://")
      ≡ true
  pub has_state : exists w paths.state_json_path ≡ true
  pub has_events : exists w paths.event_log_path ≡ true
  pub has_summary : exists w paths.summary_json_path ≡ true

module _ {D : Double} (curl : Curl) where
  check-Comes :
      (b : Bool) (message : String)
      → Comes {S = World D} (check b message) (pure tt) (λ w. Unit {0})
  unfolding check
  check-Comes true message w = inl (tt, refl)
  check-Comes false message w = inr (message, refl)

  check_curl-Comes :
      (code : ℕ) (action : String)
      → Comes {S = World D} (check_curl curl code action) (pure tt) (λ w. Unit {0})
  unfolding check_curl
  check_curl-Comes code action w = elim (Bool-cases (code == 0)) [
    | inl e ↦ inl (tt, rw e)
    | inr e ↦ inr (action <> (": " <> curl.strerror code), rw e)
  ]

  add_part-Comes :
      (form : Request)
      → Comes {S = World D} (add_part curl form) (pure (parts_of form)) (λ w. Unit {0})
  unfolding add_part
  add_part-Comes form =
      skip-Comes _ _ _ tt (λ w. Unit {0})
        (check-Comes (curl.addpart (parts_of form)) "failed to add MIME upload part")
        (λ w. inl (tt, refl))

  text-Comes :
      (form : Request) (name value : String)
      → Comes {S = World D}
          (add_text_part curl form name value)
          (pure (record form { fields = push_back form.fields (name, value) }))
          (λ w. Unit {0})
  unfolding add_text_part
  text-Comes form name value =
      skip-Comes _ _ _ (parts_of form) (λ w. Unit {0}) (add_part-Comes form)
        (skip-Comes _ _ _ tt (λ w. Unit {0})
          (check_curl-Comes (curl.part_call (parts_of form) "curl_mime_name") _)
          (skip-Comes _ _ _ tt (λ w. Unit {0})
            (check_curl-Comes (curl.part_call (parts_of form) "curl_mime_data") _)
            (λ w. inl (tt, refl))))

  file-Comes :
      (form : Request) (field_name : String) (path : Place)
      → Comes {S = World D}
          (add_file_part curl form field_name path)
          (pure (record form { files = push_back form.files (field_name, path) }))
          (λ w. Unit {0})
  unfolding add_file_part
  file-Comes form field_name path =
      skip-Comes _ _ _ (parts_of form) (λ w. Unit {0}) (add_part-Comes form)
        (skip-Comes _ _ _ tt (λ w. Unit {0})
          (check_curl-Comes (curl.part_call (parts_of form) "curl_mime_name") _)
          (skip-Comes _ _ _ tt (λ w. Unit {0})
            (check_curl-Comes (curl.part_call (parts_of form) "curl_mime_filedata") _)
            (skip-Comes _ _ _ tt (λ w. Unit {0})
              (check_curl-Comes (curl.part_call (parts_of form) "curl_mime_filename") _)
              (skip-Comes _ _ _ tt (λ w. Unit {0})
                (check_curl-Comes (curl.part_call (parts_of form) "curl_mime_type") _)
                (λ w. inl (tt, refl))))))

  fields-Comes :
      (config : RuntimeConfig) (paths : OutputPaths) (url : String)
      → Comes {S = World D}
          (add_artifact_form_fields curl
            (record { url = url; fields = []; files = [] })
            config
            paths)
          (pure (record { url = url; fields = (upload_form config paths).fields; files = [] }))
          (λ w. Unit {0})
  unfolding add_artifact_form_fields upload_form
  fields-Comes config paths url =
      let none : World D → Type 0 = λ w. Unit {0} in
      skip-Comes _ _ _ _ none (text-Comes _ "run_id" config.run_id) (
        skip-Comes _ _ _ _ none (text-Comes _ "session_id" config.session_id) (
          skip-Comes _ _ _ _ none (text-Comes _ "node_role" config.node_role) (
            skip-Comes _ _ _ _ none (text-Comes _ "client_version" k_client_version) (
              skip-Comes _ _ _ _ none
                (text-Comes _ "state_json_path" (text_of paths.state_json_path))
                (skip-Comes _ _ _ _ none
                  (text-Comes _ "event_log_path" (text_of paths.event_log_path))
                  (text-Comes _ "summary_json_path" (text_of paths.summary_json_path)))))))

  file-Exists :
      (p : Place) (label : String)
      → Comes {S = World D} (ensure_upload_file_exists p label) (pure tt) (λ w. exists w p ≡ true)
  unfolding ensure_upload_file_exists
  file-Exists p label w = elim (Bool-cases (exists w p)) [
    | inl e ↦ inl (e, rw e)
    | inr e ↦ inr ("cannot upload " <> (label <> ("; file does not exist: " <> text_of p)), rw e)
  ]

  url-Comes :
      (url : String)
      → Comes {S = World D}
          (validate_destination_url url)
          (pure tt)
          (λ w. (starts_with url "http://" || starts_with url "https://") ≡ true)
  unfolding validate_destination_url
  url-Comes url w = elim (Bool-cases (is_empty url)) [
    | inl e ↦ inr ("destination URL is empty", rw e)
    | inr e ↦ elim (Bool-cases (starts_with url "http://" || starts_with url "https://")) [
      | inl e' ↦ inl (e', rw (e, e'))
      | inr e' ↦ inr ("destination URL must start with http:// or https://", rw (e, e'))
    ]
  ]

  options-Comes :
      (options : List (String × String))
      → Comes {S = World D} (set_options curl options) (pure tt) (λ w. Unit {0})
  unfolding set_options
  options-Comes [] w = inl (tt, refl)
  options-Comes ((option, failure) ∷ options) w =
      skip-Comes _ _ _ _ (λ w. Unit {0}) (check_curl-Comes (curl.setopt option) failure)
        (options-Comes options) w

  files-Comes :
      (config : RuntimeConfig) (paths : OutputPaths) (url : String)
      (fields : List (String × String))
      → Comes {S = World D}
          (add_artifact_files curl (record { url = url; fields = fields; files = [] }) paths)
          (pure (record { url = url; fields = fields; files = (upload_form config paths).files }))
          (λ w.
            (exists w paths.state_json_path ≡ true)
            × ((exists w paths.event_log_path ≡ true)
                × ((exists w paths.summary_json_path ≡ true) × Unit {0})))
  unfolding add_artifact_files upload_form
  files-Comes config paths url fields =
      let none : World D → Type 0 = λ w. Unit {0} in
      let form0 : Request = record { url = url; fields = fields; files = [] } in
      let form1 : Request = record form0 { files = ("state_json", paths.state_json_path) ∷ [] } in
      let form2 : Request = record form0 {
        files = ("state_json", paths.state_json_path) ∷ ("event_log", paths.event_log_path) ∷ [];
      } in
      bind-Comes _ _ _ _ _ _ (file-Exists paths.state_json_path "state JSON") (
        bind-Comes _ _ _ _ _ _ (file-Exists paths.event_log_path "event log") (
          bind-Comes _ _ _ _ _ none (file-Exists paths.summary_json_path "summary JSON") (
            skip-Comes _ _ _ _ none (file-Comes form0 "state_json" paths.state_json_path) (
              skip-Comes _ _ _ _ none (file-Comes form1 "event_log" paths.event_log_path)
                (file-Comes form2 "summary_json" paths.summary_json_path)))))

  abbrev HasFiles : OutputPaths → World D → Type 0
  HasFiles paths w =
      ((exists w paths.state_json_path ≡ true)
        × ((exists w paths.event_log_path ≡ true)
            × ((exists w paths.summary_json_path ≡ true) × Unit {0})))
      × Unit {0}

  abbrev pub sends : Request → Io D ArtifactSendResult
  sends form = transfer curl form >>= judge curl

  perform-Comes :
      (config : RuntimeConfig) (paths : OutputPaths)
      → Comes {S = World D}
          (perform_upload curl config paths)
          (sends (upload_form config paths))
          (HasFiles paths)
  unfolding perform_upload upload_form
  perform-Comes config paths =
      let none : World D → Type 0 = λ w. Unit {0} in
      skip-Comes _ _ _ _ _ (check_curl-Comes curl.global_init "failed to initialize libcurl") (
        skip-Comes _ _ _ _ _ (check-Comes curl.easy_init "failed to create libcurl easy handle") (
          skip-Comes _ _ _ _ _ (check-Comes curl.mime_init "failed to create libcurl MIME form") (
            skip-Comes _ _ _ _ _ (fields-Comes config paths config.destination_url) (
              bind-Comes _ _ _ _ _ none (files-Comes config paths config.destination_url _)
                (skip-Comes _ _ _ _ none (options-Comes transfer_options) (λ w. inl (tt, refl)))))))

  pub send-Comes :
      (config : RuntimeConfig) (paths : OutputPaths)
      → Comes {S = World D}
          (send_artifacts_to_destination curl config paths)
          (sends (upload_form config paths))
          (IsSendable config paths)
  unfolding send_artifacts_to_destination
  send-Comes config paths w =
      let Known : World D → Type 0 = λ w.
        (starts_with config.destination_url "http://"
          || starts_with config.destination_url "https://")
        ≡ true in
      elim (bind-Comes (validate_destination_url config.destination_url)
        (λ _. perform_upload curl config paths) (sends (upload_form config paths)) tt Known
        (HasFiles paths) (url-Comes config.destination_url) (perform-Comes config paths) w) [
          | inl ((u, ((s, (e, (m, _))), _)), eq) ↦
              inl (record { is_http = u; has_state = s; has_events = e; has_summary = m }, eq)
          | inr thrown ↦ inr thrown
        ]
