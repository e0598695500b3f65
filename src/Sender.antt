-- ===== src/Sender.antt =====
-- src/artifact_sender.cpp. What libcurl answers is a parameter.
pub mod Checks
pub mod Uploads
pub mod Answers
use Prim.Native.Char.{code}
use bittorrent_peer_linking.Base.{
  ℕ, zero, suc, ◌+◌, Bool, true, false, not, ◌&&◌, ◌||◌, String, is_empty, starts_with, ◌<>◌,
  to_string, List, [], ◌∷◌, length, push_back, ltb, leb, ◌==◌, if◌then◌else◌,
}
use bittorrent_peer_linking.Base.Results.{ok, err}
use bittorrent_peer_linking.Double.{Double}
use bittorrent_peer_linking.Paths.{Place, text_of, filename}
use bittorrent_peer_linking.Exec.{pure, raise, ◌>>=◌, ◌>>◌}
use bittorrent_peer_linking.Disk.{World, Io, Request, exists}
use bittorrent_peer_linking.Config.{RuntimeConfig, OutputPaths}

-- What a transfer leaves: its code, the header lines and the parts of the body in the order in
-- which the callbacks get them, and the response code.
pub record Reply : Type 0 where
  pub result : ℕ
  pub header_lines : List String
  pub body_parts : List String
  pub response_code : ℕ

-- The answers of libcurl: codes, of which zero is CURLE_OK, and whether a pointer is not null.
pub record Curl : Type 0 where
  pub global_init : ℕ
  pub easy_init : Bool
  pub mime_init : Bool
  -- By the number of the part in its form, and the function that sets the part up.
  pub addpart : ℕ → Bool
  pub part_call : ℕ → String → ℕ
  pub setopt : String → ℕ
  -- By the requests before it.
  pub perform : List Request → Request → Reply
  pub getinfo : ℕ
  pub strerror : ℕ → String

pub record ArtifactSendResult : Type 0 where
  pub status_code : ℕ
  pub status_text : String
  pub response_body : String

abbrev pub k_client_version : String
k_client_version = "btclient/0.2.0"

unfoldable pub trim_http_line : String → String
trim_http_line String.[] = String.[]
trim_http_line (String.◌∷◌ c s) =
    let rest = trim_http_line s in
    if is_empty rest && (code c == 13 || code c == 10) then String.[] else String.◌∷◌ c rest

-- The callback for header lines: the last line that starts an HTTP answer stays.
unfoldable pub capture_status_line : String → String → String
capture_status_line status_line line =
    if starts_with line "HTTP/" then trim_http_line line else status_line

unfoldable pub status_line_of : String → List String → String
status_line_of status_line [] = status_line
status_line_of status_line (line ∷ lines) =
    status_line_of (capture_status_line status_line line) lines

-- The callback for the body appends.
unfoldable pub response_body_of : String → List String → String
response_body_of body [] = body
response_body_of body (part ∷ parts) = response_body_of (body <> part) parts

unfoldable pub send_result_of : Reply → ArtifactSendResult
send_result_of reply =
    let status_line = status_line_of "" reply.header_lines in
    record {
      status_code = reply.response_code;
      status_text =
          if is_empty status_line
          then "HTTP status " <> to_string reply.response_code
          else status_line;
      response_body = response_body_of "" reply.body_parts;
    }

module _ {D : Double} where
  unfoldable pub validate_destination_url : String → Io D (Unit {0})
  validate_destination_url url w =
      if is_empty url
      then (err "destination URL is empty", w)
      else if starts_with url "http://" || starts_with url "https://"
      then (ok tt, w)
      else (err "destination URL must start with http:// or https://", w)

  unfoldable pub ensure_upload_file_exists : Place → String → Io D (Unit {0})
  ensure_upload_file_exists path label w =
      if exists w path
      then (ok tt, w)
      else (err ("cannot upload " <> (label <> ("; file does not exist: " <> text_of path))), w)

  check : Bool → String → Io D (Unit {0})
  check true message w = (ok tt, w)
  check false message w = (err message, w)

unfoldable pub parts_of : Request → ℕ
parts_of form = length form.fields + length form.files

-- The options of the transfer, and the texts of their failures.
abbrev pub transfer_options : List (String × String)
transfer_options =
    ("CURLOPT_URL", "failed to set destination URL")
    ∷ ("CURLOPT_USERAGENT", "failed to set upload user agent")
    ∷ ("CURLOPT_MIMEPOST", "failed to attach MIME upload form")
    ∷ ("CURLOPT_WRITEFUNCTION", "failed to set response body callback")
    ∷ ("CURLOPT_WRITEDATA", "failed to set response body storage")
    ∷ ("CURLOPT_HEADERFUNCTION", "failed to set response header callback")
    ∷ ("CURLOPT_HEADERDATA", "failed to set response header storage")
    ∷ ("CURLOPT_CONNECTTIMEOUT_MS", "failed to set upload connect timeout")
    ∷ ("CURLOPT_TIMEOUT_MS", "failed to set upload timeout")
    ∷ []

module _ {D : Double} (curl : Curl) where
  unfoldable pub check_curl : ℕ → String → Io D (Unit {0})
  check_curl code action w =
      if code == 0 then (ok tt, w) else (err (action <> (": " <> curl.strerror code)), w)

  add_part : Request → Io D ℕ
  unfolding check
  add_part form = do
    check (curl.addpart (parts_of form)) "failed to add MIME upload part"
    pure (parts_of form)

  add_text_part : Request → String → String → Io D Request
  unfolding add_part check_curl
  add_text_part form name value = do
    part ← add_part form
    check_curl (curl.part_call part "curl_mime_name") "failed to name MIME text part"
    check_curl (curl.part_call part "curl_mime_data") "failed to set MIME text part data"
    pure (record form { fields = push_back form.fields (name, value) })

  add_file_part : Request → String → Place → Io D Request
  unfolding add_part check_curl
  add_file_part form field_name path = do
    part ← add_part form
    check_curl (curl.part_call part "curl_mime_name") "failed to name MIME file part"
    check_curl (curl.part_call part "curl_mime_filedata") "failed to set MIME file data"
    check_curl (curl.part_call part "curl_mime_filename") "failed to set MIME filename"
    check_curl (curl.part_call part "curl_mime_type") "failed to set MIME content type"
    pure (record form { files = push_back form.files (field_name, path) })

  add_artifact_form_fields : Request → RuntimeConfig → OutputPaths → Io D Request
  unfolding add_text_part
  add_artifact_form_fields form0 config output_paths = do
    form1 ← add_text_part form0 "run_id" config.run_id
    form2 ← add_text_part form1 "session_id" config.session_id
    form3 ← add_text_part form2 "node_role" config.node_role
    form4 ← add_text_part form3 "client_version" k_client_version
    form5 ← add_text_part form4 "state_json_path" (text_of output_paths.state_json_path)
    form6 ← add_text_part form5 "event_log_path" (text_of output_paths.event_log_path)
    add_text_part form6 "summary_json_path" (text_of output_paths.summary_json_path)

  add_artifact_files : Request → OutputPaths → Io D Request
  unfolding add_file_part ensure_upload_file_exists
  add_artifact_files form0 output_paths = do
    ensure_upload_file_exists output_paths.state_json_path "state JSON"
    ensure_upload_file_exists output_paths.event_log_path "event log"
    ensure_upload_file_exists output_paths.summary_json_path "summary JSON"
    form1 ← add_file_part form0 "state_json" output_paths.state_json_path
    form2 ← add_file_part form1 "event_log" output_paths.event_log_path
    add_file_part form2 "summary_json" output_paths.summary_json_path

  set_options : List (String × String) → Io D (Unit {0})
  unfolding check_curl
  set_options [] = pure tt
  set_options ((option, failure) ∷ options) = do
    check_curl (curl.setopt option) failure
    set_options options

  -- `curl_easy_perform`
  unfoldable pub transfer : Request → Io D Reply
  transfer form w =
      (ok (curl.perform w.requests form), record w { requests = push_back w.requests form })

  -- What becomes of the reply.
  unfoldable pub judge : Reply → Io D ArtifactSendResult
  unfolding check_curl send_result_of
  judge reply w =
      if not (reply.result == 0)
      then (err ("artifact upload failed: " <> curl.strerror reply.result), w)
      else if not (curl.getinfo == 0)
      then (err ("failed to read upload response code: " <> curl.strerror curl.getinfo), w)
      else if ltb reply.response_code 200 || leb 300 reply.response_code
      then (
        err ("destination rejected artifacts with status: " <> (send_result_of reply).status_text),
        w,
      )
      else (ok (send_result_of reply), w)

  unfoldable pub perform_upload : RuntimeConfig → OutputPaths → Io D ArtifactSendResult
  unfolding add_artifact_form_fields add_artifact_files set_options check
  perform_upload config output_paths = do
    check_curl curl.global_init "failed to initialize libcurl"
    check curl.easy_init "failed to create libcurl easy handle"
    check curl.mime_init "failed to create libcurl MIME form"
    let empty : Request = record { url = config.destination_url; fields = []; files = [] }
    form1 ← add_artifact_form_fields empty config output_paths
    form ← add_artifact_files form1 output_paths
    set_options transfer_options
    reply ← transfer form
    judge reply

  unfoldable pub send_artifacts_to_destination :
      RuntimeConfig → OutputPaths → Io D ArtifactSendResult
  send_artifacts_to_destination config output_paths = do
    validate_destination_url config.destination_url
    perform_upload config output_paths
