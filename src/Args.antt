-- ===== src/Args.antt =====
-- The command line of src/main.cpp: its options, their values and the checks of the configuration.
pub mod Laws
pub mod Switches
use Prim.Native.Char.{code}
use mathlib.Core.Option.{map}
use bittorrent_peer_linking.Base.{
  ℕ, ◌+◌, ◌-◌, ◌*◌, ◌^◌, ltb, leb, ◌==◌, ℤ, pos, negsuc, ltb_ℤ, leb_ℤ, sub_ℕ, ◌≡◌, refl, Bool, true,
  false, not, ◌&&◌, ◌||◌, String, str_eq, ◌<>◌, Option, none, some, List, [], ◌∷◌, if◌then◌else◌,
}
use bittorrent_peer_linking.Base.Results.{Result, ok, err, ◌>>=◌}
use bittorrent_peer_linking.Paths.{FilePath, path_of}
use bittorrent_peer_linking.Config.{RuntimeConfig, default_config}

-- The locals of `main` that the options set.
pub record Args : Type 0 where
  pub config : RuntimeConfig
  pub event_log_override : Option FilePath
  pub summary_json_override : Option FilePath

abbrev pub default_args : Args
default_args = record {
  config = default_config;
  event_log_override = none;
  summary_json_override = none;
}

-- The options that take a value, by what they set.
pub data Setting : Type 0 where
  torrent_source runtime_seconds listen_port announce_ip run_id session_id node_role artifacts_dir
        save_path event_log summary_json destination_url snapshot_interval_ms client_label
        profile_id :
      Setting

pub data Kind : Type 0 where
  takes_value : Setting → Kind
  no_console_status help unknown : Kind

-- The comparisons of an argument, in their order.
unfoldable pub kind_of : String → Kind
kind_of arg =
    if str_eq arg "-f" || str_eq arg "--file"
    then takes_value torrent_source
    else if str_eq arg "-t" || str_eq arg "--time"
    then takes_value runtime_seconds
    else if str_eq arg "-p" || str_eq arg "--port"
    then takes_value listen_port
    else if str_eq arg "-i" || str_eq arg "--ip"
    then takes_value announce_ip
    else if str_eq arg "--run-id"
    then takes_value run_id
    else if str_eq arg "--session-id"
    then takes_value session_id
    else if str_eq arg "--node-role"
    then takes_value node_role
    else if str_eq arg "--artifacts-dir"
    then takes_value artifacts_dir
    else if str_eq arg "--save-path"
    then takes_value save_path
    else if str_eq arg "--event-log"
    then takes_value event_log
    else if str_eq arg "--summary-json"
    then takes_value summary_json
    else if str_eq arg "--destination-url" || str_eq arg "--brain-url"
    then takes_value destination_url
    else if str_eq arg "--snapshot-interval-ms"
    then takes_value snapshot_interval_ms
    else if str_eq arg "--no-console-status"
    then no_console_status
    else if str_eq arg "--client-label"
    then takes_value client_label
    else if str_eq arg "--profile-id"
    then takes_value profile_id
    else if str_eq arg "-h" || str_eq arg "--help"
    then help
    else unknown

-- `std::stoi` and `std::stoll`: white space, a sign, and digits; the rest of the text is ignored.
skip_spaces : String → String
skip_spaces String.[] = String.[]
skip_spaces (String.◌∷◌ c s) =
    let rest = skip_spaces s in
    if code c == 32 || (leb 9 (code c) && leb (code c) 13) then rest else String.◌∷◌ c s

-- The digits at the front of the text, if there is one, after those that were seen.
digits : Option ℕ → String → Option ℕ
digits seen String.[] = seen
digits seen (String.◌∷◌ c s) =
    let before : ℕ = elim seen [ none ↦ 0 | some n ↦ n ] in
    let next = digits (some (before * 10 + (code c - 48))) s in
    if leb 48 (code c) && leb (code c) 57 then next else seen

signed_digits : String → Option ℤ
unfolding digits
signed_digits String.[] = none
signed_digits (String.◌∷◌ c s) =
    if code c == 45
    then map (λ n. sub_ℕ 0 n) (digits none s)
    else if code c == 43
    then map pos (digits none s)
    else map pos (digits none (String.◌∷◌ c s))

-- A number of that many bits; the exceptions bear the name of the function.
ranged : String → ℕ → Option ℤ → Result ℤ
ranged function bits none = err function
ranged function bits (some n) =
    if leb_ℤ (sub_ℕ 0 (2 ^ (bits - 1))) n && ltb_ℤ n (pos (2 ^ (bits - 1)))
    then ok n
    else err function

unfoldable pub stoi : String → Result ℤ
unfolding skip_spaces signed_digits ranged
stoi s = ranged "stoi" 32 (signed_digits (skip_spaces s))

unfoldable pub stoll : String → Result ℤ
unfolding skip_spaces signed_digits ranged
stoll s = ranged "stoll" 64 (signed_digits (skip_spaces s))

test_stoi : stoi " -42x" ≡ ok (negsuc 41)
unfolding stoi
test_stoi = refl

with_number : Result ℤ → Args → (ℤ → RuntimeConfig) → Result Args
with_number (ok n) a f = ok (record a { config = f n })
with_number (err message) a f = err message

-- What an option does with its value.
unfoldable pub assign : Setting → String → Args → Result Args
unfolding with_number
assign torrent_source v a =
    let c = a.config in ok (record a { config = record c { torrent_source = v } })
assign runtime_seconds v a =
    with_number (stoi v) a (λ n. let c = a.config in record c { runtime_seconds = n })
assign listen_port v a =
    with_number (stoi v) a (λ n. let c = a.config in record c { listen_port = n })
assign announce_ip v a = let c = a.config in ok (record a { config = record c { announce_ip = v } })
assign run_id v a = let c = a.config in ok (record a { config = record c { run_id = v } })
assign session_id v a = let c = a.config in ok (record a { config = record c { session_id = v } })
assign node_role v a = let c = a.config in ok (record a { config = record c { node_role = v } })
assign artifacts_dir v a =
    let c = a.config in ok (record a { config = record c { artifacts_dir = path_of v } })
assign save_path v a =
    let c = a.config in ok (record a { config = record c { save_path = path_of v } })
assign event_log v a = ok (record a { event_log_override = some (path_of v) })
assign summary_json v a = ok (record a { summary_json_override = some (path_of v) })
assign destination_url v a =
    let c = a.config in ok (record a { config = record c { destination_url = v } })
assign snapshot_interval_ms v a =
    with_number (stoll v) a (λ n. let c = a.config in record c { snapshot_interval_ms = n })
assign client_label v a =
    let c = a.config in ok (record a { config = record c { client_label = v } })
assign profile_id v a = let c = a.config in ok (record a { config = record c { profile_id = v } })

-- The usage is shown, or the program runs.
pub data Request : Type 0 where
  usage : Request
  run : Args → Request

abbrev pub silenced : Args → Args
silenced a = let c = a.config in record a { config = record c { console_status = false } }

-- The branches for one argument, with what follows its value and what follows the argument.
unfoldable pub treat :
    Kind
    → String
    → String
    → Args
    → (Args → Result Request)
    → (Args → Result Request)
    → Result Request
treat (takes_value s) arg value a after_value after_arg = assign s value a >>= after_value
treat no_console_status arg value a after_value after_arg = after_arg (silenced a)
treat help arg value a after_value after_arg = ok usage
treat unknown arg value a after_value after_arg = err ("unknown argument: " <> arg)

-- The branches for the last argument.
unfoldable pub treat_last : Kind → String → Args → Result Request
treat_last (takes_value s) arg a = err ("missing value for " <> arg)
treat_last no_console_status arg a = ok (run (silenced a))
treat_last help arg a = ok usage
treat_last unknown arg a = err ("unknown argument: " <> arg)

unfoldable pub parse_args : List String → Args → Result Request
parse_args [] a = ok (run a)
parse_args (arg ∷ []) a = treat_last (kind_of arg) arg a
parse_args (arg ∷ value ∷ rest) a =
    treat (kind_of arg) arg value a (λ b. parse_args rest b) (λ b. parse_args (value ∷ rest) b)

unfoldable pub is_valid_node_role : String → Bool
is_valid_node_role role = str_eq role "victim" || str_eq role "adversary" || str_eq role "unknown"

-- `if (test) throw std::invalid_argument(message);`
unfoldable pub refuse_if {ℓ} : {A : Type ℓ} → Bool → String → Result A → Result A
refuse_if true message rest = err message
refuse_if false message rest = rest

-- The checks behind the loop over the arguments.
unfoldable pub validate : RuntimeConfig → Result RuntimeConfig
validate config =
    refuse_if (ltb_ℤ config.listen_port (pos 0) || ltb_ℤ (pos 65535) config.listen_port)
      "listen port must be between 0 and 65535"
      (refuse_if (ltb_ℤ config.runtime_seconds (pos 0)) "runtime seconds must be >= 0" (
        refuse_if (leb_ℤ config.snapshot_interval_ms (pos 0)) "snapshot interval must be > 0" (
          refuse_if (not (is_valid_node_role config.node_role))
            "node role must be victim, adversary, or unknown" (ok config))))

checked : Request → Result Request
checked usage = ok usage
checked (run a) = validate a.config >>= λ _. ok (run a)

-- `main` up to the retry of pending uploads; the arguments are those behind the program's name.
unfoldable pub read_command_line : List String → Result Request
unfolding checked
read_command_line argv = parse_args argv default_args >>= checked
