-- ===== src/Args/Laws.antt =====
-- What the command line of src/main.cpp guarantees.
use mathlib.Core.Path.{subst}
use bittorrent_peer_linking.Base.{
  ◌≡◌, refl, sym, ap, ◌∙◌, arith, ℤ, pos, ltb_ℤ, leb_ℤ, ◌≤ℤ◌, Bool, true, false, not, ◌||◌, String,
  List, [], ◌∷◌, ◌++◌,
}
use bittorrent_peer_linking.Base.Results.{Result, ok, err, err_apart, ok_injective, ◌>>=◌}
use bittorrent_peer_linking.Config.{RuntimeConfig}
use bittorrent_peer_linking.Args.{
  Args, Setting, kind_of, assign, Request, usage, run, parse_args, is_valid_node_role, validate,
  treat, refuse_if, checked, read_command_line, default_args, takes_value,
}

-- The long name of an option.
unfoldable pub flag_of : Setting → String
flag_of Setting.torrent_source = "--file"
flag_of Setting.runtime_seconds = "--time"
flag_of Setting.listen_port = "--port"
flag_of Setting.announce_ip = "--ip"
flag_of Setting.run_id = "--run-id"
flag_of Setting.session_id = "--session-id"
flag_of Setting.node_role = "--node-role"
flag_of Setting.artifacts_dir = "--artifacts-dir"
flag_of Setting.save_path = "--save-path"
flag_of Setting.event_log = "--event-log"
flag_of Setting.summary_json = "--summary-json"
flag_of Setting.destination_url = "--destination-url"
flag_of Setting.snapshot_interval_ms = "--snapshot-interval-ms"
flag_of Setting.client_label = "--client-label"
flag_of Setting.profile_id = "--profile-id"

-- The arguments that give these values, and the assignments one after the other.
unfoldable pub render : List (Setting × String) → List String
render [] = []
render ((s, value) ∷ settings) = flag_of s ∷ value ∷ render settings

unfoldable pub assign_all : List (Setting × String) → Args → Result Args
assign_all [] a = ok a
assign_all ((s, value) ∷ settings) a = assign s value a >>= λ b. assign_all settings b

kind_of-flag : (s : Setting) → kind_of (flag_of s) ≡ takes_value s
unfolding kind_of flag_of
kind_of-flag Setting.torrent_source = refl
kind_of-flag Setting.runtime_seconds = refl
kind_of-flag Setting.listen_port = refl
kind_of-flag Setting.announce_ip = refl
kind_of-flag Setting.run_id = refl
kind_of-flag Setting.session_id = refl
kind_of-flag Setting.node_role = refl
kind_of-flag Setting.artifacts_dir = refl
kind_of-flag Setting.save_path = refl
kind_of-flag Setting.event_log = refl
kind_of-flag Setting.summary_json = refl
kind_of-flag Setting.destination_url = refl
kind_of-flag Setting.snapshot_interval_ms = refl
kind_of-flag Setting.client_label = refl
kind_of-flag Setting.profile_id = refl

parse-value :
    (arg value : String) (rest : List String) (s : Setting) (a : Args)
    → kind_of arg ≡ takes_value s
    → parse_args (arg ∷ value ∷ rest) a ≡ (assign s value a >>= λ b. parse_args rest b)
unfolding parse_args treat
parse-value arg value rest s a e =
    ap (λ k. treat k arg value a (λ b. parse_args rest b) (λ b. parse_args (value ∷ rest) b)) e

bind_assoc :
    {A B C : Type 0} (r : Result A) (f : A → Result B) (g : B → Result C)
    → ((r >>= f) >>= g) ≡ (r >>= λ a. f a >>= g)
bind_assoc (ok a) f g = refl
bind_assoc (err message) f g = refl

bind-ext :
    {A B : Type 0} (r : Result A) (f g : A → Result B)
    → ((a : A) → f a ≡ g a)
    → (r >>= f) ≡ (r >>= g)
bind-ext (ok a) f g h = h a
bind-ext (err message) f g h = refl

-- Options with their values are assigned from the left to the right, up to the first value that is
-- refused, whose exception is thrown; the rest of the command line is then read as if it stood alone.
pub parse-render :
    (settings : List (Setting × String)) (tail : List String) (a : Args)
    → parse_args (render settings ++ tail) a ≡ (assign_all settings a >>= λ b. parse_args tail b)
unfolding render assign_all
parse-render [] tail a = refl
parse-render ((s, value) ∷ settings) tail a =
    parse-value (flag_of s) value (render settings ++ tail) s a (kind_of-flag s)
    ∙ bind-ext (assign s value a) (λ b. parse_args (render settings ++ tail) b)
        (λ b. assign_all settings b >>= λ c. parse_args tail c) (λ b. parse-render settings tail b)
    ∙ sym (bind_assoc (assign s value a) (λ b. assign_all settings b) (λ b. parse_args tail b))

-- A configuration that `main` goes on with.
pub record IsValid (config : RuntimeConfig) : Type 0 where
  pub port_from : pos 0 ≤ℤ config.listen_port
  pub port_to : config.listen_port ≤ℤ pos 65535
  pub runtime_from : pos 0 ≤ℤ config.runtime_seconds
  pub interval_from : pos 1 ≤ℤ config.snapshot_interval_ms
  pub role_known : is_valid_node_role config.node_role ≡ true

refuse-passes :
    {A : Type 0} (b : Bool) (message : String) (rest : Result A) (a : A)
    → refuse_if b message rest ≡ ok a
    → (b ≡ false) × (rest ≡ ok a)
unfolding refuse_if
refuse-passes true message rest a done = absurd (err_apart message a done)
refuse-passes false message rest a done = (refl, done)

port_range :
    (n : ℤ) → (ltb_ℤ n (pos 0) || ltb_ℤ (pos 65535) n) ≡ false → (pos 0 ≤ℤ n) × (n ≤ℤ pos 65535)
port_range n h = (ground arith, ground arith)

not_below : (n m : ℤ) → ltb_ℤ n m ≡ false → m ≤ℤ n
not_below n m h = ground arith

above_zero : (n : ℤ) → leb_ℤ n (pos 0) ≡ false → pos 1 ≤ℤ n
above_zero n h = ground arith

double_negation : (b : Bool) → not b ≡ false → b ≡ true
double_negation true h = refl
double_negation false h = absurd (cc h)

validate-IsValid :
    (config : RuntimeConfig) (c : RuntimeConfig) → validate config ≡ ok c → IsValid config
unfolding validate
validate-IsValid config c done =
    let (port, done1) = refuse-passes _ _ _ c done in
    let (runtime, done2) = refuse-passes _ _ _ c done1 in
    let (interval, done3) = refuse-passes _ _ _ c done2 in
    let (role, _) = refuse-passes _ _ _ c done3 in
    record {
      port_from = (port_range config.listen_port port).0;
      port_to = (port_range config.listen_port port).1;
      runtime_from = not_below config.runtime_seconds (pos 0) runtime;
      interval_from = above_zero config.snapshot_interval_ms interval;
      role_known = double_negation (is_valid_node_role config.node_role) role;
    }

bind-ok :
    {A B : Type 0} (r : Result A) (f : A → Result B) (b : B)
    → (r >>= f) ≡ ok b
    → (a : A) × (r ≡ ok a) × (f a ≡ ok b)
bind-ok (ok a) f b e = (a, refl, e)
bind-ok (err message) f b e = absurd (err_apart message b e)

run_injective : (a b : Args) → run a ≡ run b → a ≡ b
run_injective a b e = cc e

checked-IsValid : (r : Request) (a : Args) → checked r ≡ ok (run a) → IsValid a.config
unfolding checked
checked-IsValid usage a done = absurd (cc (ok_injective usage (run a) done))
checked-IsValid (run b) a done =
    let (c, valid, e) = bind-ok (validate b.config) (λ _. ok (run b)) (run a) done in
    subst (λ (x : Args). IsValid x.config) (run_injective b a (ok_injective (run b) (run a) e))
      (validate-IsValid b.config c valid)

-- When the command line is read with success and asks to run, the port is from 0 to 65535, the
-- run time is not negative, the interval between snapshots is positive and the node's role is one
-- of the three.
pub read-IsValid :
    (argv : List String) (a : Args) → read_command_line argv ≡ ok (run a) → IsValid a.config
unfolding read_command_line
read-IsValid argv a done =
    let (r, _, e) = bind-ok (parse_args argv default_args) checked (run a) done in
    checked-IsValid r a e
