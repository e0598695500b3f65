-- ===== src/Args/Switches.antt =====
-- The switches of libtorrent in the configuration of src/main.cpp, which no argument changes.
use bittorrent_peer_linking.Base.{◌≡◌, refl, sym, ap, ◌∙◌, ℤ, Bool, String, List, [], ◌∷◌, inl, inr}
use bittorrent_peer_linking.Base.Results.{Result, ok, err, err_apart, ok_injective, Result-cases}
use bittorrent_peer_linking.Config.{RuntimeConfig}
use bittorrent_peer_linking.Args.{
  Args, Setting, Kind, takes_value, no_console_status, help, unknown, Request, run, usage, assign,
  treat, treat_last, parse_args, read_command_line, default_args, kind_of, stoi, stoll, silenced,
  validate, checked, with_number,
}

-- The switches of a configuration.
pub record Switches : Type 0 where
  pub dht : Bool
  pub lsd : Bool
  pub upnp : Bool
  pub natpmp : Bool

abbrev pub switches : RuntimeConfig → Switches
switches config = record {
  dht = config.enable_dht;
  lsd = config.enable_lsd;
  upnp = config.enable_upnp;
  natpmp = config.enable_natpmp;
}

-- What a result says of the switches, if it says something.
abbrev Keep : Args → Result Request → Type 0
Keep a r = (b : Args) → r ≡ ok (run b) → switches b.config ≡ switches a.config

err-Keep : (a : Args) (message : String) → Keep a (err message)
err-Keep a message b e = absurd (err_apart message (run b) e)

run_injective : (a b : Args) → Result.ok (run a) ≡ ok (run b) → a ≡ b
run_injective a b e = cc e

kept_by :
    (a c b : Args)
    → switches c.config ≡ switches a.config
    → Result.ok c ≡ ok b
    → switches b.config ≡ switches a.config
kept_by a c b h e = ap (λ (x : Args). switches x.config) (sym (ok_injective c b e)) ∙ h

number_keeps :
    (r : Result ℤ) (a : Args) (f : ℤ → RuntimeConfig) (b : Args)
    → ((n : ℤ) → switches (f n) ≡ switches a.config)
    → with_number r a f ≡ ok b
    → switches b.config ≡ switches a.config
unfolding with_number
number_keeps (ok n) a f b h e = kept_by a _ b (h n) e
number_keeps (err message) a f b h e = absurd (err_apart message b e)

assign-switches :
    (s : Setting) (value : String) (a b : Args)
    → assign s value a ≡ ok b
    → switches b.config ≡ switches a.config
unfolding assign
assign-switches Setting.torrent_source value a b e = kept_by a _ b refl e
assign-switches Setting.announce_ip value a b e = kept_by a _ b refl e
assign-switches Setting.run_id value a b e = kept_by a _ b refl e
assign-switches Setting.session_id value a b e = kept_by a _ b refl e
assign-switches Setting.node_role value a b e = kept_by a _ b refl e
assign-switches Setting.artifacts_dir value a b e = kept_by a _ b refl e
assign-switches Setting.save_path value a b e = kept_by a _ b refl e
assign-switches Setting.event_log value a b e = kept_by a _ b refl e
assign-switches Setting.summary_json value a b e = kept_by a _ b refl e
assign-switches Setting.destination_url value a b e = kept_by a _ b refl e
assign-switches Setting.client_label value a b e = kept_by a _ b refl e
assign-switches Setting.profile_id value a b e = kept_by a _ b refl e
assign-switches Setting.runtime_seconds value a b e = number_keeps (stoi value) a _ b (λ n. refl) e
assign-switches Setting.listen_port value a b e = number_keeps (stoi value) a _ b (λ n. refl) e
assign-switches Setting.snapshot_interval_ms value a b e =
    number_keeps (stoll value) a _ b (λ n. refl) e

treat-Keep :
    (k : Kind) (arg value : String) (a : Args) (after_value after_arg : Args → Result Request)
    → ((b : Args) → Keep b (after_value b))
    → ((b : Args) → Keep b (after_arg b))
    → Keep a (treat k arg value a after_value after_arg)
unfolding treat
treat-Keep (takes_value s) arg value a after_value after_arg f g b e =
    elim (Result-cases (assign s value a)) [
      | inl (c, h) ↦ f c b (rw h at e) ∙ assign-switches s value a c h
      | inr (message, h) ↦ err-Keep a message b (rw h at e)
    ]
treat-Keep no_console_status arg value a after_value after_arg f g b e = g (silenced a) b e
treat-Keep help arg value a after_value after_arg f g b e = absurd (cc e)
treat-Keep unknown arg value a after_value after_arg f g b e = err-Keep a _ b e

last-Keep : (k : Kind) (arg : String) (a : Args) → Keep a (treat_last k arg a)
unfolding treat_last
last-Keep (takes_value s) arg a b e = err-Keep a _ b e
last-Keep no_console_status arg a b e =
    ap (λ (c : Args). switches c.config) (sym (run_injective (silenced a) b e))
last-Keep help arg a b e = absurd (cc e)
last-Keep unknown arg a b e = err-Keep a _ b e

parse-Keep : (argv : List String) (a : Args) → Keep a (parse_args argv a)
unfolding parse_args
parse-Keep [] a b e = ap (λ (c : Args). switches c.config) (sym (run_injective a b e))
parse-Keep (arg ∷ []) a b e = last-Keep (kind_of arg) arg a b e
parse-Keep (arg ∷ value ∷ rest) a b e =
    treat-Keep (kind_of arg) arg value a (λ c. parse_args rest c) (λ c. parse_args (value ∷ rest) c)
      (λ c. parse-Keep rest c) (λ c. parse-Keep (value ∷ rest) c) b e

checked-Keep : (r : Request) (a : Args) → checked r ≡ ok (run a) → r ≡ run a
unfolding checked
checked-Keep usage a e = ok_injective usage (run a) e
checked-Keep (run b) a e = elim (Result-cases (validate b.config)) [
  | inl (c, h) ↦ ok_injective (run b) (run a) (rw h at e)
  | inr (message, h) ↦ absurd (err_apart message (run a) (rw h at e))
]

-- Every command line that is accepted leaves the switches off.
pub read-switches :
    (argv : List String) (a : Args)
    → read_command_line argv ≡ ok (run a)
    → switches a.config ≡ switches default_args.config
unfolding read_command_line
read-switches argv a e = elim (Result-cases (parse_args argv default_args)) [
  | inl (r, h) ↦ parse-Keep argv default_args a (h ∙ ap ok (checked-Keep r a (rw h at e)))
  | inr (message, h) ↦ absurd (err_apart message (run a) (rw h at e))
]
