-- ===== src/Main/Termination.antt =====
-- The end of src/main.cpp.
use bittorrent_peer_linking.Base.{
  ℕ, suc, ◌*◌, ◌≤◌, ◌<◌, ◌≡◌, refl, Bool, false, String, is_empty, is_zero, pos_part, Option, some,
  List, ◌⊎◌, inl, inr, Bool-cases,
}
use bittorrent_peer_linking.Base.Results.{Result, ok, err}
use bittorrent_peer_linking.Double.{Double}
use bittorrent_peer_linking.Util.Platform.{Platform}
use bittorrent_peer_linking.Config.{RuntimeConfig, OutputPaths}
use bittorrent_peer_linking.Disk.{Host, World}
use bittorrent_peer_linking.Args.{Args, run, read_command_line}
use bittorrent_peer_linking.Loop.{Tick}
use bittorrent_peer_linking.Loop.Termination.{loop-ends}
use bittorrent_peer_linking.Sender.{Curl}
use bittorrent_peer_linking.Retry.{upload_session}
use bittorrent_peer_linking.Publish.{Start, exits, begins, after_retry, start_run, publish, code_of}
use bittorrent_peer_linking.Main.{
  exit_code, run_begun, run_capture, with_ids, after_start, respond, main,
}
use bittorrent_peer_linking.Main.Capturing.{Engine}

-- The codes that the program returns.
abbrev pub IsCode : ℕ → Type 0
IsCode code = (code ≡ 0) ⊎ (code ≡ 2) ⊎ (code ≡ 3)

-- The exit code of a start that is over.
abbrev ExitsWell : Start → Type 0
ExitsWell (exits code) = IsCode code
ExitsWell begins = Unit

retry-ExitsWell :
    (config : RuntimeConfig) (uploaded : Result Bool) → ExitsWell (after_retry config uploaded)
unfolding after_retry
retry-ExitsWell config (err message) = inr (inr refl)
retry-ExitsWell config (ok uploaded) = elim (Bool-cases (is_empty config.torrent_source)) [
  | inr given ↦ rw given tt
  | inl missing ↦ elim (Bool-cases uploaded) [
    | inl e ↦ rw (missing, e) (inl refl)
    | inr e ↦ rw (missing, e) (inr (inl refl))
  ]
]

code_of-IsCode : {A : Type 0} (r : Result A) → IsCode (code_of r)
unfolding code_of
code_of-IsCode (ok a) = inl refl
code_of-IsCode (err message) = inr (inr refl)

module _ {D : Double} (h : Host) (curl : Curl) (platform : Platform) (engine : Engine D) where
  publish-IsCode :
      (config : RuntimeConfig) (paths : OutputPaths) (w : World D)
      → IsCode (publish h curl config paths w).0
  unfolding publish
  publish-IsCode config paths w = elim (Bool-cases (is_empty config.destination_url)) [
    | inl e ↦ rw e (inl refl)
    | inr e ↦ rw e (code_of-IsCode (upload_session h curl config paths w).0)
  ]

  exit_code-IsCode :
      (config : RuntimeConfig) (x : Result OutputPaths × World D)
      → IsCode (exit_code h curl platform engine config x).0
  unfolding exit_code
  exit_code-IsCode config (err message, w) = inr (inl refl)
  exit_code-IsCode config (ok paths, w) = publish-IsCode config paths w

  -- The program returns, with an exit code.
  abbrev pub Returns : Option (ℕ × World D) → Type 0
  Returns x = (outcome : ℕ × World D) × (x ≡ some outcome) × IsCode outcome.0

  begun-IsCode :
      (args : Args) (ticks : List (Tick D)) (w : World D)
      → IsCode (run_begun h curl platform engine args w ticks).0
  unfolding run_begun
  begun-IsCode args ticks w =
      exit_code-IsCode (with_ids platform args.config) (run_capture h platform engine args ticks w)

  start-Returns :
      (fuel : ℕ) (args : Args) (start : Start) (w : World D)
      → is_zero args.config.runtime_seconds ≡ false
      → engine.process_start ≤ (engine.turns 0).now
      → ((n : ℕ) → (engine.turns n).now < (engine.turns (suc n)).now)
      → pos_part args.config.runtime_seconds * 1000000000 < fuel
      → ExitsWell start
      → Returns (after_start h curl platform engine fuel args (start, w))
  unfolding after_start
  start-Returns fuel args (exits code) w finite first grows enough code_ok =
      ((code, w), refl, code_ok)
  start-Returns fuel args begins w finite first grows enough code_ok =
      let (ticks, e, _) =
        loop-ends args.config engine.process_start engine.turns finite first grows fuel enough in
      (run_begun h curl platform engine args w ticks, rw e refl, begun-IsCode args ticks w)

  -- With a command line that is accepted and has a runtime that is not zero, and a steady clock that
  -- advances from one turn of the loop to the next, the program returns one of its exit codes, with
  -- fuel for the nanoseconds of its runtime.
  pub main-Returns :
      (fuel : ℕ) (argv : List String) (args : Args) (w : World D)
      → read_command_line argv ≡ ok (run args)
      → is_zero args.config.runtime_seconds ≡ false
      → engine.process_start ≤ (engine.turns 0).now
      → ((n : ℕ) → (engine.turns n).now < (engine.turns (suc n)).now)
      → pos_part args.config.runtime_seconds * 1000000000 < fuel
      → Returns (main h curl platform engine fuel argv w)
  unfolding main respond start_run
  main-Returns fuel argv args w accepted finite first grows enough =
      rw accepted
        (start-Returns fuel args _ _ finite first grows enough (retry-ExitsWell args.config _))
