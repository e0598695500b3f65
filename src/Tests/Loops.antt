-- ===== src/Tests/Loops.antt =====
-- The main loop of src/main.cpp in a session of one second, and some samples.
use bittorrent_peer_linking.Base.{
  ℕ, ◌+◌, ◌*◌, ◌≤◌, ◌<◌, ◌≡◌, refl, arith, pos, true, false, List, [], ◌∷◌, ◌⊎◌, ◌*ℤ◌, ◌+ℤ◌, ◌-ℤ◌,
  ℤ, some,
}
use bittorrent_peer_linking.Util.Samples.{
  DistributionSummary, at, insert_sample, interpolate, position_of, percentile, sort_samples,
  summarize_samples, summarize_sorted,
}
use mathlib.Core.Option
use bittorrent_peer_linking.Util.Samples.Bounds.{IsRounding, Finds}
use bittorrent_peer_linking.Util.Samples.Extremes.{IsOrder, IsSummary, summarize-IsSummary}
use bittorrent_peer_linking.Args.{Args, default_args}
use bittorrent_peer_linking.Loop.{Timer, Turn, Tick, start_timer, tick_of, run_loop, ns_per_ms}
use bittorrent_peer_linking.Loop.Pace.{WakesBy, IsPaced, snapshots, tick-WakesBy, loop-snapshots}
use bittorrent_peer_linking.Tests.{whole}
use bittorrent_peer_linking.Tests.Sessions.{reading}

-- A turn every half second, which waits for nothing.
abbrev pub turns : ℕ → Turn whole
turns n = record {
  stop_requested = false;
  alerts = [];
  now = 7 + n * 500000000;
  reading = reading;
  later = 8 + n * 500000000;
}

abbrev pub one_second : Args
one_second =
    let c = default_args.config in
    record default_args {
      config = record c { torrent_source = "file.torrent"; runtime_seconds = pos 1 };
    }

abbrev pub timer : Timer
timer = record {
  process_start = 7;
  deadline = 1000000007;
  interval = 1000000000;
  poll_interval = 100;
  run_forever = false;
}

test_timer : start_timer one_second.config 7 ≡ timer
unfolding start_timer
test_timer = refl

tick-WakesBy_example :
    let tick = tick_of timer 7 (turns 0) in
    (tick.sleep_for ≤ timer.poll_interval)
    × WakesBy tick (turns 0) tick.next_snapshot
    × ((timer.run_forever ≡ true) ⊎ WakesBy tick (turns 0) timer.deadline)
    × ((timer.poll_interval ≡ 0)
        ⊎ (tick.next_snapshot < (turns 0).later + ns_per_ms)
        ⊎ (timer.deadline < (turns 0).later + ns_per_ms)
        ⊎ (0 < tick.sleep_for))
tick-WakesBy_example = tick-WakesBy timer 7 (turns 0)

test_sleep : (tick_of timer 7 (turns 0)).sleep_for ≡ 100
unfolding tick_of
test_sleep = refl

-- The loop's three turns, of which the first and the last take a snapshot.
abbrev pub ticks : List (Tick whole)
ticks =
    tick_of timer 7 (turns 0)
    ∷ tick_of timer 1000000007 (turns 1)
    ∷ tick_of timer 1000000007 (turns 2)
    ∷ []

loop-snapshots_example :
    IsPaced timer.interval timer.process_start ticks
    × ((snapshots ticks ≡ 0)
        ⊎ (timer.process_start + snapshots ticks * timer.interval ≤ 1000000007 + timer.interval))
unfolding run_loop tick_of
loop-snapshots_example =
    loop-snapshots 5 timer turns ticks 1000000007 refl
      (omega arith, (omega arith, (omega arith, tt)))

whole-IsRounding : IsRounding whole
unfolding ◌*ℤ◌
whole-IsRounding = record {
  half = λ m small. (ground arith, ground arith);
  most = λ m small. (ground arith, ground arith);
  ceil_le = λ x m small h. ground arith;
  floor_le = λ x m small h. omega arith;
}

whole-IsOrder : IsOrder whole
whole-IsOrder = record { lt_asym = λ a b h. ground arith; le_trans = λ a b c n h k. ground arith }

abbrev samples : List ℤ
samples = pos 300 ∷ pos 100 ∷ pos 250 ∷ []

summarize-IsSummary_example : Finds (summarize_samples whole samples) (IsSummary whole samples)
summarize-IsSummary_example =
    summarize-IsSummary whole whole-IsRounding whole-IsOrder samples (refl, (refl, (refl, tt)))
      (omega arith)

-- The 95th percentile of 1, 2.5 and 3 stands between the last two.
test_most :
    Option.map (λ (s : DistributionSummary whole). s.p95) (summarize_samples whole samples)
    ≡ some (some (pos 295))
unfolding summarize_samples summarize_sorted sort_samples insert_sample percentile at ◌*ℤ◌ ◌-ℤ◌ ◌+ℤ◌
    interpolate position_of
test_most = refl
