-- ===== src/Loop.antt =====
-- The loop of `main` in src/main.cpp: when it takes a snapshot, how long it sleeps and when it ends.
-- The steady clock is read in nanoseconds, as numbers that do not overflow.
pub mod Termination
pub mod Pace
use bittorrent_peer_linking.Base.{
  ℕ, zero, suc, ◌+◌, ◌-◌, ◌*◌, ◌/◌, Bool, true, false, ◌&&◌, not, Option, none, some, List, [], ◌∷◌,
  leb, ltb, pos_part, is_zero, if◌then◌else◌, ◌>>=◌,
}
use bittorrent_peer_linking.Double.{Double}
use bittorrent_peer_linking.Util.{TimestampPair}
use bittorrent_peer_linking.Config.{RuntimeConfig}
use bittorrent_peer_linking.Alerts.{Alert}
use bittorrent_peer_linking.Capture.{Reading}
use bittorrent_peer_linking.Run.{Pass}

abbrev pub ns_per_ms : ℕ
ns_per_ms = 1000000

-- What a turn of the loop reads: `g_stop_requested`, the alerts, the clock after them, what a
-- snapshot would hold, and the clock before it sleeps.
pub record Turn (D : Double) : Type 0 where
  pub stop_requested : Bool
  pub alerts : List (TimestampPair × Alert)
  pub now : ℕ
  pub reading : Reading D
  pub later : ℕ

-- The times that the loop is started with; the poll interval is in milliseconds.
pub record Timer : Type 0 where
  pub process_start : ℕ
  pub deadline : ℕ
  pub interval : ℕ
  pub poll_interval : ℕ
  pub run_forever : Bool

-- A negative number of seconds or milliseconds has been refused before.
unfoldable pub start_timer : RuntimeConfig → ℕ → Timer
start_timer config now =
    let interval_ms = pos_part config.snapshot_interval_ms in
    record {
      process_start = now;
      deadline = now + pos_part config.runtime_seconds * 1000000000;
      interval = interval_ms * ns_per_ms;
      poll_interval = if ltb interval_ms 100 then interval_ms else 100;
      run_forever = is_zero config.runtime_seconds;
    }

-- What a turn does: the statistics' pass, the time of the next snapshot, whether the loop is left,
-- and the milliseconds that it sleeps if it is not.
pub record Tick (D : Double) : Type 0 where
  pub pass : Pass D
  pub now : ℕ
  pub next_snapshot : ℕ
  pub leaves : Bool
  pub sleep_for : ℕ

-- `sleep_until`
unfoldable pub wake_time : Timer → ℕ → ℕ
wake_time timer next_snapshot =
    if not timer.run_forever && ltb timer.deadline next_snapshot
    then timer.deadline
    else next_snapshot

-- A time that has passed leaves no milliseconds.
unfoldable pub sleep_time : Timer → ℕ → ℕ → ℕ
sleep_time timer sleep_until later =
    let remaining = if ltb later sleep_until then (sleep_until - later) / ns_per_ms else 0 in
    if ltb timer.poll_interval remaining then timer.poll_interval else remaining

module _ {D : Double} where
  unfoldable pub tick_of : Timer → ℕ → Turn D → Tick D
  unfolding sleep_time wake_time
  tick_of timer next_snapshot turn =
      let due = leb next_snapshot turn.now in
      let next = if due then turn.now + timer.interval else next_snapshot in
      record {
        pass = record { alerts = turn.alerts; reading = if due then some turn.reading else none };
        now = turn.now;
        next_snapshot = next;
        leaves = not timer.run_forever && leb timer.deadline turn.now;
        sleep_for = sleep_time timer (wake_time timer next) turn.later;
      }

  end_turn : Bool → Tick D → Option (List (Tick D)) → Option (List (Tick D))
  end_turn true tick rest = some (tick ∷ [])
  end_turn false tick rest = rest >>= λ ticks. some (tick ∷ ticks)

  start_turn : Bool → Tick D → Option (List (Tick D)) → Option (List (Tick D))
  unfolding end_turn
  start_turn true tick rest = some []
  start_turn false tick rest = end_turn tick.leaves tick rest

  -- The turns from the `i`-th on, or `none` where the fuel does not reach to the end of the loop.
  unfoldable pub run_loop : ℕ → Timer → (ℕ → Turn D) → ℕ → ℕ → Option (List (Tick D))
  unfolding start_turn
  run_loop zero timer turns i next_snapshot = none
  run_loop (suc fuel) timer turns i next_snapshot =
      let tick = tick_of timer next_snapshot (turns i) in
      let rest = run_loop fuel timer turns (suc i) tick.next_snapshot in
      start_turn (turns i).stop_requested tick rest

  unfoldable pub passes_of : List (Tick D) → List (Pass D)
  passes_of [] = []
  passes_of (tick ∷ ticks) = tick.pass ∷ passes_of ticks
