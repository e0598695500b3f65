-- ===== src/Loop/Pace.antt =====
-- When the loop of `main` in src/main.cpp takes a snapshot, and how long it sleeps.
use bittorrent_peer_linking.Base.{
  ℕ, zero, suc, ◌+◌, ◌*◌, ◌≤◌, ◌<◌, ◌≡◌, refl, arith, Bool, true, false, Option, none, some, List,
  [], ◌∷◌, ◌⊎◌, inl, inr, Bool-cases, leb,
}
use bittorrent_peer_linking.Double.{Double}
use mathlib.Core.Path.{subst}
use mathlib.Core.Option.{some-injective}
use bittorrent_peer_linking.Loop.{
  Timer, Turn, Tick, ns_per_ms, tick_of, sleep_time, wake_time, end_turn, start_turn, run_loop,
}

-- A turn sleeps until a time at the latest, if it sleeps at all.
abbrev pub WakesBy : {D : Double} → Tick D → Turn D → ℕ → Type 0
WakesBy tick turn time = (tick.sleep_for ≡ 0) ⊎ (turn.later + tick.sleep_for * ns_per_ms ≤ time)

sleep-bounds :
    (timer : Timer) (until later : ℕ)
    → (sleep_time timer until later ≤ timer.poll_interval)
      × ((sleep_time timer until later ≡ 0)
          ⊎ (later + sleep_time timer until later * ns_per_ms ≤ until))
      × ((timer.poll_interval ≡ 0)
          ⊎ (until < later + ns_per_ms)
          ⊎ (0 < sleep_time timer until later))
unfolding sleep_time
sleep-bounds timer until later = ground arith

wake-bounds :
    (timer : Timer) (next : ℕ)
    → (wake_time timer next ≤ next)
      × ((timer.run_forever ≡ true) ⊎ (wake_time timer next ≤ timer.deadline))
      × ((wake_time timer next ≡ next) ⊎ (wake_time timer next ≡ timer.deadline))
unfolding wake_time
wake-bounds timer next = ground arith

earlier :
    (sleep later until time : ℕ)
    → (sleep ≡ 0) ⊎ (later + sleep * ns_per_ms ≤ until)
    → until ≤ time
    → (sleep ≡ 0) ⊎ (later + sleep * ns_per_ms ≤ time)
earlier sleep later until time (inl e) h = inl e
earlier sleep later until time (inr m) h = inr (omega (arith, m, h))

works_or :
    (sleep : ℕ) (timer : Timer) (later until next : ℕ)
    → (timer.poll_interval ≡ 0) ⊎ (until < later + ns_per_ms) ⊎ (0 < sleep)
    → (until ≡ next) ⊎ (until ≡ timer.deadline)
    → (timer.poll_interval ≡ 0)
      ⊎ (next < later + ns_per_ms)
      ⊎ (timer.deadline < later + ns_per_ms)
      ⊎ (0 < sleep)
works_or sleep timer later until next works either = ground arith

module _ {D : Double} (timer : Timer) (next : ℕ) (turn : Turn D) where
  -- A turn sleeps at most the poll interval, and neither beyond the next snapshot nor beyond the
  -- deadline of a session that has one; and it sleeps, unless the poll interval is zero or less than a
  -- millisecond is left to one of the two.
  pub tick-WakesBy :
      let tick = tick_of timer next turn in
      (tick.sleep_for ≤ timer.poll_interval)
      × WakesBy tick turn tick.next_snapshot
      × ((timer.run_forever ≡ true) ⊎ WakesBy tick turn timer.deadline)
      × ((timer.poll_interval ≡ 0)
          ⊎ (tick.next_snapshot < turn.later + ns_per_ms)
          ⊎ (timer.deadline < turn.later + ns_per_ms)
          ⊎ (0 < tick.sleep_for))
  unfolding tick_of
  tick-WakesBy =
      let next' = (tick_of timer next turn).next_snapshot in
      let until = wake_time timer next' in
      let (short, by, works) = sleep-bounds timer until turn.later in
      let (first, second, either) = wake-bounds timer next' in
      (
        short,
        earlier _ turn.later until next' by first,
        elim second [
          | inl f ↦ inl f
          | inr m ↦ inr (earlier _ turn.later until timer.deadline by m)
        ],
        works_or _ timer turn.later until next' works either,
      )

count_if : Bool → ℕ → ℕ
count_if true n = suc n
count_if false n = n

module _ {D : Double} where
  abbrev pub takes : Tick D → Bool
  takes tick = elim tick.pass.reading [ none ↦ false | some reading ↦ true ]

  -- The snapshots are taken exactly where one is due: the first at `due` or after, and each other
  -- when the interval has gone by since the one before.
  abbrev pub IsPaced : ℕ → ℕ → List (Tick D) → Type 0
  IsPaced interval due [] = Unit
  IsPaced interval due (tick ∷ ticks) =
      ((due ≤ tick.now) × (takes tick ≡ true) × IsPaced interval (tick.now + interval) ticks)
      ⊎ ((tick.now < due) × (takes tick ≡ false) × IsPaced interval due ticks)

  -- The number of snapshots.
  unfoldable pub snapshots : List (Tick D) → ℕ
  unfolding count_if
  snapshots [] = 0
  snapshots (tick ∷ ticks) = count_if (takes tick) (snapshots ticks)

  -- No turn is later than a time.
  abbrev pub AreBy : ℕ → List (Tick D) → Type 0
  AreBy time [] = Unit
  AreBy time (tick ∷ ticks) = (tick.now ≤ time) × AreBy time ticks

  count_snapshots :
      (interval due time : ℕ) (ticks : List (Tick D))
      → IsPaced interval due ticks
      → AreBy time ticks
      → (snapshots ticks ≡ 0) ⊎ (due + snapshots ticks * interval ≤ time + interval)
  unfolding snapshots count_if
  count_snapshots interval due time [] p b = inl refl
  count_snapshots interval due time (tick ∷ ticks) (inl (m, e, p)) (n, b) =
      elim (count_snapshots interval (tick.now + interval) time ticks p b) [
        | inl z ↦ inr (rw (e, z) (omega (arith, m, n)))
        | inr h ↦ inr (rw e (omega (arith, h, m, n)))
      ]
  count_snapshots interval due time (tick ∷ ticks) (inr (m, e, p)) (n, b) =
      rw e (count_snapshots interval due time ticks p b)

  end-IsPaced :
      (interval due next : ℕ) (leaves : Bool) (tick : Tick D) (rest : Option (List (Tick D)))
      (ticks : List (Tick D))
      → ((others : List (Tick D))
          → IsPaced interval next others
          → IsPaced interval due (tick ∷ others))
      → ((others : List (Tick D)) → rest ≡ some others → IsPaced interval next others)
      → end_turn leaves tick rest ≡ some ticks
      → IsPaced interval due ticks
  unfolding end_turn
  end-IsPaced interval due next true tick rest ticks head tail e =
      subst (IsPaced interval due) (some-injective _ _ e) (head [] tt)
  end-IsPaced interval due next false tick none ticks head tail e = absurd (cc e)
  end-IsPaced interval due next false tick (some others) ticks head tail e =
      subst (IsPaced interval due) (some-injective _ _ e) (head others (tail others refl))

  start-IsPaced :
      (interval due : ℕ) (stop : Bool) (tick : Tick D) (rest : Option (List (Tick D)))
      (ticks : List (Tick D))
      → (end_turn tick.leaves tick rest ≡ some ticks → IsPaced interval due ticks)
      → start_turn stop tick rest ≡ some ticks
      → IsPaced interval due ticks
  unfolding start_turn
  start-IsPaced interval due true tick rest ticks h e =
      subst (IsPaced interval due) (some-injective _ _ e) tt
  start-IsPaced interval due false tick rest ticks h e = h e

  tick-IsPaced :
      (timer : Timer) (due : ℕ) (turn : Turn D) (others : List (Tick D))
      → IsPaced timer.interval (tick_of timer due turn).next_snapshot others
      → IsPaced timer.interval due (tick_of timer due turn ∷ others)
  unfolding tick_of
  tick-IsPaced timer due turn others = elim (Bool-cases (leb due turn.now)) [
    | inl e ↦ rw e (λ p. inl (ground arith, refl, p))
    | inr e ↦ rw e (λ p. inr (ground arith, refl, p))
  ]

  loop-IsPaced :
      (fuel : ℕ) (timer : Timer) (turns : ℕ → Turn D) (i due : ℕ) (ticks : List (Tick D))
      → run_loop fuel timer turns i due ≡ some ticks
      → IsPaced timer.interval due ticks
  unfolding run_loop
  loop-IsPaced zero timer turns i due ticks e = absurd (cc e)
  loop-IsPaced (suc fuel) timer turns i due ticks e =
      start-IsPaced timer.interval due _ _ _ ticks
        (end-IsPaced timer.interval due _ _ _ _ ticks (tick-IsPaced timer due (turns i))
          (loop-IsPaced fuel timer turns (suc i) _))
        e

  -- Of the turns of a loop that ends, exactly those take a snapshot at which the interval has gone by
  -- since the snapshot before, or which are the first at the start or after it; so up to a time that
  -- no turn is later than, there is at most one snapshot for each interval, and one more.
  pub loop-snapshots :
      (fuel : ℕ) (timer : Timer) (turns : ℕ → Turn D) (ticks : List (Tick D)) (time : ℕ)
      → run_loop fuel timer turns 0 timer.process_start ≡ some ticks
      → AreBy time ticks
      → IsPaced timer.interval timer.process_start ticks
        × ((snapshots ticks ≡ 0)
            ⊎ (timer.process_start + snapshots ticks * timer.interval ≤ time + timer.interval))
  loop-snapshots fuel timer turns ticks time e b =
      let p = loop-IsPaced fuel timer turns 0 timer.process_start ticks e in
      (p, count_snapshots timer.interval timer.process_start time ticks p b)
