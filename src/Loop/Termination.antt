-- ===== src/Loop/Termination.antt =====
-- When the loop of `main` in src/main.cpp ends.
use mathlib.Core.Path.{subst}
use bittorrent_peer_linking.Config.{RuntimeConfig}
use bittorrent_peer_linking.Base.{
  ℕ, zero, suc, ◌+◌, ◌≤◌, ◌<◌, ◌≡◌, refl, arith, Bool, true, false, Option, some, List, [], ◌∷◌,
  ◌⊎◌, inl, inr, length, ◌*◌, pos_part, is_zero,
}
use bittorrent_peer_linking.Double.{Double}
use bittorrent_peer_linking.Loop.{
  Timer, Turn, Tick, tick_of, end_turn, start_turn, run_loop, start_timer,
}

-- The loop returns after at most the given number of turns.
abbrev pub EndsWithin : {D : Double} → Option (List (Tick D)) → ℕ → Type 0
EndsWithin {D} run n = (ticks : List (Tick D)) × (run ≡ some ticks) × (length ticks ≤ n)

module _ {D : Double} (timer : Timer) (turns : ℕ → Turn D) where
  start-true :
      (stop : Bool) (tick : Tick D) (rest : Option (List (Tick D))) (n : ℕ)
      → stop ≡ true
      → EndsWithin (start_turn stop tick rest) n
  unfolding start_turn
  start-true true tick rest n e = ([], refl, omega arith)
  start-true false tick rest n e = absurd (cc e)

  end-true :
      (leaves : Bool) (tick : Tick D) (rest : Option (List (Tick D))) (n : ℕ)
      → leaves ≡ true
      → EndsWithin (end_turn leaves tick rest) (suc n)
  unfolding end_turn
  end-true true tick rest n e = (tick ∷ [], refl, omega arith)
  end-true false tick rest n e = absurd (cc e)

  end-any :
      (leaves : Bool) (tick : Tick D) (rest : Option (List (Tick D))) (n : ℕ)
      → EndsWithin rest n
      → EndsWithin (end_turn leaves tick rest) (suc n)
  unfolding end_turn
  end-any true tick rest n h = (tick ∷ [], refl, omega arith)
  end-any false tick rest n (ticks, e, m) = (tick ∷ ticks, rw e refl, omega (arith, m))

  start-any :
      (stop : Bool) (tick : Tick D) (rest : Option (List (Tick D))) (n : ℕ)
      → EndsWithin (end_turn tick.leaves tick rest) n
      → EndsWithin (start_turn stop tick rest) n
  unfolding start_turn
  start-any true tick rest n h = ([], refl, omega arith)
  start-any false tick rest n h = h

  -- The `i`-th turn finds a stop that was requested, or a deadline that is over.
  abbrev pub Ends : ℕ → Type 0
  Ends i =
      ((turns i).stop_requested ≡ true)
      ⊎ ((timer.run_forever ≡ false) × (timer.deadline ≤ (turns i).now))

  leaves-true :
      (next i : ℕ)
      → timer.run_forever ≡ false
      → timer.deadline ≤ (turns i).now
      → (tick_of timer next (turns i)).leaves ≡ true
  unfolding tick_of
  leaves-true next i e h = ground arith

  now-EndsWithin :
      (i next fuel : ℕ) → Ends i → EndsWithin (run_loop (suc fuel) timer turns i next) 1
  unfolding run_loop
  now-EndsWithin i next fuel (inl stop) = start-true _ _ _ 1 stop
  now-EndsWithin i next fuel (inr (e, d)) =
      start-any _ _ _ 1 (end-true _ _ _ 0 (leaves-true next i e d))

  -- The loop returns at the turn that ends it, with fuel for the turns up to it.
  pub loop-EndsWithin :
      (k i j next fuel : ℕ)
      → i + k ≡ j
      → Ends j
      → k < fuel
      → EndsWithin (run_loop fuel timer turns i next) (suc k)
  unfolding run_loop
  loop-EndsWithin k i j next zero e h m = absurd (omega (arith, m))
  loop-EndsWithin zero i j next (suc fuel) e h m =
      now-EndsWithin i next fuel (subst Ends (omega (arith, e)) h)
  loop-EndsWithin (suc k) i j next (suc fuel) e h m = start-any _ _ _ (suc (suc k)) (
      end-any _ _ _ (suc k)
        (loop-EndsWithin k (suc i) j _ fuel (omega (arith, e)) h (omega (arith, m))))

  -- A clock that advances from turn to turn has advanced by the number of turns.
  now-grows :
      (start : ℕ)
      → start ≤ (turns 0).now
      → ((n : ℕ) → (turns n).now < (turns (suc n)).now)
      → (n : ℕ) → start + n ≤ (turns n).now
  now-grows start h grows zero = omega (arith, h)
  now-grows start h grows (suc n) = omega (arith, now-grows start h grows n, grows n)

module _ {D : Double} (config : RuntimeConfig) (start : ℕ) (turns : ℕ → Turn D) where
  -- With a runtime that is not zero, and a steady clock that advances from one turn to the next, the
  -- loop returns: no later than after the runtime's nanoseconds and one turn more, with fuel for
  -- them.
  pub loop-ends :
      is_zero config.runtime_seconds ≡ false
      → start ≤ (turns 0).now
      → ((n : ℕ) → (turns n).now < (turns (suc n)).now)
      → (fuel : ℕ) → pos_part config.runtime_seconds * 1000000000 < fuel
      → EndsWithin
          (run_loop fuel (start_timer config start) turns 0 start)
          (suc (pos_part config.runtime_seconds * 1000000000))
  unfolding start_timer
  loop-ends finite h grows fuel m =
      let k = pos_part config.runtime_seconds * 1000000000 in
      loop-EndsWithin (start_timer config start) turns k 0 k start fuel (omega arith)
        (inr (finite, now-grows (start_timer config start) turns start h grows k)) m
