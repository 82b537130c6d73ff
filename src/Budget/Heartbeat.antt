-- ===== src/Budget/Heartbeat.antt =====
-- budget.py, `_sleep_with_heartbeat` and the applied wait: how long the gate sleeps after a flood.
use paperboy.Base.{
  ℕ, zero, suc, ◌+◌, ◌-◌, ◌*◌, ◌/◌, ◌≤◌, ◌<◌, ◌≡◌, refl, min, ◌&&◌, false, List, [], ◌∷◌, length,
  arith, ltb, leb, if◌then◌else◌, Bool-cases, inl, inr,
}
use paperboy.Budget.{State, Sleeper, second, heartbeat_seconds, sleep, flood_applied_seconds}
use paperboy.Budget.Clock.{OnlyClock, OnlyClock-refl, OnlyClock-trans, sleep-OnlyClock, sleep_takes}

module _ (w : Sleeper) where
  -- The loop, with the seconds that remain; the seconds reported in its log lines come first.
  pub heartbeat_loop : ℕ → ℕ → ℕ → State → List ℕ × State
  heartbeat_loop zero total remaining s = ([], s)
  heartbeat_loop (suc fuel) total remaining s =
      let chunk = min heartbeat_seconds remaining in
      let left = remaining - chunk in
      let (lines, s') = heartbeat_loop fuel total left (sleep w (chunk * second) s) in
      if ltb 0 remaining
      then ((if leb heartbeat_seconds total && ltb 0 left then left ∷ lines else lines), s')
      else ([], s)

  -- Each round takes at least a second, so `total` rounds are enough.
  unfoldable pub sleep_with_heartbeat : ℕ → State → List ℕ × State
  unfolding heartbeat_loop
  sleep_with_heartbeat total s = heartbeat_loop total total total s

  heartbeat_loop_takes :
      (fuel total remaining : ℕ) (s : State)
      → remaining ≤ fuel
      → s.now + remaining * second ≤ (heartbeat_loop fuel total remaining s).1.now
  unfolding heartbeat_loop
  heartbeat_loop_takes zero total remaining s h = omega arith
  heartbeat_loop_takes (suc fuel) total remaining s h = ground (
    arith,
    sleep_takes w (min heartbeat_seconds remaining * second) s,
    heartbeat_loop_takes fuel total (remaining - min heartbeat_seconds remaining)
        (sleep w (min heartbeat_seconds remaining * second) s),
  )

  heartbeat_loop-OnlyClock :
      (fuel total remaining : ℕ) (s : State) → OnlyClock s (heartbeat_loop fuel total remaining s).1
  unfolding heartbeat_loop
  heartbeat_loop-OnlyClock zero total remaining s = OnlyClock-refl s
  heartbeat_loop-OnlyClock (suc fuel) total remaining s = elim (Bool-cases (ltb 0 remaining)) [
    | inl more ↦
        rw (more, heartbeat_loop)
          (OnlyClock-trans (sleep-OnlyClock w (min heartbeat_seconds remaining * second) s) (
            heartbeat_loop-OnlyClock fuel total (remaining - min heartbeat_seconds remaining)
              (sleep w (min heartbeat_seconds remaining * second) s)))
    | inr done ↦ rw (done, heartbeat_loop) (OnlyClock-refl s)
  ]

  pub sleep_with_heartbeat-OnlyClock :
      (total : ℕ) (s : State) → OnlyClock s (sleep_with_heartbeat total s).1
  unfolding sleep_with_heartbeat
  sleep_with_heartbeat-OnlyClock total s = heartbeat_loop-OnlyClock total total total s

  -- The wait with log lines sleeps at least as long as it is asked to.
  pub sleep_with_heartbeat_takes :
      (total : ℕ) (s : State) → s.now + total * second ≤ (sleep_with_heartbeat total s).1.now
  unfolding sleep_with_heartbeat
  sleep_with_heartbeat_takes total s = heartbeat_loop_takes total total total s (omega arith)

  lines_loop :
      (fuel total remaining : ℕ) (s : State)
      → remaining ≤ fuel
      → 60 ≤ total
      → length (heartbeat_loop fuel total remaining s).0 ≡ (remaining - 1) / 60
  unfolding heartbeat_loop
  lines_loop zero total remaining s h big = omega arith
  lines_loop (suc fuel) total remaining s h big = ground (
    arith,
    lines_loop fuel total (remaining - min heartbeat_seconds remaining)
        (sleep w (min heartbeat_seconds remaining * second) s),
  )

  quiet_loop :
      (fuel total remaining : ℕ) (s : State)
      → total < 60
      → length (heartbeat_loop fuel total remaining s).0 ≡ 0
  unfolding heartbeat_loop
  quiet_loop zero total remaining s small = refl
  quiet_loop (suc fuel) total remaining s small = ground (
    arith,
    quiet_loop fuel total (remaining - min heartbeat_seconds remaining)
        (sleep w (min heartbeat_seconds remaining * second) s),
  )

  -- A wait of `total` seconds logs a line after each full minute but none when nothing remains, and
  -- a wait below a minute logs none: `(total - 1) / 60` lines in all.
  pub lines-sleep_with_heartbeat :
      (total : ℕ) (s : State) → length (sleep_with_heartbeat total s).0 ≡ (total - 1) / 60
  unfolding sleep_with_heartbeat
  lines-sleep_with_heartbeat total s = elim (Bool-cases (leb 60 total)) [
    | inl big ↦ lines_loop total total total s (omega arith) (ground arith)
    | inr small ↦ omega (arith, quiet_loop total total total s (ground arith), below small)
  ]
    where
      below : leb 60 total ≡ false → total < 60
      below h = ground arith

-- The applied wait is the least whole number of seconds that is at least 1.1 times the server's,
-- and five more.
flood_applied_seconds_bounds :
    (s : ℕ)
    → (11 * s + 50 ≤ 10 * flood_applied_seconds s) × (10 * flood_applied_seconds s < 11 * s + 60)
unfolding flood_applied_seconds
flood_applied_seconds_bounds s = omega arith
