-- ===== src/Budget/Clock.antt =====
-- What waiting does: it moves the clock, and touches nothing else.
use Prim.Native.String.{String}
use text.Mathlib.TextEquality.{eq_iff}
use paperboy.Base.{
  List, [], ◌∷◌, ap, All, All-map_at, ℕ, ◌+◌, ◌-◌, ◌≤◌, ◌≡◌, refl, some, ◌∙◌, arith, Option-cases,
  inl, inr,
}
use paperboy.Base.Dict.{lookup}
use paperboy.Budget.{
  Settings, Flood, State, Sleeper, effective_interval, latest_until, active_cooldown, sleep,
  pace_interval, pace,
}

-- The two states differ in the clock alone, and the clock has not gone back.
pub record OnlyClock (s t : State) : Type 0 where
  pub count : t.count ≡ s.count
  pub last_call : t.last_call ≡ s.last_call
  pub flood_log : t.flood_log ≡ s.flood_log
  pub sent : t.sent ≡ s.sent
  pub now : s.now ≤ t.now

pub OnlyClock-refl : (s : State) → OnlyClock s s
OnlyClock-refl s = record {
  count = refl;
  last_call = refl;
  flood_log = refl;
  sent = refl;
  now = omega arith;
}

pub OnlyClock-trans : {s t u : State} → OnlyClock s t → OnlyClock t u → OnlyClock s u
OnlyClock-trans h k = record {
  count = k.count ∙ h.count;
  last_call = k.last_call ∙ h.last_call;
  flood_log = k.flood_log ∙ h.flood_log;
  sent = k.sent ∙ h.sent;
  now = omega (arith, h.now, k.now);
}

module _ (w : Sleeper) where
  pub sleep-OnlyClock : (d : ℕ) (s : State) → OnlyClock s (sleep w d s)
  unfolding sleep
  sleep-OnlyClock d s = ground (arith, w.sleeps_enough s.now d)

  pub sleep_takes : (d : ℕ) (s : State) → s.now + d ≤ (sleep w d s).now
  unfolding sleep
  sleep_takes d s = ground (arith, w.sleeps_enough s.now d)

  pace_interval-OnlyClock :
      (c : Settings) (method : String) (s : State) → OnlyClock s (pace_interval w c method s)
  unfolding pace_interval
  pace_interval-OnlyClock c method s = elim (Option-cases (lookup method s.last_call)) [
    | inl never ↦ rw (never, pace_interval) (OnlyClock-refl s)
    | inr (last, e) ↦
        rw (e, pace_interval)
          (ground (arith, sleep-OnlyClock (last + effective_interval c method - s.now) s))
  ]

  pub pace-OnlyClock :
      (c : Settings) (method : String) (s : State) → OnlyClock s (pace w c method s)
  unfolding pace
  pace-OnlyClock c method s =
      let p = pace_interval w c method s in
      OnlyClock-trans (pace_interval-OnlyClock c method s)
        (sleep-OnlyClock (active_cooldown method p) p)

  -- After the wait, the method's interval since its last call is over, and so is its cooldown.
  pub pace_waits :
      (c : Settings) (method : String) (s : State) (last : ℕ)
      → lookup method s.last_call ≡ some last
      → last + effective_interval c method ≤ (pace w c method s).now
  unfolding pace
  pace_waits c method s last e =
      let p = pace_interval w c method s in
      omega (arith, paced, (sleep-OnlyClock (active_cooldown method p) p).now)
    where
      paced : last + effective_interval c method ≤ (pace_interval w c method s).now
      paced =
          rw (e, pace_interval)
            (ground (arith, sleep_takes (last + effective_interval c method - s.now) s))

  pub pace_cools :
      (c : Settings) (method : String) (s : State)
      → latest_until method s.flood_log ≤ (pace w c method s).now
  unfolding pace
  pace_cools c method s =
      let p = pace_interval w c method s in
      omega (
        arith,
        sleep_takes (active_cooldown method p) p,
        ap (latest_until method) (pace_interval-OnlyClock c method s).flood_log,
      )

-- Every cooldown of the method is over once the latest one is.
pub until-le-latest_until :
    (method : String) (rows : List Flood)
    → All (λ f. f.method ≡ method → f.until ≤ latest_until method rows) rows
unfolding latest_until
until-le-latest_until method [] = tt
until-le-latest_until method (f ∷ rows) =
    ((λ e. head e), All-map_at rows (until-le-latest_until method rows) (λ g k e. tail g (k e)))
  where
    head : f.method ≡ method → f.until ≤ latest_until method (f ∷ rows)
    head e = rw ((eq_iff f.method method).1 e, latest_until) (omega arith)

    tail :
        (g : Flood) → g.until ≤ latest_until method rows → g.until ≤ latest_until method (f ∷ rows)
    tail g k = ground (arith, k)
