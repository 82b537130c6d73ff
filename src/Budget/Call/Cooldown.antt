-- ===== src/Budget/Call/Cooldown.antt =====
-- A flood that stops a phase is remembered: the next call of the method waits it out.
use Prim.Native.String.{String}
use mathlib.Core.Path.{subst}
use paperboy.Base.{
  ap, ℕ, ◌+◌, ◌*◌, ◌≤◌, ◌<◌, ◌≡◌, refl, inl, some, List, [], ◌∷◌, ◌++◌, All-at, In-append_right,
  arith, lt→leb_false, lt→ltb,
}
use paperboy.Errors.{flood_wait, flood_seconds}
use paperboy.Budget.{
  second, Settings, Flood, Sent, State, Sleeper, Reply, raised, Outcome, phase_stopped,
  flood_applied_seconds,
}
use paperboy.Budget.Clock.{pace-OnlyClock}
use paperboy.Budget.Call.{record_flood, prepare, attempt_once, call_loop, call, finish}
use paperboy.Budget.Call.Keeps.{counted, elapse}
use paperboy.Budget.Call.Pacing.{IsStamped, call-IsPaced}

-- The row that a flood of `seconds` leaves when it is answered at the time `at`.
abbrev pub flood_row : String → ℕ → ℕ → Flood
flood_row method seconds at = record {
  method = method;
  until = at + flood_applied_seconds seconds * second;
  seconds = seconds;
  applied_seconds = flood_applied_seconds seconds;
  recorded_at = at;
}

flood_log-prepare :
    (w : Sleeper) (c : Settings) (method : String) (attempt : ℕ) (s : State)
    → (prepare w c method attempt s).flood_log ≡ s.flood_log
unfolding prepare
flood_log-prepare w c method attempt s = ground (arith, pace-OnlyClock w c method (counted s))

module _ {A : Type 0} (w : Sleeper) (c : Settings) (method : String) (factory : ℕ → ℕ × Reply A)
    (s : State) where
  call_first_finish :
      (o : Outcome A) (u : State)
      → attempt_once w c method factory 1 0 0 s ≡ finish o u
      → call w c method factory s ≡ some (o, u)
  unfolding call call_loop
  call_first_finish o u e = rw (e, call_loop)

  -- The state in which the first attempt's reply arrives.
  abbrev first_reply_at : State
  first_reply_at = elapse (factory 1).0 (prepare w c method 1 s)

  first_flood :
      (seconds : ℕ)
      → s.count < c.max_rpc_per_run
      → (factory 1).1 ≡ raised (flood_wait seconds)
      → c.flood_sleep_threshold < flood_applied_seconds seconds
      → attempt_once w c method factory 1 0 0 s
        ≡ finish phase_stopped
            (record_flood method seconds (flood_applied_seconds seconds) first_reply_at)
  unfolding attempt_once flood_seconds
  first_flood seconds room e big =
      rw (lt→leb_false _ _ room, attempt_once) (rw e (rw (lt→ltb _ _ big)))

  -- A first answer that asks for a wait above the ceiling stops the phase at once, and leaves a row
  -- whose cooldown is the applied wait from then on.
  pub call_flood_above_ceiling :
      (seconds : ℕ)
      → s.count < c.max_rpc_per_run
      → (factory 1).1 ≡ raised (flood_wait seconds)
      → c.flood_sleep_threshold < flood_applied_seconds seconds
      → (u : State) × (call w c method factory s ≡ some (phase_stopped, u))
        × (u.flood_log ≡ s.flood_log ++ flood_row method seconds u.now ∷ [])
  unfolding record_flood
  call_flood_above_ceiling seconds room e big = (
    record_flood method seconds (flood_applied_seconds seconds) first_reply_at,
    call_first_finish phase_stopped _ (first_flood seconds room e big),
    ap (λ l. l ++ flood_row method seconds first_reply_at.now ∷ [])
        (flood_log-prepare w c method 1 s),
  )

-- What the next call of the method does after the row has been left.
waits_for_row :
    {B : Type 0} (w : Sleeper) (c : Settings) (method : String) (next : ℕ → ℕ × Reply B)
    (u v : State) (o : Outcome B) (f : Flood) (rows : List Flood)
    → f.method ≡ method
    → u.flood_log ≡ rows ++ f ∷ []
    → IsStamped u
    → u.count < c.max_rpc_per_run
    → call w c method next u ≡ some (o, v)
    → (t : ℕ) × (rest : List Sent) × (v.sent ≡ u.sent ++ record { method = method; at = t } ∷ rest)
      × (f.until ≤ t)
waits_for_row w c method next u v o f rows same log h room e =
    let (t, rest, sent, _, cool, _) = call-IsPaced w c method next u o v h room e in
    (
      t,
      rest,
      sent,
      All-at (λ (g : Flood). g.method ≡ method → g.until ≤ t) f u.flood_log cool
          (rw log (In-append_right f rows (f ∷ []) (inl refl))) same,
    )

-- When a call's first answer asks for a wait above the ceiling, the call stops its phase, and the
-- next call of the method, whatever it is for and if the cap leaves room for it, reaches the server
-- no sooner than the applied wait after that stop.
pub next_call_waits :
    {A B : Type 0} (w : Sleeper) (c : Settings) (method : String) (factory : ℕ → ℕ × Reply A)
    (next : ℕ → ℕ × Reply B) (seconds : ℕ) (s u v : State) (p : Outcome A) (o : Outcome B)
    → IsStamped s
    → s.count < c.max_rpc_per_run
    → (factory 1).1 ≡ raised (flood_wait seconds)
    → c.flood_sleep_threshold < flood_applied_seconds seconds
    → call w c method factory s ≡ some (p, u)
    → u.count < c.max_rpc_per_run
    → call w c method next u ≡ some (o, v)
    → (p ≡ phase_stopped)
      × (t : ℕ) × (rest : List Sent) × (v.sent
          ≡ u.sent ++ record { method = method; at = t } ∷ rest)
      × (u.now + flood_applied_seconds seconds * second ≤ t)
next_call_waits w c method factory next seconds s u v p o h room e big first room' second' =
    let (u', stopped, log) = call_flood_above_ceiling w c method factory s seconds room e big in
    let same : u' ≡ u = cc (stopped, first) in
    let log' : u.flood_log ≡ s.flood_log ++ flood_row method seconds u.now ∷ [] =
      subst (λ (t : State). t.flood_log ≡ s.flood_log ++ flood_row method seconds t.now ∷ []) same
        log in
    let paced = call-IsPaced w c method factory s p u h room first in
    let (t, rest, sent, le) =
      waits_for_row w c method next u v o (flood_row method seconds u.now) s.flood_log refl log'
        paced.5 room' second' in
    (cc (stopped, first), t, rest, sent, le)
