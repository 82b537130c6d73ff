-- ===== src/Budget/Call.antt =====
-- budget.py, `Budget.call`: one RPC through the gate.
pub mod Attempts
pub mod Keeps
pub mod Pacing
pub mod Cooldown
use Prim.Native.String.{String}
use paperboy.Base.{
  ℕ, zero, suc, ◌+◌, ◌-◌, ◌*◌, Option, none, some, List, [], ◌∷◌, ◌++◌, ltb, leb, ◌==◌,
  if◌then◌else◌,
}
use paperboy.Base.Dict.{insert}
use paperboy.Errors.{
  RpcError, Disposition, retry, skip, phase_stop, hard_stop, flood_seconds, classify,
}
use paperboy.Budget.{
  second, max_flood_retries, max_transient_retries, transient_backoff_seconds,
  flood_applied_seconds, Settings, Flood, Sent, State, Sleeper, Reply, answered, raised, Outcome,
  value, phase_stopped, hard_stopped, reraised, to_outcome, sleep, pace,
}
use paperboy.Budget.Heartbeat.{sleep_with_heartbeat}

-- What an attempt leads to: the end of the call, or another attempt with these counters.
pub data Next (A : Type 0) : Type 0 where
  finish : Outcome A → State → Next A
  again : ℕ → ℕ → State → Next A

-- `_record_flood`
pub record_flood : String → ℕ → ℕ → State → State
record_flood method seconds applied s = record s {
  flood_log =
      s.flood_log
      ++ record {
        method = method;
        until = s.now + applied * second;
        seconds = seconds;
        applied_seconds = applied;
        recorded_at = s.now;
      }
        ∷ [];
}

-- `self._last_call[method] = self._clock.time()`
abbrev pub stamp : String → State → State
stamp method s = record s { last_call = insert method s.now s.last_call }

-- Counts the attempt, waits before the first one, and stamps the call.
pub prepare : Sleeper → Settings → String → ℕ → State → State
prepare w c method attempt s =
    let counted = record s { count = s.count + 1 } in
    let paced = if attempt == 1 then pace w c method counted else counted in
    let stamped = stamp method paced in
    record stamped { sent = stamped.sent ++ record { method = method; at = stamped.now } ∷ [] }

module _ {A : Type 0} (w : Sleeper) (c : Settings) (method : String) where
  -- `_handle_flood` and the two lines after it.
  pub handle_flood : ℕ → ℕ → ℕ → State → Next A
  unfolding record_flood
  handle_flood seconds floods transients s =
      let applied = flood_applied_seconds seconds in
      let s' = record_flood method seconds applied s in
      if ltb c.flood_sleep_threshold applied
      then finish phase_stopped s'
      else if ltb max_flood_retries floods
      then finish phase_stopped s'
      else again floods transients (stamp method (sleep_with_heartbeat w applied s').1)

  -- A transient error.
  pub handle_transient : ℕ → ℕ → State → Next A
  handle_transient floods transients s =
      if ltb max_transient_retries transients
      then finish phase_stopped s
      else again floods transients
          (sleep w (transient_backoff_seconds (transients - 1) * 1000 * c.pacing_factor) s)

  -- What is not a flood, by its disposition; `none` is the exception raised again as itself.
  pub handle_disposition : RpcError → Option Disposition → ℕ → ℕ → State → Next A
  unfolding handle_transient to_outcome
  handle_disposition exc none floods transients s = finish (reraised exc) s
  handle_disposition exc (some retry) floods transients s =
      handle_transient floods (transients + 1) s
  handle_disposition exc (some d) floods transients s = finish (to_outcome d) s

  -- The `except` branch of the loop.
  pub handle_error : RpcError → ℕ → ℕ → State → Next A
  unfolding handle_flood handle_disposition
  handle_error exc floods transients s = elim (flood_seconds exc) [
    | some seconds ↦ handle_flood seconds (floods + 1) transients s
    | none ↦ handle_disposition exc (classify exc c.flood_sleep_threshold) floods transients s
  ]

  -- The `try` statement, once the factory's awaitable is done.
  pub after_reply : Reply A → ℕ → ℕ → State → Next A
  unfolding handle_error
  after_reply (answered a) floods transients s = finish (value a) s
  after_reply (raised exc) floods transients s = handle_error exc floods transients s

  -- One round of the loop. `factory attempt` is how long the attempt takes, and its reply.
  pub attempt_once : (ℕ → ℕ × Reply A) → ℕ → ℕ → ℕ → State → Next A
  unfolding prepare after_reply
  attempt_once factory attempt floods transients s =
      let s' = prepare w c method attempt s in
      let (elapsed, reply) = factory attempt in
      if leb c.max_rpc_per_run s.count
      then finish hard_stopped s
      else after_reply reply floods transients (record s' { now = s'.now + elapsed })

  -- The loop; `none` means that the fuel ran out.
  pub call_loop : ℕ → (ℕ → ℕ × Reply A) → ℕ → ℕ → ℕ → State → Option (Outcome A × State)
  unfolding attempt_once
  call_loop zero factory attempt floods transients s = none
  call_loop (suc fuel) factory attempt floods transients s =
      elim (attempt_once factory attempt floods transients s) [
        | finish o s' ↦ some (o, s')
        | again f t s' ↦ call_loop fuel factory (attempt + 1) f t s'
      ]

  -- Three floods and three transient errors are waited out, so there are seven attempts at most.
  unfoldable pub call : (ℕ → ℕ × Reply A) → State → Option (Outcome A × State)
  unfolding call_loop
  call factory s = call_loop (max_flood_retries + max_transient_retries + 1) factory 1 0 0 s
