-- ===== src/Budget.antt =====
-- budget.py: the gate that every RPC passes. Times are in microseconds, base intervals in
-- milliseconds and the pacing factor in thousandths, so that base times factor is a time.
pub mod Clock
pub mod Heartbeat
pub mod Call
use Prim.Native.String.{String}
use paperboy.Base.{
  ℕ, zero, suc, ◌+◌, ◌-◌, ◌*◌, ◌/◌, ◌≤◌, max, Bool, Option, none, some, List, [], ◌∷◌, ◌++◌, ltb,
  leb, ◌==◌, if◌then◌else◌,
}
use paperboy.Base.Dict.{Dict, lookup, insert}
use paperboy.Errors.{
  RpcError, flood_wait, Disposition, retry, skip, phase_stop, hard_stop, flood_seconds, classify,
}
use text.Mathlib.Text.{◌==◌ as str_eq}

abbrev pub second : ℕ
second = 1000000

abbrev pub flood_margin_numerator : ℕ
flood_margin_numerator = 11

abbrev pub flood_margin_denominator : ℕ
flood_margin_denominator = 10

abbrev pub flood_margin_extra_seconds : ℕ
flood_margin_extra_seconds = 5

abbrev pub max_flood_retries : ℕ
max_flood_retries = 3

abbrev pub max_transient_retries : ℕ
max_transient_retries = 3

abbrev pub heartbeat_seconds : ℕ
heartbeat_seconds = 60

-- `TRANSIENT_BACKOFF_SECONDS[i]`
unfoldable pub transient_backoff_seconds : ℕ → ℕ
transient_backoff_seconds zero = 5
transient_backoff_seconds (suc zero) = 10
transient_backoff_seconds _ = 20

-- The quotient `-(-a // b)` is the quotient rounded up.
unfoldable pub flood_applied_seconds : ℕ → ℕ
flood_applied_seconds seconds =
    (seconds * flood_margin_numerator + (flood_margin_denominator - 1)) / flood_margin_denominator
    + flood_margin_extra_seconds

-- The fields of `Settings` and the constructor's arguments that the gate reads.
pub record Settings : Type 0 where
  pub max_rpc_per_run : ℕ
  pub flood_sleep_threshold : ℕ
  pub pacing_factor : ℕ
  pub min_interval : ℕ
  pub method_intervals : Dict ℕ

-- A row of `flood_log`.
pub record Flood : Type 0 where
  pub method : String
  pub until : ℕ
  pub seconds : ℕ
  pub applied_seconds : ℕ
  pub recorded_at : ℕ

-- One call of `factory`: the method and the time at which it was made.
pub record Sent : Type 0 where
  pub method : String
  pub at : ℕ

-- The gate's fields, the clock, the `flood_log` table, and the calls made so far.
pub record State : Type 0 where
  pub now : ℕ
  pub count : ℕ
  pub last_call : Dict ℕ
  pub flood_log : List Flood
  pub sent : List Sent

-- What the program does not implement: a sleep of `d` that begins at `t` ends at `wake t d`, and
-- is never cut short.
pub record Sleeper : Type 0 where
  pub wake : ℕ → ℕ → ℕ
  pub sleeps_enough : (t d : ℕ) → t + d ≤ wake t d

pub data Reply (A : Type 0) : Type 0 where
  answered : A → Reply A
  raised : RpcError → Reply A

-- How a call of the gate ends: a value, one of the three control exceptions, the exception itself,
-- or the `AssertionError` of `_to_exception`.
pub data Outcome (A : Type 0) : Type 0 where
  value : A → Outcome A
  skip_and_record phase_stopped hard_stopped assertion_error : Outcome A
  reraised : RpcError → Outcome A

pub effective_interval : Settings → String → ℕ
effective_interval c method = elim (lookup method c.method_intervals) [
  | none ↦ c.min_interval * c.pacing_factor
  | some base ↦ base * c.pacing_factor
]

-- The latest `until` of a method's rows (`ORDER BY until DESC LIMIT 1`), 0 if it has none.
pub latest_until : String → List Flood → ℕ
latest_until method [] = 0
latest_until method (f ∷ rows) =
    let rest = latest_until method rows in if str_eq f.method method then max f.until rest else rest

pub active_cooldown : String → State → ℕ
unfolding latest_until
active_cooldown method s = latest_until method s.flood_log - s.now

unfoldable pub to_outcome : {A : Type 0} → Disposition → Outcome A
to_outcome skip = skip_and_record
to_outcome phase_stop = phase_stopped
to_outcome hard_stop = hard_stopped
to_outcome retry = assertion_error

module _ (w : Sleeper) where
  pub sleep : ℕ → State → State
  sleep d s = if ltb 0 d then record s { now = w.wake s.now d } else s

  -- The wait for the minimum interval since the method's last call.
  pub pace_interval : Settings → String → State → State
  unfolding sleep effective_interval
  pace_interval c method s = elim (lookup method s.last_call) [
    | none ↦ s
    | some last ↦
        if ltb s.now (last + effective_interval c method)
        then sleep (last + effective_interval c method - s.now) s
        else s
  ]

  unfoldable pub pace : Settings → String → State → State
  unfolding pace_interval sleep active_cooldown
  pace c method s = let s' = pace_interval c method s in sleep (active_cooldown method s') s'
