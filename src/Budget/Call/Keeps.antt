-- ===== src/Budget/Call/Keeps.antt =====
-- What holds of the gate's state before a call, and is kept by waiting, by the bookkeeping of a
-- flood and by sending, holds after the call.
use Prim.Native.String.{String}
use paperboy.Base.{
  Bool, true, false, ℕ, zero, suc, ◌+◌, ◌-◌, ◌*◌, ◌<◌, ◌≡◌, ◌⊎◌, inl, inr, Option, none, some, [],
  ◌∷◌, ◌++◌, arith, ltb, leb, ◌==◌, if◌then◌else◌, Bool-cases, Option-cases,
}
use paperboy.Errors.{RpcError, Disposition, retry, flood_seconds, classify}
use paperboy.Budget.{
  Settings, State, Sleeper, phase_stopped, Reply, answered, raised, Outcome, sleep, pace,
  flood_applied_seconds, transient_backoff_seconds, max_flood_retries, max_transient_retries,
}
use paperboy.Budget.Clock.{OnlyClock, sleep-OnlyClock, pace-OnlyClock}
use paperboy.Budget.Heartbeat.{sleep_with_heartbeat, sleep_with_heartbeat-OnlyClock}
use paperboy.Budget.Call.{
  Next, finish, again, record_flood, stamp, handle_flood, handle_disposition, handle_error,
  after_reply, prepare, attempt_once, call_loop, call,
}

-- An attempt is counted.
abbrev pub counted : State → State
counted s = record s { count = s.count + 1 }

-- A call of `factory`, stamped and made at the present time.
abbrev pub send : String → State → State
send method s = record (stamp method s) {
  sent = s.sent ++ record { method = method; at = s.now } ∷ [];
}

-- The state after a time.
abbrev pub elapse : ℕ → State → State
elapse d s = record s { now = s.now + d }

-- `P` is kept by each thing that a call does.
pub record IsKept (method : String) (P : State → Type 0) : Type 0 where
  pub clock : (s t : State) → OnlyClock s t → P s → P t
  pub flood : (seconds applied : ℕ) (s : State) → P s → P (record_flood method seconds applied s)
  pub stamped : (s : State) → P s → P (stamp method s)
  pub counts : (s : State) → P s → P (counted s)
  pub sends : (s : State) → P s → P (send method s)

abbrev pub AtNext : {A : Type 0} → (State → Type 0) → Next A → Type 0
AtNext P (finish o t) = P t
AtNext P (again f r t) = P t

module _ (A : Type 0) (w : Sleeper) (c : Settings) (method : String) (P : State → Type 0)
    (kept : IsKept method P) where
  handle_flood-AtNext :
      (seconds floods transients : ℕ) (s : State)
      → P s
      → AtNext P (handle_flood {A = A} w c method seconds floods transients s)
  unfolding handle_flood
  handle_flood-AtNext seconds floods transients s h =
      by_tests (ltb c.flood_sleep_threshold applied) (ltb max_flood_retries floods)
    where
      applied : ℕ
      applied = flood_applied_seconds seconds

      s' : State
      s' = record_flood method seconds applied s

      by_tests :
          (a b : Bool)
          → AtNext {A = A} P (
              if a
              then finish phase_stopped s'
              else if b
              then finish phase_stopped s'
              else again floods transients (stamp method (sleep_with_heartbeat w applied s').1))
      by_tests true b = kept.flood seconds applied s h
      by_tests false true = kept.flood seconds applied s h
      by_tests false false = kept.stamped (sleep_with_heartbeat w applied s').1 (
          kept.clock s' (sleep_with_heartbeat w applied s').1
            (sleep_with_heartbeat-OnlyClock w applied s') (kept.flood seconds applied s h))

  handle_disposition-AtNext :
      (exc : RpcError) (d : Option Disposition) (floods transients : ℕ) (s : State)
      → P s
      → AtNext P (handle_disposition {A = A} w c method exc d floods transients s)
  unfolding handle_disposition
  handle_disposition-AtNext exc (some retry) floods transients s h =
      by_test (ltb max_transient_retries (transients + 1))
    where
      wait : ℕ
      wait = transient_backoff_seconds (transients + 1 - 1) * 1000 * c.pacing_factor

      by_test :
          (a : Bool)
          → AtNext {A = A} P
              (if a then finish phase_stopped s else again floods (transients + 1) (sleep w wait s))
      by_test true = h
      by_test false = kept.clock s (sleep w wait s) (sleep-OnlyClock w wait s) h
  handle_disposition-AtNext exc _ floods transients s h = h

  after_reply-AtNext :
      (reply : Reply A) (floods transients : ℕ) (s : State)
      → P s
      → AtNext P (after_reply w c method reply floods transients s)
  unfolding after_reply
  after_reply-AtNext (answered a) floods transients s h = h
  after_reply-AtNext (raised exc) floods transients s h = elim (Option-cases (flood_seconds exc)) [
    | inl e ↦
        rw (e, handle_error)
          (handle_disposition-AtNext exc (classify exc c.flood_sleep_threshold) floods transients s
            h)
    | inr (seconds, e) ↦
        rw (e, handle_error) (handle_flood-AtNext seconds (floods + 1) transients s h)
  ]

  pub prepare_keeps : (attempt : ℕ) (s : State) → P s → P (prepare w c method attempt s)
  unfolding prepare
  prepare_keeps attempt s h = by_test (attempt == 1)
    where
      by_test : (a : Bool) → P (send method (if a then pace w c method (counted s) else counted s))
      by_test true = kept.sends (pace w c method (counted s)) (
          kept.clock (counted s) (pace w c method (counted s))
            (pace-OnlyClock w c method (counted s)) (kept.counts s h))
      by_test false = kept.sends (counted s) (kept.counts s h)

  elapse_keeps : (d : ℕ) (s : State) → P s → P (elapse d s)
  elapse_keeps d s h = kept.clock s (elapse d s) (ground arith) h

  -- After the first line of the round, the rest of it keeps `P`.
  pub after_prepare :
      (factory : ℕ → ℕ × Reply A) (attempt floods transients : ℕ) (s : State)
      → P (prepare w c method attempt s)
      → AtNext P (
          after_reply w c method
            (factory attempt).1
            floods
            transients
            (elapse (factory attempt).0 (prepare w c method attempt s)))
  after_prepare factory attempt floods transients s h =
      after_reply-AtNext (factory attempt).1 floods transients
        (elapse (factory attempt).0 (prepare w c method attempt s))
        (elapse_keeps (factory attempt).0 (prepare w c method attempt s) h)

  attempt_once-AtNext :
      (factory : ℕ → ℕ × Reply A) (attempt floods transients : ℕ) (s : State)
      → P s
      → AtNext P (attempt_once w c method factory attempt floods transients s)
  unfolding attempt_once
  attempt_once-AtNext factory attempt floods transients s h =
      elim (Bool-cases (leb c.max_rpc_per_run s.count)) [
        | inl full ↦ rw (full, attempt_once) h
        | inr room ↦
            rw (room, attempt_once)
              (after_prepare factory attempt floods transients s (prepare_keeps attempt s h))
      ]

  -- The state in which a call has ended, if it has.
  abbrev pub AtEnd : Option (Outcome A × State) → Type 0
  AtEnd none = Unit
  AtEnd (some (o, t)) = P t

  pub call_loop-AtEnd :
      (fuel : ℕ) (factory : ℕ → ℕ × Reply A) (attempt floods transients : ℕ) (s : State)
      → P s
      → AtEnd (call_loop w c method fuel factory attempt floods transients s)
  unfolding call_loop
  call_loop-AtEnd zero factory attempt floods transients s h = tt
  call_loop-AtEnd (suc fuel) factory attempt floods transients s h =
      by_next (attempt_once w c method factory attempt floods transients s)
        (attempt_once-AtNext factory attempt floods transients s h)
        (λ f r u k. call_loop-AtEnd fuel factory (attempt + 1) f r u k)
    where
      by_next :
          (r : Next A)
          → AtNext P r
          → ((f r : ℕ) (u : State)
              → P u
              → AtEnd (call_loop w c method fuel factory (attempt + 1) f r u))
          → AtEnd (elim r [
            | finish o s' ↦ some (o, s')
            | again f t s' ↦ call_loop w c method fuel factory (attempt + 1) f t s'
          ])
      by_next (finish o t) k rest = k
      by_next (again f r u) k rest = rest f r u k

  pub call-AtEnd : (factory : ℕ → ℕ × Reply A) (s : State) → P s → AtEnd (call w c method factory s)
  unfolding call
  call-AtEnd factory s h = call_loop-AtEnd 7 factory 1 0 0 s h

  -- The same, from the state that the first attempt is made in.
  pub call-AtEnd_sent :
      (factory : ℕ → ℕ × Reply A) (s : State)
      → s.count < c.max_rpc_per_run
      → P (prepare w c method 1 s)
      → AtEnd (call w c method factory s)
  unfolding call call_loop
  call-AtEnd_sent factory s room h =
      by_next (attempt_once w c method factory 1 0 0 s)
        (tried (Bool-cases (leb c.max_rpc_per_run s.count)))
    where
      tried :
          (leb c.max_rpc_per_run s.count ≡ true) ⊎ (leb c.max_rpc_per_run s.count ≡ false)
          → AtNext P (attempt_once w c method factory 1 0 0 s)
      tried (inl full) = absurd (ground arith)
      tried (inr open') =
          unfold attempt_once in rw (open', attempt_once) (after_prepare factory 1 0 0 s h)

      by_next :
          (r : Next A)
          → AtNext P r
          → AtEnd (elim r [
            | finish o s' ↦ some (o, s')
            | again f t s' ↦ call_loop w c method 6 factory 2 f t s'
          ])
      by_next (finish o t) k = k
      by_next (again f r u) k = call_loop-AtEnd 6 factory 2 f r u k
