-- ===== src/Budget/Call/Attempts.antt =====
-- A call of the gate ends, after seven attempts at most, and never passes the cap of the run.
use Prim.Native.String.{String}
use paperboy.Base.{
  ◌∙◌, ap, ℕ, zero, suc, ◌+◌, ◌-◌, ◌*◌, ◌≤◌, ◌<◌, ◌≡◌, ◌≢◌, refl, inl, inr, Option, some, [], ◌∷◌,
  length, length-append, arith, leb, Bool-cases, Option-cases,
}
use paperboy.Errors.{RpcError, Disposition, retry, flood_seconds, classify}
use paperboy.Budget.{
  Settings, State, Sleeper, Reply, answered, raised, Outcome, assertion_error, pace,
  flood_applied_seconds, transient_backoff_seconds,
}
use paperboy.Budget.Clock.{sleep-OnlyClock, pace-OnlyClock}
use paperboy.Budget.Heartbeat.{sleep_with_heartbeat-OnlyClock}
use paperboy.Budget.Call.{
  Next, finish, again, record_flood, handle_flood, handle_disposition, handle_error, after_reply,
  prepare, attempt_once, call_loop, call,
}

-- What handling an error may do: the call ends, or one more flood or transient error is counted,
-- three of each at most. No call is sent or counted.
abbrev Handled : {A : Type 0} → State → ℕ → ℕ → Next A → Type 0
Handled s floods transients (finish o t) =
    (o ≢ assertion_error) × (t.count ≡ s.count) × (t.sent ≡ s.sent)
Handled s floods transients (again f r t) =
    (f + r ≡ floods + transients + 1) × (f ≤ 3) × (r ≤ 3) × (t.count ≡ s.count) × (t.sent ≡ s.sent)

module _ (A : Type 0) (w : Sleeper) (c : Settings) (method : String) where
  handle_flood-Handled :
      (seconds floods transients : ℕ) (s : State)
      → transients ≤ 3
      → Handled s floods transients
          (handle_flood {A = A} w c method seconds (floods + 1) transients s)
  unfolding handle_flood
  handle_flood-Handled seconds floods transients s h = ground (
    arith,
    sleep_with_heartbeat-OnlyClock w (flood_applied_seconds seconds)
        (record_flood method seconds (flood_applied_seconds seconds) s),
  )

  handle_disposition-Handled :
      (exc : RpcError) (d : Option Disposition) (floods transients : ℕ) (s : State)
      → floods ≤ 3
      → Handled s floods transients
          (handle_disposition {A = A} w c method exc d floods transients s)
  unfolding handle_disposition
  handle_disposition-Handled exc (some retry) floods transients s h = ground (
    arith,
    sleep-OnlyClock w (transient_backoff_seconds (transients + 1 - 1) * 1000 * c.pacing_factor) s,
  )
  handle_disposition-Handled exc _ floods transients s h = ground arith

  handle_error-Handled :
      (exc : RpcError) (floods transients : ℕ) (s : State)
      → floods ≤ 3
      → transients ≤ 3
      → Handled s floods transients (handle_error {A = A} w c method exc floods transients s)
  unfolding handle_error
  handle_error-Handled exc floods transients s hf ht = elim (Option-cases (flood_seconds exc)) [
    | inl e ↦
        rw (e, handle_error)
          (handle_disposition-Handled exc (classify exc c.flood_sleep_threshold) floods transients s
            hf)
    | inr (seconds, e) ↦ rw (e, handle_error) (handle_flood-Handled seconds floods transients s ht)
  ]

  after_reply-Handled :
      (reply : Reply A) (floods transients : ℕ) (s : State)
      → floods ≤ 3
      → transients ≤ 3
      → Handled s floods transients (after_reply w c method reply floods transients s)
  unfolding after_reply
  after_reply-Handled (answered a) floods transients s hf ht = ground arith
  after_reply-Handled (raised exc) floods transients s hf ht =
      handle_error-Handled exc floods transients s hf ht

  prepare_counts :
      (attempt : ℕ) (s : State)
      → ((prepare w c method attempt s).count ≡ s.count + 1)
        × (length (prepare w c method attempt s).sent ≡ length s.sent + 1)
  unfolding prepare
  prepare_counts attempt s =
      let k = record s { count = s.count + 1 } in
      ground (
        arith,
        pace-OnlyClock w c method k,
        length-append k.sent (record { method = method; at = k.now } ∷ []),
        length-append k.sent (record { method = method; at = (pace w c method k).now } ∷ []),
      )

  -- What one round may do: it ends the call, having sent one call at most, or it has sent one and
  -- counted one more flood or transient error.
  abbrev Tried : State → ℕ → ℕ → Next A → Type 0
  Tried s floods transients (finish o t) =
      (n : ℕ) × (n ≤ 1)
      × (o ≢ assertion_error)
      × (t.count ≡ s.count + n)
      × (length t.sent ≡ length s.sent + n)
      × (s.count ≤ c.max_rpc_per_run → t.count ≤ c.max_rpc_per_run)
  Tried s floods transients (again f r t) =
      (f + r ≡ floods + transients + 1)
      × (f ≤ 3)
      × (r ≤ 3)
      × (t.count ≡ s.count + 1)
      × (length t.sent ≡ length s.sent + 1)
      × (t.count ≤ c.max_rpc_per_run)

  Tried-of_Handled :
      (s t : State) (floods transients : ℕ) (r : Next A)
      → s.count < c.max_rpc_per_run
      → t.count ≡ s.count + 1
      → length t.sent ≡ length s.sent + 1
      → Handled t floods transients r
      → Tried s floods transients r
  Tried-of_Handled s t floods transients (finish o u) room hc hs h =
      (1, omega arith, h.0, h.1 ∙ hc, ap length h.2 ∙ hs, (λ _. omega (arith, h.1, hc)))
  Tried-of_Handled s t floods transients (again f r u) room hc hs h =
      (h.0, h.1, h.2, h.3 ∙ hc, ap length h.4 ∙ hs, omega (arith, h.3, hc))

  attempt_once-Tried :
      (factory : ℕ → ℕ × Reply A) (attempt floods transients : ℕ) (s : State)
      → floods ≤ 3
      → transients ≤ 3
      → Tried s floods transients (attempt_once w c method factory attempt floods transients s)
  unfolding attempt_once
  attempt_once-Tried factory attempt floods transients s hf ht =
      elim (Bool-cases (leb c.max_rpc_per_run s.count)) [
        | inl full ↦
            rw (full, attempt_once) (0, omega arith, (λ e. cc), omega arith, omega arith, (λ h. h))
        | inr room ↦
            rw (room, attempt_once)
              (let p = prepare w c method attempt s in
                let t : State = record p { now = p.now + (factory attempt).0 } in
                let k = prepare_counts attempt s in
                Tried-of_Handled s t floods transients
                  (after_reply w c method (factory attempt).1 floods transients t) (ground arith)
                  k.0 k.1 (after_reply-Handled (factory attempt).1 floods transients t hf ht))
      ]

  -- What is known of a call that has ended.
  abbrev Ended : ℕ → State → Option (Outcome A × State) → Type 0
  Ended bound s r =
      (o : Outcome A) × (t : State) × (n : ℕ) × (r ≡ some (o, t))
      × (n ≤ bound)
      × (o ≢ assertion_error)
      × (t.count ≡ s.count + n)
      × (length t.sent ≡ length s.sent + n)
      × (s.count ≤ c.max_rpc_per_run → t.count ≤ c.max_rpc_per_run)

  Ended-again :
      (bound : ℕ) (s u : State) (r : Option (Outcome A × State))
      → u.count ≡ s.count + 1
      → length u.sent ≡ length s.sent + 1
      → u.count ≤ c.max_rpc_per_run
      → Ended bound u r
      → Ended (suc bound) s r
  Ended-again bound s u r hc hs cap (o, t, n, e, b, a, k, l, m) =
      (o, t, suc n, e, omega arith, a, omega arith, omega arith, (λ _. m cap))

  call_loop-Ended :
      (fuel : ℕ) (factory : ℕ → ℕ × Reply A) (attempt floods transients : ℕ) (s : State)
      → floods ≤ 3
      → transients ≤ 3
      → 7 ≤ fuel + floods + transients
      → Ended fuel s (call_loop w c method fuel factory attempt floods transients s)
  unfolding call_loop
  call_loop-Ended zero factory attempt floods transients s hf ht enough = absurd (omega arith)
  call_loop-Ended (suc fuel) factory attempt floods transients s hf ht enough =
      by_next (attempt_once w c method factory attempt floods transients s)
        (attempt_once-Tried factory attempt floods transients s hf ht)
        (λ f r u p q k. call_loop-Ended fuel factory (attempt + 1) f r u p q k)
    where
      by_next :
          (r : Next A)
          → Tried s floods transients r
          → ((f r : ℕ) (u : State)
              → f ≤ 3
              → r ≤ 3
              → 7 ≤ fuel + f + r
              → Ended fuel u (call_loop w c method fuel factory (attempt + 1) f r u))
          → Ended (suc fuel) s (elim r [
            | finish o s' ↦ some (o, s')
            | again f t s' ↦ call_loop w c method fuel factory (attempt + 1) f t s'
          ])
      by_next (finish o t) (n, b, a, k, l, m) rest = (o, t, n, refl, omega arith, a, k, l, m)
      by_next (again f r u) h rest =
          Ended-again fuel s u (call_loop w c method fuel factory (attempt + 1) f r u) h.3 h.4 h.5
            (rest f r u h.1 h.2 (omega (arith, h.0)))

  -- Whatever the server answers, a call ends: after `n` attempts, seven at most, each counted
  -- against the cap of the run, which is never passed, and never by the `AssertionError`.
  pub call_ends :
      (factory : ℕ → ℕ × Reply A) (s : State)
      → (o : Outcome A) × (t : State) × (n : ℕ) × (call w c method factory s ≡ some (o, t))
        × (n ≤ 7)
        × (o ≢ assertion_error)
        × (t.count ≡ s.count + n)
        × (length t.sent ≡ length s.sent + n)
        × (s.count ≤ c.max_rpc_per_run → t.count ≤ c.max_rpc_per_run)
  unfolding call
  call_ends factory s = call_loop-Ended 7 factory 1 0 0 s (omega arith) (omega arith) (omega arith)
