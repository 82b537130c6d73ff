-- ===== src/Tests/Budget.antt =====
-- The gate on small inputs.
use paperboy.Base.{
  ℕ, zero, suc, ◌+◌, ◌*◌, ◌≤◌, ◌≡◌, ◌≢◌, refl, some, List, [], ◌∷◌, ◌++◌, length, arith,
}
use paperboy.Errors.{flood_seconds, classify, flood_wait, connection_error}
use paperboy.Budget.{
  pace, transient_backoff_seconds, Settings, Sent, State, Sleeper, Reply, answered, raised, Outcome,
  value, phase_stopped, assertion_error, flood_applied_seconds, second,
}
use paperboy.Budget.Heartbeat.{sleep_with_heartbeat}
use paperboy.Budget.Call.{call}
use paperboy.Budget.Call.Attempts.{call_ends}
use paperboy.Budget.Call.Pacing.{IsPaced, call-IsPaced}
use paperboy.Budget.Call.Cooldown.{next_call_waits}

-- A sleeper that wakes exactly on time.
on_time_enough : (t d : ℕ) → t + d ≤ t + d
on_time_enough t d = omega arith

abbrev on_time : Sleeper
on_time = record { wake = λ t d. t + d; sleeps_enough = on_time_enough }

abbrev settings : Settings
settings = record {
  max_rpc_per_run = 100;
  flood_sleep_threshold = 60;
  pacing_factor = 1000;
  min_interval = 1000;
  method_intervals = ("contacts.resolveUsername", 5000) ∷ [];
}

abbrev fresh : State
fresh = record { now = 0; count = 0; last_call = []; flood_log = []; sent = [] }

-- A flood of ten seconds, a lost connection, and then an answer.
abbrev bumpy : ℕ → ℕ × Reply ℕ
bumpy zero = (0, raised connection_error)
bumpy (suc zero) = (100, raised (flood_wait 10))
bumpy (suc (suc zero)) = (100, raised connection_error)
bumpy _ = (100, answered 42)

abbrev banned : ℕ → ℕ × Reply ℕ
banned _ = (0, raised (flood_wait 600))

-- The state that `bumpy` leaves: the flood was waited out for 16 seconds, the lost connection for 5.
abbrev after_bumpy : State
after_bumpy = record {
  now = 21000300;
  count = 3;
  last_call = ("m", 21000200) ∷ [];
  flood_log =
      record {
        method = "m";
        until = 16000100;
        seconds = 10;
        applied_seconds = 16;
        recorded_at = 100;
      }
      ∷ [];
  sent =
      record { method = "m"; at = 0 }
      ∷ record { method = "m"; at = 16000100 }
      ∷ record { method = "m"; at = 21000200 }
      ∷ [];
}

call-bumpy : call on_time settings "m" bumpy fresh ≡ some (value 42, after_bumpy)
unfolding call pace flood_seconds flood_applied_seconds sleep_with_heartbeat
    transient_backoff_seconds classify
call-bumpy = refl

abbrev after_ban : State
after_ban = record {
  now = 0;
  count = 1;
  last_call = ("m", 0) ∷ [];
  flood_log =
      record {
        method = "m";
        until = 665000000;
        seconds = 600;
        applied_seconds = 665;
        recorded_at = 0;
      }
      ∷ [];
  sent = record { method = "m"; at = 0 } ∷ [];
}

call-banned : call on_time settings "m" banned fresh ≡ some (phase_stopped, after_ban)
unfolding call pace flood_seconds flood_applied_seconds sleep_with_heartbeat
    transient_backoff_seconds classify
call-banned = refl

call_ends_example :
    (o : Outcome ℕ) × (t : State) × (n : ℕ) × (call on_time settings "m" bumpy fresh ≡ some (o, t))
    × (n ≤ 7)
    × (o ≢ assertion_error)
    × (t.count ≡ 0 + n)
    × (length t.sent ≡ 0 + n)
    × (0 ≤ 100 → t.count ≤ 100)
call_ends_example = call_ends ℕ on_time settings "m" bumpy fresh

call-IsPaced_example : IsPaced settings "m" fresh after_bumpy
call-IsPaced_example =
    call-IsPaced on_time settings "m" bumpy fresh (value 42) after_bumpy tt (omega arith) call-bumpy

abbrev answering : ℕ → ℕ × Reply ℕ
answering _ = (0, answered 1)

abbrev after_wait : State
after_wait = record {
  now = 665000000;
  count = 2;
  last_call = ("m", 665000000) ∷ [];
  flood_log =
      record {
        method = "m";
        until = 665000000;
        seconds = 600;
        applied_seconds = 665;
        recorded_at = 0;
      }
      ∷ [];
  sent = record { method = "m"; at = 0 } ∷ record { method = "m"; at = 665000000 } ∷ [];
}

call-after_ban : call on_time settings "m" answering after_ban ≡ some (value 1, after_wait)
unfolding call pace flood_seconds flood_applied_seconds sleep_with_heartbeat
    transient_backoff_seconds classify
call-after_ban = refl

next_call_waits_example :
    (◌≡◌ {A = Outcome ℕ} phase_stopped phase_stopped)
    × (t : ℕ) × (rest : List Sent) × (after_wait.sent
        ≡ after_ban.sent ++ record { method = "m"; at = t } ∷ rest)
    × (after_ban.now + flood_applied_seconds 600 * second ≤ t)
unfolding flood_applied_seconds
next_call_waits_example =
    next_call_waits on_time settings "m" banned answering 600 fresh after_ban after_wait
      phase_stopped (value 1) tt (omega arith) refl (omega arith) call-banned (omega arith)
      call-after_ban
