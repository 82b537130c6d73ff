-- ===== src/Budget/Call/Pacing.antt =====
-- The gate never calls a method before its interval and its cooldowns have passed.
use Prim.Native.String.{String}
use text.Mathlib.Text.{◌==◌ as str_eq}
use text.Mathlib.TextEquality.{eq_iff}
use mathlib.Core.Path.{subst}
use mathlib.Core.List.{append_assoc, append-nil}
use paperboy.Base.{
  ◌∙◌, ap, ℕ, ◌+◌, ◌*◌, ◌≤◌, ◌<◌, ◌≡◌, refl, sym, inl, inr, some, List, [], ◌∷◌, ◌++◌, All,
  All-append, All-map_at, arith, Bool-cases,
}
use paperboy.Base.Dict.{lookup, lookup-insert}
use paperboy.Budget.{
  second, Settings, Flood, Sent, State, Sleeper, Reply, Outcome, effective_interval, pace,
}
use paperboy.Budget.Clock.{pace_waits, pace_cools, until-le-latest_until, pace-OnlyClock}
use paperboy.Budget.Call.{record_flood, stamp, prepare, call}
use paperboy.Budget.Call.Keeps.{counted, send, IsKept, AtEnd, call-AtEnd_sent, prepare_keeps}

-- A call that was made has its method stamped, at its own time or later, and not in the future.
abbrev pub IsStampedCall : State → Sent → Type 0
IsStampedCall s e = (t : ℕ) × (lookup e.method s.last_call ≡ some t) × (e.at ≤ t) × (t ≤ s.now)

abbrev pub IsStamped : State → Type 0
IsStamped s = All (IsStampedCall s) s.sent

-- The clock and the two logs of the later state go on from those of the earlier one.
pub record Later (s t : State) : Type 0 where
  pub now : s.now ≤ t.now
  pub new_sent : List Sent
  pub sent : t.sent ≡ s.sent ++ new_sent
  pub new_floods : List Flood
  pub flood_log : t.flood_log ≡ s.flood_log ++ new_floods

stamp-IsStampedCall :
    (method : String) (s : State) (e : Sent) → IsStampedCall s e → IsStampedCall (stamp method s) e
stamp-IsStampedCall method s e (t, found, le, past) = elim (Bool-cases (str_eq method e.method)) [
  | inl same ↦ (s.now, rw (lookup-insert, same), omega arith, omega arith)
  | inr other ↦ (t, rw (lookup-insert, other) found, le, past)
]

IsStamped-IsKept : (method : String) → IsKept method IsStamped
unfolding record_flood
IsStamped-IsKept method = record {
  clock = λ s t only h. rw only.sent (
      All-map_at s.sent h
        (λ e (k, found, le, past). (k, rw only.last_call found, le, omega (arith, only.now))));
  flood = λ seconds applied s h. All-map_at s.sent h (λ e k. k);
  stamped = λ s h. All-map_at s.sent h (λ e k. stamp-IsStampedCall method s e k);
  counts = λ s h. All-map_at s.sent h (λ e k. k);
  sends = λ s h.
      All-append (IsStampedCall (send method s)) s.sent
        (record { method = method; at = s.now } ∷ [])
        (All-map_at s.sent h (λ e k. stamp-IsStampedCall method s e k))
        (
          (s.now, rw lookup-insert (rw ((eq_iff method method).1 refl)), omega arith, omega arith),
          tt,
        );
}

Later-IsKept : (method : String) (s : State) → IsKept method (Later s)
unfolding record_flood
Later-IsKept method s = record {
  clock = λ t u only h. record {
    now = omega (arith, only.now, h.now);
    new_sent = h.new_sent;
    sent = only.sent ∙ h.sent;
    new_floods = h.new_floods;
    flood_log = only.flood_log ∙ h.flood_log;
  };
  flood = λ seconds applied t h. record {
    now = h.now;
    new_sent = h.new_sent;
    sent = h.sent;
    new_floods = h.new_floods ++ flood_row t seconds applied ∷ [];
    flood_log =
        ap (λ l. l ++ flood_row t seconds applied ∷ []) h.flood_log
        ∙ append_assoc s.flood_log h.new_floods (flood_row t seconds applied ∷ []);
  };
  stamped = λ t h. record {
    now = h.now;
    new_sent = h.new_sent;
    sent = h.sent;
    new_floods = h.new_floods;
    flood_log = h.flood_log;
  };
  counts = λ t h. record {
    now = h.now;
    new_sent = h.new_sent;
    sent = h.sent;
    new_floods = h.new_floods;
    flood_log = h.flood_log;
  };
  sends = λ t h. record {
    now = h.now;
    new_sent = h.new_sent ++ record { method = method; at = t.now } ∷ [];
    sent =
        ap (λ l. l ++ record { method = method; at = t.now } ∷ []) h.sent
        ∙ append_assoc s.sent h.new_sent (record { method = method; at = t.now } ∷ []);
    new_floods = h.new_floods;
    flood_log = h.flood_log;
  };
}
  where
    flood_row : State → ℕ → ℕ → Flood
    flood_row t seconds applied = record {
      method = method;
      until = t.now + applied * second;
      seconds = seconds;
      applied_seconds = applied;
      recorded_at = t.now;
    }

Later-refl : (s : State) → Later s s
Later-refl s = record {
  now = omega arith;
  new_sent = [];
  sent = sym (append-nil s.sent);
  new_floods = [];
  flood_log = sym (append-nil s.flood_log);
}

-- The calls of a later state are the earlier ones, one to the method at a time `t` that respects its
-- interval and its cooldowns, and what that call sent after it.
abbrev pub IsPaced : Settings → String → State → State → Type 0
IsPaced c method s u =
    (t : ℕ) × (rest : List Sent) × (u.sent ≡ s.sent ++ record { method = method; at = t } ∷ rest)
    × All (λ e. e.method ≡ method → e.at + effective_interval c method ≤ t) s.sent
    × All (λ f. f.method ≡ method → f.until ≤ t) s.flood_log
    × IsStamped u

module _ {A : Type 0} (w : Sleeper) (c : Settings) (method : String) (factory : ℕ → ℕ × Reply A)
    (s : State) where
  abbrev first_at : ℕ
  first_at = (pace w c method (counted s)).now

  first_at_interval :
      IsStamped s
      → All (λ e. e.method ≡ method → e.at + effective_interval c method ≤ first_at) s.sent
  first_at_interval h = All-map_at s.sent h (λ e (t, found, le, _) same. omega (
    arith,
    pace_waits w c method (counted s) t (subst (λ m. lookup m s.last_call ≡ some t) same found),
  ))

  first_at_cooldown : All (λ f. f.method ≡ method → f.until ≤ first_at) s.flood_log
  first_at_cooldown =
      All-map_at s.flood_log (until-le-latest_until method s.flood_log)
        (λ f h same. omega (arith, h same, pace_cools w c method (counted s)))

  IsPaced-of_Later :
      IsStamped s
      → (u : State) → Later (prepare w c method 1 s) u
      → IsStamped u
      → IsPaced c method s u
  unfolding prepare
  IsPaced-of_Later h u later stamped = (
    first_at,
    later.new_sent,
    later.sent
        ∙ ap (λ l. (l ++ record { method = method; at = first_at } ∷ []) ++ later.new_sent)
            (pace-OnlyClock w c method (counted s)).sent
        ∙ append_assoc s.sent (record { method = method; at = first_at } ∷ []) later.new_sent,
    first_at_interval h,
    first_at_cooldown,
    stamped,
  )

  both-IsKept : IsKept method (λ u. Later (prepare w c method 1 s) u × IsStamped u)
  both-IsKept =
      let l = Later-IsKept method (prepare w c method 1 s) in
      let k = IsStamped-IsKept method in
      record {
        clock = λ t u only h. (l.clock t u only h.0, k.clock t u only h.1);
        flood =
            λ seconds applied t h. (l.flood seconds applied t h.0, k.flood seconds applied t h.1);
        stamped = λ t h. (l.stamped t h.0, k.stamped t h.1);
        counts = λ t h. (l.counts t h.0, k.counts t h.1);
        sends = λ t h. (l.sends t h.0, k.sends t h.1);
      }

  -- Below the cap, from a state whose calls are stamped: a call of the gate reaches the server, for
  -- the first time no sooner than the method's interval after every earlier call of that method and
  -- no sooner than the end of every cooldown recorded for it; and the state stays stamped.
  pub call-IsPaced :
      (o : Outcome A) (u : State)
      → IsStamped s
      → s.count < c.max_rpc_per_run
      → call w c method factory s ≡ some (o, u)
      → IsPaced c method s u
  call-IsPaced o u h room e =
      let k : Later (prepare w c method 1 s) u × IsStamped u =
        subst (AtEnd A w c method both both-IsKept) e (
          call-AtEnd_sent A w c method both both-IsKept factory s room (
            Later-refl (prepare w c method 1 s),
            prepare_keeps A w c method IsStamped (IsStamped-IsKept method) 1 s h,
          )) in
      IsPaced-of_Later h u k.0 k.1
    where
      both : State → Type 0
      both v = Later (prepare w c method 1 s) v × IsStamped v
