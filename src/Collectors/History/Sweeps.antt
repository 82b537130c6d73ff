-- ===== src/Collectors/History/Sweeps.antt =====
-- The saved state between runs: from it the next run misses nothing that the channel holds.
use paperboy.Base.{
  ℕ, zero, suc, ◌≡◌, refl, ◌≤◌, max, ◌⊎◌, inl, inr, Bool, true, false, not, ◌&&◌, Option, List, [],
  ◌∷◌, arith, leb, if◌then◌else◌, In, Bool-cases,
}
use paperboy.Store.Messages.{Msg}
use paperboy.Store.Db.{Db}
use paperboy.Collectors.Observe.{Ctx, Attempt, completed, raised}
use paperboy.Collectors.History.{
  Round, again, swept, out_of_budget, failed, observe_page, least_id, greatest_id, is_reached,
  advance, after_page, walk_page, round, loop,
}
use paperboy.Collectors.Sweep.{
  Gateway, Reply, replies, stops, Saved, Tally, Locals, start, Stop, finished, budget_stop,
  exception,
}
use paperboy.Collectors.History.Observed.{IsLogged}
use paperboy.Collectors.History.Coverage.{
  IsServer, IsDue, IsCovered, IsBelow, locals_after, round-IsCovered, IsMoved, advance-IsMoved,
  In-least_id,
}

-- Before the first sweep is finished there is no high-water mark.
abbrev pub IsFresh : Bool → ℕ → Type 0
IsFresh incremental committed_high = (incremental ≡ true) ⊎ (committed_high ≡ 0)

-- A run that starts from the saved state has every due message in the log.
abbrev pub IsSound : ℕ → List ℕ → Db → Saved → Type 0
IsSound c server db saved =
    IsCovered c server (start db saved)
    × IsFresh (start db saved).incremental (start db saved).committed_high

-- The saved state resumes where the variables are.
abbrev pub IsSaved : Locals → Type 0
IsSaved st =
    ((start st.tally.db st.saved).cursor ≡ st.cursor)
    × ((start st.tally.db st.saved).pending_high ≡ st.pending_high)
    × ((start st.tally.db st.saved).incremental ≡ st.incremental)
    × ((start st.tally.db st.saved).committed_high ≡ st.committed_high)

-- The variables that a sweep does not change.
abbrev pub IsSteady : Locals → Type 0
IsSteady st =
    (st.complete ≡ st.incremental)
    × IsFresh st.incremental st.committed_high
    × ((st.incremental ≡ false) ⊎ (st.stop_at ≡ st.committed_high))

-- A finished sweep has logged all up to the mark that `settle` commits.
abbrev pub IsDone : ℕ → List ℕ → Locals → Type 0
IsDone c server st =
    (st.complete ≡ true)
    × ((i : ℕ) → In i server → i ≤ max st.committed_high st.pending_high → IsLogged c st.tally.db i)

abbrev pub IsGood : ℕ → List ℕ → Round → Type 0
IsGood c server (again st) = IsSaved st × IsSteady st
IsGood c server (swept st) = IsDone c server st
IsGood c server (out_of_budget st) = IsSaved st × IsSteady st
IsGood c server (failed st) = IsSaved st × IsSteady st

pub start-IsSaved : (db : Db) (saved : Saved) → IsSaved (start db saved)
unfolding start
start-IsSaved db saved = (refl, refl, refl, refl)

pub start-IsSteady :
    (db : Db) (saved : Saved)
    → IsFresh (start db saved).incremental (start db saved).committed_high
    → IsSteady (start db saved)
unfolding start
start-IsSteady db saved fresh = (refl, fresh, ground arith)

advance-IsSaved :
    (page_budget : Option ℕ) (st : Locals) (m : Msg) (ms : List Msg)
    → st.complete ≡ st.incremental
    → IsSaved (locals_after (advance page_budget st m ms))
unfolding advance start
advance-IsSaved page_budget st m ms same =
    elim (Bool-cases (st.incremental && leb (least_id m.id ms) st.stop_at)) [
      | inl y ↦ rw y resumes
      | inr n ↦ elim (Bool-cases (is_reached page_budget (suc st.pages))) [
        | inl y ↦ rw (n, y) resumes
        | inr k ↦ rw (n, k) resumes
      ]
    ]
  where
    resumes :
        ((if st.complete && not st.incremental then 0 else least_id m.id ms) ≡ least_id m.id ms)
        × (max st.pending_high (greatest_id m.id ms) ≡ max st.pending_high (greatest_id m.id ms))
        × (st.complete ≡ st.incremental)
        × (st.committed_high ≡ st.committed_high)
    resumes = ground (arith, same)

abbrev is_swept : Round → Bool
is_swept (swept st) = true
is_swept r = false

advance-swept :
    (page_budget : Option ℕ) (st : Locals) (m : Msg) (ms : List Msg)
    → (is_swept (advance page_budget st m ms) ≡ false)
      ⊎ ((st.incremental ≡ true) × (least_id m.id ms ≤ st.stop_at))
unfolding advance
advance-swept page_budget st m ms = ground arith

-- A sweep that has paged back to the high-water mark is done.
advance-IsGood :
    (c : ℕ) (server : List ℕ) (page_budget : Option ℕ) (st : Locals) (m : Msg) (ms : List Msg)
    → IsSteady st
    → 1 ≤ least_id m.id ms
    → IsCovered c server (locals_after (advance page_budget st m ms))
    → IsGood c server (advance page_budget st m ms)
advance-IsGood c server page_budget st m ms steady positive covered =
    go (advance page_budget st m ms) (advance-IsMoved page_budget st m ms)
      (advance-IsSaved page_budget st m ms steady.0) covered (advance-swept page_budget st m ms)
  where
    kept : (st' : Locals) → IsMoved st m ms st' → IsSteady st'
    kept st' moved = ground (arith, moved, steady)

    go :
        (r : Round)
        → IsMoved st m ms (locals_after r)
        → IsSaved (locals_after r)
        → IsCovered c server (locals_after r)
        → (is_swept r ≡ false) ⊎ ((st.incremental ≡ true) × (least_id m.id ms ≤ st.stop_at))
        → IsGood c server r
    go (again st') moved saved k test = (saved, kept st' moved)
    go (out_of_budget st') moved saved k test = (saved, kept st' moved)
    go (failed st') moved saved k test = (saved, kept st' moved)
    go (swept st') moved saved k test = (
      ground (arith, moved, test, steady),
      λ i held upto. k i held (ground (arith, moved, test, steady, positive, upto)),
    )

-- A sweep that runs into the end of the history is done.
end-IsDone :
    (c : ℕ) (server : List ℕ) (g : Gateway) (st : Locals)
    → IsServer server g
    → g.iter_history st.cursor ≡ replies []
    → IsSteady st
    → IsCovered c server st
    → IsDone c server (record st { complete = true })
end-IsDone c server g st laws e steady covered =
    (refl, λ i held upto. reached i held upto (laws.positive i held))
  where
    reached :
        (i : ℕ)
        → In i server
        → i ≤ max st.committed_high st.pending_high
        → 1 ≤ i
        → IsLogged c st.tally.db i
    reached i held upto positive = elim (decide i upto positive) [
      | inl below ↦ elim (laws.skips_none st.cursor [] i e held below) [
        | inl here ↦ absurd here
        | inr past ↦ absurd past
      ]
      | inr due ↦ covered i held due
    ]
      where
        decide :
            (i : ℕ)
            → i ≤ max st.committed_high st.pending_high
            → 1 ≤ i
            → IsBelow st.cursor i ⊎ IsDue st i
        decide i upto positive = ground (arith, steady, upto, positive)

-- Changing the tally alone keeps the place.
after_page-IsGood :
    (c : ℕ) (server : List ℕ) (g : Gateway) (page_budget : Option ℕ) (st : Locals) (m : Msg)
    (ms : List Msg) (r : Attempt Tally)
    → IsSaved st
    → IsSteady st
    → 1 ≤ least_id m.id ms
    → IsCovered c server (locals_after (after_page page_budget st m ms r))
    → IsGood c server (after_page page_budget st m ms r)
unfolding start
after_page-IsGood c server g page_budget st m ms (raised t) saved steady positive covered =
    (saved, steady)
after_page-IsGood c server g page_budget st m ms (completed t) saved steady positive covered =
    advance-IsGood c server page_budget (record st { tally = t }) m ms steady positive covered

walk_page-IsGood :
    (server : List ℕ) (g : Gateway) (ctx : Ctx) (page_budget : Option ℕ) (st : Locals)
    (reply : Reply (List Msg))
    → IsServer server g
    → g.iter_history st.cursor ≡ reply
    → IsSaved st
    → IsSteady st
    → IsCovered ctx.channel_id server st
    → IsCovered ctx.channel_id server (locals_after (walk_page ctx page_budget st reply))
    → IsGood ctx.channel_id server (walk_page ctx page_budget st reply)
walk_page-IsGood server g ctx page_budget st stops laws e saved steady before after =
    (saved, steady)
walk_page-IsGood server g ctx page_budget st (replies []) laws e saved steady before after =
    end-IsDone ctx.channel_id server g st laws e steady before
walk_page-IsGood server g ctx page_budget st (replies (m ∷ ms)) laws e saved steady before after =
    after_page-IsGood ctx.channel_id server g page_budget st m ms
      (observe_page ctx st.tally (m ∷ ms)) saved steady
      (laws.below st.cursor (m ∷ ms) (least_id m.id ms) e (In-least_id m.id ms)).0 after

round-IsGood :
    (server : List ℕ) (g : Gateway) (ctx : Ctx) (page_budget : Option ℕ) (st : Locals)
    → IsServer server g
    → IsSaved st
    → IsSteady st
    → IsCovered ctx.channel_id server st
    → IsGood ctx.channel_id server (round ctx g page_budget st)
unfolding round
round-IsGood server g ctx page_budget st laws saved steady covered =
    walk_page-IsGood server g ctx page_budget st (g.iter_history st.cursor) laws refl saved steady
      covered (round-IsCovered server g ctx page_budget st laws covered)

-- What the loop leaves: a finished sweep is done, any other can be resumed.
abbrev pub IsLeft : ℕ → List ℕ → Locals × Stop → Type 0
IsLeft c server (st, finished) = IsDone c server st
IsLeft c server (st, stop) = IsSaved st × IsSteady st × IsCovered c server st

pub loop-IsLeft :
    (server : List ℕ) (g : Gateway) (ctx : Ctx) (page_budget : Option ℕ) (fuel : ℕ) (st : Locals)
    → IsServer server g
    → IsSaved st
    → IsSteady st
    → IsCovered ctx.channel_id server st
    → IsLeft ctx.channel_id server (loop fuel ctx g page_budget st)
unfolding loop
loop-IsLeft server g ctx page_budget zero st laws saved steady covered = (saved, steady, covered)
loop-IsLeft server g ctx page_budget (suc fuel) st laws saved steady covered =
    (elim (round ctx g page_budget st)
        as (λ r.
          IsGood ctx.channel_id server r
          → IsCovered ctx.channel_id server (locals_after r)
          → IsLeft ctx.channel_id server (elim r [
            | failed st' ↦ (st', exception)
            | out_of_budget st' ↦ (st', budget_stop)
            | swept st' ↦ (st', finished)
            | again st' ↦ loop fuel ctx g page_budget st'
          ])) [
            | failed st' ↦ λ k c. (k.0, k.1, c)
            | out_of_budget st' ↦ λ k c. (k.0, k.1, c)
            | swept st' ↦ λ k c. k
            | again st' ↦ λ k c. loop-IsLeft server g ctx page_budget fuel st' laws k.0 k.1 c
          ])
      (round-IsGood server g ctx page_budget st laws saved steady covered)
      (round-IsCovered server g ctx page_budget st laws covered)
