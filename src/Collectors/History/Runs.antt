-- ===== src/Collectors/History/Runs.antt =====
-- A run of `collect`: what it leaves saved, and what a finished one has logged.
use paperboy.Base.{
  ℕ, ◌≡◌, ◌≢◌, refl, sym, ◌≤◌, ◌<◌, max, ◌⊎◌, inl, inr, Bool, true, false, not, ◌&&◌, List, arith,
  if◌then◌else◌, In,
}
use mathlib.Core.Path.{subst}
use paperboy.Store.Db.{Db}
use paperboy.Collectors.Observe.{Ctx}
use paperboy.Collectors.History.{loop, settle, after_loop, collect}
use paperboy.Collectors.Sweep.{
  Gateway, Saved, sweep_of, Tally, Locals, Options, get_or, start, Stop, finished, budget_stop,
  exception, exhausted,
}
use paperboy.Collectors.Gaps.{verify}
use paperboy.Collectors.History.Observed.{IsLogged}
use paperboy.Collectors.History.Coverage.{IsServer, IsDue, IsCovered}
use paperboy.Collectors.History.Sweeps.{
  IsSound, IsSaved, IsSteady, IsDone, IsLeft, start-IsSaved, start-IsSteady, loop-IsLeft,
}
use paperboy.Collectors.History.Probing.{verify-stays}

db-start : (db : Db) (saved : Saved) → (start db saved).tally.db ≡ db
unfolding start
db-start db saved = refl

saved_IsSound :
    (c : ℕ) (server : List ℕ) (st : Locals)
    → IsSaved st
    → IsSteady st
    → IsCovered c server st
    → IsSound c server st.tally.db st.saved
saved_IsSound c server st saved steady covered = (
  λ i held due.
      subst (λ db. IsLogged c db i) (sym (db-start st.tally.db st.saved))
        (covered i held (due_before i due)),
  ground (arith, saved, steady),
)
  where
    due_before : (i : ℕ) → IsDue (start st.tally.db st.saved) i → IsDue st i
    due_before i due = ground (arith, saved, due)

-- The committed mark is sound, whatever the probe adds to the log.
settle-IsSound :
    (c : ℕ) (server : List ℕ) (st : Locals) (t : Tally)
    → IsDone c server st
    → ((i : ℕ) → IsLogged c st.tally.db i → IsLogged c t.db i)
    → IsSound c server t.db (settle st).saved
unfolding settle start
settle-IsSound c server st t done stays =
    (λ i held due. stays i (done.1 i held (upto i due)), inl done.0)
  where
    upto :
        (i : ℕ)
        → (((if st.complete && not false then 0 else get_or 0 st.saved.offset_id) ≢ 0)
            × ((if st.complete && not false then 0 else get_or 0 st.saved.offset_id) ≤ i)
            × (i ≤ max st.committed_high st.pending_high))
          ⊎ ((st.complete ≡ true) × (i ≤ max st.committed_high st.pending_high))
        → i ≤ max st.committed_high st.pending_high
    upto i (inl (nonzero, above, h)) = h
    upto i (inr (complete, h)) = h

tally-settle : (st : Locals) → st.tally ≡ (settle st).tally
unfolding settle
tally-settle st = refl

after_loop-IsSound :
    (server : List ℕ) (ctx : Ctx) (g : Gateway) (probe_gaps : Bool) (left : Locals × Stop)
    → IsLeft ctx.channel_id server left
    → IsSound ctx.channel_id server
        (after_loop ctx g probe_gaps left).0.tally.db
        (after_loop ctx g probe_gaps left).0.saved
unfolding after_loop
after_loop-IsSound server ctx g probe_gaps (st, finished) left =
    settle-IsSound ctx.channel_id server st (verify ctx g probe_gaps (settle st).tally).0 left
      (λ i h.
        verify-stays ctx g probe_gaps (settle st).tally i
          (subst (λ t. IsLogged ctx.channel_id t.db i) (tally-settle st) h))
after_loop-IsSound server ctx g probe_gaps (st, budget_stop) left =
    saved_IsSound ctx.channel_id server st left.0 left.1 left.2
after_loop-IsSound server ctx g probe_gaps (st, exception) left =
    saved_IsSound ctx.channel_id server st left.0 left.1 left.2
after_loop-IsSound server ctx g probe_gaps (st, exhausted) left =
    saved_IsSound ctx.channel_id server st left.0 left.1 left.2

-- However a run ends, by a clean finish, a spent page budget or an exception in the middle of a
-- page, the saved state is sound afterwards if it was before: the next run starts with every
-- message of the channel logged, under the channel, that it will not fetch again. The gateway has to
-- serve the history as documented.
pub collect-IsSound :
    (server : List ℕ) (fuel : ℕ) (ctx : Ctx) (g : Gateway) (options : Options) (db : Db)
    (saved : Saved)
    → IsServer server g
    → IsSound ctx.channel_id server db saved
    → IsSound ctx.channel_id server
        (collect fuel ctx g options db saved).0.tally.db
        (collect fuel ctx g options db saved).0.saved
unfolding collect
collect-IsSound server fuel ctx g options db saved laws sound =
    after_loop-IsSound server ctx g options.probe_gaps
      (loop fuel ctx g options.page_budget (start db saved))
      (loop-IsLeft server g ctx options.page_budget fuel (start db saved) laws
        (start-IsSaved db saved) (start-IsSteady db saved sound.1) sound.0)

-- What a finished run promises: the backfill is complete, nothing is in progress, and every
-- message that the channel holds up to the committed mark is logged.
abbrev pub IsComplete : ℕ → List ℕ → Db → Saved → Type 0
IsComplete c server db saved =
    ((sweep_of saved.sweep).backfill_complete ≡ true)
    × ((sweep_of saved.sweep).incremental_in_progress ≡ false)
    × ((i : ℕ) → In i server → i ≤ (sweep_of saved.sweep).max_id_seen → IsLogged c db i)

after_loop-IsComplete :
    (server : List ℕ) (ctx : Ctx) (g : Gateway) (probe_gaps : Bool) (left : Locals × Stop)
    → IsLeft ctx.channel_id server left
    → (after_loop ctx g probe_gaps left).1 ≡ finished
    → IsComplete ctx.channel_id server
        (after_loop ctx g probe_gaps left).0.tally.db
        (after_loop ctx g probe_gaps left).0.saved
unfolding after_loop settle
after_loop-IsComplete server ctx g probe_gaps (st, finished) left e =
    (left.0, refl, λ i held upto. verify-stays ctx g probe_gaps st.tally i (left.1 i held upto))
after_loop-IsComplete server ctx g probe_gaps (st, budget_stop) left e = cc
after_loop-IsComplete server ctx g probe_gaps (st, exception) left e = cc
after_loop-IsComplete server ctx g probe_gaps (st, exhausted) left e = cc

-- A run that finishes from a sound state has logged, under the channel, every message that the
-- channel holds up to the mark that it commits, and leaves no sweep in progress. The gateway has to
-- serve the history as documented.
pub collect-IsComplete :
    (server : List ℕ) (fuel : ℕ) (ctx : Ctx) (g : Gateway) (options : Options) (db : Db)
    (saved : Saved)
    → IsServer server g
    → IsSound ctx.channel_id server db saved
    → (collect fuel ctx g options db saved).1 ≡ finished
    → IsComplete ctx.channel_id server
        (collect fuel ctx g options db saved).0.tally.db
        (collect fuel ctx g options db saved).0.saved
unfolding collect
collect-IsComplete server fuel ctx g options db saved laws sound =
    after_loop-IsComplete server ctx g options.probe_gaps
      (loop fuel ctx g options.page_budget (start db saved))
      (loop-IsLeft server g ctx options.page_budget fuel (start db saved) laws
        (start-IsSaved db saved) (start-IsSteady db saved sound.1) sound.0)

-- New messages get ids above those that the sweep has seen, and messages may vanish: the saved state
-- stays sound for what the channel then holds.
IsSound-grow :
    (c : ℕ) (server server' : List ℕ) (db : Db) (saved : Saved)
    → ((i : ℕ)
        → In i server'
        → In i server
          ⊎ (((start db saved).pending_high < i) × ((start db saved).committed_high < i)))
    → IsSound c server db saved
    → IsSound c server' db saved
IsSound-grow c server server' db saved grows sound = (
  λ i held due. elim (grows i held) [
    | inl before ↦ sound.0 i before due
    | inr new ↦ absurd (not_due i new due)
  ],
  sound.1,
)
  where
    not_due :
        (i : ℕ)
        → ((start db saved).pending_high < i) × ((start db saved).committed_high < i)
        → ¬ IsDue (start db saved) i
    not_due i new due = ground (arith, new, due)
