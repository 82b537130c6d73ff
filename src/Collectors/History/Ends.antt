-- ===== src/Collectors/History/Ends.antt =====
-- The sweep ends: every page moves the cursor down, and there is nothing below id 1.
use paperboy.Base.{
  ℕ, zero, suc, ◌≡◌, ◌≢◌, refl, ◌≤◌, ◌<◌, ◌⊎◌, inr, Bool, true, false, Option, none, some, List, [],
  ◌∷◌, map, arith, In,
}
use paperboy.Store.Messages.{Msg}
use paperboy.Store.Db.{Db}
use paperboy.Collectors.Observe.{Ctx, Counts, Attempt, completed, raised}
use paperboy.Collectors.History.{
  Round, again, swept, out_of_budget, failed, observe_page, least_id, advance, after_page,
  walk_page, round, loop, after_loop, settle, collect,
}
use paperboy.Collectors.Sweep.{
  Gateway, Reply, replies, stops, Saved, Options, Tally, Locals, start, Stop, finished, budget_stop,
  exception, exhausted,
}
use paperboy.Collectors.Gaps.{verify, verify_span, probe, probed, probe_chunks, chunks, candidates}
use paperboy.Collectors.History.Coverage.{
  IsServer, IsBelow, IsMoved, locals_after, advance-IsMoved, In-least_id,
}

-- The ids that the gateway answers are at most `top`.
abbrev pub IsBounded : ℕ → Gateway → Type 0
IsBounded top g =
    (offset : ℕ) (page : List Msg) (i : ℕ)
    → g.iter_history offset ≡ replies page
    → In i (map (λ m. m.id) page)
    → i ≤ top

-- A round that goes on has a lower cursor than the one before, but not 0.
abbrev IsLower : ℕ → ℕ → Round → Type 0
IsLower top cursor (again st) = (1 ≤ st.cursor) × (st.cursor ≤ top) × IsBelow cursor st.cursor
IsLower top cursor r = Unit

advance-IsLower :
    (top cursor : ℕ) (page_budget : Option ℕ) (st : Locals) (m : Msg) (ms : List Msg)
    → (1 ≤ least_id m.id ms) × (least_id m.id ms ≤ top) × IsBelow cursor (least_id m.id ms)
    → IsLower top cursor (advance page_budget st m ms)
advance-IsLower top cursor page_budget st m ms h =
    go (advance page_budget st m ms) (advance-IsMoved page_budget st m ms)
  where
    go : (r : Round) → IsMoved st m ms (locals_after r) → IsLower top cursor r
    go (again st') moved = ground (arith, h, moved)
    go (swept st') moved = tt
    go (out_of_budget st') moved = tt
    go (failed st') moved = tt

walk_page-IsLower :
    (server : List ℕ) (top : ℕ) (g : Gateway) (ctx : Ctx) (page_budget : Option ℕ) (st : Locals)
    (reply : Reply (List Msg))
    → IsServer server g
    → IsBounded top g
    → g.iter_history st.cursor ≡ reply
    → IsLower top st.cursor (walk_page ctx page_budget st reply)
walk_page-IsLower server top g ctx page_budget st stops laws bounded e = tt
walk_page-IsLower server top g ctx page_budget st (replies []) laws bounded e = tt
walk_page-IsLower server top g ctx page_budget st (replies (m ∷ ms)) laws bounded e =
    go (observe_page ctx st.tally (m ∷ ms))
  where
    go : (r : Attempt Tally) → IsLower top st.cursor (after_page page_budget st m ms r)
    go (raised t) = tt
    go (completed t) =
        advance-IsLower top st.cursor page_budget (record st { tally = t }) m ms
          (
            (laws.below st.cursor (m ∷ ms) (least_id m.id ms) e (In-least_id m.id ms)).0,
            bounded st.cursor (m ∷ ms) (least_id m.id ms) e (In-least_id m.id ms),
            (laws.below st.cursor (m ∷ ms) (least_id m.id ms) e (In-least_id m.id ms)).1,
          )

-- The fuel was enough.
abbrev IsEnded : Locals × Stop → Type 0
IsEnded (st, stop) = stop ≢ exhausted

-- Fuel for the rounds that are left: one for each id below the cursor.
abbrev IsEnough : ℕ → ℕ → ℕ → Type 0
IsEnough top cursor fuel = ((1 ≤ cursor) × (cursor ≤ fuel)) ⊎ (top < fuel)

loop-Ends :
    (server : List ℕ) (top : ℕ) (g : Gateway) (ctx : Ctx) (page_budget : Option ℕ) (fuel : ℕ)
    (st : Locals)
    → IsServer server g
    → IsBounded top g
    → IsEnough top st.cursor fuel
    → IsEnded (loop fuel ctx g page_budget st)
unfolding loop round
loop-Ends server top g ctx page_budget zero st laws bounded enough = ground (arith, enough)
loop-Ends server top g ctx page_budget (suc fuel) st laws bounded enough =
    (elim (round ctx g page_budget st)
        as (λ r.
          IsLower top st.cursor r
          → IsEnded (elim r [
            | failed st' ↦ (st', exception)
            | out_of_budget st' ↦ (st', budget_stop)
            | swept st' ↦ (st', finished)
            | again st' ↦ loop fuel ctx g page_budget st'
          ])) [
            | failed st' ↦ λ l e. cc
            | out_of_budget st' ↦ λ l e. cc
            | swept st' ↦ λ l e. cc
            | again st' ↦
                λ l. loop-Ends server top g ctx page_budget fuel st' laws bounded (left st' l)
          ])
      (walk_page-IsLower server top g ctx page_budget st (g.iter_history st.cursor) laws bounded
        refl)
  where
    left :
        (st' : Locals)
        → (1 ≤ st'.cursor) × (st'.cursor ≤ top) × IsBelow st.cursor st'.cursor
        → IsEnough top st'.cursor fuel
    left st' l = ground (arith, l, enough)

verify-Ends :
    (ctx : Ctx) (g : Gateway) (probe_gaps : Bool) (t : Tally)
    → (verify ctx g probe_gaps t).1 ≢ exhausted
unfolding verify probe
verify-Ends ctx g false t = λ e. cc
verify-Ends ctx g true t = go t.min_id t.max_id
  where
    go : (lo hi : Option ℕ) → (verify_span ctx g t lo hi).1 ≢ exhausted
    go none hi = λ e. cc
    go (some lo) none = λ e. cc
    go (some lo) (some hi) =
        ended (probe_chunks ctx g (t.db, t.counts) (chunks (candidates lo hi t.ids_seen)))
      where
        ended : (r : Attempt (Db × Counts)) → (probed ctx t lo hi r).1 ≢ exhausted
        ended (raised r) e = cc
        ended (completed r) e = cc

after_loop-Ends :
    (ctx : Ctx) (g : Gateway) (probe_gaps : Bool) (left : Locals × Stop)
    → IsEnded left
    → IsEnded (after_loop ctx g probe_gaps left)
unfolding after_loop
after_loop-Ends ctx g probe_gaps (st, finished) h = verify-Ends ctx g probe_gaps (settle st).tally
after_loop-Ends ctx g probe_gaps (st, budget_stop) h = h
after_loop-Ends ctx g probe_gaps (st, exception) h = h
after_loop-Ends ctx g probe_gaps (st, exhausted) h = h

-- A run ends, from any saved state, with any page budget or none: more fuel than the highest id
-- that the gateway answers is never used up.
pub collect-Ends :
    (server : List ℕ) (top fuel : ℕ) (ctx : Ctx) (g : Gateway) (options : Options) (db : Db)
    (saved : Saved)
    → IsServer server g
    → IsBounded top g
    → top < fuel
    → (collect fuel ctx g options db saved).1 ≢ exhausted
unfolding collect
collect-Ends server top fuel ctx g options db saved laws bounded enough =
    after_loop-Ends ctx g options.probe_gaps (loop fuel ctx g options.page_budget (start db saved))
      (loop-Ends server top g ctx options.page_budget fuel (start db saved) laws bounded
        (inr enough))
