-- ===== src/Collectors/History.antt =====
-- collectors/history.py, `HistoryCollector.collect`: from the newest message to the oldest, resumable.
pub mod Observed
pub mod Coverage
pub mod Sweeps
pub mod Runs
pub mod Ends
pub mod Probing
pub mod Asked
use paperboy.Base.{
  ℕ, zero, suc, ◌+◌, ◌-◌, ◌==◌, min, max, Bool, true, false, not, ◌&&◌, ◌||◌, Option, none, some,
  List, [], ◌∷◌, ◌++◌, length, take, drop, select, map, leb, if◌then◌else◌,
}
use paperboy.Base.Text.{Text}
use paperboy.Sync.Ranges.{add_range, id_range}
use paperboy.Store.Messages.{Msg}
use paperboy.Store.Db.{Db}
use paperboy.Collectors.Observe.{
  Ctx, Counts, no_counts, Attempt, completed, raised, is_empty, observe_empty, observe_message,
}
use paperboy.Collectors.Sweep.{
  Reply, replies, stops, Gateway, Sweep, Saved, get_or, no_sweep, sweep_of, Options, Tally, Locals,
  start, with_min, with_max, note_id, keep_progress, Stop, finished, budget_stop, exception,
  exhausted,
}
use paperboy.Collectors.Gaps.{
  is_member, candidates, chunk_size, chunks_within, chunks, judge_results, probe_chunks, probed,
  probe, verify_span, verify,
}

-- `for m in page`
unfoldable pub observe_page : Ctx → Tally → List Msg → Attempt Tally
observe_page ctx t [] = completed t
observe_page ctx t (m ∷ ms) = elim (observe_message ctx (t.db, t.counts) m) [
  | raised r ↦ raised (keep_progress t r)
  | completed r ↦ observe_page ctx (note_id t r m) ms
]

-- The least and the greatest id of a page that is not empty.
abbrev pub least_id : ℕ → List Msg → ℕ
least_id n [] = n
least_id n (m ∷ ms) = least_id (min n m.id) ms

abbrev pub greatest_id : ℕ → List Msg → ℕ
greatest_id n [] = n
greatest_id n (m ∷ ms) = greatest_id (max n m.id) ms

-- How one round of `while True` ends.
pub data Round : Type 0 where
  again swept out_of_budget failed : Locals → Round

abbrev pub is_reached : Option ℕ → ℕ → Bool
is_reached none pages = false
is_reached (some budget) pages = leb budget pages

-- What follows the observation of a page: the cursor is saved, then the two tests.
unfoldable pub advance : Option ℕ → Locals → Msg → List Msg → Round
advance page_budget st m ms =
    let cursor = least_id m.id ms in
    let pending_high = max st.pending_high (greatest_id m.id ms) in
    let moved = record st {
      cursor = cursor;
      pending_high = pending_high;
      saved = record {
        offset_id = some cursor;
        sweep = some (record {
          max_id_seen = st.committed_high;
          pending_high = some pending_high;
          backfill_complete = st.complete;
          incremental_in_progress = st.incremental;
        });
      };
    } in
    let counted = record moved { pages = suc moved.pages } in
    if st.incremental && leb cursor st.stop_at
    then swept moved
    else if is_reached page_budget counted.pages
    then out_of_budget counted
    else again counted

abbrev pub after_page : Option ℕ → Locals → Msg → List Msg → Attempt Tally → Round
after_page page_budget st m ms (raised t) = failed (record st { tally = t })
after_page page_budget st m ms (completed t) = advance page_budget (record st { tally = t }) m ms

abbrev pub walk_page : Ctx → Option ℕ → Locals → Reply (List Msg) → Round
walk_page ctx page_budget st stops = failed st
walk_page ctx page_budget st (replies []) = swept (record st { complete = true })
walk_page ctx page_budget st (replies (m ∷ ms)) =
    after_page page_budget st m ms (observe_page ctx st.tally (m ∷ ms))

unfoldable pub round : Ctx → Gateway → Option ℕ → Locals → Round
round ctx g page_budget st = walk_page ctx page_budget st (g.iter_history st.cursor)

unfoldable pub loop : ℕ → Ctx → Gateway → Option ℕ → Locals → Locals × Stop
loop zero ctx g page_budget st = (st, exhausted)
loop (suc fuel) ctx g page_budget st = elim (round ctx g page_budget st) [
  | failed st' ↦ (st', exception)
  | out_of_budget st' ↦ (st', budget_stop)
  | swept st' ↦ (st', finished)
  | again st' ↦ loop fuel ctx g page_budget st'
]

-- The commit of a clean finish.
unfoldable pub settle : Locals → Locals
settle st =
    let settled = max st.committed_high st.pending_high in
    record st {
      saved = record {
        offset_id = st.saved.offset_id;
        sweep = some (record {
          max_id_seen = settled;
          pending_high = some settled;
          backfill_complete = st.complete;
          incremental_in_progress = false;
        });
      };
    }

-- The commit and the probe run only after a clean end of the loop.
unfoldable pub after_loop : Ctx → Gateway → Bool → Locals × Stop → Locals × Stop
after_loop ctx g probe_gaps (st, finished) =
    let settled = settle st in
    let (t, stop) = verify ctx g probe_gaps settled.tally in (record settled { tally = t }, stop)
after_loop ctx g probe_gaps (st, stop) = (st, stop)

unfoldable pub collect : ℕ → Ctx → Gateway → Options → Db → Saved → Locals × Stop
collect fuel ctx g options db saved =
    after_loop ctx g options.probe_gaps (loop fuel ctx g options.page_budget (start db saved))
