-- ===== src/Collectors/CatchUp.antt =====
-- collectors/history.py, `HistoryCollector.catch_up`: differences from the saved `pts` on.
pub mod Growth
pub mod Updates
pub mod Applied
pub mod Bounded
use paperboy.Base.{
  ℕ, zero, suc, ◌+◌, Bool, true, false, Option, none, some, List, [], ◌∷◌, length, leb,
  if◌then◌else◌,
}
use paperboy.Base.Text.{Text, codes, text_eq}
use paperboy.Ids.Peer.{lower}
use paperboy.Store.Tables.{update}
use paperboy.Store.Messages.{Msg, mark_deleted}
use paperboy.Store.Db.{Update, edited, deleted, other, Difference, difference, Db, add_raw}
use paperboy.Collectors.Observe.{
  Ctx, Counts, no_counts, Attempt, completed, raised, observe_message,
}
use paperboy.Collectors.Sweep.{Reply, replies, stops, get_or}

-- `gateway.get_channel_difference`, by the `pts` that is asked from.
abbrev pub Differences : Type 0
Differences = ℕ → Reply Difference

-- The local variables, and the `pts` that `sync_state('channel', …)` holds.
pub record Progress : Type 0 where
  pub db : Db
  pub counts : Counts
  pub saved_pts : Option ℕ
  pub pts : ℕ
  pub pages : ℕ

-- `for m in …: self._observe_message(…)`
unfoldable pub observe_each : Ctx → Db × Counts → List Msg → Attempt (Db × Counts)
observe_each ctx s [] = completed s
observe_each ctx s (m ∷ ms) = elim (observe_message ctx s m) [
  | raised r ↦ raised r
  | completed r ↦ observe_each ctx r ms
]

-- One tombstone for each id of a deletion.
unfoldable pub delete_each : Ctx → ℕ → Db × Counts → List ℕ → Db × Counts
delete_each ctx t s [] = s
delete_each ctx t (db, counts) (id ∷ ids) =
    delete_each ctx t
      (
        record db { messages = mark_deleted db.messages ctx.channel_id id update t },
        record counts { tombstones = suc counts.tombstones },
      )
      ids

abbrev pub apply_update : Ctx → ℕ → Db × Counts → Update → Attempt (Db × Counts)
apply_update ctx t s (edited m) = observe_message ctx s m
apply_update ctx t s (deleted ids) = completed (delete_each ctx t s ids)
apply_update ctx t s other = completed s

unfoldable pub apply_updates : Ctx → ℕ → Db × Counts → List Update → Attempt (Db × Counts)
apply_updates ctx t s [] = completed s
apply_updates ctx t s (u ∷ us) = elim (apply_update ctx t s u) [
  | raised r ↦ raised r
  | completed r ↦ apply_updates ctx t r us
]

abbrev pub is_too_long : Difference → Bool
is_too_long d = text_eq (lower d.tag) (codes "channeldifferencetoolong")

-- `diff.get("_", "ChannelDifference")`; a missing tag is the empty one.
abbrev pub difference_kind : Difference → Text
difference_kind d = if text_eq d.tag [] then codes "ChannelDifference" else d.tag

-- How one page ends: with another page, or with the result of the call.
pub data Turn : Type 0 where
  next_page resynced drained stalled out_of_pages failed : Progress → Turn

abbrev pub with_tally : Progress → Db × Counts → Progress
with_tally p (db, counts) = record p { db = db; counts = counts }

-- `isinstance(resynced_pts, int)`
abbrev pub keep_dialog_pts : Option ℕ → Option ℕ → Option ℕ
keep_dialog_pts saved none = saved
keep_dialog_pts saved (some pts) = some pts

-- After the messages of a difference that is too long.
abbrev pub resync : Difference → Progress → Attempt (Db × Counts) → Turn
resync d p (raised r) = failed (with_tally p r)
resync d p (completed (db, counts)) =
    resynced
      (record p { db = db; counts = counts; saved_pts = keep_dialog_pts p.saved_pts d.dialog_pts })

-- After the messages and the updates of a page.
unfoldable pub turn_page : ℕ → Difference → Progress → Turn
turn_page budget d p =
    let new_pts = get_or p.pts d.pts in
    if d.final
    then drained (record p { saved_pts = some new_pts })
    else if leb new_pts p.pts
    then stalled p
    else if leb budget (suc p.pages)
    then out_of_pages (record p { saved_pts = some new_pts; pts = new_pts; pages = suc p.pages })
    else next_page (record p { saved_pts = some new_pts; pts = new_pts; pages = suc p.pages })

abbrev pub after_updates : ℕ → Difference → Progress → Attempt (Db × Counts) → Turn
after_updates budget d p (raised r) = failed (with_tally p r)
after_updates budget d p (completed r) = turn_page budget d (with_tally p r)

abbrev pub after_messages : Ctx → ℕ → ℕ → Difference → Progress → Attempt (Db × Counts) → Turn
after_messages ctx budget t d p (raised r) = failed (with_tally p r)
after_messages ctx budget t d p (completed r) =
    after_updates budget d p (apply_updates ctx t r d.other_updates)

-- The difference is logged whole before anything of it is projected.
abbrev pub apply_difference : Ctx → ℕ → Progress → Difference → Turn
apply_difference ctx budget p d =
    let t = ctx.for_payload (length p.db.raws) (difference d) in
    let db = (add_raw p.db (difference_kind d) (difference d) ctx.tier ctx.channel_id none t).0 in
    if is_too_long d
    then resync d p (observe_each ctx (db, p.counts) d.messages)
    else after_messages ctx budget t d p (observe_each ctx (db, p.counts) d.new_messages)

abbrev pub take_reply : Ctx → ℕ → Progress → Reply Difference → Turn
take_reply ctx budget p stops = failed p
take_reply ctx budget p (replies d) = apply_difference ctx budget p d

unfoldable pub turn : Ctx → Differences → ℕ → Progress → Turn
turn ctx g budget p = take_reply ctx budget p (g p.pts)

-- How the call ends. `unfinished` is no end of the program: the fuel ran out.
pub data CaughtUp : Type 0 where
  clean resync_needed stall page_budget_stop exception unfinished : CaughtUp

unfoldable pub catch_up_loop : ℕ → Ctx → Differences → ℕ → Progress → Progress × CaughtUp
catch_up_loop zero ctx g budget p = (p, unfinished)
catch_up_loop (suc fuel) ctx g budget p = elim (turn ctx g budget p) [
  | next_page q ↦ catch_up_loop fuel ctx g budget q
  | resynced q ↦ (q, resync_needed)
  | drained q ↦ (q, clean)
  | stalled q ↦ (q, stall)
  | out_of_pages q ↦ (q, page_budget_stop)
  | failed q ↦ (q, exception)
]

-- `state.get("pts") or 0`
unfoldable pub begin : Db → Option ℕ → Progress
begin db saved = record {
  db = db;
  counts = no_counts;
  saved_pts = saved;
  pts = get_or 0 saved;
  pages = 0;
}

unfoldable pub catch_up : ℕ → Ctx → Differences → ℕ → Db → Option ℕ → Progress × CaughtUp
catch_up fuel ctx g budget db saved = catch_up_loop fuel ctx g budget (begin db saved)
