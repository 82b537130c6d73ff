-- ===== src/Collectors/Sweep.antt =====
-- collectors/history.py, `collect`: what it is given, what it saves, and its local variables.
use paperboy.Base.{
  ℕ, min, max, Bool, false, not, ◌&&◌, Option, none, some, List, [], ◌∷◌, if◌then◌else◌,
}
use paperboy.Store.Messages.{Msg}
use paperboy.Store.Db.{Db}
use paperboy.Collectors.Observe.{Counts, no_counts}

-- What a call of the gateway comes to; `stops` is any exception.
pub data Reply (A : Type 0) : Type 0 where
  replies : A → Reply A
  stops : Reply A

-- gateway.py, for one channel: a page of at most `_HISTORY_PAGE_SIZE` messages below an offset, and
-- messages by their ids. `offset_id=0` is the newest page.
pub record Gateway : Type 0 where
  pub iter_history : ℕ → Reply (List Msg)
  pub get_messages : List ℕ → Reply (List Msg)

-- `sync_state('history_sweep', …)`; an old release has no `pending_high`.
pub record Sweep : Type 0 where
  pub max_id_seen : ℕ
  pub pending_high : Option ℕ
  pub backfill_complete : Bool
  pub incremental_in_progress : Bool

-- The two entries of the channel in `sync_state`: its `offset_id`, and the sweep.
pub record Saved : Type 0 where
  pub offset_id : Option ℕ
  pub sweep : Option Sweep

abbrev pub get_or : ℕ → Option ℕ → ℕ
get_or d none = d
get_or d (some v) = v

-- `get_state(…) or {}`, and the defaults of its keys.
abbrev pub no_sweep : Sweep
no_sweep = record {
  max_id_seen = 0;
  pending_high = none;
  backfill_complete = false;
  incremental_in_progress = false;
}

abbrev pub sweep_of : Option Sweep → Sweep
sweep_of none = no_sweep
sweep_of (some s) = s

-- The arguments of `collect`.
pub record Options : Type 0 where
  pub probe_gaps : Bool
  pub page_budget : Option ℕ

-- What observing messages changes: the store, and the variables that record the observed ids.
pub record Tally : Type 0 where
  pub db : Db
  pub counts : Counts
  pub ids_seen : List ℕ
  pub min_id : Option ℕ
  pub max_id : Option ℕ

-- The local variables. `incremental`, `stop_at` and `committed_high` do not change.
pub record Locals : Type 0 where
  pub tally : Tally
  pub saved : Saved
  pub incremental : Bool
  pub committed_high : ℕ
  pub stop_at : ℕ
  pub complete : Bool
  pub cursor : ℕ
  pub pending_high : ℕ
  pub pages : ℕ

-- The variables before the loop.
unfoldable pub start : Db → Saved → Locals
start db saved =
    let sweep = sweep_of saved.sweep in
    let incremental = sweep.backfill_complete in
    record {
      tally = record { db = db; counts = no_counts; ids_seen = []; min_id = none; max_id = none };
      saved = saved;
      incremental = incremental;
      committed_high = sweep.max_id_seen;
      stop_at = if incremental then sweep.max_id_seen else 0;
      complete = sweep.backfill_complete;
      cursor =
          if incremental && not sweep.incremental_in_progress then 0 else get_or 0 saved.offset_id;
      pending_high = get_or sweep.max_id_seen sweep.pending_high;
      pages = 0;
    }

abbrev pub with_min : Option ℕ → ℕ → Option ℕ
with_min none n = some n
with_min (some m) n = some (min m n)

abbrev pub with_max : Option ℕ → ℕ → Option ℕ
with_max none n = some n
with_max (some m) n = some (max m n)

-- A message of the page was observed.
abbrev pub note_id : Tally → Db × Counts → Msg → Tally
note_id t (db, counts) m = record t {
  db = db;
  counts = counts;
  ids_seen = m.id ∷ t.ids_seen;
  min_id = with_min t.min_id m.id;
  max_id = with_max t.max_id m.id;
}

abbrev pub keep_progress : Tally → Db × Counts → Tally
keep_progress t (db, counts) = record t { db = db; counts = counts }

-- How the loop ends. `exhausted` is no end of the program: the fuel ran out.
pub data Stop : Type 0 where
  finished budget_stop exception exhausted : Stop
