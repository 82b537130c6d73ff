-- ===== src/Collectors/Gaps.antt =====
-- collectors/history.py, `_probe_gaps`: the ids that the pages skipped.
use paperboy.Base.{
  ℕ, zero, suc, ◌+◌, ◌==◌, Bool, true, false, not, ◌||◌, Option, none, some, List, [], ◌∷◌, length,
  take, drop, select, if◌then◌else◌,
}
use paperboy.Sync.Ranges.{add_range, id_range}
use paperboy.Store.Messages.{Msg}
use paperboy.Store.Db.{Db}
use paperboy.Collectors.Observe.{Ctx, Counts, Attempt, completed, raised, is_empty, observe_empty}
use paperboy.Collectors.Sweep.{
  replies, stops, Gateway, Tally, keep_progress, Stop, finished, exception,
}

abbrev pub is_member : ℕ → List ℕ → Bool
is_member n [] = false
is_member n (m ∷ ms) = (m == n) || is_member n ms

-- `sorted(set(range(min_id, max_id + 1)) - ids_seen)`
unfoldable pub candidates : ℕ → ℕ → List ℕ → List ℕ
candidates min_id max_id ids_seen =
    select (λ n. not (is_member n ids_seen)) (id_range min_id (max_id + 1))

-- `candidates[start : start + _GET_MESSAGES_CHUNK]` for each start.
abbrev pub chunk_size : ℕ
chunk_size = 200

abbrev pub chunks_within : ℕ → List ℕ → List (List ℕ)
chunks_within zero ids = []
chunks_within (suc fuel) [] = []
chunks_within (suc fuel) (i ∷ ids) =
    take chunk_size (i ∷ ids) ∷ chunks_within fuel (drop chunk_size (i ∷ ids))

unfoldable pub chunks : List ℕ → List (List ℕ)
chunks ids = chunks_within (length ids) ids

-- `for r in results`: only placeholders count.
unfoldable pub judge_results : Ctx → Db × Counts → List Msg → Db × Counts
judge_results ctx state [] = state
judge_results ctx state (r ∷ rs) =
    judge_results ctx (if is_empty r then observe_empty ctx state r else state) rs

unfoldable pub probe_chunks : Ctx → Gateway → Db × Counts → List (List ℕ) → Attempt (Db × Counts)
probe_chunks ctx g state [] = completed state
probe_chunks ctx g state (chunk ∷ rest) = elim (g.get_messages chunk) [
  | stops ↦ raised state
  | replies results ↦ probe_chunks ctx g (judge_results ctx state results) rest
]

-- `_probe_gaps`, and the range that it verifies.
abbrev pub probed : Ctx → Tally → ℕ → ℕ → Attempt (Db × Counts) → Tally × Stop
probed ctx t lo hi (raised r) = (keep_progress t r, exception)
probed ctx t lo hi (completed (db, counts)) = (
  record t {
    db = record db { ranges = add_range db.ranges ctx.channel_id lo hi };
    counts = counts;
  },
  finished,
)

unfoldable pub probe : Ctx → Gateway → Tally → ℕ → ℕ → Tally × Stop
probe ctx g t lo hi =
    probed ctx t lo hi (probe_chunks ctx g (t.db, t.counts) (chunks (candidates lo hi t.ids_seen)))

-- `if probe_gaps and min_id is not None and max_id is not None`
abbrev pub verify_span : Ctx → Gateway → Tally → Option ℕ → Option ℕ → Tally × Stop
verify_span ctx g t (some lo) (some hi) = probe ctx g t lo hi
verify_span ctx g t (some lo) none = (t, finished)
verify_span ctx g t none hi = (t, finished)

unfoldable pub verify : Ctx → Gateway → Bool → Tally → Tally × Stop
verify ctx g false t = (t, finished)
verify ctx g true t = verify_span ctx g t t.min_id t.max_id
