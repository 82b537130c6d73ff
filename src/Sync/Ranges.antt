-- ===== src/Sync/Ranges.antt =====
-- store/sync.py, `add_range` and `missing_ids`, over the whole `sync_ranges` table
-- (store/migrations/0001_init.sql). Ids are natural numbers.
pub mod Order
pub mod Merge
pub mod Table
pub mod Coverage
pub mod Gaps
pub mod Progress
use paperboy.Base.{
  ℕ, zero, suc, ◌+◌, ◌-◌, min, max, Bool, true, false, ◌&&◌, not, List, [], ◌∷◌, ◌++◌, ltb, leb,
  ◌==◌, if◌then◌else◌, select,
}

-- A row of `sync_ranges`.
pub record Range : Type 0 where
  pub id : ℕ
  pub channel_id : ℕ
  pub lo : ℕ
  pub hi : ℕ

-- `WHERE channel_id=?`
pub of_channel : ℕ → List Range → List Range
of_channel c rows = select (λ r. r.channel_id == c) rows

-- `ORDER BY lo`, as an insertion sort: rows with equal `lo` stay in table order.
pub insert_by_lo : Range → List Range → List Range
insert_by_lo r [] = r ∷ []
insert_by_lo r (s ∷ rows) = if leb r.lo s.lo then r ∷ s ∷ rows else s ∷ insert_by_lo r rows

pub order_by_lo : List Range → List Range
unfolding insert_by_lo
order_by_lo [] = []
order_by_lo (r ∷ rows) = insert_by_lo r (order_by_lo rows)

-- `merged_lo`, `merged_hi` and `to_delete` of the loop of `add_range`.
pub record Merged : Type 0 where
  pub lo : ℕ
  pub hi : ℕ
  pub to_delete : List ℕ

-- The test of the loop: overlap, or adjacency.
abbrev pub touches : Range → Merged → Bool
touches r m = leb r.lo (m.hi + 1) && leb (m.lo - 1) r.hi

abbrev pub join : Range → Merged → Merged
join r m = record { lo = min m.lo r.lo; hi = max m.hi r.hi; to_delete = m.to_delete ++ r.id ∷ [] }

pub merge_rows : Merged → List Range → Merged
merge_rows m [] = m
merge_rows m (r ∷ rows) = merge_rows (if touches r m then join r m else m) rows

pub has_id : ℕ → List ℕ → Bool
has_id i [] = false
has_id i (j ∷ ids) = if i == j then true else has_id i ids

-- The key that SQLite gives a new row: one more than the largest.
pub next_id : List Range → ℕ
next_id [] = 1
next_id (r ∷ rows) = max (r.id + 1) (next_id rows)

pub delete_ids : List ℕ → List Range → List Range
unfolding has_id
delete_ids ids rows = select (λ r. not (has_id r.id ids)) rows

-- The `INSERT` goes at the end of the table.
pub insert_range : List Range → ℕ → ℕ → ℕ → List Range
unfolding next_id
insert_range rows c lo hi =
    rows ++ record { id = next_id rows; channel_id = c; lo = lo; hi = hi } ∷ []

abbrev pub merged_with : List Range → ℕ → ℕ → ℕ → Merged
merged_with rows c lo hi =
    merge_rows (record { lo = lo; hi = hi; to_delete = [] }) (order_by_lo (of_channel c rows))

unfoldable pub add_range : List Range → ℕ → ℕ → ℕ → List Range
unfolding merge_rows order_by_lo of_channel delete_ids insert_range
add_range rows c lo hi =
    let m = merged_with rows c lo hi in insert_range (delete_ids m.to_delete rows) c m.lo m.hi

-- Python's `range(lo, lo + n)`.
unfoldable pub ids_from : ℕ → ℕ → List ℕ
ids_from lo zero = []
ids_from lo (suc n) = lo ∷ ids_from (lo + 1) n

-- Python's `range(lo, hi)`.
abbrev pub id_range : ℕ → ℕ → List ℕ
id_range lo hi = ids_from lo (hi - lo)

-- The loop of `missing_ids` and what follows it, from a cursor on.
pub scan_gaps : ℕ → ℕ → ℕ → List Range → List ℕ
unfolding ids_from
scan_gaps lo hi cursor [] = if leb cursor hi then id_range cursor (hi + 1) else []
scan_gaps lo hi cursor (r ∷ rows) =
    (if ltb cursor (max r.lo lo) then id_range cursor (max r.lo lo) else [])
    ++ scan_gaps lo hi (max cursor (min r.hi hi + 1)) rows

unfoldable pub missing_ids : List Range → ℕ → ℕ → ℕ → List ℕ
unfolding scan_gaps order_by_lo
missing_ids rows c lo hi =
    scan_gaps lo hi lo
      (order_by_lo (select (λ r. (r.channel_id == c) && (leb lo r.hi && leb r.lo hi)) rows))
