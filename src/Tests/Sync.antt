-- ===== src/Tests/Sync.antt =====
-- The `sync_ranges` table on small inputs.
use paperboy.Base.{ℕ, ◌≡◌, ◌↔◌, ◌⊎◌, ◌≤◌, refl, List, [], ◌∷◌, arith, In}
use paperboy.Sync.Ranges.{Range, add_range, missing_ids}
use paperboy.Sync.Ranges.Table.{IsTable, Covers}
use paperboy.Sync.Ranges.Coverage.{add_range-IsTable, Covers-add_range}
use paperboy.Sync.Ranges.Gaps.{In-missing_ids}
use paperboy.Sync.Ranges.Progress.{missing_ids-add_range}

-- Channel 7 has two spans, and channel 8 one that would touch them.
abbrev table : List Range
table =
    record { id = 1; channel_id = 7; lo = 1; hi = 5 }
    ∷ record { id = 2; channel_id = 8; lo = 6; hi = 9 }
    ∷ record { id = 3; channel_id = 7; lo = 10; hi = 20 }
    ∷ []

table-IsTable : IsTable table
table-IsTable = ground arith

add_range_bridges :
    add_range table 7 6 9
    ≡ record { id = 2; channel_id = 8; lo = 6; hi = 9 }
      ∷ record { id = 3; channel_id = 7; lo = 1; hi = 20 }
      ∷ []
unfolding add_range
add_range_bridges = refl

missing_ids_run : missing_ids table 7 4 12 ≡ 6 ∷ 7 ∷ 8 ∷ 9 ∷ []
unfolding missing_ids
missing_ids_run = refl

add_range-IsTable_example : IsTable (add_range table 7 6 9)
add_range-IsTable_example = add_range-IsTable table 7 6 9 table-IsTable (omega arith)

Covers-add_range_example :
    Covers (add_range table 7 6 8) 7 8
    ↔ (Covers table 7 8 ⊎ ((◌≡◌ {A = ℕ} 7 7) × (6 ≤ 8) × (8 ≤ 8)))
Covers-add_range_example = Covers-add_range table 7 6 8 table-IsTable 7 8 (omega arith)

In-missing_ids_example : In 8 (missing_ids table 7 4 12) ↔ ((4 ≤ 8) × (8 ≤ 12) × ¬ Covers table 7 8)
In-missing_ids_example = In-missing_ids table 7 4 12 8

missing_ids-add_range_example :
    In 9 (missing_ids (add_range table 7 6 8) 7 4 12)
    ↔ (In 9 (missing_ids table 7 4 12) × ¬ ((6 ≤ 9) × (9 ≤ 8)))
missing_ids-add_range_example = missing_ids-add_range table 7 6 8 4 12 9 table-IsTable (omega arith)
