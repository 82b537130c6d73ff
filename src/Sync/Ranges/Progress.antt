-- ===== src/Sync/Ranges/Progress.antt =====
-- `missing_ids` and `add_range` together: what is walked is never asked for again.
use paperboy.Base.{
  ℕ, zero, suc, ◌+◌, ◌-◌, min, max, ◌≤◌, ◌<◌, ◌≡◌, ◌↔◌, refl, ◌⊎◌, inl, inr, Bool, true, false,
  ◌&&◌, List, [], ◌∷◌, ◌++◌, arith, ltb, leb, ◌==◌, if◌then◌else◌, select, All, All-at, All-of_In,
  All-append, All-map_at, In, In-select,
}
use paperboy.Sync.Ranges.{Range, order_by_lo, ids_from, id_range, scan_gaps, missing_ids, add_range}
use paperboy.Sync.Ranges.Order.{In-order_by_lo, IsSortedByLo, order_by_lo-IsSortedByLo}
use paperboy.Sync.Ranges.Table.{IsTable, IsTable-wf, Covers}
use paperboy.Sync.Ranges.Coverage.{Covers-add_range}
use paperboy.Sync.Ranges.Gaps.{In-missing_ids, In-ids_from, In-scan_gaps_sound}

-- Each number is below all that follow it.
abbrev pub IsAscending : List ℕ → Type 0
IsAscending [] = Unit
IsAscending (x ∷ xs) = All (λ y. x < y) xs × IsAscending xs

append-IsAscending :
    (xs ys : List ℕ)
    → IsAscending xs
    → IsAscending ys
    → All (λ x. All (λ y. x < y) ys) xs
    → IsAscending (xs ++ ys)
append-IsAscending [] ys hx hy b = hy
append-IsAscending (x ∷ xs) ys hx hy b =
    (All-append (λ y. x < y) xs ys hx.0 b.0, append-IsAscending xs ys hx.1 hy b.1)

ids_from-IsAscending : (lo n : ℕ) → IsAscending (ids_from lo n)
unfolding ids_from
ids_from-IsAscending lo zero = tt
ids_from-IsAscending lo (suc n) = (
  All-of_In (λ y. lo < y) (ids_from (lo + 1) n)
      (λ y m. omega (arith, (In-ids_from y (lo + 1) n).0 m)),
  ids_from-IsAscending (lo + 1) n,
)

id_range_if : (b : Bool) (lo hi : ℕ) → IsAscending (if b then id_range lo hi else [])
id_range_if true lo hi = ids_from-IsAscending lo (hi - lo)
id_range_if false lo hi = tt

In-id_range_if :
    (b : Bool) (x lo hi : ℕ)
    → In x (if b then id_range lo hi else [])
    → (lo ≤ x) × (x < lo + (hi - lo))
In-id_range_if true x lo hi m = (In-ids_from x lo (hi - lo)).0 m
In-id_range_if false x lo hi m = absurd m

scan_gaps-IsAscending :
    (lo hi cursor : ℕ) (rows : List Range)
    → lo ≤ cursor
    → IsSortedByLo rows
    → All (λ r. (r.lo ≤ r.hi) × (lo ≤ r.hi) × (r.lo ≤ hi)) rows
    → IsAscending (scan_gaps lo hi cursor rows)
unfolding scan_gaps
scan_gaps-IsAscending lo hi cursor [] a s w = id_range_if (leb cursor hi) cursor (hi + 1)
scan_gaps-IsAscending lo hi cursor (r ∷ rows) a s w =
    append-IsAscending (if ltb cursor (max r.lo lo) then id_range cursor (max r.lo lo) else []) rest
      (id_range_if (ltb cursor (max r.lo lo)) cursor (max r.lo lo))
      (scan_gaps-IsAscending lo hi (max cursor (min r.hi hi + 1)) rows (omega arith) s.1 w.1)
      (All-of_In (λ x. All (λ y. x < y) rest)
        (if ltb cursor (max r.lo lo) then id_range cursor (max r.lo lo) else [])
        (λ x m.
          All-of_In (λ y. x < y) rest
            (λ y n.
              apart x y (In-id_range_if (ltb cursor (max r.lo lo)) x cursor (max r.lo lo) m)
                (In-scan_gaps_sound y lo hi (max cursor (min r.hi hi + 1)) rows (omega arith) s.1
                  (All-map_at rows w.1 (λ t p. p.2)) n).0)))
  where
    rest : List ℕ
    rest = scan_gaps lo hi (max cursor (min r.hi hi + 1)) rows

    apart :
        (x y : ℕ)
        → (cursor ≤ x) × (x < cursor + (max r.lo lo - cursor))
        → max cursor (min r.hi hi + 1) ≤ y
        → x < y
    apart x y b c = omega (arith, w.0, b)

-- The missing ids of a valid table come in strictly ascending order, so none is listed twice.
missing_ids-IsAscending :
    (rows : List Range) (c lo hi : ℕ) → IsTable rows → IsAscending (missing_ids rows c lo hi)
unfolding missing_ids
missing_ids-IsAscending rows c lo hi valid =
    scan_gaps-IsAscending lo hi lo (order_by_lo (select keep rows)) (omega arith)
      (order_by_lo-IsSortedByLo (select keep rows))
      (All-of_In (λ r. (r.lo ≤ r.hi) × (lo ≤ r.hi) × (r.lo ≤ hi)) (order_by_lo (select keep rows))
        (λ r m. kept r (In-select keep r rows (In-order_by_lo r (select keep rows) m))))
  where
    keep : Range → Bool
    keep r = (r.channel_id == c) && (leb lo r.hi && leb r.lo hi)

    kept : (r : Range) → In r rows × (keep r ≡ true) → (r.lo ≤ r.hi) × (lo ≤ r.hi) × (r.lo ≤ hi)
    kept r (m, k) = (
      All-at (λ t. t.lo ≤ t.hi) r rows (IsTable-wf rows valid) m,
      ground (arith, k),
      ground (arith, k),
    )

-- Once `[a, b]` is recorded for a channel, the ids missing from any span of it are those that were
-- missing before and lie outside `[a, b]`.
pub missing_ids-add_range :
    (rows : List Range) (c a b lo hi x : ℕ)
    → IsTable rows
    → a ≤ b
    → In x (missing_ids (add_range rows c a b) c lo hi)
      ↔ (In x (missing_ids rows c lo hi) × ¬ ((a ≤ x) × (x ≤ b)))
missing_ids-add_range rows c a b lo hi x valid le = (forth, back)
  where
    grown : Covers (add_range rows c a b) c x ↔ (Covers rows c x ⊎ ((c ≡ c) × (a ≤ x) × (x ≤ b)))
    grown = Covers-add_range rows c a b valid c x le

    forth :
        In x (missing_ids (add_range rows c a b) c lo hi)
        → In x (missing_ids rows c lo hi) × ¬ ((a ≤ x) × (x ≤ b))
    forth m =
        let n = (In-missing_ids (add_range rows c a b) c lo hi x).0 m in
        (
          (In-missing_ids rows c lo hi x).1 (n.0, n.1, λ q. n.2 (grown.1 (inl q))),
          λ q. n.2 (grown.1 (inr (refl, q.0, q.1))),
        )

    back :
        In x (missing_ids rows c lo hi) × ¬ ((a ≤ x) × (x ≤ b))
        → In x (missing_ids (add_range rows c a b) c lo hi)
    back (m, out) =
        let n = (In-missing_ids rows c lo hi x).0 m in
        (In-missing_ids (add_range rows c a b) c lo hi x).1
          (n.0, n.1, λ q. elim (grown.0 q) [ inl o ↦ n.2 o | inr (_, d, e) ↦ out (d, e) ])
