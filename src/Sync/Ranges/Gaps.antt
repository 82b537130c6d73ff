-- ===== src/Sync/Ranges/Gaps.antt =====
-- `missing_ids` lists, in ascending order, exactly the ids that no verified range covers.
use paperboy.Base.{
  ℕ, zero, suc, ◌+◌, ◌-◌, min, max, ◌≤◌, ◌<◌, ◌≡◌, ◌↔◌, refl, ap, inl, inr, Bool, true, false, ◌&&◌,
  List, [], ◌∷◌, arith, ltb, leb, ◌==◌, if◌then◌else◌, select, All, All-at, All-of_In, In,
  In-append, In-append_left, In-append_right, In-select, In-select_of, Bool-cases,
}
use paperboy.Sync.Ranges.{Range, order_by_lo, ids_from, id_range, scan_gaps, missing_ids}
use paperboy.Sync.Ranges.Order.{
  In-order_by_lo, In-order_by_lo_of, IsSortedByLo, order_by_lo-IsSortedByLo,
}
use paperboy.Sync.Ranges.Table.{Covers}

pub In-ids_from : (x lo n : ℕ) → In x (ids_from lo n) ↔ ((lo ≤ x) × (x < lo + n))
unfolding ids_from
In-ids_from x lo zero = (λ m. absurd m, λ b. absurd (omega arith))
In-ids_from x lo (suc n) = step (In-ids_from x (lo + 1) n)
  where
    step :
        In x (ids_from (lo + 1) n) ↔ ((lo + 1 ≤ x) × (x < lo + 1 + n))
        → In x (lo ∷ ids_from (lo + 1) n) ↔ ((lo ≤ x) × (x < lo + suc n))
    step ih = (
      λ m. elim m [
        | inl e ↦ (omega arith, omega arith)
        | inr k ↦ (omega (arith, ih.0 k), omega (arith, ih.0 k))
      ],
      λ b. ground (arith, ih.1),
    )

-- A row of the list covers `x`.
abbrev RowCovers : ℕ → List Range → Type 0
RowCovers x rows = (r : Range) × In r rows × (r.lo ≤ x) × (x ≤ r.hi)

-- From the cursor on, the loop lists what no row covers.
pub In-scan_gaps_sound :
    (x lo hi cursor : ℕ) (rows : List Range)
    → lo ≤ cursor
    → IsSortedByLo rows
    → All (λ r. r.lo ≤ hi) rows
    → In x (scan_gaps lo hi cursor rows)
    → (cursor ≤ x) × (x ≤ hi) × ¬ RowCovers x rows
unfolding scan_gaps
In-scan_gaps_sound x lo hi cursor [] a s w m = elim (Bool-cases (leb cursor hi)) [
  | inl t ↦
      let b = (In-ids_from x cursor (hi + 1 - cursor)).0 (rw t at m) in
      (b.0, omega (arith, b.1), λ q. absurd q.1)
  | inr t ↦ absurd (rw t at m)
]
In-scan_gaps_sound x lo hi cursor (r ∷ rows) a s w m =
    elim (In-append x _ (scan_gaps lo hi (max cursor (min r.hi hi + 1)) rows) m) [
      | inl h ↦ elim (Bool-cases (ltb cursor (max r.lo lo))) [
        | inl t ↦ before ((In-ids_from x cursor (max r.lo lo - cursor)).0 (rw t at h))
        | inr t ↦ absurd (rw t at h)
      ]
      | inr h ↦
          after
            (In-scan_gaps_sound x lo hi (max cursor (min r.hi hi + 1)) rows (omega arith) s.1 w.1 h)
    ]
  where
    before :
        (cursor ≤ x) × (x < cursor + (max r.lo lo - cursor))
        → (cursor ≤ x) × (x ≤ hi) × ¬ RowCovers x (r ∷ rows)
    before b = (
      b.0,
      omega (arith, w.0, b),
      (λ (q, m', c, d). elim m' [
        | inl e ↦ omega (arith, b, ap (λ (t : Range). t.lo) e, c)
        | inr k ↦ omega (arith, b, All-at (λ (t : Range). r.lo ≤ t.lo) q rows s.0 k, c)
      ]),
    )

    after :
        (max cursor (min r.hi hi + 1) ≤ x) × (x ≤ hi) × ¬ RowCovers x rows
        → (cursor ≤ x) × (x ≤ hi) × ¬ RowCovers x (r ∷ rows)
    after b = (
      omega (arith, b.0),
      b.1,
      (λ (q, m', c, d). elim m' [
        | inl e ↦ omega (arith, b.0, b.1, ap (λ (t : Range). t.hi) e, d)
        | inr k ↦ b.2 (q, k, c, d)
      ]),
    )

In-scan_gaps_complete :
    (x lo hi cursor : ℕ) (rows : List Range)
    → lo ≤ cursor
    → cursor ≤ x
    → x ≤ hi
    → ¬ RowCovers x rows
    → In x (scan_gaps lo hi cursor rows)
unfolding scan_gaps
In-scan_gaps_complete x lo hi cursor [] a b c n = elim (Bool-cases (leb cursor hi)) [
  | inl t ↦ rw t ((In-ids_from x cursor (hi + 1 - cursor)).1 (b, omega arith))
  | inr t ↦ absurd (ground arith)
]
In-scan_gaps_complete x lo hi cursor (r ∷ rows) a b c n = elim (Bool-cases (ltb x r.lo)) [
  | inl t ↦ In-append_left x _ (scan_gaps lo hi (max cursor (min r.hi hi + 1)) rows) (first t)
  | inr t ↦ In-append_right x _ (scan_gaps lo hi (max cursor (min r.hi hi + 1)) rows) (
      In-scan_gaps_complete x lo hi (max cursor (min r.hi hi + 1)) rows (omega arith) (past t) c
        (λ (q, m, d, e). n (q, inr m, d, e)))
]
  where
    first :
        ltb x r.lo ≡ true
        → In x (if ltb cursor (max r.lo lo) then id_range cursor (max r.lo lo) else [])
    first t = elim (Bool-cases (ltb cursor (max r.lo lo))) [
      | inl u ↦ rw u ((In-ids_from x cursor (max r.lo lo - cursor)).1 (b, ground arith))
      | inr u ↦ absurd (ground arith)
    ]

    past : ltb x r.lo ≡ false → max cursor (min r.hi hi + 1) ≤ x
    past t = elim (Bool-cases (leb x r.hi)) [
      | inl v ↦ absurd (n (r, inl refl, ground arith, ground arith))
      | inr v ↦ ground arith
    ]

-- An id is listed exactly if it lies in the span and no verified range of the channel covers it.
pub In-missing_ids :
    (rows : List Range) (c lo hi x : ℕ)
    → In x (missing_ids rows c lo hi) ↔ ((lo ≤ x) × (x ≤ hi) × ¬ Covers rows c x)
unfolding missing_ids
In-missing_ids rows c lo hi x = (forth, back)
  where
    keep : Range → Bool
    keep r = (r.channel_id == c) && (leb lo r.hi && leb r.lo hi)

    forth :
        In x (scan_gaps lo hi lo (order_by_lo (select keep rows)))
        → (lo ≤ x) × (x ≤ hi) × ¬ Covers rows c x
    forth m =
        let b =
          In-scan_gaps_sound x lo hi lo (order_by_lo (select keep rows)) (omega arith)
            (order_by_lo-IsSortedByLo (select keep rows))
            (All-of_In (λ r. r.lo ≤ hi) (order_by_lo (select keep rows))
              (λ r k.
                ground (arith, (In-select keep r rows (In-order_by_lo r (select keep rows) k)).1)))
            m in
        (
          b.0,
          b.1,
          λ (r, k, e, d, f). b.2 (
            r,
            In-order_by_lo_of r (select keep rows)
                (In-select_of keep r rows k (ground (arith, b.0, b.1))),
            d,
            f,
          ),
        )

    back :
        (lo ≤ x) × (x ≤ hi) × ¬ Covers rows c x
        → In x (scan_gaps lo hi lo (order_by_lo (select keep rows)))
    back b =
        In-scan_gaps_complete x lo hi lo (order_by_lo (select keep rows)) (omega arith) b.0 b.1
          (λ (r, k, d, e).
            let (m, q) = In-select keep r rows (In-order_by_lo r (select keep rows) k) in
            b.2 (r, m, ground (arith, q), d, e))
