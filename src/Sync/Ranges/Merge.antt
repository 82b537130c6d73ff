-- ===== src/Sync/Ranges/Merge.antt =====
-- What the loop of `add_range` has merged, and which rows it has marked for deletion.
use mathlib.Core.Path.{subst, sym}
use paperboy.Base.{
  All-map_at, ℕ, ◌+◌, ◌≤◌, ◌<◌, ◌≡◌, refl, ◌⊎◌, inl, inr, true, false, List, [], ◌∷◌, ◌++◌, arith,
  if◌then◌else◌, All, In, Bool-cases,
}
use paperboy.Sync.Ranges.{Range, Merged, merge_rows, touches, join, has_id}

pub has_id-append :
    (i : ℕ) (ids : List ℕ) (j : ℕ)
    → has_id i (ids ++ j ∷ []) ≡ true
    → (has_id i ids ≡ true) ⊎ (i ≡ j)
unfolding has_id
has_id-append i [] j h = ground arith
has_id-append i (k ∷ ids) j h = ground (arith, has_id-append i ids j)

has_id-append_left :
    (i : ℕ) (ids : List ℕ) (j : ℕ) → has_id i ids ≡ true → has_id i (ids ++ j ∷ []) ≡ true
unfolding has_id
has_id-append_left i [] j h = ground arith
has_id-append_left i (k ∷ ids) j h = ground (arith, has_id-append_left i ids j)

has_id-append_self : (ids : List ℕ) (j : ℕ) → has_id j (ids ++ j ∷ []) ≡ true
unfolding has_id
has_id-append_self [] j = ground arith
has_id-append_self (k ∷ ids) j = ground (arith, has_id-append_self ids j)

-- The merged range only grows.
pub merge_rows_grows :
    (m : Merged) (rows : List Range)
    → ((merge_rows m rows).lo ≤ m.lo) × (m.hi ≤ (merge_rows m rows).hi)
unfolding merge_rows
merge_rows_grows m [] = omega arith
merge_rows_grows m (r ∷ rows) =
    ground (arith, merge_rows_grows (if touches r m then join r m else m) rows)

-- What is marked stays marked.
pub merge_rows_keeps_marks :
    (i : ℕ) (m : Merged) (rows : List Range)
    → has_id i m.to_delete ≡ true
    → has_id i (merge_rows m rows).to_delete ≡ true
unfolding merge_rows
merge_rows_keeps_marks i m [] h = h
merge_rows_keeps_marks i m (r ∷ rows) h = ground (
  arith,
  merge_rows_keeps_marks i (if touches r m then join r m else m) rows,
  has_id-append_left i m.to_delete r.id,
)

-- A row that lies inside the merged range.
abbrev pub Inside : Range → Merged → Type 0
Inside r m = (m.lo ≤ r.lo) × (r.hi ≤ m.hi)

-- The id of a row of the list that lies inside the merged range.
abbrev pub MarkedInside : ℕ → Merged → List Range → Type 0
MarkedInside i m rows = (r : Range) × In r rows × (r.id ≡ i) × Inside r m

MarkedInside-cons :
    (i : ℕ) (m : Merged) (r : Range) (rows : List Range)
    → MarkedInside i m rows
    → MarkedInside i m (r ∷ rows)
MarkedInside-cons i m r rows (s, n, e, f) = (s, inr n, e, f)

-- A marked id is that of a row that lies inside the final merged range.
pub merge_rows_marked :
    (i : ℕ) (m : Merged) (rows : List Range)
    → has_id i (merge_rows m rows).to_delete ≡ true
    → (has_id i m.to_delete ≡ true) ⊎ MarkedInside i (merge_rows m rows) rows
unfolding merge_rows
merge_rows_marked i m [] h = inl h
merge_rows_marked i m (r ∷ rows) h = elim (Bool-cases (touches r m)) [
  | inl t ↦
      rw (t, merge_rows)
        (joined (merge_rows_marked i (join r m) rows (rw (t, merge_rows) at h))
          (merge_rows_grows (join r m) rows))
  | inr t ↦ rw (t, merge_rows) (skipped (merge_rows_marked i m rows (rw (t, merge_rows) at h)))
]
  where
    joined :
        (has_id i (join r m).to_delete ≡ true) ⊎ MarkedInside i (merge_rows (join r m) rows) rows
        → ((merge_rows (join r m) rows).lo ≤ (join r m).lo)
          × ((join r m).hi ≤ (merge_rows (join r m) rows).hi)
        → (has_id i m.to_delete ≡ true) ⊎ MarkedInside i (merge_rows (join r m) rows) (r ∷ rows)
    joined (inl a) g = elim (has_id-append i m.to_delete r.id a) [
      | inl b ↦ inl b
      | inr e ↦ inr (r, inl refl, omega arith, (omega arith, omega arith))
    ]
    joined (inr b) g = inr (MarkedInside-cons i (merge_rows (join r m) rows) r rows b)

    skipped :
        (has_id i m.to_delete ≡ true) ⊎ MarkedInside i (merge_rows m rows) rows
        → (has_id i m.to_delete ≡ true) ⊎ MarkedInside i (merge_rows m rows) (r ∷ rows)
    skipped (inl a) = inl a
    skipped (inr b) = inr (MarkedInside-cons i (merge_rows m rows) r rows b)

-- An id that a marked row of the list covers.
abbrev pub MarkedCovers : ℕ → Merged → List Range → Type 0
MarkedCovers x m rows =
    (r : Range) × In r rows × (has_id r.id m.to_delete ≡ true) × (r.lo ≤ x) × (x ≤ r.hi)

MarkedCovers-cons :
    (x : ℕ) (m : Merged) (r : Range) (rows : List Range)
    → MarkedCovers x m rows
    → MarkedCovers x m (r ∷ rows)
MarkedCovers-cons x m r rows (s, n, e, a, b) = (s, inr n, e, a, b)

-- Two ranges that touch leave no seam between them.
touches_no_seam :
    (x : ℕ) (r : Range) (m : Merged)
    → touches r m ≡ true
    → m.lo ≤ m.hi
    → r.lo ≤ r.hi
    → (join r m).lo ≤ x
    → x ≤ (join r m).hi
    → ((m.lo ≤ x) × (x ≤ m.hi)) ⊎ ((r.lo ≤ x) × (x ≤ r.hi))
touches_no_seam x r m t wm wr a b = ground arith

-- The merged range covers nothing but the range that it began with and the marked rows.
pub merge_rows_covers :
    (x : ℕ) (m : Merged) (rows : List Range)
    → All (λ r. r.lo ≤ r.hi) rows
    → m.lo ≤ m.hi
    → (merge_rows m rows).lo ≤ x
    → x ≤ (merge_rows m rows).hi
    → ((m.lo ≤ x) × (x ≤ m.hi)) ⊎ MarkedCovers x (merge_rows m rows) rows
unfolding merge_rows
merge_rows_covers x m [] w wm a b = inl (a, b)
merge_rows_covers x m (r ∷ rows) w wm a b = elim (Bool-cases (touches r m)) [
  | inl t ↦
      rw (t, merge_rows)
        (joined t (
          merge_rows_covers x (join r m) rows w.1 (omega (arith, w.0)) (rw (t, merge_rows) at a)
            (rw (t, merge_rows) at b)))
  | inr t ↦
      rw (t, merge_rows)
        (skipped
          (merge_rows_covers x m rows w.1 wm (rw (t, merge_rows) at a) (rw (t, merge_rows) at b)))
]
  where
    joined :
        touches r m ≡ true
        → (((join r m).lo ≤ x) × (x ≤ (join r m).hi))
          ⊎ MarkedCovers x (merge_rows (join r m) rows) rows
        → ((m.lo ≤ x) × (x ≤ m.hi)) ⊎ MarkedCovers x (merge_rows (join r m) rows) (r ∷ rows)
    joined t (inl c) = elim (touches_no_seam x r m t wm w.0 c.0 c.1) [
      | inl d ↦ inl d
      | inr d ↦ inr (
        r,
        inl refl,
        merge_rows_keeps_marks r.id (join r m) rows (has_id-append_self m.to_delete r.id),
        d.0,
        d.1,
      )
    ]
    joined t (inr c) = inr (MarkedCovers-cons x (merge_rows (join r m) rows) r rows c)

    skipped :
        ((m.lo ≤ x) × (x ≤ m.hi)) ⊎ MarkedCovers x (merge_rows m rows) rows
        → ((m.lo ≤ x) × (x ≤ m.hi)) ⊎ MarkedCovers x (merge_rows m rows) (r ∷ rows)
    skipped (inl c) = inl c
    skipped (inr c) = inr (MarkedCovers-cons x (merge_rows m rows) r rows c)

-- A row to the left of the merged range, with a gap, stays to the left.
stays_left :
    (r : Range) (m : Merged) (rows : List Range)
    → r.hi + 1 < m.lo
    → All (λ s. r.hi + 1 < s.lo) rows
    → r.hi + 1 < (merge_rows m rows).lo
unfolding merge_rows
stays_left r m [] h a = h
stays_left r m (s ∷ rows) h a =
    stays_left r (if touches s m then join s m else m) rows (ground (arith, a.0)) a.1

-- A row to the right of the merged range, with a gap, stays to the right: no later row touches.
stays_right :
    (r : Range) (m : Merged) (rows : List Range)
    → m.hi + 1 < r.lo
    → All (λ s. r.lo ≤ s.lo) rows
    → (merge_rows m rows).hi + 1 < r.lo
unfolding merge_rows
stays_right r m [] h a = h
stays_right r m (s ∷ rows) h a =
    stays_right r (if touches s m then join s m else m) rows (ground (arith, a.0)) a.1

-- There is a gap between the two ranges.
abbrev pub Gap : Range → Range → Type 0
Gap r s = (r.hi + 1 < s.lo) ⊎ (s.hi + 1 < r.lo)

abbrev pub GapMerged : Range → Merged → Type 0
GapMerged r m = (r.hi + 1 < m.lo) ⊎ (m.hi + 1 < r.lo)

-- Every row is well formed, and ends with a gap before each row that follows it.
abbrev pub IsApart : List Range → Type 0
IsApart [] = Unit
IsApart (r ∷ rows) = (r.lo ≤ r.hi) × All (λ s. r.hi + 1 < s.lo) rows × IsApart rows

merge_rows_unmarked_head :
    (r : Range) (m : Merged) (rows : List Range)
    → IsApart (r ∷ rows)
    → has_id r.id (merge_rows m (r ∷ rows)).to_delete ≡ false
    → GapMerged r (merge_rows m (r ∷ rows))
unfolding merge_rows
merge_rows_unmarked_head r m rows h e = elim (Bool-cases (touches r m)) [
  | inl t ↦
      ground (
        arith,
        e,
        merge_rows_keeps_marks r.id (join r m) rows (has_id-append_self m.to_delete r.id),
      )
  | inr t ↦
      rw (t, merge_rows)
        (elim (gap_of_not_touching t) [
          | inl l ↦ inl (stays_left r m rows l h.1)
          | inr g ↦ inr (stays_right r m rows g (All-map_at rows h.1 (λ s p. omega (arith, h.0))))
        ])
]
  where
    gap_of_not_touching : touches r m ≡ false → (r.hi + 1 < m.lo) ⊎ (m.hi + 1 < r.lo)
    gap_of_not_touching t = ground arith

-- A row that is not marked has a gap to the final merged range.
pub merge_rows_unmarked :
    (a : Range) (m : Merged) (rows : List Range)
    → IsApart rows
    → In a rows
    → has_id a.id (merge_rows m rows).to_delete ≡ false
    → GapMerged a (merge_rows m rows)
unfolding merge_rows
merge_rows_unmarked a m [] h n e = absurd n
merge_rows_unmarked a m (r ∷ rows) h (inr n) e =
    merge_rows_unmarked a (if touches r m then join r m else m) rows h.2 n e
merge_rows_unmarked a m (r ∷ rows) h (inl n) e =
    subst (λ b. GapMerged b (merge_rows m (r ∷ rows))) (sym n)
      (merge_rows_unmarked_head r m rows h
        (subst (λ b. has_id b.id (merge_rows m (r ∷ rows)).to_delete ≡ false) n e))
