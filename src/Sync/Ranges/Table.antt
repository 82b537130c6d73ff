-- ===== src/Sync/Ranges/Table.antt =====
-- The `sync_ranges` table as `add_range` keeps it, and what it covers.
use paperboy.Base.{
  ℕ, ◌+◌, ◌≤◌, ◌<◌, ◌≡◌, ◌≢◌, sym, ap, ◌∙◌, ◌⊎◌, inl, inr, Bool, true, false, List, [], ◌∷◌, ◌++◌,
  arith, leb, ◌==◌, ==_iff, select, All, All-at, All-of_In, All-select, All-append, All-map_at, In,
  In-select, Bool-cases,
}
use paperboy.Sync.Ranges.{Range, of_channel, insert_by_lo, order_by_lo, next_id}
use paperboy.Sync.Ranges.Order.{In-insert_by_lo, In-order_by_lo}
use paperboy.Sync.Ranges.Merge.{Gap, IsApart}

-- Two rows have different ids, and those of one channel have a gap between them.
abbrev pub Separate : Range → Range → Type 0
Separate r s = (r.id ≢ s.id) × (r.channel_id ≡ s.channel_id → Gap r s)

-- The invariant of the table: no row is empty, and no two rows clash, overlap or adjoin.
abbrev pub IsTable : List Range → Type 0
IsTable [] = Unit
IsTable (r ∷ rows) = (r.lo ≤ r.hi) × All (Separate r) rows × IsTable rows

-- A verified range of channel `c` holds the message id `x`.
abbrev pub Covers : List Range → ℕ → ℕ → Type 0
Covers rows c x = (r : Range) × In r rows × (r.channel_id ≡ c) × (r.lo ≤ x) × (x ≤ r.hi)

pub IsTable-wf : (rows : List Range) → IsTable rows → All (λ r. r.lo ≤ r.hi) rows
IsTable-wf [] h = tt
IsTable-wf (r ∷ rows) h = (h.0, IsTable-wf rows h.2)

insert_by_lo-IsApart :
    (r : Range) (rows : List Range)
    → r.lo ≤ r.hi
    → All (Gap r) rows
    → IsApart rows
    → IsApart (insert_by_lo r rows)
unfolding insert_by_lo
insert_by_lo-IsApart r [] w g h = (w, tt, tt)
insert_by_lo-IsApart r (s ∷ rows) w g h = elim (Bool-cases (leb r.lo s.lo)) [
  | inl le ↦
      rw (le, insert_by_lo)
        (w, (first le, All-map_at rows h.1 (λ t p. omega (arith, first le, h.0))), h)
  | inr gt ↦
      rw (gt, insert_by_lo)
        (
          h.0,
          All-of_In _ (insert_by_lo r rows) (λ t m. after gt t (In-insert_by_lo t r rows m)),
          insert_by_lo-IsApart r rows w g.1 h.2,
        )
]
  where
    first : leb r.lo s.lo ≡ true → r.hi + 1 < s.lo
    first le = ground (arith, g.0, h.0)

    after : leb r.lo s.lo ≡ false → (t : Range) → (t ≡ r) ⊎ In t rows → s.hi + 1 < t.lo
    after gt t (inl e) = ground (arith, g.0, h.0)
    after gt t (inr m) = All-at (λ u. s.hi + 1 < u.lo) t rows h.1 m

-- The rows of one channel, in order, have gaps between them.
pub order_by_lo-IsApart :
    (c : ℕ) (rows : List Range) → IsTable rows → IsApart (order_by_lo (of_channel c rows))
unfolding of_channel order_by_lo
order_by_lo-IsApart c [] h = tt
order_by_lo-IsApart c (r ∷ rows) h = elim (Bool-cases (r.channel_id == c)) [
  | inl same ↦ rw same (
      insert_by_lo-IsApart r (order_by_lo (of_channel c rows)) h.0
        (All-of_In (Gap r) (order_by_lo (of_channel c rows)) (λ s m.
          gap same s
            (In-select (λ t. t.channel_id == c) s rows (In-order_by_lo s (of_channel c rows) m))))
        (order_by_lo-IsApart c rows h.2))
  | inr other ↦ rw other (order_by_lo-IsApart c rows h.2)
]
  where
    gap :
        (r.channel_id == c) ≡ true
        → (s : Range) → In s rows × ((s.channel_id == c) ≡ true)
        → Gap r s
    gap same s (m, e) =
        (All-at (Separate r) s rows h.1 m).1 (((==_iff _ _).0 same) ∙ sym ((==_iff _ _).0 e))

-- Ids are keys.
pub row_of_id :
    (r s : Range) (rows : List Range) → IsTable rows → In r rows → In s rows → r.id ≡ s.id → r ≡ s
row_of_id r s [] h m n e = absurd m
row_of_id r s (t ∷ rows) h (inl p) (inl q) e = p ∙ sym q
row_of_id r s (t ∷ rows) h (inl p) (inr n) e =
    absurd ((All-at (Separate t) s rows h.1 n).0 (ap (λ (u : Range). u.id) (sym p) ∙ e))
row_of_id r s (t ∷ rows) h (inr m) (inl q) e =
    absurd ((All-at (Separate t) r rows h.1 m).0 (ap (λ (u : Range). u.id) (sym q) ∙ sym e))
row_of_id r s (t ∷ rows) h (inr m) (inr n) e = row_of_id r s rows h.2 m n e

pub select-IsTable : (p : Range → Bool) (rows : List Range) → IsTable rows → IsTable (select p rows)
select-IsTable p [] h = tt
select-IsTable p (r ∷ rows) h = elim (Bool-cases (p r)) [
  | inl yes' ↦ rw yes' (h.0, All-select (Separate r) p rows h.1, select-IsTable p rows h.2)
  | inr no' ↦ rw no' (select-IsTable p rows h.2)
]

pub append-IsTable :
    (rows : List Range) (r : Range)
    → r.lo ≤ r.hi
    → All (λ s. Separate s r) rows
    → IsTable rows
    → IsTable (rows ++ r ∷ [])
append-IsTable [] r w a h = (w, tt, tt)
append-IsTable (s ∷ rows) r w a h =
    (h.0, All-append (Separate s) rows (r ∷ []) h.1 (a.0, tt), append-IsTable rows r w a.1 h.2)

pub id-lt-next_id : (r : Range) (rows : List Range) → In r rows → r.id < next_id rows
unfolding next_id
id-lt-next_id r (s ∷ rows) (inl e) = omega (arith, ap (λ (u : Range). u.id) e)
id-lt-next_id r (s ∷ rows) (inr m) = omega (arith, id-lt-next_id r rows m)
id-lt-next_id r [] m = absurd m
