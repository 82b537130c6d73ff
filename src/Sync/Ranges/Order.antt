-- ===== src/Sync/Ranges/Order.antt =====
-- `ORDER BY lo` keeps the rows and sorts them.
use paperboy.Base.{
  ◌≤◌, ◌≡◌, ◌⊎◌, inl, inr, false, List, [], ◌∷◌, arith, leb, All, In, All-at, All-of_In, Bool-cases,
  leb→le,
}
use paperboy.Sync.Ranges.{Range, insert_by_lo, order_by_lo}

pub In-insert_by_lo :
    (a r : Range) (rows : List Range) → In a (insert_by_lo r rows) → (a ≡ r) ⊎ In a rows
unfolding insert_by_lo
In-insert_by_lo a r [] m = m
In-insert_by_lo a r (s ∷ rows) m = ground (arith, In-insert_by_lo a r rows)

pub In-insert_by_lo_of :
    (a r : Range) (rows : List Range) → (a ≡ r) ⊎ In a rows → In a (insert_by_lo r rows)
unfolding insert_by_lo
In-insert_by_lo_of a r [] m = m
In-insert_by_lo_of a r (s ∷ rows) m = ground (arith, In-insert_by_lo_of a r rows)

pub In-order_by_lo : (a : Range) (rows : List Range) → In a (order_by_lo rows) → In a rows
unfolding order_by_lo
In-order_by_lo a [] m = m
In-order_by_lo a (r ∷ rows) m = elim (In-insert_by_lo a r (order_by_lo rows) m) [
  | inl e ↦ inl e
  | inr n ↦ inr (In-order_by_lo a rows n)
]

pub In-order_by_lo_of : (a : Range) (rows : List Range) → In a rows → In a (order_by_lo rows)
unfolding order_by_lo
In-order_by_lo_of a (r ∷ rows) (inl e) = In-insert_by_lo_of a r (order_by_lo rows) (inl e)
In-order_by_lo_of a (r ∷ rows) (inr m) =
    In-insert_by_lo_of a r (order_by_lo rows) (inr (In-order_by_lo_of a rows m))
In-order_by_lo_of a [] m = absurd m

-- Every row has a `lo` at or below those that follow it.
abbrev pub IsSortedByLo : List Range → Type 0
IsSortedByLo [] = Unit
IsSortedByLo (r ∷ rows) = All (λ s. r.lo ≤ s.lo) rows × IsSortedByLo rows

insert_by_lo-IsSortedByLo :
    (r : Range) (rows : List Range) → IsSortedByLo rows → IsSortedByLo (insert_by_lo r rows)
unfolding insert_by_lo
insert_by_lo-IsSortedByLo r [] h = (tt, tt)
insert_by_lo-IsSortedByLo r (s ∷ rows) h = elim (Bool-cases (leb r.lo s.lo)) [
  | inl le ↦ rw le (
    (
      leb→le _ _ le,
      All-of_In _ rows (λ a m. below a (leb→le _ _ le) (All-at (λ t. s.lo ≤ t.lo) a rows h.0 m)),
    ),
    h,
  )
  | inr gt ↦ rw gt (
    All-of_In _ (insert_by_lo r rows) (λ a m. above a gt (In-insert_by_lo a r rows m)),
    insert_by_lo-IsSortedByLo r rows h.1,
  )
]
  where
    below : (a : Range) → r.lo ≤ s.lo → s.lo ≤ a.lo → r.lo ≤ a.lo
    below a p q = omega arith

    above : (a : Range) → leb r.lo s.lo ≡ false → (a ≡ r) ⊎ In a rows → s.lo ≤ a.lo
    above a gt (inl e) = ground arith
    above a gt (inr m) = All-at (λ t. s.lo ≤ t.lo) a rows h.0 m

pub order_by_lo-IsSortedByLo : (rows : List Range) → IsSortedByLo (order_by_lo rows)
unfolding order_by_lo
order_by_lo-IsSortedByLo [] = tt
order_by_lo-IsSortedByLo (r ∷ rows) =
    insert_by_lo-IsSortedByLo r (order_by_lo rows) (order_by_lo-IsSortedByLo rows)
