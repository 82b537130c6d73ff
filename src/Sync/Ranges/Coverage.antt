-- ===== src/Sync/Ranges/Coverage.antt =====
-- `add_range` adds the range that it is given, and nothing else.
use mathlib.Core.Path.{subst}
use paperboy.Base.{
  ℕ, ◌≤◌, ◌≡◌, ◌↔◌, refl, sym, ap, ◌∙◌, ◌⊎◌, inl, inr, true, not, List, [], ◌∷◌, arith, ◌==◌,
  ==_iff, All-at, All-of_In, In, In-append, In-append_left, In-append_right, In-select,
  In-select_of, Bool-cases,
}
use paperboy.Sync.Ranges.{
  Range, Merged, of_channel, order_by_lo, merged_with, has_id, next_id, delete_ids, insert_range,
  add_range,
}
use paperboy.Sync.Ranges.Order.{In-order_by_lo, In-order_by_lo_of}
use paperboy.Sync.Ranges.Merge.{
  MarkedInside, MarkedCovers, Inside, GapMerged, merge_rows_grows, merge_rows_marked,
  merge_rows_covers, merge_rows_unmarked,
}
use paperboy.Sync.Ranges.Table.{
  Separate, IsTable, Covers, IsTable-wf, order_by_lo-IsApart, row_of_id, select-IsTable,
  append-IsTable, id-lt-next_id,
}

-- The rows that the loop reads are those of the channel.
In-channel :
    (r : Range) (c : ℕ) (rows : List Range)
    → In r (order_by_lo (of_channel c rows))
    → In r rows × (r.channel_id ≡ c)
unfolding of_channel
In-channel r c rows m =
    let (n, e) =
      In-select (λ t. t.channel_id == c) r rows (In-order_by_lo r (of_channel c rows) m) in
    (n, (==_iff _ _).0 e)

In-channel_of :
    (r : Range) (c : ℕ) (rows : List Range)
    → In r rows
    → r.channel_id ≡ c
    → In r (order_by_lo (of_channel c rows))
unfolding of_channel
In-channel_of r c rows m e =
    In-order_by_lo_of r (of_channel c rows)
      (In-select_of (λ t. t.channel_id == c) r rows m ((==_iff _ _).1 e))

module _ (rows : List Range) (c lo hi : ℕ) (valid : IsTable rows) where
  abbrev final : Merged
  final = merged_with rows c lo hi

  abbrev new_row : Range
  new_row = record {
    id = next_id (delete_ids final.to_delete rows);
    channel_id = c;
    lo = final.lo;
    hi = final.hi;
  }

  -- A deleted row is one of the channel, inside the merged range.
  deleted_row :
      (r : Range)
      → In r rows
      → has_id r.id final.to_delete ≡ true
      → (r.channel_id ≡ c) × Inside r final
  unfolding has_id
  deleted_row r m d =
      elim (merge_rows_marked r.id (record { lo = lo; hi = hi; to_delete = [] })
        (order_by_lo (of_channel c rows)) d) [ inl none' ↦ cc | inr found ↦ same found ]
    where
      same :
          MarkedInside r.id final (order_by_lo (of_channel c rows))
          → (r.channel_id ≡ c) × Inside r final
      same (s, n, e, inside) =
          let (k, ch) = In-channel s c rows n in
          subst (λ t. (t.channel_id ≡ c) × Inside t final) (row_of_id s r rows valid k m e)
            (ch, inside)

  kept_gap :
      (s : Range) → In s (delete_ids final.to_delete rows) → s.channel_id ≡ c → GapMerged s final
  unfolding delete_ids
  kept_gap s m e =
      let (n, k) = In-select (λ r. not (has_id r.id final.to_delete)) s rows m in
      merge_rows_unmarked s (record { lo = lo; hi = hi; to_delete = [] })
        (order_by_lo (of_channel c rows)) (order_by_lo-IsApart c rows valid)
        (In-channel_of s c rows n e) (ground (arith, k))

  -- `add_range` keeps the table's invariant: no row is empty, ids are distinct, and the ranges of
  -- one channel neither overlap nor adjoin.
  pub add_range-IsTable : lo ≤ hi → IsTable (add_range rows c lo hi)
  unfolding add_range insert_range
  add_range-IsTable le =
      let g =
        merge_rows_grows (record { lo = lo; hi = hi; to_delete = [] })
          (order_by_lo (of_channel c rows)) in
      append-IsTable (delete_ids final.to_delete rows) new_row (omega arith)
        (All-of_In (λ s. Separate s new_row) (delete_ids final.to_delete rows)
          (λ s m. (
            (λ e. omega (arith, e, id-lt-next_id s (delete_ids final.to_delete rows) m)),
            (λ e. kept_gap s m e),
          )))
        (unfold delete_ids in select-IsTable _ rows valid)

  -- After `add_range` a channel's ranges hold a message id exactly if they held it before, or it
  -- lies in the range that was added to that channel.
  pub Covers-add_range :
      (d x : ℕ)
      → lo ≤ hi
      → Covers (add_range rows c lo hi) d x ↔ (Covers rows d x ⊎ ((d ≡ c) × (lo ≤ x) × (x ≤ hi)))
  unfolding add_range insert_range delete_ids
  Covers-add_range d x le = (before, after)
    where
      grown : (final.lo ≤ lo) × (hi ≤ final.hi)
      grown =
          merge_rows_grows (record { lo = lo; hi = hi; to_delete = [] })
            (order_by_lo (of_channel c rows))

      origin :
          d ≡ c
          → ((lo ≤ x) × (x ≤ hi)) ⊎ MarkedCovers x final (order_by_lo (of_channel c rows))
          → Covers rows d x ⊎ ((d ≡ c) × (lo ≤ x) × (x ≤ hi))
      origin e (inl b) = inr (e, b.0, b.1)
      origin e (inr (s, n, _, a, b)) =
          let (k, ch) = In-channel s c rows n in inl (s, k, ch ∙ sym e, a, b)

      before :
          Covers (add_range rows c lo hi) d x → Covers rows d x ⊎ ((d ≡ c) × (lo ≤ x) × (x ≤ hi))
      before (r, m, e, a, b) =
          elim (In-append r (delete_ids final.to_delete rows) (new_row ∷ []) m) [
            | inl old ↦
                inl (r, (In-select (λ s. not (has_id s.id final.to_delete)) r rows old).0, e, a, b)
            | inr (inl q) ↦ origin (sym e ∙ ap (λ (t : Range). t.channel_id) q) (
                merge_rows_covers x (record { lo = lo; hi = hi; to_delete = [] })
                  (order_by_lo (of_channel c rows))
                  (All-of_In (λ s. s.lo ≤ s.hi) (order_by_lo (of_channel c rows))
                    (λ s n.
                      All-at (λ t. t.lo ≤ t.hi) s rows (IsTable-wf rows valid)
                        (In-channel s c rows n).0))
                  le (omega (arith, a, ap (λ (t : Range). t.lo) q))
                  (omega (arith, b, ap (λ (t : Range). t.hi) q)))
            | inr (inr z) ↦ absurd z
          ]

      in_new : d ≡ c → final.lo ≤ x → x ≤ final.hi → Covers (add_range rows c lo hi) d x
      in_new e a b = (
        new_row,
        In-append_right new_row (delete_ids final.to_delete rows) (new_row ∷ []) (inl refl),
        sym e,
        a,
        b,
      )

      after :
          Covers rows d x ⊎ ((d ≡ c) × (lo ≤ x) × (x ≤ hi)) → Covers (add_range rows c lo hi) d x
      after (inr (e, a, b)) = in_new e (omega (arith, grown)) (omega (arith, grown))
      after (inl (r, m, e, a, b)) = elim (Bool-cases (has_id r.id final.to_delete)) [
        | inl gone ↦
            let (ch, inside) = deleted_row r m gone in
            in_new (sym e ∙ ch) (omega (arith, inside)) (omega (arith, inside))
        | inr kept ↦ (
          r,
          In-append_left r (delete_ids final.to_delete rows) (new_row ∷ []) (
              In-select_of (λ s. not (has_id s.id final.to_delete)) r rows m
                (ground (arith, kept))),
          e,
          a,
          b,
        )
      ]
