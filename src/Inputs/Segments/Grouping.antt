-- ===== src/Inputs/Segments/Grouping.antt =====
-- Each pending row is in the pass of its priority and channel, once and in order.
use paperboy.Base.{
  ◌≡◌, ◌≢◌, ◌∙◌, refl, sym, ap, Bool, true, false, ◌&&◌, List, [], ◌∷◌, ◌++◌, arith, if◌then◌else◌,
  Bool-cases, inl, inr, select, All,
}
use mathlib.Core.Path.{subst}
use mathlib.Core.List.{append-nil, append_assoc}
use paperboy.Inputs.Entry.Marks.{address_eq→eq, address_eq_refl, name_eq→eq, name_eq_refl}
use paperboy.Inputs.Classify.{ClassifiedRow}
use paperboy.Inputs.Segments.{
  Segment, Key, key_eq, key_of, segment_key, add_row, is_pending, plan_from, plan_segments,
}

key_eq→eq : (j k : Key) → key_eq j k ≡ true → j ≡ k
key_eq→eq (p, a) (q, b) h = ground (arith, name_eq→eq p q, address_eq→eq a b)

key_eq_refl : (k : Key) → key_eq k k ≡ true
key_eq_refl (p, a) = ground (arith, name_eq_refl p, address_eq_refl a)

-- The rows of the segment of a key, if there is one.
abbrev pub rows_of : Key → List Segment → List ClassifiedRow
rows_of k [] = []
rows_of k (s ∷ ss) = if key_eq (segment_key s) k then s.rows else rows_of k ss

-- A pending row of that key.
abbrev pub belongs : Key → ClassifiedRow → Bool
belongs k c = is_pending c.outcome && key_eq (key_of c) k

rows_of-add_row :
    (c : ClassifiedRow) (k : Key) (ss : List Segment)
    → rows_of k (add_row c ss)
      ≡ (if key_eq (key_of c) k then rows_of k ss ++ c ∷ [] else rows_of k ss)
unfolding add_row
rows_of-add_row c k [] = refl
rows_of-add_row c k (s ∷ ss) = elim (Bool-cases (key_eq (segment_key s) (key_of c))) [
  | inl here ↦ rw here (
      subst
        (λ j. (if key_eq (segment_key s) k then s.rows ++ c ∷ [] else rows_of k ss) ≡ (
          if key_eq j k
          then (if key_eq (segment_key s) k then s.rows else rows_of k ss) ++ c ∷ []
          else if key_eq (segment_key s) k
          then s.rows
          else rows_of k ss))
        (key_eq→eq (segment_key s) (key_of c) here) (ground arith))
  | inr there ↦ rw there (other (rows_of-add_row c k ss) there)
]
  where
    other :
        rows_of k (add_row c ss)
          ≡ (if key_eq (key_of c) k then rows_of k ss ++ c ∷ [] else rows_of k ss)
        → key_eq (segment_key s) (key_of c) ≡ false
        → (if key_eq (segment_key s) k then s.rows else rows_of k (add_row c ss)) ≡ (
            if key_eq (key_of c) k
            then (if key_eq (segment_key s) k then s.rows else rows_of k ss) ++ c ∷ []
            else if key_eq (segment_key s) k
            then s.rows
            else rows_of k ss)
    other ih d = elim (Bool-cases (key_eq (segment_key s) k)) [
      | inl a ↦ elim (Bool-cases (key_eq (key_of c) k)) [
        | inl b ↦ absurd (clash a b)
        | inr b ↦ rw (a, b) refl
      ]
      | inr a ↦ rw a ih
    ]
      where
        clash : key_eq (segment_key s) k ≡ true → key_eq (key_of c) k ≡ true → ⊥
        clash a b =
            let same : segment_key s ≡ key_of c =
              key_eq→eq (segment_key s) k a ∙ sym (key_eq→eq (key_of c) k b) in
            let test : key_eq (segment_key s) (key_of c) ≡ true =
              subst (λ j. key_eq (segment_key s) j ≡ true) same (key_eq_refl (segment_key s)) in
            cc (sym d ∙ test)

rows_of-plan_from :
    (k : Key) (cs : List ClassifiedRow) (ss : List Segment)
    → rows_of k (plan_from cs ss) ≡ rows_of k ss ++ select (belongs k) cs
unfolding plan_from
rows_of-plan_from k [] ss = sym (append-nil (rows_of k ss))
rows_of-plan_from k (c ∷ cs) ss = elim (Bool-cases (is_pending c.outcome)) [
  | inl p ↦
      rw (p, plan_from)
        (rows_of-plan_from k cs (add_row c ss)
          ∙ ap (λ l. l ++ select (belongs k) cs) (rows_of-add_row c k ss)
          ∙ regroup (key_eq (key_of c) k))
  | inr p ↦ rw (p, plan_from) (rows_of-plan_from k cs ss)
]
  where
    regroup :
        (b : Bool)
        → (if b then rows_of k ss ++ c ∷ [] else rows_of k ss) ++ select (belongs k) cs
          ≡ rows_of k ss ++ (if b then c ∷ select (belongs k) cs else select (belongs k) cs)
    regroup true = append_assoc (rows_of k ss) (c ∷ []) (select (belongs k) cs)
    regroup false = refl

-- No two segments have one key.
abbrev pub AreDistinct : List Segment → Type 0
AreDistinct [] = Unit
AreDistinct (s ∷ ss) = All (λ t. segment_key t ≢ segment_key s) ss × AreDistinct ss

All-add_row :
    (P : Key → Type 0) (c : ClassifiedRow) (ss : List Segment)
    → P (key_of c)
    → All (λ s. P (segment_key s)) ss
    → All (λ s. P (segment_key s)) (add_row c ss)
unfolding add_row
All-add_row P c [] p h = (p, tt)
All-add_row P c (s ∷ ss) p h = elim (Bool-cases (key_eq (segment_key s) (key_of c))) [
  | inl here ↦ rw here h
  | inr there ↦ rw there (h.0, All-add_row P c ss p h.1)
]

key_ne : (j k : Key) → key_eq j k ≡ false → k ≢ j
key_ne j k d e = cc (sym d ∙ subst (λ l. key_eq j l ≡ true) (sym e) (key_eq_refl j))

AreDistinct-add_row :
    (c : ClassifiedRow) (ss : List Segment) → AreDistinct ss → AreDistinct (add_row c ss)
unfolding add_row
AreDistinct-add_row c [] h = (tt, tt)
AreDistinct-add_row c (s ∷ ss) h = elim (Bool-cases (key_eq (segment_key s) (key_of c))) [
  | inl here ↦ rw here h
  | inr there ↦ rw there (
    All-add_row (λ k. k ≢ segment_key s) c ss (key_ne (segment_key s) (key_of c) there) h.0,
    AreDistinct-add_row c ss h.1,
  )
]

AreDistinct-plan_from :
    (cs : List ClassifiedRow) (ss : List Segment) → AreDistinct ss → AreDistinct (plan_from cs ss)
unfolding plan_from
AreDistinct-plan_from [] ss h = h
AreDistinct-plan_from (c ∷ cs) ss h = AreDistinct-plan_from cs _ (kept (is_pending c.outcome))
  where
    kept : (b : Bool) → AreDistinct (if b then add_row c ss else ss)
    kept true = AreDistinct-add_row c ss h
    kept false = h

-- The plan has one segment for a priority and channel at most, and that segment has exactly the
-- pending rows of this priority and channel, each once and in the order of the list.
pub plan_segments_groups :
    (cs : List ClassifiedRow)
    → AreDistinct (plan_segments cs)
      × ((k : Key) → rows_of k (plan_segments cs) ≡ select (belongs k) cs)
unfolding plan_segments
plan_segments_groups cs = (AreDistinct-plan_from cs [] tt, λ k. rows_of-plan_from k cs [])
