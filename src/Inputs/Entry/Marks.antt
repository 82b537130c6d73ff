-- ===== src/Inputs/Entry/Marks.antt =====
-- Which rows are marked as repeated.
use paperboy.Base.{
  ℕ, ◌≡◌, ◌∙◌, refl, sym, ap, Bool, true, false, ◌||◌, Option, none, some, List, [], ◌∷◌, ◌++◌, map,
  arith, Bool-cases, inl, inr, ◌↔◌, In,
}
use mathlib.Core.Path.{subst}
use paperboy.Base.Text.{Text, text_eq_refl, text_eq→eq}
use paperboy.Inputs.Entry.{
  ListRow, Address, by_id, by_name, name_eq, address_eq, key, key_eq, is_seen, mark_from,
  mark_duplicates,
}

pub name_eq→eq : (s t : Option Text) → name_eq s t ≡ true → s ≡ t
name_eq→eq none none h = refl
name_eq→eq none (some t) h = cc
name_eq→eq (some s) none h = cc
name_eq→eq (some s) (some t) h = ap some (text_eq→eq s t h)

pub name_eq_refl : (s : Option Text) → name_eq s s ≡ true
name_eq_refl none = refl
name_eq_refl (some s) = text_eq_refl s

pub address_eq→eq : (a b : Address) → address_eq a b ≡ true → a ≡ b
address_eq→eq (by_id a) (by_id b) h = ground (arith, h)
address_eq→eq (by_id a) (by_name t) h = cc
address_eq→eq (by_name s) (by_id b) h = cc
address_eq→eq (by_name s) (by_name t) h = ap by_name (name_eq→eq s t h)

pub address_eq_refl : (a : Address) → address_eq a a ≡ true
address_eq_refl (by_id a) = ground arith
address_eq_refl (by_name s) = name_eq_refl s

pub key_eq→eq : (j k : Address × ℕ) → key_eq j k ≡ true → j ≡ k
key_eq→eq (a, m) (b, n) h = ground (arith, address_eq→eq a b)

pub key_eq_refl : (k : Address × ℕ) → key_eq k k ≡ true
key_eq_refl (a, m) = ground (arith, address_eq_refl a)

pub In-is_seen : (seen : List (Address × ℕ)) (k : Address × ℕ) → is_seen seen k ≡ true → In k seen
In-is_seen [] k h = cc
In-is_seen (j ∷ seen) k h = elim (Bool-cases (key_eq j k)) [
  | inl same ↦ inl (sym (key_eq→eq j k same))
  | inr other ↦ inr (In-is_seen seen k (rw other at h))
]

pub is_seen-In : (seen : List (Address × ℕ)) (k : Address × ℕ) → In k seen → is_seen seen k ≡ true
is_seen-In [] k m = absurd m
is_seen-In (j ∷ seen) k (inl e) = ground (arith, subst (λ l. key_eq l k ≡ true) e (key_eq_refl k))
is_seen-In (j ∷ seen) k (inr m) = ground (arith, is_seen-In seen k m)

-- The row with its mark.
abbrev pub marked : ListRow → Bool → ListRow
marked r b = record r { duplicate = b }

is_seen_moves :
    (before seen : List (Address × ℕ)) (j k : Address × ℕ)
    → is_seen before k || is_seen (j ∷ seen) k ≡ is_seen (j ∷ before) k || is_seen seen k
is_seen_moves before seen j k = ground arith

mark_from-last :
    (seen : List (Address × ℕ)) (before : List ListRow) (r : ListRow)
    → mark_from seen (before ++ r ∷ [])
      ≡ mark_from seen before
        ++ marked r (is_seen (map key before) (key r) || is_seen seen (key r)) ∷ []
unfolding mark_from
mark_from-last seen [] r = refl
mark_from-last seen (p ∷ before) r =
    ap (λ l. marked p (is_seen seen (key p)) ∷ l)
      (mark_from-last (key p ∷ seen) before r
        ∙ ap (λ b. mark_from (key p ∷ seen) before ++ marked r b ∷ [])
            (is_seen_moves (map key before) seen (key p) (key r)))

or_false : (b : Bool) → b || false ≡ b
or_false true = refl
or_false false = refl

-- A row that is added at the end of a list leaves the marks before it as they are, and is marked
-- exactly if an earlier row addresses the same message in the same way.
pub mark_duplicates-last :
    (before : List ListRow) (r : ListRow)
    → (b : Bool) × (mark_duplicates (before ++ r ∷ []) ≡ mark_duplicates before ++ marked r b ∷ [])
      × ((b ≡ true) ↔ In (key r) (map key before))
unfolding mark_duplicates
mark_duplicates-last before r = (
  is_seen (map key before) (key r),
  mark_from-last [] before r
      ∙ ap (λ b. mark_from [] before ++ marked r b ∷ [])
          (or_false (is_seen (map key before) (key r))),
  (In-is_seen (map key before) (key r), is_seen-In (map key before) (key r)),
)
