-- ===== src/Fetch/Covers.antt =====
-- Exclusion only grows, and what is not excluded is not covered.
use paperboy.Base.{
  ℕ, ◌≡◌, refl, Bool, true, false, Option, none, some, List, [], ◌∷◌, arith, Bool-cases, inl, inr,
}
use paperboy.Inputs.Classify.{is_in}
use paperboy.Fetch.Exclusion.{add_id, union, Covered, cover, cover_group, follows_any, excludes}

-- Every id of the first set is in the second.
abbrev pub Within : List ℕ → List ℕ → Type 0
Within ids ids' = (x : ℕ) → is_in ids x ≡ true → is_in ids' x ≡ true

Within-add : (c : ℕ) (ids : List ℕ) → Within ids (add_id c ids)
Within-add c ids x h = ground arith

Within-cons : (c : ℕ) (ids : List ℕ) → Within ids (c ∷ ids)
Within-cons c ids x h = ground arith

Within-union : (ids cs : List ℕ) → Within ids (union ids cs)
Within-union ids [] x h = h
Within-union ids (c ∷ cs) x h = Within-add c (union ids cs) x (Within-union ids cs x h)

-- What a check of a channel comes to: the set has grown, and if the channel is not covered, the set
-- is as it was, without the channel.
abbrev pub CoversWell : List ℕ → ℕ → Covered → Type 0
CoversWell excluded c none = Unit
CoversWell excluded c (some (ex, true)) = Within excluded ex
CoversWell excluded c (some (ex, false)) = (ex ≡ excluded) × (is_in excluded c ≡ false)

pub excludes-CoversWell :
    (linked : ℕ → Option (List ℕ)) (excluded : List ℕ) (c : ℕ)
    → CoversWell excluded c (excludes linked excluded c)
unfolding excludes
excludes-CoversWell linked excluded c = elim (Bool-cases (is_in excluded c)) [
  | inl named ↦ rw named (by_linked (linked c))
  | inr new ↦ rw new (by_group (follows_any linked c excluded) new)
]
  where
    by_linked : (l : Option (List ℕ)) → CoversWell excluded c (cover excluded l)
    by_linked none = tt
    by_linked (some ids) = Within-union excluded ids

    of_group : (l : Option (List ℕ)) → CoversWell excluded c (cover (c ∷ excluded) l)
    of_group none = tt
    of_group (some ids) = λ x h. Within-union (c ∷ excluded) ids x (Within-cons c excluded x h)

    by_group :
        (b : Option Bool)
        → is_in excluded c ≡ false
        → CoversWell excluded c (cover_group linked excluded c b)
    by_group none n = tt
    by_group (some true) n = of_group (linked c)
    by_group (some false) n = (refl, n)
