-- ===== src/Media/Phase/Progressed.antt =====
-- How far the counts, the custody log and the outcomes have come.
use paperboy.Base.{
  ℕ, suc, ◌+◌, ◌≡◌, refl, Bool, true, Option, none, some, List, [], ◌∷◌, arith, Bool-cases, inl,
  inr, length,
}
use paperboy.Base.Text.{Text, text_eq, text_eq_refl}
use paperboy.Base.Assoc.{get, set}
use paperboy.Media.Content.{ContentKey, Sighting}
use paperboy.Media.Store.{is_there}
use paperboy.Media.Phase.State.{Work, Step, goes_on, ends, remember, Outcome, Counts}

-- The rows that the phase is done with, with those outside the window or the selection.
abbrev pub total : Counts → ℕ
total c =
    c.downloaded + c.duplicates + c.unavailable + c.skipped_kind + c.skipped + c.size_mismatch
    + c.too_large + c.out_of_window + c.not_selected

-- The message has an outcome.
abbrev pub is_noted : Text → List (Text × Outcome) → Bool
is_noted uri outcomes = is_there (get text_eq uri outcomes)

pub is_noted-set_self :
    (u : Text) (o : Outcome) (d : List (Text × Outcome)) → is_noted u (set text_eq u o d) ≡ true
is_noted-set_self u o [] = rw (text_eq_refl u) refl
is_noted-set_self u o ((v, p) ∷ d) = elim (Bool-cases (text_eq v u)) [
  | inl same ↦ rw same (rw same refl)
  | inr other ↦ rw other (rw other (is_noted-set_self u o d))
]

pub is_noted-set :
    (u v : Text) (o : Outcome) (d : List (Text × Outcome))
    → is_noted u d ≡ true
    → is_noted u (set text_eq v o d) ≡ true
is_noted-set u v o [] h = cc
is_noted-set u v o ((k, p) ∷ d) h = ground (arith, is_noted-set u v o d)

-- What `n` more rows did: each is counted once, the files that were downloaded or held already have
-- one sighting each, and no outcome is lost.
pub record Progress (n : ℕ) (counts : Counts) (custody : List Sighting)
    (outcomes : List (Text × Outcome)) (counts' : Counts) (custody' : List Sighting)
    (outcomes' : List (Text × Outcome)) : Type 0 where
  pub counted : total counts' ≡ total counts + n
  pub sighted :
      length custody' + counts.downloaded + counts.duplicates
      ≡ length custody + counts'.downloaded + counts'.duplicates
  pub noted : (u : Text) → is_noted u outcomes ≡ true → is_noted u outcomes' ≡ true

abbrev pub Progresses : ℕ → Work → Work → Type 0
Progresses n w w' = Progress n w.counts w.custody w.outcomes w'.counts w'.custody w'.outcomes

pub Progresses-refl : (w : Work) → Progresses 0 w w
Progresses-refl w = record { counted = omega arith; sighted = refl; noted = λ u h. h }

pub Progresses-next :
    (n : ℕ) (w v u : Work) → Progresses 1 w v → Progresses n v u → Progresses (suc n) w u
Progresses-next n w v u h k = record {
  counted = omega (arith, h.counted, k.counted);
  sighted = omega (arith, h.sighted, k.sighted);
  noted = λ x g. k.noted x (h.noted x g);
}

-- A step that goes on is done with its row; one that ends the phase has counted nothing.
abbrev pub Advances : Text → Work → Step → Type 0
Advances uri w (goes_on w') = Progresses 1 w w' × (is_noted uri w'.outcomes ≡ true)
Advances uri w (ends why w') = Progresses 0 w w'

pub Advances-remember :
    (uri : Text) (w w' : Work) (key : Option ContentKey) (file : Text × Text)
    → Advances uri w (goes_on w')
    → Advances uri w (goes_on (remember key file w'))
Advances-remember uri w w' none file h = h
Advances-remember uri w w' (some k) file h = h
