-- ===== src/Media/Phase/Kept.antt =====
-- The objects of a store that placing a file keeps.
use paperboy.Base.{
  ◌≡◌, refl, sym, ap, [], ◌∷◌, Bool, true, false, not, Option, none, some, arith, if◌then◌else◌,
  Bool-cases, inl, inr,
}
use mathlib.Core.Path.{subst}
use paperboy.Base.Text.{Text, text_eq, text_eq_refl}
use paperboy.Base.Assoc.{get, set, get-set_new}
use paperboy.Media.Keys.{is_media_key}
use paperboy.Media.Store.{
  Objects, Store, Network, Result, ok, unreachable, integrity, value_error, is_there, has_object,
  with_rival, put, create, commit, find_key, exists,
}
use paperboy.Media.Phase.Place.{lost_race, place_new, place_found, place_reusing, place}

-- Every object is still there, with the same bytes.
abbrev pub Keeps : Objects → Objects → Type 0
Keeps o o' =
    (key : Text) (bytes : Text) → get text_eq key o ≡ some bytes → get text_eq key o' ≡ some bytes

pub Keeps-trans : (o p q : Objects) → Keeps o p → Keeps p q → Keeps o q
Keeps-trans o p q f g key bytes e = g key bytes (f key bytes e)

pub not_there : (found : Option Text) → is_there found ≡ false → found ≡ none
not_there none h = refl
not_there (some b) h = cc

pub Keeps-put :
    (key bytes : Text) (o : Objects) → has_object key o ≡ false → Keeps o (put key bytes o)
Keeps-put key bytes o h j b e =
    get-set_new text_eq key j bytes b o (not_there (get text_eq key o) h) e

pub Keeps-with_rival :
    (key : Text) (rival : Option Text) (o : Objects) → Keeps o (with_rival key rival o)
Keeps-with_rival key none o j b e = e
Keeps-with_rival key (some bytes) o j b e = elim (Bool-cases (has_object key o)) [
  | inl there ↦ rw there e
  | inr new ↦ rw new (Keeps-put key bytes o new j b e)
]

set-set :
    (key a b : Text) (o : Objects) → set text_eq key b (set text_eq key a o) ≡ set text_eq key b o
set-set key a b [] = rw (text_eq_refl key) refl
set-set key a b ((j, c) ∷ o) = elim (Bool-cases (text_eq j key)) [
  | inl same ↦ rw (same, same) refl
  | inr other ↦ rw (other, other) (ap (λ l. (j, c) ∷ l) (set-set key a b o))
]

-- A put leaves the same, whether or not another writer has just created the object.
pub put-with_rival :
    (key bytes : Text) (rival : Option Text) (o : Objects)
    → put key bytes (with_rival key rival o) ≡ put key bytes o
put-with_rival key bytes none o = refl
put-with_rival key bytes (some a) o = elim (Bool-cases (has_object key o)) [
  | inl there ↦ rw there refl
  | inr new ↦ rw new (set-set key a bytes o)
]

pub Keeps-create :
    (s : Store) (n : Network) (o : Objects) (bytes key expected : Text)
    → has_object key o ≡ false
    → Keeps o (create s n o bytes key expected).0
Keeps-create s n o bytes key expected h j b e = ground (arith, Keeps-put key bytes o h j b e)

pub Keeps-commit :
    (s : Store) (n : Network) (o : Objects) (bytes key expected : Text)
    → Keeps o (commit s n o bytes key expected).0
unfolding commit
Keeps-commit s n o bytes key expected =
    by_tests (is_media_key key) (has_object key (with_rival key n.rival o)) s.verifiable refl
  where
    first : Keeps o (with_rival key n.rival o)
    first = Keeps-with_rival key n.rival o

    by_tests :
        (good there bucket : Bool)
        → has_object key (with_rival key n.rival o) ≡ there
        → Keeps o
            (if not good
              then (o, value_error)
              else if there
              then (with_rival key n.rival o, ok false)
              else if bucket
              then create s n (with_rival key n.rival o) bytes key expected
              else (
                put key bytes (with_rival key n.rival_late (with_rival key n.rival o)),
                ok true,
              )).0
    by_tests false there bucket h = λ j b e. e
    by_tests true true bucket h = first
    by_tests true false true h =
        Keeps-trans o (with_rival key n.rival o)
          (create s n (with_rival key n.rival o) bytes key expected).0 first
          (Keeps-create s n (with_rival key n.rival o) bytes key expected h)
    by_tests true false false h =
        subst (Keeps o) (sym (put-with_rival key bytes n.rival_late (with_rival key n.rival o))) (
          Keeps-trans o (with_rival key n.rival o) (put key bytes (with_rival key n.rival o)) first
            (Keeps-put key bytes (with_rival key n.rival o) h))

module _ (s : Store) (n : Network) (o : Objects) (bytes loc crc : Text) where
  pub Keeps-lost_race :
      (r : Objects × Result Bool) → Keeps o r.0 → Keeps o (lost_race s n loc crc r).0
  Keeps-lost_race (p, ok true) h = h
  Keeps-lost_race (p, ok false) h = h
  Keeps-lost_race (p, unreachable) h = h
  Keeps-lost_race (p, integrity) h = h
  Keeps-lost_race (p, value_error) h = h

  pub Keeps-place_new : Keeps o (place_new s n o bytes loc crc).0
  Keeps-place_new = Keeps-lost_race (commit s n o bytes loc crc) (Keeps-commit s n o bytes loc crc)

  pub Keeps-place_found : (r : Result (Option Text)) → Keeps o (place_found s n o bytes loc crc r).0
  Keeps-place_found (ok none) = Keeps-place_new
  Keeps-place_found (ok (some key)) = λ j b e. e
  Keeps-place_found unreachable = λ j b e. e
  Keeps-place_found integrity = λ j b e. e
  Keeps-place_found value_error = λ j b e. e

  pub Keeps-place_reusing :
      (sha : Text) (r : Result Bool) → Keeps o (place_reusing s n o bytes sha loc crc r).0
  Keeps-place_reusing sha (ok true) = λ j b e. e
  Keeps-place_reusing sha (ok false) = Keeps-place_found (find_key s n o sha)
  Keeps-place_reusing sha unreachable = λ j b e. e
  Keeps-place_reusing sha integrity = λ j b e. e
  Keeps-place_reusing sha value_error = λ j b e. e

  pub Keeps-place : (sha : Text) (reuse : Bool) → Keeps o (place s n o bytes sha loc crc reuse).0
  unfolding place
  Keeps-place sha true = Keeps-place_reusing sha (exists s n o loc)
  Keeps-place sha false = Keeps-place_new
