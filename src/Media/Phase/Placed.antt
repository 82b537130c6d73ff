-- ===== src/Media/Phase/Placed.antt =====
-- What `_place` leaves in the store.
use mathlib.Core.Path.{subst}
use paperboy.Base.{
  ◌≡◌, refl, sym, Bool, true, false, not, ◌&&◌, ◌||◌, Option, none, some, [], ◌∷◌, ◌++◌,
  if◌then◌else◌, Bool-cases, inl, inr, take,
}
use paperboy.Base.Text.{Text, text_eq, text_eq_refl}
use paperboy.Base.Assoc.{get, set, get-set_self, some_injective}
use paperboy.Media.Keys.{media_prefix, is_sha, is_media_key}
use paperboy.Media.Store.{
  Objects, Store, Network, Result, ok, unreachable, integrity, value_error, ◌>>◌, is_there,
  has_object, exists, verify_existing, starts, lesser, text_lt, least_key, find_key, Upload,
  accepted, lost_before, lost_after, put, create, with_rival, commit,
}
use paperboy.Media.Phase.State.{Run}
use paperboy.Media.Phase.Backed.{Holds, verified, exists_there, object_at}
use paperboy.Media.Phase.Place.{lost_race, place_new, place_found, place_reusing, place}

has_object-more :
    (k b : Text) (o : Objects) (j : Text) → has_object j o ≡ true → has_object j ((k, b) ∷ o) ≡ true
has_object-more k b o j h = elim (Bool-cases (text_eq k j)) [
  | inl same ↦ rw same refl
  | inr other ↦ rw other h
]

least_key_there :
    (prefix : Text) (o : Objects) (key : Text)
    → least_key prefix o ≡ some key
    → has_object key o ≡ true
unfolding least_key
least_key_there prefix [] key h = cc
least_key_there prefix ((k, b) ∷ o) key h =
    by_rest (least_key prefix o) (λ j e. has_object-more k b o j (least_key_there prefix o j e))
      (starts prefix k && is_media_key k) h
  where
    of_head : is_there (get text_eq k ((k, b) ∷ o)) ≡ true
    of_head = rw (text_eq_refl k) refl

    by_rest :
        (rest : Option Text)
        → ((j : Text) → rest ≡ some j → has_object j ((k, b) ∷ o) ≡ true)
        → (hit : Bool) → (if hit then lesser k rest else rest) ≡ some key
        → has_object key ((k, b) ∷ o) ≡ true
    by_rest none e true g =
        subst (λ t. has_object t ((k, b) ∷ o) ≡ true) (some_injective k key g) of_head
    by_rest (some j) e true g = elim (Bool-cases (text_lt k j)) [
      | inl less ↦
          subst (λ t. has_object t ((k, b) ∷ o) ≡ true) (some_injective k key (rw less at g))
            of_head
      | inr more ↦ e key (rw more at g)
    ]
    by_rest rest e false g = e key g

find_key_there :
    (s : Store) (n : Network) (o : Objects) (sha key : Text)
    → find_key s n o sha ≡ ok (some key)
    → has_object key o ≡ true
unfolding find_key
find_key_there s n o sha key h =
    least_key_there (media_prefix ++ (take 2 sha ++ (b'/' ∷ sha))) o key
      (by_tests s.verifiable n.list_reached (is_sha sha) h)
  where
    by_tests :
        {found : Option Text} (bucket listed good : Bool)
        → (if bucket
            then (if listed then ok found else unreachable)
            else ok (if good then found else none))
          ≡ ok (some key)
        → found ≡ some key
    by_tests true true good g = cc
    by_tests true false good g = cc
    by_tests false listed true g = cc
    by_tests false listed false g = cc

-- After a commit that succeeded, the object has the bytes; after one that lost, there is one.
abbrev Committed : Text → Text → Objects × Result Bool → Type 0
Committed key bytes (o, ok true) = get text_eq key o ≡ some bytes
Committed key bytes (o, ok false) = has_object key o ≡ true
Committed key bytes (o, unreachable) = Unit
Committed key bytes (o, integrity) = Unit
Committed key bytes (o, value_error) = Unit

Committed-put :
    (key bytes : Text) (o : Objects) → get text_eq key (set text_eq key bytes o) ≡ some bytes
Committed-put key bytes o = get-set_self text_eq key bytes o (text_eq_refl key)

Committed-create :
    (s : Store) (n : Network) (o : Objects) (bytes key expected : Text)
    → Committed key bytes (create s n o bytes key expected)
Committed-create s n o bytes key expected = by_tests n.upload (text_eq (s.crc32c bytes) expected)
  where
    by_tests :
        (u : Upload) (agrees : Bool)
        → Committed key bytes (elim u [
          | lost_before ↦ (o, unreachable)
          | lost_after ↦ (if agrees || not n.server_checks then put key bytes o else o, unreachable)
          | accepted ↦
              if agrees
              then (put key bytes o, ok true)
              else (if n.server_checks then o else put key bytes o, integrity)
        ])
    by_tests lost_before agrees = tt
    by_tests lost_after agrees = tt
    by_tests accepted true = Committed-put key bytes o
    by_tests accepted false = tt

Committed-commit :
    (s : Store) (n : Network) (o : Objects) (bytes key expected : Text)
    → Committed key bytes (commit s n o bytes key expected)
unfolding commit
Committed-commit s n o bytes key expected =
    by_tests (is_media_key key) (has_object key (with_rival key n.rival o)) s.verifiable refl
  where
    by_tests :
        (good there bucket : Bool)
        → has_object key (with_rival key n.rival o) ≡ there
        → Committed key bytes (
            if not good
            then (o, value_error)
            else if there
            then (with_rival key n.rival o, ok false)
            else if bucket
            then create s n (with_rival key n.rival o) bytes key expected
            else (put key bytes (with_rival key n.rival_late (with_rival key n.rival o)), ok true))
    by_tests false there bucket h = tt
    by_tests true true bucket h = h
    by_tests true false true h = Committed-create s n (with_rival key n.rival o) bytes key expected
    by_tests true false false h =
        Committed-put key bytes (with_rival key n.rival_late (with_rival key n.rival o))

-- What `_place` reports is in the store under the key that it reports.
abbrev pub Placed : Run → Text → Objects × Result (Text × Bool) → Type 0
Placed r sha (o, ok (loc, lost)) = Holds r o loc sha
Placed r sha (o, unreachable) = Unit
Placed r sha (o, integrity) = Unit
Placed r sha (o, value_error) = Unit

module _ (r : Run) (n : Network) (bytes : Text) where
  after_verify :
      (o : Objects) (loc : Text) (lost : Bool)
      → has_object loc o ≡ true
      → Placed r
          (r.sha256 bytes)
          (o, verify_existing r.store n o loc (r.store.crc32c bytes) >> ok (loc, lost))
  after_verify o loc lost h =
      by_result (verify_existing r.store n o loc (r.store.crc32c bytes)) refl
    where
      by_result :
          (v : Result (Unit {0}))
          → verify_existing r.store n o loc (r.store.crc32c bytes) ≡ v
          → Placed r (r.sha256 bytes) (o, v >> ok (loc, lost))
      by_result (ok tt) e =
          let (b, at_key) = object_at (get text_eq loc o) h in
          (
            b,
            at_key,
            λ v. (bytes, refl, sym (verified r.store n o loc (r.store.crc32c bytes) b e at_key v)),
          )
      by_result unreachable e = tt
      by_result integrity e = tt
      by_result value_error e = tt

  Placed-lost_race :
      (loc : Text) (c : Objects × Result Bool)
      → Committed loc bytes c
      → Placed r (r.sha256 bytes) (lost_race r.store n loc (r.store.crc32c bytes) c)
  Placed-lost_race loc (o, ok true) h = (bytes, h, λ v. (bytes, refl, refl))
  Placed-lost_race loc (o, ok false) h = after_verify o loc true h
  Placed-lost_race loc (o, unreachable) h = tt
  Placed-lost_race loc (o, integrity) h = tt
  Placed-lost_race loc (o, value_error) h = tt

  Placed-place_new :
      (o : Objects) (loc : Text)
      → Placed r (r.sha256 bytes) (place_new r.store n o bytes loc (r.store.crc32c bytes))
  Placed-place_new o loc =
      Placed-lost_race loc (commit r.store n o bytes loc (r.store.crc32c bytes))
        (Committed-commit r.store n o bytes loc (r.store.crc32c bytes))

  Placed-place_found :
      (o : Objects) (loc : Text) (f : Result (Option Text))
      → find_key r.store n o (r.sha256 bytes) ≡ f
      → Placed r (r.sha256 bytes) (place_found r.store n o bytes loc (r.store.crc32c bytes) f)
  Placed-place_found o loc (ok none) e = Placed-place_new o loc
  Placed-place_found o loc (ok (some key)) e =
      after_verify o key false (find_key_there r.store n o (r.sha256 bytes) key e)
  Placed-place_found o loc unreachable e = tt
  Placed-place_found o loc integrity e = tt
  Placed-place_found o loc value_error e = tt

  Placed-place_reusing :
      (o : Objects) (loc : Text) (b : Result Bool)
      → exists r.store n o loc ≡ b
      → Placed r
          (r.sha256 bytes)
          (place_reusing r.store n o bytes (r.sha256 bytes) loc (r.store.crc32c bytes) b)
  Placed-place_reusing o loc (ok true) e = after_verify o loc false (exists_there r.store n o loc e)
  Placed-place_reusing o loc (ok false) e =
      Placed-place_found o loc (find_key r.store n o (r.sha256 bytes)) refl
  Placed-place_reusing o loc unreachable e = tt
  Placed-place_reusing o loc integrity e = tt
  Placed-place_reusing o loc value_error e = tt

  pub Placed-place :
      (o : Objects) (loc : Text) (reuse : Bool)
      → Placed r
          (r.sha256 bytes)
          (place r.store n o bytes (r.sha256 bytes) loc (r.store.crc32c bytes) reuse)
  unfolding place
  Placed-place o loc true = Placed-place_reusing o loc (exists r.store n o loc) refl
  Placed-place o loc false = Placed-place_new o loc

-- Without reuse, the key is the one that was asked for.
abbrev pub PlacedAt : Text → Objects × Result (Text × Bool) → Type 0
PlacedAt loc (o, ok (key, lost)) = key ≡ loc
PlacedAt loc (o, unreachable) = Unit
PlacedAt loc (o, integrity) = Unit
PlacedAt loc (o, value_error) = Unit

PlacedAt-verify :
    (o : Objects) (loc : Text) (lost : Bool) (v : Result (Unit {0}))
    → PlacedAt loc (o, v >> ok (loc, lost))
PlacedAt-verify o loc lost (ok tt) = refl
PlacedAt-verify o loc lost unreachable = tt
PlacedAt-verify o loc lost integrity = tt
PlacedAt-verify o loc lost value_error = tt

PlacedAt-lost_race :
    (s : Store) (n : Network) (loc crc : Text) (c : Objects × Result Bool)
    → PlacedAt loc (lost_race s n loc crc c)
PlacedAt-lost_race s n loc crc (o, ok true) = refl
PlacedAt-lost_race s n loc crc (o, ok false) =
    PlacedAt-verify o loc true (verify_existing s n o loc crc)
PlacedAt-lost_race s n loc crc (o, unreachable) = tt
PlacedAt-lost_race s n loc crc (o, integrity) = tt
PlacedAt-lost_race s n loc crc (o, value_error) = tt

pub PlacedAt-place :
    (s : Store) (n : Network) (o : Objects) (bytes sha loc crc : Text)
    → PlacedAt loc (place s n o bytes sha loc crc false)
unfolding place
PlacedAt-place s n o bytes sha loc crc = PlacedAt-lost_race s n loc crc (commit s n o bytes loc crc)
