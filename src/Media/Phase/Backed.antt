-- ===== src/Media/Phase/Backed.antt =====
-- What `_held` finds in the store.
use mathlib.Core.Path.{subst}
use paperboy.Base.{
  ◌≡◌, ◌∙◌, refl, sym, Bool, true, false, not, ◌&&◌, Option, none, some, List, [], ◌∷◌, arith,
  if◌then◌else◌, Bool-cases, inl, inr, All, In, All-at,
}
use paperboy.Base.Text.{Text, text_eq, text_eq→eq}
use paperboy.Base.Assoc.{get, some_injective}
use paperboy.Media.Keys.{is_media_key}
use paperboy.Media.Content.{FileRow, Sighting, Index, path_of}
use paperboy.Media.Store.{
  Objects, Store, Network, Result, ok, unreachable, integrity, value_error, ◌>>=◌, ◌>>◌, is_there,
  has_object, exists, compare_checksum, verify_existing, stored_in,
}
use paperboy.Media.Phase.State.{Work, Run}
use paperboy.Media.Phase.Place.{vouch, held}

-- There is an object under the key. In a store that reports checksums, it has the checksum of bytes
-- with that sha.
abbrev pub Holds : Run → Objects → Text → Text → Type 0
Holds r objects key sha =
    (bytes : Text) × (get text_eq key objects ≡ some bytes)
    × (r.store.verifiable ≡ true
        → (origin : Text) × (r.sha256 origin ≡ sha)
          × (r.store.crc32c origin ≡ r.store.crc32c bytes))

-- The sighting names the location of its file, and if it names this store, the file is there.
pub record IsBacked (r : Run) (files : List FileRow) (objects : Objects) (c : Sighting)
    : Type 0 where
  pub located : path_of c.sha256 files ≡ some c.path
  pub stored : c.store ≡ r.store.store_id → Holds r objects c.path c.sha256

pub record IsSound (r : Run) (files : List FileRow) (custody : List Sighting) (objects : Objects)
    (index : Index) : Type 0 where
  pub sightings : All (IsBacked r files objects) custody
  pub known : All (λ e. path_of (e.1.0) files ≡ some (e.1.1)) index

abbrev pub Sound : Run → Work → Type 0
Sound r w = IsSound r w.files w.custody w.objects w.index

stored_in_finds :
    (sha store_id : Text) (cs : List Sighting)
    → stored_in sha store_id cs ≡ true
    → (c : Sighting) × In c cs × (c.sha256 ≡ sha) × (c.store ≡ store_id)
unfolding stored_in
stored_in_finds sha store_id [] h = cc
stored_in_finds sha store_id (c ∷ cs) h =
    elim (Bool-cases (text_eq c.sha256 sha && text_eq c.store store_id)) [
      | inl here ↦ (
        c,
        inl refl,
        ground (arith, text_eq→eq c.sha256 sha),
        ground (arith, text_eq→eq c.store store_id),
      )
      | inr there ↦ later (stored_in_finds sha store_id cs (rw there at h))
    ]
  where
    later :
        (d : Sighting) × In d cs × (d.sha256 ≡ sha) × (d.store ≡ store_id)
        → (d : Sighting) × In d (c ∷ cs) × (d.sha256 ≡ sha) × (d.store ≡ store_id)
    later (d, m, e, f) = (d, inr m, e, f)

pub object_at :
    (found : Option Text) → is_there found ≡ true → (bytes : Text) × (found ≡ some bytes)
object_at none h = cc
object_at (some b) h = (b, refl)

pub then_ok :
    {A : Type 0} (m : Result (Unit {0})) (k : Result A) (a : A) → m >> k ≡ ok a → m ≡ ok tt
then_ok (ok tt) k a h = refl
then_ok unreachable k a h = cc
then_ok integrity k a h = cc
then_ok value_error k a h = cc

module _ (s : Store) (n : Network) (o : Objects) (key : Text) where
  pub exists_there : exists s n o key ≡ ok true → has_object key o ≡ true
  unfolding exists
  exists_there h = by_tests (is_media_key key) (s.verifiable && not n.exists_reached) h
    where
      by_tests :
          (good away : Bool)
          → ((if good then ok tt else value_error)
              >> ((if away then unreachable else ok tt) >> ok (has_object key o)))
            ≡ ok true
          → has_object key o ≡ true
      by_tests false away e = cc
      by_tests true true e = cc
      by_tests true false e = cc

  pub verified :
      (expected bytes : Text)
      → verify_existing s n o key expected ≡ ok tt
      → get text_eq key o ≡ some bytes
      → s.verifiable ≡ true
      → s.crc32c bytes ≡ expected
  unfolding verify_existing
  verified expected bytes h e v = by_tests (is_media_key key) (not n.metadata_reached) (rw v at h)
    where
      compared :
          compare_checksum s.crc32c expected (get text_eq key o) ≡ ok tt → s.crc32c bytes ≡ expected
      compared c = ground (arith, text_eq→eq (s.crc32c bytes) expected)

      by_tests :
          (good away : Bool)
          → ((if good then ok tt else value_error)
              >> ((if away then unreachable else ok tt)
                  >> compare_checksum s.crc32c expected (get text_eq key o)))
            ≡ ok tt
          → s.crc32c bytes ≡ expected
      by_tests false away g = cc
      by_tests true true g = cc
      by_tests true false g = compared g

-- What was found without a checksum, in a store that could not give one.
module _ (r : Run) (n : Network) (w : Work) (sha key : Text) where
  found_before :
      stored_in sha r.store.store_id w.custody ≡ true
      → Sound r w
      → path_of sha w.files ≡ some key
      → Holds r w.objects key sha
  found_before h v e =
      let (c, m, same_sha, same_store) = stored_in_finds sha r.store.store_id w.custody h in
      let backed : IsBacked r w.files w.objects c =
        All-at (IsBacked r w.files w.objects) c w.custody v.sightings m in
      let located : path_of sha w.files ≡ some c.path =
        subst (λ t. path_of t w.files ≡ some c.path) same_sha backed.located in
      let same_path : c.path ≡ key = some_injective c.path key (sym located ∙ e) in
      subst (λ p. Holds r w.objects p sha) same_path
        (subst (λ t. Holds r w.objects c.path t) same_sha (backed.stored same_store))

  pub held_early :
      held r n w sha key none ≡ ok true
      → Sound r w
      → path_of sha w.files ≡ some key
      → Holds r w.objects key sha
  unfolding held
  held_early h v e = elim (Bool-cases (stored_in sha r.store.store_id w.custody)) [
    | inl before ↦ found_before before v e
    | inr new ↦ by_exists (exists r.store n w.objects key) refl (rw new at h)
  ]
    where
      by_exists :
          (b : Result Bool)
          → exists r.store n w.objects key ≡ b
          → (b >>= λ there. if there then vouch r.store n w.objects key none else ok false)
            ≡ ok true
          → Holds r w.objects key sha
      by_exists (ok true) x g =
          let (bytes, at_key) =
            object_at (get text_eq key w.objects) (exists_there r.store n w.objects key x) in
          (bytes, at_key, λ v'. ground (arith, g))
      by_exists (ok false) x g = cc
      by_exists unreachable x g = cc
      by_exists integrity x g = cc
      by_exists value_error x g = cc

  pub held_late :
      (origin : Text)
      → r.sha256 origin ≡ sha
      → held r n w sha key (some (r.store.crc32c origin)) ≡ ok true
      → Sound r w
      → path_of sha w.files ≡ some key
      → Holds r w.objects key sha
  unfolding held
  held_late origin o h v e = elim (Bool-cases (stored_in sha r.store.store_id w.custody)) [
    | inl before ↦ found_before before v e
    | inr new ↦ by_exists (exists r.store n w.objects key) refl (rw new at h)
  ]
    where
      by_exists :
          (b : Result Bool)
          → exists r.store n w.objects key ≡ b
          → (b >>= λ there.
              if there
              then vouch r.store n w.objects key (some (r.store.crc32c origin))
              else ok false)
            ≡ ok true
          → Holds r w.objects key sha
      by_exists (ok true) x g =
          let (bytes, at_key) =
            object_at (get text_eq key w.objects) (exists_there r.store n w.objects key x) in
          (
            bytes,
            at_key,
            λ v'. (
              origin,
              o,
              sym (
                  verified r.store n w.objects key (r.store.crc32c origin) bytes
                    (then_ok (verify_existing r.store n w.objects key (r.store.crc32c origin))
                      (ok true) true g)
                    at_key v'),
            ),
          )
      by_exists (ok false) x g = cc
      by_exists unreachable x g = cc
      by_exists integrity x g = cc
      by_exists value_error x g = cc
