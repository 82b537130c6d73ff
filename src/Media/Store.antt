-- ===== src/Media/Store.antt =====
-- media_store.py: the media stores, a profile folder or a bucket, over the objects that they hold.
use paperboy.Base.{
  Bool, true, false, not, ◌&&◌, ◌||◌, Option, none, some, List, [], ◌∷◌, ◌++◌, ltb, ◌==◌,
  if◌then◌else◌, take,
}
use paperboy.Base.Text.{Text, text_eq}
use paperboy.Base.Assoc.{Assoc, get, set}
use paperboy.Inputs.Scan.{after}
use paperboy.Media.Keys.{is_media_key, is_sha, media_prefix}
use paperboy.Media.Content.{Sighting}

-- The bytes of each object, by its key.
abbrev pub Objects : Type 0
Objects = Assoc Text Text

-- `store_id`, and whether the store reports a checksum: a bucket does, the profile folder does not.
-- `crc32c` is the checksum's text.
pub record Store : Type 0 where
  pub store_id : Text
  pub verifiable : Bool
  pub crc32c : Text → Text

-- What may happen to a request of a bucket: it can fail before or after it is done.
pub data Upload : Type 0 where
  accepted lost_before lost_after : Upload

-- One file's requests: which of them reach the store, what another writer creates under the key
-- before `commit` looks for it and, in the profile folder, between that look and the rename, and
-- whether the server compares the checksum that it is sent.
pub record Network : Type 0 where
  pub exists_reached : Bool
  pub metadata_reached : Bool
  pub list_reached : Bool
  pub upload : Upload
  pub rival : Option Text
  pub rival_late : Option Text
  pub server_checks : Bool

-- A result, or `MediaStoreError`, `MediaStoreIntegrityError`, `ValueError`.
pub data Result (A : Type 0) : Type 0 where
  ok : A → Result A
  unreachable integrity value_error : Result A

infixl 5 ◌>>=◌ ◌>>◌
abbrev pub ◌>>=◌ : {A B : Type 0} → Result A → (A → Result B) → Result B
ok a >>= f = f a
unreachable >>= f = unreachable
integrity >>= f = integrity
value_error >>= f = value_error

abbrev pub ◌>>◌ : {B : Type 0} → Result (Unit {0}) → Result B → Result B
m >> k = m >>= λ _. k

-- A request of the bucket may not reach it. The profile folder is always at hand.
abbrev pub reached : Store → Bool → Result (Unit {0})
reached s ok_now = if s.verifiable && not ok_now then unreachable else ok tt

abbrev pub checked : Text → Result (Unit {0})
checked key = if is_media_key key then ok tt else value_error

abbrev pub is_there : {A : Type 0} → Option A → Bool
is_there none = false
is_there (some b) = true

abbrev pub has_object : Text → Objects → Bool
has_object key objects = is_there (get text_eq key objects)

unfoldable pub exists : Store → Network → Objects → Text → Result Bool
exists s n objects key = do checked key; reached s n.exists_reached; ok (has_object key objects)

-- `verify_existing`, with the store's `crc32c` of the object.
abbrev pub compare_checksum : (Text → Text) → Text → Option Text → Result (Unit {0})
compare_checksum crc32c expected none = ok tt
compare_checksum crc32c expected (some bytes) =
    if text_eq (crc32c bytes) expected then ok tt else integrity

unfoldable pub verify_existing : Store → Network → Objects → Text → Text → Result (Unit {0})
verify_existing s n objects key expected = if not s.verifiable then ok tt else do
  checked key
  reached s n.metadata_reached
  compare_checksum s.crc32c expected (get text_eq key objects)

-- The order of `sorted` on texts.
abbrev pub text_lt : Text → Text → Bool
text_lt [] [] = false
text_lt [] (y ∷ ys) = true
text_lt (x ∷ xs) [] = false
text_lt (x ∷ xs) (y ∷ ys) = ltb x y || ((x == y) && text_lt xs ys)

abbrev pub starts : Text → Text → Bool
starts p t = elim (after p t) [ none ↦ false | some r ↦ true ]

abbrev pub lesser : Text → Option Text → Option Text
lesser k none = some k
lesser k (some j) = some (if text_lt k j then k else j)

-- The first, in order, of the keys that begin with the prefix.
unfoldable pub least_key : Text → Objects → Option Text
least_key prefix [] = none
least_key prefix ((k, b) ∷ objects) =
    let rest = least_key prefix objects in
    if starts prefix k && is_media_key k then lesser k rest else rest

-- `find_existing_key` in the profile folder, a listing in the bucket.
unfoldable pub find_key : Store → Network → Objects → Text → Result (Option Text)
find_key s n objects sha =
    let found = least_key (media_prefix ++ (take 2 sha ++ (b'/' ∷ sha))) objects in
    if s.verifiable
    then (if n.list_reached then ok found else unreachable)
    else ok (if is_sha sha then found else none)

-- What another writer has created in the meantime.
abbrev pub with_rival : Text → Option Text → Objects → Objects
with_rival key none objects = objects
with_rival key (some bytes) objects =
    if has_object key objects then objects else set text_eq key bytes objects

abbrev pub put : Text → Text → Objects → Objects
put key bytes objects = set text_eq key bytes objects

-- A bucket's create-only upload. A server that does not compare leaves the wrong object behind, and
-- the client sees it.
abbrev pub create : Store → Network → Objects → Text → Text → Text → Objects × Result Bool
create s n objects bytes key expected =
    let created = put key bytes objects in
    let agrees = text_eq (s.crc32c bytes) expected in
    elim n.upload [
      | lost_before ↦ (objects, unreachable)
      | lost_after ↦ (if agrees || not n.server_checks then created else objects, unreachable)
      | accepted ↦
          if agrees
          then (created, ok true)
          else (if n.server_checks then objects else created, integrity)
    ]

-- `commit`: the objects afterwards, and whether the key was created. The bucket creates under a
-- precondition; the profile folder looks for the file and then renames, with `os.replace`, over
-- whatever is there by then.
unfoldable pub commit : Store → Network → Objects → Text → Text → Text → Objects × Result Bool
commit s n objects bytes key expected =
    let now = with_rival key n.rival objects in
    if not (is_media_key key)
    then (objects, value_error)
    else if has_object key now
    then (now, ok false)
    else if s.verifiable
    then create s n now bytes key expected
    else (put key bytes (with_rival key n.rival_late now), ok true)

-- `stored_in`
unfoldable pub stored_in : Text → Text → List Sighting → Bool
stored_in sha store_id [] = false
stored_in sha store_id (c ∷ cs) =
    (text_eq c.sha256 sha && text_eq c.store store_id) || stored_in sha store_id cs
