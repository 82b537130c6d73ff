-- ===== src/Media/Content.antt =====
-- collectors/media.py: what a message's media dict says of its file, and the index of the files
-- that are recorded.
pub mod KeyText
use paperboy.Base.{
  ℕ, ◌+◌, Bool, true, false, ◌&&◌, ◌||◌, not, Option, none, some, List, [], ◌∷◌, ◌++◌,
  if◌then◌else◌, ◌==◌, leb, ltb, length, max,
}
use paperboy.Base.Text.{Text, codes, text_eq, split_on}
use paperboy.Base.Decimal.{decimal, ℤ, pos, negsuc, int}
use paperboy.Base.Assoc.{Assoc, get, set}
use paperboy.Ids.Peer.{lower}
use paperboy.Media.Keys.{is_valid_ext}

-- A size variant of a photo or of its animation: the integers among `size` and `sizes`.
pub record Variant : Type 0 where
  pub size : Option ℕ
  pub sizes : List ℕ

pub record Photo : Type 0 where
  pub id : Option ℕ
  pub sizes : List Variant
  pub video_sizes : List Variant

pub record Attribute : Type 0 where
  pub tag : Text
  pub file_name : Option Text

-- `size` is the integer that stands there.
pub record Document : Type 0 where
  pub id : Option ℕ
  pub size : Option ℕ
  pub mime_type : Option Text
  pub attributes : List Attribute

-- A `MessageMedia*` dict, as `media_json` keeps it; its tag is empty if it has none.
pub record Media : Type 0 where
  pub tag : Text
  pub photo : Option Photo
  pub document : Option Document

-- `{}`
abbrev pub no_media : Media
no_media = record { tag = []; photo = none; document = none }

-- The values of `DOWNLOADABLE_KINDS`.
pub data Kind : Type 0 where
  photo document : Kind

abbrev pub kind_name : Kind → Text
kind_name photo = codes "photo"
kind_name document = codes "document"

abbrev pub downloadable_kind : Text → Option Kind
downloadable_kind kind =
    if text_eq kind (codes "messagemediaphoto")
    then some photo
    else if text_eq kind (codes "messagemediadocument")
    then some document
    else none

-- `(row["media_kind"] or "").lower()`, looked up.
unfoldable pub kind_of : Option Text → Option Kind
kind_of none = none
kind_of (some k) = downloadable_kind (lower k)

abbrev pub ContentKey : Type 0
ContentKey = Text × ℤ

abbrev pub key_of : Kind → Option ℕ → Option ContentKey
key_of kind none = none
key_of kind (some n) = some (kind_name kind, pos n)

abbrev pub photo_id : Option Photo → Option ℕ
photo_id none = none
photo_id (some p) = p.id

abbrev pub document_id : Option Document → Option ℕ
document_id none = none
document_id (some d) = d.id

unfoldable pub content_key : Media → Option ContentKey
content_key m = elim (downloadable_kind (lower m.tag)) [
  | none ↦ none
  | some photo ↦ key_of photo (photo_id m.photo)
  | some document ↦ key_of document (document_id m.document)
]

-- `str` of an integer.
abbrev integer_text : ℤ → Text
integer_text (pos n) = decimal n
integer_text (negsuc n) = b'-' ∷ decimal (n + 1)

-- `f"{key[0]}:{key[1]}"`
unfoldable pub content_key_text : ContentKey → Text
content_key_text (kind, id) = kind ++ (b':' ∷ integer_text id)

-- `text.partition(":")`: what stands before the first colon, and what stands after it.
abbrev before_colon : Text → Text
before_colon [] = []
before_colon (c ∷ t) = if c == b':' then [] else c ∷ before_colon t

abbrev after_colon : Text → Text
after_colon [] = []
after_colon (c ∷ t) = if c == b':' then t else after_colon t

abbrev with_kind : Text → Option ℤ → Option ContentKey
with_kind kind none = none
with_kind kind (some n) = some (kind, n)

-- `none` where `int` raises `ValueError`.
unfoldable pub parse_content_key : Text → Option ContentKey
parse_content_key t = with_kind (before_colon t) (int (after_colon t))

abbrev integer_eq : ℤ → ℤ → Bool
integer_eq (pos a) (pos b) = a == b
integer_eq (pos a) (negsuc b) = false
integer_eq (negsuc a) (pos b) = false
integer_eq (negsuc a) (negsuc b) = a == b

abbrev pub content_key_eq : ContentKey → ContentKey → Bool
content_key_eq (k, a) (l, b) = text_eq k l && integer_eq a b

-- A row of `media`.
pub record FileRow : Type 0 where
  pub sha256 : Text
  pub message_uri : Text
  pub kind : Text
  pub mime_type : Option Text
  pub size : ℕ
  pub file_name : Option Text
  pub path : Text
  pub downloaded_at : ℕ

-- A row of `custody_log`, in the order of its ids.
pub record Sighting : Type 0 where
  pub path : Text
  pub sha256 : Text
  pub recorded_at : ℕ
  pub message_uri : Text
  pub store : Text
  pub content_key : Option Text

-- `SELECT path FROM media WHERE sha256=?`
unfoldable pub path_of : Text → List FileRow → Option Text
path_of sha [] = none
path_of sha (f ∷ fs) = if text_eq f.sha256 sha then some f.path else path_of sha fs

-- What a content is known by: a sha and a media key.
abbrev pub Index : Type 0
Index = Assoc ContentKey (Text × Text)

abbrev index_parsed : Option ContentKey → Text × Text → Option Index → Option Index
index_parsed none file index = none
index_parsed (some k) file none = none
index_parsed (some k) file (some index) = some (set content_key_eq k file index)

-- One row of the join. A row with no content key, or whose sha has no file, is not selected.
index_sighting : List FileRow → Sighting → Option Index → Option Index
index_sighting files s index = elim s.content_key [
  | none ↦ index
  | some t ↦ elim (path_of s.sha256 files) [
    | none ↦ index
    | some path ↦ index_parsed (parse_content_key t) (s.sha256, path) index
  ]
]

-- The rows in the order of their ids, of which the newest wins; `none` is the `ValueError` of a key
-- that cannot be read. `in_channel` says of a message whether it stands in the index's channel.
unfoldable pub index_from :
    (Text → Bool) → List FileRow → List Sighting → Option Index → Option Index
unfolding index_sighting
index_from in_channel files [] index = index
index_from in_channel files (s ∷ ss) index =
    index_from in_channel files ss
      (if in_channel s.message_uri then index_sighting files s index else index)

unfoldable pub load_content_index : (Text → Bool) → List FileRow → List Sighting → Option Index
load_content_index in_channel files custody = index_from in_channel files custody (some [])

abbrev variant_sizes : Variant → List ℕ
variant_sizes v = elim v.size [ none ↦ v.sizes | some n ↦ n ∷ v.sizes ]

abbrev all_sizes : List Variant → List ℕ
all_sizes [] = []
all_sizes (v ∷ vs) = variant_sizes v ++ all_sizes vs

abbrev own_sizes : List Variant → List ℕ
own_sizes [] = []
own_sizes (v ∷ vs) = elim v.size [ none ↦ own_sizes vs | some n ↦ n ∷ own_sizes vs ]

-- `max(candidates) if candidates else None`
abbrev pub largest : List ℕ → Option ℕ
largest [] = none
largest (n ∷ ns) = elim (largest ns) [ none ↦ some n | some m ↦ some (max n m) ]

abbrev photo_size : Option Photo → Option ℕ
photo_size none = none
photo_size (some p) = largest (all_sizes p.sizes ++ own_sizes p.video_sizes)

abbrev document_size : Option Document → Option ℕ
document_size none = none
document_size (some d) = d.size

unfoldable pub recorded_size : Media → Option ℕ
recorded_size m = elim (downloadable_kind (lower m.tag)) [
  | none ↦ none
  | some document ↦ document_size m.document
  | some photo ↦ photo_size m.photo
]

-- The name of the first attribute of that kind.
abbrev attribute_name : List Attribute → Option Text
attribute_name [] = none
attribute_name (a ∷ as') =
    if text_eq (lower a.tag) (codes "documentattributefilename")
    then a.file_name
    else attribute_name as'

-- `_document_attrs`: the MIME type and the file name.
pub document_attrs : Media → Option Text × Option Text
document_attrs m = elim m.document [
  | none ↦ (none, none)
  | some d ↦ (d.mime_type, attribute_name d.attributes)
]

-- `Path(name).suffix`, of a path with `/`.
abbrev is_part : Text → Bool
is_part t = not (text_eq t []) && not (text_eq t (codes "."))

abbrev last_part : List Text → Text
last_part [] = []
last_part (t ∷ ts) = let later = last_part ts in if is_part t && text_eq later [] then t else later

-- From the last dot that is followed by something.
abbrev from_last_dot : Text → Text
from_last_dot [] = []
from_last_dot (c ∷ t) =
    let later = from_last_dot t in if text_eq later [] && (c == b'.') then c ∷ t else later

abbrev suffix_of_name : Text → Text
suffix_of_name [] = []
suffix_of_name (c ∷ t) = let s = from_last_dot t in if text_eq s (codes ".") then [] else s

abbrev pub suffix : Text → Text
suffix name = suffix_of_name (last_part (split_on b'/' name))

abbrev text_or_empty : Option Text → Text
text_or_empty none = []
text_or_empty (some t) = t

-- `guess` is `mimetypes.guess_extension`, which depends on the machine's tables.
unfoldable pub guess_ext : (Text → Option Text) → Kind → Option Text → Option Text → Text
guess_ext guess photo mime_type file_name = codes ".jpg"
guess_ext guess document mime_type file_name =
    let s = suffix (text_or_empty file_name) in
    if not (text_eq s []) && is_valid_ext s then s else elim mime_type [
      | none ↦ []
      | some m ↦ if text_eq m [] then [] else text_or_empty (guess m)
    ]
