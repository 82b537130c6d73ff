-- ===== src/Fetch/Refresh.antt =====
-- fetch_from_list.py: what the fetched posts show to be needed, and what the report names.
use paperboy.Base.{
  ℕ, ◌+◌, Bool, true, false, not, ◌&&◌, ◌||◌, Option, none, some, List, [], ◌∷◌, ◌==◌,
  if◌then◌else◌,
}
use paperboy.Base.Text.{Text, text_eq}
use paperboy.Base.Assoc.{get}
use paperboy.Collectors.Posts.{Answer, fetched, deleted_upstream, Outcomes}
use paperboy.Media.Content.{
  Media, Kind, kind_of, ContentKey, content_key, content_key_eq, content_key_text, FileRow,
  Sighting, Index, load_content_index, path_of,
}
use paperboy.Media.Store.{Result, ok, unreachable, integrity, value_error, ◌>>=◌}
use paperboy.Media.Phase.State.{Row, downloaded, duplicate}
use paperboy.Inputs.Classify.{Known, find_message, held_file}
use paperboy.Recipes.{add_sorted}
use paperboy.Fetch.Rows.{Final, by_media, already_stored, RowResult, Place, update_at, result_at}

-- `channel_id` of the message with that uri.
abbrev in_channel : ℕ → List Row → Text → Bool
in_channel channel_id [] uri = false
in_channel channel_id (m ∷ ms) uri =
    (text_eq m.uri uri && (m.channel_id == channel_id)) || in_channel channel_id ms uri

abbrev same_key : Option Text → Text → Bool
same_key none t = false
same_key (some k) t = text_eq k t

-- `SELECT 1 FROM custody_log WHERE source_message_uri = ? AND content_key = ?`
abbrev is_sighted : Text → Text → List Sighting → Bool
is_sighted uri key [] = false
is_sighted uri key (c ∷ cs) =
    (text_eq c.message_uri uri && same_key c.content_key key) || is_sighted uri key cs

-- `_has_sighting`, of a media dict that is stored.
unfoldable pub has_sighting : List Sighting → Text → Media → Bool
has_sighting custody uri m = elim (content_key m) [
  | none ↦ true
  | some k ↦ is_sighted uri (content_key_text k) custody
]

abbrev is_indexed : Option ContentKey → Index → Bool
is_indexed none index = false
is_indexed (some k) index = elim (get content_key_eq k index) [ none ↦ false | some f ↦ true ]

abbrev is_some : Option (Text × Text) → Bool
is_some none = false
is_some (some f) = true

abbrev with_file : Option (Text × Text) → RowResult → RowResult
with_file file r = record r {
  classified = record (r.classified) { in_store = true; stored = file; media_held = is_some file };
}

-- A refreshed row, and whether the media phase must walk it.
abbrev pub Refreshed : Type 0
Refreshed = RowResult × Bool

abbrev walks : List Sighting → Text → Media → Bool → Option (Text × Text) → Bool
walks custody uri m same_channel none = true
walks custody uri m same_channel (some f) = same_channel && not (has_sighting custody uri m)

abbrev refresh_media :
    Known → Index → Index → RowResult → Option Text → Option Kind → Option Media → Result Refreshed
refresh_media k global channel r media_kind none m = ok (with_file none r, false)
refresh_media k global channel r media_kind (some kind) none = ok (with_file none r, false)
refresh_media k global channel r media_kind (some kind) (some m) =
    let same_channel = is_indexed (content_key m) channel in
    held_file k (if same_channel then channel else global) media_kind (some m) >>= λ file.
    ok (with_file file r, walks k.custody r.classified.uri m same_channel file)

abbrev refresh_message : Known → Index → Index → RowResult → Option Row → Result Refreshed
refresh_message k global channel r none = ok (r, false)
refresh_message k global channel r (some m) =
    refresh_media k global channel r m.media_kind (kind_of m.media_kind) m.media

-- Only a fetched post is judged again.
unfoldable pub refresh_row : Known → Index → Index → Option Answer → RowResult → Result Refreshed
refresh_row k global channel none r = ok (r, false)
refresh_row k global channel (some deleted_upstream) r = ok (r, false)
refresh_row k global channel (some fetched) r =
    refresh_message k global channel r (find_message r.classified.uri k.messages)

-- The results after the loop, and the ids, unless it raised.
abbrev pub RefreshEnd : Type 0
RefreshEnd = List RowResult × Result (List ℕ)

abbrev step_on :
    (List RowResult → List ℕ → RefreshEnd)
    → Place
    → ℕ
    → List RowResult
    → List ℕ
    → Result Refreshed
    → RefreshEnd
step_on next i id rs ids (ok (r, walk)) =
    next (update_at i (λ old. r) rs) (if walk then add_sorted id ids else ids)
step_on next i id rs ids unreachable = (rs, unreachable)
step_on next i id rs ids integrity = (rs, integrity)
step_on next i id rs ids value_error = (rs, value_error)

abbrev visit :
    Known
    → Index
    → Index
    → Outcomes
    → (List RowResult → List ℕ → RefreshEnd)
    → Place
    → List RowResult
    → List ℕ
    → Option RowResult
    → RefreshEnd
visit k global channel posts next i rs ids none = next rs ids
visit k global channel posts next i rs ids (some r) =
    step_on next i r.classified.row.msg_id rs ids
      (refresh_row k global channel (get text_eq r.classified.uri posts) r)

unfoldable pub refresh_from :
    Known → Index → Index → Outcomes → List Place → List RowResult → List ℕ → RefreshEnd
unfolding refresh_row
refresh_from k global channel posts [] rs ids = (rs, ok ids)
refresh_from k global channel posts (i ∷ is) rs ids =
    visit k global channel posts (refresh_from k global channel posts is) i rs ids (result_at i rs)

abbrev with_indexes :
    Known → Outcomes → List Place → List RowResult → Option Index → Option Index → RefreshEnd
with_indexes k posts is rs none channel = (rs, value_error)
with_indexes k posts is rs (some global) none = (rs, value_error)
with_indexes k posts is rs (some global) (some channel) =
    refresh_from k global channel posts is rs []

-- `_refresh_rows`: the results, and the ids that the media phase must walk, in order.
unfoldable pub refresh_rows : Known → ℕ → Outcomes → List Place → List RowResult → RefreshEnd
unfolding refresh_from
refresh_rows k channel_id posts is rs =
    with_indexes k posts is rs (load_content_index (λ uri. true) k.files k.custody)
      (load_content_index (in_channel channel_id k.messages) k.files k.custody)

abbrev forget : Outcomes → RowResult → RowResult
forget posts r = elim (get text_eq r.classified.uri posts) [
  | none ↦ r
  | some deleted_upstream ↦ r
  | some fetched ↦ record r {
    classified = record (r.classified) { media_held = false; stored = none };
  }
]

abbrev forget_all : Outcomes → List Place → List RowResult → List RowResult
forget_all posts [] rs = rs
forget_all posts (i ∷ is) rs = forget_all posts is (update_at i (forget posts) rs)

abbrev unless_raised : Outcomes → List Place → RefreshEnd → List RowResult
unless_raised posts is (rs, ok ids) = rs
unless_raised posts is (rs, unreachable) = forget_all posts is rs
unless_raised posts is (rs, integrity) = forget_all posts is rs
unless_raised posts is (rs, value_error) = forget_all posts is rs

-- `_refresh_or_forget`
unfoldable pub refresh_or_forget :
    Known → ℕ → Outcomes → List Place → List RowResult → List RowResult
unfolding refresh_rows
refresh_or_forget k channel_id posts is rs =
    unless_raised posts is (refresh_rows k channel_id posts is rs)

-- The newest sighting of the message.
abbrev newest_from : Text → List Sighting → Option Sighting → Option Sighting
newest_from uri [] found = found
newest_from uri (c ∷ cs) found =
    newest_from uri cs (if text_eq c.message_uri uri then some c else found)

abbrev file_of_message : Text → List FileRow → Option (Text × Text)
file_of_message uri [] = none
file_of_message uri (f ∷ fs) =
    if text_eq f.message_uri uri then some (f.sha256, f.path) else file_of_message uri fs

abbrev recorded_ref : Known → Text → Option Sighting → Option (Text × Text)
recorded_ref k uri none = file_of_message uri k.files
recorded_ref k uri (some c) = some (c.sha256, c.path)

abbrev is_already_stored : Final → Bool
is_already_stored already_stored = true
is_already_stored _ = false

-- `_stored_ref`
unfoldable pub stored_ref : Known → RowResult → Option (Text × Text)
stored_ref k r =
    let uri = r.classified.uri in
    if is_already_stored r.outcome && is_some r.classified.stored
    then r.classified.stored
    else recorded_ref k uri (newest_from uri k.custody none)

-- The outcomes for which the report names a file, `_HAS_FILE`.
abbrev has_file : Final → Bool
has_file already_stored = true
has_file (by_media downloaded) = true
has_file (by_media duplicate) = true
has_file _ = false

-- A line of the report, without its text form: the row, and the sha and key it names.
unfoldable pub report_line : Known → RowResult → RowResult × Option (Text × Text)
unfolding stored_ref
report_line k r = (r, if has_file r.outcome then stored_ref k r else none)

-- The size of the file with that sha.
abbrev size_of : Text → List FileRow → ℕ
size_of sha [] = 0
size_of sha (f ∷ fs) = if text_eq f.sha256 sha then f.size else size_of sha fs

-- The newest sighting whose file has a row.
abbrev newest_joined : List FileRow → Text → List Sighting → Option Sighting → Option Sighting
newest_joined files uri [] found = found
newest_joined files uri (c ∷ cs) found = newest_joined files uri cs (
    if text_eq c.message_uri uri
    then elim (path_of c.sha256 files) [ none ↦ found | some p ↦ some c ]
    else found)

abbrev sighting_size : List FileRow → Option Sighting → ℕ
sighting_size files none = 0
sighting_size files (some c) = size_of c.sha256 files

abbrev is_downloaded : Final → Bool
is_downloaded (by_media downloaded) = true
is_downloaded _ = false

-- `_bytes_downloaded`
unfoldable pub bytes_downloaded : Known → List RowResult → ℕ
bytes_downloaded k [] = 0
bytes_downloaded k (r ∷ rs) =
    (if is_downloaded r.outcome
      then sighting_size k.files (newest_joined k.files r.classified.uri k.custody none)
      else 0)
    + bytes_downloaded k rs
