-- ===== src/Inputs/Classify.antt =====
-- media_list.py, `classify_rows`: the offline outcome of each row.
pub mod Channels
pub mod Once
use paperboy.Base.{
  ℕ, Bool, true, false, not, ◌&&◌, ◌||◌, Option, none, some, List, [], ◌∷◌, ◌==◌, if◌then◌else◌,
}
use paperboy.Base.Text.{Text, codes, text_eq}
use paperboy.Base.Assoc.{Assoc, get, set}
use paperboy.Ids.Uri.{msg_uri}
use paperboy.Ids.Peer.{lower}
use paperboy.Media.Content.{
  Media, no_media, Kind, kind_of, ContentKey, content_key, content_key_eq, FileRow, Sighting, Index,
  load_content_index, recorded_size,
}
use paperboy.Media.Store.{
  Objects, Store, Network, Result, ok, unreachable, integrity, value_error, ◌>>=◌, exists,
  stored_in,
}
use paperboy.Media.Phase.State.{Row}
use paperboy.Inputs.Entry.{ListRow}

-- The columns of `channels` that the command reads.
pub record ChannelRow : Type 0 where
  pub id : ℕ
  pub username : Option Text
  pub kind : Option Text

-- The tables that are read, the run's media store, and its objects.
pub record Known : Type 0 where
  pub channels : List ChannelRow
  pub messages : List Row
  pub files : List FileRow
  pub custody : List Sighting
  pub store : Store
  pub network : Network
  pub objects : Objects

-- `OFFLINE_OUTCOMES`
pub data Offline : Type 0 where
  duplicate_row excluded pending : Offline

pub record ClassifiedRow : Type 0 where
  pub row : ListRow
  pub outcome : Offline
  pub uri : Text
  pub channel_id : Option ℕ
  pub declared_bytes : Option ℕ
  pub stored : Option (Text × Text)
  pub in_store : Bool
  pub media_held : Bool
  pub needs_resolve : Bool

-- A row with no more than its outcome, its uri and its channel.
abbrev pub bare : ListRow → Offline → Text → Option ℕ → ClassifiedRow
bare row outcome uri channel_id = record {
  row = row;
  outcome = outcome;
  uri = uri;
  channel_id = channel_id;
  declared_bytes = none;
  stored = none;
  in_store = false;
  media_held = false;
  needs_resolve = false;
}

-- `usernames`: handles in lower case; a later row of `channels` wins.
abbrev add_username : Option Text → ℕ → Assoc Text ℕ → Assoc Text ℕ
add_username none id d = d
add_username (some name) id d = set text_eq (lower name) id d

abbrev usernames_from : List ChannelRow → Assoc Text ℕ → Assoc Text ℕ
usernames_from [] d = d
usernames_from (c ∷ cs) d = usernames_from cs (add_username c.username c.id d)

abbrev pub usernames : List ChannelRow → Assoc Text ℕ
usernames channels = usernames_from channels []

-- `SELECT media_kind, media_json FROM messages WHERE uri = ?`
unfoldable pub find_message : Text → List Row → Option Row
find_message uri [] = none
find_message uri (m ∷ ms) = if text_eq m.uri uri then some m else find_message uri ms

-- The file of a content, if the run's store has it. A store that could verify is not believed.
abbrev held_content : Known → Option (Text × Text) → Result (Option (Text × Text))
held_content k none = ok none
held_content k (some (sha, path)) =
    if stored_in sha k.store.store_id k.custody
    then ok (some (sha, path))
    else if k.store.verifiable
    then ok none
    else exists k.store k.network k.objects path >>= λ there.
        ok (if there then some (sha, path) else none)

abbrev held_key : Known → Index → Option ContentKey → Result (Option (Text × Text))
held_key k index none = ok none
held_key k index (some key) = held_content k (get content_key_eq key index)

abbrev held_media : Known → Index → Option Kind → Option Media → Result (Option (Text × Text))
held_media k index none media = ok none
held_media k index (some kind) none = ok none
held_media k index (some kind) (some m) = held_key k index (content_key m)

unfoldable pub held_file :
    Known → Index → Option Text → Option Media → Result (Option (Text × Text))
held_file k index media_kind media = held_media k index (kind_of media_kind) media

abbrev is_some : Option (Text × Text) → Bool
is_some none = false
is_some (some f) = true

abbrev media_of : Option Media → Media
media_of none = no_media
media_of (some m) = m

abbrev pub stored_row : ListRow → Text → ℕ → Row → Option (Text × Text) → ClassifiedRow
stored_row row uri channel_id m stored = record {
  row = row;
  outcome = pending;
  uri = uri;
  channel_id = some channel_id;
  declared_bytes = recorded_size (media_of m.media);
  stored = stored;
  in_store = true;
  media_held = is_some stored;
  needs_resolve = false;
}

-- A pending row of a channel that is known.
unfoldable pub known_row : Known → Index → ListRow → ℕ → Option Row → Result ClassifiedRow
known_row k index row channel_id none =
    ok (bare row pending (msg_uri channel_id row.msg_id) (some channel_id))
known_row k index row channel_id (some m) = held_file k index m.media_kind m.media >>= λ stored.
    ok (stored_row row (msg_uri channel_id row.msg_id) channel_id m stored)

abbrev pub is_in : List ℕ → ℕ → Bool
is_in [] c = false
is_in (d ∷ ds) c = (d == c) || is_in ds c

-- The messages of the rows so far that are pending under a known channel.
abbrev pub Seen : Type 0
Seen = List (ℕ × ℕ)

abbrev pub is_seen : Seen → ℕ → ℕ → Bool
is_seen [] c n = false
is_seen ((d, m) ∷ seen) c n = ((d == c) && (m == n)) || is_seen seen c n

-- What becomes of a row whose channel is known, and what is seen after it.
unfoldable pub addressed :
    Known → Index → List ℕ → Seen → ListRow → ℕ → Result (ClassifiedRow × Seen)
unfolding known_row
addressed k index excluded_ids seen row c =
    let uri = msg_uri c row.msg_id in
    if is_in excluded_ids c
    then ok (bare row excluded uri (some c), seen)
    else if is_seen seen c row.msg_id
    then ok (bare row duplicate_row uri (some c), seen)
    else known_row k index row c (find_message uri k.messages) >>= λ r.
        ok (r, (c, row.msg_id) ∷ seen)

abbrev pub channel_of : Known → ListRow → Option ℕ
channel_of k row = elim row.channel_id [
  | some c ↦ some c
  | none ↦ elim row.username [ none ↦ none | some name ↦ get text_eq name (usernames k.channels) ]
]

-- A handle that the store has never seen is resolved later.
abbrev pub unresolved : ListRow → ClassifiedRow
unresolved row = record (bare row pending row.uri none) { needs_resolve = true }

unfoldable pub classify_row :
    Known → Index → List ℕ → Seen → ListRow → Result (ClassifiedRow × Seen)
unfolding addressed
classify_row k index excluded_ids seen row =
    if row.duplicate
    then ok (bare row duplicate_row row.uri row.channel_id, seen)
    else elim (channel_of k row) [
      | none ↦ ok (unresolved row, seen)
      | some c ↦ addressed k index excluded_ids seen row c
    ]

abbrev pub and_rest :
    Result (ClassifiedRow × Seen)
    → (Seen → Result (List ClassifiedRow))
    → Result (List ClassifiedRow)
and_rest (ok (c, seen)) next = next seen >>= λ cs. ok (c ∷ cs)
and_rest unreachable next = unreachable
and_rest integrity next = integrity
and_rest value_error next = value_error

unfoldable pub classify_from :
    Known → Index → List ℕ → List ListRow → Seen → Result (List ClassifiedRow)
unfolding classify_row
classify_from k index excluded_ids [] seen = ok []
classify_from k index excluded_ids (row ∷ rows) seen =
    and_rest (classify_row k index excluded_ids seen row) (classify_from k index excluded_ids rows)

-- The index spans every channel; one that cannot be read is a `ValueError`.
unfoldable pub classify_rows : Known → List ListRow → List ℕ → Result (List ClassifiedRow)
unfolding classify_from
classify_rows k rows excluded_ids = elim (load_content_index (λ uri. true) k.files k.custody) [
  | none ↦ value_error
  | some index ↦ classify_from k index excluded_ids rows []
]
