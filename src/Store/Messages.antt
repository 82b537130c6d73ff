-- ===== src/Store/Messages.antt =====
-- store/messages.py: current state, revisions, metrics and tombstones of messages.
pub mod Rows
pub mod Revisions
pub mod Deletion
use paperboy.Base.{
  ℕ, Bool, true, false, not, ◌&&◌, ◌||◌, Option, none, some, List, [], ◌∷◌, ◌++◌, leb,
  if◌then◌else◌,
}
use paperboy.Base.Text.{Text, codes, text_eq}
use paperboy.Ids.Uri.{msg_uri}
use paperboy.Ids.Peer.{lower, PeerRef, Lookup, found, key_error, peer_ref_uri}
use paperboy.Store.Json.{
  Json, null, bool, num, str, arr, obj, Items, nil, cons, Fields, end, field, without_volatile,
}
use paperboy.Store.Peers.{is_self}
use paperboy.Store.Tables.{
  MessageRow, Revision, Metrics, Evidence, update, empty, gap, Tombstone, Messages,
}

-- A `message` or `messageService` object: the keys that are read, `none` where a key is missing or
-- `None`.
pub record Msg : Type 0 where
  pub tag : Text
  pub id : ℕ
  pub message : Text
  pub media : Option Json
  pub entities : Option Json
  pub fwd_from : Option Json
  pub fwd_from_id : Option PeerRef
  pub reply_to_msg_id : Option ℕ
  pub reply_to_top_id : Option ℕ
  pub action : Option Json
  pub date : Option ℕ
  pub edit_date : Option ℕ
  pub from_id : Option PeerRef
  pub post_author : Option Text
  pub grouped_id : Option ℕ
  pub via_bot_id : Option ℕ
  pub views : Option ℕ
  pub forwards : Option ℕ
  pub replies : Option ℕ
  pub reactions : Option Json

-- `sha256(…).hexdigest()` and `dumps`.
pub record Hashing : Type 0 where
  pub sha256 : Text → Text
  pub dumps : Json → Text

-- `value if value else None`, of a dict or a list.
abbrev pub truthy : Option Json → Option Json
truthy (some (obj end)) = none
truthy (some (arr nil)) = none
truthy v = v

-- `media.get("_")`
abbrev pub get_field : Text → Fields → Option Json
get_field k end = none
get_field k (field j v fs) = if text_eq j k then some v else get_field k fs

abbrev pub kind_of : Option Json → Option Json
kind_of (some (obj fs)) = get_field (codes "_") fs
kind_of v = none

abbrev pub is_some {ℓ} : {A : Type ℓ} → Option A → Bool
is_some none = false
is_some (some v) = true

abbrev pub stable : Option Json → Option Json
stable none = none
stable (some media) = some (without_volatile media)

-- `media_json or ''`
abbrev pub dumped : Hashing → Option Json → Text
dumped h none = []
dumped h (some media) = h.dumps media

-- The hash of the text, a zero and the media without its volatile keys.
unfoldable pub content_hash : Hashing → Text → Option Json → Text
content_hash h text media = h.sha256 (text ++ (0 ∷ dumped h (stable media)))

-- The later of two revisions, by stamp and then by rowid.
abbrev pub newer : Option Revision → Revision → Option Revision
newer none r = some r
newer (some b) r = if leb b.observed_at r.observed_at then some r else some b

-- `ORDER BY observed_at DESC, id DESC LIMIT 1`, over the revisions of a uri.
abbrev pub latest_from : Text → Option Revision → List Revision → Option Revision
latest_from uri best [] = best
latest_from uri best (r ∷ rs) =
    latest_from uri (if text_eq r.message_uri uri then newer best r else best) rs

unfoldable pub latest_revision_hash : Hashing → List Revision → Text → Option Text
latest_revision_hash h revisions uri = elim (latest_from uri none revisions) [
  | none ↦ none
  | some r ↦ some (content_hash h r.text r.media)
]

-- The author that is stored: never the collecting account.
abbrev pub author : Option Text → Option Text → Option Text
author self none = none
author self (some uri) = if is_self self uri then none else some uri

-- The row that would be inserted, `excluded` in the statement.
unfoldable pub message_row : Hashing → Option Text → ℕ → Msg → ℕ → ℕ → MessageRow
message_row h from_uri channel_id msg source_raw_id observed_at = record {
  uri = msg_uri channel_id msg.id;
  channel_id = channel_id;
  msg_id = msg.id;
  date = msg.date;
  edit_date = msg.edit_date;
  from_uri = from_uri;
  post_author = msg.post_author;
  text = msg.message;
  entities = msg.entities;
  media_kind = kind_of (truthy msg.media);
  media = truthy msg.media;
  fwd = truthy msg.fwd_from;
  reply_to_msg_id = msg.reply_to_msg_id;
  reply_to_top_id = msg.reply_to_top_id;
  grouped_id = msg.grouped_id;
  via_bot_id = msg.via_bot_id;
  is_service = text_eq (lower msg.tag) (codes "messageservice");
  action = truthy msg.action;
  content_hash = content_hash h msg.message (truthy msg.media);
  deleted_at = none;
  source_raw_id = source_raw_id;
  first_seen = observed_at;
  last_seen = observed_at;
}

-- `ON CONFLICT(uri) DO UPDATE SET`: all but the key, `deleted_at` and `first_seen`.
unfoldable pub update_row : MessageRow → MessageRow → MessageRow
update_row row excluded = record excluded {
  uri = row.uri;
  channel_id = row.channel_id;
  msg_id = row.msg_id;
  deleted_at = row.deleted_at;
  first_seen = row.first_seen;
}

abbrev pub put_message : List MessageRow → MessageRow → List MessageRow
put_message [] new = new ∷ []
put_message (r ∷ rows) new =
    if text_eq r.uri new.uri then update_row r new ∷ rows else r ∷ put_message rows new

-- Whether the latest revision has another hash, or there is none.
unfoldable pub is_revised : Hashing → List Revision → MessageRow → Bool
unfolding latest_revision_hash
is_revised h revisions row = elim (latest_revision_hash h revisions row.uri) [
  | none ↦ true
  | some old ↦ not (text_eq old row.content_hash)
]

abbrev pub revision_of : MessageRow → Revision
revision_of row = record {
  message_uri = row.uri;
  observed_at = row.last_seen;
  edit_date = row.edit_date;
  content_hash = row.content_hash;
  text = row.text;
  entities = row.entities;
  media = row.media;
  source_raw_id = row.source_raw_id;
}

abbrev pub metrics_of : Text → ℕ → Msg → List Metrics
metrics_of uri observed_at msg =
    if is_some msg.views
      || is_some msg.forwards
      || is_some msg.replies
      || is_some (truthy msg.reactions)
    then record {
      message_uri = uri;
      observed_at = observed_at;
      views = msg.views;
      forwards = msg.forwards;
      replies = msg.replies;
      reactions = truthy msg.reactions;
    }
      ∷ []
    else []

-- The three statements, and whether a revision was appended.
unfoldable pub project : Hashing → Messages → MessageRow → List Metrics → Messages × Bool
unfolding is_revised
project h store row metrics =
    let revised = is_revised h store.revisions row in
    (
      record store {
        rows = put_message store.rows row;
        revisions = if revised then store.revisions ++ (revision_of row ∷ []) else store.revisions;
        metrics = store.metrics ++ metrics;
      },
      revised,
    )

-- What follows the look at `from_id`; `none` is the `KeyError` of a reference without its id.
abbrev pub project_from :
    Hashing → Messages → ℕ → Msg → ℕ → ℕ → Lookup (Option Text) → Option (Messages × Bool)
project_from h store channel_id msg source_raw_id observed_at key_error = none
project_from h store channel_id msg source_raw_id observed_at (found from_uri) = some (
    project h store
      (message_row h (author store.self from_uri) channel_id msg source_raw_id observed_at)
      (metrics_of (msg_uri channel_id msg.id) observed_at msg))

-- The store, and `revised`, after the call.
unfoldable pub upsert_message_revised :
    Hashing → Messages → ℕ → Msg → ℕ → ℕ → Option (Messages × Bool)
upsert_message_revised h store channel_id msg source_raw_id observed_at =
    project_from h store channel_id msg source_raw_id observed_at (peer_ref_uri msg.from_id)

-- `evidence in _TOMBSTONE_SETS_DELETED_AT`
abbrev pub sets_deleted_at : Evidence → Bool
sets_deleted_at update = true
sets_deleted_at empty = true
sets_deleted_at gap = false

abbrev pub coalesce : Option ℕ → ℕ → Option ℕ
coalesce none t = some t
coalesce (some d) t = some d

-- `UPDATE messages SET deleted_at = … WHERE uri = ?`
abbrev pub set_deleted : (Option ℕ → Option ℕ) → Text → List MessageRow → List MessageRow
set_deleted f uri [] = []
set_deleted f uri (r ∷ rows) =
    (if text_eq r.uri uri then record r { deleted_at = f r.deleted_at } else r)
    ∷ set_deleted f uri rows

unfoldable pub mark_deleted : Messages → ℕ → ℕ → Evidence → ℕ → Messages
mark_deleted store channel_id msg_id evidence observed_at =
    let uri = msg_uri channel_id msg_id in
    record store {
      tombstones =
          store.tombstones
          ++ (record { message_uri = uri; observed_at = observed_at; evidence = evidence } ∷ []);
      rows =
          if sets_deleted_at evidence
          then set_deleted (λ d. coalesce d observed_at) uri store.rows
          else store.rows;
    }

-- The row of a uri.
abbrev pub find_message : Text → List MessageRow → Option MessageRow
find_message uri [] = none
find_message uri (r ∷ rows) = if text_eq r.uri uri then some r else find_message uri rows

abbrev pub is_deleted : Option MessageRow → Bool
is_deleted none = false
is_deleted (some row) = is_some row.deleted_at

-- The store, and whether a flag was cleared.
unfoldable pub clear_deleted : Messages → ℕ → ℕ → Messages × Bool
clear_deleted store channel_id msg_id =
    let uri = msg_uri channel_id msg_id in
    (
      record store { rows = set_deleted (λ d. none) uri store.rows },
      is_deleted (find_message uri store.rows),
    )
