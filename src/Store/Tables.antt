-- ===== src/Store/Tables.antt =====
-- The rows of `messages` and its append-only companions (store/migrations/0001_init.sql).
use paperboy.Base.{ℕ, Bool, Option, List}
use paperboy.Base.Text.{Text}
use paperboy.Store.Json.{Json}

pub record MessageRow : Type 0 where
  pub uri : Text
  pub channel_id : ℕ
  pub msg_id : ℕ
  pub date : Option ℕ
  pub edit_date : Option ℕ
  pub from_uri : Option Text
  pub post_author : Option Text
  pub text : Text
  pub entities : Option Json
  pub media_kind : Option Json
  pub media : Option Json
  pub fwd : Option Json
  pub reply_to_msg_id : Option ℕ
  pub reply_to_top_id : Option ℕ
  pub grouped_id : Option ℕ
  pub via_bot_id : Option ℕ
  pub is_service : Bool
  pub action : Option Json
  pub content_hash : Text
  pub deleted_at : Option ℕ
  pub source_raw_id : ℕ
  pub first_seen : ℕ
  pub last_seen : ℕ

-- A row of `message_revisions`. Its rowid is its position.
pub record Revision : Type 0 where
  pub message_uri : Text
  pub observed_at : ℕ
  pub edit_date : Option ℕ
  pub content_hash : Text
  pub text : Text
  pub entities : Option Json
  pub media : Option Json
  pub source_raw_id : ℕ

pub record Metrics : Type 0 where
  pub message_uri : Text
  pub observed_at : ℕ
  pub views : Option ℕ
  pub forwards : Option ℕ
  pub replies : Option ℕ
  pub reactions : Option Json

-- What a deletion was concluded from.
pub data Evidence : Type 0 where
  update empty gap : Evidence

pub record Tombstone : Type 0 where
  pub message_uri : Text
  pub observed_at : ℕ
  pub evidence : Evidence

-- The message tables, and the uri of the collecting account, if it is recorded.
pub record Messages : Type 0 where
  pub self : Option Text
  pub rows : List MessageRow
  pub revisions : List Revision
  pub metrics : List Metrics
  pub tombstones : List Tombstone
