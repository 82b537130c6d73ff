-- ===== src/Store/Db.antt =====
-- store/db.py: the tables together, and the append-only log of what the API returned.
use paperboy.Base.{Bool, ℕ, suc, Option, List, [], ◌∷◌, ◌++◌, length}
use paperboy.Base.Text.{Text}
use paperboy.Sync.Ranges.{Range}
use paperboy.Store.Tables.{Messages}
use paperboy.Store.Messages.{Msg}
use paperboy.Store.Peers.{PeerRow}
use paperboy.Store.Edges.{Edge}

-- One of the `other_updates` of a difference: an edit, a deletion of ids, or another kind.
pub data Update : Type 0 where
  edited : Msg → Update
  deleted : List ℕ → Update
  other : Update

-- The answer of `updates.getChannelDifference`. `pts` and `dialog_pts` are `none` where the answer
-- holds no integer there.
pub record Difference : Type 0 where
  pub tag : Text
  pub messages : List Msg
  pub dialog_pts : Option ℕ
  pub new_messages : List Msg
  pub other_updates : List Update
  pub pts : Option ℕ
  pub final : Bool

-- What the log keeps: a message object or a difference, whole.
pub data Payload : Type 0 where
  message_object : Msg → Payload
  difference : Difference → Payload

-- A row of `raw_records`. Its context holds the channel, and the method where a collector gives one. Its rowid is its position, from 1.
pub record Raw : Type 0 where
  pub kind : Text
  pub payload : Payload
  pub tier : Text
  pub channel_id : ℕ
  pub method : Option Text
  pub observed_at : ℕ
  pub run_id : Option Text

pub record Db : Type 0 where
  pub run_id : Option Text
  pub raws : List Raw
  pub messages : Messages
  pub peers : List PeerRow
  pub edges : List Edge
  pub ranges : List Range

-- The store with the record appended, and its rowid.
unfoldable pub add_raw : Db → Text → Payload → Text → ℕ → Option Text → ℕ → Db × ℕ
add_raw db kind payload tier channel_id method observed_at =
    let raw : Raw = record {
      kind = kind;
      payload = payload;
      tier = tier;
      channel_id = channel_id;
      method = method;
      observed_at = observed_at;
      run_id = db.run_id;
    } in
    (record db { raws = db.raws ++ (raw ∷ []) }, suc (length db.raws))
