-- ===== src/Store/Peers.antt =====
-- store/peers.py: one row per peer, which takes observations that may arrive out of order.
pub mod Table
pub mod Order
use paperboy.Base.{
  ℕ, min, max, Bool, true, false, not, ◌&&◌, ◌||◌, Option, none, some, List, [], ◌∷◌, ◌++◌, ltb,
  leb, if◌then◌else◌,
}
use paperboy.Base.Text.{Text, codes, text_eq}
use paperboy.Ids.Uri.{channel_uri, chat_uri, user_uri}
use paperboy.Ids.Peer.{lower, Handle, primary_username}

-- A TL peer object. `flags` are its Boolean keys, in the order of `_FLAG_KEYS`.
pub record PeerObject : Type 0 where
  pub tag : Text
  pub id : ℕ
  pub min : Bool
  pub access_hash : Option ℕ
  pub username : Option Text
  pub usernames : List Handle
  pub first_name : Option Text
  pub last_name : Option Text
  pub title : Option Text
  pub flags : List (Text × Bool)

abbrev pub starts_with : Text → Text → Bool
starts_with [] t = true
starts_with (x ∷ xs) [] = false
starts_with (x ∷ xs) (y ∷ ys) = text_eq (x ∷ []) (y ∷ []) && starts_with xs ys

-- The kind and the id of a peer object; `none` is `ValueError`.
unfoldable pub classify_peer : PeerObject → Option (Text × Text)
classify_peer obj =
    let tag = lower obj.tag in
    if starts_with (codes "user") tag
    then some (codes "user", user_uri obj.id)
    else if starts_with (codes "channel") tag
    then some (codes "channel", channel_uri obj.id)
    else if starts_with (codes "chat") tag
    then some (codes "chat", chat_uri obj.id)
    else none

-- The columns of `peers` that hold who the peer is.
pub record Profile : Type 0 where
  pub kind : Text
  pub id : ℕ
  pub access_hash : Option ℕ
  pub username : Option Text
  pub first_name : Option Text
  pub last_name : Option Text
  pub title : Option Text
  pub flags : List (Text × Bool)

-- A row of `peers`.
pub record PeerRow : Type 0 where
  pub uri : Text
  pub profile : Profile
  pub is_min : Bool
  pub seen_in_chat : Option ℕ
  pub seen_in_msg : Option ℕ
  pub source_raw_id : ℕ
  pub first_seen : ℕ
  pub last_seen : ℕ

-- The row that an observation would insert, `excluded` in the statement.
unfoldable pub observed_row : Text → Text → PeerObject → ℕ → ℕ → Option ℕ → Option ℕ → PeerRow
observed_row kind uri obj source_raw_id observed_at seen_in_chat seen_in_msg = record {
  uri = uri;
  profile = record {
    kind = kind;
    id = obj.id;
    access_hash = obj.access_hash;
    username = primary_username obj.username obj.usernames;
    first_name = obj.first_name;
    last_name = obj.last_name;
    title = obj.title;
    flags = obj.flags;
  };
  is_min = obj.min;
  seen_in_chat = seen_in_chat;
  seen_in_msg = seen_in_msg;
  source_raw_id = source_raw_id;
  first_seen = observed_at;
  last_seen = observed_at;
}

-- The `UPDATE` for a min observation of a row that is full.
pub keep_profile : PeerRow → PeerRow → PeerRow
keep_profile row obs =
    let newer = leb row.last_seen obs.last_seen in
    record row {
      seen_in_chat = if newer then obs.seen_in_chat else row.seen_in_chat;
      seen_in_msg = if newer then obs.seen_in_msg else row.seen_in_msg;
      source_raw_id = if newer then obs.source_raw_id else row.source_raw_id;
      first_seen = min row.first_seen obs.first_seen;
      last_seen = max row.last_seen obs.last_seen;
    }

-- The `ON CONFLICT(uri) DO UPDATE SET`.
pub merge_profile : PeerRow → PeerRow → PeerRow
merge_profile row obs =
    let newer = leb row.last_seen obs.last_seen in
    let moves = newer || (row.is_min && not obs.is_min) in
    record {
      uri = row.uri;
      profile = if moves then obs.profile else row.profile;
      is_min = if moves then obs.is_min else row.is_min;
      seen_in_chat = if newer then obs.seen_in_chat else row.seen_in_chat;
      seen_in_msg = if newer then obs.seen_in_msg else row.seen_in_msg;
      source_raw_id = if moves then obs.source_raw_id else row.source_raw_id;
      first_seen = min row.first_seen obs.first_seen;
      last_seen = max row.last_seen obs.last_seen;
    }

-- What a stored row becomes.
unfoldable pub observe : PeerRow → PeerRow → PeerRow
unfolding keep_profile merge_profile
observe row obs =
    if obs.is_min && not row.is_min then keep_profile row obs else merge_profile row obs

-- The row of a uri.
abbrev pub find_peer : Text → List PeerRow → Option PeerRow
find_peer uri [] = none
find_peer uri (r ∷ rows) = if text_eq r.uri uri then some r else find_peer uri rows

-- An observation inserts its row, or updates the one with its uri.
pub put_peer : List PeerRow → PeerRow → List PeerRow
put_peer [] obs = obs ∷ []
put_peer (r ∷ rows) obs =
    if text_eq r.uri obs.uri then observe r obs ∷ rows else r ∷ put_peer rows obs

-- `is_self(store, uri)`
abbrev pub is_self : Option Text → Text → Bool
is_self none uri = false
is_self (some self) uri = text_eq uri self

-- The rows after the call, and the uri that it returns; `none` is the `ValueError`.
unfoldable pub upsert_peer :
    Option Text
    → List PeerRow
    → PeerObject
    → ℕ
    → ℕ
    → Option ℕ
    → Option ℕ
    → Option (List PeerRow × Option Text)
unfolding put_peer observed_row
upsert_peer self rows obj source_raw_id observed_at seen_in_chat seen_in_msg =
    elim (classify_peer obj) [
      | none ↦ none
      | some (kind, uri) ↦ some (
          if is_self self uri then (rows, none) else (
            put_peer rows
                (observed_row kind uri obj source_raw_id observed_at seen_in_chat seen_in_msg),
            some uri,
          ))
    ]
