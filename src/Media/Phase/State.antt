-- ===== src/Media/Phase/State.antt =====
-- collectors/media.py: what the `media` phase reads and writes, and how it records a file.
use paperboy.Base.{ℕ, suc, Bool, Option, none, some, List, [], ◌∷◌, ◌++◌, if◌then◌else◌}
use paperboy.Base.Text.{Text, codes, text_eq}
use paperboy.Base.Assoc.{set}
use paperboy.Media.Content.{
  Media, Kind, photo, document, kind_name, ContentKey, content_key_text, content_key_eq, FileRow,
  Sighting, Index, document_attrs,
}
use paperboy.Media.Sink.{Stop, Transfer}
use paperboy.Media.Store.{Objects, Store, Network}

-- The columns of `messages` that the phase reads, with the media dict taken apart.
pub record Row : Type 0 where
  pub uri : Text
  pub channel_id : ℕ
  pub msg_id : ℕ
  pub media_kind : Option Text
  pub media : Option Media
  pub date : Option ℕ
  pub deleted_at : Option ℕ
  pub first_seen : ℕ

-- The payload of a `MediaDownload` record, the message that its context names, and its time. No
-- store stands for the profile folder.
pub record Receipt : Type 0 where
  pub sha256 : Text
  pub kind : Text
  pub size : ℕ
  pub mime_type : Option Text
  pub file_name : Option Text
  pub path : Text
  pub message_uri : Text
  pub store : Option Text
  pub channel_id : ℕ
  pub msg_id : ℕ
  pub observed_at : ℕ

pub data Outcome : Type 0 where
  downloaded duplicate too_large size_mismatched not_available skipped_row : Outcome

pub record Counts : Type 0 where
  pub downloaded : ℕ
  pub duplicates : ℕ
  pub unavailable : ℕ
  pub skipped_kind : ℕ
  pub skipped : ℕ
  pub size_mismatch : ℕ
  pub out_of_window : ℕ
  pub not_selected : ℕ
  pub too_large : ℕ

-- What the phase changes: the tables, the store's objects, its counts, the caller's `outcomes`
-- and its content index.
pub record Work : Type 0 where
  pub files : List FileRow
  pub custody : List Sighting
  pub receipts : List Receipt
  pub objects : Objects
  pub counts : Counts
  pub outcomes : List (Text × Outcome)
  pub index : Index

-- What is fixed for the phase: the store, the hash, the MIME table, and the settings.
pub record Run : Type 0 where
  pub store : Store
  pub is_local : Bool
  pub sha256 : Text → Text
  pub guess : Text → Option Text
  pub channel_id : ℕ
  pub max_bytes : Option ℕ
  pub floor_bytes : ℕ

-- What the environment does while one row is worked on: the transfer, the store's requests before the
-- download and after it, the free bytes of the disk, and the clock.
pub record Turn : Type 0 where
  pub transfer : Transfer
  pub early : Network
  pub network : Network
  pub free_bytes : ℕ
  pub now : ℕ

-- Why the phase ends before its last row: `DiskFloorStop`, a `PhaseStop` for the sink or the store,
-- what the gateway raised, or a `ValueError`.
pub data Why : Type 0 where
  disk_floor sink_stop store_stop bad_key : Why
  gateway_stop : Stop → Why

pub data Step : Type 0 where
  goes_on : Work → Step
  ends : Why → Work → Step

abbrev pub note : Text → Outcome → Work → Work
note uri o w = record w { outcomes = set text_eq uri o w.outcomes }

-- `_record_custody`
abbrev pub record_custody : Run → Text → Text → Text → ℕ → Option ContentKey → Work → Work
record_custody r path sha uri at key w =
    let s : Sighting = record {
      path = path;
      sha256 = sha;
      recorded_at = at;
      message_uri = uri;
      store = r.store.store_id;
      content_key = elim key [ none ↦ none | some k ↦ some (content_key_text k) ];
    } in
    record w { custody = w.custody ++ (s ∷ []) }

-- `content_index[key] = ...`, if there is a key.
abbrev pub remember : Option ContentKey → Text × Text → Work → Work
remember none file w = w
remember (some k) file w = record w { index = set content_key_eq k file w.index }

abbrev pub count_duplicate : Work → Work
count_duplicate w = record w { counts = record (w.counts) { duplicates = suc w.counts.duplicates } }

abbrev pub count_skipped : Work → Work
count_skipped w = record w { counts = record (w.counts) { skipped = suc w.counts.skipped } }

abbrev pub count_downloaded : Work → Work
count_downloaded w = record w {
  counts = record (w.counts) { downloaded = suc w.counts.downloaded };
}

-- The MIME type and the file name that are recorded.
abbrev pub attrs : Kind → Media → Option Text × Option Text
attrs photo m = (some (codes "image/jpeg"), none)
attrs document m = document_attrs m

abbrev pub receipt : Run → Row → Kind → Media → Text → ℕ → Text → ℕ → Receipt
receipt r row kind m sha size path at = record {
  sha256 = sha;
  kind = kind_name kind;
  size = size;
  mime_type = (attrs kind m).0;
  file_name = (attrs kind m).1;
  path = path;
  message_uri = row.uri;
  store = if r.is_local then none else some r.store.store_id;
  channel_id = r.channel_id;
  msg_id = row.msg_id;
  observed_at = at;
}

abbrev pub add_receipt : Receipt → Work → Work
add_receipt t w = record w { receipts = w.receipts ++ (t ∷ []) }

-- The row of `media`, written only for a sha that has none.
abbrev pub add_file : Option Text → Row → Kind → Media → Text → ℕ → Text → ℕ → Work → Work
add_file (some path) row kind m sha size loc at w = w
add_file none row kind m sha size loc at w =
    let f : FileRow = record {
      sha256 = sha;
      message_uri = row.uri;
      kind = kind_name kind;
      mime_type = (attrs kind m).0;
      size = size;
      file_name = (attrs kind m).1;
      path = loc;
      downloaded_at = at;
    } in
    record w { files = w.files ++ (f ∷ []) }
