-- ===== src/Store/Messages/Deletion.antt =====
-- What the deletion flag of a message says after any sequence of operations on its channel.
use paperboy.Base.{
  ℕ, ◌==◌, ◌≡◌, refl, ◌∙◌, sym, ap, Bool, true, false, Option, none, some, List, [], ◌∷◌, ◌++◌,
  arith, if◌then◌else◌, Option-cases,
}
use mathlib.Core.List.{append_assoc, append-nil}
use paperboy.Base.Text.{Text, text_eq, text_eq_iff}
use paperboy.Ids.Uri.{Entity, uri_injective, msg_uri}
use paperboy.Ids.Peer.{Lookup, found, key_error, peer_ref_uri}
use paperboy.Store.Tables.{MessageRow, Evidence, update, empty, gap, Tombstone, Messages}
use paperboy.Store.Messages.{
  Hashing, Msg, author, find_message, coalesce, upsert_message_revised, project_from, project,
  message_row, update_row, mark_deleted, clear_deleted,
}
use paperboy.Store.Messages.Rows.{find_message-put_message, find_message-set_deleted}

-- The operations on the messages of one channel.
pub data Op : Type 0 where
  observe : Msg → ℕ → ℕ → Op
  mark : ℕ → Evidence → ℕ → Op
  clear : ℕ → Op

abbrev pub stored : Messages → Option (Messages × Bool) → Messages
stored store none = store
stored store (some (s, revised)) = s

-- An observation that raises leaves the store as it was.
abbrev pub run : Hashing → ℕ → Messages → Op → Messages
run h channel_id store (observe msg raw t) =
    stored store (upsert_message_revised h store channel_id msg raw t)
run h channel_id store (mark id evidence t) = mark_deleted store channel_id id evidence t
run h channel_id store (clear id) = (clear_deleted store channel_id id).0

abbrev pub run-All : Hashing → ℕ → Messages → List Op → Messages
run-All h channel_id store [] = store
run-All h channel_id store (op ∷ ops) = run-All h channel_id (run h channel_id store op) ops

-- What the store says of one message.
pub data Status : Type 0 where
  absent live : Status
  deleted_since : ℕ → Status

abbrev flag_status : Option ℕ → Status
flag_status none = live
flag_status (some t) = deleted_since t

abbrev pub status : Option MessageRow → Status
status none = absent
status (some row) = flag_status row.deleted_at

-- The status that the sequence of operations describes.
abbrev pub seen : Status → Status
seen absent = live
seen s = s

abbrev judged : Evidence → ℕ → Status → Status
judged gap t s = s
judged e t live = deleted_since t
judged e t s = s

abbrev pub restored : Status → Status
restored (deleted_since t) = live
restored s = s

abbrev pub completes : Lookup (Option Text) → Bool
completes key_error = false
completes (found v) = true

abbrev pub next : ℕ → Status → Op → Status
next id s (observe msg raw t) =
    if msg.id == id then (if completes (peer_ref_uri msg.from_id) then seen s else s) else s
next id s (mark i e t) = if i == id then judged e t s else s
next id s (clear i) = if i == id then restored s else s

abbrev pub next_all : ℕ → Status → List Op → Status
next_all id s [] = s
next_all id s (op ∷ ops) = next_all id (next id s op) ops

-- The ids of a channel have different uris.
same_uri : (c i j : ℕ) → text_eq (msg_uri c i) (msg_uri c j) ≡ (i == j)
same_uri c i j = ground (arith, text_eq_iff (msg_uri c i) (msg_uri c j), ids_differ)
  where
    ids_differ : msg_uri c i ≡ msg_uri c j → i ≡ j
    ids_differ h = ap msg_id (uri_injective (Entity.msg c i) (Entity.msg c j) h)
      where
        msg_id : Entity → ℕ
        msg_id (Entity.msg c n) = n
        msg_id e = 0

next-project_from :
    (h : Hashing) (c id : ℕ) (store : Messages) (msg : Msg) (raw t : ℕ) (v : Lookup (Option Text))
    → status (find_message (msg_uri c id) (stored store (project_from h store c msg raw t v)).rows)
      ≡ (if msg.id == id
          then (if completes v
              then seen (status (find_message (msg_uri c id) store.rows))
              else status (find_message (msg_uri c id) store.rows))
          else status (find_message (msg_uri c id) store.rows))
unfolding project message_row update_row
next-project_from h c id store msg raw t key_error = ground arith
next-project_from h c id store msg raw t (found v) =
    let row = message_row h (author store.self v) c msg raw t in
    ground (
      arith,
      Option-cases (find_message (msg_uri c id) store.rows),
      find_message-put_message store.rows row (msg_uri c id),
      same_uri c msg.id id,
    )

pub next-run :
    (h : Hashing) (c id : ℕ) (store : Messages) (op : Op)
    → status (find_message (msg_uri c id) (run h c store op).rows)
      ≡ next id (status (find_message (msg_uri c id) store.rows)) op
unfolding mark_deleted clear_deleted upsert_message_revised
next-run h c id store (observe msg raw t) =
    next-project_from h c id store msg raw t (peer_ref_uri msg.from_id)
next-run h c id store (mark i gap t) = ground arith
next-run h c id store (mark i update t) = ground (
  arith,
  Option-cases (find_message (msg_uri c id) store.rows),
  find_message-set_deleted (λ d. coalesce d t) (msg_uri c i) store.rows (msg_uri c id),
  same_uri c i id,
)
next-run h c id store (mark i empty t) = ground (
  arith,
  Option-cases (find_message (msg_uri c id) store.rows),
  find_message-set_deleted (λ d. coalesce d t) (msg_uri c i) store.rows (msg_uri c id),
  same_uri c i id,
)
next-run h c id store (clear i) = ground (
  arith,
  Option-cases (find_message (msg_uri c id) store.rows),
  find_message-set_deleted (λ d. none) (msg_uri c i) store.rows (msg_uri c id),
  same_uri c i id,
)

-- After any operations on a channel, a message is absent, live, or deleted since a stamp exactly
-- as they say one by one: an observation makes an absent message live and never revives a deleted
-- one, the first unambiguous mark of a live message sets the stamp, later ones keep it, and only a
-- clear revives. Operations on other messages change nothing.
pub status-run_all :
    (h : Hashing) (c id : ℕ) (store : Messages) (ops : List Op)
    → status (find_message (msg_uri c id) (run-All h c store ops).rows)
      ≡ next_all id (status (find_message (msg_uri c id) store.rows)) ops
status-run_all h c id store [] = refl
status-run_all h c id store (op ∷ ops) =
    status-run_all h c id (run h c store op) ops
    ∙ ap (λ s. next_all id s ops) (next-run h c id store op)

-- The tombstones that operations leave.
abbrev pub tombstones_of : ℕ → List Op → List Tombstone
tombstones_of c [] = []
tombstones_of c (mark i e t ∷ ops) =
    record { message_uri = msg_uri c i; observed_at = t; evidence = e } ∷ tombstones_of c ops
tombstones_of c (op ∷ ops) = tombstones_of c ops

pub tombstones-project_from :
    (h : Hashing) (c : ℕ) (store : Messages) (msg : Msg) (raw t : ℕ) (v : Lookup (Option Text))
    → (stored store (project_from h store c msg raw t v)).tombstones ≡ store.tombstones
unfolding project
tombstones-project_from h c store msg raw t key_error = refl
tombstones-project_from h c store msg raw t (found v) = refl

-- Tombstones are history: after any operations the earlier ones stand, followed by one for each
-- mark, a gap included, in the order of the marks.
pub tombstones-run_all :
    (h : Hashing) (c : ℕ) (store : Messages) (ops : List Op)
    → (run-All h c store ops).tombstones ≡ store.tombstones ++ tombstones_of c ops
unfolding mark_deleted clear_deleted upsert_message_revised
tombstones-run_all h c store [] = sym (append-nil store.tombstones)
tombstones-run_all h c store (observe msg raw t ∷ ops) =
    tombstones-run_all h c (run h c store (observe msg raw t)) ops
    ∙ ap (λ l. l ++ tombstones_of c ops)
        (tombstones-project_from h c store msg raw t (peer_ref_uri msg.from_id))
tombstones-run_all h c store (mark i e t ∷ ops) =
    let one : List Tombstone =
      record { message_uri = msg_uri c i; observed_at = t; evidence = e } ∷ [] in
    tombstones-run_all h c (run h c store (mark i e t)) ops
    ∙ append_assoc store.tombstones one (tombstones_of c ops)
tombstones-run_all h c store (clear i ∷ ops) = tombstones-run_all h c (run h c store (clear i)) ops
