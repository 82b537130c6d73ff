-- ===== src/Collectors/Observe.antt =====
-- collectors/history.py, `observe_message`: one message object, logged and projected.
use paperboy.Base.{ℕ, suc, Bool, true, Option, none, some, [], length, if◌then◌else◌}
use paperboy.Base.Text.{Text, codes, text_eq}
use paperboy.Ids.Uri.{msg_uri}
use paperboy.Ids.Peer.{lower, Stub, user, channel, peer_stub, found, key_error, peer_ref_uri}
use paperboy.Store.Json.{obj, end, field}
use paperboy.Store.Tables.{empty, Messages}
use paperboy.Store.Messages.{Msg, Hashing, truthy, upsert_message_revised, mark_deleted}
use paperboy.Store.Peers.{PeerObject, upsert_peer}
use paperboy.Store.Edges.{add_edge}
use paperboy.Store.Db.{Payload, message_object, Db, add_raw}

-- What a collector is given: the clock stamps each payload, and may answer by how many records are
-- already logged.
pub record Ctx : Type 0 where
  pub channel_id : ℕ
  pub method : Option Text
  pub tier : Text
  pub for_payload : ℕ → Payload → ℕ
  pub hashing : Hashing

pub record Counts : Type 0 where
  pub messages : ℕ
  pub revisions : ℕ
  pub tombstones : ℕ
  pub edges : ℕ

abbrev pub no_counts : Counts
no_counts = record { messages = 0; revisions = 0; tombstones = 0; edges = 0 }

-- The state after code that may raise.
pub data Attempt (S : Type 0) : Type 0 where
  completed raised : S → Attempt S

abbrev stub_object : Text → ℕ → PeerObject
stub_object tag id = record {
  tag = tag;
  id = id;
  min = true;
  access_hash = none;
  username = none;
  usernames = [];
  first_name = none;
  last_name = none;
  title = none;
  flags = [];
}

abbrev object_of : Stub → PeerObject
object_of (user n) = stub_object (codes "User") n
object_of (channel n) = stub_object (codes "Channel") n

abbrev pub is_empty : Msg → Bool
is_empty m = text_eq (lower m.tag) (codes "messageempty")

-- `m.get("_", "Message")`; a missing tag is the empty one.
abbrev pub raw_kind : Msg → Text
raw_kind m = if text_eq m.tag [] then codes "Message" else m.tag

-- `MessageEmpty`: logged, and a tombstone.
unfoldable pub observe_empty : Ctx → Db × Counts → Msg → Db × Counts
observe_empty ctx (db, counts) m =
    let observed_at = ctx.for_payload (length db.raws) (message_object m) in
    let (logged, raw_id) =
      add_raw db (codes "MessageEmpty") (message_object m) ctx.tier ctx.channel_id ctx.method
        observed_at in
    (
      record logged {
        messages = mark_deleted logged.messages ctx.channel_id m.id empty observed_at;
      },
      record counts { tombstones = suc counts.tombstones },
    )

-- The author's peer, from its bare reference.
unfoldable pub observe_author : Ctx → Db → Msg → ℕ → ℕ → Db
observe_author ctx db m raw_id observed_at = elim (peer_stub m.from_id) [
  | none ↦ db
  | some stub ↦
      elim (upsert_peer db.messages.self db.peers (object_of stub) raw_id observed_at
        (some ctx.channel_id) (some m.id)) [
          | none ↦ db
          | some (peers, uri) ↦ record db { peers = peers }
        ]
]

-- The edge to the origin of a forward; a reference without its id raises.
unfoldable pub observe_forward : Ctx → Db × Counts → Msg → ℕ → ℕ → Attempt (Db × Counts)
observe_forward ctx (db, counts) m raw_id observed_at = elim (truthy m.fwd_from) [
  | none ↦ completed (db, counts)
  | some fwd_from ↦ elim (peer_ref_uri m.fwd_from_id) [
    | key_error ↦ raised (db, counts)
    | found none ↦ completed (db, counts)
    | found (some object) ↦
        let (edges, written) = add_edge db.messages.self db.edges (record {
          subject = msg_uri ctx.channel_id m.id;
          predicate = codes "forwarded_from";
          object = object;
          observed_at = observed_at;
          tier = ctx.tier;
          source_raw_id = some raw_id;
          evidence = some (obj (field (codes "fwd_from") fwd_from end));
        }) in
        completed (
          record db { edges = edges },
          record counts { edges = if written then suc counts.edges else counts.edges },
        )
  ]
]

-- What follows the projection of the message: its author, and the origin of its forward.
unfoldable pub observe_projected :
    Ctx → Db × Counts → Msg → ℕ → ℕ → Option (Messages × Bool) → Attempt (Db × Counts)
observe_projected ctx state m raw_id observed_at none = raised state
observe_projected ctx (db, counts) m raw_id observed_at (some (messages, revised)) =
    let projected = record db { messages = messages } in
    let counted = record counts {
      messages = suc counts.messages;
      revisions = if revised then suc counts.revisions else counts.revisions;
    } in
    observe_forward ctx (observe_author ctx projected m raw_id observed_at, counted) m raw_id
      observed_at

-- Any other message: logged, then projected.
unfoldable pub observe_live : Ctx → Db × Counts → Msg → Attempt (Db × Counts)
observe_live ctx (db, counts) m =
    let observed_at = ctx.for_payload (length db.raws) (message_object m) in
    let (logged, raw_id) =
      add_raw db (raw_kind m) (message_object m) ctx.tier ctx.channel_id ctx.method observed_at in
    observe_projected ctx (logged, counts) m raw_id observed_at
      (upsert_message_revised ctx.hashing logged.messages ctx.channel_id m raw_id observed_at)

unfoldable pub observe_message : Ctx → Db × Counts → Msg → Attempt (Db × Counts)
observe_message ctx state m =
    if is_empty m then completed (observe_empty ctx state m) else observe_live ctx state m
