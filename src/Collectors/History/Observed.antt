-- ===== src/Collectors/History/Observed.antt =====
-- Every message that is observed reaches the raw log, whatever then happens to it.
use paperboy.Base.{
  ℕ, ◌≡◌, refl, ◌∙◌, sym, ap, Bool, Option, none, some, if◌then◌else◌, ◌==◌, List, [], ◌∷◌, ◌++◌,
  map, length, arith, In, In-append_left, In-append_right, inl, inr, Bool-cases,
}
use mathlib.Core.Path.{subst}
use mathlib.Core.List.{append_assoc}
use paperboy.Base.Text.{codes}
use paperboy.Ids.Uri.{msg_uri}
use paperboy.Store.Messages.{Msg}
use paperboy.Store.Tables.{Messages}
use paperboy.Store.Db.{Payload, message_object, difference, Db, Raw, add_raw}
use paperboy.Collectors.Observe.{
  Ctx, Counts, Attempt, completed, raised, is_empty, raw_kind, observe_empty, observe_author,
  observe_forward, observe_projected, observe_live, observe_message,
}
use paperboy.Collectors.History.{observe_page}
use paperboy.Collectors.Sweep.{Tally, note_id, keep_progress}

-- The ids of the message objects that are logged under a channel.
abbrev pub ids_in : Payload → List ℕ
ids_in (message_object m) = m.id ∷ []
ids_in (difference d) = []

abbrev pub ids_of : ℕ → Raw → List ℕ
ids_of c r = if r.channel_id == c then ids_in r.payload else []

abbrev pub logged_ids : ℕ → List Raw → List ℕ
logged_ids c [] = []
logged_ids c (r ∷ raws) = ids_of c r ++ logged_ids c raws

-- A message with this id is in the log, under this channel.
abbrev pub IsLogged : ℕ → Db → ℕ → Type 0
IsLogged c db i = In i (logged_ids c db.raws)

-- The message with this id is recorded as deleted.
abbrev pub IsDeleted : ℕ → Db → ℕ → Type 0
IsDeleted c db i = In (msg_uri c i) (map (λ t. t.message_uri) db.messages.tombstones)

abbrev pub db_of : Attempt (Db × Counts) → Db
db_of (completed s) = s.0
db_of (raised s) = s.0

raws-observe_author :
    (ctx : Ctx) (db : Db) (m : Msg) (raw_id t : ℕ)
    → (observe_author ctx db m raw_id t).raws ≡ db.raws
unfolding observe_author
raws-observe_author ctx db m raw_id t = ground arith

raws-observe_forward :
    (ctx : Ctx) (db : Db) (counts : Counts) (m : Msg) (raw_id t : ℕ)
    → (db_of (observe_forward ctx (db, counts) m raw_id t)).raws ≡ db.raws
unfolding observe_forward
raws-observe_forward ctx db counts m raw_id t = ground arith

pub logged_ids-append :
    (c : ℕ) (raws more : List Raw)
    → logged_ids c (raws ++ more) ≡ logged_ids c raws ++ logged_ids c more
logged_ids-append c [] more = refl
logged_ids-append c (r ∷ raws) more =
    ap (λ l. ids_of c r ++ l) (logged_ids-append c raws more)
    ∙ sym (append_assoc (ids_of c r) (logged_ids c raws) (logged_ids c more))

-- What follows the record in the log leaves the log alone.
raws-observe_projected :
    (ctx : Ctx) (db : Db) (counts : Counts) (m : Msg) (raw_id t : ℕ)
    (result : Option (Messages × Bool))
    → (db_of (observe_projected ctx (db, counts) m raw_id t result)).raws ≡ db.raws
unfolding observe_projected
raws-observe_projected ctx db counts m raw_id t none = refl
raws-observe_projected ctx db counts m raw_id t (some (messages, revised)) =
    let projected : Db = record db { messages = messages } in
    raws-observe_forward ctx (observe_author ctx projected m raw_id t) _ m raw_id t
    ∙ raws-observe_author ctx projected m raw_id t

pub raws-observe_live :
    (ctx : Ctx) (db : Db) (counts : Counts) (m : Msg)
    → (db_of (observe_live ctx (db, counts) m)).raws
      ≡ (add_raw db
          (raw_kind m)
          (message_object m)
          ctx.tier
          ctx.channel_id
          ctx.method
          (ctx.for_payload (length db.raws) (message_object m))).0.raws
unfolding observe_live
raws-observe_live ctx db counts m = raws-observe_projected ctx _ counts m _ _ _

-- The record that an observation logs.
abbrev pub record_of : Ctx → Db → Msg → Raw
record_of ctx db m = record {
  kind = if is_empty m then codes "MessageEmpty" else raw_kind m;
  payload = message_object m;
  tier = ctx.tier;
  channel_id = ctx.channel_id;
  method = ctx.method;
  observed_at = ctx.for_payload (length db.raws) (message_object m);
  run_id = db.run_id;
}

-- One observation appends one record to the log, whether it raises or not: the message itself as
-- the payload, under the collector's channel, tier and method, at the time that the clock answers
-- and in the store's run, with the kind that the message's tag asks for.
pub raws-observe_message :
    (ctx : Ctx) (db : Db) (counts : Counts) (m : Msg)
    → (db_of (observe_message ctx (db, counts) m)).raws
      ≡ db.raws
        ++ (record {
          kind = if is_empty m then codes "MessageEmpty" else raw_kind m;
          payload = message_object m;
          tier = ctx.tier;
          channel_id = ctx.channel_id;
          method = ctx.method;
          observed_at = ctx.for_payload (length db.raws) (message_object m);
          run_id = db.run_id;
        }
            ∷ [])
unfolding observe_message observe_empty add_raw
raws-observe_message ctx db counts m = elim (Bool-cases (is_empty m)) [
  | inl y ↦ rw y refl
  | inr n ↦ rw n (raws-observe_live ctx db counts m)
]

pub logged-observe_message :
    (ctx : Ctx) (db : Db) (counts : Counts) (m : Msg)
    → logged_ids ctx.channel_id (db_of (observe_message ctx (db, counts) m)).raws
      ≡ logged_ids ctx.channel_id db.raws ++ (m.id ∷ [])
logged-observe_message ctx db counts m =
    ap (logged_ids ctx.channel_id) (raws-observe_message ctx db counts m)
    ∙ logged_ids-append ctx.channel_id db.raws (record_of ctx db m ∷ [])
    ∙ ap (λ l. logged_ids ctx.channel_id db.raws ++ l) own
  where
    own : logged_ids ctx.channel_id (record_of ctx db m ∷ []) ≡ m.id ∷ []
    own = ground arith

abbrev pub tally_of : Attempt Tally → Tally
tally_of (completed t) = t
tally_of (raised t) = t

message_stays :
    (ctx : Ctx) (db : Db) (counts : Counts) (m : Msg) (i : ℕ)
    → IsLogged ctx.channel_id db i
    → IsLogged ctx.channel_id (db_of (observe_message ctx (db, counts) m)) i
message_stays ctx db counts m i h =
    subst (In i) (sym (logged-observe_message ctx db counts m))
      (In-append_left i (logged_ids ctx.channel_id db.raws) (m.id ∷ []) h)

pub message-IsLogged :
    (ctx : Ctx) (db : Db) (counts : Counts) (m : Msg)
    → IsLogged ctx.channel_id (db_of (observe_message ctx (db, counts) m)) m.id
message-IsLogged ctx db counts m =
    subst (In m.id) (sym (logged-observe_message ctx db counts m))
      (In-append_right m.id (logged_ids ctx.channel_id db.raws) (m.id ∷ []) (inl refl))

-- What is logged by the first message stays, if the rest of the page keeps it.
first_stays :
    (ctx : Ctx) (t : Tally) (m : Msg) (ms : List Msg) (i : ℕ)
    → ((t : Tally)
        → IsLogged ctx.channel_id t.db i
        → IsLogged ctx.channel_id (tally_of (observe_page ctx t ms)).db i)
    → IsLogged ctx.channel_id (db_of (observe_message ctx (t.db, t.counts) m)) i
    → IsLogged ctx.channel_id (tally_of (observe_page ctx t (m ∷ ms))).db i
unfolding observe_page
first_stays ctx t m ms i rest =
    elim (observe_message ctx (t.db, t.counts) m)
      as (λ r.
        IsLogged ctx.channel_id (db_of r) i
        → IsLogged ctx.channel_id
            (tally_of (elim r [
              | raised r ↦ raised (keep_progress t r)
              | completed r ↦ observe_page ctx (note_id t r m) ms
            ])).db
            i) [ raised r ↦ λ q. q | completed r ↦ λ q. rest (note_id t r m) q ]

-- A page keeps what was logged, even if it raises on the way.
pub observe_page-stays :
    (ctx : Ctx) (t : Tally) (page : List Msg) (i : ℕ)
    → IsLogged ctx.channel_id t.db i
    → IsLogged ctx.channel_id (tally_of (observe_page ctx t page)).db i
unfolding observe_page
observe_page-stays ctx t [] i h = h
observe_page-stays ctx t (m ∷ ms) i h =
    first_stays ctx t m ms i (λ t q. observe_page-stays ctx t ms i q)
      (message_stays ctx t.db t.counts m i h)

-- A page that does not raise is logged whole.
pub observe_page-logs :
    (ctx : Ctx) (t : Tally) (page : List Msg) (t' : Tally) (i : ℕ)
    → observe_page ctx t page ≡ completed t'
    → In i (map (λ m. m.id) page)
    → IsLogged ctx.channel_id t'.db i
unfolding observe_page
observe_page-logs ctx t [] t' i e h = absurd h
observe_page-logs ctx t (m ∷ ms) t' i e (inl here) =
    subst (λ n. IsLogged ctx.channel_id t'.db n) (sym here)
      (subst (λ r. IsLogged ctx.channel_id (tally_of r).db m.id) e
        (first_stays ctx t m ms m.id (λ t q. observe_page-stays ctx t ms m.id q)
          (message-IsLogged ctx t.db t.counts m)))
observe_page-logs ctx t (m ∷ ms) t' i e (inr later) =
    (elim (observe_message ctx (t.db, t.counts) m)
        as (λ r.
          elim r [
            | raised r ↦ raised (keep_progress t r)
            | completed r ↦ observe_page ctx (note_id t r m) ms
          ]
            ≡ completed t'
          → IsLogged ctx.channel_id t'.db i) [
            | raised r ↦ λ q. cc
            | completed r ↦ λ q. observe_page-logs ctx (note_id t r m) ms t' i q later
          ])
      e
