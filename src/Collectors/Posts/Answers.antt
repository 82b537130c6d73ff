-- ===== src/Collectors/Posts/Answers.antt =====
-- What an answer makes of the message: Telegram's live answer wins over an earlier deletion.
use mathlib.Core.Path.{subst}
use paperboy.Base.{
  ℕ, ◌==◌, ◌≡◌, refl, ◌∙◌, sym, ap, Bool, true, false, Option, none, some, [], ◌∷◌, arith,
  if◌then◌else◌,
}
use paperboy.Ids.Uri.{msg_uri}
use paperboy.Ids.Peer.{Lookup, found, key_error, peer_ref_uri}
use paperboy.Base.Text.{Text}
use paperboy.Store.Tables.{Messages}
use paperboy.Store.Messages.{
  Msg, Hashing, project_from, upsert_message_revised, find_message, clear_deleted,
}
use paperboy.Store.Messages.Deletion.{
  observe, clear, stored, completes, seen, restored, Status, live, status, status-run_all,
}
use paperboy.Store.Db.{Db, add_raw}
use paperboy.Collectors.Observe.{
  Ctx, Counts, Attempt, completed, raised, is_empty, observe_author, observe_forward,
  observe_projected, observe_live, observe_message,
}
use paperboy.Collectors.History.Observed.{db_of}
use paperboy.Collectors.Posts.{Fetch, is_message, after_observed, take_answer}

messages-observe_author :
    (ctx : Ctx) (db : Db) (m : Msg) (raw_id t : ℕ)
    → (observe_author ctx db m raw_id t).messages ≡ db.messages
unfolding observe_author
messages-observe_author ctx db m raw_id t = ground arith

messages-observe_forward :
    (ctx : Ctx) (db : Db) (counts : Counts) (m : Msg) (raw_id t : ℕ)
    → (db_of (observe_forward ctx (db, counts) m raw_id t)).messages ≡ db.messages
unfolding observe_forward
messages-observe_forward ctx db counts m raw_id t = ground arith

-- A projection that completes has stored the result of the upsert.
messages-observe_projected :
    (ctx : Ctx) (db : Db) (counts : Counts) (m : Msg) (raw_id t : ℕ)
    (result : Option (Messages × Bool)) (s : Db × Counts)
    → observe_projected ctx (db, counts) m raw_id t result ≡ completed s
    → (revised : Bool) × (result ≡ some (s.0.messages, revised))
unfolding observe_projected
messages-observe_projected ctx db counts m raw_id t none s e = cc
messages-observe_projected ctx db counts m raw_id t (some (messages, revised)) s e =
    (revised, ap (λ x. some (x, revised)) stored_by)
  where
    projected : Db
    projected = record db { messages = messages }

    stored_by : messages ≡ s.0.messages
    stored_by =
        sym (
          messages-observe_forward ctx (observe_author ctx projected m raw_id t) _ m raw_id t
          ∙ messages-observe_author ctx projected m raw_id t)
        ∙ ap (λ r. (db_of r).messages) e

-- An upsert that does not raise, and then a clear, leave the message live.
cleared_is_live :
    (h : Hashing) (c : ℕ) (store : Messages) (m : Msg) (raw t : ℕ) (r : Messages × Bool)
    → upsert_message_revised h store c m raw t ≡ some r
    → status (find_message (msg_uri c m.id) (clear_deleted r.0 c m.id).0.rows) ≡ live
unfolding upsert_message_revised
cleared_is_live h c store m raw t r e =
    ap (λ s. status (find_message (msg_uri c m.id) (clear_deleted (stored store s) c m.id).0.rows))
      (sym e)
    ∙ status-run_all h c m.id store (observe m raw t ∷ clear m.id ∷ [])
    ∙ ends_live (peer_ref_uri m.from_id) e
  where
    same : (m.id == m.id) ≡ true
    same = ground arith

    revived : (s : Status) → restored (seen s) ≡ live
    revived s = ground arith

    ends_live :
        (v : Lookup (Option Text))
        → project_from h store c m raw t v ≡ some r
        → (if m.id == m.id
            then restored (
                if m.id == m.id
                then (if completes v
                    then seen (status (find_message (msg_uri c m.id) store.rows))
                    else status (find_message (msg_uri c m.id) store.rows))
                else status (find_message (msg_uri c m.id) store.rows))
            else (if m.id == m.id
                then (if completes v
                    then seen (status (find_message (msg_uri c m.id) store.rows))
                    else status (find_message (msg_uri c m.id) store.rows))
                else status (find_message (msg_uri c m.id) store.rows)))
          ≡ live
    ends_live key_error q = cc
    ends_live (found v) q = rw same (revived (status (find_message (msg_uri c m.id) store.rows)))

abbrev fetch_of : Attempt Fetch → Fetch
fetch_of (raised f) = f
fetch_of (completed f) = f

-- A live answer that is observed without an exception leaves its message live, whatever an
-- earlier run concluded.
pub take_answer-live :
    (ctx : Ctx) (f f' : Fetch) (m : Msg)
    → is_message m ≡ true
    → is_empty m ≡ false
    → take_answer ctx f m ≡ completed f'
    → status (find_message (msg_uri ctx.channel_id m.id) f'.db.messages.rows) ≡ live
unfolding take_answer after_observed observe_message observe_live add_raw
take_answer-live ctx f f' m known there e = go _ refl (rw (known, there) at e)
  where
    go :
        (r : Attempt (Db × Counts))
        → observe_live ctx (f.db, f.counts) m ≡ r
        → after_observed ctx f.outcomes m r ≡ completed f'
        → status (find_message (msg_uri ctx.channel_id m.id) f'.db.messages.rows) ≡ live
    go (raised s) o q = cc
    go (completed s) o q =
        let (revised, stored_by) = messages-observe_projected ctx _ f.counts m _ _ _ s o in
        subst (λ ms. status (find_message (msg_uri ctx.channel_id m.id) ms.rows) ≡ live)
          (sym (kept s) ∙ ap (λ r. (fetch_of r).db.messages) q)
          (cleared_is_live ctx.hashing ctx.channel_id f.db.messages m _ _ (s.0.messages, revised)
            stored_by)
      where
        kept :
            (s : Db × Counts)
            → (fetch_of (after_observed ctx f.outcomes m (completed s))).db.messages
              ≡ (clear_deleted s.0.messages ctx.channel_id m.id).0
        kept (db, counts) = rw there refl
