-- ===== src/Collectors/Posts.antt =====
-- collectors/posts.py: an explicit list of message ids, fetched again by `channels.getMessages`.
pub mod Answers
use paperboy.Base.{
  ℕ, zero, suc, Bool, true, false, not, ◌&&◌, ◌||◌, Option, none, some, List, [], ◌∷◌, length, take,
  drop, if◌then◌else◌,
}
use paperboy.Base.Text.{Text, codes, text_eq}
use paperboy.Ids.Uri.{msg_uri}
use paperboy.Ids.Peer.{lower}
use paperboy.Store.Messages.{Msg, clear_deleted}
use paperboy.Store.Db.{Db}
use paperboy.Collectors.Observe.{
  Ctx, Counts, no_counts, Attempt, completed, raised, is_empty, observe_message,
}
use paperboy.Collectors.Sweep.{Reply, replies, stops}
use paperboy.Recipes.{sorted_set}

-- What the collector records of an id.
pub data Answer : Type 0 where
  fetched deleted_upstream : Answer

-- `outcomes`, which is filled while the phase runs.
abbrev pub Outcomes : Type 0
Outcomes = List (Text × Answer)

abbrev pub set_outcome : Text → Answer → Outcomes → Outcomes
set_outcome uri a [] = (uri, a) ∷ []
set_outcome uri a ((v, b) ∷ os) =
    if text_eq v uri then (v, a) ∷ os else (v, b) ∷ set_outcome uri a os

pub record Fetch : Type 0 where
  pub db : Db
  pub counts : Counts
  pub outcomes : Outcomes

-- `kind in _MESSAGE_KINDS`
abbrev pub is_message : Msg → Bool
is_message m =
    let kind = lower m.tag in
    text_eq kind (codes "message")
    || text_eq kind (codes "messageservice")
    || text_eq kind (codes "messageempty")

abbrev pub answer_of : Msg → Answer
answer_of m = if is_empty m then deleted_upstream else fetched

-- A live answer clears the flag of an earlier deletion.
unfoldable pub after_observed : Ctx → Outcomes → Msg → Attempt (Db × Counts) → Attempt Fetch
after_observed ctx outcomes m (raised (db, counts)) =
    raised (record { db = db; counts = counts; outcomes = outcomes })
after_observed ctx outcomes m (completed (db, counts)) =
    let cleared = (clear_deleted db.messages ctx.channel_id m.id).0 in
    completed (record {
      db = if is_empty m then db else record db { messages = cleared };
      counts = counts;
      outcomes = set_outcome (msg_uri ctx.channel_id m.id) (answer_of m) outcomes;
    })

unfoldable pub take_answer : Ctx → Fetch → Msg → Attempt Fetch
unfolding after_observed
take_answer ctx f m =
    if is_message m
    then after_observed ctx f.outcomes m (observe_message ctx (f.db, f.counts) m)
    else completed f

unfoldable pub take_answers : Ctx → Fetch → List Msg → Attempt Fetch
take_answers ctx f [] = completed f
take_answers ctx f (m ∷ ms) = elim (take_answer ctx f m) [
  | raised f' ↦ raised f'
  | completed f' ↦ take_answers ctx f' ms
]

-- `GET_MESSAGES_BATCH`
abbrev pub batch_size : ℕ
batch_size = 100

abbrev pub batches_within : ℕ → List ℕ → List (List ℕ)
batches_within zero ids = []
batches_within (suc fuel) [] = []
batches_within (suc fuel) (i ∷ ids) =
    take batch_size (i ∷ ids) ∷ batches_within fuel (drop batch_size (i ∷ ids))

unfoldable pub batches : List ℕ → List (List ℕ)
batches ids = batches_within (length ids) ids

unfoldable pub fetch_batches :
    Ctx → (List ℕ → Reply (List Msg)) → Fetch → List (List ℕ) → Attempt Fetch
fetch_batches ctx get_messages f [] = completed f
fetch_batches ctx get_messages f (b ∷ bs) = elim (get_messages b) [
  | stops ↦ raised f
  | replies answers ↦ elim (take_answers ctx f answers) [
    | raised f' ↦ raised f'
    | completed f' ↦ fetch_batches ctx get_messages f' bs
  ]
]

-- `_fetch`
unfoldable pub fetch : Ctx → (List ℕ → Reply (List Msg)) → List ℕ → Db → Outcomes → Attempt Fetch
fetch ctx get_messages post_msgs db outcomes =
    fetch_batches ctx get_messages (record { db = db; counts = no_counts; outcomes = outcomes })
      (batches (sorted_set post_msgs))
