-- ===== src/Tests/Posts.antt =====
-- A message that an earlier run took for deleted is answered live.
use paperboy.Base.{◌≡◌, refl, some, []}
use paperboy.Base.Text.{codes}
use paperboy.Ids.Uri.{msg_uri}
use paperboy.Ids.Peer.{peer_ref_uri, peer_stub}
use paperboy.Store.Tables.{update}
use paperboy.Store.Messages.{find_message, mark_deleted, upsert_message_revised}
use paperboy.Store.Messages.Deletion.{live, status}
use paperboy.Store.Db.{add_raw}
use paperboy.Collectors.Observe.{
  Ctx, no_counts, Attempt, completed, raised, observe_message, observe_live, observe_projected,
  observe_forward, observe_author,
}
use paperboy.Collectors.Posts.{Fetch, after_observed, take_answer}
use paperboy.Collectors.Posts.Answers.{take_answer-live}
use paperboy.Tests.History.{message, plain_hashing, empty_db}

abbrev ctx : Ctx
ctx = record {
  channel_id = 7;
  method = some (codes "channels.getMessages");
  tier = codes "member";
  for_payload = λ n p. n;
  hashing = plain_hashing;
}

abbrev before : Fetch
before = record {
  db = record empty_db { messages = mark_deleted empty_db.messages 7 5 update 3 };
  counts = no_counts;
  outcomes = [];
}

abbrev result_of : Attempt Fetch → Fetch
result_of (raised f) = f
result_of (completed f) = f

abbrev after : Fetch
after = result_of (take_answer ctx before (message 5 (codes "hello")))

answer_completes : take_answer ctx before (message 5 (codes "hello")) ≡ completed after
unfolding take_answer after_observed observe_message observe_live observe_projected observe_forward
    observe_author add_raw upsert_message_revised peer_ref_uri peer_stub
answer_completes = refl

take_answer-live_example : status (find_message (msg_uri 7 5) after.db.messages.rows) ≡ live
take_answer-live_example =
    take_answer-live ctx before after (message 5 (codes "hello")) refl refl answer_completes
