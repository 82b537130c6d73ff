-- ===== src/Tests/History.antt =====
-- The history sweep on a channel of two messages that is served one message a page.
use paperboy.Base.{
  ℕ, ◌==◌, ◌≡◌, ◌≢◌, refl, ◌≤◌, inr, true, none, some, List, [], ◌∷◌, ◌++◌, arith, ltb,
  if◌then◌else◌, In, All, length,
}
use paperboy.Base.Text.{Text, codes}
use paperboy.Sync.Ranges.{ids_from, add_range}
use paperboy.Ids.Peer.{peer_ref_uri, peer_stub}
use paperboy.Store.Messages.{
  Msg, Hashing, upsert_message_revised, project, is_revised, latest_revision_hash, message_row,
}
use paperboy.Store.Db.{Db, add_raw, message_object}
use paperboy.Collectors.Observe.{
  Ctx, no_counts, observe_message, observe_live, observe_projected, observe_forward, observe_author,
}
use paperboy.Collectors.History.{collect, loop, round, advance, observe_page, after_loop, settle}
use paperboy.Collectors.Sweep.{
  Gateway, Tally, replies, Saved, Options, Locals, Stop, start, finished, budget_stop, exhausted,
}
use paperboy.Collectors.Gaps.{chunks, candidates, verify, probe, probe_chunks, judge_results}
use paperboy.Collectors.History.Observed.{db_of, raws-observe_message}
use paperboy.Collectors.History.Coverage.{IsServer}
use paperboy.Collectors.History.Sweeps.{IsSound}
use paperboy.Collectors.History.Runs.{IsComplete, collect-IsSound, collect-IsComplete}
use paperboy.Collectors.History.Ends.{IsBounded, collect-Ends}
use paperboy.Collectors.History.Asked.{IsAsked, probe-IsAsked}

abbrev pub message : ℕ → Text → Msg
message id text = record {
  tag = codes "Message";
  id = id;
  message = text;
  media = none;
  entities = none;
  fwd_from = none;
  fwd_from_id = none;
  reply_to_msg_id = none;
  reply_to_top_id = none;
  action = none;
  date = none;
  edit_date = none;
  from_id = none;
  post_author = none;
  grouped_id = none;
  via_bot_id = none;
  views = none;
  forwards = none;
  replies = none;
  reactions = none;
}

abbrev pub plain_hashing : Hashing
plain_hashing = record { sha256 = λ t. t; dumps = λ j. [] }

abbrev pub empty_db : Db
empty_db = record {
  run_id = none;
  raws = [];
  messages = record { self = none; rows = []; revisions = []; metrics = []; tombstones = [] };
  peers = [];
  edges = [];
  ranges = [];
}

abbrev ctx : Ctx
ctx = record {
  channel_id = 7;
  method = none;
  tier = codes "member";
  for_payload = λ n m. n;
  hashing = plain_hashing;
}

abbrev page_below : ℕ → List Msg
page_below offset =
    if offset == 0
    then message 5 [] ∷ []
    else if ltb 5 offset
    then message 5 [] ∷ []
    else if ltb 3 offset
    then message 3 [] ∷ []
    else []

abbrev gateway : Gateway
gateway = record {
  iter_history = λ offset. replies (page_below offset);
  get_messages = λ ids. replies [];
}

abbrev server : List ℕ
server = 5 ∷ 3 ∷ []

abbrev unsaved : Saved
unsaved = record { offset_id = none; sweep = none }

abbrev one_page : Options
one_page = record { probe_gaps = true; page_budget = some 1 }

abbrev no_budget : Options
no_budget = record { probe_gaps = true; page_budget = none }

replies_injective : (x y : List Msg) → replies x ≡ replies y → x ≡ y
replies_injective x y e = cc

gateway-IsServer : IsServer server gateway
gateway-IsServer = record {
  positive = λ i held. ground (arith, held);
  below = λ offset page i e m. ground (arith, replies_injective (page_below offset) page e, m);
  skips_none = λ offset page i e held b.
      ground (arith, replies_injective (page_below offset) page e, held, b);
}

unsaved-IsSound : IsSound 7 server empty_db unsaved
unfolding start
unsaved-IsSound = (λ i held due. absurd (ground (arith, due)), inr refl)

gateway-IsBounded : IsBounded 5 gateway
gateway-IsBounded offset page i e m =
    ground (arith, replies_injective (page_below offset) page e, m)

-- The first run spends its budget on the newest message, and the second takes up from there.
collect_spends : (collect 6 ctx gateway one_page empty_db unsaved).1 ≡ budget_stop
unfolding collect loop round start advance observe_page observe_message observe_live
    observe_projected observe_forward observe_author add_raw upsert_message_revised project
    is_revised latest_revision_hash peer_ref_uri peer_stub message_row after_loop
collect_spends = refl

collect_finishes : (collect 6 ctx gateway no_budget empty_db unsaved).1 ≡ finished
unfolding collect loop round start advance observe_page observe_message observe_live
    observe_projected observe_forward observe_author add_raw upsert_message_revised project
    is_revised latest_revision_hash peer_ref_uri peer_stub message_row after_loop verify probe
    probe_chunks chunks candidates judge_results settle ids_from
collect_finishes = refl

abbrev first : Locals × Stop
first = collect 6 ctx gateway one_page empty_db unsaved

collect-IsSound_example : IsSound 7 server first.0.tally.db first.0.saved
collect-IsSound_example =
    collect-IsSound server 6 ctx gateway one_page empty_db unsaved gateway-IsServer unsaved-IsSound

collect-IsComplete_example :
    IsComplete 7 server
      (collect 6 ctx gateway no_budget empty_db unsaved).0.tally.db
      (collect 6 ctx gateway no_budget empty_db unsaved).0.saved
collect-IsComplete_example =
    collect-IsComplete server 6 ctx gateway no_budget empty_db unsaved gateway-IsServer
      unsaved-IsSound collect_finishes

collect-Ends_example : first.1 ≢ exhausted
collect-Ends_example =
    collect-Ends server 5 6 ctx gateway one_page empty_db unsaved gateway-IsServer gateway-IsBounded
      (omega arith)

-- A gateway that answers each call with a placeholder for the message 4.
abbrev placeholder : Msg
placeholder = record (message 4 []) { tag = codes "messageEmpty" }

abbrev gapped : Gateway
gapped = record {
  iter_history = λ offset. replies (page_below offset);
  get_messages = λ ids. replies (placeholder ∷ message 6 [] ∷ []);
}

abbrev seen : Tally
seen = record {
  db = empty_db;
  counts = no_counts;
  ids_seen = 5 ∷ 3 ∷ [];
  min_id = some 3;
  max_id = some 5;
}

seen_finishes : (probe ctx gapped seen 3 5).1 ≡ finished
unfolding probe probe_chunks chunks candidates judge_results ids_from
seen_finishes = refl

not_seen : ¬ In {A = ℕ} 4 (5 ∷ 3 ∷ [])
not_seen m = ground (arith, m)

probe-IsAsked_example :
    ((chunk : List ℕ) × In 4 chunk
      × (length chunk ≤ 200)
      × All (λ j. (3 ≤ j) × (j ≤ 5) × ¬ In j (5 ∷ 3 ∷ [])) chunk
      × IsAsked 7 gapped (probe ctx gapped seen 3 5).0.db chunk)
    × ((probe ctx gapped seen 3 5).0.db.ranges ≡ add_range [] 7 3 5)
probe-IsAsked_example =
    probe-IsAsked ctx gapped seen 3 5 4 (omega arith) (omega arith) not_seen seen_finishes

raws-observe_message_example :
    (db_of (observe_message ctx (empty_db, no_counts) (message 5 []))).raws
    ≡ []
      ++ (record {
        kind = codes "Message";
        payload = message_object (message 5 []);
        tier = codes "member";
        channel_id = 7;
        method = none;
        observed_at = 0;
        run_id = none;
      }
          ∷ [])
raws-observe_message_example = raws-observe_message ctx empty_db no_counts (message 5 [])
