-- ===== src/Tests/Store.antt =====
-- The store's projections on small inputs.
use paperboy.Base.{
  ℕ, ◌≡◌, ◌≢◌, ◌≤◌, refl, not, Bool, true, false, none, some, List, [], ◌∷◌, ◌++◌, arith,
  if◌then◌else◌,
}
use paperboy.Base.Decimal.{digits_of, decimal}
use paperboy.Base.Text.{Text, codes, text_eq}
use paperboy.Ids.Uri.{user_uri, msg_uri}
use paperboy.Ids.Peer.{peer_ref_uri}
use paperboy.Store.Json.{str, obj, arr, nil, cons, Fields, end, field}
use paperboy.Store.Json.Alike.{
  same, arrays, objects, no_items, item, AlikeFields, no_fields, fields, first_has, second_has,
  IsAlike,
}
use paperboy.Store.Tables.{update, empty, gap, Messages}
use paperboy.Store.Messages.{
  Msg, truthy, upsert_message_revised, project, message_row, metrics_of, find_message,
}
use paperboy.Store.Messages.Revisions.{hash_of, revision, revised-upsert, upsert-unchanged}
use paperboy.Store.Messages.Deletion.{
  Op, observe, mark, clear, run-All, status, next_all, tombstones_of, status-run_all,
  tombstones-run_all,
}
use paperboy.Store.Peers.{
  observe as observe_peer, PeerObject, PeerRow, find_peer, classify_peer, upsert_peer,
}
use paperboy.Store.Peers.Table.{upsert_peer_self}
use paperboy.Store.Peers.Order.{
  observe_all, earliest, latest, all_min, observe_all-window, observe_comm_full, min_hides_full,
}
use paperboy.Store.Edges.{
  Edge, add_edge, add_edge_once, copies, IsWithoutSelf, add_edge_once-IsWithoutSelf,
  add_edge_once-copies,
}
use paperboy.Tests.History.{message, plain_hashing, empty_db}

abbrev store : Messages
store = empty_db.messages

abbrev ops : List Op
ops =
    observe (message 5 (codes "hello")) 1 10
    ∷ mark 5 gap 11
    ∷ mark 5 empty 12
    ∷ mark 5 update 13
    ∷ observe (message 5 (codes "again")) 2 14
    ∷ clear 6
    ∷ []

status-run_all_example :
    status (find_message (msg_uri 7 5) (run-All plain_hashing 7 store ops).rows)
    ≡ next_all 5 (status (find_message (msg_uri 7 5) store.rows)) ops
status-run_all_example = status-run_all plain_hashing 7 5 store ops

tombstones-run_all_example :
    (run-All plain_hashing 7 store ops).tombstones ≡ store.tombstones ++ tombstones_of 7 ops
tombstones-run_all_example = tombstones-run_all plain_hashing 7 store ops

-- A photo whose file reference changes between two observations.
abbrev photo : Text → Msg
photo reference = record (message 5 (codes "hello")) {
  media = some (
      obj (
        field (codes "_") (str (codes "Photo")) (
          field (codes "sizes")
            (arr (cons (obj (field (codes "file_reference") (str reference) end)) nil))
            (field (codes "file_reference") (str reference) end))));
}

abbrev result : Messages → Msg → ℕ → Messages × Bool
result s m t =
    project plain_hashing s (message_row plain_hashing none 7 m 1 t)
      (metrics_of (msg_uri 7 m.id) t m)

abbrev once : Messages × Bool
once = result store (photo (codes "a")) 10

abbrev twice : Messages × Bool
twice = result once.0 (photo (codes "b")) 4

upsert_once : upsert_message_revised plain_hashing store 7 (photo (codes "a")) 1 10 ≡ some once
unfolding upsert_message_revised peer_ref_uri
upsert_once = refl

upsert_twice : upsert_message_revised plain_hashing once.0 7 (photo (codes "b")) 1 4 ≡ some twice
unfolding upsert_message_revised peer_ref_uri
upsert_twice = refl

reference_alike :
    (fs gs : Fields)
    → AlikeFields fs gs
    → AlikeFields
        (field (codes "file_reference") (str (codes "a")) fs)
        (field (codes "file_reference") (str (codes "b")) gs)
reference_alike fs gs h = first_has _ _ _ (second_has _ _ _ h)

same_photo : IsAlike (truthy (photo (codes "a")).media) (truthy (photo (codes "b")).media)
same_photo = objects _ _ (
    fields _ _ _ _ _ (same _) (
      fields _ _ _ _ _
        (arrays _ _ (item _ _ _ _ (objects _ _ (reference_alike end end no_fields)) no_items))
        (reference_alike end end no_fields)))

revised-upsert_example :
    (twice.1
      ≡ not (
          text_eq
            (hash_of plain_hashing (photo (codes "a")))
            (hash_of plain_hashing (photo (codes "b")))))
    × (twice.0.revisions ≡ (
        if text_eq
          (hash_of plain_hashing (photo (codes "a")))
          (hash_of plain_hashing (photo (codes "b")))
        then once.0.revisions
        else once.0.revisions ++ (revision plain_hashing 7 (photo (codes "b")) 1 4 ∷ [])))
revised-upsert_example =
    revised-upsert plain_hashing store 7 (photo (codes "a")) (photo (codes "b")) 1 10 1 4 once twice
      refl tt upsert_once upsert_twice

upsert-unchanged_example : (twice.1 ≡ false) × (twice.0.revisions ≡ once.0.revisions)
upsert-unchanged_example =
    upsert-unchanged plain_hashing store 7 (photo (codes "a")) (photo (codes "b")) 1 10 1 4 once
      twice refl refl same_photo tt upsert_once upsert_twice

abbrev peer_row : Bool → Text → ℕ → PeerRow
peer_row is_min name t = record {
  uri = user_uri 1;
  profile = record {
    kind = codes "user";
    id = 1;
    access_hash = none;
    username = none;
    first_name = some name;
    last_name = none;
    title = none;
    flags = [];
  };
  is_min = is_min;
  seen_in_chat = none;
  seen_in_msg = none;
  source_raw_id = t;
  first_seen = t;
  last_seen = t;
}

abbrev arrivals : List PeerRow
arrivals = peer_row true [] 9 ∷ peer_row false (codes "Bea") 5 ∷ []

observe_all-window_example :
    ((observe_all (peer_row false (codes "Ann") 6) arrivals).first_seen ≡ earliest 6 arrivals)
    × ((observe_all (peer_row false (codes "Ann") 6) arrivals).last_seen ≡ latest 6 arrivals)
    × ((observe_all (peer_row false (codes "Ann") 6) arrivals).is_min ≡ all_min false arrivals)
observe_all-window_example = observe_all-window (peer_row false (codes "Ann") 6) arrivals

observe_comm_full_example :
    observe_peer
      (observe_peer (peer_row false (codes "Ann") 3) (peer_row false (codes "Bea") 7))
      (peer_row false (codes "Cat") 5)
    ≡ observe_peer
        (observe_peer (peer_row false (codes "Ann") 3) (peer_row false (codes "Cat") 5))
        (peer_row false (codes "Bea") 7)
observe_comm_full_example =
    observe_comm_full (peer_row false (codes "Ann") 3) (peer_row false (codes "Bea") 7)
      (peer_row false (codes "Cat") 5) refl refl refl (λ e. omega (arith, e))

min_hides_full_example :
    ((observe_peer
        (observe_peer (peer_row false (codes "Ann") 3) (peer_row true [] 9))
        (peer_row false (codes "Bea") 5)).profile
      ≡ (peer_row false (codes "Ann") 3).profile)
    × ((observe_peer
          (observe_peer (peer_row false (codes "Ann") 3) (peer_row false (codes "Bea") 5))
          (peer_row true [] 9)).profile
        ≡ (peer_row false (codes "Bea") 5).profile)
min_hides_full_example =
    min_hides_full (peer_row false (codes "Ann") 3) (peer_row true [] 9)
      (peer_row false (codes "Bea") 5) refl refl refl (omega arith) (omega arith)

-- The collecting account's own profile is seen.
abbrev own_profile : PeerObject
own_profile = record {
  tag = codes "User";
  id = 1;
  min = false;
  access_hash = none;
  username = none;
  usernames = [];
  first_name = some (codes "Ann");
  last_name = none;
  title = none;
  flags = [];
}

own_profile_is_skipped :
    upsert_peer (some (user_uri 1)) [] own_profile 1 10 none none ≡ some ([], none)
unfolding upsert_peer classify_peer user_uri decimal digits_of
own_profile_is_skipped = refl

upsert_peer_self_example : (find_peer (user_uri 1) [] ≡ none) × (none ≢ some (user_uri 1))
upsert_peer_self_example =
    upsert_peer_self (user_uri 1) [] own_profile 1 10 none none [] none refl own_profile_is_skipped

abbrev edge : Text → ℕ → Edge
edge object t = record {
  subject = codes "a";
  predicate = codes "mentions";
  object = object;
  observed_at = t;
  tier = codes "public";
  source_raw_id = none;
  evidence = none;
}

add_edge_once-copies_example :
    copies
      (codes "a")
      (codes "mentions")
      (codes "b")
      (add_edge_once none (edge (codes "b") 1 ∷ []) (edge (codes "b") 2)).0
    ≤ 1
add_edge_once-copies_example =
    add_edge_once-copies none (edge (codes "b") 1 ∷ []) (edge (codes "b") 2) (codes "a")
      (codes "mentions") (codes "b") (omega arith)

add_edge_once-IsWithoutSelf_example :
    IsWithoutSelf (codes "me") (add_edge (some (codes "me")) [] (edge (codes "me") 1)).0
    × IsWithoutSelf (codes "me") (add_edge_once (some (codes "me")) [] (edge (codes "me") 1)).0
add_edge_once-IsWithoutSelf_example =
    add_edge_once-IsWithoutSelf (codes "me") [] (edge (codes "me") 1) tt
