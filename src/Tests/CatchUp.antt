-- ===== src/Tests/CatchUp.antt =====
-- A catch-up over two pages.
use paperboy.Base.{ℕ, ◌+◌, ◌==◌, ◌≢◌, true, false, none, some, [], ◌∷◌, arith, if◌then◌else◌}
use paperboy.Base.Text.{codes}
use paperboy.Store.Db.{edited, deleted, Difference}
use paperboy.Collectors.Observe.{Ctx}
use paperboy.Collectors.Sweep.{replies, get_or}
use paperboy.Collectors.CatchUp.{Differences, unfinished, catch_up}
use paperboy.Collectors.CatchUp.Applied.{IsApplied, catch_up-IsApplied}
use paperboy.Collectors.CatchUp.Bounded.{catch_up-Bounded}
use paperboy.Tests.History.{message, plain_hashing, empty_db}

abbrev ctx : Ctx
ctx = record {
  channel_id = 7;
  method = none;
  tier = codes "member";
  for_payload = λ n p. n;
  hashing = plain_hashing;
}

abbrev page : ℕ → Difference
page pts = record {
  tag = codes "ChannelDifference";
  messages = [];
  dialog_pts = none;
  new_messages = message pts (codes "hello") ∷ [];
  other_updates = edited (message 4 (codes "edit")) ∷ deleted (3 ∷ []) ∷ [];
  pts = some (pts + 1);
  final = if pts == 11 then true else false;
}

abbrev differences : Differences
differences pts = replies (page pts)

catch_up-IsApplied_example :
    IsApplied 7
      (get_or 0 (some 10))
      (catch_up 5 ctx differences 5 empty_db (some 10)).0.db
      (get_or 0 (catch_up 5 ctx differences 5 empty_db (some 10)).0.saved_pts)
catch_up-IsApplied_example = catch_up-IsApplied 5 ctx differences 5 empty_db (some 10)

catch_up-Bounded_example : (catch_up 5 ctx differences 5 empty_db (some 10)).1 ≢ unfinished
catch_up-Bounded_example = catch_up-Bounded 5 ctx differences 5 empty_db (some 10) (omega arith)
