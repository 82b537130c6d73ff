-- ===== src/Tests/Fetch.antt =====
-- The loop over the segments at a concrete input.
use paperboy.Base.{ℕ, true, some, [], ◌∷◌}
use paperboy.Inputs.Classify.{Known}
use paperboy.Fetch.Loop.{Driver, ran}
use paperboy.Fetch.{fetch_from_list}
use paperboy.Fetch.KeptOut.{EndsKeepingOut}
use paperboy.Fetch.Calls.{fetch_from_list-KeepsOut}
use paperboy.Tests.Inputs.{nothing_known, classified_rows}

-- Collectors that reach every channel and find nothing in it.
abbrev empty_channels : Driver Known ℕ
empty_channels = record {
  establish = λ a w. (w, some 7, ran []);
  fetch_posts = λ ctx c ids w. (w, [], ran []);
  fetch_media = λ ctx c ids w. (w, [], ran []);
  channel_id = λ ctx. ctx;
  known = λ w. w;
  edges = λ w. [];
}

fetch_from_list-KeepsOut_example :
    EndsKeepingOut
      (8 ∷ [])
      (fetch_from_list empty_channels true (8 ∷ []) classified_rows nothing_known)
fetch_from_list-KeepsOut_example =
    fetch_from_list-KeepsOut empty_channels true (8 ∷ []) classified_rows nothing_known
