-- ===== src/Fetch/Rows.antt =====
-- fetch_from_list.py: the result of each row, and how it is settled.
use paperboy.Base.{
  ℕ, zero, suc, Bool, true, false, not, Option, none, some, List, [], ◌∷◌, map, if◌then◌else◌,
}
use paperboy.Base.Text.{Text, codes}
use paperboy.Ids.Uri.{msg_uri}
use paperboy.Collectors.Posts.{Answer, fetched, deleted_upstream}
use paperboy.Media.Content.{kind_of}
use paperboy.Media.Phase.State.{Outcome, Row}
use paperboy.Inputs.Classify.{
  Offline, duplicate_row, excluded, pending, ClassifiedRow, find_message,
}

-- The outcome of a row: an offline one, one that the media phase notes, or one of the command's.
pub data Final : Type 0 where
  not_attempted no_access excluded_row repeated : Final
  by_media : Outcome → Final
  gone_upstream already_stored post_only no_media : Final

-- `post` is `none` for `skipped`.
pub record RowResult : Type 0 where
  pub classified : ClassifiedRow
  pub outcome : Final
  pub reason : Text
  pub post : Option Answer

abbrev pub excluded_reason : Text
excluded_reason = codes "channel excluded by --exclude-target"

abbrev initial_outcome : Offline → Final
initial_outcome pending = not_attempted
initial_outcome excluded = excluded_row
initial_outcome duplicate_row = repeated

abbrev initial_reason : Offline → Text
initial_reason pending = []
initial_reason excluded = excluded_reason
initial_reason duplicate_row = []

abbrev pub initial_result : ClassifiedRow → RowResult
initial_result c = record {
  classified = c;
  outcome = initial_outcome c.outcome;
  reason = initial_reason c.outcome;
  post = none;
}

unfoldable pub initial_results : List ClassifiedRow → List RowResult
initial_results cs = map initial_result cs

-- The rows are shared objects: a segment holds their places in the list of results, and a change is
-- made in place.
abbrev pub Place : Type 0
Place = ℕ

abbrev pub update_at : Place → (RowResult → RowResult) → List RowResult → List RowResult
update_at i f [] = []
update_at zero f (r ∷ rs) = f r ∷ rs
update_at (suc i) f (r ∷ rs) = r ∷ update_at i f rs

abbrev pub update_all : List Place → (RowResult → RowResult) → List RowResult → List RowResult
update_all [] f rs = rs
update_all (i ∷ is) f rs = update_all is f (update_at i f rs)

abbrev pub result_at : Place → List RowResult → Option RowResult
result_at i [] = none
result_at zero (r ∷ rs) = some r
result_at (suc i) (r ∷ rs) = result_at i rs

abbrev pub is_open : Final → Bool
is_open not_attempted = true
is_open _ = false

-- A row that no phase has finished gets the outcome and the reason.
abbrev pub close_row : Final → Text → RowResult → RowResult
close_row outcome reason r =
    if is_open r.outcome then record r { outcome = outcome; reason = reason } else r

-- `_mark_no_access`
unfoldable pub mark_no_access : List Place → Text → List RowResult → List RowResult
mark_no_access is reason rs = update_all is (close_row no_access reason) rs

unfoldable pub mark_excluded : List Place → List RowResult → List RowResult
mark_excluded is rs = update_all is (close_row excluded_row excluded_reason) rs

-- `_adopt_channel`
abbrev pub adopt_row : ℕ → RowResult → RowResult
adopt_row c r = record r {
  classified = record (r.classified) {
    channel_id = some c;
    uri = msg_uri c r.classified.row.msg_id;
  };
}

unfoldable pub adopt_channel : List Place → ℕ → List RowResult → List RowResult
adopt_channel is c rs = update_all is (adopt_row c) rs

abbrev is_none : {A : Type 0} → Option A → Bool
is_none none = true
is_none (some a) = false

abbrev media_kind_of : Option Row → Option Text
media_kind_of none = none
media_kind_of (some m) = m.media_kind

-- The outcome that the posts step leaves.
abbrev settled_post : List Row → Bool → RowResult → Answer → Final
settled_post messages with_media r deleted_upstream = gone_upstream
settled_post messages with_media r fetched =
    if r.classified.media_held
    then already_stored
    else if not with_media
    then post_only
    else if is_none (kind_of (media_kind_of (find_message r.classified.uri messages)))
    then no_media
    else r.outcome

-- `_settle`: the media phase's own outcome comes first.
unfoldable pub settle : List Row → Bool → Option Answer → Option Outcome → RowResult → RowResult
settle messages with_media none none r = r
settle messages with_media none (some o) r = record r { outcome = by_media o }
settle messages with_media (some a) (some o) r = record r { outcome = by_media o; post = some a }
settle messages with_media (some a) none r = record r {
  outcome = settled_post messages with_media r a;
  post = some a;
}
