-- ===== src/Inputs/Segments.antt =====
-- media_list.py, `plan_segments`: the pending rows, grouped into passes.
pub mod Grouping
use paperboy.Base.{
  ℕ, Bool, true, false, ◌&&◌, Option, none, some, List, [], ◌∷◌, ◌++◌, map, if◌then◌else◌,
}
use paperboy.Base.Text.{Text}
use paperboy.Recipes.{sorted_set}
use paperboy.Inputs.Entry.{Address, address, address_eq, name_eq}
use paperboy.Inputs.Classify.{Offline, duplicate_row, excluded, pending, ClassifiedRow}

pub record Segment : Type 0 where
  pub priority : Option Text
  pub channel_id : Option ℕ
  pub rows : List ClassifiedRow
  pub username : Option Text

-- `Segment.msg_ids`, `Segment.address`
pub msg_ids : Segment → List ℕ
msg_ids s = sorted_set (map (λ c. c.row.msg_id) s.rows)

abbrev pub segment_address : Segment → Address
segment_address s = address s.channel_id s.username

-- A priority and an address.
abbrev pub Key : Type 0
Key = Option Text × Address

abbrev pub key_eq : Key → Key → Bool
key_eq (p, a) (q, b) = name_eq p q && address_eq a b

-- The handle counts only where there is no id.
abbrev pub handle_of : ClassifiedRow → Option Text
handle_of c = elim c.channel_id [ none ↦ c.row.username | some id ↦ none ]

abbrev pub key_of : ClassifiedRow → Key
key_of c = (c.row.priority, address c.channel_id (handle_of c))

abbrev pub segment_key : Segment → Key
segment_key s = (s.priority, segment_address s)

abbrev new_segment : ClassifiedRow → Segment
new_segment c = record {
  priority = c.row.priority;
  channel_id = c.channel_id;
  rows = c ∷ [];
  username = handle_of c;
}

abbrev with_row : ClassifiedRow → Segment → Segment
with_row c s = record s { rows = s.rows ++ c ∷ [] }

-- The row goes to the segment of its key, or to a new one at the end.
unfoldable pub add_row : ClassifiedRow → List Segment → List Segment
add_row c [] = new_segment c ∷ []
add_row c (s ∷ ss) =
    if key_eq (segment_key s) (key_of c) then with_row c s ∷ ss else s ∷ add_row c ss

abbrev pub is_pending : Offline → Bool
is_pending pending = true
is_pending duplicate_row = false
is_pending excluded = false

unfoldable pub plan_from : List ClassifiedRow → List Segment → List Segment
unfolding add_row
plan_from [] ss = ss
plan_from (c ∷ cs) ss = plan_from cs (if is_pending c.outcome then add_row c ss else ss)

unfoldable pub plan_segments : List ClassifiedRow → List Segment
unfolding plan_from
plan_segments cs = plan_from cs []
