-- ===== src/Inputs/Entry.antt =====
-- media_list.py: one entry of the list, and the mark of a repeated row.
pub mod Names
pub mod Accepting
pub mod RoundTrip
pub mod Marks
use paperboy.Base.{
  ℕ, Bool, true, false, not, ◌&&◌, ◌||◌, Option, none, some, List, [], ◌∷◌, ◌++◌, ◌==◌,
  if◌then◌else◌,
}
use paperboy.Base.Text.{Text, codes, text_eq, strip}
use paperboy.Base.Decimal.{is_digit, value, decimal}
use paperboy.Ids.Uri.{msg_uri}
use paperboy.Ids.Peer.{lower}
use paperboy.Inputs.Scan.{after, after_nocase, after_site, run, rest, is_word, is_handle}

-- `(channel_id, username, msg_id)`
pub record Entry : Type 0 where
  pub channel_id : Option ℕ
  pub username : Option Text
  pub msg_id : ℕ

pub record ListRow : Type 0 where
  pub line_no : ℕ
  pub uri : Text
  pub channel_id : Option ℕ
  pub username : Option Text
  pub msg_id : ℕ
  pub priority : Option Text
  pub duplicate : Bool

-- `/?$`, where the regular expression has it; the text was stripped.
abbrev pub at_end : Bool → Text → Bool
at_end slash_allowed [] = true
at_end slash_allowed (c ∷ []) = slash_allowed && (c == b'/')
at_end slash_allowed (c ∷ d ∷ t) = false

abbrev pub last_number : Bool → ℕ → Text → Text → Option (ℕ × ℕ)
last_number slash_allowed a [] t = none
last_number slash_allowed a (d ∷ ds) t =
    if at_end slash_allowed t then some (a, value 0 (d ∷ ds)) else none

abbrev pub second_number : Bool → Text → Text → Option (ℕ × ℕ)
second_number slash_allowed [] t = none
second_number slash_allowed (d ∷ ds) [] = none
second_number slash_allowed (d ∷ ds) (c ∷ t) =
    if c == b'/'
    then last_number slash_allowed (value 0 (d ∷ ds)) (run is_digit t) (rest is_digit t)
    else none

-- `(\d+)/(\d+)`, up to the end.
abbrev pub two_numbers : Bool → Text → Option (ℕ × ℕ)
two_numbers slash_allowed t = second_number slash_allowed (run is_digit t) (rest is_digit t)

abbrev pub in_channel : Option (ℕ × ℕ) → Option Entry
in_channel none = none
in_channel (some (c, n)) = some (record { channel_id = some c; username = none; msg_id = n })

-- `_TG_MSG_RE`
unfoldable pub match_msg : Text → Option Entry
match_msg t = elim (after (codes "tg:msg:") t) [
  | none ↦ none
  | some r ↦ in_channel (two_numbers false r)
]

abbrev pub site_channel : Text → Option Entry
site_channel t = elim (after_nocase (codes "c/") t) [
  | none ↦ none
  | some r ↦ in_channel (two_numbers true r)
]

-- `_LINK_C_RE`
unfoldable pub match_link_c : Text → Option Entry
match_link_c t = elim (after_site t) [ none ↦ none | some r ↦ site_channel r ]

abbrev pub handle_message : Text → Text → Text → Option Entry
handle_message name [] t = none
handle_message name (d ∷ ds) t =
    if is_handle name && at_end true t
    then some
        (record { channel_id = none; username = some (lower name); msg_id = value 0 (d ∷ ds) })
    else none

abbrev pub after_handle : Text → Text → Option Entry
after_handle name [] = none
after_handle name (c ∷ t) =
    if c == b'/' then handle_message name (run is_digit t) (rest is_digit t) else none

abbrev pub site_handle : Text → Option Entry
site_handle t = after_handle (run is_word t) (rest is_word t)

-- `_LINK_USER_RE`
unfoldable pub match_link_user : Text → Option Entry
match_link_user t = elim (after_site t) [ none ↦ none | some r ↦ site_handle r ]

abbrev is_c : Option Text → Bool
is_c none = false
is_c (some name) = text_eq name (codes "c")

-- `t.me/c/<id>` is a private link without its message.
abbrev pub unless_c : Option Entry → Option Entry
unless_c none = none
unless_c (some e) = if is_c e.username then none else some e

abbrev pub or_else : Option Entry → Option Entry → Option Entry
or_else none e = e
or_else (some d) e = some d

unfoldable pub parse_uri : Text → Option Entry
unfolding match_msg match_link_c match_link_user
parse_uri text =
    let t = strip text in
    or_else (match_msg t) (or_else (match_link_c t) (unless_c (match_link_user t)))

abbrev text_or_empty : Option Text → Text
text_or_empty none = []
text_or_empty (some t) = t

-- The row's `uri`: the message's id, or `t.me/<username>/<id>`.
abbrev pub normal_uri : Entry → Text
normal_uri e = elim e.channel_id [
  | some c ↦ msg_uri c e.msg_id
  | none ↦ codes "t.me/" ++ (text_or_empty e.username ++ (b'/' ∷ decimal e.msg_id))
]

-- `priority or None`
abbrev or_none : Option Text → Option Text
or_none none = none
or_none (some []) = none
or_none (some (c ∷ cs)) = some (c ∷ cs)

abbrev pub row_of : ℕ → Option Text → Entry → ListRow
row_of line_no priority e = record {
  line_no = line_no;
  uri = normal_uri e;
  channel_id = e.channel_id;
  username = e.username;
  msg_id = e.msg_id;
  priority = or_none priority;
  duplicate = false;
}

abbrev pub map_row : ℕ → Option Text → Option Entry → Option ListRow
map_row line_no priority none = none
map_row line_no priority (some e) = some (row_of line_no priority e)

-- `_row`
unfoldable pub row : ℕ → Text → Option Text → Option ListRow
row line_no uri_text priority = map_row line_no priority (parse_uri uri_text)

-- `(r.channel_id if r.channel_id is not None else r.username, r.msg_id)`
pub data Address : Type 0 where
  by_id : ℕ → Address
  by_name : Option Text → Address

abbrev pub address : Option ℕ → Option Text → Address
address (some c) name = by_id c
address none name = by_name name

abbrev pub name_eq : Option Text → Option Text → Bool
name_eq none none = true
name_eq none (some t) = false
name_eq (some s) none = false
name_eq (some s) (some t) = text_eq s t

abbrev pub address_eq : Address → Address → Bool
address_eq (by_id a) (by_id b) = a == b
address_eq (by_id a) (by_name t) = false
address_eq (by_name s) (by_id b) = false
address_eq (by_name s) (by_name t) = name_eq s t

abbrev pub key : ListRow → Address × ℕ
key r = (address r.channel_id r.username, r.msg_id)

abbrev pub key_eq : Address × ℕ → Address × ℕ → Bool
key_eq (a, m) (b, n) = address_eq a b && (m == n)

abbrev pub is_seen : List (Address × ℕ) → Address × ℕ → Bool
is_seen [] k = false
is_seen (j ∷ seen) k = key_eq j k || is_seen seen k

-- The rows after those whose keys are `seen`.
unfoldable pub mark_from : List (Address × ℕ) → List ListRow → List ListRow
mark_from seen [] = []
mark_from seen (r ∷ rows) =
    record r { duplicate = is_seen seen (key r) } ∷ mark_from (key r ∷ seen) rows

unfoldable pub mark_duplicates : List ListRow → List ListRow
mark_duplicates rows = mark_from [] rows
