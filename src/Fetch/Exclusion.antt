-- ===== src/Fetch/Exclusion.antt =====
-- What `--exclude-target` covers: media_list.py, `linked_discussion_groups` and
-- `excluded_channel_ids`, store/channels.py, `find_channel_id`, and fetch_from_list.py, `_excludes`.
use paperboy.Base.{
  ℕ, Bool, true, false, not, ◌&&◌, ◌||◌, Option, none, some, List, [], ◌∷◌, ◌==◌, if◌then◌else◌,
}
use paperboy.Base.Text.{Text, codes, text_eq}
use paperboy.Base.Decimal.{ℤ, pos, negsuc, value}
use paperboy.Ids.Uri.{channel_uri, ParsedUri, parsed, malformed, unknown_kind, parse_uri}
use paperboy.Store.Edges.{Edge}
use paperboy.Inputs.Targets.{
  TargetKind, username, invite, msg_link, peer_id, phone, hashtag, Target, Parsed, target,
  unsupported, parse_target,
}
use paperboy.Inputs.Classify.{ChannelRow, is_in}

-- `SELECT kind FROM channels WHERE id = ?`
unfoldable pub find_channel : ℕ → List ChannelRow → Option ChannelRow
find_channel id [] = none
find_channel id (c ∷ cs) = if c.id == id then some c else find_channel id cs

abbrev kind_is : Text → Option Text → Bool
kind_is k none = false
kind_is k (some t) = text_eq t k

-- `kind in _GROUP_KINDS`, of a channel that is stored.
abbrev is_group : Option ChannelRow → Bool
is_group none = false
is_group (some c) = kind_is (codes "megagroup") c.kind || kind_is (codes "forum") c.kind

-- A channel that is not stored, or is no broadcast channel.
abbrev may_follow : Option ChannelRow → Bool
may_follow none = true
may_follow (some c) = not (kind_is (codes "broadcast") c.kind)

-- `set.add`, and `|=`
abbrev pub add_id : ℕ → List ℕ → List ℕ
add_id c ids = if is_in ids c then ids else c ∷ ids

abbrev pub union : List ℕ → List ℕ → List ℕ
union ids [] = ids
union ids (c ∷ cs) = add_id c (union ids cs)

-- What an end of an edge names; `bad` is a `ValueError`. An id is not negative.
pub data End : Type 0 where
  a_channel : ℕ → End
  another bad : End

abbrev end_of_ids : Text → List ℤ → End
end_of_ids kind (pos n ∷ []) = if text_eq kind (codes "channel") then a_channel n else another
end_of_ids kind (negsuc n ∷ []) = another
end_of_ids kind _ = bad

abbrev end_of_parsed : ParsedUri → End
end_of_parsed (parsed kind ids) = end_of_ids kind ids
end_of_parsed malformed = bad
end_of_parsed unknown_kind = bad

end_of : Text → End
end_of uri = end_of_parsed (parse_uri uri)

abbrev add_end : List ChannelRow → ℕ → End → Option (List ℕ) → Option (List ℕ)
add_end channels id (a_channel n) none = none
add_end channels id (a_channel n) (some linked) =
    some (if not (n == id) && may_follow (find_channel n channels) then add_id n linked else linked)
add_end channels id another linked = linked
add_end channels id bad linked = none

abbrev touches : Text → Edge → Bool
touches uri e =
    text_eq e.predicate (codes "linked_group") && (text_eq e.subject uri || text_eq e.object uri)

-- The channels at the other ends of the edges.
linked_from : List ChannelRow → ℕ → List Edge → Option (List ℕ) → Option (List ℕ)
unfolding end_of
linked_from channels id [] linked = linked
linked_from channels id (e ∷ edges) linked = linked_from channels id edges (
    if touches (channel_uri id) e
    then add_end channels id (end_of e.object) (add_end channels id (end_of e.subject) linked)
    else linked)

-- The groups that follow the channel; `none` is a `ValueError`.
unfoldable pub linked_discussion_groups : List ChannelRow → List Edge → ℕ → Option (List ℕ)
unfolding linked_from
linked_discussion_groups channels edges id =
    if is_group (find_channel id channels) then some [] else linked_from channels id edges (some [])

-- `value.lstrip("@")`
abbrev lstrip_at : Text → Text
lstrip_at [] = []
lstrip_at (c ∷ t) = let later = lstrip_at t in if c == b'@' then later else c ∷ t

abbrev find_by_username : Text → List ChannelRow → Option ℕ
find_by_username name [] = none
find_by_username name (c ∷ cs) =
    if kind_is name c.username then some c.id else find_by_username name cs

abbrev id_of : Option ChannelRow → Option ℕ
id_of none = none
id_of (some c) = some c.id

-- An id is looked up by its number, any other target by its name.
abbrev find_by_kind : TargetKind → Text → List ChannelRow → Option ℕ
find_by_kind peer_id v channels = id_of (find_channel (value 0 v) channels)
find_by_kind username v channels = find_by_username (lstrip_at v) channels
find_by_kind invite v channels = find_by_username (lstrip_at v) channels
find_by_kind msg_link v channels = find_by_username (lstrip_at v) channels
find_by_kind phone v channels = find_by_username (lstrip_at v) channels
find_by_kind hashtag v channels = find_by_username (lstrip_at v) channels

unfoldable pub find_channel_id : List ChannelRow → Target → Option ℕ
find_channel_id channels t = find_by_kind t.kind t.value channels

-- `excluded_channel_ids`: the ids, `MediaListError`, or `ValueError`.
pub data Excluded : Type 0 where
  ids : List ℕ → Excluded
  list_error value_error : Excluded

abbrev is_handle_or_id : TargetKind → Bool
is_handle_or_id username = true
is_handle_or_id peer_id = true
is_handle_or_id invite = false
is_handle_or_id msg_link = false
is_handle_or_id phone = false
is_handle_or_id hashtag = false

abbrev with_groups : ℕ → List ℕ → Option (List ℕ) → Excluded
with_groups c so_far none = value_error
with_groups c so_far (some linked) = ids (union (add_id c so_far) linked)

abbrev with_channel : List ChannelRow → List Edge → List ℕ → Option ℕ → Excluded
with_channel channels edges so_far none = list_error
with_channel channels edges so_far (some c) =
    with_groups c so_far (linked_discussion_groups channels edges c)

abbrev exclude_target : List ChannelRow → List Edge → List ℕ → Parsed → Excluded
exclude_target channels edges so_far (unsupported why) = list_error
exclude_target channels edges so_far (target t) =
    if is_handle_or_id t.kind
    then with_channel channels edges so_far (find_channel_id channels t)
    else list_error

abbrev and_then : Excluded → (List ℕ → Excluded) → Excluded
and_then (ids cs) next = next cs
and_then list_error next = list_error
and_then value_error next = value_error

unfoldable pub excluded_from : List ChannelRow → List Edge → List Text → List ℕ → Excluded
excluded_from channels edges [] so_far = ids so_far
excluded_from channels edges (spec ∷ specs) so_far =
    and_then (exclude_target channels edges so_far (parse_target spec))
      (excluded_from channels edges specs)

unfoldable pub excluded_channel_ids : List ChannelRow → List Edge → List Text → Excluded
unfolding excluded_from
excluded_channel_ids channels edges specs = excluded_from channels edges specs []

-- Whether a group of one of the channels is the channel; `none` is a `ValueError`.
abbrev pub follows_one : Option (List ℕ) → ℕ → Option Bool → Option Bool
follows_one none c later = none
follows_one (some linked) c later = if is_in linked c then some true else later

abbrev pub follows_any : (ℕ → Option (List ℕ)) → ℕ → List ℕ → Option Bool
follows_any linked c [] = some false
follows_any linked c (p ∷ ps) = follows_one (linked p) c (follows_any linked c ps)

-- `_excludes`: the excluded channels afterwards, and whether the channel is one of them.
abbrev pub Covered : Type 0
Covered = Option (List ℕ × Bool)

abbrev pub cover : List ℕ → Option (List ℕ) → Covered
cover excluded none = none
cover excluded (some linked) = some (union excluded linked, true)

abbrev pub cover_group : (ℕ → Option (List ℕ)) → List ℕ → ℕ → Option Bool → Covered
cover_group linked excluded c none = none
cover_group linked excluded c (some false) = some (excluded, false)
cover_group linked excluded c (some true) = cover (c ∷ excluded) (linked c)

-- `linked` is `linked_discussion_groups` over the store as it is now.
unfoldable pub excludes : (ℕ → Option (List ℕ)) → List ℕ → ℕ → Covered
excludes linked excluded c =
    if is_in excluded c
    then cover excluded (linked c)
    else cover_group linked excluded c (follows_any linked c excluded)
