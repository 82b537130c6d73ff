-- ===== src/Inputs/Targets.antt =====
-- targets.py: `parse_target`. Its texts are of ASCII characters.
pub mod ChannelIds
use paperboy.Base.{
  ℕ, ◌+◌, ◌^◌, ◌-◌, ◌≡◌, refl, Bool, true, false, ◌&&◌, ◌||◌, not, Option, none, some, List, [],
  ◌∷◌, ◌++◌, arith, if◌then◌else◌, ◌==◌, leb, length,
}
use paperboy.Base.Text.{Text, codes, strip}
use paperboy.Base.Decimal.{is_digit, value}
use paperboy.Inputs.Scan.{
  after, after_site, or_whole, run, rest, is_alpha, is_word, is_handle, is_run,
}

pub data TargetKind : Type 0 where
  username invite msg_link peer_id phone hashtag : TargetKind

pub record Target : Type 0 where
  pub kind : TargetKind
  pub raw : Text
  pub value : Text
  pub msg_id : Option ℕ

-- `UnsupportedTarget`, by its message.
pub data Unsupported : Type 0 where
  empty_target beyond_64_bits not_a_channel unrecognized : Unsupported

pub data Parsed : Type 0 where
  target : Target → Parsed
  unsupported : Unsupported → Parsed

abbrev pub is_channel_like : TargetKind → Bool
is_channel_like username = true
is_channel_like invite = true
is_channel_like msg_link = true
is_channel_like peer_id = true
is_channel_like phone = false
is_channel_like hashtag = false

-- `_SQLITE_MAX_INT`
abbrev pub sqlite_max_int : ℕ
sqlite_max_int = 9223372036854775807

abbrev plain : TargetKind → Text → Text → Parsed
plain kind raw v = target (record { kind = kind; raw = raw; value = v; msg_id = none })

unfoldable pub peer_id_target : Text → Text → Option ℕ → Parsed
peer_id_target raw digits msg_id =
    if leb (value 0 digits) sqlite_max_int
    then target (record { kind = peer_id; raw = raw; value = digits; msg_id = msg_id })
    else unsupported beyond_64_bits

-- `[A-Za-z0-9_-]`
abbrev is_hash_char : ℕ → Bool
is_hash_char c = is_word c || (c == b'-')

-- What follows the text's first character, if it is the given one.
abbrev tail_after : ℕ → Text → Text
tail_after c [] = []
tail_after c (x ∷ xs) = if x == c then xs else []

-- A form that matches is the result of `match`.
abbrev match : Bool → Parsed → Option Parsed
match true p = some p
match false p = none

invite_plus : Text → Text → Option Parsed
invite_plus raw body =
    let hash = tail_after b'+' body in
    match (is_run is_hash_char hash && not (is_run is_digit hash)) (plain invite raw hash)

invite_joinchat : Text → Text → Option Parsed
invite_joinchat raw body = elim (after (codes "joinchat/") body) [
  | none ↦ none
  | some hash ↦ match (is_run is_hash_char hash) (plain invite raw hash)
]

-- `c/<digits>`, then the end or `/<digits>`.
private_id : Text → Text → Text → Option Parsed
private_id raw [] tail = none
private_id raw (d ∷ ds) [] = some (peer_id_target raw (d ∷ ds) none)
private_id raw (d ∷ ds) (x ∷ tail) =
    match ((x == b'/') && is_run is_digit tail) (peer_id_target raw (d ∷ ds) (some (value 0 tail)))

private_link : Text → Text → Option Parsed
unfolding private_id
private_link raw body = elim (after (codes "c/") body) [
  | none ↦ none
  | some t ↦ private_id raw (run is_digit t) (rest is_digit t)
]

handle_message : Text → Text → Text → Option Parsed
handle_message raw name [] = none
handle_message raw name (x ∷ tail) =
    match (is_handle name && ((x == b'/') && is_run is_digit tail))
      (target (record { kind = msg_link; raw = raw; value = name; msg_id = some (value 0 tail) }))

message_link : Text → Text → Option Parsed
unfolding handle_message
message_link raw body = handle_message raw (run is_word body) (rest is_word body)

abbrev skip_at : Text → Text
skip_at [] = []
skip_at (x ∷ xs) = if x == b'@' then xs else x ∷ xs

by_username : Text → Text → Option Parsed
by_username raw body =
    let name = skip_at body in
    match (is_handle name && is_run is_word name) (plain username raw name)

by_phone : Text → Text → Option Parsed
by_phone raw body =
    let digits = tail_after b'+' body in
    match (is_run is_digit digits && (leb 7 (length digits) && leb (length digits) 15))
      (plain phone raw body)

by_hashtag : Text → Text → Option Parsed
by_hashtag raw body =
    let tag = tail_after b'#' body in match (is_run is_word tag) (plain hashtag raw tag)

marked_id : Text → Text → Option Parsed
marked_id raw body = elim (after (codes "-100") body) [
  | none ↦ none
  | some digits ↦ match (is_run is_digit digits) (peer_id_target raw digits none)
]

bare_id : Text → Text → Option Parsed
bare_id raw body = match (is_run is_digit body) (peer_id_target raw body none)

negative_id : Text → Text → Option Parsed
negative_id raw body = match (is_run is_digit (tail_after b'-' body)) (unsupported not_a_channel)

abbrev first_match : List (Option Parsed) → Parsed
first_match [] = unsupported unrecognized
first_match (none ∷ forms) = first_match forms
first_match (some p ∷ forms) = p

-- The forms in the order in which they are tried.
unfoldable pub parse_body : Text → Text → Parsed
unfolding invite_plus invite_joinchat private_link message_link by_username by_phone by_hashtag
    marked_id bare_id negative_id
parse_body raw body = first_match (
    invite_plus raw body
    ∷ invite_joinchat raw body
    ∷ private_link raw body
    ∷ message_link raw body
    ∷ by_username raw body
    ∷ by_phone raw body
    ∷ by_hashtag raw body
    ∷ marked_id raw body
    ∷ bare_id raw body
    ∷ negative_id raw body
    ∷ [])

parse_stripped : Text → Text → Parsed
parse_stripped raw [] = unsupported empty_target
parse_stripped raw (c ∷ cs) = parse_body raw (or_whole (c ∷ cs) (after_site (c ∷ cs)))

unfoldable pub parse_target : Text → Parsed
unfolding parse_stripped
parse_target text = parse_stripped text (strip text)
