-- ===== src/Media/Keys.antt =====
-- media_keys.py: media locations as keys relative to the profile.
use paperboy.Base.{
  ℕ, ◌≡◌, refl, Bool, true, false, ◌&&◌, ◌||◌, not, Option, none, some, List, [], ◌∷◌, ◌++◌, arith,
  if◌then◌else◌, ◌==◌, leb, length, take, drop,
}
use paperboy.Base.Text.{Text, codes, text_eq}
use paperboy.Base.Decimal.{is_digit}
use paperboy.Inputs.Scan.{after, is_alpha, is_word, all_chars}
pub mod RoundTrip

-- `MEDIA_PREFIX`, and the separator after it.
abbrev pub media_prefix : Text
media_prefix = codes "media/"

-- `[0-9a-f]`
abbrev pub is_hex : ℕ → Bool
is_hex c = is_digit c || (leb b'a' c && leb c b'f')

-- `_SHA_RE.fullmatch`
abbrev pub is_sha : Text → Bool
is_sha t = (length t == 64) && all_chars is_hex t

-- `[A-Za-z0-9]`
abbrev pub is_alnum : ℕ → Bool
is_alnum c = is_alpha c || is_digit c

-- `[A-Za-z0-9._-]`
abbrev pub is_ext_char : ℕ → Bool
is_ext_char c = is_word c || ((c == b'.') || (c == b'-'))

-- `".." in ext`
abbrev has_two_dots : Text → Bool
has_two_dots [] = false
has_two_dots (c ∷ []) = false
has_two_dots (c ∷ d ∷ t) = ((c == b'.') && (d == b'.')) || has_two_dots (d ∷ t)

-- `_EXT_RE.fullmatch`
abbrev matches_ext : Text → Bool
matches_ext [] = false
matches_ext (d ∷ []) = false
matches_ext (d ∷ c ∷ t) =
    (d == b'.') && (is_alnum c && (leb (length t) 15 && all_chars is_ext_char t))

unfoldable pub is_valid_ext : Text → Bool
is_valid_ext [] = true
is_valid_ext (c ∷ t) = matches_ext (c ∷ t) && not (has_two_dots (c ∷ t))

-- `f"{MEDIA_PREFIX}/{sha256[:2]}/{sha256}{ext}"`
abbrev pub key_text : Text → Text → Text
key_text sha ext = media_prefix ++ (take 2 sha ++ (b'/' ∷ (sha ++ ext)))

-- `none` is the `ValueError`.
unfoldable pub media_key : Text → Text → Option Text
media_key sha ext = if is_sha sha && is_valid_ext ext then some (key_text sha ext) else none

-- `[^/\\\x00]`
abbrev pub is_name_char : ℕ → Bool
is_name_char c = not ((c == b'/') || ((c == b'\\') || (c == 0)))

-- `(?P<ext>\.[^/\\\x00]*)?`, up to the end.
abbrev pub is_key_ext : Text → Bool
is_key_ext [] = true
is_key_ext (c ∷ t) = (c == b'.') && all_chars is_name_char t

-- What follows `media/<shard>/`, whose sha and extension are taken apart.
abbrev pub of_name : Text → Text → Option Text
of_name shard name =
    let sha = take 64 name in
    if is_sha sha && (is_key_ext (drop 64 name) && text_eq shard (take 2 sha))
    then some sha
    else none

abbrev pub of_shard : Text → Option Text
of_shard (a ∷ b ∷ c ∷ name) = if c == b'/' then of_name (a ∷ b ∷ []) name else none
of_shard _ = none

-- The value is a text here: anything else has no sha.
unfoldable pub key_sha256 : Text → Option Text
key_sha256 value = elim (after media_prefix value) [ some t ↦ of_shard t | none ↦ none ]

abbrev is_some : Option Text → Bool
is_some none = false
is_some (some t) = true

unfoldable pub is_media_key : Text → Bool
unfolding key_sha256
is_media_key value = is_some (key_sha256 value)

-- What follows the first occurrence of `part`, as `find` locates it.
unfoldable pub after_first : Text → Text → Option Text
after_first part [] = after part []
after_first part (c ∷ t) =
    let later = after_first part t in elim (after part (c ∷ t)) [ some r ↦ some r | none ↦ later ]

abbrev pub checked_key : Text → Option Text
checked_key key = if is_media_key key then some key else none

abbrev pub key_with : Text → Option Text → Option Text
key_with sha none = none
key_with sha (some ext) = checked_key (key_text sha ext)

-- `none` is the `ValueError`.
unfoldable pub normalize_legacy_location : Text → Text → Option Text
unfolding after_first is_media_key
normalize_legacy_location value sha =
    if is_sha sha then key_with sha (after_first sha value) else none
