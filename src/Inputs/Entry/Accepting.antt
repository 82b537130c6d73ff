-- ===== src/Inputs/Entry/Accepting.antt =====
-- What an entry that was read is like.
use paperboy.Base.{
  ℕ, ◌≡◌, refl, true, false, Option, none, some, [], ◌∷◌, arith, ◌==◌, Bool-cases, inl, inr, ◌⊎◌,
  All,
}
use mathlib.Core.Path.{subst}
use paperboy.Base.Text.{Text, codes, text_eq, strip}
use paperboy.Base.Assoc.{some_injective}
use paperboy.Base.Decimal.{is_digit, value}
use paperboy.Ids.Peer.{lower}
use paperboy.Inputs.Scan.{after, after_nocase, after_site, run, rest, is_word, is_handle}
use paperboy.Inputs.Entry.{
  Entry, at_end, two_numbers, in_channel, match_msg, site_channel, match_link_c, handle_message,
  after_handle, site_handle, match_link_user, unless_c, or_else, parse_uri,
}
use paperboy.Inputs.Entry.Names.{IsName, lower_idem, words_lower, handle_lower, run_passes}

-- What an accepted entry is: a message of a channel id, or of a user name.
abbrev pub Accepted : Entry → Type 0
Accepted e =
    ((c : ℕ) × (e ≡ record { channel_id = some c; username = none; msg_id = e.msg_id }))
    ⊎ ((name : Text) × IsName name
        × (e ≡ record { channel_id = none; username = some name; msg_id = e.msg_id }))

pub Accepted-in_channel : (p : Option (ℕ × ℕ)) (e : Entry) → in_channel p ≡ some e → Accepted e
Accepted-in_channel none e h = cc
Accepted-in_channel (some (c, n)) e h =
    subst Accepted
      (some_injective (record { channel_id = some c; username = none; msg_id = n }) e h)
      (inl (c, refl))

pub Accepted-unless_c :
    (name : Text) (n : ℕ) (e : Entry)
    → All (λ c. is_word c ≡ true) name
    → is_handle name ≡ true
    → unless_c (some (record { channel_id = none; username = some (lower name); msg_id = n }))
      ≡ some e
    → Accepted e
Accepted-unless_c name n e w h k = elim (Bool-cases (text_eq (lower name) (codes "c"))) [
  | inl bad ↦ ground arith
  | inr good ↦
      subst Accepted
        (some_injective (record { channel_id = none; username = some (lower name); msg_id = n }) e
          (rw good at k))
        (inr (
          lower name,
          record {
            words = words_lower name w;
            handle = handle_lower name h;
            lowered = lower_idem name;
            not_c = good;
          },
          refl,
        ))
]

pub Accepted-handle_message :
    (name d t : Text) (e : Entry)
    → All (λ c. is_word c ≡ true) name
    → unless_c (handle_message name d t) ≡ some e
    → Accepted e
Accepted-handle_message name [] t e w h = cc
Accepted-handle_message name (d ∷ ds) t e w h = elim (Bool-cases (is_handle name)) [
  | inl good ↦ elim (Bool-cases (at_end true t)) [
    | inl ended ↦ Accepted-unless_c name (value 0 (d ∷ ds)) e w good (rw (good, ended) at h)
    | inr more ↦ ground arith
  ]
  | inr bad ↦ ground arith
]

pub Accepted-after_handle :
    (name t : Text) (e : Entry)
    → All (λ c. is_word c ≡ true) name
    → unless_c (after_handle name t) ≡ some e
    → Accepted e
Accepted-after_handle name [] e w h = cc
Accepted-after_handle name (c ∷ t) e w h = elim (Bool-cases (c == b'/')) [
  | inl slash ↦ Accepted-handle_message name (run is_digit t) (rest is_digit t) e w (rw slash at h)
  | inr other ↦ ground arith
]

pub Accepted-site_channel : (t : Text) (e : Entry) → site_channel t ≡ some e → Accepted e
Accepted-site_channel t e h = by_rest (after_nocase (codes "c/") t) h
  where
    by_rest :
        (r : Option Text)
        → (elim r [ none ↦ none | some u ↦ in_channel (two_numbers true u) ]) ≡ some e
        → Accepted e
    by_rest none g = cc
    by_rest (some u) g = Accepted-in_channel (two_numbers true u) e g

module _ (t : Text) (e : Entry) where
  pub Accepted-match_msg : match_msg t ≡ some e → Accepted e
  unfolding match_msg
  Accepted-match_msg h = by_rest (after (codes "tg:msg:") t) h
    where
      by_rest :
          (r : Option Text)
          → (elim r [ none ↦ none | some u ↦ in_channel (two_numbers false u) ]) ≡ some e
          → Accepted e
      by_rest none g = cc
      by_rest (some u) g = Accepted-in_channel (two_numbers false u) e g

  pub Accepted-match_link_c : match_link_c t ≡ some e → Accepted e
  unfolding match_link_c
  Accepted-match_link_c h = by_rest (after_site t) h
    where
      by_rest :
          (r : Option Text)
          → (elim r [ none ↦ none | some u ↦ site_channel u ]) ≡ some e
          → Accepted e
      by_rest none g = cc
      by_rest (some u) g = Accepted-site_channel u e g

  pub Accepted-match_link_user : unless_c (match_link_user t) ≡ some e → Accepted e
  unfolding match_link_user
  Accepted-match_link_user h = by_rest (after_site t) h
    where
      by_rest :
          (r : Option Text)
          → unless_c (elim r [ none ↦ none | some u ↦ site_handle u ]) ≡ some e
          → Accepted e
      by_rest none g = cc
      by_rest (some u) g =
          Accepted-after_handle (run is_word u) (rest is_word u) e (run_passes is_word u) g

pub Accepted-or_else :
    (a b : Option Entry) (e : Entry)
    → (a ≡ some e → Accepted e)
    → (b ≡ some e → Accepted e)
    → or_else a b ≡ some e
    → Accepted e
Accepted-or_else none b e f g h = g h
Accepted-or_else (some d) b e f g h = f h

pub parse_uri-Accepted : (text : Text) (e : Entry) → parse_uri text ≡ some e → Accepted e
unfolding parse_uri
parse_uri-Accepted text e h =
    Accepted-or_else (match_msg (strip text))
      (or_else (match_link_c (strip text)) (unless_c (match_link_user (strip text)))) e
      (Accepted-match_msg (strip text) e)
      (Accepted-or_else (match_link_c (strip text)) (unless_c (match_link_user (strip text))) e
        (Accepted-match_link_c (strip text) e) (Accepted-match_link_user (strip text) e))
      h
