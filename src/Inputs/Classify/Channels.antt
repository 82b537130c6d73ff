-- ===== src/Inputs/Classify/Channels.antt =====
-- The channel of a row, read off the rows of `channels`.
use paperboy.Base.{
  ℕ, ◌≡◌, refl, ◌∙◌, sym, Bool, true, false, Option, none, some, List, [], ◌∷◌, arith,
  if◌then◌else◌, Bool-cases, inl, inr,
}
use mathlib.Core.Path.{subst}
use paperboy.Base.Text.{Text, text_eq, text_eq_refl, text_eq→eq}
use paperboy.Base.Assoc.{Assoc, get, set}
use paperboy.Ids.Peer.{lower}
use paperboy.Inputs.Entry.{ListRow}
use paperboy.Inputs.Classify.{
  Known, ChannelRow, add_username, usernames_from, usernames, channel_of,
}

abbrev is_named : Option Text → Text → Bool
is_named none name = false
is_named (some username) name = text_eq (lower username) name

-- The last channel with the handle.
abbrev pub channel_named : Text → List ChannelRow → Option ℕ
channel_named name [] = none
channel_named name (c ∷ cs) = elim (channel_named name cs) [
  | some id ↦ some id
  | none ↦ if is_named c.username name then some c.id else none
]

-- The channel that a row names, by its id or else by its handle.
abbrev pub channel_in : List ChannelRow → ListRow → Option ℕ
channel_in channels row = elim row.channel_id [
  | some c ↦ some c
  | none ↦ elim row.username [ none ↦ none | some name ↦ channel_named name channels ]
]

get-set :
    (j k : Text) (v : ℕ) (d : Assoc Text ℕ)
    → get text_eq j (set text_eq k v d) ≡ (if text_eq k j then some v else get text_eq j d)
get-set j k v [] = refl
get-set j k v ((i, w) ∷ d) = elim (Bool-cases (text_eq i k)) [
  | inl same ↦ rw same (
      subst
        (λ x.
          (if text_eq i j then some v else get text_eq j d)
          ≡ (if text_eq x j then some v else (if text_eq i j then some w else get text_eq j d)))
        (text_eq→eq i k same) (ground arith))
  | inr other ↦
      rw (other, get-set j k v d)
        (elim (Bool-cases (text_eq i j)) [
          | inl here ↦ elim (Bool-cases (text_eq k j)) [
            | inl there ↦ absurd (both here there other)
            | inr not ↦ rw (here, not) refl
          ]
          | inr not ↦ rw not refl
        ])
]
  where
    both : text_eq i j ≡ true → text_eq k j ≡ true → text_eq i k ≡ false → ⊥
    both here there other =
        let e : i ≡ k = text_eq→eq i j here ∙ sym (text_eq→eq k j there) in
        let yes = subst (λ x. text_eq i x ≡ true) e (text_eq_refl i) in cc

-- What is found in the table of handles, or in what it started from.
abbrev or_get : Text → Assoc Text ℕ → Option ℕ → Option ℕ
or_get name d none = get text_eq name d
or_get name d (some id) = some id

or_get-add_username :
    (name : Text) (c : ChannelRow) (d : Assoc Text ℕ) (later : Option ℕ)
    → or_get name (add_username c.username c.id d) later
      ≡ or_get name d (elim later [
        | some id ↦ some id
        | none ↦ if is_named c.username name then some c.id else none
      ])
or_get-add_username name c d (some id) = refl
or_get-add_username name c d none = by_name c.username
  where
    by_name :
        (u : Option Text)
        → get text_eq name (add_username u c.id d)
          ≡ or_get name d (if is_named u name then some c.id else none)
    by_name none = refl
    by_name (some u) =
        get-set name (lower u) c.id d
        ∙ (elim (Bool-cases (text_eq (lower u) name)) [ inl y ↦ rw y refl | inr n ↦ rw n refl ])

get-usernames_from :
    (name : Text) (cs : List ChannelRow) (d : Assoc Text ℕ)
    → get text_eq name (usernames_from cs d) ≡ or_get name d (channel_named name cs)
get-usernames_from name [] d = refl
get-usernames_from name (c ∷ cs) d =
    get-usernames_from name cs (add_username c.username c.id d)
    ∙ or_get-add_username name c d (channel_named name cs)

get-usernames :
    (name : Text) (cs : List ChannelRow) → get text_eq name (usernames cs) ≡ channel_named name cs
get-usernames name cs = get-usernames_from name cs [] ∙ none_found (channel_named name cs)
  where
    none_found : (found : Option ℕ) → or_get name [] found ≡ found
    none_found none = refl
    none_found (some id) = refl

-- The table of handles finds the channel that the row names.
pub channel_of-channel_in :
    (k : Known) (row : ListRow) → channel_of k row ≡ channel_in k.channels row
channel_of-channel_in k row = by_id row.channel_id row.username
  where
    by_id :
        (c : Option ℕ) (username : Option Text)
        → elim c [
          | some c ↦ some c
          | none ↦ elim username [
            | none ↦ none
            | some name ↦ get text_eq name (usernames k.channels)
          ]
        ]
          ≡ elim c [
            | some c ↦ some c
            | none ↦ elim username [ none ↦ none | some name ↦ channel_named name k.channels ]
          ]
    by_id (some c) username = refl
    by_id none none = refl
    by_id none (some name) = get-usernames name k.channels
