-- ===== src/Inputs/Classify/Once.antt =====
-- Each row gets one outcome, and no message is fetched twice.
use paperboy.Base.{
  ℕ, ◌≡◌, refl, ◌∙◌, sym, ap, Bool, true, false, Option, none, some, List, [], ◌∷◌, map,
  if◌then◌else◌, Bool-cases, inl, inr, ◌⊎◌,
}
use mathlib.Core.Path.{subst}
use paperboy.Base.Text.{Text}
use paperboy.Ids.Uri.{msg_uri}
use paperboy.Media.Content.{Index, load_content_index}
use paperboy.Media.Store.{Result, ok, unreachable, integrity, value_error, ◌>>=◌}
use paperboy.Media.Phase.State.{Row}
use paperboy.Inputs.Entry.{ListRow}
use paperboy.Inputs.Classify.Channels.{channel_in, channel_of-channel_in}
use paperboy.Inputs.Classify.{
  Known, ChannelRow, Offline, duplicate_row, excluded, pending, ClassifiedRow, bare, find_message,
  held_file, stored_row, known_row, is_in, Seen, is_seen, addressed, channel_of, unresolved,
  classify_row, and_rest, classify_from, classify_rows,
}

-- What is said of a row's outcome, from its channel, its message, and whether it is marked.
abbrev pub Justified : List ℕ → Seen → Option ℕ → ℕ → Bool → Offline → Type 0
Justified excluded_ids seen (some c) n marked pending =
    (marked ≡ false) × (is_in excluded_ids c ≡ false) × (is_seen seen c n ≡ false)
Justified excluded_ids seen (some c) n marked excluded =
    (marked ≡ false) × (is_in excluded_ids c ≡ true)
Justified excluded_ids seen (some c) n marked duplicate_row =
    (marked ≡ true) ⊎ ((is_in excluded_ids c ≡ false) × (is_seen seen c n ≡ true))
Justified excluded_ids seen none n marked pending = marked ≡ false
Justified excluded_ids seen none n marked excluded = ⊥
Justified excluded_ids seen none n marked duplicate_row = marked ≡ true

-- What is seen after the row.
abbrev seen_after : Seen → Option ℕ → ℕ → Offline → Seen
seen_after seen (some c) n pending = (c, n) ∷ seen
seen_after seen none n pending = seen
seen_after seen channel n duplicate_row = seen
seen_after seen channel n excluded = seen

-- A row is settled by the channel that it names: its outcome is justified, and it is put under that
-- channel, if it is not a marked duplicate.
abbrev pub IsSettled : List ChannelRow → List ℕ → Seen → ListRow → ClassifiedRow → Type 0
IsSettled channels excluded_ids seen row r =
    Justified excluded_ids seen (channel_in channels row) row.msg_id row.duplicate r.outcome
    × (r.channel_id ≡ (if row.duplicate then row.channel_id else channel_in channels row))

-- The rows are settled one after the other.
abbrev pub Once : List ChannelRow → List ℕ → List ClassifiedRow → Seen → Type 0
Once channels excluded_ids [] seen = Unit
Once channels excluded_ids (r ∷ rs) seen =
    IsSettled channels excluded_ids seen r.row r
    × Once channels excluded_ids rs
        (seen_after seen (channel_in channels r.row) r.row.msg_id r.outcome)

-- One classified row, with what is seen after it.
abbrev Classifies :
    List ChannelRow → List ℕ → Seen → ListRow → Result (ClassifiedRow × Seen) → Type 0
Classifies channels excluded_ids seen row (ok (r, after)) =
    (r.row ≡ row)
    × IsSettled channels excluded_ids seen row r
    × (after ≡ seen_after seen (channel_in channels row) row.msg_id r.outcome)
Classifies channels excluded_ids seen row unreachable = Unit
Classifies channels excluded_ids seen row integrity = Unit
Classifies channels excluded_ids seen row value_error = Unit

module _ (k : Known) (index : Index) (excluded_ids : List ℕ) (seen : Seen) (row : ListRow) where
  settled :
      (c : Option ℕ) (r : ClassifiedRow) (after : Seen)
      → channel_in k.channels row ≡ c
      → row.duplicate ≡ false
      → r.row ≡ row
      → Justified excluded_ids seen c row.msg_id row.duplicate r.outcome
      → r.channel_id ≡ c
      → after ≡ seen_after seen c row.msg_id r.outcome
      → Classifies k.channels excluded_ids seen row (ok (r, after))
  settled c r after e d same just under last = (
    same,
    (
      subst (λ x. Justified excluded_ids seen x row.msg_id row.duplicate r.outcome) (sym e) just,
      rw d (under ∙ sym e),
    ),
    last ∙ ap (λ x. seen_after seen x row.msg_id r.outcome) (sym e),
  )

  Classifies-known :
      (c : ℕ)
      → channel_in k.channels row ≡ some c
      → row.duplicate ≡ false
      → is_in excluded_ids c ≡ false
      → is_seen seen c row.msg_id ≡ false
      → (m : Option Row)
      → Classifies k.channels excluded_ids seen row
          (known_row k index row c m >>= λ r. ok (r, (c, row.msg_id) ∷ seen))
  unfolding known_row
  Classifies-known c e d x s none =
      settled (some c) (bare row pending (msg_uri c row.msg_id) (some c)) ((c, row.msg_id) ∷ seen) e
        d refl (d, x, s) refl refl
  Classifies-known c e d x s (some m) = by_file (held_file k index m.media_kind m.media)
    where
      by_file :
          (f : Result (Option (Text × Text)))
          → Classifies k.channels excluded_ids seen row (
              (f >>= λ stored. ok (stored_row row (msg_uri c row.msg_id) c m stored)) >>= λ r.
              ok (r, (c, row.msg_id) ∷ seen))
      by_file (ok stored) =
          settled (some c) (stored_row row (msg_uri c row.msg_id) c m stored)
            ((c, row.msg_id) ∷ seen) e d refl (d, x, s) refl refl
      by_file unreachable = tt
      by_file integrity = tt
      by_file value_error = tt

  Classifies-addressed :
      (c : ℕ)
      → channel_in k.channels row ≡ some c
      → row.duplicate ≡ false
      → Classifies k.channels excluded_ids seen row (addressed k index excluded_ids seen row c)
  unfolding addressed
  Classifies-addressed c e d = elim (Bool-cases (is_in excluded_ids c)) [
    | inl x ↦ rw x (
        settled (some c) (bare row excluded (msg_uri c row.msg_id) (some c)) seen e d refl (d, x)
          refl refl)
    | inr x ↦ elim (Bool-cases (is_seen seen c row.msg_id)) [
      | inl s ↦
          rw (x, s)
            (settled (some c) (bare row duplicate_row (msg_uri c row.msg_id) (some c)) seen e d refl
              (inr (x, s)) refl refl)
      | inr s ↦
          rw (x, s) (Classifies-known c e d x s (find_message (msg_uri c row.msg_id) k.messages))
    ]
  ]

  Classifies-marked :
      row.duplicate ≡ true
      → Classifies k.channels excluded_ids seen row
          (ok (bare row duplicate_row row.uri row.channel_id, seen))
  Classifies-marked d =
      (refl, (just (channel_in k.channels row), rw d refl), same (channel_in k.channels row))
    where
      just : (c : Option ℕ) → Justified excluded_ids seen c row.msg_id row.duplicate duplicate_row
      just none = d
      just (some c) = inl d

      same : (c : Option ℕ) → seen ≡ seen_after seen c row.msg_id duplicate_row
      same none = refl
      same (some c) = refl

  Classifies-classify_row :
      Classifies k.channels excluded_ids seen row (classify_row k index excluded_ids seen row)
  unfolding classify_row
  Classifies-classify_row = by_mark row.duplicate refl
    where
      by_channel :
          (c : Option ℕ)
          → channel_in k.channels row ≡ c
          → row.duplicate ≡ false
          → Classifies k.channels excluded_ids seen row (elim c [
            | none ↦ ok (unresolved row, seen)
            | some i ↦ addressed k index excluded_ids seen row i
          ])
      by_channel none e d = settled none (unresolved row) seen e d refl d refl refl
      by_channel (some i) e d = Classifies-addressed i e d

      by_mark :
          (b : Bool)
          → row.duplicate ≡ b
          → Classifies k.channels excluded_ids seen row (
              if b
              then ok (bare row duplicate_row row.uri row.channel_id, seen)
              else elim (channel_of k row) [
                | none ↦ ok (unresolved row, seen)
                | some i ↦ addressed k index excluded_ids seen row i
              ])
      by_mark true d = Classifies-marked d
      by_mark false d = by_channel (channel_of k row) (sym (channel_of-channel_in k row)) d

cons_eq : {A : Type 0} {x y : A} {xs ys : List A} → x ≡ y → xs ≡ ys → x ∷ xs ≡ y ∷ ys
cons_eq e f = cc

-- What a classified list is: the rows in order, each with its outcome.
abbrev IsClassified :
    List ChannelRow → List ℕ → List ListRow → Seen → Result (List ClassifiedRow) → Type 0
IsClassified channels excluded_ids rows seen (ok rs) =
    (map (λ r. r.row) rs ≡ rows) × Once channels excluded_ids rs seen
IsClassified channels excluded_ids rows seen unreachable = Unit
IsClassified channels excluded_ids rows seen integrity = Unit
IsClassified channels excluded_ids rows seen value_error = Unit

IsClassified-and_rest :
    (channels : List ChannelRow) (excluded_ids : List ℕ) (row : ListRow) (rows : List ListRow)
    (seen : Seen) (c : Result (ClassifiedRow × Seen)) (next : Seen → Result (List ClassifiedRow))
    → Classifies channels excluded_ids seen row c
    → ((after : Seen) → IsClassified channels excluded_ids rows after (next after))
    → IsClassified channels excluded_ids (row ∷ rows) seen (and_rest c next)
IsClassified-and_rest channels excluded_ids row rows seen (ok (r, after)) next h f =
    by_rest (next after) (f after)
  where
    by_rest :
        (rest : Result (List ClassifiedRow))
        → IsClassified channels excluded_ids rows after rest
        → IsClassified channels excluded_ids (row ∷ rows) seen (rest >>= λ cs. ok (r ∷ cs))
    by_rest (ok rs) g = (
      cons_eq h.0 g.0,
      subst
          (λ w.
            IsSettled channels excluded_ids seen w r
            × Once channels excluded_ids rs
                (seen_after seen (channel_in channels w) w.msg_id r.outcome))
          (sym h.0) (h.1, subst (Once channels excluded_ids rs) h.2 g.1),
    )
    by_rest unreachable g = tt
    by_rest integrity g = tt
    by_rest value_error g = tt
IsClassified-and_rest channels excluded_ids row rows seen unreachable next h f = tt
IsClassified-and_rest channels excluded_ids row rows seen integrity next h f = tt
IsClassified-and_rest channels excluded_ids row rows seen value_error next h f = tt

IsClassified-classify_from :
    (k : Known) (index : Index) (excluded_ids : List ℕ) (rows : List ListRow) (seen : Seen)
    → IsClassified k.channels excluded_ids rows seen (classify_from k index excluded_ids rows seen)
unfolding classify_from
IsClassified-classify_from k index excluded_ids [] seen = (refl, tt)
IsClassified-classify_from k index excluded_ids (row ∷ rows) seen =
    IsClassified-and_rest k.channels excluded_ids row rows seen
      (classify_row k index excluded_ids seen row) (classify_from k index excluded_ids rows)
      (Classifies-classify_row k index excluded_ids seen row)
      (λ after. IsClassified-classify_from k index excluded_ids rows after)

-- Classification keeps every row, in order, and decides each by the first rule that fits, where the
-- row's channel is the one of its id or else the last one in `channels` with its handle: a marked
-- row is a duplicate; a row of an excluded channel is excluded; a row whose message an earlier
-- pending row has claimed under the same channel is a duplicate; any other row is pending. A row that
-- is not marked is put under that channel. So no pending row is of an excluded channel, and no two
-- pending rows name the same message of a known channel.
pub classify_rows-Once :
    (k : Known) (rows : List ListRow) (excluded_ids : List ℕ) (rs : List ClassifiedRow)
    → classify_rows k rows excluded_ids ≡ ok rs
    → (map (λ r. r.row) rs ≡ rows) × Once k.channels excluded_ids rs []
unfolding classify_rows
classify_rows-Once k rows excluded_ids rs h =
    by_index (load_content_index (λ uri. true) k.files k.custody) h
  where
    by_index :
        (i : Option Index)
        → (elim i [ none ↦ value_error | some index ↦ classify_from k index excluded_ids rows [] ])
          ≡ ok rs
        → (map (λ r. r.row) rs ≡ rows) × Once k.channels excluded_ids rs []
    by_index none e = cc
    by_index (some index) e =
        subst (IsClassified k.channels excluded_ids rows []) e
          (IsClassified-classify_from k index excluded_ids rows [])
