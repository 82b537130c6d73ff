-- ===== src/Media/Phase/Select.antt =====
-- collectors/media.py, `MediaCollector.collect` of a live run: the rows, then the phase over them.
use paperboy.Base.{
  ℕ, ◌+◌, ◌-◌, ◌≡◌, refl, Bool, true, false, not, ◌&&◌, ◌||◌, Option, none, some, List, [], ◌∷◌,
  arith, if◌then◌else◌, length, select, leb, ltb, ◌==◌, ◌≤◌,
}
use paperboy.Base.Text.{Text, text_eq}
use paperboy.Media.Content.{FileRow, Sighting, Index, load_content_index}
use paperboy.Media.Store.{Objects}
use paperboy.Media.Phase.State.{
  Row, Receipt, Counts, Outcome, Work, Run, Turn, Step, goes_on, ends, bad_key,
}
use paperboy.Media.Phase.Accounting.{Walked, take_rows-Walked}
use paperboy.Media.Phase.Progressed.{total}
use paperboy.Media.Phase.{take_rows}

abbrev is_null : {A : Type 0} → Option A → Bool
is_null none = true
is_null (some a) = false

-- `channel_id=? AND media_kind IS NOT NULL AND deleted_at IS NULL`
abbrev pub has_media : ℕ → Row → Bool
has_media channel_id row =
    (row.channel_id == channel_id) && (not (is_null row.media_kind) && is_null row.deleted_at)

-- `date >= ?`, which a date that is not known fails.
abbrev pub in_window : Option ℕ → Option ℕ → Bool
in_window none date = true
in_window (some cutoff) none = false
in_window (some cutoff) (some date) = leb cutoff date

-- `ORDER BY msg_id`
unfoldable pub insert_row : Row → List Row → List Row
insert_row row [] = row ∷ []
insert_row row (q ∷ rows) =
    if ltb q.msg_id row.msg_id then q ∷ insert_row row rows else row ∷ q ∷ rows

unfoldable pub order_by_msg_id : List Row → List Row
unfolding insert_row
order_by_msg_id [] = []
order_by_msg_id (row ∷ rows) = insert_row row (order_by_msg_id rows)

abbrev is_wanted : List ℕ → ℕ → Bool
is_wanted [] id = false
is_wanted (i ∷ ids) id = (i == id) || is_wanted ids id

abbrev pub selected : Option (List ℕ) → List Row → List Row
selected none rows = rows
selected (some ids) rows = select (λ row. is_wanted ids row.msg_id) rows

-- The options `--media-since` and `--media-msgs`.
pub record Options : Type 0 where
  pub since : Option ℕ
  pub msgs : Option (List ℕ)

-- The rows inside the window, in order; then those of them that are selected.
unfoldable pub window_rows : Run → Options → List Row → List Row
unfolding order_by_msg_id
window_rows r o messages =
    order_by_msg_id
      (select (λ row. has_media r.channel_id row && in_window o.since row.date) messages)

abbrev before_window : Run → Options → List Row → List Row
before_window r o messages =
    select (λ row. has_media r.channel_id row && not (in_window o.since row.date)) messages

abbrev no_counts : Counts
no_counts = record {
  downloaded = 0;
  duplicates = 0;
  unavailable = 0;
  skipped_kind = 0;
  skipped = 0;
  size_mismatch = 0;
  out_of_window = 0;
  not_selected = 0;
  too_large = 0;
}

abbrev first_counts : Run → Options → List Row → Counts
first_counts r o messages =
    let rows = window_rows r o messages in
    record (no_counts) {
      out_of_window = length (before_window r o messages);
      not_selected = length rows - length (selected o.msgs rows);
    }

-- The channel of a message, by its row.
abbrev in_channel : ℕ → List Row → Text → Bool
in_channel channel_id [] uri = false
in_channel channel_id (row ∷ rows) uri =
    (text_eq row.uri uri && (row.channel_id == channel_id)) || in_channel channel_id rows uri

-- What the run starts with: the tables, and the store's objects.
pub record Start : Type 0 where
  pub messages : List Row
  pub files : List FileRow
  pub custody : List Sighting
  pub receipts : List Receipt
  pub objects : Objects
  pub outcomes : List (Text × Outcome)

abbrev work_with : Run → Options → Start → Index → Work
work_with r o s index = record {
  files = s.files;
  custody = s.custody;
  receipts = s.receipts;
  objects = s.objects;
  counts = first_counts r o s.messages;
  outcomes = s.outcomes;
  index = index;
}

-- An index that cannot be read is a `ValueError`, before any row.
abbrev with_index : Run → Options → Start → (Row → Turn) → Option Index → Step
with_index r o s turn none = ends bad_key (work_with r o s [])
with_index r o s turn (some index) =
    take_rows r turn (selected o.msgs (window_rows r o s.messages)) (work_with r o s index)

unfoldable pub collect : Run → Options → Start → (Row → Turn) → Step
collect r o s turn =
    with_index r o s turn
      (load_content_index (in_channel r.channel_id s.messages) s.files s.custody)

length-insert_row : (row : Row) (rows : List Row) → length (insert_row row rows) ≡ length rows + 1
unfolding insert_row
length-insert_row row [] = refl
length-insert_row row (q ∷ rows) = ground (arith, length-insert_row row rows)

length-order_by_msg_id : (rows : List Row) → length (order_by_msg_id rows) ≡ length rows
unfolding order_by_msg_id
length-order_by_msg_id [] = refl
length-order_by_msg_id (row ∷ rows) =
    omega (arith, length-insert_row row (order_by_msg_id rows), length-order_by_msg_id rows)

length-select_le : (p : Row → Bool) (rows : List Row) → length (select p rows) ≤ length rows
length-select_le p [] = omega arith
length-select_le p (row ∷ rows) = ground (arith, length-select_le p rows)

length-selected :
    (ids : Option (List ℕ)) (rows : List Row) → length (selected ids rows) ≤ length rows
length-selected none rows = omega arith
length-selected (some ids) rows = length-select_le (λ row. is_wanted ids row.msg_id) rows

length-split :
    (p q : Row → Bool) (rows : List Row)
    → length (select (λ row. p row && not (q row)) rows)
        + length (select (λ row. p row && q row) rows)
      ≡ length (select p rows)
length-split p q [] = refl
length-split p q (row ∷ rows) = ground (arith, length-split p q rows)

-- A phase that goes on to its end accounts for every message of the channel that has media and is not
-- deleted: each stands in exactly one of the nine counts.
pub collect_accounts :
    (r : Run) (o : Options) (s : Start) (turn : Row → Turn) (w : Work)
    → collect r o s turn ≡ goes_on w
    → total w.counts ≡ length (select (has_media r.channel_id) s.messages)
unfolding collect window_rows
collect_accounts r o s turn w h =
    by_index (load_content_index (in_channel r.channel_id s.messages) s.files s.custody) h
  where
    by_index :
        (i : Option Index)
        → with_index r o s turn i ≡ goes_on w
        → total w.counts ≡ length (select (has_media r.channel_id) s.messages)
    by_index none e = cc
    by_index (some index) e =
        let walked : Walked (selected o.msgs (window_rows r o s.messages)) (work_with r o s index)
            (goes_on w) =
          rw e at (
            take_rows-Walked r turn (selected o.msgs (window_rows r o s.messages))
              (work_with r o s index)) in
        omega (
          arith,
          walked.0.counted,
          length-selected o.msgs (window_rows r o s.messages),
          length-order_by_msg_id
              (select (λ row. has_media r.channel_id row && in_window o.since row.date) s.messages),
          length-split (has_media r.channel_id) (λ row. in_window o.since row.date) s.messages,
        )
