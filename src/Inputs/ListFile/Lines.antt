-- ===== src/Inputs/ListFile/Lines.antt =====
-- Which lines of a plain list become rows, and which are reported.
use paperboy.Base.{
  ℕ, suc, ◌≡◌, ◌∙◌, refl, sym, Bool, true, false, not, ◌&&◌, Option, none, some, List, [], ◌∷◌,
  ◌++◌, ◌≢◌, map, if◌then◌else◌, Bool-cases, In, ◌↔◌, arith, inl, inr,
}
use mathlib.Core.Path.{subst}
use mathlib.Core.List.{append-nil, append_assoc}
use paperboy.Base.Text.{Text}
use paperboy.Inputs.Csv.{split_lines}
use paperboy.Inputs.Entry.{
  Address, by_id, by_name, key, normal_uri, row_of, is_seen, Entry, ListRow, row, map_row,
  parse_uri, mark_from, mark_duplicates,
}
use paperboy.Inputs.Entry.Marks.{In-is_seen, is_seen-In}
use paperboy.Inputs.ListFile.{
  ListResult, listed, bad_lines, no_rows, value_error, csv_error, Read, line_text, is_skipped,
  add_row, read_lines, outcome, is_csv, parse_media_list,
}

-- The numbers, from `k`, of the lines whose text passes the test.
abbrev pub numbers : (Text → Bool) → ℕ → List Text → List ℕ
numbers p k [] = []
numbers p k (raw ∷ lines) =
    if p (line_text raw) then k ∷ numbers p (suc k) lines else numbers p (suc k) lines

abbrev is_entry : Option Entry → Bool
is_entry none = false
is_entry (some e) = true

-- A line that should be an entry and is not.
abbrev pub is_malformed : Text → Bool
is_malformed t = not (is_skipped t) && not (is_entry (parse_uri t))

abbrev pub found_at : ℕ → Option Entry → List (ℕ × Entry)
found_at k none = []
found_at k (some e) = (k, e) ∷ []

-- The entries of the lines, each with the number of its line.
abbrev pub entries : ℕ → List Text → List (ℕ × Entry)
entries k [] = []
entries k (raw ∷ lines) =
    (if is_skipped (line_text raw) then [] else found_at k (parse_uri (line_text raw)))
    ++ entries (suc k) lines

-- The message that an entry addresses, by the channel's id if it has one.
abbrev pub message_of : Entry → Address × ℕ
message_of e = elim e.channel_id [
  | some c ↦ (by_id c, e.msg_id)
  | none ↦ (by_name e.username, e.msg_id)
]

-- The row of an entry that comes after entries for the messages of `before`.
abbrev pub IsRowOf : List (Address × ℕ) → ℕ × Entry → ListRow → Type 0
IsRowOf before (k, e) r =
    (r.line_no ≡ k)
    × (r.uri ≡ normal_uri e)
    × (r.channel_id ≡ e.channel_id)
    × (r.username ≡ e.username)
    × (r.msg_id ≡ e.msg_id)
    × (r.priority ≡ none)
    × ((r.duplicate ≡ true) ↔ In (message_of e) before)

-- One row for each entry, in order.
abbrev pub AreRows : List (Address × ℕ) → List (ℕ × Entry) → List ListRow → Type 0
AreRows before [] [] = Unit
AreRows before [] (r ∷ rows) = ⊥
AreRows before (e ∷ es) [] = ⊥
AreRows before (e ∷ es) (r ∷ rows) = IsRowOf before e r × AreRows (message_of e.1 ∷ before) es rows

abbrev fresh : ℕ × Entry → ListRow
fresh (k, e) = row_of k none e

key-fresh : (k : ℕ) (e : Entry) → key (fresh (k, e)) ≡ message_of e
key-fresh k e = ground arith

mark_from-AreRows :
    (seen : List (Address × ℕ)) (es : List (ℕ × Entry))
    → AreRows seen es (mark_from seen (map fresh es))
unfolding mark_from
mark_from-AreRows seen [] = tt
mark_from-AreRows seen ((k, e) ∷ es) = (
  (
    refl,
    refl,
    refl,
    refl,
    refl,
    refl,
    subst (λ m. (is_seen seen m ≡ true) ↔ In (message_of e) seen) (sym (key-fresh k e))
        (In-is_seen seen (message_of e), is_seen-In seen (message_of e)),
  ),
  subst (λ m. AreRows (message_of e ∷ seen) es (mark_from (m ∷ seen) (map fresh es)))
      (sym (key-fresh k e)) (mark_from-AreRows (message_of e ∷ seen) es),
)

-- What is read after the rows and the bad lines so far.
record Adds (read : Read) (good : List (ℕ × Entry)) (bad : List ℕ) (read' : Read) : Type 0 where
  rows_at : read'.0 ≡ read.0 ++ map fresh good
  bad_at : read'.1 ≡ read.1 ++ bad

Adds-row :
    (k : ℕ) (e : Option Entry) (good : List (ℕ × Entry)) (bad : List ℕ) (read read' : Read)
    → Adds (add_row k (map_row k none e) read) good bad read'
    → Adds read (found_at k e ++ good) (if not (is_entry e) then k ∷ bad else bad) read'
Adds-row k none good bad (rows, bads) read' h = record {
  rows_at = h.rows_at;
  bad_at = h.bad_at ∙ append_assoc bads (k ∷ []) bad;
}
Adds-row k (some d) good bad (rows, bads) read' h = record {
  rows_at = h.rows_at ∙ append_assoc rows (fresh (k, d) ∷ []) (map fresh good);
  bad_at = h.bad_at;
}

Adds-read_lines :
    (k : ℕ) (lines : List Text) (read : Read)
    → Adds read (entries k lines) (numbers is_malformed k lines) (read_lines k lines read)
unfolding read_lines row
Adds-read_lines k [] read = record {
  rows_at = sym (append-nil (read.0));
  bad_at = sym (append-nil (read.1));
}
Adds-read_lines k (raw ∷ lines) read = elim (Bool-cases (is_skipped (line_text raw))) [
  | inl skip ↦ rw (skip, read_lines) (Adds-read_lines (suc k) lines read)
  | inr kept ↦
      rw (kept, read_lines)
        (Adds-row k (parse_uri (line_text raw)) (entries (suc k) lines)
          (numbers is_malformed (suc k) lines) read
          (read_lines (suc k) lines (add_row k (row k (line_text raw) none) read))
          (Adds-read_lines (suc k) lines (add_row k (row k (line_text raw) none) read)))
]

-- What a list of that outcome says of its lines.
abbrev pub Tells : List (ℕ × Entry) → List ℕ → ListResult → Type 0
Tells good bad (listed rows) = (bad ≡ []) × (good ≢ []) × AreRows [] good rows
Tells good bad (bad_lines lines) = (lines ≡ bad) × (bad ≢ [])
Tells good bad no_rows = (bad ≡ []) × (good ≡ [])
Tells good bad value_error = ⊥
Tells good bad csv_error = ⊥

Tells-outcome :
    (good : List (ℕ × Entry)) (bad : List ℕ) → Tells good bad (outcome (map fresh good, bad))
unfolding outcome mark_duplicates
Tells-outcome [] [] = (refl, refl)
Tells-outcome (e ∷ good) [] = (refl, λ q. cc, mark_from-AreRows [] (e ∷ good))
Tells-outcome [] (b ∷ bad) = (refl, λ e. cc)
Tells-outcome (e ∷ good) (b ∷ bad) = (refl, λ e. cc)

-- A plain list is used whole or not at all. If any line that is neither blank nor a comment is no
-- entry, the list is refused with the numbers of exactly those lines, in order. Otherwise its rows are
-- exactly the entries, in order: each under its line's number, with the entry's normalised address,
-- channel, username and message id and no priority, and marked as a duplicate exactly if an
-- earlier entry addresses the same message in the same way. A list with no entry is refused.
pub parse_media_list-plain :
    (text : Text)
    → is_csv (split_lines text) ≡ some false
    → Tells
        (entries 1 (split_lines text))
        (numbers is_malformed 1 (split_lines text))
        (parse_media_list text)
unfolding parse_media_list
parse_media_list-plain text h =
    let lines = split_lines text in
    let adds = Adds-read_lines 1 lines ([], []) in
    rw h (
      subst (λ read. Tells (entries 1 lines) (numbers is_malformed 1 lines) (outcome read))
        (sym (pair_eq adds.rows_at adds.bad_at))
        (Tells-outcome (entries 1 lines) (numbers is_malformed 1 lines)))
  where
    pair_eq : {a b : List ListRow} {c d : List ℕ} → a ≡ b → c ≡ d → ◌≡◌ {A = Read} (a, c) (b, d)
    pair_eq e f = cc
