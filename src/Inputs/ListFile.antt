-- ===== src/Inputs/ListFile.antt =====
-- media_list.py, `parse_media_list`: the rows of a list file, of either shape.
pub mod Lines
use paperboy.Base.{
  ℕ, zero, suc, Bool, true, false, not, ◌&&◌, ◌||◌, Option, none, some, List, [], ◌∷◌, ◌++◌, ◌==◌,
  ltb, if◌then◌else◌, length, map,
}
use mathlib.Core.List.{reverse}
use paperboy.Base.Text.{Text, codes, text_eq, strip, lstrip}
use paperboy.Ids.Peer.{lower}
use paperboy.Inputs.Csv.{Record, split_lines, read_csv}
use paperboy.Inputs.Entry.{ListRow, row, mark_duplicates}

-- The rows, or `MediaListError` with the bad lines or for a list with no rows; `ValueError` where the
-- header has no `uri` column, and `csv.Error`.
pub data ListResult : Type 0 where
  listed : List ListRow → ListResult
  bad_lines : List ℕ → ListResult
  no_rows value_error csv_error : ListResult

-- The rows read so far, and the lines of the malformed ones.
abbrev pub Read : Type 0
Read = List ListRow × List ℕ

abbrev starts_with : ℕ → Text → Bool
starts_with c [] = false
starts_with c (d ∷ t) = d == c

abbrev is_empty : Text → Bool
is_empty [] = true
is_empty (c ∷ t) = false

-- `ln.strip() and not ln.lstrip().startswith("#")`
abbrev is_meaningful : Text → Bool
is_meaningful line = not (is_empty (strip line)) && not (starts_with b'#' (lstrip line))

abbrev first_meaningful : List Text → Option Text
first_meaningful [] = none
first_meaningful (l ∷ lines) = if is_meaningful l then some l else first_meaningful lines

-- `list.index`; `none` is `ValueError`.
abbrev later : Option ℕ → Option ℕ
later none = none
later (some i) = some (suc i)

abbrev index_of : Text → List Text → Option ℕ
index_of t [] = none
index_of t (u ∷ us) = let rest = index_of t us in if text_eq u t then some 0 else later rest

abbrev is_found : Option ℕ → Bool
is_found none = false
is_found (some i) = true

abbrev columns : List Text → List Text
columns fields = map (λ f. lower (strip f)) fields

abbrev first_fields : Option (List Record) → Option (List Text)
first_fields none = none
first_fields (some []) = some []
first_fields (some ((line, fields) ∷ rs)) = some fields

-- Whether the first meaningful line has a `uri` column; `none` if the reader raises.
abbrev names_uri : Option (List Text) → Option Bool
names_uri none = none
names_uri (some fields) = some (is_found (index_of (codes "uri") (columns fields)))

unfoldable pub is_csv : List Text → Option Bool
is_csv lines = elim (first_meaningful lines) [
  | none ↦ some false
  | some l ↦ names_uri (first_fields (read_csv (l ∷ [])))
]

-- A row, or the line of a malformed one.
abbrev pub add_row : ℕ → Option ListRow → Read → Read
add_row line none (rows, bad) = (rows, bad ++ line ∷ [])
add_row line (some r) (rows, bad) = (rows ++ r ∷ [], bad)

-- `raw.rstrip("\r\n")`
abbrev drop_newlines : Text → Text
drop_newlines [] = []
drop_newlines (c ∷ t) =
    let rest = drop_newlines t in if (c == b'\n') || (c == 13) then rest else c ∷ t

abbrev rstrip_newlines : Text → Text
rstrip_newlines t = reverse (drop_newlines (reverse t))

abbrev pub line_text : Text → Text
line_text raw = strip (rstrip_newlines raw)

-- A line of a plain list is skipped, if it is blank or a comment.
abbrev pub is_skipped : Text → Bool
is_skipped text = is_empty text || starts_with b'#' text

-- The lines of a plain list, numbered.
unfoldable pub read_lines : ℕ → List Text → Read → Read
read_lines line_no [] read = read
read_lines line_no (raw ∷ lines) read = read_lines (suc line_no) lines (
    if is_skipped (line_text raw)
    then read
    else add_row line_no (row line_no (line_text raw) none) read)

abbrev all_blank : List Text → Bool
all_blank [] = true
all_blank (f ∷ fs) = is_empty (strip f) && all_blank fs

abbrev first_field : List Text → Text
first_field [] = []
first_field (f ∷ fs) = f

abbrev field_at : ℕ → List Text → Text
field_at i [] = []
field_at zero (f ∷ fs) = f
field_at (suc i) (f ∷ fs) = field_at i fs

-- The header of a table: its columns, the place of `uri`, and that of `priority`, if it is there.
pub record Header : Type 0 where
  pub width : ℕ
  pub uri_idx : ℕ
  pub prio_idx : Option ℕ

abbrev header_of : List Text → Option ℕ → Option Header
header_of names none = none
header_of names (some i) =
    some
      (record { width = length names; uri_idx = i; prio_idx = index_of (codes "priority") names })

abbrev priority_of : Option ℕ → List Text → Option Text
priority_of none fields = none
priority_of (some i) fields = some (strip (field_at i fields))

-- A record below the header.
abbrev table_row : Header → ℕ → List Text → Read → Read
table_row h line fields read =
    if ltb (length fields) h.width
    then add_row line none read
    else add_row line (row line (field_at h.uri_idx fields) (priority_of h.prio_idx fields)) read

unfoldable pub read_table : Header → List Record → Read → Read
read_table h [] read = read
read_table h ((line, fields) ∷ rs) read =
    read_table h rs (if all_blank fields then read else table_row h line fields read)

-- What stands above the header is blank or a comment.
unfoldable pub read_records : List Record → Option Read
unfolding read_table
read_records [] = some ([], [])
read_records ((line, fields) ∷ rs) =
    let above = read_records rs in
    if all_blank fields || starts_with b'#' (lstrip (first_field fields))
    then above
    else elim (header_of (columns fields) (index_of (codes "uri") (columns fields))) [
      | none ↦ none
      | some h ↦ some (read_table h rs ([], []))
    ]

unfoldable pub outcome : Read → ListResult
outcome ([], []) = no_rows
outcome (r ∷ rows, []) = listed (mark_duplicates (r ∷ rows))
outcome (rows, b ∷ bad) = bad_lines (b ∷ bad)

abbrev table_outcome : Option Read → ListResult
table_outcome none = value_error
table_outcome (some read) = outcome read

abbrev csv_outcome : Option (List Record) → ListResult
csv_outcome none = csv_error
csv_outcome (some rs) = table_outcome (read_records rs)

abbrev by_shape : List Text → Option Bool → ListResult
by_shape lines none = csv_error
by_shape lines (some true) = csv_outcome (read_csv lines)
by_shape lines (some false) = outcome (read_lines 1 lines ([], []))

-- Of the file's text, without the mark of its encoding.
unfoldable pub parse_media_list : Text → ListResult
unfolding is_csv read_lines read_records outcome
parse_media_list text = let lines = split_lines text in by_shape lines (is_csv lines)
