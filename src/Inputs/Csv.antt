-- ===== src/Inputs/Csv.antt =====
-- The standard library's `str.splitlines(keepends=True)` and `csv.reader`, as media_list.py uses
-- them: the default dialect, on ASCII text.
use paperboy.Base.{
  ℕ, suc, Bool, true, false, not, ◌&&◌, ◌||◌, Option, none, some, List, [], ◌∷◌, ◌++◌, ◌==◌, leb,
  if◌then◌else◌,
}
use paperboy.Base.Text.{Text, cons_head}

-- A character that ends a line.
abbrev is_break : ℕ → Bool
is_break c = (leb 10 c && leb c 13) || (leb 28 c && leb c 30)

abbrev starts_with_newline : Text → Bool
starts_with_newline [] = false
starts_with_newline (c ∷ t) = c == b'\n'

-- Each line with its end; a carriage return and the newline after it are one end.
unfoldable pub split_lines : Text → List Text
split_lines [] = []
split_lines (c ∷ t) =
    let later = split_lines t in
    if is_break c && not ((c == 13) && starts_with_newline t)
    then (c ∷ []) ∷ later
    else cons_head c later

pub data State : Type 0 where
  start_record start_field in_field in_quoted quote_in_quoted eat_newline : State

pub record Reader : Type 0 where
  pub state : State
  pub field : Text
  pub fields : List Text

abbrev pub new_record : Reader
new_record = record { state = start_record; field = []; fields = [] }

abbrev pub save : State → Reader → Reader
save state r = record { state = state; field = []; fields = r.fields ++ r.field ∷ [] }

abbrev add : ℕ → State → Reader → Reader
add c state r = record r { state = state; field = r.field ++ c ∷ [] }

abbrev is_newline : ℕ → Bool
is_newline c = (c == b'\n') || (c == 13)

abbrev in_a_field : ℕ → Reader → Reader
in_a_field c r =
    if is_newline c
    then save eat_newline r
    else if c == b','
    then save start_field r
    else add c in_field r

abbrev begin_field : ℕ → Reader → Reader
begin_field c r =
    if is_newline c
    then save eat_newline r
    else if c == b'"'
    then record r { state = in_quoted }
    else if c == b','
    then save start_field r
    else add c in_field r

abbrev after_quote : ℕ → Reader → Reader
after_quote c r = if c == b'"' then add c in_quoted r else in_a_field c r

-- One character; `none` is `csv.Error`, for text after a bare line end.
step : State → ℕ → Reader → Option Reader
step start_record c r =
    some (if is_newline c then record r { state = eat_newline } else begin_field c r)
step start_field c r = some (begin_field c r)
step in_field c r = some (in_a_field c r)
step in_quoted c r =
    some (if c == b'"' then record r { state = quote_in_quoted } else add c in_quoted r)
step quote_in_quoted c r = some (after_quote c r)
step eat_newline c r = if is_newline c then some r else none

-- The end of a line.
abbrev end_line : State → Reader → Reader
end_line start_record r = r
end_line start_field r = save start_record r
end_line in_field r = save start_record r
end_line in_quoted r = r
end_line quote_in_quoted r = save start_record r
end_line eat_newline r = record r { state = start_record }

abbrev and_then : Option Reader → (Reader → Option Reader) → Option Reader
and_then none f = none
and_then (some r) f = f r

unfoldable pub feed : Text → Reader → Option Reader
unfolding step
feed [] r = some (end_line r.state r)
feed (c ∷ t) r = and_then (step r.state c r) (feed t)

-- A record: the number of lines read so far, `line_num`, and the fields.
abbrev pub Record : Type 0
Record = ℕ × List Text

abbrev pub cons_record : Record → Option (List Record) → Option (List Record)
cons_record r none = none
cons_record r (some rs) = some (r ∷ rs)

abbrev is_open : State → Text → Bool
is_open in_quoted field = true
is_open start_record field = false
is_open start_field field = false
is_open in_field field = false
is_open quote_in_quoted field = false
is_open eat_newline field = false

abbrev is_empty : Text → Bool
is_empty [] = true
is_empty (c ∷ t) = false

-- At the end of the input an open field is saved.
abbrev at_end : ℕ → Reader → List Record
at_end line r =
    if is_open r.state r.field || not (is_empty r.field)
    then (line, (save start_record r).fields) ∷ []
    else []

abbrev is_done : State → Bool
is_done start_record = true
is_done start_field = false
is_done in_field = false
is_done in_quoted = false
is_done quote_in_quoted = false
is_done eat_newline = false

abbrev after_line : ℕ → Option Reader → (Reader → Option (List Record)) → Option (List Record)
after_line line none next = none
after_line line (some r) next =
    if is_done r.state then cons_record (line, r.fields) (next new_record) else next r

unfoldable pub read_from : List Text → ℕ → Reader → Option (List Record)
unfolding feed
read_from [] line r = some (at_end line r)
read_from (l ∷ lines) line r = after_line (suc line) (feed l r) (read_from lines (suc line))

-- All that the reader yields; `none` if it raises `csv.Error`.
unfoldable pub read_csv : List Text → Option (List Record)
unfolding read_from
read_csv lines = read_from lines 0 new_record
