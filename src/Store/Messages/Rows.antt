-- ===== src/Store/Messages/Rows.antt =====
-- The statements on `messages`, each by what it makes of the row of a uri.
use paperboy.Base.{ℕ, ◌≡◌, refl, Option, none, some, List, [], ◌∷◌, arith, if◌then◌else◌}
use paperboy.Base.Text.{Text, text_eq, text_eq_iff}
use paperboy.Store.Tables.{MessageRow}
use paperboy.Store.Messages.{find_message, put_message, update_row, set_deleted}

-- What an upsert makes of the row that is there, if any.
abbrev pub updated : Option MessageRow → MessageRow → MessageRow
updated none new = new
updated (some row) new = update_row row new

uri-update_row : (row new : MessageRow) → (update_row row new).uri ≡ row.uri
unfolding update_row
uri-update_row row new = refl

pub find_message-put_message :
    (rows : List MessageRow) (new : MessageRow) (uri : Text)
    → find_message uri (put_message rows new) ≡ (
        if text_eq new.uri uri
        then some (updated (find_message uri rows) new)
        else find_message uri rows)
find_message-put_message [] new uri = ground arith
find_message-put_message (r ∷ rows) new uri = ground (
  arith,
  text_eq_iff r.uri new.uri,
  text_eq_iff new.uri uri,
  text_eq_iff r.uri uri,
  uri-update_row r new,
  find_message-put_message rows new uri,
)

-- A row with its `deleted_at` changed.
abbrev pub with_deleted : (Option ℕ → Option ℕ) → Option MessageRow → Option MessageRow
with_deleted f none = none
with_deleted f (some row) = some (record row { deleted_at = f row.deleted_at })

pub find_message-set_deleted :
    (f : Option ℕ → Option ℕ) (at : Text) (rows : List MessageRow) (uri : Text)
    → find_message uri (set_deleted f at rows)
      ≡ (if text_eq at uri then with_deleted f (find_message uri rows) else find_message uri rows)
find_message-set_deleted f at [] uri = ground arith
find_message-set_deleted f at (r ∷ rows) uri = ground (
  arith,
  text_eq_iff r.uri at,
  text_eq_iff at uri,
  text_eq_iff r.uri uri,
  find_message-set_deleted f at rows uri,
)
