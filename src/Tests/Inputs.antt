-- ===== src/Tests/Inputs.antt =====
-- The readers of targets and media lists, and the plan, at concrete inputs.
use paperboy.Base.{ℕ, ◌≡◌, refl, Bool, true, false, none, some, List, [], ◌∷◌, map, select}
use paperboy.Base.Text.{Text, codes, strip}
use paperboy.Base.Decimal.{decimal, value}
use paperboy.Media.Content.{load_content_index, index_from}
use paperboy.Media.Store.{Store, Network, accepted, Result, ok}
use paperboy.Inputs.Scan.{after_site, rest, run}
use paperboy.Inputs.Targets.{peer_id, target, parse_target}
use paperboy.Inputs.Targets.ChannelIds.{marked, written, parse_target-written}
use paperboy.Inputs.Entry.{
  Entry, ListRow, parse_uri, match_msg, match_link_c, match_link_user, normal_uri,
}
use paperboy.Inputs.Entry.RoundTrip.{parse_uri-normal_uri}
use paperboy.Inputs.Csv.{split_lines, read_csv}
use paperboy.Inputs.ListFile.{is_csv, parse_media_list, read_records, value_error}
use paperboy.Inputs.ListFile.Lines.{numbers, entries, is_malformed, Tells, parse_media_list-plain}
use paperboy.Inputs.Classify.{
  Known, ChannelRow, ClassifiedRow, find_message, addressed, classify_row, classify_from,
  classify_rows,
}
use paperboy.Inputs.Classify.Once.{Once, classify_rows-Once}
use paperboy.Inputs.Segments.{Key, plan_segments}
use paperboy.Inputs.Segments.Grouping.{AreDistinct, rows_of, belongs, plan_segments_groups}

parse_target-written_example :
    parse_target (written marked 1234)
    ≡ target
        (record { kind = peer_id; raw = written marked 1234; value = decimal 1234; msg_id = none })
parse_target-written_example = parse_target-written marked 1234

abbrev link : Text
link = codes " https://t.me/Durov/12 "

abbrev durov_12 : Entry
durov_12 = record { channel_id = none; username = some (codes "durov"); msg_id = 12 }

link_parses : parse_uri link ≡ some durov_12
unfolding parse_uri match_msg match_link_c match_link_user after_site strip rest run value
link_parses = refl

parse_uri-normal_uri_example : parse_uri (normal_uri durov_12) ≡ some durov_12
parse_uri-normal_uri_example = parse_uri-normal_uri link durov_12 link_parses

abbrev list_text : Text
list_text = codes "t.me/c/7/5\n# note\nt.me/Durov/6\nt.me/durov/6\n"

list_is_plain : is_csv (split_lines list_text) ≡ some false
unfolding is_csv split_lines strip read_csv
list_is_plain = refl

parse_media_list-plain_example :
    Tells
      (entries 1 (split_lines list_text))
      (numbers is_malformed 1 (split_lines list_text))
      (parse_media_list list_text)
parse_media_list-plain_example = parse_media_list-plain list_text list_is_plain

abbrev pub plain_store : Store
plain_store = record { store_id = codes "local"; verifiable = false; crc32c = λ bytes. bytes }

abbrev pub calm : Network
calm = record {
  exists_reached = true;
  metadata_reached = true;
  list_reached = true;
  upload = accepted;
  rival = none;
  rival_late = none;
  server_checks = true;
}

abbrev pub nothing_known : Known
nothing_known = record {
  channels = [];
  messages = [];
  files = [];
  custody = [];
  store = plain_store;
  network = calm;
  objects = [];
}

abbrev pub row_of_7 : ℕ → ℕ → Bool → ListRow
row_of_7 line n again = record {
  line_no = line;
  uri = codes "msg:telegram:7/1";
  channel_id = some 7;
  username = none;
  msg_id = n;
  priority = none;
  duplicate = again;
}

abbrev rows_or_none : Result (List ClassifiedRow) → List ClassifiedRow
rows_or_none (ok rs) = rs
rows_or_none _ = []

abbrev list_rows : List ListRow
list_rows = row_of_7 1 5 false ∷ row_of_7 2 5 true ∷ row_of_7 3 6 false ∷ []

abbrev pub classified_rows : List ClassifiedRow
classified_rows = rows_or_none (classify_rows nothing_known list_rows (8 ∷ []))

-- A store that knows a channel by its handle only.
abbrev eight : ChannelRow
eight = record { id = 8; username = some (codes "Durov"); kind = none }

abbrev known : Known
known = record nothing_known { channels = eight ∷ [] }

abbrev row_of_durov : ListRow
row_of_durov = record (row_of_7 4 5 false) { channel_id = none; username = some (codes "durov") }

abbrev mixed_rows : List ListRow
mixed_rows = row_of_7 1 5 false ∷ row_of_7 2 5 true ∷ row_of_7 3 6 false ∷ row_of_durov ∷ []

abbrev mixed_result : List ClassifiedRow
mixed_result = rows_or_none (classify_rows known mixed_rows (8 ∷ []))

mixed_classify : classify_rows known mixed_rows (8 ∷ []) ≡ ok mixed_result
unfolding classify_rows classify_from classify_row addressed load_content_index index_from
    find_message
mixed_classify = refl

classify_rows-Once_example :
    (map (λ r. r.row) mixed_result ≡ mixed_rows) × Once (eight ∷ []) (8 ∷ []) mixed_result []
classify_rows-Once_example =
    classify_rows-Once known mixed_rows (8 ∷ []) mixed_result mixed_classify

plan_segments_groups_example :
    AreDistinct (plan_segments classified_rows)
    × ((k : Key) → rows_of k (plan_segments classified_rows) ≡ select (belongs k) classified_rows)
plan_segments_groups_example = plan_segments_groups classified_rows

-- A first line with a quoted comment names the column, and is then passed over as a comment.
quoted_comment : parse_media_list (codes "\"#list\",uri\nt.me/c/7/5\n") ≡ value_error
unfolding parse_media_list is_csv split_lines strip read_csv read_records
quoted_comment = refl
