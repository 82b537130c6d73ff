-- ===== src/Tests/Media.antt =====
-- The media phase, its sink and its keys at concrete inputs.
use paperboy.Base.{◌≡◌, refl, true, false, Option, none, some, [], ◌∷◌, length, select}
use paperboy.Base.Text.{Text, codes, text_eq}
use paperboy.Base.Assoc.{get}
use paperboy.Media.Keys.{is_media_key, is_valid_ext, media_key, key_sha256}
use paperboy.Media.Keys.RoundTrip.{key_sha256-media_key}
use paperboy.Media.Content.{
  document, kind_of, content_key, content_key_text, path_of, index_from, load_content_index,
  recorded_size, guess_ext,
}
use paperboy.Media.Sink.{
  Sink, works, delivered, transient, Attempt, message, Round, Transfer, complete, stream_one,
  open_sink, write, reset, write_all, stream, download, fetch_and_download, download_media,
}
use paperboy.Media.Sink.Streaming.{HasDeclaredSize, stream_one_holds}
use paperboy.Media.Sink.Hashed.{HoldsOneOf}
use paperboy.Media.Phase.State.{Row, Run, Turn, Work, goes_on}
use paperboy.Media.Store.{Network, exists, verify_existing, least_key, find_key, commit, stored_in}
use paperboy.Media.Phase.Place.{held, place}
use paperboy.Media.Phase.{
  take_rows, known_duplicate, same_bytes, skip_row, record_file, placed, place_at, unless_held,
  keep, after_stream, fetch_file, unless_known, by_content, take_file, take_kind, take_row,
}
use paperboy.Media.Phase.CreateOnly.{left_by, take_rows_create_only}
use paperboy.Media.Phase.Backed.{Sound}
use paperboy.Media.Phase.Custody.{take_rows-Sound}
use paperboy.Media.Phase.Progressed.{total}
use paperboy.Media.Phase.Select.{
  Options, Start, has_media, collect, collect_accounts, insert_row, order_by_msg_id, window_rows,
}
use paperboy.Tests.Inputs.{calm, plain_store}

abbrev sha : Text
sha = codes "0123456789abcdef0123456789abcdef0123456789abcdef0123456789abcdef"

abbrev text_or_empty : Option Text → Text
text_or_empty none = []
text_or_empty (some t) = t

abbrev jpg_key : Text
jpg_key = text_or_empty (media_key sha (codes ".jpg"))

jpg_key_made : media_key sha (codes ".jpg") ≡ some jpg_key
unfolding media_key is_valid_ext
jpg_key_made = refl

key_sha256-media_key_example : key_sha256 jpg_key ≡ some sha
key_sha256-media_key_example = key_sha256-media_key sha (codes ".jpg") jpg_key jpg_key_made

-- The first attempt breaks off after a byte, and the second delivers two.
abbrev broken : Attempt
broken = record { on_reset = works; chunks = (works, codes "x") ∷ []; ending = transient }

abbrev whole : Attempt
whole = record { on_reset = works; chunks = (works, codes "ab") ∷ []; ending = delivered true }

abbrev one_round : Round
one_round = record { fetched = message; attempts = broken ∷ whole ∷ [] }

abbrev transfer : Transfer
transfer = record { open_fails = false; first = one_round; second = one_round; close_fails = false }

abbrev two_bytes : Sink
two_bytes = record { file = some (codes "ab"); limit = some 2; hashed = codes "ab"; size = 2 }

two_bytes_arrive : stream_one transfer true document (some 2) ≡ complete two_bytes
unfolding open_sink write reset write_all stream download fetch_and_download download_media
    stream_one
two_bytes_arrive = refl

stream_one_holds_example :
    HoldsOneOf true (some 2) (broken ∷ whole ∷ broken ∷ whole ∷ []) two_bytes
    × HasDeclaredSize document (some 2) 2
stream_one_holds_example =
    stream_one_holds transfer true document (some 2) two_bytes two_bytes_arrive

abbrev photo_row : Row
photo_row = record {
  uri = codes "msg:telegram:7/5";
  channel_id = 7;
  msg_id = 5;
  media_kind = some (codes "MessageMediaPhoto");
  media = some (record {
    tag = codes "MessageMediaPhoto";
    photo = some (record { id = some 3; sizes = []; video_sizes = [] });
    document = none;
  });
  date = none;
  deleted_at = none;
  first_seen = 1;
}

abbrev run_7 : Run
run_7 = record {
  store = plain_store;
  is_local = true;
  sha256 = λ bytes. sha;
  guess = λ mime. none;
  channel_id = 7;
  max_bytes = none;
  floor_bytes = 0;
}

abbrev turn : Row → Turn
turn row = record { transfer = transfer; early = calm; network = calm; free_bytes = 100; now = 9 }

abbrev start_7 : Start
start_7 = record {
  messages = photo_row ∷ [];
  files = [];
  custody = [];
  receipts = [];
  objects = (codes "media/aa/other", codes "other") ∷ [];
  outcomes = [];
}

abbrev every_row : Options
every_row = record { since = none; msgs = none }

abbrev empty_work : Work
empty_work = record {
  files = [];
  custody = [];
  receipts = [];
  objects = (codes "media/aa/other", codes "other") ∷ [];
  counts = (left_by (collect run_7 every_row start_7 turn)).counts;
  outcomes = [];
  index = [];
}

take_rows_create_only_example :
    get text_eq
      (codes "media/aa/other")
      (left_by (take_rows run_7 turn (photo_row ∷ []) empty_work)).objects
    ≡ some (codes "other")
take_rows_create_only_example =
    take_rows_create_only run_7 turn (photo_row ∷ []) empty_work (codes "media/aa/other")
      (codes "other") refl

-- The profile folder replaces an object that another writer creates after the look for it.
abbrev raced : Network
raced = record calm { rival_late = some (codes "theirs") }

late_rival_is_replaced :
    get text_eq jpg_key (commit plain_store raced [] (codes "ours") jpg_key []).0
    ≡ some (codes "ours")
unfolding commit is_media_key key_sha256 media_key is_valid_ext
late_rival_is_replaced = refl

take_rows-Sound_example : Sound run_7 (left_by (take_rows run_7 turn (photo_row ∷ []) empty_work))
take_rows-Sound_example =
    take_rows-Sound run_7 turn (photo_row ∷ []) empty_work (record { sightings = tt; known = tt })

abbrev after_7 : Work
after_7 = left_by (collect run_7 every_row start_7 turn)

photo_collected : collect run_7 every_row start_7 turn ≡ goes_on after_7
unfolding insert_row order_by_msg_id window_rows collect held place known_duplicate same_bytes
    skip_row record_file placed place_at unless_held keep after_stream fetch_file unless_known
    by_content take_file take_kind take_row take_rows exists verify_existing least_key find_key
    commit stored_in kind_of content_key content_key_text path_of index_from load_content_index
    recorded_size guess_ext open_sink write reset write_all stream download fetch_and_download
    download_media stream_one media_key is_valid_ext key_sha256 is_media_key
photo_collected = refl

collect_accounts_example : total after_7.counts ≡ length (select (has_media 7) start_7.messages)
collect_accounts_example = collect_accounts run_7 every_row start_7 turn after_7 photo_collected
