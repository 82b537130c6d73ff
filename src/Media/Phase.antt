-- ===== src/Media/Phase.antt =====
-- collectors/media.py: the `media` phase of a live run, from the selected rows on.
pub mod State
pub mod Place
pub mod Kept
pub mod CreateOnly
pub mod Backed
pub mod Placed
pub mod Grown
pub mod Custody
pub mod Progressed
pub mod Accounting
pub mod Select
use paperboy.Base.{
  ℕ, suc, ◌+◌, ◌*◌, Bool, true, false, not, ◌&&◌, ◌||◌, Option, none, some, List, [], ◌∷◌, ◌++◌,
  ltb, leb, ◌==◌, if◌then◌else◌,
}
use paperboy.Base.Text.{Text, codes, text_eq}
use paperboy.Base.Assoc.{get, set}
use paperboy.Media.Keys.{media_key}
use paperboy.Media.Content.{
  Media, no_media, Kind, photo, document, kind_name, kind_of, ContentKey, content_key,
  content_key_text, content_key_eq, FileRow, Sighting, path_of, Index, load_content_index,
  recorded_size, document_attrs, guess_ext,
}
use paperboy.Media.Sink.{
  Sink, Stop, phase_stop, Transfer, Streamed, skipped, unavailable, size_mismatch, complete,
  sink_failed, raised, stream_one,
}
use paperboy.Media.Phase.Place.{held, place}
use paperboy.Media.Phase.State.{
  Row, Receipt, Outcome, downloaded, duplicate, too_large, size_mismatched, not_available,
  skipped_row, Counts, Work, Run, Turn, Why, disk_floor, sink_stop, store_stop, bad_key,
  gateway_stop, Step, goes_on, ends, note, record_custody, remember, count_duplicate, count_skipped,
  count_downloaded, attrs, receipt, add_receipt, add_file,
}
use paperboy.Media.Store.{
  Objects, Store, Network, Result, ok, unreachable, integrity, value_error, ◌>>=◌, ◌>>◌, exists,
  verify_existing, find_key, commit, stored_in,
}

module _ (r : Run) (t : Turn) (row : Row) (m : Media) (kind : Kind) where
  -- A file that this store already has: by its content key, before the download ...
  unfoldable pub known_duplicate : ContentKey → Text × Text → Work → Step
  known_duplicate key (sha, path) w = goes_on (
      note row.uri duplicate
        (count_duplicate (record_custody r path sha row.uri row.first_seen (some key) w)))

  -- ... or by its sha, after it. The bytes were fetched, so there is a receipt.
  unfoldable pub same_bytes : Sink → Text → Work → Step
  same_bytes s path w =
      let sha = r.sha256 s.hashed in
      let key = content_key m in
      goes_on (
        remember key (sha, path)
          (note row.uri duplicate (
            count_duplicate (
              add_receipt (receipt r row kind m sha s.size path row.first_seen)
                (record_custody r path sha row.uri row.first_seen key w)))))

  unfoldable pub skip_row : Work → Step
  skip_row w = goes_on (note row.uri skipped_row (count_skipped w))

  -- The rows of a stored file. One that another writer stored first counts as a duplicate.
  unfoldable pub record_file : Sink → Option Text → Text → Bool → Work → Step
  record_file s existing loc lost w =
      let sha = r.sha256 s.hashed in
      let key = content_key m in
      let recorded = add_receipt (receipt r row kind m sha s.size loc t.now) (
        record_custody r loc sha row.uri t.now key
          (add_file existing row kind m sha s.size loc t.now w)) in
      goes_on (
        remember key (sha, loc)
          (if lost
            then note row.uri duplicate (count_duplicate recorded)
            else note row.uri downloaded (count_downloaded recorded)))

  unfoldable pub placed : Sink → Option Text → Work → Objects × Result (Text × Bool) → Step
  unfolding record_file skip_row
  placed s existing w (objects, ok (loc, lost)) =
      record_file s existing loc lost (record w { objects = objects })
  placed s existing w (objects, integrity) = skip_row (record w { objects = objects })
  placed s existing w (objects, unreachable) = ends store_stop (record w { objects = objects })
  placed s existing w (objects, value_error) = ends bad_key (record w { objects = objects })

  -- `none` is the `ValueError` of `media_key`.
  unfoldable pub place_at : Sink → Option Text → Work → Option Text → Step
  unfolding placed
  place_at s existing w none = ends bad_key w
  place_at s existing w (some loc) = placed s existing w (
      place r.store t.network w.objects s.hashed (r.sha256 s.hashed) loc (r.store.crc32c s.hashed)
        (elim existing [ none ↦ true | some path ↦ false ]))

  abbrev pub location : Sink → Option Text → Option Text
  location s (some path) = some path
  location s none =
      media_key (r.sha256 s.hashed) (guess_ext r.guess kind (attrs kind m).0 (attrs kind m).1)

  unfoldable pub unless_held : Sink → Text → Work → Result Bool → Step
  unfolding same_bytes place_at skip_row
  unless_held s path w (ok true) = same_bytes s path w
  unless_held s path w (ok false) = place_at s (some path) w (some path)
  unless_held s path w integrity = skip_row w
  unless_held s path w unreachable = ends store_stop w
  unless_held s path w value_error = ends bad_key w

  -- A complete file.
  unfoldable pub keep : Sink → Work → Option Text → Step
  unfolding unless_held place_at
  keep s w none = place_at s none w (location s none)
  keep s w (some path) =
      unless_held s path w
        (held r t.network w (r.sha256 s.hashed) path (some (r.store.crc32c s.hashed)))

  unfoldable pub after_stream : Work → Streamed → Step
  unfolding keep skip_row
  after_stream w skipped = skip_row w
  after_stream w unavailable = goes_on (
      note row.uri not_available
        (record w { counts = record (w.counts) { unavailable = suc w.counts.unavailable } }))
  after_stream w size_mismatch = goes_on (
      note row.uri size_mismatched
        (record w { counts = record (w.counts) { size_mismatch = suc w.counts.size_mismatch } }))
  after_stream w (complete s) = keep s w (path_of (r.sha256 s.hashed) w.files)
  after_stream w sink_failed = ends sink_stop w
  after_stream w (raised why) = ends (gateway_stop why) w

  abbrev size_or_zero : Option ℕ → ℕ
  size_or_zero none = 0
  size_or_zero (some n) = n

  abbrev over_cap : Option ℕ → Option ℕ → Bool
  over_cap (some cap) (some n) = ltb cap n
  over_cap (some cap) none = false
  over_cap none size = false

  -- `free - (size or 0) < floor`, if there is a floor.
  abbrev below_floor : Option ℕ → Bool
  below_floor size =
      not (r.floor_bytes == 0) && ltb t.free_bytes (r.floor_bytes + size_or_zero size)

  -- From the size on.
  unfoldable pub fetch_file : Work → Step
  unfolding after_stream
  fetch_file w =
      let size = recorded_size m in
      if over_cap r.max_bytes size
      then goes_on (
          note row.uri too_large
            (record w { counts = record (w.counts) { too_large = suc w.counts.too_large } }))
      else if below_floor size
      then ends disk_floor w
      else after_stream w (stream_one t.transfer true kind size)

  unfoldable pub unless_known : ContentKey → Text × Text → Work → Result Bool → Step
  unfolding known_duplicate fetch_file
  unless_known key file w (ok true) = known_duplicate key file w
  unless_known key file w (ok false) = fetch_file w
  unless_known key file w value_error = ends bad_key w
  unless_known key file w unreachable = ends store_stop w
  unless_known key file w integrity = ends store_stop w

  abbrev pub indexed : Option ContentKey → Index → Option (ContentKey × (Text × Text))
  indexed none index = none
  indexed (some k) index = elim (get content_key_eq k index) [ none ↦ none | some f ↦ some (k, f) ]

  -- A content that the index knows may be in this store already.
  unfoldable pub by_content : Work → Option (ContentKey × (Text × Text)) → Step
  unfolding unless_known fetch_file
  by_content w none = fetch_file w
  by_content w (some (key, (sha, path))) =
      unless_known key (sha, path) w (held r t.early w sha path none)

  -- One downloadable row.
  unfoldable pub take_file : Work → Step
  unfolding by_content
  take_file w = by_content w (indexed (content_key m) w.index)

abbrev pub media_of : Option Media → Media
media_of none = no_media
media_of (some m) = m

-- One turn of the loop.
unfoldable pub take_kind : Run → Turn → Row → Option Kind → Work → Step
unfolding take_file
take_kind r t row none w = goes_on (
    note row.uri skipped_row
      (record w { counts = record (w.counts) { skipped_kind = suc w.counts.skipped_kind } }))
take_kind r t row (some kind) w = take_file r t row (media_of row.media) kind w

unfoldable pub take_row : Run → Turn → Row → Work → Step
unfolding take_kind
take_row r t row w = take_kind r t row (kind_of row.media_kind) w

-- The rows in their order, up to the first that ends the phase.
unfoldable pub take_rows : Run → (Row → Turn) → List Row → Work → Step
take_rows r turn [] w = goes_on w
take_rows r turn (row ∷ rows) w = elim (take_row r (turn row) row w) [
  | ends why w' ↦ ends why w'
  | goes_on w' ↦ take_rows r turn rows w'
]
