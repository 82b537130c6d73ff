-- ===== src/Media/Phase/Accounting.antt =====
-- Each row is counted, noted, and sighted where it has a file.
use paperboy.Base.{
  ℕ, suc, ◌+◌, ◌≡◌, Bool, true, false, Option, none, some, List, [], ◌∷◌, arith, if◌then◌else◌, All,
  ◌<◌, length, length-append,
}
use paperboy.Base.Text.{Text, text_eq}
use paperboy.Base.Assoc.{set}
use paperboy.Media.Content.{ContentKey, content_key, Kind, kind_of, Media, Sighting, recorded_size}
use paperboy.Media.Sink.{
  Sink, stream_one, Streamed, skipped, unavailable, size_mismatch, complete, sink_failed, raised,
}
use paperboy.Media.Store.{Objects, Result, ok, unreachable, integrity, value_error}
use paperboy.Media.Phase.State.{
  downloaded, duplicate, size_mismatched, not_available, skipped_row, Row, Work, Run, Turn, Step,
  goes_on, ends, note, too_large, disk_floor, record_custody, Outcome, Counts,
}
use paperboy.Media.Phase.{
  known_duplicate, same_bytes, skip_row, record_file, placed, place_at, unless_held, keep,
  after_stream, fetch_file, unless_known, by_content, take_file, media_of, take_kind, take_row,
  take_rows,
}
use paperboy.Media.Phase.Progressed.{
  total, is_noted, is_noted-set_self, is_noted-set, Progress, Progresses, Progresses-refl,
  Progresses-next, Advances, Advances-remember,
}

module _ (r : Run) (t : Turn) (row : Row) (m : Media) (kind : Kind) where
  abbrev Ok : Work → Step → Type 0
  Ok w p = Advances row.uri w p

  -- A row that is counted once, noted, and sighted if it counts as a file.
  advance :
      (w : Work) (counts : Counts) (custody : List Sighting) (o : Outcome)
      → total counts ≡ total w.counts + 1
      → length custody + w.counts.downloaded + w.counts.duplicates
        ≡ length w.custody + counts.downloaded + counts.duplicates
      → Progress 1 w.counts w.custody w.outcomes counts custody (set text_eq row.uri o w.outcomes)
        × (is_noted row.uri (set text_eq row.uri o w.outcomes) ≡ true)
  advance w counts custody o c s = (
    record { counted = c; sighted = s; noted = λ u h. is_noted-set u row.uri o w.outcomes h },
    is_noted-set_self row.uri o w.outcomes,
  )

  -- One more sighting and one more file.
  sighting :
      (w : Work) (path sha : Text) (at : ℕ) (key : Option ContentKey)
      → length (record_custody r path sha row.uri at key w).custody ≡ length w.custody + 1
  sighting w path sha at key = omega (arith, length-append w.custody _)

  Ok-record_file :
      (s : Sink) (existing : Option Text) (loc : Text) (lost : Bool) (w : Work)
      → Ok w (record_file r t row m kind s existing loc lost w)
  unfolding record_file
  Ok-record_file s none loc true w = Advances-remember row.uri w _ (content_key m) _ (
      advance w _ _ duplicate (omega arith)
        (omega (arith, sighting w loc (r.sha256 s.hashed) t.now (content_key m))))
  Ok-record_file s none loc false w = Advances-remember row.uri w _ (content_key m) _ (
      advance w _ _ downloaded (omega arith)
        (omega (arith, sighting w loc (r.sha256 s.hashed) t.now (content_key m))))
  Ok-record_file s (some path) loc true w = Advances-remember row.uri w _ (content_key m) _ (
      advance w _ _ duplicate (omega arith)
        (omega (arith, sighting w loc (r.sha256 s.hashed) t.now (content_key m))))
  Ok-record_file s (some path) loc false w = Advances-remember row.uri w _ (content_key m) _ (
      advance w _ _ downloaded (omega arith)
        (omega (arith, sighting w loc (r.sha256 s.hashed) t.now (content_key m))))

  Ok-skip_row : (w : Work) → Ok w (skip_row r t row m kind w)
  unfolding skip_row
  Ok-skip_row w = advance w _ _ skipped_row (omega arith) (omega arith)

  Ok-placed :
      (s : Sink) (existing : Option Text) (w : Work) (p : Objects × Result (Text × Bool))
      → Ok w (placed r t row m kind s existing w p)
  unfolding placed
  Ok-placed s existing w (o, ok (loc, lost)) =
      Ok-record_file s existing loc lost (record w { objects = o })
  Ok-placed s existing w (o, integrity) = Ok-skip_row (record w { objects = o })
  Ok-placed s existing w (o, unreachable) = Progresses-refl w
  Ok-placed s existing w (o, value_error) = Progresses-refl w

  Ok-place_at :
      (s : Sink) (existing : Option Text) (w : Work) (loc : Option Text)
      → Ok w (place_at r t row m kind s existing w loc)
  unfolding place_at
  Ok-place_at s existing w none = Progresses-refl w
  Ok-place_at s existing w (some loc) = Ok-placed s existing w _

  Ok-unless_held :
      (s : Sink) (path : Text) (w : Work) (v : Result Bool)
      → Ok w (unless_held r t row m kind s path w v)
  unfolding unless_held same_bytes
  Ok-unless_held s path w (ok true) = Advances-remember row.uri w _ (content_key m) _ (
      advance w _ _ duplicate (omega arith)
        (omega (arith, sighting w path (r.sha256 s.hashed) row.first_seen (content_key m))))
  Ok-unless_held s path w (ok false) = Ok-place_at s (some path) w (some path)
  Ok-unless_held s path w integrity = Ok-skip_row w
  Ok-unless_held s path w unreachable = Progresses-refl w
  Ok-unless_held s path w value_error = Progresses-refl w

  Ok-keep : (s : Sink) (w : Work) (existing : Option Text) → Ok w (keep r t row m kind s w existing)
  unfolding keep
  Ok-keep s w none = Ok-place_at s none w _
  Ok-keep s w (some path) = Ok-unless_held s path w _

  Ok-after_stream : (w : Work) (d : Streamed) → Ok w (after_stream r t row m kind w d)
  unfolding after_stream
  Ok-after_stream w skipped = Ok-skip_row w
  Ok-after_stream w unavailable = advance w _ _ not_available (omega arith) (omega arith)
  Ok-after_stream w size_mismatch = advance w _ _ size_mismatched (omega arith) (omega arith)
  Ok-after_stream w (complete s) = Ok-keep s w _
  Ok-after_stream w sink_failed = Progresses-refl w
  Ok-after_stream w (raised why) = Progresses-refl w

  Ok-fetch_file : (w : Work) → Ok w (fetch_file r t row m kind w)
  unfolding fetch_file
  Ok-fetch_file w = by_tests _ _
    where
      by_tests :
          (big low : Bool)
          → Ok w (
              if big
              then goes_on (
                  note row.uri too_large (record w {
                    counts = record (w.counts) { too_large = suc w.counts.too_large };
                  }))
              else if low
              then ends disk_floor w
              else after_stream r t row m kind w
                  (stream_one t.transfer true kind (recorded_size m)))
      by_tests true low = advance w _ _ too_large (omega arith) (omega arith)
      by_tests false true = Progresses-refl w
      by_tests false false = Ok-after_stream w (stream_one t.transfer true kind (recorded_size m))

  Ok-unless_known :
      (key : ContentKey) (file : Text × Text) (w : Work) (v : Result Bool)
      → Ok w (unless_known r t row m kind key file w v)
  unfolding unless_known known_duplicate
  Ok-unless_known key (sha, path) w (ok true) =
      advance w _ _ duplicate (omega arith)
        (omega (arith, sighting w path sha row.first_seen (some key)))
  Ok-unless_known key file w (ok false) = Ok-fetch_file w
  Ok-unless_known key file w unreachable = Progresses-refl w
  Ok-unless_known key file w integrity = Progresses-refl w
  Ok-unless_known key file w value_error = Progresses-refl w

  Ok-by_content :
      (w : Work) (found : Option (ContentKey × (Text × Text)))
      → Ok w (by_content r t row m kind w found)
  unfolding by_content
  Ok-by_content w none = Ok-fetch_file w
  Ok-by_content w (some (key, (sha, path))) = Ok-unless_known key (sha, path) w _

Ok-take_kind :
    (r : Run) (t : Turn) (row : Row) (kind : Option Kind) (w : Work)
    → Advances row.uri w (take_kind r t row kind w)
unfolding take_kind take_file
Ok-take_kind r t row none w = (
  record {
    counted = omega arith;
    sighted = omega arith;
    noted = λ u h. is_noted-set u row.uri _ w.outcomes h;
  },
  is_noted-set_self row.uri _ w.outcomes,
)
Ok-take_kind r t row (some kind) w = Ok-by_content r t row (media_of row.media) kind w _

-- The rows that were walked before the phase went on or ended.
abbrev pub Walked : List Row → Work → Step → Type 0
Walked rows w (goes_on w') =
    Progresses (length rows) w w' × All (λ row. is_noted row.uri w'.outcomes ≡ true) rows
Walked rows w (ends why w') = (n : ℕ) × (n < length rows) × Progresses n w w'

Walked-more :
    (row : Row) (rows : List Row) (w v : Work)
    → Advances row.uri w (goes_on v)
    → (p : Step) → Walked rows v p
    → Walked (row ∷ rows) w p
Walked-more row rows w v h (goes_on u) k =
    (Progresses-next (length rows) w v u h.0 k.0, (k.0.noted row.uri h.1, k.1))
Walked-more row rows w v h (ends why u) (n, below, k) =
    (suc n, omega arith, Progresses-next n w v u h.0 k)

-- A phase that goes on to its end counts each row exactly once, and every row has an outcome. One
-- that ends before counted the rows before the row that it ended on. Either way the sightings that
-- were added are as many as the files counted as downloaded or duplicate.
pub take_rows-Walked :
    (r : Run) (turn : Row → Turn) (rows : List Row) (w : Work)
    → Walked rows w (take_rows r turn rows w)
unfolding take_rows take_row
take_rows-Walked r turn [] w = (Progresses-refl w, tt)
take_rows-Walked r turn (row ∷ rows) w =
    (elim (take_kind r (turn row) row (kind_of row.media_kind) w)
        as (λ p.
          Advances row.uri w p
          → Walked (row ∷ rows) w
              (elim p [ ends why w' ↦ ends why w' | goes_on w' ↦ take_rows r turn rows w' ])) [
                | ends why w' ↦ λ h. (0, omega arith, h)
                | goes_on w' ↦ λ h.
                    Walked-more row rows w w' h (take_rows r turn rows w')
                      (take_rows-Walked r turn rows w')
              ])
      (Ok-take_kind r (turn row) row (kind_of row.media_kind) w)
