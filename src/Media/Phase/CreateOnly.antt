-- ===== src/Media/Phase/CreateOnly.antt =====
-- The store's objects are only added to.
use paperboy.Base.{
  ◌≡◌, refl, sym, suc, Bool, true, false, Option, none, some, List, [], ◌∷◌, if◌then◌else◌,
}
use paperboy.Base.Text.{Text, text_eq}
use paperboy.Base.Assoc.{get}
use mathlib.Core.Path.{subst}
use paperboy.Media.Content.{kind_of, content_key, recorded_size, ContentKey, Kind, Media}
use paperboy.Media.Sink.{
  stream_one, Sink, Streamed, skipped, unavailable, size_mismatch, complete, sink_failed, raised,
}
use paperboy.Media.Store.{Objects, Result, ok, unreachable, integrity, value_error}
use paperboy.Media.Phase.State.{
  remember, note, too_large, disk_floor, Row, Work, Run, Turn, Step, goes_on, ends,
}
use paperboy.Media.Phase.{
  same_bytes, skip_row, known_duplicate, media_of, record_file, placed, place_at, unless_held, keep,
  after_stream, fetch_file, unless_known, by_content, take_file, take_kind, take_row, take_rows,
}
use paperboy.Media.Phase.Kept.{Keeps, Keeps-place}

-- The work that a step leaves, whether it goes on or ends.
abbrev pub left_by : Step → Work
left_by (goes_on w) = w
left_by (ends why w) = w

objects-remember :
    (key : Option ContentKey) (file : Text × Text) (w : Work)
    → (remember key file w).objects ≡ w.objects
objects-remember none file w = refl
objects-remember (some k) file w = refl

module _ (r : Run) (t : Turn) (row : Row) (m : Media) (kind : Kind) where
  objects-record_file :
      (s : Sink) (existing : Option Text) (loc : Text) (lost : Bool) (w : Work)
      → (left_by (record_file r t row m kind s existing loc lost w)).objects ≡ w.objects
  unfolding record_file
  objects-record_file s none loc true w = objects-remember (content_key m) _ _
  objects-record_file s none loc false w = objects-remember (content_key m) _ _
  objects-record_file s (some path) loc true w = objects-remember (content_key m) _ _
  objects-record_file s (some path) loc false w = objects-remember (content_key m) _ _

  Keeps-placed :
      (s : Sink) (existing : Option Text) (w : Work) (p : Objects × Result (Text × Bool))
      → Keeps w.objects p.0
      → Keeps w.objects (left_by (placed r t row m kind s existing w p)).objects
  unfolding placed skip_row
  Keeps-placed s existing w (o, ok (loc, lost)) h =
      subst (Keeps w.objects)
        (sym (objects-record_file s existing loc lost (record w { objects = o }))) h
  Keeps-placed s existing w (o, integrity) h = h
  Keeps-placed s existing w (o, unreachable) h = h
  Keeps-placed s existing w (o, value_error) h = h

  Keeps-place_at :
      (s : Sink) (existing : Option Text) (w : Work) (loc : Option Text)
      → Keeps w.objects (left_by (place_at r t row m kind s existing w loc)).objects
  unfolding place_at
  Keeps-place_at s existing w none = λ j b e. e
  Keeps-place_at s existing w (some loc) = Keeps-placed s existing w _ (
      Keeps-place r.store t.network w.objects s.hashed loc (r.store.crc32c s.hashed)
        (r.sha256 s.hashed) _)

  Keeps-same_bytes :
      (s : Sink) (path : Text) (w : Work)
      → Keeps w.objects (left_by (same_bytes r t row m kind s path w)).objects
  unfolding same_bytes
  Keeps-same_bytes s path w =
      subst (Keeps w.objects) (sym (objects-remember (content_key m) _ _)) (λ j b e. e)

  Keeps-unless_held :
      (s : Sink) (path : Text) (w : Work) (b : Result Bool)
      → Keeps w.objects (left_by (unless_held r t row m kind s path w b)).objects
  unfolding unless_held skip_row
  Keeps-unless_held s path w (ok true) = Keeps-same_bytes s path w
  Keeps-unless_held s path w (ok false) = Keeps-place_at s (some path) w (some path)
  Keeps-unless_held s path w unreachable = λ j b e. e
  Keeps-unless_held s path w integrity = λ j b e. e
  Keeps-unless_held s path w value_error = λ j b e. e

  Keeps-keep :
      (s : Sink) (w : Work) (existing : Option Text)
      → Keeps w.objects (left_by (keep r t row m kind s w existing)).objects
  unfolding keep
  Keeps-keep s w none = Keeps-place_at s none w _
  Keeps-keep s w (some path) = Keeps-unless_held s path w _

  Keeps-after_stream :
      (w : Work) (d : Streamed)
      → Keeps w.objects (left_by (after_stream r t row m kind w d)).objects
  unfolding after_stream skip_row
  Keeps-after_stream w skipped = λ j b e. e
  Keeps-after_stream w unavailable = λ j b e. e
  Keeps-after_stream w size_mismatch = λ j b e. e
  Keeps-after_stream w (complete s) = Keeps-keep s w _
  Keeps-after_stream w sink_failed = λ j b e. e
  Keeps-after_stream w (raised why) = λ j b e. e

  Keeps-fetch_file : (w : Work) → Keeps w.objects (left_by (fetch_file r t row m kind w)).objects
  unfolding fetch_file
  Keeps-fetch_file w = by_tests _ _
    where
      by_tests :
          (big low : Bool)
          → Keeps w.objects
              (left_by (
                if big
                then goes_on (
                    note row.uri too_large (record w {
                      counts = record (w.counts) { too_large = suc w.counts.too_large };
                    }))
                else if low
                then ends disk_floor w
                else after_stream r t row m kind w
                    (stream_one t.transfer true kind (recorded_size m)))).objects
      by_tests true low = λ j b e. e
      by_tests false true = λ j b e. e
      by_tests false false =
          Keeps-after_stream w (stream_one t.transfer true kind (recorded_size m))

  Keeps-unless_known :
      (key : ContentKey) (file : Text × Text) (w : Work) (b : Result Bool)
      → Keeps w.objects (left_by (unless_known r t row m kind key file w b)).objects
  unfolding unless_known known_duplicate
  Keeps-unless_known key (sha, path) w (ok true) = λ j b e. e
  Keeps-unless_known key file w (ok false) = Keeps-fetch_file w
  Keeps-unless_known key file w unreachable = λ j b e. e
  Keeps-unless_known key file w integrity = λ j b e. e
  Keeps-unless_known key file w value_error = λ j b e. e

  Keeps-by_content :
      (w : Work) (found : Option (ContentKey × (Text × Text)))
      → Keeps w.objects (left_by (by_content r t row m kind w found)).objects
  unfolding by_content
  Keeps-by_content w none = Keeps-fetch_file w
  Keeps-by_content w (some (key, (sha, path))) = Keeps-unless_known key (sha, path) w _

Keeps-take_kind :
    (r : Run) (t : Turn) (row : Row) (kind : Option Kind) (w : Work)
    → Keeps w.objects (left_by (take_kind r t row kind w)).objects
unfolding take_kind take_file
Keeps-take_kind r t row none w = λ j b e. e
Keeps-take_kind r t row (some kind) w = Keeps-by_content r t row (media_of row.media) kind w _

Keeps-take_row :
    (r : Run) (t : Turn) (row : Row) (w : Work)
    → Keeps w.objects (left_by (take_row r t row w)).objects
unfolding take_row
Keeps-take_row r t row w = Keeps-take_kind r t row (kind_of row.media_kind) w

-- The phase neither replaces nor removes an object that the store holds before it: whatever rows it
-- works on, wherever it ends, and whatever the network does and other writers create under the keys
-- that it commits, each object that is there at its start keeps its bytes. (An object that another
-- writer creates meanwhile is no such object: the profile folder may replace it.)
pub take_rows_create_only :
    (r : Run) (turn : Row → Turn) (rows : List Row) (w : Work) (key bytes : Text)
    → get text_eq key w.objects ≡ some bytes
    → get text_eq key (left_by (take_rows r turn rows w)).objects ≡ some bytes
unfolding take_rows
take_rows_create_only r turn [] w key bytes e = e
take_rows_create_only r turn (row ∷ rows) w key bytes e =
    (elim (take_row r (turn row) row w)
        as (λ p.
          get text_eq key (left_by p).objects ≡ some bytes
          → get text_eq key
              (left_by (elim p [
                | ends why w' ↦ ends why w'
                | goes_on w' ↦ take_rows r turn rows w'
              ])).objects
            ≡ some bytes) [
              | ends why w' ↦ λ h. h
              | goes_on w' ↦ λ h. take_rows_create_only r turn rows w' key bytes h
            ])
      (Keeps-take_row r (turn row) row w key bytes e)
