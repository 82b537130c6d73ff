-- ===== src/Media/Phase/Custody.antt =====
-- Every recorded sighting has its file.
use paperboy.Base.{
  suc, ◌≡◌, ◌∙◌, refl, sym, ap, Bool, true, false, Option, none, some, List, [], ◌∷◌, ◌++◌,
  if◌then◌else◌,
}
use paperboy.Base.Text.{Text}
use paperboy.Base.Assoc.{get, All-get}
use paperboy.Media.Content.{
  ContentKey, content_key_eq, content_key, Kind, kind_name, kind_of, Media, FileRow, path_of,
  recorded_size,
}
use paperboy.Media.Sink.{
  Sink, stream_one, Streamed, skipped, unavailable, size_mismatch, complete, sink_failed, raised,
}
use paperboy.Media.Store.{Objects, Result, ok, unreachable, integrity, value_error}
use paperboy.Media.Phase.State.{
  Row, Work, Run, Turn, Step, goes_on, ends, note, too_large, disk_floor, add_file, attrs,
}
use paperboy.Media.Phase.Place.{held, place}
use paperboy.Media.Phase.CreateOnly.{left_by}
use paperboy.Media.Phase.Kept.{Keeps, Keeps-place}
use paperboy.Media.Phase.Backed.{Holds, Sound, held_early, held_late}
use paperboy.Media.Phase.Placed.{Placed, Placed-place, PlacedAt, PlacedAt-place}
use paperboy.Media.Phase.{
  known_duplicate, same_bytes, skip_row, record_file, placed, place_at, unless_held, keep,
  after_stream, fetch_file, unless_known, indexed, by_content, take_file, media_of, take_kind,
  take_row, take_rows,
}
use paperboy.Media.Phase.Grown.{
  FilesGrow-append, path_of-new, Sound-grow, Sound-objects, Sound-record_custody, Sound-remember,
}

-- What is known of the file's row before it is recorded at a key.
abbrev Fits : List FileRow → Text → Option Text → Objects × Result (Text × Bool) → Type 0
Fits files sha none p = path_of sha files ≡ none
Fits files sha (some path) p = (path_of sha files ≡ some path) × PlacedAt path p

module _ (r : Run) (t : Turn) (row : Row) (m : Media) (kind : Kind) where
  -- The step's work is sound.
  abbrev Ok : Step → Type 0
  Ok p = Sound r (left_by p)

  -- The file's row and its sighting, however it is counted.
  Sound-recorded :
      (s : Sink) (existing : Option Text) (loc : Text) (w : Work)
      → Fits w.files (r.sha256 s.hashed) existing (w.objects, ok (loc, true))
      → Holds r w.objects loc (r.sha256 s.hashed)
      → Sound r w
      → let w' = add_file existing row kind m (r.sha256 s.hashed) s.size loc t.now w in
        Sound r w' × (path_of (r.sha256 s.hashed) w'.files ≡ some loc)
  Sound-recorded s none loc w e b h = (
    Sound-grow r w.files (w.files ++ f ∷ []) w.custody w.objects w.objects w.index
        (FilesGrow-append w.files (f ∷ [])) (λ k v g. g) h,
    path_of-new w.files f e,
  )
    where
      f : FileRow
      f = record {
        sha256 = r.sha256 s.hashed;
        message_uri = row.uri;
        kind = kind_name kind;
        mime_type = (attrs kind m).0;
        size = s.size;
        file_name = (attrs kind m).1;
        path = loc;
        downloaded_at = t.now;
      }
  Sound-recorded s (some path) loc w e b h = (h, e.0 ∙ ap some (sym e.1))

  Ok-record_file :
      (s : Sink) (existing : Option Text) (loc : Text) (lost : Bool) (w : Work)
      → Fits w.files (r.sha256 s.hashed) existing (w.objects, ok (loc, true))
      → Holds r w.objects loc (r.sha256 s.hashed)
      → Sound r w
      → Ok (record_file r t row m kind s existing loc lost w)
  unfolding record_file
  Ok-record_file s none loc true w e b h =
      let (v, at_key) = Sound-recorded s none loc w e b h in
      Sound-remember r (content_key m) (r.sha256 s.hashed) loc _ at_key (
        Sound-record_custody r loc (r.sha256 s.hashed) row.uri t.now (content_key m)
          (add_file none row kind m (r.sha256 s.hashed) s.size loc t.now w) at_key b v)
  Ok-record_file s none loc false w e b h =
      let (v, at_key) = Sound-recorded s none loc w e b h in
      Sound-remember r (content_key m) (r.sha256 s.hashed) loc _ at_key (
        Sound-record_custody r loc (r.sha256 s.hashed) row.uri t.now (content_key m)
          (add_file none row kind m (r.sha256 s.hashed) s.size loc t.now w) at_key b v)
  Ok-record_file s (some path) loc true w e b h =
      let (v, at_key) = Sound-recorded s (some path) loc w e b h in
      Sound-remember r (content_key m) (r.sha256 s.hashed) loc _ at_key
        (Sound-record_custody r loc (r.sha256 s.hashed) row.uri t.now (content_key m) w at_key b v)
  Ok-record_file s (some path) loc false w e b h =
      let (v, at_key) = Sound-recorded s (some path) loc w e b h in
      Sound-remember r (content_key m) (r.sha256 s.hashed) loc _ at_key
        (Sound-record_custody r loc (r.sha256 s.hashed) row.uri t.now (content_key m) w at_key b v)

  Ok-placed :
      (s : Sink) (existing : Option Text) (w : Work) (p : Objects × Result (Text × Bool))
      → Keeps w.objects p.0
      → Placed r (r.sha256 s.hashed) p
      → Fits w.files (r.sha256 s.hashed) existing p
      → Sound r w
      → Ok (placed r t row m kind s existing w p)
  unfolding placed skip_row
  Ok-placed s none w (o, ok (loc, lost)) k b f h =
      Ok-record_file s none loc lost (record w { objects = o }) f b (Sound-objects r w o k h)
  Ok-placed s (some path) w (o, ok (loc, lost)) k b f h =
      Ok-record_file s (some path) loc lost (record w { objects = o }) f b (Sound-objects r w o k h)
  Ok-placed s existing w (o, integrity) k b f h = Sound-objects r w o k h
  Ok-placed s existing w (o, unreachable) k b f h = Sound-objects r w o k h
  Ok-placed s existing w (o, value_error) k b f h = Sound-objects r w o k h

  Ok-new_file :
      (s : Sink) (w : Work) (loc : Option Text)
      → path_of (r.sha256 s.hashed) w.files ≡ none
      → Sound r w
      → Ok (place_at r t row m kind s none w loc)
  unfolding place_at
  Ok-new_file s w none e h = h
  Ok-new_file s w (some loc) e h =
      Ok-placed s none w
        (place r.store t.network w.objects s.hashed (r.sha256 s.hashed) loc
          (r.store.crc32c s.hashed) true)
        (Keeps-place r.store t.network w.objects s.hashed loc (r.store.crc32c s.hashed)
          (r.sha256 s.hashed) true)
        (Placed-place r t.network s.hashed w.objects loc true) e h

  Ok-known_file :
      (s : Sink) (w : Work) (path : Text)
      → path_of (r.sha256 s.hashed) w.files ≡ some path
      → Sound r w
      → Ok (place_at r t row m kind s (some path) w (some path))
  unfolding place_at
  Ok-known_file s w path e h =
      Ok-placed s (some path) w
        (place r.store t.network w.objects s.hashed (r.sha256 s.hashed) path
          (r.store.crc32c s.hashed) false)
        (Keeps-place r.store t.network w.objects s.hashed path (r.store.crc32c s.hashed)
          (r.sha256 s.hashed) false)
        (Placed-place r t.network s.hashed w.objects path false)
        (
          e,
          PlacedAt-place r.store t.network w.objects s.hashed (r.sha256 s.hashed) path
              (r.store.crc32c s.hashed),
        )
        h

  Ok-same_bytes :
      (s : Sink) (path : Text) (w : Work)
      → path_of (r.sha256 s.hashed) w.files ≡ some path
      → Holds r w.objects path (r.sha256 s.hashed)
      → Sound r w
      → Ok (same_bytes r t row m kind s path w)
  unfolding same_bytes
  Ok-same_bytes s path w e b h = Sound-remember r (content_key m) (r.sha256 s.hashed) path _ e (
      Sound-record_custody r path (r.sha256 s.hashed) row.uri row.first_seen (content_key m) w e b
        h)

  Ok-unless_held :
      (s : Sink) (path : Text) (w : Work) (v : Result Bool)
      → held r t.network w (r.sha256 s.hashed) path (some (r.store.crc32c s.hashed)) ≡ v
      → path_of (r.sha256 s.hashed) w.files ≡ some path
      → Sound r w
      → Ok (unless_held r t row m kind s path w v)
  unfolding unless_held skip_row
  Ok-unless_held s path w (ok true) v e h =
      Ok-same_bytes s path w e
        (held_late r t.network w (r.sha256 s.hashed) path s.hashed refl v h e) h
  Ok-unless_held s path w (ok false) v e h = Ok-known_file s w path e h
  Ok-unless_held s path w unreachable v e h = h
  Ok-unless_held s path w integrity v e h = h
  Ok-unless_held s path w value_error v e h = h

  Ok-keep :
      (s : Sink) (w : Work) (existing : Option Text)
      → path_of (r.sha256 s.hashed) w.files ≡ existing
      → Sound r w
      → Ok (keep r t row m kind s w existing)
  unfolding keep
  Ok-keep s w none e h = Ok-new_file s w _ e h
  Ok-keep s w (some path) e h = Ok-unless_held s path w _ refl e h

  Ok-after_stream : (w : Work) (d : Streamed) → Sound r w → Ok (after_stream r t row m kind w d)
  unfolding after_stream skip_row
  Ok-after_stream w skipped h = h
  Ok-after_stream w unavailable h = h
  Ok-after_stream w size_mismatch h = h
  Ok-after_stream w (complete s) h = Ok-keep s w (path_of (r.sha256 s.hashed) w.files) refl h
  Ok-after_stream w sink_failed h = h
  Ok-after_stream w (raised why) h = h

  Ok-fetch_file : (w : Work) → Sound r w → Ok (fetch_file r t row m kind w)
  unfolding fetch_file
  Ok-fetch_file w h = by_tests _ _
    where
      by_tests :
          (big low : Bool)
          → Ok (
              if big
              then goes_on (
                  note row.uri too_large (record w {
                    counts = record (w.counts) { too_large = suc w.counts.too_large };
                  }))
              else if low
              then ends disk_floor w
              else after_stream r t row m kind w
                  (stream_one t.transfer true kind (recorded_size m)))
      by_tests true low = h
      by_tests false true = h
      by_tests false false = Ok-after_stream w (stream_one t.transfer true kind (recorded_size m)) h

  Ok-unless_known :
      (key : ContentKey) (sha path : Text) (w : Work) (v : Result Bool)
      → held r t.early w sha path none ≡ v
      → path_of sha w.files ≡ some path
      → Sound r w
      → Ok (unless_known r t row m kind key (sha, path) w v)
  unfolding unless_known known_duplicate
  Ok-unless_known key sha path w (ok true) v e h =
      Sound-record_custody r path sha row.uri row.first_seen (some key) w e
        (held_early r t.early w sha path v h e) h
  Ok-unless_known key sha path w (ok false) v e h = Ok-fetch_file w h
  Ok-unless_known key sha path w unreachable v e h = h
  Ok-unless_known key sha path w integrity v e h = h
  Ok-unless_known key sha path w value_error v e h = h

  Ok-by_content :
      (w : Work) (key : Option ContentKey)
      → Sound r w
      → Ok (by_content r t row m kind w (indexed r t row m kind key w.index))
  unfolding by_content
  Ok-by_content w none h = Ok-fetch_file w h
  Ok-by_content w (some k) h =
      by_entry (get content_key_eq k w.index) (λ f e.
        All-get content_key_eq (λ v. path_of (v.0) w.files ≡ some (v.1)) k w.index h.known e)
    where
      by_entry :
          (found : Option (Text × Text))
          → ((f : Text × Text) → found ≡ some f → path_of (f.0) w.files ≡ some (f.1))
          → Ok (by_content r t row m kind w (elim found [ none ↦ none | some f ↦ some (k, f) ]))
      by_entry none e = Ok-fetch_file w h
      by_entry (some (sha, path)) e =
          Ok-unless_known k sha path w (held r t.early w sha path none) refl (e (sha, path) refl) h

Ok-take_kind :
    (r : Run) (t : Turn) (row : Row) (kind : Option Kind) (w : Work)
    → Sound r w
    → Sound r (left_by (take_kind r t row kind w))
unfolding take_kind take_file
Ok-take_kind r t row none w h = h
Ok-take_kind r t row (some kind) w h =
    Ok-by_content r t row (media_of row.media) kind w (content_key (media_of row.media)) h

-- If custody is sound before the phase, it is sound wherever the phase ends: each sighting names the
-- location of its file's row, and a sighting in this store has an object there, which in a store that
-- reports checksums has the checksum of bytes with the recorded sha. The index names locations of
-- rows.
pub take_rows-Sound :
    (r : Run) (turn : Row → Turn) (rows : List Row) (w : Work)
    → Sound r w
    → Sound r (left_by (take_rows r turn rows w))
unfolding take_rows take_row
take_rows-Sound r turn [] w h = h
take_rows-Sound r turn (row ∷ rows) w h =
    (elim (take_kind r (turn row) row (kind_of row.media_kind) w)
        as (λ p.
          Sound r (left_by p)
          → Sound r (
              left_by
                (elim p [ ends why w' ↦ ends why w' | goes_on w' ↦ take_rows r turn rows w' ]))) [
                  | ends why w' ↦ λ g. g
                  | goes_on w' ↦ λ g. take_rows-Sound r turn rows w' g
                ])
      (Ok-take_kind r (turn row) row (kind_of row.media_kind) w h)
