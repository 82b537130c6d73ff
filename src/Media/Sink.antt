-- ===== src/Media/Sink.antt =====
-- media_sink.py: the sink of a download, gateway.py, `download_media`, which streams into it, and
-- collectors/media.py, `_stream_one`, which judges what arrived.
pub mod Hashed
pub mod Streaming
use paperboy.Base.{
  ℕ, ◌+◌, Bool, true, false, not, Option, none, some, List, [], ◌∷◌, ◌++◌, ltb, ◌==◌, ◌&&◌,
  if◌then◌else◌, length, take,
}
use paperboy.Base.Text.{Text}
use paperboy.Media.Content.{Kind, photo, document}

-- `file` is the temporary file's content, or `none` if the sink only hashes. `hashed` is what both
-- hashers were given since they were made.
pub record Sink : Type 0 where
  pub file : Option Text
  pub limit : Option ℕ
  pub hashed : Text
  pub size : ℕ

-- What the disk makes of a request: an error comes after some of the bytes.
pub data Disk : Type 0 where
  works : Disk
  fails : ℕ → Disk

-- `MediaSizeExceeded(declared, received)`, and `MediaSinkWriteError`.
pub data SinkError : Type 0 where
  size_exceeded : ℕ → ℕ → SinkError
  write_error : SinkError

-- `MediaSink(path, limit=limit)`, of a path or of `None`.
unfoldable pub open_sink : Bool → Option ℕ → Sink
open_sink has_path limit = record {
  file = if has_path then some [] else none;
  limit = limit;
  hashed = [];
  size = 0;
}

abbrev pub exceeds : Option ℕ → ℕ → Bool
exceeds none received = false
exceeds (some declared) received = ltb declared received

abbrev pub declared_of : Option ℕ → ℕ
declared_of none = 0
declared_of (some n) = n

-- The file's content and the hashers', if the disk takes the chunk whole.
abbrev pub write_chunk : Option Text → Disk → Text → Sink → Sink × Option SinkError
write_chunk none disk chunk s =
    (record s { hashed = s.hashed ++ chunk; size = s.size + length chunk }, none)
write_chunk (some f) works chunk s = (
  record s { file = some (f ++ chunk); hashed = s.hashed ++ chunk; size = s.size + length chunk },
  none,
)
write_chunk (some f) (fails k) chunk s =
    (record s { file = some (f ++ take k chunk) }, some write_error)

unfoldable pub write : Disk → Text → Sink → Sink × Option SinkError
write disk chunk s =
    let received = s.size + length chunk in
    if exceeds s.limit received
    then (s, some (size_exceeded (declared_of s.limit) received))
    else write_chunk s.file disk chunk s

abbrev pub reset_file : Option Text → Disk → Sink → Sink × Option SinkError
reset_file none disk s = (record s { hashed = []; size = 0 }, none)
reset_file (some f) works s = (record s { file = some []; hashed = []; size = 0 }, none)
reset_file (some f) (fails k) s = (s, some write_error)

unfoldable pub reset : Disk → Sink → Sink × Option SinkError
reset disk s = reset_file s.file disk s

-- The next request, unless the last one raised.
abbrev pub and_then :
    Sink × Option SinkError → (Sink → Sink × Option SinkError) → Sink × Option SinkError
and_then (s, none) next = next s
and_then (s, some e) next = (s, some e)

-- One after the other, up to the first error.
unfoldable pub write_all : List (Disk × Text) → Sink → Sink × Option SinkError
unfolding write
write_all [] s = (s, none)
write_all ((disk, chunk) ∷ cs) s = and_then (write disk chunk s) (write_all cs)

-- The exceptions that the budget gate and the recipes act on, and any other.
pub data Stop : Type 0 where
  skip_and_record phase_stop hard_stop other_error : Stop

-- How the API library's download ends, once it has passed its chunks to the sink: with an object or
-- `None`, with an error that the gate retries, with an expired file reference, or as the gate says.
pub data Ending : Type 0 where
  delivered : Bool → Ending
  transient expired : Ending
  stopped : Stop → Ending

-- What happens in an attempt: how the disk takes the reset, the chunks, and the ending.
pub record Attempt : Type 0 where
  pub on_reset : Disk
  pub chunks : List (Disk × Text)
  pub ending : Ending

pub data CallEnd : Type 0 where
  returned : Bool → CallEnd
  sink_raised : SinkError → CallEnd
  reference_expired : CallEnd
  call_raised : Stop → CallEnd

abbrev pub after_chunks : Ending → Sink × CallEnd → Sink × Option SinkError → Sink × CallEnd
after_chunks ending retried (s, some e) = (s, sink_raised e)
after_chunks (delivered b) retried (s, none) = (s, returned b)
after_chunks transient retried (s, none) = retried
after_chunks expired retried (s, none) = (s, reference_expired)
after_chunks (stopped why) retried (s, none) = (s, call_raised why)

-- The part of an attempt before the ending. Each begins with a reset.
unfoldable pub stream : Attempt → Sink → Sink × Option SinkError
unfolding reset write_all
stream a s = and_then (reset a.on_reset s) (write_all a.chunks)

-- The attempts that the budget gate makes; when it makes no more, the last error is a `PhaseStop`.
unfoldable pub download : List Attempt → Sink → Sink × CallEnd
unfolding stream
download [] s = (s, call_raised phase_stop)
download (a ∷ as') s =
    let streamed = stream a s in
    let retried = download as' streamed.0 in after_chunks a.ending retried streamed

-- What the message is fetched as.
pub data Fetched : Type 0 where
  message missing : Fetched
  fetch_raised : Stop → Fetched

-- A fetch of the message, and the attempts at its media.
pub record Round : Type 0 where
  pub fetched : Fetched
  pub attempts : List Attempt

unfoldable pub fetch_and_download : Round → Sink → Sink × CallEnd
unfolding download
fetch_and_download r s = elim r.fetched [
  | message ↦ download r.attempts s
  | missing ↦ (s, returned false)
  | fetch_raised why ↦ (s, call_raised why)
]

-- A second expiry is a `SkipAndRecord`.
abbrev pub expired_twice : Sink × CallEnd → Sink × CallEnd
expired_twice (s, reference_expired) = (s, call_raised skip_and_record)
expired_twice (s, returned b) = (s, returned b)
expired_twice (s, sink_raised e) = (s, sink_raised e)
expired_twice (s, call_raised why) = (s, call_raised why)

abbrev pub retry_expired : Round → Sink × CallEnd → Sink × CallEnd
retry_expired second (s, reference_expired) = expired_twice (fetch_and_download second s)
retry_expired second (s, returned b) = (s, returned b)
retry_expired second (s, sink_raised e) = (s, sink_raised e)
retry_expired second (s, call_raised why) = (s, call_raised why)

unfoldable pub download_media : Round → Round → Sink → Sink × CallEnd
unfolding fetch_and_download
download_media first second s = retry_expired second (fetch_and_download first s)

-- What `_stream_one` returns or raises. The sha and the checksum of a complete file are those of
-- the bytes that the sink hashed.
pub data Streamed : Type 0 where
  skipped unavailable size_mismatch : Streamed
  complete : Sink → Streamed
  sink_failed : Streamed
  raised : Stop → Streamed

abbrev pub wrong_size : Kind → Option ℕ → ℕ → Bool
wrong_size photo declared size = false
wrong_size document none size = false
wrong_size document (some n) size = not (size == n)

-- `close` flushes the file; it can fail only if there is one.
abbrev pub close_raises : Bool → Option Text → Bool
close_raises on_close none = false
close_raises on_close (some f) = on_close

abbrev pub judge : Kind → Option ℕ → Bool → Sink × CallEnd → Streamed
judge kind declared on_close (s, returned available) =
    if close_raises on_close s.file
    then sink_failed
    else if not available
    then unavailable
    else if wrong_size kind declared s.size
    then size_mismatch
    else complete s
judge kind declared on_close (s, sink_raised (size_exceeded d r)) = size_mismatch
judge kind declared on_close (s, sink_raised write_error) = sink_failed
judge kind declared on_close (s, reference_expired) = raised other_error
judge kind declared on_close (s, call_raised skip_and_record) = skipped
judge kind declared on_close (s, call_raised phase_stop) = raised phase_stop
judge kind declared on_close (s, call_raised hard_stop) = raised hard_stop
judge kind declared on_close (s, call_raised other_error) = raised other_error

-- What the environment does to one download: the disk at its opening and at its closing, and the
-- two rounds of the gateway.
pub record Transfer : Type 0 where
  pub open_fails : Bool
  pub first : Round
  pub second : Round
  pub close_fails : Bool

unfoldable pub stream_one : Transfer → Bool → Kind → Option ℕ → Streamed
unfolding download_media
stream_one t has_path kind declared =
    if has_path && t.open_fails
    then sink_failed
    else judge kind declared t.close_fails
        (download_media t.first t.second (open_sink has_path declared))
