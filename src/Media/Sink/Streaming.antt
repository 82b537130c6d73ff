-- ===== src/Media/Sink/Streaming.antt =====
-- What a complete download holds.
use mathlib.Core.Path.{subst}
use paperboy.Base.{
  ℕ, ◌≡◌, refl, inl, inr, Bool, true, false, Option, none, some, List, [], ◌∷◌, ◌++◌, ◌&&◌,
  if◌then◌else◌, In, In-append_left, In-append_right, arith, Bool-cases,
}
use paperboy.Base.Text.{Text}
use paperboy.Media.Content.{Kind, photo, document}
use paperboy.Media.Sink.{
  skip_and_record, phase_stop, hard_stop, other_error, close_raises, wrong_size, Sink, SinkError,
  size_exceeded, write_error, open_sink, Ending, delivered, transient, expired, stopped, Attempt,
  CallEnd, returned, sink_raised, reference_expired, call_raised, after_chunks, stream, download,
  Fetched, message, missing, fetch_raised, Round, fetch_and_download, expired_twice, retry_expired,
  download_media, sink_failed, size_mismatch, complete, judge, Transfer, stream_one,
}
use paperboy.Media.Sink.Hashed.{
  delivered_by, HasShape, Hashes, IsIntact-HasShape, stream-Hashes, HoldsOneOf,
}

module _ (has_path : Bool) (limit : Option ℕ) where
  -- The end of a call, where a value is returned for the sink's content.
  abbrev Returns : List Attempt → Sink × CallEnd → Type 0
  Returns attempts (s, returned true) = HoldsOneOf has_path limit attempts s
  Returns attempts (s, returned false) = HasShape has_path limit s
  Returns attempts (s, sink_raised e) = HasShape has_path limit s
  Returns attempts (s, reference_expired) = HasShape has_path limit s
  Returns attempts (s, call_raised why) = HasShape has_path limit s

  Returns-HasShape :
      (attempts : List Attempt) (r : Sink × CallEnd)
      → Returns attempts r
      → HasShape has_path limit r.0
  Returns-HasShape attempts (s, returned true) h = IsIntact-HasShape has_path limit s h.0
  Returns-HasShape attempts (s, returned false) h = h
  Returns-HasShape attempts (s, sink_raised e) h = h
  Returns-HasShape attempts (s, reference_expired) h = h
  Returns-HasShape attempts (s, call_raised why) h = h

  Returns-more :
      (attempts more : List Attempt) (r : Sink × CallEnd)
      → ((a : Attempt) → In a attempts → In a more)
      → Returns attempts r
      → Returns more r
  Returns-more attempts more (s, returned true) f (i, (a, m, e)) = (i, (a, f a m, e))
  Returns-more attempts more (s, returned false) f h = h
  Returns-more attempts more (s, sink_raised e) f h = h
  Returns-more attempts more (s, reference_expired) f h = h
  Returns-more attempts more (s, call_raised why) f h = h

  Hashes-HasShape :
      (t : Text) (r : Sink × Option SinkError)
      → Hashes has_path limit t r
      → HasShape has_path limit r.0
  Hashes-HasShape t (s, none) h = IsIntact-HasShape has_path limit s h.0
  Hashes-HasShape t (s, some e) h = h

  after_chunks-Returns :
      (a : Attempt) (as' : List Attempt) (ending : Ending) (retried : Sink × CallEnd)
      (streamed : Sink × Option SinkError)
      → Hashes has_path limit (delivered_by a.chunks) streamed
      → Returns as' retried
      → Returns (a ∷ as') (after_chunks ending retried streamed)
  after_chunks-Returns a as' ending retried (s, some e) h r = h
  after_chunks-Returns a as' (delivered true) retried (s, none) h r = (h.0, (a, inl refl, h.1))
  after_chunks-Returns a as' (delivered false) retried (s, none) h r =
      IsIntact-HasShape has_path limit s h.0
  after_chunks-Returns a as' transient retried (s, none) h r =
      Returns-more as' (a ∷ as') retried (λ b m. inr m) r
  after_chunks-Returns a as' expired retried (s, none) h r = IsIntact-HasShape has_path limit s h.0
  after_chunks-Returns a as' (stopped why) retried (s, none) h r =
      IsIntact-HasShape has_path limit s h.0

  download-Returns :
      (as' : List Attempt) (s : Sink) → HasShape has_path limit s → Returns as' (download as' s)
  unfolding download
  download-Returns [] s h = h
  download-Returns (a ∷ as') s h =
      let streamed = stream a s in
      let hashed = stream-Hashes has_path limit a s h in
      after_chunks-Returns a as' a.ending (download as' streamed.0) streamed hashed
        (download-Returns as' streamed.0 (Hashes-HasShape (delivered_by a.chunks) streamed hashed))

  fetch_and_download-Returns :
      (r : Round) (s : Sink)
      → HasShape has_path limit s
      → Returns r.attempts (fetch_and_download r s)
  unfolding fetch_and_download
  fetch_and_download-Returns r s h = by_message r.fetched
    where
      by_message :
          (f : Fetched)
          → Returns r.attempts (elim f [
            | message ↦ download r.attempts s
            | missing ↦ (s, returned false)
            | fetch_raised why ↦ (s, call_raised why)
          ])
      by_message message = download-Returns r.attempts s h
      by_message missing = h
      by_message (fetch_raised why) = h

  expired_twice-Returns :
      (attempts : List Attempt) (r : Sink × CallEnd)
      → Returns attempts r
      → Returns attempts (expired_twice r)
  expired_twice-Returns attempts (s, returned b) h = h
  expired_twice-Returns attempts (s, sink_raised e) h = h
  expired_twice-Returns attempts (s, reference_expired) h = h
  expired_twice-Returns attempts (s, call_raised why) h = h

  download_media-Returns :
      (first second : Round) (s : Sink)
      → HasShape has_path limit s
      → Returns (first.attempts ++ second.attempts) (download_media first second s)
  unfolding download_media
  download_media-Returns first second s h =
      retried (fetch_and_download first s) (fetch_and_download-Returns first s h)
    where
      retried :
          (r : Sink × CallEnd)
          → Returns first.attempts r
          → Returns (first.attempts ++ second.attempts) (retry_expired second r)
      retried (s', returned b) k =
          Returns-more first.attempts (first.attempts ++ second.attempts) (s', returned b)
            (λ a m. In-append_left a first.attempts second.attempts m) k
      retried (s', sink_raised e) k = k
      retried (s', reference_expired) k =
          expired_twice-Returns (first.attempts ++ second.attempts) (fetch_and_download second s') (
            Returns-more second.attempts (first.attempts ++ second.attempts)
              (fetch_and_download second s')
              (λ a m. In-append_right a first.attempts second.attempts m)
              (fetch_and_download-Returns second s' k))
      retried (s', call_raised why) k = k

-- A document has exactly its declared size.
abbrev pub HasDeclaredSize : Kind → Option ℕ → ℕ → Type 0
HasDeclaredSize document (some n) size = size ≡ n
HasDeclaredSize _ _ size = Unit

declared_size :
    (kind : Kind) (declared : Option ℕ) (size : ℕ)
    → wrong_size kind declared size ≡ false
    → HasDeclaredSize kind declared size
declared_size photo declared size h = tt
declared_size document none size h = tt
declared_size document (some n) size h = ground arith

complete_only :
    (failed wrong : Bool) (s s' : Sink)
    → (if failed then sink_failed else if wrong then size_mismatch else complete s') ≡ complete s
    → (wrong ≡ false) × (s' ≡ s)
complete_only true wrong s s' h = cc
complete_only false true s s' h = cc
complete_only false false s s' h = (refl, cc)

-- A download that is complete left in the sink what one attempt alone delivered, whatever was tried
-- before: the file holds exactly the bytes that the sha and the checksum are of, the size counts
-- them, the declared size is not exceeded, and a document has it exactly.
pub stream_one_holds :
    (t : Transfer) (has_path : Bool) (kind : Kind) (declared : Option ℕ) (s : Sink)
    → stream_one t has_path kind declared ≡ complete s
    → HoldsOneOf has_path declared (t.first.attempts ++ t.second.attempts) s
      × HasDeclaredSize kind declared s.size
unfolding stream_one open_sink
stream_one_holds t has_path kind declared s h = elim (Bool-cases (has_path && t.open_fails)) [
  | inl broken ↦ ground arith
  | inr opened ↦
      judged kind (download_media t.first t.second (open_sink has_path declared))
        (download_media-Returns has_path declared t.first t.second (open_sink has_path declared)
          (opened_shape has_path))
        (rw opened at h)
]
  where
    opened_shape : (b : Bool) → HasShape b declared (open_sink b declared)
    opened_shape true = record { file_kept = refl; limit_kept = refl }
    opened_shape false = record { file_kept = refl; limit_kept = refl }

    judged :
        (k : Kind) (r : Sink × CallEnd)
        → Returns has_path declared (t.first.attempts ++ t.second.attempts) r
        → judge k declared t.close_fails r ≡ complete s
        → HoldsOneOf has_path declared (t.first.attempts ++ t.second.attempts) s
          × HasDeclaredSize k declared s.size
    judged k (s', returned true) h e =
        let (sized, same) =
          complete_only (close_raises t.close_fails s'.file) (wrong_size k declared s'.size) s s'
            e in
        subst
          (λ u.
            HoldsOneOf has_path declared (t.first.attempts ++ t.second.attempts) u
            × HasDeclaredSize k declared u.size)
          same (h, declared_size k declared s'.size sized)
    judged k (s', returned false) h e = ground (arith, e)
    judged k (s', sink_raised (size_exceeded d r)) h e = cc
    judged k (s', sink_raised write_error) h e = cc
    judged k (s', reference_expired) h e = cc
    judged k (s', call_raised skip_and_record) h e = cc
    judged k (s', call_raised phase_stop) h e = cc
    judged k (s', call_raised hard_stop) h e = cc
    judged k (s', call_raised other_error) h e = cc
