-- ===== src/Media/Sink/Hashed.antt =====
-- What a sink holds while bytes come.
use mathlib.Core.Path.{subst}
use mathlib.Core.List.{append-nil, append_assoc}
use paperboy.Base.{
  ℕ, ◌+◌, ◌≡◌, refl, sym, ap, ◌∙◌, Bool, true, false, Option, none, some, List, [], ◌∷◌, ◌++◌,
  if◌then◌else◌, length, length-append, In, arith,
}
use paperboy.Base.Text.{Text}
use paperboy.Media.Sink.{
  Sink, Disk, works, fails, SinkError, size_exceeded, exceeds, declared_of, write_chunk, write,
  reset_file, reset, and_then, write_all, Attempt, stream,
}

pub zero_within : (limit : Option ℕ) → exceeds limit 0 ≡ false
zero_within none = refl
zero_within (some n) = ground arith

-- All that the attempt hands to the sink.
abbrev pub delivered_by : List (Disk × Text) → Text
delivered_by [] = []
delivered_by ((disk, chunk) ∷ cs) = chunk ++ delivered_by cs

-- The file is what was hashed, the size counts it, and the limit is kept.
pub record IsIntact (has_path : Bool) (limit : Option ℕ) (s : Sink) : Type 0 where
  pub on_disk : s.file ≡ (if has_path then some s.hashed else none)
  pub counted : s.size ≡ length s.hashed
  pub same_limit : s.limit ≡ limit
  pub within : exceeds limit s.size ≡ false

abbrev pub is_file : Option Text → Bool
is_file none = false
is_file (some f) = true

module _ (has_path : Bool) (limit : Option ℕ) where
  -- Whatever happened, there is a file exactly if there was one, and the limit is the same.
  pub record HasShape (s : Sink) : Type 0 where
    pub file_kept : is_file s.file ≡ has_path
    pub limit_kept : s.limit ≡ limit

  -- Without an error, the sink is intact and has hashed the text.
  abbrev pub Hashes : Text → Sink × Option SinkError → Type 0
  Hashes t (s, none) = IsIntact has_path limit s × (s.hashed ≡ t)
  Hashes t (s, some e) = HasShape s

  pub IsIntact-HasShape : (s : Sink) → IsIntact has_path limit s → HasShape s
  IsIntact-HasShape s h = record {
    file_kept = rw h.on_disk (of_path has_path);
    limit_kept = h.same_limit;
  }
    where
      of_path : (b : Bool) → is_file (if b then some s.hashed else none) ≡ b
      of_path true = refl
      of_path false = refl

  pub write_chunk-Hashes :
      (disk : Disk) (chunk : Text) (s : Sink) (f : Option Text)
      → IsIntact has_path limit s
      → s.file ≡ f
      → exceeds limit (s.size + length chunk) ≡ false
      → Hashes (s.hashed ++ chunk) (write_chunk f disk chunk s)
  write_chunk-Hashes disk chunk s none h e x = (
    record {
      on_disk = ground (arith, h.on_disk);
      counted = omega (arith, h.counted, length-append s.hashed chunk);
      same_limit = h.same_limit;
      within = x;
    },
    refl,
  )
  write_chunk-Hashes works chunk s (some f) h e x = (
    record {
      on_disk = ground (arith, h.on_disk);
      counted = omega (arith, h.counted, length-append s.hashed chunk);
      same_limit = h.same_limit;
      within = x;
    },
    refl,
  )
  write_chunk-Hashes (fails k) chunk s (some f) h e x = record {
    file_kept = ground (arith, h.on_disk);
    limit_kept = h.same_limit;
  }

  pub write-Hashes :
      (disk : Disk) (chunk : Text) (s : Sink)
      → IsIntact has_path limit s
      → Hashes (s.hashed ++ chunk) (write disk chunk s)
  unfolding write
  write-Hashes disk chunk s h = by_limit (exceeds s.limit (s.size + length chunk)) refl
    where
      by_limit :
          (b : Bool)
          → exceeds s.limit (s.size + length chunk) ≡ b
          → Hashes (s.hashed ++ chunk) (
              if b
              then (s, some (size_exceeded (declared_of s.limit) (s.size + length chunk)))
              else write_chunk s.file disk chunk s)
      by_limit true x = IsIntact-HasShape s h
      by_limit false x =
          write_chunk-Hashes disk chunk s s.file h refl
            (subst (λ l. exceeds l (s.size + length chunk) ≡ false) h.same_limit x)

  pub reset-Hashes : (disk : Disk) (s : Sink) → HasShape s → Hashes [] (reset disk s)
  unfolding reset
  reset-Hashes disk s h = by_file disk s.file refl
    where
      by_file : (d : Disk) (f : Option Text) → s.file ≡ f → Hashes [] (reset_file f d s)
      by_file d none e = (
        record {
          on_disk = ground (arith, h.file_kept);
          counted = refl;
          same_limit = h.limit_kept;
          within = zero_within limit;
        },
        refl,
      )
      by_file works (some f) e = (
        record {
          on_disk = ground (arith, h.file_kept);
          counted = refl;
          same_limit = h.limit_kept;
          within = zero_within limit;
        },
        refl,
      )
      by_file (fails k) (some f) e = h

  pub and_then-Hashes :
      (t u : Text) (next : Sink → Sink × Option SinkError) (r : Sink × Option SinkError)
      → Hashes t r
      → ((s : Sink) → IsIntact has_path limit s → s.hashed ≡ t → Hashes u (next s))
      → Hashes u (and_then r next)
  and_then-Hashes t u next (s, none) h step = step s h.0 h.1
  and_then-Hashes t u next (s, some e) h step = h

  pub write_all-Hashes :
      (cs : List (Disk × Text)) (s : Sink)
      → IsIntact has_path limit s
      → Hashes (s.hashed ++ delivered_by cs) (write_all cs s)
  unfolding write_all
  write_all-Hashes [] s h = (h, sym (append-nil s.hashed))
  write_all-Hashes ((disk, chunk) ∷ cs) s h =
      and_then-Hashes (s.hashed ++ chunk) (s.hashed ++ (chunk ++ delivered_by cs)) (write_all cs)
        (write disk chunk s) (write-Hashes disk chunk s h)
        (λ s' h' e. subst (λ t. Hashes t (write_all cs s')) (rest s' e) (write_all-Hashes cs s' h'))
    where
      rest :
          (s' : Sink)
          → s'.hashed ≡ s.hashed ++ chunk
          → s'.hashed ++ delivered_by cs ≡ s.hashed ++ (chunk ++ delivered_by cs)
      rest s' e = ap (λ t. t ++ delivered_by cs) e ∙ append_assoc s.hashed chunk (delivered_by cs)

  pub stream-Hashes :
      (a : Attempt) (s : Sink) → HasShape s → Hashes (delivered_by a.chunks) (stream a s)
  unfolding stream
  stream-Hashes a s h =
      and_then-Hashes [] (delivered_by a.chunks) (write_all a.chunks) (reset a.on_reset s)
        (reset-Hashes a.on_reset s h)
        (λ s' h' e.
          subst (λ t. Hashes (t ++ delivered_by a.chunks) (write_all a.chunks s')) e
            (write_all-Hashes a.chunks s' h'))

  -- What the sink holds is what one of the attempts delivered.
  abbrev pub HoldsOneOf : List Attempt → Sink → Type 0
  HoldsOneOf attempts s =
      IsIntact has_path limit s
      × ((a : Attempt) × In a attempts × (s.hashed ≡ delivered_by a.chunks))
