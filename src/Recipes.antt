-- ===== src/Recipes.antt =====
-- recipes.py: the phases of a run, in order, and what a stop of one does to the others.
pub mod Phases
pub mod Totals
use paperboy.Base.{
  ℕ, ◌+◌, ◌==◌, Bool, true, false, not, ◌&&◌, ◌||◌, Option, none, some, List, [], ◌∷◌, ◌++◌, ltb,
  select, if◌then◌else◌,
}
use paperboy.Base.Dict.{Dict, lookup, insert}
use paperboy.Base.Text.{Text, codes, text_eq}

abbrev pub Totals : Type 0
Totals = Dict ℕ

abbrev pub value_or_zero : Option ℕ → ℕ
value_or_zero none = 0
value_or_zero (some n) = n

-- `_merge_counts`
unfoldable pub merge_counts : Totals → Totals → Totals
merge_counts a [] = a
merge_counts a ((k, v) ∷ b) = merge_counts (insert k (value_or_zero (lookup k a) + v) a) b

-- What a collector comes to; `crashes` is any exception that the recipe does not catch.
pub data Ended : Type 0 where
  completes : Totals → Option Text → Ended
  phase_stops : Totals → Ended
  skips hard_stops crashes : Ended

-- What the `channel` phase establishes. The access hash and the tier are part of the world.
pub record Context : Type 0 where
  pub channel_id : ℕ
  pub source_run_id : Text

-- A record that the recipe itself appends to the raw log.
pub data Marker : Type 0 where
  context_reused : ℕ → Text → Marker
  media_selection : ℕ → List ℕ → Marker
  media_store_used : Text → Bool → Marker

-- The store outside of the recipe's own records, and the established channel: `channel_id` and
-- `input_channel` are set and withdrawn together.
pub record Place (W : Type 0) : Type 0 where
  pub world : W
  pub channel_id : Option ℕ

-- `catch_up` is there for the history collector.
pub record Collector (W : Type 0) : Type 0 where
  pub name : Text
  pub applies : Bool
  pub collect : Place W → Ended × Place W
  pub catch_up : Option (Place W → Ended × Place W)

pub data Kind : Type 0 where
  complete skip phase_stop hard_stop : Kind

-- What a row of `run_events` and an entry of the results both hold.
pub record Entry : Type 0 where
  pub phase : Text
  pub kind : Kind
  pub counts : Totals
  pub stopped : Option Text

pub record Settings : Type 0 where
  pub media_msgs : Option (List ℕ)
  pub media_store : Option Text

pub record Session (W : Type 0) : Type 0 where
  pub place : Place W
  pub markers : List Marker
  pub events : List Entry
  pub results : List Entry
  pub store_marked : Bool

-- What follows a phase: the next one, the end of the run, or an exception that is not caught.
pub data Step (W : Type 0) : Type 0 where
  goes_on ends escapes : Session W → Step W

abbrev pub is_reused : Option Context → Bool
is_reused none = false
is_reused (some context) = true

-- `a or b`, of texts.
abbrev pub or_else : Option Text → Option Text → Option Text
or_else none b = b
or_else (some []) b = b
or_else (some (c ∷ cs)) b = some (c ∷ cs)

abbrev pub add_sorted : ℕ → List ℕ → List ℕ
add_sorted n [] = n ∷ []
add_sorted n (m ∷ ms) =
    if ltb n m then n ∷ m ∷ ms else if n == m then m ∷ ms else m ∷ add_sorted n ms

-- `sorted(set(ids))`
abbrev pub sorted_set : List ℕ → List ℕ
sorted_set [] = []
sorted_set (n ∷ ns) = add_sorted n (sorted_set ns)

-- `phases is None`, or the name is among them.
abbrev pub is_named : Option (List Text) → Text → Bool
is_named none name = true
is_named (some phases) name = is_among phases name
  where
    is_among : List Text → Text → Bool
    is_among [] name = false
    is_among (p ∷ ps) name = text_eq p name || is_among ps name

module _ {W : Type 0} where
  -- The catch-up of a history phase, folded into its result or its stop.
  abbrev pub fold_in : Totals → Option Text → Ended × Place W → Ended × Place W
  fold_in counts stopped (completes more stopped', p) =
      (completes (merge_counts counts more) (or_else stopped' stopped), p)
  fold_in counts stopped (phase_stops more, p) = (phase_stops (merge_counts counts more), p)
  fold_in counts stopped (e, p) = (e, p)

  abbrev pub after_collect : Option (Place W → Ended × Place W) → Ended × Place W → Ended × Place W
  after_collect (some catch_up) (completes counts stopped, p) = fold_in counts stopped (catch_up p)
  after_collect catch_up r = r

  -- `_run_one`
  unfoldable pub run_one : Collector W → Place W → Ended × Place W
  run_one c p = after_collect c.catch_up (c.collect p)

  -- The collectors that the loop does not pass over.
  abbrev pub is_run : Option (List Text) → Collector W → Bool
  is_run phases c = is_named phases c.name && c.applies

  abbrev pub without_channel : Bool → List (Collector W) → List (Collector W)
  without_channel reused active =
      if reused then select (λ c. not (text_eq c.name (codes "channel"))) active else active

  abbrev pub add_marker : Session W → Marker → Session W
  add_marker s m = record s { markers = s.markers ++ m ∷ [] }

  -- The `MediaSelection` record of a media phase.
  abbrev pub mark_selection : Settings → Collector W → Session W → Session W
  mark_selection settings c s =
      if text_eq c.name (codes "media") then go settings.media_msgs s.place.channel_id else s
    where
      go : Option (List ℕ) → Option ℕ → Session W
      go (some ids) (some channel) = add_marker s (media_selection channel (sorted_set ids))
      go ids channel = s

  -- Whether a media phase is part of the run.
  abbrev pub has_media : Option (List Text) → List (Collector W) → Bool
  has_media phases [] = false
  has_media phases (c ∷ cs) =
      (text_eq c.name (codes "media") && is_run phases c) || has_media phases cs

  -- The `MediaStore` record, before the first phase that writes through a configured store.
  abbrev pub mark_store : Settings → Bool → Collector W → Session W → Session W
  mark_store settings media c s =
      if (text_eq c.name (codes "profiles") || text_eq c.name (codes "media")) && not s.store_marked
      then go settings.media_store
      else s
    where
      go : Option Text → Session W
      go none = s
      go (some store) = record (add_marker s (media_store_used store media)) { store_marked = true }

  -- One event and one result.
  abbrev pub note : Session W → Place W → Entry → Session W
  note s p e = record s { place = p; events = s.events ++ e ∷ []; results = s.results ++ e ∷ [] }

  abbrev pub entry : Collector W → Kind → Totals → Option Text → Entry
  entry c kind counts stopped = record {
    phase = c.name;
    kind = kind;
    counts = counts;
    stopped = stopped;
  }

  abbrev pub settle_phase : Collector W → Session W → Ended × Place W → Step W
  settle_phase c s (completes counts stopped, p) =
      goes_on (note s p (entry c complete counts stopped))
  settle_phase c s (skips, p) = goes_on (note s p (entry c skip [] (some (codes "skip"))))
  settle_phase c s (phase_stops counts, p) =
      goes_on (note s p (entry c phase_stop counts (some (codes "phase_stop"))))
  settle_phase c s (hard_stops, p) =
      ends (note s p (entry c hard_stop [] (some (codes "hard_stop"))))
  settle_phase c s (crashes, p) = escapes (record s { place = p })

  abbrev pub run_phase : Settings → Bool → Collector W → Session W → Step W
  run_phase settings media c s =
      let marked = mark_store settings media c (mark_selection settings c s) in
      settle_phase c marked (run_one c marked.place)

  -- `for collector in active`; the Boolean tells an exception that escapes.
  unfoldable pub run_phases : Settings → Bool → List (Collector W) → Session W → Session W × Bool
  run_phases settings media [] s = (s, false)
  run_phases settings media (c ∷ cs) s = elim (run_phase settings media c s) [
    | goes_on s' ↦ run_phases settings media cs s'
    | ends s' ↦ (s', false)
    | escapes s' ↦ (s', true)
  ]

  -- The session before the first phase: a reused context is noted in the log.
  abbrev pub open_session : W → Option Context → Session W
  open_session w none = record {
    place = record { world = w; channel_id = none };
    markers = [];
    events = [];
    results = [];
    store_marked = false;
  }
  open_session w (some context) = record {
    place = record { world = w; channel_id = some context.channel_id };
    markers = context_reused context.channel_id context.source_run_id ∷ [];
    events = [];
    results = [];
    store_marked = false;
  }

  unfoldable pub collect_channel :
      Settings → Option (List Text) → List (Collector W) → Option Context → W → Session W × Bool
  collect_channel settings phases collectors context w =
      let active = without_channel (is_reused context) collectors in
      run_phases settings (has_media phases active) (select (is_run phases) active)
        (open_session w context)

  -- The context for the caller to reuse.
  abbrev pub established : Option Context → Text → Place W → Option Context
  established context run_id p = go p.channel_id context
    where
      go : Option ℕ → Option Context → Option Context
      go none context = none
      go (some id) (some context) = some context
      go (some id) none = some (record { channel_id = id; source_run_id = run_id })
