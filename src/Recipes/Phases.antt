-- ===== src/Recipes/Phases.antt =====
-- Which phases run, and what they leave in the results and in `run_events`.
use mathlib.Core.Path.{subst}
use mathlib.Core.List.{append_assoc, append-nil}
use paperboy.Base.{
  ◌≡◌, ◌≢◌, refl, ◌∙◌, sym, ap, Bool, true, false, Option, none, some, List, [], ◌∷◌, ◌⊎◌, inl, inr,
  ◌++◌, arith, select,
}
use paperboy.Base.Text.{Text, codes}
use paperboy.Recipes.{
  Totals, merge_counts, or_else, after_collect, fold_in, Ended, completes, phase_stops, skips,
  hard_stops, crashes, Context, Place, Collector, complete, skip, phase_stop, hard_stop, Entry,
  Settings, Session, Step, goes_on, ends, escapes, run_one, is_run, without_channel, mark_selection,
  mark_store, has_media, settle_phase, run_phases, note, entry, open_session, is_reused,
  collect_channel,
}

-- What is recorded of a collector, by what it came to.
abbrev pub IsEntryOf : Ended → Entry → Type 0
IsEntryOf (completes counts stopped) e =
    (e.kind ≡ complete) × (e.counts ≡ counts) × (e.stopped ≡ stopped)
IsEntryOf skips e = (e.kind ≡ skip) × (e.counts ≡ []) × (e.stopped ≡ some (codes "skip"))
IsEntryOf (phase_stops counts) e =
    (e.kind ≡ phase_stop) × (e.counts ≡ counts) × (e.stopped ≡ some (codes "phase_stop"))
IsEntryOf hard_stops e =
    (e.kind ≡ hard_stop) × (e.counts ≡ []) × (e.stopped ≡ some (codes "hard_stop"))
IsEntryOf crashes e = ⊥

-- What the counts and the stop of a complete history become by its catch-up.
abbrev pub joined : Totals → Option Text → Ended → Ended
joined counts stopped (completes more later) =
    completes (merge_counts counts more) (or_else later stopped)
joined counts stopped (phase_stops more) = phase_stops (merge_counts counts more)
joined counts stopped e = e

abbrev pub is_complete : Ended → Bool
is_complete (completes counts stopped) = true
is_complete e = false

-- What a collector comes to: what its own run does, or, if that is complete and the collector has a
-- catch-up, what the catch-up makes of it.
pub data ComesTo (W : Type 0) (c : Collector W) (p : Place W) : Ended → Place W → Type 0 where
  by_collect :
      (r : Ended) (p' : Place W)
      → c.collect p ≡ (r, p')
      → (c.catch_up ≡ none) ⊎ (is_complete r ≡ false)
      → ComesTo W c p r p'
  by_catch_up :
      (catch_up : Place W → Ended × Place W) (counts : Totals) (stopped : Option Text)
      (q p' : Place W) (r : Ended)
      → c.catch_up ≡ some catch_up
      → c.collect p ≡ (completes counts stopped, q)
      → catch_up q ≡ (r, p')
      → ComesTo W c p (joined counts stopped r) p'

-- The entries that a list of phases leaves from a place on, and whether an exception escaped. Each
-- phase that goes on hands its place to the next one.
pub data Leaves (W : Type 0) : Place W → List (Collector W) → List Entry → Bool → Type 0 where
  nothing_left : (p : Place W) → Leaves W p [] [] false
  went_on :
      (p p' : Place W) (c : Collector W) (cs : List (Collector W)) (r : Ended) (e : Entry)
      (es : List Entry) (b : Bool)
      → ComesTo W c p r p'
      → r ≢ hard_stops
      → e.phase ≡ c.name
      → IsEntryOf r e
      → Leaves W p' cs es b
      → Leaves W p (c ∷ cs) (e ∷ es) b
  ended :
      (p p' : Place W) (c : Collector W) (cs : List (Collector W)) (e : Entry)
      → ComesTo W c p hard_stops p'
      → e.phase ≡ c.name
      → IsEntryOf hard_stops e
      → Leaves W p (c ∷ cs) (e ∷ []) false
  escaped :
      (p p' : Place W) (c : Collector W) (cs : List (Collector W))
      → ComesTo W c p crashes p'
      → Leaves W p (c ∷ cs) [] true

module _ {W : Type 0} where
  after_collect-ComesTo :
      (c : Collector W) (p : Place W) (f : Option (Place W → Ended × Place W)) (k : Ended × Place W)
      → c.catch_up ≡ f
      → c.collect p ≡ k
      → ComesTo W c p (after_collect f k).0 (after_collect f k).1
  after_collect-ComesTo c p none (r, q) e h = by_collect r q h (inl e)
  after_collect-ComesTo c p (some g) (completes counts stopped, q) e h = split (g q) refl
    where
      split :
          (k : Ended × Place W)
          → g q ≡ k
          → ComesTo W c p (fold_in counts stopped k).0 (fold_in counts stopped k).1
      split (completes more later, p') l =
          by_catch_up g counts stopped q p' (completes more later) e h l
      split (phase_stops more, p') l = by_catch_up g counts stopped q p' (phase_stops more) e h l
      split (skips, p') l = by_catch_up g counts stopped q p' skips e h l
      split (hard_stops, p') l = by_catch_up g counts stopped q p' hard_stops e h l
      split (crashes, p') l = by_catch_up g counts stopped q p' crashes e h l
  after_collect-ComesTo c p (some g) (phase_stops counts, q) e h =
      by_collect (phase_stops counts) q h (inr refl)
  after_collect-ComesTo c p (some g) (skips, q) e h = by_collect skips q h (inr refl)
  after_collect-ComesTo c p (some g) (hard_stops, q) e h = by_collect hard_stops q h (inr refl)
  after_collect-ComesTo c p (some g) (crashes, q) e h = by_collect crashes q h (inr refl)

  run_one-ComesTo :
      (c : Collector W) (p : Place W) (r : Ended × Place W)
      → run_one c p ≡ r
      → ComesTo W c p r.0 r.1
  unfolding run_one
  run_one-ComesTo c p r e =
      subst (λ k. ComesTo W c p k.0 k.1) e
        (after_collect-ComesTo c p c.catch_up (c.collect p) refl refl)

  results-mark_selection :
      (settings : Settings) (c : Collector W) (s : Session W)
      → (mark_selection settings c s).results ≡ s.results
  results-mark_selection settings c s = ground arith

  events-mark_selection :
      (settings : Settings) (c : Collector W) (s : Session W)
      → (mark_selection settings c s).events ≡ s.events
  events-mark_selection settings c s = ground arith

  results-mark_store :
      (settings : Settings) (media : Bool) (c : Collector W) (s : Session W)
      → (mark_store settings media c s).results ≡ s.results
  results-mark_store settings media c s = ground arith

  events-mark_store :
      (settings : Settings) (media : Bool) (c : Collector W) (s : Session W)
      → (mark_store settings media c s).events ≡ s.events
  events-mark_store settings media c s = ground arith

  place-mark_selection :
      (settings : Settings) (c : Collector W) (s : Session W)
      → (mark_selection settings c s).place ≡ s.place
  place-mark_selection settings c s = ground arith

  place-mark_store :
      (settings : Settings) (media : Bool) (c : Collector W) (s : Session W)
      → (mark_store settings media c s).place ≡ s.place
  place-mark_store settings media c s = ground arith

  -- The session after some phases: the same new entries in both lists.
  abbrev Left : List (Collector W) → Session W → Session W × Bool → Type 0
  Left cs s (s', b) =
      (es : List Entry) × (s'.results ≡ s.results ++ es)
      × (s'.events ≡ s.events ++ es)
      × Leaves W s.place cs es b

  -- One more entry in front of those of the other phases.
  cons-Left :
      (c : Collector W) (cs : List (Collector W)) (s : Session W) (p : Place W) (r : Ended)
      (e : Entry) (run : Session W → Session W × Bool)
      → run_one c s.place ≡ (r, p)
      → r ≢ hard_stops
      → e.phase ≡ c.name
      → IsEntryOf r e
      → ((s' : Session W) → Left cs s' (run s'))
      → Left (c ∷ cs) s (run (note s p e))
  cons-Left c cs s p r e run ran kind phase shown again =
      let (es, h, v, leaves) = again (note s p e) in
      (
        e ∷ es,
        h ∙ append_assoc s.results (e ∷ []) es,
        v ∙ append_assoc s.events (e ∷ []) es,
        went_on s.place p c cs r e es (run (note s p e)).1 (run_one-ComesTo c s.place (r, p) ran)
            kind phase shown leaves,
      )

  abbrev rest_of : Settings → Bool → List (Collector W) → Step W → Session W × Bool
  rest_of settings media cs t = elim t [
    | goes_on s' ↦ run_phases settings media cs s'
    | ends s' ↦ (s', false)
    | escapes s' ↦ (s', true)
  ]

  settle_phase-Left :
      (settings : Settings) (media : Bool) (c : Collector W) (cs : List (Collector W))
      (s : Session W) (r : Ended × Place W)
      → run_one c s.place ≡ r
      → ((s' : Session W) → Left cs s' (run_phases settings media cs s'))
      → Left (c ∷ cs) s (rest_of settings media cs (settle_phase c s r))
  settle_phase-Left settings media c cs s (completes counts stopped, p) ran again =
      cons-Left c cs s p (completes counts stopped) (entry c complete counts stopped)
        (run_phases settings media cs) ran (λ q. cc) refl (refl, refl, refl) again
  settle_phase-Left settings media c cs s (skips, p) ran again =
      cons-Left c cs s p skips (entry c skip [] (some (codes "skip")))
        (run_phases settings media cs) ran (λ q. cc) refl (refl, refl, refl) again
  settle_phase-Left settings media c cs s (phase_stops counts, p) ran again =
      cons-Left c cs s p (phase_stops counts)
        (entry c phase_stop counts (some (codes "phase_stop"))) (run_phases settings media cs) ran
        (λ q. cc) refl (refl, refl, refl) again
  settle_phase-Left settings media c cs s (hard_stops, p) ran again =
      let e = entry c hard_stop [] (some (codes "hard_stop")) in
      (
        e ∷ [],
        refl,
        refl,
        ended s.place p c cs e (run_one-ComesTo c s.place (hard_stops, p) ran) refl
            (refl, refl, refl),
      )
  settle_phase-Left settings media c cs s (crashes, p) ran again = (
    [],
    sym (append-nil s.results),
    sym (append-nil s.events),
    escaped s.place p c cs (run_one-ComesTo c s.place (crashes, p) ran),
  )

  -- The markers leave the entries and the place alone.
  Left-marked :
      (cs : List (Collector W)) (s m : Session W) (r : Session W × Bool)
      → m.place ≡ s.place
      → m.results ≡ s.results
      → m.events ≡ s.events
      → Left cs m r
      → Left cs s r
  Left-marked cs s m r hp hr he (es, h, v, leaves) = (
    es,
    h ∙ ap (λ l. l ++ es) hr,
    v ∙ ap (λ l. l ++ es) he,
    subst (λ p. Leaves W p cs es r.1) hp leaves,
  )

  run_phases-Left :
      (settings : Settings) (media : Bool) (cs : List (Collector W)) (s : Session W)
      → Left cs s (run_phases settings media cs s)
  unfolding run_phases
  run_phases-Left settings media [] s =
      ([], sym (append-nil s.results), sym (append-nil s.events), nothing_left s.place)
  run_phases-Left settings media (c ∷ cs) s =
      let chosen = mark_selection settings c s in
      let marked = mark_store settings media c chosen in
      Left-marked (c ∷ cs) s marked
        (rest_of settings media cs (settle_phase c marked (run_one c marked.place)))
        (place-mark_store settings media c chosen ∙ place-mark_selection settings c s)
        (results-mark_store settings media c chosen ∙ results-mark_selection settings c s)
        (events-mark_store settings media c chosen ∙ events-mark_selection settings c s)
        (settle_phase-Left settings media c cs marked (run_one c marked.place) refl
          (λ s'. run_phases-Left settings media cs s'))

  Leaves-Left :
      (cs : List (Collector W)) (s : Session W) (r : Session W × Bool)
      → s.results ≡ []
      → s.events ≡ []
      → Left cs s r
      → Leaves W s.place cs r.0.results r.1 × (r.0.events ≡ r.0.results)
  Leaves-Left cs s r hr he (es, e, v, leaves) = (
    subst (λ l. Leaves W s.place cs l r.1) (sym (e ∙ ap (λ l. l ++ es) hr)) leaves,
    v ∙ ap (λ l. l ++ es) (he ∙ sym hr) ∙ sym e,
  )

  open_session_is_empty :
      (w : W) (context : Option Context)
      → ((open_session w context).results ≡ []) × ((open_session w context).events ≡ [])
  open_session_is_empty w none = (refl, refl)
  open_session_is_empty w (some context) = (refl, refl)

  -- A run leaves one result for each phase that it ran, in the order of the phases, each of what
  -- the collector and its catch-up came to, and the same entries in `run_events`. After a skip, a phase stop or a
  -- complete phase the next phase runs from the place that is left; the run ends early only where
  -- a collector comes to a hard stop, which is the last entry, or raises an exception that is not
  -- caught, which leaves none. A reused context leaves the `channel` phase out.
  pub collect_channel-Leaves :
      (settings : Settings) (phases : Option (List Text)) (collectors : List (Collector W))
      (context : Option Context) (w : W)
      → Leaves W
          (open_session w context).place
          (select (is_run phases) (without_channel (is_reused context) collectors))
          (collect_channel settings phases collectors context w).0.results
          (collect_channel settings phases collectors context w).1
        × ((collect_channel settings phases collectors context w).0.events
            ≡ (collect_channel settings phases collectors context w).0.results)
  unfolding collect_channel
  collect_channel-Leaves settings phases collectors context w =
      let active = without_channel (is_reused context) collectors in
      let cs = select (is_run phases) active in
      let s = open_session w context in
      let empty = open_session_is_empty w context in
      Leaves-Left cs s (run_phases settings (has_media phases active) cs s) empty.0 empty.1
        (run_phases-Left settings (has_media phases active) cs s)
