-- ===== src/Fetch.antt =====
-- fetch_from_list.py: the posts of an ordered list of messages, then their media.
pub mod Exclusion
pub mod Rows
pub mod Refresh
pub mod Loop
pub mod Covers
pub mod OneSegment
pub mod Claims
pub mod KeptOut
pub mod Calls
use paperboy.Base.{
  ℕ, suc, Bool, true, false, Option, none, some, List, [], ◌∷◌, ◌++◌, ◌==◌, if◌then◌else◌,
}
use paperboy.Base.Text.{Text, codes, text_eq}
use paperboy.Base.Assoc.{Assoc, get, set}
use paperboy.Collectors.Posts.{Outcomes}
use paperboy.Media.Store.{Result, ok, unreachable, integrity, value_error}
use paperboy.Media.Phase.State.{Outcome}
use paperboy.Inputs.Entry.{Address, by_id, by_name, address_eq}
use paperboy.Inputs.Classify.{ClassifiedRow, Known, Offline, is_seen}
use paperboy.Inputs.Segments.{Segment, segment_address, is_pending, plan_segments}
use paperboy.Recipes.{sorted_set}
use paperboy.Fetch.Exclusion.{Covered, linked_discussion_groups, excludes}
use paperboy.Fetch.Rows.{
  RowResult, Place, repeated, initial_results, update_at, result_at, mark_no_access, mark_excluded,
  adopt_channel, settle,
}
use paperboy.Fetch.Refresh.{RefreshEnd, refresh_rows, refresh_or_forget, bytes_downloaded}
use paperboy.Fetch.Loop.{
  Driver, Ran, ran, store_failed, crashed, Verdict, carries_on, must_end, refused, stop_check,
  media_verdict, Call, establishes, fetches_posts, fetches_media, State, Next, goes_on, ends,
  crashes,
}
use paperboy.Fetch.OneSegment.{
  with_results, refuse, exclude, call, covered, settle_all, finish, unless_ended, after_media,
  media_step, after_refresh, by_verdict, after_posts, msg_id_at, claim_new, claim_id, claim, ids_at,
  fetch_claimed, fetch_rows,
}

module _ {W C : Type 0} (d : Driver W C) (with_media : Bool) where
  -- A channel that is established: it may turn out to be excluded.
  unfoldable pub if_included : Address → ℕ → C → List Place → Covered → State W C → Next W C
  unfolding fetch_claimed
  if_included a c ctx is none s = crashes s
  if_included a c ctx is (some (ex, true)) s =
      goes_on (exclude d with_media is (record s { excluded = ex }))
  if_included a c ctx is (some (ex, false)) s =
      fetch_rows d with_media a c ctx is (record s { excluded = ex })

  abbrev not_established : Text
  not_established = codes "the channel could not be established"

  abbrev by_id_verdict : Address → ℕ → List Place → Verdict → Option C → State W C → Next W C
  by_id_verdict a c is (must_end why) ctx s = ends why s
  by_id_verdict a c is (refused why) ctx s =
      goes_on (refuse d with_media (a ∷ by_id c ∷ []) is why s)
  by_id_verdict a c is carries_on none s =
      goes_on (refuse d with_media (a ∷ by_id c ∷ []) is not_established s)
  by_id_verdict a c is carries_on (some ctx) s =
      let s' = record s { contexts = (c, ctx) ∷ s.contexts } in
      if_included a c ctx is (covered d with_media c s') s'

  unfoldable pub after_establish :
      Address → ℕ → List Place → W × Option C × Ran → State W C → Next W C
  unfolding if_included
  after_establish a c is (w, ctx, ran results) s =
      by_id_verdict a c is (stop_check results (codes "channel")) ctx (record s { world = w })
  after_establish a c is (w, ctx, store_failed why) s = crashes (record s { world = w })
  after_establish a c is (w, ctx, crashed) s = crashes (record s { world = w })

  abbrev context_of : ℕ → List (ℕ × C) → Option C
  context_of c [] = none
  context_of c ((e, ctx) ∷ cs) = if e == c then some ctx else context_of c cs

  -- A channel with a context is not established again.
  unfoldable pub with_context : Address → ℕ → List Place → Option C → State W C → Next W C
  unfolding after_establish fetch_claimed
  with_context a c is (some ctx) s = fetch_rows d with_media a c ctx is s
  with_context a c is none s =
      after_establish a c is (d.establish (by_id c) s.world)
        (call d with_media (establishes (by_id c)) s)

  unfoldable pub if_not_covered : Address → ℕ → List Place → Covered → State W C → Next W C
  unfolding with_context
  if_not_covered a c is none s = crashes s
  if_not_covered a c is (some (ex, true)) s =
      goes_on (exclude d with_media is (record s { excluded = ex }))
  if_not_covered a c is (some (ex, false)) s =
      let s' = record s { excluded = ex } in with_context a c is (context_of c s'.contexts) s'

  abbrev if_alive : Address → ℕ → List Place → Option Text → State W C → Next W C
  if_alive a c is (some why) s = goes_on (with_results (mark_no_access is why s.results) s)
  if_alive a c is none s = if_not_covered a c is (covered d with_media c s) s

  -- A segment whose channel has a known id.
  unfoldable pub at_channel : Address → ℕ → List Place → State W C → Next W C
  unfolding if_not_covered
  at_channel a c is s = if_alive a c is (get address_eq (by_id c) s.dead) s

  abbrev adopt : ℕ → List Place → State W C → State W C
  adopt c is s = with_results (adopt_channel is c s.results) s

  abbrev not_resolved : Text
  not_resolved = codes "the handle did not resolve"

  abbrev by_name_verdict : Address → List Place → Verdict → Option C → State W C → Next W C
  by_name_verdict a is (must_end why) ctx s = ends why s
  by_name_verdict a is (refused why) ctx s = goes_on (refuse d with_media (a ∷ []) is why s)
  by_name_verdict a is carries_on none s = goes_on (refuse d with_media (a ∷ []) is not_resolved s)
  by_name_verdict a is carries_on (some ctx) s =
      let c = d.channel_id ctx in
      at_channel a c is (
        adopt c is
          (record s { contexts = (c, ctx) ∷ s.contexts; resolved = set address_eq a c s.resolved }))

  unfoldable pub after_resolve : Address → List Place → W × Option C × Ran → State W C → Next W C
  unfolding at_channel
  after_resolve a is (w, ctx, ran results) s =
      by_name_verdict a is (stop_check results (codes "channel")) ctx (record s { world = w })
  after_resolve a is (w, ctx, store_failed why) s = crashes (record s { world = w })
  after_resolve a is (w, ctx, crashed) s = crashes (record s { world = w })

  -- A segment that is addressed by a handle, unless an earlier one has resolved it.
  unfoldable pub by_handle : Address → List Place → Option ℕ → State W C → Next W C
  unfolding after_resolve at_channel
  by_handle a is (some c) s = at_channel a c is (adopt c is s)
  by_handle a is none s =
      after_resolve a is (d.establish a s.world) (call d with_media (establishes a) s)

  abbrev by_channel : Address → List Place → Option ℕ → State W C → Next W C
  by_channel a is (some c) s = at_channel a c is s
  by_channel a is none s = by_handle a is (get address_eq a s.resolved) s

  unfoldable pub if_not_dead : Address → List Place → Option ℕ → Option Text → State W C → Next W C
  unfolding by_handle at_channel
  if_not_dead a is c (some why) s = goes_on (with_results (mark_no_access is why s.results) s)
  if_not_dead a is c none s = by_channel a is c s

  abbrev place_of : Assoc Text Place → ClassifiedRow → List Place → List Place
  place_of by_uri c later = elim (get text_eq c.uri by_uri) [ none ↦ later | some i ↦ i ∷ later ]

  abbrev places_of : Assoc Text Place → List ClassifiedRow → List Place
  places_of by_uri [] = []
  places_of by_uri (c ∷ cs) = place_of by_uri c (places_of by_uri cs)

  -- One turn of the loop over the segments.
  unfoldable pub run_segment : Assoc Text Place → Segment → State W C → Next W C
  unfolding if_not_dead
  run_segment by_uri seg s =
      let a = segment_address seg in
      if_not_dead a (places_of by_uri seg.rows) seg.channel_id (get address_eq a s.dead) s

  unfoldable pub run_segments : Assoc Text Place → List Segment → State W C → Next W C
  run_segments by_uri [] s = goes_on s
  run_segments by_uri (seg ∷ segs) s = elim (run_segment by_uri seg s) [
    | ends why s' ↦ ends why s'
    | crashes s' ↦ crashes s'
    | goes_on s' ↦ run_segments by_uri segs s'
  ]

-- `by_uri`, of the rows that are pending.
abbrev places_from : ℕ → List ClassifiedRow → Assoc Text Place → Assoc Text Place
places_from i [] by_uri = by_uri
places_from i (c ∷ cs) by_uri =
    places_from (suc i) cs (if is_pending c.outcome then set text_eq c.uri i by_uri else by_uri)

abbrev first_state : {W C : Type 0} → W → List ℕ → List ClassifiedRow → State W C
first_state w excluded_ids cs = record {
  world = w;
  results = initial_results cs;
  contexts = [];
  dead = [];
  resolved = [];
  excluded = excluded_ids;
  claimed = [];
  calls = [];
}

-- `fetch_from_list`, up to its report: why the command ended early, and the results.
unfoldable pub fetch_from_list :
    {W C : Type 0} → Driver W C → Bool → List ℕ → List ClassifiedRow → W → Next W C
unfolding run_segments
fetch_from_list d with_media excluded_ids cs w =
    run_segments d with_media (places_from 0 cs []) (plan_segments cs)
      (first_state w excluded_ids cs)
