-- ===== src/Fetch/Calls.antt =====
-- What the loop asks of the collectors: nothing of an excluded channel, and no post twice.
use paperboy.Base.{ℕ, ◌≡◌, sym, Bool, true, false, Option, none, some, List, [], ◌∷◌, arith}
use mathlib.Core.Path.{subst}
use paperboy.Base.Text.{Text, codes}
use paperboy.Base.Assoc.{Assoc, get}
use paperboy.Inputs.Entry.{Address, by_id, address_eq}
use paperboy.Inputs.Classify.{ClassifiedRow, is_in}
use paperboy.Inputs.Segments.{Segment, segment_address, plan_segments}
use paperboy.Fetch.Rows.{Place}
use paperboy.Fetch.Exclusion.{Covered}
use paperboy.Fetch.Covers.{CoversWell, excludes-CoversWell}
use paperboy.Fetch.Loop.{
  Driver, Ran, ran, store_failed, crashed, Verdict, carries_on, must_end, refused, stop_check,
  State, Next, goes_on, ends, crashes,
}
use paperboy.Fetch.OneSegment.{covered}
use paperboy.Fetch.{
  if_included, by_id_verdict, after_establish, with_context, if_not_covered, if_alive, at_channel,
  adopt, by_name_verdict, after_resolve, by_handle, if_not_dead, places_from, run_segment,
  run_segments, context_of, first_state, fetch_from_list,
}
use paperboy.Fetch.KeptOut.{
  is_in-Within, establishes-KeepsOut, fetch_rows-KeepsOut, KeepsOut, EndsKeepingOut,
}

module _ {W C : Type 0} (d : Driver W C) (with_media : Bool) (ex : List ℕ) where
  -- A check of a channel only adds to the excluded ones.
  covered-KeepsOut :
      (c : ℕ) (e : List ℕ) (b : Bool) (s : State W C)
      → CoversWell s.excluded c (some (e, b))
      → KeepsOut ex s
      → KeepsOut ex (record s { excluded = e })
  covered-KeepsOut c e true s h g = ((g.0.0, λ x m. h x (g.0.1 x m)), g.1)
  covered-KeepsOut c e false s h g =
      ((g.0.0, λ x m. subst (λ l. is_in l x ≡ true) (sym (h.0)) (g.0.1 x m)), g.1)

  if_included-KeepsOut :
      (a : Address) (c : ℕ) (ctx : C) (is : List Place) (v : Covered) (s : State W C)
      → CoversWell s.excluded c v
      → KeepsOut ex s
      → EndsKeepingOut ex (if_included d with_media a c ctx is v s)
  unfolding if_included
  if_included-KeepsOut a c ctx is none s h g = g
  if_included-KeepsOut a c ctx is (some (e, true)) s h g = covered-KeepsOut c e true s h g
  if_included-KeepsOut a c ctx is (some (e, false)) s h g =
      fetch_rows-KeepsOut d with_media ex a c ctx is (record s { excluded = e })
        (is_in-Within ex s.excluded c (g.0.1) (h.1)) (covered-KeepsOut c e false s h g)

  covered-CoversWell : (c : ℕ) (s : State W C) → CoversWell s.excluded c (covered d with_media c s)
  covered-CoversWell c s = excludes-CoversWell _ s.excluded c

  by_id_verdict-KeepsOut :
      (a : Address) (c : ℕ) (is : List Place) (v : Verdict) (ctx : Option C) (s : State W C)
      → KeepsOut ex s
      → EndsKeepingOut ex (by_id_verdict d with_media a c is v ctx s)
  by_id_verdict-KeepsOut a c is (must_end why) ctx s g = g
  by_id_verdict-KeepsOut a c is (refused why) ctx s g = g
  by_id_verdict-KeepsOut a c is carries_on none s g = g
  by_id_verdict-KeepsOut a c is carries_on (some ctx) s g =
      let s' = record s { contexts = (c, ctx) ∷ s.contexts } in
      if_included-KeepsOut a c ctx is (covered d with_media c s') s' (covered-CoversWell c s') g

  after_establish-KeepsOut :
      (a : Address) (c : ℕ) (is : List Place) (r : W × Option C × Ran) (s : State W C)
      → KeepsOut ex s
      → EndsKeepingOut ex (after_establish d with_media a c is r s)
  unfolding after_establish
  after_establish-KeepsOut a c is (w, ctx, ran results) s g =
      by_id_verdict-KeepsOut a c is (stop_check results (codes "channel")) ctx
        (record s { world = w }) g
  after_establish-KeepsOut a c is (w, ctx, store_failed why) s g = g
  after_establish-KeepsOut a c is (w, ctx, crashed) s g = g

  with_context-KeepsOut :
      (a : Address) (c : ℕ) (is : List Place) (ctx : Option C) (s : State W C)
      → is_in ex c ≡ false
      → KeepsOut ex s
      → EndsKeepingOut ex (with_context d with_media a c is ctx s)
  unfolding with_context
  with_context-KeepsOut a c is (some ctx) s out g =
      fetch_rows-KeepsOut d with_media ex a c ctx is s out g
  with_context-KeepsOut a c is none s out g =
      after_establish-KeepsOut a c is _ _ (establishes-KeepsOut d with_media ex (by_id c) s g)

  if_not_covered-KeepsOut :
      (a : Address) (c : ℕ) (is : List Place) (v : Covered) (s : State W C)
      → CoversWell s.excluded c v
      → KeepsOut ex s
      → EndsKeepingOut ex (if_not_covered d with_media a c is v s)
  unfolding if_not_covered
  if_not_covered-KeepsOut a c is none s h g = g
  if_not_covered-KeepsOut a c is (some (e, true)) s h g = covered-KeepsOut c e true s h g
  if_not_covered-KeepsOut a c is (some (e, false)) s h g =
      with_context-KeepsOut a c is (context_of d with_media c s.contexts)
        (record s { excluded = e }) (is_in-Within ex s.excluded c (g.0.1) (h.1))
        (covered-KeepsOut c e false s h g)

  if_alive-KeepsOut :
      (a : Address) (c : ℕ) (is : List Place) (dead : Option Text) (s : State W C)
      → KeepsOut ex s
      → EndsKeepingOut ex (if_alive d with_media a c is dead s)
  if_alive-KeepsOut a c is (some why) s g = g
  if_alive-KeepsOut a c is none s g =
      if_not_covered-KeepsOut a c is (covered d with_media c s) s (covered-CoversWell c s) g

  at_channel-KeepsOut :
      (a : Address) (c : ℕ) (is : List Place) (s : State W C)
      → KeepsOut ex s
      → EndsKeepingOut ex (at_channel d with_media a c is s)
  unfolding at_channel
  at_channel-KeepsOut a c is s g = if_alive-KeepsOut a c is (get address_eq (by_id c) s.dead) s g

  by_name_verdict-KeepsOut :
      (a : Address) (is : List Place) (v : Verdict) (ctx : Option C) (s : State W C)
      → KeepsOut ex s
      → EndsKeepingOut ex (by_name_verdict d with_media a is v ctx s)
  by_name_verdict-KeepsOut a is (must_end why) ctx s g = g
  by_name_verdict-KeepsOut a is (refused why) ctx s g = g
  by_name_verdict-KeepsOut a is carries_on none s g = g
  by_name_verdict-KeepsOut a is carries_on (some ctx) s g =
      at_channel-KeepsOut a (d.channel_id ctx) is _ g

  after_resolve-KeepsOut :
      (a : Address) (is : List Place) (r : W × Option C × Ran) (s : State W C)
      → KeepsOut ex s
      → EndsKeepingOut ex (after_resolve d with_media a is r s)
  unfolding after_resolve
  after_resolve-KeepsOut a is (w, ctx, ran results) s g =
      by_name_verdict-KeepsOut a is (stop_check results (codes "channel")) ctx
        (record s { world = w }) g
  after_resolve-KeepsOut a is (w, ctx, store_failed why) s g = g
  after_resolve-KeepsOut a is (w, ctx, crashed) s g = g

  by_handle-KeepsOut :
      (a : Address) (is : List Place) (c : Option ℕ) (s : State W C)
      → KeepsOut ex s
      → EndsKeepingOut ex (by_handle d with_media a is c s)
  unfolding by_handle
  by_handle-KeepsOut a is (some c) s g = at_channel-KeepsOut a c is (adopt d with_media c is s) g
  by_handle-KeepsOut a is none s g =
      after_resolve-KeepsOut a is _ _ (establishes-KeepsOut d with_media ex a s g)

  if_not_dead-KeepsOut :
      (a : Address) (is : List Place) (c : Option ℕ) (dead : Option Text) (s : State W C)
      → KeepsOut ex s
      → EndsKeepingOut ex (if_not_dead d with_media a is c dead s)
  unfolding if_not_dead
  if_not_dead-KeepsOut a is c (some why) s g = g
  if_not_dead-KeepsOut a is (some c) none s g = at_channel-KeepsOut a c is s g
  if_not_dead-KeepsOut a is none none s g =
      by_handle-KeepsOut a is (get address_eq a s.resolved) s g

  run_segments-KeepsOut :
      (by_uri : Assoc Text Place) (segs : List Segment) (s : State W C)
      → KeepsOut ex s
      → EndsKeepingOut ex (run_segments d with_media by_uri segs s)
  unfolding run_segments run_segment
  run_segments-KeepsOut by_uri [] s g = g
  run_segments-KeepsOut by_uri (seg ∷ segs) s g =
      elim (run_segment d with_media by_uri seg s)
          as (λ n.
            EndsKeepingOut ex n
            → EndsKeepingOut ex (elim n as (λ _. Next W C) [
              | ends why s' ↦ ends why s'
              | crashes s' ↦ crashes s'
              | goes_on s' ↦ run_segments d with_media by_uri segs s'
            ])) [
              | ends why s' ↦ λ h. h
              | crashes s' ↦ λ h. h
              | goes_on s' ↦ λ h. run_segments-KeepsOut by_uri segs s' h
            ]
        (if_not_dead-KeepsOut (segment_address seg) _ seg.channel_id
          (get address_eq (segment_address seg) s.dead) s g)

-- Whatever the runs of the collectors do, and however the command ends: posts and media are never
-- asked of a channel that was excluded from the start, and it is excluded at the end. No message is
-- named in two runs of the posts, whatever rows of the list address it, and one that is named is
-- claimed.
pub fetch_from_list-KeepsOut :
    {W C : Type 0} (d : Driver W C) (with_media : Bool) (excluded_ids : List ℕ)
    (cs : List ClassifiedRow) (w : W)
    → EndsKeepingOut excluded_ids (fetch_from_list d with_media excluded_ids cs w)
unfolding fetch_from_list
fetch_from_list-KeepsOut d with_media excluded_ids cs w =
    run_segments-KeepsOut d with_media excluded_ids (places_from 0 cs []) (plan_segments cs)
      (first_state w excluded_ids cs) ((tt, λ x h. h), λ c n. ground arith)
