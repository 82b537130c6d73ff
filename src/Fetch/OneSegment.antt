-- ===== src/Fetch/OneSegment.antt =====
-- fetch_from_list.py: what happens to the rows of one segment, from the posts on.
use paperboy.Base.{ℕ, Bool, true, false, Option, none, some, List, [], ◌∷◌, ◌++◌, if◌then◌else◌}
use paperboy.Base.Text.{Text, codes, text_eq}
use paperboy.Base.Assoc.{Assoc, get, set}
use paperboy.Collectors.Posts.{Outcomes}
use paperboy.Media.Store.{ok, unreachable, integrity, value_error}
use paperboy.Media.Phase.State.{Outcome}
use paperboy.Inputs.Entry.{Address, by_id, address_eq}
use paperboy.Inputs.Classify.{is_seen}
use paperboy.Recipes.{sorted_set}
use paperboy.Fetch.Exclusion.{Covered, linked_discussion_groups, excludes}
use paperboy.Fetch.Rows.{
  RowResult, Place, repeated, update_at, result_at, mark_no_access, mark_excluded, settle,
}
use paperboy.Fetch.Refresh.{RefreshEnd, refresh_rows, refresh_or_forget}
use paperboy.Fetch.Loop.{
  Driver, Ran, ran, store_failed, crashed, Verdict, carries_on, must_end, refused, stop_check,
  media_verdict, Call, fetches_posts, fetches_media, State, Next, goes_on, ends, crashes,
}

abbrev pub with_results : {W C : Type 0} → List RowResult → State W C → State W C
with_results rs s = record s { results = rs }

abbrev pub with_id : Option ℕ → List ℕ → List ℕ
with_id none ids = ids
with_id (some n) ids = n ∷ ids

module _ {W C : Type 0} (d : Driver W C) (with_media : Bool) where
  -- A refused channel: it is not asked again, and its rows have no access.
  abbrev pub refuse : List Address → List Place → Text → State W C → State W C
  refuse [] is why s = with_results (mark_no_access is why s.results) s
  refuse (a ∷ as') is why s = refuse as' is why (record s { dead = set address_eq a why s.dead })

  -- The rows of an excluded channel.
  abbrev pub exclude : List Place → State W C → State W C
  exclude is s = with_results (mark_excluded is s.results) s

  abbrev pub call : Call → State W C → State W C
  call c s = record s { calls = s.calls ++ c ∷ [] }

  abbrev pub covered : ℕ → State W C → Covered
  covered c s =
      excludes (linked_discussion_groups (d.known s.world).channels (d.edges s.world)) s.excluded c

  -- Every row of the segment is settled.
  unfoldable pub settle_all : Outcomes → Assoc Text Outcome → List Place → State W C → State W C
  settle_all posts media [] s = s
  settle_all posts media (i ∷ is) s = settle_all posts media is (record s {
    results =
        update_at i
          (λ r.
            settle (d.known s.world).messages with_media (get text_eq r.classified.uri posts)
              (get text_eq r.classified.uri media) r)
          s.results;
  })

  -- The `finally` clause, with what the rows show after the posts, unless they were refreshed.
  abbrev pub finish : ℕ → Outcomes → List Place → State W C → State W C
  finish c posts is s =
      settle_all posts [] is
        (with_results (refresh_or_forget (d.known s.world) c posts is s.results) s)

  abbrev pub unless_ended : Option Text → State W C → Next W C
  unless_ended none s = goes_on s
  unless_ended (some why) s = ends why s

  -- `_run_media_step`, and the `finally` clause after it.
  abbrev pub after_media :
      Outcomes → List Place → (W × Assoc Text Outcome × Ran) → State W C → Next W C
  after_media posts is (w, media, ran results) s =
      unless_ended (media_verdict results) (settle_all posts media is (record s { world = w }))
  after_media posts is (w, media, store_failed why) s =
      ends why (settle_all posts media is (record s { world = w }))
  after_media posts is (w, media, crashed) s =
      crashes (settle_all posts media is (record s { world = w }))

  abbrev pub media_step : ℕ → C → Outcomes → List Place → List ℕ → State W C → Next W C
  media_step c ctx posts is [] s = goes_on (settle_all posts [] is s)
  media_step c ctx posts is (n ∷ ids) s =
      if with_media
      then after_media posts is (d.fetch_media ctx c (n ∷ ids) s.world)
          (call (fetches_media c (n ∷ ids)) s)
      else goes_on (settle_all posts [] is s)

  -- After the posts, the rows are judged anew. What that raises is handled as the posts' error is; the
  -- reason here is without the text of the exception.
  abbrev pub after_refresh : ℕ → C → Outcomes → List Place → RefreshEnd → State W C → Next W C
  after_refresh c ctx posts is (rs, ok ids) s = media_step c ctx posts is ids (with_results rs s)
  after_refresh c ctx posts is (rs, unreachable) s =
      ends (codes "media store unreachable") (finish c posts is (with_results rs s))
  after_refresh c ctx posts is (rs, integrity) s =
      ends (codes "media store unreachable") (finish c posts is (with_results rs s))
  after_refresh c ctx posts is (rs, value_error) s = crashes (finish c posts is (with_results rs s))

  abbrev pub by_verdict : Address → ℕ → C → Outcomes → List Place → Verdict → State W C → Next W C
  by_verdict a c ctx posts is carries_on s =
      after_refresh c ctx posts is (refresh_rows (d.known s.world) c posts is s.results) s
  by_verdict a c ctx posts is (must_end why) s = ends why (finish c posts is s)
  by_verdict a c ctx posts is (refused why) s =
      goes_on (refuse (a ∷ by_id c ∷ []) is why (finish c posts is s))

  -- Run 1 of the segment.
  unfoldable pub after_posts :
      Address → ℕ → C → List Place → (W × Outcomes × Ran) → State W C → Next W C
  unfolding settle_all
  after_posts a c ctx is (w, posts, ran results) s =
      by_verdict a c ctx posts is (stop_check results (codes "posts")) (record s { world = w })
  after_posts a c ctx is (w, posts, store_failed why) s =
      ends why (finish c posts is (record s { world = w }))
  after_posts a c ctx is (w, posts, crashed) s =
      crashes (finish c posts is (record s { world = w }))

  abbrev pub msg_id_at : Place → List RowResult → Option ℕ
  msg_id_at i rs = elim (result_at i rs) [ none ↦ none | some r ↦ some r.classified.row.msg_id ]

  abbrev pub claim_new : Bool → Place → List Place × State W C → List Place × State W C
  claim_new true i (kept, s) = (
    kept,
    with_results (update_at i (λ r. record r { outcome = repeated; reason = [] }) s.results) s,
  )
  claim_new false i (kept, s) = (kept ++ i ∷ [], s)

  abbrev pub claim_id : ℕ → Place → Option ℕ → List Place × State W C → List Place × State W C
  claim_id c i none (kept, s) = (kept, s)
  claim_id c i (some n) (kept, s) =
      claim_new (is_seen s.claimed c n) i (kept, record s { claimed = (c, n) ∷ s.claimed })

  -- The rows whose message no earlier row has claimed, and the state with their claims.
  unfoldable pub claim : ℕ → List Place → List Place × State W C → List Place × State W C
  claim c [] p = p
  claim c (i ∷ is) (kept, s) = claim c is (claim_id c i (msg_id_at i s.results) (kept, s))

  abbrev pub ids_at : List Place → List RowResult → List ℕ
  ids_at [] rs = []
  ids_at (i ∷ is) rs = with_id (msg_id_at i rs) (ids_at is rs)

  -- The posts of the rows that are left; nothing is asked if there is none.
  unfoldable pub fetch_claimed : Address → ℕ → C → List Place × State W C → Next W C
  unfolding after_posts
  fetch_claimed a c ctx ([], s) = goes_on s
  fetch_claimed a c ctx (i ∷ is, s) =
      let ids = sorted_set (ids_at (i ∷ is) s.results) in
      after_posts a c ctx (i ∷ is) (d.fetch_posts ctx c ids s.world) (call (fetches_posts c ids) s)

  abbrev pub fetch_rows : Address → ℕ → C → List Place → State W C → Next W C
  fetch_rows a c ctx is s = fetch_claimed a c ctx (claim c is ([], s))
