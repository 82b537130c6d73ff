-- ===== src/Fetch/KeptOut.antt =====
-- What is asked within one segment keeps excluded channels out.
use paperboy.Base.{
  ℕ, ◌≡◌, Bool, true, false, Option, none, some, List, [], ◌∷◌, ◌++◌, if◌then◌else◌, arith, All,
  All-append,
}
use paperboy.Base.Text.{Text, codes}
use paperboy.Base.Assoc.{Assoc}
use paperboy.Collectors.Posts.{Outcomes}
use paperboy.Media.Store.{ok, unreachable, integrity, value_error}
use paperboy.Media.Phase.State.{Outcome}
use paperboy.Inputs.Entry.{Address}
use paperboy.Inputs.Classify.{is_in, is_seen}
use paperboy.Fetch.Rows.{Place}
use paperboy.Fetch.Refresh.{RefreshEnd, refresh_rows, refresh_or_forget}
use paperboy.Fetch.Covers.{Within}
use paperboy.Fetch.Claims.{
  PostsOnce, PostsOnce-establishes, PostsOnce-media, PostsOnce-posts, ClaimsWell,
  ClaimsWell-claim_rows,
}
use paperboy.Fetch.Loop.{
  Driver, Ran, ran, store_failed, crashed, Verdict, carries_on, must_end, refused, stop_check,
  media_verdict, Call, establishes, fetches_posts, fetches_media, State, Next, goes_on, ends,
  crashes,
}
use paperboy.Fetch.OneSegment.{
  with_results, unless_ended, settle_all, finish, after_media, media_step, after_refresh,
  by_verdict, after_posts, claim, claim_new, claim_id, msg_id_at, ids_at, fetch_claimed, fetch_rows,
  call,
}

-- Posts and media are not of an excluded channel.
abbrev pub IsAllowed : List ℕ → Call → Type 0
IsAllowed excluded_ids (establishes a) = Unit
IsAllowed excluded_ids (fetches_posts c ids) = is_in excluded_ids c ≡ false
IsAllowed excluded_ids (fetches_media c ids) = is_in excluded_ids c ≡ false

-- The calls so far are allowed, and what was excluded at first still is.
abbrev pub Allows : {W C : Type 0} → List ℕ → State W C → Type 0
Allows excluded_ids s = All (IsAllowed excluded_ids) s.calls × Within excluded_ids s.excluded

-- Besides, no message is listed twice.
abbrev pub KeepsOut : {W C : Type 0} → List ℕ → State W C → Type 0
KeepsOut excluded_ids s = Allows excluded_ids s × PostsOnce s.calls s.claimed

-- However the loop ends.
abbrev pub EndsKeepingOut : {W C : Type 0} → List ℕ → Next W C → Type 0
EndsKeepingOut excluded_ids (goes_on s) = KeepsOut excluded_ids s
EndsKeepingOut excluded_ids (ends why s) = KeepsOut excluded_ids s
EndsKeepingOut excluded_ids (crashes s) = KeepsOut excluded_ids s

-- What a larger set does not have, a smaller one does not have.
pub is_in-Within :
    (ids ids' : List ℕ) (c : ℕ) → Within ids ids' → is_in ids' c ≡ false → is_in ids c ≡ false
is_in-Within ids ids' c h out = ground (arith, h c)

module _ {W C : Type 0} (d : Driver W C) (with_media : Bool) (ex : List ℕ) where
  settle_all-KeepsOut :
      (posts : Outcomes) (media : Assoc Text Outcome) (is : List Place) (s : State W C)
      → KeepsOut ex s
      → KeepsOut ex (settle_all d with_media posts media is s)
  unfolding settle_all
  settle_all-KeepsOut posts media [] s g = g
  settle_all-KeepsOut posts media (i ∷ is) s g = settle_all-KeepsOut posts media is _ g

  call-KeepsOut :
      (c : Call) (s : State W C)
      → IsAllowed ex c
      → PostsOnce (s.calls ++ c ∷ []) s.claimed
      → Allows ex s
      → KeepsOut ex (call d with_media c s)
  call-KeepsOut c s allowed once g =
      ((All-append (IsAllowed ex) s.calls (c ∷ []) g.0 (allowed, tt), g.1), once)

  pub establishes-KeepsOut :
      (a : Address) (s : State W C)
      → KeepsOut ex s
      → KeepsOut ex (call d with_media (establishes a) s)
  establishes-KeepsOut a s g =
      call-KeepsOut (establishes a) s tt (PostsOnce-establishes s.calls s.claimed a g.1) g.0

  unless_ended-KeepsOut :
      (why : Option Text) (s : State W C)
      → KeepsOut ex s
      → EndsKeepingOut ex (unless_ended d with_media why s)
  unless_ended-KeepsOut none s g = g
  unless_ended-KeepsOut (some why) s g = g

  after_media-KeepsOut :
      (posts : Outcomes) (is : List Place) (r : W × Assoc Text Outcome × Ran) (s : State W C)
      → KeepsOut ex s
      → EndsKeepingOut ex (after_media d with_media posts is r s)
  after_media-KeepsOut posts is (w, media, ran results) s g =
      unless_ended-KeepsOut (media_verdict results) _
        (settle_all-KeepsOut posts media is (record s { world = w }) g)
  after_media-KeepsOut posts is (w, media, store_failed why) s g =
      settle_all-KeepsOut posts media is (record s { world = w }) g
  after_media-KeepsOut posts is (w, media, crashed) s g =
      settle_all-KeepsOut posts media is (record s { world = w }) g

  finish-KeepsOut :
      (c : ℕ) (posts : Outcomes) (is : List Place) (s : State W C)
      → KeepsOut ex s
      → KeepsOut ex (finish d with_media c posts is s)
  finish-KeepsOut c posts is s g =
      settle_all-KeepsOut posts [] is
        (with_results (refresh_or_forget (d.known s.world) c posts is s.results) s) g

  media_step-KeepsOut :
      (c : ℕ) (ctx : C) (posts : Outcomes) (is : List Place) (ids : List ℕ) (s : State W C)
      → is_in ex c ≡ false
      → KeepsOut ex s
      → EndsKeepingOut ex (media_step d with_media c ctx posts is ids s)
  media_step-KeepsOut c ctx posts is [] s out g = settle_all-KeepsOut posts [] is s g
  media_step-KeepsOut c ctx posts is (n ∷ ids) s out g = by_flag with_media
    where
      by_flag :
          (b : Bool)
          → EndsKeepingOut ex (
              if b
              then after_media d with_media posts is
                  (d.fetch_media ctx c (n ∷ ids) s.world)
                  (call d with_media (fetches_media c (n ∷ ids)) s)
              else goes_on (settle_all d with_media posts [] is s))
      by_flag true = after_media-KeepsOut posts is _ _ (
          call-KeepsOut (fetches_media c (n ∷ ids)) s out
            (PostsOnce-media s.calls s.claimed c (n ∷ ids) g.1) g.0)
      by_flag false = settle_all-KeepsOut posts [] is s g

  after_refresh-KeepsOut :
      (c : ℕ) (ctx : C) (posts : Outcomes) (is : List Place) (e : RefreshEnd) (s : State W C)
      → is_in ex c ≡ false
      → KeepsOut ex s
      → EndsKeepingOut ex (after_refresh d with_media c ctx posts is e s)
  after_refresh-KeepsOut c ctx posts is (rs, ok ids) s out g =
      media_step-KeepsOut c ctx posts is ids (with_results rs s) out g
  after_refresh-KeepsOut c ctx posts is (rs, unreachable) s out g =
      finish-KeepsOut c posts is (with_results rs s) g
  after_refresh-KeepsOut c ctx posts is (rs, integrity) s out g =
      finish-KeepsOut c posts is (with_results rs s) g
  after_refresh-KeepsOut c ctx posts is (rs, value_error) s out g =
      finish-KeepsOut c posts is (with_results rs s) g

  by_verdict-KeepsOut :
      (a : Address) (c : ℕ) (ctx : C) (posts : Outcomes) (is : List Place) (v : Verdict)
      (s : State W C)
      → is_in ex c ≡ false
      → KeepsOut ex s
      → EndsKeepingOut ex (by_verdict d with_media a c ctx posts is v s)
  by_verdict-KeepsOut a c ctx posts is carries_on s out g =
      after_refresh-KeepsOut c ctx posts is (refresh_rows (d.known s.world) c posts is s.results) s
        out g
  by_verdict-KeepsOut a c ctx posts is (must_end why) s out g = finish-KeepsOut c posts is s g
  by_verdict-KeepsOut a c ctx posts is (refused why) s out g = finish-KeepsOut c posts is s g

  after_posts-KeepsOut :
      (a : Address) (c : ℕ) (ctx : C) (is : List Place) (r : W × Outcomes × Ran) (s : State W C)
      → is_in ex c ≡ false
      → KeepsOut ex s
      → EndsKeepingOut ex (after_posts d with_media a c ctx is r s)
  unfolding after_posts
  after_posts-KeepsOut a c ctx is (w, posts, ran results) s out g =
      by_verdict-KeepsOut a c ctx posts is (stop_check results (codes "posts"))
        (record s { world = w }) out g
  after_posts-KeepsOut a c ctx is (w, posts, store_failed why) s out g =
      finish-KeepsOut c posts is (record s { world = w }) g
  after_posts-KeepsOut a c ctx is (w, posts, crashed) s out g =
      finish-KeepsOut c posts is (record s { world = w }) g

  claim_new-Allows :
      (b : Bool) (i : Place) (kept : List Place) (s : State W C)
      → Allows ex s
      → Allows ex ((claim_new d with_media b i (kept, s)).1)
  claim_new-Allows true i kept s g = g
  claim_new-Allows false i kept s g = g

  claim_id-Allows :
      (c : ℕ) (i : Place) (n : Option ℕ) (kept : List Place) (s : State W C)
      → Allows ex s
      → Allows ex ((claim_id d with_media c i n (kept, s)).1)
  claim_id-Allows c i none kept s g = g
  claim_id-Allows c i (some n) kept s g =
      claim_new-Allows (is_seen s.claimed c n) i kept (record s { claimed = (c, n) ∷ s.claimed }) g

  claim-Allows :
      (c : ℕ) (is : List Place) (p : List Place × State W C)
      → Allows ex (p.1)
      → Allows ex ((claim d with_media c is p).1)
  unfolding claim
  claim-Allows c [] p g = g
  claim-Allows c (i ∷ is) (kept, s) g =
      claim-Allows c is _ (claim_id-Allows c i (msg_id_at d with_media i s.results) kept s g)

  fetch_claimed-KeepsOut :
      (a : Address) (c : ℕ) (ctx : C) (p : List Place × State W C)
      → is_in ex c ≡ false
      → Allows ex (p.1)
      → ClaimsWell d with_media c p
      → EndsKeepingOut ex (fetch_claimed d with_media a c ctx p)
  unfolding fetch_claimed
  fetch_claimed-KeepsOut a c ctx ([], s) out g (once, fresh) = (g, once)
  fetch_claimed-KeepsOut a c ctx (i ∷ is, s) out g (once, fresh) =
      after_posts-KeepsOut a c ctx (i ∷ is) _ _ out (
        call-KeepsOut (fetches_posts c _) s out
          (PostsOnce-posts s.calls s.claimed c (ids_at d with_media (i ∷ is) s.results) once fresh)
          g)

  pub fetch_rows-KeepsOut :
      (a : Address) (c : ℕ) (ctx : C) (is : List Place) (s : State W C)
      → is_in ex c ≡ false
      → KeepsOut ex s
      → EndsKeepingOut ex (fetch_rows d with_media a c ctx is s)
  fetch_rows-KeepsOut a c ctx is s out g =
      fetch_claimed-KeepsOut a c ctx _ out (claim-Allows c is ([], s) g.0)
        (ClaimsWell-claim_rows d with_media c is ([], s) (g.1, λ n h. ground arith))
