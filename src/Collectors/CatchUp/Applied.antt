-- ===== src/Collectors/CatchUp/Applied.antt =====
-- A saved `pts` never runs ahead of what is logged.
use mathlib.Core.Path.{subst}
use mathlib.Core.List.{append-nil}
use paperboy.Base.{
  none, ℕ, zero, suc, ◌≡◌, refl, sym, ◌⊎◌, inl, inr, Option, some, List, [], ◌∷◌, length, leb,
  if◌then◌else◌, All, All-map_at, Bool-cases, Option-cases,
}
use paperboy.Base.Text.{Text}
use paperboy.Store.Messages.{Msg}
use paperboy.Store.Db.{message_object, difference, Update, Difference, Db, add_raw}
use paperboy.Collectors.Observe.{Ctx, Counts, no_counts, Attempt, completed, raised}
use paperboy.Collectors.Sweep.{Reply, replies, stops, get_or}
use paperboy.Collectors.History.Observed.{db_of}
use paperboy.Collectors.CatchUp.{
  Differences, Progress, with_tally, Turn, next_page, resynced, drained, stalled, out_of_pages,
  failed, observe_each, apply_updates, is_too_long, difference_kind, resync, turn_page,
  after_updates, after_messages, apply_difference, take_reply, turn, CaughtUp, clean, resync_needed,
  stall, page_budget_stop, exception, catch_up_loop, begin, catch_up,
}
use paperboy.Collectors.CatchUp.Growth.{
  Grows, Grows-refl, Grows-trans, gone, IsRecorded, IsRecorded-Grows, appended-IsRecorded,
  observe_each-Grows, observe_each-IsRecorded,
}
use paperboy.Collectors.CatchUp.Updates.{
  apply_updates-Grows, IsHandled, IsHandled-Grows, apply_updates-IsHandled,
}

-- What a difference carries, and the `pts` that it announces.
abbrev pub carried : Difference → List Msg
carried d = if is_too_long d then d.messages else d.new_messages

abbrev pub announced : Difference → Option ℕ
announced d = if is_too_long d then d.dialog_pts else d.pts

abbrev pub changes : Difference → List Update
changes d = if is_too_long d then [] else d.other_updates

-- A `pts` that may be saved: the one from before, or one that a logged difference announced which
-- is applied in full.
abbrev pub IsApplied : ℕ → ℕ → Db → ℕ → Type 0
IsApplied c first db n =
    (n ≡ first)
    ⊎ ((d : Difference) × (announced d ≡ some n)
        × IsRecorded c db (difference d)
        × All (λ m. IsRecorded c db (message_object m)) (carried d)
        × All (IsHandled c db) (changes d))

IsApplied-Grows :
    (c first : ℕ) (a b : Db) (n : ℕ) → Grows a b → IsApplied c first a n → IsApplied c first b n
IsApplied-Grows c first a b n g (inl e) = inl e
IsApplied-Grows c first a b n g (inr (d, e, seen, logged, handled)) = inr (
  d,
  e,
  IsRecorded-Grows c a b (difference d) g seen,
  All-map_at (carried d) logged (λ m l. IsRecorded-Grows c a b (message_object m) g l),
  All-map_at (changes d) handled (λ u h. IsHandled-Grows c a b u g h),
)

-- Both cursors, the one in use and the one in the store, are applied.
abbrev IsSafe : ℕ → ℕ → Progress → Type 0
IsSafe c first p = IsApplied c first p.db p.pts × IsApplied c first p.db (get_or 0 p.saved_pts)

abbrev progress_of : Turn → Progress
progress_of (next_page q) = q
progress_of (resynced q) = q
progress_of (drained q) = q
progress_of (stalled q) = q
progress_of (out_of_pages q) = q
progress_of (failed q) = q

with_tally-IsSafe :
    (c first : ℕ) (p : Progress) (r : Db × Counts)
    → Grows p.db r.0
    → IsSafe c first p
    → IsSafe c first (with_tally p r)
with_tally-IsSafe c first p r g safe = (
  IsApplied-Grows c first p.db r.0 p.pts g safe.0,
  IsApplied-Grows c first p.db r.0 (get_or 0 p.saved_pts) g safe.1,
)

-- The page moves the cursors only to what it announces.
turn_page-IsSafe :
    (c first budget : ℕ) (d : Difference) (p : Progress)
    → IsSafe c first p
    → IsApplied c first p.db (get_or p.pts d.pts)
    → IsSafe c first (progress_of (turn_page budget d p))
unfolding turn_page
turn_page-IsSafe c first budget d p safe moved = elim (Bool-cases d.final) [
  | inl y ↦ rw y (safe.0, moved)
  | inr n ↦ elim (Bool-cases (leb (get_or p.pts d.pts) p.pts)) [
    | inl y ↦ rw (n, y) safe
    | inr k ↦ elim (Bool-cases (leb budget (suc p.pages))) [
      | inl y ↦ rw (n, k, y) (moved, moved)
      | inr l ↦ rw (n, k, l) (moved, moved)
    ]
  ]
]

after_updates-IsSafe :
    (c first budget : ℕ) (d : Difference) (p : Progress) (u : Attempt (Db × Counts))
    → Grows p.db (db_of u)
    → IsSafe c first p
    → ((s : Db × Counts) → u ≡ completed s → IsApplied c first s.0 (get_or p.pts d.pts))
    → IsSafe c first (progress_of (after_updates budget d p u))
after_updates-IsSafe c first budget d p (raised u) g safe moved =
    with_tally-IsSafe c first p u g safe
after_updates-IsSafe c first budget d p (completed u) g safe moved =
    turn_page-IsSafe c first budget d (with_tally p u) (with_tally-IsSafe c first p u g safe)
      (moved u refl)

after_messages-IsSafe :
    (c first : ℕ) (ctx : Ctx) (budget t : ℕ) (d : Difference) (p : Progress)
    (r : Attempt (Db × Counts))
    → Grows p.db (db_of r)
    → IsSafe c first p
    → ((s s' : Db × Counts)
        → r ≡ completed s
        → apply_updates ctx t s d.other_updates ≡ completed s'
        → IsApplied c first s'.0 (get_or p.pts d.pts))
    → IsSafe c first (progress_of (after_messages ctx budget t d p r))
after_messages-IsSafe c first ctx budget t d p (raised s) g safe moved =
    with_tally-IsSafe c first p s g safe
after_messages-IsSafe c first ctx budget t d p (completed s) g safe moved =
    let u = apply_updates ctx t s d.other_updates in
    after_updates-IsSafe c first budget d p u
      (Grows-trans p.db s.0 (db_of u) g (apply_updates-Grows ctx t s d.other_updates)) safe
      (λ s' e. moved s s' refl e)

resync-IsSafe :
    (c first : ℕ) (d : Difference) (p : Progress) (r : Attempt (Db × Counts))
    → Grows p.db (db_of r)
    → IsSafe c first p
    → ((s : Db × Counts) (n : ℕ)
        → r ≡ completed s
        → d.dialog_pts ≡ some n
        → IsApplied c first s.0 n)
    → IsSafe c first (progress_of (resync d p r))
resync-IsSafe c first d p (raised s) g safe moved = with_tally-IsSafe c first p s g safe
resync-IsSafe c first d p (completed s) g safe moved = elim (Option-cases d.dialog_pts) [
  | inl absent ↦ rw absent (with_tally-IsSafe c first p s g safe)
  | inr (n, e) ↦ rw e ((with_tally-IsSafe c first p s g safe).0, moved s n refl e)
]

-- What an observed page announces is applied, once its changes are handled.
page_IsApplied :
    (first : ℕ) (ctx : Ctx) (db : Db) (counts : Counts) (d : Difference) (s : Db × Counts)
    (db' : Db) (n : ℕ)
    → IsRecorded ctx.channel_id db (difference d)
    → observe_each ctx (db, counts) (carried d) ≡ completed s
    → Grows s.0 db'
    → All (IsHandled ctx.channel_id db') (changes d)
    → announced d ≡ some n
    → IsApplied ctx.channel_id first db' n
page_IsApplied first ctx db counts d s db' n seen whole g handled e = inr (
  d,
  e,
  IsRecorded-Grows ctx.channel_id db db' (difference d) (Grows-trans db s.0 db' before g) seen,
  All-map_at (carried d) (observe_each-IsRecorded ctx (db, counts) (carried d) s whole)
      (λ m l. IsRecorded-Grows ctx.channel_id s.0 db' (message_object m) g l),
  handled,
)
  where
    before : Grows db s.0
    before = subst (λ x. Grows db (db_of x)) whole (observe_each-Grows ctx (db, counts) (carried d))

add_raw-Grows :
    (db : Db) (kind : Text) (d : Difference) (tier : Text) (channel_id : ℕ) (method : Option Text)
    (t : ℕ)
    → Grows db (add_raw db kind (difference d) tier channel_id method t).0
      × IsRecorded channel_id
          (add_raw db kind (difference d) tier channel_id method t).0
          (difference d)
unfolding add_raw
add_raw-Grows db kind d tier channel_id method t = (
  ((_ ∷ [], refl), ([], sym (append-nil (gone db)))),
  appended-IsRecorded channel_id db.raws _ _ refl refl,
)

-- The page that is observed and whose updates are applied grows the store.
page-Grows :
    (ctx : Ctx) (t : ℕ) (a db : Db) (counts : Counts) (ms : List Msg) (us : List Update)
    (s s' : Db × Counts)
    → Grows a db
    → observe_each ctx (db, counts) ms ≡ completed s
    → apply_updates ctx t s us ≡ completed s'
    → Grows a s.0 × Grows s.0 s'.0
page-Grows ctx t a db counts ms us s s' g whole more = (
  Grows-trans a db s.0 g
      (subst (λ x. Grows db (db_of x)) whole (observe_each-Grows ctx (db, counts) ms)),
  subst (λ x. Grows s.0 (db_of x)) more (apply_updates-Grows ctx t s us),
)

apply_difference-IsSafe :
    (first : ℕ) (ctx : Ctx) (budget : ℕ) (p : Progress) (d : Difference)
    → IsSafe ctx.channel_id first p
    → IsSafe ctx.channel_id first (progress_of (apply_difference ctx budget p d))
apply_difference-IsSafe first ctx budget p d safe = elim (Bool-cases (is_too_long d)) [
  | inl y ↦ rw y (
      resync-IsSafe ctx.channel_id first d p (observe_each ctx (db, p.counts) d.messages)
        (Grows-trans p.db db (db_of (observe_each ctx (db, p.counts) d.messages)) logged.0
          (observe_each-Grows ctx (db, p.counts) d.messages))
        safe
        (λ s n whole e.
          page_IsApplied first ctx db p.counts d s s.0 n logged.1 (rw y whole) (Grows-refl s.0)
            (rw y tt) (rw y e)))
  | inr k ↦ rw k (
      after_messages-IsSafe ctx.channel_id first ctx budget t d p
        (observe_each ctx (db, p.counts) d.new_messages)
        (Grows-trans p.db db (db_of (observe_each ctx (db, p.counts) d.new_messages)) logged.0
          (observe_each-Grows ctx (db, p.counts) d.new_messages))
        safe
        (λ s s' whole more.
          let (before, after) =
            page-Grows ctx t p.db db p.counts d.new_messages d.other_updates s s' logged.0 whole
              more in
          elim (Option-cases d.pts) [
            | inl absent ↦ rw absent (
                IsApplied-Grows ctx.channel_id first p.db s'.0 p.pts
                  (Grows-trans p.db s.0 s'.0 before after) safe.0)
            | inr (n, e) ↦ rw e (
                page_IsApplied first ctx db p.counts d s s'.0 n logged.1 (rw k whole) after
                  (rw k (apply_updates-IsHandled ctx t s d.other_updates s' more)) (rw k e))
          ]))
]
  where
    t : ℕ
    t = ctx.for_payload (length p.db.raws) (difference d)

    db : Db
    db = (add_raw p.db (difference_kind d) (difference d) ctx.tier ctx.channel_id none t).0

    logged : Grows p.db db × IsRecorded ctx.channel_id db (difference d)
    logged = add_raw-Grows p.db (difference_kind d) d ctx.tier ctx.channel_id none t

take_reply-IsSafe :
    (first : ℕ) (ctx : Ctx) (budget : ℕ) (p : Progress) (reply : Reply Difference)
    → IsSafe ctx.channel_id first p
    → IsSafe ctx.channel_id first (progress_of (take_reply ctx budget p reply))
take_reply-IsSafe first ctx budget p stops safe = safe
take_reply-IsSafe first ctx budget p (replies d) safe =
    apply_difference-IsSafe first ctx budget p d safe

catch_up_loop-IsSafe :
    (first fuel : ℕ) (ctx : Ctx) (g : Differences) (budget : ℕ) (p : Progress)
    → IsSafe ctx.channel_id first p
    → IsSafe ctx.channel_id first (catch_up_loop fuel ctx g budget p).0
unfolding catch_up_loop turn
catch_up_loop-IsSafe first zero ctx g budget p safe = safe
catch_up_loop-IsSafe first (suc fuel) ctx g budget p safe =
    (elim (take_reply ctx budget p (g p.pts))
        as (λ r.
          IsSafe ctx.channel_id first (progress_of r)
          → IsSafe ctx.channel_id first
              (elim r as (λ r. Progress × CaughtUp) [
                | next_page q ↦ catch_up_loop fuel ctx g budget q
                | resynced q ↦ (q, resync_needed)
                | drained q ↦ (q, clean)
                | stalled q ↦ (q, stall)
                | out_of_pages q ↦ (q, page_budget_stop)
                | failed q ↦ (q, exception)
              ]).0) [
                | next_page q ↦ λ k. catch_up_loop-IsSafe first fuel ctx g budget q k
                | resynced q ↦ λ k. k
                | drained q ↦ λ k. k
                | stalled q ↦ λ k. k
                | out_of_pages q ↦ λ k. k
                | failed q ↦ λ k. k
              ])
      (take_reply-IsSafe first ctx budget p (g p.pts) safe)

-- However a catch-up ends, the `pts` that it leaves saved is the one that was saved before (0 if
-- none), or one that a difference announced which is applied in full: the log of the channel has
-- the difference itself, each message that it carries and, unless it was too long, each edited
-- message among its other updates, and each message that those delete has a tombstone. So an
-- interruption never steps over a message, an edit or a deletion.
pub catch_up-IsApplied :
    (fuel : ℕ) (ctx : Ctx) (g : Differences) (budget : ℕ) (db : Db) (saved : Option ℕ)
    → IsApplied ctx.channel_id
        (get_or 0 saved)
        (catch_up fuel ctx g budget db saved).0.db
        (get_or 0 (catch_up fuel ctx g budget db saved).0.saved_pts)
unfolding catch_up begin
catch_up-IsApplied fuel ctx g budget db saved =
    (catch_up_loop-IsSafe (get_or 0 saved) fuel ctx g budget
      (record { db = db; counts = no_counts; saved_pts = saved; pts = get_or 0 saved; pages = 0 })
      (inl refl, inl refl)).1
