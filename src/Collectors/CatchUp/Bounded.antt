-- ===== src/Collectors/CatchUp/Bounded.antt =====
-- Whatever the server answers, a catch-up asks for at most as many pages as its budget has.
use paperboy.Base.{ℕ, zero, suc, ◌+◌, ◌≡◌, ◌≢◌, ◌≤◌, ◌<◌, max, Option, arith, Bool-cases, inl, inr}
use paperboy.Store.Db.{Db, Difference}
use paperboy.Collectors.Observe.{Ctx, Counts, Attempt, completed, raised}
use paperboy.Collectors.Sweep.{Reply, replies, stops}
use paperboy.Collectors.CatchUp.{
  Differences, Progress, with_tally, Turn, next_page, resynced, drained, stalled, out_of_pages,
  failed, apply_updates, is_too_long, resync, turn_page, after_updates, after_messages, take_reply,
  turn, CaughtUp, clean, resync_needed, stall, page_budget_stop, exception, unfinished,
  catch_up_loop, begin, catch_up,
}

-- Another page is asked for only with one page less left.
abbrev IsNear : ℕ → ℕ → Turn → Type 0
IsNear budget pages (next_page q) = (q.pages ≡ suc pages) × (suc pages < budget)
IsNear budget pages r = Unit

turn_page-IsNear :
    (budget : ℕ) (d : Difference) (p : Progress) → IsNear budget p.pages (turn_page budget d p)
unfolding turn_page
turn_page-IsNear budget d p = ground arith

after_messages-IsNear :
    (ctx : Ctx) (budget t : ℕ) (d : Difference) (p : Progress) (r : Attempt (Db × Counts))
    → IsNear budget p.pages (after_messages ctx budget t d p r)
after_messages-IsNear ctx budget t d p (raised r) = tt
after_messages-IsNear ctx budget t d p (completed r) = go (apply_updates ctx t r d.other_updates)
  where
    go : (u : Attempt (Db × Counts)) → IsNear budget p.pages (after_updates budget d p u)
    go (raised u) = tt
    go (completed u) = turn_page-IsNear budget d (with_tally p u)

resync-IsNear :
    (budget pages : ℕ) (d : Difference) (p : Progress) (r : Attempt (Db × Counts))
    → IsNear budget pages (resync d p r)
resync-IsNear budget pages d p (raised r) = tt
resync-IsNear budget pages d p (completed r) = tt

take_reply-IsNear :
    (ctx : Ctx) (budget : ℕ) (p : Progress) (reply : Reply Difference)
    → IsNear budget p.pages (take_reply ctx budget p reply)
take_reply-IsNear ctx budget p stops = tt
take_reply-IsNear ctx budget p (replies d) = elim (Bool-cases (is_too_long d)) [
  | inl y ↦ rw y (resync-IsNear budget p.pages d p _)
  | inr n ↦ rw n (after_messages-IsNear ctx budget _ d p _)
]

abbrev settled : ℕ → Ctx → Differences → ℕ → Turn → Progress × CaughtUp
settled fuel ctx g budget r = elim r [
  | next_page q ↦ catch_up_loop fuel ctx g budget q
  | resynced q ↦ (q, resync_needed)
  | drained q ↦ (q, clean)
  | stalled q ↦ (q, stall)
  | out_of_pages q ↦ (q, page_budget_stop)
  | failed q ↦ (q, exception)
]

-- Fuel for the pages that are left, and one for the first page.
catch_up_loop-Bounded :
    (fuel : ℕ) (ctx : Ctx) (g : Differences) (budget : ℕ) (p : Progress)
    → max 1 budget ≤ fuel + p.pages
    → (p.pages < max 1 budget)
    → (catch_up_loop fuel ctx g budget p).1 ≢ unfinished
unfolding catch_up_loop turn
catch_up_loop-Bounded zero ctx g budget p enough left = absurd (omega (arith, enough, left))
catch_up_loop-Bounded (suc fuel) ctx g budget p enough left =
    go (turn ctx g budget p) (take_reply-IsNear ctx budget p (g p.pts))
      (λ q. catch_up_loop-Bounded fuel ctx g budget q)
  where
    go :
        (r : Turn)
        → IsNear budget p.pages r
        → ((q : Progress)
            → max 1 budget ≤ fuel + q.pages
            → q.pages < max 1 budget
            → (catch_up_loop fuel ctx g budget q).1 ≢ unfinished)
        → (settled fuel ctx g budget r).1 ≢ unfinished
    go (next_page q) near again = again q (omega (arith, near, enough)) (omega (arith, near))
    go (resynced q) near again = λ e. cc
    go (drained q) near again = λ e. cc
    go (stalled q) near again = λ e. cc
    go (out_of_pages q) near again = λ e. cc
    go (failed q) near again = λ e. cc

-- A catch-up ends, whatever the server answers: fuel for one page, or for as many pages as the
-- budget has, is never used up.
pub catch_up-Bounded :
    (fuel : ℕ) (ctx : Ctx) (g : Differences) (budget : ℕ) (db : Db) (saved : Option ℕ)
    → max 1 budget ≤ fuel
    → (catch_up fuel ctx g budget db saved).1 ≢ unfinished
unfolding catch_up begin
catch_up-Bounded fuel ctx g budget db saved enough =
    catch_up_loop-Bounded fuel ctx g budget _ (omega (arith, enough)) (omega arith)
