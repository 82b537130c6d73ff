-- ===== src/Collectors/History/Coverage.antt =====
-- What one round of the sweep guarantees about the messages that the channel holds.
use paperboy.Base.{
  ℕ, suc, ◌≡◌, ◌≢◌, refl, sym, ◌≤◌, ◌<◌, min, max, ◌⊎◌, inl, inr, true, ◌&&◌, Option, List, [], ◌∷◌,
  map, arith, leb, In, Bool-cases,
}
use mathlib.Core.Path.{subst}
use paperboy.Store.Messages.{Msg}
use paperboy.Collectors.Observe.{Ctx, Attempt, completed, raised}
use paperboy.Collectors.History.{
  Round, again, swept, out_of_budget, failed, observe_page, least_id, greatest_id, is_reached,
  advance, after_page, walk_page, round,
}
use paperboy.Collectors.Sweep.{Gateway, Reply, replies, stops, Tally, Locals}
use paperboy.Collectors.History.Observed.{IsLogged, tally_of, observe_page-stays, observe_page-logs}

-- Every id of the page lies below every id that it skips.
abbrev pub IsPast : ℕ → List Msg → Type 0
IsPast i [] = ⊥
IsPast i (m ∷ ms) = i < least_id m.id ms

abbrev pub IsBelow : ℕ → ℕ → Type 0
IsBelow offset i = (offset ≡ 0) ⊎ (i < offset)

-- What the API promises of the history of a channel that holds the messages of `server`: ids start
-- at 1, a page has only messages below its offset, and it skips none of them.
pub record IsServer (server : List ℕ) (g : Gateway) : Type 0 where
  pub positive : (i : ℕ) → In i server → 1 ≤ i
  pub below :
      (offset : ℕ) (page : List Msg) (i : ℕ)
      → g.iter_history offset ≡ replies page
      → In i (map (λ m. m.id) page)
      → (1 ≤ i) × IsBelow offset i
  pub skips_none :
      (offset : ℕ) (page : List Msg) (i : ℕ)
      → g.iter_history offset ≡ replies page
      → In i server
      → IsBelow offset i
      → In i (map (λ m. m.id) page) ⊎ IsPast i page

-- A message that the sweep has to have logged by now: one between the cursor and the highest id
-- seen, or one below the high-water mark of the last finished sweep.
abbrev pub IsDue : Locals → ℕ → Type 0
IsDue st i =
    ((st.cursor ≢ 0) × (st.cursor ≤ i) × (i ≤ st.pending_high))
    ⊎ ((st.incremental ≡ true) × (i ≤ st.committed_high))

-- Every message that is due is logged.
abbrev pub IsCovered : ℕ → List ℕ → Locals → Type 0
IsCovered c server st = (i : ℕ) → In i server → IsDue st i → IsLogged c st.tally.db i

abbrev pub locals_after : Round → Locals
locals_after (again st) = st
locals_after (swept st) = st
locals_after (out_of_budget st) = st
locals_after (failed st) = st

pub In-least_id :
    (n : ℕ) (ms : List Msg) → (least_id n ms ≡ n) ⊎ In (least_id n ms) (map (λ m. m.id) ms)
In-least_id n [] = inl refl
In-least_id n (m ∷ ms) = ground (arith, In-least_id (min n m.id) ms)

In-greatest_id :
    (n : ℕ) (ms : List Msg) → (greatest_id n ms ≡ n) ⊎ In (greatest_id n ms) (map (λ m. m.id) ms)
In-greatest_id n [] = inl refl
In-greatest_id n (m ∷ ms) = ground (arith, In-greatest_id (max n m.id) ms)

-- The variables after a page, whichever test ends the round.
abbrev pub IsMoved : Locals → Msg → List Msg → Locals → Type 0
IsMoved st m ms st' =
    (st'.cursor ≡ least_id m.id ms)
    × (st'.pending_high ≡ max st.pending_high (greatest_id m.id ms))
    × (st'.incremental ≡ st.incremental)
    × (st'.committed_high ≡ st.committed_high)
    × (st'.tally ≡ st.tally)
    × (st'.complete ≡ st.complete)
    × (st'.stop_at ≡ st.stop_at)

pub advance-IsMoved :
    (page_budget : Option ℕ) (st : Locals) (m : Msg) (ms : List Msg)
    → IsMoved st m ms (locals_after (advance page_budget st m ms))
unfolding advance
advance-IsMoved page_budget st m ms =
    elim (Bool-cases (st.incremental && leb (least_id m.id ms) st.stop_at)) [
      | inl y ↦ rw y (refl, refl, refl, refl, refl, refl, refl)
      | inr n ↦ elim (Bool-cases (is_reached page_budget (suc st.pages))) [
        | inl y ↦ rw (n, y) (refl, refl, refl, refl, refl, refl, refl)
        | inr k ↦ rw (n, k) (refl, refl, refl, refl, refl, refl, refl)
      ]
    ]

-- A page that is logged whole moves the cursor down over nothing that is not logged.
IsMoved-IsCovered :
    (c : ℕ) (server : List ℕ) (g : Gateway) (st st' : Locals) (m : Msg) (ms : List Msg)
    → IsServer server g
    → g.iter_history st.cursor ≡ replies (m ∷ ms)
    → IsMoved st m ms st'
    → IsCovered c server st
    → ((i : ℕ) → In i (map (λ m. m.id) (m ∷ ms)) → IsLogged c st.tally.db i)
    → IsCovered c server st'
IsMoved-IsCovered c server g st st' m ms laws e moved covered logged i held due =
    subst (λ t. IsLogged c t.db i) (sym moved.4)
      (elim reached [
        | inl (b, l) ↦ elim (laws.skips_none st.cursor (m ∷ ms) i e held b) [
          | inl here ↦ logged i here
          | inr past ↦ absurd (omega (arith, past, l))
        ]
        | inr earlier ↦ covered i held earlier
      ])
  where
    in_page : In (greatest_id m.id ms) (map (λ m. m.id) (m ∷ ms))
    in_page = In-greatest_id m.id ms

    reached : (IsBelow st.cursor i × (least_id m.id ms ≤ i)) ⊎ IsDue st i
    reached =
        ground
          (arith, moved, due, (laws.below st.cursor (m ∷ ms) (greatest_id m.id ms) e in_page).1)

after_page-IsCovered :
    (c : ℕ) (server : List ℕ) (g : Gateway) (page_budget : Option ℕ) (st : Locals) (m : Msg)
    (ms : List Msg) (r : Attempt Tally)
    → IsServer server g
    → g.iter_history st.cursor ≡ replies (m ∷ ms)
    → IsCovered c server (record st { tally = tally_of r })
    → ((t : Tally) (i : ℕ) → r ≡ completed t → In i (map (λ m. m.id) (m ∷ ms)) → IsLogged c t.db i)
    → IsCovered c server (locals_after (after_page page_budget st m ms r))
after_page-IsCovered c server g page_budget st m ms (raised t) laws e covered logged = covered
after_page-IsCovered c server g page_budget st m ms (completed t) laws e covered logged =
    let st' : Locals = record st { tally = t } in
    IsMoved-IsCovered c server g st' (locals_after (advance page_budget st' m ms)) m ms laws e
      (advance-IsMoved page_budget st' m ms) covered (λ i. logged t i refl)

walk_page-IsCovered :
    (server : List ℕ) (g : Gateway) (ctx : Ctx) (page_budget : Option ℕ) (st : Locals)
    (reply : Reply (List Msg))
    → IsServer server g
    → g.iter_history st.cursor ≡ reply
    → IsCovered ctx.channel_id server st
    → IsCovered ctx.channel_id server (locals_after (walk_page ctx page_budget st reply))
walk_page-IsCovered server g ctx page_budget st stops laws e covered = covered
walk_page-IsCovered server g ctx page_budget st (replies []) laws e covered = covered
walk_page-IsCovered server g ctx page_budget st (replies (m ∷ ms)) laws e covered =
    after_page-IsCovered ctx.channel_id server g page_budget st m ms
      (observe_page ctx st.tally (m ∷ ms)) laws e
      (λ i held due. observe_page-stays ctx st.tally (m ∷ ms) i (covered i held due))
      (λ t i whole. observe_page-logs ctx st.tally (m ∷ ms) t i whole)

-- A round keeps the sweep covered, whether it goes on, ends, spends the budget or raises.
pub round-IsCovered :
    (server : List ℕ) (g : Gateway) (ctx : Ctx) (page_budget : Option ℕ) (st : Locals)
    → IsServer server g
    → IsCovered ctx.channel_id server st
    → IsCovered ctx.channel_id server (locals_after (round ctx g page_budget st))
unfolding round
round-IsCovered server g ctx page_budget st laws covered =
    walk_page-IsCovered server g ctx page_budget st (g.iter_history st.cursor) laws refl covered
