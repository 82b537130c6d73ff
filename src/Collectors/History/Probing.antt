-- ===== src/Collectors/History/Probing.antt =====
-- `_probe_gaps`: the chunks of the ids that the pages skipped, and what the probe keeps.
use paperboy.Base.{
  ℕ, zero, suc, ◌+◌, ◌-◌, ◌≡◌, ◌↔◌, refl, ◌∙◌, sym, ap, ◌≤◌, inl, inr, Bool, true, false, not,
  Option, none, some, List, [], ◌∷◌, ◌++◌, length, take, drop, arith, if◌then◌else◌, In,
  In-append_left, In-select, In-select_of, select, Bool-cases, All,
}
use paperboy.Sync.Ranges.{id_range}
use paperboy.Sync.Ranges.Gaps.{In-ids_from}
use mathlib.Core.Path.{subst}
use paperboy.Store.Messages.{Msg}
use paperboy.Store.Db.{Db, add_raw}
use paperboy.Collectors.Observe.{Ctx, Counts, Attempt, completed, raised, is_empty, observe_empty}
use paperboy.Collectors.Sweep.{Gateway, replies, stops, Tally}
use paperboy.Collectors.Gaps.{
  judge_results, probe_chunks, chunks, chunks_within, chunk_size, candidates, is_member, probed,
  probe, verify_span, verify,
}
use paperboy.Collectors.History.Observed.{IsLogged, db_of, logged_ids, logged_ids-append}

pub observe_empty-stays :
    (ctx : Ctx) (s : Db × Counts) (m : Msg) (i : ℕ)
    → IsLogged ctx.channel_id s.0 i
    → IsLogged ctx.channel_id (observe_empty ctx s m).0 i
unfolding observe_empty add_raw
observe_empty-stays ctx (db, counts) m i h =
    subst (In i) (sym (logged_ids-append ctx.channel_id db.raws (_ ∷ [])))
      (In-append_left i (logged_ids ctx.channel_id db.raws) _ h)

pub judge_results-stays :
    (ctx : Ctx) (s : Db × Counts) (rs : List Msg) (i : ℕ)
    → IsLogged ctx.channel_id s.0 i
    → IsLogged ctx.channel_id (judge_results ctx s rs).0 i
unfolding judge_results
judge_results-stays ctx s [] i h = h
judge_results-stays ctx s (r ∷ rs) i h =
    judge_results-stays ctx (if is_empty r then observe_empty ctx s r else s) rs i judged
  where
    judged : IsLogged ctx.channel_id (if is_empty r then observe_empty ctx s r else s).0 i
    judged = elim (Bool-cases (is_empty r)) [
      | inl y ↦ rw y (observe_empty-stays ctx s r i h)
      | inr n ↦ rw n h
    ]

probe_chunks-stays :
    (ctx : Ctx) (g : Gateway) (s : Db × Counts) (chunks : List (List ℕ)) (i : ℕ)
    → IsLogged ctx.channel_id s.0 i
    → IsLogged ctx.channel_id (db_of (probe_chunks ctx g s chunks)) i
unfolding probe_chunks
probe_chunks-stays ctx g s [] i h = h
probe_chunks-stays ctx g s (chunk ∷ rest) i h =
    elim (g.get_messages chunk)
      as (λ r.
        IsLogged ctx.channel_id
          (db_of (elim r [
            | stops ↦ raised s
            | replies results ↦ probe_chunks ctx g (judge_results ctx s results) rest
          ]))
          i) [
            | stops ↦ h
            | replies results ↦
                probe_chunks-stays ctx g (judge_results ctx s results) rest i
                  (judge_results-stays ctx s results i h)
          ]

probe-stays :
    (ctx : Ctx) (g : Gateway) (t : Tally) (lo hi i : ℕ)
    → IsLogged ctx.channel_id t.db i
    → IsLogged ctx.channel_id (probe ctx g t lo hi).0.db i
unfolding probe
probe-stays ctx g t lo hi i h =
    go (probe_chunks ctx g (t.db, t.counts) (chunks (candidates lo hi t.ids_seen)))
      (probe_chunks-stays ctx g (t.db, t.counts) (chunks (candidates lo hi t.ids_seen)) i h)
  where
    go :
        (r : Attempt (Db × Counts))
        → IsLogged ctx.channel_id (db_of r) i
        → IsLogged ctx.channel_id (probed ctx t lo hi r).0.db i
    go (raised r) q = q
    go (completed r) q = q

-- Probing keeps what was logged.
pub verify-stays :
    (ctx : Ctx) (g : Gateway) (probe_gaps : Bool) (t : Tally) (i : ℕ)
    → IsLogged ctx.channel_id t.db i
    → IsLogged ctx.channel_id (verify ctx g probe_gaps t).0.db i
unfolding verify
verify-stays ctx g false t i h = h
verify-stays ctx g true t i h = go t.min_id t.max_id
  where
    go : (lo hi : Option ℕ) → IsLogged ctx.channel_id (verify_span ctx g t lo hi).0.db i
    go none hi = h
    go (some lo) none = h
    go (some lo) (some hi) = probe-stays ctx g t lo hi i h

-- The chunks, one after the other.
abbrev pub concat : List (List ℕ) → List ℕ
concat [] = []
concat (c ∷ cs) = c ++ concat cs

take-drop : (n : ℕ) (xs : List ℕ) → take n xs ++ drop n xs ≡ xs
take-drop zero xs = refl
take-drop (suc n) [] = refl
take-drop (suc n) (x ∷ xs) = rw (take-drop n xs) refl

length-drop : (n : ℕ) (xs : List ℕ) → length (drop n xs) ≤ length xs
length-drop zero xs = omega arith
length-drop (suc n) [] = omega arith
length-drop (suc n) (x ∷ xs) = omega (arith, length-drop n xs)

length-take : (n : ℕ) (xs : List ℕ) → length (take n xs) ≤ n
length-take zero xs = omega arith
length-take (suc n) [] = omega arith
length-take (suc n) (x ∷ xs) = omega (arith, length-take n xs)

concat-chunks_within :
    (fuel : ℕ) (ids : List ℕ) → length ids ≤ fuel → concat (chunks_within fuel ids) ≡ ids
concat-chunks_within zero [] h = refl
concat-chunks_within zero (i ∷ ids) h = absurd (omega (arith, h))
concat-chunks_within (suc fuel) [] h = refl
concat-chunks_within (suc fuel) (i ∷ ids) h =
    ap (λ r. take chunk_size (i ∷ ids) ++ r)
      (concat-chunks_within fuel (drop chunk_size (i ∷ ids)) shorter)
    ∙ take-drop chunk_size (i ∷ ids)
  where
    shorter : length (drop chunk_size (i ∷ ids)) ≤ fuel
    shorter = omega (arith, h, length-drop 199 ids)

chunks_within_size :
    (fuel : ℕ) (ids : List ℕ) → All (λ c. length c ≤ chunk_size) (chunks_within fuel ids)
chunks_within_size zero ids = tt
chunks_within_size (suc fuel) [] = tt
chunks_within_size (suc fuel) (i ∷ ids) =
    (length-take chunk_size (i ∷ ids), chunks_within_size fuel (drop chunk_size (i ∷ ids)))

In-is_member : (n : ℕ) (ms : List ℕ) → (is_member n ms ≡ true) ↔ In n ms
In-is_member n [] = ground arith
In-is_member n (m ∷ ms) = ground (arith, In-is_member n ms)

abbrev is_skipped : List ℕ → ℕ → Bool
is_skipped ids_seen n = not (is_member n ids_seen)

abbrev span : ℕ → ℕ → List ℕ → List ℕ
span lo hi ids_seen = select (is_skipped ids_seen) (id_range lo (hi + 1))

pub chunks-candidates :
    (lo hi : ℕ) (ids_seen : List ℕ)
    → ((i : ℕ)
        → In i (concat (chunks (candidates lo hi ids_seen)))
          ↔ ((lo ≤ i) × (i ≤ hi) × ¬ In i ids_seen))
      × All (λ c. length c ≤ chunk_size) (chunks (candidates lo hi ids_seen))
unfolding chunks candidates
chunks-candidates lo hi ids_seen = (
  λ i. (asked i, asks i),
  chunks_within_size (length (span lo hi ids_seen)) (span lo hi ids_seen),
)
  where
    whole :
        concat (chunks_within (length (span lo hi ids_seen)) (span lo hi ids_seen))
        ≡ span lo hi ids_seen
    whole = concat-chunks_within (length (span lo hi ids_seen)) (span lo hi ids_seen) (omega arith)

    asked :
        (i : ℕ)
        → In i (concat (chunks_within (length (span lo hi ids_seen)) (span lo hi ids_seen)))
        → (lo ≤ i) × (i ≤ hi) × ¬ In i ids_seen
    asked i m =
        let (in_range, new) =
          In-select (is_skipped ids_seen) i (id_range lo (hi + 1)) (subst (In i) whole m) in
        let b = (In-ids_from i lo (hi + 1 - lo)).0 in_range in
        (
          omega (arith, b),
          omega (arith, b),
          λ seen. ground (arith, new, (In-is_member i ids_seen).1 seen),
        )

    asks :
        (i : ℕ)
        → (lo ≤ i) × (i ≤ hi) × ¬ In i ids_seen
        → In i (concat (chunks_within (length (span lo hi ids_seen)) (span lo hi ids_seen)))
    asks i b = subst (In i) (sym whole) (
        In-select_of (is_skipped ids_seen) i (id_range lo (hi + 1))
          ((In-ids_from i lo (hi + 1 - lo)).1 (b.0, omega (arith, b))) (new b.2))
      where
        new : ¬ In i ids_seen → is_skipped ids_seen i ≡ true
        new absent = elim (Bool-cases (is_member i ids_seen)) [
          | inl y ↦ absurd (absent ((In-is_member i ids_seen).0 y))
          | inr n ↦ rw n refl
        ]
