-- ===== src/Collectors/History/Asked.antt =====
-- collectors/history.py, `_probe_gaps`: what the calls of a probe that does not raise have done.
use paperboy.Base.{
  ℕ, ◌≡◌, refl, sym, ap, ◌∙◌, ◌≤◌, ◌⊎◌, inl, inr, false, List, [], ◌∷◌, ◌++◌, length, map, arith,
  if◌then◌else◌, In, In-append_left, In-append_right, Bool-cases, All, All-at, All-map_at,
  All-of_In, In-append,
}
use mathlib.Core.Path.{subst}
use paperboy.Sync.Ranges.{add_range}
use paperboy.Store.Messages.{Msg, mark_deleted}
use paperboy.Store.Db.{Db, add_raw}
use paperboy.Collectors.Observe.{Ctx, Counts, Attempt, completed, raised, is_empty, observe_empty}
use paperboy.Collectors.Sweep.{Gateway, replies, stops, Tally, finished, exception}
use paperboy.Collectors.Gaps.{judge_results, probe_chunks, chunks, candidates, probed, probe}
use paperboy.Collectors.History.Observed.{IsLogged, IsDeleted, db_of, logged_ids, logged_ids-append}
use paperboy.Collectors.History.Probing.{observe_empty-stays, concat, chunks-candidates}

-- The placeholder with this id is in the log, and recorded as deleted.
abbrev pub IsJudged : ℕ → Db → ℕ → Type 0
IsJudged c db i = IsLogged c db i × IsDeleted c db i

pub In-map_append :
    {A B : Type 0} (f : A → B) (b : B) (xs ys : List A) → In b (map f xs) → In b (map f (xs ++ ys))
In-map_append f b (x ∷ xs) ys (inl e) = inl e
In-map_append f b (x ∷ xs) ys (inr m) = inr (In-map_append f b xs ys m)
In-map_append f b [] ys m = absurd m

pub In-map_last :
    {A B : Type 0} (f : A → B) (x : A) (xs : List A) → In (f x) (map f (xs ++ (x ∷ [])))
In-map_last f x [] = inl refl
In-map_last f x (y ∷ xs) = inr (In-map_last f x xs)

observe_empty-IsDeleted :
    (ctx : Ctx) (s : Db × Counts) (m : Msg) (i : ℕ)
    → IsDeleted ctx.channel_id s.0 i
    → IsDeleted ctx.channel_id (observe_empty ctx s m).0 i
unfolding observe_empty add_raw mark_deleted
observe_empty-IsDeleted ctx (db, counts) m i h =
    In-map_append (λ t. t.message_uri) _ db.messages.tombstones _ h

observe_empty-IsJudged :
    (ctx : Ctx) (s : Db × Counts) (m : Msg) → IsJudged ctx.channel_id (observe_empty ctx s m).0 m.id
unfolding observe_empty add_raw mark_deleted
observe_empty-IsJudged ctx (db, counts) m = (
  subst (In m.id) (sym (logged_ids-append ctx.channel_id db.raws (_ ∷ [])))
      (In-append_right m.id (logged_ids ctx.channel_id db.raws) _ (ground arith)),
  In-map_last (λ t. t.message_uri) _ db.messages.tombstones,
)

judge_results-IsJudged :
    (ctx : Ctx) (s : Db × Counts) (rs : List Msg) (i : ℕ)
    → IsJudged ctx.channel_id s.0 i
    → IsJudged ctx.channel_id (judge_results ctx s rs).0 i
unfolding judge_results
judge_results-IsJudged ctx s [] i h = h
judge_results-IsJudged ctx s (r ∷ rs) i h =
    judge_results-IsJudged ctx (if is_empty r then observe_empty ctx s r else s) rs i judged
  where
    judged : IsJudged ctx.channel_id (if is_empty r then observe_empty ctx s r else s).0 i
    judged = elim (Bool-cases (is_empty r)) [
      | inl y ↦ rw y (observe_empty-stays ctx s r i h.0, observe_empty-IsDeleted ctx s r i h.1)
      | inr n ↦ rw n h
    ]

-- What becomes of the messages of an answer: a placeholder is judged, any other is let be.
abbrev pub AreJudged : ℕ → Db → List Msg → Type 0
AreJudged c db results = All (λ r. (is_empty r ≡ false) ⊎ IsJudged c db r.id) results

judge_results-AreJudged :
    (ctx : Ctx) (s : Db × Counts) (rs : List Msg)
    → AreJudged ctx.channel_id (judge_results ctx s rs).0 rs
unfolding judge_results
judge_results-AreJudged ctx s [] = tt
judge_results-AreJudged ctx s (r ∷ rs) = (
  elim (Bool-cases (is_empty r)) [
    | inl y ↦ inr (
        judge_results-IsJudged ctx (if is_empty r then observe_empty ctx s r else s) rs r.id
          (rw y (observe_empty-IsJudged ctx s r)))
    | inr n ↦ inl n
  ],
  judge_results-AreJudged ctx (if is_empty r then observe_empty ctx s r else s) rs,
)

-- The gateway has been asked for these ids, and each placeholder of its answer is judged.
abbrev pub IsAsked : ℕ → Gateway → Db → List ℕ → Type 0
IsAsked c g db chunk =
    (results : List Msg) × (g.get_messages chunk ≡ replies results) × AreJudged c db results

probe_chunks-IsJudged :
    (ctx : Ctx) (g : Gateway) (s : Db × Counts) (chunks : List (List ℕ)) (i : ℕ)
    → IsJudged ctx.channel_id s.0 i
    → IsJudged ctx.channel_id (db_of (probe_chunks ctx g s chunks)) i
unfolding probe_chunks
probe_chunks-IsJudged ctx g s [] i h = h
probe_chunks-IsJudged ctx g s (chunk ∷ rest) i h =
    elim (g.get_messages chunk)
      as (λ r.
        IsJudged ctx.channel_id
          (db_of (elim r [
            | stops ↦ raised s
            | replies results ↦ probe_chunks ctx g (judge_results ctx s results) rest
          ]))
          i) [
            | stops ↦ h
            | replies results ↦
                probe_chunks-IsJudged ctx g (judge_results ctx s results) rest i
                  (judge_results-IsJudged ctx s results i h)
          ]

probe_chunks-IsAsked :
    (ctx : Ctx) (g : Gateway) (s : Db × Counts) (chunks : List (List ℕ)) (s' : Db × Counts)
    → probe_chunks ctx g s chunks ≡ completed s'
    → All (IsAsked ctx.channel_id g s'.0) chunks
unfolding probe_chunks
probe_chunks-IsAsked ctx g s [] s' e = tt
probe_chunks-IsAsked ctx g s (chunk ∷ rest) s' e =
    (elim (g.get_messages chunk)
        as (λ r.
          g.get_messages chunk ≡ r
          → elim r [
            | stops ↦ raised s
            | replies results ↦ probe_chunks ctx g (judge_results ctx s results) rest
          ]
            ≡ completed s'
          → IsAsked ctx.channel_id g s'.0 chunk × All (IsAsked ctx.channel_id g s'.0) rest) [
            | stops ↦ λ a q. cc
            | replies results ↦ λ a q. (
              (results, a, kept results q),
              probe_chunks-IsAsked ctx g (judge_results ctx s results) rest s' q,
            )
          ])
      refl e
  where
    kept :
        (results : List Msg)
        → probe_chunks ctx g (judge_results ctx s results) rest ≡ completed s'
        → AreJudged ctx.channel_id s'.0 results
    kept results q = All-map_at results (judge_results-AreJudged ctx s results) (λ r j. elim j [
      | inl live ↦ inl live
      | inr judged ↦ inr (
          subst (λ x. IsJudged ctx.channel_id (db_of x) r.id) q
            (probe_chunks-IsJudged ctx g (judge_results ctx s results) rest r.id judged))
    ])

In-concat_of : (i : ℕ) (c : List ℕ) (cs : List (List ℕ)) → In i c → In c cs → In i (concat cs)
In-concat_of i c (d ∷ cs) m (inl e) = In-append_left i d (concat cs) (subst (In i) e m)
In-concat_of i c (d ∷ cs) m (inr later) =
    In-append_right i d (concat cs) (In-concat_of i c cs m later)
In-concat_of i c [] m n = absurd n

In-concat : (i : ℕ) (cs : List (List ℕ)) → In i (concat cs) → (c : List ℕ) × In c cs × In i c
In-concat i [] m = absurd m
In-concat i (c ∷ cs) m = elim (In-append i c (concat cs) m) [
  | inl here ↦ (c, inl refl, here)
  | inr later ↦ let (d, held, inside) = In-concat i cs later in (d, inr held, inside)
]

ranges-judge_results :
    (ctx : Ctx) (s : Db × Counts) (rs : List Msg) → (judge_results ctx s rs).0.ranges ≡ s.0.ranges
unfolding judge_results observe_empty add_raw
ranges-judge_results ctx s [] = refl
ranges-judge_results ctx s (r ∷ rs) =
    ranges-judge_results ctx (if is_empty r then observe_empty ctx s r else s) rs ∙ first
  where
    first : (if is_empty r then observe_empty ctx s r else s).0.ranges ≡ s.0.ranges
    first = elim (Bool-cases (is_empty r)) [ inl y ↦ rw y refl | inr n ↦ rw n refl ]

ranges-probe_chunks :
    (ctx : Ctx) (g : Gateway) (s : Db × Counts) (chunks : List (List ℕ))
    → (db_of (probe_chunks ctx g s chunks)).ranges ≡ s.0.ranges
unfolding probe_chunks
ranges-probe_chunks ctx g s [] = refl
ranges-probe_chunks ctx g s (chunk ∷ rest) =
    elim (g.get_messages chunk)
      as (λ r.
        (db_of (elim r [
          | stops ↦ raised s
          | replies results ↦ probe_chunks ctx g (judge_results ctx s results) rest
        ])).ranges
        ≡ s.0.ranges) [
          | stops ↦ refl
          | replies results ↦
              ranges-probe_chunks ctx g (judge_results ctx s results) rest
              ∙ ranges-judge_results ctx s results
        ]

probed-ranges :
    (ctx : Ctx) (t : Tally) (lo hi : ℕ) (r : Attempt (Db × Counts))
    → (db_of r).ranges ≡ t.db.ranges
    → (probed ctx t lo hi r).1 ≡ finished
    → (probed ctx t lo hi r).0.db.ranges ≡ add_range t.db.ranges ctx.channel_id lo hi
probed-ranges ctx t lo hi (completed s) e f = ap (λ l. add_range l ctx.channel_id lo hi) e
probed-ranges ctx t lo hi (raised s) e f = cc

-- A probe that ends without an exception has asked for every id of the span that no page brought:
-- the id stands in a chunk of at most 200 such ids, the gateway has answered the call for that
-- chunk, and each placeholder of the answer is in the log under the channel and recorded as deleted.
-- The span is then added to the verified ranges of the channel, which are otherwise as before.
pub probe-IsAsked :
    (ctx : Ctx) (g : Gateway) (t : Tally) (lo hi i : ℕ)
    → lo ≤ i
    → i ≤ hi
    → ¬ In i t.ids_seen
    → (probe ctx g t lo hi).1 ≡ finished
    → ((chunk : List ℕ) × In i chunk
        × (length chunk ≤ 200)
        × All (λ j. (lo ≤ j) × (j ≤ hi) × ¬ In j t.ids_seen) chunk
        × IsAsked ctx.channel_id g (probe ctx g t lo hi).0.db chunk)
      × ((probe ctx g t lo hi).0.db.ranges ≡ add_range t.db.ranges ctx.channel_id lo hi)
unfolding probe
probe-IsAsked ctx g t lo hi i above below new e =
    let (chunk, held, inside) =
      In-concat i parts (((chunks-candidates lo hi t.ids_seen).0 i).1 (above, below, new)) in
    (
      (
        chunk,
        inside,
        All-at _ chunk parts (chunks-candidates lo hi t.ids_seen).1 held,
        All-of_In _ chunk (λ j m.
            ((chunks-candidates lo hi t.ids_seen).0 j).0 (In-concat_of j chunk parts m held)),
        go (probe_chunks ctx g (t.db, t.counts) parts) refl e chunk held,
      ),
      probed-ranges ctx t lo hi (probe_chunks ctx g (t.db, t.counts) parts)
          (ranges-probe_chunks ctx g (t.db, t.counts) parts) e,
    )
  where
    parts : List (List ℕ)
    parts = chunks (candidates lo hi t.ids_seen)

    go :
        (r : Attempt (Db × Counts))
        → probe_chunks ctx g (t.db, t.counts) parts ≡ r
        → (probed ctx t lo hi r).1 ≡ finished
        → (chunk : List ℕ) → In chunk parts
        → IsAsked ctx.channel_id g (probed ctx t lo hi r).0.db chunk
    go (raised r) whole q chunk held = absurd (not_finished q)
      where
        not_finished : ¬ (exception ≡ finished)
        not_finished q = cc
    go (completed r) whole q chunk held =
        All-at (IsAsked ctx.channel_id g r.0) chunk parts
          (probe_chunks-IsAsked ctx g (t.db, t.counts) parts r whole) held
