-- ===== src/Fetch/Claims.antt =====
-- A message that is claimed once is listed once.
use paperboy.Base.{
  ℕ, zero, suc, ◌+◌, ◌≤◌, ◌≡◌, ◌∙◌, refl, sym, ap, Bool, true, false, ◌&&◌, ◌||◌, Option, none,
  some, List, [], ◌∷◌, ◌++◌, ◌==◌, if◌then◌else◌, arith, Bool-cases, inl, inr, ◌⊎◌,
}
use mathlib.Core.Path.{subst}
use paperboy.Inputs.Entry.{Address}
use paperboy.Inputs.Classify.{is_in, Seen, is_seen}
use paperboy.Recipes.{sorted_set, add_sorted}
use paperboy.Fetch.Rows.{RowResult, Place, update_at}
use paperboy.Fetch.Loop.{Driver, Call, establishes, fetches_posts, fetches_media, State}
use paperboy.Fetch.OneSegment.{with_id, msg_id_at, ids_at, claim_new, claim_id, claim}

-- How many runs of the posts list the message.
abbrev pub listing : ℕ → ℕ → List Call → ℕ
listing c n [] = 0
listing c n (establishes a ∷ cs) = listing c n cs
listing c n (fetches_posts d ids ∷ cs) = (if (d == c) && is_in ids n then 1 else 0) + listing c n cs
listing c n (fetches_media d ids ∷ cs) = listing c n cs

-- No message is listed twice, and one that is listed is claimed.
abbrev pub PostsOnce : List Call → Seen → Type 0
PostsOnce calls claimed = (c n : ℕ) → listing c n calls ≤ (if is_seen claimed c n then 1 else 0)

-- Claimed messages of a channel that no run has listed yet.
abbrev pub Fresh : ℕ → List ℕ → List Call → Seen → Type 0
Fresh c ids calls claimed =
    (n : ℕ) → is_in ids n ≡ true → (is_seen claimed c n ≡ true) × (listing c n calls ≡ 0)

pub listing-append :
    (c n : ℕ) (cs ds : List Call) → listing c n (cs ++ ds) ≡ listing c n cs + listing c n ds
listing-append c n [] ds = omega arith
listing-append c n (establishes a ∷ cs) ds = listing-append c n cs ds
listing-append c n (fetches_posts d ids ∷ cs) ds = omega (arith, listing-append c n cs ds)
listing-append c n (fetches_media d ids ∷ cs) ds = listing-append c n cs ds

is_in-add_sorted :
    (n k : ℕ) (ids : List ℕ) → is_in (add_sorted k ids) n ≡ true → is_in (k ∷ ids) n ≡ true
is_in-add_sorted n k [] h = h
is_in-add_sorted n k (i ∷ ids) h = ground (arith, is_in-add_sorted n k ids)

is_in-sorted_set : (n : ℕ) (ids : List ℕ) → is_in (sorted_set ids) n ≡ true → is_in ids n ≡ true
is_in-sorted_set n [] h = h
is_in-sorted_set n (i ∷ ids) h =
    ground (arith, is_in-sorted_set n ids, is_in-add_sorted n i (sorted_set ids) h)

pub PostsOnce-claim :
    (calls : List Call) (claimed : Seen) (c n : ℕ)
    → PostsOnce calls claimed
    → PostsOnce calls ((c, n) ∷ claimed)
PostsOnce-claim calls claimed c n h d m = ground (arith, h d m)

Fresh-claim :
    (calls : List Call) (claimed : Seen) (c n : ℕ) (ids : List ℕ)
    → Fresh c ids calls claimed
    → Fresh c ids calls ((c, n) ∷ claimed)
Fresh-claim calls claimed c n ids h m e = (ground (arith, h m e), (h m e).1)

-- Other runs list none.
pub PostsOnce-establishes :
    (calls : List Call) (claimed : Seen) (a : Address)
    → PostsOnce calls claimed
    → PostsOnce (calls ++ establishes a ∷ []) claimed
PostsOnce-establishes calls claimed a h c n =
    omega (arith, listing-append c n calls (establishes a ∷ []), h c n)

pub PostsOnce-media :
    (calls : List Call) (claimed : Seen) (c : ℕ) (ids : List ℕ)
    → PostsOnce calls claimed
    → PostsOnce (calls ++ fetches_media c ids ∷ []) claimed
PostsOnce-media calls claimed c ids h d n =
    omega (arith, listing-append d n calls (fetches_media c ids ∷ []), h d n)

-- The run of the posts lists fresh messages.
pub PostsOnce-posts :
    (calls : List Call) (claimed : Seen) (c : ℕ) (ids : List ℕ)
    → PostsOnce calls claimed
    → Fresh c ids calls claimed
    → PostsOnce (calls ++ fetches_posts c (sorted_set ids) ∷ []) claimed
PostsOnce-posts calls claimed c ids h fresh d n = elim (Bool-cases (is_in (sorted_set ids) n)) [
  | inl listed ↦ ground (
    arith,
    listing-append d n calls (fetches_posts c (sorted_set ids) ∷ []),
    h d n,
    at_channel d (fresh n (is_in-sorted_set n ids listed)),
  )
  | inr other ↦
      ground (arith, listing-append d n calls (fetches_posts c (sorted_set ids) ∷ []), h d n)
]
  where
    at_channel :
        (e : ℕ)
        → (is_seen claimed c n ≡ true) × (listing c n calls ≡ 0)
        → (c == e ≡ false) ⊎ ((is_seen claimed e n ≡ true) × (listing e n calls ≡ 0))
    at_channel e f = elim (Bool-cases (c == e)) [
      | inl same ↦
          inr (subst (λ x. (is_seen claimed x n ≡ true) × (listing x n calls ≡ 0)) (ground arith) f)
      | inr other ↦ inl other
    ]

is_in-append : (ids : List ℕ) (n m : ℕ) → is_in (ids ++ n ∷ []) m ≡ is_in ids m || (n == m)
is_in-append [] n m = ground arith
is_in-append (i ∷ ids) n m = ground (arith, is_in-append ids n m)

-- The first message of a row that has one.
Fresh-first :
    (calls : List Call) (claimed : Seen) (c n : ℕ) (ids : List ℕ)
    → PostsOnce calls claimed
    → is_seen claimed c n ≡ false
    → Fresh c ids calls claimed
    → Fresh c (ids ++ n ∷ []) calls ((c, n) ∷ claimed)
Fresh-first calls claimed c n ids h new fresh m e = elim (Bool-cases (is_in ids m)) [
  | inl old ↦ Fresh-claim calls claimed c n ids fresh m old
  | inr first ↦
      let same : n ≡ m = ground (arith, is_in-append ids n m) in
      subst (λ x. (is_seen ((c, n) ∷ claimed) c x ≡ true) × (listing c x calls ≡ 0)) same
        (ground arith, ground (arith, h c n))
]

-- A change of a row that leaves its message leaves the messages of all rows.
msg_id_at-update_at :
    {W C : Type 0} (d : Driver W C) (with_media : Bool) (f : RowResult → RowResult) (i j : Place)
    (rs : List RowResult)
    → ((r : RowResult) → (f r).classified ≡ r.classified)
    → msg_id_at d with_media j (update_at i f rs) ≡ msg_id_at d with_media j rs
msg_id_at-update_at d with_media f i j [] h = refl
msg_id_at-update_at d with_media f zero zero (r ∷ rs) h = rw (h r) refl
msg_id_at-update_at d with_media f zero (suc j) (r ∷ rs) h = refl
msg_id_at-update_at d with_media f (suc i) zero (r ∷ rs) h = refl
msg_id_at-update_at d with_media f (suc i) (suc j) (r ∷ rs) h =
    msg_id_at-update_at d with_media f i j rs h

with_id-append :
    (m : Option ℕ) (ids ids' : List ℕ) (n : ℕ)
    → ids' ≡ ids ++ n ∷ []
    → with_id m ids' ≡ with_id m ids ++ n ∷ []
with_id-append none ids ids' n h = h
with_id-append (some k) ids ids' n h = ap (λ l. k ∷ l) h

module _ {W C : Type 0} (d : Driver W C) (with_media : Bool) where
  ids_at-update_at :
      (f : RowResult → RowResult) (i : Place) (is : List Place) (rs : List RowResult)
      → ((r : RowResult) → (f r).classified ≡ r.classified)
      → ids_at d with_media is (update_at i f rs) ≡ ids_at d with_media is rs
  ids_at-update_at f i [] rs h = refl
  ids_at-update_at f i (j ∷ is) rs h =
      ap (λ m. with_id m (ids_at d with_media is (update_at i f rs)))
        (msg_id_at-update_at d with_media f i j rs h)
      ∙ ap (with_id (msg_id_at d with_media j rs)) (ids_at-update_at f i is rs h)

  ids_at-append :
      (is : List Place) (i : Place) (n : ℕ) (rs : List RowResult)
      → msg_id_at d with_media i rs ≡ some n
      → ids_at d with_media (is ++ i ∷ []) rs ≡ ids_at d with_media is rs ++ n ∷ []
  ids_at-append [] i n rs e = ap (λ m. with_id m []) e
  ids_at-append (j ∷ is) i n rs e =
      with_id-append (msg_id_at d with_media j rs) _ _ n (ids_at-append is i n rs e)

  -- The rows that are kept so far name fresh messages.
  abbrev pub ClaimsWell : ℕ → List Place × State W C → Type 0
  ClaimsWell c (kept, s) =
      PostsOnce s.calls s.claimed × Fresh c (ids_at d with_media kept s.results) s.calls s.claimed

  ClaimsWell-claim_new :
      (c n : ℕ) (i : Place) (b : Bool) (kept : List Place) (s : State W C)
      → msg_id_at d with_media i s.results ≡ some n
      → is_seen s.claimed c n ≡ b
      → ClaimsWell c (kept, s)
      → ClaimsWell c (claim_new d with_media b i (kept, record s { claimed = (c, n) ∷ s.claimed }))
  ClaimsWell-claim_new c n i true kept s e seen (once, fresh) = (
    PostsOnce-claim s.calls s.claimed c n once,
    subst (λ ids. Fresh c ids s.calls ((c, n) ∷ s.claimed))
        (sym (ids_at-update_at _ i kept s.results (λ r. refl)))
        (Fresh-claim s.calls s.claimed c n (ids_at d with_media kept s.results) fresh),
  )
  ClaimsWell-claim_new c n i false kept s e seen (once, fresh) = (
    PostsOnce-claim s.calls s.claimed c n once,
    subst (λ ids. Fresh c ids s.calls ((c, n) ∷ s.claimed))
        (sym (ids_at-append kept i n s.results e))
        (Fresh-first s.calls s.claimed c n (ids_at d with_media kept s.results) once seen fresh),
  )

  ClaimsWell-claim_id :
      (c : ℕ) (i : Place) (n : Option ℕ) (kept : List Place) (s : State W C)
      → msg_id_at d with_media i s.results ≡ n
      → ClaimsWell c (kept, s)
      → ClaimsWell c (claim_id d with_media c i n (kept, s))
  ClaimsWell-claim_id c i none kept s e h = h
  ClaimsWell-claim_id c i (some n) kept s e h =
      ClaimsWell-claim_new c n i (is_seen s.claimed c n) kept s e refl h

  pub ClaimsWell-claim_rows :
      (c : ℕ) (is : List Place) (p : List Place × State W C)
      → ClaimsWell c p
      → ClaimsWell c (claim d with_media c is p)
  unfolding claim
  ClaimsWell-claim_rows c [] p h = h
  ClaimsWell-claim_rows c (i ∷ is) (kept, s) h =
      ClaimsWell-claim_rows c is _
        (ClaimsWell-claim_id c i (msg_id_at d with_media i s.results) kept s refl h)
