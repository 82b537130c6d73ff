-- ===== src/Store/Messages/Revisions.antt =====
-- When an observation of a message is recorded as a revision.
use paperboy.Base.{
  ℕ, ◌≡◌, refl, ◌∙◌, sym, ap, ◌≤◌, inl, inr, Bool, true, false, not, Option, none, some, List, [],
  ◌∷◌, ◌++◌, arith, leb, if◌then◌else◌, Option-cases, Bool-cases, All,
}
use mathlib.Core.Path.{subst}
use paperboy.Base.Text.{Text, text_eq, text_eq_refl, text_eq→eq, text_eq_iff}
use paperboy.Ids.Uri.{msg_uri}
use paperboy.Ids.Peer.{Lookup, found, key_error, peer_ref_uri}
use paperboy.Store.Json.{Json}
use paperboy.Store.Json.Alike.{AreAlike-without_volatile, IsAlike}
use paperboy.Store.Tables.{MessageRow, Revision, Metrics, Messages}
use paperboy.Store.Messages.{
  Hashing, Msg, truthy, stable, content_hash, newer, latest_from, latest_revision_hash, is_revised,
  revision_of, project, message_row, author, metrics_of, project_from, upsert_message_revised,
}

-- No recorded revision of the message is newer than `t`.
abbrev pub IsUpTo : Text → ℕ → List Revision → Type 0
IsUpTo uri t = All (λ r. r.message_uri ≡ uri → r.observed_at ≤ t)

abbrev IsBest : ℕ → Option Revision → Type 0
IsBest t none = Unit
IsBest t (some r) = r.observed_at ≤ t

latest_from_bound :
    (uri : Text) (t : ℕ) (best : Option Revision) (rs : List Revision)
    → IsBest t best
    → IsUpTo uri t rs
    → IsBest t (latest_from uri best rs)
latest_from_bound uri t best [] hb hs = hb
latest_from_bound uri t best (r ∷ rs) hb hs =
    latest_from_bound uri t (if text_eq r.message_uri uri then newer best r else best) rs
      (step best hb) hs.1
  where
    step :
        (b : Option Revision)
        → IsBest t b
        → IsBest t (if text_eq r.message_uri uri then newer b r else b)
    step none h = elim (Bool-cases (text_eq r.message_uri uri)) [
      | inl y ↦ rw (y) (hs.0 (text_eq→eq r.message_uri uri y))
      | inr n ↦ rw (n) tt
    ]
    step (some b) h = elim (Bool-cases (text_eq r.message_uri uri)) [
      | inl y ↦ elim (Bool-cases (leb b.observed_at r.observed_at)) [
        | inl l ↦ rw (y, l) (hs.0 (text_eq→eq r.message_uri uri y))
        | inr l ↦ rw (y, l) h
      ]
      | inr n ↦ rw (n) h
    ]

latest_from-append :
    (uri : Text) (best : Option Revision) (rs : List Revision) (r : Revision)
    → r.message_uri ≡ uri
    → latest_from uri best (rs ++ (r ∷ [])) ≡ newer (latest_from uri best rs) r
latest_from-append uri best [] r e = ground (arith, e, text_eq_refl uri)
latest_from-append uri best (q ∷ rs) r e =
    latest_from-append uri (if text_eq q.message_uri uri then newer best q else best) rs r e

newer_wins :
    (best : Option Revision) (r : Revision) → IsBest r.observed_at best → newer best r ≡ some r
newer_wins none r h = refl
newer_wins (some b) r h = ground (arith, h)

-- The latest revision after a projection that is not older than the recorded ones.
pub latest-project :
    (h : Hashing) (store : Messages) (row : MessageRow) (metrics : List Metrics)
    → row.content_hash ≡ content_hash h row.text row.media
    → IsUpTo row.uri row.last_seen store.revisions
    → latest_revision_hash h (project h store row metrics).0.revisions row.uri
      ≡ some row.content_hash
unfolding project is_revised latest_revision_hash
latest-project h store row metrics e upto =
    elim (Option-cases (latest_from row.uri none store.revisions)) [
      | inl absent ↦
          ground (
            arith,
            e,
            absent,
            latest_from-append row.uri none store.revisions (revision_of row) refl,
          )
      | inr (r, last) ↦ ground (
        arith,
        e,
        last,
        text_eq_iff (content_hash h r.text r.media) row.content_hash,
        latest_from-append row.uri none store.revisions (revision_of row) refl,
        newer_wins (some r) (revision_of row) (bound r last),
      )
    ]
  where
    bound :
        (r : Revision)
        → latest_from row.uri none store.revisions ≡ some r
        → r.observed_at ≤ row.last_seen
    bound r last =
        subst (λ x. IsBest row.last_seen x) last
          (latest_from_bound row.uri row.last_seen none store.revisions tt upto)

-- The revision that an observation of a message would append.
abbrev pub revision : Hashing → ℕ → Msg → ℕ → ℕ → Revision
revision h channel_id msg source_raw_id observed_at =
    revision_of (message_row h none channel_id msg source_raw_id observed_at)

abbrev pub hash_of : Hashing → Msg → Text
hash_of h msg = content_hash h msg.message (truthy msg.media)

-- A projection of a message that was last recorded with hash `c`.
revised-project :
    (h : Hashing) (store : Messages) (row : MessageRow) (metrics : List Metrics) (c : Text)
    → latest_revision_hash h store.revisions row.uri ≡ some c
    → ((project h store row metrics).1 ≡ not (text_eq c row.content_hash))
      × ((project h store row metrics).0.revisions ≡ (
          if text_eq c row.content_hash
          then store.revisions
          else store.revisions ++ (revision_of row ∷ [])))
unfolding project is_revised
revised-project h store row metrics c last = elim (Bool-cases (text_eq c row.content_hash)) [
  | inl y ↦ rw (last, is_revised, y) (refl, refl)
  | inr n ↦ rw (last, is_revised, n) (refl, refl)
]

-- A completed upsert is a projection of its row, whose author is found by the reference.
pub upsert_cases :
    (h : Hashing) (store : Messages) (channel_id : ℕ) (msg : Msg) (source_raw_id observed_at : ℕ)
    (result : Messages × Bool)
    → upsert_message_revised h store channel_id msg source_raw_id observed_at ≡ some result
    → (a : Option Text) × (result
        ≡ project h store
            (message_row h a channel_id msg source_raw_id observed_at)
            (metrics_of (msg_uri channel_id msg.id) observed_at msg))
unfolding upsert_message_revised
upsert_cases h store channel_id msg source_raw_id observed_at result = go (peer_ref_uri msg.from_id)
  where
    go :
        (v : Lookup (Option Text))
        → project_from h store channel_id msg source_raw_id observed_at v ≡ some result
        → (a : Option Text) × (result
            ≡ project h store
                (message_row h a channel_id msg source_raw_id observed_at)
                (metrics_of (msg_uri channel_id msg.id) observed_at msg))
    go key_error e = cc
    go (found from_uri) e = (author store.self from_uri, some_injective e)
      where
        some_injective : {A : Type 0} {x y : A} → some x ≡ some y → y ≡ x
        some_injective e = cc

-- After any observation that is not older than the recorded revisions, a second observation of the
-- message, whatever its stamp, appends a revision exactly if its content hash is another one, and
-- then it appends itself.
pub revised-upsert :
    (h : Hashing) (store : Messages) (channel_id : ℕ) (a b : Msg) (raw_a t_a raw_b t_b : ℕ)
    (first second : Messages × Bool)
    → a.id ≡ b.id
    → IsUpTo (msg_uri channel_id a.id) t_a store.revisions
    → upsert_message_revised h store channel_id a raw_a t_a ≡ some first
    → upsert_message_revised h first.0 channel_id b raw_b t_b ≡ some second
    → (second.1 ≡ not (text_eq (hash_of h a) (hash_of h b)))
      × (second.0.revisions ≡ (
          if text_eq (hash_of h a) (hash_of h b)
          then first.0.revisions
          else first.0.revisions ++ (revision h channel_id b raw_b t_b ∷ [])))
unfolding message_row
revised-upsert h store channel_id a b raw_a t_a raw_b t_b first second same upto ea eb =
    let (a_from, ha) = upsert_cases h store channel_id a raw_a t_a first ea in
    let (b_from, hb) = upsert_cases h first.0 channel_id b raw_b t_b second eb in
    let row_a = message_row h a_from channel_id a raw_a t_a in
    let row_b = message_row h b_from channel_id b raw_b t_b in
    let settled =
      latest-project h store row_a (metrics_of (msg_uri channel_id a.id) t_a a) refl upto in
    let last =
      subst
        (λ s. latest_revision_hash h s.0.revisions (msg_uri channel_id a.id) ≡ some (hash_of h a))
        (sym ha) settled in
    let last_b =
      subst
        (λ n. latest_revision_hash h first.0.revisions (msg_uri channel_id n) ≡ some (hash_of h a))
        same last in
    let r =
      revised-project h first.0 row_b (metrics_of (msg_uri channel_id b.id) t_b b) (hash_of h a)
        last_b in
    (ap (λ s. s.1) hb ∙ r.0, ap (λ s. s.0.revisions) hb ∙ r.1)

stable_alike : (x y : Option Json) → IsAlike x y → stable x ≡ stable y
stable_alike none none h = refl
stable_alike none (some y) h = absurd h
stable_alike (some x) none h = absurd h
stable_alike (some x) (some y) h = ap some (AreAlike-without_volatile x y h)

-- The same text and the same media but for `file_reference` keys, at any depth, have one hash.
hash_of-stable :
    (h : Hashing) (a b : Msg)
    → a.message ≡ b.message
    → stable (truthy a.media) ≡ stable (truthy b.media)
    → hash_of h a ≡ hash_of h b
unfolding content_hash
hash_of-stable h a b text media = rw (text, media, content_hash) refl

-- Observing a message again appends no revision if its text is the same and its media differs at
-- most in fields `file_reference` of objects at any depth, inside lists too: after an observation
-- that is not older than the recorded revisions, and whatever else of the message changed.
pub upsert-unchanged :
    (h : Hashing) (store : Messages) (channel_id : ℕ) (a b : Msg) (raw_a t_a raw_b t_b : ℕ)
    (first second : Messages × Bool)
    → a.id ≡ b.id
    → a.message ≡ b.message
    → IsAlike (truthy a.media) (truthy b.media)
    → IsUpTo (msg_uri channel_id a.id) t_a store.revisions
    → upsert_message_revised h store channel_id a raw_a t_a ≡ some first
    → upsert_message_revised h first.0 channel_id b raw_b t_b ≡ some second
    → (second.1 ≡ false) × (second.0.revisions ≡ first.0.revisions)
upsert-unchanged h store channel_id a b raw_a t_a raw_b t_b first second same text media upto ea
      eb =
    let r =
      revised-upsert h store channel_id a b raw_a t_a raw_b t_b first second same upto ea eb in
    (
      r.0 ∙ ap not equal,
      r.1
          ∙ ap
              (λ t.
                if t
                then first.0.revisions
                else first.0.revisions ++ (revision h channel_id b raw_b t_b ∷ []))
              equal,
    )
  where
    equal : text_eq (hash_of h a) (hash_of h b) ≡ true
    equal =
        rw (hash_of-stable h a b text (stable_alike (truthy a.media) (truthy b.media) media))
          (text_eq_refl (hash_of h b))
