-- ===== src/Collectors/CatchUp/Growth.antt =====
-- What a catch-up observes only adds to the log and to the tombstones.
use mathlib.Core.Path.{subst}
use mathlib.Core.List.{append_assoc, append-nil}
use paperboy.Base.{
  ℕ, ◌==◌, ◌≡◌, refl, ◌∙◌, sym, ap, inl, inr, List, [], ◌∷◌, ◌++◌, map, arith, if◌then◌else◌, In,
  All, In-append_left, In-append_right, Bool, Option, none, some, Bool-cases,
}
use paperboy.Base.Text.{Text}
use paperboy.Ids.Uri.{msg_uri}
use paperboy.Ids.Peer.{peer_ref_uri}
use paperboy.Store.Messages.{Msg, mark_deleted, upsert_message_revised}
use paperboy.Store.Messages.Deletion.{stored, tombstones-project_from}
use paperboy.Store.Tables.{Messages}
use paperboy.Store.Db.{Payload, message_object, Raw, Db, add_raw}
use paperboy.Collectors.Observe.{
  Ctx, Counts, completed, raised, is_empty, observe_author, observe_forward, observe_projected,
  observe_live, observe_empty, observe_message,
}
use paperboy.Collectors.History.Observed.{IsDeleted, db_of, raws-observe_message, record_of}
use paperboy.Collectors.CatchUp.{observe_each}

-- The payloads that are logged under a channel.
abbrev pub payload_in : ℕ → Raw → List Payload
payload_in c r = if r.channel_id == c then r.payload ∷ [] else []

abbrev pub payloads : ℕ → List Raw → List Payload
payloads c [] = []
payloads c (r ∷ raws) = payload_in c r ++ payloads c raws

-- The payload is in the log, under this channel.
abbrev pub IsRecorded : ℕ → Db → Payload → Type 0
IsRecorded c db p = In p (payloads c db.raws)

-- The messages that are recorded as deleted.
abbrev pub gone : Db → List Text
gone db = map (λ t. t.message_uri) db.messages.tombstones

-- The log and the tombstones of the second store continue those of the first.
abbrev pub Grows : Db → Db → Type 0
Grows db db' =
    ((more : List Raw) × (db'.raws ≡ db.raws ++ more))
    × ((late : List Text) × (gone db' ≡ gone db ++ late))

pub Grows-refl : (db : Db) → Grows db db
Grows-refl db = (([], sym (append-nil db.raws)), ([], sym (append-nil (gone db))))

pub Grows-trans : (a b c : Db) → Grows a b → Grows b c → Grows a c
Grows-trans a b c ((m, e), (k, u)) ((n, f), (l, v)) = (
  (m ++ n, f ∙ ap (λ l. l ++ n) e ∙ append_assoc a.raws m n),
  (k ++ l, v ∙ ap (λ x. x ++ l) u ∙ append_assoc (gone a) k l),
)

pub payloads-append :
    (c : ℕ) (xs ys : List Raw) → payloads c (xs ++ ys) ≡ payloads c xs ++ payloads c ys
payloads-append c [] ys = refl
payloads-append c (x ∷ xs) ys =
    ap (λ l. payload_in c x ++ l) (payloads-append c xs ys)
    ∙ sym (append_assoc (payload_in c x) (payloads c xs) (payloads c ys))

pub IsRecorded-Grows :
    (c : ℕ) (a b : Db) (p : Payload) → Grows a b → IsRecorded c a p → IsRecorded c b p
IsRecorded-Grows c a b p ((m, e), g) h =
    subst (λ l. In p (payloads c l)) (sym e)
      (subst (In p) (sym (payloads-append c a.raws m))
        (In-append_left p (payloads c a.raws) (payloads c m) h))

pub IsDeleted-Grows : (c : ℕ) (a b : Db) (i : ℕ) → Grows a b → IsDeleted c a i → IsDeleted c b i
IsDeleted-Grows c a b i (g, (l, e)) h =
    subst (In (msg_uri c i)) (sym e) (In-append_left (msg_uri c i) (gone a) l h)

-- Appending a record of the channel records its payload.
pub appended-IsRecorded :
    (c : ℕ) (raws raws' : List Raw) (r : Raw)
    → raws' ≡ raws ++ (r ∷ [])
    → r.channel_id ≡ c
    → In r.payload (payloads c raws')
appended-IsRecorded c raws raws' r e own =
    subst (λ l. In r.payload (payloads c l)) (sym e)
      (subst (In r.payload) (sym (payloads-append c raws (r ∷ [])))
        (In-append_right r.payload (payloads c raws) (payloads c (r ∷ [])) last))
  where
    last : In r.payload (payloads c (r ∷ []))
    last = ground (arith, own)

tombstones-observe_author :
    (ctx : Ctx) (db : Db) (m : Msg) (raw_id t : ℕ)
    → gone (observe_author ctx db m raw_id t) ≡ gone db
unfolding observe_author
tombstones-observe_author ctx db m raw_id t = ground arith

tombstones-observe_forward :
    (ctx : Ctx) (db : Db) (counts : Counts) (m : Msg) (raw_id t : ℕ)
    → gone (db_of (observe_forward ctx (db, counts) m raw_id t)) ≡ gone db
unfolding observe_forward
tombstones-observe_forward ctx db counts m raw_id t = ground arith

tombstones-observe_projected :
    (ctx : Ctx) (db : Db) (counts : Counts) (m : Msg) (raw_id t : ℕ)
    (result : Option (Messages × Bool))
    → (stored db.messages result).tombstones ≡ db.messages.tombstones
    → gone (db_of (observe_projected ctx (db, counts) m raw_id t result)) ≡ gone db
unfolding observe_projected
tombstones-observe_projected ctx db counts m raw_id t none e = refl
tombstones-observe_projected ctx db counts m raw_id t (some (messages, revised)) e =
    let projected : Db = record db { messages = messages } in
    tombstones-observe_forward ctx (observe_author ctx projected m raw_id t) _ m raw_id t
    ∙ tombstones-observe_author ctx projected m raw_id t
    ∙ ap (map (λ t. t.message_uri)) e

gone-observe_live :
    (ctx : Ctx) (db : Db) (counts : Counts) (m : Msg)
    → gone (db_of (observe_live ctx (db, counts) m)) ≡ gone db
unfolding observe_live add_raw upsert_message_revised
gone-observe_live ctx db counts m =
    tombstones-observe_projected ctx _ counts m _ _ _ (
      tombstones-project_from ctx.hashing ctx.channel_id db.messages m _ _ (peer_ref_uri m.from_id))

pub map-append {ℓ κ} :
    {A : Type ℓ} {B : Type κ} (f : A → B) (xs ys : List A) → map f (xs ++ ys) ≡ map f xs ++ map f ys
map-append f [] ys = refl
map-append f (x ∷ xs) ys = ap (λ l. f x ∷ l) (map-append f xs ys)

gone-observe_message :
    (ctx : Ctx) (s : Db × Counts) (m : Msg)
    → (late : List Text) × (gone (db_of (observe_message ctx s m)) ≡ gone s.0 ++ late)
unfolding observe_message observe_empty add_raw mark_deleted
gone-observe_message ctx (db, counts) m = elim (Bool-cases (is_empty m)) [
  | inl y ↦ rw y (_ ∷ [], map-append (λ t. t.message_uri) db.messages.tombstones (_ ∷ []))
  | inr n ↦ rw n ([], gone-observe_live ctx db counts m ∙ sym (append-nil (gone db)))
]

pub observe_message-Grows :
    (ctx : Ctx) (s : Db × Counts) (m : Msg) → Grows s.0 (db_of (observe_message ctx s m))
observe_message-Grows ctx s m =
    ((_ ∷ [], raws-observe_message ctx s.0 s.1 m), gone-observe_message ctx s m)

pub observe_message-IsRecorded :
    (ctx : Ctx) (s : Db × Counts) (m : Msg)
    → IsRecorded ctx.channel_id (db_of (observe_message ctx s m)) (message_object m)
observe_message-IsRecorded ctx s m =
    appended-IsRecorded ctx.channel_id s.0.raws (db_of (observe_message ctx s m)).raws
      (record_of ctx s.0 m) (raws-observe_message ctx s.0 s.1 m) refl

pub observe_each-Grows :
    (ctx : Ctx) (s : Db × Counts) (ms : List Msg) → Grows s.0 (db_of (observe_each ctx s ms))
unfolding observe_each
observe_each-Grows ctx s [] = Grows-refl s.0
observe_each-Grows ctx s (m ∷ ms) =
    (elim (observe_message ctx s m)
        as (λ r.
          Grows s.0 (db_of r)
          → Grows s.0
              (db_of (elim r [ raised r ↦ raised r | completed r ↦ observe_each ctx r ms ]))) [
                | raised r ↦ λ g. g
                | completed r ↦ λ g.
                    Grows-trans s.0 r.0 (db_of (observe_each ctx r ms)) g
                      (observe_each-Grows ctx r ms)
              ])
      (observe_message-Grows ctx s m)

-- The messages that are observed whole are logged.
pub observe_each-IsRecorded :
    (ctx : Ctx) (s : Db × Counts) (ms : List Msg) (s' : Db × Counts)
    → observe_each ctx s ms ≡ completed s'
    → All (λ m. IsRecorded ctx.channel_id s'.0 (message_object m)) ms
unfolding observe_each
observe_each-IsRecorded ctx s [] s' e = tt
observe_each-IsRecorded ctx s (m ∷ ms) s' e =
    (elim (observe_message ctx s m)
        as (λ r.
          IsRecorded ctx.channel_id (db_of r) (message_object m)
          → elim r [ raised r ↦ raised r | completed r ↦ observe_each ctx r ms ] ≡ completed s'
          → IsRecorded ctx.channel_id s'.0 (message_object m)
            × All (λ m. IsRecorded ctx.channel_id s'.0 (message_object m)) ms) [
              | raised r ↦ λ l q. cc
              | completed r ↦ λ l q. (
                IsRecorded-Grows ctx.channel_id r.0 s'.0 (message_object m)
                    (subst (λ x. Grows r.0 (db_of x)) q (observe_each-Grows ctx r ms)) l,
                observe_each-IsRecorded ctx r ms s' q,
              )
            ])
      (observe_message-IsRecorded ctx s m) e
