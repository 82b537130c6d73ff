-- ===== src/Collectors/CatchUp/Updates.antt =====
-- The updates of a difference: each edit is logged, and each deletion leaves its tombstones.
use mathlib.Core.Path.{subst}
use mathlib.Core.List.{append_assoc, append-nil}
use paperboy.Base.{
  ℕ, ◌≡◌, refl, ◌∙◌, sym, ap, inl, inr, List, [], ◌∷◌, ◌++◌, map, In, All, All-map_at, All-of_In,
  In-append_right,
}
use paperboy.Base.Text.{Text}
use paperboy.Ids.Uri.{msg_uri}
use paperboy.Store.Messages.{mark_deleted}
use paperboy.Store.Db.{message_object, Update, edited, deleted, other, Db}
use paperboy.Collectors.Observe.{Ctx, Counts, completed, raised}
use paperboy.Collectors.History.Observed.{IsDeleted, db_of}
use paperboy.Collectors.CatchUp.{delete_each, apply_update, apply_updates}
use paperboy.Collectors.CatchUp.Growth.{
  gone, Grows, Grows-refl, Grows-trans, IsRecorded, IsRecorded-Grows, IsDeleted-Grows, map-append,
  observe_message-Grows, observe_message-IsRecorded,
}

raws-delete_each :
    (ctx : Ctx) (t : ℕ) (ids : List ℕ) (s : Db × Counts)
    → (delete_each ctx t s ids).0.raws ≡ s.0.raws
unfolding delete_each
raws-delete_each ctx t [] s = refl
raws-delete_each ctx t (id ∷ ids) s = raws-delete_each ctx t ids _

gone-delete_each :
    (ctx : Ctx) (t : ℕ) (ids : List ℕ) (s : Db × Counts)
    → gone (delete_each ctx t s ids).0 ≡ gone s.0 ++ map (msg_uri ctx.channel_id) ids
unfolding delete_each mark_deleted
gone-delete_each ctx t [] s = sym (append-nil (gone s.0))
gone-delete_each ctx t (id ∷ ids) s =
    gone-delete_each ctx t ids _
    ∙ ap (λ l. l ++ map (msg_uri ctx.channel_id) ids)
        (map-append (λ t. t.message_uri) s.0.messages.tombstones (_ ∷ []))
    ∙ append_assoc (gone s.0) (msg_uri ctx.channel_id id ∷ []) (map (msg_uri ctx.channel_id) ids)

apply_update-Grows :
    (ctx : Ctx) (t : ℕ) (s : Db × Counts) (u : Update) → Grows s.0 (db_of (apply_update ctx t s u))
apply_update-Grows ctx t s (edited m) = observe_message-Grows ctx s m
apply_update-Grows ctx t s (deleted ids) = (
  ([], raws-delete_each ctx t ids s ∙ sym (append-nil s.0.raws)),
  (map (msg_uri ctx.channel_id) ids, gone-delete_each ctx t ids s),
)
apply_update-Grows ctx t s other = Grows-refl s.0

pub apply_updates-Grows :
    (ctx : Ctx) (t : ℕ) (s : Db × Counts) (us : List Update)
    → Grows s.0 (db_of (apply_updates ctx t s us))
unfolding apply_updates
apply_updates-Grows ctx t s [] = Grows-refl s.0
apply_updates-Grows ctx t s (u ∷ us) =
    (elim (apply_update ctx t s u)
        as (λ r.
          Grows s.0 (db_of r)
          → Grows s.0
              (db_of (elim r [ raised r ↦ raised r | completed r ↦ apply_updates ctx t r us ]))) [
                | raised r ↦ λ g. g
                | completed r ↦ λ g.
                    Grows-trans s.0 r.0 (db_of (apply_updates ctx t r us)) g
                      (apply_updates-Grows ctx t r us)
              ])
      (apply_update-Grows ctx t s u)

-- What an update has to leave: an edited message in the log, and a tombstone of each deleted one.
abbrev pub IsHandled : ℕ → Db → Update → Type 0
IsHandled c db (edited m) = IsRecorded c db (message_object m)
IsHandled c db (deleted ids) = All (λ i. IsDeleted c db i) ids
IsHandled c db other = Unit

pub IsHandled-Grows :
    (c : ℕ) (a b : Db) (u : Update) → Grows a b → IsHandled c a u → IsHandled c b u
IsHandled-Grows c a b (edited m) g h = IsRecorded-Grows c a b (message_object m) g h
IsHandled-Grows c a b (deleted ids) g h = All-map_at ids h (λ i d. IsDeleted-Grows c a b i g d)
IsHandled-Grows c a b other g h = tt

In-map : (f : ℕ → Text) (i : ℕ) (ids : List ℕ) → In i ids → In (f i) (map f ids)
In-map f i (j ∷ ids) (inl e) = inl (ap f e)
In-map f i (j ∷ ids) (inr m) = inr (In-map f i ids m)
In-map f i [] m = absurd m

apply_update-IsHandled :
    (ctx : Ctx) (t : ℕ) (s : Db × Counts) (u : Update) (s' : Db × Counts)
    → apply_update ctx t s u ≡ completed s'
    → IsHandled ctx.channel_id s'.0 u
apply_update-IsHandled ctx t s (edited m) s' e =
    subst (λ r. IsRecorded ctx.channel_id (db_of r) (message_object m)) e
      (observe_message-IsRecorded ctx s m)
apply_update-IsHandled ctx t s (deleted ids) s' e =
    subst (λ r. All (λ i. IsDeleted ctx.channel_id (db_of r) i) ids) e
      (All-of_In _ ids (λ i m.
        subst (In (msg_uri ctx.channel_id i)) (sym (gone-delete_each ctx t ids s)) (
          In-append_right (msg_uri ctx.channel_id i) (gone s.0) (map (msg_uri ctx.channel_id) ids)
            (In-map (msg_uri ctx.channel_id) i ids m))))
apply_update-IsHandled ctx t s other s' e = tt

-- The updates that are applied without an exception are handled.
pub apply_updates-IsHandled :
    (ctx : Ctx) (t : ℕ) (s : Db × Counts) (us : List Update) (s' : Db × Counts)
    → apply_updates ctx t s us ≡ completed s'
    → All (IsHandled ctx.channel_id s'.0) us
unfolding apply_updates
apply_updates-IsHandled ctx t s [] s' e = tt
apply_updates-IsHandled ctx t s (u ∷ us) s' e =
    (elim (apply_update ctx t s u)
        as (λ r.
          apply_update ctx t s u ≡ r
          → elim r [ raised r ↦ raised r | completed r ↦ apply_updates ctx t r us ] ≡ completed s'
          → IsHandled ctx.channel_id s'.0 u × All (IsHandled ctx.channel_id s'.0) us) [
            | raised r ↦ λ a q. cc
            | completed r ↦ λ a q. (
              IsHandled-Grows ctx.channel_id r.0 s'.0 u
                  (subst (λ x. Grows r.0 (db_of x)) q (apply_updates-Grows ctx t r us))
                  (apply_update-IsHandled ctx t s u r a),
              apply_updates-IsHandled ctx t r us s' q,
            )
          ])
      refl e
