-- ===== src/Store/Peers/Order.antt =====
-- What the order in which observations arrive changes, and what it does not.
use paperboy.Base.{
  ℕ, min, max, ◌≤◌, ◌<◌, ◌≡◌, ◌≢◌, refl, Bool, true, false, ◌&&◌, ◌∙◌, ap, List, [], ◌∷◌, arith,
}
use paperboy.Store.Peers.{PeerRow, observe}

-- A row after a list of observations.
abbrev pub observe_all : PeerRow → List PeerRow → PeerRow
observe_all row [] = row
observe_all row (o ∷ obs) = observe_all (observe row o) obs

abbrev pub latest : ℕ → List PeerRow → ℕ
latest t [] = t
latest t (o ∷ obs) = latest (max t o.last_seen) obs

abbrev pub earliest : ℕ → List PeerRow → ℕ
earliest t [] = t
earliest t (o ∷ obs) = earliest (min t o.first_seen) obs

abbrev pub all_min : Bool → List PeerRow → Bool
all_min b [] = b
all_min b (o ∷ obs) = all_min (b && o.is_min) obs

window-observe :
    (row o : PeerRow)
    → ((observe row o).first_seen ≡ min row.first_seen o.first_seen)
      × ((observe row o).last_seen ≡ max row.last_seen o.last_seen)
      × ((observe row o).is_min ≡ (row.is_min && o.is_min))
unfolding observe
window-observe row o = ground arith

-- However many observations arrive, and in whatever order, the window of a row runs from the
-- earliest stamp to the latest, and the row is min exactly if every observation was.
pub observe_all-window :
    (row : PeerRow) (obs : List PeerRow)
    → ((observe_all row obs).first_seen ≡ earliest row.first_seen obs)
      × ((observe_all row obs).last_seen ≡ latest row.last_seen obs)
      × ((observe_all row obs).is_min ≡ all_min row.is_min obs)
observe_all-window row [] = (refl, refl, refl)
observe_all-window row (o ∷ obs) =
    let h = window-observe row o in
    let rest = observe_all-window (observe row o) obs in
    (
      rest.0 ∙ ap (λ t. earliest t obs) h.0,
      rest.1 ∙ ap (λ t. latest t obs) h.1,
      rest.2 ∙ ap (λ b. all_min b obs) h.2,
    )

-- Two full observations of a full row with different stamps may come in either order.
pub observe_comm_full :
    (row a b : PeerRow)
    → row.is_min ≡ false
    → a.is_min ≡ false
    → b.is_min ≡ false
    → a.last_seen ≢ b.last_seen
    → observe (observe row a) b ≡ observe (observe row b) a
unfolding observe
observe_comm_full row a b hr ha hb ne = ground arith

-- A min observation between two full ones of a peer hides the later full one: if `b` is newer than
-- the full row but older than the min observation `m`, and arrives after it, the profile of the
-- older full row stays, while the other order ends with the profile of `b`.
pub min_hides_full :
    (row m b : PeerRow)
    → row.is_min ≡ false
    → m.is_min ≡ true
    → b.is_min ≡ false
    → row.last_seen ≤ b.last_seen
    → b.last_seen < m.last_seen
    → ((observe (observe row m) b).profile ≡ row.profile)
      × ((observe (observe row b) m).profile ≡ b.profile)
unfolding observe
min_hides_full row m b hr hm hb older hidden = ground arith
