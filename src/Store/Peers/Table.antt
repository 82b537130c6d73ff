-- ===== src/Store/Peers/Table.antt =====
-- `upsert_peer` changes one row, by `observe`, and never that of the collecting account.
use paperboy.Base.{
  ℕ, ◌≡◌, inl, inr, ◌≢◌, Option, none, some, List, [], ◌∷◌, arith, if◌then◌else◌, Option-cases,
}
use paperboy.Base.Text.{Text, text_eq, text_eq_iff}
use paperboy.Store.Peers.{
  PeerObject, PeerRow, observe, find_peer, put_peer, observed_row, classify_peer, upsert_peer,
}

-- What an observation makes of the row that is there, if any.
abbrev pub observed : Option PeerRow → PeerRow → PeerRow
observed none obs = obs
observed (some row) obs = observe row obs

uri-observe : (row obs : PeerRow) → (observe row obs).uri ≡ row.uri
unfolding observe
uri-observe row obs = ground arith

-- Whichever observation is put, the row of its uri is what `observe` makes of the one that was
-- there, and every other row stays.
find_peer-put_peer :
    (rows : List PeerRow) (obs : PeerRow) (uri : Text)
    → find_peer uri (put_peer rows obs) ≡ (
        if text_eq obs.uri uri
        then some (observed (find_peer uri rows) obs)
        else find_peer uri rows)
unfolding put_peer
find_peer-put_peer [] obs uri = ground arith
find_peer-put_peer (r ∷ rows) obs uri = ground (
  arith,
  text_eq_iff r.uri obs.uri,
  text_eq_iff obs.uri uri,
  text_eq_iff r.uri uri,
  uri-observe r obs,
  find_peer-put_peer rows obs uri,
)

-- If the collecting account has no row, it gets none, and it is not returned, whatever peer is
-- observed.
pub upsert_peer_self :
    (self : Text) (rows : List PeerRow) (obj : PeerObject) (source_raw_id observed_at : ℕ)
    (seen_in_chat seen_in_msg : Option ℕ) (rows' : List PeerRow) (result : Option Text)
    → find_peer self rows ≡ none
    → upsert_peer (some self) rows obj source_raw_id observed_at seen_in_chat seen_in_msg
      ≡ some (rows', result)
    → (find_peer self rows' ≡ none) × (result ≢ some self)
unfolding upsert_peer
upsert_peer_self self rows obj source_raw_id observed_at seen_in_chat seen_in_msg rows' result
      absent e =
    elim (Option-cases (classify_peer obj)) [
      | inl bad ↦ absurd (not_raised (rw (bad, upsert_peer) at e))
      | inr (k, c) ↦ kept k.0 k.1 (rw (c, upsert_peer) at e)
    ]
  where
    not_raised : ◌≡◌ {A = Option (List PeerRow × Option Text)} none (some (rows', result)) → ⊥
    not_raised h = cc

    kept :
        (kind uri : Text)
        → ◌≡◌ {A = Option (List PeerRow × Option Text)}
            (some (
              if text_eq uri self then (rows, none) else (
                put_peer rows
                    (observed_row kind uri obj source_raw_id observed_at seen_in_chat seen_in_msg),
                some uri,
              )))
            (some (rows', result))
        → (find_peer self rows' ≡ none) × (result ≢ some self)
    kept kind uri h =
        let row = observed_row kind uri obj source_raw_id observed_at seen_in_chat seen_in_msg in
        ground (arith, h, text_eq_iff uri self, find_peer-put_peer rows row self)
