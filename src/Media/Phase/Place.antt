-- ===== src/Media/Phase/Place.antt =====
-- collectors/media.py: `_held` and `_place`, where a file is looked for and put.
use paperboy.Base.{Bool, true, false, not, Option, none, some, if◌then◌else◌}
use paperboy.Base.Text.{Text}
use paperboy.Media.Phase.State.{Run, Work}
use paperboy.Media.Store.{
  Objects, Store, Network, Result, ok, unreachable, integrity, value_error, ◌>>=◌, ◌>>◌, exists,
  verify_existing, find_key, commit, stored_in,
}

-- `_held` of a live run. Without a checksum, a store that could verify cannot vouch for an object.
abbrev pub vouch : Store → Network → Objects → Text → Option Text → Result Bool
vouch s n objects key none = ok (not s.verifiable)
vouch s n objects key (some crc) = verify_existing s n objects key crc >> ok true

unfoldable pub held : Run → Network → Work → Text → Text → Option Text → Result Bool
held r n w sha key crc = if stored_in sha r.store.store_id w.custody then ok true else do
  there ← exists r.store n w.objects key
  if there then vouch r.store n w.objects key crc else ok false

-- `_place`: the objects afterwards, and the key with whether another writer was first.
abbrev pub lost_race :
    Store → Network → Text → Text → Objects × Result Bool → Objects × Result (Text × Bool)
lost_race s n loc crc (objects, ok true) = (objects, ok (loc, false))
lost_race s n loc crc (objects, ok false) =
    (objects, verify_existing s n objects loc crc >> ok (loc, true))
lost_race s n loc crc (objects, unreachable) = (objects, unreachable)
lost_race s n loc crc (objects, integrity) = (objects, integrity)
lost_race s n loc crc (objects, value_error) = (objects, value_error)

abbrev pub place_new :
    Store → Network → Objects → Text → Text → Text → Objects × Result (Text × Bool)
place_new s n objects bytes loc crc = lost_race s n loc crc (commit s n objects bytes loc crc)

abbrev pub place_found :
    Store
    → Network
    → Objects
    → Text
    → Text
    → Text
    → Result (Option Text)
    → Objects × Result (Text × Bool)
place_found s n objects bytes loc crc (ok none) = place_new s n objects bytes loc crc
place_found s n objects bytes loc crc (ok (some key)) =
    (objects, verify_existing s n objects key crc >> ok (key, false))
place_found s n objects bytes loc crc unreachable = (objects, unreachable)
place_found s n objects bytes loc crc integrity = (objects, integrity)
place_found s n objects bytes loc crc value_error = (objects, value_error)

abbrev pub place_reusing :
    Store
    → Network
    → Objects
    → Text
    → Text
    → Text
    → Text
    → Result Bool
    → Objects × Result (Text × Bool)
place_reusing s n objects bytes sha loc crc (ok true) =
    (objects, verify_existing s n objects loc crc >> ok (loc, false))
place_reusing s n objects bytes sha loc crc (ok false) =
    place_found s n objects bytes loc crc (find_key s n objects sha)
place_reusing s n objects bytes sha loc crc unreachable = (objects, unreachable)
place_reusing s n objects bytes sha loc crc integrity = (objects, integrity)
place_reusing s n objects bytes sha loc crc value_error = (objects, value_error)

unfoldable pub place :
    Store → Network → Objects → Text → Text → Text → Text → Bool → Objects × Result (Text × Bool)
place s n objects bytes sha loc crc reuse =
    if reuse
    then place_reusing s n objects bytes sha loc crc (exists s n objects loc)
    else place_new s n objects bytes loc crc
