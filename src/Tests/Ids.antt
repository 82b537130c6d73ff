-- ===== src/Tests/Ids.antt =====
-- Ids and handles on small inputs.
use paperboy.Base.{◌≡◌, ◌↔◌, inl, inr, none, some, [], ◌∷◌, ◌++◌, arith}
use paperboy.Base.Text.{codes}
use paperboy.Ids.Uri.{Entity, uri, parts, parse_uri, parse_uri-uri}
use paperboy.Ids.Peer.{
  PeerRef, found, Stub, peer_ref_uri, peer_stub, stub_uri, peer_stub-peer_ref_uri,
}
use paperboy.Ids.Utf16.{units, utf16_slice, utf16_slice-append}

parse_uri-uri_example : parse_uri (uri (Entity.msg 1234 56)) ≡ parts (Entity.msg 1234 56)
parse_uri-uri_example = parse_uri-uri (Entity.msg 1234 56)

abbrev author : PeerRef
author = record { tag = codes "PeerChannel"; user_id = none; channel_id = some 9; chat_id = none }

peer_stub-peer_ref_uri_example :
    (peer_stub (some author) ≡ some (Stub.channel 9))
    ↔ (peer_ref_uri (some author) ≡ found (some (stub_uri (Stub.channel 9))))
peer_stub-peer_ref_uri_example = peer_stub-peer_ref_uri author (Stub.channel 9)

-- The second character lies beyond the first plane.
utf16_slice-append_example :
    utf16_slice
      ((65 ∷ []) ++ ((0x1F600 ∷ 66 ∷ []) ++ (67 ∷ [])))
      (units (65 ∷ []))
      (units (0x1F600 ∷ 66 ∷ []))
    ≡ some (0x1F600 ∷ 66 ∷ [])
utf16_slice-append_example =
    utf16_slice-append (65 ∷ []) (0x1F600 ∷ 66 ∷ []) (67 ∷ []) (inl (omega arith), tt)
      (inr (omega arith, omega arith), (inl (omega arith), tt)) (inl (omega arith), tt)
