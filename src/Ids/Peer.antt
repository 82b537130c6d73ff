-- ===== src/Ids/Peer.antt =====
-- ids.py: what a TL peer reference and a TL handle list name.
use paperboy.Base.{
  ◌↔◌, ◌==◌, ◌∙◌, sym, ℕ, ◌+◌, ◌≡◌, ◌≢◌, refl, inl, inr, Bool, true, false, ◌&&◌, ◌||◌, Option,
  none, some, List, [], ◌∷◌, ◌++◌, map, arith, leb, if◌then◌else◌, Bool-cases,
}
use paperboy.Base.Text.{Text, codes, text_eq}
use paperboy.Ids.Uri.{Entity, uri, uri_injective, channel_uri, chat_uri, user_uri}

-- `text.lower()` of an ASCII character.
abbrev pub lower_char : ℕ → ℕ
lower_char c = if leb b'A' c && leb c b'Z' then c + 32 else c

abbrev pub lower : Text → Text
lower t = map lower_char t

-- A non-empty `Peer*` or `InputPeer*` dict: its tag `_`, empty if it has none, and its id fields.
pub record PeerRef : Type 0 where
  pub tag : Text
  pub user_id : Option ℕ
  pub channel_id : Option ℕ
  pub chat_id : Option ℕ

-- `peer["user_id"]` raises `KeyError` where the field is missing.
pub data Lookup (A : Type 0) : Type 0 where
  found : A → Lookup A
  key_error : Lookup A

abbrev required : (ℕ → Text) → Option ℕ → Lookup (Option Text)
required f none = key_error
required f (some n) = found (some (f n))

abbrev pub is_one_of : Text → Text → Text → Bool
is_one_of a b t = text_eq t a || text_eq t b

-- A missing or empty reference is `none`.
unfoldable pub peer_ref_uri : Option PeerRef → Lookup (Option Text)
peer_ref_uri none = found none
peer_ref_uri (some p) =
    let kind = lower p.tag in
    if is_one_of (codes "peeruser") (codes "inputpeeruser") kind
    then required user_uri p.user_id
    else if is_one_of (codes "peerchannel") (codes "inputpeerchannel") kind
    then required channel_uri p.channel_id
    else if is_one_of (codes "peerchat") (codes "inputpeerchat") kind
    then required chat_uri p.chat_id
    else found none

-- A stub `{"_": "User" or "Channel", "id": id, "min": True}`.
pub data Stub : Type 0 where
  user channel : ℕ → Stub

abbrev stub_of : (ℕ → Stub) → Option ℕ → Option Stub
stub_of f none = none
stub_of f (some n) = some (f n)

unfoldable pub peer_stub : Option PeerRef → Option Stub
peer_stub none = none
peer_stub (some p) =
    let kind = lower p.tag in
    if is_one_of (codes "peeruser") (codes "inputpeeruser") kind
    then stub_of user p.user_id
    else if is_one_of (codes "peerchannel") (codes "inputpeerchannel") kind
    then stub_of channel p.channel_id
    else none

abbrev pub stub_uri : Stub → Text
stub_uri (user n) = user_uri n
stub_uri (channel n) = channel_uri n

abbrev pub is_chat : PeerRef → Bool
is_chat p = is_one_of (codes "peerchat") (codes "inputpeerchat") (lower p.tag)

abbrev entity : Stub → Entity
entity (user n) = Entity.user n
entity (channel n) = Entity.channel n

uri-entity : (s : Stub) → uri (entity s) ≡ stub_uri s
uri-entity (user n) = refl
uri-entity (channel n) = refl

found_injective : {A : Type 0} (x y : A) → found (some x) ≡ found (some y) → x ≡ y
found_injective x y h = cc

-- Equal ids name equal entities, here of a stub.
same_entity :
    (e : Entity) (s : Stub) → found (some (uri e)) ≡ found (some (stub_uri s)) → e ≡ entity s
same_entity e s h =
    uri_injective e (entity s) (found_injective (uri e) (stub_uri s) h ∙ sym (uri-entity s))

-- The stub and the id of one optional field go together.
user_agrees :
    (i : Option ℕ) (s : Stub)
    → (stub_of user i ≡ some s) ↔ (required user_uri i ≡ found (some (stub_uri s)))
user_agrees none s = (λ h. cc, λ h. cc)
user_agrees (some n) s =
    (λ h. ground (arith, h), λ h. of_entity s (same_entity (Entity.user n) s h))
  where
    of_entity : (t : Stub) → Entity.user n ≡ entity t → some (user n) ≡ some t
    of_entity (user m) e = cc
    of_entity (channel m) e = cc

channel_agrees :
    (i : Option ℕ) (s : Stub)
    → (stub_of channel i ≡ some s) ↔ (required channel_uri i ≡ found (some (stub_uri s)))
channel_agrees none s = (λ h. cc, λ h. cc)
channel_agrees (some n) s =
    (λ h. ground (arith, h), λ h. of_entity s (same_entity (Entity.channel n) s h))
  where
    of_entity : (t : Stub) → Entity.channel n ≡ entity t → some (channel n) ≡ some t
    of_entity (user m) e = cc
    of_entity (channel m) e = cc

chat_has_no_stub : (i : Option ℕ) (s : Stub) → required chat_uri i ≢ found (some (stub_uri s))
chat_has_no_stub none s h = cc
chat_has_no_stub (some n) s h = of_entity s (same_entity (Entity.chat n) s h)
  where
    of_entity : (t : Stub) → Entity.chat n ≡ entity t → ⊥
    of_entity (user m) e = cc
    of_entity (channel m) e = cc

agree_by_kind :
    (u c g : Bool) (p : PeerRef) (s : Stub)
    → ((if u then stub_of user p.user_id else if c then stub_of channel p.channel_id else none)
        ≡ some s)
      ↔ ((if u
            then required user_uri p.user_id
            else if c
            then required channel_uri p.channel_id
            else if g
            then required chat_uri p.chat_id
            else found none)
          ≡ found (some (stub_uri s)))
agree_by_kind true c g p s = user_agrees p.user_id s
agree_by_kind false true g p s = channel_agrees p.channel_id s
agree_by_kind false false true p s = (λ h. cc, λ h. absurd (chat_has_no_stub p.chat_id s h))
agree_by_kind false false false p s = (λ h. cc, λ h. cc)

-- A reference has the stub of a user or channel exactly if it is given that user's or channel's
-- id: the two mappings agree on every reference.
pub peer_stub-peer_ref_uri :
    (p : PeerRef) (s : Stub)
    → (peer_stub (some p) ≡ some s) ↔ (peer_ref_uri (some p) ≡ found (some (stub_uri s)))
unfolding peer_stub peer_ref_uri
peer_stub-peer_ref_uri p s =
    agree_by_kind (is_one_of (codes "peeruser") (codes "inputpeeruser") (lower p.tag))
      (is_one_of (codes "peerchannel") (codes "inputpeerchannel") (lower p.tag))
      (is_one_of (codes "peerchat") (codes "inputpeerchat") (lower p.tag)) p s

-- A handle of `usernames`.
pub record Handle : Type 0 where
  pub username : Option Text
  pub editable : Bool
  pub active : Bool

-- The first handle that passes the test, by its name.
abbrev pub first_handle : (Handle → Bool) → List Handle → Option Handle
first_handle p [] = none
first_handle p (h ∷ hs) = if p h then some h else first_handle p hs

abbrev pub name_of : Option Handle → Option Text
name_of none = none
name_of (some h) = h.username

-- A null or empty `username` is false.
abbrev pub is_name : Option Text → Bool
is_name none = false
is_name (some []) = false
is_name (some (c ∷ cs)) = true

unfoldable pub primary_username : Option Text → List Handle → Option Text
primary_username legacy usernames =
    if is_name legacy then legacy else elim (first_handle (λ h. h.editable) usernames) [
      | some h ↦ h.username
      | none ↦ name_of (first_handle (λ h. h.active) usernames)
    ]

-- `"." in kind`
abbrev pub has_dot : Text → Bool
has_dot [] = false
has_dot (c ∷ cs) = (c == b'.') || has_dot cs

abbrev name_or : Text → Option Text → Text
name_or default none = default
name_or default (some t) = t

-- `payload.get("_") or default`, then its TL namespace.
unfoldable pub namespaced_kind : Text → Option Text → Text → Text
namespaced_kind namespace tag default =
    let kind = (if is_name tag then name_or default tag else default) in
    if has_dot kind then kind else namespace ++ (b'.' ∷ kind)

has_dot-append : (s t : Text) → has_dot (s ++ b'.' ∷ t) ≡ true
has_dot-append [] t = refl
has_dot-append (c ∷ cs) t = ground (arith, has_dot-append cs t)

has_dot-namespaced_kind :
    (namespace : Text) (tag : Option Text) (default : Text)
    → has_dot (namespaced_kind namespace tag default) ≡ true
unfolding namespaced_kind
has_dot-namespaced_kind namespace tag default =
    by_kind (if is_name tag then name_or default tag else default)
  where
    by_kind : (k : Text) → has_dot (if has_dot k then k else namespace ++ (b'.' ∷ k)) ≡ true
    by_kind k = elim (Bool-cases (has_dot k)) [
      | inl dotted ↦ rw dotted dotted
      | inr bare ↦ rw bare (has_dot-append namespace k)
    ]

namespaced_kind_dotted :
    (namespace k default : Text) → has_dot k ≡ true → namespaced_kind namespace (some k) default ≡ k
unfolding namespaced_kind
namespaced_kind_dotted namespace [] default h = cc
namespaced_kind_dotted namespace (c ∷ cs) default h = rw h

-- A kind that was stamped with its namespace is left as it is, whatever the namespace and default.
namespaced_kind_idem :
    (namespace other : Text) (tag : Option Text) (default default' : Text)
    → namespaced_kind other (some (namespaced_kind namespace tag default)) default'
      ≡ namespaced_kind namespace tag default
namespaced_kind_idem namespace other tag default default' =
    namespaced_kind_dotted other (namespaced_kind namespace tag default) default'
      (has_dot-namespaced_kind namespace tag default)
