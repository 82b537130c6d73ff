-- ===== src/Ids/Uri.antt =====
-- ids.py: the constructors of entity ids, and `parse_uri`.
use paperboy.Base.{
  ℕ, ◌≡◌, refl, Bool, false, ◌||◌, ◌∙◌, ap, sym, Option, none, some, List, [], ◌∷◌, ◌++◌, arith,
  if◌then◌else◌, ◌==◌, All-append,
}
use paperboy.Base.Text.{Text, codes, text_eq, split_on, IsFree, split_on_free, split_on-append}
use paperboy.Base.Decimal.{decimal, is_digit, IsDigits, decimal-IsDigits, ℤ, pos, int, int-decimal}

abbrev pub scheme : Text
scheme = codes "tg"

abbrev pub colon : ℕ
colon = b':'

abbrev pub slash : ℕ
slash = b'/'

-- `f"{_SCHEME}:{kind}:{rest}"`
abbrev pub uri_of : Text → Text → Text
uri_of kind rest = scheme ++ (colon ∷ (kind ++ (colon ∷ rest)))

unfoldable pub channel_uri : ℕ → Text
channel_uri id = uri_of (codes "channel") (decimal id)

unfoldable pub chat_uri : ℕ → Text
chat_uri id = uri_of (codes "chat") (decimal id)

unfoldable pub user_uri : ℕ → Text
user_uri id = uri_of (codes "user") (decimal id)

unfoldable pub msg_uri : ℕ → ℕ → Text
msg_uri channel_id msg_id = uri_of (codes "msg") (decimal channel_id ++ (slash ∷ decimal msg_id))

-- These two are never parsed back.
pub username_uri : Text → Text
username_uri name = uri_of (codes "username") name

pub invite_uri : Text → Text
invite_uri hash = uri_of (codes "invite") hash

-- `kind in _KINDS`
abbrev pub is_kind : Text → Bool
is_kind k =
    text_eq k (codes "channel")
    || (text_eq k (codes "chat") || (text_eq k (codes "user") || text_eq k (codes "msg")))

-- What `parse_uri` returns, or the `ValueError` that it raises.
pub data ParsedUri : Type 0 where
  parsed : Text → List ℤ → ParsedUri
  malformed unknown_kind : ParsedUri

abbrev one_id : Text → Option ℤ → ParsedUri
one_id kind none = malformed
one_id kind (some a) = parsed kind (a ∷ [])

abbrev two_ids : Text → Option ℤ → Option ℤ → ParsedUri
two_ids kind none b = malformed
two_ids kind (some a) none = malformed
two_ids kind (some a) (some b) = parsed kind (a ∷ b ∷ [])

-- The unpacking of `rest.split("/")`, and the two `int` calls.
abbrev msg_ids : Text → List Text → ParsedUri
msg_ids kind (a ∷ b ∷ []) = two_ids kind (int a) (int b)
msg_ids kind _ = malformed

abbrev parse_ids : Text → Text → ParsedUri
parse_ids kind rest =
    if text_eq kind (codes "msg")
    then msg_ids kind (split_on slash rest)
    else one_id kind (int rest)

abbrev parse_parts : List Text → ParsedUri
parse_parts (s ∷ kind ∷ rest ∷ []) =
    if text_eq s scheme
    then (if is_kind kind then parse_ids kind rest else unknown_kind)
    else malformed
parse_parts _ = malformed

unfoldable pub parse_uri : Text → ParsedUri
parse_uri uri = parse_parts (split_on colon uri)

IsFree-digits : (c : ℕ) (t : Text) → is_digit c ≡ false → IsDigits t → IsFree c t
IsFree-digits c [] n h = tt
IsFree-digits c (x ∷ xs) n h = (ground (arith, h.0), IsFree-digits c xs n h.1)

IsFree-decimal : (c n : ℕ) → is_digit c ≡ false → IsFree c (decimal n)
IsFree-decimal c n h = IsFree-digits c (decimal n) h (decimal-IsDigits n)

split_uri :
    (kind rest : Text)
    → IsFree colon kind
    → IsFree colon rest
    → split_on colon (uri_of kind rest) ≡ scheme ∷ kind ∷ rest ∷ []
split_uri kind rest hk hr =
    split_on-append colon scheme (kind ++ (colon ∷ rest)) (refl, (refl, tt))
    ∙ ap (λ l. scheme ∷ l)
        (split_on-append colon kind rest hk ∙ ap (λ l. kind ∷ l) (split_on_free colon rest hr))

-- What an id names.
pub data Entity : Type 0 where
  channel chat user : ℕ → Entity
  msg : ℕ → ℕ → Entity

abbrev pub uri : Entity → Text
uri (channel n) = channel_uri n
uri (chat n) = chat_uri n
uri (user n) = user_uri n
uri (msg c n) = msg_uri c n

abbrev pub parts : Entity → ParsedUri
parts (channel n) = parsed (codes "channel") (pos n ∷ [])
parts (chat n) = parsed (codes "chat") (pos n ∷ [])
parts (user n) = parsed (codes "user") (pos n ∷ [])
parts (msg c n) = parsed (codes "msg") (pos c ∷ pos n ∷ [])

split_msg :
    (c n : ℕ) → split_on slash (decimal c ++ (slash ∷ decimal n)) ≡ decimal c ∷ decimal n ∷ []
split_msg c n =
    split_on-append slash (decimal c) (decimal n) (IsFree-decimal slash c refl)
    ∙ ap (λ l. decimal c ∷ l) (split_on_free slash (decimal n) (IsFree-decimal slash n refl))

IsFree-channel : IsFree colon (codes "channel")
IsFree-channel = ground arith

IsFree-chat : IsFree colon (codes "chat")
IsFree-chat = ground arith

IsFree-user : IsFree colon (codes "user")
IsFree-user = ground arith

IsFree-msg : IsFree colon (codes "msg")
IsFree-msg = ground arith

IsFree-two : (c n : ℕ) → IsFree colon (decimal c ++ (slash ∷ decimal n))
IsFree-two c n =
    All-append (λ x. (x == colon) ≡ false) (decimal c) (slash ∷ decimal n)
      (IsFree-decimal colon c refl) (refl, IsFree-decimal colon n refl)

-- Parsing the id that a constructor made gives back its kind and its numbers.
pub parse_uri-uri : (e : Entity) → parse_uri (uri e) ≡ parts e
unfolding parse_uri channel_uri chat_uri user_uri msg_uri
parse_uri-uri (channel n) =
    rw (split_uri (codes "channel") (decimal n) IsFree-channel (IsFree-decimal colon n refl))
      (rw (int-decimal n))
parse_uri-uri (chat n) =
    rw (split_uri (codes "chat") (decimal n) IsFree-chat (IsFree-decimal colon n refl))
      (rw (int-decimal n))
parse_uri-uri (user n) =
    rw (split_uri (codes "user") (decimal n) IsFree-user (IsFree-decimal colon n refl))
      (rw (int-decimal n))
parse_uri-uri (msg c n) =
    rw (split_uri (codes "msg") (decimal c ++ (slash ∷ decimal n)) IsFree-msg (IsFree-two c n))
      (rw (split_msg c n) (rw (int-decimal c) (rw (int-decimal n))))

parts_injective : (e f : Entity) → parts e ≡ parts f → e ≡ f
parts_injective (channel n) (channel m) h = cc
parts_injective e f h = ground arith

-- Two constructors' ids are equal only if they name the same entity.
pub uri_injective : (e f : Entity) → uri e ≡ uri f → e ≡ f
uri_injective e f h = parts_injective e f (sym (parse_uri-uri e) ∙ ap parse_uri h ∙ parse_uri-uri f)
