-- ===== src/Media/Keys/RoundTrip.antt =====
-- Keys are taken apart as they were made.
use paperboy.Base.{
  ℕ, ◌<◌, ◌≡◌, refl, ◌∙◌, Bool, true, false, Option, none, some, [], ◌∷◌, ◌++◌, arith, length, take,
  drop, take-append, drop-append, Bool-cases, inl, inr,
}
use mathlib.Core.Path.{subst}
use paperboy.Base.Text.{Text, codes, text_eq_refl}
use paperboy.Inputs.Scan.{after, all_chars}
use paperboy.Media.Keys.{
  is_hex, is_sha, is_alnum, is_ext_char, is_valid_ext, key_text, media_key, is_name_char,
  is_key_ext, of_name, key_sha256, is_media_key, after_first, key_with, normalize_legacy_location,
}

all_chars_mono :
    (p q : ℕ → Bool) (t : Text)
    → ((c : ℕ) → p c ≡ true → q c ≡ true)
    → all_chars p t ≡ true
    → all_chars q t ≡ true
all_chars_mono p q [] f h = refl
all_chars_mono p q (c ∷ t) f h = ground (arith, f c, all_chars_mono p q t f)

name_char_of_ext : (c : ℕ) → is_ext_char c ≡ true → is_name_char c ≡ true
name_char_of_ext c h = ground arith

name_char_of_alnum : (c : ℕ) → is_alnum c ≡ true → is_name_char c ≡ true
name_char_of_alnum c h = ground arith

key_ext_of_valid : (ext : Text) → is_valid_ext ext ≡ true → is_key_ext ext ≡ true
unfolding is_valid_ext
key_ext_of_valid [] h = refl
key_ext_of_valid (d ∷ []) h = ground arith
key_ext_of_valid (d ∷ c ∷ t) h =
    ground (arith, name_char_of_alnum c, all_chars_mono is_ext_char is_name_char t name_char_of_ext)

take_sha : (s t : Text) → length s ≡ 64 → take 64 (s ++ t) ≡ s
take_sha s t h = subst (λ n. take n (s ++ t) ≡ s) h (take-append s t)

drop_sha : (s t : Text) → length s ≡ 64 → drop 64 (s ++ t) ≡ t
drop_sha s t h = subst (λ n. drop n (s ++ t) ≡ t) h (drop-append s t)

length_of_sha : (s : Text) → is_sha s ≡ true → length s ≡ 64
length_of_sha s h = ground arith

-- The parts of a key with a name that begins with its sha.
of_name-sha :
    (shard sha ext : Text)
    → is_sha sha ≡ true
    → is_key_ext ext ≡ true
    → shard ≡ take 2 sha
    → of_name shard (sha ++ ext) ≡ some sha
of_name-sha shard sha ext h x e =
    rw (take_sha sha ext (length_of_sha sha h), drop_sha sha ext (length_of_sha sha h))
      (rw (h, x, e, text_eq_refl (take 2 sha)))

key_sha256-key_text :
    (sha ext : Text)
    → is_sha sha ≡ true
    → is_key_ext ext ≡ true
    → key_sha256 (key_text sha ext) ≡ some sha
unfolding key_sha256
key_sha256-key_text [] ext h x = cc
key_sha256-key_text (a ∷ []) ext h x = cc
key_sha256-key_text (a ∷ b ∷ s) ext h x = of_name-sha (a ∷ b ∷ []) (a ∷ b ∷ s) ext h x refl

-- A key that `media_key` makes names the sha that it was made from.
pub key_sha256-media_key :
    (sha ext key : Text) → media_key sha ext ≡ some key → key_sha256 key ≡ some sha
unfolding media_key
key_sha256-media_key sha ext key h = elim (Bool-cases (is_sha sha)) [
  | inl good ↦ elim (Bool-cases (is_valid_ext ext)) [
    | inl valid ↦
        let e : some (key_text sha ext) ≡ some key = rw (good, valid) at h in
        subst (λ k. key_sha256 k ≡ some sha) (cc)
          (key_sha256-key_text sha ext good (key_ext_of_valid ext valid))
    | inr bad ↦ ground arith
  ]
  | inr bad ↦ ground arith
]

-- A part of hexadecimal digits does not begin a text that has another character too early.
after-nonhex :
    (part s : Text) (x : ℕ) (t : Text)
    → all_chars is_hex part ≡ true
    → is_hex x ≡ false
    → length s < length part
    → after part (s ++ x ∷ t) ≡ none
after-nonhex [] s x t h n l = absurd (omega arith)
after-nonhex (c ∷ part) [] x t h n l = ground arith
after-nonhex (c ∷ part) (d ∷ s) x t h n l = ground (arith, after-nonhex part s x t)

after_self : (p t : Text) → after p (p ++ t) ≡ some t
after_self [] t = refl
after_self (c ∷ p) t = ground (arith, after_self p t)

after_first_later :
    (part : Text) (c : ℕ) (t : Text)
    → after part (c ∷ t) ≡ none
    → after_first part (c ∷ t) ≡ after_first part t
unfolding after_first
after_first_later part c t h = rw (h, after_first) refl

after_first_here :
    (part : Text) (c : ℕ) (t r : Text)
    → after part (c ∷ t) ≡ some r
    → after_first part (c ∷ t) ≡ some r
unfolding after_first
after_first_here part c t r h = rw (h, after_first) refl

-- A key does not contain its sha before its name.
after_first-key_text :
    (sha ext : Text) → is_sha sha ≡ true → after_first sha (key_text sha ext) ≡ some ext
after_first-key_text [] ext h = cc
after_first-key_text (a ∷ []) ext h = cc
after_first-key_text (a ∷ b ∷ s) ext h =
    let sha : Text = a ∷ b ∷ s in
    let name : Text = sha ++ ext in
    let hex : all_chars is_hex sha ≡ true = ground arith in
    let long : length sha ≡ 64 = length_of_sha sha h in
    let shard : Text = a ∷ b ∷ b'/' ∷ name in
    skip b'm' (codes "edia/" ++ shard)
      (after-nonhex sha [] b'm' (codes "edia/" ++ shard) hex refl (omega arith))
    ∙ skip b'e' (codes "dia/" ++ shard)
        (after-nonhex sha (codes "ed") b'i' (codes "a/" ++ shard) hex refl (omega arith))
    ∙ skip b'd' (codes "ia/" ++ shard)
        (after-nonhex sha (codes "d") b'i' (codes "a/" ++ shard) hex refl (omega arith))
    ∙ skip b'i' (codes "a/" ++ shard)
        (after-nonhex sha [] b'i' (codes "a/" ++ shard) hex refl (omega arith))
    ∙ skip b'a' (codes "/" ++ shard)
        (after-nonhex sha (codes "a") b'/' shard hex refl (omega arith))
    ∙ skip b'/' shard (after-nonhex sha [] b'/' shard hex refl (omega arith))
    ∙ skip a (b ∷ b'/' ∷ name) (after-nonhex sha (a ∷ b ∷ []) b'/' name hex refl (omega arith))
    ∙ skip b (b'/' ∷ name) (after-nonhex sha (b ∷ []) b'/' name hex refl (omega arith))
    ∙ skip b'/' name (after-nonhex sha [] b'/' name hex refl (omega arith))
    ∙ after_first_here sha a (b ∷ (s ++ ext)) ext (after_self sha ext)
  where
    skip :
        (c : ℕ) (t : Text)
        → after (a ∷ b ∷ s) (c ∷ t) ≡ none
        → after_first (a ∷ b ∷ s) (c ∷ t) ≡ after_first (a ∷ b ∷ s) t
    skip c t e = after_first_later (a ∷ b ∷ s) c t e

of_name-bad :
    (shard sha ext : Text)
    → is_sha sha ≡ true
    → is_key_ext ext ≡ false
    → of_name shard (sha ++ ext) ≡ none
of_name-bad shard sha ext h x =
    rw (take_sha sha ext (length_of_sha sha h), drop_sha sha ext (length_of_sha sha h)) (rw (h, x))

key_ext_of_key :
    (sha ext : Text)
    → is_sha sha ≡ true
    → is_media_key (key_text sha ext) ≡ true
    → is_key_ext ext ≡ true
unfolding is_media_key key_sha256
key_ext_of_key [] ext h k = cc
key_ext_of_key (a ∷ []) ext h k = cc
key_ext_of_key (a ∷ b ∷ s) ext h k = ground (arith, of_name-bad (a ∷ b ∷ []) (a ∷ b ∷ s) ext h)

-- What a legacy location is mapped to is a well-formed key of its sha, and is itself mapped to
-- itself.
pub normalize_legacy_location_idem :
    (value sha key : Text)
    → normalize_legacy_location value sha ≡ some key
    → (key_sha256 key ≡ some sha) × (normalize_legacy_location key sha ≡ some key)
unfolding normalize_legacy_location
normalize_legacy_location_idem value sha key h = elim (Bool-cases (is_sha sha)) [
  | inl good ↦ located (after_first sha value) (rw good at h) good
  | inr bad ↦ ground arith
]
  where
    of_ext :
        (ext : Text)
        → is_media_key (key_text sha ext) ≡ true
        → is_sha sha ≡ true
        → key_text sha ext ≡ key
        → (key_sha256 key ≡ some sha) × (normalize_legacy_location key sha ≡ some key)
    of_ext ext k good e =
        subst (λ t. (key_sha256 t ≡ some sha) × (normalize_legacy_location t sha ≡ some t)) e
          (
            key_sha256-key_text sha ext good (key_ext_of_key sha ext good k),
            rw (good, after_first-key_text sha ext good, k),
          )

    located :
        (found : Option Text)
        → key_with sha found ≡ some key
        → is_sha sha ≡ true
        → (key_sha256 key ≡ some sha) × (normalize_legacy_location key sha ≡ some key)
    located none g good = cc
    located (some ext) g good = elim (Bool-cases (is_media_key (key_text sha ext))) [
      | inl k ↦ of_ext ext k good (ground arith)
      | inr n ↦ ground arith
    ]
