-- ===== src/Ids/Utf16.antt =====
-- ids.py, `utf16_slice`: a slice by UTF-16 code units. A text is a list of code points, and an
-- encoded text a list of 16-bit units (each two bytes of `utf-16-le`).
use paperboy.Base.{
  ℕ, ◌+◌, ◌-◌, ◌*◌, ◌/◌, ◌%◌, ◌<◌, ◌≤◌, ◌≡◌, refl, sym, ap, ◌∙◌, ◌⊎◌, inl, inr, Bool, true, false,
  ◌&&◌, Option, none, some, List, [], ◌∷◌, ◌++◌, arith, ltb, leb, if◌then◌else◌, Bool-cases, length,
  take, drop, take-append, drop-append, All, All-append,
}
use mathlib.Core.Option
use mathlib.Core.List.{append_assoc, append-nil}

abbrev pub encode_char : ℕ → List ℕ
encode_char c =
    if ltb c 0x10000
    then c ∷ []
    else (0xD800 + (c - 0x10000) / 0x400) ∷ (0xDC00 + (c - 0x10000) % 0x400) ∷ []

abbrev pub is_surrogate : ℕ → Bool
is_surrogate c = leb 0xD800 c && leb c 0xDFFF

-- `text.encode("utf-16-le")`; a surrogate in the text raises `UnicodeEncodeError`, here `none`.
pub encode : List ℕ → Option (List ℕ)
encode [] = some []
encode (c ∷ cs) =
    let rest = encode cs in
    if is_surrogate c then none else Option.map (λ us. encode_char c ++ us) rest

abbrev pub is_high : ℕ → Bool
is_high u = leb 0xD800 u && leb u 0xDBFF

abbrev pub is_low : ℕ → Bool
is_low u = leb 0xDC00 u && leb u 0xDFFF

-- `.decode("utf-16-le", errors="ignore")`: `pending` is a high surrogate that waits for its low one;
-- an unpaired surrogate is dropped.
pub decode : Option ℕ → List ℕ → List ℕ
decode pending [] = []
decode none (u ∷ us) =
    let high = decode (some u) us in
    let skip = decode none us in if is_high u then high else if is_low u then skip else u ∷ skip
decode (some h) (u ∷ us) =
    let high = decode (some u) us in
    let rest = decode none us in
    if is_low u
    then (0x10000 + (h - 0xD800) * 0x400 + (u - 0xDC00)) ∷ rest
    else if is_high u
    then high
    else u ∷ rest

unfoldable pub utf16_slice : List ℕ → ℕ → ℕ → Option (List ℕ)
unfolding encode decode
utf16_slice text offset len =
    Option.map (λ us. decode none (take len (drop offset us))) (encode text)

-- A code point that text can hold: in Unicode's range, and no surrogate.
abbrev pub IsScalar : ℕ → Type 0
IsScalar c = (c < 0xD800) ⊎ ((0xE000 ≤ c) × (c < 0x110000))

decode-encode_char :
    (c : ℕ) (us : List ℕ) → IsScalar c → decode none (encode_char c ++ us) ≡ c ∷ decode none us
unfolding decode
decode-encode_char c us h = elim (Bool-cases (ltb c 0x10000)) [
  | inl small ↦ rw small (ground arith)
  | inr big ↦ rw big (rw (high big, low) (ap (λ n. n ∷ decode none us) (joined big)))
]
  where
    high : ltb c 0x10000 ≡ false → is_high (0xD800 + (c - 0x10000) / 0x400) ≡ true
    high big = ground (arith, h)

    low : is_low (0xDC00 + (c - 0x10000) % 0x400) ≡ true
    low = ground arith

    joined :
        ltb c 0x10000 ≡ false
        → 0x10000
            + (0xD800 + (c - 0x10000) / 0x400 - 0xD800) * 0x400
            + (0xDC00 + (c - 0x10000) % 0x400 - 0xDC00)
          ≡ c
    joined big = ground arith

-- The units of a text without surrogates.
units_of : List ℕ → List ℕ
units_of [] = []
units_of (c ∷ cs) = encode_char c ++ units_of cs

decode-units_of :
    (t us : List ℕ) → All IsScalar t → decode none (units_of t ++ us) ≡ t ++ decode none us
unfolding units_of
decode-units_of [] us h = refl
decode-units_of (c ∷ cs) us h =
    rw (append_assoc (encode_char c) (units_of cs) us)
      (decode-encode_char c (units_of cs ++ us) h.0 ∙ ap (λ l. c ∷ l) (decode-units_of cs us h.1))

units_of-append : (s t : List ℕ) → units_of (s ++ t) ≡ units_of s ++ units_of t
unfolding units_of
units_of-append [] t = refl
units_of-append (c ∷ cs) t =
    rw (units_of-append cs t) (sym (append_assoc (encode_char c) (units_of cs) (units_of t)))

encode-units_of : (t : List ℕ) → All IsScalar t → encode t ≡ some (units_of t)
unfolding encode units_of
encode-units_of [] h = refl
encode-units_of (c ∷ cs) h = rw (scalar, encode-units_of cs h.1) refl
  where
    scalar : is_surrogate c ≡ false
    scalar = ground (arith, h.0)

-- The code units of a text: two for a character beyond the first plane, one for any other.
abbrev pub units : List ℕ → ℕ
units [] = 0
units (c ∷ cs) = (if ltb c 0x10000 then 1 else 2) + units cs

length-units_of : (t : List ℕ) → length (units_of t) ≡ units t
unfolding units_of
length-units_of [] = refl
length-units_of (c ∷ cs) = elim (Bool-cases (ltb c 0x10000)) [
  | inl small ↦ rw small (omega (arith, length-units_of cs))
  | inr big ↦ rw big (omega (arith, length-units_of cs))
]

-- In a text without surrogates, the slice at the units of `a`, as many units as `b` has, is `b`,
-- whatever comes before and after: characters beyond the first plane count as two units.
pub utf16_slice-append :
    (a b c : List ℕ)
    → All IsScalar a
    → All IsScalar b
    → All IsScalar c
    → utf16_slice (a ++ (b ++ c)) (units a) (units b) ≡ some b
unfolding utf16_slice
utf16_slice-append a b c ha hb hc =
    rw
      (
        encode-units_of (a ++ (b ++ c))
            (All-append IsScalar a (b ++ c) ha (All-append IsScalar b c hb hc)),
        ← length-units_of a,
        ← length-units_of b,
        units_of-append a (b ++ c),
        drop-append (units_of a) (units_of (b ++ c)),
        units_of-append b c,
        take-append (units_of b) (units_of c),
      )
      (ap some
        (ap (decode none) (sym (append-nil (units_of b))) ∙ decode-units_of b [] hb ∙ append-nil b))

encode-surrogate : (a b : List ℕ) (c : ℕ) → is_surrogate c ≡ true → encode (a ++ (c ∷ b)) ≡ none
unfolding encode
encode-surrogate [] b c h = rw h refl
encode-surrogate (x ∷ a) b c h = elim (Bool-cases (is_surrogate x)) [
  | inl y ↦ rw y refl
  | inr n ↦ rw (n, encode-surrogate a b c h) refl
]

-- A surrogate anywhere in the text makes the slice raise, wherever it is taken.
utf16_slice-surrogate :
    (a b : List ℕ) (c offset len : ℕ)
    → is_surrogate c ≡ true
    → utf16_slice (a ++ (c ∷ b)) offset len ≡ none
unfolding utf16_slice
utf16_slice-surrogate a b c offset len h = rw (encode-surrogate a b c h) refl
