-- ===== src/Inputs/Scan.antt =====
-- The pieces of a text that the regular expressions of targets.py and media_list.py ask for. The
-- classes of characters are those of ASCII.
use paperboy.Base.{
  ℕ, ◌≡◌, ◌∙◌, refl, Bool, true, false, ◌&&◌, ◌||◌, Option, none, some, [], ◌∷◌, ◌++◌, arith,
  if◌then◌else◌, ◌==◌, leb, length, All, All-append,
}
use paperboy.Base.Text.{Text, codes, is_space, lstrip, strip}
use paperboy.Base.Decimal.{decimal, is_digit, IsDigits, decimal-IsDigits, Begins, Begins-decimal}
use paperboy.Ids.Peer.{lower_char}
use mathlib.Core.List.{reverse, reverse-append, reverse-reverse}

-- What follows the given beginning.
abbrev pub after : Text → Text → Option Text
after [] t = some t
after (c ∷ p) [] = none
after (c ∷ p) (x ∷ t) = if x == c then after p t else none

-- The same with `re.IGNORECASE`. The beginning is given in lower case.
abbrev pub after_nocase : Text → Text → Option Text
after_nocase [] t = some t
after_nocase (c ∷ p) [] = none
after_nocase (c ∷ p) (x ∷ t) = if lower_char x == c then after_nocase p t else none

abbrev pub or_whole : Text → Option Text → Text
or_whole t none = t
or_whole t (some r) = r

-- `(https?://)?`
abbrev pub skip_http : Text → Text
skip_http t = elim (after_nocase (codes "https://") t) [
  | some r ↦ r
  | none ↦ or_whole t (after_nocase (codes "http://") t)
]

abbrev pub skip_www : Text → Text
skip_www t = or_whole t (after_nocase (codes "www.") t)

-- What follows `^(https?://)?(www\.)?t\.me/`
unfoldable pub after_site : Text → Option Text
after_site t = after_nocase (codes "t.me/") (skip_www (skip_http t))

-- The longest beginning whose characters pass the test, and what follows it.
unfoldable pub run : (ℕ → Bool) → Text → Text
run p [] = []
run p (x ∷ xs) = if p x then x ∷ run p xs else []

unfoldable pub rest : (ℕ → Bool) → Text → Text
rest p [] = []
rest p (x ∷ xs) = if p x then rest p xs else x ∷ xs

abbrev pub is_alpha : ℕ → Bool
is_alpha c = (leb b'A' c && leb c b'Z') || (leb b'a' c && leb c b'z')

-- `[A-Za-z0-9_]`
abbrev pub is_word : ℕ → Bool
is_word c = is_alpha c || (is_digit c || (c == b'_'))

-- `[A-Za-z][A-Za-z0-9_]{0,31}`, of a run of word characters.
abbrev pub is_handle : Text → Bool
is_handle [] = false
is_handle (c ∷ cs) = is_alpha c && leb (length cs) 31

-- The whole text passes the test, and it is not empty.
abbrev pub all_chars : (ℕ → Bool) → Text → Bool
all_chars p [] = true
all_chars p (x ∷ xs) = p x && all_chars p xs

abbrev pub is_run : (ℕ → Bool) → Text → Bool
is_run p [] = false
is_run p (x ∷ xs) = all_chars p (x ∷ xs)

-- A text that does not go on with characters of the run.
abbrev pub Stops : (ℕ → Bool) → Text → Type 0
Stops p [] = Unit
Stops p (x ∷ xs) = p x ≡ false

module _ (p : ℕ → Bool) where
  pub run-append : (s t : Text) → All (λ c. p c ≡ true) s → Stops p t → run p (s ++ t) ≡ s
  unfolding run
  run-append [] [] h stop = refl
  run-append [] (x ∷ t) h stop = rw stop
  run-append (x ∷ s) t h stop = rw (h.0, run-append s t h.1 stop)

  pub rest-append : (s t : Text) → All (λ c. p c ≡ true) s → Stops p t → rest p (s ++ t) ≡ t
  unfolding rest
  rest-append [] [] h stop = refl
  rest-append [] (x ∷ t) h stop = rw stop
  rest-append (x ∷ s) t h stop = rw h.0 (rest-append s t h.1 stop)

  pub run-All : (s : Text) → All (λ c. p c ≡ true) s → run p s ≡ s
  unfolding run
  run-All [] h = refl
  run-All (x ∷ s) h = rw (h.0, run-All s h.1)

  pub rest-All : (s : Text) → All (λ c. p c ≡ true) s → rest p s ≡ []
  unfolding rest
  rest-All [] h = refl
  rest-All (x ∷ s) h = rw h.0 (rest-All s h.1)

  all_chars_of : (s : Text) → All (λ c. p c ≡ true) s → all_chars p s ≡ true
  all_chars_of [] h = refl
  all_chars_of (x ∷ s) h = rw (h.0, all_chars_of s h.1)

is_run_begun : (p : ℕ → Bool) (t : Text) → Begins t → is_run p t ≡ all_chars p t
is_run_begun p t (c, cs, e) = rw e refl

pub is_run-decimal : (n : ℕ) → is_run is_digit (decimal n) ≡ true
is_run-decimal n =
    is_run_begun is_digit (decimal n) (Begins-decimal n)
    ∙ all_chars_of is_digit (decimal n) (decimal-IsDigits n)

-- No character of the text is white space.
abbrev pub IsSpaceless : Text → Type 0
IsSpaceless t = All (λ c. is_space c ≡ false) t

lstrip_spaceless : (t : Text) → IsSpaceless t → lstrip t ≡ t
lstrip_spaceless [] h = refl
lstrip_spaceless (c ∷ cs) h = rw h.0

IsSpaceless-reverse : (t : Text) → IsSpaceless t → IsSpaceless (reverse t)
IsSpaceless-reverse [] h = tt
IsSpaceless-reverse (c ∷ cs) h = rw (reverse-append (c ∷ []) cs) (
    All-append (λ x. is_space x ≡ false) (reverse cs) (c ∷ []) (IsSpaceless-reverse cs h.1)
      (h.0, tt))

pub strip_spaceless : (t : Text) → IsSpaceless t → strip t ≡ t
unfolding strip
strip_spaceless t h =
    rw (lstrip_spaceless t h, lstrip_spaceless (reverse t) (IsSpaceless-reverse t h))
      (reverse-reverse t)

pub IsDigits-IsSpaceless : (t : Text) → IsDigits t → IsSpaceless t
IsDigits-IsSpaceless [] h = tt
IsDigits-IsSpaceless (c ∷ cs) h = (ground (arith, h.0), IsDigits-IsSpaceless cs h.1)
