-- ===== src/Base/Text.antt =====
-- Texts as lists of ASCII codes: equality, splitting and stripping, as Python's `str` has them.
use Prim.Native.Char.{code}
use Prim.Native.String.{String}
use Prim.Native.Nat.{ℕ}
use mathlib.Core.Path.{◌≡◌, refl}
use mathlib.Core.Logic.{◌↔◌}
use mathlib.Core.Bool.{Bool, true, false, ◌&&◌, ◌||◌}
use mathlib.Core.List.{List, [], ◌∷◌, ◌++◌, reverse}
use native.Mathlib.Omega.{arith}
use paperboy.Base.Tests.{◌==◌, leb, if◌then◌else◌, ==_iff}
use paperboy.Base.Lists.{All}

abbrev pub Text : Type 0
Text = List ℕ

-- A literal's codes.
abbrev pub codes : String → Text
codes String.[] = []
codes (String.◌∷◌ c s) = code c ∷ codes s

abbrev pub text_eq : Text → Text → Bool
text_eq [] [] = true
text_eq [] (y ∷ ys) = false
text_eq (x ∷ xs) [] = false
text_eq (x ∷ xs) (y ∷ ys) = (x == y) && text_eq xs ys

pub text_eq_refl : (t : Text) → text_eq t t ≡ true
text_eq_refl [] = refl
text_eq_refl (x ∷ xs) = ground (arith, text_eq_refl xs)

pub text_eq→eq : (s t : Text) → text_eq s t ≡ true → s ≡ t
text_eq→eq [] [] h = refl
text_eq→eq [] (y ∷ ys) h = cc
text_eq→eq (x ∷ xs) [] h = cc
text_eq→eq (x ∷ xs) (y ∷ ys) h = ground (arith, text_eq→eq xs ys)

pub text_eq_iff : (s t : Text) → (text_eq s t ≡ true) ↔ (s ≡ t)
text_eq_iff s t = (text_eq→eq s t, λ e. rw e (text_eq_refl t))

-- The first piece of a split gets one more character in front.
abbrev pub cons_head : ℕ → List Text → List Text
cons_head x [] = (x ∷ []) ∷ []
cons_head x (t ∷ ts) = (x ∷ t) ∷ ts

-- `text.split(c)`
unfoldable pub split_on : ℕ → Text → List Text
split_on c [] = [] ∷ []
split_on c (x ∷ xs) = let rest = split_on c xs in if x == c then [] ∷ rest else cons_head x rest

abbrev pub IsFree : ℕ → Text → Type 0
IsFree c t = All (λ x. (x == c) ≡ false) t

pub split_on_free : (c : ℕ) (t : Text) → IsFree c t → split_on c t ≡ t ∷ []
unfolding split_on
split_on_free c [] h = refl
split_on_free c (x ∷ xs) h = rw (h.0, split_on_free c xs h.1)

pub split_on-append : (c : ℕ) (s t : Text) → IsFree c s → split_on c (s ++ c ∷ t) ≡ s ∷ split_on c t
unfolding split_on
split_on-append c [] t h = rw ((==_iff c c).1 refl)
split_on-append c (x ∷ xs) t h = rw (h.0, split_on-append c xs t h.1)

-- The ASCII characters that `str.isspace` accepts.
abbrev pub is_space : ℕ → Bool
is_space c = (leb 9 c && leb c 13) || (leb 28 c && leb c 32)

abbrev pub lstrip : Text → Text
lstrip [] = []
lstrip (x ∷ xs) = let rest = lstrip xs in if is_space x then rest else x ∷ xs

-- `text.strip()`
unfoldable pub strip : Text → Text
strip t = reverse (lstrip (reverse (lstrip t)))
