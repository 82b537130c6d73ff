-- ===== src/Base/Decimal.antt =====
-- Decimal numerals: Python's `str` and `int` of numbers in base 10.
use Prim.Native.Nat.{ℕ, zero, suc, ◌+◌, ◌-◌, ◌*◌, ◌/◌, ◌%◌, ◌<◌}
use mathlib.Core.Path.{◌≡◌, refl, ap, sym, ◌∙◌}
use mathlib.Core.Logic.{inl, inr}
use mathlib.Core.Bool.{Bool, true, false, ◌&&◌}
use mathlib.Core.Option.{Option, none, some}
use mathlib.Core.List.{[], ◌∷◌, ◌++◌, reverse, reverse-append, reverse-reverse}
use native.Mathlib.Omega.{arith}
use paperboy.Base.Tests.{◌==◌, ltb, leb, if◌then◌else◌, Bool-cases}
use paperboy.Base.Lists.{All, All-append}
use paperboy.Base.Text.{Text, strip, lstrip}

abbrev pub is_digit : ℕ → Bool
is_digit c = leb 48 c && leb c 57

-- The digits of `n`, with fuel above `n`.
unfoldable pub digits_of : ℕ → ℕ → Text
digits_of zero n = []
digits_of (suc fuel) n =
    let rest = digits_of fuel (n / 10) in
    if ltb n 10 then (48 + n) ∷ [] else rest ++ (48 + n % 10) ∷ []

-- `str(n)`
unfoldable pub decimal : ℕ → Text
unfolding digits_of
decimal n = digits_of (suc n) n

-- The value of digits that follow `acc`; an underscore may stand between two digits. `none` where
-- `int` raises `ValueError`. `after` says that a digit stands before.
pub digits_value : ℕ → Bool → Text → Option ℕ
digits_value acc after [] = if after then some acc else none
digits_value acc after (c ∷ cs) =
    let digit = digits_value (acc * 10 + (c - 48)) true cs in
    let underscore = digits_value acc false cs in
    if is_digit c then digit else if (c == 95) && after then underscore else none

-- `negsuc n` is -(n + 1).
pub data ℤ : Type 0 where
  pos : ℕ → ℤ
  negsuc : ℕ → ℤ

abbrev signed : Bool → Option ℕ → Option ℤ
signed minus none = none
signed minus (some zero) = some (pos 0)
signed minus (some (suc n)) = some (if minus then negsuc n else pos (suc n))

int_signed : Text → Option ℤ
unfolding digits_value
int_signed [] = none
int_signed (c ∷ cs) =
    if c == b'-'
    then signed true (digits_value 0 false cs)
    else if c == b'+'
    then signed false (digits_value 0 false cs)
    else signed false (digits_value 0 false (c ∷ cs))

-- `int(text)`; `none` is `ValueError`.
pub int : Text → Option ℤ
unfolding int_signed
int t = int_signed (strip t)

abbrev pub IsDigits : Text → Type 0
IsDigits t = All (λ c. is_digit c ≡ true) t

digits_of-IsDigits : (fuel n : ℕ) → IsDigits (digits_of fuel n)
unfolding digits_of
digits_of-IsDigits zero n = tt
digits_of-IsDigits (suc fuel) n = elim (Bool-cases (ltb n 10)) [
  | inl small ↦ rw (small, digits_of) (ground arith, tt)
  | inr big ↦
      rw (big, digits_of)
        (All-append (λ c. is_digit c ≡ true) (digits_of fuel (n / 10)) _
          (digits_of-IsDigits fuel (n / 10)) (ground arith, tt))
]

pub decimal-IsDigits : (n : ℕ) → IsDigits (decimal n)
unfolding decimal
decimal-IsDigits n = digits_of-IsDigits (suc n) n

-- The value of a text of digits that follow `acc`.
unfoldable pub value : ℕ → Text → ℕ
value acc [] = acc
value acc (c ∷ cs) = value (acc * 10 + (c - 48)) cs

value-snoc : (acc : ℕ) (t : Text) (d : ℕ) → value acc (t ++ d ∷ []) ≡ value acc t * 10 + (d - 48)
unfolding value
value-snoc acc [] d = refl
value-snoc acc (c ∷ cs) d = value-snoc (acc * 10 + (c - 48)) cs d

value-digits_of : (fuel n : ℕ) → n < fuel → value 0 (digits_of fuel n) ≡ n
unfolding digits_of value
value-digits_of zero n h = absurd (omega arith)
value-digits_of (suc fuel) n h = elim (Bool-cases (ltb n 10)) [
  | inl small ↦ rw (small, digits_of) (omega arith)
  | inr big ↦
      rw (big, digits_of)
        (rw value-snoc (omega (arith, value-digits_of fuel (n / 10) (ground arith))))
]

digits_value-value :
    (acc : ℕ) (t : Text) → IsDigits t → digits_value acc true t ≡ some (value acc t)
unfolding digits_value value
digits_value-value acc [] h = refl
digits_value-value acc (c ∷ cs) h = rw (h.0, digits_value-value (acc * 10 + (c - 48)) cs h.1)

-- A numeral begins with a digit.
abbrev pub Begins : Text → Type 0
Begins t = (c : ℕ) × (cs : Text) × (t ≡ c ∷ cs)

Begins-snoc : (t : Text) (d : ℕ) → Begins (t ++ d ∷ [])
Begins-snoc [] d = (d, [], refl)
Begins-snoc (c ∷ cs) d = (c, cs ++ d ∷ [], refl)

pub Begins-decimal : (n : ℕ) → Begins (decimal n)
unfolding decimal
Begins-decimal n = elim (Bool-cases (ltb n 10)) [
  | inl small ↦ (48 + n, [], rw (small, digits_of))
  | inr big ↦ rw (big, digits_of) (Begins-snoc (digits_of n (n / 10)) (48 + n % 10))
]

lstrip_digits : (t : Text) → IsDigits t → lstrip t ≡ t
lstrip_digits [] h = refl
lstrip_digits (c ∷ cs) h = ground (arith, h.0)

IsDigits-reverse : (t : Text) → IsDigits t → IsDigits (reverse t)
IsDigits-reverse [] h = tt
IsDigits-reverse (c ∷ cs) h =
    rw (reverse-append (c ∷ []) cs) (
      All-append (λ x. is_digit x ≡ true) (reverse cs) (c ∷ []) (IsDigits-reverse cs h.1) (h.0, tt))

pub strip_digits : (t : Text) → IsDigits t → strip t ≡ t
unfolding strip
strip_digits t h =
    rw (lstrip_digits t h, lstrip_digits (reverse t) (IsDigits-reverse t h)) (reverse-reverse t)

pub value-decimal : (n : ℕ) → value 0 (decimal n) ≡ n
unfolding decimal
value-decimal n = value-digits_of (suc n) n (omega arith)

signed_plus : (n : ℕ) → signed false (some n) ≡ some (pos n)
signed_plus zero = refl
signed_plus (suc n) = refl

int_signed-digits :
    (c : ℕ) (cs : Text) → IsDigits (c ∷ cs) → int_signed (c ∷ cs) ≡ some (pos (value 0 (c ∷ cs)))
unfolding int_signed value
int_signed-digits c cs h =
    rw (no_sign 45 (omega arith), no_sign 43 (omega arith), h.0)
      (rw (digits_value-value (0 + (c - 48)) cs h.1) (signed_plus (value (0 + (c - 48)) cs)))
  where
    no_sign : (d : ℕ) → d < 48 → (c == d) ≡ false
    no_sign d below = ground (arith, h.0)

-- Reading a numeral back gives its number.
pub int-decimal : (n : ℕ) → int (decimal n) ≡ some (pos n)
unfolding int
int-decimal n = rw (strip_digits (decimal n) (decimal-IsDigits n)) (of_digits (Begins-decimal n))
  where
    of_digits : Begins (decimal n) → int_signed (decimal n) ≡ some (pos n)
    of_digits (c, cs, e) = rw e (
        int_signed-digits c cs (rw e at (decimal-IsDigits n))
        ∙ ap (λ k. some (pos k)) (ap (value 0) (sym e) ∙ value-decimal n))
